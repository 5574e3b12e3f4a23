-- ===== src/Emac/Tx/Copy.antt =====
-- Chains in slow memory.
use rtu_com.Common.{
  ◌≡◌, ◌≤◌, ◌<◌, ◌^◌, List, [], ◌∷◌, Bool, true, false, ◌&&◌, leb, length, Option, none, some,
}
use rtu_com.Emac.Tx.{
  TxCall, memcpy, Packet, Block, segments, Tx, slow_start, slow_end, needs_copy, copied_bytes,
}

-- The heap of lwIP does not lie in slow memory, and the chain fits the pbuf and a length of 16 bits.
pub record Fits (p : Packet) (wp : Block) : Type 0 where
  pub fast : (leb slow_start wp.payload && leb wp.payload slow_end) ≡ false
  pub room : length (copied_bytes (segments p)) ≤ wp.room
  pub len : length (copied_bytes (segments p)) < 2 ^ 16

abbrev pub FitsAnswer : Packet → Option Block → Type 0
FitsAnswer p none = Unit
FitsAnswer p (some wp) = Fits p wp

-- No `MEMCPY` among the calls went past its room.
abbrev pub IsWithin : List TxCall → Type 0
IsWithin [] = Unit
IsWithin (memcpy n room ∷ cs) = (n ≤ room) × IsWithin cs
IsWithin (c ∷ cs) = IsWithin cs

-- What is sent of a chain.
abbrev pub Carries : Packet → Option (Packet × Bool × Tx) → Type 0
Carries p none = needs_copy (segments p) ≡ true
Carries p (some (q, pcopy, t)) =
    (copied_bytes (segments q) ≡ copied_bytes (segments p))
    × ((needs_copy (segments q) ≡ false) × IsWithin t.calls)
