-- ===== src/Emac/Tx.antt =====
-- The transmitting half of lwip/src/arch/lpc18xx_43xx_emac.c: `lpc_tx_setup` and
-- `lpc_low_level_output`. A control word is the record of the bits that the driver writes or tests,
-- whose values are in a header of the chip; a `struct pbuf *` is a number. An array is a function of
-- its index. What the driver calls is recorded, the last call first.
pub mod Pending
pub mod Transmit
pub mod CleanUp
pub mod Reclaim
pub mod Runs
pub mod Copy
pub mod Clean
pub mod Frames
pub mod Order
use rtu_com.Common.{
  ℕ, zero, suc, ◌+◌, ◌-◌, ◌*◌, ◌%◌, ◌^◌, List, [], ◌∷◌, ◌++◌, Bool, true, false, not, ◌&&◌, ◌||◌,
  ltb, leb, ◌==◌, if◌then◌else◌, length, take, Option, none, some,
}
use rtu_com.Emac.{num_buff_txdescs, next_idx}
use rtu_com.Emac.Ring.{set}

-- One pbuf of a chain: the address of its payload, and the bytes there.
pub record Segment : Type 0 where
  pub payload : ℕ
  pub bytes : List ℕ

-- A chain: the pointer to its first pbuf, and the pbufs.
pub record Packet : Type 0 where
  pub ref : ℕ
  pub first : Segment
  pub others : List Segment

abbrev pub segments : Packet → List Segment
segments p = p.first ∷ p.others

-- `ENET_ENHTXDESC_T`.
pub record TxDesc : Type 0 where
  pub own : Bool  -- TDES_OWN
  pub fs : Bool  -- TDES_ENH_FS
  pub ls : Bool  -- TDES_ENH_LS
  pub ic : Bool  -- TDES_ENH_IC
  pub tch : Bool  -- TDES_ENH_TCH
  pub ter : Bool  -- TDES_ENH_TER
  pub cic : Bool  -- TDES_ENH_CIC(3)
  pub b1add : ℕ
  pub bsize : ℕ
  pub b2add : ℕ  -- the index of the descriptor that it points to

pub data TxCall : Type 0 where
  pbuf_alloc_ram : ℕ → TxCall
  memcpy : ℕ → ℕ → TxCall  -- the bytes written, and the room from the destination on
  pbuf_ref : ℕ → TxCall
  pbuf_free : ℕ → TxCall
  mutex_lock : TxCall
  mutex_unlock : TxCall
  count_give : TxCall
  poll_demand : TxCall

-- The transmitting fields of `struct lpc_enetdata`, and the calls so far.
pub record Tx : Type 0 where
  pub ptdesc : ℕ → TxDesc
  pub txpbufs : ℕ → Option ℕ
  pub tx_free_descs : ℕ
  pub tx_fill_idx : ℕ
  pub tx_reclaim_idx : ℕ
  pub calls : List TxCall

abbrev pub log : TxCall → Tx → Tx
log c t = record t { calls = c ∷ t.calls }

-- `memset` to 0.
abbrev pub zero_desc : TxDesc
zero_desc = record {
  own = false;
  fs = false;
  ls = false;
  ic = false;
  tch = false;
  ter = false;
  cic = false;
  b1add = 0;
  bsize = 0;
  b2add = 0;
}

-- A descriptor as `lpc_tx_setup` links it.
abbrev pub setup_desc : ℕ → TxDesc
setup_desc idx =
    if idx == num_buff_txdescs - 1
    then record zero_desc { tch = true; ter = true; cic = true; b2add = 0 }
    else record zero_desc { tch = true; cic = true; b2add = idx + 1 }

unfoldable pub lpc_tx_setup : Tx → Tx
lpc_tx_setup t = record t {
  ptdesc = setup_desc;
  tx_free_descs = num_buff_txdescs;
  tx_fill_idx = 0;
  tx_reclaim_idx = 0;
}

-- LPC_SLOWMEM_ARRAY has one range.
abbrev pub slow_start : ℕ
slow_start = 0x14000000

abbrev pub slow_end : ℕ
slow_end = 0x14000000 + (8 * 1024 * 1024 - 1)

unfoldable pub needs_copy : List Segment → Bool
needs_copy [] = false
needs_copy (q ∷ qs) = (leb slow_start q.payload && leb q.payload slow_end) || needs_copy qs

-- The loop of `MEMCPY`.
unfoldable pub copied_bytes : List Segment → List ℕ
copied_bytes [] = []
copied_bytes (q ∷ qs) = q.bytes ++ copied_bytes qs

-- What `pbuf_alloc(PBUF_RAW, EMAC_ETH_MAX_FLEN, PBUF_RAM)` answers: a pbuf, its payload, and the room
-- that it has there. EMAC_ETH_MAX_FLEN is in a header of the chip.
pub record Block : Type 0 where
  pub ref : ℕ
  pub payload : ℕ
  pub room : ℕ

-- `wp->tot_len` and `wp->len`, which are u16_t, when the loop has added the lengths.
abbrev pub copied_len : Packet → ℕ
copied_len p = length (copied_bytes (segments p)) % 2 ^ 16

-- The copy of a chain in the pbuf `wp`: the bytes from its payload on that its length counts.
unfoldable pub copy_of : Block → Packet → Packet
unfolding copied_bytes
copy_of wp p = record {
  ref = wp.ref;
  first = record { payload = wp.payload; bytes = take (copied_len p) (copied_bytes (segments p)) };
  others = [];
}

-- `pbuf_alloc` and the loop of `MEMCPY`, which writes all the bytes, with no look at the room. What lies
-- behind the room is not modelled: the call shows that it is overwritten.
abbrev pub copied : Block → Packet → Tx → Tx
copied wp p t =
    log (memcpy (length (copied_bytes (segments p))) wp.room) (log (pbuf_alloc_ram wp.ref) t)

-- The chain that is sent, whether it is a copy, and the driver; `none` is the return of ERR_MEM. The
-- first argument is the answer of `pbuf_alloc`.
unfoldable pub relocate : Option Block → Packet → Tx → Option (Packet × Bool × Tx)
unfolding needs_copy copy_of
relocate alloc p t =
    if needs_copy (segments p)
    then (elim alloc [ none ↦ none | some wp ↦ some (copy_of wp p, true, copied wp p t) ])
    else some (p, false, t)

-- `tx_free_descs--` on a `u32_t`.
abbrev pub pred32 : ℕ → ℕ
pred32 n = (n + 2 ^ 32 - 1) % 2 ^ 32

abbrev pub is_last : List Segment → Bool
is_last [] = true
is_last (q ∷ qs) = false

-- The body of the loop that fills a descriptor.
unfoldable pub fill_desc : ℕ → Packet → Bool → Segment → Bool → ℕ → Tx → Tx
fill_desc fidx sendp pcopy q last idx t =
    let d₁ = record (t.ptdesc idx) { b1add = q.payload; bsize = length q.bytes } in
    let d₂ = if idx == fidx then record d₁ { fs = true } else record d₁ { own = true } in
    let d₃ = if last then record d₂ { ls = true; ic = true } else d₂ in
    let d₄ = record d₃ { cic = true } in
    let t₁ = if (idx == fidx) && not pcopy then log (pbuf_ref sendp.ref) t else t in
    record t₁ {
      ptdesc = set t.ptdesc idx d₄;
      txpbufs = set t.txpbufs idx (if last then some sendp.ref else none);
      tx_free_descs = pred32 t.tx_free_descs;
    }

-- `while (dn > 0) { ... }`: the driver and the index behind the last descriptor.
unfoldable pub fill_descs : ℕ → Packet → Bool → List Segment → ℕ → Tx → Tx × ℕ
unfolding fill_desc
fill_descs fidx sendp pcopy [] idx t = (t, idx)
fill_descs fidx sendp pcopy (q ∷ qs) idx t =
    fill_descs fidx sendp pcopy qs (next_idx num_buff_txdescs idx)
      (fill_desc fidx sendp pcopy q (is_last qs) idx t)

-- From the lock on: the descriptors are filled, and the first one is handed over last.
unfoldable pub transmit : Packet → Bool → Tx → Tx
unfolding fill_descs
transmit sendp pcopy t =
    let fidx = t.tx_fill_idx in
    let (t₁, idx) = fill_descs fidx sendp pcopy (segments sendp) fidx (log mutex_lock t) in
    let first = record (t₁.ptdesc fidx) { own = true } in
    let t₂ = record t₁ { tx_fill_idx = idx; ptdesc = set t₁.ptdesc fidx first } in
    log mutex_unlock (log poll_demand t₂)

-- What a call of `lpc_low_level_output` comes to: ERR_MEM, ERR_OK, or the thread still waits for
-- descriptors, with the chain that it is to send.
pub data Output : Type 0 where
  err_mem : Output
  waits : Packet → Bool → Tx → Output
  sent : Tx → Output

-- `while (dn > lpc_tx_ready(netif)) ...`, looked at once, and what comes after it. `pbuf_clen` is the
-- number of pbufs.
unfoldable pub send_when_ready : Packet → Bool → Tx → Output
unfolding transmit
send_when_ready sendp pcopy t =
    if ltb t.tx_free_descs (length (segments sendp))
    then waits sendp pcopy t
    else sent (transmit sendp pcopy t)

abbrev pub send_relocated : Option (Packet × Bool × Tx) → Output
send_relocated none = err_mem
send_relocated (some (sendp, pcopy, t)) = send_when_ready sendp pcopy t

unfoldable pub lpc_low_level_output : Option Block → Packet → Tx → Output
unfolding relocate send_when_ready
lpc_low_level_output alloc p t = send_relocated (relocate alloc p t)
