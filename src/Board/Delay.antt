-- ===== src/Board/Delay.antt =====
-- How long `msDelay` waits.
use rtu_com.Common.{ℕ, ◌≤◌, ◌<◌, ◌≡◌, ◌⊎◌, inl, inr, leb, Bool-cases, arith}
use rtu_com.Board.{ms_delay}

-- The delay has as many ticks, of a millisecond each, as it was asked for, unless that is more than
-- 4294967; whatever was asked for, it has no more than that.
pub ms_delay_bounds : (ms : ℕ) → (ms_delay ms ≤ 4294967) × ((ms_delay ms ≡ ms) ⊎ (4294967 < ms))
unfolding ms_delay
ms_delay_bounds ms = elim (Bool-cases (leb ms 4294967)) [
  | inl e ↦ let small : ms ≤ 4294967 = ground arith in (omega arith, inl (omega arith))
  | inr e ↦ (omega arith, inr (ground arith))
]
