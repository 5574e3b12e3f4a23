-- ===== src/Report/Decimal.antt =====
-- The digits that `%d` prints, and the number that they read back to.
use rtu_com.Common.{
  ℕ, zero, suc, ◌+◌, ◌-◌, ◌*◌, ◌/◌, ◌%◌, ◌≤◌, ◌<◌, List, [], ◌∷◌, ◌++◌, ◌≡◌, refl, arith, length,
  length-append, All, inl, inr, Bool-cases, ltb,
}
use rtu_com.Report.{decimal_rounds, decimal}

-- The value of a list of digits, the first digit the highest.
value_from : ℕ → List ℕ → ℕ
value_from a [] = a
value_from a (c ∷ cs) = value_from (a * 10 + (c - b'0')) cs

unfoldable pub value : List ℕ → ℕ
unfolding value_from
value xs = value_from 0 xs

value-append :
    (a : ℕ) (xs : List ℕ) (c : ℕ) → value_from a (xs ++ c ∷ []) ≡ value_from a xs * 10 + (c - b'0')
unfolding value_from
value-append a [] c = refl
value-append a (x ∷ xs) c = value-append (a * 10 + (x - b'0')) xs c

value-decimal_rounds : (f n : ℕ) → n < f → value (decimal_rounds f n) ≡ n
unfolding decimal_rounds value
value-decimal_rounds zero n h = absurd (omega arith)
value-decimal_rounds (suc f) n h = elim (Bool-cases (ltb n 10)) [
  | inl e ↦ ground arith
  | inr e ↦ ground (
    arith,
    value-append 0 (decimal_rounds f (n / 10)) (n % 10 + b'0'),
    value-decimal_rounds f (n / 10) (ground arith),
  )
]

pub value-decimal : (n : ℕ) → value (decimal n) ≡ n
unfolding decimal
value-decimal n = value-decimal_rounds (suc n) n (omega arith)

-- Characters that are digits.
abbrev pub AreDigits : List ℕ → Type 0
AreDigits = All (λ c. (b'0' ≤ c) × (c ≤ b'9'))

AreDigits-append :
    (xs : List ℕ) (c : ℕ) → AreDigits xs → b'0' ≤ c → c ≤ b'9' → AreDigits (xs ++ c ∷ [])
AreDigits-append [] c h lo hi = ((lo, hi), tt)
AreDigits-append (x ∷ xs) c h lo hi = (h.0, AreDigits-append xs c h.1 lo hi)

decimal_rounds-AreDigits : (f n : ℕ) → AreDigits (decimal_rounds f n)
unfolding decimal_rounds
decimal_rounds-AreDigits zero n = tt
decimal_rounds-AreDigits (suc f) n = elim (Bool-cases (ltb n 10)) [
  | inl e ↦ rw e (ground arith)
  | inr e ↦ rw e (
      AreDigits-append (decimal_rounds f (n / 10)) (n % 10 + b'0')
        (decimal_rounds-AreDigits f (n / 10)) (omega arith) (omega arith))
]

pub decimal-AreDigits : (n : ℕ) → AreDigits (decimal n)
unfolding decimal
decimal-AreDigits n = decimal_rounds-AreDigits (suc n) n

-- 10 to the power `k + 1`.
abbrev pub ten_pow : ℕ → ℕ
ten_pow zero = 10
ten_pow (suc k) = 10 * ten_pow k

length-decimal_rounds : (k f n : ℕ) → n < ten_pow k → length (decimal_rounds f n) ≤ suc k
unfolding decimal_rounds
length-decimal_rounds k zero n h = omega arith
length-decimal_rounds zero (suc f) n h = ground arith
length-decimal_rounds (suc k) (suc f) n h = elim (Bool-cases (ltb n 10)) [
  | inl e ↦ rw e (omega arith)
  | inr e ↦ rw e (
      omega (
        arith,
        length-append (decimal_rounds f (n / 10)) ((n % 10 + b'0') ∷ []),
        length-decimal_rounds k f (n / 10) (omega arith),
      ))
]

-- A number below `10 ^ (k + 1)` has at most `k + 1` digits.
pub length-decimal : (k n : ℕ) → n < ten_pow k → length (decimal n) ≤ suc k
unfolding decimal
length-decimal k n h = length-decimal_rounds k (suc n) n h
