-- ===== src/Common/Text.antt =====
-- C strings: a `char` array is the list of its bytes, and the list of a literal leaves out the NUL
-- that ends it.
use Prim.Native.Nat.{ℕ, zero, suc, compare, Ordering}
use Prim.Native.Char.{code}
use Prim.Native.String.{String}
use mathlib.Core.Path.{◌≡◌, refl}
use mathlib.Core.Logic.{◌≢◌}
use mathlib.Core.Bool.{Bool, true, false}
use mathlib.Core.List.{List, [], ◌∷◌}
use native.Mathlib.Omega.{arith}
use rtu_com.Common.Tests.{◌==◌, if◌then◌else◌}
use rtu_com.Common.Lists.{length, All}

-- The bytes of an ASCII literal.
abbrev pub codes : String → List ℕ
codes String.[] = []
codes (String.◌∷◌ c s) = code c ∷ codes s

-- `strncmp` of <string.h>: the order of the first `n` characters, up to a NUL; `Ordering.eq` is the
-- result 0. A list that ends is followed by a NUL.
unfoldable pub strncmp : List ℕ → List ℕ → ℕ → Ordering
strncmp xs ys zero = Ordering.eq
strncmp [] [] (suc n) = Ordering.eq
strncmp [] (y ∷ ys) (suc n) = compare 0 y
strncmp (x ∷ xs) [] (suc n) = compare x 0
strncmp (x ∷ xs) (y ∷ ys) (suc n) = elim (compare x y) [
  | Ordering.eq ↦ if x == 0 then Ordering.eq else strncmp xs ys n
  | Ordering.lt ↦ Ordering.lt
  | Ordering.gt ↦ Ordering.gt
]

abbrev pub is_eq : Ordering → Bool
is_eq Ordering.eq = true
is_eq _ = false

-- A text whose first `n` characters hold no NUL is found by `strncmp` only where they all agree.
pub strncmp-eq :
    (n : ℕ) (xs ys : List ℕ)
    → length xs ≡ n
    → length ys ≡ n
    → All (λ y. y ≢ 0) ys
    → is_eq (strncmp xs ys n) ≡ true
    → xs ≡ ys
unfolding strncmp
strncmp-eq zero [] [] p q h e = refl
strncmp-eq zero [] (y ∷ ys) p q h e = absurd (omega arith)
strncmp-eq zero (x ∷ xs) ys p q h e = absurd (omega arith)
strncmp-eq (suc n) [] ys p q h e = absurd (omega arith)
strncmp-eq (suc n) (x ∷ xs) [] p q h e = absurd (omega arith)
strncmp-eq (suc n) (x ∷ xs) (y ∷ ys) p q h e =
    ground (arith, strncmp-eq n xs ys (omega arith) (omega arith) h.1)

pub strncmp_self : (n : ℕ) (xs : List ℕ) → strncmp xs xs n ≡ Ordering.eq
unfolding strncmp
strncmp_self zero xs = refl
strncmp_self (suc n) [] = refl
strncmp_self (suc n) (x ∷ xs) = ground (arith, strncmp_self n xs)
