-- ===== src/Startup/Sections.antt =====
-- Several sections, filled one after the other.
use rtu_com.Common.{ℕ, ◌+◌, ◌*◌, ◌<◌, ◌≡◌, ◌∙◌, List, [], ◌∷◌, ◌++◌, All}
use rtu_com.Startup.{Words}
use rtu_com.Startup.Fill.{IsOutside, IsFilled}

-- A section of the running program: where it lies, how many bytes it has and what it shall hold.
pub record Section : Type 0 where
  pub exe : ℕ
  pub len : ℕ
  pub value : ℕ → ℕ

abbrev pub IsOut : List Section → ℕ → Type 0
IsOut ss a = All (λ s. IsOutside s.exe s.len a) ss

abbrev pub Holds : Words → Section → Type 0
Holds mem s = (k : ℕ) → 4 * k < s.len → mem (s.exe + 4 * k) ≡ s.value k

-- Every section holds its values, and all that is outside the sections is as before.
pub record AreFilled (ss : List Section) (mem mem' : Words) : Type 0 where
  pub words : All (Holds mem') ss
  pub rest : (a : ℕ) → IsOut ss a → mem' a ≡ mem a

-- No word of the first section is one of the others'.
abbrev pub IsApart : Section → List Section → Type 0
IsApart s ss = (j : ℕ) → 4 * j < s.len → IsOut ss (s.exe + 4 * j)

abbrev pub AreApart : List Section → Type 0
AreApart [] = Unit
AreApart (s ∷ ss) = IsApart s ss × AreApart ss

pub IsFilled-cons :
    (s : Section) (ss : List Section) (mem mem₁ mem' : Words)
    → IsApart s ss
    → IsFilled s.value mem mem₁ s.exe s.len
    → AreFilled ss mem₁ mem'
    → AreFilled (s ∷ ss) mem mem'
IsFilled-cons s ss mem mem₁ mem' apart one others = record {
  words = ((λ k p. others.rest (s.exe + 4 * k) (apart k p) ∙ one.words k p), others.words);
  rest = λ a out. others.rest a out.1 ∙ one.rest a out.0;
}

All-append-left {ℓ κ} : {A : Type ℓ} (P : A → Type κ) (xs ys : List A) → All P (xs ++ ys) → All P xs
All-append-left P [] ys h = tt
All-append-left P (x ∷ xs) ys (p, h) = (p, All-append-left P xs ys h)

All-append-right {ℓ κ} :
    {A : Type ℓ} (P : A → Type κ) (xs ys : List A) → All P (xs ++ ys) → All P ys
All-append-right P [] ys h = h
All-append-right P (x ∷ xs) ys (p, h) = All-append-right P xs ys h

All-append {ℓ κ} :
    {A : Type ℓ} (P : A → Type κ) (xs ys : List A) → All P xs → All P ys → All P (xs ++ ys)
All-append P [] ys h k = k
All-append P (x ∷ xs) ys (p, h) k = (p, All-append P xs ys h k)

pub AreApart-left : (ss ts : List Section) → AreApart (ss ++ ts) → AreApart ss
AreApart-left [] ts h = tt
AreApart-left (s ∷ ss) ts (p, h) =
    ((λ j small. All-append-left _ ss ts (p j small)), AreApart-left ss ts h)

pub AreApart-right : (ss ts : List Section) → AreApart (ss ++ ts) → AreApart ts
AreApart-right [] ts h = h
AreApart-right (s ∷ ss) ts (p, h) = AreApart-right ss ts h

-- What holds of the first sections survives the filling of the others.
survive :
    (ss ts : List Section) (mem₁ mem' : Words)
    → AreApart (ss ++ ts)
    → ((a : ℕ) → IsOut ts a → mem' a ≡ mem₁ a)
    → All (Holds mem₁) ss
    → All (Holds mem') ss
survive [] ts mem₁ mem' h same held = tt
survive (s ∷ ss) ts mem₁ mem' (p, h) same (one, held) = (
  (λ k small. same (s.exe + 4 * k) (All-append-right _ ss ts (p k small)) ∙ one k small),
  survive ss ts mem₁ mem' h same held,
)

pub AreFilled-append :
    (ss ts : List Section) (mem mem₁ mem' : Words)
    → AreApart (ss ++ ts)
    → AreFilled ss mem mem₁
    → AreFilled ts mem₁ mem'
    → AreFilled (ss ++ ts) mem mem'
AreFilled-append ss ts mem mem₁ mem' apart h k = record {
  words = All-append (Holds mem') ss ts (survive ss ts mem₁ mem' apart k.rest h.words) k.words;
  rest = λ a out. k.rest a (All-append-right _ ss ts out) ∙ h.rest a (All-append-left _ ss ts out);
}
