-- ===== src/Emac/Ring.antt =====
-- Rings of eight descriptors: the indices from one on, and what the descriptors there hold.
use rtu_com.Common.{
  ℕ, zero, suc, ◌+◌, ◌%◌, ◌<◌, ◌≡◌, ◌≢◌, ◌∙◌, ap, ap₂, refl, List, [], ◌∷◌, ◌++◌, ◌==◌,
  if◌then◌else◌, arith,
}
use native.Mathlib.Nat.{suc-add}
use rtu_com.Emac.{next_idx}

-- A C array, and a write to it.
abbrev pub set {ℓ} : {A : Type ℓ} → (ℕ → A) → ℕ → A → ℕ → A
set f i x j = if j == i then x else f j

-- The index that comes `n` descriptors later.
abbrev pub walk : ℕ → ℕ → ℕ
walk zero h = h
walk (suc n) h = walk n (next_idx 8 h)

-- What an array holds at the next `n` indices.
abbrev pub window {ℓ} : {A : Type ℓ} → (ℕ → A) → ℕ → ℕ → List A
window f h zero = []
window f h (suc n) = f h ∷ window f (next_idx 8 h) n

pub next_idx_bound : (h : ℕ) → next_idx 8 h < 8
next_idx_bound h = ground arith

pub walk_mod : (n h : ℕ) → h < 8 → walk n h ≡ (h + n) % 8
walk_mod zero h small = omega arith
walk_mod (suc n) h small = walk_mod n (next_idx 8 h) (next_idx_bound h) ∙ ground arith

pub walk_bound : (n h : ℕ) → h < 8 → walk n h < 8
walk_bound n h small = omega (arith, walk_mod n h small)

-- Fewer than eight steps do not come back to the start.
pub walk_ne : (n h : ℕ) → h < 8 → 0 < n → n < 8 → walk n h ≢ h
walk_ne n h small pos less e = omega (arith, walk_mod n h small)

pub walk_add : (n m h : ℕ) → walk m (walk n h) ≡ walk (n + m) h
walk_add zero m h = ap (λ k. walk k h) {x = m} {y = 0 + m} (omega arith)
walk_add (suc n) m h = rw suc-add (walk_add n m (next_idx 8 h))

pub next-walk : (n h : ℕ) → next_idx 8 (walk n h) ≡ walk (suc n) h
next-walk zero h = refl
next-walk (suc n) h = next-walk n (next_idx 8 h)

module _ {ℓ} {A : Type ℓ} where
  pub set_same : (f : ℕ → A) (i : ℕ) (x : A) → set f i x i ≡ x
  set_same f i x = ground arith

  pub set_other : (f : ℕ → A) (i j : ℕ) (x : A) → j ≢ i → set f i x j ≡ f j
  set_other f i j x h = ground arith

  -- A write that is not in the window leaves it alone.
  pub window-set_outside :
      (f : ℕ → A) (i : ℕ) (x : A) (n h : ℕ)
      → ((k : ℕ) → k < n → walk k h ≢ i)
      → window (set f i x) h n ≡ window f h n
  window-set_outside f i x zero h out = refl
  window-set_outside f i x (suc n) h out =
      ap₂ ◌∷◌ (set_other f i h x (out 0 (omega arith)))
        (window-set_outside f i x n (next_idx 8 h) (λ k less. out (suc k) (omega arith)))

  pub window_append :
      (f : ℕ → A) (n m h : ℕ) → window f h (n + m) ≡ window f h n ++ window f (walk n h) m
  window_append f zero m h = ap (λ k. window f h k) (omega arith)
  window_append f (suc n) m h =
      rw suc-add (ap (λ xs. f h ∷ xs) (window_append f n m (next_idx 8 h)))

  -- A write just past a window of fewer than eight extends it.
  pub window-set_end :
      (f : ℕ → A) (x : A) (n h : ℕ)
      → h < 8
      → n < 8
      → window (set f (walk n h) x) h (suc n) ≡ window f h n ++ (x ∷ [])
  window-set_end f x n h small less =
      ap (λ k. window (set f (walk n h) x) h k) {x = suc n} {y = n + 1} (omega arith)
      ∙ window_append (set f (walk n h) x) n 1 h
      ∙ ap₂ ◌++◌
          (window-set_outside f (walk n h) x n h
            (λ k below e. omega (arith, walk_mod k h small, walk_mod n h small)))
          (ap (λ y. y ∷ []) (set_same f (walk n h) x))
