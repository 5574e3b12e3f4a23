-- ===== src/Startup/Fill.antt =====
-- The loops of `data_init` and `bss_init`: with enough fuel they end, and which words they write.
use rtu_com.Common.{
  ℕ, zero, suc, ◌+◌, ◌-◌, ◌*◌, ◌^◌, ◌≤◌, ◌<◌, ◌≡◌, ◌≢◌, ◌∙◌, ap, refl, ltb, some, Bool-cases, inl,
  inr, arith,
}
use rtu_com.Startup.{Words, step4, store, data_loop, data_init, bss_loop, bss_init}

-- Not one of the words of the section at `dest` with `len` bytes.
abbrev pub IsOutside : ℕ → ℕ → ℕ → Type 0
IsOutside dest len a = (k : ℕ) → 4 * k < len → a ≢ dest + 4 * k

-- The section at `dest` holds the values `f`, and all else is as before.
pub record IsFilled (f : ℕ → ℕ) (mem mem' : Words) (dest len : ℕ) : Type 0 where
  pub words : (k : ℕ) → 4 * k < len → mem' (dest + 4 * k) ≡ f k
  pub rest : (a : ℕ) → IsOutside dest len a → mem' a ≡ mem a

pub step4_small : (a : ℕ) → a + 4 < 2 ^ 32 → step4 a ≡ a + 4
step4_small a h = omega arith

store_same : (mem : Words) (a w : ℕ) → store mem a w a ≡ w
store_same mem a w = ground arith

store_other : (mem : Words) (a w b : ℕ) → b ≢ a → store mem a w b ≡ mem b
store_other mem a w b h = ground arith

-- The same section in other words.
pub IsFilled-same :
    (f g : ℕ → ℕ) (mem mem' : Words) (dest len len' : ℕ)
    → len ≡ len'
    → ((k : ℕ) → 4 * k < len → f k ≡ g k)
    → IsFilled f mem mem' dest len
    → IsFilled g mem mem' dest len'
IsFilled-same f g mem mem' dest len len' e same h = record {
  words = λ k p. h.words k (omega arith) ∙ same k (omega arith);
  rest = λ a out. h.rest a (λ k p. out k (omega arith));
}

-- One more word in front.
IsFilled-store :
    (f g : ℕ → ℕ) (mem mem' : Words) (dest w len others : ℕ)
    → 0 < len
    → others ≡ len - 4
    → w ≡ f 0
    → ((k : ℕ) → 4 * suc k < len → g k ≡ f (suc k))
    → IsFilled g (store mem dest w) mem' (dest + 4) others
    → IsFilled f mem mem' dest len
IsFilled-store f g mem mem' dest w len others some_left fewer first next h = record {
  words = words;
  rest = rest;
}
  where
    words : (k : ℕ) → 4 * k < len → mem' (dest + 4 * k) ≡ f k
    words zero small =
        ap mem' (omega arith) ∙ h.rest dest (λ k _ e. omega arith) ∙ store_same mem dest w ∙ first
    words (suc k) small = ap mem' (omega arith) ∙ h.words k (omega arith) ∙ next k small

    rest : (a : ℕ) → IsOutside dest len a → mem' a ≡ mem a
    rest a out =
        h.rest a (λ k small e. out (suc k) (omega arith) (omega arith))
        ∙ store_other mem dest w a (λ e. out 0 (omega arith) (omega arith))

-- No word is left to fill.
IsFilled-already : (f : ℕ → ℕ) (mem : Words) (dest len : ℕ) → len ≡ 0 → IsFilled f mem mem dest len
IsFilled-already f mem dest len e = record {
  words = λ k s. absurd (omega arith);
  rest = λ a out. refl;
}

pub data_loop-IsFilled :
    (fuel : ℕ) (mem : Words) (src dest loop len : ℕ)
    → len + 4 ≤ loop + 4 * fuel
    → loop < len + 4
    → len + 4 ≤ 2 ^ 32
    → src + len + 4 ≤ 2 ^ 32 + loop
    → dest + len + 4 ≤ 2 ^ 32 + loop
    → ((j k : ℕ) → 4 * j < len - loop → 4 * k < len - loop → src + 4 * j ≢ dest + 4 * k)
    → (mem' : Words) × (data_loop fuel mem src dest loop len ≡ some mem')
      × IsFilled (λ k. mem (src + 4 * k)) mem mem' dest (len - loop)
unfolding data_loop
data_loop-IsFilled zero mem src dest loop len enough before small src_small dest_small apart =
    absurd (omega arith)
data_loop-IsFilled (suc fuel) mem src dest loop len enough before small src_small dest_small apart =
    elim (Bool-cases (ltb loop len)) [
      | inl e ↦
          let more : loop < len = ground arith in
          let mem₁ = store mem dest (mem src) in
          let (mem', ends, filled) =
            data_loop-IsFilled fuel mem₁ (src + 4) (dest + 4) (loop + 4) len (omega arith)
              (omega arith) small (omega arith) (omega arith)
              (λ j k p q.
                λ same. apart (suc j) (suc k) (omega arith) (omega arith) (omega arith)) in
          (
            mem',
            rw
                (
                  e,
                  step4_small src (omega arith),
                  step4_small dest (omega arith),
                  step4_small loop (omega arith),
                )
                ends,
            IsFilled-store (λ k. mem (src + 4 * k)) (λ k. mem₁ (src + 4 + 4 * k)) mem mem' dest
                (mem src) (len - loop) (len - (loop + 4)) (omega arith) (omega arith)
                (ap mem (omega arith))
                (λ k p.
                  store_other mem dest (mem src) (src + 4 + 4 * k)
                    (λ same. apart (suc k) 0 p (omega arith) (omega arith))
                  ∙ ap mem (omega arith))
                filled,
          )
      | inr e ↦ (mem, rw e refl, IsFilled-already _ mem dest (len - loop) (ground arith))
    ]

bss_loop-IsFilled :
    (fuel : ℕ) (mem : Words) (dest loop len : ℕ)
    → len + 4 ≤ loop + 4 * fuel
    → loop < len + 4
    → len + 4 ≤ 2 ^ 32
    → dest + len + 4 ≤ 2 ^ 32 + loop
    → (mem' : Words) × (bss_loop fuel mem dest loop len ≡ some mem')
      × IsFilled (λ k. 0) mem mem' dest (len - loop)
unfolding bss_loop
bss_loop-IsFilled zero mem dest loop len enough before small dest_small = absurd (omega arith)
bss_loop-IsFilled (suc fuel) mem dest loop len enough before small dest_small =
    elim (Bool-cases (ltb loop len)) [
      | inl e ↦
          let more : loop < len = ground arith in
          let (mem', ends, filled) =
            bss_loop-IsFilled fuel (store mem dest 0) (dest + 4) (loop + 4) len (omega arith)
              (omega arith) small (omega arith) in
          (
            mem',
            rw (e, step4_small dest (omega arith), step4_small loop (omega arith)) ends,
            IsFilled-store (λ k. 0) (λ k. 0) mem mem' dest 0 (len - loop) (len - (loop + 4))
                (omega arith) (omega arith) refl (λ k p. refl) filled,
          )
      | inr e ↦ (mem, rw e refl, IsFilled-already _ mem dest (len - loop) (ground arith))
    ]

-- `data_init` ends within `words` rounds where the section has fewer words; the section then holds
-- what the words at `romstart` held before, and nothing else is changed. The section and its image
-- end below 2 ^ 32 - 4 and do not overlap.
pub data_init-IsFilled :
    (words : ℕ) (mem : Words) (romstart start len : ℕ)
    → len + 4 ≤ 4 * words
    → romstart + len + 4 ≤ 2 ^ 32
    → start + len + 4 ≤ 2 ^ 32
    → ((j k : ℕ) → 4 * j < len → 4 * k < len → romstart + 4 * j ≢ start + 4 * k)
    → (mem' : Words) × (data_init words mem romstart start len ≡ some mem')
      × IsFilled (λ k. mem (romstart + 4 * k)) mem mem' start len
data_init-IsFilled words mem romstart start len enough rom_small small apart =
    let (mem', ends, filled) =
      data_loop-IsFilled words mem romstart start 0 len (omega arith) (omega arith) (omega arith)
        (omega arith) (omega arith) (λ j k p q. apart j k (omega arith) (omega arith)) in
    (mem', ends, IsFilled-same _ _ mem mem' start (len - 0) len (omega arith) (λ k p. refl) filled)

-- `bss_init` ends likewise, and the section then holds zeros.
pub bss_init-IsFilled :
    (words : ℕ) (mem : Words) (start len : ℕ)
    → len + 4 ≤ 4 * words
    → start + len + 4 ≤ 2 ^ 32
    → (mem' : Words) × (bss_init words mem start len ≡ some mem')
      × IsFilled (λ k. 0) mem mem' start len
bss_init-IsFilled words mem start len enough small =
    let (mem', ends, filled) =
      bss_loop-IsFilled words mem start 0 len (omega arith) (omega arith) (omega arith)
        (omega arith) in
    (mem', ends, IsFilled-same _ _ mem mem' start (len - 0) len (omega arith) (λ k p. refl) filled)
