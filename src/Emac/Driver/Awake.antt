-- ===== src/Emac/Driver/Awake.antt =====
-- A task of lpc18xx_43xx_emac.c with its semaphore and its bits of DMA_STAT.
use rtu_com.Common.{
  ◌≡◌, ◌⊎◌, inl, inr, sym, subst, Bool, true, false, ◌||◌, Option, none, some, arith, Bool-cases,
}
use rtu_com.Emac.Mac.{DmaStat, clear_stat}

-- `bits` are the bits of DMA_STAT that stand for its work, and `work` says that there is work which the
-- task, waiting for its semaphore, has not seen.
pub record Awake (bits : DmaStat → Bool) (sem : Bool) (stat : DmaStat) (ints : Option DmaStat)
    (work : Type 0) : Type 0 where
  pub wake : work → (sem ≡ true) ⊎ (bits stat ≡ true)
  -- What the running handler has read has woken the task.
  pub seen : (i : DmaStat) → ints ≡ some i → bits i ≡ true → sem ≡ true

some_inj {ℓ} : {A : Type ℓ} {x y : A} → some x ≡ some y → x ≡ y
some_inj e = cc

or_true : (a b : Bool) → (a ≡ true) ⊎ (b ≡ true) → (a || b) ≡ true
or_true a b (inl h) = ground arith
or_true a b (inr h) = ground arith

module _ {bits : DmaStat → Bool} {sem : Bool} {stat : DmaStat} {ints : Option DmaStat}
    {work : Type 0} (h : Awake bits sem stat ints work) where
  -- The handler begins.
  pub Awake-enter : Awake bits (bits stat || sem) stat (some stat) work
  Awake-enter = record {
    wake = λ w. elim (h.wake w) [ inl s ↦ inl (or_true (bits stat) sem (inr s)) | inr b ↦ inr b ];
    seen =
        λ i e up. or_true (bits stat) sem (inl (subst (λ x. bits x ≡ true) (sym (some_inj e)) up));
  }

  -- It ends, with `i` read at its begin.
  pub Awake-leave :
      (i : DmaStat)
      → ints ≡ some i
      → (bits i ≡ false → bits stat ≡ true → bits (clear_stat i stat) ≡ true)
      → Awake bits sem (clear_stat i stat) none work
  Awake-leave i e keeps = record {
    wake = λ w. elim (Bool-cases (bits i)) [
      | inl up ↦ inl (h.seen i e up)
      | inr down ↦ elim (h.wake w) [ inl s ↦ inl s | inr b ↦ inr (keeps down b) ]
    ];
    seen = λ j e' up. cc;
  }

  -- More bits come up, or there is less work.
  pub Awake-raise :
      (stat' : DmaStat) (work' : Type 0)
      → (bits stat ≡ true → bits stat' ≡ true)
      → (work' → work ⊎ (bits stat' ≡ true))
      → Awake bits sem stat' ints work'
  Awake-raise stat' work' more less = record {
    wake = λ w. elim (less w) [
      | inl old ↦ elim (h.wake old) [ inl s ↦ inl s | inr b ↦ inr (more b) ]
      | inr b ↦ inr b
    ];
    seen = h.seen;
  }

-- With the task behind its wait nothing is unseen.
pub Awake-none :
    {bits : DmaStat → Bool} {sem : Bool} {stat : DmaStat} {ints : Option DmaStat} {work : Type 0}
    → ints ≡ none
    → ¬ work
    → Awake bits sem stat ints work
Awake-none idle busy = record { wake = λ w. absurd (busy w); seen = λ i e up. cc }
