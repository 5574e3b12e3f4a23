-- ===== src/Board/Pins.antt =====
-- The levels of the output pins. The GPIO of the chip is a parameter: what the code relies on is that
-- a call acts on its own pin only, and that setting a direction or a function keeps the levels.
use rtu_com.Common.{
  ℕ, ◌≡◌, ◌≢◌, ◌⊎◌, inl, inr, ◌∙◌, List, [], ◌∷◌, Bool, false, arith, ◌==◌, ◌&&◌, if◌then◌else◌,
  Bool-cases, ap₂, refl,
}
use rtu_com.Board.{BoardCall, pin_mux_set, set_pin_dir_output, set_pin_out_low, dout_init}

differ : (port p n k : ℕ) → ((port == p) && (n == k)) ≡ false → (port ≢ p) ⊎ (n ≢ k)
differ port p n k e = elim (Bool-cases (port == p)) [
  | inl same ↦ inr (ground arith)
  | inr other ↦ inl (ground arith)
]

pub record Gpio : Type 1 where
  pub State : Type 0
  -- The level of a pin, true for high.
  pub level : State → ℕ → ℕ → Bool
  pub act : BoardCall → State → State
  pub mux_keeps :
      (s : State) (group pin func port n : ℕ)
      → level (act (pin_mux_set group pin func) s) port n ≡ level s port n
  pub dir_keeps :
      (s : State) (p k port n : ℕ) → level (act (set_pin_dir_output p k) s) port n ≡ level s port n
  pub low_same : (s : State) (port n : ℕ) → level (act (set_pin_out_low port n) s) port n ≡ false
  pub low_other :
      (s : State) (p k port n : ℕ)
      → (port ≢ p) ⊎ (n ≢ k)
      → level (act (set_pin_out_low p k) s) port n ≡ level s port n

module _ (gpio : Gpio) where
  open gpio use {State, level, act, mux_keeps, dir_keeps, low_same, low_other}

  unfoldable pub act_all : List BoardCall → State → State
  act_all [] s = s
  act_all (c ∷ cs) s = act_all cs (act c s)

  low_lem :
      (s : State) (p k port n : ℕ)
      → level (act (set_pin_out_low p k) s) port n
        ≡ (if (port == p) && (n == k) then false else level s port n)
  low_lem s p k port n = elim (Bool-cases ((port == p) && (n == k))) [
    | inl e ↦
        let same_port : port ≡ p = ground arith in
        let same_pin : n ≡ k = ground arith in
        rw e
          (ap₂ (λ i j. level (act (set_pin_out_low p k) s) i j) same_port same_pin ∙ low_same s p k)
    | inr e ↦ rw e (low_other s p k port n (differ port p n k e))
  ]

  low_keeps :
      (s : State) (port n : ℕ)
      → ((port == 5) && (n == 12)) ≡ false
      → level (act (set_pin_out_low 5 12) s) port n ≡ level s port n
  low_keeps s port n e = low_lem s 5 12 port n ∙ rw e refl

  -- `dout_init` drives the pin of ARM_DIR, 5.12, low and leaves every other pin, those of ARM_PULSE,
  -- POLE_DIR and POLE_PULSE among them, at the level that it had.
  pub act_all-dout_init :
      (s : State) (port n : ℕ)
      → level (act_all dout_init s) port n
        ≡ (if (port == 5) && (n == 12) then false else level s port n)
  unfolding act_all
  act_all-dout_init s port n = elim (Bool-cases ((port == 5) && (n == 12))) [
    | inl e ↦ low_lem _ 5 12 port n ∙ rw e refl
    | inr e ↦ rw e (
        low_keeps _ port n e
        ∙ low_keeps _ port n e
        ∙ low_keeps _ port n e
        ∙ low_keeps _ port n e
        ∙ dir_keeps _ 1 8 port n
        ∙ mux_keeps _ 1 5 0 port n
        ∙ dir_keeps _ 5 14 port n
        ∙ mux_keeps _ 4 10 4 port n
        ∙ dir_keeps _ 5 13 port n
        ∙ mux_keeps _ 4 9 4 port n
        ∙ dir_keeps _ 5 12 port n
        ∙ mux_keeps _ 4 8 4 port n)
  ]
