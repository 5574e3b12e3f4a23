-- ===== src/Frame/Steps.antt =====
-- What each statement of `NetValuesReceivedFromHMI` does, where the status is still ERR_OK after it,
-- and what it does to a field that holds the text of a value.
use rtu_com.Common.{
  ℕ, List, String, true, false, ◌≡◌, ◌≢◌, ◌⊎◌, inl, inr, arith, codes, length, All, strncmp-eq,
  Bool-cases, ◌≤◌,
}
use rtu_com.Hmi.{HmiData, Mode, FreeRunAxis, FreeRunDir, Enable, LiftDir, hmi_netvar_size}
use rtu_com.Frame.{
  Received, is_text, vel_cmd_step, mode_step, free_run_axis_step, free_run_dir_step, ctrl_en_step,
  stall_en_step, lift_dir_step,
}
use rtu_com.Frame.Encode.{
  mode_text, free_run_axis_text, free_run_dir_text, ctrl_en_text, stall_en_text, lift_dir_text,
}

-- A text that fills a field: five characters, and no NUL among them.
pub record IsTag (t : String) : Type 0 where
  pub size : length (codes t) ≡ hmi_netvar_size
  pub no_nul : All (λ c. c ≢ 0) (codes t)

pub is_text-eq :
    (field : List ℕ) (t : String)
    → length field ≡ hmi_netvar_size
    → IsTag t
    → is_text field t ≡ true
    → field ≡ codes t
unfolding is_text
is_text-eq field t p tag e = strncmp-eq hmi_netvar_size field (codes t) p tag.size tag.no_nul e

-- The tests of two texts, in order, and what the field holds where one succeeds.
two_texts :
    (field : List ℕ) (s t : String)
    → length field ≡ hmi_netvar_size
    → IsTag s
    → IsTag t
    → ((is_text field s ≡ true) × (field ≡ codes s))
      ⊎ (((is_text field s ≡ false) × (is_text field t ≡ true) × (field ≡ codes t))
          ⊎ ((is_text field s ≡ false) × (is_text field t ≡ false)))
two_texts field s t p hs ht = elim (Bool-cases (is_text field s)) [
  | inl e ↦ inl (e, is_text-eq field s p hs e)
  | inr e ↦ elim (Bool-cases (is_text field t)) [
    | inl f ↦ inr (inl (e, f, is_text-eq field t p ht f))
    | inr f ↦ inr (inr (e, f))
  ]
]

-- Velocities above 8 do not pass.
pub vel_cmd_step-ok :
    (r : Received)
    → (vel_cmd_step r).0 ≡ 0
    → (r.1.vel_cmd_arm ≤ 8) × (r.1.vel_cmd_pole ≤ 8) × (r.0 ≡ 0) × (vel_cmd_step r ≡ (0, r.1))
unfolding vel_cmd_step
vel_cmd_step-ok r h = ground arith

pub vel_cmd_step_pass :
    (r : Received) → r.1.vel_cmd_arm ≤ 8 → r.1.vel_cmd_pole ≤ 8 → vel_cmd_step r ≡ r
unfolding vel_cmd_step
vel_cmd_step_pass r h k = ground arith

pub mode_step-ok :
    (d : HmiData) (r : Received)
    → length d.mode ≡ hmi_netvar_size
    → (mode_step d r).0 ≡ 0
    → (m : Mode) × (d.mode ≡ codes (mode_text m))
      × (r.0 ≡ 0)
      × (mode_step d r ≡ (0, record r.1 { mode = m }))
unfolding mode_step
mode_step-ok d r p h = elim (Bool-cases (is_text d.mode "STOP;")) [
  | inl e ↦ (Mode.stop, is_text-eq d.mode "STOP;" p (omega arith) e, ground arith, ground arith)
  | inr e₁ ↦ elim (Bool-cases (is_text d.mode "FRUN;")) [
    | inl e ↦
        (Mode.free_run, is_text-eq d.mode "FRUN;" p (omega arith) e, ground arith, ground arith)
    | inr e₂ ↦ elim (Bool-cases (is_text d.mode "AUTO;")) [
      | inl e ↦ (Mode.auto, is_text-eq d.mode "AUTO;" p (omega arith) e, ground arith, ground arith)
      | inr e₃ ↦ elim (Bool-cases (is_text d.mode "LIFT;")) [
        | inl e ↦
            (Mode.lift, is_text-eq d.mode "LIFT;" p (omega arith) e, ground arith, ground arith)
        | inr e₄ ↦ absurd (ground arith)
      ]
    ]
  ]
]

pub free_run_axis_step-ok :
    (d : HmiData) (r : Received)
    → length d.free_run_axis ≡ hmi_netvar_size
    → (free_run_axis_step d r).0 ≡ 0
    → (v : FreeRunAxis) × (d.free_run_axis ≡ codes (free_run_axis_text v))
      × (r.0 ≡ 0)
      × (free_run_axis_step d r ≡ (0, record r.1 { free_run_axis = v }))
unfolding free_run_axis_step
free_run_axis_step-ok d r p h =
    elim (two_texts d.free_run_axis "ARM_;" "POLE;" p (omega arith) (omega arith)) [
      | inl e ↦ (FreeRunAxis.arm, e.1, ground arith, ground arith)
      | inr (inl e) ↦ (FreeRunAxis.pole, e.2, ground arith, ground arith)
      | inr (inr e) ↦ absurd (ground arith)
    ]

pub free_run_dir_step-ok :
    (d : HmiData) (r : Received)
    → length d.free_run_dir ≡ hmi_netvar_size
    → (free_run_dir_step d r).0 ≡ 0
    → (v : FreeRunDir) × (d.free_run_dir ≡ codes (free_run_dir_text v))
      × (r.0 ≡ 0)
      × (free_run_dir_step d r ≡ (0, record r.1 { free_run_dir = v }))
unfolding free_run_dir_step
free_run_dir_step-ok d r p h =
    elim (two_texts d.free_run_dir "CW__;" "CCW_;" p (omega arith) (omega arith)) [
      | inl e ↦ (FreeRunDir.cw, e.1, ground arith, ground arith)
      | inr (inl e) ↦ (FreeRunDir.ccw, e.2, ground arith, ground arith)
      | inr (inr e) ↦ absurd (ground arith)
    ]

pub ctrl_en_step-ok :
    (d : HmiData) (r : Received)
    → length d.ctrl_en ≡ hmi_netvar_size
    → (ctrl_en_step d r).0 ≡ 0
    → (v : Enable) × (d.ctrl_en ≡ codes (ctrl_en_text v))
      × (r.0 ≡ 0)
      × (ctrl_en_step d r ≡ (0, record r.1 { ctrl_en = v }))
unfolding ctrl_en_step
ctrl_en_step-ok d r p h = elim (two_texts d.ctrl_en "CTLE;" "DCTL;" p (omega arith) (omega arith)) [
  | inl e ↦ (Enable.enable, e.1, ground arith, ground arith)
  | inr (inl e) ↦ (Enable.desable, e.2, ground arith, ground arith)
  | inr (inr e) ↦ absurd (ground arith)
]

pub stall_en_step-ok :
    (d : HmiData) (r : Received)
    → length d.stall_en ≡ hmi_netvar_size
    → (stall_en_step d r).0 ≡ 0
    → (v : Enable) × (d.stall_en ≡ codes (stall_en_text v))
      × (r.0 ≡ 0)
      × (stall_en_step d r ≡ (0, record r.1 { stall_en = v }))
unfolding stall_en_step
stall_en_step-ok d r p h =
    elim (two_texts d.stall_en "STLE;" "DSTL;" p (omega arith) (omega arith)) [
      | inl e ↦ (Enable.enable, e.1, ground arith, ground arith)
      | inr (inl e) ↦ (Enable.desable, e.2, ground arith, ground arith)
      | inr (inr e) ↦ absurd (ground arith)
    ]

pub lift_dir_step-ok :
    (d : HmiData) (r : Received)
    → length d.lift_dir ≡ hmi_netvar_size
    → (lift_dir_step d r).0 ≡ 0
    → (v : LiftDir) × (d.lift_dir ≡ codes (lift_dir_text v))
      × (r.0 ≡ 0)
      × (lift_dir_step d r ≡ (0, record r.1 { lift_dir = v }))
unfolding lift_dir_step
lift_dir_step-ok d r p h =
    elim (two_texts d.lift_dir "LFUP;" "LFDW;" p (omega arith) (omega arith)) [
      | inl e ↦ (LiftDir.up, e.1, ground arith, ground arith)
      | inr (inl e) ↦ (LiftDir.down, e.2, ground arith, ground arith)
      | inr (inr e) ↦ absurd (ground arith)
    ]
