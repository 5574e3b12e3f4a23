-- ===== src/Frame/Accepts.antt =====
-- Which frames `NetValuesReceivedFromHMI` accepts, and what command it makes of them.
use rtu_com.Common.{ℕ, ◌≡◌, ◌≢◌, ◌⊎◌, inl, inr, refl, arith, codes, ◌≤◌, true, false, sym, ◌∙◌, ap}
use rtu_com.Hmi.{
  HmiData, HmiCmd, Sign, err_ok, error_trama_vacia, error_trama_largo, error_trama_dato,
  error_trama_cliente, rcv_trama_largo,
}
use rtu_com.Frame.{
  Received, is_text, assign_targets, vel_cmd_step, mode_step, free_run_axis_step, free_run_dir_step,
  ctrl_en_step, stall_en_step, parse_frame, net_values_received_from_hmi,
}
use rtu_com.Frame.Encode.{encode, IsCommand, IsFrame}
use rtu_com.Frame.Steps.{
  is_text-eq, vel_cmd_step-ok, vel_cmd_step_pass, mode_step-ok, free_run_axis_step-ok,
  free_run_dir_step-ok, ctrl_en_step-ok, stall_en_step-ok, lift_dir_step-ok,
}
use rtu_com.Frame.Verdict.{parse_frame_status}
use rtu_com.Frame.Texts.{
  mode_step_text, free_run_axis_step_text, free_run_dir_step_text, ctrl_en_step_text,
  stall_en_step_text, lift_dir_step_text,
}

-- The block of the data fields, where it leaves ERR_OK.
parse_frame-ok :
    (d : HmiData) (c : HmiCmd)
    → IsFrame d
    → d.client_id ≡ codes "SM13;"
    → c.client_id ≡ Sign.signed
    → (parse_frame d c).0 ≡ 0
    → (c' : HmiCmd) × (parse_frame d c ≡ (0, c')) × IsCommand c' × (d ≡ encode c')
unfolding parse_frame assign_targets
parse_frame-ok d c f client signed h =
    let r₁ = assign_targets d (err_ok, c) in
    let r₂ = vel_cmd_step r₁ in
    let r₃ = mode_step d r₂ in
    let r₄ = free_run_axis_step d r₃ in
    let r₅ = free_run_dir_step d r₄ in
    let r₆ = ctrl_en_step d r₅ in
    let r₇ = stall_en_step d r₆ in
    let (lift, lift_eq, ok₇, step₈) = lift_dir_step-ok d r₇ f.lift_size h in
    let (stall, stall_eq, ok₆, step₇) = stall_en_step-ok d r₆ f.stall_size ok₇ in
    let (ctrl, ctrl_eq, ok₅, step₆) = ctrl_en_step-ok d r₅ f.ctrl_size ok₆ in
    let (dir, dir_eq, ok₄, step₅) = free_run_dir_step-ok d r₄ f.dir_size ok₅ in
    let (axis, axis_eq, ok₃, step₄) = free_run_axis_step-ok d r₃ f.axis_size ok₄ in
    let (mode, mode_eq, ok₂, step₃) = mode_step-ok d r₂ f.mode_size ok₃ in
    let (vel_arm, vel_pole, _, step₂) = vel_cmd_step-ok r₁ ok₂ in
    (
      record {
        pos_cmd_arm = d.pos_cmd_arm;
        pos_cmd_pole = d.pos_cmd_pole;
        vel_cmd_arm = d.vel_cmd_arm;
        vel_cmd_pole = d.vel_cmd_pole;
        mode = mode;
        free_run_axis = axis;
        free_run_dir = dir;
        ctrl_en = ctrl;
        stall_en = stall;
        lift_dir = lift;
        client_id = Sign.signed;
      },
      rw (step₈, step₇, step₆, step₅, step₄, step₃, step₂, signed),
      record { vel_arm = vel_arm; vel_pole = vel_pole; signed = refl },
      λ i. record d {
        mode = mode_eq i;
        free_run_axis = axis_eq i;
        free_run_dir = dir_eq i;
        ctrl_en = ctrl_eq i;
        stall_en = stall_eq i;
        lift_dir = lift_eq i;
        client_id = client i;
      },
    )

-- The block of the data fields at the frame of a command.
parse_frame-encode :
    (c old : HmiCmd)
    → IsCommand c
    → old.client_id ≡ Sign.signed
    → parse_frame (encode c) old ≡ (err_ok, c)
unfolding parse_frame assign_targets
parse_frame-encode c old valid signed =
    rw
      (
        vel_cmd_step_pass (assign_targets (encode c) (err_ok, old)) valid.vel_arm valid.vel_pole,
        mode_step_text c.mode (encode c) _ refl,
        free_run_axis_step_text c.free_run_axis (encode c) _ refl,
        free_run_dir_step_text c.free_run_dir (encode c) _ refl,
        ctrl_en_step_text c.ctrl_en (encode c) _ refl,
        stall_en_step_text c.stall_en (encode c) _ refl,
        lift_dir_step_text c.lift_dir (encode c) _ refl,
      )
      (λ i. (err_ok, record c { client_id = (signed ∙ sym valid.signed) i }))

abbrev pub sign : HmiCmd → HmiCmd
sign c = record c { client_id = Sign.signed }

-- The length and the client pass before the data fields are looked at.
pub received-ok :
    (d : HmiData) (c : HmiCmd) (len : ℕ)
    → (net_values_received_from_hmi d c len).0 ≡ err_ok
    → (len ≡ rcv_trama_largo)
      × (is_text d.client_id "SM13;" ≡ true)
      × (net_values_received_from_hmi d c len ≡ parse_frame d (sign c))
unfolding net_values_received_from_hmi
received-ok d c len h = ground arith

-- A frame is accepted only if it has the length of the struct and is the frame of a valid command;
-- that command is then the result, whatever the command buffer held before.
pub accepted-encode :
    (d : HmiData) (c : HmiCmd) (len : ℕ)
    → IsFrame d
    → (net_values_received_from_hmi d c len).0 ≡ err_ok
    → let c' = (net_values_received_from_hmi d c len).1 in
      (len ≡ rcv_trama_largo) × IsCommand c' × (d ≡ encode c')
accepted-encode d c len f h =
    let (size, client, step) = received-ok d c len h in
    let (c', parsed, valid, same) =
      parse_frame-ok d (sign c) f
        (is_text-eq d.client_id "SM13;" f.client_size (omega arith) client) refl
        (ap (λ (r : Received). r.0) (sym step) ∙ h) in
    rw (step, parsed) (size, valid, same)

-- The frame of a valid command is accepted and gives back that command: no field keeps what the
-- command buffer held before.
pub encode_accepted :
    (c old : HmiCmd)
    → IsCommand c
    → net_values_received_from_hmi (encode c) old rcv_trama_largo ≡ (err_ok, c)
unfolding net_values_received_from_hmi is_text
encode_accepted c old valid =
    ground (arith, parse_frame-encode c (record old { client_id = Sign.signed }) valid)

-- What is returned for every frame: the length decides first, then the client, then the data fields.
-- A rejected length leaves the command alone, a rejected client unsigns it and changes nothing else,
-- and behind both the status is ERR_OK or ERROR_TRAMA_DATO.
pub received_status :
    (d : HmiData) (c : HmiCmd) (len : ℕ)
    → let r = net_values_received_from_hmi d c len in
      ((len ≡ 0) × (r ≡ (error_trama_vacia, c)))
      ⊎ (((len ≢ 0) × (len ≢ rcv_trama_largo) × (r ≡ (error_trama_largo, c)))
          ⊎ (((len ≡ rcv_trama_largo)
                × (is_text d.client_id "SM13;" ≡ false)
                × (r ≡ (error_trama_cliente, record c { client_id = Sign.unsigned })))
              ⊎ ((len ≡ rcv_trama_largo)
                  × (is_text d.client_id "SM13;" ≡ true)
                  × ((r.0 ≡ err_ok) ⊎ (r.0 ≡ error_trama_dato)))))
unfolding net_values_received_from_hmi
received_status d c len = ground (arith, parse_frame_status d (sign c))

-- The status is ERR_OK or one of the four frame errors.
pub received_bounds :
    (d : HmiData) (c : HmiCmd) (len : ℕ)
    → let st = (net_values_received_from_hmi d c len).0 in
      (st ≡ err_ok) ⊎ ((error_trama_vacia ≤ st) × (st ≤ error_trama_cliente))
unfolding net_values_received_from_hmi
received_bounds d c len = ground (arith, parse_frame_status d (sign c))

-- A frame that is not the frame of a valid command is refused with one of the four frame errors,
-- whatever its length.
pub not-encode_refused :
    (d : HmiData) (c : HmiCmd) (len : ℕ)
    → IsFrame d
    → ((k : HmiCmd) → IsCommand k → d ≢ encode k)
    → let st = (net_values_received_from_hmi d c len).0 in
      (error_trama_vacia ≤ st) × (st ≤ error_trama_cliente)
not-encode_refused d c len f none_such = elim (received_bounds d c len) [
  | inl fine ↦
      let (size, valid, same) = accepted-encode d c len f fine in absurd (none_such _ valid same)
  | inr error ↦ error
]
