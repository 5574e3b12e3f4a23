-- ===== src/Frame/Verdict.antt =====
-- The status that each statement of the block under `if (!iServerStatus)` may leave: the guards of
-- `NetValuesReceivedFromHMI` on its data fields.
use rtu_com.Common.{ℕ, ◌≡◌, ◌⊎◌, inl, refl, arith}
use rtu_com.Hmi.{HmiData, HmiCmd, err_ok, error_trama_dato}
use rtu_com.Frame.{
  Received, assign_targets, vel_cmd_step, mode_step, free_run_axis_step, free_run_dir_step,
  ctrl_en_step, stall_en_step, lift_dir_step, parse_frame,
}

-- ERR_OK or ERROR_TRAMA_DATO.
abbrev pub IsVerdict : ℕ → Type 0
IsVerdict st = (st ≡ err_ok) ⊎ (st ≡ error_trama_dato)

vel_cmd_step-IsVerdict : (r : Received) → IsVerdict r.0 → IsVerdict (vel_cmd_step r).0
unfolding vel_cmd_step
vel_cmd_step-IsVerdict r h = ground arith

mode_step-IsVerdict : (d : HmiData) (r : Received) → IsVerdict r.0 → IsVerdict (mode_step d r).0
unfolding mode_step
mode_step-IsVerdict d r h = ground arith

free_run_axis_step-IsVerdict :
    (d : HmiData) (r : Received) → IsVerdict r.0 → IsVerdict (free_run_axis_step d r).0
unfolding free_run_axis_step
free_run_axis_step-IsVerdict d r h = ground arith

free_run_dir_step-IsVerdict :
    (d : HmiData) (r : Received) → IsVerdict r.0 → IsVerdict (free_run_dir_step d r).0
unfolding free_run_dir_step
free_run_dir_step-IsVerdict d r h = ground arith

ctrl_en_step-IsVerdict :
    (d : HmiData) (r : Received) → IsVerdict r.0 → IsVerdict (ctrl_en_step d r).0
unfolding ctrl_en_step
ctrl_en_step-IsVerdict d r h = ground arith

stall_en_step-IsVerdict :
    (d : HmiData) (r : Received) → IsVerdict r.0 → IsVerdict (stall_en_step d r).0
unfolding stall_en_step
stall_en_step-IsVerdict d r h = ground arith

lift_dir_step-IsVerdict :
    (d : HmiData) (r : Received) → IsVerdict r.0 → IsVerdict (lift_dir_step d r).0
unfolding lift_dir_step
lift_dir_step-IsVerdict d r h = ground arith

-- The status after the data fields is ERR_OK or ERROR_TRAMA_DATO.
pub parse_frame_status : (d : HmiData) (c : HmiCmd) → IsVerdict (parse_frame d c).0
unfolding parse_frame assign_targets
parse_frame_status d c = lift_dir_step-IsVerdict d _ (
    stall_en_step-IsVerdict d _ (
      ctrl_en_step-IsVerdict d _ (
        free_run_dir_step-IsVerdict d _ (
          free_run_axis_step-IsVerdict d _ (
            mode_step-IsVerdict d _
              (vel_cmd_step-IsVerdict (assign_targets d (err_ok, c)) (inl refl)))))))
