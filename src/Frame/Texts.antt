-- ===== src/Frame/Texts.antt =====
-- What each statement of `NetValuesReceivedFromHMI` does to a field that holds the text of a value.
use rtu_com.Common.{◌≡◌, codes}
use rtu_com.Hmi.{HmiData, Mode, FreeRunAxis, FreeRunDir, Enable, LiftDir}
use rtu_com.Frame.{
  Received, is_text, mode_step, free_run_axis_step, free_run_dir_step, ctrl_en_step, stall_en_step,
  lift_dir_step,
}
use rtu_com.Frame.Encode.{
  mode_text, free_run_axis_text, free_run_dir_text, ctrl_en_text, stall_en_text, lift_dir_text,
}

pub mode_step_text :
    (v : Mode) (d : HmiData) (r : Received)
    → d.mode ≡ codes (mode_text v)
    → mode_step d r ≡ (r.0, record r.1 { mode = v })
unfolding mode_step is_text
mode_step_text Mode.stop d r e = rw e
mode_step_text Mode.free_run d r e = rw e
mode_step_text Mode.auto d r e = rw e
mode_step_text Mode.lift d r e = rw e

pub free_run_axis_step_text :
    (v : FreeRunAxis) (d : HmiData) (r : Received)
    → d.free_run_axis ≡ codes (free_run_axis_text v)
    → free_run_axis_step d r ≡ (r.0, record r.1 { free_run_axis = v })
unfolding free_run_axis_step is_text
free_run_axis_step_text FreeRunAxis.arm d r e = rw e
free_run_axis_step_text FreeRunAxis.pole d r e = rw e

pub free_run_dir_step_text :
    (v : FreeRunDir) (d : HmiData) (r : Received)
    → d.free_run_dir ≡ codes (free_run_dir_text v)
    → free_run_dir_step d r ≡ (r.0, record r.1 { free_run_dir = v })
unfolding free_run_dir_step is_text
free_run_dir_step_text FreeRunDir.cw d r e = rw e
free_run_dir_step_text FreeRunDir.ccw d r e = rw e

pub ctrl_en_step_text :
    (v : Enable) (d : HmiData) (r : Received)
    → d.ctrl_en ≡ codes (ctrl_en_text v)
    → ctrl_en_step d r ≡ (r.0, record r.1 { ctrl_en = v })
unfolding ctrl_en_step is_text
ctrl_en_step_text Enable.enable d r e = rw e
ctrl_en_step_text Enable.desable d r e = rw e

pub stall_en_step_text :
    (v : Enable) (d : HmiData) (r : Received)
    → d.stall_en ≡ codes (stall_en_text v)
    → stall_en_step d r ≡ (r.0, record r.1 { stall_en = v })
unfolding stall_en_step is_text
stall_en_step_text Enable.enable d r e = rw e
stall_en_step_text Enable.desable d r e = rw e

pub lift_dir_step_text :
    (v : LiftDir) (d : HmiData) (r : Received)
    → d.lift_dir ≡ codes (lift_dir_text v)
    → lift_dir_step d r ≡ (r.0, record r.1 { lift_dir = v })
unfolding lift_dir_step is_text
lift_dir_step_text LiftDir.up d r e = rw e
lift_dir_step_text LiftDir.down d r e = rw e
