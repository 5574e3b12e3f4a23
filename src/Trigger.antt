-- ===== src/Trigger.antt =====
-- com/src/task_trigger.c: `TaskTriggerMsg`, with the bit macros of com/inc/bitops.h. The static
-- variable `ucPreviousFlagByte` is passed in, and its new value is the result. `configASSERT` is left
-- undefined in com/inc/FreeRTOSConfig.h, so the assertions do nothing.
pub mod Orders
pub mod Laws
pub mod Sequence
pub mod Axis
use rtu_com.Common.{
  ℕ, ◌^◌, ◌%◌, Bool, true, false, not, ◌&&◌, ◌||◌, ◌==◌, if◌then◌else◌, bit_and, bit_or, bit_xor,
}
use rtu_com.Motion.{MotPapDirection, MotPapType, MotPapMsg, LiftType, LiftMsg}
use rtu_com.Hmi.{HmiCmd, Mode, FreeRunAxis, FreeRunDir, Enable, LiftDir}
use rtu_com.Kernel.{
  Env, M, pure, ◌>>=◌, ◌>>◌, call, malloc_mot_pap, malloc_lift, send_arm, send_pole, send_lift,
}

abbrev pub bit_set : ℕ → ℕ → ℕ
bit_set arg posn = bit_or arg (2 ^ posn) % 256

abbrev pub bit_status : ℕ → ℕ → Bool
bit_status arg posn = not (bit_and arg (2 ^ posn) == 0)

-- Bits 0 and 1 of `ucActualFlagByte`.
abbrev pub mode_bits : Mode → ℕ
mode_bits Mode.stop = 0x00
mode_bits Mode.free_run = bit_set 0x00 0
mode_bits Mode.auto = bit_set 0x00 1
mode_bits Mode.lift = bit_set (bit_set 0x00 0) 1

abbrev pub is_enable : Enable → Bool
is_enable Enable.enable = true
is_enable Enable.desable = false

abbrev pub is_arm : FreeRunAxis → Bool
is_arm FreeRunAxis.arm = true
is_arm FreeRunAxis.pole = false

abbrev pub is_up : LiftDir → Bool
is_up LiftDir.up = true
is_up LiftDir.down = false

-- `ucActualFlagByte`.
abbrev pub flag_byte : Mode → Enable → ℕ
flag_byte mode ctrl_en = if is_enable ctrl_en then bit_set (mode_bits mode) 2 else mode_bits mode

-- The local variables that say which tasks get a message, and of which type.
pub record Locals : Type 0 where
  pub send_to_arm : Bool
  pub send_to_pole : Bool
  pub send_to_lift : Bool
  pub type_stop : Bool
  pub type_free_run_start : Bool
  pub type_auto_start : Bool
  pub type_lift_up : Bool
  pub type_lift_down : Bool

abbrev pub no_locals : Locals
no_locals = record {
  send_to_arm = false;
  send_to_pole = false;
  send_to_lift = false;
  type_stop = false;
  type_free_run_start = false;
  type_auto_start = false;
  type_lift_up = false;
  type_lift_down = false;
}

-- `if (pHMICmd->freeRunAxis == eArm) { bSendToArm = TRUE; } else { bSendToPole = TRUE; }`
abbrev send_to_axis : FreeRunAxis → Locals → Locals
send_to_axis axis l =
    if is_arm axis then record l { send_to_arm = true } else record l { send_to_pole = true }

-- The cases of the switch over `ucMode_EventBits`.
unfoldable pub mode_case_1 : ℕ → HmiCmd → Locals → Locals
mode_case_1 actual cmd l =
    if actual == 0x00
    then send_to_axis cmd.free_run_axis (record l { type_stop = true })
    else (if actual == 0x01
        then send_to_axis cmd.free_run_axis (record l { type_free_run_start = true })
        else l)

unfoldable pub mode_case_2 : ℕ → Locals → Locals
mode_case_2 actual l =
    let l' = record l { send_to_arm = true; send_to_pole = true } in
    if actual == 0x00
    then record l' { type_stop = true }
    else (if actual == 0x02 then record l' { type_auto_start = true } else l')

unfoldable pub mode_case_3 : ℕ → HmiCmd → Locals → Locals
mode_case_3 actual cmd l =
    let l' = record l { send_to_lift = true } in
    if actual == 0x00
    then record l' { type_stop = true }
    else (if actual == 0x03
        then (if is_up cmd.lift_dir
            then record l' { type_lift_up = true }
            else record l' { type_lift_down = true })
        else l')

unfoldable pub mode_trigger : ℕ → ℕ → HmiCmd → Locals → Locals
unfolding mode_case_1 mode_case_2 mode_case_3
mode_trigger event actual cmd l =
    if event == 0x00
    then l
    else (if event == 0x01
        then mode_case_1 actual cmd l
        else (if event == 0x02
            then mode_case_2 actual l
            else (if event == 0x03 then mode_case_3 actual cmd l else l)))

unfoldable pub ctrl_en_trigger : Bool → HmiCmd → Locals → Locals
ctrl_en_trigger event cmd l =
    if event
    then (if is_enable cmd.ctrl_en then l else record l {
      type_stop = true;
      send_to_arm = true;
      send_to_pole = true;
      send_to_lift = true;
    })
    else l

-- The type that is written to a message; with no flag set the block keeps what it held.
unfoldable pub mot_pap_type : Locals → MotPapType → MotPapType
mot_pap_type l old =
    if l.type_stop
    then MotPapType.stop
    else (if l.type_free_run_start
        then MotPapType.free_running
        else (if l.type_auto_start then MotPapType.closed_loop else old))

unfoldable pub lift_type : Locals → LiftType → LiftType
lift_type l old =
    if l.type_stop
    then LiftType.stop
    else (if l.type_lift_up then LiftType.up else (if l.type_lift_down then LiftType.down else old))

-- eCW and MOT_PAP_DIRECTION_CW are both 0, and the others both 1.
abbrev pub direction_of : FreeRunDir → MotPapDirection
direction_of FreeRunDir.cw = MotPapDirection.cw
direction_of FreeRunDir.ccw = MotPapDirection.ccw

unfoldable pub trigger_arm : Env → Locals → HmiCmd → M (Unit {0})
unfolding mot_pap_type
trigger_arm env l cmd =
    if l.send_to_arm
    then (do
      msg ← malloc_mot_pap env
      call (
          send_arm (record {
            type = mot_pap_type l msg.type;
            free_run_direction = direction_of cmd.free_run_dir;
            free_run_speed = cmd.vel_cmd_arm;
            closed_loop_setpoint = cmd.pos_cmd_arm;
          })))
    else pure tt

unfoldable pub trigger_pole : Env → Locals → HmiCmd → M (Unit {0})
unfolding mot_pap_type
trigger_pole env l cmd =
    if l.send_to_pole
    then (do
      msg ← malloc_mot_pap env
      call (
          send_pole (record {
            type = mot_pap_type l msg.type;
            free_run_direction = direction_of cmd.free_run_dir;
            free_run_speed = cmd.vel_cmd_pole;
            closed_loop_setpoint = cmd.pos_cmd_pole;
          })))
    else pure tt

unfoldable pub trigger_lift : Env → Locals → M (Unit {0})
unfolding lift_type
trigger_lift env l =
    if l.send_to_lift
    then (do msg ← malloc_lift env; call (send_lift (record { type = lift_type l msg.type })))
    else pure tt

-- The local variables after the two switches, where the conditions at their head hold.
unfoldable pub conditions : ℕ → HmiCmd → Locals
unfolding mode_trigger ctrl_en_trigger
conditions previous cmd =
    let actual = flag_byte cmd.mode cmd.ctrl_en in
    let event = bit_xor actual previous in
    if not (event == 0x00) && (is_enable cmd.ctrl_en || bit_status previous 2)
    then ctrl_en_trigger (bit_status event 2) cmd
        (mode_trigger (bit_and 0x03 event) (bit_and 0x03 actual) cmd no_locals)
    else no_locals

unfoldable pub task_trigger_msg : Env → ℕ → HmiCmd → M ℕ
task_trigger_msg env previous cmd = do
  let l = conditions previous cmd
  trigger_arm env l cmd
  trigger_pole env l cmd
  trigger_lift env l
  pure (flag_byte cmd.mode cmd.ctrl_en)
