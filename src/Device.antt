-- ===== src/Device.antt =====
-- com/src/arm.c, pole.c and lift.c: the status that a device reports, and what its task does with a
-- message. The drives are not connected yet in this program: a task logs the command that it took,
-- and the pole task keeps the two static flags `cw` and `ccw`.
use rtu_com.Common.{ℕ, List, [], ◌∷◌, Bool, true, false, Option, none, some, String}
use rtu_com.Motion.{MotPapDirection, MotPapType, MotPapMsg, MotPap, LiftType, LiftMsg, Lift}
use rtu_com.Kernel.{M, ◌>>◌, call, DeviceName, queue_create, task_create}

-- The levels of com/inc/debug.h.
pub data Level : Type 0 where
  debug info warn error : Level

-- A call of `lDebug`: its level, its format and its argument.
pub record LogLine : Type 0 where
  pub level : Level
  pub format : String
  pub argument : Option ℕ

abbrev log_line : Level → String → LogLine
log_line level format = record { level = level; format = format; argument = none }

abbrev log_value : Level → String → ℕ → LogLine
log_value level format n = record { level = level; format = format; argument = some n }

-- The value of an enum mot_pap_direction, and its test as a condition.
abbrev direction_code : MotPapDirection → ℕ
direction_code MotPapDirection.cw = 0
direction_code MotPapDirection.ccw = 1

abbrev pub is_ccw : MotPapDirection → Bool
is_ccw MotPapDirection.cw = false
is_ccw MotPapDirection.ccw = true

arm_turn : MotPapDirection → LogLine
arm_turn MotPapDirection.ccw = log_line Level.info "Giro Anti-horario"
arm_turn MotPapDirection.cw = log_line Level.debug "Giro Horario"

-- The body of `arm_task` for a received message: what it logs.
arm_message : MotPapType → MotPapMsg → List LogLine
unfolding arm_turn
arm_message MotPapType.free_running msg =
    log_value Level.debug "Arm free_run_direction: %d" (direction_code msg.free_run_direction)
    ∷ arm_turn msg.free_run_direction
    ∷ log_value Level.info "Arm free_run_speed: %d" msg.free_run_speed
    ∷ []
arm_message MotPapType.closed_loop msg =
    log_value Level.info "Arm closed_loop_setpoint: %x" msg.closed_loop_setpoint ∷ []
arm_message _ msg = log_line Level.info "STOP ARM" ∷ []

unfoldable pub arm_task : MotPapMsg → List LogLine
unfolding arm_message
arm_task msg = log_line Level.debug "arm: command received" ∷ arm_message msg.type msg

-- `static uint16_t cw, ccw` of pole.c, to which only `true` and `false` are written.
pub record PoleFlags : Type 0 where
  pub cw : Bool
  pub ccw : Bool

abbrev pub pole_flags_at_start : PoleFlags
pole_flags_at_start = record { cw = false; ccw = false }

abbrev turn_flags : MotPapDirection → PoleFlags → PoleFlags
turn_flags MotPapDirection.ccw f = record f { ccw = true }
turn_flags MotPapDirection.cw f = record f { cw = true }

pole_turn : MotPapDirection → LogLine
pole_turn MotPapDirection.ccw = log_line Level.info "Giro Anti-horario"
pole_turn MotPapDirection.cw = log_line Level.info "Giro Horario"

-- The body of `pole_task` for a received message: the flags after it and what it logs.
pole_message : MotPapType → MotPapMsg → PoleFlags → PoleFlags × List LogLine
unfolding pole_turn
pole_message MotPapType.free_running msg f = (
  turn_flags msg.free_run_direction f,
  log_value Level.debug "Pole free_run_direction: %d" (direction_code msg.free_run_direction)
      ∷ pole_turn msg.free_run_direction
      ∷ log_value Level.info "Pole free_run_speed: %d" msg.free_run_speed
      ∷ [],
)
pole_message MotPapType.closed_loop msg f =
    (f, log_value Level.info "Pole closed_loop_setpoint: %x" msg.closed_loop_setpoint ∷ [])
pole_message _ msg f = (pole_flags_at_start, log_line Level.info "STOP POLE" ∷ [])

unfoldable pub pole_task : PoleFlags → MotPapMsg → PoleFlags × List LogLine
unfolding pole_message
pole_task f msg =
    let (f', lines) = pole_message msg.type msg f in
    (f', log_line Level.debug "pole: command received" ∷ lines)

-- The body of `lift_task` for a received message.
lift_message : LiftType → List LogLine
lift_message LiftType.up = log_line Level.info "LIFT UP" ∷ []
lift_message LiftType.down = log_line Level.info "LIFT DOWN" ∷ []
lift_message _ = log_line Level.info "LIFT STOP" ∷ []

unfoldable pub lift_task : LiftMsg → List LogLine
unfolding lift_message
lift_task msg = lift_message msg.type

-- MOT_PAP_TYPE_STOP, which `arm_supervisor_task` and `pole_supervisor_task` assign to `dir`.
abbrev mot_pap_type_stop : ℕ
mot_pap_type_stop = 2

unfoldable pub arm_supervisor_task : MotPap → MotPap
arm_supervisor_task s = record s {
  dir = mot_pap_type_stop;
  pos_cmd = 0xFFEE;
  pos_act = 0xFFEE;
  freq = 5;
}

unfoldable pub pole_supervisor_task : MotPap → MotPap
pole_supervisor_task s = record s {
  dir = mot_pap_type_stop;
  pos_cmd = 0xFFEE;
  pos_act = 0xFFEE;
  freq = 5;
}

unfoldable pub lift_supervisor_task : Lift → Lift
lift_supervisor_task s = record { type = LiftType.stop; up_limit = false; down_limit = false }

-- The status functions run the supervisor and hand out the status, here its new contents.
unfoldable pub arm_get_status : MotPap → MotPap
unfolding arm_supervisor_task
arm_get_status s = arm_supervisor_task s

unfoldable pub pole_get_status : MotPap → MotPap
unfolding pole_supervisor_task
pole_get_status s = pole_supervisor_task s

unfoldable pub lift_get_status : Lift → Lift
unfolding lift_supervisor_task
lift_get_status s = lift_supervisor_task s

-- Each connection makes a new queue and a new task for each device, over the old handles.
unfoldable pub arm_init : M (Unit {0})
arm_init = do call (queue_create DeviceName.arm); call (task_create DeviceName.arm)

unfoldable pub pole_init : M (Unit {0})
pole_init = do call (queue_create DeviceName.pole); call (task_create DeviceName.pole)

unfoldable pub lift_init : M (Unit {0})
lift_init = do call (queue_create DeviceName.lift); call (task_create DeviceName.lift)
