-- ===== src/Trigger/Orders.antt =====
-- What a change of the command orders from the three devices: an independent description of what
-- `TaskTriggerMsg` is for. A change between two modes that both move a device is left out.
use rtu_com.Common.{◌∷◌, ◌≡◌, ◌⊎◌, Option, none, some}
use rtu_com.Motion.{MotPapType, LiftType}
use rtu_com.Hmi.{HmiCmd, Mode, FreeRunAxis, Enable, LiftDir}
use rtu_com.Kernel.{Trace, malloc_mot_pap_msg, malloc_lift_msg, send_arm, send_pole, send_lift}
use rtu_com.Trigger.{direction_of}

pub record Orders : Type 0 where
  pub arm : Option MotPapType
  pub pole : Option MotPapType
  pub lift : Option LiftType

abbrev pub no_orders : Orders
no_orders = record { arm = none; pole = none; lift = none }

abbrev pub stop_all : Orders
stop_all = record {
  arm = some MotPapType.stop;
  pole = some MotPapType.stop;
  lift = some LiftType.stop;
}

abbrev pub axis_order : FreeRunAxis → MotPapType → Orders
axis_order FreeRunAxis.arm type = record no_orders { arm = some type }
axis_order FreeRunAxis.pole type = record no_orders { pole = some type }

abbrev pub both_order : MotPapType → Orders
both_order type = record { arm = some type; pole = some type; lift = none }

abbrev pub lift_order : LiftType → Orders
lift_order type = record no_orders { lift = some type }

abbrev pub lift_start : LiftDir → LiftType
lift_start LiftDir.up = LiftType.up
lift_start LiftDir.down = LiftType.down

-- The order for a change of mode while the control is, or becomes, enabled.
abbrev pub mode_orders : Mode → Mode → FreeRunAxis → LiftDir → Orders
mode_orders Mode.stop Mode.free_run axis dir = axis_order axis MotPapType.free_running
mode_orders Mode.stop Mode.auto axis dir = both_order MotPapType.closed_loop
mode_orders Mode.stop Mode.lift axis dir = lift_order (lift_start dir)
mode_orders Mode.free_run Mode.stop axis dir = axis_order axis MotPapType.stop
mode_orders Mode.auto Mode.stop axis dir = both_order MotPapType.stop
mode_orders Mode.lift Mode.stop axis dir = lift_order LiftType.stop
mode_orders _ _ axis dir = no_orders

-- The order for a change from the mode and the control before to a new command.
abbrev pub orders : Mode → Enable → Mode → Enable → FreeRunAxis → LiftDir → Orders
orders before was_enabled now Enable.enable axis dir = mode_orders before now axis dir
orders before Enable.enable now Enable.desable axis dir = stop_all
orders before Enable.desable now Enable.desable axis dir = no_orders

-- The mode stays, or one of the two modes is STOP.
abbrev pub IsDirect : Mode → Mode → Type 0
IsDirect before now = (before ≡ now) ⊎ ((before ≡ Mode.stop) ⊎ (now ≡ Mode.stop))

-- The calls that carry an order out: a block for each message, with the command's data.
abbrev pub arm_calls : HmiCmd → Option MotPapType → Trace → Trace
arm_calls cmd none t = t
arm_calls cmd (some type) t =
    send_arm (record {
      type = type;
      free_run_direction = direction_of cmd.free_run_dir;
      free_run_speed = cmd.vel_cmd_arm;
      closed_loop_setpoint = cmd.pos_cmd_arm;
    })
    ∷ malloc_mot_pap_msg
    ∷ t

abbrev pub pole_calls : HmiCmd → Option MotPapType → Trace → Trace
pole_calls cmd none t = t
pole_calls cmd (some type) t =
    send_pole (record {
      type = type;
      free_run_direction = direction_of cmd.free_run_dir;
      free_run_speed = cmd.vel_cmd_pole;
      closed_loop_setpoint = cmd.pos_cmd_pole;
    })
    ∷ malloc_mot_pap_msg
    ∷ t

abbrev pub lift_calls : Option LiftType → Trace → Trace
lift_calls none t = t
lift_calls (some type) t = send_lift (record { type = type }) ∷ malloc_lift_msg ∷ t

abbrev pub order_calls : HmiCmd → Orders → Trace → Trace
order_calls cmd o t = lift_calls o.lift (pole_calls cmd o.pole (arm_calls cmd o.arm t))
