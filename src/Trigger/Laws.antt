-- ===== src/Trigger/Laws.antt =====
-- What `TaskTriggerMsg` posts, for every command that it may see before and after.
use rtu_com.Common.{◌∷◌, ◌≡◌, ◌≢◌, refl, arith, none, some}
use rtu_com.Hmi.{HmiCmd, Mode, FreeRunAxis, Enable, LiftDir}
use rtu_com.Kernel.{
  Memory, Env, plenty, Trace, done, fault, malloc_mot_pap_msg, arm_posts, pole_posts, lift_posts,
}
use rtu_com.Trigger.{
  flag_byte, conditions, trigger_arm, trigger_pole, trigger_lift, task_trigger_msg,
}
use rtu_com.Trigger.Orders.{
  orders, IsDirect, order_calls, arm_calls, pole_calls, lift_calls, stop_all,
}

-- The command whose fields are given one by one.
abbrev command : HmiCmd → Mode → FreeRunAxis → Enable → LiftDir → HmiCmd
command cmd mode axis en dir = record cmd {
  mode = mode;
  free_run_axis = axis;
  ctrl_en = en;
  lift_dir = dir;
}

direct_case :
    (mem : Memory) (before : Mode) (was : Enable) (cmd : HmiCmd) (t : Trace) (mode : Mode)
    (axis : FreeRunAxis) (en : Enable) (dir : LiftDir)
    → IsDirect before mode
    → task_trigger_msg (plenty mem) (flag_byte before was) (command cmd mode axis en dir) t
      ≡ done
          (flag_byte mode en)
          (order_calls (command cmd mode axis en dir) (orders before was mode en axis dir) t)
unfolding task_trigger_msg conditions trigger_arm trigger_pole trigger_lift
direct_case mem Mode.stop Enable.enable cmd t Mode.stop axis Enable.enable dir h = ground arith
direct_case mem _ _ cmd t _ axis _ dir h = ground arith

-- Where the heap is not exhausted: from any flag byte of an earlier command, a change of mode that is
-- direct posts exactly the orders that the change stands for, with the data of the new command, and
-- remembers the new command's flags. So a repeated command posts nothing, even with other targets,
-- velocities or axis.
pub task_trigger_msg-orders :
    (mem : Memory) (before : Mode) (was : Enable) (cmd : HmiCmd) (t : Trace)
    → IsDirect before cmd.mode
    → task_trigger_msg (plenty mem) (flag_byte before was) cmd t
      ≡ done (flag_byte cmd.mode cmd.ctrl_en) (
          order_calls cmd (orders before was cmd.mode cmd.ctrl_en cmd.free_run_axis cmd.lift_dir) t)
task_trigger_msg-orders mem before was cmd t h =
    direct_case mem before was cmd t cmd.mode cmd.free_run_axis cmd.ctrl_en cmd.lift_dir h

disable_case :
    (mem : Memory) (before : Mode) (cmd : HmiCmd) (t : Trace) (mode : Mode) (axis : FreeRunAxis)
    (en : Enable) (dir : LiftDir)
    → en ≡ Enable.desable
    → let cmd' = command cmd mode axis en dir in
      (task_trigger_msg (plenty mem) (flag_byte before Enable.enable) cmd' t
        ≡ done (flag_byte mode en) (order_calls cmd' stop_all t))
      × (task_trigger_msg (plenty mem) (flag_byte before Enable.desable) cmd' t
          ≡ done (flag_byte mode en) t)
unfolding task_trigger_msg conditions trigger_arm trigger_pole trigger_lift
disable_case mem Mode.stop cmd t Mode.stop axis en dir h = ground arith
disable_case mem _ cmd t _ axis en dir h = ground arith

-- Where the heap is not exhausted: a command that disables the control stops all three devices,
-- whatever the modes before and now, and a command that leaves it disabled posts nothing.
pub task_trigger_msg-disable :
    (mem : Memory) (before : Mode) (cmd : HmiCmd) (t : Trace)
    → cmd.ctrl_en ≡ Enable.desable
    → (task_trigger_msg (plenty mem) (flag_byte before Enable.enable) cmd t
        ≡ done (flag_byte cmd.mode cmd.ctrl_en) (order_calls cmd stop_all t))
      × (task_trigger_msg (plenty mem) (flag_byte before Enable.desable) cmd t
          ≡ done (flag_byte cmd.mode cmd.ctrl_en) t)
task_trigger_msg-disable mem before cmd t h =
    disable_case mem before cmd t cmd.mode cmd.free_run_axis cmd.ctrl_en cmd.lift_dir h

-- The two modes differ and neither is STOP.
abbrev pub IsIndirect : Mode → Mode → Type 0
IsIndirect before now = (before ≢ now) × (before ≢ Mode.stop) × (now ≢ Mode.stop)

-- What a change between two moving modes posts: a lift message between FREE RUN and AUTO, messages to
-- arm and pole between FREE RUN and LIFT, nothing between AUTO and LIFT. The type of each message is
-- what the block from `pvPortMalloc` held.
abbrev pub indirect_calls : Memory → Mode → Mode → HmiCmd → Trace → Trace
indirect_calls mem Mode.free_run Mode.auto cmd t = lift_calls (some (mem.lift_contents t).type) t
indirect_calls mem Mode.auto Mode.free_run cmd t = lift_calls (some (mem.lift_contents t).type) t
indirect_calls mem Mode.auto Mode.lift cmd t = t
indirect_calls mem Mode.lift Mode.auto cmd t = t
indirect_calls mem _ _ cmd t =
    let t' = arm_calls cmd (some (mem.mot_pap_contents t).type) t in
    pole_calls cmd (some (mem.mot_pap_contents t').type) t'

indirect_case :
    (mem : Memory) (before : Mode) (was : Enable) (cmd : HmiCmd) (t : Trace) (mode : Mode)
    (axis : FreeRunAxis) (en : Enable) (dir : LiftDir)
    → IsIndirect before mode
    → en ≡ Enable.enable
    → let cmd' = command cmd mode axis en dir in
      task_trigger_msg (plenty mem) (flag_byte before was) cmd' t
      ≡ done (flag_byte mode en) (indirect_calls mem before mode cmd' t)
unfolding task_trigger_msg conditions trigger_arm trigger_pole trigger_lift
indirect_case mem Mode.stop was cmd t Mode.stop axis en dir i h = absurd (i.1 refl)
indirect_case mem Mode.free_run Enable.enable cmd t Mode.lift axis en dir i h = ground arith
indirect_case mem _ _ cmd t _ axis en dir i h = ground arith

-- The devices that the change should have told, and that get no message.
abbrev pub Untold : Mode → Mode → Trace → Trace → Type 0
Untold Mode.free_run Mode.auto t t' = (arm_posts t' ≡ arm_posts t) × (pole_posts t' ≡ pole_posts t)
Untold Mode.auto Mode.free_run t t' = (arm_posts t' ≡ arm_posts t) × (pole_posts t' ≡ pole_posts t)
Untold _ _ t t' = lift_posts t' ≡ lift_posts t

indirect_calls-Untold :
    (mem : Memory) (before now : Mode) (cmd : HmiCmd) (t : Trace)
    → IsIndirect before now
    → Untold before now t (indirect_calls mem before now cmd t)
indirect_calls-Untold mem Mode.free_run Mode.auto cmd t i = (refl, refl)
indirect_calls-Untold mem Mode.auto Mode.free_run cmd t i = (refl, refl)
indirect_calls-Untold mem Mode.free_run Mode.lift cmd t i = refl
indirect_calls-Untold mem Mode.lift Mode.free_run cmd t i = refl
indirect_calls-Untold mem Mode.auto Mode.lift cmd t i = refl
indirect_calls-Untold mem Mode.lift Mode.auto cmd t i = refl
indirect_calls-Untold mem Mode.stop now cmd t i = absurd (i.1 refl)
indirect_calls-Untold mem before Mode.stop cmd t i = absurd (i.2 refl)
indirect_calls-Untold mem Mode.free_run Mode.free_run cmd t i = absurd (i.0 refl)
indirect_calls-Untold mem Mode.auto Mode.auto cmd t i = absurd (i.0 refl)
indirect_calls-Untold mem Mode.lift Mode.lift cmd t i = absurd (i.0 refl)

-- Where the heap is not exhausted: a change between two modes that both move a device, to a command
-- with the control enabled. Between FREE RUN and AUTO neither the arm nor the pole gets a message, and
-- the lift gets one; from or to LIFT the lift gets none, so it is neither stopped nor started; between
-- FREE RUN and LIFT the arm and the pole get one each, and between AUTO and LIFT no device does. The
-- type of each message is what its block from `pvPortMalloc` happened to hold.
pub task_trigger_msg_indirect :
    (mem : Memory) (before : Mode) (was : Enable) (cmd : HmiCmd) (t : Trace)
    → IsIndirect before cmd.mode
    → cmd.ctrl_en ≡ Enable.enable
    → (task_trigger_msg (plenty mem) (flag_byte before was) cmd t
        ≡ done (flag_byte cmd.mode cmd.ctrl_en) (indirect_calls mem before cmd.mode cmd t))
      × Untold before cmd.mode t (indirect_calls mem before cmd.mode cmd t)
task_trigger_msg_indirect mem before was cmd t i h = (
  indirect_case mem before was cmd t cmd.mode cmd.free_run_axis cmd.ctrl_en cmd.lift_dir i h,
  indirect_calls-Untold mem before cmd.mode cmd t i,
)

null_case :
    (env : Env) (before : Mode) (cmd : HmiCmd) (t : Trace) (mode : Mode) (axis : FreeRunAxis)
    (en : Enable) (dir : LiftDir)
    → env.mot_pap_block t ≡ none
    → en ≡ Enable.desable
    → task_trigger_msg env (flag_byte before Enable.enable) (command cmd mode axis en dir) t
      ≡ fault (malloc_mot_pap_msg ∷ t)
unfolding task_trigger_msg conditions trigger_arm trigger_pole trigger_lift
null_case env Mode.stop cmd t Mode.stop axis en dir h k = ground arith
null_case env _ cmd t _ axis en dir h k = ground arith

-- The result of `pvPortMalloc` is not tested: where the heap is exhausted when the control is
-- disabled, the run faults at the first message and none of the devices is stopped.
pub task_trigger_msg_null :
    (env : Env) (before : Mode) (cmd : HmiCmd) (t : Trace)
    → env.mot_pap_block t ≡ none
    → cmd.ctrl_en ≡ Enable.desable
    → task_trigger_msg env (flag_byte before Enable.enable) cmd t ≡ fault (malloc_mot_pap_msg ∷ t)
task_trigger_msg_null env before cmd t h k =
    null_case env before cmd t cmd.mode cmd.free_run_axis cmd.ctrl_en cmd.lift_dir h k
