-- ===== src/Trigger/Axis.antt =====
-- FREE RUN started on one axis and stopped with the other axis selected.
use rtu_com.Common.{[], ◌∷◌, ◌≡◌, refl, inl, inr, ◌∙◌}
use rtu_com.Motion.{MotPapType, MotPapMsg}
use rtu_com.Hmi.{HmiCmd, Mode, FreeRunAxis, Enable, LiftDir}
use rtu_com.Kernel.{Memory, Trace, done, plenty, arm_posts}
use rtu_com.Trigger.{flag_byte, direction_of}
use rtu_com.Trigger.Orders.{orders, mode_orders, axis_order, order_calls}
use rtu_com.Trigger.Laws.{task_trigger_msg-orders}
use rtu_com.Trigger.Sequence.{trigger_all, trigger_all-cons}

-- The message that starts the arm.
abbrev pub arm_start : HmiCmd → MotPapMsg
arm_start cmd = record {
  type = MotPapType.free_running;
  free_run_direction = direction_of cmd.free_run_dir;
  free_run_speed = cmd.vel_cmd_arm;
  closed_loop_setpoint = cmd.pos_cmd_arm;
}

orders_at :
    (before now : Mode) (was en : Enable) (axis : FreeRunAxis) (dir : LiftDir) (mode : Mode)
    (ax : FreeRunAxis)
    → now ≡ mode
    → axis ≡ ax
    → en ≡ Enable.enable
    → orders before was now en axis dir ≡ mode_orders before mode ax dir
orders_at before now was en axis dir mode ax m a e = rw (m, a, e)

-- From STOP, where the heap is not exhausted: a command that starts FREE RUN on the arm, then a STOP
-- command with the pole selected, both with the control enabled. The thread takes the system to be
-- stopped, and the last message of the arm is still the one that started it.
pub stop_other_axis :
    (mem : Memory) (was : Enable) (start stop : HmiCmd) (t : Trace)
    → start.mode ≡ Mode.free_run
    → start.free_run_axis ≡ FreeRunAxis.arm
    → start.ctrl_en ≡ Enable.enable
    → stop.mode ≡ Mode.stop
    → stop.free_run_axis ≡ FreeRunAxis.pole
    → stop.ctrl_en ≡ Enable.enable
    → (t' : Trace) × (trigger_all (plenty mem) (flag_byte Mode.stop was) (start ∷ stop ∷ []) t
        ≡ done (flag_byte Mode.stop Enable.enable) t')
      × (arm_posts t' ≡ arm_start start ∷ arm_posts t)
stop_other_axis mem was start stop t m₁ a₁ e₁ m₂ a₂ e₂ =
    let started =
      orders_at Mode.stop start.mode was start.ctrl_en start.free_run_axis start.lift_dir
        Mode.free_run FreeRunAxis.arm m₁ a₁ e₁ in
    let stopped =
      orders_at Mode.free_run stop.mode Enable.enable stop.ctrl_en stop.free_run_axis stop.lift_dir
        Mode.stop FreeRunAxis.pole m₂ a₂ e₂ in
    let t₁ = order_calls start (axis_order FreeRunAxis.arm MotPapType.free_running) t in
    let t₂ = order_calls stop (axis_order FreeRunAxis.pole MotPapType.stop) t₁ in
    (
      t₂,
      trigger_all-cons (plenty mem) (flag_byte Mode.stop was) start (stop ∷ []) t
          (task_trigger_msg-orders mem Mode.stop was start t (inr (inl refl))
            ∙ (λ i. done (flag_byte (m₁ i) (e₁ i)) (order_calls start (started i) t)))
          (trigger_all-cons (plenty mem) (flag_byte Mode.free_run Enable.enable) stop [] t₁
            (task_trigger_msg-orders mem Mode.free_run Enable.enable stop t₁ (inr (inr m₂))
              ∙ (λ i. done (flag_byte (m₂ i) (e₂ i)) (order_calls stop (stopped i) t₁)))
            (unfold trigger_all in refl)),
      refl,
    )
