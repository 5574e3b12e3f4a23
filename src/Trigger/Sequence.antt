-- ===== src/Trigger/Sequence.antt =====
-- `TaskTriggerMsg` over the commands of a run, from power-up on. The static flag byte is 0 then, which
-- is the flag byte of STOP with the control disabled.
use rtu_com.Common.{ℕ, List, [], ◌∷◌, ◌++◌, ◌≡◌, refl, arith, inl, inr, ◌⊎◌}
use rtu_com.Motion.{MotPapType, MotPapMsg, LiftType, LiftMsg}
use rtu_com.Hmi.{HmiCmd, Mode, Enable}
use rtu_com.Kernel.{
  Memory, Env, M, Out, Trace, done, pure, plenty, ◌>>=◌, >>=-done, trace_of, arm_posts, pole_posts,
  lift_posts,
}
use rtu_com.Trigger.{
  Locals, flag_byte, conditions, trigger_arm, trigger_pole, trigger_lift, task_trigger_msg,
}
use rtu_com.Trigger.Orders.{order_calls, stop_all}
use rtu_com.Trigger.Laws.{task_trigger_msg-disable}

unfoldable pub trigger_all : Env → ℕ → List HmiCmd → M ℕ
trigger_all env previous [] = pure previous
trigger_all env previous (cmd ∷ cmds) = do
  previous' ← task_trigger_msg env previous cmd
  trigger_all env previous' cmds

pub trigger_all-cons :
    (env : Env) (previous : ℕ) (cmd : HmiCmd) (cmds : List HmiCmd) (t : Trace) {p : ℕ} {t' : Trace}
    {r : Out ℕ}
    → task_trigger_msg env previous cmd t ≡ done p t'
    → trigger_all env p cmds t' ≡ r
    → trigger_all env previous (cmd ∷ cmds) t ≡ r
unfolding trigger_all
trigger_all-cons env previous cmd cmds t e h =
    >>=-done (task_trigger_msg env previous cmd) (λ p. trigger_all env p cmds) t e h

module _ (mem : Memory) (l : Locals) (cmd : HmiCmd) (t : Trace) where
  trigger_arm_done :
      trigger_arm (plenty mem) l cmd t ≡ done tt (trace_of (trigger_arm (plenty mem) l cmd t))
  unfolding trigger_arm
  trigger_arm_done = ground arith

  trigger_pole_done :
      trigger_pole (plenty mem) l cmd t ≡ done tt (trace_of (trigger_pole (plenty mem) l cmd t))
  unfolding trigger_pole
  trigger_pole_done = ground arith

  trigger_lift_done :
      trigger_lift (plenty mem) l t ≡ done tt (trace_of (trigger_lift (plenty mem) l t))
  unfolding trigger_lift
  trigger_lift_done = ground arith

-- With memory at hand `TaskTriggerMsg` returns, and remembers the flags of the command.
pub task_trigger_msg-done :
    (mem : Memory) (previous : ℕ) (cmd : HmiCmd) (t : Trace)
    → task_trigger_msg (plenty mem) previous cmd t
      ≡ done
          (flag_byte cmd.mode cmd.ctrl_en)
          (trace_of (task_trigger_msg (plenty mem) previous cmd t))
unfolding task_trigger_msg
task_trigger_msg-done mem previous cmd t =
    let l = conditions previous cmd in
    let t₁ = trace_of (trigger_arm (plenty mem) l cmd t) in
    let t₂ = trace_of (trigger_pole (plenty mem) l cmd t₁) in
    ground (
      arith,
      trigger_arm_done mem l cmd t,
      trigger_pole_done mem l cmd t₁,
      trigger_lift_done mem l cmd t₂,
    )

-- The last message on each queue, if there is one, is a stop.
abbrev pub IsMotorStopped : List MotPapMsg → Type 0
IsMotorStopped [] = Unit {0}
IsMotorStopped (m ∷ ms) = m.type ≡ MotPapType.stop

abbrev pub IsLiftStopped : List LiftMsg → Type 0
IsLiftStopped [] = Unit {0}
IsLiftStopped (m ∷ ms) = m.type ≡ LiftType.stop

pub record IsStopped (t : Trace) : Type 0 where
  pub arm : IsMotorStopped (arm_posts t)
  pub pole : IsMotorStopped (pole_posts t)
  pub lift : IsLiftStopped (lift_posts t)

abbrev IsSafe : Enable → Trace → Type 0
IsSafe en t = en ≡ Enable.desable → IsStopped t

Enable-cases : (e : Enable) → (e ≡ Enable.enable) ⊎ (e ≡ Enable.desable)
Enable-cases Enable.enable = inl refl
Enable-cases Enable.desable = inr refl

disabled_step :
    (mem : Memory) (before : Mode) (was : Enable) (cmd : HmiCmd) (t : Trace)
    → IsSafe was t
    → cmd.ctrl_en ≡ Enable.desable
    → (t' : Trace) × (task_trigger_msg (plenty mem) (flag_byte before was) cmd t
        ≡ done (flag_byte cmd.mode cmd.ctrl_en) t')
      × IsSafe cmd.ctrl_en t'
disabled_step mem before Enable.enable cmd t h off = (
  order_calls cmd stop_all t,
  (task_trigger_msg-disable mem before cmd t off).0,
  λ _. record { arm = refl; pole = refl; lift = refl },
)
disabled_step mem before Enable.desable cmd t h off =
    (t, (task_trigger_msg-disable mem before cmd t off).1, λ _. h refl)

IsSafe-step :
    (mem : Memory) (before : Mode) (was : Enable) (cmd : HmiCmd) (t : Trace)
    → IsSafe was t
    → (t' : Trace) × (task_trigger_msg (plenty mem) (flag_byte before was) cmd t
        ≡ done (flag_byte cmd.mode cmd.ctrl_en) t')
      × IsSafe cmd.ctrl_en t'
IsSafe-step mem before was cmd t h = elim (Enable-cases cmd.ctrl_en) [
  | inl on ↦ (_, task_trigger_msg-done mem (flag_byte before was) cmd t, λ off. cc)
  | inr off ↦ disabled_step mem before was cmd t h off
]

IsSafe-all :
    (mem : Memory) (cmds : List HmiCmd) (last : HmiCmd) (before : Mode) (was : Enable) (t : Trace)
    → IsSafe was t
    → (t' : Trace) × (trigger_all (plenty mem) (flag_byte before was) (cmds ++ last ∷ []) t
        ≡ done (flag_byte last.mode last.ctrl_en) t')
      × IsSafe last.ctrl_en t'
unfolding trigger_all
IsSafe-all mem [] last before was t h =
    let (t₁, step, safe) = IsSafe-step mem before was last t h in
    (t₁, trigger_all-cons (plenty mem) (flag_byte before was) last [] t step refl, safe)
IsSafe-all mem (cmd ∷ cmds) last before was t h =
    let (t₁, step, safe) = IsSafe-step mem before was cmd t h in
    let (t₂, rest, safe') = IsSafe-all mem cmds last cmd.mode cmd.ctrl_en t₁ safe in
    (
      t₂,
      trigger_all-cons (plenty mem) (flag_byte before was) cmd (cmds ++ last ∷ []) t step rest,
      safe',
    )

-- Where the heap is not exhausted: from power-up, after any sequence of commands whatever, the last of
-- which has the control disabled, the run has returned, and the last message on each of the three
-- queues, if any was ever posted there, is a stop.
pub disabled-IsStopped :
    (mem : Memory) (cmds : List HmiCmd) (last : HmiCmd)
    → last.ctrl_en ≡ Enable.desable
    → (t : Trace) × (trigger_all (plenty mem) 0 (cmds ++ last ∷ []) []
        ≡ done (flag_byte last.mode last.ctrl_en) t)
      × IsStopped t
disabled-IsStopped mem cmds last h =
    let (t, run, safe) =
      IsSafe-all mem cmds last Mode.stop Enable.desable []
        (λ _. record { arm = tt; pole = tt; lift = tt }) in
    (t, run, safe h)
