-- ===== src/Tests/Devices.antt =====
-- The device tasks beside the thread, at concrete inputs.
use rtu_com.Common.{
  ℕ, ◌≢◌, inl, subst, sym, ◌*◌, ◌≤◌, List, [], ◌∷◌, ◌≡◌, ◌⊎◌, refl, some, inr, length, arith,
  Option,
}
use rtu_com.Motion.{MotPapMsg, MotPapType, LiftMsg, LiftType}
use rtu_com.Device.{LogLine, PoleFlags, pole_flags_at_start, arm_init, pole_init, lift_init}
use rtu_com.Session.{Connection, tcp_thread, serve, receive, prv_emergency_stop}
use rtu_com.Dispatch.{
  IsBlocked, TaskState, absent, Act, new_queue, new_task, post, Port, IsIdle, act, take_message,
  read_handle, Step, reads, takes, acts, Run, here, next, begins,
}
use rtu_com.Dispatch.Order.{posts, same_or}
use rtu_com.Dispatch.Settles.{IsSettled, settled_ends, Run-handled, Run-settles}
use rtu_com.Dispatch.Served.{
  arm_body, pole_body, lift_body, served_trace, AllHandled, tcp_thread-handled,
}
use rtu_com.Tests.Data.{memory}
use rtu_com.Tests.Sessions.{session, silent}

-- A queue, a task and a message: the last act first.
abbrev one_post : {M : Type 0} → M → List (Act M)
one_post m = post m ∷ new_task ∷ new_queue ∷ []

only_first :
    {M : Type 0} (queues : ℕ → List M) (tasks : ℕ → TaskState)
    → IsBlocked queues (tasks 1)
    → ((i : ℕ) → i ≢ 1 → tasks i ≡ absent)
    → (i : ℕ) → IsBlocked queues (tasks i)
only_first queues tasks first others i = elim (same_or i 1) [
  | inl e ↦ subst (λ j. IsBlocked queues (tasks j)) (sym e) first
  | inr ne ↦ subst (IsBlocked queues) (sym (others i ne)) tt
]

module _ {M S : Type 0} (body : M → S → S) (start : S) (m : M) where
  abbrev served_port : Port M S
  served_port = read_handle 1 (
      act new_task (post m ∷ []) (
        act new_queue (new_task ∷ post m ∷ []) (begins start (new_queue ∷ new_task ∷ post m ∷ []))))

  abbrev last_port : Port M S
  last_port = read_handle 1 (take_message body 1 1 m [] (act (post m) [] served_port))

  serves : Run body (begins start (new_queue ∷ new_task ∷ post m ∷ [])) 6 last_port
  unfolding act read_handle take_message
  serves =
      next
        (next
          (next
            (next
              (next (next here (acts new_queue (new_task ∷ post m ∷ []) (λ i. tt) refl tt))
                (acts new_task (post m ∷ []) (λ i. tt) refl tt))
              (reads 1 refl))
            (acts (post m) [] (only_first _ _ refl (λ i ne. ground arith)) refl (omega arith)))
          (takes 1 1 m [] refl refl))
        (reads 1 refl)

  last_idle : IsIdle last_port
  unfolding act read_handle take_message
  last_idle = only_first _ _ refl (λ i ne. ground arith)

  last_empty : (q : ℕ) → last_port.queues q ≡ []
  unfolding act read_handle take_message
  last_empty q = ground arith

  last_ends : ¬ ((u : Port M S) × Step body last_port u)
  unfolding act read_handle take_message
  last_ends = settled_ends body last_port last_idle last_empty refl

-- What each device is told when the first connection ends.
abbrev motor_stop : MotPapMsg
motor_stop = record (memory.mot_pap_contents []) { type = MotPapType.stop }

abbrev lift_stop : LiftMsg
lift_stop = record { type = LiftType.stop }

abbrev one_silent : List (Option Connection)
one_silent = some silent ∷ []

abbrev arm_last : Port MotPapMsg (List LogLine)
arm_last = last_port arm_body [] motor_stop

abbrev pole_last : Port MotPapMsg (PoleFlags × List LogLine)
pole_last = last_port pole_body (pole_flags_at_start, []) motor_stop

abbrev lift_last : Port LiftMsg (List LogLine)
lift_last = last_port lift_body [] lift_stop

Run-handled_example : (arm_last.handled ≡ posts arm_last.done) × ((q : ℕ) → arm_last.queues q ≡ [])
Run-handled_example =
    Run-handled arm_body [] (one_post motor_stop) tt (serves arm_body [] motor_stop)
      (last_idle arm_body [] motor_stop)

Run-settles_example :
    (6 ≤ 3 * length (one_post motor_stop))
    × (((u : Port MotPapMsg (List LogLine)) × Step arm_body arm_last u)
        ⊎ IsSettled arm_body [] (one_post motor_stop) arm_last)
Run-settles_example =
    Run-settles arm_body [] (one_post motor_stop) tt (serves arm_body [] motor_stop)

tcp_thread-handled_example :
    AllHandled arm_last pole_last lift_last (served_trace memory one_silent session)
unfolding tcp_thread serve receive prv_emergency_stop arm_init pole_init lift_init
tcp_thread-handled_example =
    tcp_thread-handled memory one_silent session (serves arm_body [] motor_stop)
      (serves pole_body (pole_flags_at_start, []) motor_stop) (serves lift_body [] lift_stop)
      (last_ends arm_body [] motor_stop) (last_ends pole_body (pole_flags_at_start, []) motor_stop)
      (last_ends lift_body [] lift_stop)
