-- ===== src/Dispatch/Operator.antt =====
-- From the packets of an operator to what the device tasks have handled: `tcp_thread` over one
-- connection, with the loops of arm.c, pole.c and lift.c.
use rtu_com.Common.{ℕ, List, [], ◌∷◌, ◌≡◌, ◌∙◌, map, Option, some}
use rtu_com.Motion.{MotPapType, MotPapMsg, LiftType, LiftMsg}
use rtu_com.Hmi.{HmiCmd, Mode, Enable}
use rtu_com.Kernel.{Memory, plenty, Trace, ErrT, pure, arm_posts, pole_posts, lift_posts}
use rtu_com.Kernel.Ensures.{Ensures, Ensures-bind}
use rtu_com.Trigger.{flag_byte}
use rtu_com.Device.{LogLine, PoleFlags, pole_flags_at_start}
use rtu_com.Report.Fits.{IsRtuData}
use rtu_com.Session.{Session, Connection, serve, tcp_thread}
use rtu_com.Session.Conversation.{buffer_of, IsConversation, ordered, AreStopped, serve-ordered}
use rtu_com.Dispatch.{Port, Step, Run, begins, arm_acts, pole_acts, lift_acts}
use rtu_com.Dispatch.Phases.{reverse_onto}
use rtu_com.Dispatch.Served.{
  Ensures-trace, arm_body, pole_body, lift_body, served_trace, tcp_thread-handled,
}

abbrev one : Connection → List (Option Connection)
one conn = some conn ∷ []

-- The tasks have handled the messages of a trace, and then a stop.
pub record HandledThenStopped (u : Trace) (arms poles : List MotPapMsg) (lifts : List LiftMsg)
    : Type 0 where
  pub arm : (m : MotPapMsg) × ((m.type ≡ MotPapType.stop) × (arms ≡ m ∷ arm_posts u))
  pub pole : (m : MotPapMsg) × ((m.type ≡ MotPapType.stop) × (poles ≡ m ∷ pole_posts u))
  pub lift : (m : LiftMsg) × ((m.type ≡ LiftType.stop) × (lifts ≡ m ∷ lift_posts u))

module _ (mem : Memory) (conn : Connection) (cs : List HmiCmd) (before : Mode) (was : Enable)
    (s : Session) (writes : (u : Trace) → mem.write_result u ≡ ErrT.err_ok)
    (sent : conn.buffers ≡ map buffer_of cs) (ok : IsConversation before cs)
    (flags : s.previous_flag_byte ≡ flag_byte before was) (tx : IsRtuData conn.tx_memory) where
  one-Ensures :
      Ensures
        (λ _ t'. AreStopped (ordered before was cs []) t')
        (tcp_thread (plenty mem) (one conn) s [])
  unfolding tcp_thread
  one-Ensures =
      Ensures-bind (λ _ t'. AreStopped (ordered before was cs []) t') _ (serve (plenty mem) conn s)
        (λ s₁. pure s₁) [] (serve-ordered mem conn cs before was s [] writes sent ok flags tx)
        (λ s₁ t₁ h. h)

  one-AreStopped : AreStopped (ordered before was cs []) (served_trace mem (one conn) s)
  one-AreStopped = Ensures-trace (AreStopped (ordered before was cs [])) _ one-Ensures

  -- The first operator after power-up sends one valid command after the other, each with a direct
  -- change of mode, the first from the mode of the flag byte, and goes. Where the heap is not
  -- exhausted and the replies can be written, when neither the thread nor a task has a step left: each
  -- device has handled exactly the messages that carry out the orders of those commands, in their
  -- order and with the commands' data, and then one stop.
  pub operator-handled :
      {k n o : ℕ} {arm : Port MotPapMsg (List LogLine)}
      {pole : Port MotPapMsg (PoleFlags × List LogLine)} {lift : Port LiftMsg (List LogLine)}
      → Run arm_body (begins [] (reverse_onto (arm_acts (served_trace mem (one conn) s)) [])) k arm
      → Run pole_body
          (begins
            (pole_flags_at_start, [])
            (reverse_onto (pole_acts (served_trace mem (one conn) s)) []))
          n
          pole
      → Run lift_body
          (begins [] (reverse_onto (lift_acts (served_trace mem (one conn) s)) []))
          o
          lift
      → ¬ ((u : Port MotPapMsg (List LogLine)) × Step arm_body arm u)
      → ¬ ((u : Port MotPapMsg (PoleFlags × List LogLine)) × Step pole_body pole u)
      → ¬ ((u : Port LiftMsg (List LogLine)) × Step lift_body lift u)
      → HandledThenStopped (ordered before was cs []) arm.handled pole.handled lift.handled
  operator-handled run_arm run_pole run_lift rest_arm rest_pole rest_lift =
      let all =
        tcp_thread-handled mem (one conn) s run_arm run_pole run_lift rest_arm rest_pole
          rest_lift in
      let p = one-AreStopped in
      record {
        arm = (p.arm.0, (p.arm.1.0, all.arm_handled ∙ p.arm.1.1));
        pole = (p.pole.0, (p.pole.1.0, all.pole_handled ∙ p.pole.1.1));
        lift = (p.lift.0, (p.lift.1.0, all.lift_handled ∙ p.lift.1.1));
      }
