-- ===== src/Tests/Operators.antt =====
-- An operator's connection, from the packets to the device tasks.
use rtu_com.Common.{ℕ, List, [], ◌∷◌, refl, inl, inr, map, some, arith}
use rtu_com.Hmi.{HmiCmd, Mode, Enable}
use rtu_com.Kernel.{plenty, ErrT, Trace}
use rtu_com.Kernel.Ensures.{Ensures}
use rtu_com.Frame.Encode.{IsCommand}
use rtu_com.Device.{pole_flags_at_start}
use rtu_com.Session.{Connection, serve}
use rtu_com.Session.Conversation.{buffer_of, IsConversation, ordered, AreStopped, serve-ordered}
use rtu_com.Dispatch.{Act, Port, Step, Run, begins, arm_acts, pole_acts, lift_acts}
use rtu_com.Dispatch.Phases.{InTurn, reverse_onto}
use rtu_com.Dispatch.Settles.{settled_ends, Run-finishes}
use rtu_com.Dispatch.Served.{arm_body, pole_body, lift_body, served_trace, served_trace-InTurn}
use rtu_com.Dispatch.Operator.{HandledThenStopped, operator-handled}
use rtu_com.Tests.Data.{memory, frun_arm, off, old_cmd}
use rtu_com.Tests.Sessions.{session, old_tx, old_tx-IsRtuData}

-- The arm is started in FREE RUN, and then the control is disabled.
abbrev commands : List HmiCmd
commands = frun_arm ∷ off ∷ []

abbrev operator : Connection
operator = record {
  buffers = map buffer_of commands;
  last_err = ErrT.err_clsd;
  cmd_memory = old_cmd;
  tx_memory = old_tx;
}

commands-IsConversation : IsConversation Mode.stop commands
commands-IsConversation =
    let valid : IsCommand frun_arm = record {
      vel_arm = omega arith;
      vel_pole = omega arith;
      signed = refl;
    } in
    let valid_off : IsCommand off = record {
      vel_arm = omega arith;
      vel_pole = omega arith;
      signed = refl;
    } in
    (inr (inl refl), (valid, (inl refl, (valid_off, tt))))

serve-ordered_example :
    Ensures
      (λ _ t'. AreStopped (ordered Mode.stop Enable.desable commands []) t')
      (serve (plenty memory) operator session [])
serve-ordered_example =
    serve-ordered memory operator commands Mode.stop Enable.desable session [] (λ u. refl) refl
      commands-IsConversation refl old_tx-IsRtuData

abbrev trace : Trace
trace = served_trace memory (some operator ∷ []) session

-- A run of a device's tasks to its end.
record Ended {M S : Type 0} (body : M → S → S) (start : S) (all : List (Act M)) : Type 0 where
  steps : ℕ
  port : Port M S
  run : Run body (begins start (reverse_onto all [])) steps port
  ends : ¬ ((u : Port M S) × Step body port u)

ended :
    {M S : Type 0} (body : M → S → S) (start : S) (all : List (Act M))
    → InTurn all
    → Ended body start all
ended body start all turn =
    let (n, (p, (run, settled))) = Run-finishes body start all turn in
    record {
      steps = n;
      port = p;
      run = run;
      ends = settled_ends body p settled.idle settled.empty settled.through;
    }

arm_end : Ended arm_body [] (arm_acts trace)
arm_end =
    ended arm_body [] (arm_acts trace) (served_trace-InTurn memory (some operator ∷ []) session).0

pole_end : Ended pole_body (pole_flags_at_start, []) (pole_acts trace)
pole_end =
    ended pole_body (pole_flags_at_start, []) (pole_acts trace)
      (served_trace-InTurn memory (some operator ∷ []) session).1.0

lift_end : Ended lift_body [] (lift_acts trace)
lift_end =
    ended lift_body [] (lift_acts trace)
      (served_trace-InTurn memory (some operator ∷ []) session).1.1.0

operator-handled_example :
    HandledThenStopped
      (ordered Mode.stop Enable.desable commands [])
      arm_end.port.handled
      pole_end.port.handled
      lift_end.port.handled
operator-handled_example =
    operator-handled memory operator commands Mode.stop Enable.desable session (λ u. refl) refl
      commands-IsConversation refl old_tx-IsRtuData arm_end.run pole_end.run lift_end.run
      arm_end.ends pole_end.ends lift_end.ends
