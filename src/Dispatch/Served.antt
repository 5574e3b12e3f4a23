-- ===== src/Dispatch/Served.antt =====
-- `tcp_thread` of com/src/rtu_com_hmi.c and the loops of the device tasks together.
use rtu_com.Common.{
  ℕ, ◌+◌, List, [], ◌∷◌, ◌++◌, ◌≡◌, ◌⊎◌, inl, inr, refl, sym, ap, ◌∙◌, Option, none, some, length,
  arith,
}
use rtu_com.Motion.{MotPapMsg, LiftMsg}
use rtu_com.Kernel.{
  Memory, plenty, Trace, Out, pure, ◌>>◌, call, trace_of, arm_posts, pole_posts, lift_posts,
  netconn_close, netconn_delete,
}
use rtu_com.Kernel.Ensures.{Ensures, Ensures-bind}
use rtu_com.Device.{
  LogLine, arm_task, PoleFlags, pole_flags_at_start, pole_task, lift_task, arm_init, pole_init,
  lift_init,
}
use rtu_com.Session.{Session, Connection, receive, prv_emergency_stop, serve, tcp_thread}
use rtu_com.Session.Keeps.{receive-Keeps, prv_emergency_stop-Keeps}
use rtu_com.Session.Pole.{pole_flags_after, tcp_thread-pole_flags}
use rtu_com.Dispatch.{Act, Port, Step, Run, begins, arm_acts, pole_acts, lift_acts}
use rtu_com.Dispatch.Phases.{InTurn, reverse_onto}
use rtu_com.Dispatch.Order.{carry_out}
use rtu_com.Dispatch.Settles.{IsSettled, Run-settles}
use rtu_com.Dispatch.Acts.{
  mot_pap_blocks, lift_blocks, arm_posts_lem, pole_posts_lem, lift_posts_lem, Posted, Open, Between,
  init_phase, Open-Between, IsBetween-InTurn, Open-IsClosed,
}

module _ (mem : Memory) where
  serve-Open :
      (conn : Connection) (s : Session) (t : Trace)
      → Between t
      → Ensures (λ _ t'. Open t') (serve (plenty mem) conn s t)
  unfolding serve arm_init pole_init lift_init
  serve-Open conn s t h =
      Ensures-bind (λ _ t'. Open t') (λ _ t'. Open t') (receive (plenty mem) conn.buffers _)
        (λ s₁.
          prv_emergency_stop (plenty mem)
          >> (call netconn_close >> (call netconn_delete >> pure s₁)))
        _
        (receive-Keeps mem Open Open-IsClosed conn.buffers _ _ (record {
          arm = init_phase MotPapMsg _ h.arm;
          pole = init_phase MotPapMsg _ h.pole;
          lift = init_phase LiftMsg _ h.lift;
          posted = record { mot_pap = h.posted.mot_pap; lift = h.posted.lift };
        }))
        (λ s₁ t₁ h₁.
          Ensures-bind (λ _ t'. Open t') (λ _ t'. Open t') (prv_emergency_stop (plenty mem))
            (λ _. call netconn_close >> (call netconn_delete >> pure s₁)) t₁
            (prv_emergency_stop-Keeps mem Open Open-IsClosed t₁ h₁)
            (λ _ t' h'. record {
              arm = h'.arm;
              pole = h'.pole;
              lift = h'.lift;
              posted = record { mot_pap = h'.posted.mot_pap; lift = h'.posted.lift };
            }))

  tcp_thread-Between :
      (conns : List (Option Connection)) (s : Session) (t : Trace)
      → Between t
      → Ensures (λ _ t'. Between t') (tcp_thread (plenty mem) conns s t)
  unfolding tcp_thread
  tcp_thread-Between [] s t h = h
  tcp_thread-Between (none ∷ conns) s t h = tcp_thread-Between conns s t h
  tcp_thread-Between (some conn ∷ conns) s t h =
      Ensures-bind (λ _ t₁. Open t₁) (λ _ t'. Between t') (serve (plenty mem) conn s)
        (λ s₁. tcp_thread (plenty mem) conns s₁) t (serve-Open conn s t h)
        (λ s₁ t₁ h₁. tcp_thread-Between conns s₁ t₁ (Open-Between h₁))

pub Ensures-trace :
    {A : Type 0} (P : Trace → Type 0) (r : Out A) → Ensures (λ _ t. P t) r → P (trace_of r)
Ensures-trace P (Out.done a t) h = h
Ensures-trace P (Out.fault t) h = absurd h

-- What the loops of the three tasks do with a message: they log, and the pole's keeps its flags.
abbrev pub arm_body : MotPapMsg → List LogLine → List LogLine
arm_body m log = log ++ arm_task m

abbrev pub pole_body : MotPapMsg → PoleFlags × List LogLine → PoleFlags × List LogLine
pole_body m (flags, log) = let (flags', lines) = pole_task flags m in (flags', log ++ lines)

abbrev pub lift_body : LiftMsg → List LogLine → List LogLine
lift_body m log = log ++ lift_task m

pole_flags_lem :
    (ms : List MotPapMsg)
    → (carry_out pole_body (pole_flags_at_start, []) ms).0 ≡ pole_flags_after ms
unfolding pole_flags_after
pole_flags_lem [] = refl
pole_flags_lem (m ∷ ms) = ap (λ f. (pole_task f m).0) (pole_flags_lem ms)

-- The trace of the thread, from its start on, after some outcomes of `netconn_accept`.
abbrev pub served_trace : Memory → List (Option Connection) → Session → Trace
served_trace mem conns s = trace_of (tcp_thread (plenty mem) conns s [])

-- What the tasks have handled and freed is what was posted, and as many blocks are freed as were
-- allocated.
pub record AllHandled (arm : Port MotPapMsg (List LogLine))
    (pole : Port MotPapMsg (PoleFlags × List LogLine)) (lift : Port LiftMsg (List LogLine))
    (t : Trace) : Type 0 where
  pub arm_handled : arm.handled ≡ arm_posts t
  pub pole_handled : pole.handled ≡ pole_posts t
  pub lift_handled : lift.handled ≡ lift_posts t
  pub arm_log : arm.device ≡ carry_out arm_body [] (arm_posts t)
  pub lift_log : lift.device ≡ carry_out lift_body [] (lift_posts t)
  pub pole_flags : pole.device.0 ≡ pole_flags_at_start
  pub arm_freed : arm.freed ≡ arm_posts t
  pub pole_freed : pole.freed ≡ pole_posts t
  pub lift_freed : lift.freed ≡ lift_posts t
  pub mot_pap_blocks_freed : length arm.freed + length pole.freed ≡ mot_pap_blocks t
  pub lift_blocks_freed : length lift.freed ≡ lift_blocks t

settled :
    {M S : Type 0} {body : M → S → S} {start : S} {all : List (Act M)} {p : Port M S}
    {more : Type 0}
    → ¬ ((u : Port M S) × Step body p u)
    → more × (((u : Port M S) × Step body p u) ⊎ IsSettled body start all p)
    → IsSettled body start all p
settled rest (bound, inl st) = absurd (rest st)
settled rest (bound, inr s) = s

all_handled :
    {arm : Port MotPapMsg (List LogLine)} {pole : Port MotPapMsg (PoleFlags × List LogLine)}
    {lift : Port LiftMsg (List LogLine)} (t : Trace)
    → Posted t
    → pole_flags_after (pole_posts t) ≡ pole_flags_at_start
    → IsSettled arm_body [] (arm_acts t) arm
    → IsSettled pole_body (pole_flags_at_start, []) (pole_acts t) pole
    → IsSettled lift_body [] (lift_acts t) lift
    → AllHandled arm pole lift t
all_handled t posted flags a p l =
    let arm = a.handled ∙ arm_posts_lem t in
    let pole = p.handled ∙ pole_posts_lem t in
    let lift = l.handled ∙ lift_posts_lem t in
    let fa = a.freed ∙ arm_posts_lem t in
    let fp = p.freed ∙ pole_posts_lem t in
    let fl = l.freed ∙ lift_posts_lem t in
    record {
      arm_handled = arm;
      pole_handled = pole;
      lift_handled = lift;
      arm_log = a.device ∙ ap (carry_out arm_body []) (arm_posts_lem t);
      lift_log = l.device ∙ ap (carry_out lift_body []) (lift_posts_lem t);
      pole_flags =
          ap (λ s. s.0)
            (p.device ∙ ap (carry_out pole_body (pole_flags_at_start, [])) (pole_posts_lem t))
          ∙ (pole_flags_lem (pole_posts t) ∙ flags);
      arm_freed = fa;
      pole_freed = fp;
      lift_freed = fl;
      mot_pap_blocks_freed =
          let e = posted.mot_pap in let la = ap length fa in let lp = ap length fp in omega arith;
      lift_blocks_freed = ap length fl ∙ sym posted.lift;
    }

-- The thread makes a queue, then a task for it, and only then posts, on each device.
pub served_trace-InTurn :
    (mem : Memory) (conns : List (Option Connection)) (s : Session)
    → let t = served_trace mem conns s in
      InTurn (arm_acts t) × (InTurn (pole_acts t) × (InTurn (lift_acts t) × Posted t))
served_trace-InTurn mem conns s =
    let b = Ensures-trace Between (tcp_thread (plenty mem) conns s []) (
      tcp_thread-Between mem conns s [] (record {
        arm = tt;
        pole = tt;
        lift = tt;
        posted = record { mot_pap = omega arith; lift = refl };
      })) in
    (IsBetween-InTurn _ b.arm, (IsBetween-InTurn _ b.pole, (IsBetween-InTurn _ b.lift, b.posted)))

-- With a heap that is not exhausted: serving connections, with whatever traffic, from power-up, and
-- each device's tasks at work between the calls of the thread, in any run: when neither the thread
-- nor a task has a step left, each device has handled exactly the messages that the thread posted
-- for it, in their order, and has called `vPortFree` for exactly their blocks, as many as were
-- allocated; the arm's and the lift's log is that of these messages; and the pole's two flags are
-- down.
pub tcp_thread-handled :
    (mem : Memory) (conns : List (Option Connection)) (s : Session) {k n o : ℕ}
    {arm : Port MotPapMsg (List LogLine)} {pole : Port MotPapMsg (PoleFlags × List LogLine)}
    {lift : Port LiftMsg (List LogLine)}
    → Run arm_body (begins [] (reverse_onto (arm_acts (served_trace mem conns s)) [])) k arm
    → Run pole_body
        (begins (pole_flags_at_start, []) (reverse_onto (pole_acts (served_trace mem conns s)) []))
        n
        pole
    → Run lift_body (begins [] (reverse_onto (lift_acts (served_trace mem conns s)) [])) o lift
    → ¬ ((u : Port MotPapMsg (List LogLine)) × Step arm_body arm u)
    → ¬ ((u : Port MotPapMsg (PoleFlags × List LogLine)) × Step pole_body pole u)
    → ¬ ((u : Port LiftMsg (List LogLine)) × Step lift_body lift u)
    → AllHandled arm pole lift (served_trace mem conns s)
tcp_thread-handled mem conns s run_arm run_pole run_lift rest_arm rest_pole rest_lift =
    let t = served_trace mem conns s in
    let (in_arm, (in_pole, (in_lift, posted))) = served_trace-InTurn mem conns s in
    let flags =
      Ensures-trace (λ t'. pole_flags_after (pole_posts t') ≡ pole_flags_at_start)
        (tcp_thread (plenty mem) conns s []) (tcp_thread-pole_flags mem conns s) in
    all_handled t posted flags
      (settled rest_arm (Run-settles arm_body [] (arm_acts t) in_arm run_arm))
      (settled rest_pole
        (Run-settles pole_body (pole_flags_at_start, []) (pole_acts t) in_pole run_pole))
      (settled rest_lift (Run-settles lift_body [] (lift_acts t) in_lift run_lift))
