-- ===== src/Session/Stops.antt =====
-- What `tcp_thread` leaves behind a connection, whatever the HMI sent over it.
use rtu_com.Common.{List, [], ◌∷◌, ◌≡◌, refl, Option, none, some, inl}
use rtu_com.Motion.{MotPapType, MotPapMsg, LiftType, LiftMsg}
use rtu_com.Kernel.{
  Memory, plenty, Trace, pure, ◌>>◌, call, arm_posts, pole_posts, lift_posts, netconn_close,
  netconn_delete,
}
use rtu_com.Kernel.Ensures.{Ensures, Ensures-bind}
use rtu_com.Trigger.Sequence.{IsStopped, IsMotorStopped, IsLiftStopped}
use rtu_com.Session.{Session, Connection, receive, prv_emergency_stop, serve, tcp_thread}
use rtu_com.Session.Status.{IsStatus, receive_status}
use rtu_com.Device.{arm_init, pole_init, lift_init}

-- Each device was told to stop by the last message of its queue.
abbrev pub IsMotorStop : List MotPapMsg → Type 0
IsMotorStop [] = ⊥
IsMotorStop (m ∷ ms) = m.type ≡ MotPapType.stop

abbrev pub IsLiftStop : List LiftMsg → Type 0
IsLiftStop [] = ⊥
IsLiftStop (m ∷ ms) = m.type ≡ LiftType.stop

pub record AllStopped (t : Trace) : Type 0 where
  pub arm : IsMotorStop (arm_posts t)
  pub pole : IsMotorStop (pole_posts t)
  pub lift : IsLiftStop (lift_posts t)

module _ (mem : Memory) where
  prv_emergency_stop-AllStopped :
      (t : Trace) → Ensures (λ _ t'. AllStopped t') (prv_emergency_stop (plenty mem) t)
  unfolding prv_emergency_stop
  prv_emergency_stop-AllStopped t = record { arm = refl; pole = refl; lift = refl }

  -- Where the heap is not exhausted: whatever buffers a connection brings, valid or not, and however it
  -- ends, serving it returns, and the last message on each of the three queues is then a stop, whatever
  -- was posted there before.
  pub serve-AllStopped :
      (conn : Connection) (s : Session) (t : Trace)
      → Ensures (λ s' t'. AllStopped t') (serve (plenty mem) conn s t)
  unfolding serve arm_init pole_init lift_init
  serve-AllStopped conn s t =
      Ensures-bind (λ s₁ _. IsStatus s₁.i_server_status) (λ _ t'. AllStopped t')
        (receive (plenty mem) conn.buffers _)
        (λ s₁.
          prv_emergency_stop (plenty mem)
          >> (call netconn_close >> (call netconn_delete >> pure s₁)))
        _ (receive_status mem conn.buffers _ _ (inl refl))
        (λ s₁ t₁ _.
          Ensures-bind (λ _ t'. AllStopped t') (λ _ t'. AllStopped t')
            (prv_emergency_stop (plenty mem))
            (λ _. call netconn_close >> (call netconn_delete >> pure s₁)) t₁
            (prv_emergency_stop-AllStopped t₁)
            (λ _ t' h. record { arm = h.arm; pole = h.pole; lift = h.lift }))

IsMotorStop-stopped : (ms : List MotPapMsg) → IsMotorStop ms → IsMotorStopped ms
IsMotorStop-stopped [] h = tt
IsMotorStop-stopped (m ∷ ms) h = h

IsLiftStop-stopped : (ms : List LiftMsg) → IsLiftStop ms → IsLiftStopped ms
IsLiftStop-stopped [] h = tt
IsLiftStop-stopped (m ∷ ms) h = h

AllStopped-IsStopped : (t : Trace) → AllStopped t → IsStopped t
AllStopped-IsStopped t h = record {
  arm = IsMotorStop-stopped (arm_posts t) h.arm;
  pole = IsMotorStop-stopped (pole_posts t) h.pole;
  lift = IsLiftStop-stopped (lift_posts t) h.lift;
}

-- Where the heap is not exhausted, and from a point on where the last message on each queue, if any was
-- posted there, is a stop, as at power-up: whenever the thread is back at `netconn_accept`, after any
-- outcomes of it and any traffic, it has got there without a fault, and the last message on each
-- queue, if any was posted there, is a stop.
pub tcp_thread-IsStopped :
    (mem : Memory) (conns : List (Option Connection)) (s : Session) (t : Trace)
    → IsStopped t
    → Ensures (λ s' t'. IsStopped t') (tcp_thread (plenty mem) conns s t)
unfolding tcp_thread
tcp_thread-IsStopped mem [] s t h = h
tcp_thread-IsStopped mem (none ∷ conns) s t h = tcp_thread-IsStopped mem conns s t h
tcp_thread-IsStopped mem (some conn ∷ conns) s t h =
    Ensures-bind (λ s₁ t₁. AllStopped t₁) (λ s' t'. IsStopped t') (serve (plenty mem) conn s)
      (λ s₁. tcp_thread (plenty mem) conns s₁) t (serve-AllStopped mem conn s t)
      (λ s₁ t₁ h₁. tcp_thread-IsStopped mem conns s₁ t₁ (AllStopped-IsStopped t₁ h₁))
