-- ===== src/Session/Creates.antt =====
-- The queues and tasks that `tcp_thread` makes: each connection calls the three init functions, and no
-- call of `vQueueDelete` or `vTaskDelete` stands in the code, so `Call` has none.
use rtu_com.Common.{ℕ, suc, ◌+◌, List, [], ◌∷◌, ◌≡◌, refl, Option, none, some, arith}
use rtu_com.Kernel.{
  Memory, plenty, Trace, DeviceName, pure, ◌>>◌, call, queue_create, task_create, netconn_close,
  netconn_delete,
}
use rtu_com.Kernel.Ensures.{Ensures, Ensures-bind, Ensures-weaken}
use rtu_com.Device.{arm_init, pole_init, lift_init}
use rtu_com.Session.{
  Session, Connection, receive, prv_emergency_stop, start_session, serve, tcp_thread,
}
use rtu_com.Session.Keeps.{IsClosed, receive-Keeps, prv_emergency_stop-Keeps}

-- 1 for the same device, and 0 for another one.
abbrev is_for : DeviceName → DeviceName → ℕ
is_for DeviceName.arm DeviceName.arm = 1
is_for DeviceName.pole DeviceName.pole = 1
is_for DeviceName.lift DeviceName.lift = 1
is_for _ _ = 0

-- The queues and the tasks that were made for a device.
abbrev pub queues : DeviceName → Trace → ℕ
queues d [] = 0
queues d (queue_create e ∷ t) = is_for d e + queues d t
queues d (_ ∷ t) = queues d t

abbrev pub tasks : DeviceName → Trace → ℕ
tasks d [] = 0
tasks d (task_create e ∷ t) = is_for d e + tasks d t
tasks d (_ ∷ t) = tasks d t

abbrev Made : DeviceName → ℕ → ℕ → Trace → Type 0
Made d q k t = (queues d t ≡ q) × (tasks d t ≡ k)

Made-IsClosed : (d : DeviceName) (q k : ℕ) → IsClosed (Made d q k)
Made-IsClosed d q k = record {
  arm = λ m t h. h;
  pole = λ m t h. h;
  lift = λ m t h. h;
  write = λ buffer t h. h;
  delete = λ t h. h;
}

-- One of each by the three init functions together.
init-Made :
    (d : DeviceName) (q k : ℕ) (t : Trace)
    → Made d q k t
    → Made d (suc q) (suc k) (
        task_create DeviceName.lift
        ∷ queue_create DeviceName.lift
        ∷ task_create DeviceName.pole
        ∷ queue_create DeviceName.pole
        ∷ task_create DeviceName.arm
        ∷ queue_create DeviceName.arm
        ∷ t)
init-Made DeviceName.arm q k t (hq, hk) = (omega arith, omega arith)
init-Made DeviceName.pole q k t (hq, hk) = (omega arith, omega arith)
init-Made DeviceName.lift q k t (hq, hk) = (omega arith, omega arith)

serve-Made :
    (mem : Memory) (d : DeviceName) (q k : ℕ) (conn : Connection) (s : Session) (t : Trace)
    → Made d q k t
    → Ensures (λ _ t'. Made d (suc q) (suc k) t') (serve (plenty mem) conn s t)
unfolding serve arm_init pole_init lift_init
serve-Made mem d q k conn s t h =
    let P = Made d (suc q) (suc k) in
    let closed = Made-IsClosed d (suc q) (suc k) in
    Ensures-bind (λ _ t'. P t') (λ _ t'. P t')
      (receive (plenty mem) conn.buffers (start_session conn s))
      (λ s₁.
        prv_emergency_stop (plenty mem) >> (call netconn_close >> (call netconn_delete >> pure s₁)))
      _ (receive-Keeps mem P closed conn.buffers _ _ (init-Made d q k t h))
      (λ s₁ t₁ h₁.
        Ensures-bind (λ _ t'. P t') (λ _ t'. P t') (prv_emergency_stop (plenty mem))
          (λ _. call netconn_close >> (call netconn_delete >> pure s₁)) t₁
          (prv_emergency_stop-Keeps mem P closed t₁ h₁) (λ _ t' h'. h'))

-- The connections among the outcomes of `netconn_accept`.
abbrev pub served : List (Option Connection) → ℕ
served [] = 0
served (none ∷ conns) = served conns
served (some c ∷ conns) = suc (served conns)

-- Where the heap is not exhausted, serving connections, with whatever traffic, returns, and for each
-- connection it makes one queue and one task for each of the three devices; so their numbers grow with
-- every reconnection of the HMI.
pub tcp_thread-creates :
    (mem : Memory) (d : DeviceName) (conns : List (Option Connection)) (s : Session) (t : Trace)
    → Ensures
        (λ s' t'.
          (queues d t' ≡ queues d t + served conns) × (tasks d t' ≡ tasks d t + served conns))
        (tcp_thread (plenty mem) conns s t)
unfolding tcp_thread
tcp_thread-creates mem d [] s t = (omega arith, omega arith)
tcp_thread-creates mem d (none ∷ conns) s t = tcp_thread-creates mem d conns s t
tcp_thread-creates mem d (some conn ∷ conns) s t =
    Ensures-bind (λ _ t₁. Made d (suc (queues d t)) (suc (tasks d t)) t₁) _
      (serve (plenty mem) conn s) (λ s₁. tcp_thread (plenty mem) conns s₁) t
      (serve-Made mem d (queues d t) (tasks d t) conn s t (refl, refl))
      (λ s₁ t₁ (hq, hk).
        Ensures-weaken
          (λ _ t'.
            (queues d t' ≡ queues d t₁ + served conns) × (tasks d t' ≡ tasks d t₁ + served conns))
          _ (tcp_thread (plenty mem) conns s₁ t₁) (tcp_thread-creates mem d conns s₁ t₁)
          (λ s' t' (hq', hk'). (omega arith, omega arith)))
