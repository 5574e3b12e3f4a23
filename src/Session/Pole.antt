-- ===== src/Session/Pole.antt =====
-- The flags of the pole task over the messages of a run.
use rtu_com.Common.{List, [], ◌∷◌, ◌≡◌, refl, Option, arith, if◌then◌else◌, true}
use rtu_com.Motion.{MotPapType, MotPapMsg}
use rtu_com.Kernel.{Memory, plenty, pole_posts}
use rtu_com.Kernel.Ensures.{Ensures, Ensures-weaken}
use rtu_com.Trigger.Sequence.{IsStopped, IsMotorStopped}
use rtu_com.Session.{Connection, Session, tcp_thread}
use rtu_com.Session.Stops.{tcp_thread-IsStopped}
use rtu_com.Device.{PoleFlags, pole_flags_at_start, is_ccw, pole_task}

-- The flags when `pole_task` has taken all the messages, the last one first in the list.
unfoldable pub pole_flags_after : List MotPapMsg → PoleFlags
unfolding pole_task
pole_flags_after [] = pole_flags_at_start
pole_flags_after (m ∷ ms) = (pole_task (pole_flags_after ms) m).0

-- The pole task has both flags cleared when the last message it took is a stop, whatever it took
-- before; and it keeps a direction's flag until then, so that both can be set at once.
pub pole_flags_after-stop :
    (m : MotPapMsg) (ms : List MotPapMsg)
    → (m.type ≡ MotPapType.stop → pole_flags_after (m ∷ ms) ≡ pole_flags_at_start)
      × (m.type ≡ MotPapType.closed_loop → pole_flags_after (m ∷ ms) ≡ pole_flags_after ms)
      × (m.type ≡ MotPapType.free_running
          → pole_flags_after (m ∷ ms) ≡ (
              if is_ccw m.free_run_direction
              then record (pole_flags_after ms) { ccw = true }
              else record (pole_flags_after ms) { cw = true }))
unfolding pole_flags_after
pole_flags_after-stop m ms = ground arith

pole_flags_after-stopped :
    (ms : List MotPapMsg) → IsMotorStopped ms → pole_flags_after ms ≡ pole_flags_at_start
pole_flags_after-stopped [] h = unfold pole_flags_after in refl
pole_flags_after-stopped (m ∷ ms) h = (pole_flags_after-stop m ms).0 h

-- Where the heap is not exhausted: whenever `tcp_thread`, started at power-up, is back at `netconn_accept` and the pole task has taken
-- all its messages, both flags of the pole task are cleared.
pub tcp_thread-pole_flags :
    (mem : Memory) (conns : List (Option Connection)) (s : Session)
    → Ensures
        (λ s' t'. pole_flags_after (pole_posts t') ≡ pole_flags_at_start)
        (tcp_thread (plenty mem) conns s [])
tcp_thread-pole_flags mem conns s =
    Ensures-weaken (λ s' t'. IsStopped t') _ (tcp_thread (plenty mem) conns s [])
      (tcp_thread-IsStopped mem conns s [] (record { arm = tt; pole = tt; lift = tt }))
      (λ s' t' h. pole_flags_after-stopped (pole_posts t') h.pole)
