-- ===== src/Dispatch.antt =====
-- com/src/arm.c, pole.c and lift.c with com/src/rtu_com_hmi.c under the scheduler: how the messages of
-- `tcp_thread` reach the device tasks. For one device: its queues, the global handle (`arm_queue`,
-- `pole_queue`, `lift_queue`), and its tasks, one for each call of its init function. The loops of the
-- tasks are steps. They have priority 4 and `tcp_thread` has DEFAULT_THREAD_PRIO, which is 1, so
-- `tcp_thread` goes on only when every task of the device waits. The queues, the priorities and
-- `vPortFree` are those of FreeRTOS.
pub mod Phases
pub mod Order
pub mod Sound
pub mod Steps
pub mod Settles
pub mod Acts
pub mod Served
pub mod Operator
use rtu_com.Common.{ℕ, zero, suc, ◌<◌, List, [], ◌∷◌, ◌++◌, ◌≡◌, refl, length}
use rtu_com.Motion.{MotPapMsg, LiftMsg}
use rtu_com.Kernel.{Trace, DeviceName, send_arm, send_pole, send_lift, queue_create, task_create}
use rtu_com.Emac.Ring.{set}

-- What `tcp_thread` does to a device: `xQueueCreate` into the handle, `xTaskCreate`, and `xQueueSend`
-- to the handle.
pub data Act (M : Type 0) : Type 0 where
  new_queue : Act M
  new_task : Act M
  post : M → Act M

-- The acts of a trace on each device, the last first, as in the trace.
abbrev pub arm_acts : Trace → List (Act MotPapMsg)
arm_acts [] = []
arm_acts (queue_create DeviceName.arm ∷ t) = new_queue ∷ arm_acts t
arm_acts (task_create DeviceName.arm ∷ t) = new_task ∷ arm_acts t
arm_acts (send_arm m ∷ t) = post m ∷ arm_acts t
arm_acts (_ ∷ t) = arm_acts t

abbrev pub pole_acts : Trace → List (Act MotPapMsg)
pole_acts [] = []
pole_acts (queue_create DeviceName.pole ∷ t) = new_queue ∷ pole_acts t
pole_acts (task_create DeviceName.pole ∷ t) = new_task ∷ pole_acts t
pole_acts (send_pole m ∷ t) = post m ∷ pole_acts t
pole_acts (_ ∷ t) = pole_acts t

abbrev pub lift_acts : Trace → List (Act LiftMsg)
lift_acts [] = []
lift_acts (queue_create DeviceName.lift ∷ t) = new_queue ∷ lift_acts t
lift_acts (task_create DeviceName.lift ∷ t) = new_task ∷ lift_acts t
lift_acts (send_lift m ∷ t) = post m ∷ lift_acts t
lift_acts (_ ∷ t) = lift_acts t

-- A task that is not made yet, one about to call `xQueueReceive` with what the handle then holds, and
-- one that waits in that call for a queue.
pub data TaskState : Type 0 where
  absent : TaskState
  at_loop : TaskState
  waiting : ℕ → TaskState

-- The queues are numbered from 1 in the order of their creation, and 0 is the NULL handle. `device` is
-- what the tasks keep and log, and `handled` the messages that they have taken, the last
-- first; `done` and `todo` are the acts of the thread, those that were the last first.
pub record Port (M S : Type 0) : Type 0 where
  pub handle : ℕ
  pub queues : ℕ → List M  -- the first message first
  pub tasks : ℕ → TaskState
  pub made : ℕ
  pub device : S
  pub handled : List M
  pub freed : List M  -- what the blocks held that `vPortFree` was called for
  pub done : List (Act M)
  pub todo : List (Act M)

abbrev pub IsBlocked : {M : Type 0} → (ℕ → List M) → TaskState → Type 0
IsBlocked queues absent = Unit
IsBlocked queues at_loop = ⊥
IsBlocked queues (waiting q) = queues q ≡ []

-- Every task of the device waits for an empty queue.
abbrev pub IsIdle : {M S : Type 0} → Port M S → Type 0
IsIdle p = (i : ℕ) → IsBlocked p.queues (p.tasks i)

-- The length of `xQueueCreate(5, ...)`.
abbrev pub queue_length : ℕ
queue_length = 5

module _ {M S : Type 0} where
  -- `xQueueCreate` gives the next queue, `xTaskCreate` a task that has not called `xQueueReceive`, and
  -- `xQueueSend` puts the message behind the others.
  unfoldable pub act : Act M → List (Act M) → Port M S → Port M S
  act new_queue more p = record p { handle = suc p.handle; done = new_queue ∷ p.done; todo = more }
  act new_task more p = record p {
    tasks = set p.tasks (suc p.made) at_loop;
    made = suc p.made;
    done = new_task ∷ p.done;
    todo = more;
  }
  act (post m) more p = record p {
    queues = set p.queues p.handle (p.queues p.handle ++ (m ∷ []));
    done = post m ∷ p.done;
    todo = more;
  }

  -- `xQueueSend` with `portMAX_DELAY` waits while the queue is full.
  abbrev pub Accepts : Act M → Port M S → Type 0
  Accepts (post m) p = length (p.queues p.handle) < queue_length
  Accepts _ p = Unit

  -- The task reads the handle, and waits for that queue.
  unfoldable pub read_handle : ℕ → Port M S → Port M S
  read_handle i p = record p { tasks = set p.tasks i (waiting p.handle) }

-- `vPortFree` of the block of a message.
abbrev free_block : {M S : Type 0} → M → Port M S → Port M S
free_block m p = record p { freed = m ∷ p.freed }

module _ {M S : Type 0} (body : M → S → S) where
  -- `xQueueReceive` returns the first message; the body of the loop and `vPortFree` run on to the next
  -- call of it.
  unfoldable pub take_message : ℕ → ℕ → M → List M → Port M S → Port M S
  take_message i q m ms p = free_block m (record p {
    queues = set p.queues q ms;
    tasks = set p.tasks i at_loop;
    device = body m p.device;
    handled = m ∷ p.handled;
  })

  pub data Step (p : Port M S) : Port M S → Type 0 where
    reads : (i : ℕ) → p.tasks i ≡ at_loop → Step p (read_handle i p)
    takes :
        (i q : ℕ) (m : M) (ms : List M)
        → p.tasks i ≡ waiting q
        → p.queues q ≡ m ∷ ms
        → Step p (take_message i q m ms p)
    acts :
        (a : Act M) (more : List (Act M))
        → IsIdle p
        → p.todo ≡ a ∷ more
        → Accepts a p
        → Step p (act a more p)

  -- Runs, counted by their steps.
  pub data Run (p : Port M S) : ℕ → Port M S → Type 0 where
    here : Run p 0 p
    next : {n : ℕ} {u v : Port M S} → Run p n u → Step u v → Run p (suc n) v

-- Before the first connection: no queue and no task, and the acts of the thread ahead.
abbrev pub begins : {M S : Type 0} → S → List (Act M) → Port M S
begins s todo = record {
  handle = 0;
  queues = λ q. [];
  tasks = λ i. absent;
  made = 0;
  device = s;
  handled = [];
  freed = [];
  done = [];
  todo = todo;
}
