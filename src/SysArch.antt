-- ===== src/SysArch.antt =====
-- lwip/src/arch/sys_arch_freertos.c, the firmware's mailboxes, semaphores and clock for lwIP over the
-- calls of FreeRTOS. A `QueueApi` says what the code relies on of the queues of FreeRTOS; a message is
-- a number, the pointer. SYS_STATS is 0, and `configASSERT` does nothing.
pub mod Mailbox
pub mod Waiting
use rtu_com.Common.{
  ℕ, zero, suc, ◌+◌, ◌-◌, ◌*◌, ◌/◌, ◌%◌, ◌^◌, ◌≤◌, ◌<◌, ◌≡◌, List, [], ◌∷◌, ◌++◌, Bool, true, false,
  ◌==◌, if◌then◌else◌, length, Option, none, some,
}

-- Queues of FreeRTOS, as its documentation describes `xQueueCreate`, `xQueueSendToBack` and
-- `xQueueReceive`: a FIFO of a fixed number of items. `none` is a call that fails, for which no time
-- to wait was given.
pub record QueueApi : Type 1 where
  pub Queue : Type 0
  pub items : Queue → List ℕ
  pub size : Queue → ℕ
  pub create : ℕ → Option Queue
  pub send : Queue → ℕ → Option Queue
  pub receive : Queue → Option (ℕ × Queue)
  pub create_items : (n : ℕ) (q : Queue) → create n ≡ some q → (items q ≡ []) × (size q ≡ n)
  pub send_full : (q : Queue) (x : ℕ) → size q ≤ length (items q) → send q x ≡ none
  pub send_room :
      (q : Queue) (x : ℕ)
      → length (items q) < size q
      → (q' : Queue) × (send q x ≡ some q') × (items q' ≡ items q ++ (x ∷ [])) × (size q' ≡ size q)
  pub receive_empty : (q : Queue) → items q ≡ [] → receive q ≡ none
  pub receive_item :
      (q : Queue) (x : ℕ) (xs : List ℕ)
      → items q ≡ x ∷ xs
      → (q' : Queue) × (receive q ≡ some (x, q')) × (items q' ≡ xs) × (size q' ≡ size q)

-- `err_t` of lwIP, as far as it is returned here.
pub data ErrT : Type 0 where
  err_ok err_mem : ErrT

abbrev pub sys_arch_timeout : ℕ
sys_arch_timeout = 0xffffffff

abbrev pub sys_mbox_empty : ℕ
sys_mbox_empty = sys_arch_timeout

abbrev pub tick_period_ms : ℕ
tick_period_ms = 1000 / 1000

module _ (api : QueueApi) where
  open api use {Queue, items, size, create, send, receive}

  -- The error, and what `*pxMailBox` holds.
  unfoldable pub sys_mbox_new : ℕ → ErrT × Option Queue
  sys_mbox_new size = elim (create size) [
    | none ↦ (ErrT.err_mem, none)
    | some q ↦ (ErrT.err_ok, some q)
  ]

  unfoldable pub sys_mbox_trypost : Queue → ℕ → ErrT × Queue
  sys_mbox_trypost q msg = elim (send q msg) [
    | none ↦ (ErrT.err_mem, q)
    | some q' ↦ (ErrT.err_ok, q')
  ]

  -- `none` while the mailbox stays full.
  unfoldable pub sys_mbox_post : Queue → ℕ → Option Queue
  sys_mbox_post q msg = send q msg

  -- The result, what `*ppvBuffer` holds where it was written, and the mailbox.
  unfoldable pub sys_arch_mbox_tryfetch : Queue → ℕ × Option ℕ × Queue
  sys_arch_mbox_tryfetch q = elim (receive q) [
    | none ↦ (sys_mbox_empty, none, q)
    | some (msg, q') ↦ (0, some msg, q')
  ]

-- `( xEndTime - xStartTime ) * portTICK_PERIOD_MS`, on `TickType_t`.
abbrev pub elapsed : ℕ → ℕ → ℕ
elapsed start end = (end + 2 ^ 32 - start) % 2 ^ 32 * tick_period_ms % 2 ^ 32

-- `sys_arch_mbox_fetch`: the result and what `*ppvBuffer` holds, NULL for `none`. It gets what
-- `xQueueReceive` brought before the time was over, if anything, and the tick count before and after.
-- Without a timeout the loop ends with a message.
unfoldable pub sys_arch_mbox_fetch : ℕ → Option ℕ → ℕ → ℕ → ℕ × Option ℕ
sys_arch_mbox_fetch timeout none start end = (sys_arch_timeout, none)
sys_arch_mbox_fetch timeout (some msg) start end =
    if timeout == 0
    then (let ms = elapsed start end in (if ms == 0 then 1 else ms, some msg))
    else (elapsed start end, some msg)

-- `sys_arch_sem_wait`: likewise, with whether the semaphore was taken.
unfoldable pub sys_arch_sem_wait : ℕ → Bool → ℕ → ℕ → ℕ
sys_arch_sem_wait timeout false start end = sys_arch_timeout
sys_arch_sem_wait timeout true start end =
    if timeout == 0
    then (let ms = elapsed start end in if ms == 0 then 1 else ms)
    else elapsed start end

-- The ticks that `xQueueReceive` and `xSemaphoreTake` are given.
abbrev pub ticks_to_wait : ℕ → ℕ
ticks_to_wait timeout = timeout / tick_period_ms

-- A semaphore of lwIP is a binary one, which is created available: whether it was created, and
-- whether it is available then.
unfoldable pub sys_sem_new : Bool → ℕ → ErrT × Option Bool
sys_sem_new created count =
    if created
    then (if count == 0 then (ErrT.err_ok, some false) else (ErrT.err_ok, some true))
    else (ErrT.err_mem, none)

unfoldable pub sys_sem_signal : Bool → Bool
sys_sem_signal available = true

unfoldable pub sys_mutex_new : Bool → ErrT × Option Bool
sys_mutex_new created = if created then (ErrT.err_ok, some true) else (ErrT.err_mem, none)

-- `none` while another thread holds the mutex.
unfoldable pub sys_mutex_lock : Bool → Option Bool
sys_mutex_lock free = if free then some false else none

unfoldable pub sys_mutex_unlock : Bool → Bool
sys_mutex_unlock free = true
