-- ===== src/Emac/Mac/Tasks.antt =====
-- lwip/src/arch/lpc18xx_43xx_emac.c, `lpc_enetif_init` whole, with the semaphores and the tasks that it
-- creates through lwip/src/arch/sys_arch_freertos.c. The priorities are those of com/inc/lwipopts.h.
use rtu_com.Common.{ℕ, ◌+◌, ◌-◌, List, [], ◌∷◌, ◌++◌, Bool, if◌then◌else◌, Option, none, some}
use rtu_com.Emac.{num_buff_txdescs}
use rtu_com.Emac.Rx
use rtu_com.Emac.Mac.{Emac, Err, err_ok, Netif, init_interface}
use rtu_com.Link.Setup.{Thread, default_thread_prio}
use rtu_com.SysArch as SysArch

abbrev pub max_priorities : ℕ
max_priorities = 8

abbrev pub tcpip_thread_prio : ℕ
tcpip_thread_prio = default_thread_prio + max_priorities - 2

abbrev pub receive_thread : Thread
receive_thread = record { stack_size = 512; prio = tcpip_thread_prio - 1 }

abbrev pub txclean_thread : Thread
txclean_thread = record { stack_size = 512; prio = tcpip_thread_prio - 1 }

-- Which of the objects FreeRTOS has memory for.
pub record Created : Type 0 where
  pub count_sem : Bool
  pub mutex : Bool
  pub rx_sem : Bool
  pub rx_task : Bool
  pub tx_sem : Bool
  pub tx_task : Bool

-- The count of xTXDCountSem, whether TXLockMutex is free, whether the other two are available, and the
-- tasks that run.
pub record Tasks : Type 0 where
  pub count : ℕ
  pub mutex : Bool
  pub rx_sem : Bool
  pub tx_sem : Bool
  pub threads : List Thread

-- `LWIP_ASSERT("...", (err == ERR_OK))`; `none` is its endless loop.
abbrev pub assert_ok : SysArch.ErrT × Option Bool → Option Bool
assert_ok (SysArch.err_ok, s) = s
assert_ok (SysArch.err_mem, s) = none

-- The result of `sys_thread_new` is not looked at.
abbrev pub thread_if : Bool → Thread → List Thread
thread_if made t = if made then t ∷ [] else []

unfoldable pub create_tasks : Created → Option Tasks
create_tasks c =
    if c.count_sem
    then (elim (assert_ok (SysArch.sys_mutex_new c.mutex)) [
      | none ↦ none
      | some free ↦ elim (assert_ok (SysArch.sys_sem_new c.rx_sem 0)) [
        | none ↦ none
        | some rx ↦ elim (assert_ok (SysArch.sys_sem_new c.tx_sem 0)) [
          | none ↦ none
          | some tx ↦ some (record {
            count = num_buff_txdescs;
            mutex = free;
            rx_sem = rx;
            tx_sem = tx;
            threads = thread_if c.rx_task receive_thread ++ thread_if c.tx_task txclean_thread;
          })
        ]
      ]
    ])
    else none

-- `none` is an endless loop, of an assertion or in the allocation of receive buffers. Where the
-- hardware does not start there are no tasks.
unfoldable pub lpc_enetif_init :
    ℕ → Rx.Env → Bool → Created → List ℕ → Netif → Emac → Option (Err × Netif × Emac × Option Tasks)
unfolding create_tasks
lpc_enetif_init fuel env phy_ok c mac_addr n e =
    elim (init_interface fuel env phy_ok mac_addr n e) [
      | none ↦ none
      | some (err, n', e') ↦ elim err [
        | err_ok ↦ elim (create_tasks c) [ none ↦ none | some ts ↦ some (err_ok, n', e', some ts) ]
        | other ↦ some (other, n', e', none)
      ]
    ]
