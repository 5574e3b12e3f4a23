-- ===== src/SysArch/Waiting.antt =====
-- The times that lwIP is told it has waited.
use rtu_com.Common.{ℕ, ◌+◌, ◌%◌, ◌^◌, ◌<◌, ◌≡◌, ◌==◌, if◌then◌else◌, ◌&&◌, some, true, arith}
use rtu_com.SysArch.{sys_arch_timeout, sys_arch_mbox_fetch, sys_arch_sem_wait}

-- A wait of `d` milliseconds is reported as `d`, at any tick count, also across its wrap-around; a
-- wait without a timeout that took no time is reported as 1. `d` is less than 2 ^ 32 - 1, so that the
-- result is never mistaken for a timeout.
pub sys_arch_mbox_fetch-elapsed :
    (timeout msg start d : ℕ)
    → start < 2 ^ 32
    → d < sys_arch_timeout
    → sys_arch_mbox_fetch timeout (some msg) start ((start + d) % 2 ^ 32)
      ≡ (if (timeout == 0) && (d == 0) then 1 else d, some msg)
unfolding sys_arch_mbox_fetch
sys_arch_mbox_fetch-elapsed timeout msg start d small less = ground arith

-- The same of a semaphore.
pub sys_arch_sem_wait-elapsed :
    (timeout start d : ℕ)
    → start < 2 ^ 32
    → d < sys_arch_timeout
    → sys_arch_sem_wait timeout true start ((start + d) % 2 ^ 32)
      ≡ (if (timeout == 0) && (d == 0) then 1 else d)
unfolding sys_arch_sem_wait
sys_arch_sem_wait-elapsed timeout start d small less = ground arith
