-- ===== src/Link/Setup.antt =====
-- com/src/lwip_init.c, `vStackIpSetup` before its loop, and `stackIp_ThreadInit` of
-- com/src/rtu_com_hmi.c: the calls, the first one first. `LWIP_ASSERT` ends in an endless loop of
-- lwip/src/arch/lpc_debug.c where its condition fails.
use rtu_com.Common.{
  ℕ, ◌+◌, ◌*◌, ◌-◌, ◌^◌, List, [], ◌∷◌, ◌++◌, Bool, true, false, if◌then◌else◌, Option, none, some,
}

-- A thread of lwIP: its stack and its priority.
pub record Thread : Type 0 where
  pub stack_size : ℕ
  pub prio : ℕ

pub data SetupCall : Type 0 where
  tcpip_init : SetupCall
  ms_delay : ℕ → SetupCall
  netif_add : List ℕ → List ℕ → List ℕ → SetupCall  -- address, mask and gateway
  netif_set_default netif_set_up : SetupCall
  nvic_set_priority : ℕ → SetupCall
  nvic_enable_irq : SetupCall
  sys_thread_new : Thread → SetupCall

-- The priority of the kernel's port that `FreeRTOSConfig.h` reserves.
abbrev pub library_max_syscall_interrupt_priority : ℕ
library_max_syscall_interrupt_priority = 5

abbrev pub ethernet_interrupt_priority : ℕ
ethernet_interrupt_priority = library_max_syscall_interrupt_priority + 1

-- tskIDLE_PRIORITY is 0.
abbrev pub default_thread_prio : ℕ
default_thread_prio = 0 + 1

abbrev pub stack_ip_thread_init : List SetupCall
stack_ip_thread_init = sys_thread_new (record { stack_size = 512; prio = default_thread_prio }) ∷ []

-- What comes after the wait; LWIP_DHCP is 0. The argument is the answer of `netif_add`; `none` is the
-- endless loop of the assertion.
unfoldable pub start_interface : Bool → Option (List SetupCall)
start_interface added =
    if added
    then some (
        netif_set_default
        ∷ netif_set_up
        ∷ nvic_set_priority ethernet_interrupt_priority
        ∷ nvic_enable_irq
        ∷ stack_ip_thread_init)
    else none

-- `while (!tcpipdone) { msDelay(1); }` over the values of `tcpipdone` that are read: the calls, or
-- `none` while none of them is set.
unfoldable pub wait_tcpip : List Bool → Option (List SetupCall)
wait_tcpip [] = none
wait_tcpip (true ∷ rs) = some []
wait_tcpip (false ∷ rs) = elim (wait_tcpip rs) [ none ↦ none | some cs ↦ some (ms_delay 1 ∷ cs) ]

unfoldable pub stack_ip_setup : List Bool → Bool → Option (List SetupCall)
unfolding wait_tcpip start_interface
stack_ip_setup reads added = elim (wait_tcpip reads) [
  | none ↦ none
  | some waited ↦ elim (start_interface added) [
    | none ↦ none
    | some started ↦ some (
        tcpip_init
        ∷ (waited
            ++ (netif_add (192 ∷ 168 ∷ 1 ∷ 20 ∷ []) (255 ∷ 255 ∷ 255 ∷ 0 ∷ [])
                  (192 ∷ 168 ∷ 1 ∷ 1 ∷ [])
                ∷ started)))
  ]
]

-- The interrupt priorities of com/inc/FreeRTOSConfig.h in a build for CORE_M4, with so many bits of
-- priority.
abbrev pub library_lowest_interrupt_priority : ℕ
library_lowest_interrupt_priority = 0x3f

abbrev pub kernel_interrupt_priority : ℕ → ℕ
kernel_interrupt_priority prio_bits = library_lowest_interrupt_priority * 2 ^ (8 - prio_bits)

abbrev pub max_syscall_interrupt_priority : ℕ → ℕ
max_syscall_interrupt_priority prio_bits =
    library_max_syscall_interrupt_priority * 2 ^ (8 - prio_bits)
