-- ===== src/Link/Priorities.antt =====
-- The interrupt priorities against the eight bits of a priority register.
use rtu_com.Common.{ℕ, zero, suc, ◌*◌, ◌-◌, ◌^◌, ◌≤◌, ◌<◌, arith}
use rtu_com.Link.Setup.{
  ethernet_interrupt_priority, kernel_interrupt_priority, max_syscall_interrupt_priority,
}

-- With three to five bits of priority (five is the default of the file): the Ethernet interrupt, whose
-- handler calls FreeRTOS, is no more urgent than FreeRTOS allows, and fits the register; the kernel's
-- own priority does not fit it.
pub interrupt_priority_bounds :
    (prio_bits : ℕ)
    → 3 ≤ prio_bits
    → prio_bits ≤ 5
    → (max_syscall_interrupt_priority prio_bits ≤ ethernet_interrupt_priority * 2 ^ (8 - prio_bits))
      × (ethernet_interrupt_priority * 2 ^ (8 - prio_bits) < 256)
      × (256 ≤ kernel_interrupt_priority prio_bits)
interrupt_priority_bounds zero low high = absurd (omega arith)
interrupt_priority_bounds (suc zero) low high = absurd (omega arith)
interrupt_priority_bounds (suc (suc zero)) low high = absurd (omega arith)
interrupt_priority_bounds (suc (suc (suc zero))) low high = (omega arith, omega arith, omega arith)
interrupt_priority_bounds (suc (suc (suc (suc zero)))) low high =
    (omega arith, omega arith, omega arith)
interrupt_priority_bounds (suc (suc (suc (suc (suc zero))))) low high =
    (omega arith, omega arith, omega arith)
interrupt_priority_bounds (suc (suc (suc (suc (suc (suc n)))))) low high = absurd (omega arith)
