-- ===== src/Startup/Vectors.antt =====
-- com/src/cr_startup_lpc43xx.c: the vector table and the weak handlers, in a build with __USE_LPCOPEN
-- (the other build has other names for two of them).
pub mod Slots
use rtu_com.Common.{ℕ, List, [], ◌∷◌, Bool, true, false, if◌then◌else◌}

-- The handlers that the file declares, first those of the core.
pub data Handler : Type 0 where
  nmi hard_fault mem_manage bus_fault usage_fault svc debug_mon pend_sv sys_tick dac : Handler
  m0app dma flash_eeprom eth sdio lcd usb0 usb1 sct rit timer0 timer1 timer2 timer3 mcpwm : Handler
  adc0 i2c0 spi i2c1 adc1 ssp0 ssp1 uart0 uart1 uart2 uart3 i2s0 i2s1 spifi sgpio gpio0 : Handler
  gpio1 gpio2 gpio3 gpio4 gpio5 gpio6 gpio7 gint0 gint1 evrt can1 adchs atimer rtc wdt : Handler
  m0sub can0 qei : Handler

-- An entry of the table.
pub data Vector : Type 0 where
  stack_top reset_isr reserved : Vector
  handler : Handler → Vector

-- `g_pfnVectors`.
abbrev pub vectors : List Vector
vectors =
    stack_top
    ∷ reset_isr
    ∷ handler Handler.nmi
    ∷ handler Handler.hard_fault
    ∷ handler Handler.mem_manage
    ∷ handler Handler.bus_fault
    ∷ handler Handler.usage_fault
    ∷ reserved
    ∷ reserved
    ∷ reserved
    ∷ reserved
    ∷ handler Handler.svc
    ∷ handler Handler.debug_mon
    ∷ reserved
    ∷ handler Handler.pend_sv
    ∷ handler Handler.sys_tick
    ∷ handler Handler.dac
    ∷ handler Handler.m0app
    ∷ handler Handler.dma
    ∷ reserved
    ∷ handler Handler.flash_eeprom
    ∷ handler Handler.eth
    ∷ handler Handler.sdio
    ∷ handler Handler.lcd
    ∷ handler Handler.usb0
    ∷ handler Handler.usb1
    ∷ handler Handler.sct
    ∷ handler Handler.rit
    ∷ handler Handler.timer0
    ∷ handler Handler.timer1
    ∷ handler Handler.timer2
    ∷ handler Handler.timer3
    ∷ handler Handler.mcpwm
    ∷ handler Handler.adc0
    ∷ handler Handler.i2c0
    ∷ handler Handler.i2c1
    ∷ handler Handler.spi
    ∷ handler Handler.adc1
    ∷ handler Handler.ssp0
    ∷ handler Handler.ssp1
    ∷ handler Handler.uart0
    ∷ handler Handler.uart1
    ∷ handler Handler.uart2
    ∷ handler Handler.uart3
    ∷ handler Handler.i2s0
    ∷ handler Handler.i2s1
    ∷ handler Handler.spifi
    ∷ handler Handler.sgpio
    ∷ handler Handler.gpio0
    ∷ handler Handler.gpio1
    ∷ handler Handler.gpio2
    ∷ handler Handler.gpio3
    ∷ handler Handler.gpio4
    ∷ handler Handler.gpio5
    ∷ handler Handler.gpio6
    ∷ handler Handler.gpio7
    ∷ handler Handler.gint0
    ∷ handler Handler.gint1
    ∷ handler Handler.evrt
    ∷ handler Handler.can1
    ∷ reserved
    ∷ handler Handler.adchs
    ∷ handler Handler.atimer
    ∷ handler Handler.rtc
    ∷ reserved
    ∷ handler Handler.wdt
    ∷ handler Handler.m0sub
    ∷ handler Handler.can0
    ∷ handler Handler.qei
    ∷ []

-- The handlers that are aliases of `IntDefaultHandler`; the others have bodies of their own.
abbrev pub is_alias : Handler → Bool
is_alias Handler.nmi = false
is_alias Handler.hard_fault = false
is_alias Handler.mem_manage = false
is_alias Handler.bus_fault = false
is_alias Handler.usage_fault = false
is_alias Handler.svc = false
is_alias Handler.debug_mon = false
is_alias Handler.pend_sv = false
is_alias Handler.sys_tick = false
is_alias _ = true

-- What runs: a function of the application, or an endless loop of this file.
pub data Code : Type 0 where
  application : Handler → Code
  endless_loop : Handler → Code
  int_default_handler : Code

-- A weak symbol gives way to a definition of the application.
unfoldable pub resolve : (Handler → Bool) → Handler → Code
resolve defined h =
    if defined h
    then application h
    else (if is_alias h then int_default_handler else endless_loop h)
