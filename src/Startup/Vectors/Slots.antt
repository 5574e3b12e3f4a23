-- ===== src/Startup/Vectors/Slots.antt =====
-- The slots of the vector table against the exception numbers of the core.
use rtu_com.Common.{ℕ, ◌+◌, ◌≡◌, refl, List, [], ◌∷◌, Bool, false, ◌==◌, if◌then◌else◌}
use rtu_com.Startup.Vectors.{Handler, Vector, handler, vectors}

-- The number of an exception, as the Cortex-M4 and the comments of the table have it.
abbrev pub exception_number : Handler → ℕ
exception_number Handler.nmi = 2
exception_number Handler.hard_fault = 3
exception_number Handler.mem_manage = 4
exception_number Handler.bus_fault = 5
exception_number Handler.usage_fault = 6
exception_number Handler.svc = 11
exception_number Handler.debug_mon = 12
exception_number Handler.pend_sv = 14
exception_number Handler.sys_tick = 15
exception_number Handler.dac = 16
exception_number Handler.m0app = 17
exception_number Handler.dma = 18
exception_number Handler.flash_eeprom = 20
exception_number Handler.eth = 21
exception_number Handler.sdio = 22
exception_number Handler.lcd = 23
exception_number Handler.usb0 = 24
exception_number Handler.usb1 = 25
exception_number Handler.sct = 26
exception_number Handler.rit = 27
exception_number Handler.timer0 = 28
exception_number Handler.timer1 = 29
exception_number Handler.timer2 = 30
exception_number Handler.timer3 = 31
exception_number Handler.mcpwm = 32
exception_number Handler.adc0 = 33
exception_number Handler.i2c0 = 34
exception_number Handler.spi = 36
exception_number Handler.i2c1 = 35
exception_number Handler.adc1 = 37
exception_number Handler.ssp0 = 38
exception_number Handler.ssp1 = 39
exception_number Handler.uart0 = 40
exception_number Handler.uart1 = 41
exception_number Handler.uart2 = 42
exception_number Handler.uart3 = 43
exception_number Handler.i2s0 = 44
exception_number Handler.i2s1 = 45
exception_number Handler.spifi = 46
exception_number Handler.sgpio = 47
exception_number Handler.gpio0 = 48
exception_number Handler.gpio1 = 49
exception_number Handler.gpio2 = 50
exception_number Handler.gpio3 = 51
exception_number Handler.gpio4 = 52
exception_number Handler.gpio5 = 53
exception_number Handler.gpio6 = 54
exception_number Handler.gpio7 = 55
exception_number Handler.gint0 = 56
exception_number Handler.gint1 = 57
exception_number Handler.evrt = 58
exception_number Handler.can1 = 59
exception_number Handler.adchs = 61
exception_number Handler.atimer = 62
exception_number Handler.rtc = 63
exception_number Handler.wdt = 65
exception_number Handler.m0sub = 66
exception_number Handler.can0 = 67
exception_number Handler.qei = 68

abbrev pub is_handler : Handler → Vector → Bool
is_handler h (handler h') = exception_number h == exception_number h'
is_handler h _ = false

-- The slots that hold a handler, counted from `n`.
abbrev pub slots : Handler → ℕ → List Vector → List ℕ
slots h n [] = []
slots h n (v ∷ vs) = if is_handler h v then n ∷ slots h (n + 1) vs else slots h (n + 1) vs

-- Each handler stands in the table once, in the slot of its exception number.
pub slots-exception_number : (h : Handler) → slots h 0 vectors ≡ exception_number h ∷ []
slots-exception_number Handler.nmi = refl
slots-exception_number Handler.hard_fault = refl
slots-exception_number Handler.mem_manage = refl
slots-exception_number Handler.bus_fault = refl
slots-exception_number Handler.usage_fault = refl
slots-exception_number Handler.svc = refl
slots-exception_number Handler.debug_mon = refl
slots-exception_number Handler.pend_sv = refl
slots-exception_number Handler.sys_tick = refl
slots-exception_number Handler.dac = refl
slots-exception_number Handler.m0app = refl
slots-exception_number Handler.dma = refl
slots-exception_number Handler.flash_eeprom = refl
slots-exception_number Handler.eth = refl
slots-exception_number Handler.sdio = refl
slots-exception_number Handler.lcd = refl
slots-exception_number Handler.usb0 = refl
slots-exception_number Handler.usb1 = refl
slots-exception_number Handler.sct = refl
slots-exception_number Handler.rit = refl
slots-exception_number Handler.timer0 = refl
slots-exception_number Handler.timer1 = refl
slots-exception_number Handler.timer2 = refl
slots-exception_number Handler.timer3 = refl
slots-exception_number Handler.mcpwm = refl
slots-exception_number Handler.adc0 = refl
slots-exception_number Handler.i2c0 = refl
slots-exception_number Handler.spi = refl
slots-exception_number Handler.i2c1 = refl
slots-exception_number Handler.adc1 = refl
slots-exception_number Handler.ssp0 = refl
slots-exception_number Handler.ssp1 = refl
slots-exception_number Handler.uart0 = refl
slots-exception_number Handler.uart1 = refl
slots-exception_number Handler.uart2 = refl
slots-exception_number Handler.uart3 = refl
slots-exception_number Handler.i2s0 = refl
slots-exception_number Handler.i2s1 = refl
slots-exception_number Handler.spifi = refl
slots-exception_number Handler.sgpio = refl
slots-exception_number Handler.gpio0 = refl
slots-exception_number Handler.gpio1 = refl
slots-exception_number Handler.gpio2 = refl
slots-exception_number Handler.gpio3 = refl
slots-exception_number Handler.gpio4 = refl
slots-exception_number Handler.gpio5 = refl
slots-exception_number Handler.gpio6 = refl
slots-exception_number Handler.gpio7 = refl
slots-exception_number Handler.gint0 = refl
slots-exception_number Handler.gint1 = refl
slots-exception_number Handler.evrt = refl
slots-exception_number Handler.can1 = refl
slots-exception_number Handler.adchs = refl
slots-exception_number Handler.atimer = refl
slots-exception_number Handler.rtc = refl
slots-exception_number Handler.wdt = refl
slots-exception_number Handler.m0sub = refl
slots-exception_number Handler.can0 = refl
slots-exception_number Handler.qei = refl
