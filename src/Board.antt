-- ===== src/Board.antt =====
-- com/src/main.c and com/src/dout.c: the start of the program up to the scheduler, as the list of the
-- calls that it makes, the first one first; and `msDelay`.
pub mod Pins
pub mod Delay
use rtu_com.Common.{ℕ, ◌+◌, ◌*◌, ◌/◌, ◌%◌, ◌^◌, List, [], ◌∷◌, ◌++◌}
use rtu_com.Device.{Level}
use rtu_com.Link.{tick_rate_hz}

-- The calls of the chip's library are named by what they do to a pin.
pub data BoardCall : Type 0 where
  system_core_clock_update board_init start_scheduler : BoardCall
  pin_mux_set : ℕ → ℕ → ℕ → BoardCall  -- SCU group, pin and function
  set_pin_dir_output : ℕ → ℕ → BoardCall
  set_pin_out_low : ℕ → ℕ → BoardCall
  debug_set_level : Level → BoardCall
  create_stack_ip_setup : ℕ → ℕ → BoardCall  -- stack depth and priority

abbrev pub dout_init_cero : List BoardCall
dout_init_cero =
    set_pin_out_low 5 12 ∷ set_pin_out_low 5 12 ∷ set_pin_out_low 5 12 ∷ set_pin_out_low 5 12 ∷ []

abbrev pub dout_init : List BoardCall
dout_init =
    pin_mux_set 4 8 4
    ∷ set_pin_dir_output 5 12
    ∷ pin_mux_set 4 9 4
    ∷ set_pin_dir_output 5 13
    ∷ pin_mux_set 4 10 4
    ∷ set_pin_dir_output 5 14
    ∷ pin_mux_set 1 5 0
    ∷ set_pin_dir_output 1 8
    ∷ dout_init_cero

abbrev pub prv_setup_hardware : List BoardCall
prv_setup_hardware =
    system_core_clock_update ∷ board_init ∷ (dout_init ++ (set_pin_out_low 5 12 ∷ []))

abbrev pub minimal_stack_size : ℕ
minimal_stack_size = 128

-- `main` returns only if `vTaskStartScheduler` does.
abbrev pub main : List BoardCall
main =
    prv_setup_hardware
    ++ (debug_set_level Level.info
        ∷ create_stack_ip_setup (minimal_stack_size * 4) 1
        ∷ start_scheduler
        ∷ [])

-- `(configTICK_RATE_HZ * ms) / 1000`, on `uint32_t`: what `msDelay` passes to `vTaskDelay`.
unfoldable pub ms_delay : ℕ → ℕ
ms_delay ms = tick_rate_hz * ms % 2 ^ 32 / 1000
