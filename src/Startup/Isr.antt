-- ===== src/Startup/Isr.antt =====
-- com/src/cr_startup_lpc43xx.c, `ResetISR` from its first statement on, and `SystemInit` of
-- com/src/sysinit.c. The preprocessor's symbols are a `Build`. Memory is that of `Startup`; a write to
-- a device register is a call. What `SystemInit` does to the memory of the program is nothing: it
-- writes to registers of the core and of the chip.
pub mod Once
use rtu_com.Common.{
  ℕ, zero, suc, ◌+◌, ◌*◌, List, [], ◌∷◌, ◌++◌, Bool, true, false, not, ◌&&◌, ◌==◌, if◌then◌else◌,
  Option, none, some, ◌≡◌, ap, refl, sym, ◌∙◌, append_assoc, arith, Bool-cases, inl, inr,
}
use rtu_com.Startup.{Words, init_sections}

-- Which symbols are defined. `vector_table` is the address of `g_pfnVectors`.
pub record Build : Type 0 where
  pub dont_reset_on_restart : Bool
  pub use_lpcopen : Bool
  pub use_cmsis : Bool
  pub vfp_fp : Bool
  pub soft_fp : Bool
  pub cplusplus : Bool
  pub redlib : Bool
  pub core_m : Bool  -- CORE_M3 or CORE_M4
  pub vector_symbol : Bool  -- __IAR_SYSTEMS_ICC__, __CODE_RED or __ARMCC_VERSION, each with its table
  pub fpu_present : Bool
  pub no_board_lib : Bool
  pub vector_table : ℕ

pub data ResetCall : Type 0 where
  cpsid cpsie : ResetCall
  write : ℕ → ℕ → ResetCall  -- a register
  enable_fpu : ResetCall  -- CP10 and CP11 in CPACR
  fpu_init : ResetCall
  chip_system_init : ResetCall
  board_system_init : ResetCall
  libc_init_array : ResetCall
  start_main : ResetCall

-- `for (irqpendloop = 0; irqpendloop < 8; irqpendloop++)`, the rounds that are left and the counter.
unfoldable pub clear_pending : ℕ → ℕ → List ResetCall
clear_pending zero n = []
clear_pending (suc left) n = write (0xE000E280 + 4 * n) 0xFFFFFFFF ∷ clear_pending left (n + 1)

-- The block under `#ifndef DONT_RESET_ON_RESTART`.
unfoldable pub reset_peripherals : Build → List ResetCall
unfolding clear_pending
reset_peripherals b =
    if b.dont_reset_on_restart
    then []
    else (cpsid
        ∷ write 0x40053100 0x10DF1000
        ∷ write 0x40053104 0x01DFF7FF
        ∷ (clear_pending 8 0 ++ (cpsie ∷ [])))

-- `SystemInit` of com/src/sysinit.c.
unfoldable pub system_init : Build → List ResetCall
system_init b =
    if b.core_m
    then ((if b.vector_symbol then write 0xE000ED08 b.vector_table ∷ [] else [])
        ++ ((if b.fpu_present then fpu_init ∷ [] else [])
            ++ ((if b.no_board_lib then chip_system_init else board_system_init) ∷ [])))
    else []

-- What is between the sections and `main`.
unfoldable pub set_up : Build → List ResetCall
unfolding system_init
set_up b =
    (if b.use_lpcopen
      then []
      else ((if b.vfp_fp && not b.soft_fp then enable_fpu ∷ [] else [])
          ++ (if b.vector_table == 0 then [] else write 0xE000ED08 b.vector_table ∷ [])))
    ++ ((if b.use_cmsis then system_init b else [])
        ++ (if b.cplusplus then libc_init_array ∷ [] else []))

-- `ResetISR` up to the call of `main`, or of `__main`, which calls it: the memory then, and the calls,
-- the first one first. The numbers are those of `init_sections`.
unfoldable pub reset_isr : Build → ℕ → ℕ → Words → ℕ → ℕ → ℕ → Option (Words × List ResetCall)
unfolding reset_peripherals system_init set_up
reset_isr b words fuel mem table data_end bss_end =
    elim (init_sections words fuel mem table data_end bss_end) [
      | none ↦ none
      | some mem' ↦ some (
        mem',
        reset_peripherals b
            ++ ((if b.use_lpcopen then system_init b else []) ++ (set_up b ++ (start_main ∷ []))),
      )
    ]
