-- ===== src/Startup/Isr/Once.antt =====
-- How often `ResetISR` initialises the chip, and that it calls `main` last.
use rtu_com.Common.{
  ℕ, ◌+◌, List, [], ◌∷◌, ◌++◌, Bool, true, false, not, ◌&&◌, ◌==◌, if◌then◌else◌, some, ◌≡◌, ap,
  refl, sym, ◌∙◌, append_assoc, arith, Bool-cases, inl, inr,
}
use rtu_com.Startup.{Words, init_sections}
use rtu_com.Startup.Isr.{
  Build, ResetCall, write, enable_fpu, chip_system_init, board_system_init, libc_init_array,
  start_main, reset_peripherals, system_init, set_up, reset_isr,
}

abbrev pub is_init : ResetCall → Bool
is_init chip_system_init = true
is_init board_system_init = true
is_init _ = false

abbrev pub is_start : ResetCall → Bool
is_start start_main = true
is_start _ = false

-- How often calls of a kind are made.
abbrev pub count_if : (ResetCall → Bool) → List ResetCall → ℕ
count_if p [] = 0
count_if p (c ∷ cs) = (if p c then 1 else 0) + count_if p cs

count_if-append :
    (p : ResetCall → Bool) (xs ys : List ResetCall)
    → count_if p (xs ++ ys) ≡ count_if p xs + count_if p ys
count_if-append p [] ys = omega arith
count_if-append p (x ∷ xs) ys = omega (arith, count_if-append p xs ys)

-- The calls before `main`.
before_main : Build → List ResetCall
unfolding reset_peripherals system_init set_up
before_main b = reset_peripherals b ++ ((if b.use_lpcopen then system_init b else []) ++ set_up b)

count_peripherals :
    (b : Build)
    → (count_if is_init (reset_peripherals b) ≡ 0) × (count_if is_start (reset_peripherals b) ≡ 0)
unfolding reset_peripherals
count_peripherals b = elim (Bool-cases b.dont_reset_on_restart) [
  | inl e ↦ rw e (refl, refl)
  | inr e ↦ rw e (refl, refl)
]

abbrev pub one_if : Bool → ℕ
one_if b = if b then 1 else 0

count_system_init :
    (b : Build)
    → (count_if is_init (system_init b) ≡ one_if b.core_m) × (count_if is_start (system_init b) ≡ 0)
unfolding system_init
count_system_init b = ground arith

-- The two parts of `set_up`.
abbrev set_up_core : Build → List ResetCall
set_up_core b =
    if b.use_lpcopen
    then []
    else ((if b.vfp_fp && not b.soft_fp then enable_fpu ∷ [] else [])
        ++ (if b.vector_table == 0 then [] else write 0xE000ED08 b.vector_table ∷ []))

abbrev set_up_libraries : Build → List ResetCall
set_up_libraries b =
    (if b.use_cmsis then system_init b else [])
    ++ (if b.cplusplus then libc_init_array ∷ [] else [])

count_core :
    (b : Build) → (count_if is_init (set_up_core b) ≡ 0) × (count_if is_start (set_up_core b) ≡ 0)
count_core b = ground arith

abbrev pub counted : Bool → Build → ℕ
counted asked b = if asked then one_if b.core_m else 0

count_asked :
    (asked : Bool) (b : Build)
    → (count_if is_init (if asked then system_init b else []) ≡ counted asked b)
      × (count_if is_start (if asked then system_init b else []) ≡ 0)
count_asked true b = count_system_init b
count_asked false b = (refl, refl)

count_libc :
    (b : Build)
    → (count_if is_init (if b.cplusplus then libc_init_array ∷ [] else []) ≡ 0)
      × (count_if is_start (if b.cplusplus then libc_init_array ∷ [] else []) ≡ 0)
count_libc b = ground arith

module _ (p : ResetCall → Bool) (b : Build) where
  count_before_main :
      count_if p (before_main b)
      ≡ count_if p (reset_peripherals b)
        + (count_if p (if b.use_lpcopen then system_init b else [])
            + (count_if p (set_up_core b)
                + (count_if p (if b.use_cmsis then system_init b else [])
                    + count_if p (if b.cplusplus then libc_init_array ∷ [] else []))))
  unfolding before_main set_up
  count_before_main = omega (
    arith,
    count_if-append p (reset_peripherals b)
        ((if b.use_lpcopen then system_init b else []) ++ (set_up_core b ++ set_up_libraries b)),
    count_if-append p (if b.use_lpcopen then system_init b else [])
        (set_up_core b ++ set_up_libraries b),
    count_if-append p (set_up_core b) (set_up_libraries b),
    count_if-append p (if b.use_cmsis then system_init b else [])
        (if b.cplusplus then libc_init_array ∷ [] else []),
  )

count_start : (b : Build) → count_if is_start (before_main b) ≡ 0
count_start b = omega (
  arith,
  count_before_main is_start b,
  count_peripherals b,
  count_asked b.use_lpcopen b,
  count_asked b.use_cmsis b,
  count_core b,
  count_libc b,
)

count_init :
    (b : Build) → count_if is_init (before_main b) ≡ counted b.use_lpcopen b + counted b.use_cmsis b
count_init b = omega (
  arith,
  count_before_main is_init b,
  count_peripherals b,
  count_asked b.use_lpcopen b,
  count_asked b.use_cmsis b,
  count_core b,
  count_libc b,
)

-- Where the section loops end, `ResetISR` goes on to call `main` once and as the last thing, with the
-- memory that they left; before, the chip is initialised once for each of __USE_LPCOPEN and
-- __USE_CMSIS that is defined, on a Cortex-M3 or M4, and never on another core.
pub reset_isr-main :
    (b : Build) (words fuel : ℕ) (mem mem' : Words) (table data_end bss_end : ℕ)
    → init_sections words fuel mem table data_end bss_end ≡ some mem'
    → (before : List ResetCall) × (reset_isr b words fuel mem table data_end bss_end
        ≡ some (mem', before ++ (start_main ∷ [])))
      × (count_if is_start before ≡ 0)
      × (count_if is_init before ≡ counted b.use_lpcopen b + counted b.use_cmsis b)
unfolding reset_isr before_main
reset_isr-main b words fuel mem mem' table data_end bss_end ends = (
  before_main b,
  rw (ends, reset_isr)
      (ap (λ cs. some (mem', cs))
        (ap (λ cs. reset_peripherals b ++ cs)
            (sym (
              append_assoc (if b.use_lpcopen then system_init b else []) (set_up b)
                (start_main ∷ [])))
          ∙ sym (
              append_assoc (reset_peripherals b)
                ((if b.use_lpcopen then system_init b else []) ++ set_up b) (start_main ∷ [])))),
  count_start b,
  count_init b,
)
