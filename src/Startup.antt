-- ===== src/Startup.antt =====
-- com/src/cr_startup_lpc43xx.c: `data_init`, `bss_init` and the walk of `ResetISR` over the global
-- section table of the linker. Memory holds a word for each address, and an `unsigned int` wraps
-- around at 2 ^ 32. A loop runs on fuel; `none` is a loop that has not ended.
pub mod Fill
pub mod Sections
pub mod Reset
pub mod Vectors
pub mod Isr
use rtu_com.Common.{
  ℕ, zero, suc, ◌+◌, ◌%◌, ◌^◌, Bool, true, false, ltb, ◌==◌, if◌then◌else◌, Option, none, some,
}

abbrev pub Words : Type 0
Words = ℕ → ℕ

-- The address and the counter of the loops, four bytes on.
abbrev pub step4 : ℕ → ℕ
step4 a = (a + 4) % 2 ^ 32

abbrev pub store : Words → ℕ → ℕ → Words
store mem a w b = if b == a then w else mem b

-- `for (loop = 0; loop < len; loop = loop + 4) *pulDest++ = *pulSrc++;`
unfoldable pub data_loop : ℕ → Words → ℕ → ℕ → ℕ → ℕ → Option Words
data_loop zero mem src dest loop len = none
data_loop (suc fuel) mem src dest loop len =
    let rest =
      data_loop fuel (store mem dest (mem src)) (step4 src) (step4 dest) (step4 loop) len in
    if ltb loop len then rest else some mem

abbrev pub data_init : ℕ → Words → ℕ → ℕ → ℕ → Option Words
data_init fuel mem romstart start len = data_loop fuel mem romstart start 0 len

-- `for (loop = 0; loop < len; loop = loop + 4) *pulDest++ = 0;`
unfoldable pub bss_loop : ℕ → Words → ℕ → ℕ → ℕ → Option Words
bss_loop zero mem dest loop len = none
bss_loop (suc fuel) mem dest loop len =
    let rest = bss_loop fuel (store mem dest 0) (step4 dest) (step4 loop) len in
    if ltb loop len then rest else some mem

abbrev pub bss_init : ℕ → Words → ℕ → ℕ → Option Words
bss_init fuel mem start len = bss_loop fuel mem start 0 len

-- What `ResetISR` carries through its loops: the memory and `SectionTableAddr`.
abbrev pub Walk : Type 0
Walk = Words × ℕ

infixl 5 ◌>>=◌
abbrev pub ◌>>=◌ {ℓ κ} : {A : Type ℓ} {B : Type κ} → Option A → (A → Option B) → Option B
none >>= f = none
some a >>= f = f a

-- `while (SectionTableAddr < &__data_section_table_end) { ... }`, with fuel for the words of a section
-- and for the entries.
unfoldable pub data_sections : ℕ → ℕ → Words → ℕ → ℕ → Option Walk
data_sections words zero mem addr end = none
data_sections words (suc fuel) mem addr end =
    if ltb addr end
    then (do
      mem' ← data_init words mem (mem addr) (mem (step4 addr)) (mem (step4 (step4 addr)))
      data_sections words fuel mem' (step4 (step4 (step4 addr))) end)
    else some (mem, addr)

unfoldable pub bss_sections : ℕ → ℕ → Words → ℕ → ℕ → Option Walk
bss_sections words zero mem addr end = none
bss_sections words (suc fuel) mem addr end =
    if ltb addr end
    then (do
      mem' ← bss_init words mem (mem addr) (mem (step4 addr))
      bss_sections words fuel mem' (step4 (step4 addr)) end)
    else some (mem, addr)

-- The two loops of `ResetISR`: the second one starts where the first one has ended.
unfoldable pub init_sections : ℕ → ℕ → Words → ℕ → ℕ → ℕ → Option Words
init_sections words fuel mem table data_end bss_end = do
  data_walk ← data_sections words fuel mem table data_end
  bss_walk ← bss_sections words fuel data_walk.0 data_walk.1 bss_end
  some bss_walk.0
