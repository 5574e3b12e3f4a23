-- ===== src/Tests/Startups.antt =====
-- The reset code of com/src/cr_startup_lpc43xx.c on a small memory: a table with a data section of two
-- words and a bss section of one word and a half.
use rtu_com.Common.{
  ℕ, ◌/◌, ◌≤◌, List, [], ◌∷◌, ◌++◌, ◌≡◌, refl, none, some, get_or, map, arith, Option,
}
use rtu_com.Startup.{Words, init_sections, data_sections, data_loop, bss_sections, bss_loop}
use rtu_com.Startup.Sections.{AreFilled}
use rtu_com.Startup.Reset.{DataEntry, BssEntry, data_section, bss_section, init_sections-AreFilled}

-- The table, and at 20 the image of the data section.
abbrev flash : Words
flash a = get_or (20 ∷ 1000 ∷ 8 ∷ 1008 ∷ 6 ∷ 111 ∷ 222 ∷ []) (a / 4) 77

abbrev IsRam : ℕ → Type 0
IsRam a = 1000 ≤ a

abbrev data_entries : List DataEntry
data_entries = record { load_addr = 20; exe_addr = 1000; section_len = 8 } ∷ []

abbrev bss_entries : List BssEntry
bss_entries = record { exe_addr = 1008; section_len = 6 } ∷ []

abbrev after : Option Words → List ℕ
after none = []
after (some mem) = mem 996 ∷ mem 1000 ∷ mem 1004 ∷ mem 1008 ∷ mem 1012 ∷ mem 1016 ∷ []

reset_run : after (init_sections 4 2 flash 0 12 20) ≡ 77 ∷ 111 ∷ 222 ∷ 0 ∷ 0 ∷ 77 ∷ []
unfolding init_sections data_sections data_loop bss_sections bss_loop
reset_run = refl

init_sections-AreFilled_example :
    (mem' : Words) × (init_sections 4 2 flash 0 12 20 ≡ some mem')
    × AreFilled (map (data_section flash) data_entries ++ map bss_section bss_entries) flash mem'
init_sections-AreFilled_example =
    init_sections-AreFilled IsRam flash 4 2 0 12 20 data_entries bss_entries (omega arith)
      (omega arith) refl refl (omega arith)
      (
        (
          record { value = refl; not_ram = λ h. omega arith },
          record { value = refl; not_ram = λ h. omega arith },
          record { value = refl; not_ram = λ h. omega arith },
        ),
        tt,
      )
      (
        (
          record { value = refl; not_ram = λ h. omega arith },
          record { value = refl; not_ram = λ h. omega arith },
        ),
        tt,
      )
      (
        record {
          placed = record { enough = omega arith; small = omega arith; ram = λ k h. omega arith };
          image_small = omega arith;
          image_rom = λ k h r. omega arith;
        },
        tt,
      )
      (record { enough = omega arith; small = omega arith; ram = λ k h. omega arith }, tt)
      ((λ j h. ((λ k h' e. omega arith), tt)), ((λ j h. tt), tt))
