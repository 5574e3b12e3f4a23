-- ===== src/Startup/Reset.antt =====
-- The loops of `ResetISR`: what the sections hold when they have ended.
use rtu_com.Common.{
  ℕ, zero, suc, ◌+◌, ◌*◌, ◌^◌, ◌≤◌, ◌<◌, ◌≡◌, ◌∙◌, List, [], ◌∷◌, ◌++◌, All, refl, map, length,
  arith, some, true, false, ltb,
}
use rtu_com.Startup.{Words, step4, data_init, data_sections, bss_sections, init_sections}
use rtu_com.Startup.Fill.{
  IsFilled, IsFilled-same, step4_small, data_init-IsFilled, bss_init-IsFilled,
}
use rtu_com.Startup.Sections.{
  Section, AreFilled, AreApart, IsFilled-cons, AreApart-left, AreApart-right, AreFilled-append,
}

-- An entry of the section table; an entry of a bss section has no load address.
pub record DataEntry : Type 0 where
  pub load_addr : ℕ
  pub exe_addr : ℕ
  pub section_len : ℕ

pub record BssEntry : Type 0 where
  pub exe_addr : ℕ
  pub section_len : ℕ

step4_twice : (a : ℕ) → a + 8 < 2 ^ 32 → step4 (a + 4) ≡ a + 8
step4_twice a h = omega arith

data_row : (a : ℕ) → a + 12 < 2 ^ 32 → step4 (step4 (step4 a)) ≡ a + 12
data_row a h = omega arith

-- What a data section shall hold: its image.
abbrev pub data_section : Words → DataEntry → Section
data_section image e = record {
  exe = e.exe_addr;
  len = e.section_len;
  value = λ k. image (e.load_addr + 4 * k);
}

abbrev pub bss_section : BssEntry → Section
bss_section e = record { exe = e.exe_addr; len = e.section_len; value = λ k. 0 }

-- `image` is the memory before the reset, and `IsRam` says which addresses the sections may take:
-- the table and the images of the data sections lie elsewhere. A section has fewer than `words`
-- words.
module _ (IsRam : ℕ → Type 0) (image : Words) (words : ℕ) where
  -- A word of the table.
  pub record IsField (a w : ℕ) : Type 0 where
    pub value : image a ≡ w
    pub not_ram : ¬ IsRam a

  abbrev pub IsDataTable : ℕ → List DataEntry → Type 0
  IsDataTable addr [] = Unit
  IsDataTable addr (e ∷ es) =
      (IsField addr e.load_addr × IsField (addr + 4) e.exe_addr × IsField (addr + 8) e.section_len)
      × IsDataTable (addr + 12) es

  abbrev pub IsBssTable : ℕ → List BssEntry → Type 0
  IsBssTable addr [] = Unit
  IsBssTable addr (e ∷ es) =
      (IsField addr e.exe_addr × IsField (addr + 4) e.section_len) × IsBssTable (addr + 8) es

  -- A section fits the address space, the fuel and the RAM.
  pub record IsPlaced (exe len : ℕ) : Type 0 where
    pub enough : len + 4 ≤ 4 * words
    pub small : exe + len + 4 ≤ 2 ^ 32
    pub ram : (k : ℕ) → 4 * k < len → IsRam (exe + 4 * k)

  pub record IsDataEntry (e : DataEntry) : Type 0 where
    pub placed : IsPlaced e.exe_addr e.section_len
    pub image_small : e.load_addr + e.section_len + 4 ≤ 2 ^ 32
    pub image_rom : (k : ℕ) → 4 * k < e.section_len → ¬ IsRam (e.load_addr + 4 * k)

  -- A memory that differs from the image in RAM only.
  abbrev pub Keeps : Words → Type 0
  Keeps mem = (a : ℕ) → ¬ IsRam a → mem a ≡ image a

  Keeps-IsFilled :
      (f : ℕ → ℕ) (mem mem' : Words) (exe len : ℕ)
      → IsPlaced exe len
      → IsFilled f mem mem' exe len
      → Keeps mem
      → Keeps mem'
  Keeps-IsFilled f mem mem' exe len placed filled keeps a rom =
      filled.rest a (λ k small e. rom (rw e (placed.ram k small))) ∙ keeps a rom

  field_read : (mem : Words) (a w : ℕ) → Keeps mem → IsField a w → mem a ≡ w
  field_read mem a w keeps f = keeps a f.not_ram ∙ f.value

  data_step :
      (mem : Words) (e : DataEntry)
      → Keeps mem
      → IsDataEntry e
      → (mem' : Words) × (data_init words mem e.load_addr e.exe_addr e.section_len ≡ some mem')
        × IsFilled (data_section image e).value mem mem' e.exe_addr e.section_len
  data_step mem e keeps h =
      let (mem', ends, filled) =
        data_init-IsFilled words mem e.load_addr e.exe_addr e.section_len h.placed.enough
          h.image_small h.placed.small
          (λ j k p q. λ same. h.image_rom j p (rw same (h.placed.ram k q))) in
      (
        mem',
        ends,
        IsFilled-same _ _ mem mem' e.exe_addr e.section_len e.section_len refl
            (λ k p. keeps (e.load_addr + 4 * k) (h.image_rom k p)) filled,
      )

  data_sections-AreFilled :
      (fuel : ℕ) (mem : Words) (addr end : ℕ) (es : List DataEntry)
      → length es < fuel
      → end ≡ addr + 12 * length es
      → end + 4 ≤ 2 ^ 32
      → IsDataTable addr es
      → All IsDataEntry es
      → AreApart (map (data_section image) es)
      → Keeps mem
      → (mem' : Words) × (data_sections words fuel mem addr end ≡ some (mem', end))
        × AreFilled (map (data_section image) es) mem mem'
        × Keeps mem'
  unfolding data_sections
  data_sections-AreFilled zero mem addr end es enough last small table fit apart keeps =
      absurd (omega arith)
  data_sections-AreFilled (suc fuel) mem addr end [] enough last small table fit apart keeps =
      let done : ltb addr end ≡ false = ground arith in
      let same : addr ≡ end = omega arith in
      (mem, rw (done, same) refl, record { words = tt; rest = λ a out. refl }, keeps)
  data_sections-AreFilled (suc fuel) mem addr end (e ∷ es) enough last small ((f₀, f₁, f₂), table)
        (h, fit) (p, apart) keeps =
      let more : ltb addr end ≡ true = ground arith in
      let (mem₁, ends, filled) = data_step mem e keeps h in
      let keeps₁ = Keeps-IsFilled _ mem mem₁ _ _ h.placed filled keeps in
      let (mem', loops, others, keeps') =
        data_sections-AreFilled fuel mem₁ (addr + 12) end es (omega arith) (omega arith) small table
          fit apart keeps₁ in
      (
        mem',
        rw
            (
              more,
              data_row addr (omega arith),
              step4_small addr (omega arith),
              step4_twice addr (omega arith),
              field_read mem addr _ keeps f₀,
              field_read mem (addr + 4) _ keeps f₁,
              field_read mem (addr + 8) _ keeps f₂,
              ends,
            )
            loops,
        IsFilled-cons (data_section image e) (map (data_section image) es) mem mem₁ mem' p filled
            others,
        keeps',
      )

  bss_sections-AreFilled :
      (fuel : ℕ) (mem : Words) (addr end : ℕ) (es : List BssEntry)
      → length es < fuel
      → end ≡ addr + 8 * length es
      → end + 4 ≤ 2 ^ 32
      → IsBssTable addr es
      → All (λ e. IsPlaced e.exe_addr e.section_len) es
      → AreApart (map bss_section es)
      → Keeps mem
      → (mem' : Words) × (bss_sections words fuel mem addr end ≡ some (mem', end))
        × AreFilled (map bss_section es) mem mem'
        × Keeps mem'
  unfolding bss_sections
  bss_sections-AreFilled zero mem addr end es enough last small table fit apart keeps =
      absurd (omega arith)
  bss_sections-AreFilled (suc fuel) mem addr end [] enough last small table fit apart keeps =
      let done : ltb addr end ≡ false = ground arith in
      let same : addr ≡ end = omega arith in
      (mem, rw (done, same) refl, record { words = tt; rest = λ a out. refl }, keeps)
  bss_sections-AreFilled (suc fuel) mem addr end (e ∷ es) enough last small ((f₀, f₁), table)
        (h, fit) (p, apart) keeps =
      let more : ltb addr end ≡ true = ground arith in
      let (mem₁, ends, filled) =
        bss_init-IsFilled words mem e.exe_addr e.section_len h.enough h.small in
      let keeps₁ = Keeps-IsFilled _ mem mem₁ _ _ h filled keeps in
      let (mem', loops, others, keeps') =
        bss_sections-AreFilled fuel mem₁ (addr + 8) end es (omega arith) (omega arith) small table
          fit apart keeps₁ in
      (
        mem',
        rw
            (
              more,
              step4_small addr (omega arith),
              step4_twice addr (omega arith),
              field_read mem addr _ keeps f₀,
              field_read mem (addr + 4) _ keeps f₁,
              ends,
            )
            loops,
        IsFilled-cons (bss_section e) (map bss_section es) mem mem₁ mem' p filled others,
        keeps',
      )

  -- The reset ends, for a table of data entries and then bss entries whose sections do not overlap, fit
  -- the address space and lie in RAM, with the table and the images of the data sections elsewhere:
  -- each data section then holds its image as it was before the reset, each bss section holds zeros,
  -- and no other word has changed. The fuel exceeds the number of entries of
  -- either kind, and `words` the number of words of each section.
  pub init_sections-AreFilled :
      (fuel table data_end bss_end : ℕ) (ds : List DataEntry) (bs : List BssEntry)
      → length ds < fuel
      → length bs < fuel
      → data_end ≡ table + 12 * length ds
      → bss_end ≡ data_end + 8 * length bs
      → bss_end + 4 ≤ 2 ^ 32
      → IsDataTable table ds
      → IsBssTable data_end bs
      → All IsDataEntry ds
      → All (λ e. IsPlaced e.exe_addr e.section_len) bs
      → AreApart (map (data_section image) ds ++ map bss_section bs)
      → (mem' : Words) × (init_sections words fuel image table data_end bss_end ≡ some mem')
        × AreFilled (map (data_section image) ds ++ map bss_section bs) image mem'
  unfolding init_sections
  init_sections-AreFilled fuel table data_end bss_end ds bs enough enough' last last' small rows
        rows' fit fit' apart =
      let (mem₁, ends, copied, keeps) =
        data_sections-AreFilled fuel image table data_end ds enough last (omega arith) rows fit
          (AreApart-left (map (data_section image) ds) (map bss_section bs) apart)
          (λ a rom. refl) in
      let (mem', ends', zeroed, keeps') =
        bss_sections-AreFilled fuel mem₁ data_end bss_end bs enough' last' small rows' fit'
          (AreApart-right (map (data_section image) ds) (map bss_section bs) apart) keeps in
      (
        mem',
        rw (ends, ends') refl,
        AreFilled-append (map (data_section image) ds) (map bss_section bs) image mem₁ mem' apart
            copied zeroed,
      )
