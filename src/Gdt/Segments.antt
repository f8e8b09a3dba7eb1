-- ===== src/Gdt/Segments.antt =====
-- What the processor reads out of the entries that `setGdt` writes.
use ocean_os.Base.{
  ℕ, ◌+◌, ◌*◌, ◌/◌, ◌%◌, ◌^◌, ◌≤◌, ◌<◌, bit_and, bit_or, ◌≡◌, refl, ◌↔◌, Bool, true, false, List,
  [], ◌∷◌, arith, ◌==◌, length, set, ok,
}
use ocean_os.Base.Bits.{bit_and-f, bit_and-f0, bit_and-ff, bit_and-ffff, bit_or-nibbles}
use ocean_os.Gdt.{GdtEntry, Gdtr, gdt_length, gdt_entry, set_gdt, init_gdt}

-- The processor's reading of an entry: the address, the 20 bits of the limit, and the flags.
abbrev pub segment_base : GdtEntry → ℕ
segment_base e = e.base_low + 2 ^ 16 * e.base_middle + 2 ^ 24 * e.base_high

abbrev pub segment_limit : GdtEntry → ℕ
segment_limit e = e.limit_low + 2 ^ 16 * (e.granularity % 16)

abbrev pub segment_flags : GdtEntry → ℕ
segment_flags e = e.granularity / 16

-- `setGdt` of an entry of the table stores the entry alone. The processor reads back the whole
-- 32-bit address, the low 20 bits of the limit, the access byte and the high half of `gran`.
set_gdt-reads :
    (num base limit access gran : ℕ) (gdt : List GdtEntry)
    → num < length gdt
    → base < 2 ^ 32
    → gran < 2 ^ 8
    → (e : GdtEntry) × (set_gdt num base limit access gran gdt ≡ ok (set gdt num e))
      × (segment_base e ≡ base)
      × (segment_limit e ≡ limit % 2 ^ 20)
      × (segment_flags e ≡ gran / 16)
      × (e.access ≡ access)
unfolding set_gdt gdt_entry
set_gdt-reads num base limit access gran gdt inside b g =
    let high = bit_and-f (limit / 2 ^ 16) in
    let fields : bit_or (bit_and (limit / 2 ^ 16) 0x0F) (bit_and gran 0xF0)
        ≡ limit / 2 ^ 16 % 16 + 16 * (gran / 16 % 16) =
      rw (high, bit_and-f0 gran)
        (bit_or-nibbles (limit / 2 ^ 16 % 16) (gran / 16 % 16) (omega arith)) in
    (
      gdt_entry base limit access gran,
      ground arith,
      omega (arith, bit_and-ffff base, bit_and-ff (base / 2 ^ 16), bit_and-ff (base / 2 ^ 24)),
      omega (arith, fields, bit_and-ffff limit),
      omega (arith, fields),
      refl,
    )

-- A flat segment: from 0 over the whole 32-bit space, in pages, present, for `ring`.
pub record IsFlat (e : GdtEntry) (ring : ℕ) (code : Bool) : Type 0 where
  pub starts : segment_base e ≡ 0
  pub covers : (segment_limit e + 1) * 2 ^ 12 ≡ 2 ^ 32
  pub paged : segment_flags e ≡ 0xC
  pub present : e.access / 2 ^ 7 ≡ 1
  pub for_ring : e.access / 2 ^ 5 % 4 ≡ ring
  pub executable : (e.access / 2 ^ 3 % 2 == 1) ≡ code

-- The table after `init_gdt`.
abbrev pub segments : List GdtEntry
segments =
    gdt_entry 0 0 0 0
    ∷ gdt_entry 0 0xFFFFFFFF 0x9A 0xCF
    ∷ gdt_entry 0 0xFFFFFFFF 0x92 0xCF
    ∷ gdt_entry 0 0xFFFFFFFF 0xFA 0xCF
    ∷ gdt_entry 0 0xFFFFFFFF 0xF2 0xCF
    ∷ []

init_gdt-segments :
    (address : ℕ) (gdt : List GdtEntry)
    → length gdt ≡ gdt_length
    → init_gdt address gdt ≡ ok (segments, record { limit = 29; base = address })
unfolding init_gdt set_gdt
init_gdt-segments address [] h = absurd (omega arith)
init_gdt-segments address (a ∷ []) h = absurd (omega arith)
init_gdt-segments address (a ∷ b ∷ []) h = absurd (omega arith)
init_gdt-segments address (a ∷ b ∷ c ∷ []) h = absurd (omega arith)
init_gdt-segments address (a ∷ b ∷ c ∷ d ∷ []) h = absurd (omega arith)
init_gdt-segments address (a ∷ b ∷ c ∷ d ∷ e ∷ []) h = refl
init_gdt-segments address (a ∷ b ∷ c ∷ d ∷ e ∷ f ∷ gdt) h = absurd (omega arith)

-- `init_gdt` on a table of `GDT_LENGTH` entries makes the first one null and the others the flat
-- code and data segments of the kernel and of the user.
pub init_gdt-IsFlat :
    (address : ℕ) (gdt : List GdtEntry)
    → length gdt ≡ gdt_length
    → (kernel_code kernel_data user_code user_data : GdtEntry) × (gdtr : Gdtr) × (init_gdt address
          gdt
        ≡ ok (gdt_entry 0 0 0 0 ∷ kernel_code ∷ kernel_data ∷ user_code ∷ user_data ∷ [], gdtr))
      × IsFlat kernel_code 0 true
      × IsFlat kernel_data 0 false
      × IsFlat user_code 3 true
      × IsFlat user_data 3 false
unfolding gdt_entry
init_gdt-IsFlat address gdt h = (
  _,
  _,
  _,
  _,
  _,
  init_gdt-segments address gdt h,
  record {
    starts = refl;
    covers = refl;
    paged = refl;
    present = refl;
    for_ring = refl;
    executable = refl;
  },
  record {
    starts = refl;
    covers = refl;
    paged = refl;
    present = refl;
    for_ring = refl;
    executable = refl;
  },
  record {
    starts = refl;
    covers = refl;
    paged = refl;
    present = refl;
    for_ring = refl;
    executable = refl;
  },
  record {
    starts = refl;
    covers = refl;
    paged = refl;
    present = refl;
    for_ring = refl;
    executable = refl;
  },
)

-- The limit that `init_gdt` loads covers the bytes of the first three entries only: whatever the
-- table's address is, the processor may read entry `i` exactly when `i` is below 3.
pub init_gdt-limit :
    (address i : ℕ) (gdt : List GdtEntry)
    → length gdt ≡ gdt_length
    → (table : List GdtEntry) × (gdtr : Gdtr) × (init_gdt address gdt ≡ ok (table, gdtr))
      × (length table ≡ 5)
      × (gdtr.base ≡ address)
      × ((8 * i + 7 ≤ gdtr.limit) ↔ (i < 3))
init_gdt-limit address i gdt h =
    (_, _, init_gdt-segments address gdt h, refl, refl, ((λ read. omega arith), λ low. omega arith))
