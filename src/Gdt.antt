-- ===== src/Gdt.antt =====
-- The table of segments, src/gdt.c and include/gdt.h. `gdt_to_gdtr` of src/gdt_s.s loads the
-- register.
pub mod Segments
pub mod Examples
use ocean_os.Base.{
  ℕ, ◌-◌, ◌*◌, ◌/◌, ◌^◌, bit_and, bit_or, List, ltb, if◌then◌else◌, length, set, Result, ok, fault,
  ◌>>=◌,
}

-- The fields of a `gdt_t`, in their order in memory.
pub record GdtEntry : Type 0 where
  pub limit_low : ℕ
  pub base_low : ℕ
  pub base_middle : ℕ
  pub access : ℕ
  pub granularity : ℕ
  pub base_high : ℕ

abbrev pub gdt_length : ℕ
gdt_length = 5

pub record Gdtr : Type 0 where
  pub limit : ℕ
  pub base : ℕ

-- What `setGdt` makes of its arguments; `gran` and `access` are bytes.
unfoldable pub gdt_entry : ℕ → ℕ → ℕ → ℕ → GdtEntry
gdt_entry base limit access gran = record {
  limit_low = bit_and limit 0xFFFF;
  base_low = bit_and base 0xFFFF;
  base_middle = bit_and (base / 2 ^ 16) 0xFF;
  access = access;
  granularity = bit_or (bit_and (limit / 2 ^ 16) 0x0F) (bit_and gran 0xF0);
  base_high = bit_and (base / 2 ^ 24) 0xFF;
}

-- An entry outside of the table faults.
unfoldable pub set_gdt : ℕ → ℕ → ℕ → ℕ → ℕ → List GdtEntry → Result (List GdtEntry)
set_gdt num base limit access gran gdt =
    if ltb num (length gdt) then ok (set gdt num (gdt_entry base limit access gran)) else fault

-- `sizeof(gdtr)` is 6, since `gdtr_t` is packed; `address` is that of `gdt`.
unfoldable pub init_gdt : ℕ → List GdtEntry → Result (List GdtEntry × Gdtr)
init_gdt address gdt = do
  let gdtr : Gdtr = record { limit = 6 * gdt_length - 1; base = address }
  gdt ← set_gdt 0 0 0 0 0 gdt
  gdt ← set_gdt 1 0 0xFFFFFFFF 0x9A 0xCF gdt
  gdt ← set_gdt 2 0 0xFFFFFFFF 0x92 0xCF gdt
  gdt ← set_gdt 3 0 0xFFFFFFFF 0xFA 0xCF gdt
  gdt ← set_gdt 4 0 0xFFFFFFFF 0xF2 0xCF gdt
  ok (gdt, gdtr)
