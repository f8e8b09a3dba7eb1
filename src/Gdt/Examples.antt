-- ===== src/Gdt/Examples.antt =====
-- Runs of the segment table.
use ocean_os.Base.{◌+◌, ◌*◌, ◌≤◌, ◌<◌, ◌≡◌, refl, ◌↔◌, List, length, replicate, ok}
use ocean_os.Gdt.{GdtEntry, Gdtr, init_gdt}
use ocean_os.Gdt.Segments.{init_gdt-limit}

abbrev null_entry : GdtEntry
null_entry = record {
  limit_low = 0;
  base_low = 0;
  base_middle = 0;
  access = 0;
  granularity = 0;
  base_high = 0;
}

abbrev empty_table : List GdtEntry
empty_table = replicate 5 null_entry

init_gdt-limit_example :
    (table : List GdtEntry) × (gdtr : Gdtr) × (init_gdt 0xC0101000 empty_table ≡ ok (table, gdtr))
    × (length table ≡ 5)
    × (gdtr.base ≡ 0xC0101000)
    × ((8 * 3 + 7 ≤ gdtr.limit) ↔ (3 < 3))
init_gdt-limit_example = init_gdt-limit 0xC0101000 3 empty_table refl
