-- ===== src/Elf/Examples.antt =====
-- Runs over the symbols of an image.
use ocean_os.Base.{
  ℕ, ◌+◌, ◌*◌, ◌%◌, ◌^◌, ◌<◌, ◌≡◌, refl, inl, inr, List, [], ◌∷◌, ◌++◌, ◌==◌, if◌then◌else◌,
  Bool-cases, ok,
}
use ocean_os.Strings.{IsText}
use ocean_os.Paging.{page_offset}
use ocean_os.Elf.{SectionHeader, Symbol, Multiboot, Elf, elf_from_multiboot, elf_lookup_symbol}
use ocean_os.Elf.Lookup.{FindsFirst, elf_lookup_symbol-FindsFirst}
use ocean_os.Elf.Tables.{
  strtab_name, symtab_name, tables, strtab_name-IsText, symtab_name-IsText,
  elf_from_multiboot-tables,
}

-- Sections with the two names in turn.
abbrev section : ℕ → SectionHeader
section i = record {
  name = if i % 2 == 0 then 1 else 9;
  type = 3;
  flags = 0;
  addr = 0x101000 + 0x1000 * i;
  offset = 0;
  size = 160;
  link = 0;
  info = 0;
  addralign = 1;
  entsize = 0;
}

abbrev name_of : ℕ → List ℕ
name_of i = if i % 2 == 0 then strtab_name else symtab_name

abbrev image : ℕ → List ℕ
image a = if a == 0xC0101001 then strtab_name ++ 0 ∷ [] else symtab_name ++ 0 ∷ []

abbrev mb : Multiboot
mb = record { num = 2; addr = 0x10000; shndx = 0 }

abbrev no_tables : Elf
no_tables = record { symtab = 0; symtabsz = 0; strtab = 0; strtabsz = 0 }

elf_from_multiboot-tables_example :
    elf_from_multiboot image (λ a. section) mb no_tables
    ≡ ok (tables image 0x101000 section name_of (λ i. []) 0 2 no_tables)
elf_from_multiboot-tables_example =
    elf_from_multiboot-tables image (λ a. section) mb no_tables name_of (λ i. []) named
  where
    named :
        (i : ℕ)
        → i < 2
        → (image ((0x101000 + (section i).name + page_offset) % 2 ^ 32) ≡ name_of i ++ 0 ∷ [])
          × IsText (name_of i)
    named i low = elim (Bool-cases (i % 2 == 0)) [
      | inl even ↦ rw even (refl, strtab_name-IsText)
      | inr odd ↦ rw odd (refl, symtab_name-IsText)
    ]

-- A variable, and then a function.
abbrev symbol : ℕ → Symbol
symbol i = record {
  name = 7 * i;
  value = 0xC0100000;
  size = 0x40;
  info = if i == 0 then 1 else 2;
  other = 0;
  shndx = 1;
}

abbrev two_symbols : Elf
two_symbols = record { symtab = 0xC0102000; symtabsz = 32; strtab = 0xC0101000; strtabsz = 160 }

elf_lookup_symbol-FindsFirst_example :
    FindsFirst 0xC0101000 symbol 0xC0100010 0 2
      (elf_lookup_symbol (λ a. symbol) 0xC0100010 two_symbols)
elf_lookup_symbol-FindsFirst_example =
    elf_lookup_symbol-FindsFirst (λ a. symbol) 0xC0100010 two_symbols
