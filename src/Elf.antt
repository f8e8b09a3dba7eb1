-- ===== src/Elf.antt =====
-- The symbols of the kernel's image, src/elf.c and include/elf.h, with the fields of `multiboot_t`
-- that it reads. `sections`, `symbols` and `strings` are the memory: the section or symbol at an
-- index of the table at an address, and the bytes from an address on.
pub mod Lookup
pub mod Tables
pub mod Examples
use ocean_os.Base.{
  ℕ, zero, suc, ◌+◌, ◌/◌, ◌%◌, ◌^◌, bit_and, Bool, false, ◌&&◌, not, List, ltb, leb, ◌==◌,
  if◌then◌else◌, Result, ok, ◌>>=◌,
}
use ocean_os.Base.Int.{ℤ, pos, negsuc}
use ocean_os.Base.Text.{c_string}
use ocean_os.Strings.{strcmp}
use ocean_os.Paging.{page_offset}

pub record Multiboot : Type 0 where
  pub num : ℕ
  pub addr : ℕ
  pub shndx : ℕ

-- The fields of a section header, and of a symbol, in their order in memory.
pub record SectionHeader : Type 0 where
  pub name : ℕ
  pub type : ℕ
  pub flags : ℕ
  pub addr : ℕ
  pub offset : ℕ
  pub size : ℕ
  pub link : ℕ
  pub info : ℕ
  pub addralign : ℕ
  pub entsize : ℕ

pub record Symbol : Type 0 where
  pub name : ℕ
  pub value : ℕ
  pub size : ℕ
  pub info : ℕ
  pub other : ℕ
  pub shndx : ℕ

pub record Elf : Type 0 where
  pub symtab : ℕ
  pub symtabsz : ℕ
  pub strtab : ℕ
  pub strtabsz : ℕ

-- ELF32_ST_TYPE.
abbrev pub st_type : ℕ → ℕ
st_type i = bit_and i 0x0F

-- `strcmp(…) == 0`.
unfoldable pub is_equal : Result ℤ → Result Bool
is_equal r = r >>= λ z. elim z [ pos n ↦ ok (n == 0) | negsuc n ↦ ok false ]

abbrev pub section_name : (ℕ → List ℕ) → ℕ → SectionHeader → List ℕ
section_name strings shstrtab sh = strings ((shstrtab + sh.name + page_offset) % 2 ^ 32)

-- One round of the loop of `elf_from_multiboot`.
unfoldable pub take_section : (ℕ → List ℕ) → ℕ → SectionHeader → Elf → Result Elf
take_section strings shstrtab sh elf =
    let name = section_name strings shstrtab sh in
    let at = (sh.addr + page_offset) % 2 ^ 32 in
    is_equal (strcmp name (c_string ".strtab")) >>= λ is_strtab.
    let elf' = if is_strtab then record elf { strtab = at; strtabsz = sh.size } else elf in
    is_equal (strcmp name (c_string ".symtab")) >>= λ is_symtab.
    ok (if is_symtab then record elf' { symtab = at; symtabsz = sh.size } else elf')

-- The rounds that are left, from the `i`-th section on.
unfoldable pub take_sections : (ℕ → List ℕ) → ℕ → (ℕ → SectionHeader) → ℕ → ℕ → Elf → Result Elf
take_sections strings shstrtab sh i zero elf = ok elf
take_sections strings shstrtab sh i (suc n) elf =
    take_section strings shstrtab (sh i) elf >>= take_sections strings shstrtab sh (i + 1) n

-- `elf` is what the variable of this name holds before, since the source does not set it.
unfoldable pub elf_from_multiboot :
    (ℕ → List ℕ) → (ℕ → ℕ → SectionHeader) → Multiboot → Elf → Result Elf
elf_from_multiboot strings sections mb elf =
    let sh = sections mb.addr in take_sections strings (sh mb.shndx).addr sh 0 mb.num elf

-- `sizeof(elf_symbol_t)`.
abbrev pub symbol_size : ℕ
symbol_size = 16

-- The loop of `elf_lookup_symbol` with the rounds that are left, from the `i`-th symbol on.
unfoldable pub lookup_from : ℕ → (ℕ → Symbol) → ℕ → ℕ → ℕ → ℕ
lookup_from strtab symtab addr i zero = 0
lookup_from strtab symtab addr i (suc n) =
    let s = symtab i in
    let rest = lookup_from strtab symtab addr (i + 1) n in
    if not (st_type s.info == 0x2)
    then rest
    else if leb s.value addr && ltb addr ((s.value + s.size) % 2 ^ 32)
    then (strtab + s.name) % 2 ^ 32
    else rest

unfoldable pub elf_lookup_symbol : (ℕ → ℕ → Symbol) → ℕ → Elf → ℕ
elf_lookup_symbol symbols addr elf =
    lookup_from elf.strtab (symbols elf.symtab) addr 0 (elf.symtabsz / symbol_size)
