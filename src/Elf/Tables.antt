-- ===== src/Elf/Tables.antt =====
-- Where `elf_from_multiboot` of src/elf.c finds the two tables.
use native.Mathlib.Decide.{ℕ_discrete}
use ocean_os.Base.{
  ℕ, zero, suc, ◌+◌, ◌%◌, ◌^◌, ◌<◌, ◌≡◌, refl, sym, ◌≢◌, inl, inr, Bool, true, false, ◌&&◌, List,
  [], ◌∷◌, ◌++◌, arith, ◌==◌, if◌then◌else◌, Bool-cases, ok,
}
use ocean_os.Base.Int.{sub_ℕ}
use ocean_os.Base.Text.{c_string}
use ocean_os.Strings.{IsText, strcmp}
use ocean_os.Paging.{page_offset}
use ocean_os.Elf.{
  SectionHeader, Multiboot, Elf, section_name, is_equal, take_section, take_sections,
  elf_from_multiboot,
}

abbrev pub strtab_name : List ℕ
strtab_name = b'.' ∷ b's' ∷ b't' ∷ b'r' ∷ b't' ∷ b'a' ∷ b'b' ∷ []

abbrev pub symtab_name : List ℕ
symtab_name = b'.' ∷ b's' ∷ b'y' ∷ b'm' ∷ b't' ∷ b'a' ∷ b'b' ∷ []

-- The value that belongs to the last `true` from `i` to `n`, or the one from before.
unfoldable pub last_value : (ℕ → Bool) → (ℕ → ℕ) → ℕ → ℕ → ℕ → ℕ
last_value test value i zero old = old
last_value test value i (suc n) old =
    last_value test value (i + 1) n (if test i then value i else old)

abbrev pub same_text : List ℕ → List ℕ → Bool
same_text [] [] = true
same_text [] (d ∷ ds) = false
same_text (c ∷ cs) [] = false
same_text (c ∷ cs) (d ∷ ds) = (c == d) && same_text cs ds

differ : (a b : ℕ) → a ≢ b → is_equal (ok (sub_ℕ a b)) ≡ ok false
unfolding is_equal
differ a b other = ground arith

is_equal-strcmp :
    (cs ds rest rest' : List ℕ)
    → IsText cs
    → IsText ds
    → is_equal (strcmp (cs ++ 0 ∷ rest) (ds ++ 0 ∷ rest')) ≡ ok (same_text cs ds)
unfolding strcmp
is_equal-strcmp [] [] rest rest' text text' = unfold is_equal in refl
is_equal-strcmp [] (d ∷ ds) rest rest' text text' =
    let other : (0 == d) ≡ false = ground (arith, text'.0) in
    rw other (differ 0 d (λ e. text'.0 (sym e)))
is_equal-strcmp (c ∷ cs) [] rest rest' text text' =
    let other : (c == 0) ≡ false = ground (arith, text.0) in rw other (differ c 0 text.0)
is_equal-strcmp (c ∷ cs) (d ∷ ds) rest rest' text text' = elim (ℕ_discrete c d) [
  | no other ↦ let other' : (c == d) ≡ false = ground arith in rw other' (differ c d other)
  | yes same ↦
      let same' : (c == d) ≡ true = ground arith in
      let more : (c == 0) ≡ false = ground (arith, text.0) in
      rw (same', more) (is_equal-strcmp cs ds rest rest' text.1 text'.1)
]

pub strtab_name-IsText : IsText strtab_name
strtab_name-IsText = (
  omega arith,
  (omega arith, (omega arith, (omega arith, (omega arith, (omega arith, (omega arith, tt)))))),
)

pub symtab_name-IsText : IsText symtab_name
symtab_name-IsText = (
  omega arith,
  (omega arith, (omega arith, (omega arith, (omega arith, (omega arith, (omega arith, tt)))))),
)

module _ (strings : ℕ → List ℕ) (shstrtab : ℕ) (sh : ℕ → SectionHeader)
    (names rests : ℕ → List ℕ) where
  -- The names of the first `n` sections are terminated strings.
  abbrev pub Named : ℕ → Type 0
  Named n =
      (i : ℕ)
      → i < n
      → (section_name strings shstrtab (sh i) ≡ names i ++ 0 ∷ rests i) × IsText (names i)

  abbrev pub is_named : List ℕ → ℕ → Bool
  is_named name i = same_text (names i) name

  abbrev pub last_named : List ℕ → (ℕ → ℕ) → ℕ → ℕ → ℕ → ℕ
  last_named name = last_value (is_named name)

  abbrev pub address : ℕ → ℕ
  address i = ((sh i).addr + page_offset) % 2 ^ 32

  take_section_lem :
      (i n : ℕ) (elf : Elf)
      → Named n
      → i < n
      → take_section strings shstrtab (sh i) elf
        ≡ ok (record {
          symtab = if is_named symtab_name i then address i else elf.symtab;
          symtabsz = if is_named symtab_name i then (sh i).size else elf.symtabsz;
          strtab = if is_named strtab_name i then address i else elf.strtab;
          strtabsz = if is_named strtab_name i then (sh i).size else elf.strtabsz;
        })
  unfolding take_section c_string
  take_section_lem i n elf named low =
      let (at, text) = named i low in
      let first = is_equal-strcmp (names i) strtab_name (rests i) [] text strtab_name-IsText in
      let second = is_equal-strcmp (names i) symtab_name (rests i) [] text symtab_name-IsText in
      elim (Bool-cases (is_named strtab_name i)) [
        | inl t ↦ elim (Bool-cases (is_named symtab_name i)) [
          | inl u ↦ rw (at, first, second, t, u) refl
          | inr u ↦ rw (at, first, second, t, u) refl
        ]
        | inr t ↦ elim (Bool-cases (is_named symtab_name i)) [
          | inl u ↦ rw (at, first, second, t, u) refl
          | inr u ↦ rw (at, first, second, t, u) refl
        ]
      ]

  -- What the loop leaves, by the last section of each name.
  abbrev pub tables : ℕ → ℕ → Elf → Elf
  tables i n elf = record {
    symtab = last_named symtab_name address i n elf.symtab;
    symtabsz = last_named symtab_name (λ k. (sh k).size) i n elf.symtabsz;
    strtab = last_named strtab_name address i n elf.strtab;
    strtabsz = last_named strtab_name (λ k. (sh k).size) i n elf.strtabsz;
  }

  take_sections-tables :
      (i n : ℕ) (elf : Elf)
      → Named (i + n)
      → take_sections strings shstrtab sh i n elf ≡ ok (tables i n elf)
  unfolding take_sections last_value
  take_sections-tables i zero elf named = refl
  take_sections-tables i (suc n) elf named =
      let count : i + 1 + n ≡ i + suc n = omega arith in
      rw (take_section_lem i (i + suc n) elf named (omega arith))
        (take_sections-tables (i + 1) n _ (rw count named))

-- When the sections' names are terminated strings, `elf_from_multiboot` returns the address, as the
-- kernel sees it, and the size of the last section that is named ".symtab", and those of the last
-- one that is named ".strtab". Where there is none, the fields keep what they held before.
pub elf_from_multiboot-tables :
    (strings : ℕ → List ℕ) (sections : ℕ → ℕ → SectionHeader) (mb : Multiboot) (elf : Elf)
    (names rests : ℕ → List ℕ)
    → Named strings (sections mb.addr mb.shndx).addr (sections mb.addr) names rests mb.num
    → elf_from_multiboot strings sections mb elf
      ≡ ok (
          tables strings
            (sections mb.addr mb.shndx).addr
            (sections mb.addr)
            names
            rests
            0
            mb.num
            elf)
unfolding elf_from_multiboot
elf_from_multiboot-tables strings sections mb elf names rests named =
    let count : 0 + mb.num ≡ mb.num = omega arith in
    take_sections-tables strings (sections mb.addr mb.shndx).addr (sections mb.addr) names rests 0
      mb.num elf (rw count named)
