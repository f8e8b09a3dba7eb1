-- ===== src/Elf/Lookup.antt =====
-- The search of the symbol table, `elf_lookup_symbol` of src/elf.c.
use native.Mathlib.Decide.{ℕ_discrete}
use ocean_os.Base.{
  ℕ, zero, suc, ◌+◌, ◌/◌, ◌%◌, ◌^◌, ◌≤◌, ◌<◌, bit_and, ◌≡◌, refl, ◌⊎◌, inl, inr, ◌&&◌, not, arith,
  ltb, leb, ◌==◌, Bool-cases,
}
use ocean_os.Base.Bits.{bit_and-f}
use ocean_os.Elf.{Symbol, Elf, lookup_from, elf_lookup_symbol}

-- The symbol is a function with `addr` among its addresses.
pub record IsAt (addr : ℕ) (s : Symbol) : Type 0 where
  pub function : s.info % 16 ≡ 2
  pub from : s.value ≤ addr
  pub to : addr < (s.value + s.size) % 2 ^ 32

-- The first of the symbols from `i` to `n` that has `addr`, or none.
abbrev pub FindsFirst : ℕ → (ℕ → Symbol) → ℕ → ℕ → ℕ → ℕ → Type 0
FindsFirst strtab symtab addr i n r =
    ((k : ℕ) × (i ≤ k)
      × (k < n)
      × IsAt addr (symtab k)
      × ((j : ℕ) → i ≤ j → j < k → ¬ IsAt addr (symtab j))
      × (r ≡ (strtab + (symtab k).name) % 2 ^ 32))
    ⊎ (((j : ℕ) → i ≤ j → j < n → ¬ IsAt addr (symtab j)) × (r ≡ 0))

skips :
    (strtab : ℕ) (symtab : ℕ → Symbol) (addr i n r : ℕ)
    → ¬ IsAt addr (symtab i)
    → FindsFirst strtab symtab addr (i + 1) n r
    → FindsFirst strtab symtab addr i n r
skips strtab symtab addr i n r other (inl (k, from, to, at, before, e)) =
    inl (k, omega arith, to, at, (λ j low high. earlier j low high), e)
  where
    earlier : (j : ℕ) → i ≤ j → j < k → ¬ IsAt addr (symtab j)
    earlier j low high = elim (ℕ_discrete j i) [
      | yes same ↦ rw same other
      | no later ↦ before j (omega arith) high
    ]
skips strtab symtab addr i n r other (inr (nowhere, e)) = inr (none_at, e)
  where
    none_at : (j : ℕ) → i ≤ j → j < n → ¬ IsAt addr (symtab j)
    none_at j low high = elim (ℕ_discrete j i) [
      | yes same ↦ rw same other
      | no later ↦ nowhere j (omega arith) high
    ]

lookup_from-FindsFirst :
    (strtab : ℕ) (symtab : ℕ → Symbol) (addr i n : ℕ)
    → FindsFirst strtab symtab addr i (i + n) (lookup_from strtab symtab addr i n)
unfolding lookup_from
lookup_from-FindsFirst strtab symtab addr i zero = inr ((λ j from to. absurd (omega arith)), refl)
lookup_from-FindsFirst strtab symtab addr i (suc n) =
    let s = symtab i in
    let mask = bit_and-f s.info in
    let length : i + 1 + n ≡ i + suc n = omega arith in
    let later : FindsFirst strtab symtab addr (i + 1) (i + suc n)
        (lookup_from strtab symtab addr (i + 1) n) =
      rw length at (lookup_from-FindsFirst strtab symtab addr (i + 1) n) in
    elim (Bool-cases (not (bit_and s.info 0x0F == 2))) [
      | inl other ↦ rw other (
          skips strtab symtab addr i (i + suc n) (lookup_from strtab symtab addr (i + 1) n)
            (λ at. ground (arith, at.function)) later)
      | inr function ↦
          elim (Bool-cases (leb s.value addr && ltb addr ((s.value + s.size) % 2 ^ 32))) [
            | inr outside ↦
                rw (function, outside)
                  (skips strtab symtab addr i (i + suc n) (lookup_from strtab symtab addr (i + 1) n)
                    (λ at. ground (arith, at.from, at.to)) later)
            | inl inside ↦
                rw (function, inside)
                  (inl (
                    i,
                    omega arith,
                    omega arith,
                    record { function = ground arith; from = ground arith; to = ground arith },
                    (λ j low high. absurd (omega arith)),
                    refl,
                  ))
          ]
    ]

-- `elf_lookup_symbol` answers with the address of the name of the first symbol that is a function
-- with the address between its start and its end, and with the null pointer when there is none.
pub elf_lookup_symbol-FindsFirst :
    (symbols : ℕ → ℕ → Symbol) (addr : ℕ) (elf : Elf)
    → FindsFirst elf.strtab
        (symbols elf.symtab)
        addr
        0
        (elf.symtabsz / 16)
        (elf_lookup_symbol symbols addr elf)
unfolding elf_lookup_symbol
elf_lookup_symbol-FindsFirst symbols addr elf =
    let count : 0 + elf.symtabsz / 16 ≡ elf.symtabsz / 16 = omega arith in
    rw count at (lookup_from-FindsFirst elf.strtab (symbols elf.symtab) addr 0 (elf.symtabsz / 16))
