-- ===== src/Start/Tables.antt =====
-- How the processor translates addresses with the tables of `init_kernel`.
use ocean_os.Base.{
  ℕ, ◌+◌, ◌*◌, ◌/◌, ◌%◌, ◌^◌, ◌<◌, bit_or, ◌≡◌, refl, ap, ◌∙◌, false, ◌||◌, Option, none, some,
  arith, ◌==◌, if◌then◌else◌,
}
use ocean_os.Base.Bits.{bit_or-three}
use ocean_os.Pages.{update}
use ocean_os.Paging.{word_at, page_present, page_write}
use ocean_os.Paging.Boot.{table_entry, fill_tables, fill_tables-other, fill_tables-at}
use ocean_os.Start.{EarlyState, init_kernel}

-- The walk of the processor through a directory and a table: `none` is a page fault.
abbrev pub translate : ℕ → (ℕ → ℕ) → ℕ → Option ℕ
translate cr3 mem va =
    let pde = mem (cr3 + 4 * (va / 2 ^ 22)) in
    let pte = mem (4096 * (pde / 4096) + 4 * (va / 2 ^ 12 % 1024)) in
    if (pde % 2 == 0) || (pte % 2 == 0) then none else some (4096 * (pte / 4096) + va % 4096)

translate-at :
    (cr3 : ℕ) (mem : ℕ → ℕ) (va d table q : ℕ)
    → cr3 + 4 * (va / 2 ^ 22) ≡ d
    → mem d ≡ table + 3
    → table % 4096 ≡ 0
    → va / 2 ^ 12 % 1024 ≡ q
    → mem (table + 4 * q) ≡ 4096 * q + 3
    → translate cr3 mem va ≡ some (4096 * q + va % 4096)
translate-at cr3 mem va d table q at_d pde aligned at_q pte =
    let base : 4096 * ((table + 3) / 4096) ≡ table = omega arith in
    let present : ((table + 3) % 2 == 0) ≡ false = ground arith in
    let present' : ((4096 * q + 3) % 2 == 0) ≡ false = ground arith in
    let frame : (4096 * q + 3) / 4096 ≡ q = omega arith in
    rw (at_d, pde, base, at_q, pte, present, present', frame) refl

table_entry_lem : (q : ℕ) → q < 1024 → table_entry q ≡ 4096 * q + 3
table_entry_lem q low =
    let wrap : q * 2 ^ 12 % 2 ^ 32 ≡ 4096 * q = omega arith in
    ap (λ b. bit_or (bit_or b page_present) page_write) wrap ∙ bit_or-three (4096 * q) (omega arith)

module _ (kern_stack mboot_ptr_tmp cr0 : ℕ) (mem : ℕ → ℕ) where
  abbrev pub early : EarlyState
  early = init_kernel kern_stack mboot_ptr_tmp cr0 mem

  -- The two words of the directory.
  dir_words : (early.mem 0x1000 ≡ 0x2003) × (early.mem 0x1C00 ≡ 0x3003)
  unfolding init_kernel word_at
  dir_words =
      let dir = update (update mem 0x1000 0x2003) 0x1C00 0x3003 in
      let low = fill_tables 0x2000 1024 0 dir in
      (
        fill_tables-other 0x3000 1024 0 0x1000 low (λ k from to. omega arith)
            ∙ fill_tables-other 0x2000 1024 0 0x1000 dir (λ k from to. omega arith),
        fill_tables-other 0x3000 1024 0 0x1C00 low (λ k from to. omega arith)
            ∙ fill_tables-other 0x2000 1024 0 0x1C00 dir (λ k from to. omega arith),
      )

  table_words :
      (q : ℕ)
      → q < 1024
      → (early.mem (0x2000 + 4 * q) ≡ 4096 * q + 3) × (early.mem (0x3000 + 4 * q) ≡ 4096 * q + 3)
  unfolding init_kernel word_at
  table_words q small =
      let dir = update (update mem 0x1000 0x2003) 0x1C00 0x3003 in
      let low = fill_tables 0x2000 1024 0 dir in
      let at_low : word_at 0x2000 q ≡ 0x2000 + 4 * q = omega arith in
      let at_high : word_at 0x3000 q ≡ 0x3000 + 4 * q = omega arith in
      (
        fill_tables-other 0x3000 1024 0 (0x2000 + 4 * q) low (λ k from to. omega arith)
            ∙ rw at_low at
                (fill_tables-at 0x2000 1024 0 q dir (omega arith) (omega arith) (omega arith))
            ∙ table_entry_lem q small,
        rw at_high at (fill_tables-at 0x3000 1024 0 q low (omega arith) (omega arith) (omega arith))
            ∙ table_entry_lem q small,
      )

  cr3-early : early.cr3 ≡ 0x1000
  unfolding init_kernel
  cr3-early = refl

  -- When `init_kernel` switches paging on, the processor translates each of the first four
  -- megabytes of addresses to itself, and the four megabytes from PAGE_OFFSET on to the same memory.
  pub init_kernel-translates :
      (va : ℕ)
      → va < 0x400000
      → (translate early.cr3 early.mem va ≡ some va)
        × (translate early.cr3 early.mem (0xC0000000 + va) ≡ some va)
  init_kernel-translates va small =
      let q = va / 4096 in
      let (low, high) = table_words q (omega arith) in
      let (self, kernel) = dir_words in
      let offset : 4096 * q + va % 4096 ≡ va = omega arith in
      let offset' : 4096 * q + (0xC0000000 + va) % 4096 ≡ va = omega arith in
      (
        rw cr3-early (
              translate-at 0x1000 early.mem va 0x1000 0x2000 q (omega arith) self refl (omega arith)
                low)
            ∙ ap some offset,
        rw cr3-early (
              translate-at 0x1000 early.mem (0xC0000000 + va) 0x1C00 0x3000 q (omega arith) kernel
                refl (omega arith) high)
            ∙ ap some offset',
      )

-- `init_kernel` leaves the pointer to the loader's information as it was, a physical address: adding
-- PAGE_OFFSET to a pointer to records of 96 bytes adds a multiple of 2^32.
pub init_kernel-glb_mboot_ptr :
    (kern_stack mboot_ptr_tmp cr0 : ℕ) (mem : ℕ → ℕ)
    → (init_kernel kern_stack mboot_ptr_tmp cr0 mem).glb_mboot_ptr ≡ mboot_ptr_tmp % 2 ^ 32
unfolding init_kernel
init_kernel-glb_mboot_ptr kern_stack mboot_ptr_tmp cr0 mem = omega arith
