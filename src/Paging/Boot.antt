-- ===== src/Paging/Boot.antt =====
-- The page tables that `init_vmm` of src/memory.c builds: the kernel sees the first 512 megabytes
-- of physical memory PAGE_OFFSET higher.
use native.Mathlib.Decide.{ℕ_discrete}
use ocean_os.Base.{
  ℕ, zero, suc, ◌+◌, ◌-◌, ◌*◌, ◌/◌, ◌%◌, ◌^◌, ◌≤◌, ◌<◌, bit_and, bit_or, ◌≡◌, refl, ap, ◌∙◌, ◌≢◌,
  ◌⊎◌, some, arith,
}
use ocean_os.Base.Bits.{bit_and-3ff, bit_and-page, bit_or-three}
use ocean_os.Pages.{PageStack, page_size, update}
use ocean_os.Paging.{
  page_offset, page_mask, page_present, page_write, word_at, to_virtual, pte_index, pgd_index,
  table_of, table, get_mapping,
}
use ocean_os.Paging.Tables.{entry_at, to_virtual_lem, table_of-linked}
use ocean_os.Trap.{Trap, register_interrupt_handler}
use ocean_os.Paging.Laws.{entry, get_mapping-entry}

abbrev pub pte_count : ℕ
pte_count = 128

abbrev pub pte_size : ℕ
pte_size = 1024

abbrev pub kern_pte_first_idx : ℕ
kern_pte_first_idx = pgd_index page_offset

-- The address of `pte_kern[j]` as a word of the directory.
abbrev pub dir_entry : ℕ → ℕ → ℕ
dir_entry pte_kern j =
    bit_or (bit_or ((pte_kern + page_size * j + 2 ^ 32 - page_offset) % 2 ^ 32) page_present)
      page_write

-- The first loop, with its rounds left and its variables `i` and `j`.
unfoldable pub fill_dir : ℕ → ℕ → ℕ → ℕ → ℕ → (ℕ → ℕ) → ℕ → ℕ
fill_dir pgd pte_kern zero i j mem = mem
fill_dir pgd pte_kern (suc n) i j mem =
    fill_dir pgd pte_kern n (i + 1) (j + 1) (update mem (word_at pgd i) (dir_entry pte_kern j))

abbrev pub table_entry : ℕ → ℕ
table_entry i = bit_or (bit_or (i * 2 ^ 12 % 2 ^ 32) page_present) page_write

-- The second loop, with its rounds left and its variable `i`.
unfoldable pub fill_tables : ℕ → ℕ → ℕ → (ℕ → ℕ) → ℕ → ℕ
fill_tables pte zero i mem = mem
fill_tables pte (suc n) i mem =
    fill_tables pte n (i + 1) (update mem (word_at pte i) (table_entry i))

-- The memory after both, the address that goes to CR3, and the handler of page faults.
unfoldable pub init_vmm {ℓ} :
    {Handler : Type ℓ} → ℕ → ℕ → Handler → (ℕ → ℕ) → Trap Handler → (ℕ → ℕ) × ℕ × Trap Handler
init_vmm pgd_kern pte_kern page_fault mem s = (
  fill_tables pte_kern (pte_count * pte_size - 1) 1
      (fill_dir pgd_kern pte_kern pte_count kern_pte_first_idx 0 mem),
  (pgd_kern + 2 ^ 32 - page_offset) % 2 ^ 32,
  register_interrupt_handler 14 page_fault s,
)

-- A loop leaves the words outside of its range alone.
pub fill_dir-other :
    (pgd pte n i j a : ℕ) (mem : ℕ → ℕ)
    → ((k : ℕ) → i ≤ k → k < i + n → a ≢ word_at pgd k)
    → fill_dir pgd pte n i j mem a ≡ mem a
unfolding fill_dir
fill_dir-other pgd pte zero i j a mem out = refl
fill_dir-other pgd pte (suc n) i j a mem out = ground (
  arith,
  out i (omega arith) (omega arith),
  fill_dir-other pgd pte n (i + 1) (j + 1) a (update mem (word_at pgd i) (dir_entry pte j))
      (λ k low high. out k (omega arith) (omega arith)),
)

pub fill_tables-other :
    (pte n i a : ℕ) (mem : ℕ → ℕ)
    → ((k : ℕ) → i ≤ k → k < i + n → a ≢ word_at pte k)
    → fill_tables pte n i mem a ≡ mem a
unfolding fill_tables
fill_tables-other pte zero i a mem out = refl
fill_tables-other pte (suc n) i a mem out = ground (
  arith,
  out i (omega arith) (omega arith),
  fill_tables-other pte n (i + 1) a (update mem (word_at pte i) (table_entry i))
      (λ k low high. out k (omega arith) (omega arith)),
)

fill_dir-at :
    (pgd pte n i j q r : ℕ) (mem : ℕ → ℕ)
    → pgd + 4 * (i + n) ≤ 2 ^ 32
    → q + j ≡ r + i
    → i ≤ q
    → q < i + n
    → fill_dir pgd pte n i j mem (word_at pgd q) ≡ dir_entry pte r
unfolding fill_dir word_at
fill_dir-at pgd pte zero i j q r mem fits same low high = absurd (omega arith)
fill_dir-at pgd pte (suc n) i j q r mem fits same low high = elim (ℕ_discrete q i) [
  | yes here ↦
      let first : r ≡ j = omega arith in
      rw (here, first)
        (fill_dir-other pgd pte n (i + 1) (j + 1) (word_at pgd i)
            (update mem (word_at pgd i) (dir_entry pte j)) (λ k low high. omega arith)
          ∙ ground arith)
  | no later ↦
      fill_dir-at pgd pte n (i + 1) (j + 1) q r (update mem (word_at pgd i) (dir_entry pte j))
        (omega arith) (omega arith) (omega arith) (omega arith)
]

pub fill_tables-at :
    (pte n i q : ℕ) (mem : ℕ → ℕ)
    → pte + 4 * (i + n) ≤ 2 ^ 32
    → i ≤ q
    → q < i + n
    → fill_tables pte n i mem (word_at pte q) ≡ table_entry q
unfolding fill_tables word_at
fill_tables-at pte zero i q mem fits low high = absurd (omega arith)
fill_tables-at pte (suc n) i q mem fits low high = elim (ℕ_discrete q i) [
  | yes here ↦ rw here (
      fill_tables-other pte n (i + 1) (word_at pte i) (update mem (word_at pte i) (table_entry i))
        (λ k low high. omega arith)
      ∙ ground arith)
  | no later ↦
      fill_tables-at pte n (i + 1) q (update mem (word_at pte i) (table_entry i)) (omega arith)
        (omega arith) (omega arith)
]

-- Where the linker places the directory and the tables: on pages of their own in the part of the
-- kernel's memory that a physical page is seen in.
pub record IsPlaced (pgd pte : ℕ) : Type 0 where
  pub dir_aligned : pgd % page_size ≡ 0
  pub dir_end : pgd + page_size ≤ 2 ^ 32
  pub tables_aligned : pte % page_size ≡ 0
  pub tables_low : page_offset < pte
  pub tables_end : pte + pte_count * page_size ≤ 2 ^ 32
  pub apart : (pgd + page_size ≤ pte) ⊎ (pte + pte_count * page_size ≤ pgd)

module _ {ℓ} {Handler : Type ℓ} (pgd pte : ℕ) (page_fault : Handler) (mem : ℕ → ℕ)
    (s : Trap Handler) (placed : IsPlaced pgd pte) where
  abbrev pub booted : ℕ → ℕ
  booted = (init_vmm pgd pte page_fault mem s).0

  abbrev pub dir_filled : ℕ → ℕ
  dir_filled = fill_dir pgd pte pte_count kern_pte_first_idx 0 mem

  pub table-booted :
      (j : ℕ) → j < pte_count → table pgd booted (768 + j) ≡ pte + page_size * j - page_offset
  unfolding init_vmm table word_at
  table-booted j h =
      let w = placed in
      let kept : booted (word_at pgd (768 + j)) ≡ dir_filled (word_at pgd (768 + j)) =
        fill_tables-other pte (pte_count * pte_size - 1) 1 (word_at pgd (768 + j)) dir_filled
          (λ k low high. ground (arith, w.apart, w.dir_end, w.tables_end)) in
      let base : (pte + page_size * j + 2 ^ 32 - page_offset) % 2 ^ 32
          ≡ pte + page_size * j - page_offset =
        omega (arith, w.tables_low, w.tables_end) in
      ap table_of (
        kept
        ∙ fill_dir-at pgd pte pte_count kern_pte_first_idx 0 (768 + j) j mem
            (omega (arith, w.dir_end)) (omega arith) (omega arith) (omega arith))
      ∙ ap (λ b. table_of (bit_or (bit_or b page_present) page_write)) base
      ∙ table_of-linked (pte + page_size * j - page_offset)
          (omega (arith, w.tables_aligned, w.tables_low)) (omega (arith, w.tables_end))

  word-booted : (q : ℕ) → 0 < q → q < pte_count * pte_size → booted (word_at pte q) ≡ table_entry q
  unfolding init_vmm
  word-booted q pos h =
      fill_tables-at pte (pte_count * pte_size - 1) 1 q dir_filled
        (omega (arith, placed.tables_end)) pos (omega arith)

  -- The word that translates the `q`-th page of the kernel's view.
  entry-booted :
      (pages : PageStack) (q pa : ℕ)
      → q ≡ pa / page_size
      → 0 < q
      → q < pte_count * pte_size
      → entry pgd (record { pages = pages; mem = booted }) (page_offset + pa) ≡ table_entry q
  unfolding entry_at word_at
  entry-booted pages q pa e pos h =
      let w = placed in
      let j = pa / 2 ^ 22 in
      let t = pa / page_size % 1024 in
      let dir : pgd_index (page_offset + pa) ≡ 768 + j =
        omega (arith, bit_and-3ff ((page_offset + pa) / 2 ^ 22)) in
      let row : pte_index (page_offset + pa) ≡ t =
        omega (arith, bit_and-3ff ((page_offset + pa) / 2 ^ 12)) in
      let frame : pte + page_size * j - page_offset < 0x40000000 = omega (arith, w.tables_end) in
      let word : word_at (to_virtual (pte + page_size * j - page_offset)) t ≡ word_at pte q =
        omega (arith, to_virtual_lem (pte + page_size * j - page_offset) frame, w.tables_low) in
      rw (dir, row, table-booted j (omega arith), word, word-booted q pos h)
        (ground (arith, w.tables_low))

  -- After `init_vmm`, `get_mapping` finds for each address of the kernel's view from its second
  -- page up to 512 megabytes the physical page that lies PAGE_OFFSET lower, when the linker has
  -- placed the directory and the tables apart, on pages of the kernel's memory.
  pub get_mapping-init_vmm :
      (pages : PageStack) (pa old : ℕ)
      → page_size ≤ pa
      → pa < 0x20000000
      → get_mapping pgd (page_offset + pa) (some old) (record { pages = pages; mem = booted })
        ≡ (1, some (page_size * (pa / page_size)))
  get_mapping-init_vmm pages pa old low high =
      let q = pa / page_size in
      let wrap : q * 2 ^ 12 % 2 ^ 32 ≡ 4096 * q = omega arith in
      let three = bit_or-three (4096 * q) (omega arith) in
      let value : table_entry q ≡ 4096 * q + 3 =
        ap (λ b. bit_or (bit_or b page_present) page_write) wrap ∙ three in
      let masked : bit_and (4096 * q + 3) page_mask ≡ 4096 * q =
        omega (arith, bit_and-page (4096 * q + 3) (omega arith)) in
      get_mapping-entry pgd (page_offset + pa) old (record { pages = pages; mem = booted })
      ∙ rw (entry-booted pages q pa refl (omega arith) (omega arith), value, masked) (ground arith)
