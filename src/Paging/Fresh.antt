-- ===== src/Paging/Fresh.antt =====
-- The tables that `init_vmm` of src/memory.c leaves are well-formed, with the pages that `init_page`
-- has freed.
use native.Mathlib.Decide.{dec_lt, ℕ_discrete}
use ocean_os.Base.{
  ℕ, zero, suc, ◌+◌, ◌-◌, ◌*◌, ◌%◌, ◌^◌, ◌≤◌, ◌<◌, ◌≡◌, sym, ap, ◌∙◌, ◌≢◌, ◌⊎◌, inl, inr, List, [],
  ◌∷◌, arith, length,
}
use ocean_os.Base.Bits.{bit_or-three}
use ocean_os.Pages.{PageStack, page_size, page_max_size, update}
use ocean_os.Pages.Stack.{stacked, free_pages, length-stacked}
use ocean_os.Pages.Boot.{push_run, push_run-last}
use ocean_os.Paging.{page_offset, word_at, table_of, table}
use ocean_os.Paging.Boot.{
  IsPlaced, init_vmm, fill_dir, fill_tables, dir_entry, table_entry, pte_count, pte_size,
  kern_pte_first_idx, booted, dir_filled, table-booted, fill_dir-other, fill_tables-other,
}
use ocean_os.Paging.Tables.{IsWf, table_of_lem}
use ocean_os.Trap.{Trap}

-- The slots of a stack of pages in a row.
pub length-push_run : (n p : ℕ) (ps : List ℕ) → length (push_run n p ps) ≡ n + length ps
unfolding push_run
length-push_run zero p ps = omega arith
length-push_run (suc n) p ps = omega (arith, length-push_run n (p + page_size) (p ∷ ps))

slots-push_run :
    (slots : ℕ → ℕ) (n p k : ℕ)
    → stacked slots n ≡ push_run n p []
    → 0 < k
    → k ≤ n
    → slots k ≡ p + (k - 1) * page_size
unfolding stacked
slots-push_run slots zero p k e low high = absurd (omega arith)
slots-push_run slots (suc n) p k e low high =
    let split = e ∙ push_run-last n p [] in
    elim (ℕ_discrete k (suc n)) [
      | yes last ↦
          let here : slots (suc n) ≡ p + n * page_size = cc in
          let one : k - 1 ≡ n = omega arith in
          ap slots last ∙ here ∙ ap (λ m. p + m * page_size) (sym one)
      | no before ↦ slots-push_run slots n p k (cc) low (omega arith)
    ]

-- Every word fits its 32 bits.
abbrev pub AreWords : (ℕ → ℕ) → Type 0
AreWords mem = (a : ℕ) → mem a < 2 ^ 32

update-AreWords : (mem : ℕ → ℕ) (at v : ℕ) → AreWords mem → v < 2 ^ 32 → AreWords (update mem at v)
update-AreWords mem at v words small a = ground (arith, words a)

fill_dir-AreWords :
    (pgd pte n i j : ℕ) (mem : ℕ → ℕ)
    → pte % page_size ≡ 0
    → AreWords mem
    → AreWords (fill_dir pgd pte n i j mem)
unfolding fill_dir
fill_dir-AreWords pgd pte zero i j mem aligned words = words
fill_dir-AreWords pgd pte (suc n) i j mem aligned words =
    let base = (pte + page_size * j + 2 ^ 32 - page_offset) % 2 ^ 32 in
    fill_dir-AreWords pgd pte n (i + 1) (j + 1) (update mem (word_at pgd i) (dir_entry pte j))
      aligned
      (update-AreWords mem (word_at pgd i) (dir_entry pte j) words
        (omega (arith, bit_or-three base (omega arith))))

fill_tables-AreWords :
    (pte n i : ℕ) (mem : ℕ → ℕ) → AreWords mem → AreWords (fill_tables pte n i mem)
unfolding fill_tables
fill_tables-AreWords pte zero i mem words = words
fill_tables-AreWords pte (suc n) i mem words =
    fill_tables-AreWords pte n (i + 1) (update mem (word_at pte i) (table_entry i)) (
      update-AreWords mem (word_at pte i) (table_entry i) words
        (omega (arith, bit_or-three (i * 2 ^ 12 % 2 ^ 32) (omega arith))))

-- The directory has no entry outside of the kernel's part.
abbrev pub IsZeroed : ℕ → (ℕ → ℕ) → Type 0
IsZeroed pgd mem = (i : ℕ) → i < 1024 → (i < 768) ⊎ (896 ≤ i) → mem (word_at pgd i) ≡ 0

-- The directory is empty before, apart from the kernel's part of it, and free pages lie behind the
-- kernel's image, which the directory and the tables are in.
pub record IsFresh (pgd pte first n : ℕ) (mem : ℕ → ℕ) (pages : PageStack) : Type 0 where
  pub placed : IsPlaced pgd pte
  pub words : AreWords mem
  pub zeroed : IsZeroed pgd mem
  pub dir_inside : pgd + page_size ≤ page_offset + first
  pub tables_inside : pte + pte_count * page_size ≤ page_offset + first
  pub aligned : first % page_size ≡ 0
  pub pages_low : 0 < n → first + n * page_size ≤ 0x40000000
  pub in_bounds : pages.top ≤ page_max_size
  pub row : free_pages pages ≡ push_run n first []

module _ {ℓ} {Handler : Type ℓ} (pgd pte first n : ℕ) (page_fault : Handler) (mem : ℕ → ℕ)
    (pages : PageStack) (s : Trap Handler) (fresh : IsFresh pgd pte first n mem pages) where
  abbrev built : ℕ → ℕ
  built = booted pgd pte page_fault mem s fresh.placed

  top_lem : pages.top ≡ n
  top_lem =
      omega (
        arith,
        length-stacked pages.slots pages.top,
        ap length fresh.row,
        length-push_run n first [],
      )

  slot : (k : ℕ) → 0 < k → k ≤ pages.top → pages.slots k ≡ first + (k - 1) * page_size
  slot k low high =
      slots-push_run pages.slots n first k (ap (stacked pages.slots) (sym top_lem) ∙ fresh.row) low
        (omega (arith, top_lem))

  -- The words of the directory: the tables of the kernel's part, and none elsewhere.
  outside_word : (i : ℕ) → i < 1024 → (i < 768) ⊎ (896 ≤ i) → built (word_at pgd i) ≡ 0
  unfolding init_vmm word_at
  outside_word i small out =
      let w = fresh.placed in
      fill_tables-other pte (pte_count * pte_size - 1) 1 (word_at pgd i)
        (dir_filled pgd pte page_fault mem s w)
        (λ k low high. ground (arith, w.apart, w.dir_end, w.tables_end))
      ∙ fill_dir-other pgd pte pte_count kern_pte_first_idx 0 (word_at pgd i) mem
          (λ k low high. ground (arith, w.dir_end))
      ∙ fresh.zeroed i small out

  table-inside :
      (i : ℕ) → 768 ≤ i → i < 896 → table pgd built i ≡ pte + page_size * (i - 768) - page_offset
  table-inside i low high =
      let same : 768 + (i - 768) ≡ i = omega arith in
      ap (table pgd built) (sym same)
      ∙ table-booted pgd pte page_fault mem s fresh.placed (i - 768) (omega arith)

  table-outside : (i : ℕ) → i < 1024 → (i < 768) ⊎ (896 ≤ i) → table pgd built i ≡ 0
  unfolding table
  table-outside i small out =
      ap table_of (outside_word i small out) ∙ omega (arith, table_of_lem 0 (omega arith))

  inside : (i : ℕ) → i < 1024 → table pgd built i ≢ 0 → (768 ≤ i) × (i < 896)
  inside i small present = elim (dec_lt i 768) [
    | yes before ↦ absurd (present (table-outside i small (inl before)))
    | no from ↦ elim (dec_lt i 896) [
      | yes to ↦ (omega arith, to)
      | no behind ↦ absurd (present (table-outside i small (inr (omega arith))))
    ]
  ]

  -- After `init_vmm` the tables are well-formed, and no free page serves in them.
  pub init_vmm-IsWf : IsWf pgd (record { pages = pages; mem = built })
  unfolding init_vmm
  init_vmm-IsWf =
      let w = fresh.placed in
      record {
        dir_aligned = w.dir_aligned;
        dir_end = w.dir_end;
        words =
            fill_tables-AreWords pte (pte_count * pte_size - 1) 1
              (dir_filled pgd pte page_fault mem s w)
              (fill_dir-AreWords pgd pte pte_count kern_pte_first_idx 0 mem w.tables_aligned
                fresh.words);
        frames = λ i small present.
            let (low, high) = inside i small present in
            let at = table-inside i low high in
            record {
              aligned = omega (arith, at, w.tables_aligned, w.tables_low);
              ne_zero = omega (arith, at, w.tables_low);
              low = omega (arith, at, w.tables_end);
              apart = λ e. elim w.apart [
                | inl before ↦ omega (arith, at, e, w.tables_low)
                | inr behind ↦ omega (arith, at, e, w.tables_low)
              ];
            };
        unshared = λ i j small small' other present e.
            let (low, high) = inside i small present in
            let (low', high') = inside j small' (λ absent. present (e ∙ absent)) in
            other
              (omega (arith, table-inside i low high, table-inside j low' high', e, w.tables_low));
        top_le = fresh.in_bounds;
        free = λ k low high.
            let at = slot k low high in
            record {
              aligned = omega (arith, at, fresh.aligned);
              ne_zero = omega (arith, at, fresh.tables_inside, w.tables_low);
              low = omega (arith, at, top_lem, fresh.pages_low (omega (arith, top_lem)));
              apart = λ e. omega (arith, at, e, fresh.dir_inside);
            };
        free_unused = λ k i low high small e. elim (ℕ_discrete (table pgd built i) 0) [
          | yes absent ↦
              omega (arith, slot k low high, e, absent, fresh.tables_inside, w.tables_low)
          | no present ↦
              let (from, to) = inside i small present in
              omega (
                arith,
                slot k low high,
                e,
                table-inside i from to,
                fresh.tables_inside,
                w.tables_low,
              )
        ];
        free_once = λ k l low lt high e.
            omega (arith, slot k low (omega arith), slot l (omega arith) high, e);
      }
