-- ===== src/Paging/Laws.antt =====
-- `map` and `unmap` are an update and a removal in the table of translations that `get_mapping`
-- reads.
use native.Mathlib.Decide.{ℕ_discrete}
use ocean_os.Base.{
  ℕ, ◌-◌, ◌*◌, ◌/◌, ◌^◌, ◌<◌, bit_and, ◌≡◌, ap, ◌∙◌, ◌≢◌, ◌⊎◌, inl, inr, Bool, ◌&&◌, some, arith,
  ◌==◌, if◌then◌else◌, out_of_memory, ok, panic,
}
use ocean_os.Base.Bits.{bit_and-3ff, bit_and-page}
use ocean_os.Pages.{page_size, alloc_page}
use ocean_os.Paging.{
  Vm, page_mask, pte_index, pgd_index, table, page_entry, map, unmap, get_mapping,
}
use ocean_os.Paging.Tables.{IsWf, entry_at, page_entry_lem}
use ocean_os.Paging.Write.{written, entry_at-written, IsWf-written}
use ocean_os.Paging.Link.{link_written, entry_at-linked, IsWf-linked}

abbrev pub same_page : ℕ → ℕ → Bool
same_page va va' = va / page_size == va' / page_size

-- The word that translates an address.
abbrev pub entry : ℕ → Vm → ℕ → ℕ
entry pgd vm va = entry_at pgd vm.mem (pgd_index va) (pte_index va)

index_lt : (x : ℕ) → bit_and x 0x3FF < 1024
index_lt x = omega (arith, bit_and-3ff x)

-- Two addresses have the same indices when they lie in the same page.
same_indices :
    (va va' : ℕ)
    → va < 2 ^ 32
    → va' < 2 ^ 32
    → ((pgd_index va' == pgd_index va) && (pte_index va' == pte_index va)) ≡ same_page va va'
same_indices va va' h h' = ground (
  arith,
  bit_and-3ff (va / 2 ^ 22),
  bit_and-3ff (va' / 2 ^ 22),
  bit_and-3ff (va / 2 ^ 12),
  bit_and-3ff (va' / 2 ^ 12),
)

-- The tables of `vm'` translate as those of `vm` do, but for the page of `va`, which has the word
-- `v`.
abbrev pub Sets : ℕ → Vm → ℕ → ℕ → Vm → Type 0
Sets pgd vm va v vm' =
    (va' : ℕ)
    → va' < 2 ^ 32
    → entry pgd vm' va' ≡ (if same_page va va' then v else entry pgd vm va')

-- From the two indices to the address.
at_page :
    (pgd va v : ℕ) (vm : Vm) (mem' : ℕ → ℕ)
    → va < 2 ^ 32
    → ((d' t' : ℕ)
        → d' < 1024
        → t' < 1024
        → entry_at pgd mem' d' t'
          ≡ (if (d' == pgd_index va) && (t' == pte_index va) then v else entry_at pgd vm.mem d' t'))
    → (va' : ℕ) → va' < 2 ^ 32
    → entry_at pgd mem' (pgd_index va') (pte_index va')
      ≡ (if same_page va va' then v else entry pgd vm va')
at_page pgd va v vm mem' h sets va' h' =
    sets (pgd_index va') (pte_index va') (index_lt (va' / 2 ^ 22)) (index_lt (va' / 2 ^ 12))
    ∙ ap (λ b. if b then v else entry pgd vm va') (same_indices va va' h h')

absent-Sets :
    (pgd va : ℕ) (vm : Vm) → va < 2 ^ 32 → table pgd vm.mem (pgd_index va) ≡ 0 → Sets pgd vm va 0 vm
unfolding entry_at
absent-Sets pgd va vm h absent va' h' =
    let d : va / page_size ≡ va' / page_size → pgd_index va ≡ pgd_index va' =
      λ e. omega (arith, bit_and-3ff (va / 2 ^ 22), bit_and-3ff (va' / 2 ^ 22)) in
    elim (ℕ_discrete (va / page_size) (va' / page_size)) [
      | yes same ↦ ground (arith, rw (d same) at absent)
      | no other ↦ ground arith
    ]

module _ (pgd va : ℕ) (vm : Vm) (wf : IsWf pgd vm) (h : va < 2 ^ 32) where
  pub map-Sets :
      (pa flags : ℕ)
      → pa < 2 ^ 32
      → flags < page_size
      → ((vm' : Vm) × (map pgd va pa flags vm ≡ ok vm')
          × IsWf pgd vm'
          × Sets pgd vm va (page_entry pa flags) vm')
        ⊎ ((table pgd vm.mem (pgd_index va) ≡ 0)
            × (vm.pages.top ≡ 0)
            × (map pgd va pa flags vm ≡ panic out_of_memory))
  unfolding map alloc_page
  map-Sets pa flags hp hf =
      let d = pgd_index va in
      let t = pte_index va in
      let v = page_entry pa flags in
      let hd = index_lt (va / 2 ^ 22) in
      let ht = index_lt (va / 2 ^ 12) in
      let small : v < 2 ^ 32 = omega (arith, page_entry_lem pa flags hp hf) in
      elim (ℕ_discrete (table pgd vm.mem d) 0) [
        | no present ↦ inl (
          record vm { mem = written pgd vm wf d t v hd ht present },
          ground arith,
          IsWf-written pgd vm wf d t v hd ht present small,
          at_page pgd va v vm (written pgd vm wf d t v hd ht present) h
              (entry_at-written pgd vm wf d t v hd ht present),
        )
        | yes absent ↦ elim (ℕ_discrete vm.pages.top 0) [
          | yes none_free ↦ inr (absent, none_free, ground arith)
          | no some_free ↦ inl (
              let free : 0 < vm.pages.top = omega arith in
              (
                record {
                  pages = record vm.pages { top = vm.pages.top - 1 };
                  mem = link_written pgd vm wf d t v hd ht absent free;
                },
                ground (arith, wf.top_le),
                IsWf-linked pgd vm wf d t v hd ht absent free small,
                at_page pgd va v vm (link_written pgd vm wf d t v hd ht absent free) h
                    (entry_at-linked pgd vm wf d t v hd ht absent free),
              ))
        ]
      ]

  unmap-absent : table pgd vm.mem (pgd_index va) ≡ 0 → unmap pgd va vm ≡ vm
  unfolding unmap
  unmap-absent absent = ground arith

  unmap-present :
      (present : table pgd vm.mem (pgd_index va) ≢ 0)
      → unmap pgd va vm ≡ record vm {
        mem =
            written pgd vm wf
              (pgd_index va)
              (pte_index va)
              0
              (index_lt (va / 2 ^ 22))
              (index_lt (va / 2 ^ 12))
              present;
      }
  unfolding unmap
  unmap-present present = ground arith

  pub unmap-Sets : IsWf pgd (unmap pgd va vm) × Sets pgd vm va 0 (unmap pgd va vm)
  unmap-Sets =
      let d = pgd_index va in
      let t = pte_index va in
      let hd = index_lt (va / 2 ^ 22) in
      let ht = index_lt (va / 2 ^ 12) in
      elim (ℕ_discrete (table pgd vm.mem d) 0) [
        | yes absent ↦ rw (unmap-absent absent) (wf, absent-Sets pgd va vm h absent)
        | no present ↦ rw (unmap-present present) (
          IsWf-written pgd vm wf d t 0 hd ht present (omega arith),
          at_page pgd va 0 vm (written pgd vm wf d t 0 hd ht present) h
              (entry_at-written pgd vm wf d t 0 hd ht present),
        )
      ]

-- What `get_mapping` answers, by the word that translates the address.
pub get_mapping-entry :
    (pgd va old : ℕ) (vm : Vm)
    → get_mapping pgd va (some old) vm ≡ (
        if entry pgd vm va == 0
        then (0, some old)
        else (1, some (bit_and (entry pgd vm va) page_mask)))
unfolding get_mapping entry_at
get_mapping-entry pgd va old vm = ground arith

module _ (pgd va : ℕ) (vm : Vm) (wf : IsWf pgd vm) (h : va < 2 ^ 32) where
  -- When `map` of a 32-bit address to a page with nonzero flags below the page size succeeds on
  -- well-formed tables, then `get_mapping` finds exactly that page for the addresses of the same
  -- page, and answers as before for all others. `map` keeps the tables well-formed, and it fails,
  -- by the panic of `alloc_page`, exactly when a page table is missing and no page is free.
  pub get_mapping-map :
      (pa flags : ℕ)
      → pa < 2 ^ 32
      → flags < page_size
      → 0 < flags
      → ((vm' : Vm) × (map pgd va pa flags vm ≡ ok vm')
          × IsWf pgd vm'
          × ((va' old : ℕ)
              → va' < 2 ^ 32
              → get_mapping pgd va' (some old) vm' ≡ (
                  if same_page va va'
                  then (1, some (4096 * (pa / 4096)))
                  else get_mapping pgd va' (some old) vm)))
        ⊎ ((table pgd vm.mem (pgd_index va) ≡ 0)
            × (vm.pages.top ≡ 0)
            × (map pgd va pa flags vm ≡ panic out_of_memory))
  get_mapping-map pa flags hp hf pos = elim (map-Sets pgd va vm wf h pa flags hp hf) [
    | inr fails ↦ inr fails
    | inl (vm', e, wf', sets) ↦ inl (
      vm',
      e,
      wf',
      λ va' old h'.
          let word = page_entry_lem pa flags hp hf in
          let masked : bit_and (page_entry pa flags) page_mask ≡ 4096 * (pa / 4096) =
            omega (arith, bit_and-page (page_entry pa flags) (omega arith)) in
          ground (
            arith,
            get_mapping-entry pgd va' old vm',
            get_mapping-entry pgd va' old vm,
            sets va' h',
          ),
    )
  ]

  -- After `unmap` of a 32-bit address on well-formed tables, `get_mapping` finds no page for the
  -- addresses of the same page and leaves its output alone there, and answers as before for all
  -- others. `unmap` keeps the tables well-formed.
  pub get_mapping-unmap :
      IsWf pgd (unmap pgd va vm)
      × ((va' old : ℕ)
          → va' < 2 ^ 32
          → get_mapping pgd va' (some old) (unmap pgd va vm)
            ≡ (if same_page va va' then (0, some old) else get_mapping pgd va' (some old) vm))
  get_mapping-unmap =
      let (wf', sets) = unmap-Sets pgd va vm wf h in
      (
        wf',
        λ va' old h'. ground (
          arith,
          get_mapping-entry pgd va' old (unmap pgd va vm),
          get_mapping-entry pgd va' old vm,
          sets va' h',
        ),
      )
