-- ===== src/Heap/Shrink.antt =====
-- The loop of `_free_memory`.
use native.Mathlib.Decide.{ℕ_discrete}
use ocean_os.Base.{
  ℕ, zero, suc, ◌+◌, ◌-◌, ◌*◌, ◌/◌, ◌%◌, ◌^◌, ◌≤◌, ◌<◌, bit_and, ◌≡◌, refl, ◌⊎◌, inl, inr, true,
  false, some, arith, leb, ◌==◌, Bool-cases, no_unused_memory, ok, panic,
}
use ocean_os.Pages.{page_size, page_max_size, free_page, update}
use ocean_os.Paging.{Vm, page_mask, unmap, get_mapping}
use ocean_os.Paging.Laws.{entry, get_mapping-entry}
use ocean_os.Heap.{release_page, shrink}

unmap-pages : (pgd va : ℕ) (vm : Vm) → (unmap pgd va vm).pages ≡ vm.pages
unfolding unmap
unmap-pages pgd va vm = ground arith

-- `get_mapping` sets its output exactly when it answers 1.
found-absent :
    (pgd va page : ℕ) (vm : Vm)
    → (get_mapping pgd va (some page) vm).0 ≡ 0
    → (get_mapping pgd va (some page) vm).1 ≡ some page
found-absent pgd va page vm absent = elim (Bool-cases (entry pgd vm va == 0)) [
  | inl no_entry ↦ rw (get_mapping-entry pgd va page vm, no_entry) refl
  | inr there ↦ absurd (ground (arith, get_mapping-entry pgd va page vm))
]

found-some :
    (pgd va page : ℕ) (vm : Vm) → (page' : ℕ) × ((get_mapping pgd va (some page) vm).1 ≡ some page')
found-some pgd va page vm = elim (Bool-cases (entry pgd vm va == 0)) [
  | inl no_entry ↦ (page, rw (get_mapping-entry pgd va page vm, no_entry) refl)
  | inr there ↦
      (bit_and (entry pgd vm va) page_mask, rw (get_mapping-entry pgd va page vm, there) refl)
]

release_page-free :
    (pgd page page' mm_top : ℕ) (vm : Vm)
    → (get_mapping pgd mm_top (some page) vm).1 ≡ some page'
    → vm.pages.top ≤ page_max_size
    → ((vm' : Vm) × (release_page pgd page mm_top vm ≡ ok vm')
        × (vm'.pages.slots vm'.pages.top ≡ page')
        × (vm'.pages.top ≡ vm.pages.top + 1)
        × (vm'.pages.top ≤ page_max_size))
      ⊎ ((vm.pages.top ≡ page_max_size)
          × (release_page pgd page mm_top vm ≡ panic no_unused_memory))
unfolding release_page free_page
release_page-free pgd page page' mm_top vm found bound =
    elim (ℕ_discrete vm.pages.top page_max_size) [
      | yes full ↦ inr (full, rw (release_page, found, unmap-pages pgd mm_top vm, full) refl)
      | no space ↦
          let room : (vm.pages.top == page_max_size) ≡ false = ground arith in
          let room' : leb (vm.pages.top + 1) page_max_size ≡ true = ground arith in
          let same : (vm.pages.top + 1 == vm.pages.top + 1) ≡ true = ground arith in
          inl (
            record {
              pages = record {
                slots = update vm.pages.slots (vm.pages.top + 1) page';
                top = vm.pages.top + 1;
              };
              mem = (unmap pgd mm_top vm).mem;
            },
            rw (release_page, found, unmap-pages pgd mm_top vm, room, room') refl,
            rw same refl,
            refl,
            omega arith,
          )
    ]

-- When no page is mapped at `mm_top`, and the page stack is not full, then one round of
-- `_free_memory` pushes what the uninitialised variable `page` holds on the page stack.
pub release_page-stray :
    (pgd page mm_top : ℕ) (vm : Vm)
    → (get_mapping pgd mm_top (some page) vm).0 ≡ 0
    → vm.pages.top < page_max_size
    → (vm' : Vm) × (release_page pgd page mm_top vm ≡ ok vm')
      × (vm'.pages.slots vm'.pages.top ≡ page)
      × (vm'.pages.top ≡ vm.pages.top + 1)
release_page-stray pgd page mm_top vm absent room =
    elim (release_page-free pgd page page mm_top vm (found-absent pgd mm_top page vm absent)
      (omega arith)) [
        | inl (vm', e, pushed, top, bound) ↦ (vm', e, pushed, top)
        | inr (full, fails) ↦ absurd (omega arith)
      ]

-- For a header in the upper part of the memory and at or below `mm_top`, the loop of `_free_memory`
-- ends, given as many rounds as there are pages. `mm_top` is then at the header or less than a
-- page above it, and one word was pushed on the page stack for each page that it moved down, which
-- had room for them. Otherwise the page stack has no room for a word for each page between, and
-- `free_page` panics.
pub shrink-ends :
    (fuel node pgd : ℕ) (page : ℕ → ℕ) (mm_top : ℕ) (vm : Vm)
    → vm.pages.top ≤ page_max_size
    → page_size ≤ node
    → node ≤ mm_top
    → mm_top < 2 ^ 32
    → mm_top < node + page_size * fuel
    → ((top' : ℕ) × (vm' : Vm) × (shrink fuel node pgd page mm_top vm ≡ ok (top', vm'))
        × (node ≤ top')
        × (top' < node + page_size)
        × (top' ≤ mm_top)
        × (vm'.pages.top ≡ vm.pages.top + (mm_top - top') / page_size)
        × (vm'.pages.top ≤ page_max_size))
      ⊎ ((shrink fuel node pgd page mm_top vm ≡ panic no_unused_memory)
          × (page_max_size < vm.pages.top + (mm_top - node) / page_size))
unfolding shrink
shrink-ends zero node pgd page mm_top vm bound high above small enough = absurd (omega arith)
shrink-ends (suc fuel) node pgd page mm_top vm bound high above small enough =
    let lower : (mm_top + 2 ^ 32 - page_size) % 2 ^ 32 ≡ mm_top - page_size = omega arith in
    elim (Bool-cases (leb node (mm_top - page_size))) [
      | inr done ↦
          inl (
            mm_top,
            vm,
            rw (lower, done) refl,
            above,
            ground arith,
            omega arith,
            omega arith,
            bound,
          )
      | inl more ↦
          let again : node ≤ mm_top - page_size = ground arith in
          let (page', found) = found-some pgd mm_top (page mm_top) vm in
          elim (release_page-free pgd (page mm_top) page' mm_top vm found bound) [
            | inr (full, fails) ↦ inr (rw (lower, more, fails) refl, omega arith)
            | inl (vm', e, pushed, top, bound') ↦
                rw (lower, more, e)
                  (elim (shrink-ends fuel node pgd page (mm_top - page_size) vm' bound' high again
                    (omega arith) (omega arith)) [
                      | inl (top', vm'', ends, from, to, under, count, room) ↦
                          inl (top', vm'', ends, from, to, omega arith, omega arith, room)
                      | inr (fails, over) ↦ inr (fails, omega arith)
                    ])
          ]
    ]
