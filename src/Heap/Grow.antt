-- ===== src/Heap/Grow.antt =====
-- The loop of `kmalloc` that moves `mm_top` up, one page a round.
use native.Mathlib.Decide.{ℕ_discrete}
use ocean_os.Base.{
  ℕ, zero, suc, ◌+◌, ◌-◌, ◌*◌, ◌%◌, ◌^◌, ◌≤◌, ◌<◌, ◌≡◌, refl, ◌⊎◌, inl, inr, some, arith, ltb,
  Bool-cases, out_of_memory, ok, panic,
}
use ocean_os.Pages.{page_size, alloc_page}
use ocean_os.Paging.{Vm, get_mapping}
use ocean_os.Paging.Tables.{IsWf}
use ocean_os.Paging.Laws.{get_mapping-map}
use ocean_os.Heap.{back_page, grow}

-- Every address from `low` up to `high` has a page.
abbrev pub Backed : ℕ → ℕ → ℕ → Vm → Type 0
Backed pgd low high vm =
    (va old : ℕ) → low ≤ va → va < high → (get_mapping pgd va (some old) vm).0 ≡ 1

-- A new `mm_top` that is the end of a page, with pages below it.
pub record IsTop (pgd low mm_top : ℕ) (vm : Vm) : Type 0 where
  pub aligned : mm_top % page_size ≡ 0
  pub small : mm_top < 2 ^ 32
  pub above : low ≤ mm_top
  pub tables : IsWf pgd vm
  pub backed : Backed pgd low mm_top vm

abbrev pub popped : Vm → Vm
popped vm = record vm { pages = record vm.pages { top = vm.pages.top - 1 } }

pub get_mapping-popped :
    (pgd va old : ℕ) (vm : Vm)
    → get_mapping pgd va (some old) (popped vm) ≡ get_mapping pgd va (some old) vm
unfolding get_mapping
get_mapping-popped pgd va old vm = refl

IsWf-popped : (pgd : ℕ) (vm : Vm) → IsWf pgd vm → 0 < vm.pages.top → IsWf pgd (popped vm)
IsWf-popped pgd vm wf some_free = record {
  dir_aligned = wf.dir_aligned;
  dir_end = wf.dir_end;
  words = wf.words;
  frames = wf.frames;
  unshared = wf.unshared;
  top_le = omega (arith, wf.top_le);
  free = λ k low high. wf.free k low (omega arith);
  free_unused = λ k i low high h. wf.free_unused k i low (omega arith) h;
  free_once = λ k l low lt high. wf.free_once k l low lt (omega arith);
}

pub alloc_page-popped :
    (pgd : ℕ) (vm : Vm)
    → IsWf pgd vm
    → ((page : ℕ) × (alloc_page vm.pages ≡ ok (page, (popped vm).pages))
        × (page < 2 ^ 32)
        × IsWf pgd (popped vm))
      ⊎ (alloc_page vm.pages ≡ panic out_of_memory)
unfolding alloc_page
alloc_page-popped pgd vm wf = elim (ℕ_discrete vm.pages.top 0) [
  | yes none_free ↦ inr (ground arith)
  | no some_free ↦
      let frame = wf.free vm.pages.top (omega arith) (omega arith) in
      inl (
        vm.pages.slots vm.pages.top,
        ground (arith, wf.top_le),
        omega (arith, frame.low),
        IsWf-popped pgd vm wf (omega arith),
      )
]

-- One round.
back_page-IsTop :
    (pgd low mm_top : ℕ) (vm : Vm)
    → IsTop pgd low mm_top vm
    → mm_top + page_size < 2 ^ 32
    → ((vm' : Vm) × (back_page pgd mm_top vm ≡ ok vm') × IsTop pgd low (mm_top + page_size) vm')
      ⊎ (back_page pgd mm_top vm ≡ panic out_of_memory)
unfolding back_page
back_page-IsTop pgd low mm_top vm top room = elim (alloc_page-popped pgd vm top.tables) [
  | inr fails ↦ inr (rw fails refl)
  | inl (page, got, small, wf) ↦
      let pos : 0 < 3 = omega arith in
      elim (get_mapping-map pgd mm_top (popped vm) wf top.small page 3 small (omega arith) pos) [
        | inr (absent, none_free, fails) ↦ inr (rw got fails)
        | inl (vm', e, wf', reads) ↦ inl (
          vm',
          rw got e,
          record {
            aligned = omega (arith, top.aligned);
            small = room;
            above = omega (arith, top.above);
            tables = wf';
            backed = λ va old from to. ground (
              arith,
              top.aligned,
              reads va old (omega arith),
              get_mapping-popped pgd va old vm,
              top.backed va old from,
            );
          },
        )
      ]
]

-- The loop ends, at the limit or above it, or without memory.
pub grow-IsTop :
    (fuel limit pgd low mm_top : ℕ) (vm : Vm)
    → IsTop pgd low mm_top vm
    → limit + page_size < 2 ^ 32
    → 0 < fuel
    → limit + page_size ≤ mm_top + page_size * fuel
    → ((top' : ℕ) × (vm' : Vm) × (grow fuel limit pgd mm_top vm ≡ ok (top', vm'))
        × (limit ≤ top')
        × (mm_top ≤ top')
        × IsTop pgd low top' vm')
      ⊎ (grow fuel limit pgd mm_top vm ≡ panic out_of_memory)
unfolding grow
grow-IsTop zero limit pgd low mm_top vm top room pos enough = absurd (omega arith)
grow-IsTop (suc fuel) limit pgd low mm_top vm top room pos enough =
    elim (Bool-cases (ltb mm_top limit)) [
      | inr done ↦ inl (mm_top, vm, rw done refl, ground arith, omega arith, top)
      | inl more ↦
          let below : mm_top < limit = ground arith in
          let next : (mm_top + page_size) % 2 ^ 32 ≡ mm_top + page_size = omega arith in
          elim (back_page-IsTop pgd low mm_top vm top (omega arith)) [
            | inr fails ↦ inr (rw (more, fails) refl)
            | inl (vm', e, top') ↦
                rw (more, e, next)
                  (elim (grow-IsTop fuel limit pgd low (mm_top + page_size) vm' top' room
                    (omega arith) (omega arith)) [
                      | inl (last, vm'', ends, reaches, above, holds) ↦
                          inl (last, vm'', ends, reaches, omega arith, holds)
                      | inr fails ↦ inr fails
                    ])
          ]
    ]
