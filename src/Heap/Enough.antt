-- ===== src/Heap/Enough.antt =====
-- The loop of `kmalloc` uses at most two pages for each round: one for the address, and one for its
-- table.
use ocean_os.Base.{
  ℕ, zero, suc, ◌+◌, ◌-◌, ◌*◌, ◌/◌, ◌%◌, ◌^◌, ◌≤◌, ◌<◌, ◌≡◌, ap, inl, inr, arith, ltb, leb, ◌==◌,
  Bool-cases, out_of_memory, Result, ok, panic, fault, out_of_fuel, bind-eq-ok, bind-eq-panic,
}
use ocean_os.Pages.{PageStack, page_size, page_max_size, alloc_page}
use ocean_os.Paging.{Vm, map, table, pgd_index}
use ocean_os.Heap.{back_page, grow}

alloc_page-spends :
    (s s' : PageStack) (page : ℕ) → alloc_page s ≡ ok (page, s') → s.top ≡ s'.top + 1
unfolding alloc_page
alloc_page-spends s s' page got = elim (Bool-cases (s.top == 0)) [
  | inl none_free ↦ absurd (cc)
  | inr some_free ↦ elim (Bool-cases (leb s.top page_max_size)) [
    | inl inside ↦
        let rest : record s { top = s.top - 1 } ≡ s' = cc in ground (arith, ap (λ x. x.top) rest)
    | inr outside ↦ absurd (cc)
  ]
]

alloc_page-few : (s : PageStack) → alloc_page s ≡ panic out_of_memory → s.top ≡ 0
unfolding alloc_page
alloc_page-few s failed = elim (Bool-cases (s.top == 0)) [
  | inl none_free ↦ ground arith
  | inr some_free ↦ elim (Bool-cases (leb s.top page_max_size)) [
    | inl inside ↦ absurd (cc)
    | inr outside ↦ absurd (cc)
  ]
]

-- The free pages behind a call that returns.
left_by : Result Vm → ℕ
left_by (ok vm) = vm.pages.top
left_by (panic p) = 0
left_by fault = 0
left_by out_of_fuel = 0

module _ (pgd va pa flags : ℕ) (vm : Vm) where
  map-spends : (vm' : Vm) → map pgd va pa flags vm ≡ ok vm' → vm.pages.top ≤ vm'.pages.top + 1
  unfolding map left_by
  map-spends vm' ran = elim (Bool-cases (table pgd vm.mem (pgd_index va) == 0)) [
    | inl absent ↦
        let ((page, pages), got, rest) = bind-eq-ok (alloc_page vm.pages) _ (rw absent at ran) in
        omega (arith, alloc_page-spends vm.pages pages page got, ap left_by rest)
    | inr present ↦ omega (arith, ap left_by (rw present at ran))
  ]

  map-few : map pgd va pa flags vm ≡ panic out_of_memory → vm.pages.top ≡ 0
  unfolding map
  map-few failed = elim (Bool-cases (table pgd vm.mem (pgd_index va) == 0)) [
    | inl absent ↦ elim (bind-eq-panic (alloc_page vm.pages) _ (rw absent at failed)) [
      | inl none_free ↦ alloc_page-few vm.pages none_free
      | inr (found, got, rest) ↦ absurd (cc)
    ]
    | inr present ↦ let returned = rw present at failed in absurd (cc)
  ]

module _ (pgd mm_top : ℕ) (vm : Vm) where
  back_page-spends :
      (vm' : Vm) → back_page pgd mm_top vm ≡ ok vm' → vm.pages.top ≤ vm'.pages.top + 2
  unfolding back_page
  back_page-spends vm' ran =
      let ((page, pages), got, rest) = bind-eq-ok (alloc_page vm.pages) _ ran in
      omega (
        arith,
        alloc_page-spends vm.pages pages page got,
        map-spends pgd mm_top page _ (record vm { pages = pages }) vm' rest,
      )

  back_page-few : back_page pgd mm_top vm ≡ panic out_of_memory → vm.pages.top < 2
  unfolding back_page
  back_page-few failed = elim (bind-eq-panic (alloc_page vm.pages) _ failed) [
    | inl none_free ↦ omega (arith, alloc_page-few vm.pages none_free)
    | inr ((page, pages), got, rest) ↦ omega (
      arith,
      alloc_page-spends vm.pages pages page got,
      map-few pgd mm_top page _ (record vm { pages = pages }) rest,
    )
  ]

-- The rounds of the loop.
abbrev pub rounds : ℕ → ℕ → ℕ
rounds limit mm_top = (limit + (page_size - 1) - mm_top) / page_size

next_round :
    (limit mm_top : ℕ)
    → mm_top < limit
    → limit + page_size < 2 ^ 32
    → rounds limit mm_top ≡ 1 + rounds limit ((mm_top + page_size) % 2 ^ 32)
next_round limit mm_top below room =
    let next : (mm_top + page_size) % 2 ^ 32 ≡ mm_top + page_size = omega arith in
    rw next (omega arith)

-- The rounds move `mm_top` up by a page each.
pub grow-spends :
    (fuel limit pgd mm_top top' : ℕ) (vm vm' : Vm)
    → limit + page_size < 2 ^ 32
    → grow fuel limit pgd mm_top vm ≡ ok (top', vm')
    → (vm.pages.top ≤ vm'.pages.top + 2 * rounds limit mm_top)
      × (top' ≡ mm_top + page_size * rounds limit mm_top)
unfolding grow
grow-spends zero limit pgd mm_top top' vm vm' room ran = absurd (cc)
grow-spends (suc fuel) limit pgd mm_top top' vm vm' room ran =
    elim (Bool-cases (ltb mm_top limit)) [
      | inl more ↦
          let (vm'', backed, rest) = bind-eq-ok (back_page pgd mm_top vm) _ (rw more at ran) in
          let below : mm_top < limit = ground arith in
          let next = next_round limit mm_top below room in
          let wrap : (mm_top + page_size) % 2 ^ 32 ≡ mm_top + page_size = omega arith in
          let (spent, risen) =
            grow-spends fuel limit pgd ((mm_top + page_size) % 2 ^ 32) top' vm'' vm' room rest in
          (
            omega (arith, back_page-spends pgd mm_top vm vm'' backed, spent, next),
            omega (arith, risen, wrap, next),
          )
      | inr done ↦
          let same : vm ≡ vm' = cc in
          let same' : mm_top ≡ top' = cc in
          let all : limit ≤ mm_top = ground arith in
          (omega (arith, ap (λ x. x.pages.top) same), omega (arith, same', all))
    ]

pub grow-few :
    (fuel limit pgd mm_top : ℕ) (vm : Vm)
    → limit + page_size < 2 ^ 32
    → grow fuel limit pgd mm_top vm ≡ panic out_of_memory
    → vm.pages.top < 2 * rounds limit mm_top
unfolding grow
grow-few zero limit pgd mm_top vm room failed = absurd (cc)
grow-few (suc fuel) limit pgd mm_top vm room failed = elim (Bool-cases (ltb mm_top limit)) [
  | inl more ↦
      let below : mm_top < limit = ground arith in
      elim (bind-eq-panic (back_page pgd mm_top vm) _ (rw more at failed)) [
        | inl few ↦
            omega (arith, back_page-few pgd mm_top vm few, next_round limit mm_top below room)
        | inr (vm'', backed, rest) ↦ omega (
          arith,
          back_page-spends pgd mm_top vm vm'' backed,
          grow-few fuel limit pgd ((mm_top + page_size) % 2 ^ 32) vm'' room rest,
          next_round limit mm_top below room,
        )
      ]
  | inr done ↦ absurd (cc)
]
