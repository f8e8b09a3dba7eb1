-- ===== src/Heap.antt =====
-- The kernel's heap, src/memlib.c with include/memlib.h, over the page tables. The headers are a
-- store by their addresses; the bytes of the blocks are not modelled, so headers do not overlap.
-- A header's `length` has 31 bits. `pgd` is the address of `pgd_kern`, and the first argument of
-- `kmalloc` bounds the rounds of its search.
pub mod Chain
pub mod Grow
pub mod Append
pub mod Reuse
pub mod Merge
pub mod Free
pub mod Shrink
pub mod Lost
pub mod Enough
pub mod Examples
use ocean_os.Base.{
  ℕ, zero, suc, ◌+◌, ◌-◌, ◌*◌, ◌%◌, ◌^◌, Bool, true, false, ◌&&◌, ◌||◌, not, none, some, ltb, leb,
  ◌==◌, if◌then◌else◌, Result, ok, out_of_fuel, ◌>>=◌,
}
use ocean_os.Pages.{page_size, alloc_page, free_page}
use ocean_os.Paging.{Vm, page_present, page_write, map, unmap, get_mapping}

pub record Header : Type 0 where
  pub prev : ℕ
  pub next : ℕ
  pub used : Bool
  pub length : ℕ

pub record Heap : Type 0 where
  pub headers : ℕ → Header
  pub first : ℕ
  pub mm_top : ℕ
  pub vm : Vm

abbrev pub v_mm_start : ℕ
v_mm_start = 0xE0000000

-- `sizeof(header_t)`.
abbrev pub header_size : ℕ
header_size = 12

abbrev pub store : (ℕ → Header) → ℕ → Header → ℕ → Header
store headers a v b = if b == a then v else headers b

-- What the search ends with: a block, or the last block, 0 when there is none.
pub data Search : Type 0 where
  fits ends : ℕ → Search

unfoldable pub find_fit : ℕ → ℕ → ℕ → ℕ → (ℕ → Header) → Result Search
find_fit zero size node prev headers = out_of_fuel
find_fit (suc fuel) size node prev headers =
    let rest = find_fit fuel size (headers node).next node headers in
    if node == 0
    then ok (ends prev)
    else if not (headers node).used && leb size (headers node).length
    then ok (fits node)
    else rest

-- The header behind the block that is split off. The source puts it behind the whole block.
unfoldable pub split : ℕ → ℕ → (ℕ → Header) → ℕ → Header
split size node headers =
    let len = (headers node).length in
    let new_node = (node + len) % 2 ^ 32 in
    let headers' =
      store headers new_node
        (record { prev = node; next = (headers node).next; used = false; length = len - size }) in
    store headers' node (record (headers' node) { next = new_node; length = size })

unfoldable pub take_block : ℕ → ℕ → (ℕ → Header) → ℕ → Header
take_block size node headers =
    let headers' =
      if ltb (header_size + size) (headers node).length then split size node headers else headers in
    store headers' node (record (headers' node) { used = true })

-- The body of the loop of `kmalloc`: a page for the address `mm_top`.
unfoldable pub back_page : ℕ → ℕ → Vm → Result Vm
back_page pgd mm_top vm = alloc_page vm.pages >>= λ (page, pages).
    map pgd mm_top page (page_present + page_write) (record vm { pages = pages })

-- `for (;mm_top < maddr + size; mm_top += PAGE_SIZE)`, with the value of `mm_top`.
unfoldable pub grow : ℕ → ℕ → ℕ → ℕ → Vm → Result (ℕ × Vm)
grow zero limit pgd mm_top vm = out_of_fuel
grow (suc fuel) limit pgd mm_top vm =
    let rest = (back_page pgd mm_top vm >>= grow fuel limit pgd ((mm_top + page_size) % 2 ^ 32)) in
    if ltb mm_top limit then rest else ok (mm_top, vm)

-- More rounds than there are pages.
unfoldable pub grow_fuel : ℕ
grow_fuel = 0x100001

-- A new block behind the last one, `prev`.
unfoldable pub append_block : ℕ → ℕ → ℕ → Heap → Result (ℕ × Heap)
append_block pgd size prev h =
    let maddr = if prev == 0 then v_mm_start else (prev + (h.headers prev).length) % 2 ^ 32 in
    let first = if prev == 0 then maddr else h.first in
    grow grow_fuel ((maddr + size) % 2 ^ 32) pgd h.mm_top h.vm >>= λ (mm_top, vm).
    let headers =
      store h.headers maddr
        (record { prev = prev; next = 0; used = true; length = size % 2 ^ 31 }) in
    let linked =
      if prev == 0 then headers else store headers prev (record (headers prev) { next = maddr }) in
    ok (
      (maddr + header_size) % 2 ^ 32,
      record { headers = linked; first = first; mm_top = mm_top; vm = vm },
    )

unfoldable pub kmalloc : ℕ → ℕ → ℕ → Heap → Result (ℕ × Heap)
kmalloc fuel pgd size h =
    let size' = (size + header_size) % 2 ^ 32 in
    find_fit fuel size' h.first 0 h.headers >>= λ found. elim found [
      | fits node ↦
          ok ((node + header_size) % 2 ^ 32, record h { headers = take_block size' node h.headers })
      | ends prev ↦ append_block pgd size' prev h
    ]

-- The body of the loop of `_free_memory`: the page of `mm_top` goes back. `page` is what the
-- variable of this name holds before, since the source does not set it.
unfoldable pub release_page : ℕ → ℕ → ℕ → Vm → Result Vm
release_page pgd page mm_top vm =
    let found = (get_mapping pgd mm_top (some page) vm).1 in
    let vm' = unmap pgd mm_top vm in
    elim found [
      | none ↦ ok vm'
      | some page' ↦ free_page page' vm'.pages >>= λ pages. ok (record vm' { pages = pages })
    ]

-- `for (;(mm_top - PAGE_SIZE) >= (uint32_t)node; mm_top -= PAGE_SIZE)`, with the value of `mm_top`.
unfoldable pub shrink : ℕ → ℕ → ℕ → (ℕ → ℕ) → ℕ → Vm → Result (ℕ × Vm)
shrink zero node pgd page mm_top vm = out_of_fuel
shrink (suc fuel) node pgd page mm_top vm =
    let lower = (mm_top + 2 ^ 32 - page_size) % 2 ^ 32 in
    let rest = (release_page pgd (page mm_top) mm_top vm >>= shrink fuel node pgd page lower) in
    if leb node lower then rest else ok (mm_top, vm)

-- `_free_memory`; `page` has what its variable `page` holds in the round of each `mm_top`.
unfoldable pub free_memory : ℕ → (ℕ → ℕ) → ℕ → Heap → Result Heap
free_memory pgd page node h =
    let last = (h.headers node).prev in
    let h' =
      if last == 0
      then record h { first = 0 }
      else record h { headers = store h.headers last (record (h.headers last) { next = 0 }) } in
    shrink grow_fuel node pgd page h.mm_top h.vm >>= λ (mm_top, vm).
    ok (record h' { mm_top = mm_top; vm = vm })

-- The block behind `node`, when it is free, becomes part of it.
unfoldable pub merge_next : ℕ → (ℕ → Header) → ℕ → Header
merge_next node headers =
    let next = (headers node).next in
    let after = (headers next).next in
    let longer = store headers node (record (headers node) {
      length = ((headers node).length + (headers next).length) % 2 ^ 31;
    }) in
    let linked =
      if after == 0 then longer else store longer after (record (longer after) { prev = node }) in
    if (next == 0) || (headers next).used
    then headers
    else store linked node (record (linked node) { next = (linked next).next })

-- `node` becomes part of the block in front of it, when that is free, which is the result then. The
-- source sets the `next` of the block before that one, and leaves that of the block in front.
unfoldable pub merge_prev : ℕ → (ℕ → Header) → (ℕ × (ℕ → Header))
merge_prev node headers =
    let front = (headers node).prev in
    let longer = store headers front (record (headers front) {
      length = ((headers node).length + (headers front).length) % 2 ^ 31;
    }) in
    let before = (longer front).prev in
    let linked =
      if before == 0
      then longer
      else store longer before (record (longer before) { next = front }) in
    if (front == 0) || (headers front).used then (node, headers) else (front, linked)

-- `kfree` from the header on.
unfoldable pub release : ℕ → (ℕ → ℕ) → ℕ → Heap → Result Heap
release pgd page node h =
    let freed = store h.headers node (record (h.headers node) { used = false }) in
    let (node', headers) = merge_prev node (merge_next node freed) in
    let h' = record h { headers = headers } in
    if (headers node').next == 0 then free_memory pgd page node' h' else ok h'

-- `sizeof(header_t)` is subtracted from a `header_t *`, so it counts headers here.
unfoldable pub kfree : ℕ → (ℕ → ℕ) → ℕ → Heap → Result Heap
kfree pgd page obj h =
    let node = (obj + 2 ^ 32 - header_size * header_size) % 2 ^ 32 in release pgd page node h
