-- ===== src/Heap/Examples.antt =====
-- Runs of the kernel's heap.
use ocean_os.Base.{
  ℕ, ◌+◌, ◌-◌, ◌/◌, ◌^◌, ◌≤◌, ◌<◌, ◌≡◌, refl, ◌⊎◌, Bool, true, false, [], ◌∷◌, arith, ◌==◌,
  if◌then◌else◌, out_of_memory, no_unused_memory, ok, panic, out_of_fuel,
}
use ocean_os.Base.Bits.{bit_and-3ff}
use ocean_os.Pages.{page_size, page_max_size}
use ocean_os.Paging.{Vm, pgd_index, pte_index, get_mapping, table, table_of, word_at, to_virtual}
use ocean_os.Paging.Tables.{entry_at}
use ocean_os.Paging.Laws.{entry, get_mapping-entry}
use ocean_os.Paging.Examples.{directory, empty_vm, empty_vm-IsWf, mapped_vm, mapped_vm-IsWf}
use ocean_os.Heap.{
  store, Header, Heap, v_mm_start, find_fit, kmalloc, release_page, shrink, release, kfree, kfree,
}
use ocean_os.Heap.Append.{IsHeap, Spends, IsShort, kmalloc-appends}
use ocean_os.Heap.Reuse.{kmalloc-reuses, kmalloc-overwrites}
use ocean_os.Heap.Free.{release-absorbs, release-stale}
use ocean_os.Heap.Lost.{kfree-forgets}
use ocean_os.Heap.Shrink.{release_page-stray, shrink-ends}

abbrev pub empty_heap : Heap
empty_heap = record {
  headers = λ a. record { prev = 0; next = 0; used = false; length = 0 };
  first = 0;
  mm_top = v_mm_start;
  vm = empty_vm;
}

pub empty_heap-IsHeap : IsHeap directory [] empty_heap
empty_heap-IsHeap = record {
  starts = refl;
  chain = tt;
  inside = omega arith;
  top = record {
    aligned = refl;
    small = omega arith;
    above = omega arith;
    tables = empty_vm-IsWf;
    backed = λ va old from to. absurd (omega arith);
  };
}

kmalloc-appends_example :
    ((h' : Heap) × (kmalloc 1 directory 100 empty_heap ≡ ok (0xE000000C, h'))
      × IsHeap directory ((true, 112) ∷ []) h'
      × Spends 1 empty_heap h')
    ⊎ ((kmalloc 1 directory 100 empty_heap ≡ panic out_of_memory) × IsShort 1 empty_heap)
kmalloc-appends_example =
    kmalloc-appends 1 directory 100 [] empty_heap empty_heap-IsHeap (omega arith) tt (omega arith)

-- Three blocks in one page.
abbrev three_headers : Bool → Bool → ℕ → Header
three_headers u v a =
    if a == 0xE0000000
    then record { prev = 0; next = 0xE0000028; used = u; length = 40 }
    else if a == 0xE0000028
    then record { prev = 0xE0000000; next = 0xE0000064; used = v; length = 60 }
    else record { prev = 0xE0000028; next = 0; used = true; length = 100 }

abbrev three_blocks : Bool → Bool → Heap
three_blocks u v = record {
  headers = three_headers u v;
  first = v_mm_start;
  mm_top = 0xE0001000;
  vm = mapped_vm;
}

mapped_vm-entry :
    (va : ℕ) → 0xE0000000 ≤ va → va < 0xE0001000 → entry directory mapped_vm va ≡ 0x7003
unfolding entry_at table table_of word_at to_virtual
mapped_vm-entry va from to =
    let d : pgd_index va ≡ 896 = omega (arith, bit_and-3ff (va / 2 ^ 22)) in
    let t : pte_index va ≡ 0 = omega (arith, bit_and-3ff (va / 2 ^ 12)) in rw (d, t) refl

three_blocks-IsHeap :
    (u v : Bool) → IsHeap directory ((u, 40) ∷ (v, 60) ∷ (true, 100) ∷ []) (three_blocks u v)
three_blocks-IsHeap u v = record {
  starts = refl;
  chain = (refl, omega arith, (refl, omega arith, (refl, omega arith, tt)));
  inside = omega arith;
  top = record {
    aligned = refl;
    small = omega arith;
    above = omega arith;
    tables = mapped_vm-IsWf;
    backed = λ va old from to.
        rw (get_mapping-entry directory va old mapped_vm, mapped_vm-entry va from to) refl;
  };
}

kmalloc-reuses_example :
    (h' : Heap) × (kmalloc 5 directory 20 (three_blocks false true) ≡ ok (0xE000000C, h'))
    × (h' ≡ record (three_blocks false true) {
      headers =
          store
            (three_blocks false true).headers
            0xE0000000
            (record ((three_blocks false true).headers 0xE0000000) { used = true });
    })
    × IsHeap directory ((true, 40) ∷ (true, 60) ∷ (true, 100) ∷ []) h'
kmalloc-reuses_example =
    kmalloc-reuses 5 directory 20 [] 40 ((true, 60) ∷ (true, 100) ∷ []) (three_blocks false true)
      (three_blocks-IsHeap false true) (omega arith) tt (omega arith) (omega arith)

kmalloc-overwrites_example :
    (h' : Heap) × (kmalloc 5 directory 10 (three_blocks false true) ≡ ok (0xE000000C, h'))
    × (h'.headers 0xE0000028
        ≡ record { prev = 0xE0000000; next = 0xE0000028; used = false; length = 18 })
    × ((rounds size' p : ℕ)
        → 18 < size'
        → find_fit rounds size' 0xE0000028 p h'.headers ≡ out_of_fuel)
kmalloc-overwrites_example =
    kmalloc-overwrites 5 directory 10 [] 40 true 60 ((true, 100) ∷ []) (three_blocks false true)
      (three_blocks-IsHeap false true) (omega arith) tt (omega arith)

release-absorbs_example :
    (h' : Heap) × (release directory (λ a. 7) 0xE0000000 (three_blocks true false) ≡ ok h')
    × IsHeap directory ((false, 100) ∷ (true, 100) ∷ []) h'
release-absorbs_example =
    release-absorbs directory (λ a. 7) [] true 40 ((false, 60) ∷ (true, 100) ∷ [])
      (three_blocks true false) (three_blocks-IsHeap true false) refl (omega arith)

release-stale_example :
    (h' : Heap) × (release directory (λ a. 7) 0xE0000028 (three_blocks false true) ≡ ok h')
    × (h'.headers 0xE0000000 ≡ record { prev = 0; next = 0xE0000028; used = false; length = 100 })
release-stale_example =
    release-stale directory (λ a. 7) [] 40 true 60 100 [] (three_blocks false true)
      (three_blocks-IsHeap false true)

release_page-stray_example :
    (vm' : Vm) × (release_page directory 7 0xE0001000 empty_vm ≡ ok vm')
    × (vm'.pages.slots vm'.pages.top ≡ 7)
    × (vm'.pages.top ≡ 3)
unfolding get_mapping table table_of
release_page-stray_example = release_page-stray directory 7 0xE0001000 empty_vm refl (omega arith)

shrink-ends_example :
    ((top' : ℕ) × (vm' : Vm) × (shrink 4 0xE0000000 directory (λ a. 7) 0xE0002000 empty_vm
        ≡ ok (top', vm'))
      × (0xE0000000 ≤ top')
      × (top' < 0xE0001000)
      × (top' ≤ 0xE0002000)
      × (vm'.pages.top ≡ 2 + (0xE0002000 - top') / 0x1000)
      × (vm'.pages.top ≤ page_max_size))
    ⊎ ((shrink 4 0xE0000000 directory (λ a. 7) 0xE0002000 empty_vm ≡ panic no_unused_memory)
        × (page_max_size < 2 + 2))
shrink-ends_example =
    shrink-ends 4 0xE0000000 directory (λ a. 7) 0xE0002000 empty_vm (omega arith) (omega arith)
      (omega arith) (omega arith) (omega arith)

-- Two blocks, the first one full of zeros.
abbrev zero_block : Heap
zero_block = record {
  headers = λ a.
      if a == 0xE0000000
      then record { prev = 0; next = 0xE0000100; used = true; length = 256 }
      else if a == 0xE0000100
      then record { prev = 0xE0000000; next = 0; used = true; length = 512 }
      else record { prev = 0; next = 0; used = false; length = 0 };
  first = v_mm_start;
  mm_top = 0xE0001000;
  vm = mapped_vm;
}

kfree-forgets_example :
    ((h' : Heap) × (kfree directory (λ a. 7) 0xE000010C zero_block ≡ ok h')
      × (h'.first ≡ 0)
      × (h'.headers 0xE0000100 ≡ record { prev = 0xE0000000; next = 0; used = true; length = 512 }))
    ⊎ ((kfree directory (λ a. 7) 0xE000010C zero_block ≡ panic no_unused_memory)
        × (page_max_size < zero_block.vm.pages.top + (zero_block.mm_top - 0xE000007C) / page_size))
kfree-forgets_example =
    kfree-forgets directory (λ a. 7) 0xE000007C zero_block refl refl (omega arith) (omega arith)
      (omega arith) (omega arith) (omega arith)
