-- ===== src/Heap/Lost.antt =====
-- Where `kfree` looks for the header of an object.
use ocean_os.Base.{
  ℕ, ◌+◌, ◌-◌, ◌*◌, ◌/◌, ◌%◌, ◌^◌, ◌≤◌, ◌<◌, ◌≡◌, refl, ◌≢◌, ◌⊎◌, inl, inr, false, arith, ◌==◌,
  no_unused_memory, ok, panic,
}
use ocean_os.Pages.{page_size, page_max_size}
use ocean_os.Heap.{Heap, header_size, store, grow_fuel, free_memory, release, kfree}
use ocean_os.Heap.Chain.{same_test}
use ocean_os.Heap.Merge.{merge_next-kept, merge_prev-kept}
use ocean_os.Heap.Shrink.{shrink-ends}

-- A header without neighbours takes the whole list with it.
release-alone :
    (pgd : ℕ) (page : ℕ → ℕ) (node : ℕ) (h : Heap)
    → (h.headers node).next ≡ 0
    → (h.headers node).prev ≡ 0
    → h.vm.pages.top ≤ page_max_size
    → page_size ≤ node
    → node ≤ h.mm_top
    → h.mm_top < 2 ^ 32
    → ((h' : Heap) × (release pgd page node h ≡ ok h')
        × (h'.first ≡ 0)
        × ((b : ℕ) → b ≢ node → h'.headers b ≡ h.headers b))
      ⊎ ((release pgd page node h ≡ panic no_unused_memory)
          × (page_max_size < h.vm.pages.top + (h.mm_top - node) / page_size))
unfolding release free_memory grow_fuel
release-alone pgd page node h next prev bound high inside small =
    let freed = store h.headers node (record (h.headers node) { used = false }) in
    let next' : (freed node).next ≡ 0 = rw (same_test node) next in
    let prev' : (freed node).prev ≡ 0 = rw (same_test node) prev in
    let kept = merge_next-kept node freed (inl next') in
    let kept' = merge_prev-kept node freed (inl prev') in
    elim (shrink-ends 0x100001 node pgd page h.mm_top h.vm bound high inside small (omega arith)) [
      | inr (fails, over) ↦ inr (rw (kept, kept', next', prev', fails) refl, over)
      | inl (top', vm', ends, from, to, under, count, room) ↦ inl (
        record { headers = freed; first = 0; mm_top = top'; vm = vm' },
        rw (kept, kept', next', prev', ends) refl,
        refl,
        λ b other. let other' : (b == node) ≡ false = ground arith in rw other' refl,
      )
    ]

-- When the 12 bytes that lie 144 bytes in front of an object hold no pointers, as in a block of
-- zeros, `kfree` of the object takes them for its header: it forgets the whole list of blocks, and
-- leaves the object's own header, 12 bytes in front of it, as it was. Otherwise the page stack has
-- no room for a word for each page from there to `mm_top`, and `free_page` panics.
pub kfree-forgets :
    (pgd : ℕ) (page : ℕ → ℕ) (node : ℕ) (h : Heap)
    → (h.headers node).next ≡ 0
    → (h.headers node).prev ≡ 0
    → h.vm.pages.top ≤ page_max_size
    → page_size ≤ node
    → node ≤ h.mm_top
    → h.mm_top < 2 ^ 32
    → node + 144 < 2 ^ 32
    → ((h' : Heap) × (kfree pgd page (node + 144) h ≡ ok h')
        × (h'.first ≡ 0)
        × (h'.headers (node + 132) ≡ h.headers (node + 132)))
      ⊎ ((kfree pgd page (node + 144) h ≡ panic no_unused_memory)
          × (page_max_size < h.vm.pages.top + (h.mm_top - node) / page_size))
unfolding kfree
kfree-forgets pgd page node h next prev bound high inside small room =
    let back : (node + 144 + 2 ^ 32 - header_size * header_size) % 2 ^ 32 ≡ node = omega arith in
    rw back (elim (release-alone pgd page node h next prev bound high inside small) [
      | inl (h', e, first, kept) ↦ inl (h', e, first, kept (node + 132) (omega arith))
      | inr fails ↦ inr fails
    ])
