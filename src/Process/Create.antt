-- ===== src/Process/Create.antt =====
-- A new thread with its block from the heap: `init_thread` of src/process.c with its call of
-- `kmalloc`.
use ocean_os.Base.{
  ℕ, ◌+◌, ◌*◌, ◌^◌, ◌≤◌, ◌<◌, ◌≡◌, refl, ◌≢◌, ◌⊎◌, inl, inr, true, false, some, List, [], ◌∷◌, ◌++◌,
  arith, All, length, get_elem?, out_of_memory, Result, ok, panic, ◌>>=◌,
}
use ocean_os.Pages.{page_size}
use ocean_os.Paging.{get_mapping}
use ocean_os.Heap.{Heap, v_mm_start, header_size, kmalloc}
use ocean_os.Heap.Chain.{Blocks, end_of, can_hold, le-end_of, end_of-append}
use ocean_os.Process.Links.{All-append}
use ocean_os.Heap.Append.{IsHeap, kmalloc-appends}
use ocean_os.Process.{Scheduler, stack_size, init_thread}
use ocean_os.Process.Ring.{IsRing, init_thread-IsRing}

-- The first two arguments bound the rounds of the searches of `kmalloc` and of the ring.
unfoldable pub create_thread :
    ℕ → ℕ → ℕ → ℕ → ℕ → ℕ → Heap → Scheduler → Result (ℕ × List (ℕ × ℕ) × Scheduler × Heap)
create_thread heap_fuel fuel pgd fn arg thread_exit h s =
    kmalloc heap_fuel pgd stack_size h >>= λ (new_proc, h').
    init_thread fuel fn arg thread_exit new_proc s >>= λ (pid, pushed, s'). ok (pid, pushed, s', h')

-- The threads of a ring have their records below the end of a heap.
pub record IsSystem (pgd : ℕ) (bs : Blocks) (ps : List ℕ) (h : Heap) (s : Scheduler) : Type 0 where
  pub heap : IsHeap pgd bs h
  pub ring : IsRing s ps
  pub below : All (λ x. x < end_of v_mm_start bs) (s.run_head ∷ ps)

All-weaken : (a b : ℕ) (xs : List ℕ) → a ≤ b → All (λ x. x < a) xs → All (λ x. x < b) xs
All-weaken a b [] le below = tt
All-weaken a b (x ∷ xs) le below = (omega (arith, below.0), All-weaken a b xs le below.1)

All-differ : (a b : ℕ) (xs : List ℕ) → a ≤ b → All (λ x. x < a) xs → All (λ x. x ≢ b) xs
All-differ a b [] le below = tt
All-differ a b (x ∷ xs) le below = (omega (arith, below.0), All-differ a b xs le below.1)

-- When no free block of a well-formed heap holds a stack, there is room for one more block, and
-- every thread of a ring lies below the heap's end, then `init_thread`, its `kmalloc` included,
-- makes a thread behind the end of the heap. The heap is well-formed with one more block in use,
-- the ring has the thread as its last one, all threads lie below the new end, every address of the
-- new stack has a page, the entry point stands where the new stack pointer is, and the heap grows
-- by at most three pages and takes at most six free ones. Otherwise fewer than six are free, and
-- `alloc_page` panics.
pub create_thread-IsSystem :
    (heap_fuel fuel pgd fn arg thread_exit : ℕ) (bs : Blocks) (ps : List ℕ) (h : Heap)
    (s : Scheduler)
    → IsSystem pgd bs ps h s
    → All (λ b. can_hold (8192 + header_size) b ≡ false) bs
    → end_of v_mm_start bs + (8192 + header_size) + 4096 < 2 ^ 32
    → length bs < heap_fuel
    → length ps < fuel
    → let new_proc = end_of v_mm_start bs + header_size in
      ((pushed : List (ℕ × ℕ)) × (s' : Scheduler) × (h' : Heap) × (create_thread heap_fuel fuel pgd
            fn arg thread_exit h s
          ≡ ok (s.cur_pid, pushed, s', h'))
        × IsSystem pgd (bs ++ (true, 8192 + header_size) ∷ []) (ps ++ new_proc ∷ []) h' s'
        × (get_elem? pushed 2 ≡ some ((s'.procs new_proc).context.esp, fn))
        × ((va old : ℕ)
            → new_proc ≤ va
            → va < new_proc + 8192
            → (get_mapping pgd va (some old) h'.vm).0 ≡ 1)
        × (h.vm.pages.top ≤ h'.vm.pages.top + 6)
        × (h'.mm_top ≤ h.mm_top + 3 * page_size))
      ⊎ ((create_thread heap_fuel fuel pgd fn arg thread_exit h s ≡ panic out_of_memory)
          × (h.vm.pages.top < 6))
unfolding create_thread
create_thread-IsSystem heap_fuel fuel pgd fn arg thread_exit bs ps h s sys none_fit room rounds
      rounds' =
    let at = end_of v_mm_start bs in
    let grown = end_of-append v_mm_start bs ((true, 8192 + header_size) ∷ []) in
    let end = end_of v_mm_start (bs ++ (true, 8192 + header_size) ∷ []) in
    let high = le-end_of h.headers 0 v_mm_start bs sys.heap.chain in
    elim (kmalloc-appends heap_fuel pgd 8192 bs h sys.heap rounds none_fit room) [
      | inr (fails, short) ↦ inr (rw fails refl, omega (arith, sys.heap.inside))
      | inl (h', e, heap', (spent, risen)) ↦
          let (pushed, s', runs, ring', same, head, pid, entry) =
            init_thread-IsRing fuel fn arg thread_exit (at + header_size) s ps sys.ring
              (omega arith)
              (All-differ at (at + header_size) (s.run_head ∷ ps) (omega arith) sys.below)
              rounds' in
          inl (
            pushed,
            s',
            h',
            rw (e, runs) refl,
            record {
              heap = heap';
              ring = ring';
              below = rw head (
                  All-append (λ x. x < end) (s.run_head ∷ ps) (at + header_size)
                    (All-weaken at end (s.run_head ∷ ps) (omega (arith, grown)) sys.below)
                    (omega (arith, grown)));
            },
            entry,
            λ va old from to.
                heap'.top.backed va old (omega arith) (omega (arith, grown, heap'.inside)),
            omega (arith, sys.heap.inside, spent),
            omega (arith, sys.heap.inside, risen),
          )
    ]
