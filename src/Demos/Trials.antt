-- ===== src/Demos/Trials.antt =====
-- The loop of `testMalloc` when a user asks for memory.
use native.Mathlib.Decide.{dec_lt}
use ocean_os.Base.{
  ℕ, ◌+◌, ◌^◌, ◌≤◌, ◌<◌, ◌≡◌, refl, ◌⊎◌, inl, inr, Bool, true, false, some, List, [], ◌∷◌, ◌++◌,
  arith, ltb, ◌==◌, All, length, get_elem?, set, out_of_memory, Result, ok, panic, fault,
  get_elem?-set,
}
use ocean_os.Base.Text.{c_string}
use ocean_os.Demos.{Trial, Answer, take_item, malloc_round}
use ocean_os.Faults.{Line, plain}
use ocean_os.Heap.{v_mm_start, header_size}
use ocean_os.Heap.Enough.{rounds}
use ocean_os.Heap.Append.{IsShort, IsHeap, kmalloc-appends}
use ocean_os.Heap.Chain.{Blocks, end_of, can_hold}
use ocean_os.Pages.{page_size}
use ocean_os.Strings.{strcmp}

-- What such a round prints.
abbrev pub lines_of : ℕ → ℕ → List Line
lines_of size at =
    plain (c_string " your code: ") []
    ∷ plain (c_string "please input size : ") []
    ∷ plain (c_string "the %d memory start from 0x%X\n\n") (size ∷ at ∷ [])
    ∷ []

-- What the word `malloc` does: the block's address goes to the next element of `item`, and the heap
-- has the block; or there is no such element, or no memory.
abbrev pub Takes : ℕ → Blocks → ℕ → Trial → Result (Trial × Bool × List Line) → Type 0
Takes pgd bs size t r =
    ((t.p < length t.item)
      × ((t' : Trial) × (r ≡ ok (t', true, lines_of size (end_of v_mm_start bs + header_size)))
          × (get_elem? t'.item t.p ≡ some (end_of v_mm_start bs + header_size))
          × (t'.p ≡ t.p + 1)
          × IsHeap pgd (bs ++ (true, size + header_size) ∷ []) t'.heap))
    ⊎ ((length t.item ≤ t.p) × (r ≡ fault))
    ⊎ ((r ≡ panic out_of_memory)
        × IsShort (rounds (end_of v_mm_start bs + (size + header_size)) t.heap.mm_top) t.heap)

-- When no block of a well-formed heap holds the request and there is room for one more, a round of
-- `testMalloc` with the word `malloc` takes a block behind the others, keeps its address in the
-- next element of `item`, and goes on. When `item` is full, it writes behind its end. When fewer
-- pages are free than two for each page that the heap has to grow by, `alloc_page` may panic
-- instead, and only then.
pub malloc_round-Takes :
    (fuel pgd : ℕ) (bs : Blocks) (rest : List ℕ) (a : Answer) (t : Trial)
    → a.code ≡ c_string "malloc" ++ rest
    → IsHeap pgd bs t.heap
    → length bs < fuel
    → All (λ b. can_hold (a.number + header_size) b ≡ false) bs
    → end_of v_mm_start bs + (a.number + header_size) + page_size < 2 ^ 32
    → Takes pgd bs a.number t (malloc_round fuel pgd a t)
unfolding malloc_round take_item strcmp c_string
malloc_round-Takes fuel pgd bs rest a t word heap enough none_fit room =
    elim (kmalloc-appends fuel pgd a.number bs t.heap heap enough none_fit room) [
      | inr (fails, short) ↦ inr (inr (rw (word, fails) refl, short))
      | inl (heap', got, heap'', spent) ↦ elim (dec_lt t.p (length t.item)) [
        | no full ↦
            let out : ltb t.p (length t.item) ≡ false = ground arith in
            inr (inl (omega arith, rw (word, got, out) refl))
        | yes free ↦
            let inside : ltb t.p (length t.item) ≡ true = ground arith in
            let slot : (t.p == t.p) ≡ true = ground arith in
            inl (
              free,
              (
                record {
                  heap = heap';
                  item = set t.item t.p (end_of v_mm_start bs + header_size);
                  p = t.p + 1;
                },
                rw (word, got, inside) refl,
                rw (get_elem?-set t.item t.p t.p (end_of v_mm_start bs + header_size) free, slot)
                    refl,
                refl,
                heap'',
              ),
            )
      ]
    ]
