-- ===== src/Heap/Reuse.antt =====
-- A request that some block can hold takes the first such block.
use ocean_os.Base.{
  ℕ, zero, suc, ◌+◌, ◌-◌, ◌%◌, ◌^◌, ◌≤◌, ◌<◌, ◌≡◌, refl, sym, ap, ◌∙◌, Bool, true, false, ◌&&◌, not,
  ◌∷◌, ◌++◌, arith, ltb, leb, ◌==◌, All, length, ok, out_of_fuel,
}
use ocean_os.Heap.{
  Header, Heap, v_mm_start, header_size, store, find_fit, fits, split, take_block, kmalloc,
}
use ocean_os.Heap.Chain.{
  Blocks, Chain, end_of, le-end_of, end_of-append, Chain-suffix, Chain-glue, lt-differ, gt-differ,
  same_test, node_of-append, Chain-store_before, can_hold, find_fit-fits,
}
use ocean_os.Heap.Append.{IsHeap}

-- A header that is written at `at` changes none in front of it.
pub store-before :
    (headers : ℕ → Header) (at : ℕ) (v : Header) (x : ℕ) → x < at → store headers at v x ≡ headers x
store-before headers at v x low = rw (lt-differ low) refl

-- A block that is taken into use.
Chain-used :
    (headers : ℕ → Header) (p a : ℕ) (before : Blocks) (len : ℕ) (after : Blocks)
    → Chain headers p a (before ++ (false, len) ∷ after)
    → Chain
        (store headers (end_of a before) (record (headers (end_of a before)) { used = true }))
        p
        a
        (before ++ (true, len) ∷ after)
Chain-used headers p a before len after chain =
    let at = end_of a before in
    let v = record (headers at) { used = true } in
    let (here, long, rest) = Chain-suffix headers p a before ((false, len) ∷ after) chain in
    Chain-glue headers (store headers at v) p a before (false, len) (true, len) after after chain
      (store-before headers at v)
      (
        rw (same_test at, here) refl,
        long,
        Chain-store_before headers at v at (at + len) after rest (omega arith),
      )

finds :
    (fuel pgd size : ℕ) (before : Blocks) (len : ℕ) (after : Blocks) (h : Heap)
    → IsHeap pgd (before ++ (false, len) ∷ after) h
    → length before < fuel
    → All (λ b. can_hold (size + header_size) b ≡ false) before
    → size + header_size ≤ len
    → find_fit fuel (size + header_size) h.first 0 h.headers ≡ ok (fits (end_of v_mm_start before))
finds fuel pgd size before len after h heap rounds others holds =
    rw (heap.starts, node_of-append before v_mm_start (false, len) after)
      (find_fit-fits fuel (size + header_size) 0 v_mm_start h.headers before len after heap.chain
        (omega arith) others holds rounds)

loops :
    (fuel size node p : ℕ) (headers : ℕ → Header)
    → ((headers node).next ≡ node)
    → (0 < node)
    → (headers node).length < size
    → find_fit fuel size node p headers ≡ out_of_fuel
unfolding find_fit
loops zero size node p headers self there small = refl
loops (suc fuel) size node p headers self there small =
    let nonzero : (node == 0) ≡ false = ground arith in
    let short : (not (headers node).used && leb size (headers node).length) ≡ false =
      ground arith in
    rw (nonzero, short, self) (loops fuel size node node headers self there small)

-- When a free block holds a request with its header, no earlier block does, and at most the size of
-- a header is left over, then `kmalloc` returns the address behind that block's header. The heap
-- then differs only in that the header says that this block is in use: pages, page tables, `first`
-- and `mm_top` are as they were. The heap is well-formed with this block in use.
pub kmalloc-reuses :
    (fuel pgd size : ℕ) (before : Blocks) (len : ℕ) (after : Blocks) (h : Heap)
    → IsHeap pgd (before ++ (false, len) ∷ after) h
    → length before < fuel
    → All (λ b. can_hold (size + header_size) b ≡ false) before
    → size + header_size ≤ len
    → len ≤ size + header_size + header_size
    → (h' : Heap) × (kmalloc fuel pgd size h ≡ ok (end_of v_mm_start before + header_size, h'))
      × (h' ≡ record h {
        headers =
            store h.headers
              (end_of v_mm_start before)
              (record (h.headers (end_of v_mm_start before)) { used = true });
      })
      × IsHeap pgd (before ++ (true, len) ∷ after) h'
unfolding kmalloc take_block
kmalloc-reuses fuel pgd size before len after h heap rounds others holds whole =
    let at = end_of v_mm_start before in
    let start = node_of-append before v_mm_start (false, len) after in
    let found = finds fuel pgd size before len after h heap rounds others holds in
    let (here, room, rest) =
      Chain-suffix h.headers 0 v_mm_start before ((false, len) ∷ after) heap.chain in
    let reach = le-end_of h.headers at (at + len) after rest in
    let total = end_of-append v_mm_start before ((false, len) ∷ after) in
    let wrap : (size + header_size) % 2 ^ 32 ≡ size + header_size =
      omega (arith, heap.inside, heap.top.small) in
    let wrap' : (at + header_size) % 2 ^ 32 ≡ at + header_size =
      omega (arith, heap.inside, heap.top.small) in
    let unsplit : ltb (header_size + (size + header_size)) (h.headers at).length ≡ false =
      rw here (ground arith) in
    (
      record h { headers = store h.headers at (record (h.headers at) { used = true }) },
      rw (wrap, found, wrap, wrap', unsplit) refl,
      refl,
      record {
        starts = heap.starts ∙ start ∙ sym (node_of-append before v_mm_start (true, len) after);
        chain = Chain-used h.headers 0 v_mm_start before len after heap.chain;
        inside =
            omega
              (arith, heap.inside, end_of-append v_mm_start before ((true, len) ∷ after), total);
        top = heap.top;
      },
    )

-- When the first free block that holds a request has more than the size of a header left over, and
-- another block follows, then `kmalloc` writes the header of the rest over the header of the block
-- that follows: that block counts as free, whatever it was, and comes next after itself. A search
-- that gets there for more bytes than the rest has takes more rounds than any bound.
pub kmalloc-overwrites :
    (fuel pgd size : ℕ) (before : Blocks) (len : ℕ) (used : Bool) (next_len : ℕ) (after : Blocks)
    (h : Heap)
    → IsHeap pgd (before ++ (false, len) ∷ (used, next_len) ∷ after) h
    → length before < fuel
    → All (λ b. can_hold (size + header_size) b ≡ false) before
    → header_size + (size + header_size) < len
    → (h' : Heap) × (kmalloc fuel pgd size h ≡ ok (end_of v_mm_start before + header_size, h'))
      × (h'.headers (end_of v_mm_start before + len) ≡ record {
        prev = end_of v_mm_start before;
        next = end_of v_mm_start before + len;
        used = false;
        length = len - (size + header_size);
      })
      × ((rounds size' p : ℕ)
          → len - (size + header_size) < size'
          → find_fit rounds size' (end_of v_mm_start before + len) p h'.headers ≡ out_of_fuel)
unfolding kmalloc take_block split
kmalloc-overwrites fuel pgd size before len used next_len after h heap rounds others holds =
    let at = end_of v_mm_start before in
    let found =
      finds fuel pgd size before len ((used, next_len) ∷ after) h heap rounds others
        (omega arith) in
    let (here, room, rest) =
      Chain-suffix h.headers 0 v_mm_start before ((false, len) ∷ (used, next_len) ∷ after)
        heap.chain in
    let reach = le-end_of h.headers at (at + len) ((used, next_len) ∷ after) rest in
    let total = end_of-append v_mm_start before ((false, len) ∷ (used, next_len) ∷ after) in
    let wrap : (size + header_size) % 2 ^ 32 ≡ size + header_size =
      omega (arith, heap.inside, heap.top.small) in
    let wrap' : (at + header_size) % 2 ^ 32 ≡ at + header_size =
      omega (arith, heap.inside, heap.top.small) in
    let wrap'' : (at + len) % 2 ^ 32 ≡ at + len = omega (arith, heap.inside, heap.top.small) in
    let parts : ltb (header_size + (size + header_size)) len ≡ true = ground arith in
    let apart : (at + len == at) ≡ false = gt-differ (omega arith) in
    let h' = record h { headers = take_block (size + header_size) at h.headers } in
    let behind : h'.headers (at + len)
        ≡ record { prev = at; next = at + len; used = false; length = len - (size + header_size) } =
      rw (here, parts, wrap'', apart, same_test (at + len)) refl in
    (
      h',
      rw (wrap, found, wrap, wrap') refl,
      behind,
      λ rounds' size' p less.
          loops rounds' size' (at + len) p h'.headers (ap (λ v. v.next) behind) (omega arith)
            (rw (ap (λ v. v.length) behind) less),
    )
