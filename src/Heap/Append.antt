-- ===== src/Heap/Append.antt =====
-- A request that no block can hold gets a new block behind the last one.
use ocean_os.Base.{
  ℕ, ◌+◌, ◌*◌, ◌%◌, ◌^◌, ◌≤◌, ◌<◌, ◌≡◌, refl, ◌⊎◌, inl, inr, Bool, true, false, [], ◌∷◌, ◌++◌,
  arith, ◌==◌, if◌then◌else◌, All, length, out_of_memory, ok, panic, ◌>>=◌,
}
use ocean_os.Pages.{page_size}
use ocean_os.Heap.{
  Header, Heap, v_mm_start, header_size, store, grow_fuel, grow, append_block, kmalloc,
}
use ocean_os.Heap.Chain.{
  Blocks, node_of, Chain, end_of, last_of, le-end_of, last_of-end, end_of-append, lt-differ,
  can_hold, find_fit-ends,
}
use ocean_os.Heap.Enough.{rounds, grow-spends, grow-few}
use ocean_os.Heap.Grow.{IsTop, grow-IsTop}

-- A heap of the blocks `bs`, all of them below `mm_top`, where every address has a page.
pub record IsHeap (pgd : ℕ) (bs : Blocks) (h : Heap) : Type 0 where
  pub starts : h.first ≡ node_of bs v_mm_start
  pub chain : Chain h.headers 0 v_mm_start bs
  pub inside : end_of v_mm_start bs ≤ h.mm_top
  pub top : IsTop pgd v_mm_start h.mm_top h.vm

-- The two writes that link a block of `len` bytes behind the others.
linked : (ℕ → Header) → ℕ → ℕ → ℕ → ℕ → Header
linked headers prev at len =
    let new = store headers at (record { prev = prev; next = 0; used = true; length = len }) in
    if prev == 0 then new else store new prev (record (new prev) { next = at })

Chain-linked :
    (headers : ℕ → Header) (p a len : ℕ) (b : Bool × ℕ) (bs : Blocks)
    → 0 < a
    → header_size ≤ len
    → Chain headers p a (b ∷ bs)
    → Chain
        (linked headers (last_of p a (b ∷ bs)) (end_of a (b ∷ bs)) len)
        p
        a
        ((b ∷ bs) ++ (true, len) ∷ [])
unfolding linked
Chain-linked headers p a len (used, l) [] pos long chain =
    let there : (a == 0) ≡ false = ground arith in
    let self : (a == a) ≡ true = ground arith in
    let other : (a == a + l) ≡ false = ground (arith, chain.1) in
    let other' : (a + l == a) ≡ false = ground (arith, chain.1) in
    let self' : (a + l == a + l) ≡ true = ground arith in
    rw (there, self, other, other', self', chain.0) (refl, chain.1, (refl, long, tt))
Chain-linked headers p a len (used, l) (b ∷ bs) pos long chain =
    let (low, reach, small) = last_of-end headers a (a + l) b bs chain.2 in
    let there : (last_of a (a + l) (b ∷ bs) == 0) ≡ false = ground arith in
    let other : (a == last_of a (a + l) (b ∷ bs)) ≡ false = lt-differ (omega (arith, chain.1)) in
    let other' : (a == end_of (a + l) (b ∷ bs)) ≡ false = lt-differ (omega (arith, chain.1)) in
    (
      rw (there, other, other') chain.0,
      chain.1,
      Chain-linked headers a (a + l) len b bs (omega arith) long chain.2,
    )

Chain-first_linked :
    (headers : ℕ → Header) (a len : ℕ)
    → header_size ≤ len
    → Chain (linked headers 0 a len) 0 a ((true, len) ∷ [])
unfolding linked
Chain-first_linked headers a len long =
    let self : (a == a) ≡ true = ground arith in rw self (refl, long, tt)

-- The address behind the blocks, as `kmalloc` computes it.
address_behind : ℕ → (ℕ → Header) → ℕ
address_behind prev headers =
    if prev == 0 then v_mm_start else (prev + (headers prev).length) % 2 ^ 32

address_behind-last :
    (headers : ℕ → Header) (bs : Blocks)
    → Chain headers 0 v_mm_start bs
    → end_of v_mm_start bs < 2 ^ 32
    → address_behind (last_of 0 v_mm_start bs) headers ≡ end_of v_mm_start bs
unfolding address_behind
address_behind-last headers [] chain small = refl
address_behind-last headers (b ∷ bs) chain small =
    let (low, reach, inner) = last_of-end headers 0 v_mm_start b bs chain in
    let there : (last_of 0 v_mm_start (b ∷ bs) == 0) ≡ false = ground arith in
    rw (there, reach) (omega arith)

append_block_lem :
    (pgd size at : ℕ) (prev : ℕ) (h : Heap)
    → address_behind prev h.headers ≡ at
    → at + size < 2 ^ 32
    → header_size ≤ size
    → size < 2 ^ 31
    → append_block pgd size prev h ≡ (
        grow grow_fuel (at + size) pgd h.mm_top h.vm >>= λ (mm_top, vm). ok (
          at + header_size,
          record {
            headers = linked h.headers prev at size;
            first = if prev == 0 then at else h.first;
            mm_top = mm_top;
            vm = vm;
          },
        ))
unfolding append_block linked address_behind
append_block_lem pgd size at prev h e small long short =
    let wrap : (at + size) % 2 ^ 32 ≡ at + size = omega arith in
    let bits : size % 2 ^ 31 ≡ size = omega arith in
    let wrap' : (at + header_size) % 2 ^ 32 ≡ at + header_size = omega arith in
    rw (e, wrap, wrap', bits) refl

first_of-append :
    (headers : ℕ → Header) (bs : Blocks) (len : ℕ)
    → Chain headers 0 v_mm_start bs
    → (if last_of 0 v_mm_start bs == 0 then end_of v_mm_start bs else node_of bs v_mm_start)
      ≡ node_of (bs ++ (true, len) ∷ []) v_mm_start
first_of-append headers [] len chain = refl
first_of-append headers (b ∷ bs) len chain =
    let (low, reach, inner) = last_of-end headers 0 v_mm_start b bs chain in
    let there : (last_of 0 v_mm_start (b ∷ bs) == 0) ≡ false = ground arith in rw there refl

Chain-append :
    (headers : ℕ → Header) (len : ℕ) (bs : Blocks)
    → Chain headers 0 v_mm_start bs
    → header_size ≤ len
    → Chain
        (linked headers (last_of 0 v_mm_start bs) (end_of v_mm_start bs) len)
        0
        v_mm_start
        (bs ++ (true, len) ∷ [])
Chain-append headers len [] chain long = Chain-first_linked headers v_mm_start len long
Chain-append headers len (b ∷ bs) chain long =
    Chain-linked headers 0 v_mm_start len b bs (omega arith) long chain

-- The heap grows by a page for each of `n` rounds, and for each it takes at most two free ones; it
-- is short of pages for them.
abbrev pub Spends : ℕ → Heap → Heap → Type 0
Spends n h h' = (h.vm.pages.top ≤ h'.vm.pages.top + 2 * n) × (h'.mm_top ≡ h.mm_top + page_size * n)

abbrev pub IsShort : ℕ → Heap → Type 0
IsShort n h = h.vm.pages.top < 2 * n

append_block-IsHeap :
    (pgd size : ℕ) (bs : Blocks) (h : Heap)
    → IsHeap pgd bs h
    → header_size ≤ size
    → end_of v_mm_start bs + size + page_size < 2 ^ 32
    → ((h' : Heap) × (append_block pgd size (last_of 0 v_mm_start bs) h
          ≡ ok (end_of v_mm_start bs + header_size, h'))
        × IsHeap pgd (bs ++ (true, size) ∷ []) h'
        × Spends (rounds (end_of v_mm_start bs + size) h.mm_top) h h')
      ⊎ ((append_block pgd size (last_of 0 v_mm_start bs) h ≡ panic out_of_memory)
          × IsShort (rounds (end_of v_mm_start bs + size) h.mm_top) h)
unfolding grow_fuel
append_block-IsHeap pgd size bs h heap long room =
    let at = end_of v_mm_start bs in
    let prev = last_of 0 v_mm_start bs in
    let high = le-end_of h.headers 0 v_mm_start bs heap.chain in
    let reached = address_behind-last h.headers bs heap.chain (omega arith) in
    let call = append_block_lem pgd size at prev h reached (omega arith) long (omega arith) in
    elim (grow-IsTop grow_fuel (at + size) pgd v_mm_start h.mm_top h.vm heap.top room (omega arith)
      (omega arith)) [
        | inl (top', vm', grows, limit, above, top) ↦ inl (
          record {
            headers = linked h.headers prev at size;
            first = if prev == 0 then at else h.first;
            mm_top = top';
            vm = vm';
          },
          rw (call, grows) refl,
          record {
            starts = rw heap.starts (first_of-append h.headers bs size heap.chain);
            chain = Chain-append h.headers size bs heap.chain long;
            inside = omega (arith, end_of-append v_mm_start bs ((true, size) ∷ []));
            top = top;
          },
          grow-spends grow_fuel (at + size) pgd h.mm_top top' h.vm vm' room grows,
        )
        | inr fails ↦
            inr (rw (call, fails) refl, grow-few grow_fuel (at + size) pgd h.mm_top h.vm room fails)
      ]

-- When no block of a heap can hold a request with its header, the search has a round for each block
-- and one more, and the new end of the heap lies a page below 2^32, then `kmalloc` returns the
-- address behind a new header at the end of the blocks. The heap then has one block more, in use
-- and of the size of the request with its header, all blocks keep their place, and every address
-- of the heap has a page, and at most two free pages are used for each page that the heap grows by.
-- Otherwise there are fewer free pages than these, and `alloc_page` panics.
pub kmalloc-appends :
    (fuel pgd size : ℕ) (bs : Blocks) (h : Heap)
    → IsHeap pgd bs h
    → length bs < fuel
    → All (λ b. can_hold (size + header_size) b ≡ false) bs
    → end_of v_mm_start bs + (size + header_size) + page_size < 2 ^ 32
    → ((h' : Heap) × (kmalloc fuel pgd size h ≡ ok (end_of v_mm_start bs + header_size, h'))
        × IsHeap pgd (bs ++ (true, size + header_size) ∷ []) h'
        × Spends (rounds (end_of v_mm_start bs + (size + header_size)) h.mm_top) h h')
      ⊎ ((kmalloc fuel pgd size h ≡ panic out_of_memory)
          × IsShort (rounds (end_of v_mm_start bs + (size + header_size)) h.mm_top) h)
unfolding kmalloc
kmalloc-appends fuel pgd size bs h heap rounds none_fit room =
    let wrap : (size + header_size) % 2 ^ 32 ≡ size + header_size = omega arith in
    let search =
      find_fit-ends fuel (size + header_size) 0 v_mm_start h.headers bs heap.chain (omega arith)
        none_fit rounds in
    rw (wrap, heap.starts, search, wrap)
      (append_block-IsHeap pgd (size + header_size) bs h heap (omega arith) room)
