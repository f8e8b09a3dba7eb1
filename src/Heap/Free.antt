-- ===== src/Heap/Free.antt =====
-- `kfree` from the header on, for blocks that are not the last.
use ocean_os.Base.{
  ℕ, ◌+◌, ◌<◌, ◌≡◌, refl, sym, ap, ◌∙◌, ◌⊎◌, inl, inr, Bool, true, false, [], ◌∷◌, ◌++◌, arith,
  ◌==◌, length, ok,
}
use ocean_os.Heap.{Header, Heap, v_mm_start, store, merge_next, merge_prev, release}
use ocean_os.Heap.Chain.{
  Blocks, Chain, end_of, last_of, last_of-lt, le-prefix, le-end_of, end_of-append, lt-differ,
  gt-differ, same_test, node_of-append, Chain-store_before, Chain-suffix, Chain-glue,
}
use ocean_os.Heap.Append.{IsHeap}
use ocean_os.Heap.Reuse.{store-before}
use ocean_os.Heap.Merge.{
  remaining, grown, absorb, merge_next-kept, merge_next-absorb, end_of-absorb, node_of-some,
  merge_prev-kept, merge_prev-stale,
}

-- Whether the last block is in use, `otherwise` when there is none.
abbrev pub last_used : Bool → Blocks → Bool
last_used otherwise [] = otherwise
last_used otherwise ((used, len) ∷ bs) = last_used used bs

-- The block in front of the rest is in use, when there is one.
front-used :
    (headers : ℕ → Header) (p a : ℕ) (before : Blocks) (otherwise : Bool) (b : Bool × ℕ)
    (after : Blocks)
    → Chain headers p a (before ++ b ∷ after)
    → last_used otherwise before ≡ true
    → (otherwise ≡ true → (((headers p).used ≡ true) × (p < a)) ⊎ (p ≡ 0))
    → (((headers (last_of p a before)).used ≡ true) × (last_of p a before < end_of a before))
      ⊎ (last_of p a before ≡ 0)
front-used headers p a [] otherwise b after chain used first = first used
front-used headers p a ((u, l) ∷ before) otherwise b after chain used first =
    front-used headers a (a + l) before u b after chain.2 used
      (λ e. inl (ap (λ h. h.used) chain.0 ∙ e, omega (arith, chain.1)))

-- When the block in front of a block is in use, or there is none, then `kfree`, from its header on,
-- makes the block free and takes in the block behind it when that is free. The heap is
-- well-formed again with the blocks that are then left, provided that one is left behind it.
pub release-absorbs :
    (pgd : ℕ) (page : ℕ → ℕ) (before : Blocks) (used : Bool) (len : ℕ) (after : Blocks) (h : Heap)
    → IsHeap pgd (before ++ (used, len) ∷ after) h
    → last_used true before ≡ true
    → 0 < length (remaining after)
    → (h' : Heap) × (release pgd page (end_of v_mm_start before) h ≡ ok h')
      × IsHeap pgd (before ++ absorb len after) h'
unfolding release
release-absorbs pgd page before used len after h heap in_front more =
    let at = end_of v_mm_start before in
    let p = last_of 0 v_mm_start before in
    let freed = store h.headers at (record (h.headers at) { used = false }) in
    let low = le-prefix h.headers 0 v_mm_start before ((used, len) ∷ after) heap.chain in
    let (here, long, rest) =
      Chain-suffix h.headers 0 v_mm_start before ((used, len) ∷ after) heap.chain in
    let total = end_of-append v_mm_start before ((used, len) ∷ after) in
    let freed_rest : Chain freed p at ((false, len) ∷ after) = (
      rw (same_test at, here) refl,
      long,
      Chain-store_before h.headers at (record (h.headers at) { used = false }) at (at + len) after
          rest (omega arith),
    ) in
    let (merged, agree) =
      merge_next-absorb freed p at len after freed_rest (omega arith)
        (omega (arith, heap.inside, heap.top.small)) in
    let prev : (merge_next at freed at).prev ≡ p = ap (λ h. h.prev) merged.0 in
    let front : ((merge_next at freed at).prev ≡ 0)
        ⊎ ((merge_next at freed (merge_next at freed at).prev).used ≡ true) =
      elim (front-used h.headers 0 v_mm_start before true (used, len) after heap.chain in_front
        (λ e. inr refl)) [
          | inl (in_use, lower) ↦ inr (
              rw
                (
                  prev,
                  agree p lower,
                  store-before h.headers at (record (h.headers at) { used = false }) p lower,
                )
                in_use)
          | inr null ↦ inl (prev ∙ null)
        ] in
    let next : (merge_next at freed at).next ≡ at + grown len after =
      ap (λ h. h.next) merged.0 ∙ node_of-some (remaining after) (at + grown len after) more in
    let linked : (at + grown len after == 0) ≡ false = gt-differ (omega arith) in
    (
      record h { headers = merge_next at freed },
      rw (merge_prev-kept at (merge_next at freed) front, next, linked) refl,
      record {
        starts =
            heap.starts
            ∙ node_of-append before v_mm_start (used, len) after
            ∙ sym (node_of-append before v_mm_start (false, grown len after) (remaining after));
        chain =
            Chain-glue h.headers (merge_next at freed) 0 v_mm_start before (used, len)
              (false, grown len after) after (remaining after) heap.chain
              (λ x lower.
                agree x lower
                ∙ store-before h.headers at (record (h.headers at) { used = false }) x lower)
              merged;
        inside = omega (
          arith,
          heap.inside,
          total,
          end_of-append v_mm_start before (absorb len after),
          end_of-absorb used at len after,
        );
        top = heap.top;
      },
    )

-- When the block in front of a block is free, the one behind it in use, then `kfree`, from its
-- header on, adds the block's length to that of the block in front, whose `next` keeps the address
-- of the block that is gone, inside of the longer one.
pub release-stale :
    (pgd : ℕ) (page : ℕ → ℕ) (before : Blocks) (l0 : ℕ) (used : Bool) (len : ℕ) (l : ℕ)
    (after : Blocks) (h : Heap)
    → IsHeap pgd (before ++ (false, l0) ∷ (used, len) ∷ (true, l) ∷ after) h
    → (h' : Heap) × (release pgd page (end_of v_mm_start before + l0) h ≡ ok h')
      × (h'.headers (end_of v_mm_start before) ≡ record {
        prev = last_of 0 v_mm_start before;
        next = end_of v_mm_start before + l0;
        used = false;
        length = l0 + len;
      })
unfolding release
release-stale pgd page before l0 used len l after h heap =
    let at = end_of v_mm_start before in
    let node = at + l0 in
    let freed = store h.headers node (record (h.headers node) { used = false }) in
    let rest = (used, len) ∷ (true, l) ∷ after in
    let low = le-prefix h.headers 0 v_mm_start before ((false, l0) ∷ rest) heap.chain in
    let (front, long0, (here, long, (next, long', others))) =
      Chain-suffix h.headers 0 v_mm_start before ((false, l0) ∷ rest) heap.chain in
    let total = end_of-append v_mm_start before ((false, l0) ∷ rest) in
    let above = le-end_of h.headers (node + len) (node + len + l) after others in
    let apart : (at == node) ≡ false = lt-differ (omega arith) in
    let apart' : (node + len == node) ≡ false = gt-differ (omega arith) in
    let in_use : (freed (freed node).next).used ≡ true =
      rw (same_test node, here, apart', next) refl in
    let kept = merge_next-kept node freed (inr in_use) in
    let (to_front, merged) =
      merge_prev-stale freed at node (last_of 0 v_mm_start before) l0 len
        (rw (same_test node, here) refl) (rw (same_test node, here) refl) (rw (apart, front) refl)
        (omega arith)
        (last_of-lt h.headers 0 v_mm_start before ((false, l0) ∷ rest) heap.chain (omega arith))
        (omega (arith, heap.inside, heap.top.small)) in
    let linked : (node == 0) ≡ false = gt-differ (omega arith) in
    (
      record h { headers = (merge_prev node freed).1 },
      rw (kept, to_front, merged, linked) refl,
      merged,
    )
