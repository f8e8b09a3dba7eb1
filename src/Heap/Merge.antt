-- ===== src/Heap/Merge.antt =====
-- The two merges of `kfree`.
use ocean_os.Base.{
  ℕ, ◌+◌, ◌%◌, ◌^◌, ◌<◌, ◌≡◌, refl, sym, ap, ◌∙◌, subst, ◌≢◌, ◌⊎◌, inl, inr, Bool, true, false, [],
  ◌∷◌, arith, ◌==◌, ==_iff, Bool-cases, length,
}
use ocean_os.Heap.{Header, merge_next, merge_prev}
use ocean_os.Heap.Chain.{
  Blocks, node_of, Chain, end_of, le-end_of, gt-differ, same_test, Chain-agree,
}

pub merge_next-kept :
    (node : ℕ) (headers : ℕ → Header)
    → ((headers node).next ≡ 0) ⊎ ((headers (headers node).next).used ≡ true)
    → merge_next node headers ≡ headers
unfolding merge_next
merge_next-kept node headers (inl last) = rw last refl
merge_next-kept node headers (inr in_use) = elim (Bool-cases ((headers node).next == 0)) [
  | inl null ↦ rw (in_use, null) refl
  | inr there ↦ rw (in_use, there) refl
]

-- The blocks that are left behind one that is freed, and its length: it takes in the next one when
-- that is free.
abbrev pub remaining : Blocks → Blocks
remaining [] = []
remaining ((true, l) ∷ after) = (true, l) ∷ after
remaining ((false, l) ∷ after) = after

abbrev pub grown : ℕ → Blocks → ℕ
grown len [] = len
grown len ((true, l) ∷ after) = len
grown len ((false, l) ∷ after) = len + l

abbrev pub absorb : ℕ → Blocks → Blocks
absorb len after = (false, grown len after) ∷ remaining after

-- The header of a block that takes in the free one behind it, and the link back to it.
merge_next-merged :
    (headers : ℕ → Header) (p a len l after : ℕ)
    → headers a ≡ record { prev = p; next = a + len; used = false; length = len }
    → headers (a + len) ≡ record { prev = a; next = after; used = false; length = l }
    → 0 < a
    → 0 < len
    → len + l < 2 ^ 31
    → after ≢ a
    → after ≢ a + len
    → (merge_next a headers a ≡ record { prev = p; next = after; used = false; length = len + l })
      × ((x : ℕ) → x ≢ a → (x ≡ after → after ≡ 0) → merge_next a headers x ≡ headers x)
      × (after ≢ 0 → merge_next a headers after ≡ record (headers after) { prev = a })
unfolding merge_next
merge_next-merged headers p a len l after here next pos long small apart beyond =
    let there : (a + len == 0) ≡ false = gt-differ (omega arith) in
    let wrap : (len + l) % 2 ^ 31 ≡ len + l = omega arith in
    let differ : (a + len == a) ≡ false = gt-differ (omega arith) in
    let apart' : (a == after) ≡ false = ground arith in
    let apart'' : (after == a) ≡ false = ground arith in
    let beyond' : (a + len == after) ≡ false = ground arith in
    elim (Bool-cases (after == 0)) [
      | inl last ↦ (
        rw (here, next, there, wrap, last, same_test a, differ, next) refl,
        λ x other off.
            let other' : (x == a) ≡ false = ground arith in
            rw (here, next, there, wrap, last, other') refl,
        λ some. absurd (some ((==_iff after 0).0 last)),
      )
      | inr more ↦
          let null_free : after ≢ 0 = ground arith in
          (
            rw (here, next, there, wrap, more, differ, same_test a, apart', beyond', next) refl,
            λ x other off.
                let other' : (x == a) ≡ false = ground arith in
                let off' : (x == after) ≡ false = elim (Bool-cases (x == after)) [
                  | inl same ↦ absurd (null_free (off ((==_iff x after).0 same)))
                  | inr other'' ↦ other''
                ] in
                rw (here, next, there, wrap, more, other', off') refl,
            λ some. rw (here, next, there, wrap, more, apart'', same_test after) refl,
          )
    ]

kept :
    (headers : ℕ → Header) (p a len : ℕ) (after : Blocks)
    → merge_next a headers ≡ headers
    → Chain headers p a ((false, len) ∷ after)
    → Chain (merge_next a headers) p a ((false, len) ∷ after)
      × ((x : ℕ) → x < a → merge_next a headers x ≡ headers x)
kept headers p a len after same chain =
    subst (λ hs. Chain hs p a ((false, len) ∷ after) × ((x : ℕ) → x < a → hs x ≡ headers x))
      (sym same) (chain, λ x low. refl)

pub merge_next-absorb :
    (headers : ℕ → Header) (p a len : ℕ) (after : Blocks)
    → Chain headers p a ((false, len) ∷ after)
    → 0 < a
    → end_of a ((false, len) ∷ after) < a + 2 ^ 31
    → Chain (merge_next a headers) p a (absorb len after)
      × ((x : ℕ) → x < a → merge_next a headers x ≡ headers x)
merge_next-absorb headers p a len [] chain pos small =
    kept headers p a len [] (merge_next-kept a headers (inl (ap (λ h. h.next) chain.0))) chain
merge_next-absorb headers p a len ((true, l) ∷ after) chain pos small =
    let next = ap (λ h. h.next) chain.0 in
    let in_use : (headers (headers a).next).used ≡ true = rw next (ap (λ h. h.used) chain.2.0) in
    kept headers p a len ((true, l) ∷ after) (merge_next-kept a headers (inr in_use)) chain
merge_next-absorb headers p a len ((false, l) ∷ []) chain pos small =
    let (here, long, (next, long', rest)) = chain in
    let (self, others, back) =
      merge_next-merged headers p a len l 0 here next pos (omega arith) (omega arith) (omega arith)
        (omega arith) in
    ((self, omega arith, tt), λ x low. others x (omega arith) (λ null. refl))
merge_next-absorb headers p a len ((false, l) ∷ (u, l') ∷ after) chain pos small =
    let (here, long, (next, long', (there, long'', rest))) = chain in
    let above = le-end_of headers (a + len + l) (a + len + l + l') after rest in
    let (self, others, back) =
      merge_next-merged headers p a len l (a + len + l) here next pos (omega arith) (omega arith)
        (omega arith) (omega arith) in
    let at : a + (len + l) ≡ a + len + l = omega arith in
    let rest' : Chain (merge_next a headers) (a + len + l) (a + len + l + l') after =
      Chain-agree headers (merge_next a headers) (a + len + l) (a + len + l + l') after rest
        (λ x high. others x (omega arith) (λ same. absurd (omega arith))) in
    (
      rw at (self, omega arith, (back (omega arith) ∙ rw there refl, long'', rest')),
      λ x low. others x (omega arith) (λ same. absurd (omega arith)),
    )

pub end_of-absorb :
    (used : Bool) (a len : ℕ) (after : Blocks)
    → end_of a (absorb len after) ≡ end_of a ((used, len) ∷ after)
end_of-absorb used a len [] = refl
end_of-absorb used a len ((true, l) ∷ after) = refl
end_of-absorb used a len ((false, l) ∷ after) =
    let at : a + (len + l) ≡ a + len + l = omega arith in ap (λ x. end_of x after) at

pub node_of-some : (bs : Blocks) (x : ℕ) → 0 < length bs → node_of bs x ≡ x
node_of-some [] x more = absurd (omega arith)
node_of-some (b ∷ bs) x more = refl

pub merge_prev-kept :
    (node : ℕ) (headers : ℕ → Header)
    → ((headers node).prev ≡ 0) ⊎ ((headers (headers node).prev).used ≡ true)
    → merge_prev node headers ≡ (node, headers)
unfolding merge_prev
merge_prev-kept node headers (inl first) = rw first refl
merge_prev-kept node headers (inr in_use) = elim (Bool-cases ((headers node).prev == 0)) [
  | inl null ↦ rw (in_use, null) refl
  | inr there ↦ rw (in_use, there) refl
]

pub merge_prev-stale :
    (headers : ℕ → Header) (front node before l0 len : ℕ)
    → (headers node).prev ≡ front
    → (headers node).length ≡ len
    → headers front ≡ record { prev = before; next = node; used = false; length = l0 }
    → 0 < front
    → before < front
    → l0 + len < 2 ^ 31
    → ((merge_prev node headers).0 ≡ front)
      × ((merge_prev node headers).1 front
          ≡ record { prev = before; next = node; used = false; length = l0 + len })
unfolding merge_prev
merge_prev-stale headers front node before l0 len prev long here pos lower small =
    let there : (front == 0) ≡ false = ground arith in
    let wrap : (len + l0) % 2 ^ 31 ≡ l0 + len = omega arith in
    let differ : (front == before) ≡ false = gt-differ lower in
    elim (Bool-cases (before == 0)) [
      | inl first ↦ (
        rw (prev, here, there) refl,
        rw (prev, here, there, long, wrap, same_test front, first, same_test front) refl,
      )
      | inr more ↦ (
        rw (prev, here, there) refl,
        rw (prev, here, there, long, wrap, same_test front, more, differ, same_test front) refl,
      )
    ]
