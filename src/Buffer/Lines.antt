-- ===== src/Buffer/Lines.antt =====
-- The buffer holds the characters that were put since it was reset.
use mathlib.Core.List.{append-nil, append_assoc}
use ocean_os.Base.{
  ℕ, zero, suc, ◌+◌, ◌-◌, ◌≤◌, ◌<◌, ◌≡◌, refl, sym, ap, ◌∙◌, subst, ◌⊎◌, inl, inr, true, false,
  some, List, [], ◌∷◌, ◌++◌, arith, ltb, ◌==◌, Bool-cases, length, get_elem?, set, take,
  length-append, length-set, get_elem?-set_self, ok, fault, ◌>>=◌, lt_of_some,
}
use ocean_os.Buffer.{Buffer, max_length, store, init_buffer, put_buffer, get_last, getline, put_all}

-- The bytes before the position are the line.
pub record IsAt (b : Buffer) (line : List ℕ) : Type 0 where
  pub size : length b.temp ≡ max_length
  pub position : b.p ≡ length line
  pub starts : take (length line) b.temp ≡ line

-- The line has its terminator too.
abbrev pub Terminated : Buffer → Type 0
Terminated b = get_elem? b.temp b.p ≡ some 0

take-set : (xs : List ℕ) (n i c : ℕ) → n ≤ i → take n (set xs i c) ≡ take n xs
take-set xs zero i c h = refl
take-set [] (suc n) i c h = refl
take-set (x ∷ xs) (suc n) zero c h = absurd (omega arith)
take-set (x ∷ xs) (suc n) (suc i) c h = ap (◌∷◌ x) (take-set xs n i c (omega arith))

take-set_last :
    (xs : List ℕ) (n c : ℕ) → n < length xs → take (suc n) (set xs n c) ≡ take n xs ++ c ∷ []
take-set_last [] n c h = elim h [ ]
take-set_last (x ∷ xs) zero c h = refl
take-set_last (x ∷ xs) (suc n) c h = ap (◌∷◌ x) (take-set_last xs n c (omega arith))

suc_position : (n p : ℕ) → n ≡ p + 1 → n ≡ suc p
suc_position n p e = omega arith

set_same : (xs : List ℕ) (i x : ℕ) → get_elem? xs i ≡ some x → set xs i x ≡ xs
set_same [] i x e = refl
set_same (y ∷ xs) zero x e = cc
set_same (y ∷ xs) (suc i) x e = ap (◌∷◌ y) (set_same xs i x e)

last_of_take :
    (xs line : List ℕ) (c : ℕ)
    → take (length (line ++ c ∷ [])) xs ≡ line ++ c ∷ []
    → get_elem? xs (length line) ≡ some c
last_of_take [] [] c e = cc
last_of_take (x ∷ xs) [] c e = cc
last_of_take [] (d ∷ line) c e = cc
last_of_take (x ∷ xs) (d ∷ line) c e = last_of_take xs line c (cc)

-- A character joins the line, with a terminator behind it, while both have room in the buffer;
-- from the 511th character on, one of the two writes is behind the end of the buffer.
pub put_buffer-IsAt :
    (c : ℕ) (b : Buffer) (line : List ℕ)
    → IsAt b line
    → ((length line + 1 < max_length)
        × ((b' : Buffer) × (put_buffer c b ≡ ok b') × IsAt b' (line ++ c ∷ []) × Terminated b'))
      ⊎ ((max_length ≤ length line + 1) × (put_buffer c b ≡ fault))
unfolding put_buffer store
put_buffer-IsAt c b line at = elim (Bool-cases (ltb (length line + 1) max_length)) [
  | inr full ↦ inr (ground arith, ground (arith, at.position, at.size, length-set b.temp b.p c))
  | inl room ↦
      let h : length line + 1 < max_length = ground arith in
      let grown = length-append line (c ∷ []) in
      let once = length-set b.temp b.p c in
      let twice = length-set (set b.temp b.p c) (b.p + 1) 0 in
      inl (
        h,
        (
          record { temp = set (set b.temp b.p c) (b.p + 1) 0; p = b.p + 1 },
          ground (arith, at.position, at.size, once),
          record {
            size = twice ∙ once ∙ at.size;
            position = omega (arith, at.position, grown);
            starts =
                ap (λ k. take k (set (set b.temp b.p c) (b.p + 1) 0))
                  (suc_position (length (line ++ c ∷ [])) b.p (omega (arith, at.position, grown)))
                ∙ take-set (set b.temp b.p c) (suc b.p) (b.p + 1) 0 (omega arith)
                ∙ take-set_last b.temp b.p c (omega (arith, at.size, at.position))
                ∙ ap (λ k. take k b.temp ++ c ∷ []) at.position
                ∙ ap (λ t. t ++ c ∷ []) at.starts;
          },
          get_elem?-set_self (set b.temp b.p c) (b.p + 1) 0 (omega (arith, at.size, at.position)),
        ),
      )
]

pub put_all-IsAt :
    (cs : List ℕ) (b : Buffer) (line : List ℕ)
    → IsAt b line
    → length line + length cs < max_length
    → (b' : Buffer) × (put_all cs b ≡ ok b')
      × IsAt b' (line ++ cs)
      × (Terminated b ⊎ (0 < length cs) → Terminated b')
unfolding put_all
put_all-IsAt [] b line at room = (
  b,
  refl,
  subst (IsAt b) (sym (append-nil line)) at,
  λ t. elim t [ inl ended ↦ ended | inr some_char ↦ absurd (omega arith) ],
)
put_all-IsAt (c ∷ cs) b line at room = elim (put_buffer-IsAt c b line at) [
  | inr (full, _) ↦ absurd (omega arith)
  | inl (_, (b₁, e, at₁, ended)) ↦
      let longer = length-append line (c ∷ []) in
      let (b', run, at', keeps) = put_all-IsAt cs b₁ (line ++ c ∷ []) at₁ (omega (arith, longer)) in
      (b', rw e run, subst (IsAt b') (append_assoc line (c ∷ []) cs) at', λ _. keeps (inl ended))
]

-- After `init_buffer` the buffer holds no line.
pub init_buffer-IsAt :
    (b : Buffer)
    → length b.temp ≡ max_length
    → b.p < max_length
    → (b' : Buffer) × (init_buffer b ≡ ok b') × IsAt b' []
unfolding init_buffer store
init_buffer-IsAt b size inside =
    let stored : ltb b.p (length b.temp) ≡ true = ground arith in
    (
      record { temp = set b.temp b.p 0; p = 0 },
      rw stored refl,
      record { size = length-set b.temp b.p 0 ∙ size; position = refl; starts = refl },
    )

-- After `init_buffer` on a buffer with its position inside, putting the characters of a line of
-- one to 510 characters succeeds. The buffer then starts with exactly the line and its terminator.
put_all-init_buffer :
    (b : Buffer) (c : ℕ) (cs : List ℕ)
    → length b.temp ≡ max_length
    → b.p < max_length
    → length cs + 2 ≤ max_length
    → (b' : Buffer) × ((init_buffer b >>= put_all (c ∷ cs)) ≡ ok b')
      × IsAt b' (c ∷ cs)
      × Terminated b'
unfolding put_all
put_all-init_buffer b c cs size inside short =
    let (reset, starts, at) = init_buffer-IsAt b size inside in
    let (b', run, at', ended) = put_all-IsAt (c ∷ cs) reset [] at (omega arith) in
    (b', rw starts run, at', ended (inr (omega arith)))

-- `get_last` of a buffer that holds a line with a character at its end returns that character.
pub get_last-last :
    (b : Buffer) (line : List ℕ) (c d : ℕ) → IsAt b (line ++ c ∷ []) → get_last d b ≡ ok c
unfolding get_last
get_last-last b line c d at =
    let grown = length-append line (c ∷ []) in
    let before : b.p - 1 ≡ length line = omega (arith, at.position, grown) in
    let nonzero : (b.p == 0) ≡ false = ground (arith, at.position, grown) in
    let read = ap (get_elem? b.temp) before ∙ last_of_take b.temp line c at.starts in
    rw (nonzero, read)

pub get_last-empty : (b : Buffer) (d : ℕ) → b.p ≡ 0 → get_last d b ≡ ok d
unfolding get_last
get_last-empty b d start = let empty : (b.p == 0) ≡ true = ground arith in rw empty refl

-- `init_buffer` on a terminated line leaves `getline` as it was: only the position goes back, and
-- the old line stays readable until the first character is put.
pub init_buffer-stale :
    (b : Buffer)
    → Terminated b
    → (b' : Buffer) × (init_buffer b ≡ ok b') × (getline b' ≡ getline b) × (b'.p ≡ 0)
unfolding init_buffer store getline
init_buffer-stale b ended = (
  record { temp = set b.temp b.p 0; p = 0 },
  ground (arith, lt_of_some b.temp b.p 0 ended),
  set_same b.temp b.p 0 ended,
  refl,
)
