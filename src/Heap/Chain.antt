-- ===== src/Heap/Chain.antt =====
-- The headers as the list of the blocks that they describe.
use ocean_os.Base.{
  ℕ, zero, suc, ◌+◌, ◌≤◌, ◌<◌, ◌≡◌, refl, ap, Bool, true, false, ◌&&◌, not, List, [], ◌∷◌, ◌++◌,
  arith, leb, ◌==◌, All, length, ok,
}
use ocean_os.Heap.{Header, fits, ends, header_size, store, find_fit}

-- A block: whether it is in use, and its length with its header.
abbrev pub Blocks : Type 0
Blocks = List (Bool × ℕ)

-- The address of the first block of the rest of the chain, or the null pointer.
abbrev pub node_of : Blocks → ℕ → ℕ
node_of [] a = 0
node_of (b ∷ bs) a = a

-- The blocks stand one behind the other from `a` on, linked both ways, behind the block `p`.
abbrev pub Chain : (ℕ → Header) → ℕ → ℕ → Blocks → Type 0
Chain headers p a [] = Unit
Chain headers p a ((used, len) ∷ bs) =
    (headers a ≡ record { prev = p; next = node_of bs (a + len); used = used; length = len })
    × (header_size ≤ len)
    × Chain headers a (a + len) bs

-- The address behind the blocks, and that of the last one.
abbrev pub end_of : ℕ → Blocks → ℕ
end_of a [] = a
end_of a ((used, len) ∷ bs) = end_of (a + len) bs

abbrev pub last_of : ℕ → ℕ → Blocks → ℕ
last_of p a [] = p
last_of p a ((used, len) ∷ bs) = last_of a (a + len) bs

pub le-end_of :
    (headers : ℕ → Header) (p a : ℕ) (bs : Blocks) → Chain headers p a bs → a ≤ end_of a bs
le-end_of headers p a [] chain = omega arith
le-end_of headers p a ((used, len) ∷ bs) chain =
    omega (arith, le-end_of headers a (a + len) bs chain.2)

-- The last of some blocks reaches to their end.
pub last_of-end :
    (headers : ℕ → Header) (p a : ℕ) (b : Bool × ℕ) (bs : Blocks)
    → Chain headers p a (b ∷ bs)
    → (a ≤ last_of p a (b ∷ bs))
      × (last_of p a (b ∷ bs) + (headers (last_of p a (b ∷ bs))).length ≡ end_of a (b ∷ bs))
      × (last_of p a (b ∷ bs) + header_size ≤ end_of a (b ∷ bs))
last_of-end headers p a (used, len) [] chain =
    (omega arith, ap (λ h. a + h.length) chain.0, omega (arith, chain.1))
last_of-end headers p a (used, len) (b ∷ bs) chain =
    let (low, reach, inside) = last_of-end headers a (a + len) b bs chain.2 in
    (omega arith, reach, inside)

-- A block in which a request of `size` bytes fits.
abbrev pub can_hold : ℕ → Bool × ℕ → Bool
can_hold size (used, len) = not used && leb size len

pub find_fit-ends :
    (fuel size p a : ℕ) (headers : ℕ → Header) (bs : Blocks)
    → Chain headers p a bs
    → 0 < a
    → All (λ b. can_hold size b ≡ false) bs
    → length bs < fuel
    → find_fit fuel size (node_of bs a) p headers ≡ ok (ends (last_of p a bs))
unfolding find_fit
find_fit-ends zero size p a headers bs chain pos none_fit enough = absurd (omega arith)
find_fit-ends (suc fuel) size p a headers [] chain pos none_fit enough = refl
find_fit-ends (suc fuel) size p a headers ((used, len) ∷ bs) chain pos none_fit enough =
    let there : (a == 0) ≡ false = ground arith in
    rw (there, chain.0, none_fit.0)
      (find_fit-ends fuel size a (a + len) headers bs chain.2 (omega arith) none_fit.1
        (omega arith))

-- There is a block at `x`.
pub node_of-append :
    (bs : Blocks) (x : ℕ) (b : Bool × ℕ) (after : Blocks) → node_of (bs ++ b ∷ after) x ≡ x
node_of-append [] x b after = refl
node_of-append (c ∷ bs) x b after = refl

-- The first block that can hold the request, behind `before`.
pub find_fit-fits :
    (fuel size p a : ℕ) (headers : ℕ → Header) (before : Blocks) (len : ℕ) (after : Blocks)
    → Chain headers p a (before ++ (false, len) ∷ after)
    → 0 < a
    → All (λ b. can_hold size b ≡ false) before
    → size ≤ len
    → length before < fuel
    → find_fit fuel size a p headers ≡ ok (fits (end_of a before))
unfolding find_fit
find_fit-fits zero size p a headers before len after chain pos others holds enough =
    absurd (omega arith)
find_fit-fits (suc fuel) size p a headers [] len after chain pos others holds enough =
    let there : (a == 0) ≡ false = ground arith in
    let fitting : leb size len ≡ true = ground arith in rw (there, chain.0, fitting) refl
find_fit-fits (suc fuel) size p a headers ((u, l) ∷ before) len after chain pos others holds
      enough =
    let there : (a == 0) ≡ false = ground arith in
    let more : node_of (before ++ (false, len) ∷ after) (a + l) ≡ a + l =
      node_of-append before (a + l) (false, len) after in
    rw (there, chain.0, others.0, more)
      (find_fit-fits fuel size a (a + l) headers before len after chain.2 (omega arith) others.1
        holds (omega arith))

pub le-prefix :
    (headers : ℕ → Header) (p a : ℕ) (before after : Blocks)
    → Chain headers p a (before ++ after)
    → a ≤ end_of a before
le-prefix headers p a [] after chain = omega arith
le-prefix headers p a ((used, len) ∷ before) after chain =
    omega (arith, le-prefix headers a (a + len) before after chain.2)

pub lt-differ : {a b : ℕ} → a < b → (a == b) ≡ false
lt-differ less = ground arith

pub gt-differ : {a b : ℕ} → b < a → (a == b) ≡ false
gt-differ more = ground arith

pub same_test : (a : ℕ) → (a == a) ≡ true
same_test a = ground arith

-- Headers that agree on the blocks' addresses describe the same blocks.
pub Chain-agree :
    (headers headers' : ℕ → Header) (p a : ℕ) (bs : Blocks)
    → Chain headers p a bs
    → ((x : ℕ) → a ≤ x → headers' x ≡ headers x)
    → Chain headers' p a bs
Chain-agree headers headers' p a [] chain agree = chain
Chain-agree headers headers' p a ((used, len) ∷ bs) chain agree = (
  rw (agree a (omega arith)) chain.0,
  chain.1,
  Chain-agree headers headers' a (a + len) bs chain.2 (λ x high. agree x (omega arith)),
)

-- A header that is written in front of the blocks changes none of them.
pub Chain-store_before :
    (headers : ℕ → Header) (at : ℕ) (v : Header) (p a : ℕ) (bs : Blocks)
    → Chain headers p a bs
    → at < a
    → Chain (store headers at v) p a bs
Chain-store_before headers at v p a bs chain low =
    Chain-agree headers (store headers at v) p a bs chain
      (λ x high. let other : (x == at) ≡ false = gt-differ (omega arith) in rw other refl)

-- The blocks behind `before`, and other headers for them.
pub Chain-suffix :
    (headers : ℕ → Header) (p a : ℕ) (before after : Blocks)
    → Chain headers p a (before ++ after)
    → Chain headers (last_of p a before) (end_of a before) after
Chain-suffix headers p a [] after chain = chain
Chain-suffix headers p a ((used, len) ∷ before) after chain =
    Chain-suffix headers a (a + len) before after chain.2

pub Chain-glue :
    (headers headers' : ℕ → Header) (p a : ℕ) (before : Blocks) (b b' : Bool × ℕ)
    (after after' : Blocks)
    → Chain headers p a (before ++ b ∷ after)
    → ((x : ℕ) → x < end_of a before → headers' x ≡ headers x)
    → Chain headers' (last_of p a before) (end_of a before) (b' ∷ after')
    → Chain headers' p a (before ++ b' ∷ after')
Chain-glue headers headers' p a [] b b' after after' chain agree new = new
Chain-glue headers headers' p a ((used, len) ∷ before) b b' after after' chain agree new =
    let under = le-prefix headers a (a + len) before (b ∷ after) chain.2 in
    let link = node_of-append before (a + len) b after in
    let link' = node_of-append before (a + len) b' after' in
    (
      rw (agree a (omega (arith, chain.1)), link') (rw link at chain.0),
      chain.1,
      Chain-glue headers headers' a (a + len) before b b' after after' chain.2 agree new,
    )

pub end_of-append :
    (a : ℕ) (before after : Blocks) → end_of a (before ++ after) ≡ end_of (end_of a before) after
end_of-append a [] after = refl
end_of-append a ((used, len) ∷ before) after = end_of-append (a + len) before after

pub last_of-lt :
    (headers : ℕ → Header) (p a : ℕ) (before after : Blocks)
    → Chain headers p a (before ++ after)
    → p < a
    → last_of p a before < end_of a before
last_of-lt headers p a [] after chain lower = lower
last_of-lt headers p a ((used, len) ∷ before) after chain lower =
    last_of-lt headers a (a + len) before after chain.2 (omega (arith, chain.1))
