-- ===== src/Process/Links.antt =====
-- The links between threads as lists of addresses.
use ocean_os.Base.{
  ℕ, zero, suc, ◌<◌, ◌≡◌, ap, ◌∙◌, subst, ◌≢◌, false, Option, none, some, List, [], ◌∷◌, ◌++◌,
  arith, ◌==◌, All, length, get_elem?, get_or, ok,
}
use ocean_os.Process.{Process, find_last}

-- From `p` the links go through `qs` and then to `head`.
abbrev pub Linked : (ℕ → Process) → ℕ → ℕ → List ℕ → Type 0
Linked procs head p [] = (procs p).next ≡ head
Linked procs head p (q ∷ qs) = ((procs p).next ≡ q) × Linked procs head q qs

abbrev pub Distinct : ℕ → List ℕ → Type 0
Distinct p [] = Unit
Distinct p (q ∷ qs) = All (λ x. p ≢ x) (q ∷ qs) × Distinct q qs

abbrev pub last_of : ℕ → List ℕ → ℕ
last_of p [] = p
last_of p (q ∷ qs) = last_of q qs

pub All-last_of : (P : ℕ → Type 0) (p : ℕ) (qs : List ℕ) → All P (p ∷ qs) → P (last_of p qs)
All-last_of P p [] all = all.0
All-last_of P p (q ∷ qs) all = All-last_of P q qs all.1

pub find_last-last_of :
    (fuel head p : ℕ) (procs : ℕ → Process) (qs : List ℕ)
    → Linked procs head p qs
    → All (λ x. head ≢ x) qs
    → All (λ x. x ≢ 0) (p ∷ qs)
    → length qs < fuel
    → find_last fuel head p procs ≡ ok (last_of p qs)
unfolding find_last
find_last-last_of zero head p procs qs links others nonzero enough = absurd (omega arith)
find_last-last_of (suc fuel) head p procs [] links others nonzero enough = ground (arith, nonzero.0)
find_last-last_of (suc fuel) head p procs (q ∷ qs) links others nonzero enough =
    let there : (p == 0) ≡ false = ground (arith, nonzero.0) in
    let more : (q == head) ≡ false = ground (arith, others.0) in
    rw (there, links.0, more)
      (find_last-last_of fuel head q procs qs links.1 others.1 nonzero.1 (omega arith))

pub Linked-append :
    (procs procs' : ℕ → Process) (head new p : ℕ) (qs : List ℕ)
    → Linked procs head p qs
    → Distinct p qs
    → All (λ x. x ≢ new) (p ∷ qs)
    → (procs' (last_of p qs)).next ≡ new
    → (procs' new).next ≡ head
    → ((x : ℕ) → x ≢ last_of p qs → x ≢ new → (procs' x).next ≡ (procs x).next)
    → Linked procs' head p (qs ++ new ∷ [])
Linked-append procs procs' head new p [] links distinct fresh to_new to_head kept =
    (to_new, to_head)
Linked-append procs procs' head new p (q ∷ qs) links distinct fresh to_new to_head kept = (
  kept p (All-last_of (λ x. p ≢ x) q qs distinct.0) fresh.0 ∙ links.0,
  Linked-append procs procs' head new q qs links.1 distinct.1 fresh.1 to_new to_head kept,
)

pub Linked-kept :
    (procs procs' : ℕ → Process) (head new p : ℕ) (qs : List ℕ)
    → Linked procs head p qs
    → All (λ x. x ≢ new) (p ∷ qs)
    → ((x : ℕ) → x ≢ new → (procs' x).next ≡ (procs x).next)
    → Linked procs' head p qs
Linked-kept procs procs' head new p [] links fresh kept = kept p fresh.0 ∙ links
Linked-kept procs procs' head new p (q ∷ qs) links fresh kept =
    (kept p fresh.0 ∙ links.0, Linked-kept procs procs' head new q qs links.1 fresh.1 kept)

pub All-append : (P : ℕ → Type 0) (xs : List ℕ) (x : ℕ) → All P xs → P x → All P (xs ++ x ∷ [])
All-append P [] x all holds = (holds, tt)
All-append P (y ∷ xs) x all holds = (all.0, All-append P xs x all.1 holds)

pub Distinct-append :
    (p new : ℕ) (qs : List ℕ)
    → Distinct p qs
    → All (λ x. x ≢ new) (p ∷ qs)
    → Distinct p (qs ++ new ∷ [])
Distinct-append p new [] distinct fresh = ((fresh.0, tt), tt)
Distinct-append p new (q ∷ qs) distinct fresh = (
  All-append (λ x. p ≢ x) (q ∷ qs) new distinct.0 fresh.0,
  Distinct-append q new qs distinct.1 fresh.1,
)

pub Distinct-head : (p : ℕ) (qs : List ℕ) → Distinct p qs → All (λ x. p ≢ x) qs
Distinct-head p [] distinct = tt
Distinct-head p (q ∷ qs) distinct = distinct.0

pub get_elem?-append :
    (xs : List ℕ) (i x y : ℕ) → get_elem? xs i ≡ some x → get_elem? (xs ++ y ∷ []) i ≡ some x
get_elem?-append [] i x y e = cc
get_elem?-append (z ∷ xs) zero x y e = e
get_elem?-append (z ∷ xs) (suc i) x y e = get_elem?-append xs i x y e

value_of : Option ℕ → ℕ
value_of none = 0
value_of (some x) = x

pub some_value : (x y : ℕ) → some x ≡ some y → x ≡ y
unfolding value_of
some_value x y e = ap value_of e

-- The link of the thread at index `i`.
pub next-Linked :
    (procs : ℕ → Process) (head p : ℕ) (qs : List ℕ) (i x : ℕ)
    → Linked procs head p qs
    → get_elem? (p ∷ qs) i ≡ some x
    → (procs x).next ≡ get_or qs i head
next-Linked procs head p [] zero x links e =
    subst (λ y. (procs y).next ≡ head) (some_value p x e) links
next-Linked procs head p [] (suc i) x links e = cc
next-Linked procs head p (q ∷ qs) zero x links e =
    subst (λ y. (procs y).next ≡ q) (some_value p x e) links.0
next-Linked procs head p (q ∷ qs) (suc i) x links e = next-Linked procs head q qs i x links.1 e

pub All-get_elem? :
    (P : ℕ → Type 0) (xs : List ℕ) (i x : ℕ) → All P xs → get_elem? xs i ≡ some x → P x
All-get_elem? P [] i x all e = cc
All-get_elem? P (y ∷ xs) zero x all e = subst P (some_value y x e) all.0
All-get_elem? P (y ∷ xs) (suc i) x all e = All-get_elem? P xs i x all.1 e

pub past_second :
    (q : ℕ) (qs : List ℕ) (h x j : ℕ)
    → get_elem? (h ∷ qs) j ≡ some x
    → (k : ℕ) × (get_elem? (h ∷ q ∷ qs) k ≡ some x)
past_second q qs h x zero e = (0, e)
past_second q qs h x (suc j) e = (suc (suc j), e)
