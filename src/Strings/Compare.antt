-- ===== src/Strings/Compare.antt =====
-- What the comparing functions of src/string.c answer.
use native.Mathlib.Decide.{ℕ_discrete}
use ocean_os.Base.{
  ℕ, ◌≡◌, refl, sym, ap₂, ◌↔◌, List, [], ◌∷◌, ◌++◌, arith, length, take, Result, ok,
}
use ocean_os.Base.Int.{ℤ, pos, neg, sub_ℕ}
use ocean_os.Strings.{strcmp, strncmp, IsText}

sub_ℕ-zero : (a b : ℕ) → sub_ℕ a b ≡ pos 0 → a ≡ b
sub_ℕ-zero a b h = ground arith

sub_ℕ-neg : (a b : ℕ) → sub_ℕ b a ≡ neg (sub_ℕ a b)
sub_ℕ-neg a b = ground arith

cons_head : {c d : ℕ} {cs ds : List ℕ} → c ∷ cs ≡ d ∷ ds → c ≡ d
cons_head e = cc

cons_tail : {c d : ℕ} {cs ds : List ℕ} → c ∷ cs ≡ d ∷ ds → cs ≡ ds
cons_tail e = cc

-- What a comparison of two strings answers: 0 exactly for equal ones, and the opposite sign when
-- the two change places.
abbrev pub Compares : List ℕ → List ℕ → Result ℤ → Result ℤ → Type 0
Compares cs ds r r' = (z : ℤ) × (r ≡ ok z) × (r' ≡ ok (neg z)) × ((z ≡ pos 0) ↔ (cs ≡ ds))

-- `strcmp` of two strings returns, answers 0 exactly when they are equal, and its answer changes
-- its sign when they change places.
pub strcmp-Compares :
    (cs ds rest rest' : List ℕ)
    → IsText cs
    → IsText ds
    → Compares cs ds
        (strcmp (cs ++ 0 ∷ rest) (ds ++ 0 ∷ rest'))
        (strcmp (ds ++ 0 ∷ rest') (cs ++ 0 ∷ rest))
unfolding strcmp
strcmp-Compares [] [] rest rest' text text' = (pos 0, refl, refl, (λ _. refl, λ _. refl))
strcmp-Compares [] (d ∷ ds) rest rest' text text' = (
  sub_ℕ 0 d,
  ground arith,
  ground (arith, sub_ℕ-neg 0 d),
  (λ e. absurd (text'.0 (sym (sub_ℕ-zero 0 d e))), λ e. cc),
)
strcmp-Compares (c ∷ cs) [] rest rest' text text' = (
  sub_ℕ c 0,
  ground arith,
  ground (arith, sub_ℕ-neg c 0),
  (λ e. absurd (text.0 (sub_ℕ-zero c 0 e)), λ e. cc),
)
strcmp-Compares (c ∷ cs) (d ∷ ds) rest rest' text text' = elim (ℕ_discrete c d) [
  | yes same ↦
      let (z, e, e', both) = strcmp-Compares cs ds rest rest' text.1 text'.1 in
      (
        z,
        ground arith,
        ground arith,
        (λ zero_ans. ap₂ ◌∷◌ same (both.0 zero_ans), λ e. both.1 (cons_tail e)),
      )
  | no other ↦ (
    sub_ℕ c d,
    ground arith,
    ground (arith, sub_ℕ-neg c d),
    (λ e. absurd (other (sub_ℕ-zero c d e)), λ e. absurd (other (cons_head e))),
  )
]

-- `strncmp` of a string with the whole of another one returns, and answers 0 exactly when the
-- second is a prefix of the first.
pub strncmp-prefix :
    (cs ds rest rest' : List ℕ)
    → IsText cs
    → IsText ds
    → (z : ℤ) × (strncmp (cs ++ 0 ∷ rest) (ds ++ 0 ∷ rest') (length ds) ≡ ok z)
      × ((z ≡ pos 0) ↔ (take (length ds) cs ≡ ds))
unfolding strncmp
strncmp-prefix cs [] rest rest' text text' = (pos 0, refl, (λ _. refl, λ _. refl))
strncmp-prefix [] (d ∷ ds) rest rest' text text' =
    (sub_ℕ 0 d, ground arith, (λ e. absurd (text'.0 (sym (sub_ℕ-zero 0 d e))), λ e. cc))
strncmp-prefix (c ∷ cs) (d ∷ ds) rest rest' text text' = elim (ℕ_discrete c d) [
  | yes same ↦
      let (z, e, both) = strncmp-prefix cs ds rest rest' text.1 text'.1 in
      (z, ground arith, (λ zero_ans. ap₂ ◌∷◌ same (both.0 zero_ans), λ e. both.1 (cons_tail e)))
  | no other ↦ (
    sub_ℕ c d,
    ground arith,
    (λ e. absurd (other (sub_ℕ-zero c d e)), λ e. absurd (other (cons_head e))),
  )
]
