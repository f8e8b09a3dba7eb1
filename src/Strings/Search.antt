-- ===== src/Strings/Search.antt =====
-- `strnlen` and `strchr` of src/string.c.
use native.Mathlib.Decide.{ℕ_discrete}
use ocean_os.Base.{
  ℕ, zero, suc, ◌+◌, ◌<◌, min, ◌≡◌, refl, sym, ap, ◌≢◌, ◌⊎◌, inl, inr, Option, none, some, List, [],
  ◌∷◌, ◌++◌, arith, All, length, ok,
}
use ocean_os.Strings.{strnlen, strnlen_loop, strchr, IsText}

strnlen_loop-min :
    (cs rest : List ℕ) (n : ℕ)
    → IsText cs
    → strnlen_loop (cs ++ 0 ∷ rest) n ≡ ok (min (length cs) n)
unfolding strnlen_loop
strnlen_loop-min [] rest zero text = refl
strnlen_loop-min [] rest (suc n) text = ground arith
strnlen_loop-min (c ∷ cs) rest zero text = ground arith
strnlen_loop-min (c ∷ cs) rest (suc n) text = ground (arith, strnlen_loop-min cs rest n text.1)

-- `strnlen` of a string stops one character later than its bound: its answer is the length, and
-- at most `len + 1`.
pub strnlen-min :
    (cs rest : List ℕ) (len : ℕ)
    → IsText cs
    → strnlen (cs ++ 0 ∷ rest) len ≡ ok (min (length cs) (len + 1))
unfolding strnlen
strnlen-min cs rest len text = strnlen_loop-min cs rest (len + 1) text

-- `at` is where the first `c` of `str` is.
abbrev pub Finds : ℕ → List ℕ → List ℕ → Type 0
Finds c str at =
    (before : List ℕ) × (rest : List ℕ) × (str ≡ before ++ at)
    × (at ≡ c ∷ rest)
    × All (λ x. x ≢ c) before

-- `strchr` of a string and a byte returns a pointer to the first occurrence of the byte, the
-- terminator included, or NULL when the byte is neither in the string nor its terminator.
strchr-Finds :
    (cs rest : List ℕ) (c : ℕ)
    → IsText cs
    → c < 256
    → (r : Option (List ℕ)) × (strchr (cs ++ 0 ∷ rest) c ≡ ok r)
      × ((r ≡ none) ⊎ ((at : List ℕ) × (r ≡ some at) × Finds c (cs ++ 0 ∷ rest) at))
      × ((r ≡ none) → All (λ x. x ≢ c) (cs ++ 0 ∷ []))
unfolding strchr
strchr-Finds [] rest c text byte = elim (ℕ_discrete c 0) [
  | yes z ↦ (
    some (0 ∷ rest),
    ground arith,
    inr (0 ∷ rest, refl, ([], rest, refl, ap (λ t. t ∷ rest) (sym z), tt)),
    λ e. cc,
  )
  | no z ↦ (none, ground arith, inl refl, λ _. (λ e. z (sym e), tt))
]
strchr-Finds (x ∷ cs) rest c text byte = elim (ℕ_discrete x c) [
  | yes here ↦ (
    some (x ∷ (cs ++ 0 ∷ rest)),
    ground arith,
    inr (
      x ∷ (cs ++ 0 ∷ rest),
      refl,
      ([], cs ++ 0 ∷ rest, refl, ap (λ t. t ∷ (cs ++ 0 ∷ rest)) here, tt),
    ),
    λ e. cc,
  )
  | no later ↦
      let (r, e, found, missing) = strchr-Finds cs rest c text.1 byte in
      (
        r,
        ground arith,
        elim found [
          | inl n ↦ inl n
          | inr (at, is, (before, behind, split, first, out)) ↦
              inr (at, is, (x ∷ before, behind, ap (◌∷◌ x) split, first, (later, out)))
        ],
        λ n. (later, missing n),
      )
]
