-- ===== src/Scanf/Waiting.antt =====
-- The loop in which `scanf` of src/scanf.c waits for the end of a line.
use mathlib.Core.List.{flatten, append_assoc}
use ocean_os.Base.{
  ℕ, ◌+◌, ◌<◌, ◌≡◌, refl, sym, ap, ap₂, ◌∙◌, subst, ◌≢◌, ◌⊎◌, inl, inr, false, List, [], ◌∷◌, ◌++◌,
  arith, ◌==◌, All, length, length-append, ok,
}
use ocean_os.Buffer.{Buffer, max_length, get_last, put_all}
use ocean_os.Buffer.Lines.{IsAt, Terminated, put_all-IsAt, get_last-last, get_last-empty}
use ocean_os.Scanf.{wait_line}

abbrev pub OneLine : List ℕ → Type 0
OneLine cs = All (λ c. c ≢ b'\n') cs

pub OneLine-append : (cs ds : List ℕ) → OneLine cs → OneLine ds → OneLine (cs ++ ds)
OneLine-append [] ds one other = other
OneLine-append (c ∷ cs) ds one other = (one.0, OneLine-append cs ds one.1 other)

last_char :
    (cs : List ℕ)
    → OneLine cs
    → (cs ≡ []) ⊎ ((ds : List ℕ) × (d : ℕ) × (cs ≡ ds ++ d ∷ []) × (d ≢ b'\n'))
last_char [] one = inl refl
last_char (c ∷ cs) one = elim (last_char cs one.1) [
  | inl e ↦ inr ([], c, ap (λ r. c ∷ r) e, one.0)
  | inr (ds, d, e, other) ↦ inr (c ∷ ds, d, ap (λ r. c ∷ r) e, other)
]

-- The characters of a round are the rest of the line with its end, or a part of the rest.
pub split_round :
    (cs later rem : List ℕ)
    → OneLine rem
    → cs ++ later ≡ rem ++ b'\n' ∷ []
    → (cs ≡ rem ++ b'\n' ∷ [])
      ⊎ ((more : List ℕ) × (rem ≡ cs ++ more)
          × (later ≡ more ++ b'\n' ∷ [])
          × OneLine more
          × OneLine cs)
split_round [] later rem one e = inr (rem, refl, e, one, tt)
split_round (c ∷ []) later [] one e = inl (ap (λ d. d ∷ []) (cc))
split_round (c ∷ (d ∷ cs)) later [] one e = cc
split_round (c ∷ cs) later (r ∷ rem) one e = elim (split_round cs later rem one.1 (cc)) [
  | inl all ↦ inl (ap₂ ◌∷◌ (cc) all)
  | inr (more, e', ends, one', own) ↦
      inr (more, ap₂ ◌∷◌ (cc) e', ends, one', (subst (λ x. x ≢ b'\n') (cc) one.0, own))
]

-- At the end of a line the loop stops.
wait_line-stops :
    (empty_literal : ℕ) (keys : List (List ℕ)) (b : Buffer) (line : List ℕ)
    → IsAt b (line ++ b'\n' ∷ [])
    → wait_line empty_literal keys b ≡ ok b
unfolding wait_line
wait_line-stops empty_literal [] b line at = rw (get_last-last b line b'\n' empty_literal at) refl
wait_line-stops empty_literal (cs ∷ keys) b line at =
    rw (get_last-last b line b'\n' empty_literal at) refl

-- Within a line the last character is no end of a line.
pub get_last-within :
    (empty_literal : ℕ) (b : Buffer) (got : List ℕ)
    → empty_literal ≢ b'\n'
    → IsAt b got
    → OneLine got
    → (c : ℕ) × (get_last empty_literal b ≡ ok c) × ((c == b'\n') ≡ false)
get_last-within empty_literal b got other at one = elim (last_char got one) [
  | inl none_yet ↦ (
    empty_literal,
    get_last-empty b empty_literal (at.position ∙ ap length none_yet),
    ground arith,
  )
  | inr (ds, d, e, inside) ↦
      (d, get_last-last b ds d empty_literal (subst (IsAt b) e at), ground arith)
]

-- There the loop goes on.
wait_line-goes_on :
    (empty_literal : ℕ) (cs : List ℕ) (keys : List (List ℕ)) (b b₁ : Buffer) (got : List ℕ)
    → empty_literal ≢ b'\n'
    → IsAt b got
    → OneLine got
    → put_all cs b ≡ ok b₁
    → wait_line empty_literal (cs ∷ keys) b ≡ wait_line empty_literal keys b₁
unfolding wait_line
wait_line-goes_on empty_literal cs keys b b₁ got other at one run =
    let (c, last, more) = get_last-within empty_literal b got other at one in
    rw (last, more, run) refl

-- A line whose characters come in any groups, with its end as the last of them, ends the loop, and
-- the buffer holds the line with its end.
pub wait_line-line :
    (empty_literal : ℕ) (keys : List (List ℕ)) (b : Buffer) (got rem : List ℕ)
    → empty_literal ≢ b'\n'
    → IsAt b got
    → OneLine got
    → OneLine rem
    → flatten keys ≡ rem ++ b'\n' ∷ []
    → length got + length rem + 1 < max_length
    → (b' : Buffer) × (wait_line empty_literal keys b ≡ ok b')
      × IsAt b' ((got ++ rem) ++ b'\n' ∷ [])
      × Terminated b'
unfolding flatten
wait_line-line empty_literal [] b got [] other at one rest typed room = cc
wait_line-line empty_literal [] b got (r ∷ rem) other at one rest typed room = cc
wait_line-line empty_literal (cs ∷ keys) b got rem other at one rest typed room =
    elim (split_round cs (flatten keys) rem rest typed) [
      | inl all ↦
          let size = ap length all ∙ length-append rem (b'\n' ∷ []) in
          let (b₁, run, at₁, ended) = put_all-IsAt cs b got at (omega (arith, size)) in
          let whole : got ++ cs ≡ (got ++ rem) ++ b'\n' ∷ [] =
            ap (λ r. got ++ r) all ∙ sym (append_assoc got rem (b'\n' ∷ [])) in
          let at₂ = subst (IsAt b₁) whole at₁ in
          (
            b₁,
            wait_line-goes_on empty_literal cs keys b b₁ got other at one run
                ∙ wait_line-stops empty_literal keys b₁ (got ++ rem) at₂,
            at₂,
            ended (inr (omega (arith, size))),
          )
      | inr (more, e, later, rest', own) ↦
          let size = ap length e ∙ length-append cs more in
          let (b₁, run, at₁, ended) = put_all-IsAt cs b got at (omega (arith, size)) in
          let (b', ends, at', terminated) =
            wait_line-line empty_literal keys b₁ (got ++ cs) more other at₁
              (OneLine-append got cs one own) rest' later
              (omega (arith, size, length-append got cs)) in
          let whole : (got ++ cs) ++ more ≡ got ++ rem =
            append_assoc got cs more ∙ ap (λ r. got ++ r) (sym e) in
          (
            b',
            wait_line-goes_on empty_literal cs keys b b₁ got other at one run ∙ ends,
            subst (λ l. IsAt b' (l ++ b'\n' ∷ [])) whole at',
            terminated,
          )
    ]
