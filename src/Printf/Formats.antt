-- ===== src/Printf/Formats.antt =====
-- What `vsprintf` makes of a whole format.
use mathlib.Core.List.{append_assoc, append-nil}
use ocean_os.Base.{
  ℕ, zero, suc, ◌+◌, ◌≤◌, ◌<◌, ◌≡◌, refl, sym, ap, ◌∙◌, inl, inr, List, [], ◌∷◌, ◌++◌, arith,
  Bool-cases, All, length, length-append, ok,
}
use ocean_os.Printf.Format.{
  format_loop, vsprintf, directive, read_flags, read_width, read_precision, skip_qualifier, convert,
  next_arg, to_int, is_negative_int,
}
use ocean_os.Printf.Pieces.{
  Piece, percent, literal, character, string, decimal, unsigned, hexadecimal, format_of, args_of,
  IsPiece, Prints, piece_round,
}

abbrev pub formats : List Piece → List ℕ
formats [] = []
formats (p ∷ ps) = format_of p ++ formats ps

abbrev pub arguments : List Piece → List ℕ
arguments [] = []
arguments (p ∷ ps) = args_of p (arguments ps)

-- The text of the pieces, one behind the other.
abbrev pub PrintsAll : (ℕ → List ℕ) → List Piece → List ℕ → Type 0
PrintsAll strings [] text = text ≡ []
PrintsAll strings (p ∷ ps) text =
    (cs rest : List ℕ) × (text ≡ cs ++ rest) × Prints strings p cs × PrintsAll strings ps rest

format_loop-pieces :
    (fuel : ℕ) (strings : ℕ → List ℕ) (ps : List Piece) (before : List ℕ) (stores : List (ℕ × ℕ))
    → All (IsPiece strings) ps
    → length ps < fuel
    → (text : List ℕ) × PrintsAll strings ps text
      × (format_loop fuel strings
            (formats ps ++ 0 ∷ [])
            (record { text = before; args = arguments ps; stores = stores })
          ≡ ok (record { text = before ++ text; args = []; stores = stores }))
unfolding format_loop
format_loop-pieces zero strings ps before stores valid enough = absurd (omega arith)
format_loop-pieces (suc fuel) strings [] before stores valid enough = (
  [],
  refl,
  ap (λ t. ok (record { text = t; args = []; stores = stores })) (sym (append-nil before)),
)
format_loop-pieces (suc fuel) strings (p ∷ ps) before stores (valid, others) enough =
    let (cs, prints, round) =
      piece_round fuel strings p (formats ps ++ 0 ∷ []) (arguments ps) before stores valid in
    let (rest, more, ends) =
      format_loop-pieces fuel strings ps (before ++ cs) stores others (omega arith) in
    (
      cs ++ rest,
      (cs, rest, refl, prints, more),
      rw (append_assoc (format_of p) (formats ps) (0 ∷ [])) (
          round
          ∙ ends
          ∙ ap (λ t. ok (record { text = t; args = []; stores = stores }))
              (append_assoc before cs rest)),
    )

length-formats : (ps : List Piece) → length ps ≤ length (formats ps)
length-formats [] = omega arith
length-formats (p ∷ ps) =
    omega (arith, length-append (format_of p) (formats ps), length-formats ps, one_character p)
  where
    one_character : (p : Piece) → 0 < length (format_of p)
    one_character percent = omega arith
    one_character (literal c) = omega arith
    one_character (character a) = omega arith
    one_character (string a) = omega arith
    one_character (decimal w) = omega arith
    one_character (unsigned w) = omega arith
    one_character (hexadecimal w) = omega arith

pub vsprintf-pieces :
    (strings : ℕ → List ℕ) (ps : List Piece)
    → All (IsPiece strings) ps
    → (text : List ℕ) × (vsprintf strings (formats ps ++ 0 ∷ []) (arguments ps)
        ≡ ok (record { text = text; args = []; stores = [] }))
      × PrintsAll strings ps text
unfolding vsprintf
vsprintf-pieces strings ps valid =
    let (text, prints, e) =
      format_loop-pieces (length (formats ps ++ 0 ∷ []) + 1) strings ps [] [] valid
        (omega (arith, length-append (formats ps) (0 ∷ []), length-formats ps)) in
    (text, e, prints)

star_round :
    (fuel : ℕ) (strings : ℕ → List ℕ) (a : ℕ) (format args text : List ℕ) (stores : List (ℕ × ℕ))
    → format_loop
        (suc fuel)
        strings
        (b'%' ∷ b'*' ∷ format)
        (record { text = text; args = a ∷ args; stores = stores })
      ≡ format_loop fuel strings format
          (record { text = text ++ (b'%' ∷ b'*' ∷ []); args = args; stores = stores })
unfolding format_loop directive read_flags read_width read_precision skip_qualifier convert next_arg
star_round fuel strings a format args text stores = elim (Bool-cases (is_negative_int (to_int a))) [
  | inl minus ↦ rw minus refl
  | inr plain ↦ rw plain refl
]

-- A width that is to be the next argument is never used: behind "%*", `vsprintf` reads the argument,
-- whatever it is, writes these two characters, and goes on behind them, so that a conversion
-- that follows is plain text.
pub vsprintf-star :
    (strings : ℕ → List ℕ) (a : ℕ) (ps : List Piece)
    → All (IsPiece strings) ps
    → (text : List ℕ) × (vsprintf strings (b'%' ∷ b'*' ∷ (formats ps ++ 0 ∷ [])) (a ∷ arguments ps)
        ≡ ok (record { text = b'%' ∷ b'*' ∷ text; args = []; stores = [] }))
      × PrintsAll strings ps text
unfolding vsprintf
vsprintf-star strings a ps valid =
    let format = formats ps ++ 0 ∷ [] in
    let rounds = length (b'%' ∷ b'*' ∷ format) in
    let (text, prints, e) =
      format_loop-pieces rounds strings ps (b'%' ∷ b'*' ∷ []) [] valid
        (omega (arith, length-append (formats ps) (0 ∷ []), length-formats ps)) in
    let more : rounds + 1 ≡ suc rounds = omega arith in
    (
      text,
      ap
            (λ fuel.
              format_loop fuel strings (b'%' ∷ b'*' ∷ format)
                (record { text = []; args = a ∷ arguments ps; stores = [] }))
            more
          ∙ star_round rounds strings a format (arguments ps) [] []
          ∙ e,
      prints,
    )
