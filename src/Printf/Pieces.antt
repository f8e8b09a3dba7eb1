-- ===== src/Printf/Pieces.antt =====
-- What `vsprintf` makes of a format of plain characters and directives without flags.
use mathlib.Core.List.{append-nil}
use ocean_os.Base.{
  ℕ, suc, ◌-◌, ◌%◌, ◌^◌, ◌≤◌, ◌<◌, ◌≡◌, refl, ap, ◌∙◌, ◌≢◌, inl, inr, Bool, false, some, List, [],
  ◌∷◌, ◌++◌, arith, leb, ◌==◌, if◌then◌else◌, Bool-cases, length, take, ok,
}
use ocean_os.Base.Int.{negsuc}
use ocean_os.Strings.Copy.{strlen-length}
use ocean_os.Strings.{IsText}
use ocean_os.Printf.{number, sign_of, magnitude, prefix_of}
use ocean_os.Printf.Format.{
  directive, format_loop, put_number, put_string, put_char, next_arg, read_flags, read_width,
  read_precision, skip_qualifier, convert,
}
use ocean_os.Printf.Digits.{row_value}
use ocean_os.Printf.Number.{field, number-layout}

pub data Piece : Type 0 where
  percent : Piece
  literal character string decimal unsigned hexadecimal : ℕ → Piece

abbrev pub format_of : Piece → List ℕ
format_of percent = b'%' ∷ b'%' ∷ []
format_of (literal c) = c ∷ []
format_of (character a) = b'%' ∷ b'c' ∷ []
format_of (string s) = b'%' ∷ b's' ∷ []
format_of (decimal w) = b'%' ∷ b'd' ∷ []
format_of (unsigned w) = b'%' ∷ b'u' ∷ []
format_of (hexadecimal w) = b'%' ∷ b'x' ∷ []

-- The arguments with the directives.
abbrev pub args_of : Piece → List ℕ → List ℕ
args_of percent args = args
args_of (literal c) args = args
args_of (character a) args = a ∷ args
args_of (string s) args = s ∷ args
args_of (decimal w) args = w ∷ args
args_of (unsigned w) args = w ∷ args
args_of (hexadecimal w) args = w ∷ args

-- A plain character is neither the terminator nor `%`, an argument is a 32-bit word, and a string is
-- terminated.
abbrev pub IsPiece : (ℕ → List ℕ) → Piece → Type 0
IsPiece strings percent = Unit
IsPiece strings (literal c) = (c ≢ 0) × (c ≢ b'%')
IsPiece strings (character a) = a < 2 ^ 32
IsPiece strings (string s) = (cs rest : List ℕ) × (strings s ≡ cs ++ 0 ∷ rest) × IsText cs
IsPiece strings (decimal w) = w < 2 ^ 32
IsPiece strings (unsigned w) = w < 2 ^ 32
IsPiece strings (hexadecimal w) = w < 2 ^ 32

-- The number `n` in some base, with a minus or without.
abbrev pub Shows : Bool → ℕ → ℕ → List ℕ → Type 0
Shows minus base n text =
    (cs : List ℕ) × (text ≡ (if minus then b'-' ∷ cs else cs))
    × (row_value base 0 cs ≡ n)
    × (0 < length cs)
    × (length cs ≤ 32)

-- What a piece becomes.
abbrev pub Prints : (ℕ → List ℕ) → Piece → List ℕ → Type 0
Prints strings percent text = text ≡ b'%' ∷ []
Prints strings (literal c) text = text ≡ c ∷ []
Prints strings (character a) text = text ≡ (a % 256) ∷ []
Prints strings (string s) text = (rest : List ℕ) × (strings s ≡ text ++ 0 ∷ rest) × IsText text
Prints strings (decimal w) text =
    Shows (leb (2 ^ 31) w) 10 (if leb (2 ^ 31) w then 2 ^ 32 - w else w) text
Prints strings (unsigned w) text = Shows false 10 w text
Prints strings (hexadecimal w) text = Shows false 16 w text

-- Without a width and a precision there is nothing around the digits.
number-plain :
    (num base type : ℕ) (signs : List ℕ)
    → num < 2 ^ 32
    → 2 ≤ base
    → base ≤ 36
    → type < 128
    → sign_of num type ++ prefix_of base type ≡ signs
    → (cs : List ℕ) × (number num base (negsuc 0) (negsuc 0) type ≡ ok (some (signs ++ cs)))
      × (row_value base 0 cs ≡ magnitude num type)
      × (0 < length cs)
      × (length cs ≤ 32)
number-plain num base type signs word two most flags e =
    let (
      cs, front, fill, back, text, value, characters, some_digits, few_digits, wide, sum, lefts,
      rights,
    ) =
      number-layout num base (negsuc 0) (negsuc 0) type word two most flags in
    let counts : (front ≡ 0) × (fill ≡ 0) × (back ≡ 0) = (omega arith, omega arith, omega arith) in
    let shape : field front (sign_of num type ++ prefix_of base type) fill cs back ≡ signs ++ cs =
      rw (e, counts.0, counts.1, counts.2) (ap (λ r. signs ++ r) (append-nil cs)) in
    (cs, text ∙ ap (λ t. ok (some t)) shape, value, some_digits, few_digits)

put_number-plain :
    (num base type : ℕ) (minus : List ℕ) (args text : List ℕ) (stores : List (ℕ × ℕ))
    → num < 2 ^ 32
    → 2 ≤ base
    → base ≤ 36
    → type < 128
    → sign_of num type ++ prefix_of base type ≡ minus
    → (cs : List ℕ) × (put_number type base
          (negsuc 0)
          (negsuc 0)
          (record { text = text; args = num ∷ args; stores = stores })
        ≡ ok (record { text = text ++ (minus ++ cs); args = args; stores = stores }))
      × (row_value base 0 cs ≡ magnitude num type)
      × (0 < length cs)
      × (length cs ≤ 32)
unfolding put_number next_arg
put_number-plain num base type minus args text stores word two most flags e =
    let (cs, written, value, some_digits, few_digits) =
      number-plain num base type minus word two most flags e in
    (cs, rw written refl, value, some_digits, few_digits)

take-length-append : (cs rest : List ℕ) → take (length cs) (cs ++ rest) ≡ cs
take-length-append [] rest = refl
take-length-append (c ∷ cs) rest = ap (λ r. c ∷ r) (take-length-append cs rest)

put_string-plain :
    (strings : ℕ → List ℕ) (s : ℕ) (cs rest args text : List ℕ) (stores : List (ℕ × ℕ))
    → strings s ≡ cs ++ 0 ∷ rest
    → IsText cs
    → put_string strings 0
        (negsuc 0)
        (negsuc 0)
        (record { text = text; args = s ∷ args; stores = stores })
      ≡ ok (record { text = text ++ cs; args = args; stores = stores })
unfolding put_string next_arg
put_string-plain strings s cs rest args text stores at plain =
    let no_pad : 0 - length cs ≡ 0 = omega arith in
    rw (at, strlen-length cs rest plain, no_pad, take-length-append cs (0 ∷ rest)) refl

-- One round of the loop writes one piece, and reads its format and its argument.
pub piece_round :
    (fuel : ℕ) (strings : ℕ → List ℕ) (p : Piece) (format args text : List ℕ)
    (stores : List (ℕ × ℕ))
    → IsPiece strings p
    → (cs : List ℕ) × Prints strings p cs
      × (format_loop
            (suc fuel)
            strings
            (format_of p ++ format)
            (record { text = text; args = args_of p args; stores = stores })
          ≡ format_loop fuel strings format
              (record { text = text ++ cs; args = args; stores = stores }))
unfolding format_loop directive read_flags read_width read_precision skip_qualifier convert put_char
    next_arg sign_of prefix_of magnitude
piece_round fuel strings percent format args text stores valid = (b'%' ∷ [], refl, refl)
piece_round fuel strings (literal c) format args text stores (nonzero, plain) =
    let more : (c == 0) ≡ false = ground arith in
    let copied : (c == b'%') ≡ false = ground arith in (c ∷ [], refl, rw (more, copied) refl)
piece_round fuel strings (character a) format args text stores valid = ((a % 256) ∷ [], refl, refl)
piece_round fuel strings (string s) format args text stores (cs, rest, at, plain) =
    (cs, (rest, at, plain), rw (put_string-plain strings s cs rest args text stores at plain) refl)
piece_round fuel strings (decimal w) format args text stores valid =
    elim (Bool-cases (leb (2 ^ 31) w)) [
      | inl minus ↦
          let (cs, written, value, some_digits, few_digits) =
            put_number-plain w 10 2 (b'-' ∷ []) args text stores valid (omega arith) (omega arith)
              (omega arith) (rw minus refl) in
          (b'-' ∷ cs, (cs, rw minus refl, value, some_digits, few_digits), rw written refl)
      | inr plain ↦
          let (cs, written, value, some_digits, few_digits) =
            put_number-plain w 10 2 [] args text stores valid (omega arith) (omega arith)
              (omega arith) (rw plain refl) in
          (cs, (cs, rw plain refl, value, some_digits, few_digits), rw written refl)
    ]
piece_round fuel strings (unsigned w) format args text stores valid =
    let (cs, written, value, some_digits, few_digits) =
      put_number-plain w 10 0 [] args text stores valid (omega arith) (omega arith) (omega arith)
        refl in
    (cs, (cs, refl, value, some_digits, few_digits), rw written refl)
piece_round fuel strings (hexadecimal w) format args text stores valid =
    let (cs, written, value, some_digits, few_digits) =
      put_number-plain w 16 64 [] args text stores valid (omega arith) (omega arith) (omega arith)
        refl in
    (cs, (cs, refl, value, some_digits, few_digits), rw written refl)
