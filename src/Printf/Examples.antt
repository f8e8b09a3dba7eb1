-- ===== src/Printf/Examples.antt =====
-- Runs of the formatted output.
use ocean_os.Base.{
  ℕ, ◌+◌, ◌-◌, ◌^◌, ◌≤◌, ◌<◌, max, ◌≡◌, refl, true, false, some, List, [], ◌∷◌, ◌++◌, arith, All,
  length, replicate, ok,
}
use ocean_os.Base.Int.{pos, negsuc}
use ocean_os.Printf.{has_flag, left, sign_of, magnitude, prefix_of, number, number_digits, lay_out}
use ocean_os.Strings.{strlen}
use ocean_os.Printf.Format.{
  vsprintf, format_loop, directive, read_flags, read_width, read_precision, skip_qualifier, convert,
  put_number, put_string, next_arg,
}
use ocean_os.Printf.Pieces.{Piece, percent, literal, decimal, string}
use ocean_os.Printf.Formats.{formats, arguments, PrintsAll, vsprintf-star}
use ocean_os.Printf.Digits.{IsDigitOf, row_value}
use ocean_os.Printf.Number.{IsSigned, IsPrefix, field, number-field}

-- "%-+8d" of -42: the flags sign, plus and left.
abbrev flags : ℕ
flags = 22

number-field_example :
    (sign prefix : List ℕ) × (value : ℕ) × (cs : List ℕ) × (front fill back : ℕ) × (number
        (2 ^ 32 - 42)
        10
        (pos 8)
        (negsuc 0)
        flags
      ≡ ok (some (field front (sign ++ prefix) fill cs back)))
    × IsSigned (2 ^ 32 - 42) flags sign value
    × IsPrefix 10 flags prefix
    × (row_value 10 0 cs ≡ value)
    × All (IsDigitOf (has_flag flags 64)) cs
    × (0 < length cs)
    × (length cs ≤ 32)
    × (0 ≤ fill + length cs)
    × (front + length (sign ++ prefix) + fill + length cs + back
        ≡ max 8 (length (sign ++ prefix) + max 0 (length cs)))
    × (has_flag flags left ≡ true → front ≡ 0)
    × (has_flag flags left ≡ false → back ≡ 0)
number-field_example =
    number-field (2 ^ 32 - 42) 10 (pos 8) (negsuc 0) flags (omega arith) (omega arith) (omega arith)
      (omega arith)

-- "-42     ".
number_test :
    number (2 ^ 32 - 42) 10 (pos 8) (negsuc 0) flags
    ≡ ok (some (b'-' ∷ b'4' ∷ b'2' ∷ replicate 5 b' '))
unfolding number number_digits sign_of prefix_of magnitude lay_out
number_test = refl

-- "hi".
abbrev hi_strings : ℕ → List ℕ
hi_strings a = b'h' ∷ b'i' ∷ 0 ∷ []

-- "=%d %%%s".
abbrev pieces : List Piece
pieces = literal b'=' ∷ decimal (2 ^ 32 - 42) ∷ literal b' ' ∷ percent ∷ string 0xC0100000 ∷ []

-- "=-42 %hi".
vsprintf_test :
    vsprintf hi_strings (formats pieces ++ 0 ∷ []) (arguments pieces)
    ≡ ok (record {
      text = b'=' ∷ b'-' ∷ b'4' ∷ b'2' ∷ b' ' ∷ b'%' ∷ b'h' ∷ b'i' ∷ [];
      args = [];
      stores = [];
    })
unfolding vsprintf format_loop directive read_flags read_width read_precision skip_qualifier convert
    put_number next_arg number magnitude number_digits put_string strlen lay_out sign_of prefix_of
vsprintf_test = refl

vsprintf-star_example :
    (text : List ℕ) × (vsprintf hi_strings (b'%' ∷ b'*' ∷ b'd' ∷ 0 ∷ []) (5 ∷ [])
      ≡ ok (record { text = b'%' ∷ b'*' ∷ text; args = []; stores = [] }))
    × PrintsAll hi_strings (literal b'd' ∷ []) text
vsprintf-star_example =
    vsprintf-star hi_strings 5 (literal b'd' ∷ []) ((omega arith, omega arith), tt)
