-- ===== src/Printf/Format.antt =====
-- `vsprintf`, `printf` and `printf_color` of src/printf.c. A format is the bytes from the pointer to
-- the end of the object. The arguments are the 32-bit words that `va_arg` reads one after the
-- other, `strings` are the bytes from an address on, and what "%n" writes goes to `stores`.
use ocean_os.Base.{
  ℕ, zero, suc, ◌+◌, ◌-◌, ◌%◌, ◌^◌, bit_or, Bool, true, false, ◌||◌, none, some, List, [], ◌∷◌,
  ◌++◌, ltb, ◌==◌, if◌then◌else◌, length, take, replicate, Result, ok, fault, out_of_fuel, ◌>>=◌,
}
use ocean_os.Base.Int.{ℤ, pos, negsuc, neg}
use ocean_os.Strings.{strlen}
use ocean_os.Monitor.{Monitor, PortWrites, monitor_write, monitor_write_color}
use ocean_os.Printf.{
  has_flag, zeropad, sign_flag, plus, space, left, special, small, at_least_zero, number, is_digit,
  skip_atoi,
}

pub record Output : Type 0 where
  pub text : List ℕ
  pub args : List ℕ
  pub stores : List (ℕ × ℕ)

-- A 32-bit word as an `int`.
abbrev pub to_int : ℕ → ℤ
to_int w = if ltb w (2 ^ 31) then pos w else negsuc (2 ^ 32 - w - 1)

-- The flags that the characters behind `%` set, and the text from the first other one on.
unfoldable pub read_flags : ℕ → List ℕ → Result (ℕ × List ℕ)
read_flags flags [] = fault
read_flags flags (c ∷ format) =
    if c == b'-'
    then read_flags (bit_or flags left) format
    else if c == b'+'
    then read_flags (bit_or flags plus) format
    else if c == b' '
    then read_flags (bit_or flags space) format
    else if c == b'#'
    then read_flags (bit_or flags special) format
    else if c == b'0'
    then read_flags (bit_or flags zeropad) format
    else ok (flags, c ∷ format)

-- `va_arg(args, int)`.
unfoldable pub next_arg : Output → Result (ℕ × Output)
next_arg out = elim out.args [ [] ↦ fault | a ∷ rest ↦ ok (a, record out { args = rest }) ]

abbrev pub is_negative_int : ℤ → Bool
is_negative_int (pos n) = false
is_negative_int (negsuc n) = true

-- The width, the flags and the text from there on. The `*` is not skipped.
unfoldable pub read_width : ℕ → List ℕ → Output → Result (ℤ × ℕ × List ℕ × Output)
read_width flags [] out = fault
read_width flags (c ∷ format) out =
    if is_digit c
    then (skip_atoi 0 (c ∷ format) >>= λ (w, rest). ok (to_int w, flags, rest, out))
    else if c == b'*'
    then (next_arg out >>= λ (a, out').
        if is_negative_int (to_int a)
        then ok (neg (to_int a), bit_or flags left, c ∷ format, out')
        else ok (to_int a, flags, c ∷ format, out'))
    else ok (negsuc 0, flags, c ∷ format, out)

abbrev pub or_zero : ℤ → ℤ
or_zero (pos n) = pos n
or_zero (negsuc n) = pos 0

-- What stands behind the dot.
unfoldable pub read_digits : List ℕ → Output → Result (ℤ × List ℕ × Output)
read_digits [] out = fault
read_digits (c ∷ format) out =
    if is_digit c
    then (skip_atoi 0 (c ∷ format) >>= λ (p, rest). ok (to_int p, rest, out))
    else if c == b'*'
    then (next_arg out >>= λ (a, out'). ok (to_int a, c ∷ format, out'))
    else ok (negsuc 0, c ∷ format, out)

unfoldable pub read_precision : List ℕ → Output → Result (ℤ × List ℕ × Output)
read_precision [] out = fault
read_precision (c ∷ format) out =
    if c == b'.'
    then (read_digits format out >>= λ (p, rest, out'). ok (or_zero p, rest, out'))
    else ok (negsuc 0, c ∷ format, out)

unfoldable pub skip_qualifier : List ℕ → List ℕ
skip_qualifier [] = []
skip_qualifier (c ∷ format) =
    if (c == b'h') || (c == b'l') || (c == b'L') then format else c ∷ format

abbrev pub put : Output → List ℕ → Output
put out cs = record out { text = out.text ++ cs }

unfoldable pub put_char : ℕ → ℤ → Output → Result Output
put_char flags width out = next_arg out >>= λ (a, out').
    let pad = replicate (at_least_zero width - 1) b' ' in
    ok (put out' (if has_flag flags left then (a % 256) ∷ pad else pad ++ (a % 256) ∷ []))

-- How many bytes of a string of `len` bytes are written.
abbrev pub shown_length : ℤ → ℕ → ℕ
shown_length (pos n) len = if ltb n len then n else len
shown_length (negsuc n) len = len

unfoldable pub put_string : (ℕ → List ℕ) → ℕ → ℤ → ℤ → Output → Result Output
put_string strings flags width precision out = next_arg out >>= λ (s, out').
    strlen (strings s) >>= λ len.
    let len' = shown_length precision len in
    let pad = replicate (at_least_zero width - len') b' ' in
    let body = take len' (strings s) in
    ok (put out' (if has_flag flags left then body ++ pad else pad ++ body))

unfoldable pub put_number : ℕ → ℕ → ℤ → ℤ → Output → Result Output
put_number flags base width precision out = next_arg out >>= λ (num, out').
    number num base width precision flags >>= λ written. elim written [
      | none ↦ fault
      | some cs ↦ ok (put out' cs)
    ]

unfoldable pub put_count : Output → Result Output
put_count out = next_arg out >>= λ (ip, out').
    ok (record out' { stores = (ip, length out'.text) ∷ out'.stores })

abbrev pub is_minus_one : ℤ → Bool
is_minus_one (pos n) = false
is_minus_one (negsuc n) = n == 0

-- The second `switch`, on `c`.
unfoldable pub convert : (ℕ → List ℕ) → ℕ → ℕ → ℤ → ℤ → Output → Result Output
convert strings c flags width precision out =
    if c == b'c'
    then put_char flags width out
    else if c == b's'
    then put_string strings flags width precision out
    else if c == b'o'
    then put_number flags 8 width precision out
    else if c == b'p'
    then (if is_minus_one width
        then put_number (bit_or flags zeropad) 16 (pos 8) precision out
        else put_number flags 16 width precision out)
    else if c == b'x'
    then put_number (bit_or flags small) 16 width precision out
    else if c == b'X'
    then put_number flags 16 width precision out
    else if (c == b'd') || (c == b'i')
    then put_number (bit_or flags sign_flag) 10 width precision out
    else if c == b'u'
    then put_number flags 10 width precision out
    else if c == b'b'
    then put_number flags 2 width precision out
    else if c == b'n'
    then put_count out
    else ok (put out ((if c == b'%' then [] else b'%' ∷ []) ++ (if c == 0 then [] else c ∷ [])))

-- `--format` before the `++format` of the loop leaves the pointer at the end of the text.
abbrev pub behind : List ℕ → List ℕ
behind [] = []
behind (c ∷ format) = if c == 0 then c ∷ format else format

-- What stands behind a `%`, and the text from there on.
unfoldable pub directive : (ℕ → List ℕ) → List ℕ → Output → Result (List ℕ × Output)
directive strings format out = read_flags 0 format >>= λ (flags, format₁).
    read_width flags format₁ out >>= λ (width, flags', format₂, out₁).
    read_precision format₂ out₁ >>= λ (precision, format₃, out₂). elim (skip_qualifier format₃) [
      | [] ↦ fault
      | c ∷ rest ↦
          convert strings c flags' width precision out₂ >>= λ out₃. ok (behind (c ∷ rest), out₃)
    ]

unfoldable pub format_loop : ℕ → (ℕ → List ℕ) → List ℕ → Output → Result Output
format_loop zero strings format out = out_of_fuel
format_loop (suc fuel) strings [] out = fault
format_loop (suc fuel) strings (c ∷ format) out =
    if c == 0
    then ok out
    else if c == b'%'
    then (directive strings format out >>= λ (rest, out'). format_loop fuel strings rest out')
    else format_loop fuel strings format (put out (c ∷ []))

-- Each round reads a character, so there are enough rounds. The result is the text before the
-- terminator, and what "%n" has written.
unfoldable pub vsprintf : (ℕ → List ℕ) → List ℕ → List ℕ → Result Output
vsprintf strings format args =
    format_loop (length format + 1) strings format (record { text = []; args = args; stores = [] })

-- `buff` has 1024 bytes, the terminator's included. The result is the screen, the writes to its
-- ports, and what "%n" has written.
unfoldable pub printf_color :
    (ℕ → List ℕ) → ℕ → ℕ → List ℕ → List ℕ → Monitor → Result (Monitor × PortWrites × List (ℕ × ℕ))
printf_color strings back fore format args m = vsprintf strings format args >>= λ out.
    if ltb (length out.text) 1024
    then (monitor_write_color (out.text ++ 0 ∷ []) back fore m >>= λ (m', writes).
        ok (m', writes, out.stores))
    else fault

unfoldable pub printf :
    (ℕ → List ℕ) → List ℕ → List ℕ → Monitor → Result (Monitor × PortWrites × List (ℕ × ℕ))
printf strings format args m = vsprintf strings format args >>= λ out.
    if ltb (length out.text) 1024
    then (monitor_write (out.text ++ 0 ∷ []) m >>= λ (m', writes). ok (m', writes, out.stores))
    else fault
