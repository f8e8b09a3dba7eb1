-- ===== src/Printf.antt =====
-- The conversion of numbers for printf: `number` and `skip_atoi` of src/printf.c. A `num` is the
-- 32-bit word of its int. The text that `number` writes to `str` is a list of characters.
pub mod Digits
pub mod Flags
pub mod Number
pub mod Format
pub mod Pieces
pub mod Formats
pub mod Screen
pub mod Examples
use ocean_os.Base.{
  ℕ, zero, suc, ◌+◌, ◌-◌, ◌*◌, ◌/◌, ◌%◌, ◌^◌, max, bit_and, Bool, ◌&&◌, ◌||◌, not, Option, none,
  some, List, [], ◌∷◌, ◌++◌, reverse, ltb, leb, ◌==◌, if◌then◌else◌, length, replicate, Result, ok,
  fault, out_of_fuel, ◌>>=◌,
}
use ocean_os.Base.Int.{ℤ, pos, negsuc}

-- `type & mask` as a condition.
abbrev pub has_flag : ℕ → ℕ → Bool
has_flag type mask = not (bit_and type mask == 0)

abbrev pub zeropad : ℕ
zeropad = 1

abbrev pub sign_flag : ℕ
sign_flag = 2

abbrev pub plus : ℕ
plus = 4

abbrev pub space : ℕ
space = 8

abbrev pub left : ℕ
left = 16

abbrev pub special : ℕ
special = 32

abbrev pub small : ℕ
small = 64

-- `digits[d]` in capitals or small letters.
abbrev pub digit : Bool → ℕ → ℕ
digit is_small d =
    if ltb d 10 then b'0' + d else (if is_small then b'a' + (d - 10) else b'A' + (d - 10))

-- The loop that fills `tmp`, which has 36 places, the lowest digit first.
unfoldable pub number_digits : ℕ → ℕ → ℕ → Bool → Result (List ℕ)
number_digits zero num base is_small = out_of_fuel
number_digits (suc fuel) num base is_small =
    let rest = number_digits fuel (num / base) base is_small in
    if num == 0 then ok [] else (rest >>= λ cs. ok (digit is_small (num % base) ∷ cs))

-- An `int` that is only counted down and compared with 0: below 0 it acts as 0.
abbrev pub at_least_zero : ℤ → ℕ
at_least_zero (pos n) = n
at_least_zero (negsuc n) = 0

-- Whether the sign is `-`, and then the number is negated.
abbrev pub is_negative : ℕ → ℕ → Bool
is_negative num type = has_flag type sign_flag && leb (2 ^ 31) num

unfoldable pub sign_of : ℕ → ℕ → List ℕ
sign_of num type =
    if is_negative num type
    then b'-' ∷ []
    else if has_flag type plus
    then b'+' ∷ []
    else if has_flag type space
    then b' ' ∷ []
    else []

unfoldable pub magnitude : ℕ → ℕ → ℕ
magnitude num type = if is_negative num type then 2 ^ 32 - num else num

-- `0` before octal numbers, `0x` before hexadecimal ones; `digits[33]` is the x.
unfoldable pub prefix_of : ℕ → ℕ → List ℕ
prefix_of base type =
    if has_flag type special
    then (if base == 8
        then b'0' ∷ []
        else if base == 16
        then b'0' ∷ digit (has_flag type small) 33 ∷ []
        else [])
    else []

-- The loops that write the padding, the sign with the prefix, and the digits.
unfoldable pub lay_out : ℕ → ℕ → ℕ → List ℕ → List ℕ → List ℕ
lay_out type c size signs body =
    let front = if has_flag type (zeropad + left) then 0 else size in
    let size' = size - front in
    let middle = if has_flag type left then 0 else size' in
    replicate front b' '
    ++ (signs ++ (replicate middle c ++ (body ++ replicate (size' - middle) b' ')))

-- `none` is the null pointer for a base that is not supported.
unfoldable pub number : ℕ → ℕ → ℤ → ℤ → ℕ → Result (Option (List ℕ))
number num base size precision type =
    let type' = if has_flag type left then bit_and type (2 ^ 32 - 1 - zeropad) else type in
    let c = if has_flag type' zeropad then b'0' else b' ' in
    let signs = sign_of num type' ++ prefix_of base type' in
    let value = magnitude num type' in
    if ltb base 2 || ltb 36 base
    then ok none
    else ((if value == 0
          then ok (b'0' ∷ [])
          else number_digits 37 value base (has_flag type' small))
        >>= λ tmp.
            let shown = max (at_least_zero precision) (length tmp) in
            let room = at_least_zero size - length signs - shown in
            let body = replicate (shown - length tmp) b'0' ++ reverse tmp in
            ok (some (lay_out type' c room signs body)))

-- `is_digit`.
abbrev pub is_digit : ℕ → Bool
is_digit c = leb b'0' c && leb c b'9'

-- The number at the start of the text, and the text behind it.
unfoldable pub skip_atoi : ℕ → List ℕ → Result (ℕ × List ℕ)
skip_atoi i [] = fault
skip_atoi i (c ∷ s) =
    let rest = skip_atoi ((i * 10 + c - b'0') % 2 ^ 32) s in
    if is_digit c then rest else ok (i, c ∷ s)
