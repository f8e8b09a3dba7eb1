-- ===== src/Printf/Number.antt =====
-- The field that `number` of src/printf.c writes.
use mathlib.Core.List.{append_assoc}
use ocean_os.Base.{
  ℕ, zero, suc, ◌+◌, ◌-◌, ◌^◌, ◌≤◌, ◌<◌, max, ◌≡◌, refl, ap, ◌∙◌, subst, ◌≢◌, ◌⊎◌, inl, inr, Bool,
  true, false, ◌||◌, some, List, [], ◌∷◌, ◌++◌, reverse, arith, ltb, leb, ◌==◌, if◌then◌else◌,
  Bool-cases, All, length, replicate, ok, length-reverse_aux,
}
use ocean_os.Base.Int.{ℤ}
use ocean_os.Printf.{
  has_flag, zeropad, left, small, at_least_zero, digit, sign_of, magnitude, prefix_of, lay_out,
  number,
}
use ocean_os.Printf.Digits.{IsDigitOf, row_value, tmp_lem}
use ocean_os.Printf.Flags.{
  dropped, dropped-KeepsFlags, sign_of-dropped, magnitude-dropped, prefix_of-dropped,
}

-- The padding as counts: blanks in front, zeros, and blanks behind.
lay_out-pads :
    (type c size : ℕ) (signs body : List ℕ)
    → has_flag type (zeropad + left) ≡ (has_flag type left || has_flag type zeropad)
    → c ≡ (if has_flag type zeropad then b'0' else b' ')
    → (front middle back : ℕ) × (lay_out type c size signs body
        ≡ replicate front b' '
          ++ (signs ++ (replicate middle b'0' ++ (body ++ replicate back b' '))))
      × (front + middle + back ≡ size)
      × (has_flag type left ≡ true → front ≡ 0)
      × (has_flag type left ≡ false → back ≡ 0)
unfolding lay_out
lay_out-pads type c size signs body pads pad = elim (Bool-cases (has_flag type left)) [
  | inl l ↦
      let both : has_flag type (zeropad + left) ≡ true = pads ∙ rw l refl in
      (0, 0, size - 0 - 0, rw (both, l) refl, omega arith, (λ h. refl), λ h. cc)
  | inr l ↦ elim (Bool-cases (has_flag type zeropad)) [
    | inl z ↦
        let both : has_flag type (zeropad + left) ≡ true = pads ∙ rw (l, z) refl in
        let char : c ≡ b'0' = pad ∙ rw z refl in
        (
          0,
          size - 0,
          size - 0 - (size - 0),
          rw (both, l, char) refl,
          omega arith,
          (λ h. refl),
          λ h. omega arith,
        )
    | inr z ↦
        let both : has_flag type (zeropad + left) ≡ false = pads ∙ rw (l, z) refl in
        let no_room : size - size ≡ 0 = omega arith in
        (size, 0, 0, rw (both, l, no_room) refl, omega arith, (λ h. cc), λ h. refl)
  ]
]

replicate-append :
    (m n a : ℕ) (xs : List ℕ) → replicate m a ++ (replicate n a ++ xs) ≡ replicate (m + n) a ++ xs
replicate-append zero n a xs = let none_more : 0 + n ≡ n = omega arith in rw none_more refl
replicate-append (suc m) n a xs =
    let one_more : suc m + n ≡ suc (m + n) = omega arith in
    rw one_more (ap (λ r. a ∷ r) (replicate-append m n a xs))

-- A field with a number: the sign and the prefix behind blanks, then zeros and the digits, and
-- blanks behind them.
abbrev pub field : ℕ → List ℕ → ℕ → List ℕ → ℕ → List ℕ
field front signs fill cs back =
    replicate front b' ' ++ (signs ++ (replicate fill b'0' ++ (cs ++ replicate back b' ')))

magnitude_lt : (num type : ℕ) → num < 2 ^ 32 → magnitude num type < 2 ^ 32
unfolding magnitude
magnitude_lt num type h = ground arith

-- The field, with the sign, the prefix and the number as the code names them.
pub number-layout :
    (num base : ℕ) (size precision : ℤ) (type : ℕ)
    → num < 2 ^ 32
    → 2 ≤ base
    → base ≤ 36
    → type < 128
    → let signs = sign_of num type ++ prefix_of base type in
      (cs : List ℕ) × (front fill back : ℕ) × (number num base size precision type
        ≡ ok (some (field front signs fill cs back)))
      × (row_value base 0 cs ≡ magnitude num type)
      × All (IsDigitOf (has_flag type small)) cs
      × (0 < length cs)
      × (length cs ≤ 32)
      × (at_least_zero precision ≤ fill + length cs)
      × (front + length signs + fill + length cs + back
          ≡ max (at_least_zero size) (length signs + max (at_least_zero precision) (length cs)))
      × (has_flag type left ≡ true → front ≡ 0)
      × (has_flag type left ≡ false → back ≡ 0)
unfolding number
number-layout num base size precision type word two most flags =
    let kept = dropped-KeepsFlags type flags in
    let signs = sign_of num type ++ prefix_of base type in
    let (ds, e, value, characters, some_digits, few_digits) =
      tmp_lem (magnitude num type) base (has_flag (dropped type) small) two most
        (magnitude_lt num type word) in
    let digits_length = length-reverse_aux ds [] in
    let shown = max (at_least_zero precision) (length ds) in
    let room = at_least_zero size - length signs - shown in
    let zeros = shown - length ds in
    let (front, middle, back, text, sum, no_front, no_back) =
      lay_out-pads (dropped type) (if has_flag (dropped type) zeropad then b'0' else b' ') room
        signs (replicate zeros b'0' ++ reverse ds) kept.pads refl in
    let supported : (ltb base 2 || ltb 36 base) ≡ false = ground arith in
    (
      reverse ds,
      front,
      middle + zeros,
      back,
      rw
          (
            supported,
            sign_of-dropped num type kept,
            prefix_of-dropped num type kept base,
            magnitude-dropped num type kept,
            e,
            text,
          )
          (ap (λ r. ok (some (replicate front b' ' ++ (signs ++ r))))
            (ap (λ r. replicate middle b'0' ++ r)
                (append_assoc (replicate zeros b'0') (reverse ds) (replicate back b' '))
              ∙ replicate-append middle zeros b'0' (reverse ds ++ replicate back b' '))),
      value,
      subst (λ b. All (IsDigitOf b) (reverse ds)) kept.smalls characters,
      omega (arith, digits_length),
      omega (arith, digits_length),
      omega (arith, digits_length),
      omega (arith, sum, digits_length),
      (λ h. no_front (kept.lefts ∙ h)),
      λ h. no_back (kept.lefts ∙ h),
    )

-- What stands in front of a number, and the number that its digits have, for the flags `SIGN` (2),
-- `PLUS` (4) and `SPACE` (8).
abbrev pub IsSigned : ℕ → ℕ → List ℕ → ℕ → Type 0
IsSigned num type sign value =
    ((has_flag type 2 ≡ true) × (2 ^ 31 ≤ num) × (sign ≡ b'-' ∷ []) × (value + num ≡ 2 ^ 32))
    ⊎ (((has_flag type 2 ≡ false) ⊎ (num < 2 ^ 31))
        × (value ≡ num)
        × (((has_flag type 4 ≡ true) × (sign ≡ b'+' ∷ []))
            ⊎ ((has_flag type 4 ≡ false) × (has_flag type 8 ≡ true) × (sign ≡ b' ' ∷ []))
            ⊎ ((has_flag type 4 ≡ false) × (has_flag type 8 ≡ false) × (sign ≡ []))))

-- What `SPECIAL` (32) puts in front of the digits, with the small x of `SMALL` (64).
abbrev pub IsPrefix : ℕ → ℕ → List ℕ → Type 0
IsPrefix base type prefix =
    ((has_flag type 32 ≡ true) × (base ≡ 8) × (prefix ≡ b'0' ∷ []))
    ⊎ ((has_flag type 32 ≡ true)
        × (base ≡ 16)
        × (prefix ≡ b'0' ∷ (if has_flag type 64 then b'x' else b'X') ∷ []))
    ⊎ (((has_flag type 32 ≡ false) ⊎ ((base ≢ 8) × (base ≢ 16))) × (prefix ≡ []))

sign_of-IsSigned :
    (num type : ℕ) → num < 2 ^ 32 → IsSigned num type (sign_of num type) (magnitude num type)
unfolding sign_of magnitude
sign_of-IsSigned num type word = elim (Bool-cases (has_flag type 2)) [
  | inl signed ↦ elim (Bool-cases (leb (2 ^ 31) num)) [
    | inl minus ↦ rw (signed, minus) (inl (refl, ground arith, refl, omega arith))
    | inr small' ↦ rw (signed, small') (inr (inr (ground arith), refl, others))
  ]
  | inr plain ↦ rw plain (inr (inl refl, refl, others))
]
  where
    others :
        let sign : List ℕ =
          if has_flag type 4 then b'+' ∷ [] else if has_flag type 8 then b' ' ∷ [] else [] in
        ((has_flag type 4 ≡ true) × (sign ≡ b'+' ∷ []))
        ⊎ ((has_flag type 4 ≡ false) × (has_flag type 8 ≡ true) × (sign ≡ b' ' ∷ []))
        ⊎ ((has_flag type 4 ≡ false) × (has_flag type 8 ≡ false) × (sign ≡ []))
    others = elim (Bool-cases (has_flag type 4)) [
      | inl shown ↦ rw shown (inl (refl, refl))
      | inr hidden ↦ elim (Bool-cases (has_flag type 8)) [
        | inl blank ↦ rw (hidden, blank) (inr (inl (refl, refl, refl)))
        | inr none_of ↦ rw (hidden, none_of) (inr (inr (refl, refl, refl)))
      ]
    ]

prefix_of-IsPrefix : (base type : ℕ) → IsPrefix base type (prefix_of base type)
unfolding prefix_of
prefix_of-IsPrefix base type = elim (Bool-cases (has_flag type 32)) [
  | inr plain ↦ rw plain (inr (inr (inl refl, refl)))
  | inl marked ↦ elim (Bool-cases (base == 8)) [
    | inl octal ↦ rw (marked, octal) (inl (refl, ground arith, refl))
    | inr not_octal ↦ elim (Bool-cases (base == 16)) [
      | inl hexadecimal ↦
          rw (marked, not_octal, hexadecimal)
            (inr (inl (refl, ground arith, x_of (has_flag type 64))))
      | inr other ↦
          rw (marked, not_octal, other) (inr (inr (inr (ground arith, ground arith), refl)))
    ]
  ]
]
  where
    x_of : (b : Bool) → b'0' ∷ digit b 33 ∷ [] ≡ b'0' ∷ (if b then b'x' else b'X') ∷ []
    x_of true = refl
    x_of false = refl

-- `number` of a 32-bit word in a base from 2 to 36, with any width, precision and flags, writes one
-- field: a sign, a prefix, and at most 32 digits, letters for those from ten on, small ones with
-- `SMALL`. With `SIGN` the word of a negative number has the sign `-` and the digits of its
-- absolute value; otherwise the digits have the value of the word, and the sign is `+` with `PLUS`,
-- else a blank with `SPACE`, else none. The prefix with `SPECIAL` is `0` in base 8, and `0x` or
-- `0X` in base 16, by `SMALL`, else there is none. Zeros fill the digits up to the precision at
-- least. The field is as wide as the width asks for, or as sign, prefix, digits and precision need.
-- With `LEFT` no blank stands in front, and without it none behind.
pub number-field :
    (num base : ℕ) (size precision : ℤ) (type : ℕ)
    → num < 2 ^ 32
    → 2 ≤ base
    → base ≤ 36
    → type < 128
    → (sign prefix : List ℕ) × (value : ℕ) × (cs : List ℕ) × (front fill back : ℕ) × (number num
          base size precision type
        ≡ ok (some (field front (sign ++ prefix) fill cs back)))
      × IsSigned num type sign value
      × IsPrefix base type prefix
      × (row_value base 0 cs ≡ value)
      × All (IsDigitOf (has_flag type 64)) cs
      × (0 < length cs)
      × (length cs ≤ 32)
      × (at_least_zero precision ≤ fill + length cs)
      × (front + length (sign ++ prefix) + fill + length cs + back
          ≡ max
              (at_least_zero size)
              (length (sign ++ prefix) + max (at_least_zero precision) (length cs)))
      × (has_flag type left ≡ true → front ≡ 0)
      × (has_flag type left ≡ false → back ≡ 0)
number-field num base size precision type word two most flags =
    let (
      cs, front, fill, back, text, digits, characters, some_digits, few, filled, wide, lefts,
      rights,
    ) =
      number-layout num base size precision type word two most flags in
    (
      sign_of num type,
      prefix_of base type,
      magnitude num type,
      cs,
      front,
      fill,
      back,
      text,
      sign_of-IsSigned num type word,
      prefix_of-IsPrefix base type,
      digits,
      characters,
      some_digits,
      few,
      filled,
      wide,
      lefts,
      rights,
    )
