-- ===== src/Printf/Digits.antt =====
-- The digits that `number` of src/printf.c writes, and those that `skip_atoi` reads.
use mathlib.Core.List.{reverse_aux}
use native.Mathlib.Nat.{div-lt_iff_lt-mul, div-add-mod', mod-lt, mul-le-mul_left}
use ocean_os.Base.{
  ℕ, zero, suc, ◌+◌, ◌-◌, ◌*◌, ◌/◌, ◌%◌, ◌^◌, ◌≤◌, ◌<◌, ◌≡◌, refl, sym, ap, ◌∙◌, ◌⊎◌, inl, inr,
  Bool, true, false, List, [], ◌∷◌, ◌++◌, reverse, arith, ltb, leb, ◌==◌, if◌then◌else◌, Bool-cases,
  All, length, ok,
}
use ocean_os.Printf.{digit, number_digits, is_digit, skip_atoi}

-- What a digit is worth, and a row of them from the left.
abbrev pub digit_value : ℕ → ℕ
digit_value c = if leb c b'9' then c - b'0' else if leb c b'Z' then c - b'A' + 10 else c - b'a' + 10

abbrev pub row_value : ℕ → ℕ → List ℕ → ℕ
row_value base acc [] = acc
row_value base acc (c ∷ cs) = row_value base (acc * base + digit_value c) cs

digit-value : (is_small : Bool) (d : ℕ) → d < 36 → digit_value (digit is_small d) ≡ d
digit-value true d h = ground arith
digit-value false d h = ground arith

-- `tmp` holds the digits of `n`, the lowest first.
abbrev Holds : Bool → ℕ → List ℕ → ℕ → Type 0
Holds is_small base [] n = n ≡ 0
Holds is_small base (d ∷ ds) n =
    (0 < n) × (d ≡ digit is_small (n % base)) × Holds is_small base ds (n / base)

number_digits-Holds :
    (fuel b n base : ℕ) (is_small : Bool)
    → 2 ≤ base
    → n < 2 ^ b
    → b < fuel
    → (ds : List ℕ) × (number_digits fuel n base is_small ≡ ok ds)
      × Holds is_small base ds n
      × (length ds ≤ b)
unfolding number_digits
number_digits-Holds zero b n base is_small two fits enough = absurd (omega arith)
number_digits-Holds (suc fuel) b zero base is_small two fits enough = ([], refl, refl, omega arith)
number_digits-Holds (suc fuel) zero (suc n) base is_small two fits enough = absurd (omega arith)
number_digits-Holds (suc fuel) (suc b) (suc n) base is_small two fits enough =
    let wide : 2 ^ b * 2 ≤ 2 ^ b * base = mul-le-mul_left (2 ^ b) two in
    let halved : suc n / base < 2 ^ b = (div-lt_iff_lt-mul (omega arith)).1 (omega arith) in
    let (ds, e, holds, short) =
      number_digits-Holds fuel b (suc n / base) base is_small two halved (omega arith) in
    (digit is_small (suc n % base) ∷ ds, ground (arith, e), (omega arith, refl, holds), omega arith)

le_two : (base : ℕ) → 2 ≤ base → 0 < base
le_two base two = omega arith

reverse_aux-row :
    (is_small : Bool) (base : ℕ) (ds : List ℕ) (n : ℕ) (r : List ℕ)
    → 2 ≤ base
    → base ≤ 36
    → Holds is_small base ds n
    → row_value base 0 (reverse_aux ds r) ≡ row_value base n r
reverse_aux-row is_small base [] n r two most zero_left =
    ap (λ a. row_value base a r) (sym zero_left)
reverse_aux-row is_small base (d ∷ ds) n r two most (positive, e, holds) =
    reverse_aux-row is_small base ds (n / base) (d ∷ r) two most holds
    ∙ ap (λ a. row_value base a r)
        (omega (
          arith,
          ap digit_value e,
          digit-value is_small (n % base) (omega (arith, mod-lt n (le_two base two))),
          div-add-mod' n base,
        ))

-- A decimal digit, or a letter, small or a capital.
abbrev pub IsDigitOf : Bool → ℕ → Type 0
IsDigitOf is_small c =
    ((48 ≤ c) × (c ≤ 57))
    ⊎ ((is_small ≡ true) × (97 ≤ c) × (c ≤ 122))
    ⊎ ((is_small ≡ false) × (65 ≤ c) × (c ≤ 90))

digit-IsDigitOf : (is_small : Bool) (d : ℕ) → d < 36 → IsDigitOf is_small (digit is_small d)
digit-IsDigitOf is_small d h = elim (Bool-cases (ltb d 10)) [
  | inl low ↦ rw low (inl (omega arith, ground arith))
  | inr high ↦ rw high (letter is_small)
]
  where
    letter :
        (b : Bool) → let c : ℕ = if b then b'a' + (d - 10) else b'A' + (d - 10) in IsDigitOf b c
    letter true = inr (inl (refl, omega arith, omega arith))
    letter false = inr (inr (refl, omega arith, omega arith))

reverse_aux-IsDigitOf :
    (is_small : Bool) (base : ℕ) (ds : List ℕ) (n : ℕ) (r : List ℕ)
    → 2 ≤ base
    → base ≤ 36
    → Holds is_small base ds n
    → All (IsDigitOf is_small) r
    → All (IsDigitOf is_small) (reverse_aux ds r)
reverse_aux-IsDigitOf is_small base [] n r two most holds own = own
reverse_aux-IsDigitOf is_small base (d ∷ ds) n r two most (positive, e, holds) own =
    let small = mod-lt n (le_two base two) in
    reverse_aux-IsDigitOf is_small base ds (n / base) (d ∷ r) two most holds
      (rw e (digit-IsDigitOf is_small (n % base) (omega (arith, small))), own)

pub tmp_lem :
    (value base : ℕ) (is_small : Bool)
    → 2 ≤ base
    → base ≤ 36
    → value < 2 ^ 32
    → (ds : List ℕ) × ((if value == 0 then ok (b'0' ∷ []) else number_digits 37 value base is_small)
        ≡ ok ds)
      × (row_value base 0 (reverse ds) ≡ value)
      × All (IsDigitOf is_small) (reverse ds)
      × (0 < length ds)
      × (length ds ≤ 32)
tmp_lem zero base is_small two most word =
    (b'0' ∷ [], refl, omega arith, (inl (omega arith, omega arith), tt), omega arith, omega arith)
tmp_lem (suc n) base is_small two most word =
    let (ds, e, holds, short) =
      number_digits-Holds 37 32 (suc n) base is_small two word (omega arith) in
    (
      ds,
      ground (arith, e),
      reverse_aux-row is_small base ds (suc n) [] two most holds,
      reverse_aux-IsDigitOf is_small base ds (suc n) [] two most holds tt,
      some_digit ds n holds,
      short,
    )
  where
    some_digit : (ds : List ℕ) (n : ℕ) → Holds is_small base ds (suc n) → 0 < length ds
    some_digit [] n zero_left = absurd (omega arith)
    some_digit (d ∷ ds) n holds = omega arith

row_value_grows : (i : ℕ) (cs : List ℕ) → i ≤ row_value 10 i cs
row_value_grows i [] = omega arith
row_value_grows i (c ∷ cs) = omega (arith, row_value_grows (i * 10 + digit_value c) cs)

skip_atoi-from :
    (i : ℕ) (cs rest : List ℕ) (c : ℕ)
    → All (λ d. is_digit d ≡ true) cs
    → is_digit c ≡ false
    → row_value 10 i cs < 2 ^ 31
    → skip_atoi i (cs ++ c ∷ rest) ≡ ok (row_value 10 i cs, c ∷ rest)
unfolding skip_atoi
skip_atoi-from i [] rest c digits ends fits = rw ends refl
skip_atoi-from i (d ∷ cs) rest c (is_one, digits) ends fits =
    let next : (i * 10 + d - b'0') % 2 ^ 32 ≡ i * 10 + digit_value d =
      ground (arith, row_value_grows (i * 10 + digit_value d) cs) in
    rw (is_one, next) (skip_atoi-from (i * 10 + digit_value d) cs rest c digits ends fits)

-- `skip_atoi` of a text that starts with digits and goes on with some other character returns the
-- number of the digits, when it is below 2^31, and stops at that character.
skip_atoi-row_value :
    (cs rest : List ℕ) (c : ℕ)
    → All (λ d. is_digit d ≡ true) cs
    → is_digit c ≡ false
    → row_value 10 0 cs < 2 ^ 31
    → skip_atoi 0 (cs ++ c ∷ rest) ≡ ok (row_value 10 0 cs, c ∷ rest)
skip_atoi-row_value = skip_atoi-from 0
