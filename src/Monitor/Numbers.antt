-- ===== src/Monitor/Numbers.antt =====
-- Strings and numbers on the screen.
use mathlib.Core.List.{reverse_aux, append-nil, append_assoc}
use ocean_os.Base.{
  ℕ, zero, suc, ◌+◌, ◌-◌, ◌*◌, ◌/◌, ◌%◌, ◌^◌, ◌≤◌, ◌<◌, ◌≡◌, refl, sym, ap, ◌∙◌, ◌≢◌, ◌⊎◌, inl, inr,
  Bool, true, false, ◌&&◌, List, [], ◌∷◌, ◌++◌, reverse, arith, leb, ◌==◌, if◌then◌else◌,
  Bool-cases, All, length, Result, ok, panic, fault, out_of_fuel, ◌>>=◌, length-reverse_aux,
}
use ocean_os.Monitor.{
  Monitor, PortWrites, move_cursor, monitor_putc_color, monitor_write_color, monitor_write,
  hex_digits, dec_digits, monitor_write_dec, monitor_write_hex,
}
use ocean_os.Monitor.Cursor.{OnScreen, monitor_putc_color-OnScreen}

-- The screen after the characters of a text, one after the other.
abbrev pub typed_all : List ℕ → ℕ → ℕ → Monitor → Monitor
typed_all [] back fore m = m
typed_all (c ∷ cs) back fore m = typed_all cs back fore (monitor_putc_color c back fore m).0

-- A C string is written to its terminator, and what stands behind the terminator does not matter.
-- The screen is the one that its characters leave one after the other, and the cursor stays on it.
pub monitor_write-terminated :
    (cs rest : List ℕ) (m : Monitor)
    → All (λ c. c ≢ 0) cs
    → OnScreen m
    → (out : PortWrites) × (monitor_write (cs ++ 0 ∷ rest) m ≡ ok (typed_all cs 0 15 m, out))
      × OnScreen (typed_all cs 0 15 m)
unfolding monitor_write monitor_write_color
monitor_write-terminated [] rest m clean on = ([], refl, on)
monitor_write-terminated (c ∷ cs) rest m (nonzero, clean) on =
    let now = monitor_putc_color c 0 15 m in
    let (out, e, on') =
      monitor_write-terminated cs rest now.0 clean (monitor_putc_color-OnScreen c 0 15 m on) in
    (now.1 ++ out, ground (arith, e), on')

-- What a row of decimal digits means, and of hexadecimal ones.
abbrev pub decimal_value : ℕ → List ℕ → ℕ
decimal_value acc [] = acc
decimal_value acc (c ∷ cs) = decimal_value (acc * 10 + (c - b'0')) cs

abbrev pub hex_digit : ℕ → ℕ
hex_digit c = if leb b'a' c then c - b'a' + 10 else c - b'0'

abbrev pub hex_value : ℕ → List ℕ → ℕ
hex_value acc [] = acc
hex_value acc (c ∷ cs) = hex_value (acc * 16 + hex_digit c) cs

hex_step :
    (k n acc : ℕ)
    → k < 8
    → (acc * 16 + n / 16 ^ k % 16) * 16 ^ k + n % 16 ^ k ≡ acc * 16 ^ suc k + n % 16 ^ suc k
hex_step zero n acc h = omega arith
hex_step (suc zero) n acc h = omega arith
hex_step (suc (suc zero)) n acc h = omega arith
hex_step (suc (suc (suc zero))) n acc h = omega arith
hex_step (suc (suc (suc (suc zero)))) n acc h = omega arith
hex_step (suc (suc (suc (suc (suc zero))))) n acc h = omega arith
hex_step (suc (suc (suc (suc (suc (suc zero)))))) n acc h = omega arith
hex_step (suc (suc (suc (suc (suc (suc (suc zero))))))) n acc h = omega arith
hex_step (suc (suc (suc (suc (suc (suc (suc (suc k)))))))) n acc h = absurd (omega arith)

hex_digit_lem : (d : ℕ) → d < 16 → hex_digit (if leb 0xA d then d - 0xA + b'a' else d + b'0') ≡ d
hex_digit_lem d h = ground arith

hex_digits_lem :
    (k n acc : ℕ) (no_zeroes : Bool)
    → k ≤ 8
    → (no_zeroes ≡ false) ⊎ (acc ≡ 0)
    → hex_value acc (hex_digits k n no_zeroes) ≡ acc * 16 ^ k + n % 16 ^ k
unfolding hex_digits
hex_digits_lem zero n acc no_zeroes h start = omega arith
hex_digits_lem (suc k) n acc no_zeroes h start =
    let tmp = n / 16 ^ k % 16 in
    let step = hex_step k n acc (omega arith) in
    let zero_sum : acc ≡ 0 → tmp ≡ 0 → acc * 16 + tmp ≡ 0 = λ a b. omega arith in
    elim (Bool-cases ((tmp == 0) && no_zeroes)) [
      | inl skip ↦
          let zeros : tmp ≡ 0 = ground arith in
          let nothing : acc ≡ 0 = ground arith in
          rw skip (
            hex_digits_lem k n acc true (omega arith) (inr nothing)
            ∙ omega (
              arith,
              step,
              ap (λ a. a * 16 ^ k) (zero_sum nothing zeros),
              ap (λ a. a * 16 ^ k) nothing,
            ))
      | inr shown ↦ rw shown (
          ap (λ a. hex_value (acc * 16 + a) (hex_digits k n false))
            (hex_digit_lem tmp (omega arith))
          ∙ hex_digits_lem k n (acc * 16 + tmp) false (omega arith) (inl refl)
          ∙ step)
    ]

-- `ds` are the digits of `n`, the lowest first.
abbrev LowDigits : List ℕ → ℕ → Type 0
LowDigits [] n = n ≡ 0
LowDigits (d ∷ ds) n = (0 < n) × (d ≡ b'0' + n % 10) × LowDigits ds (n / 10)

dec_digits-LowDigits :
    (fuel b n : ℕ)
    → n < 10 ^ b
    → b < fuel
    → (ds : List ℕ) × (dec_digits fuel n ≡ ok ds) × LowDigits ds n × (length ds ≤ b)
unfolding dec_digits
dec_digits-LowDigits zero b n small enough = absurd (omega arith)
dec_digits-LowDigits (suc fuel) b zero small enough = ([], refl, refl, omega arith)
dec_digits-LowDigits (suc fuel) zero (suc n) small enough = absurd (omega arith)
dec_digits-LowDigits (suc fuel) (suc b) (suc n) small enough =
    let (ds, e, low, short) =
      dec_digits-LowDigits fuel b (suc n / 10) (omega arith) (omega arith) in
    ((b'0' + suc n % 10) ∷ ds, ground (arith, e), (omega arith, refl, low), omega arith)

abbrev pub IsDigit : ℕ → Type 0
IsDigit c = (b'0' ≤ c) × (c ≤ b'9')

-- No zero in front.
abbrev pub Leads : List ℕ → Type 0
Leads [] = Unit
Leads (c ∷ cs) = b'1' ≤ c

reverse_aux-value :
    (ds : List ℕ) (n : ℕ) (r : List ℕ)
    → LowDigits ds n
    → decimal_value 0 (reverse_aux ds r) ≡ decimal_value n r
reverse_aux-value [] n r low = ap (λ a. decimal_value a r) (sym low)
reverse_aux-value (d ∷ ds) n r (positive, digit, low) =
    reverse_aux-value ds (n / 10) (d ∷ r) low ∙ ap (λ a. decimal_value a r) (omega arith)

reverse_aux-IsDigit :
    (ds : List ℕ) (n : ℕ) (r : List ℕ)
    → LowDigits ds n
    → All IsDigit r
    → All IsDigit (reverse_aux ds r)
reverse_aux-IsDigit [] n r low all = all
reverse_aux-IsDigit (d ∷ ds) n r (positive, digit, low) all =
    reverse_aux-IsDigit ds (n / 10) (d ∷ r) low ((omega arith, omega arith), all)

reverse_aux-Leads :
    (ds : List ℕ) (n : ℕ) (r : List ℕ) → LowDigits ds n → 0 < n → Leads (reverse_aux ds r)
reverse_aux-Leads [] n r low h = absurd (omega arith)
reverse_aux-Leads (d ∷ []) n r (positive, digit, low) h = omega arith
reverse_aux-Leads (d ∷ d' ∷ ds) n r (positive, digit, low) h =
    reverse_aux-Leads (d' ∷ ds) (n / 10) (d ∷ r) low low.0

-- `monitor_write_dec` of every 32-bit number writes the string of its decimal digits, at most ten
-- of them and none of them a zero in front, except for the number 0 itself.
monitor_write_dec-decimal :
    (n back fore : ℕ) (m : Monitor)
    → n < 2 ^ 32
    → (cs : List ℕ) × (monitor_write_dec n back fore m
        ≡ monitor_write_color (cs ++ 0 ∷ []) back fore m)
      × All IsDigit cs
      × (decimal_value 0 cs ≡ n)
      × (length cs ≤ 10)
      × (n ≢ 0 → Leads cs)
unfolding monitor_write_dec monitor_write_color monitor_putc_color move_cursor
monitor_write_dec-decimal zero back fore m h =
    (b'0' ∷ [], refl, ((omega arith, omega arith), tt), refl, omega arith, λ no. absurd (no refl))
monitor_write_dec-decimal (suc n) back fore m h =
    let (ds, e, low, short) = dec_digits-LowDigits 32 10 (suc n) (omega arith) (omega arith) in
    (
      reverse ds,
      ground (arith, e),
      reverse_aux-IsDigit ds (suc n) [] low tt,
      reverse_aux-value ds (suc n) [] low,
      omega (arith, length-reverse_aux ds []),
      λ _. reverse_aux-Leads ds (suc n) [] low (omega arith),
    )

-- The digits of a number other than 0 start with none that is 0.
hex_digits-Leads : (k n : ℕ) → Leads (hex_digits k n true)
unfolding hex_digits
hex_digits-Leads zero n = tt
hex_digits-Leads (suc k) n = ground (arith, hex_digits-Leads k n)

-- A decimal digit, or a small letter from a to f.
abbrev pub IsHexDigit : ℕ → Type 0
IsHexDigit c = ((48 ≤ c) × (c ≤ 57)) ⊎ ((97 ≤ c) × (c ≤ 102))

digit_of-IsHexDigit : (d : ℕ) → d < 16 → IsHexDigit (if leb 0xA d then d - 0xA + b'a' else d + b'0')
digit_of-IsHexDigit d small = elim (Bool-cases (leb 0xA d)) [
  | inl letter ↦ rw letter (inr (ground arith, omega arith))
  | inr digit ↦ rw digit (inl (omega arith, ground arith))
]

hex_digits-IsHexDigit : (k n : ℕ) (no_zeroes : Bool) → All IsHexDigit (hex_digits k n no_zeroes)
unfolding hex_digits
hex_digits-IsHexDigit zero n no_zeroes = tt
hex_digits-IsHexDigit (suc k) n no_zeroes =
    let tmp = n / 16 ^ k % 16 in
    elim (Bool-cases ((tmp == 0) && no_zeroes)) [
      | inl skip ↦ rw skip (hex_digits-IsHexDigit k n true)
      | inr shown ↦
          rw shown (digit_of-IsHexDigit tmp (omega arith), hex_digits-IsHexDigit k n false)
    ]

hex_digits-zero : hex_digits 8 0 true ≡ []
unfolding hex_digits
hex_digits-zero = refl

-- The writes of what was shown before.
abbrev behind : PortWrites → Monitor × PortWrites → Result (Monitor × PortWrites)
behind outs (m, out) = ok (m, outs ++ out)

-- `monitor_write_hex` of every 32-bit number writes the string `0x` with decimal digits and small
-- letters from a to f behind it that have the value of the number and no zero in front. For 0 it
-- writes no digit at all.
pub monitor_write_hex-hexadecimal :
    (n back fore : ℕ) (m : Monitor)
    → n < 2 ^ 32
    → (cs : List ℕ) × (monitor_write_hex n back fore m
        ≡ monitor_write_color (b'0' ∷ b'x' ∷ cs ++ 0 ∷ []) back fore m)
      × All IsHexDigit cs
      × (hex_value 0 cs ≡ n)
      × Leads cs
      × ((n ≡ 0) → cs ≡ [])
unfolding monitor_write_hex monitor_write_color monitor_putc_color move_cursor
monitor_write_hex-hexadecimal n back fore m h =
    let first = monitor_putc_color b'0' back fore m in
    let second = monitor_putc_color b'x' back fore first.0 in
    let value : hex_value 0 (hex_digits 8 n true) ≡ n =
      hex_digits_lem 8 n 0 true (omega arith) (inr refl) ∙ omega arith in
    (
      hex_digits 8 n true,
      prefix (monitor_write_color (hex_digits 8 n true ++ 0 ∷ []) back fore second.0) first.1
          second.1,
      hex_digits-IsHexDigit 8 n true,
      value,
      hex_digits-Leads 8 n,
      λ none. ap (λ a. hex_digits 8 a true) none ∙ hex_digits-zero,
    )
  where
    prefix :
        (r : Result (Monitor × PortWrites)) (one two : PortWrites)
        → (r >>= behind ((one ++ (two ++ [])))) ≡ ((r >>= behind two) >>= behind one)
    prefix (ok (m', out)) one two =
        ap (λ a. ok (m', (one ++ a) ++ out)) (append-nil two)
        ∙ ap (λ a. ok (m', a)) (append_assoc one two out)
    prefix (panic p) one two = refl
    prefix fault one two = refl
    prefix out_of_fuel one two = refl
