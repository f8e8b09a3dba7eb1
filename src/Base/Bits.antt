-- ===== src/Base/Bits.antt =====
-- Masks and shifts as arithmetic: `&` with a run of ones and `|` of disjoint fields.
use Prim.Native.Nat.{
  ℕ, zero, suc, ◌+◌, ◌*◌, ◌/◌, ◌%◌, ◌^◌, ◌≤◌, ◌<◌, min, max, bit_and, bit_or, digits, bitwise,
  bit_and-bitwise, bit_or-bitwise,
}
use mathlib.Core.Path.{◌≡◌, refl, ap}
use native.Mathlib.Omega.{arith}

-- `bitwise` is a recursion with fuel. More fuel than the first number has digits changes nothing, so
-- one binary digit can be taken off in front of the fuel of the rest.
module _ (rest : ℕ → ℕ) (pair : ℕ → ℕ → ℕ) where
  spare_fuel : (a b k l : ℕ) → a ≤ min k l → digits rest pair k a b ≡ digits rest pair l a b
  spare_fuel zero b zero zero h = refl
  spare_fuel zero b zero (suc l) h = refl
  spare_fuel zero b (suc k) zero h = refl
  spare_fuel zero b (suc k) (suc l) h = refl
  spare_fuel (suc a) b zero l h = absurd (omega arith)
  spare_fuel (suc a) b (suc k) zero h = absurd (omega arith)
  spare_fuel (suc a) b (suc k) (suc l) h =
      let halves = spare_fuel (suc a / 2) (b / 2) k l (omega arith) in
      ap (λ high. high * 2 + pair (suc a % 2) (b % 2)) halves

  split_digit :
      (a b : ℕ)
      → bitwise rest pair (suc a) b
        ≡ bitwise rest pair (suc a / 2) (b / 2) * 2 + pair (suc a % 2) (b % 2)
  split_digit a b =
      ap (λ high. high * 2 + pair (suc a % 2) (b % 2))
        (spare_fuel (suc a / 2) (b / 2) a (suc a / 2) (omega arith))

-- Conjunction and disjunction on the last digit.
bit_or_step : (x y : ℕ) → bit_or x y ≡ bit_or (x / 2) (y / 2) * 2 + max (x % 2) (y % 2)
bit_or_step zero y = simp bit_or-bitwise (omega arith)
bit_or_step (suc x) y = simp bit_or-bitwise (split_digit (λ other. other) max x y)

bit_and_step : (x y : ℕ) → bit_and x y ≡ bit_and (x / 2) (y / 2) * 2 + min (x % 2) (y % 2)
bit_and_step zero y = simp bit_and-bitwise (omega arith)
bit_and_step (suc x) y = simp bit_and-bitwise (split_digit (λ other. 0) min x y)

-- One digit of a mask at a time.
and_one : (a b : ℕ) → bit_and a (2 * b + 1) ≡ 2 * bit_and (a / 2) b + a % 2
and_one a b =
    let e : (2 * b + 1) / 2 ≡ b = omega arith in
    omega (arith, bit_and_step a (2 * b + 1), ap (bit_and (a / 2)) e)

and_zero : (a b : ℕ) → bit_and a (2 * b) ≡ 2 * bit_and (a / 2) b
and_zero a b =
    let e : 2 * b / 2 ≡ b = omega arith in
    omega (arith, bit_and_step a (2 * b), ap (bit_and (a / 2)) e)

or_zero : (a b : ℕ) → bit_or (2 * a) b ≡ 2 * bit_or a (b / 2) + b % 2
or_zero a b =
    let e : 2 * a / 2 ≡ a = omega arith in
    omega (arith, bit_or_step (2 * a) b, ap (λ t. bit_or t (b / 2)) e)

-- With 0, by the number of digits.
with_zero : (bound x : ℕ) → x < bound → (bit_or x 0 ≡ x) × (bit_and x 0 ≡ 0)
with_zero zero x small = absurd (omega arith)
with_zero (suc bound) zero small = (refl, refl)
with_zero (suc bound) (suc x) small =
    let (same, none) = with_zero bound (suc x / 2) (omega arith) in
    (omega (arith, same, bit_or_step (suc x) 0), omega (arith, none, bit_and_step (suc x) 0))

pub bit_or-zero : (x : ℕ) → bit_or x 0 ≡ x
bit_or-zero x = (with_zero (suc x) x (omega arith)).0

pub bit_and-zero : (x : ℕ) → bit_and x 0 ≡ 0
bit_and-zero x = (with_zero (suc x) x (omega arith)).1

-- One hexadecimal digit at a time.
and_nibble_ones : (a b : ℕ) → bit_and a (16 * b + 15) ≡ 16 * bit_and (a / 16) b + a % 16
and_nibble_ones a b =
    let e : a / 2 / 2 / 2 / 2 ≡ a / 16 = omega arith in
    let m : 16 * b + 15 ≡ 2 * (2 * (2 * (2 * b + 1) + 1) + 1) + 1 = omega arith in
    rw m (
      omega (
        arith,
        and_one a (2 * (2 * (2 * b + 1) + 1) + 1),
        and_one (a / 2) (2 * (2 * b + 1) + 1),
        and_one (a / 2 / 2) (2 * b + 1),
        and_one (a / 2 / 2 / 2) b,
        ap (λ t. bit_and t b) e,
      ))

and_nibble_zeros : (a b : ℕ) → bit_and a (16 * b) ≡ 16 * bit_and (a / 16) b
and_nibble_zeros a b =
    let e : a / 2 / 2 / 2 / 2 ≡ a / 16 = omega arith in
    let m : 16 * b ≡ 2 * (2 * (2 * (2 * b))) = omega arith in
    rw m (
      omega (
        arith,
        and_zero a (2 * (2 * (2 * b))),
        and_zero (a / 2) (2 * (2 * b)),
        and_zero (a / 2 / 2) (2 * b),
        and_zero (a / 2 / 2 / 2) b,
        ap (λ t. bit_and t b) e,
      ))

or_nibble : (a b : ℕ) → bit_or (16 * a) b ≡ 16 * bit_or a (b / 16) + b % 16
or_nibble a b =
    let e : b / 2 / 2 / 2 / 2 ≡ b / 16 = omega arith in
    let m : 16 * a ≡ 2 * (2 * (2 * (2 * a))) = omega arith in
    rw m (
      omega (
        arith,
        or_zero (2 * (2 * (2 * a))) b,
        or_zero (2 * (2 * a)) (b / 2),
        or_zero (2 * a) (b / 2 / 2),
        or_zero a (b / 2 / 2 / 2),
        ap (bit_or a) e,
      ))

-- `x & 0x3FF`.
pub bit_and-three : (a : ℕ) → bit_and a 3 ≡ a % 4
bit_and-three a = omega (arith, and_one a 1, and_one (a / 2) 0, bit_and-zero (a / 2 / 2))

pub bit_and-3ff : (a : ℕ) → bit_and a 0x3FF ≡ a % 1024
bit_and-3ff a = omega (
  arith,
  and_nibble_ones a 0x3F,
  and_nibble_ones (a / 16) 3,
  and_one (a / 16 / 16) 1,
  and_one (a / 16 / 16 / 2) 0,
  bit_and-zero (a / 16 / 16 / 2 / 2),
)

-- `x & 0xFFFFF`.
bit_and-fffff : (a : ℕ) → bit_and a 0xFFFFF ≡ a % 0x100000
bit_and-fffff a = omega (
  arith,
  and_nibble_ones a 0xFFFF,
  and_nibble_ones (a / 16) 0xFFF,
  and_nibble_ones (a / 16 / 16) 0xFF,
  and_nibble_ones (a / 16 / 16 / 16) 0xF,
  and_nibble_ones (a / 16 / 16 / 16 / 16) 0,
  bit_and-zero (a / 16 / 16 / 16 / 16 / 16),
)

-- `x & 0xFFFFF000` drops the offset in a page of a 32-bit word.
pub bit_and-page : (a : ℕ) → a < 2 ^ 32 → bit_and a 0xFFFFF000 ≡ 4096 * (a / 4096)
bit_and-page a h =
    let e : a / 16 / 16 / 16 ≡ a / 4096 = omega arith in
    omega (
      arith,
      and_nibble_zeros a 0xFFFFF00,
      and_nibble_zeros (a / 16) 0xFFFFF0,
      and_nibble_zeros (a / 16 / 16) 0xFFFFF,
      bit_and-fffff (a / 16 / 16 / 16),
    )

-- `p | flags` for the address of a page and flags below the page size.
pub bit_or-page : (q r : ℕ) → r < 4096 → bit_or (4096 * q) r ≡ 4096 * q + r
bit_or-page q r h =
    let m : 4096 * q ≡ 16 * (16 * (16 * q)) = omega arith in
    let z : r / 16 / 16 / 16 ≡ 0 = omega arith in
    rw m (
      omega (
        arith,
        or_nibble (16 * (16 * q)) r,
        or_nibble (16 * q) (r / 16),
        or_nibble q (r / 16 / 16),
        ap (bit_or q) z,
        bit_or-zero q,
      ))

-- `p | PAGE_PRESENT | PAGE_WRITE` for the address of a page.
pub bit_or-three : (p : ℕ) → p % 4 ≡ 0 → bit_or (bit_or p 1) 2 ≡ p + 3
bit_or-three p h =
    let one : bit_or p 1 ≡ p + 1 = omega (arith, bit_or_step p 1, bit_or-zero (p / 2)) in
    let half : (p + 1) / 2 ≡ p / 2 = omega arith in
    rw one (
      omega (
        arith,
        bit_or_step (p + 1) 2,
        ap (λ t. bit_or t 1) half,
        bit_or_step (p / 2) 1,
        bit_or-zero (p / 2 / 2),
      ))

-- The masks of the fields of descriptors.
pub bit_and-f : (a : ℕ) → bit_and a 0x0F ≡ a % 16
bit_and-f a = omega (arith, and_nibble_ones a 0, bit_and-zero (a / 16))

pub bit_and-f0 : (a : ℕ) → bit_and a 0xF0 ≡ 16 * (a / 16 % 16)
bit_and-f0 a = omega (arith, and_nibble_zeros a 15, bit_and-f (a / 16))

pub bit_and-ff : (a : ℕ) → bit_and a 0xFF ≡ a % 256
bit_and-ff a = omega (arith, and_nibble_ones a 15, bit_and-f (a / 16))

pub bit_and-ffff : (a : ℕ) → bit_and a 0xFFFF ≡ a % 65536
bit_and-ffff a =
    omega (arith, and_nibble_ones a 0xFFF, and_nibble_ones (a / 16) 0xFF, bit_and-ff (a / 16 / 16))

-- `low | high` of two nibbles.
pub bit_or-nibbles : (r b : ℕ) → r < 16 → bit_or r (16 * b) ≡ r + 16 * b
bit_or-nibbles r b h =
    let e : 16 * b / 2 / 2 / 2 / 2 ≡ b = omega arith in
    let z : r / 2 / 2 / 2 / 2 ≡ 0 = omega arith in
    omega (
      arith,
      bit_or_step r (16 * b),
      bit_or_step (r / 2) (16 * b / 2),
      bit_or_step (r / 2 / 2) (16 * b / 2 / 2),
      bit_or_step (r / 2 / 2 / 2) (16 * b / 2 / 2 / 2),
      ap (λ t. bit_or t (16 * b / 2 / 2 / 2 / 2)) z,
      zero_or (16 * b / 2 / 2 / 2 / 2),
    )
  where
    zero_or : (n : ℕ) → bit_or 0 n ≡ n
    zero_or n = simp bit_or-bitwise refl

-- `x & 1` to `x & 16`.
pub bit_and-power :
    (x : ℕ)
    → (bit_and x 1 ≡ x % 2)
      × (bit_and x 2 ≡ 2 * (x / 2 % 2))
      × (bit_and x 4 ≡ 4 * (x / 4 % 2))
      × (bit_and x 8 ≡ 8 * (x / 8 % 2))
      × (bit_and x 16 ≡ 16 * (x / 16 % 2))
bit_and-power x =
    let one : (a : ℕ) → bit_and a 1 ≡ a % 2 =
      λ a. omega (arith, and_one a 0, bit_and-zero (a / 2)) in
    let two : (a : ℕ) → bit_and a 2 ≡ 2 * (a / 2 % 2) =
      λ a. omega (arith, and_zero a 1, one (a / 2)) in
    let four : (a : ℕ) → bit_and a 4 ≡ 4 * (a / 4 % 2) =
      λ a. omega (arith, and_zero a 2, two (a / 2)) in
    let eight : (a : ℕ) → bit_and a 8 ≡ 8 * (a / 8 % 2) =
      λ a. omega (arith, and_zero a 4, four (a / 2)) in
    (one x, two x, four x, eight x, omega (arith, and_zero x 8, eight (x / 2)))
