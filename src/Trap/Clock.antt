-- ===== src/Trap/Clock.antt =====
-- The timer and the waiting for its ticks.
use native.Mathlib.Decide.{ℕ_discrete}
use native.Mathlib.Nat.{div-lt_iff_lt-mul}
use ocean_os.Base.{
  ℕ, zero, suc, ◌+◌, ◌-◌, ◌*◌, ◌/◌, ◌%◌, ◌^◌, ◌≤◌, ◌<◌, bit_and, ◌≡◌, refl, subst, ◌↔◌, ◌⊎◌, inl,
  inr, false, [], ◌∷◌, arith, ltb, ◌==◌, Bool-cases, ok, fault,
}
use ocean_os.Base.Bits.{bit_and-ff}
use ocean_os.Trap.{Trap, outb, register_interrupt_handler, init_timer, sleep_loop}

-- `init_timer` for a frequency of at least 19 sends the bytes of the timer's divisor 1193180 / f,
-- the low one first, makes `timer_callback` the handler of the first line, and starts the ticks at
-- 0. Below 19, the divisor needs more than the timer's 16 bits and loses its high part. A frequency
-- of 0 faults.
pub init_timer-divisor {ℓ} :
    {Handler : Type ℓ} (timer_callback : Handler) (f : ℕ) (s : Trap Handler)
    → ((f ≡ 0) × (init_timer timer_callback f s ≡ fault))
      ⊎ ((0 < f)
          × ((low high : ℕ) × (init_timer timer_callback f s
                ≡ ok (
                  record (register_interrupt_handler 32 timer_callback s) { ticks = 0 },
                  outb 0x43 0x36 ∷ outb 0x40 low ∷ outb 0x40 high ∷ [],
                ))
              × (low < 2 ^ 8)
              × (high < 2 ^ 8)
              × ((low + 2 ^ 8 * high ≡ 1193180 / f) ↔ (19 ≤ f))))
unfolding init_timer
init_timer-divisor timer_callback zero s = inl (refl, refl)
init_timer-divisor timer_callback (suc n) s =
    let d = 1193180 / suc n in
    let nonzero : (suc n == 0) ≡ false = ground arith in
    let fits : (d < 2 ^ 16) ↔ (1193180 < 2 ^ 16 * suc n) = div-lt_iff_lt-mul (omega arith) in
    let value : bit_and d 0xFF + 2 ^ 8 * bit_and (d / 2 ^ 8) 0xFF ≡ d % 2 ^ 16 =
      omega (arith, bit_and-ff d, bit_and-ff (d / 2 ^ 8)) in
    inr (
      omega arith,
      (
        bit_and d 0xFF,
        bit_and (d / 2 ^ 8) 0xFF,
        rw nonzero refl,
        omega (arith, bit_and-ff d),
        omega (arith, bit_and-ff (d / 2 ^ 8)),
        (
          (λ same. omega (arith, fits.0 (omega arith))),
          λ slow. omega (arith, value, fits.1 (omega arith)),
        ),
      ),
    )

-- Every reading of `ticks` is `elapsed` ticks after `st`.
abbrev pub Counts : (ℕ → ℕ) → ℕ → (ℕ → ℕ) → Type 0
Counts readings st elapsed =
    (i : ℕ) → (elapsed i < 2 ^ 32) × (readings i ≡ (st + elapsed i) % 2 ^ 32)

-- `sleep` ends with the first reading of `ticks` that is `t` ticks after the start, also when the
-- 32-bit counter overflows in between, if there is such a reading `j`, and then `j + 1` rounds are
-- enough.
pub sleep_loop-first :
    (fuel i st t : ℕ) (readings elapsed : ℕ → ℕ) (j : ℕ)
    → st < 2 ^ 32
    → Counts readings st elapsed
    → i ≤ j
    → t ≤ elapsed j
    → j < i + fuel
    → (k : ℕ) × (sleep_loop fuel i st t readings ≡ ok k)
      × (i ≤ k)
      × (k ≤ j)
      × (t ≤ elapsed k)
      × ((l : ℕ) → i ≤ l → l < k → elapsed l < t)
unfolding sleep_loop
sleep_loop-first zero i st t readings elapsed j word counts before reached fits =
    absurd (omega arith)
sleep_loop-first (suc fuel) i st t readings elapsed j word counts before reached fits =
    let (short, reading) = counts i in
    let difference : (readings i + 2 ^ 32 - st) % 2 ^ 32 ≡ elapsed i = omega arith in
    rw difference (elim (Bool-cases (ltb (elapsed i) t)) [
      | inr done ↦
          (i, rw done refl, omega arith, before, ground arith, λ l low high. absurd (omega arith))
      | inl waiting ↦
          let (k, e, low, high, enough, early) =
            sleep_loop-first fuel (i + 1) st t readings elapsed j word counts (ground arith) reached
              (omega arith) in
          (
            k,
            rw waiting e,
            omega arith,
            high,
            enough,
            λ l from before'. elim (ℕ_discrete i l) [
              | yes here ↦ subst (λ a. elapsed a < t) here (ground arith)
              | no later ↦ early l (omega arith) before'
            ],
          )
    ])
