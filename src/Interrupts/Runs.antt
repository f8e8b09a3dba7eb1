-- ===== src/Interrupts/Runs.antt =====
-- Interrupts of the timer between those of the keyboard.
use native.Mathlib.Decide.{ℕ_discrete}
use ocean_os.Base.{
  ℕ, suc, ◌≤◌, ◌<◌, ◌≡◌, refl, ◌≢◌, ◌⊎◌, inl, inr, true, false, List, [], ◌∷◌, ◌++◌, arith, ◌==◌,
  if◌then◌else◌, All, Result, ok, fault, ◌>>=◌,
}
use ocean_os.Interrupts.{
  Desk, Running, Interrupt, Output, type_code, desk_of, with_desk, switch_of, interrupt, run,
}
use ocean_os.Interrupts.Fits.{IsFollowed}
use ocean_os.Interrupts.Lines.{
  acks, ticked, interrupt-key, interrupt-key_fault, interrupt-tick, interrupt-idle,
}
use ocean_os.Interrupts.Sound.{IsSound, type_code-Types, typed-IsSound, ticked-IsSound}
use ocean_os.Process.{schedule}
use ocean_os.Process.Timer.{after_ticks}

-- The timer's interrupts, counted, and the keyboard's.
abbrev pub ticks_of : List Interrupt → ℕ
ticks_of [] = 0
ticks_of (i ∷ is) = if i.reg.int_no == 32 then suc (ticks_of is) else ticks_of is

abbrev pub keys_of : List Interrupt → List Interrupt
keys_of [] = []
keys_of (i ∷ is) = if i.reg.int_no == 33 then i ∷ keys_of is else keys_of is

-- The keys alone, one after the other.
unfoldable pub type_all : List Interrupt → Desk → Result (Desk × List Output)
type_all [] d = ok (d, [])
type_all (i ∷ is) d =
    type_code i d >>= λ (d', outs). type_all is d' >>= λ (d'', more). ok (d'', outs ++ more)

abbrev pub IsLine : Interrupt → Type 0
IsLine i = (32 ≤ i.reg.int_no) × (i.reg.int_no < 48) × (i.reg.int_no ≡ 33 → IsFollowed i)

-- The run does to threads and clock what its ticks do, and to the desk what its keys do.
abbrev pub Splits : List Interrupt → Running → Type 0
Splits is s =
    ((s' : Running) × (outs typed : List Output) × (run is s ≡ ok (s', outs))
      × (type_all (keys_of is) (desk_of s) ≡ ok (desk_of s', typed))
      × (after_ticks (ticks_of is) s.kernel.trap s.kernel.scheduler
          ≡ (s'.kernel.trap, s'.kernel.scheduler)))
    ⊎ ((run is s ≡ fault) × (type_all (keys_of is) (desk_of s) ≡ fault))

module _ (i : Interrupt) (is : List Interrupt) (s : Running) where
  -- An interrupt that returns, in front of others.
  run_after :
      (s' : Running) (outs : List Output)
      → interrupt i s ≡ ok (s', outs)
      → Splits is s'
      → ((s'' : Running) × (more typed : List Output) × (run (i ∷ is) s ≡ ok (s'', more))
          × (type_all (keys_of is) (desk_of s') ≡ ok (desk_of s'', typed))
          × (after_ticks (ticks_of is) s'.kernel.trap s'.kernel.scheduler
              ≡ (s''.kernel.trap, s''.kernel.scheduler)))
        ⊎ ((run (i ∷ is) s ≡ fault) × (type_all (keys_of is) (desk_of s') ≡ fault))
  unfolding run
  run_after s' outs ran later = elim later [
    | inl (s'', more, typed, e, keys, clock) ↦
        inl (s'', outs ++ more, typed, rw (ran, e) refl, keys, clock)
    | inr (e, keys) ↦ inr (rw (ran, e) refl, keys)
  ]

  key-Splits :
      (d : Desk) (outs : List Output)
      → i.reg.int_no ≡ 33
      → interrupt i s ≡ ok (with_desk d s, acks i.reg.int_no ++ outs)
      → type_code i (desk_of s) ≡ ok (d, outs)
      → Splits is (with_desk d s)
      → Splits (i ∷ is) s
  unfolding type_all
  key-Splits d outs at ran typed later =
      let this : (i.reg.int_no == 33) ≡ true = ground arith in
      let other : (i.reg.int_no == 32) ≡ false = ground arith in
      elim (run_after (with_desk d s) (acks i.reg.int_no ++ outs) ran later) [
        | inl (s'', more, typed', e, keys, clock) ↦
            rw (this, other) (inl (s'', more, outs ++ typed', e, rw (typed, keys) refl, clock))
        | inr (e, keys) ↦ rw (this, other) (inr (e, rw (typed, keys) refl))
      ]

  key_fault-Splits :
      i.reg.int_no ≡ 33
      → interrupt i s ≡ fault
      → type_code i (desk_of s) ≡ fault
      → Splits (i ∷ is) s
  unfolding type_all run
  key_fault-Splits at ran typed =
      let this : (i.reg.int_no == 33) ≡ true = ground arith in
      rw this (inr (rw ran refl, rw typed refl))

  tick-Splits :
      (outs : List Output)
      → i.reg.int_no ≡ 32
      → interrupt i s ≡ ok (ticked s, outs)
      → Splits is (ticked s)
      → Splits (i ∷ is) s
  unfolding after_ticks
  tick-Splits outs at ran later =
      let this : (i.reg.int_no == 32) ≡ true = ground arith in
      let other : (i.reg.int_no == 33) ≡ false = ground arith in
      rw (this, other) (run_after (ticked s) outs ran later)

  idle-Splits :
      (outs : List Output)
      → i.reg.int_no ≢ 32
      → i.reg.int_no ≢ 33
      → interrupt i s ≡ ok (s, outs)
      → Splits is s
      → Splits (i ∷ is) s
  idle-Splits outs no_tick no_key ran later =
      let no_tick' : (i.reg.int_no == 32) ≡ false = ground arith in
      let no_key' : (i.reg.int_no == 33) ≡ false = ground arith in
      rw (no_tick', no_key') (run_after s outs ran later)

-- Interrupts of the lines in any order, none of them of f1 or f2, which start the test programs, and
-- where the keyboard's controller takes two commands each time, from a sound state: the ticks of the
-- timer in between change nothing of what the keys do to keyboard, screen and line buffer, and the
-- keys nothing of what the ticks do to clock and threads. The run faults exactly when the keys
-- alone do.
pub run-Splits :
    (is : List Interrupt) (ps line : List ℕ) (s : Running)
    → All IsLine is
    → IsSound ps line s
    → Splits is s
unfolding run type_all after_ticks
run-Splits [] ps line s lines sound = inl (s, [], [], refl, refl, refl)
run-Splits (i ∷ is) ps line s ((from, to, followed), lines) sound =
    elim (ℕ_discrete i.reg.int_no 33) [
      | yes at ↦ elim (type_code-Types i line (desk_of s) (followed at) sound.lights sound.ready) [
        | inl (room, (d, outs, typed, lit, ready)) ↦
            key-Splits i is s d outs at (interrupt-key i s sound.handlers d outs at typed) typed (
              run-Splits is ps _ (with_desk d s) lines
                (typed-IsSound ps line _ d s sound lit ready))
        | inr (inl (full, typed)) ↦
            key_fault-Splits i is s at (interrupt-key_fault i s sound.handlers at typed) typed
        | inr (inr (outside, typed)) ↦
            key_fault-Splits i is s at (interrupt-key_fault i s sound.handlers at typed) typed
      ]
      | no no_key ↦ elim (ℕ_discrete i.reg.int_no 32) [
        | yes at ↦
            tick-Splits i is s (acks i.reg.int_no ++ switch_of (schedule s.kernel.scheduler).1) at
              (interrupt-tick i s sound.handlers at)
              (run-Splits is ps line (ticked s) lines (ticked-IsSound ps line s sound))
        | no no_tick ↦
            idle-Splits i is s (acks i.reg.int_no) no_tick no_key
              (interrupt-idle i s sound.handlers from to no_tick no_key)
              (run-Splits is ps line s lines sound)
      ]
    ]
