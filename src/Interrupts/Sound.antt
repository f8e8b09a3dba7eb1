-- ===== src/Interrupts/Sound.antt =====
-- What every interrupt of a line keeps.
use native.Mathlib.Decide.{ℕ_discrete}
use mathlib.Core.List.{append-nil}
use ocean_os.Base.{
  ℕ, ◌+◌, ◌^◌, ◌≤◌, ◌<◌, ◌≡◌, refl, sym, ap, ◌∙◌, subst, ◌⊎◌, inl, inr, true, false, List, [], ◌++◌,
  arith, ◌==◌, if◌then◌else◌, length, ok, panic, fault, out_of_fuel,
}
use ocean_os.Buffer.{max_length}
use ocean_os.Interrupts.{
  Desk, Running, Interrupt, Output, type_code, desk_of, with_desk, switch_of, interrupt,
}
use ocean_os.Interrupts.Fits.{puts, FitAll, IsFollowed, keyboard_handler-FitAll, wait_all-ready}
use ocean_os.Interrupts.Effects.{IsReady, perform_all-Ready}
use ocean_os.Interrupts.Lines.{
  acks, ticked, HasHandlers, interrupt-key, interrupt-key_fault, interrupt-tick, interrupt-idle,
}
use ocean_os.Keyboard.{Keyboard, Step, has, keyboard_handler}
use ocean_os.Keyboard.Lights.{IsLit, Ends, keyboard_handler-IsLit}
use ocean_os.Keyboard.Reads.{InTables, keyboard_handler-InTables}
use ocean_os.Process.{schedule}
use ocean_os.Process.Ring.{IsRing, schedule-IsRing}
use ocean_os.Process.Timer.{timer_callback, run_head-schedule}

-- The handlers of the start, a ring of the threads `ps` behind its first one, the lights in step
-- with the keys, the cursor on the screen, and the line in the buffer.
pub record IsSound (ps line : List ℕ) (s : Running) : Type 0 where
  pub handlers : HasHandlers s
  pub ticks_lt : s.kernel.trap.ticks < 2 ^ 32
  pub threads : IsRing s.kernel.scheduler ps
  pub lights : IsLit s.kernel.keyboard
  pub ready : IsReady line (desk_of s)

-- The characters that a step puts, and those of an interrupt.
abbrev pub chars : Step → List ℕ
chars (ok (k, es)) = puts es
chars (panic p) = []
chars fault = []
chars out_of_fuel = []

abbrev pub typed_by : Interrupt → Keyboard → List ℕ
typed_by i k =
    if i.reg.int_no == 33 then chars (keyboard_handler i.control i.control' i.scan_code k) else []

-- Outside of the tables of characters.
abbrev pub ReadsOutside : Interrupt → Keyboard → Type 0
ReadsOutside i k = (i.scan_code ≡ 0x56) × ((has k.mode 0x20 ≡ true) ⊎ (has k.mode 0x3 ≡ false))

-- What a keyboard's interrupt does to its desk.
abbrev pub Types : Interrupt → List ℕ → Desk → Type 0
Types i line d =
    let cs = chars (keyboard_handler i.control i.control' i.scan_code d.keyboard) in
    ((length line + length cs < max_length)
      × ((d' : Desk) × (outs : List Output) × (type_code i d ≡ ok (d', outs))
          × IsLit d'.keyboard
          × IsReady (line ++ cs) d'))
    ⊎ ((max_length ≤ length line + length cs) × (type_code i d ≡ fault))
    ⊎ (ReadsOutside i d.keyboard × (type_code i d ≡ fault))

pub type_code-Types :
    (i : Interrupt) (line : List ℕ) (d : Desk)
    → IsFollowed i
    → IsLit d.keyboard
    → IsReady line d
    → Types i line d
unfolding type_code
type_code-Types i line d (calm, answered) lit ready =
    let reads = keyboard_handler-InTables i.control i.control' i.scan_code d.keyboard calm.0 in
    elim (ℕ_discrete i.scan_code 0x56) [
      | no other ↦ returns (reads.0 other)
      | yes angle ↦ elim (reads.1 angle) [
        | inl (_, _, ran) ↦ returns ran
        | inr (held, ran) ↦ inr (inr ((angle, held), rw ran refl))
      ]
    ]
  where
    returns :
        InTables (keyboard_handler i.control i.control' i.scan_code d.keyboard) → Types i line d
    returns ((k, es), ran) =
        let (fits, few) =
          subst FitAll ran
            (keyboard_handler-FitAll i.control i.control' i.scan_code d.keyboard calm) in
        let (left, waited) = wait_all-ready es i.status (omega (arith, few, answered)) in
        let lit' =
          subst (Ends IsLit) ran
            (keyboard_handler-IsLit i.control i.control' i.scan_code d.keyboard lit) in
        let ready' : IsReady line (record d { keyboard = k }) = record {
          cursor = ready.cursor;
          holds = ready.holds;
          room = ready.room;
        } in
        elim (perform_all-Ready es line (record d { keyboard = k }) fits ready') [
          | inl (room, (m, b, outs, done, ready'')) ↦
              rw (ran, waited) (inl (room, (_, outs, done, lit', ready'')))
          | inr (full, fails) ↦ rw (ran, waited) (inr (inl (full, fails)))
        ]

-- The memory and the first thread stay as they are.
abbrev pub Leaves : Running → Running → Type 0
Leaves s s' =
    (s'.kernel.vm ≡ s.kernel.vm) × (s'.kernel.scheduler.run_head ≡ s.kernel.scheduler.run_head)

-- What an interrupt of a line does: it joins what the key types to the line, or there is no room for
-- that, or the key's entry lies outside of the tables.
abbrev pub Keeps : Interrupt → List ℕ → List ℕ → Running → Type 0
Keeps i ps line s =
    let cs = typed_by i s.kernel.keyboard in
    ((length line + length cs < max_length)
      × ((s' : Running) × (outs : List Output) × (interrupt i s
            ≡ ok (s', acks i.reg.int_no ++ outs))
          × IsSound ps (line ++ cs) s'
          × Leaves s s'))
    ⊎ ((max_length ≤ length line + length cs) × (interrupt i s ≡ fault))
    ⊎ ((i.reg.int_no ≡ 33) × ReadsOutside i s.kernel.keyboard × (interrupt i s ≡ fault))

-- After a key, and after a tick.
pub typed-IsSound :
    (ps line line' : List ℕ) (d : Desk) (s : Running)
    → IsSound ps line s
    → IsLit d.keyboard
    → IsReady line' d
    → IsSound ps line' (with_desk d s)
typed-IsSound ps line line' d s sound lit ready = record {
  handlers = sound.handlers;
  ticks_lt = sound.ticks_lt;
  threads = sound.threads;
  lights = lit;
  ready = ready;
}

pub ticked-IsSound :
    (ps line : List ℕ) (s : Running) → IsSound ps line s → IsSound ps line (ticked s)
unfolding timer_callback
ticked-IsSound ps line s sound = record {
  handlers = sound.handlers;
  ticks_lt = omega arith;
  threads = (schedule-IsRing s.kernel.scheduler ps sound.threads).0;
  lights = sound.lights;
  ready = sound.ready;
}

ticked-Leaves : (s : Running) → Leaves s (ticked s)
unfolding timer_callback
ticked-Leaves s = (refl, run_head-schedule s.kernel.scheduler)

module _ (i : Interrupt) (ps line : List ℕ) (s : Running) (sound : IsSound ps line s) where
  nothing_typed :
      (s' : Running) (outs : List Output)
      → (i.reg.int_no == 33) ≡ false
      → interrupt i s ≡ ok (s', acks i.reg.int_no ++ outs)
      → IsSound ps line s'
      → Leaves s s'
      → Keeps i ps line s
  nothing_typed s' outs other ran sound' leaves = rw other (
      inl (
        omega (arith, sound.ready.room),
        (s', outs, ran, subst (λ l. IsSound ps l s') (sym (append-nil line)) sound', leaves),
      ))

  key-Keeps : IsFollowed i → i.reg.int_no ≡ 33 → Keeps i ps line s
  key-Keeps followed at =
      let this : (i.reg.int_no == 33) ≡ true = ground arith in
      rw this (elim (type_code-Types i line (desk_of s) followed sound.lights sound.ready) [
        | inl (room, (d, outs, ran, lit, ready)) ↦ inl (
          room,
          (
            with_desk d s,
            outs,
            interrupt-key i s sound.handlers d outs at ran,
            typed-IsSound ps line _ d s sound lit ready,
            (refl, refl),
          ),
        )
        | inr (inl (full, ran)) ↦ inr (inl (full, interrupt-key_fault i s sound.handlers at ran))
        | inr (inr (outside, ran)) ↦
            inr (inr (at, outside, interrupt-key_fault i s sound.handlers at ran))
      ])

-- An interrupt of a line that is not the keyboard's with the code of f1 or f2, which start the test
-- programs, and where port 0x64 says twice that the keyboard's controller takes a command: from a
-- state with the handlers of the start, a ring of threads, the lights in step with the keys, the
-- cursor on the screen and a line in the buffer, it is acknowledged, returns and keeps all this and
-- the memory, and the characters that its key types join the line. There are two exceptions: the
-- line has no room in the buffer's 512 bytes, or the key of scan code 0x56 is pressed without
-- shift or with the right alt key. Then it writes or reads behind the end of an array.
pub interrupt-IsSound :
    (i : Interrupt) (ps line : List ℕ) (s : Running)
    → IsSound ps line s
    → 32 ≤ i.reg.int_no
    → i.reg.int_no < 48
    → (i.reg.int_no ≡ 33 → IsFollowed i)
    → Keeps i ps line s
interrupt-IsSound i ps line s sound from to followed = elim (ℕ_discrete i.reg.int_no 33) [
  | yes at ↦ key-Keeps i ps line s sound (followed at) at
  | no no_key ↦ elim (ℕ_discrete i.reg.int_no 32) [
    | yes at ↦
        nothing_typed i ps line s sound (ticked s) (switch_of (schedule s.kernel.scheduler).1)
          (ground arith) (interrupt-tick i s sound.handlers at) (ticked-IsSound ps line s sound)
          (ticked-Leaves s)
    | no no_tick ↦
        nothing_typed i ps line s sound s [] (ground arith)
          (interrupt-idle i s sound.handlers from to no_tick no_key
            ∙ ap (λ outs. ok (s, outs)) (sym (append-nil (acks i.reg.int_no))))
          sound (refl, refl)
  ]
]
