-- ===== src/Interrupts/Lines.antt =====
-- What an interrupt runs, by its line.
use mathlib.Core.List.{append-nil}
use ocean_os.Base.{
  ℕ, ◌≤◌, ◌<◌, ◌≡◌, refl, sym, ap, ◌∙◌, ◌≢◌, inl, inr, none, some, List, [], ◌∷◌, ◌++◌, arith, leb,
  if◌then◌else◌, Bool-cases, get_elem?, ok, fault,
}
use ocean_os.Interrupts.{
  Desk, Running, Interrupt, Output, port, type_code, desk_of, with_desk, switch_of, call_handler,
  run_events, interrupt,
}
use ocean_os.Process.{schedule}
use ocean_os.Process.Timer.{timer_callback}
use ocean_os.Start.{Handler, at_timer_callback, at_keyboard_handler}
use ocean_os.Start.Handlers.{handler_of}
use ocean_os.Trap.{Event, calls, irq_handler, irq_slot, end_of_interrupt}

-- The end of an interrupt, as the controllers hear of it.
abbrev pub acks : ℕ → List Output
acks v = (if leb 40 v then port 0xA0 0x20 ∷ [] else []) ++ port 0x20 0x20 ∷ []

run_events-acks :
    (v : ℕ) (es : List (Event Handler)) (i : Interrupt) (s s' : Running) (outs : List Output)
    → run_events es i s ≡ ok (s', outs)
    → run_events (end_of_interrupt v ++ es) i s ≡ ok (s', acks v ++ outs)
unfolding run_events end_of_interrupt
run_events-acks v es i s s' outs e = elim (Bool-cases (leb 40 v)) [
  | inl slave ↦ rw (slave, e) refl
  | inr master ↦ rw (master, e) refl
]

run_events-acks_fault :
    (v : ℕ) (es : List (Event Handler)) (i : Interrupt) (s : Running)
    → run_events es i s ≡ fault
    → run_events (end_of_interrupt v ++ es) i s ≡ fault
unfolding run_events end_of_interrupt
run_events-acks_fault v es i s e = elim (Bool-cases (leb 40 v)) [
  | inl slave ↦ rw (slave, e) refl
  | inr master ↦ rw (master, e) refl
]

module _ (i : Interrupt) (s : Running) where
  -- A line without a handler is only acknowledged.
  interrupt-none :
      get_elem? s.kernel.trap.handlers i.reg.int_no ≡ some none
      → interrupt i s ≡ ok (s, acks i.reg.int_no)
  unfolding interrupt irq_handler irq_slot
  interrupt-none slot = rw slot (
      ap (λ es. run_events es i s) (sym (append-nil (end_of_interrupt i.reg.int_no)))
      ∙ run_events-acks i.reg.int_no [] i s s [] (unfold run_events in refl)
      ∙ ap (λ outs. ok (s, outs)) (append-nil (acks i.reg.int_no)))

  interrupt-calls :
      (h : Handler) (s' : Running) (outs : List Output)
      → get_elem? s.kernel.trap.handlers i.reg.int_no ≡ some (some h)
      → call_handler h i s ≡ ok (s', outs)
      → interrupt i s ≡ ok (s', acks i.reg.int_no ++ outs)
  unfolding interrupt irq_handler irq_slot run_events
  interrupt-calls h s' outs slot ran = rw slot (
      run_events-acks i.reg.int_no (calls h i.reg ∷ []) i s s' outs
        (rw ran (ap (λ r. ok (s', r)) (append-nil outs))))

  interrupt-faults :
      (h : Handler)
      → get_elem? s.kernel.trap.handlers i.reg.int_no ≡ some (some h)
      → call_handler h i s ≡ fault
      → interrupt i s ≡ fault
  unfolding interrupt irq_handler irq_slot run_events
  interrupt-faults h slot fails =
      rw slot (run_events-acks_fault i.reg.int_no (calls h i.reg ∷ []) i s (rw fails refl))

-- The state after a tick.
abbrev pub ticked : Running → Running
ticked s =
    let (trap, scheduler, switched) = timer_callback s.kernel.trap s.kernel.scheduler in
    record s { kernel = record s.kernel { trap = trap; scheduler = scheduler } }

-- The handlers are those of the start.
abbrev pub HasHandlers : Running → Type 0
HasHandlers s = (v : ℕ) → v < 256 → get_elem? s.kernel.trap.handlers v ≡ some (handler_of v)

module _ (i : Interrupt) (s : Running) (handlers : HasHandlers s) where
  slot :
      (v : ℕ)
      → v < 256
      → i.reg.int_no ≡ v
      → get_elem? s.kernel.trap.handlers i.reg.int_no ≡ some (handler_of v)
  slot v small at = handlers i.reg.int_no (omega arith) ∙ ap (λ v. some (handler_of v)) at

  pub interrupt-key :
      (d : Desk) (outs : List Output)
      → i.reg.int_no ≡ 33
      → type_code i (desk_of s) ≡ ok (d, outs)
      → interrupt i s ≡ ok (with_desk d s, acks i.reg.int_no ++ outs)
  unfolding call_handler
  interrupt-key d outs at ran =
      interrupt-calls i s at_keyboard_handler (with_desk d s) outs (slot 33 (omega arith) at)
        (rw ran refl)

  pub interrupt-key_fault :
      i.reg.int_no ≡ 33 → type_code i (desk_of s) ≡ fault → interrupt i s ≡ fault
  unfolding call_handler
  interrupt-key_fault at ran =
      interrupt-faults i s at_keyboard_handler (slot 33 (omega arith) at) (rw ran refl)

  pub interrupt-tick :
      i.reg.int_no ≡ 32
      → interrupt i s
        ≡ ok (ticked s, acks i.reg.int_no ++ switch_of (schedule s.kernel.scheduler).1)
  unfolding call_handler timer_callback
  interrupt-tick at =
      interrupt-calls i s at_timer_callback (ticked s) (switch_of (schedule s.kernel.scheduler).1)
        (slot 32 (omega arith) at) refl

  pub interrupt-idle :
      32 ≤ i.reg.int_no
      → i.reg.int_no < 48
      → i.reg.int_no ≢ 32
      → i.reg.int_no ≢ 33
      → interrupt i s ≡ ok (s, acks i.reg.int_no)
  interrupt-idle from to no_tick no_key =
      interrupt-none i s (handlers i.reg.int_no (omega arith) ∙ ground arith)
