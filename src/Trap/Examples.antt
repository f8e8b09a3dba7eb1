-- ===== src/Trap/Examples.antt =====
-- Runs of the interrupt handling, with numbers for the handlers.
use ocean_os.Base.{
  ℕ, ◌+◌, ◌*◌, ◌/◌, ◌%◌, ◌^◌, ◌≤◌, ◌<◌, ◌≡◌, refl, ◌↔◌, ◌⊎◌, true, none, List, [], ◌∷◌, ◌++◌, arith,
  All, length, replicate, ok, fault,
}
use ocean_os.Trap.{
  Registers, Trap, Event, outb, empty_gate, init_trap, register_interrupt_handler, irq_handler,
  init_timer,
}
use ocean_os.Trap.Dispatch.{IsByte, IsCall, acknowledges, irq_handler-acknowledges}
use ocean_os.Trap.Clock.{init_timer-divisor}

abbrev empty_trap : Trap ℕ
empty_trap = record {
  idts = λ i. empty_gate;
  idtr = record { limit = 0; base = 0 };
  handlers = replicate 256 none;
  ticks = 5;
}

abbrev interrupt : ℕ → Registers
interrupt n = record {
  ds = 0x10;
  edi = 0;
  esi = 0;
  ebp = 0;
  esp = 0;
  ebx = 0;
  edx = 0;
  ecx = 0;
  eax = 0;
  int_no = n;
  err_code = 0;
  eip = 0;
  cs = 0x08;
  eflags = 0;
  useresp = 0;
  ss = 0;
}

abbrev stub : ℕ → ℕ
stub i = 0xC0100000 + 16 * (i % 256)

abbrev booted : Trap ℕ
booted = (init_trap stub stub 0xC0200000 empty_trap).0

-- The keyboard's vector.
abbrev vector : ℕ
vector = 33

abbrev registered : Trap ℕ
registered = register_interrupt_handler 33 7 empty_trap

irq_handler-acknowledges_example :
    (acks rest : List (Event ℕ)) × (irq_handler (interrupt 44) empty_trap ≡ ok (acks ++ rest))
    × All IsByte acks
    × All IsCall rest
    × (length rest ≤ 1)
    × (acknowledges 0x20 acks ≡ true)
    × (acknowledges 0xA0 acks ≡ true)
irq_handler-acknowledges_example =
    irq_handler-acknowledges (interrupt 44) empty_trap refl (omega arith)

abbrev frequency : ℕ
frequency = 200

init_timer-divisor_example :
    ((frequency ≡ 0) × (init_timer 7 frequency empty_trap ≡ fault))
    ⊎ ((0 < frequency)
        × ((low high : ℕ) × (init_timer 7 frequency empty_trap
              ≡ ok (
                record (register_interrupt_handler 32 7 empty_trap) { ticks = 0 },
                outb 0x43 0x36 ∷ outb 0x40 low ∷ outb 0x40 high ∷ [],
              ))
            × (low < 2 ^ 8)
            × (high < 2 ^ 8)
            × ((low + 2 ^ 8 * high ≡ 1193180 / frequency) ↔ (19 ≤ frequency))))
init_timer-divisor_example = init_timer-divisor 7 frequency empty_trap
