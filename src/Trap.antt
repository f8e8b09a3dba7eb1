-- ===== src/Trap.antt =====
-- Interrupts, src/trap.c and include/trap.h: the table of gates, the two interrupt controllers, the
-- handlers and the timer. `isr` and `irq` stand for the addresses of the stubs isr0, … and irq0, …
-- of src/trap_s.s, and `Handler` for the handlers' addresses; a null pointer is `none`.
pub mod Gates
pub mod Dispatch
pub mod Clock
pub mod Examples
use ocean_os.Base.{
  ℕ, zero, suc, ◌+◌, ◌-◌, ◌*◌, ◌/◌, ◌%◌, ◌^◌, bit_and, Option, none, some, List, [], ◌∷◌, ◌++◌, ltb,
  leb, ◌==◌, if◌then◌else◌, get_elem?, set, replicate, Result, ok, fault, out_of_fuel,
}

pub record IdtEntry : Type 0 where
  pub base_lo : ℕ
  pub sel : ℕ
  pub zero_byte : ℕ
  pub flags : ℕ
  pub base_hi : ℕ

pub record Idtr : Type 0 where
  pub limit : ℕ
  pub base : ℕ

-- The registers that a stub pushes.
pub record Registers : Type 0 where
  pub ds : ℕ
  pub edi : ℕ
  pub esi : ℕ
  pub ebp : ℕ
  pub esp : ℕ
  pub ebx : ℕ
  pub edx : ℕ
  pub ecx : ℕ
  pub eax : ℕ
  pub int_no : ℕ
  pub err_code : ℕ
  pub eip : ℕ
  pub cs : ℕ
  pub eflags : ℕ
  pub useresp : ℕ
  pub ss : ℕ

pub record Trap {ℓ} (Handler : Type ℓ) : Type ℓ where
  pub idts : ℕ → IdtEntry
  pub idtr : Idtr
  pub handlers : List (Option Handler)
  pub ticks : ℕ

-- What the code does besides changing its state, in the order of time.
pub data Event {ℓ} (Handler : Type ℓ) : Type ℓ where
  outb : ℕ → ℕ → Event Handler
  calls : Handler → Registers → Event Handler
  prints_interrupt : ℕ → Event Handler

abbrev pub idt_length : ℕ
idt_length = 256

abbrev pub empty_gate : IdtEntry
empty_gate = record { base_lo = 0; sel = 0; zero_byte = 0; flags = 0; base_hi = 0 }

-- `num` is a `uint8_t`, so it is an index of the table.
unfoldable pub set_idt : ℕ → ℕ → ℕ → ℕ → (ℕ → IdtEntry) → ℕ → IdtEntry
set_idt num base sel flags idts i =
    if i == num % 2 ^ 8
    then record {
      base_lo = bit_and base 0xFFFF;
      sel = sel;
      zero_byte = 0;
      flags = flags;
      base_hi = bit_and (base / 2 ^ 16) 0xFFFF;
    }
    else idts i

-- `setIdt(num, stub, 0x08, 0x8E);` for `n` stubs in a row.
unfoldable pub set_gates : ℕ → ℕ → ℕ → (ℕ → ℕ) → (ℕ → IdtEntry) → ℕ → IdtEntry
set_gates zero num first stub idts = idts
set_gates (suc n) num first stub idts =
    set_gates n (num + 1) (first + 1) stub (set_idt num (stub first) 0x08 0x8E idts)

module _ {ℓ} {Handler : Type ℓ} where
  -- `address` is that of `idts`, and `sizeof(idtr_t)` is 6.
  unfoldable pub init_trap :
      (ℕ → ℕ) → (ℕ → ℕ) → ℕ → Trap Handler → Trap Handler × List (Event Handler)
  init_trap isr irq address s =
      let gates = set_gates 32 0 0 isr (λ _. empty_gate) in
      let gates = set_gates 16 32 0 irq gates in
      let gates = set_idt 255 (isr 255) 0x08 0x8E gates in
      (
        record s {
          idts = gates;
          idtr = record { limit = 6 * 256 - 1; base = address };
          handlers = replicate 256 none;
        },
        outb 0x20 0x11
            ∷ outb 0xA0 0x11
            ∷ outb 0x21 0x20
            ∷ outb 0xA1 0x28
            ∷ outb 0x21 0x04
            ∷ outb 0xA1 0x02
            ∷ outb 0x21 0x01
            ∷ outb 0xA1 0x01
            ∷ outb 0x21 0x0
            ∷ outb 0xA1 0x0
            ∷ [],
      )

  -- `num` is a `uint8_t`.
  unfoldable pub register_interrupt_handler : ℕ → Handler → Trap Handler → Trap Handler
  register_interrupt_handler num h s = record s { handlers = set s.handlers (num % 2 ^ 8) (some h) }

  -- What the slot of the vector decides; a slot outside of the table faults.
  unfoldable pub isr_slot : Registers → Option (Option Handler) → Result (List (Event Handler))
  isr_slot reg none = fault
  isr_slot reg (some none) = ok (prints_interrupt reg.int_no ∷ [])
  isr_slot reg (some (some h)) = ok (calls h reg ∷ [])

  unfoldable pub isr_handler : Registers → Trap Handler → Result (List (Event Handler))
  isr_handler reg s = isr_slot reg (get_elem? s.handlers reg.int_no)

  -- The bytes for the controllers: the slave has the lines from vector 40 on.
  unfoldable pub end_of_interrupt : ℕ → List (Event Handler)
  end_of_interrupt int_no =
      (if leb 40 int_no then outb 0xA0 0x20 ∷ [] else []) ++ outb 0x20 0x20 ∷ []

  unfoldable pub irq_slot : Registers → Option (Option Handler) → Result (List (Event Handler))
  irq_slot reg none = fault
  irq_slot reg (some none) = ok (end_of_interrupt reg.int_no)
  irq_slot reg (some (some h)) = ok (end_of_interrupt reg.int_no ++ calls h reg ∷ [])

  unfoldable pub irq_handler : Registers → Trap Handler → Result (List (Event Handler))
  irq_handler reg s = irq_slot reg (get_elem? s.handlers reg.int_no)

  -- A division by zero faults.
  unfoldable pub init_timer :
      Handler → ℕ → Trap Handler → Result (Trap Handler × List (Event Handler))
  init_timer timer_callback f s =
      let d = 1193180 / f in
      let low = bit_and d 0xFF in
      let high = bit_and (d / 2 ^ 8) 0xFF in
      if f == 0
      then fault
      else ok (
        record (register_interrupt_handler 32 timer_callback s) { ticks = 0 },
        outb 0x43 0x36 ∷ outb 0x40 low ∷ outb 0x40 high ∷ [],
      )

-- `while (ticks - st < t) {}` where round `i` reads `readings i`; the result is the last round.
unfoldable pub sleep_loop : ℕ → ℕ → ℕ → ℕ → (ℕ → ℕ) → Result ℕ
sleep_loop zero i st t readings = out_of_fuel
sleep_loop (suc fuel) i st t readings =
    let rest = sleep_loop fuel (i + 1) st t readings in
    if ltb ((readings i + 2 ^ 32 - st) % 2 ^ 32) t then rest else ok i
