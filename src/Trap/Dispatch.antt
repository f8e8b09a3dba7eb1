-- ===== src/Trap/Dispatch.antt =====
-- Which handler an interrupt runs, and when the controllers hear of it.
use mathlib.Core.List.{append-nil}
use ocean_os.Base.{
  ℕ, ◌%◌, ◌^◌, ◌≤◌, ◌<◌, ◌≡◌, refl, sym, ap, ◌∙◌, inl, inr, Bool, true, false, ◌&&◌, ◌||◌, Option,
  none, some, List, [], ◌∷◌, ◌++◌, arith, leb, ◌==◌, if◌then◌else◌, Bool-cases, All, length,
  length-set, get_elem?_lt, ok, get_elem?-set,
}
use ocean_os.Trap.{
  Trap, Event, outb, calls, prints_interrupt, Registers, register_interrupt_handler, isr_handler,
  irq_handler, end_of_interrupt, irq_slot, isr_slot,
}

-- The table has a slot for each vector.
abbrev pub HasSlots {ℓ} : {Handler : Type ℓ} → Trap Handler → Type 0
HasSlots s = length s.handlers ≡ 256

module _ {ℓ} {Handler : Type ℓ} where
  -- Registering a handler makes exactly the interrupts of its vector run it, those of processor and
  -- controllers alike, and keeps the slots; what all other interrupts run does not change.
  pub register_interrupt_handler-runs :
      (n : ℕ) (h : Handler) (s : Trap Handler) (reg : Registers)
      → HasSlots s
      → n < 256
      → let s' = register_interrupt_handler n h s in
        HasSlots s'
        × (irq_handler reg s' ≡ (
            if reg.int_no == n
            then ok (end_of_interrupt reg.int_no ++ calls h reg ∷ [])
            else irq_handler reg s))
        × (isr_handler reg s'
            ≡ (if reg.int_no == n then ok (calls h reg ∷ []) else isr_handler reg s))
  unfolding register_interrupt_handler irq_handler isr_handler irq_slot isr_slot
  register_interrupt_handler-runs n h s reg slots small =
      let byte : n % 2 ^ 8 ≡ n = omega arith in
      let found = get_elem?-set s.handlers n reg.int_no (some h) (omega arith) in
      elim (Bool-cases (reg.int_no == n)) [
        | inl this ↦
            rw (byte, found, this) (omega (arith, length-set s.handlers n (some h)), refl, refl)
        | inr other ↦
            rw (byte, found, other) (omega (arith, length-set s.handlers n (some h)), refl, refl)
      ]

  abbrev pub IsByte : Event Handler → Type 0
  IsByte (outb port b) = Unit
  IsByte e = true ≡ false

  abbrev pub IsCall : Event Handler → Type 0
  IsCall (calls h reg) = Unit
  IsCall e = true ≡ false

  -- An end of interrupt is sent to the controller at `port`.
  abbrev pub acknowledges : ℕ → List (Event Handler) → Bool
  acknowledges port [] = false
  acknowledges port (outb p b ∷ es) = ((p == port) && (b == 0x20)) || acknowledges port es
  acknowledges port (calls h reg ∷ es) = acknowledges port es
  acknowledges port (prints_interrupt n ∷ es) = acknowledges port es

  irq_slot-after :
      (reg : Registers) (acks : List (Event Handler)) (slot : Option Handler)
      → end_of_interrupt reg.int_no ≡ acks
      → (rest : List (Event Handler)) × (irq_slot reg (some slot) ≡ ok (acks ++ rest))
        × All IsCall rest
        × (length rest ≤ 1)
  unfolding irq_slot
  irq_slot-after reg acks none e = ([], ap ok (e ∙ sym (append-nil acks)), tt, omega arith)
  irq_slot-after reg acks (some h) e =
      (calls h reg ∷ [], ap (λ a. ok (a ++ calls h reg ∷ [])) e, (tt, tt), omega arith)

  -- `irq_handler` of every vector tells the controllers of the end of the interrupt before it runs
  -- at most one handler. The master always hears of it, the slave exactly for the vectors from 40
  -- on, where `init_trap` has put its lines.
  pub irq_handler-acknowledges :
      (reg : Registers) (s : Trap Handler)
      → HasSlots s
      → reg.int_no < 256
      → (acks rest : List (Event Handler)) × (irq_handler reg s ≡ ok (acks ++ rest))
        × All IsByte acks
        × All IsCall rest
        × (length rest ≤ 1)
        × (acknowledges 0x20 acks ≡ true)
        × (acknowledges 0xA0 acks ≡ leb 40 reg.int_no)
  unfolding irq_handler end_of_interrupt
  irq_handler-acknowledges reg s slots small =
      let (slot, e) = get_elem?_lt s.handlers reg.int_no (omega arith) in
      elim (Bool-cases (leb 40 reg.int_no)) [
        | inl slave ↦ rw e (
            tell (outb 0xA0 0x20 ∷ outb 0x20 0x20 ∷ []) slot (tt, (tt, tt)) (ground arith) refl
              (ground arith))
        | inr master ↦
            rw e (tell (outb 0x20 0x20 ∷ []) slot (tt, tt) (ground arith) refl (ground arith))
      ]
    where
      tell :
          (acks : List (Event Handler)) (slot : Option Handler)
          → All IsByte acks
          → end_of_interrupt reg.int_no ≡ acks
          → acknowledges 0x20 acks ≡ true
          → acknowledges 0xA0 acks ≡ leb 40 reg.int_no
          → (acks' rest : List (Event Handler)) × (irq_slot reg (some slot) ≡ ok (acks' ++ rest))
            × All IsByte acks'
            × All IsCall rest
            × (length rest ≤ 1)
            × (acknowledges 0x20 acks' ≡ true)
            × (acknowledges 0xA0 acks' ≡ leb 40 reg.int_no)
      tell acks slot bytes e master slave =
          let (rest, ran, call, one) = irq_slot-after reg acks slot e in
          (acks, rest, ran, bytes, call, one, master, slave)
