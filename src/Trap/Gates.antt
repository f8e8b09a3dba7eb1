-- ===== src/Trap/Gates.antt =====
-- The table of gates after `init_trap`.
use ocean_os.Base.{
  ℕ, zero, suc, ◌+◌, ◌-◌, ◌*◌, ◌/◌, ◌%◌, ◌^◌, ◌≤◌, ◌<◌, ◌≡◌, refl, ◌∙◌, ◌≢◌, ◌⊎◌, inl, inr, true,
  none, some, arith, ◌==◌, get_elem?, get_elem?-replicate,
}
use ocean_os.Base.Bits.{bit_and-ffff}
use ocean_os.Trap.{IdtEntry, Trap, empty_gate, set_idt, set_gates, init_trap}

-- The processor's reading of a gate.
abbrev pub gate_offset : IdtEntry → ℕ
gate_offset e = e.base_lo + 2 ^ 16 * e.base_hi

-- A 32-bit interrupt gate of the kernel's code segment, with the processor's present bit.
pub record IsGate (e : IdtEntry) (offset : ℕ) : Type 0 where
  pub enters : gate_offset e ≡ offset
  pub segment : e.sel ≡ 0x08
  pub kind : e.flags ≡ 0x8E
  pub reserved : e.zero_byte ≡ 0

set_idt-IsGate :
    (num base : ℕ) (idts : ℕ → IdtEntry)
    → num < 256
    → base < 2 ^ 32
    → IsGate (set_idt num base 0x08 0x8E idts num) base
unfolding set_idt
set_idt-IsGate num base idts n b =
    let index : (num == num % 2 ^ 8) ≡ true = ground arith in
    rw index (record {
      enters = omega (arith, bit_and-ffff base, bit_and-ffff (base / 2 ^ 16));
      segment = refl;
      kind = refl;
      reserved = refl;
    })

set_idt-others :
    (num base sel flags : ℕ) (idts : ℕ → IdtEntry) (i : ℕ)
    → num < 256
    → i ≢ num
    → set_idt num base sel flags idts i ≡ idts i
unfolding set_idt
set_idt-others num base sel flags idts i n other = ground arith

set_gates-others :
    (n num first : ℕ) (stub : ℕ → ℕ) (idts : ℕ → IdtEntry) (i : ℕ)
    → num + n ≤ 256
    → (i < num) ⊎ (num + n ≤ i)
    → set_gates n num first stub idts i ≡ idts i
unfolding set_gates
set_gates-others zero num first stub idts i fits outside = refl
set_gates-others (suc n) num first stub idts i fits outside =
    set_gates-others n (num + 1) (first + 1) stub (set_idt num (stub first) 0x08 0x8E idts) i
      (omega arith) (ground arith)
    ∙ set_idt-others num (stub first) 0x08 0x8E idts i (omega arith) (ground arith)

set_gates-IsGate :
    (n num first : ℕ) (stub : ℕ → ℕ) (idts : ℕ → IdtEntry) (k : ℕ)
    → num + n ≤ 256
    → ((j : ℕ) → stub j < 2 ^ 32)
    → k < n
    → IsGate (set_gates n num first stub idts (num + k)) (stub (first + k))
unfolding set_gates
set_gates-IsGate zero num first stub idts k fits words inside = absurd (omega arith)
set_gates-IsGate (suc n) num first stub idts zero fits words inside =
    let idts' = set_idt num (stub first) 0x08 0x8E idts in
    rw
      (
        add_zero num,
        add_zero first,
        set_gates-others n (num + 1) (first + 1) stub idts' num (omega arith) (inl (omega arith)),
      )
      (set_idt-IsGate num (stub first) idts (omega arith) (words first))
  where
    add_zero : (a : ℕ) → a + 0 ≡ a
    add_zero a = omega arith
set_gates-IsGate (suc n) num first stub idts (suc k) fits words inside =
    let idts' = set_idt num (stub first) 0x08 0x8E idts in
    rw (move num, move first)
      (set_gates-IsGate n (num + 1) (first + 1) stub idts' k (omega arith) words (omega arith))
  where
    move : (a : ℕ) → a + suc k ≡ (a + 1) + k
    move a = omega arith

module _ {ℓ} {Handler : Type ℓ} (isr irq : ℕ → ℕ) (address : ℕ) (s : Trap Handler)
    (isr_words : (i : ℕ) → isr i < 2 ^ 32) (irq_words : (i : ℕ) → irq i < 2 ^ 32) where
  -- After `init_trap` the vectors 0 to 31 enter the stubs `isr0` to `isr31`, 32 to 47 enter `irq0`
  -- to `irq15`, 255 enters `isr255`, each through a gate of the kernel; all other vectors have no
  -- gate, and no vector has a handler.
  pub init_trap-IsGate :
      (v : ℕ)
      → let t : Trap Handler = (init_trap isr irq address s).0 in
        (v < 32 → IsGate (t.idts v) (isr v))
        × (32 ≤ v → v < 48 → IsGate (t.idts v) (irq (v - 32)))
        × (48 ≤ v → v < 255 → t.idts v ≡ empty_gate)
        × (v ≡ 255 → IsGate (t.idts v) (isr v))
        × (v < 256 → get_elem? t.handlers v ≡ some none)
  unfolding init_trap
  init_trap-IsGate v =
      let exceptions = set_gates 32 0 0 isr (λ _. empty_gate) in
      let lines = set_gates 16 32 0 irq exceptions in
      let last : v ≢ 255 → set_idt 255 (isr 255) 0x08 0x8E lines v ≡ lines v =
        λ other. set_idt-others 255 (isr 255) 0x08 0x8E lines v (omega arith) other in
      let start : 0 + v ≡ v = omega arith in
      (
        (λ low.
            rw
              (
                last (omega arith),
                set_gates-others 16 32 0 irq exceptions v (omega arith) (inl low),
              )
              (rw (start) at
                (set_gates-IsGate 32 0 0 isr (λ _. empty_gate) v (omega arith) isr_words low))),
        (λ low high.
            let at_line : 32 + (v - 32) ≡ v = omega arith in
            let index : 0 + (v - 32) ≡ v - 32 = omega arith in
            rw (last (omega arith)) (
              rw (at_line, index) at
                (set_gates-IsGate 16 32 0 irq exceptions (v - 32) (omega arith) irq_words
                  (omega arith)))),
        (λ low high.
            last (omega arith)
            ∙ set_gates-others 16 32 0 irq exceptions v (omega arith) (inr low)
            ∙ set_gates-others 32 0 0 isr (λ _. empty_gate) v (omega arith) (inr (omega arith))),
        (λ e. rw e (set_idt-IsGate 255 (isr 255) lines (omega arith) (isr_words 255))),
        get_elem?-replicate 256 v none,
      )
