-- ===== src/Keyboard/Start.antt =====
-- The keyboard driver and its interrupt.
use ocean_os.Base.{◌≡◌, refl, List, [], ◌∷◌, ◌++◌, arith, ◌==◌, if◌then◌else◌, ok}
use ocean_os.Trap.{
  Trap, Registers, calls, end_of_interrupt, irq_handler, register_interrupt_handler,
}
use ocean_os.Trap.Dispatch.{HasSlots, register_interrupt_handler-runs}
use ocean_os.Keyboard.{Keyboard, Effect, init_kbd, init_keyboard, setleds}
use ocean_os.Keyboard.Lights.{IsLit, init_kbd-IsLit}

-- `init_keyboard` returns with the caps-lock light in step with caps lock. From then on the
-- keyboard's interrupt runs the driver's handler after the controllers were told, and what the
-- other lines run does not change.
init_keyboard-runs {ℓ} :
    {Handler : Type ℓ} (handler : Handler) (k : Keyboard) (s : Trap Handler) (reg : Registers)
    → HasSlots s
    → (k' : Keyboard) × (es : List Effect) × (s' : Trap Handler) × (init_keyboard handler k s
        ≡ ok ((k', es), s'))
      × IsLit k'
      × HasSlots s'
      × (irq_handler reg s' ≡ (
          if reg.int_no == 33
          then ok (end_of_interrupt reg.int_no ++ calls handler reg ∷ [])
          else irq_handler reg s))
unfolding init_keyboard init_kbd setleds
init_keyboard-runs handler k s reg slots =
    let (slots', irq, isr) = register_interrupt_handler-runs 33 handler s reg slots (omega arith) in
    (_, _, register_interrupt_handler 33 handler s, refl, init_kbd-IsLit k, slots', irq)
