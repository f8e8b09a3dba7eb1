-- ===== src/Keyboard/Examples.antt =====
-- Runs of the keyboard driver.
use ocean_os.Base.{
  ℕ, ◌≡◌, refl, ◌≢◌, ◌⊎◌, true, false, none, some, [], ◌∷◌, arith, get_or, replicate, ok, fault,
}
use ocean_os.Trap.{Trap, Registers, empty_gate}
use ocean_os.Keyboard.{Keyboard, echo, put_buffer, has, do_self, keyboard_handler, cursor_char}
use ocean_os.Keyboard.Tables.{key_map}
use ocean_os.Keyboard.Lights.{Ends}
use ocean_os.Keyboard.Machine.{change_of}
use ocean_os.Keyboard.Modifiers.{Follows, prefix_after, keyboard_handler-Follows}
use ocean_os.Keyboard.Letters.{do_self-letter, letter_typed}
use ocean_os.Keyboard.Reads.{InTables, keyboard_handler-InTables}

abbrev idle : Keyboard
idle = record { mode = 0; leds = 2; e0 = 0 }

-- The left shift key is held.
abbrev shifted : Keyboard
shifted = record { mode = 1; leds = 2; e0 = 0 }

keyboard_handler-Follows_example :
    Ends
      (λ k. Follows idle (change_of 0x2A) k × (k.e0 ≡ prefix_after 0x2A))
      (keyboard_handler 0 0 0x2A idle)
keyboard_handler-Follows_example =
    keyboard_handler-Follows 0 0 0x2A idle (omega arith) (omega arith)

-- The key of the letter a.
do_self-letter_example :
    (c : ℕ) × (c ≡ letter_typed 1 (get_or key_map 0x1E 0))
    × (do_self 0x1E shifted ≡ ok (shifted, echo c ∷ put_buffer c ∷ []))
do_self-letter_example = do_self-letter 0x1E shifted (omega arith) (omega arith) refl refl

-- The key of the letter a.
abbrev a_key : ℕ
a_key = 0x1E

keyboard_handler-InTables_example :
    (a_key ≢ 0x56 → InTables (keyboard_handler 0 0 0x1E idle))
    × (a_key ≡ 0x56
        → ((has 0 0x20 ≡ false) × (has 0 0x3 ≡ true) × InTables (keyboard_handler 0 0 0x1E idle))
          ⊎ (((has 0 0x20 ≡ true) ⊎ (has 0 0x3 ≡ false))
              × (keyboard_handler 0 0 0x1E idle ≡ fault)))
keyboard_handler-InTables_example = keyboard_handler-InTables 0 0 0x1E idle (omega arith)

-- The key 7 of the number pad, with num lock on.
cursor_char_test : cursor_char 0x47 idle ≡ some b'7'
unfolding cursor_char
cursor_char_test = refl

abbrev no_handlers : Trap ℕ
no_handlers = record {
  idts = λ i. empty_gate;
  idtr = record { limit = 0; base = 0 };
  handlers = replicate 256 none;
  ticks = 0;
}

abbrev key_pressed : Registers
key_pressed = record {
  ds = 0x10;
  edi = 0;
  esi = 0;
  ebp = 0;
  esp = 0;
  ebx = 0;
  edx = 0;
  ecx = 0;
  eax = 0;
  int_no = 33;
  err_code = 0;
  eip = 0;
  cs = 0x08;
  eflags = 0;
  useresp = 0;
  ss = 0;
}
