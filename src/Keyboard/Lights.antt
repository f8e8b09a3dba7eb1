-- ===== src/Keyboard/Lights.antt =====
-- The caps-lock light shows the caps-lock state, and the state stays in its bytes.
use ocean_os.Base.{
  ℕ, ◌<◌, bit_and, bit_or, bit_xor, ◌≡◌, refl, Bool, true, ◌&&◌, not, List, ◌++◌, arith, ltb,
  all_below, all_below_sound, get_or, ok, panic, fault, out_of_fuel, ◌>>=◌, agrees,
}
use ocean_os.Keyboard.{
  Keyboard, Effect, Step, has, do_self, alt, unalt, ctrl, unctrl, lshift, unlshift, rshift,
  unrshift, caps, uncaps, screen_scroll, num, func, minus, cursor, dispatch, take_code,
  keyboard_handler, init_kbd,
}
use ocean_os.Keyboard.Tables.{
  Action, none_key, do_self_key, ctrl_key, lshift_key, minus_key, rshift_key, alt_key, caps_key,
  func_key, num_key, screen_scroll_key, cursor_key, unctrl_key, unlshift_key, unrshift_key,
  unalt_key, uncaps_key, key_tab,
}

-- `mode` is a byte, `leds` has the three lights, and the caps-lock light is on exactly when caps
-- lock is.
pub record IsLit (k : Keyboard) : Type 0 where
  pub mode_lt : k.mode < 256
  pub leds_lt : k.leds < 8
  pub synced : has k.leds 0x4 ≡ has k.mode 0x40

-- Every way in which a step returns leads to a state with the property.
abbrev pub Ends {ℓ} : (Keyboard → Type ℓ) → Step → Type ℓ
Ends P (ok (k, es)) = P k
Ends P (panic p) = Unit
Ends P fault = Unit
Ends P out_of_fuel = Unit

-- A change of `mode` that keeps it a byte and leaves caps lock alone.
abbrev keeps : (ℕ → ℕ) → ℕ → Bool
keeps f m = ltb (f m) 256 && agrees (has (f m) 0x40) (has m 0x40)

keeps-IsLit :
    (f : ℕ → ℕ) (k : Keyboard)
    → all_below 256 (keeps f) ≡ true
    → IsLit k
    → IsLit (record k { mode = f k.mode })
keeps-IsLit f k checked lit =
    ground
      (arith, all_below_sound 256 (keeps f) k.mode checked lit.mode_lt, lit.leds_lt, lit.synced)

toggled : ℕ → Bool
toggled m =
    ltb (bit_or (bit_xor m 0x40) 0x80) 256
    && agrees (has (bit_or (bit_xor m 0x40) 0x80) 0x40) (not (has m 0x40))

light_toggled : ℕ → Bool
light_toggled l = ltb (bit_xor l 0x4) 8 && agrees (has (bit_xor l 0x4) 0x4) (not (has l 0x4))

light_kept : ℕ → ℕ → Bool
light_kept bit l = ltb (bit_xor l bit) 8 && agrees (has (bit_xor l bit) 0x4) (has l 0x4)

-- What the exclusive-or of caps lock does to the two bytes.
caps-IsLit : (k : Keyboard) → IsLit k → Ends IsLit (caps k)
unfolding caps toggled light_toggled all_below
caps-IsLit k lit = ground (
  arith,
  all_below_sound 256 toggled k.mode refl lit.mode_lt,
  all_below_sound 8 light_toggled k.leds refl lit.leds_lt,
  lit.mode_lt,
  lit.leds_lt,
  lit.synced,
)

xor-IsLit :
    (bit : ℕ) (k : Keyboard)
    → all_below 8 (light_kept bit) ≡ true
    → IsLit k
    → IsLit (record k { leds = bit_xor k.leds bit })
unfolding light_kept
xor-IsLit bit k checked lit =
    ground (
      arith,
      all_below_sound 8 (light_kept bit) k.leds checked lit.leds_lt,
      lit.mode_lt,
      lit.synced,
    )

do_self-IsLit : (scan_code : ℕ) (k : Keyboard) → IsLit k → Ends IsLit (do_self scan_code k)
unfolding do_self
do_self-IsLit scan_code k lit = ground arith

dispatch-IsLit :
    (a : Action) (scan_code : ℕ) (k : Keyboard) → IsLit k → Ends IsLit (dispatch a scan_code k)
unfolding dispatch alt unalt ctrl unctrl lshift unlshift rshift unrshift uncaps screen_scroll num
    func minus cursor all_below light_kept
dispatch-IsLit none_key scan_code k lit = lit
dispatch-IsLit do_self_key scan_code k lit = do_self-IsLit scan_code k lit
dispatch-IsLit ctrl_key scan_code k lit =
    ground (
      arith,
      keeps-IsLit (λ m. bit_or m 0x4) k refl lit,
      keeps-IsLit (λ m. bit_or m 0x8) k refl lit,
    )
dispatch-IsLit lshift_key scan_code k lit = keeps-IsLit (λ m. bit_or m 0x1) k refl lit
dispatch-IsLit minus_key scan_code k lit = ground (arith, do_self-IsLit scan_code k lit)
dispatch-IsLit rshift_key scan_code k lit = keeps-IsLit (λ m. bit_or m 0x2) k refl lit
dispatch-IsLit alt_key scan_code k lit = ground (
  arith,
  keeps-IsLit (λ m. bit_or m 0x10) k refl lit,
  keeps-IsLit (λ m. bit_or m 0x20) k refl lit,
)
dispatch-IsLit caps_key scan_code k lit = caps-IsLit k lit
dispatch-IsLit func_key scan_code k lit = lit
dispatch-IsLit num_key scan_code k lit = xor-IsLit 0x2 k refl lit
dispatch-IsLit screen_scroll_key scan_code k lit = xor-IsLit 0x1 k refl lit
dispatch-IsLit cursor_key scan_code k lit = lit
dispatch-IsLit unctrl_key scan_code k lit = ground (
  arith,
  keeps-IsLit (λ m. bit_and m 0xFB) k refl lit,
  keeps-IsLit (λ m. bit_and m 0xF7) k refl lit,
)
dispatch-IsLit unlshift_key scan_code k lit = keeps-IsLit (λ m. bit_and m 0xfe) k refl lit
dispatch-IsLit unrshift_key scan_code k lit = keeps-IsLit (λ m. bit_and m 0xfd) k refl lit
dispatch-IsLit unalt_key scan_code k lit = ground (
  arith,
  keeps-IsLit (λ m. bit_and m 0xef) k refl lit,
  keeps-IsLit (λ m. bit_and m 0xdf) k refl lit,
)
dispatch-IsLit uncaps_key scan_code k lit = keeps-IsLit (λ m. bit_and m 0x7f) k refl lit

-- The driver starts with the caps-lock light in step with caps lock.
pub init_kbd-IsLit : (k : Keyboard) → Ends IsLit (init_kbd k)
unfolding init_kbd
init_kbd-IsLit k = record { mode_lt = omega arith; leds_lt = omega arith; synced = refl }

-- The rest of the interrupt handler only adds effects.
Ends-finish {ℓ} :
    (P : Keyboard → Type ℓ) (before after : List Effect) (s : Step)
    → Ends P s
    → Ends P (s >>= λ (k', es). ok (k', before ++ (es ++ after)))
Ends-finish P before after (ok (k, es)) h = h
Ends-finish P before after (panic p) h = tt
Ends-finish P before after fault h = tt
Ends-finish P before after out_of_fuel h = tt

pub keyboard_handler-Ends {ℓ} :
    (P : Keyboard → Type ℓ) (r r' scan_code : ℕ) (k : Keyboard)
    → Ends P (take_code scan_code k)
    → Ends P (keyboard_handler r r' scan_code k)
unfolding keyboard_handler
keyboard_handler-Ends P r r' scan_code k = Ends-finish P _ _ (take_code scan_code k)

take_code-IsLit : (scan_code : ℕ) (k : Keyboard) → IsLit k → Ends IsLit (take_code scan_code k)
unfolding take_code
take_code-IsLit scan_code k lit =
    ground (arith, dispatch-IsLit (get_or key_tab scan_code none_key) scan_code k lit)

-- Every interrupt of the keyboard that returns keeps `mode` a byte, keeps the three lights, and
-- keeps the caps-lock light on exactly when caps lock is, whatever the scan code is and whatever
-- port 0x61 reads.
pub keyboard_handler-IsLit :
    (r r' scan_code : ℕ) (k : Keyboard) → IsLit k → Ends IsLit (keyboard_handler r r' scan_code k)
keyboard_handler-IsLit r r' scan_code k lit =
    keyboard_handler-Ends IsLit r r' scan_code k (take_code-IsLit scan_code k lit)
