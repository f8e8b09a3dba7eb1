-- ===== src/Keyboard/Modifiers.antt =====
-- The handlers of src/keyboard.c against the machine of the modifier keys.
use ocean_os.Base.{
  ℕ, ◌<◌, bit_and, bit_or, bit_xor, ◌≡◌, refl, subst, ◌⊎◌, inl, inr, true, false, not, arith, ◌==◌,
  if◌then◌else◌, ==_iff, Bool-cases, all_below, get_or, ok, panic, fault, out_of_fuel, ◌>>=◌,
}
use ocean_os.Keyboard.{
  Keyboard, Step, has, do_self, alt, unalt, ctrl, unctrl, lshift, unlshift, rshift, unrshift, caps,
  uncaps, screen_scroll, num, func, minus, cursor, dispatch, take_code, keyboard_handler,
}
use ocean_os.Keyboard.Lights.{Ends, keyboard_handler-Ends}
use ocean_os.Keyboard.Tables.{
  Action, none_key, do_self_key, ctrl_key, lshift_key, minus_key, rshift_key, alt_key, caps_key,
  func_key, num_key, screen_scroll_key, cursor_key, unctrl_key, unlshift_key, unrshift_key,
  unalt_key, uncaps_key, key_tab,
}
use ocean_os.Keyboard.Machine.{
  held, Change, keep, left_shift_key, right_shift_key, ctrl_either, alt_either, caps_either,
  change_of, apply, change_of_action, key_tab-change, same_held, by_table,
}

-- The state that a step leaves has the flags that the machine says.
abbrev pub Follows : Keyboard → Change → Keyboard → Type 0
Follows k c k' = held k'.mode ≡ apply c (not (k.e0 == 0)) (held k.mode)

do_self-Follows : (scan_code : ℕ) (k : Keyboard) → Ends (Follows k keep) (do_self scan_code k)
unfolding do_self apply
do_self-Follows scan_code k = ground arith

caps-Follows : (k : Keyboard) → k.mode < 256 → Ends (Follows k (caps_either true)) (caps k)
unfolding caps apply same_held all_below
caps-Follows k h =
    let pressed =
      by_table (λ m. if has m 0x80 then m else bit_or (bit_xor m 0x40) 0x80) (caps_either true)
        false k.mode refl h in
    ground (arith, pressed)

dispatch-Follows :
    (a : Action) (scan_code : ℕ) (k : Keyboard)
    → k.mode < 256
    → Ends (Follows k (change_of_action a)) (dispatch a scan_code k)
unfolding dispatch alt unalt ctrl unctrl lshift unlshift rshift unrshift uncaps screen_scroll num
    func minus cursor all_below same_held change_of_action apply
dispatch-Follows none_key scan_code k h = refl
dispatch-Follows do_self_key scan_code k h = do_self-Follows scan_code k
dispatch-Follows ctrl_key scan_code k h = ground (
  arith,
  by_table (λ m. bit_or m 0x4) (ctrl_either true) false k.mode refl h,
  by_table (λ m. bit_or m 0x8) (ctrl_either true) true k.mode refl h,
)
dispatch-Follows lshift_key scan_code k h =
    by_table (λ m. bit_or m 0x1) (left_shift_key true) false k.mode refl h
dispatch-Follows minus_key scan_code k h = ground (arith, do_self-Follows scan_code k)
dispatch-Follows rshift_key scan_code k h =
    by_table (λ m. bit_or m 0x2) (right_shift_key true) false k.mode refl h
dispatch-Follows alt_key scan_code k h = ground (
  arith,
  by_table (λ m. bit_or m 0x10) (alt_either true) false k.mode refl h,
  by_table (λ m. bit_or m 0x20) (alt_either true) true k.mode refl h,
)
dispatch-Follows caps_key scan_code k h = caps-Follows k h
dispatch-Follows func_key scan_code k h = refl
dispatch-Follows num_key scan_code k h = refl
dispatch-Follows screen_scroll_key scan_code k h = refl
dispatch-Follows cursor_key scan_code k h = refl
dispatch-Follows unctrl_key scan_code k h = ground (
  arith,
  by_table (λ m. bit_and m 0xFB) (ctrl_either false) false k.mode refl h,
  by_table (λ m. bit_and m 0xF7) (ctrl_either false) true k.mode refl h,
)
dispatch-Follows unlshift_key scan_code k h =
    by_table (λ m. bit_and m 0xfe) (left_shift_key false) false k.mode refl h
dispatch-Follows unrshift_key scan_code k h =
    by_table (λ m. bit_and m 0xfd) (right_shift_key false) false k.mode refl h
dispatch-Follows unalt_key scan_code k h = ground (
  arith,
  by_table (λ m. bit_and m 0xef) (alt_either false) false k.mode refl h,
  by_table (λ m. bit_and m 0xdf) (alt_either false) true k.mode refl h,
)
dispatch-Follows uncaps_key scan_code k h =
    by_table (λ m. bit_and m 0x7f) (caps_either false) false k.mode refl h

-- The prefix that a scan code leaves for the next one.
abbrev pub prefix_after : ℕ → ℕ
prefix_after scan_code = if scan_code == 0xE0 then 1 else if scan_code == 0xE1 then 2 else 0

Ends-reset :
    (k : Keyboard) (c : Change) (s : Step)
    → Ends (Follows k c) s
    → Ends (λ k'. Follows k c k' × (k'.e0 ≡ 0)) (s >>= λ (k', es). ok (record k' { e0 = 0 }, es))
Ends-reset k c (ok (k', es)) h = (h, refl)
Ends-reset k c (panic p) h = tt
Ends-reset k c fault h = tt
Ends-reset k c out_of_fuel h = tt

change_of-prefix : (s : ℕ) → (s ≡ 0xE0) ⊎ (s ≡ 0xE1) → change_of s ≡ keep
unfolding change_of
change_of-prefix s h = ground arith

take_code-Follows :
    (scan_code : ℕ) (k : Keyboard)
    → k.mode < 256
    → scan_code < 256
    → Ends
        (λ k'. Follows k (change_of scan_code) k' × (k'.e0 ≡ prefix_after scan_code))
        (take_code scan_code k)
unfolding take_code apply
take_code-Follows scan_code k h byte =
    let a = get_or key_tab scan_code none_key in
    let step =
      subst (λ c. Ends (Follows k c) (dispatch a scan_code k)) (key_tab-change scan_code byte)
        (dispatch-Follows a scan_code k h) in
    elim (Bool-cases (scan_code == 0xE0)) [
      | inl first ↦
          rw (first, change_of-prefix scan_code (inl ((==_iff scan_code 0xE0).0 first)))
            (refl, refl)
      | inr other ↦ elim (Bool-cases (scan_code == 0xE1)) [
        | inl second ↦
            rw (other, second, change_of-prefix scan_code (inr ((==_iff scan_code 0xE1).0 second)))
              (refl, refl)
        | inr third ↦
            rw (other, third) (Ends-reset k (change_of scan_code) (dispatch a scan_code k) step)
      ]
    ]

-- Every interrupt of the keyboard that returns does to the modifier keys in `mode`, a byte, what
-- the machine says for the scan code and the prefix before it, and remembers the prefix that the
-- scan code is, if it is one.
pub keyboard_handler-Follows :
    (r r' scan_code : ℕ) (k : Keyboard)
    → k.mode < 256
    → scan_code < 256
    → Ends
        (λ k'. Follows k (change_of scan_code) k' × (k'.e0 ≡ prefix_after scan_code))
        (keyboard_handler r r' scan_code k)
keyboard_handler-Follows r r' scan_code k h byte =
    keyboard_handler-Ends
      (λ k'. Follows k (change_of scan_code) k' × (k'.e0 ≡ prefix_after scan_code)) r r' scan_code k
      (take_code-Follows scan_code k h byte)
