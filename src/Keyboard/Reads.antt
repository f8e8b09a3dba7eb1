-- ===== src/Keyboard/Reads.antt =====
-- Which interrupts read the character tables of src/keyboard.c outside of their entries.
use ocean_os.Base.{
  ℕ, ◌<◌, ◌≡◌, refl, ◌≢◌, ◌⊎◌, inl, inr, Bool, true, false, ◌||◌, not, List, [], arith, ltb, ◌==◌,
  if◌then◌else◌, Bool-cases, all_below, all_below_sound, get_or, ok, fault,
}
use ocean_os.Keyboard.{
  Keyboard, Effect, Step, has, map_of, do_self, alt, unalt, ctrl, unctrl, lshift, unlshift, rshift,
  unrshift, caps, uncaps, screen_scroll, num, func, minus, cursor, dispatch, take_code,
  keyboard_handler,
}
use ocean_os.Keyboard.Letters.{do_self-read}
use ocean_os.Keyboard.Tables.{Action, none_key, do_self_key, minus_key, caps_key, key_tab}

reads_map : Action → Bool
reads_map do_self_key = true
reads_map minus_key = true
reads_map _ = false

reads_within :
    (scan_code : ℕ)
    → scan_code < 256
    → scan_code ≢ 0x56
    → reads_map (get_or key_tab scan_code none_key) ≡ true
    → scan_code < 79
unfolding reads_map all_below
reads_within scan_code h other reads =
    let checked =
      all_below_sound 256
        (λ s. ((s == 0x56) || not (reads_map (get_or key_tab s none_key))) || ltb s 79) scan_code
        refl h in
    split scan_code (reads_map (get_or key_tab scan_code none_key)) reads other checked
  where
    split :
        (s : ℕ) (b : Bool)
        → b ≡ true
        → s ≢ 0x56
        → (((s == 0x56) || not b) || ltb s 79) ≡ true
        → s < 79
    split s b e ne c = ground arith

-- A step with a new state and effects: no read outside of the tables.
abbrev pub InTables : Step → Type 0
InTables s = (p : Keyboard × List Effect) × (s ≡ ok p)

either : (b : Bool) (x y : Keyboard × List Effect) → InTables (if b then ok x else ok y)
either true x y = (x, refl)
either false x y = (y, refl)

do_self-InTables : (scan_code : ℕ) (k : Keyboard) → scan_code < 79 → InTables (do_self scan_code k)
do_self-InTables scan_code k h =
    rw (do_self-read scan_code (get_or (map_of k.mode) scan_code 0) k h refl)
      (either (get_or (map_of k.mode) scan_code 0 == 0) _ _)

dispatch-InTables :
    (a : Action) (scan_code : ℕ) (k : Keyboard)
    → (reads_map a ≡ true → scan_code < 79)
    → InTables (dispatch a scan_code k)
unfolding dispatch alt unalt ctrl unctrl lshift unlshift rshift unrshift caps uncaps screen_scroll
    num func minus cursor reads_map
dispatch-InTables do_self_key scan_code k h = do_self-InTables scan_code k (h refl)
dispatch-InTables minus_key scan_code k h = elim (Bool-cases (k.e0 == 1)) [
  | inl right ↦ rw right ((k, []), refl)
  | inr main ↦ rw main (do_self-InTables scan_code k (h refl))
]
dispatch-InTables caps_key scan_code k h = elim (Bool-cases (has k.mode 0x80)) [
  | inl down ↦ rw down ((k, []), refl)
  | inr up ↦ rw up (_, refl)
]
dispatch-InTables none_key scan_code k h = (_, refl)
dispatch-InTables _ scan_code k h = (_, refl)

take_code-InTables :
    (scan_code : ℕ) (k : Keyboard)
    → scan_code < 256
    → scan_code ≢ 0x56
    → InTables (take_code scan_code k)
unfolding take_code
take_code-InTables scan_code k h other =
    let a = get_or key_tab scan_code none_key in
    let (p, e) = dispatch-InTables a scan_code k (reads_within scan_code h other) in
    elim (Bool-cases (scan_code == 0xE0)) [
      | inl first ↦ rw first (_, refl)
      | inr second ↦ elim (Bool-cases (scan_code == 0xE1)) [
        | inl third ↦ rw (second, third) (_, refl)
        | inr fourth ↦ rw (second, fourth, e) (_, refl)
      ]
    ]

take_code-angle :
    (k : Keyboard)
    → ((has k.mode 0x20 ≡ false) × (has k.mode 0x3 ≡ true) × InTables (take_code 0x56 k))
      ⊎ (((has k.mode 0x20 ≡ true) ⊎ (has k.mode 0x3 ≡ false)) × (take_code 0x56 k ≡ fault))
unfolding take_code dispatch do_self map_of
take_code-angle k = elim (Bool-cases (has k.mode 0x20)) [
  | inl alt_held ↦ inr (inl alt_held, ground arith)
  | inr no_alt ↦ elim (Bool-cases (has k.mode 0x3)) [
    | inl shift_held ↦ inl (no_alt, shift_held, ((record k { e0 = 0 }, []), ground arith))
    | inr no_shift ↦ inr (inr no_shift, ground arith)
  ]
]

-- For every scan code but 0x56 the keyboard's handler reads the character tables within their
-- entries, and so has a new state and a list of effects, whatever these do then. For 0x56, the key
-- beside the left shift, that is so exactly when a shift key is held and the right alt key is not;
-- otherwise it reads behind the end of `key_map` or of `alt_map`.
pub keyboard_handler-InTables :
    (r r' scan_code : ℕ) (k : Keyboard)
    → scan_code < 256
    → (scan_code ≢ 0x56 → InTables (keyboard_handler r r' scan_code k))
      × (scan_code ≡ 0x56
          → ((has k.mode 0x20 ≡ false)
              × (has k.mode 0x3 ≡ true)
              × InTables (keyboard_handler r r' scan_code k))
            ⊎ (((has k.mode 0x20 ≡ true) ⊎ (has k.mode 0x3 ≡ false))
                × (keyboard_handler r r' scan_code k ≡ fault)))
keyboard_handler-InTables r r' scan_code k h = (
  λ other. go scan_code (take_code-InTables scan_code k h other),
  λ at. rw at (elim (take_code-angle k) [
    | inl (no_alt, shift_held, returns) ↦ inl (no_alt, shift_held, go 0x56 returns)
    | inr (where_, faults) ↦ inr (where_, unfold keyboard_handler in rw faults)
  ]),
)
  where
    go : (s : ℕ) → InTables (take_code s k) → InTables (keyboard_handler r r' s k)
    go s (p, e) = unfold keyboard_handler in rw e (_, refl)
