-- ===== src/Interrupts/Keys.antt =====
-- The handler of src/keyboard.c for the keys of plain characters, while no modifier is held.
use ocean_os.Base.{
  ℕ, ◌<◌, ◌≡◌, refl, sym, ap, ◌∙◌, subst, ◌⊎◌, inl, inr, Bool, true, false, ◌&&◌, not, List, [],
  ◌∷◌, ◌++◌, arith, ltb, leb, ◌==◌, if◌then◌else◌, all_below, all_below_sound, get_or, ok,
}
use ocean_os.Interrupts.{Interrupt}
use ocean_os.Keyboard.{
  Keyboard, Effect, echo, put_buffer, has, map_of, modify, do_self, dispatch, take_code,
  acknowledge, keyboard_handler,
}
use ocean_os.Keyboard.Letters.{do_self-read}
use ocean_os.Keyboard.Tables.{Action, none_key, do_self_key, key_tab, key_map}

-- The character of a key without modifiers.
unfoldable pub key_char : ℕ → ℕ
key_char code = get_or key_map code 0

abbrev pub is_do_self : Action → Bool
is_do_self do_self_key = true
is_do_self _ = false

abbrev pub is_none : Action → Bool
is_none none_key = true
is_none _ = false

-- A key with a character goes down, or one whose release does nothing goes up.
abbrev pub pressed : ℕ → Bool
pressed code = ltb code 79 && is_do_self (get_or key_tab code none_key) && not (key_char code == 0)

abbrev pub released : ℕ → Bool
released code = leb 128 code && ltb code 0xE0 && is_none (get_or key_tab code none_key)

abbrev pub IsPlainKey : Interrupt → Type 0
IsPlainKey i = (pressed i.scan_code ≡ true) ⊎ (released i.scan_code ≡ true)

-- The character of a key, where it goes down.
abbrev pub text_of : Interrupt → List ℕ
text_of i = if ltb i.scan_code 128 then key_char i.scan_code ∷ [] else []

abbrev pub typed_text : List Interrupt → List ℕ
typed_text [] = []
typed_text (i ∷ is) = text_of i ++ typed_text is

do_self_of : (a : Action) → is_do_self a ≡ true → a ≡ do_self_key
do_self_of do_self_key h = refl
do_self_of _ h = cc

none_of : (a : Action) → is_none a ≡ true → a ≡ none_key
none_of none_key h = refl
none_of _ h = cc

-- The character tables without a modifier.
plain_table :
    all_below 79 (λ s. (modify 0 (key_char s) == key_char s) && ltb (key_char s) 256) ≡ true
unfolding all_below modify key_char
plain_table = refl

pub three : (a b c : Bool) → (a && b && not c) ≡ true → (a ≡ true) × (b ≡ true) × (c ≡ false)
three a b c h = ground arith

pub both : (a b c : Bool) → (a && b && c) ≡ true → (a ≡ true) × (b ≡ true) × (c ≡ true)
both a b c h = ground arith

pub key_char-plain :
    (code : ℕ) → code < 79 → (modify 0 (key_char code) ≡ key_char code) × (key_char code < 256)
key_char-plain code small =
    let checked =
      all_below_sound 79 (λ s. (modify 0 (key_char s) == key_char s) && ltb (key_char s) 256) code
        plain_table small in
    split (modify 0 (key_char code)) (key_char code) checked
  where
    split : (a b : ℕ) → ((a == b) && ltb b 256) ≡ true → (a ≡ b) × (b < 256)
    split a b h = ground arith

map_of-plain : (mode code : ℕ) → mode ≡ 0 → get_or (map_of mode) code 0 ≡ key_char code
unfolding map_of key_char
map_of-plain mode code plain = rw plain refl

do_self-plain :
    (code : ℕ) (k : Keyboard)
    → code < 79
    → (key_char code == 0) ≡ false
    → k.mode ≡ 0
    → do_self code k ≡ ok (k, echo (key_char code) ∷ put_buffer (key_char code) ∷ [])
do_self-plain code k small typed plain =
    let same : modify k.mode (key_char code) ≡ key_char code =
      ap (λ m. modify m (key_char code)) plain ∙ (key_char-plain code small).0 in
    do_self-read code (key_char code) k small (map_of-plain k.mode code plain)
    ∙ rw (typed, same) refl

take_code-pressed :
    (code : ℕ) (k : Keyboard)
    → pressed code ≡ true
    → k.mode ≡ 0
    → take_code code k
      ≡ ok (record k { e0 = 0 }, echo (key_char code) ∷ put_buffer (key_char code) ∷ [])
unfolding take_code dispatch
take_code-pressed code k down plain =
    let (less, own, typed) = three (ltb code 79) _ (key_char code == 0) down in
    let small : code < 79 = ground arith in
    let step =
      subst
        (λ a. dispatch a code k ≡ ok (k, echo (key_char code) ∷ put_buffer (key_char code) ∷ []))
        (sym (do_self_of (get_or key_tab code none_key) own))
        (do_self-plain code k small typed plain) in
    let no_prefix : (code == 0xE0) ≡ false = ground arith in
    let no_prefix' : (code == 0xE1) ≡ false = ground arith in rw (no_prefix, no_prefix', step) refl

take_code-released :
    (code : ℕ) (k : Keyboard)
    → released code ≡ true
    → take_code code k ≡ ok (record k { e0 = 0 }, [])
unfolding take_code dispatch
take_code-released code k up =
    let (high, low, unused) = both (leb 128 code) (ltb code 0xE0) _ up in
    let step =
      subst (λ a. dispatch a code k ≡ ok (k, []))
        (sym (none_of (get_or key_tab code none_key) unused)) refl in
    let no_prefix : (code == 0xE0) ≡ false = ground arith in
    let no_prefix' : (code == 0xE1) ≡ false = ground arith in rw (no_prefix, no_prefix', step) refl

pub below : (code : ℕ) → ltb code 79 ≡ true → ltb code 128 ≡ true
below code h = ground arith

pub above : (code : ℕ) → leb 128 code ≡ true → ltb code 128 ≡ false
above code h = ground arith

no_reset : (a b : Bool) → (a && false && b) ≡ false
no_reset true b = refl
no_reset false b = refl

-- The effects of a key's interrupt.
abbrev pub key_effects : Interrupt → List Effect
key_effects i =
    (if ltb i.scan_code 128
      then echo (key_char i.scan_code) ∷ put_buffer (key_char i.scan_code) ∷ []
      else [])
    ++ acknowledge i.control i.control'

pub keyboard_handler-plain :
    (i : Interrupt) (k : Keyboard)
    → IsPlainKey i
    → k.mode ≡ 0
    → keyboard_handler i.control i.control' i.scan_code k ≡ ok (record k { e0 = 0 }, key_effects i)
unfolding keyboard_handler
keyboard_handler-plain i k key plain =
    let no_ctrl : has k.mode 4 ≡ false = rw plain refl in
    elim key [
      | inl down ↦
          let (less, own, typed) = three (ltb i.scan_code 79) _ (key_char i.scan_code == 0) down in
          let make = below i.scan_code less in
          rw (no_ctrl, no_reset, take_code-pressed i.scan_code k down plain, make) refl
      | inr up ↦
          let (high, low, unused) = both (leb 128 i.scan_code) (ltb i.scan_code 0xE0) _ up in
          let make = above i.scan_code high in
          rw (no_ctrl, no_reset, take_code-released i.scan_code k up, make) refl
    ]
