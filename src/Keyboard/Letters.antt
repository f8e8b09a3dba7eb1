-- ===== src/Keyboard/Letters.antt =====
-- The characters that the letter keys give, and the reads of the character tables.
use ocean_os.Base.{
  ℕ, zero, suc, ◌-◌, ◌<◌, bit_and, ◌≡◌, refl, ap, ◌∙◌, Bool, true, false, ◌&&◌, ◌||◌, not, some,
  List, [], ◌∷◌, arith, leb, ◌==◌, if◌then◌else◌, ==_iff, all_below, all_below_sound, length,
  get_elem?, get_or, ok, agrees,
}
use ocean_os.Keyboard.{Keyboard, echo, put_buffer, has, map_of, modify, do_self}
use ocean_os.Keyboard.Tables.{key_map}

abbrev pub shift_on : ℕ → Bool
shift_on mode = has mode 0x3

abbrev pub caps_on : ℕ → Bool
caps_on mode = has mode 0x40

abbrev pub ctrl_on : ℕ → Bool
ctrl_on mode = has mode 0xc

abbrev pub alt_on : ℕ → Bool
alt_on mode = has mode 0x30

-- What a letter key types, from its lower-case letter.
abbrev pub letter_typed : ℕ → ℕ → ℕ
letter_typed mode letter =
    if ctrl_on mode
    then (if shift_on mode && caps_on mode then letter - 0x40 else letter - 0x60)
    else if agrees (shift_on mode) (caps_on mode)
    then letter
    else letter - 0x20

abbrev is_lower : ℕ → Bool
is_lower c = leb b'a' c && leb c b'z'

-- The check at one key and one state of the modifiers.
letter_agrees : ℕ → ℕ → Bool
letter_agrees scan_code mode =
    (not (is_lower (get_or key_map scan_code 0)) || alt_on mode)
    || ((not (get_or (map_of mode) scan_code 0 == 0))
        && (modify mode (get_or (map_of mode) scan_code 0)
            == letter_typed mode (get_or key_map scan_code 0)))

letter_table : all_below 79 (λ s. all_below 256 (letter_agrees s)) ≡ true
unfolding letter_agrees modify map_of all_below
letter_table = refl

letter_lem :
    (scan_code mode : ℕ) → scan_code < 79 → mode < 256 → letter_agrees scan_code mode ≡ true
letter_lem scan_code mode h h' =
    all_below_sound 256 (letter_agrees scan_code) mode
      (all_below_sound 79 (λ s. all_below 256 (letter_agrees s)) scan_code letter_table h) h'

pub low_byte : (x : ℕ) → x < 256 → bit_and x 0xff ≡ x
low_byte x h =
    (==_iff (bit_and x 0xff) x).0 (all_below_sound 256 (λ y. bit_and y 0xff == y) x bytes h)
  where
    bytes : all_below 256 (λ y. bit_and y 0xff == y) ≡ true
    bytes = unfold all_below in refl

get_elem?-get_or : (xs : List ℕ) (i : ℕ) → i < length xs → get_elem? xs i ≡ some (get_or xs i 0)
get_elem?-get_or [] i h = elim h [ ]
get_elem?-get_or (x ∷ xs) zero h = refl
get_elem?-get_or (x ∷ xs) (suc i) h = get_elem?-get_or xs i (omega arith)

long : (mode i : ℕ) → i < 79 → i < length (map_of mode)
unfolding map_of
long mode i h = ground arith

-- All three character tables have 79 entries at least.
pub map_of-read :
    (mode i : ℕ) → i < 79 → get_elem? (map_of mode) i ≡ some (get_or (map_of mode) i 0)
map_of-read mode i h = get_elem?-get_or (map_of mode) i (long mode i h)

pub do_self-read :
    (scan_code ch : ℕ) (k : Keyboard)
    → scan_code < 79
    → get_or (map_of k.mode) scan_code 0 ≡ ch
    → do_self scan_code k ≡ (
        if ch == 0
        then ok (k, [])
        else ok (k, echo (modify k.mode ch) ∷ put_buffer (modify k.mode ch) ∷ []))
unfolding do_self
do_self-read scan_code ch k h e =
    let read =
      ap (get_elem? (map_of k.mode)) (low_byte scan_code (omega arith))
      ∙ map_of-read k.mode scan_code h
      ∙ ap some e in
    rw (read, do_self)

letter_facts :
    (scan_code mode : ℕ)
    → letter_agrees scan_code mode ≡ true
    → is_lower (get_or key_map scan_code 0) ≡ true
    → alt_on mode ≡ false
    → ((get_or (map_of mode) scan_code 0 == 0) ≡ false)
      × (modify mode (get_or (map_of mode) scan_code 0)
          ≡ letter_typed mode (get_or key_map scan_code 0))
unfolding letter_agrees
letter_facts scan_code mode agrees letter no_alt =
    split (get_or (map_of mode) scan_code 0 == 0) (modify mode (get_or (map_of mode) scan_code 0))
      (letter_typed mode (get_or key_map scan_code 0)) (rw (letter, no_alt) at agrees)
  where
    split : (z : Bool) (a b : ℕ) → (not z && (a == b)) ≡ true → (z ≡ false) × (a ≡ b)
    split z a b e = ground arith

-- A key that types a lower-case letter with no modifier types, with no alt key held, that letter;
-- in upper case when exactly one of shift and caps lock is on; and with control held the control
-- character of the letter, unless shift and caps lock are both on: then it is the lower-case
-- letter less 0x40, which is no control character. The same character goes to the screen and to
-- the line buffer, and the state stays as it is.
pub do_self-letter :
    (scan_code : ℕ) (k : Keyboard)
    → scan_code < 79
    → k.mode < 256
    → is_lower (get_or key_map scan_code 0) ≡ true
    → alt_on k.mode ≡ false
    → (c : ℕ) × (c ≡ letter_typed k.mode (get_or key_map scan_code 0))
      × (do_self scan_code k ≡ ok (k, echo c ∷ put_buffer c ∷ []))
do_self-letter scan_code k h h' letter no_alt =
    let (nonzero, typed) =
      letter_facts scan_code k.mode (letter_lem scan_code k.mode h h') letter no_alt in
    (
      modify k.mode (get_or (map_of k.mode) scan_code 0),
      typed,
      do_self-read scan_code (get_or (map_of k.mode) scan_code 0) k h refl ∙ rw nonzero,
    )
