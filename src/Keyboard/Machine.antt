-- ===== src/Keyboard/Machine.antt =====
-- The modifier keys as an abstract machine: which are held down, and whether caps lock is on.
use ocean_os.Base.{
  ℕ, ◌<◌, ◌≡◌, refl, sym, ap₂, ◌∙◌, Bool, true, false, ◌&&◌, not, arith, ◌==◌, if◌then◌else◌,
  all_below, all_below_sound, get_or, agrees,
}
use ocean_os.Keyboard.{has}
use ocean_os.Keyboard.Tables.{
  Action, none_key, ctrl_key, lshift_key, rshift_key, alt_key, caps_key, unctrl_key, unlshift_key,
  unrshift_key, unalt_key, uncaps_key, key_tab,
}

pub record Held : Type 0 where
  pub left_shift : Bool
  pub right_shift : Bool
  pub left_ctrl : Bool
  pub right_ctrl : Bool
  pub left_alt : Bool
  pub right_alt : Bool
  pub caps_down : Bool
  pub caps_lock : Bool

-- The bits of `mode`, as the comment above it lists them.
abbrev pub held : ℕ → Held
held m = record {
  left_shift = has m 0x1;
  right_shift = has m 0x2;
  left_ctrl = has m 0x4;
  right_ctrl = has m 0x8;
  left_alt = has m 0x10;
  right_alt = has m 0x20;
  caps_down = has m 0x80;
  caps_lock = has m 0x40;
}

-- What a scan code says of the modifier keys: a key goes down or up.
pub data Change : Type 0 where
  keep : Change
  left_shift_key right_shift_key ctrl_either alt_either caps_either : Bool → Change

-- The scan codes of the modifier keys of a PC keyboard, set 1.
unfoldable pub change_of : ℕ → Change
change_of scan_code =
    if scan_code == 0x2A
    then left_shift_key true
    else if scan_code == 0xAA
    then left_shift_key false
    else if scan_code == 0x36
    then right_shift_key true
    else if scan_code == 0xB6
    then right_shift_key false
    else if scan_code == 0x1D
    then ctrl_either true
    else if scan_code == 0x9D
    then ctrl_either false
    else if scan_code == 0x38
    then alt_either true
    else if scan_code == 0xB8
    then alt_either false
    else if scan_code == 0x3A
    then caps_either true
    else if scan_code == 0xBA
    then caps_either false
    else keep

-- A key behind a prefix is the one on the right. Caps lock changes when its key goes down, and not
-- again while the key is held and repeats.
unfoldable pub apply : Change → Bool → Held → Held
apply keep right h = h
apply (left_shift_key down) right h = record h { left_shift = down }
apply (right_shift_key down) right h = record h { right_shift = down }
apply (ctrl_either down) true h = record h { right_ctrl = down }
apply (ctrl_either down) false h = record h { left_ctrl = down }
apply (alt_either down) true h = record h { right_alt = down }
apply (alt_either down) false h = record h { left_alt = down }
apply (caps_either true) right h =
    if h.caps_down then h else record h { caps_down = true; caps_lock = not h.caps_lock }
apply (caps_either false) right h = record h { caps_down = false }

-- The same by the table of the driver.
unfoldable pub change_of_action : Action → Change
change_of_action lshift_key = left_shift_key true
change_of_action unlshift_key = left_shift_key false
change_of_action rshift_key = right_shift_key true
change_of_action unrshift_key = right_shift_key false
change_of_action ctrl_key = ctrl_either true
change_of_action unctrl_key = ctrl_either false
change_of_action alt_key = alt_either true
change_of_action unalt_key = alt_either false
change_of_action caps_key = caps_either true
change_of_action uncaps_key = caps_either false
change_of_action _ = keep

kind : Change → ℕ
kind keep = 0
kind (left_shift_key _) = 1
kind (right_shift_key _) = 2
kind (ctrl_either _) = 3
kind (alt_either _) = 4
kind (caps_either _) = 5

down : Change → Bool
down keep = true
down (left_shift_key b) = b
down (right_shift_key b) = b
down (ctrl_either b) = b
down (alt_either b) = b
down (caps_either b) = b

rebuild : ℕ → Bool → Change
rebuild n b =
    if n == 0
    then keep
    else if n == 1
    then left_shift_key b
    else if n == 2
    then right_shift_key b
    else if n == 3
    then ctrl_either b
    else if n == 4
    then alt_either b
    else caps_either b

rebuild_lem : (c : Change) → rebuild (kind c) (down c) ≡ c
unfolding rebuild kind down
rebuild_lem keep = refl
rebuild_lem (left_shift_key b) = refl
rebuild_lem (right_shift_key b) = refl
rebuild_lem (ctrl_either b) = refl
rebuild_lem (alt_either b) = refl
rebuild_lem (caps_either b) = refl

agree : Change → Change → Bool
agree c d = (kind c == kind d) && agrees (down c) (down d)

agree_eq : (c d : Change) → agree c d ≡ true → c ≡ d
unfolding agree
agree_eq c d h = sym (rebuild_lem c) ∙ ap₂ rebuild (ground arith) (ground arith) ∙ rebuild_lem d

pub key_tab-change :
    (scan_code : ℕ)
    → scan_code < 256
    → change_of_action (get_or key_tab scan_code none_key) ≡ change_of scan_code
unfolding agree change_of change_of_action kind down all_below
key_tab-change scan_code h =
    agree_eq (change_of_action (get_or key_tab scan_code none_key)) (change_of scan_code) (
      all_below_sound 256 (λ s. agree (change_of_action (get_or key_tab s none_key)) (change_of s))
        scan_code refl h)

unfoldable pub same_held : Held → Held → Bool
same_held h g =
    agrees h.left_shift g.left_shift
    && agrees h.right_shift g.right_shift
    && agrees h.left_ctrl g.left_ctrl
    && agrees h.right_ctrl g.right_ctrl
    && agrees h.left_alt g.left_alt
    && agrees h.right_alt g.right_alt
    && agrees h.caps_down g.caps_down
    && agrees h.caps_lock g.caps_lock

same_held_eq : (h g : Held) → same_held h g ≡ true → h ≡ g
unfolding same_held
same_held_eq h g e = ground arith

-- A change of the byte does to the flags what the machine says.
pub by_table :
    (f : ℕ → ℕ) (c : Change) (right : Bool) (m : ℕ)
    → all_below 256 (λ x. same_held (held (f x)) (apply c right (held x))) ≡ true
    → m < 256
    → held (f m) ≡ apply c right (held m)
by_table f c right m checked h =
    same_held_eq (held (f m)) (apply c right (held m))
      (all_below_sound 256 (λ x. same_held (held (f x)) (apply c right (held x))) m checked h)
