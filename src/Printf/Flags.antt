-- ===== src/Printf/Flags.antt =====
-- The flags of `number` in src/printf.c, and what dropping the zero padding leaves of them.
use ocean_os.Base.{
  ℕ, ◌+◌, ◌-◌, ◌^◌, ◌<◌, bit_and, ◌≡◌, refl, ap, Bool, true, false, ◌&&◌, ◌||◌, leb, if◌then◌else◌,
  all_below, all_below_sound, agrees, agrees_eq,
}
use ocean_os.Printf.{
  is_negative, has_flag, zeropad, sign_flag, plus, space, left, special, small, sign_of, magnitude,
  prefix_of,
}

-- The flags that `number` reads after it has dropped the zero padding of a left-justified field.
abbrev pub dropped : ℕ → ℕ
dropped type = if has_flag type left then bit_and type (2 ^ 32 - 1 - zeropad) else type

-- The six flags.
pub record KeepsFlags (type : ℕ) : Type 0 where
  pub lefts : has_flag (dropped type) left ≡ has_flag type left
  pub signs : has_flag (dropped type) sign_flag ≡ has_flag type sign_flag
  pub pluses : has_flag (dropped type) plus ≡ has_flag type plus
  pub spaces : has_flag (dropped type) space ≡ has_flag type space
  pub specials : has_flag (dropped type) special ≡ has_flag type special
  pub smalls : has_flag (dropped type) small ≡ has_flag type small
  pub pads :
      has_flag (dropped type) (zeropad + left)
      ≡ (has_flag (dropped type) left || has_flag (dropped type) zeropad)

flags_table : ℕ → Bool
flags_table type =
    agrees (has_flag (dropped type) left) (has_flag type left)
    && (agrees (has_flag (dropped type) sign_flag) (has_flag type sign_flag)
        && (agrees (has_flag (dropped type) plus) (has_flag type plus)
            && (agrees (has_flag (dropped type) space) (has_flag type space)
                && (agrees (has_flag (dropped type) special) (has_flag type special)
                    && (agrees (has_flag (dropped type) small) (has_flag type small)
                        && agrees (has_flag (dropped type) (zeropad + left))
                            (has_flag (dropped type) left || has_flag (dropped type) zeropad))))))

and_true : (a b : Bool) → (a && b) ≡ true → (a ≡ true) × (b ≡ true)
and_true true b h = (refl, h)
and_true false b h = cc

pub dropped-KeepsFlags : (type : ℕ) → type < 128 → KeepsFlags type
unfolding flags_table all_below
dropped-KeepsFlags type h =
    let (a, h1) = and_true _ _ (all_below_sound 128 flags_table type refl h) in
    let (b, h2) = and_true _ _ h1 in
    let (c, h3) = and_true _ _ h2 in
    let (d, h4) = and_true _ _ h3 in
    let (e, h5) = and_true _ _ h4 in
    let (f, g) = and_true _ _ h5 in
    record {
      lefts = agrees_eq _ _ a;
      signs = agrees_eq _ _ b;
      pluses = agrees_eq _ _ c;
      spaces = agrees_eq _ _ d;
      specials = agrees_eq _ _ e;
      smalls = agrees_eq _ _ f;
      pads = agrees_eq _ _ g;
    }

module _ (num type : ℕ) (kept : KeepsFlags type) where
  is_negative-dropped : is_negative num (dropped type) ≡ is_negative num type
  is_negative-dropped = ap (λ b. b && leb (2 ^ 31) num) kept.signs

  pub sign_of-dropped : sign_of num (dropped type) ≡ sign_of num type
  unfolding sign_of
  sign_of-dropped = rw (is_negative-dropped, kept.pluses, kept.spaces) refl

  pub magnitude-dropped : magnitude num (dropped type) ≡ magnitude num type
  unfolding magnitude
  magnitude-dropped = rw is_negative-dropped refl

  pub prefix_of-dropped : (base : ℕ) → prefix_of base (dropped type) ≡ prefix_of base type
  unfolding prefix_of
  prefix_of-dropped base = rw (kept.specials, kept.smalls) refl
