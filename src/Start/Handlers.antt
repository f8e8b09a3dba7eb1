-- ===== src/Start/Handlers.antt =====
-- The handlers that the start of src/init.c registers.
use ocean_os.Base.{
  ℕ, ◌%◌, ◌^◌, ◌<◌, ◌≡◌, refl, ◌∙◌, inl, inr, Option, none, some, List, arith, ◌==◌, if◌then◌else◌,
  Bool-cases, length, get_elem?, set, replicate, length-set, length-replicate, get_elem?-set,
  get_elem?-replicate,
}
use ocean_os.Start.{Handler, at_page_fault, at_timer_callback, at_keyboard_handler}

-- The handlers of the vectors.
abbrev pub handler_of : ℕ → Option Handler
handler_of v =
    if v == 33
    then some at_keyboard_handler
    else if v == 32
    then some at_timer_callback
    else if v == 14
    then some at_page_fault
    else none

-- The table of handlers after the three registrations.
pub handlers_lem :
    (v : ℕ)
    → v < 256
    → get_elem?
        (set
          (set
            (set (replicate 256 none) (14 % 2 ^ 8) (some at_page_fault))
            (32 % 2 ^ 8)
            (some at_timer_callback))
          (33 % 2 ^ 8)
          (some at_keyboard_handler))
        v
      ≡ some (handler_of v)
handlers_lem v small =
    let none_yet : List (Option Handler) = replicate 256 none in
    let first = set none_yet 14 (some at_page_fault) in
    let second = set first 32 (some at_timer_callback) in
    let l : length none_yet ≡ 256 = length-replicate {A = Option Handler} 256 none in
    let l' : length first ≡ 256 = length-set none_yet 14 (some at_page_fault) ∙ l in
    let l'' : length second ≡ 256 = length-set first 32 (some at_timer_callback) ∙ l' in
    rw
      (
        get_elem?-set second 33 v (some at_keyboard_handler) (omega (arith, l'')),
        get_elem?-set first 32 v (some at_timer_callback) (omega (arith, l')),
        get_elem?-set none_yet 14 v (some at_page_fault) (omega (arith, l)),
        get_elem?-replicate {A = Option Handler} 256 v none small,
      )
      (elim (Bool-cases (v == 33)) [
        | inl third ↦ rw third refl
        | inr other ↦ elim (Bool-cases (v == 32)) [
          | inl second' ↦ rw (other, second') refl
          | inr other' ↦ elim (Bool-cases (v == 14)) [
            | inl first' ↦ rw (other, other', first') refl
            | inr other'' ↦ rw (other, other', other'') refl
          ]
        ]
      ])
