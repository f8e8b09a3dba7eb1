-- ===== src/Monitor/Cursor.antt =====
-- The cursor stays on the screen, and characters go to its cell.
use ocean_os.Base.{
  ℕ, ◌+◌, ◌*◌, ◌/◌, ◌%◌, ◌^◌, ◌≤◌, ◌<◌, bit_and, bit_or, ◌≡◌, refl, ◌⊎◌, inl, inr, ◌&&◌, [], ◌∷◌,
  arith, ltb, leb, if◌then◌else◌, all_below, all_below_sound,
}
use ocean_os.Pages.{update}
use ocean_os.Monitor.{
  Monitor, blank, attribute, move_cursor, screen_scroll, put_char, wrap_row, monitor_putc_color,
}
use ocean_os.Monitor.Scroll.{screen_scroll-rows}

-- The cursor is in one of the 25 rows of 80 cells.
pub record OnScreen (m : Monitor) : Type 0 where
  pub column : m.cursor_x < 80
  pub row : m.cursor_y < 25

abbrev pub position : Monitor → ℕ
position m = m.cursor_y * 80 + m.cursor_x

tab_stop : (x : ℕ) → x < 80 → (bit_and (x + 8) 0xF8 ≤ 80) × (x < bit_and (x + 8) 0xF8)
unfolding all_below
tab_stop x h =
    let checked =
      all_below_sound 80 (λ y. leb (bit_and (y + 8) 0xF8) 80 && ltb y (bit_and (y + 8) 0xF8)) x refl
        h in
    ground arith

put_char_bounds :
    (c back fore : ℕ) (m : Monitor)
    → OnScreen m
    → ((put_char c back fore m).cursor_x ≤ 80)
      × ((put_char c back fore m).cursor_y ≤ 25)
      × (((put_char c back fore m).cursor_x < 80) ⊎ ((put_char c back fore m).cursor_y < 25))
unfolding put_char
put_char_bounds c back fore m on = ground (arith, tab_stop m.cursor_x on.column, on.row, on.column)

wrap_row_bounds :
    (m : Monitor)
    → m.cursor_x ≤ 80
    → m.cursor_y ≤ 25
    → (m.cursor_x < 80) ⊎ (m.cursor_y < 25)
    → ((wrap_row m).cursor_x < 80) × ((wrap_row m).cursor_y ≤ 25)
unfolding wrap_row
wrap_row_bounds m x y either = ground arith

screen_scroll_bounds :
    (m : Monitor) → m.cursor_x < 80 → m.cursor_y ≤ 25 → OnScreen (screen_scroll m)
screen_scroll_bounds m x y = elim (screen_scroll-rows m) [
  | inl (_, row, column, _) ↦ record { column = omega arith; row = omega arith }
  | inr (on, same) ↦ rw same (record { column = x; row = on })
]

-- From a cursor on the screen, every character in every colour leaves the cursor on the screen.
pub monitor_putc_color-OnScreen :
    (c back fore : ℕ) (m : Monitor) → OnScreen m → OnScreen (monitor_putc_color c back fore m).0
unfolding monitor_putc_color
monitor_putc_color-OnScreen c back fore m on =
    let m' = put_char c back fore m in
    let (x, y, either) = put_char_bounds c back fore m on in
    let (x', y') = wrap_row_bounds m' x y either in screen_scroll_bounds (wrap_row m') x' y'

-- The writes to the cursor's ports give its position, the high byte first.
pub move_cursor-position :
    (m : Monitor)
    → OnScreen m
    → (high : ℕ) × (low : ℕ) × (move_cursor m
        ≡ (0x3D4, 14) ∷ (0x3D5, high) ∷ (0x3D4, 15) ∷ (0x3D5, low) ∷ [])
      × (high < 256)
      × (low < 256)
      × (high * 256 + low ≡ position m)
unfolding move_cursor
move_cursor-position m on =
    let x = on.column in
    let y = on.row in
    let location = (m.cursor_y * 80 + m.cursor_x) % 2 ^ 16 in
    (location / 2 ^ 8, location % 2 ^ 8, refl, omega arith, omega arith, omega arith)

abbrev typed : ℕ → ℕ → ℕ → Monitor → Monitor
typed c back fore m = record m {
  video_memory = update m.video_memory (position m) (bit_or c (attribute back fore));
  cursor_x = m.cursor_x + 1;
}

put_char_printable :
    (c back fore : ℕ) (m : Monitor)
    → OnScreen m
    → 32 ≤ c
    → c < 128
    → put_char c back fore m ≡ typed c back fore m
unfolding put_char
put_char_printable c back fore m on low high = ground (arith, on.column)

wrap_typed :
    (c back fore : ℕ) (m : Monitor)
    → OnScreen m
    → let n = wrap_row (typed c back fore m) in
      (position n ≡ position m + 1)
      × (n.cursor_x < 80)
      × ((a : ℕ)
          → n.video_memory a
            ≡ update m.video_memory (position m) (bit_or c (attribute back fore)) a)
unfolding wrap_row
wrap_typed c back fore m on =
    let x = on.column in let y = on.row in (ground arith, ground arith, λ a. ground arith)

-- A printable character goes to the cell of the cursor, with its attribute, and the cursor goes to
-- the next cell. Behind the last cell of the screen the rows move up by one, the last row is
-- blank, and the cursor goes to its start. No other cell changes.
pub monitor_putc_color-printable :
    (c back fore : ℕ) (m : Monitor)
    → OnScreen m
    → 32 ≤ c
    → c < 128
    → let m' = (monitor_putc_color c back fore m).0 in
      let written = update m.video_memory (position m) (bit_or c (attribute back fore)) in
      ((position m < 1999)
        × (position m' ≡ position m + 1)
        × ((a : ℕ) → m'.video_memory a ≡ written a))
      ⊎ ((position m ≡ 1999)
          × (position m' ≡ 1920)
          × ((a : ℕ)
              → m'.video_memory a ≡ (
                  if ltb a 1920
                  then written (a + 80)
                  else if ltb a 2000
                  then blank
                  else written a)))
unfolding monitor_putc_color
monitor_putc_color-printable c back fore m on low high =
    let x = on.column in
    let y = on.row in
    let n = wrap_row (typed c back fore m) in
    let (next, column, cells) = wrap_typed c back fore m on in
    rw (put_char_printable c back fore m on low high) (elim (screen_scroll-rows n) [
      | inr (fits, same) ↦ inl (omega arith, rw same next, λ a. rw same (cells a))
      | inl (below, row, column', moved) ↦
          inr (omega arith, omega arith, λ a. ground (arith, moved a, cells a, cells (a + 80)))
    ])
