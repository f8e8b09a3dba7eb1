-- ===== src/Monitor.antt =====
-- The text screen, src/monitor.c: the cells of the video memory, the cursor, and the writes to the
-- cursor's ports. A character is a byte; `char` is signed, so a byte from 128 on is below ' '.
pub mod Cursor
pub mod Scroll
pub mod Numbers
pub mod Examples
use ocean_os.Base.{
  ℕ, zero, suc, ◌+◌, ◌-◌, ◌*◌, ◌/◌, ◌%◌, ◌^◌, bit_and, bit_or, Bool, true, ◌&&◌, not, List, [], ◌∷◌,
  ◌++◌, reverse, ltb, leb, ◌==◌, if◌then◌else◌, Result, ok, fault, out_of_fuel, ◌>>=◌,
}
use ocean_os.Pages.{update}

pub record Monitor : Type 0 where
  pub video_memory : ℕ → ℕ
  pub cursor_x : ℕ
  pub cursor_y : ℕ

-- A write to an I/O port: the port and the byte.
abbrev pub PortWrites : Type 0
PortWrites = List (ℕ × ℕ)

unfoldable pub move_cursor : Monitor → PortWrites
move_cursor m =
    let location = (m.cursor_y * 80 + m.cursor_x) % 2 ^ 16 in
    (0x3D4, 14) ∷ (0x3D5, location / 2 ^ 8) ∷ (0x3D4, 15) ∷ (0x3D5, location % 2 ^ 8) ∷ []

-- A space, white on black.
abbrev pub blank : ℕ
blank = bit_or 0x20 (15 * 2 ^ 8)

-- `for (i = i; …; i++) video_memory[i] = video_memory[i+80];` with the rounds left.
unfoldable pub copy_rows : ℕ → ℕ → (ℕ → ℕ) → ℕ → ℕ
copy_rows zero i v = v
copy_rows (suc n) i v = copy_rows n (i + 1) (update v i (v (i + 80)))

-- `for (i = i; …; i++) video_memory[i] = blank;` with the rounds left.
unfoldable pub fill_blank : ℕ → ℕ → (ℕ → ℕ) → ℕ → ℕ
fill_blank zero i v = v
fill_blank (suc n) i v = fill_blank n (i + 1) (update v i blank)

unfoldable pub screen_scroll : Monitor → Monitor
screen_scroll m =
    if leb 25 m.cursor_y
    then record m {
      video_memory = fill_blank 80 (24 * 80) (copy_rows (24 * 80) 0 m.video_memory);
      cursor_y = 24;
    }
    else m

unfoldable pub monitor_clear : Monitor → Monitor × PortWrites
monitor_clear m =
    let cleared : Monitor = record {
      video_memory = fill_blank (80 * 25) 0 m.video_memory;
      cursor_x = 0;
      cursor_y = 0;
    } in
    (cleared, move_cursor cleared)

-- The attribute byte of a cell, in its place.
unfoldable pub attribute : ℕ → ℕ → ℕ
attribute back fore = bit_or (back % 2 ^ 8 * 2 ^ 4) (bit_and (fore % 2 ^ 8) 0x0F) % 2 ^ 8 * 2 ^ 8

-- What a character does to the screen before the cursor is brought back into its row.
unfoldable pub put_char : ℕ → ℕ → ℕ → Monitor → Monitor
put_char c back fore m =
    if (c == 0x08) && not (m.cursor_x == 0)
    then record m { cursor_x = m.cursor_x - 1 }
    else if c == 0x09
    then record m { cursor_x = bit_and (m.cursor_x + 8) 0xF8 }
    else if c == 13
    then record m { cursor_x = 0 }
    else if c == 10
    then record m { cursor_x = 0; cursor_y = (m.cursor_y + 1) % 2 ^ 8 }
    else if leb 32 c && ltb c 128
    then record m {
      video_memory =
          update m.video_memory (m.cursor_y * 80 + m.cursor_x) (bit_or c (attribute back fore));
      cursor_x = (m.cursor_x + 1) % 2 ^ 8;
    }
    else m

unfoldable pub wrap_row : Monitor → Monitor
wrap_row m =
    if leb 80 m.cursor_x then record m { cursor_x = 0; cursor_y = (m.cursor_y + 1) % 2 ^ 8 } else m

unfoldable pub monitor_putc_color : ℕ → ℕ → ℕ → Monitor → Monitor × PortWrites
monitor_putc_color c back fore m =
    let shown = screen_scroll (wrap_row (put_char c back fore m)) in (shown, move_cursor shown)

-- The loop over a C string, whose terminator ends it.
unfoldable pub monitor_write_color : List ℕ → ℕ → ℕ → Monitor → Result (Monitor × PortWrites)
monitor_write_color [] back fore m = fault
monitor_write_color (c ∷ cstr) back fore m =
    if c == 0
    then ok (m, [])
    else (let (m', out) = monitor_putc_color c back fore m in
        monitor_write_color cstr back fore m' >>= λ (m'', outs). ok (m'', out ++ outs))

unfoldable pub monitor_write : List ℕ → Monitor → Result (Monitor × PortWrites)
monitor_write cstr m = monitor_write_color cstr 0 15 m

-- The characters of `n` in hexadecimal from the `k`-th digit down, without leading zeros.
unfoldable pub hex_digits : ℕ → ℕ → Bool → List ℕ
hex_digits zero n no_zeroes = []
hex_digits (suc k) n no_zeroes =
    let tmp = n / 16 ^ k % 16 in
    let skip = (tmp == 0) && no_zeroes in
    let rest = hex_digits k n skip in
    if skip then rest else (if leb 0xA tmp then tmp - 0xA + b'a' else tmp + b'0') ∷ rest

-- The first loop of `monitor_write_dec`: the digits, the lowest first.
unfoldable pub dec_digits : ℕ → ℕ → Result (List ℕ)
dec_digits zero acc = out_of_fuel
dec_digits (suc fuel) acc =
    let rest = (dec_digits fuel (acc / 10) >>= λ cs. ok ((b'0' + acc % 10) ∷ cs)) in
    if acc == 0 then ok [] else rest

-- The second loop turns them round; both arrays have 32 bytes, and a number has ten digits.
unfoldable pub monitor_write_dec : ℕ → ℕ → ℕ → Monitor → Result (Monitor × PortWrites)
monitor_write_dec n back fore m =
    if n == 0
    then ok (monitor_putc_color b'0' back fore m)
    else (dec_digits 32 n >>= λ cs. monitor_write_color (reverse cs ++ 0 ∷ []) back fore m)

-- The prefix, and then the characters one by one.
unfoldable pub monitor_write_hex : ℕ → ℕ → ℕ → Monitor → Result (Monitor × PortWrites)
monitor_write_hex n back fore m =
    monitor_write_color (b'0' ∷ b'x' ∷ 0 ∷ []) back fore m >>= λ (m', out).
    monitor_write_color (hex_digits 8 n true ++ 0 ∷ []) back fore m' >>= λ (m'', outs).
    ok (m'', out ++ outs)
