-- ===== src/Monitor/Examples.antt =====
-- Runs of the screen.
use ocean_os.Base.{ℕ, ◌%◌, ◌^◌, bit_or, ◌≡◌, List, [], ◌∷◌, ◌++◌, arith, All}
use ocean_os.Pages.{update}
use ocean_os.Monitor.{
  Monitor, attribute, monitor_putc_color, monitor_write_color, monitor_write_hex,
}
use ocean_os.Monitor.Cursor.{OnScreen}
use ocean_os.Monitor.Numbers.{IsHexDigit, Leads, hex_value, monitor_write_hex-hexadecimal}

-- The cursor in the last cell.
abbrev last_cell : Monitor
last_cell = record { video_memory = λ a. a % 2 ^ 16; cursor_x = 79; cursor_y = 24 }

last_cell-OnScreen : OnScreen last_cell
last_cell-OnScreen = record { column = omega arith; row = omega arith }

abbrev shown : Monitor
shown = (monitor_putc_color b'A' 0 15 last_cell).0

abbrev with_letter : ℕ → ℕ
with_letter = update last_cell.video_memory 1999 (bit_or b'A' (attribute 0 15))

abbrev decimal : ℕ
decimal = 4070

abbrev word : ℕ
word = 0xBEEF

monitor_write_hex-hexadecimal_example :
    (cs : List ℕ) × (monitor_write_hex word 0 15 last_cell
      ≡ monitor_write_color (b'0' ∷ b'x' ∷ cs ++ 0 ∷ []) 0 15 last_cell)
    × All IsHexDigit cs
    × (hex_value 0 cs ≡ word)
    × Leads cs
    × (word ≡ 0 → cs ≡ [])
monitor_write_hex-hexadecimal_example =
    monitor_write_hex-hexadecimal word 0 15 last_cell (omega arith)
