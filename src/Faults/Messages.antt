-- ===== src/Faults/Messages.antt =====
-- What a row of calls of `printf` and `printf_color` shows.
use ocean_os.Base.{
  ℕ, ◌<◌, ◌≡◌, refl, true, false, List, [], ◌∷◌, ◌++◌, map, arith, ltb, All, length, ok,
}
use ocean_os.Monitor.{Monitor, PortWrites, monitor_write_color}
use ocean_os.Printf.Format.{printf_color}
use ocean_os.Printf.Pieces.{Piece, IsPiece}
use ocean_os.Printf.Formats.{formats, arguments, PrintsAll, vsprintf-pieces}
use ocean_os.Faults.{Line, print_lines}
use ocean_os.Printf.Screen.{all_places, is_string, length-PrintsAll, monitor_write_color-shows}

-- What the report has in a line: its colours, and its pieces.
abbrev pub Message : Type 0
Message = ℕ × ℕ × List Piece

abbrev pub line_of : Message → Line
line_of (back, fore, ps) = record {
  back = back;
  fore = fore;
  format = formats ps ++ 0 ∷ [];
  args = arguments ps;
}

-- The texts of the messages go to the screen one after the other.
abbrev pub Shown : (ℕ → List ℕ) → List Message → Monitor → Monitor → PortWrites → Type 0
Shown strings [] m m' writes = (m' ≡ m) × (writes ≡ [])
Shown strings ((back, fore, ps) ∷ messages) m m' writes =
    (text : List ℕ) × (next : Monitor) × (first rest : PortWrites) × PrintsAll strings ps text
    × (monitor_write_color (text ++ 0 ∷ []) back fore m ≡ ok (next, first))
    × Shown strings messages next m' rest
    × (writes ≡ first ++ rest)

abbrev pub IsMessage : (ℕ → List ℕ) → Message → Type 0
IsMessage strings (back, fore, ps) =
    All (IsPiece strings) ps × All (λ p. is_string p ≡ false) ps × (all_places ps < 1024)

pub print_lines-Shown :
    (strings : ℕ → List ℕ) (messages : List Message) (m : Monitor)
    → All (IsMessage strings) messages
    → (m' : Monitor) × (writes : PortWrites) × (print_lines strings (map line_of messages) m
        ≡ ok (m', writes))
      × Shown strings messages m m' writes
unfolding print_lines printf_color
print_lines-Shown strings [] m valid = (m, [], refl, (refl, refl))
print_lines-Shown strings ((back, fore, ps) ∷ messages) m ((pieces, short, fits), others) =
    let (text, e, prints) = vsprintf-pieces strings ps pieces in
    let (next, first, shows) = monitor_write_color-shows text back fore m in
    let (m', rest, more, shown) = print_lines-Shown strings messages next others in
    let room : ltb (length text) 1024 ≡ true =
      ground (arith, length-PrintsAll strings ps text short prints) in
    (
      m',
      first ++ rest,
      rw (e, room, shows, more) refl,
      (text, next, first, rest, prints, shows, shown, refl),
    )
