-- ===== src/Printf/Screen.antt =====
-- What `printf` and `printf_color` of src/printf.c leave on the screen.
use mathlib.Core.List.{append_assoc}
use ocean_os.Strings.{IsText}
use ocean_os.Base.{
  ℕ, ◌+◌, ◌^◌, ◌≤◌, ◌<◌, ◌≡◌, refl, sym, ap, ◌∙◌, subst, inl, inr, Bool, true, false, List, [], ◌∷◌,
  ◌++◌, arith, ltb, leb, ◌==◌, Bool-cases, All, length, length-append, Result, ok, bind-eq-ok,
}
use ocean_os.Monitor.{Monitor, PortWrites, monitor_putc_color, monitor_write_color, monitor_write}
use ocean_os.Printf.Format.{printf}
use ocean_os.Printf.Pieces.{
  Piece, percent, literal, character, string, decimal, unsigned, hexadecimal, IsPiece, Prints,
}
use ocean_os.Printf.Formats.{formats, arguments, PrintsAll, vsprintf-pieces}
use ocean_os.Monitor.Cursor.{OnScreen, monitor_putc_color-OnScreen}

-- The places that a piece takes at most, but for a string.
abbrev pub places : Piece → ℕ
places percent = 1
places (literal c) = 1
places (character a) = 1
places (string s) = 1024
places (decimal w) = 33
places (unsigned w) = 33
places (hexadecimal w) = 33

abbrev pub all_places : List Piece → ℕ
all_places [] = 0
all_places (p ∷ ps) = places p + all_places ps

abbrev pub is_string : Piece → Bool
is_string (string s) = true
is_string p = false

pub length-Prints :
    (strings : ℕ → List ℕ) (p : Piece) (text : List ℕ)
    → is_string p ≡ false
    → Prints strings p text
    → length text ≤ places p
length-Prints strings percent text short prints = rw prints (omega arith)
length-Prints strings (literal c) text short prints = rw prints (omega arith)
length-Prints strings (character a) text short prints = rw prints (omega arith)
length-Prints strings (string s) text short prints = cc
length-Prints strings (decimal w) text short (cs, e, value, some_digits, few) =
    elim (Bool-cases (leb (2 ^ 31) w)) [
      | inl minus ↦ rw (e, minus) (omega arith)
      | inr unsigned' ↦ rw (e, unsigned') (omega arith)
    ]
length-Prints strings (unsigned w) text short (cs, e, value, some_digits, few) = rw e (omega arith)
length-Prints strings (hexadecimal w) text short (cs, e, value, some_digits, few) =
    rw e (omega arith)

pub length-PrintsAll :
    (strings : ℕ → List ℕ) (ps : List Piece) (text : List ℕ)
    → All (λ p. is_string p ≡ false) ps
    → PrintsAll strings ps text
    → length text ≤ all_places ps
length-PrintsAll strings [] text short prints = rw prints (omega arith)
length-PrintsAll strings (p ∷ ps) text (short, others) (cs, rest, e, prints, more) = rw e (
    omega (
      arith,
      length-append cs rest,
      length-Prints strings p cs short prints,
      length-PrintsAll strings ps rest others more,
    ))

-- A terminated text goes to the screen.
pub monitor_write_color-shows :
    (cs : List ℕ) (back fore : ℕ) (m : Monitor)
    → (m' : Monitor) × (writes : PortWrites) × (monitor_write_color (cs ++ 0 ∷ []) back fore m
        ≡ ok (m', writes))
unfolding monitor_write_color
monitor_write_color-shows [] back fore m = (m, [], refl)
monitor_write_color-shows (c ∷ cs) back fore m = elim (Bool-cases (c == 0)) [
  | inl ends ↦ (m, [], rw ends refl)
  | inr more ↦
      let (m', writes, e) =
        monitor_write_color-shows cs back fore (monitor_putc_color c back fore m).0 in
      (m', (monitor_putc_color c back fore m).1 ++ writes, rw (more, e) refl)
]

-- Two texts, one behind the other.
monitor_write_color-append :
    (cs ds : List ℕ) (back fore : ℕ) (m m₁ m₂ : Monitor) (writes writes' : PortWrites)
    → IsText cs
    → monitor_write_color (cs ++ 0 ∷ []) back fore m ≡ ok (m₁, writes)
    → monitor_write_color (ds ++ 0 ∷ []) back fore m₁ ≡ ok (m₂, writes')
    → monitor_write_color ((cs ++ ds) ++ 0 ∷ []) back fore m ≡ ok (m₂, writes ++ writes')
unfolding monitor_write_color
monitor_write_color-append [] ds back fore m m₁ m₂ writes writes' text e e' =
    let here : m ≡ m₁ = cc in let quiet : [] ≡ writes = cc in rw (← quiet) (rw here e')
monitor_write_color-append (c ∷ cs) ds back fore m m₁ m₂ writes writes' text e e' =
    let more : (c == 0) ≡ false = ground (arith, text.0) in
    let (next, out) = monitor_putc_color c back fore m in
    let rest : Monitor × PortWrites → Result (Monitor × PortWrites) =
      λ (m'', outs). ok (m'', out ++ outs) in
    let ((m'', outs), e₁, same) =
      bind-eq-ok (monitor_write_color (cs ++ 0 ∷ []) back fore next) rest {result = (m₁, writes)}
        (rw more at e) in
    let here : m'' ≡ m₁ = cc in
    let joined : out ++ outs ≡ writes = cc in
    let later =
      monitor_write_color-append cs ds back fore next m'' m₂ outs writes' text.1 e₁ (rw here e') in
    rw (more, later)
      (ap (λ w. ok (m₂, w)) (sym (append_assoc out outs writes') ∙ ap (λ w. w ++ writes') joined))

pub monitor_write-append :
    (cs ds : List ℕ) (m m₁ m₂ : Monitor) (writes writes' : PortWrites)
    → IsText cs
    → monitor_write (cs ++ 0 ∷ []) m ≡ ok (m₁, writes)
    → monitor_write (ds ++ 0 ∷ []) m₁ ≡ ok (m₂, writes')
    → monitor_write ((cs ++ ds) ++ 0 ∷ []) m ≡ ok (m₂, writes ++ writes')
unfolding monitor_write
monitor_write-append cs ds = monitor_write_color-append cs ds 0 15

-- The cursor stays on the screen.
pub monitor_write_color-OnScreen :
    (cs : List ℕ) (back fore : ℕ) (m m' : Monitor) (writes : PortWrites)
    → monitor_write_color cs back fore m ≡ ok (m', writes)
    → OnScreen m
    → OnScreen m'
unfolding monitor_write_color
monitor_write_color-OnScreen [] back fore m m' writes e on = cc
monitor_write_color-OnScreen (c ∷ cs) back fore m m' writes e on = elim (Bool-cases (c == 0)) [
  | inl ends ↦ subst OnScreen (cc (rw ends at e)) on
  | inr more ↦
      let next = (monitor_putc_color c back fore m).0 in
      let rest : Monitor × PortWrites → Result (Monitor × PortWrites) =
        λ (m'', outs). ok (m'', (monitor_putc_color c back fore m).1 ++ outs) in
      let ((m₁, outs), e₁, same) =
        bind-eq-ok (monitor_write_color cs back fore next) rest {result = (m', writes)}
          (rw more at e) in
      let here : m₁ ≡ m' = cc in
      subst OnScreen here (
        monitor_write_color-OnScreen cs back fore next m₁ outs e₁
          (monitor_putc_color-OnScreen c back fore m on))
]

-- A format of pieces that takes less than the buffer is shown, and the cursor stays on the screen.
pub printf-OnScreen :
    (strings : ℕ → List ℕ) (ps : List Piece) (m : Monitor)
    → All (IsPiece strings) ps
    → All (λ p. is_string p ≡ false) ps
    → all_places ps < 1024
    → (m' : Monitor) × (writes : PortWrites) × (printf strings
          (formats ps ++ 0 ∷ [])
          (arguments ps)
          m
        ≡ ok (m', writes, []))
      × (OnScreen m → OnScreen m')
unfolding printf monitor_write
printf-OnScreen strings ps m pieces short fits =
    let (text, e, prints) = vsprintf-pieces strings ps pieces in
    let (m', writes, shows) = monitor_write_color-shows text 0 15 m in
    let room : ltb (length text) 1024 ≡ true =
      ground (arith, length-PrintsAll strings ps text short prints) in
    (
      m',
      writes,
      rw (e, room, shows) refl,
      monitor_write_color-OnScreen (text ++ 0 ∷ []) 0 15 m m' writes shows,
    )
