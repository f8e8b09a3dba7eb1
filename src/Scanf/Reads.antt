-- ===== src/Scanf/Reads.antt =====
-- What `scanf` of src/scanf.c hands to the scanner.
use mathlib.Core.List.{flatten, append-nil}
use ocean_os.Base.{
  ℕ, ◌+◌, ◌<◌, ◌≡◌, refl, sym, ap, ap₂, ◌∙◌, ◌≢◌, true, List, [], ◌∷◌, ◌++◌, arith, ltb, length,
  get_elem?, length-append, ok,
}
use ocean_os.Base.Text.{c_string}
use ocean_os.Buffer.{Buffer, max_length, getline}
use ocean_os.Buffer.Lines.{init_buffer-IsAt}
use ocean_os.Printf.Screen.{monitor_write_color-shows}
use ocean_os.Monitor.{Monitor, PortWrites, monitor_write}
use ocean_os.Printf.Format.{printf}
use ocean_os.Printf.Pieces.{string}
use ocean_os.Printf.Formats.{vsprintf-pieces}
use ocean_os.Scanf.{Stream, stream_of, scanf}
use ocean_os.Scanf.Waiting.{OneLine, wait_line-line}
use ocean_os.Strings.{strlen, IsText}
use ocean_os.Strings.Copy.{strlen-length}
use ocean_os.Strings.Texts.{text_unique, text_of_take}

-- A terminated text goes to the screen as it is by "%s".
pub printf-string :
    (strings : ℕ → List ℕ) (s : ℕ) (cs rest : List ℕ) (m : Monitor)
    → strings s ≡ cs ++ 0 ∷ rest
    → IsText cs
    → length cs < 1024
    → (m' : Monitor) × (writes : PortWrites) × (printf strings (c_string "%s") (s ∷ []) m
        ≡ ok (m', writes, []))
      × (monitor_write (cs ++ 0 ∷ []) m ≡ ok (m', writes))
unfolding printf c_string monitor_write
printf-string strings s cs rest m at text fits =
    let (all, e, (first, others, joined, (behind, at', text'), none_left)) =
      vsprintf-pieces strings (string s ∷ []) ((cs, rest, at, text), tt) in
    let same : first ≡ cs = text_unique first cs behind rest text' text (sym at' ∙ at) in
    let shown : all ≡ cs = joined ∙ ap₂ (λ a b. a ++ b) same none_left ∙ append-nil cs in
    let (m', writes, shows) = monitor_write_color-shows cs 0 15 m in
    let room : ltb (length cs) 1024 ≡ true = ground arith in
    (m', writes, rw (e, shown, room, shows) refl, shows)

pub IsText-append : (cs : List ℕ) (c : ℕ) → IsText cs → c ≢ 0 → IsText (cs ++ c ∷ [])
IsText-append [] c text nonzero = (nonzero, tt)
IsText-append (d ∷ cs) c text nonzero = (text.0, IsText-append cs c text.1 nonzero)

-- With the position of the buffer inside of it, and a byte at the empty literal that is no line
-- end: when interrupts put the characters of a line of at most 510 characters and then its end, in
-- any groups between the tests of the loop, and nothing behind the end before the loop tests
-- again, `scanf` returns. It shows the line with its end, and gives the scanner a stream of
-- exactly the line and its end, terminated, with their number of bytes. The
-- outcome is the scanner's.
pub scanf-line {ℓ} :
    {Scanned : Type ℓ}
    → (doscan : Stream → List ℕ → List ℕ → Scanned)
    → (empty_literal : ℕ) (keys : List (List ℕ)) (format args : List ℕ) (b : Buffer) (m : Monitor)
      (line : List ℕ)
    → length b.temp ≡ max_length
    → b.p < max_length
    → empty_literal ≢ b'\n'
    → flatten keys ≡ line ++ b'\n' ∷ []
    → OneLine line
    → IsText line
    → length line + 1 < max_length
    → (b' : Buffer) × (m' : Monitor) × (writes : PortWrites) × (rest : List ℕ) × (scanf doscan
          empty_literal keys format args b m
        ≡ ok (
          b',
          m',
          writes,
          doscan (stream_of ((line ++ b'\n' ∷ []) ++ 0 ∷ rest) (length line + 1)) format args,
        ))
      × (monitor_write ((line ++ b'\n' ∷ []) ++ 0 ∷ []) m ≡ ok (m', writes))
unfolding scanf getline
scanf-line doscan empty_literal keys format args b m line size inside other typed one text short =
    let (reset, starts, at) = init_buffer-IsAt b size inside in
    let (b', waits, at', ended) =
      wait_line-line empty_literal keys reset [] line other at tt one typed (omega arith) in
    let whole = line ++ b'\n' ∷ [] in
    let long : length whole ≡ length line + 1 = length-append line (b'\n' ∷ []) in
    let text' : IsText whole = IsText-append line b'\n' text (omega arith) in
    let (rest, holds) =
      text_of_take b'.temp whole at'.starts (ap (get_elem? b'.temp) (sym at'.position) ∙ ended) in
    let (m', writes, prints, shows) =
      printf-string (λ address. b'.temp) 0 whole rest m holds text' (omega (arith, long)) in
    let count : strlen b'.temp ≡ ok (length line + 1) =
      ap strlen holds ∙ strlen-length whole rest text' ∙ ap ok long in
    (
      b',
      m',
      writes,
      rest,
      rw (starts, waits, prints, count)
          (ap (λ buff. ok (b', m', writes, doscan (stream_of buff (length line + 1)) format args))
            holds),
      shows,
    )
