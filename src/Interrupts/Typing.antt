-- ===== src/Interrupts/Typing.antt =====
-- What comes to the line buffer and to the screen while plain characters are typed.
use mathlib.Core.List.{append-nil, append_assoc}
use ocean_os.Base.{
  ℕ, ◌+◌, ◌%◌, ◌<◌, ◌≡◌, refl, sym, ap, ap₂, ◌∙◌, subst, inl, inr, true, List, [], ◌∷◌, ◌++◌, arith,
  ltb, leb, ◌==◌, All, length, length-append, Result, ok, bind-eq-ok,
}
use ocean_os.Base.Text.{c_string}
use ocean_os.Buffer.{Buffer, max_length, put_all}
use ocean_os.Buffer
use ocean_os.Buffer.Lines.{IsAt, put_buffer-IsAt}
use ocean_os.Interrupts.{Desk, Interrupt, Output, show, perform, perform_all, type_code, wait_all}
use ocean_os.Interrupts.Runs.{type_all}
use ocean_os.Monitor.{Monitor, PortWrites, monitor_write, monitor_write_color}
use ocean_os.Printf.Format.{printf}
use ocean_os.Printf.Pieces.{character}
use ocean_os.Printf.Formats.{vsprintf-pieces}
use ocean_os.Printf.Screen.{monitor_write_color-shows, monitor_write-append}
use ocean_os.Strings.{IsText}
use ocean_os.Interrupts.Keys.{
  key_char, IsPlainKey, text_of, typed_text, three, both, key_char-plain, below, above,
  keyboard_handler-plain,
}

-- "%c" shows the character.
echo-shows :
    (c : ℕ) (m : Monitor)
    → c < 256
    → (m' : Monitor) × (writes : PortWrites) × (printf (λ address. []) (c_string "%c") (c ∷ []) m
        ≡ ok (m', writes, []))
      × (monitor_write (c ∷ 0 ∷ []) m ≡ ok (m', writes))
unfolding printf c_string monitor_write
echo-shows c m byte =
    let (all, e, (first, others, joined, prints, none_left)) =
      vsprintf-pieces (λ address. []) (character c ∷ []) (omega arith, tt) in
    let small : c % 256 ≡ c = omega arith in
    let shown : all ≡ c ∷ [] =
      joined ∙ ap₂ (λ a b. a ++ b) prints none_left ∙ ap (λ x. x ∷ []) small in
    let (m', writes, shows) = monitor_write_color-shows (c ∷ []) 0 15 m in
    let room : ltb (length all) 1024 ≡ true = rw shown refl in
    (m', writes, rw (e, room, shown, shows) refl, shows)

monitor_write-end : (m : Monitor) → monitor_write (0 ∷ []) m ≡ ok (m, [])
unfolding monitor_write monitor_write_color
monitor_write-end m = refl

-- A text comes to the screen and to the buffer, and no modifier is held.
abbrev pub Comes : List ℕ → List ℕ → Desk → Result (Desk × List Output) → Type 0
Comes text line d r =
    (d' : Desk) × (outs : List Output) × (writes : PortWrites) × (r ≡ ok (d', outs))
    × (d'.keyboard.mode ≡ 0)
    × IsAt d'.buffer (line ++ text)
    × (put_all text d.buffer ≡ ok d'.buffer)
    × (monitor_write (text ++ 0 ∷ []) d.monitor ≡ ok (d'.monitor, writes))

type_code-Comes :
    (i : Interrupt) (line : List ℕ) (d : Desk)
    → IsPlainKey i
    → d.keyboard.mode ≡ 0
    → IsAt d.buffer line
    → length line + length (text_of i) < max_length
    → Comes (text_of i) line d (type_code i d)
unfolding type_code wait_all perform_all perform show put_all
type_code-Comes i line d key plain at room =
    rw (keyboard_handler-plain i d.keyboard key plain) (elim key [
      | inl down ↦
          let (less, own, typed) = three (ltb i.scan_code 79) _ (key_char i.scan_code == 0) down in
          let make = below i.scan_code less in
          let c = key_char i.scan_code in
          let fits = rw make at room in
          let (m', writes, shows, shown) =
            echo-shows c d.monitor (key_char-plain i.scan_code (ground arith)).1 in
          elim (put_buffer-IsAt c d.buffer line at) [
            | inl (_, (b, put, at', ended)) ↦
                rw (make, shows, put)
                  (
                    (record { keyboard = record d.keyboard { e0 = 0 }; monitor = m'; buffer = b }),
                    _,
                    writes,
                    refl,
                    plain,
                    at',
                    refl,
                    shown,
                  )
            | inr (full, _) ↦ absurd (omega arith)
          ]
      | inr up ↦
          let (high, low, unused) = both (leb 128 i.scan_code) (ltb i.scan_code 0xE0) _ up in
          let make = above i.scan_code high in
          rw make (
            record d { keyboard = record d.keyboard { e0 = 0 } },
            _,
            [],
            refl,
            plain,
            subst (IsAt d.buffer) (sym (append-nil line)) at,
            refl,
            monitor_write-end d.monitor,
          )
    ])

IsText-text_of : (i : Interrupt) → IsPlainKey i → IsText (text_of i)
IsText-text_of i key = elim key [
  | inl down ↦
      let (less, own, typed) = three (ltb i.scan_code 79) _ (key_char i.scan_code == 0) down in
      rw (below i.scan_code less) (ground arith, tt)
  | inr up ↦
      let (high, low, unused) = both (leb 128 i.scan_code) (ltb i.scan_code 0xE0) _ up in
      rw (above i.scan_code high) tt
]

put_all-append :
    (cs ds : List ℕ) (b b₁ b₂ : Buffer)
    → put_all cs b ≡ ok b₁
    → put_all ds b₁ ≡ ok b₂
    → put_all (cs ++ ds) b ≡ ok b₂
unfolding put_all
put_all-append [] ds b b₁ b₂ e e' = let same : b ≡ b₁ = cc in rw same e'
put_all-append (c ∷ cs) ds b b₁ b₂ e e' =
    let (b', first, later) = bind-eq-ok (Buffer.put_buffer c b) (put_all cs) e in
    rw first (put_all-append cs ds b' b₁ b₂ later e')

-- The keys of plain characters, pressed and let go in any order while no modifier is held and their
-- text has room in the line buffer, put exactly their characters into the buffer, one after the
-- other, and show exactly these on the screen.
pub type_all-Comes :
    (is : List Interrupt) (line : List ℕ) (d : Desk)
    → All IsPlainKey is
    → d.keyboard.mode ≡ 0
    → IsAt d.buffer line
    → length line + length (typed_text is) < max_length
    → Comes (typed_text is) line d (type_all is d)
unfolding type_all
type_all-Comes [] line d keys plain at room = (
  d,
  [],
  [],
  refl,
  plain,
  subst (IsAt d.buffer) (sym (append-nil line)) at,
  unfold put_all in refl,
  monitor_write-end d.monitor,
)
type_all-Comes (i ∷ is) line d (key, keys) plain at room =
    let size = length-append (text_of i) (typed_text is) in
    let (d₁, outs, writes, ran, plain₁, at₁, put₁, shown₁) =
      type_code-Comes i line d key plain at (omega (arith, size)) in
    let (d₂, outs', writes', ran', plain₂, at₂, put₂, shown₂) =
      type_all-Comes is (line ++ text_of i) d₁ keys plain₁ at₁
        (omega (arith, size, length-append line (text_of i))) in
    (
      d₂,
      outs ++ outs',
      writes ++ writes',
      rw (ran, ran') refl,
      plain₂,
      subst (IsAt d₂.buffer) (append_assoc line (text_of i) (typed_text is)) at₂,
      put_all-append (text_of i) (typed_text is) d.buffer d₁.buffer d₂.buffer put₁ put₂,
      monitor_write-append (text_of i) (typed_text is) d.monitor d₁.monitor d₂.monitor writes
          writes' (IsText-text_of i key) shown₁ shown₂,
    )
