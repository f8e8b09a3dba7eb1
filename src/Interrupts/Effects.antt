-- ===== src/Interrupts/Effects.antt =====
-- What the effects of a key do to the text screen and to the line buffer.
use mathlib.Core.List.{append-nil, append_assoc}
use ocean_os.Base.{
  ℕ, ◌+◌, ◌≤◌, ◌<◌, ◌≡◌, refl, sym, ap, ◌∙◌, subst, ◌⊎◌, inl, inr, false, List, [], ◌∷◌, ◌++◌,
  arith, All, length, length-append, Result, ok, fault,
}
use ocean_os.Base.Text.{c_string, bytes}
use ocean_os.Buffer.{Buffer, max_length}
use ocean_os.Buffer.Lines.{IsAt, put_buffer-IsAt}
use ocean_os.Faults.Report.{literals, literals-IsMessage}
use ocean_os.Interrupts.{Desk, Output, port, polls, ports, show, perform, perform_all}
use ocean_os.Interrupts.Fits.{puts, Fits}
use ocean_os.Keyboard.{
  Effect, outb, kbd_wait, echo, put_buffer, print_func, test_malloc, test_process,
}
use ocean_os.Monitor.{Monitor}
use ocean_os.Monitor.Cursor.{OnScreen}
use ocean_os.Printf.Pieces.{Piece, literal, character, decimal, IsPiece}
use ocean_os.Printf.Formats.{formats, arguments}
use ocean_os.Printf.Screen.{all_places, is_string, printf-OnScreen}

-- The screen and the buffer with a line in it.
pub record IsReady (line : List ℕ) (d : Desk) : Type 0 where
  pub cursor : OnScreen d.monitor
  pub holds : IsAt d.buffer line
  pub room : length line < max_length

-- Some text on the screen.
show-IsReady :
    (ps : List Piece) (line : List ℕ) (d : Desk)
    → All (IsPiece (λ address. [])) ps
    → All (λ p. is_string p ≡ false) ps
    → all_places ps < 1024
    → IsReady line d
    → (m : Monitor) × (outs : List Output) × (show (formats ps ++ 0 ∷ []) (arguments ps) d
        ≡ ok (record d { monitor = m }, outs))
      × IsReady line (record d { monitor = m })
unfolding show
show-IsReady ps line d pieces short fits ready =
    let (m, writes, e, on) = printf-OnScreen (λ address. []) ps d.monitor pieces short fits in
    (
      m,
      ports writes,
      rw e refl,
      record { cursor = on ready.cursor; holds = ready.holds; room = ready.room },
    )

-- An effect that puts no character.
perform-quiet :
    (e : Effect) (line : List ℕ) (d : Desk)
    → puts (e ∷ []) ≡ []
    → Fits e
    → IsReady line d
    → (m : Monitor) × (outs : List Output) × (perform e d ≡ ok (record d { monitor = m }, outs))
      × IsReady line (record d { monitor = m })
unfolding perform c_string bytes
perform-quiet (outb p b) line d quiet fits ready = (d.monitor, port p b ∷ [], refl, ready)
perform-quiet kbd_wait line d quiet fits ready = (d.monitor, polls ∷ [], refl, ready)
perform-quiet (echo c) line d quiet fits ready =
    show-IsReady (character c ∷ []) line d (omega arith, tt) (refl, tt) (omega arith) ready
perform-quiet (put_buffer c) line d quiet fits ready = cc
perform-quiet (print_func i) line d quiet fits ready =
    let newline : IsPiece (λ address. []) (literal 10) = (omega arith, omega arith) in
    let (pieces, short, places') =
      literals-IsMessage (λ address. []) (bytes "func :") (decimal i ∷ literal 10 ∷ []) 100 refl
        (omega arith, (newline, tt)) (refl, (refl, tt)) (omega arith) in
    show-IsReady (literals (bytes "func :") (decimal i ∷ literal 10 ∷ [])) line d pieces short
      (omega (arith, places')) ready
perform-quiet test_malloc line d quiet fits ready = absurd fits
perform-quiet test_process line d quiet fits ready = absurd fits

-- What some effects do, when they put the characters `cs`: they join the line while it has room, and
-- otherwise a character is written behind the end of the buffer.
abbrev pub Ready : List ℕ → List ℕ → Desk → Result (Desk × List Output) → Type 0
Ready line cs d r =
    ((length line + length cs < max_length)
      × ((m : Monitor) × (b : Buffer) × (outs : List Output) × (r
            ≡ ok (record { keyboard = d.keyboard; monitor = m; buffer = b }, outs))
          × IsReady (line ++ cs) (record { keyboard = d.keyboard; monitor = m; buffer = b })))
    ⊎ ((max_length ≤ length line + length cs) × (r ≡ fault))

quiet-Ready :
    (e : Effect) (line : List ℕ) (d : Desk)
    → puts (e ∷ []) ≡ []
    → Fits e
    → IsReady line d
    → Ready line [] d (perform e d)
quiet-Ready e line d quiet fits ready =
    let (m, outs, ran, ready') = perform-quiet e line d quiet fits ready in
    inl (
      omega (arith, ready.room),
      (
        m,
        d.buffer,
        outs,
        ran,
        subst (λ l. IsReady l (record d { monitor = m })) (sym (append-nil line)) ready',
      ),
    )

perform-Ready :
    (e : Effect) (line : List ℕ) (d : Desk)
    → Fits e
    → IsReady line d
    → Ready line (puts (e ∷ [])) d (perform e d)
unfolding perform
perform-Ready (put_buffer c) line d fits ready =
    elim (put_buffer-IsAt c d.buffer line ready.holds) [
      | inl (room, (b, e, at, ended)) ↦ inl (
        room,
        (
          d.monitor,
          b,
          [],
          rw e refl,
          record {
            cursor = ready.cursor;
            holds = at;
            room = omega (arith, length-append line (c ∷ []));
          },
        ),
      )
      | inr (full, e) ↦ inr (full, rw e refl)
    ]
perform-Ready (outb p b) line d fits ready = quiet-Ready (outb p b) line d refl fits ready
perform-Ready kbd_wait line d fits ready = quiet-Ready kbd_wait line d refl fits ready
perform-Ready (echo c) line d fits ready = quiet-Ready (echo c) line d refl fits ready
perform-Ready (print_func i) line d fits ready = quiet-Ready (print_func i) line d refl fits ready
perform-Ready test_malloc line d fits ready = absurd fits
perform-Ready test_process line d fits ready = absurd fits

puts_cons : (e : Effect) (es : List Effect) → puts (e ∷ es) ≡ puts (e ∷ []) ++ puts es
puts_cons (put_buffer c) es = refl
puts_cons (outb p b) es = refl
puts_cons kbd_wait es = refl
puts_cons (echo c) es = refl
puts_cons (print_func i) es = refl
puts_cons test_malloc es = refl
puts_cons test_process es = refl

pub perform_all-Ready :
    (es : List Effect) (line : List ℕ) (d : Desk)
    → All Fits es
    → IsReady line d
    → Ready line (puts es) d (perform_all es d)
unfolding perform_all
perform_all-Ready [] line d fits ready = inl (
  omega (arith, ready.room),
  (d.monitor, d.buffer, [], refl, subst (λ l. IsReady l d) (sym (append-nil line)) ready),
)
perform_all-Ready (e ∷ es) line d fits ready =
    let first = puts (e ∷ []) in
    let joined = puts_cons e es in
    let size = ap length joined ∙ length-append first (puts es) in
    elim (perform-Ready e line d fits.0 ready) [
      | inr (full, ran) ↦ inr (omega (arith, size), rw ran refl)
      | inl (room, (m, b, outs, ran, ready')) ↦
          let d' : Desk = record { keyboard = d.keyboard; monitor = m; buffer = b } in
          let size' = length-append line first in
          elim (perform_all-Ready es (line ++ first) d' fits.1 ready') [
            | inr (full, more) ↦ inr (omega (arith, size, size'), rw (ran, more) refl)
            | inl (room', (m', b', outs', more, ready'')) ↦ inl (
              omega (arith, size, size'),
              (
                m',
                b',
                outs ++ outs',
                rw (ran, more) refl,
                subst (λ l. IsReady l (record { keyboard = d.keyboard; monitor = m'; buffer = b' }))
                    (append_assoc line first (puts es) ∙ ap (λ r. line ++ r) (sym joined)) ready'',
              ),
            )
          ]
    ]
