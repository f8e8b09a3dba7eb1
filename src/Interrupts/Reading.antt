-- ===== src/Interrupts/Reading.antt =====
-- `scanf` of src/scanf.c while the keyboard's interrupts come in: from the keys to the scanner.
use mathlib.Core.List.{flatten, append_assoc}
use ocean_os.Base.{
  ℕ, ◌+◌, ◌<◌, ◌≡◌, refl, sym, ap, ◌∙◌, subst, ◌≢◌, inl, inr, List, [], ◌∷◌, ◌++◌, arith, ◌==◌,
  if◌then◌else◌, All, length, get_elem?, length-append, Result, ok, out_of_fuel, ◌>>=◌, All-split,
}
use ocean_os.Base.Text.{c_string}
use ocean_os.Buffer.{Buffer, max_length, init_buffer, get_last, getline, put_all}
use ocean_os.Buffer.Lines.{IsAt, Terminated, init_buffer-IsAt, put_all-IsAt, get_last-last}
use ocean_os.Interrupts.{Desk, Interrupt, Output}
use ocean_os.Interrupts.Runs.{type_all}
use ocean_os.Interrupts.Keys.{IsPlainKey, text_of, typed_text}
use ocean_os.Interrupts.Typing.{type_all-Comes}
use ocean_os.Monitor.{PortWrites, monitor_write}
use ocean_os.Printf.Format.{printf}
use ocean_os.Printf.Screen.{monitor_write-append}
use ocean_os.Scanf.{Stream, stream_of}
use ocean_os.Scanf.Waiting.{OneLine, OneLine-append, split_round, get_last-within}
use ocean_os.Scanf.Reads.{printf-string, IsText-append}
use ocean_os.Strings.{strlen, IsText}
use ocean_os.Strings.Copy.{strlen-length}
use ocean_os.Strings.Texts.{text_of_take}

-- The loop around `getLast`, with the interrupts of the keyboard between its tests.
unfoldable pub wait_typed : ℕ → List (List Interrupt) → Desk → Result Desk
wait_typed empty_literal [] d =
    get_last empty_literal d.buffer >>= λ c. if c == b'\n' then ok d else out_of_fuel
wait_typed empty_literal (is ∷ keys) d =
    let rest = type_all is d >>= λ (d', outs). wait_typed empty_literal keys d' in
    get_last empty_literal d.buffer >>= λ c. if c == b'\n' then ok d else rest

unfoldable pub scanf_typed {ℓ} :
    {Scanned : Type ℓ}
    → (Stream → List ℕ → List ℕ → Scanned)
    → ℕ
    → List (List Interrupt)
    → List ℕ
    → List ℕ
    → Desk
    → Result (Desk × Scanned)
scanf_typed doscan empty_literal keys format args d = init_buffer d.buffer >>= λ reset.
    wait_typed empty_literal keys (record d { buffer = reset }) >>= λ d'.
    let buff = getline d'.buffer in
    printf (λ address. buff) (c_string "%s") (0 ∷ []) d'.monitor >>= λ (m, writes, stores).
    strlen buff >>= λ count.
    ok (record d' { monitor = m }, doscan (stream_of buff count) format args)

typed_text-append :
    (is js : List Interrupt) → typed_text (is ++ js) ≡ typed_text is ++ typed_text js
typed_text-append [] js = refl
typed_text-append (i ∷ is) js =
    ap (λ r. text_of i ++ r) (typed_text-append is js)
    ∙ sym (append_assoc (text_of i) (typed_text is) (typed_text js))

-- At the end of a line the loop stops.
wait_typed-stops :
    (empty_literal : ℕ) (keys : List (List Interrupt)) (d : Desk) (line : List ℕ)
    → IsAt d.buffer (line ++ b'\n' ∷ [])
    → wait_typed empty_literal keys d ≡ ok d
unfolding wait_typed
wait_typed-stops empty_literal [] d line at =
    rw (get_last-last d.buffer line b'\n' empty_literal at) refl
wait_typed-stops empty_literal (is ∷ keys) d line at =
    rw (get_last-last d.buffer line b'\n' empty_literal at) refl

wait_typed-goes_on :
    (empty_literal : ℕ) (is : List Interrupt) (keys : List (List Interrupt)) (d d₁ : Desk)
    (outs : List Output) (got : List ℕ)
    → empty_literal ≢ b'\n'
    → IsAt d.buffer got
    → OneLine got
    → type_all is d ≡ ok (d₁, outs)
    → wait_typed empty_literal (is ∷ keys) d ≡ wait_typed empty_literal keys d₁
unfolding wait_typed
wait_typed-goes_on empty_literal is keys d d₁ outs got other at one run =
    let (c, last, more) = get_last-within empty_literal d.buffer got other at one in
    rw (last, more, run) refl

put_all-Terminated :
    (b b' : Buffer) (line cs : List ℕ)
    → IsAt b line
    → put_all cs b ≡ ok b'
    → 0 < length cs
    → length line + length cs < max_length
    → Terminated b'
put_all-Terminated b b' line cs at put some_char room =
    let (b₁, put₁, at₁, ended) = put_all-IsAt cs b line at room in
    let same : b₁ ≡ b' = cc in subst Terminated same (ended (inr some_char))

-- What the loop leaves: the line with its end in the buffer, and on the screen.
abbrev pub Waited : ℕ → List (List Interrupt) → Desk → List ℕ → List ℕ → Type 0
Waited empty_literal keys d got rem =
    (d' : Desk) × (writes : PortWrites) × (wait_typed empty_literal keys d ≡ ok d')
    × IsAt d'.buffer ((got ++ rem) ++ b'\n' ∷ [])
    × Terminated d'.buffer
    × (monitor_write ((rem ++ b'\n' ∷ []) ++ 0 ∷ []) d.monitor ≡ ok (d'.monitor, writes))

wait_typed-Waited :
    (empty_literal : ℕ) (keys : List (List Interrupt)) (d : Desk) (got rem : List ℕ)
    → empty_literal ≢ b'\n'
    → d.keyboard.mode ≡ 0
    → IsAt d.buffer got
    → OneLine got
    → OneLine rem
    → IsText rem
    → All IsPlainKey (flatten keys)
    → typed_text (flatten keys) ≡ rem ++ b'\n' ∷ []
    → length got + length rem + 1 < max_length
    → Waited empty_literal keys d got rem
unfolding flatten
wait_typed-Waited empty_literal [] d got [] other plain at one rest text keys typed room = cc
wait_typed-Waited empty_literal [] d got (r ∷ rem) other plain at one rest text keys typed room = cc
wait_typed-Waited empty_literal (is ∷ keys) d got rem other plain at one rest text keys_plain typed
      room =
    let (own, others) = All-split IsPlainKey is (flatten keys) keys_plain in
    elim (split_round (typed_text is) (typed_text (flatten keys)) rem rest
      (sym (typed_text-append is (flatten keys)) ∙ typed)) [
        | inl all ↦
            let size = ap length all ∙ length-append rem (b'\n' ∷ []) in
            let (d₁, outs, writes, run, plain₁, at₁, put₁, shown) =
              type_all-Comes is got d own plain at (omega (arith, size)) in
            let whole : got ++ typed_text is ≡ (got ++ rem) ++ b'\n' ∷ [] =
              ap (λ r. got ++ r) all ∙ sym (append_assoc got rem (b'\n' ∷ [])) in
            let at₂ = subst (IsAt d₁.buffer) whole at₁ in
            (
              d₁,
              writes,
              wait_typed-goes_on empty_literal is keys d d₁ outs got other at one run
                  ∙ wait_typed-stops empty_literal keys d₁ (got ++ rem) at₂,
              at₂,
              put_all-Terminated d.buffer d₁.buffer got (typed_text is) at put₁
                  (omega (arith, size)) (omega (arith, size)),
              subst (λ r. monitor_write (r ++ 0 ∷ []) d.monitor ≡ ok (d₁.monitor, writes)) all
                  shown,
            )
        | inr (more, e, later, rest', own_line) ↦
            let size = ap length e ∙ length-append (typed_text is) more in
            let (text₁, text₂) =
              All-split (λ c. c ≢ 0) (typed_text is) more (subst IsText e text) in
            let (d₁, outs, writes, run, plain₁, at₁, put₁, shown) =
              type_all-Comes is got d own plain at (omega (arith, size)) in
            let (d', writes', ends, at', ended, shown') =
              wait_typed-Waited empty_literal keys d₁ (got ++ typed_text is) more other plain₁ at₁
                (OneLine-append got (typed_text is) one own_line) rest' text₂ others later
                (omega (arith, size, length-append got (typed_text is))) in
            let whole : (got ++ typed_text is) ++ more ≡ got ++ rem =
              append_assoc got (typed_text is) more ∙ ap (λ r. got ++ r) (sym e) in
            let shown_all : typed_text is ++ (more ++ b'\n' ∷ []) ≡ rem ++ b'\n' ∷ [] =
              sym (append_assoc (typed_text is) more (b'\n' ∷ []))
              ∙ ap (λ r. r ++ b'\n' ∷ []) (sym e) in
            (
              d',
              writes ++ writes',
              wait_typed-goes_on empty_literal is keys d d₁ outs got other at one run ∙ ends,
              subst (λ l. IsAt d'.buffer (l ++ b'\n' ∷ [])) whole at',
              ended,
              subst
                  (λ r. monitor_write (r ++ 0 ∷ []) d.monitor ≡ ok (d'.monitor, writes ++ writes'))
                  shown_all
                  (monitor_write-append (typed_text is) (more ++ b'\n' ∷ []) d.monitor d₁.monitor
                    d'.monitor writes writes' text₁ shown shown'),
            )
      ]

-- With the position of the buffer inside of it, a byte at the empty literal that is no line end, and
-- no modifier held: when the keys of a line of at most 510 plain characters and then the enter key
-- are pressed and let go, in any groups between the tests of the loop, and nothing behind that
-- before the loop tests again, `scanf` returns. It gives the scanner a stream of exactly the line
-- and its end, terminated, with their number of bytes, and the screen shows the line twice: as it
-- was typed, and as `scanf` prints it.
pub scanf_typed-line {ℓ} :
    {Scanned : Type ℓ} (doscan : Stream → List ℕ → List ℕ → Scanned) (empty_literal : ℕ)
    (keys : List (List Interrupt)) (format args : List ℕ) (d : Desk) (line : List ℕ)
    → length d.buffer.temp ≡ max_length
    → d.buffer.p < max_length
    → d.keyboard.mode ≡ 0
    → empty_literal ≢ b'\n'
    → All IsPlainKey (flatten keys)
    → typed_text (flatten keys) ≡ line ++ b'\n' ∷ []
    → OneLine line
    → IsText line
    → length line + 1 < max_length
    → let shown = line ++ b'\n' ∷ [] in
      (d' : Desk) × (writes : PortWrites) × (rest : List ℕ) × (scanf_typed doscan empty_literal keys
          format args d
        ≡ ok (d', doscan (stream_of (shown ++ 0 ∷ rest) (length line + 1)) format args))
      × (monitor_write ((shown ++ shown) ++ 0 ∷ []) d.monitor ≡ ok (d'.monitor, writes))
unfolding scanf_typed getline
scanf_typed-line doscan empty_literal keys format args d line size inside plain other plain_keys
      typed one text short =
    let (reset, starts, at) = init_buffer-IsAt d.buffer size inside in
    let d₀ : Desk = record d { buffer = reset } in
    let (d₁, writes, waits, at₁, ended, typed_shown) =
      wait_typed-Waited empty_literal keys d₀ [] line other plain at tt one text plain_keys typed
        (omega arith) in
    let shown = line ++ b'\n' ∷ [] in
    let long : length shown ≡ length line + 1 = length-append line (b'\n' ∷ []) in
    let text' : IsText shown = IsText-append line b'\n' text (omega arith) in
    let (rest, holds) =
      text_of_take d₁.buffer.temp shown at₁.starts
        (ap (get_elem? d₁.buffer.temp) (sym at₁.position) ∙ ended) in
    let (m', writes', prints, printed) =
      printf-string (λ address. d₁.buffer.temp) 0 shown rest d₁.monitor holds text'
        (omega (arith, long)) in
    let count : strlen d₁.buffer.temp ≡ ok (length line + 1) =
      ap strlen holds ∙ strlen-length shown rest text' ∙ ap ok long in
    (
      record d₁ { monitor = m' },
      writes ++ writes',
      rest,
      rw (starts, waits, prints, count)
          (ap
            (λ buff.
              ok
                (record d₁ { monitor = m' }, doscan (stream_of buff (length line + 1)) format args))
            holds),
      monitor_write-append shown shown d.monitor d₁.monitor m' writes writes' text' typed_shown
          printed,
    )
