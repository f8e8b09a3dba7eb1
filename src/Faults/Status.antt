-- ===== src/Faults/Status.antt =====
-- The report of the segment registers on the screen.
use ocean_os.Base.{
  ℕ, ◌+◌, ◌%◌, ◌^◌, ◌≤◌, ◌<◌, ◌≡◌, refl, true, false, List, [], ◌∷◌, arith, length, ok,
}
use ocean_os.Base.Bits.{bit_and-three}
use ocean_os.Base.Text.{c_string, bytes}
use ocean_os.Monitor.{Monitor, PortWrites}
use ocean_os.Printf.Pieces.{Piece, literal, decimal, hexadecimal, IsPiece}
use ocean_os.Faults.{print_cur_status}
use ocean_os.Faults.Messages.{Message, Shown, IsMessage, print_lines-Shown}
use ocean_os.Printf.Screen.{places, is_string}
use ocean_os.Faults.Report.{literals, all_plain, literals-IsMessage}

-- The count of the report, a label, and what stands behind it.
abbrev status_message : ℕ → List ℕ → Piece → Message
status_message round label p = (0, 15, decimal round ∷ literals label (p ∷ literal 10 ∷ []))

abbrev segment : ℕ → List ℕ → ℕ → Message
segment round label value = status_message round label (hexadecimal value)

-- The two lowest bits of `cs` are the ring.
abbrev status_messages : ℕ → ℕ → ℕ → ℕ → ℕ → List Message
status_messages round cs ds es ss =
    status_message round (bytes ": @ring ") (decimal (cs % 4))
    ∷ segment round (bytes ":  cs = ") cs
    ∷ segment round (bytes ":  ds = ") ds
    ∷ segment round (bytes ":  es = ") es
    ∷ segment round (bytes ":  ss = ") ss
    ∷ []

status-IsMessage :
    (strings : ℕ → List ℕ) (round : ℕ) (label : List ℕ) (p : Piece)
    → round < 2 ^ 32
    → all_plain label ≡ true
    → length label < 100
    → IsPiece strings p
    → is_string p ≡ false
    → places p ≤ 33
    → IsMessage strings (status_message round label p)
status-IsMessage strings round label p word plain' fits piece short few =
    let newline : IsPiece strings (literal 10) = (omega arith, omega arith) in
    let (pieces, short', places') =
      literals-IsMessage strings label (p ∷ literal 10 ∷ []) 200 plain' (piece, (newline, tt))
        (short, (refl, tt)) (omega arith) in
    ((word, pieces), (refl, short'), omega arith)

-- `print_cur_status` with a 32-bit count and 16-bit registers shows the count of the calls before
-- it, the ring that the kernel runs in, and the four segment registers in hexadecimal, a line for
-- each, and counts the call.
print_cur_status-Shown :
    (strings : ℕ → List ℕ) (round cs ds es ss : ℕ) (m : Monitor)
    → round < 2 ^ 32
    → cs < 2 ^ 16
    → ds < 2 ^ 16
    → es < 2 ^ 16
    → ss < 2 ^ 16
    → (m' : Monitor) × (writes : PortWrites) × (print_cur_status strings round cs ds es ss m
        ≡ ok (m', writes, (round + 1) % 2 ^ 32))
      × Shown strings (status_messages round cs ds es ss) m m' writes
unfolding print_cur_status c_string bytes
print_cur_status-Shown strings round cs ds es ss m word cs_word ds_word es_word ss_word =
    rw (bit_and-three cs) (
      let (m', writes, e, shown) = print_lines-Shown strings (status_messages round cs ds es ss) m (
        status-IsMessage strings round (bytes ": @ring ") (decimal (cs % 4)) word refl (omega arith)
            (omega arith) refl (omega arith),
        (
          segment-IsMessage (bytes ":  cs = ") cs refl (omega arith) cs_word,
          (
            segment-IsMessage (bytes ":  ds = ") ds refl (omega arith) ds_word,
            (
              segment-IsMessage (bytes ":  es = ") es refl (omega arith) es_word,
              (segment-IsMessage (bytes ":  ss = ") ss refl (omega arith) ss_word, tt),
            ),
          ),
        ),
      ) in
      (m', writes, rw e refl, shown))
  where
    segment-IsMessage :
        (label : List ℕ) (value : ℕ)
        → all_plain label ≡ true
        → length label < 100
        → value < 2 ^ 16
        → IsMessage strings (segment round label value)
    segment-IsMessage label value plain' fits half =
        status-IsMessage strings round label (hexadecimal value) word plain' fits (omega arith) refl
          (omega arith)
