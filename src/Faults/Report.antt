-- ===== src/Faults/Report.antt =====
-- The report of a page fault on the screen.
use ocean_os.Base.{
  ℕ, ◌+◌, ◌-◌, ◌/◌, ◌%◌, ◌≤◌, ◌≡◌, refl, inl, inr, Bool, true, false, ◌||◌, not, List, [], ◌∷◌,
  arith, ◌==◌, if◌then◌else◌, Bool-cases, All, length,
}
use ocean_os.Base.Text.{bytes}
use ocean_os.Monitor.{Monitor}
use ocean_os.Printf.Pieces.{Piece, literal, hexadecimal, IsPiece}
use ocean_os.Faults.{when}
use ocean_os.Faults.Messages.{Message}
use ocean_os.Printf.Screen.{all_places, is_string}

abbrev pub literals : List ℕ → List Piece → List Piece
literals [] ps = ps
literals (c ∷ cs) ps = literal c ∷ literals cs ps

abbrev pub fault_message : ℕ → ℕ → Message
fault_message eip cr2 = (
  0,
  15,
  literals (bytes "Page fault at 0x") (
      hexadecimal eip
      ∷ literals (bytes ", virtual faulting address 0x") (hexadecimal cr2 ∷ literal 10 ∷ [])),
)

abbrev pub code_message : ℕ → Message
code_message err_code =
    (0, 15, literals (bytes "Error code: ") (hexadecimal err_code ∷ literal 10 ∷ []))

abbrev pub note : List ℕ → Message
note cs = (0, 4, literals cs [])

abbrev pub bit : ℕ → ℕ → Bool
bit err_code place = err_code / place % 2 == 1

abbrev pub reason_messages : ℕ → List Message
reason_messages err_code =
    when (not (bit err_code 1)) (note (bytes "Because the page wasn't present.\n")) (
      note (if bit err_code 2 then bytes "Write error.\n" else bytes "Read error.\n")
      ∷ note (if bit err_code 4 then bytes "In user mode.\n" else bytes "In kernel mode.\n")
      ∷ when (bit err_code 8) (note (bytes "Reserved bits being overwritten.\n")) (
          when (bit err_code 16) (note (bytes "The fault occurred during an instruction fetch.\n"))
            []))

-- No character of the text ends it or starts a directive.
abbrev pub all_plain : List ℕ → Bool
all_plain [] = true
all_plain (c ∷ cs) = if (c == 0) || (c == b'%') then false else all_plain cs

pub literals-IsMessage :
    (strings : ℕ → List ℕ) (cs : List ℕ) (ps : List Piece) (n : ℕ)
    → all_plain cs ≡ true
    → All (IsPiece strings) ps
    → All (λ p. is_string p ≡ false) ps
    → length cs + all_places ps ≤ n
    → All (IsPiece strings) (literals cs ps)
      × All (λ p. is_string p ≡ false) (literals cs ps)
      × (all_places (literals cs ps) ≤ n)
literals-IsMessage strings [] ps n plain' pieces short fits = (pieces, short, omega arith)
literals-IsMessage strings (c ∷ cs) ps n plain' pieces short fits =
    elim (Bool-cases ((c == 0) || (c == b'%'))) [
      | inl special ↦ cc
      | inr other ↦
          let rest : all_plain cs ≡ true = rw other at plain' in
          let (pieces', short', fits') =
            literals-IsMessage strings cs ps (n - 1) rest pieces short (omega arith) in
          (((λ e. ground arith, λ e. ground arith), pieces'), (refl, short'), omega arith)
    ]
