-- ===== src/Faults/Trace.antt =====
-- The walk of `print_stack_trace` over the frames of the stack.
use ocean_os.Base.{
  ℕ, zero, suc, ◌+◌, ◌%◌, ◌^◌, ◌<◌, ◌≡◌, refl, true, false, List, [], ◌∷◌, map, arith, ◌==◌, length,
  ok,
}
use ocean_os.Base.Text.{c_string}
use ocean_os.Elf.{Symbol, Elf, elf_lookup_symbol}
use ocean_os.Faults.{Line, plain, trace_lines}

-- The frames from `ebp` on return to the addresses `eips`, and the last one has no frame behind it.
abbrev pub Frames : (ℕ → ℕ) → ℕ → List ℕ → Type 0
Frames frames ebp [] = ebp ≡ 0
Frames frames ebp (eip ∷ eips) =
    (0 < ebp) × (frames ((ebp + 4) % 2 ^ 32) ≡ eip) × Frames frames (frames ebp) eips

abbrev pub call_line : (ℕ → ℕ → Symbol) → Elf → ℕ → Line
call_line symbols elf eip =
    plain (c_string "   [0x%x] %s\n") (eip ∷ elf_lookup_symbol symbols eip elf ∷ [])

-- For a stack whose frames end, with a round for each frame and one more, `print_stack_trace` ends
-- and prints one line for each frame, the innermost first: the return address, and the name that
-- the symbol table has for it.
pub trace_lines-Frames :
    (fuel : ℕ) (frames : ℕ → ℕ) (symbols : ℕ → ℕ → Symbol) (elf : Elf) (ebp : ℕ) (eips : List ℕ)
    → Frames frames ebp eips
    → length eips < fuel
    → trace_lines fuel frames symbols elf ebp ≡ ok (map (call_line symbols elf) eips)
unfolding trace_lines
trace_lines-Frames zero frames symbols elf ebp eips linked enough = absurd (omega arith)
trace_lines-Frames (suc fuel) frames symbols elf ebp [] linked enough =
    let ends : (ebp == 0) ≡ true = ground arith in rw ends refl
trace_lines-Frames (suc fuel) frames symbols elf ebp (eip ∷ eips) (there, at, more) enough =
    let nonzero : (ebp == 0) ≡ false = ground arith in
    rw
      (nonzero, at, trace_lines-Frames fuel frames symbols elf (frames ebp) eips more (omega arith))
      refl
