-- ===== src/Faults.antt =====
-- What the kernel prints of its state: `page_fault` of src/memory.c, and `print_stack_info`,
-- `print_stack_trace` and `print_cur_status` of src/debug.c. The first two end in an endless loop;
-- the results are the screen then, with the writes to its ports.
pub mod Messages
pub mod Report
pub mod Trace
pub mod Status
pub mod Examples
use ocean_os.Base.{
  ℕ, zero, suc, ◌+◌, ◌%◌, ◌^◌, bit_and, Bool, true, false, not, List, [], ◌∷◌, ◌++◌, ◌==◌,
  if◌then◌else◌, Result, ok, fault, out_of_fuel, ◌>>=◌,
}
use ocean_os.Base.Text.{c_string}
use ocean_os.Monitor.{Monitor, PortWrites}
use ocean_os.Printf.Format.{printf, printf_color}
use ocean_os.Trap.{Registers}
use ocean_os.Elf.{Symbol, Elf, elf_lookup_symbol}

-- A call of `printf`, or with the two colours of `printf_color`.
pub record Line : Type 0 where
  pub back : ℕ
  pub fore : ℕ
  pub format : List ℕ
  pub args : List ℕ

abbrev pub rc_black : ℕ
rc_black = 0

abbrev pub rc_red : ℕ
rc_red = 4

abbrev pub rc_white : ℕ
rc_white = 15

-- `printf` writes white on black.
abbrev pub plain : List ℕ → List ℕ → Line
plain format args = record { back = rc_black; fore = rc_white; format = format; args = args }

abbrev pub red : List ℕ → Line
red format = record { back = rc_black; fore = rc_red; format = format; args = [] }

-- The calls one after the other.
unfoldable pub print_lines : (ℕ → List ℕ) → List Line → Monitor → Result (Monitor × PortWrites)
print_lines strings [] m = ok (m, [])
print_lines strings (l ∷ lines) m =
    printf_color strings l.back l.fore l.format l.args m >>= λ (m', writes, stores).
    print_lines strings lines m' >>= λ (m'', more). ok (m'', writes ++ more)

abbrev pub has_bit : ℕ → ℕ → Bool
has_bit err_code mask = not (bit_and err_code mask == 0)

-- An `if` without an `else` around a call, in front of the rest.
abbrev pub when {ℓ} : {A : Type ℓ} → Bool → A → List A → List A
when true a rest = a ∷ rest
when false a rest = rest

-- The lines about the bits of the error code.
unfoldable pub reasons : ℕ → List Line
reasons err_code =
    when (not (has_bit err_code 0x1)) (red (c_string "Because the page wasn't present.\n")) (
      red (if has_bit err_code 0x2 then c_string "Write error.\n" else c_string "Read error.\n")
      ∷ red (
          if has_bit err_code 0x4 then c_string "In user mode.\n" else c_string "In kernel mode.\n")
      ∷ when (has_bit err_code 0x8) (red (c_string "Reserved bits being overwritten.\n")) (
          when (has_bit err_code 0x10)
            (red (c_string "The fault occurred during an instruction fetch.\n")) []))

-- `cr2` is the register with the address of the access.
unfoldable pub page_fault : (ℕ → List ℕ) → Registers → ℕ → Monitor → Result (Monitor × PortWrites)
page_fault strings regs cr2 m =
    print_lines strings
      (plain (c_string "Page fault at 0x%x, virtual faulting address 0x%x\n") (regs.eip ∷ cr2 ∷ [])
        ∷ plain (c_string "Error code: %x\n") (regs.err_code ∷ [])
        ∷ reasons regs.err_code)
      m

-- The loop of `print_stack_trace` over the frames: `frames` are the words of the stack by their
-- addresses. A chain of frames without an end takes more rounds than any bound.
unfoldable pub trace_lines : ℕ → (ℕ → ℕ) → (ℕ → ℕ → Symbol) → Elf → ℕ → Result (List Line)
trace_lines zero frames symbols elf ebp = out_of_fuel
trace_lines (suc fuel) frames symbols elf ebp =
    let eip = frames ((ebp + 4) % 2 ^ 32) in
    let rest = trace_lines fuel frames symbols elf (frames ebp) in
    if ebp == 0
    then ok []
    else (rest >>= λ lines.
        ok (
          plain (c_string "   [0x%x] %s\n") (eip ∷ elf_lookup_symbol symbols eip elf ∷ []) ∷ lines))

-- `msg` is the address of the message. The first argument bounds the rounds of the trace.
unfoldable pub print_stack_info :
    ℕ
    → (ℕ → List ℕ)
    → (ℕ → ℕ)
    → (ℕ → ℕ → Symbol)
    → Elf
    → ℕ
    → ℕ
    → Monitor
    → Result (Monitor × PortWrites)
print_stack_info fuel strings frames symbols elf ebp msg m =
    trace_lines fuel frames symbols elf ebp >>= λ lines.
    print_lines strings
      (plain (c_string "*** System panic: %s\n") (msg ∷ [])
        ∷ (lines ++ plain (c_string "***\n") [] ∷ []))
      m

-- The segment registers, and the count of the calls in `round`.
unfoldable pub print_cur_status :
    (ℕ → List ℕ) → ℕ → ℕ → ℕ → ℕ → ℕ → Monitor → Result (Monitor × PortWrites × ℕ)
print_cur_status strings round cs ds es ss m =
    print_lines strings
      (plain (c_string "%d: @ring %d\n") (round ∷ bit_and cs 0x3 ∷ [])
        ∷ plain (c_string "%d:  cs = %x\n") (round ∷ cs ∷ [])
        ∷ plain (c_string "%d:  ds = %x\n") (round ∷ ds ∷ [])
        ∷ plain (c_string "%d:  es = %x\n") (round ∷ es ∷ [])
        ∷ plain (c_string "%d:  ss = %x\n") (round ∷ ss ∷ [])
        ∷ [])
      m
    >>= λ (m', writes). ok (m', writes, (round + 1) % 2 ^ 32)
