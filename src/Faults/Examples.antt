-- ===== src/Faults/Examples.antt =====
-- Runs of the kernel's last reports.
use ocean_os.Base.{ℕ, ◌≡◌, refl, [], ◌∷◌, arith, ◌==◌, if◌then◌else◌, ok}
use ocean_os.Monitor.{Monitor}
use ocean_os.Trap.{Registers}
use ocean_os.Elf.{Symbol, Elf}
use ocean_os.Faults.{trace_lines}
use ocean_os.Faults.Trace.{call_line, trace_lines-Frames}

-- A write of the kernel to a page that is not there.
abbrev registers : Registers
registers = record {
  ds = 16;
  edi = 0;
  esi = 0;
  ebp = 0;
  esp = 0;
  ebx = 0;
  edx = 0;
  ecx = 0;
  eax = 0;
  int_no = 14;
  err_code = 2;
  eip = 0xC0100ABC;
  cs = 8;
  eflags = 0;
  useresp = 0;
  ss = 0;
}

abbrev screen : Monitor
screen = record { video_memory = λ a. 0; cursor_x = 0; cursor_y = 3 }

abbrev symbol : Symbol
symbol = record { name = 5; value = 0xC0100000; size = 0x1000; info = 2; other = 0; shndx = 1 }

abbrev elf : Elf
elf = record { symtab = 0xC0102000; symtabsz = 16; strtab = 0xC0103000; strtabsz = 20 }

-- Two frames.
abbrev stack : ℕ → ℕ
stack a =
    if a == 0xC0105000
    then 0xC0105020
    else if a == 0xC0105004
    then 0xC0100111
    else if a == 0xC0105024
    then 0xC0100222
    else 0

trace_lines-Frames_example :
    trace_lines 3 stack (λ a i. symbol) elf 0xC0105000
    ≡ ok (call_line (λ a i. symbol) elf 0xC0100111 ∷ call_line (λ a i. symbol) elf 0xC0100222 ∷ [])
trace_lines-Frames_example =
    trace_lines-Frames 3 stack (λ a i. symbol) elf 0xC0105000 (0xC0100111 ∷ 0xC0100222 ∷ [])
      (omega arith, refl, (omega arith, refl, refl)) (omega arith)
