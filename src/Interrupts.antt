-- ===== src/Interrupts.antt =====
-- The kernel while interrupts come in: `irq_handler` of src/trap.c with the handlers that the start
-- registers, `timer_callback` of the same file and `keyboard_handler` of src/keyboard.c with what it
-- does to the text screen and to the line buffer. What a processor or a port decides is an
-- `Interrupt`, and what the handlers do to the outside is a list of outputs in order.
pub mod Fits
pub mod Effects
pub mod Lines
pub mod Sound
pub mod Machine
pub mod Rows
pub mod Safe
pub mod Reach
pub mod Many
pub mod Runs
pub mod Keys
pub mod Typing
pub mod Reading
pub mod Examples
use ocean_os.Base.{ℕ, Option, none, some, List, [], ◌∷◌, ◌++◌, Result, ok, out_of_fuel, ◌>>=◌}
use ocean_os.Base.Text.{c_string}
use ocean_os.Buffer.{Buffer}
use ocean_os.Buffer
use ocean_os.Faults.{rc_black}
use ocean_os.Keyboard.{
  Keyboard, Effect, outb, kbd_wait, echo, put_buffer, print_func, test_malloc, test_process,
  keyboard_handler, wait_status,
}
use ocean_os.Monitor.{Monitor, PortWrites}
use ocean_os.Printf.Format.{printf, printf_color}
use ocean_os.Process.Timer.{timer_callback}
use ocean_os.Start.{Kernel, Handler, at_page_fault, at_timer_callback, at_keyboard_handler}
use ocean_os.Trap.{Registers, Event, irq_handler}
use ocean_os.Trap

-- What the keyboard's handler works on.
pub record Desk : Type 0 where
  pub keyboard : Keyboard
  pub monitor : Monitor
  pub buffer : Buffer

pub record Running : Type 0 where
  pub kernel : Kernel
  pub buffer : Buffer

-- The registers that the stub pushes, what port 0x61 reads at two times, the scan code that port
-- 0x60 reads, and what port 0x64 reads, one reading after the other.
pub record Interrupt : Type 0 where
  pub reg : Registers
  pub control : ℕ
  pub control' : ℕ
  pub scan_code : ℕ
  pub status : List ℕ

-- A byte for a port, the polling of `kbd_wait`, which has come to its end then, and the threads that
-- `switch_to` gets.
pub data Output : Type 0 where
  port : ℕ → ℕ → Output
  polls : Output
  switches : ℕ → ℕ → Output

abbrev pub ports : PortWrites → List Output
ports [] = []
ports ((p, b) ∷ writes) = port p b ∷ ports writes

-- A call of `printf` without strings for arguments.
unfoldable pub show : List ℕ → List ℕ → Desk → Result (Desk × List Output)
show format args d = printf (λ address. []) format args d.monitor >>= λ (m, writes, stores).
    ok (record d { monitor = m }, ports writes)

-- What `func` starts runs inside of the handler, with interrupts on, and is not followed here: an
-- interrupt that starts a test program has no result.
unfoldable pub perform : Effect → Desk → Result (Desk × List Output)
unfolding show
perform (outb p b) d = ok (d, port p b ∷ [])
perform kbd_wait d = ok (d, polls ∷ [])
perform (echo c) d = show (c_string "%c") (c ∷ []) d
perform (put_buffer c) d = Buffer.put_buffer c d.buffer >>= λ b. ok (record d { buffer = b }, [])
perform (print_func i) d = show (c_string "func :%d\n") (i ∷ []) d
perform test_malloc d = out_of_fuel
perform test_process d = out_of_fuel

unfoldable pub perform_all : List Effect → Desk → Result (Desk × List Output)
perform_all [] d = ok (d, [])
perform_all (e ∷ es) d =
    perform e d >>= λ (d', outs). perform_all es d' >>= λ (d'', more). ok (d'', outs ++ more)

-- The calls of `kbd_wait` in order, with the readings that are left.
unfoldable pub wait_all : List Effect → List ℕ → Result (List ℕ)
wait_all [] status = ok status
wait_all (kbd_wait ∷ es) status = wait_status status >>= wait_all es
wait_all (outb p b ∷ es) status = wait_all es status
wait_all (echo c ∷ es) status = wait_all es status
wait_all (put_buffer c ∷ es) status = wait_all es status
wait_all (print_func i ∷ es) status = wait_all es status
wait_all (test_malloc ∷ es) status = wait_all es status
wait_all (test_process ∷ es) status = wait_all es status

-- `keyboard_handler` with the calls that it makes. It has no result when a call of `kbd_wait` does
-- not end with the readings.
unfoldable pub type_code : Interrupt → Desk → Result (Desk × List Output)
type_code i d = keyboard_handler i.control i.control' i.scan_code d.keyboard >>= λ (k, es).
    wait_all es i.status >>= λ left. perform_all es (record d { keyboard = k })

abbrev pub desk_of : Running → Desk
desk_of s = record { keyboard = s.kernel.keyboard; monitor = s.kernel.monitor; buffer = s.buffer }

abbrev pub with_desk : Desk → Running → Running
with_desk d s = record {
  kernel = record s.kernel { keyboard = d.keyboard; monitor = d.monitor };
  buffer = d.buffer;
}

abbrev pub switch_of : Option (ℕ × ℕ) → List Output
switch_of none = []
switch_of (some (from, to)) = switches from to ∷ []

-- `page_fault` ends in an endless loop.
unfoldable pub call_handler : Handler → Interrupt → Running → Result (Running × List Output)
call_handler at_page_fault i s = out_of_fuel
call_handler at_timer_callback i s =
    let (trap, scheduler, switched) = timer_callback s.kernel.trap s.kernel.scheduler in
    ok (
      record s { kernel = record s.kernel { trap = trap; scheduler = scheduler } },
      switch_of switched,
    )
call_handler at_keyboard_handler i s =
    type_code i (desk_of s) >>= λ (d, outs). ok (with_desk d s, outs)

abbrev pub rc_blue : ℕ
rc_blue = 1

-- What the dispatcher has decided, in order.
unfoldable pub run_events :
    List (Event Handler) → Interrupt → Running → Result (Running × List Output)
run_events [] i s = ok (s, [])
run_events (Trap.outb p b ∷ es) i s = run_events es i s >>= λ (s', outs). ok (s', port p b ∷ outs)
run_events (Trap.calls h reg ∷ es) i s = call_handler h i s >>= λ (s', outs).
    run_events es i s' >>= λ (s'', more). ok (s'', outs ++ more)
run_events (Trap.prints_interrupt n ∷ es) i s =
    printf_color (λ address. []) rc_black rc_blue (c_string "Interrupt ID: %d\n") (n ∷ [])
      s.kernel.monitor
    >>= λ (m, writes, stores).
        run_events es i (record s { kernel = record s.kernel { monitor = m } }) >>= λ (s', more).
        ok (s', ports writes ++ more)

-- One interrupt of a line.
unfoldable pub interrupt : Interrupt → Running → Result (Running × List Output)
interrupt i s = irq_handler i.reg s.kernel.trap >>= λ es. run_events es i s

-- One interrupt after the other.
unfoldable pub run : List Interrupt → Running → Result (Running × List Output)
run [] s = ok (s, [])
run (i ∷ is) s = interrupt i s >>= λ (s', outs). run is s' >>= λ (s'', more). ok (s'', outs ++ more)
