-- ===== src/Interrupts/Machine.antt =====
-- The kernel with its heap while it runs, and its steps: the interrupts of the lines and what the
-- threads do in between, with the calls of src/process.c, src/memlib.c and src/monitor.c.
use ocean_os.Base.{ℕ, zero, suc, ◌+◌, ◌^◌, ◌≤◌, ◌<◌, ◌≡◌, true, false, List, [], ◌∷◌, replicate, ok}
use ocean_os.Buffer.{Buffer, init_buffer}
use ocean_os.Heap.{Header, Heap, v_mm_start, header_size}
use ocean_os.Heap.Chain.{Blocks}
use ocean_os.Interrupts.Fits.{IsFollowed}
use ocean_os.Interrupts.{Running, Interrupt, Output, interrupt}
use ocean_os.Monitor.{Monitor, PortWrites, monitor_write_color, monitor_clear}
use ocean_os.Process.{Scheduler, stack_size}
use ocean_os.Process.Create.{create_thread}
use ocean_os.Start.{Kernel}

-- The variables of the heap but its tables, which are the kernel's.
pub record Machine : Type 0 where
  pub running : Running
  pub headers : ℕ → Header
  pub first : ℕ
  pub mm_top : ℕ

abbrev pub heap_of : Machine → Heap
heap_of m = record {
  headers = m.headers;
  first = m.first;
  mm_top = m.mm_top;
  vm = m.running.kernel.vm;
}

abbrev pub with_monitor : Monitor → Running → Running
with_monitor screen s = record s { kernel = record s.kernel { monitor = screen } }

abbrev pub with_running : Running → Machine → Machine
with_running s m = record m { running = s }

abbrev pub with_thread : Heap → Scheduler → Machine → Machine
with_thread h scheduler m = record {
  running = record m.running {
    kernel = record m.running.kernel { vm = h.vm; scheduler = scheduler };
  };
  headers = h.headers;
  first = h.first;
  mm_top = h.mm_top;
}

-- An interrupt comes in that starts no test program, a thread starts to read a line, writes on the
-- screen or clears it, or makes another thread, with room below the end of the address space for a
-- block and rounds for the searches.
pub data Step (pgd : ℕ) (m : Machine) : Machine → Type 0 where
  interrupted :
      {s : Running} (i : Interrupt) (outs : List Output)
      → 32 ≤ i.reg.int_no
      → i.reg.int_no < 48
      → (i.reg.int_no ≡ 33 → IsFollowed i)
      → interrupt i m.running ≡ ok (s, outs)
      → Step pgd m (with_running s m)
  reads :
      (b : Buffer)
      → init_buffer m.running.buffer ≡ ok b
      → Step pgd m (with_running (record m.running { buffer = b }) m)
  writes :
      (text : List ℕ) (back fore : ℕ) (screen : Monitor) (out : PortWrites)
      → monitor_write_color text back fore m.running.kernel.monitor ≡ ok (screen, out)
      → Step pgd m (with_running (with_monitor screen m.running) m)
  clears :
      Step pgd m
        (with_running (with_monitor (monitor_clear m.running.kernel.monitor).0 m.running) m)
  creates :
      (heap_fuel fuel fn arg thread_exit pid : ℕ) (pushed : List (ℕ × ℕ)) (scheduler : Scheduler)
      (h : Heap)
      → m.mm_top + (stack_size + header_size) + 4096 < 2 ^ 32
      → m.mm_top < heap_fuel
      → m.mm_top < fuel
      → create_thread heap_fuel fuel pgd fn arg thread_exit (heap_of m) m.running.kernel.scheduler
        ≡ ok (pid, pushed, scheduler, h)
      → Step pgd m (with_thread h scheduler m)

pub data Reach (pgd : ℕ) (m : Machine) : Machine → Type 0 where
  here : Reach pgd m m
  next : {t u : Machine} → Reach pgd m t → Step pgd t u → Reach pgd m u

-- The variables of the program's image, after the start.
abbrev pub started : Kernel → Running
started k = record { kernel = k; buffer = record { temp = replicate 512 0; p = 0 } }

abbrev pub start_machine : Kernel → Machine
start_machine k = record {
  running = started k;
  headers = λ a. record { prev = 0; next = 0; used = false; length = 0 };
  first = 0;
  mm_top = v_mm_start;
}

-- A block for each of `n` threads, and the addresses of these, from `a` on.
abbrev pub stack_blocks : ℕ → Blocks
stack_blocks n = replicate n (true, 8192 + header_size)

abbrev pub thread_row : ℕ → ℕ → List ℕ
thread_row a zero = []
thread_row a (suc n) = (a + header_size) ∷ thread_row (a + (8192 + header_size)) n
