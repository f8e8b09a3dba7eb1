-- ===== src/Process/Examples.antt =====
-- Runs of the threads.
use ocean_os.Base.{
  ℕ, ◌+◌, ◌-◌, ◌%◌, ◌^◌, ◌≤◌, ◌<◌, ◌≡◌, refl, ◌⊎◌, true, some, List, [], ◌∷◌, arith, ◌==◌,
  if◌then◌else◌, get_elem?, out_of_memory, ok, panic,
}
use ocean_os.Trap.{Trap, empty_gate}
use ocean_os.Paging.{get_mapping}
use ocean_os.Paging.Examples.{directory}
use ocean_os.Heap.{Heap}
use ocean_os.Heap.Examples.{empty_heap, empty_heap-IsHeap}
use ocean_os.Process.Create.{create_thread, IsSystem, create_thread-IsSystem}
use ocean_os.Process.Timer.{after_ticks, after_ticks-runs}
use ocean_os.Process.{Process, Scheduler, runnable}
use ocean_os.Process.Ring.{IsRing}

abbrev thread : ℕ → ℕ → Process
thread pid next = record {
  state = runnable;
  pid = pid;
  stack = 0;
  memory = 0;
  context = record { esp = 0; ebp = 0; ebx = 0; esi = 0; edi = 0; eflags = 0x200 };
  next = next;
}

-- Two threads, the second of them current.
abbrev two_threads : Scheduler
two_threads = record {
  procs = λ a. if a == 0x1000 then thread 0 0x3000 else thread 1 0x1000;
  cur_pid = 2;
  run_head = 0x1000;
  cur_proc = 0x3000;
}

abbrev two_threads_ring : IsRing two_threads (0x3000 ∷ [])
two_threads_ring = record {
  links = (refl, refl);
  distinct = ((omega arith, tt), tt);
  nonzero = (omega arith, (omega arith, tt));
  turn = 1;
  current = refl;
}

abbrev no_gates : Trap ℕ
no_gates = record {
  idts = λ i. empty_gate;
  idtr = record { limit = 0; base = 0 };
  handlers = [];
  ticks = 2 ^ 32 - 1;
}

after_ticks-runs_example :
    (n : ℕ) × (n ≤ 1)
    × ((after_ticks n no_gates two_threads).1.cur_proc ≡ 0x1000)
    × IsRing (after_ticks n no_gates two_threads).1 (0x3000 ∷ [])
    × ((after_ticks n no_gates two_threads).0.ticks ≡ (2 ^ 32 - 1 + n) % 2 ^ 32)
after_ticks-runs_example =
    after_ticks-runs no_gates two_threads (0x3000 ∷ []) 0 0x1000 two_threads_ring (omega arith) refl

create_thread-IsSystem_example :
    ((pushed : List (ℕ × ℕ)) × (s' : Scheduler) × (h' : Heap) × (create_thread 1 3 directory
          0xC0100100 7 0xC0100200 empty_heap two_threads
        ≡ ok (2, pushed, s', h'))
      × IsSystem directory ((true, 8204) ∷ []) (0x3000 ∷ 0xE000000C ∷ []) h' s'
      × (get_elem? pushed 2 ≡ some ((s'.procs 0xE000000C).context.esp, 0xC0100100))
      × ((va old : ℕ)
          → 0xE000000C ≤ va
          → va < 0xE000200C
          → (get_mapping directory va (some old) h'.vm).0 ≡ 1)
      × (empty_heap.vm.pages.top ≤ h'.vm.pages.top + 6)
      × (h'.mm_top ≤ 0xE0003000))
    ⊎ ((create_thread 1 3 directory 0xC0100100 7 0xC0100200 empty_heap two_threads
          ≡ panic out_of_memory)
        × (empty_heap.vm.pages.top < 6))
create_thread-IsSystem_example =
    create_thread-IsSystem 1 3 directory 0xC0100100 7 0xC0100200 [] (0x3000 ∷ []) empty_heap
      two_threads
      (record {
        heap = empty_heap-IsHeap;
        ring = two_threads_ring;
        below = (omega arith, (omega arith, tt));
      })
      tt (omega arith) (omega arith) (omega arith)
