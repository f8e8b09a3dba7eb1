-- ===== src/Demos/Examples.antt =====
-- Runs of the programs of src/test.c.
use ocean_os.Base.{◌<◌, ◌≡◌, refl, ◌⊎◌, [], arith, replicate, out_of_memory, ok, panic}
use ocean_os.Base.Text.{c_string}
use ocean_os.Demos.{Trial, Answer, Programs, malloc_round, start_threads}
use ocean_os.Demos.Trials.{Takes, malloc_round-Takes}
use ocean_os.Demos.Process.{start_threads-IsSafe}
use ocean_os.Heap.{Heap}
use ocean_os.Heap.Examples.{empty_heap, empty_heap-IsHeap}
use ocean_os.Interrupts.Examples.{booted, booted-IsBooted}
use ocean_os.Start.Examples.{image}
use ocean_os.Interrupts.Machine.{heap_of, with_thread, start_machine}
use ocean_os.Interrupts.Safe.{IsSafe, start_machine-IsSafe}
use ocean_os.Paging.Examples.{directory}
use ocean_os.Process.{Scheduler}

abbrev answer : Answer
answer = record { code = c_string "malloc"; number = 100; page = λ i. 0 }

-- All elements of `item` are in use.
abbrev full : Trial
full = record { heap = empty_heap; item = replicate 20 1; p = 20 }

malloc_round-Takes_example : Takes directory [] 100 full (malloc_round 1 directory answer full)
unfolding c_string
malloc_round-Takes_example =
    malloc_round-Takes 1 directory [] [] answer full refl empty_heap-IsHeap (omega arith) tt
      (omega arith)

abbrev programs : Programs
programs = record {
  entry_a = 0xC0100100;
  entry_b = 0xC0100200;
  entry_c = 0xC0100300;
  str_a = 0xC0105000;
  str_b = 0xC0105020;
  str_c = 0xC0105040;
}

start_threads-IsSafe_example :
    ((s : Scheduler) × (h : Heap) × (start_threads 0xF0000000 0xF0000000 0xC0110000 0xC0100400
          programs
          (heap_of (start_machine booted))
          booted.scheduler
        ≡ ok (s, h))
      × IsSafe 0xC0110000 3 [] (with_thread h s (start_machine booted)))
    ⊎ ((start_threads 0xF0000000 0xF0000000 0xC0110000 0xC0100400 programs
            (heap_of (start_machine booted))
            booted.scheduler
          ≡ panic out_of_memory)
        × (booted.vm.pages.top < 18))
start_threads-IsSafe_example =
    start_threads-IsSafe 0xF0000000 0xF0000000 0xC0110000 0xC0100400 0 [] programs
      (start_machine booted) (start_machine-IsSafe image 2 booted booted-IsBooted) (omega arith)
      (omega arith) (omega arith)
