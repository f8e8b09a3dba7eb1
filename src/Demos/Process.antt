-- ===== src/Demos/Process.antt =====
-- The threads that `testProcess` of src/test.c makes.
use ocean_os.Base.{
  ℕ, suc, ◌+◌, ◌*◌, ◌^◌, ◌<◌, ◌≡◌, refl, ◌⊎◌, inl, inr, List, arith, out_of_memory, ok, panic,
}
use ocean_os.Demos.{Programs, start_threads}
use ocean_os.Heap.{Heap, header_size}
use ocean_os.Interrupts.Machine.{Machine, heap_of, with_thread}
use ocean_os.Interrupts.Safe.{IsSafe, makes_thread}
use ocean_os.Pages.{page_size}
use ocean_os.Process.{Scheduler}

-- In a safe state of the kernel, with room for three blocks and rounds for the searches, the three
-- calls of `init_thread` with which `testProcess` ends make three threads, which join the ring with
-- their blocks, so that the state is safe again. Fewer than eighteen pages are free when
-- `alloc_page` panics instead.
pub start_threads-IsSafe :
    (heap_fuel fuel pgd thread_exit n : ℕ) (line : List ℕ) (d : Programs) (m : Machine)
    → IsSafe pgd n line m
    → m.mm_top + 6 * page_size + (8192 + header_size) + page_size < 2 ^ 32
    → m.mm_top + 6 * page_size < heap_fuel
    → m.mm_top + 6 * page_size < fuel
    → ((s : Scheduler) × (h : Heap) × (start_threads heap_fuel fuel pgd thread_exit d
            (heap_of m)
            m.running.kernel.scheduler
          ≡ ok (s, h))
        × IsSafe pgd (suc (suc (suc n))) line (with_thread h s m))
      ⊎ ((start_threads heap_fuel fuel pgd thread_exit d (heap_of m) m.running.kernel.scheduler
            ≡ panic out_of_memory)
          × (m.running.kernel.vm.pages.top < 18))
unfolding start_threads
start_threads-IsSafe heap_fuel fuel pgd thread_exit n line d m safe room many enough =
    elim (makes_thread pgd n line m safe heap_fuel fuel d.entry_a d.str_a thread_exit (omega arith)
      (omega arith) (omega arith)) [
        | inr (fails, short) ↦ inr (rw fails refl, omega arith)
        | inl (pid, pushed, s, h, ran, safe', left, risen) ↦
            elim (makes_thread pgd (suc n) line (with_thread h s m) safe' heap_fuel fuel d.entry_b
              d.str_b thread_exit (omega (arith, risen)) (omega (arith, risen))
              (omega (arith, risen))) [
                | inr (fails, short) ↦ inr (rw (ran, fails) refl, omega (arith, left, short))
                | inl (pid', pushed', s', h', ran', safe'', left', risen') ↦
                    elim (makes_thread pgd (suc (suc n)) line (with_thread h' s' m) safe'' heap_fuel
                      fuel d.entry_c d.str_c thread_exit (omega (arith, risen, risen'))
                      (omega (arith, risen, risen')) (omega (arith, risen, risen'))) [
                        | inr (fails, short) ↦
                            inr (rw (ran, ran', fails) refl, omega (arith, left, left', short))
                        | inl (pid'', pushed'', s'', h'', ran'', safe₃, left'', risen'') ↦
                            inl (s'', h'', rw (ran, ran', ran'') refl, safe₃)
                      ]
              ]
      ]
