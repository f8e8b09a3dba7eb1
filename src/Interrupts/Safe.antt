-- ===== src/Interrupts/Safe.antt =====
-- The states of the running kernel in which its parts are as they should be.
use ocean_os.Base.{
  ℕ, suc, ◌+◌, ◌*◌, ◌^◌, ◌≤◌, ◌<◌, ◌≡◌, refl, sym, subst, ◌⊎◌, inl, inr, true, List, [], ◌∷◌, ◌++◌,
  arith, out_of_memory, ok, panic,
}
use ocean_os.Heap.{Heap, v_mm_start, header_size}
use ocean_os.Heap.Append.{IsHeap}
use ocean_os.Heap.Chain.{end_of}
use ocean_os.Interrupts.{Running}
use ocean_os.Interrupts.Machine.{
  Machine, heap_of, with_monitor, with_running, with_thread, started, start_machine, stack_blocks,
  thread_row,
}
use ocean_os.Interrupts.Rows.{
  end_of-stack_blocks, stack_blocks-suc, thread_row-suc, stack_blocks-full, length-stack_blocks,
  length-thread_row,
}
use ocean_os.Interrupts.Sound.{IsSound, Leaves}
use ocean_os.Monitor.Cursor.{OnScreen}
use ocean_os.Monitor.{Monitor}
use ocean_os.Process.{Scheduler}
use ocean_os.Pages.{page_size}
use ocean_os.Process.Create.{create_thread, IsSystem, create_thread-IsSystem}
use ocean_os.Start.{Image, Kernel}
use ocean_os.Start.Boot.{IsBooted}

-- Threads as many as `n` beside the first one, each in a block of the heap, which has no others.
pub record IsSafe (pgd n : ℕ) (line : List ℕ) (m : Machine) : Type 0 where
  pub sound : IsSound (thread_row v_mm_start n) line m.running
  pub system :
      IsSystem pgd (stack_blocks n) (thread_row v_mm_start n) (heap_of m) m.running.kernel.scheduler

pub started-IsSound :
    (image : Image) (ram : ℕ) (k : Kernel) → IsBooted image ram k → IsSound [] [] (started k)
started-IsSound image ram k booted = record {
  handlers = booted.handlers;
  ticks_lt = omega (arith, booted.ticks);
  threads = booted.threads;
  lights = booted.lights;
  ready = record {
    cursor = booted.cursor;
    holds = record { size = refl; position = refl; starts = refl };
    room = omega arith;
  };
}

pub start_machine-IsSafe :
    (image : Image) (ram : ℕ) (k : Kernel)
    → IsBooted image ram k
    → IsSafe image.pgd_kern 0 [] (start_machine k)
start_machine-IsSafe image ram k booted = record {
  sound = started-IsSound image ram k booted;
  system = record {
    heap = record {
      starts = refl;
      chain = tt;
      inside = omega arith;
      top = record {
        aligned = refl;
        small = omega arith;
        above = omega arith;
        tables = booted.tables;
        backed = λ va old from to. absurd (omega arith);
      };
    };
    ring = booted.threads;
    below = (booted.first_thread, tt);
  };
}

module _ (pgd n : ℕ) (line : List ℕ) (m : Machine) (safe : IsSafe pgd n line m) where
  pub on_screen :
      (screen : Monitor)
      → OnScreen screen
      → IsSound (thread_row v_mm_start n) line (with_monitor screen m.running)
  on_screen screen cursor = record {
    handlers = safe.sound.handlers;
    ticks_lt = safe.sound.ticks_lt;
    threads = safe.sound.threads;
    lights = safe.sound.lights;
    ready = record {
      cursor = cursor;
      holds = safe.sound.ready.holds;
      room = safe.sound.ready.room;
    };
  }

  pub undisturbed :
      (s : Running) (line' : List ℕ)
      → IsSound (thread_row v_mm_start n) line' s
      → Leaves m.running s
      → IsSafe pgd n line' (with_running s m)
  undisturbed s line' sound (vm, head) = record {
    sound = sound;
    system = record {
      heap =
          subst (λ tables. IsHeap pgd (stack_blocks n) (record (heap_of m) { vm = tables }))
            (sym vm) safe.system.heap;
      ring = sound.threads;
      below = (rw head safe.system.below.0, safe.system.below.1);
    };
  }

  abbrev HasOneMore : Heap → Scheduler → Type 0
  HasOneMore h scheduler =
      IsSystem pgd (stack_blocks n ++ (true, 8192 + header_size) ∷ [])
        (thread_row v_mm_start n ++ (end_of v_mm_start (stack_blocks n) + header_size) ∷ []) h
        scheduler

  more_threads :
      (scheduler : Scheduler) (h : Heap)
      → HasOneMore h scheduler
      → IsSafe pgd (suc n) line (with_thread h scheduler m)
  more_threads scheduler h grown =
      let system =
        subst (λ bs. IsSystem pgd bs (thread_row v_mm_start (suc n)) h scheduler)
          (stack_blocks-suc n)
          (subst
            (λ ps. IsSystem pgd (stack_blocks n ++ (true, 8192 + header_size) ∷ []) ps h scheduler)
            (thread_row-suc n v_mm_start) grown) in
      record {
        sound = record {
          handlers = safe.sound.handlers;
          ticks_lt = safe.sound.ticks_lt;
          threads = system.ring;
          lights = safe.sound.lights;
          ready = record {
            cursor = safe.sound.ready.cursor;
            holds = safe.sound.ready.holds;
            room = safe.sound.ready.room;
          };
        };
        system = system;
      }

  -- A thread is made, or pages are short.
  pub makes_thread :
      (heap_fuel fuel fn arg thread_exit : ℕ)
      → m.mm_top + (8192 + header_size) + page_size < 2 ^ 32
      → m.mm_top < heap_fuel
      → m.mm_top < fuel
      → let made =
          create_thread heap_fuel fuel pgd fn arg thread_exit
            (heap_of m)
            m.running.kernel.scheduler in
        ((pid : ℕ) × (pushed : List (ℕ × ℕ)) × (s' : Scheduler) × (h' : Heap) × (made
            ≡ ok (pid, pushed, s', h'))
          × IsSafe pgd (suc n) line (with_thread h' s' m)
          × (m.running.kernel.vm.pages.top ≤ h'.vm.pages.top + 6)
          × (h'.mm_top ≤ m.mm_top + 3 * page_size))
        ⊎ ((made ≡ panic out_of_memory) × (m.running.kernel.vm.pages.top < 6))
  makes_thread heap_fuel fuel fn arg thread_exit room many enough =
      let size = length-stack_blocks n in
      let size' = length-thread_row n v_mm_start in
      let end = end_of-stack_blocks n v_mm_start in
      let inside = safe.system.heap.inside in
      elim (create_thread-IsSystem heap_fuel fuel pgd fn arg thread_exit (stack_blocks n)
        (thread_row v_mm_start n) (heap_of m) m.running.kernel.scheduler safe.system
        (stack_blocks-full n) (omega (arith, inside)) (omega (arith, inside, size, end))
        (omega (arith, inside, size', end))) [
          | inl (pushed', s', h', ran', grown, entry, mapped, spent, risen) ↦
              inl (_, pushed', s', h', ran', more_threads s' h' grown, spent, risen)
          | inr short ↦ inr short
        ]
