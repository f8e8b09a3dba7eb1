-- ===== src/Interrupts/Reach.antt =====
-- The states that the kernel reaches after its start, whatever the order of its steps is.
use ocean_os.Base.{ℕ, suc, ◌≡◌, sym, subst, inl, inr, List, [], arith}
use ocean_os.Buffer.Lines.{IsAt, init_buffer-IsAt}
use ocean_os.Heap.{v_mm_start}
use ocean_os.Interrupts.{Running}
use ocean_os.Interrupts.Machine.{
  Machine, with_running, Step, interrupted, reads, writes, clears, creates, Reach, here, next,
  start_machine, thread_row,
}
use ocean_os.Interrupts.Safe.{IsSafe, start_machine-IsSafe, on_screen, undisturbed, makes_thread}
use ocean_os.Interrupts.Sound.{interrupt-IsSound}
use ocean_os.Printf.Screen.{monitor_write_color-OnScreen}
use ocean_os.Start.{Image, Kernel}
use ocean_os.Start.Boot.{IsBooted, monitor_clear-OnScreen}

module _ (pgd n : ℕ) (line : List ℕ) (m : Machine) (safe : IsSafe pgd n line m) where
  -- Every step is safe, and it leaves the number of threads or adds one.
  Step-IsSafe :
      {m' : Machine} → Step pgd m m' → (n' : ℕ) × (line' : List ℕ) × IsSafe pgd n' line' m'
  Step-IsSafe (clears) = (
    n,
    line,
    record {
      sound = on_screen pgd n line m safe _ (monitor_clear-OnScreen m.running.kernel.monitor);
      system = safe.system;
    },
  )
  Step-IsSafe (writes text back fore screen out ran) = (
    n,
    line,
    record {
      sound = on_screen pgd n line m safe screen (
          monitor_write_color-OnScreen text back fore m.running.kernel.monitor screen out ran
            safe.sound.ready.cursor);
      system = safe.system;
    },
  )
  Step-IsSafe (reads b ran) =
      let (b', ran', at) =
        init_buffer-IsAt m.running.buffer safe.sound.ready.holds.size
          (omega (arith, safe.sound.ready.holds.position, safe.sound.ready.room)) in
      let same : b' ≡ b = cc in
      (
        n,
        [],
        record {
          sound = record {
            handlers = safe.sound.handlers;
            ticks_lt = safe.sound.ticks_lt;
            threads = safe.sound.threads;
            lights = safe.sound.lights;
            ready = record {
              cursor = safe.sound.ready.cursor;
              holds = subst (λ x. IsAt x []) same at;
              room = omega arith;
            };
          };
          system = safe.system;
        },
      )
  Step-IsSafe (interrupted {s} i outs from to followed ran) =
      elim (interrupt-IsSound i (thread_row v_mm_start n) line m.running safe.sound from to
        followed) [
          | inl (room, (s', outs', ran', sound', leaves)) ↦
              let same : s' ≡ s = cc in
              subst After same (n, _, undisturbed pgd n line m safe s' _ sound' leaves)
          | inr (inl (full, fails)) ↦ cc
          | inr (inr (at, outside, fails)) ↦ cc
        ]
    where
      After : Running → Type 0
      After x = (n' : ℕ) × (line' : List ℕ) × IsSafe pgd n' line' (with_running x m)
  Step-IsSafe
        (creates heap_fuel fuel fn arg thread_exit pid pushed scheduler h room many enough ran) =
      elim (makes_thread pgd n line m safe heap_fuel fuel fn arg thread_exit room many enough) [
        | inl (pid', pushed', s', h', ran', safe', spent, risen) ↦
            let same : s' ≡ scheduler = cc in
            let same' : h' ≡ h = cc in (suc n, line, rw (sym same, sym same') safe')
        | inr (fails, short) ↦ cc
      ]

-- In every state that the kernel reaches from the one that its start leaves, as long as no test
-- program is started (f1 and f2 do not come in), by interrupts of the lines, where the keyboard's
-- controller takes two commands each time, and threads that start to read, write on the screen,
-- clear it or make threads, in any order, as long as these return: the handlers are those of the
-- start, the threads form a ring, and one of them runs, the lights are in step with the keys, the
-- cursor is on the screen, and the buffer holds a line within its bytes. The page tables and the
-- free pages are well-formed, and the heap is a row of blocks in use, one for each thread beside
-- the first, with a page behind every address of them.
pub Reach-IsSound :
    (image : Image) (ram : ℕ) (k : Kernel) {m : Machine}
    → IsBooted image ram k
    → Reach image.pgd_kern (start_machine k) m
    → (n : ℕ) × (line : List ℕ) × IsSafe image.pgd_kern n line m
Reach-IsSound image ram k booted here = (0, [], start_machine-IsSafe image ram k booted)
Reach-IsSound image ram k booted (next {t} reached step) =
    let (n, line, safe) = Reach-IsSound image ram k booted reached in
    Step-IsSafe image.pgd_kern n line t safe step
