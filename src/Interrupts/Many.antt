-- ===== src/Interrupts/Many.antt =====
-- How many threads the kernel can make after its start.
use ocean_os.Base.{ℕ, zero, suc, ◌+◌, ◌*◌, ◌^◌, ◌≤◌, ◌<◌, ap, inl, inr, [], arith, length}
use ocean_os.Interrupts.Machine.{Machine, creates, Reach, here, next, start_machine}
use ocean_os.Interrupts.Safe.{IsSafe, makes_thread, start_machine-IsSafe}
use ocean_os.Pages.{page_size}
use ocean_os.Pages.Stack.{length-stacked}
use ocean_os.Start.{Image, Kernel}
use ocean_os.Start.Boot.{IsBooted, usable_pages}

-- The free pages, and what has been mapped for the heap.
abbrev free_count : Machine → ℕ
free_count m = m.running.kernel.vm.pages.top

-- `n` threads are made, with at most six pages and three pages of addresses for each.
abbrev Makes : ℕ → Machine → ℕ → Type 0
Makes pgd start n =
    (m : Machine) × Reach pgd start m
    × IsSafe pgd n [] m
    × (free_count start ≤ free_count m + 6 * n)
    × (m.mm_top ≤ start.mm_top + n * (3 * page_size))

module _ (pgd fn arg thread_exit : ℕ) (start : Machine) (safe : IsSafe pgd 0 [] start) where
  Makes-many :
      (n : ℕ)
      → 6 * n ≤ free_count start
      → start.mm_top + (n + 2) * (3 * page_size) < 2 ^ 32
      → Makes pgd start n
  Makes-many zero enough room = (start, here, safe, omega arith, omega arith)
  Makes-many (suc n) enough room =
      let (m, reached, safe', left, risen) = Makes-many n (omega arith) (omega arith) in
      let fuel = suc m.mm_top in
      let inside : m.mm_top + 8204 + page_size < 2 ^ 32 = omega (arith, risen) in
      elim (makes_thread pgd n [] m safe' fuel fuel fn arg thread_exit inside (omega arith)
        (omega arith)) [
          | inl (pid, pushed, scheduler, h, ran, safe'', left', risen') ↦ (
            _,
            next reached (
                creates fuel fuel fn arg thread_exit pid pushed scheduler h inside (omega arith)
                  (omega arith) ran),
            safe'',
            omega (arith, left, left'),
            omega (arith, risen, risen'),
          )
          | inr (fails, short) ↦ absurd (omega (arith, left, short))
        ]

-- After the start, when there are six usable pages for each of `n` threads, the kernel can make so
-- many threads, one after the other, without a panic: it reaches a state whose ring has `n` threads
-- beside the first one, each in its block of the heap, and whose page tables are well-formed.
pub start_machine-makes :
    (image : Image) (ram : ℕ) (k : Kernel) (n fn arg thread_exit : ℕ)
    → IsBooted image ram k
    → 6 * n ≤ length (usable_pages image ram)
    → (m : Machine) × Reach image.pgd_kern (start_machine k) m × IsSafe image.pgd_kern n [] m
start_machine-makes image ram k n fn arg thread_exit booted enough =
    let free = length-stacked k.vm.pages.slots k.vm.pages.top in
    let all = ap length booted.pages in
    let (m, reached, safe, left, risen) =
      Makes-many image.pgd_kern fn arg thread_exit (start_machine k)
        (start_machine-IsSafe image ram k booted) n (omega (arith, free, all))
        (omega (arith, free, all, booted.tables.top_le)) in
    (m, reached, safe)
