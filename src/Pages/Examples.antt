-- ===== src/Pages/Examples.antt =====
-- Runs of the page allocator.
use ocean_os.Base.{ℕ, ◌*◌, ◌≡◌, refl, List, [], ◌∷◌, arith, ◌==◌, if◌then◌else◌, ok}
use ocean_os.Pages.{PageStack, MemoryMap, init_page}
use ocean_os.Pages.Stack.{free_pages}
use ocean_os.Pages.Boot.{Frees, push_run, region_count, init_page-Frees, init_page-top}

abbrev two_free : PageStack
two_free = record { slots = λ i. 0x1000 * i; top = 2 }

abbrev none_free : PageStack
none_free = record { slots = λ i. 0; top = 0 }

-- One megabyte below the kernel, and memory from there on: the third entry has 127 megabytes.
abbrev pub memory : ℕ → ℕ → MemoryMap
memory size i =
    if i == 2
    then record {
      base_addr_low = 0x100000;
      base_addr_high = 0;
      length_low = size;
      length_high = 0;
      type = 1;
    }
    else record {
      base_addr_low = 0;
      base_addr_high = 0;
      length_low = 0x9F000;
      length_high = 0;
      type = 1;
    }

init_page-Frees_example :
    Frees
      (push_run (region_count 0x105000 0x8000000) 0x105000 [])
      (init_page 0x5000 (memory 0x7F00000) 3 none_free)
init_page-Frees_example =
    init_page-Frees 0x5000 (memory 0x7F00000) 3 2 none_free refl (omega arith) refl
      (λ j low other. ground arith) (omega arith)

-- With a gigabyte.
init_page-top_example :
    (t : PageStack) × (ps : List ℕ) × (init_page 0x5000 (memory 0x3FF00000) 3 none_free ≡ ok t)
    × (free_pages t ≡ 0x20000000 ∷ ps)
init_page-top_example =
    init_page-top 0x5000 (memory 0x3FF00000) 3 2 none_free refl (omega arith) refl
      (λ j low other. ground arith) (omega arith) refl (omega arith) (omega arith)
