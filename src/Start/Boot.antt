-- ===== src/Start/Boot.antt =====
-- The state of the kernel when its start is over.
use ocean_os.Base.{
  ℕ, ◌+◌, ◌-◌, ◌*◌, ◌/◌, ◌%◌, ◌^◌, ◌≤◌, ◌<◌, ◌≡◌, refl, ◌≢◌, true, false, some, List, [], ◌∷◌,
  arith, length, get_elem?, ok,
}
use ocean_os.Pages.{page_size}
use ocean_os.Pages.Stack.{free_pages}
use ocean_os.Pages.Boot.{push_run, region_count, first_page, ram_end, is_ram, init_page-Frees}
use ocean_os.Paging.{page_offset, get_mapping}
use ocean_os.Paging.Boot.{IsPlaced, init_vmm, pte_count, get_mapping-init_vmm}
use ocean_os.Paging.Fresh.{AreWords, IsZeroed, init_vmm-IsWf}
use ocean_os.Paging.Tables.{IsWf}
use ocean_os.Trap.{init_trap, init_timer, register_interrupt_handler}
use ocean_os.Trap.Gates.{IsGate, init_trap-IsGate}
use ocean_os.Heap.{v_mm_start}
use ocean_os.Keyboard.{init_keyboard, init_kbd, setleds}
use ocean_os.Keyboard.Lights.{IsLit, init_kbd-IsLit}
use ocean_os.Monitor.{Monitor, monitor_clear}
use ocean_os.Monitor.Cursor.{OnScreen}
use ocean_os.Gdt.{gdt_entry, gdt_length}
use ocean_os.Gdt.Segments.{IsFlat, init_gdt-IsFlat}
use ocean_os.Process.{init_proc_schedule}
use ocean_os.Process.Ring.{IsRing, init_proc_schedule-IsRing}
use ocean_os.Elf.Tables.{Named, tables, elf_from_multiboot-tables}
use ocean_os.Start.Handlers.{handler_of, handlers_lem}
use ocean_os.Start.{Image, Kernel, at_page_fault, at_timer_callback, at_keyboard_handler, init}

-- What the loader and the linker have to provide; the `ram`-th record of the memory map is the
-- memory that the kernel uses.
pub record IsLoaded (image : Image) (k : Kernel) (names rests : ℕ → List ℕ) (ram : ℕ) : Type 0 where
  pub named :
      Named image.strings
        (image.sections image.mboot.addr image.mboot.shndx).addr
        (image.sections image.mboot.addr)
        names
        rests
        image.mboot.num
  pub segments : length k.gdt ≡ gdt_length
  pub isr_words : (i : ℕ) → image.isr i < 2 ^ 32
  pub irq_words : (i : ℕ) → image.irq i < 2 ^ 32
  pub no_pages : k.vm.pages.top ≡ 0
  pub visited : ram < image.mmap_length
  pub is_usable : is_ram (image.memory_map ram) ≡ true
  pub others : (j : ℕ) → j < image.mmap_length → j ≢ ram → is_ram (image.memory_map j) ≡ false
  pub fits : image.kernel_size < 2 ^ 32 - 0x100000
  pub placed : IsPlaced image.pgd_kern image.pte_kern
  pub words : AreWords k.vm.mem
  pub zeroed : IsZeroed image.pgd_kern k.vm.mem
  pub dir_inside :
      image.pgd_kern + page_size ≤ page_offset + first_page image.kernel_size (image.memory_map ram)
  pub tables_inside :
      image.pte_kern + pte_count * page_size
      ≤ page_offset + first_page image.kernel_size (image.memory_map ram)
  pub aligned : first_page image.kernel_size (image.memory_map ram) % page_size ≡ 0
  pub stack_low : image.kern_stack_top ≤ v_mm_start
  pub stack_high : 8192 < image.kern_stack_top

abbrev pub usable_pages : Image → ℕ → List ℕ
usable_pages image ram =
    let first = first_page image.kernel_size (image.memory_map ram) in
    push_run (region_count first (ram_end (image.memory_map ram))) first []

pub record IsBooted (image : Image) (ram : ℕ) (k : Kernel) : Type 0 where
  pub segments :
      (kernel_code kernel_data user_code user_data : _) × (k.gdt
        ≡ gdt_entry 0 0 0 0 ∷ kernel_code ∷ kernel_data ∷ user_code ∷ user_data ∷ [])
      × IsFlat kernel_code 0 true
      × IsFlat kernel_data 0 false
      × IsFlat user_code 3 true
      × IsFlat user_data 3 false
  pub exceptions : (v : ℕ) → v < 32 → IsGate (k.trap.idts v) (image.isr v)
  pub lines : (v : ℕ) → 32 ≤ v → v < 48 → IsGate (k.trap.idts v) (image.irq (v - 32))
  pub handlers : (v : ℕ) → v < 256 → get_elem? k.trap.handlers v ≡ some (handler_of v)
  pub ticks : k.trap.ticks ≡ 0
  pub pages : free_pages k.vm.pages ≡ usable_pages image ram
  pub mapped :
      (pa old : ℕ)
      → page_size ≤ pa
      → pa < 0x20000000
      → get_mapping image.pgd_kern (page_offset + pa) (some old) k.vm
        ≡ (1, some (page_size * (pa / page_size)))
  pub tables : IsWf image.pgd_kern k.vm
  pub cursor : OnScreen k.monitor
  pub threads : IsRing k.scheduler []
  pub first_thread : k.scheduler.run_head < v_mm_start
  pub lights : IsLit k.keyboard

pub monitor_clear-OnScreen : (m : Monitor) → OnScreen (monitor_clear m).0
unfolding monitor_clear
monitor_clear-OnScreen m = record { column = omega arith; row = omega arith }

-- When the loader and the linker provide what the kernel needs, `_init` neither panics nor faults
-- nor runs out of rounds. Its calls then leave flat segments, gates of the kernel to the stubs of
-- the exceptions and lines, exactly the handlers of the page fault, the timer and the keyboard, no
-- tick, the usable pages free, the kernel's view of 512 megabytes mapped, from its second page on,
-- by well-formed page tables, in which no free page serves, the cursor on the screen, the thread of
-- the start as the only one of the ring and below the heap, and the lights in step with the keys.
pub init-IsBooted :
    (image : Image) (k : Kernel) (names rests : ℕ → List ℕ) (ram : ℕ)
    → IsLoaded image k names rests ram
    → (k' : Kernel) × (init image k ≡ ok k') × IsBooted image ram k'
unfolding init init_vmm init_timer init_keyboard init_kbd setleds register_interrupt_handler
    init_trap init_proc_schedule
init-IsBooted image k names rests ram loaded =
    let elf =
      elf_from_multiboot-tables image.strings image.sections image.mboot k.kernel_elf names rests
        loaded.named in
    let (code, kernel_data, user_code, user_data, gdtr, gdt, flat, flat', flat'', flat''') =
      init_gdt-IsFlat image.gdt_address k.gdt loaded.segments in
    let (pages, freed, all_free, bounds) =
      init_page-Frees image.kernel_size image.memory_map image.mmap_length ram k.vm.pages
        loaded.no_pages loaded.visited loaded.is_usable loaded.others loaded.fits in
    let trap = (init_trap image.isr image.irq image.idts_address k.trap).0 in
    let first = first_page image.kernel_size (image.memory_map ram) in
    (
      record {
        kernel_elf =
            tables image.strings (image.sections image.mboot.addr image.mboot.shndx).addr
              (image.sections image.mboot.addr) names rests 0 image.mboot.num k.kernel_elf;
        gdt = gdt_entry 0 0 0 0 ∷ code ∷ kernel_data ∷ user_code ∷ user_data ∷ [];
        gdtr = gdtr;
        trap =
            record (register_interrupt_handler 33 at_keyboard_handler (
              register_interrupt_handler 32 at_timer_callback
                (register_interrupt_handler 14 at_page_fault trap))) { ticks = 0 };
        vm = record {
          pages = pages;
          mem = (init_vmm image.pgd_kern image.pte_kern at_page_fault k.vm.mem trap).0;
        };
        cr3 = (init_vmm image.pgd_kern image.pte_kern at_page_fault k.vm.mem trap).1;
        monitor = (monitor_clear k.monitor).0;
        scheduler = init_proc_schedule image.kern_stack_top k.scheduler;
        keyboard = record k.keyboard { mode = 0; leds = 2 };
      },
      rw (elf, gdt, freed) refl,
      record {
        segments = (code, kernel_data, user_code, user_data, refl, flat, flat', flat'', flat''');
        exceptions = λ v low.
            (init_trap-IsGate image.isr image.irq image.idts_address k.trap loaded.isr_words
                loaded.irq_words v).0
              low;
        lines = λ v low high.
            (init_trap-IsGate image.isr image.irq image.idts_address k.trap loaded.isr_words
                loaded.irq_words v).1
              low high;
        handlers = handlers_lem;
        ticks = refl;
        pages = all_free;
        mapped =
            get_mapping-init_vmm image.pgd_kern image.pte_kern at_page_fault k.vm.mem trap
              loaded.placed pages;
        tables =
            init_vmm-IsWf image.pgd_kern image.pte_kern first
              (region_count first (ram_end (image.memory_map ram))) at_page_fault k.vm.mem pages
              trap
              (record {
                placed = loaded.placed;
                words = loaded.words;
                zeroed = loaded.zeroed;
                dir_inside = loaded.dir_inside;
                tables_inside = loaded.tables_inside;
                aligned = loaded.aligned;
                pages_low = λ any. omega arith;
                in_bounds = bounds;
                row = all_free;
              });
        cursor = monitor_clear-OnScreen k.monitor;
        threads =
            (init_proc_schedule-IsRing image.kern_stack_top k.scheduler
              (omega (arith, loaded.stack_low)) loaded.stack_high).0;
        first_thread = omega arith;
        lights = init_kbd-IsLit k.keyboard;
      },
    )
