-- ===== src/Start.antt =====
-- The start of the kernel, src/init.c: the page tables that `init_kernel` switches paging on with,
-- and the calls of `_init` up to the endless loop. What the loader and the linker decide is an
-- `Image`; the handlers are names.
pub mod Tables
pub mod Handlers
pub mod Boot
pub mod Examples
use ocean_os.Base.{ℕ, ◌+◌, ◌*◌, ◌%◌, ◌^◌, bit_and, bit_or, List, Result, ok, ◌>>=◌}
use ocean_os.Pages.{MemoryMap, page_size, init_page, update}
use ocean_os.Paging.{Vm, page_offset, page_present, page_write, pgd_index, word_at}
use ocean_os.Paging.Boot.{fill_tables, init_vmm}
use ocean_os.Trap.{Trap, init_trap, init_timer}
use ocean_os.Keyboard.{Keyboard, init_keyboard}
use ocean_os.Monitor.{Monitor, monitor_clear}
use ocean_os.Gdt.{GdtEntry, Gdtr, init_gdt}
use ocean_os.Process.{Scheduler, stack_size, init_proc_schedule}
use ocean_os.Elf.{SectionHeader, Multiboot, Elf, elf_from_multiboot}

abbrev pub pgd_tmp : ℕ
pgd_tmp = 0x1000

abbrev pub pte_low : ℕ
pte_low = 0x2000

abbrev pub pte_high : ℕ
pte_high = 0x3000

abbrev pub present_table : ℕ → ℕ
present_table pte = bit_or (bit_or pte page_present) page_write

-- What paging is switched on with; `mboot_ptr_tmp` is a pointer to records of 96 bytes.
pub record EarlyState : Type 0 where
  pub mem : ℕ → ℕ
  pub cr3 : ℕ
  pub cr0 : ℕ
  pub kern_stack_top : ℕ
  pub glb_mboot_ptr : ℕ

-- The loops fill the tables as that of `init_vmm` does, from entry 0 on.
unfoldable pub init_kernel : ℕ → ℕ → ℕ → (ℕ → ℕ) → EarlyState
init_kernel kern_stack mboot_ptr_tmp cr0 mem =
    let dir =
      update (update mem (word_at pgd_tmp 0) (present_table pte_low))
        (word_at pgd_tmp (pgd_index page_offset)) (present_table pte_high) in
    record {
      mem = fill_tables pte_high 1024 0 (fill_tables pte_low 1024 0 dir);
      cr3 = pgd_tmp;
      cr0 = bit_or cr0 0x80000000;
      kern_stack_top = bit_and ((kern_stack + stack_size) % 2 ^ 32) 0xFFFFFFF0;
      glb_mboot_ptr = (mboot_ptr_tmp + 96 * page_offset) % 2 ^ 32;
    }

pub data Handler : Type 0 where
  at_page_fault at_timer_callback at_keyboard_handler : Handler

pub record Image : Type 0 where
  pub strings : ℕ → List ℕ
  pub sections : ℕ → ℕ → SectionHeader
  pub mboot : Multiboot
  pub gdt_address : ℕ
  pub isr : ℕ → ℕ
  pub irq : ℕ → ℕ
  pub idts_address : ℕ
  pub kernel_size : ℕ
  pub memory_map : ℕ → MemoryMap
  pub mmap_length : ℕ
  pub pgd_kern : ℕ
  pub pte_kern : ℕ
  pub kern_stack_top : ℕ

pub record Kernel : Type 0 where
  pub kernel_elf : Elf
  pub gdt : List GdtEntry
  pub gdtr : Gdtr
  pub trap : Trap Handler
  pub vm : Vm
  pub cr3 : ℕ
  pub monitor : Monitor
  pub scheduler : Scheduler
  pub keyboard : Keyboard

-- `_init` up to `sti`.
unfoldable pub init : Image → Kernel → Result Kernel
init image k = elf_from_multiboot image.strings image.sections image.mboot k.kernel_elf >>= λ elf.
    init_gdt image.gdt_address k.gdt >>= λ (gdt, gdtr).
    (let (trap, _) = init_trap image.isr image.irq image.idts_address k.trap in
      init_page image.kernel_size image.memory_map image.mmap_length k.vm.pages >>= λ pages.
      (let (mem, cr3, trap') = init_vmm image.pgd_kern image.pte_kern at_page_fault k.vm.mem trap in
        init_timer at_timer_callback 200 trap' >>= λ (trap'', _).
        init_keyboard at_keyboard_handler k.keyboard trap'' >>= λ ((keyboard, _), trap''').
        ok (record {
          kernel_elf = elf;
          gdt = gdt;
          gdtr = gdtr;
          trap = trap''';
          vm = record { pages = pages; mem = mem };
          cr3 = cr3;
          monitor = (monitor_clear k.monitor).0;
          scheduler = init_proc_schedule image.kern_stack_top k.scheduler;
          keyboard = keyboard;
        })))
