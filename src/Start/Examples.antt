-- ===== src/Start/Examples.antt =====
-- A start of the kernel.
use ocean_os.Base.{◌+◌, ◌*◌, ◌%◌, ◌≡◌, refl, inl, none, some, [], ◌∷◌, arith, replicate, ok}
use ocean_os.Pages.Examples.{memory}
use ocean_os.Gdt.{gdt_entry}
use ocean_os.Trap.{empty_gate}
use ocean_os.Process.{Process, runnable}
use ocean_os.Elf.{SectionHeader}
use ocean_os.Start.{Image, Kernel, init_kernel, init}
use ocean_os.Start.Tables.{translate, early, init_kernel-translates, init_kernel-glb_mboot_ptr}
use ocean_os.Start.Boot.{IsLoaded, IsBooted, init-IsBooted}

init_kernel-translates_example :
    (translate
        (early 0xC0104000 0x9500 0x11 (λ a. 0)).cr3
        (early 0xC0104000 0x9500 0x11 (λ a. 0)).mem
        0x100123
      ≡ some 0x100123)
    × (translate
          (early 0xC0104000 0x9500 0x11 (λ a. 0)).cr3
          (early 0xC0104000 0x9500 0x11 (λ a. 0)).mem
          0xC0100123
        ≡ some 0x100123)
init_kernel-translates_example =
    init_kernel-translates 0xC0104000 0x9500 0x11 (λ a. 0) 0x100123 (omega arith)

init_kernel-glb_mboot_ptr_example :
    (init_kernel 0xC0104000 0x9500 0x11 (λ a. 0)).glb_mboot_ptr ≡ 0x9500
init_kernel-glb_mboot_ptr_example = init_kernel-glb_mboot_ptr 0xC0104000 0x9500 0x11 (λ a. 0)

abbrev pub no_section : SectionHeader
no_section = record {
  name = 0;
  type = 0;
  flags = 0;
  addr = 0;
  offset = 0;
  size = 0;
  link = 0;
  info = 0;
  addralign = 0;
  entsize = 0;
}

-- An image without sections, with 127 megabytes of memory.
abbrev pub image : Image
image = record {
  strings = λ a. 0 ∷ [];
  sections = λ a i. no_section;
  mboot = record { num = 0; addr = 0; shndx = 0 };
  gdt_address = 0xC0107000;
  isr = λ i. 0xC0100000 + 16 * (i % 256);
  irq = λ i. 0xC0101000 + 16 * (i % 16);
  idts_address = 0xC0108000;
  kernel_size = 0x100000;
  memory_map = memory 0x7F00000;
  mmap_length = 3;
  pgd_kern = 0xC0110000;
  pte_kern = 0xC0120000;
  kern_stack_top = 0xC0106000;
}

abbrev pub no_thread : Process
no_thread = record {
  state = runnable;
  pid = 0;
  stack = 0;
  memory = 0;
  context = record { esp = 0; ebp = 0; ebx = 0; esi = 0; edi = 0; eflags = 0 };
  next = 0;
}

-- The variables before the start.
abbrev pub cold : Kernel
cold = record {
  kernel_elf = record { symtab = 0; symtabsz = 0; strtab = 0; strtabsz = 0 };
  gdt = replicate 5 (gdt_entry 0 0 0 0);
  gdtr = record { limit = 0; base = 0 };
  trap = record {
    idts = λ i. empty_gate;
    idtr = record { limit = 0; base = 0 };
    handlers = replicate 256 none;
    ticks = 0;
  };
  vm = record { pages = record { slots = λ i. 0; top = 0 }; mem = λ a. 0 };
  cr3 = 0x1000;
  monitor = record { video_memory = λ a. 0; cursor_x = 0; cursor_y = 0 };
  scheduler = record { procs = λ a. no_thread; cur_pid = 0; run_head = 0; cur_proc = 0 };
  keyboard = record { mode = 0; leds = 0; e0 = 0 };
}

pub cold-IsLoaded : IsLoaded image cold (λ i. []) (λ i. []) 2
cold-IsLoaded = record {
  named = λ i low. absurd (omega arith);
  segments = refl;
  isr_words = λ i. omega arith;
  irq_words = λ i. omega arith;
  no_pages = refl;
  visited = omega arith;
  is_usable = refl;
  others = λ j low other. ground arith;
  fits = omega arith;
  placed = record {
    dir_aligned = refl;
    dir_end = omega arith;
    tables_aligned = refl;
    tables_low = omega arith;
    tables_end = omega arith;
    apart = inl (omega arith);
  };
  words = λ a. omega arith;
  zeroed = λ i small out. refl;
  dir_inside = omega arith;
  tables_inside = omega arith;
  aligned = refl;
  stack_low = omega arith;
  stack_high = omega arith;
}

init-IsBooted_example : (k' : Kernel) × (init image cold ≡ ok k') × IsBooted image 2 k'
init-IsBooted_example = init-IsBooted image cold (λ i. []) (λ i. []) 2 cold-IsLoaded
