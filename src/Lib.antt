-- ===== src/Lib.antt =====
-- A model of OceanOS, a small 32-bit x86 kernel in C, in the parts that keep state of their own.
--
-- The kernel starts from a multiboot loader with memory mapped at 0xC0000000 too. It sets up the
-- segments and the interrupt gates, takes the free pages from the loader's memory map, builds its
-- page tables, and starts the keyboard and the timer. From then on interrupts drive it: the timer
-- counts ticks and switches threads, the keyboard turns scan codes into characters that go to the
-- text screen and to the line buffer. A table in memory serves as the file system.
--
--   Strings.antt, src/string.c: the string functions on byte lists.
--   Pages.antt, src/memory.c with include/memory.h and include/multiboot.h: the stack of free
--     pages, alloc_page, free_page and init_page.
--   Paging.antt and Paging/Boot.antt, src/memory.c: map, unmap, get_mapping and init_vmm, on a
--     memory of 32-bit words. map takes the pages of new tables from Pages. Paging/Fresh.antt has
--     the tables of init_vmm, with the pages that init_page has freed, for those that use them.
--   Trap.antt, src/trap.c with include/trap.h: the gates, the interrupt controllers, the table of
--     handlers, isr_handler and irq_handler, init_timer and sleep.
--   Keyboard.antt, src/keyboard.c: the modifier keys, the lights, the tables, every handler of
--     key_tab and the loop of kbd_wait. It registers its handler with Trap; its effects on screen
--     and buffer are a list, which Interrupts performs.
--   FileTable.antt, src/file.c with include/file.h: fs_add_file, fs_add_dir, fs_match_file,
--     fs_match_dir and init_fs. It calls strcpy, strcmp, strncmp and strlen of Strings.
--   Buffer.antt, src/buffer.c: init_buffer, put_buffer, getLast and getline.
--   Monitor.antt, src/monitor.c: the cells, the cursor, scrolling, strings and numbers.
--   Gdt.antt, src/gdt.c with include/gdt.h: setGdt and init_gdt.
--   Printf.antt and Printf/Format.antt, src/printf.c: number, skip_atoi and vsprintf, with printf and
--     printf_color, which show its text by Monitor.
--   Process.antt, src/process.c with include/process.h: init_proc_schedule, init_thread, schedule
--     and change_proc on a ring of threads. kmalloc's result is an argument of init_thread,
--     and create_thread in Process/Create.antt is the source's init_thread with that call.
--     Process/Timer.antt has the timer_callback of src/trap.c.
--   Heap.antt, src/memlib.c with include/memlib.h: kmalloc, kfree and _free_memory over the chain of
--     headers. The heap grows by alloc_page and map, and shrinks by unmap and free_page.
--   Elf.antt, src/elf.c with include/elf.h: elf_from_multiboot and elf_lookup_symbol.
--   Faults.antt, src/memory.c and src/debug.c: what page_fault, print_stack_info,
--     print_stack_trace and print_cur_status print, by printf and printf_color.
--   Scanf.antt, src/scanf.c: scanf waits in Buffer for a line and shows it by Printf.
--   Start.antt, src/init.c: the tables of init_kernel, and _init, which calls the starts of the
--     other parts in their order.
--   Interrupts.antt, the kernel while interrupts come in: irq_handler of Trap with the handlers of
--     the start, timer_callback of Process and keyboard_handler of Keyboard with what its effects do
--     to Monitor and Buffer, and with kbd_wait over what the controller's port reads. Interrupts/Machine.antt has the steps of the running kernel with
--     its heap, those of threads that the real create_thread makes among them, Interrupts/Safe.antt
--     what they keep, Interrupts/Reach.antt the states that they reach, and
--     Interrupts/Reading.antt scanf while the keys come in.
--   Demos.antt, src/test.c: the calls of showStart, showMemu, testA, testB and testC in order, as
--     data, the loop of testMalloc over the heap, and the three threads of testProcess.
--   Base.antt: numbers, lists, results and masks that the others share.
--
-- The modules below a component hold its proofs, and its Examples runs at concrete inputs. Names
-- are those of the source, in snake case where the source has capitals (set_gdt for setGdt).
--
-- Numbers are natural numbers, with `% 2 ^ w` where the source's types wrap around. A call returns
-- a Result: its value, the panic of a failed assert, a fault for an access outside of an object, or
-- the end of the fuel of a loop. Fuel bounds these loops: that of init_page gets two rounds more
-- than there are pages at or below MEMORY_MAX_SIZE, that of monitor_write_dec 32 rounds, where a
-- 32-bit number has ten digits, that of number 37, where such a number has 32 binary ones, that of
-- vsprintf a round for each byte of the format, of which it reads one at least, and those that move
-- mm_top a round more than a 32-bit address space has pages. The rounds of sleep, which waits for
-- a clock outside of the code, and those of the searches of init_thread and kmalloc and of the
-- stack trace, which follow links, are arguments, and their theorems say how many are enough. scanf
-- tests for a line end as often as there are groups of keys, and once more, and the loop of
-- testMalloc has a round for each answer of a user. All other loops are recursion on their data or
-- on their counter.
--
-- Not modelled: the bytes of the heap's blocks, thread_exit, an endless loop, that the keys f1
-- and f2 run the test programs of src/test.c inside of the keyboard's interrupt, with interrupts
-- on (an interrupt that starts one has no result in Interrupts, and its theorems leave it out),
-- the calls of scanf, sleep, cli, sti and init_timer in these programs, the assembly under src/,
-- and src/_doscan.c, a copy of the scanner of MINIX, which is an argument of scanf. Writes to
-- ports are recorded in order, and what ports answer is an argument. The stubs of the interrupts,
-- the registers that assembly reads, and the addresses of handlers are arguments too, as are the
-- two pointers that strrchr reads before they are set.
pub mod Base
pub mod Strings
pub mod Pages
pub mod Trap
pub mod Paging
pub mod Keyboard
pub mod FileTable
pub mod Buffer
pub mod Monitor
pub mod Gdt
pub mod Printf
pub mod Process
pub mod Heap
pub mod Elf
pub mod Faults
pub mod Scanf
pub mod Start
pub mod Interrupts
pub mod Demos
