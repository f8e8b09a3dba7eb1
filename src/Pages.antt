-- ===== src/Pages.antt =====
-- The allocator of physical pages: `_stack`, `_top`, `alloc_page`, `free_page` and `init_page` of
-- src/memory.c, with the constants of include/memory.h and the records of include/multiboot.h.
-- Addresses are 32-bit words. An access of `_stack` outside of its PAGE_MAX_SIZE + 1 slots faults.
pub mod Stack
pub mod Boot
pub mod Examples
use ocean_os.Base.{
  ℕ, zero, suc, ◌+◌, ◌-◌, ◌/◌, ◌%◌, ◌^◌, ◌&&◌, List, [], ◌∷◌, ltb, leb, ◌==◌, if◌then◌else◌, length,
  out_of_memory, no_unused_memory, Result, ok, panic, fault, out_of_fuel, ◌>>=◌,
}

abbrev pub memory_max_size : ℕ
memory_max_size = 0x20000000

abbrev pub page_size : ℕ
page_size = 0x1000

abbrev pub page_max_size : ℕ
page_max_size = memory_max_size / page_size

abbrev pub update : (ℕ → ℕ) → ℕ → ℕ → ℕ → ℕ
update f i v j = if j == i then v else f j

pub record PageStack : Type 0 where
  pub slots : ℕ → ℕ
  pub top : ℕ

unfoldable pub alloc_page : PageStack → Result (ℕ × PageStack)
alloc_page s =
    if s.top == 0
    then panic out_of_memory
    else if leb s.top page_max_size
    then ok (s.slots s.top, record s { top = s.top - 1 })
    else fault

unfoldable pub free_page : ℕ → PageStack → Result PageStack
free_page p s =
    if s.top == page_max_size
    then panic no_unused_memory
    else if leb (s.top + 1) page_max_size
    then ok (record { slots = update s.slots (s.top + 1) p; top = s.top + 1 })
    else fault

-- An entry of the memory map that the boot loader hands over.
pub record MemoryMap : Type 0 where
  pub base_addr_low : ℕ
  pub base_addr_high : ℕ
  pub length_low : ℕ
  pub length_high : ℕ
  pub type : ℕ

-- The `while` loop of `init_page`, one page a round.
pub free_region : ℕ → ℕ → ℕ → PageStack → Result PageStack
free_region zero page_addr length s = out_of_fuel
free_region (suc fuel) page_addr length s =
    let rest = (free_page page_addr s >>= free_region fuel (page_addr + page_size) length) in
    if ltb page_addr length && leb page_addr memory_max_size then rest else ok s

-- More rounds than pages lie at or below `memory_max_size`.
abbrev pub region_fuel : ℕ
region_fuel = page_max_size + 2

-- One round of the `for` loop; `kernel_size` is `_end - _start`.
pub init_entry : ℕ → MemoryMap → PageStack → Result PageStack
init_entry kernel_size e s =
    if (e.type == 1) && (e.base_addr_low == 0x100000)
    then free_region region_fuel ((e.base_addr_low + kernel_size) % 2 ^ 32)
        ((e.base_addr_low + e.length_low) % 2 ^ 32) s
    else ok s

pub init_entries : ℕ → List MemoryMap → PageStack → Result PageStack
init_entries kernel_size [] s = ok s
init_entries kernel_size (e ∷ es) s = init_entry kernel_size e s >>= init_entries kernel_size es

-- The `n` records from the `i`-th on of the memory at `mmap_addr`.
pub records_from : (ℕ → MemoryMap) → ℕ → ℕ → List MemoryMap
records_from memory i zero = []
records_from memory i (suc n) = memory i ∷ records_from memory (i + 1) n

-- `mmap_length` is added to a `memory_map_t *`, so it counts records here.
pub init_page : ℕ → (ℕ → MemoryMap) → ℕ → PageStack → Result PageStack
init_page kernel_size memory mmap_length s =
    init_entries kernel_size (records_from memory 0 mmap_length) s
