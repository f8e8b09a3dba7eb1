-- ===== src/Paging.antt =====
-- Page tables: `map`, `unmap` and `get_mapping` of src/memory.c. The state is the page stack and the
-- memory that the kernel sees, as the 32-bit word at each address that is a multiple of 4; a
-- physical page is seen PAGE_OFFSET higher. The `invlpg` of the source drops a cached translation
-- and changes neither.
pub mod Boot
pub mod Link
pub mod Tables
pub mod Write
pub mod Laws
pub mod Fresh
pub mod Examples
use ocean_os.Base.{
  ℕ, ◌+◌, ◌*◌, ◌/◌, ◌%◌, ◌^◌, bit_and, bit_or, ◌&&◌, Option, none, some, ltb, leb, ◌==◌,
  if◌then◌else◌, Result, ok, ◌>>=◌,
}
use ocean_os.Pages.{PageStack, page_size, alloc_page, update}

abbrev pub page_offset : ℕ
page_offset = 0xC0000000

abbrev pub page_mask : ℕ
page_mask = 0xFFFFF000

abbrev pub page_present : ℕ
page_present = 1

abbrev pub page_write : ℕ
page_write = 2

pub record Vm : Type 0 where
  pub pages : PageStack
  pub mem : ℕ → ℕ

-- PTE_INDEX and PGD_INDEX.
abbrev pub pte_index : ℕ → ℕ
pte_index x = bit_and (x / 2 ^ 12) 0x3FF

abbrev pub pgd_index : ℕ → ℕ
pgd_index x = bit_and (x / 2 ^ 22) 0x3FF

-- The address of the `i`-th word of a table.
unfoldable pub word_at : ℕ → ℕ → ℕ
word_at base i = (base + 4 * i) % 2 ^ 32

unfoldable pub to_virtual : ℕ → ℕ
to_virtual p = (p + page_offset) % 2 ^ 32

-- `memset(p, 0, PAGE_SIZE)` on words.
unfoldable pub clear_page : ℕ → (ℕ → ℕ) → ℕ → ℕ
clear_page p mem a = if leb p a && ltb a (p + page_size) then 0 else mem a

-- The physical address of the page table that a word of the page directory names.
unfoldable pub table_of : ℕ → ℕ
table_of entry = bit_and entry page_mask

unfoldable pub table : ℕ → (ℕ → ℕ) → ℕ → ℕ
table pgd mem i = table_of (mem (word_at pgd i))

unfoldable pub page_entry : ℕ → ℕ → ℕ
page_entry pa flags = bit_or (bit_and pa page_mask) flags

unfoldable pub map : ℕ → ℕ → ℕ → ℕ → Vm → Result Vm
map pgd va pa flags vm =
    let pte = table pgd vm.mem (pgd_index va) in
    if pte == 0
    then (alloc_page vm.pages >>= λ (page, pages).
        let linked =
          update vm.mem (word_at pgd (pgd_index va))
            (bit_or (bit_or page page_present) page_write) in
        let cleared = clear_page (to_virtual page) linked in
        ok (record {
          pages = pages;
          mem = update cleared (word_at (to_virtual page) (pte_index va)) (page_entry pa flags);
        }))
    else ok (record vm {
      mem = update vm.mem (word_at (to_virtual pte) (pte_index va)) (page_entry pa flags);
    })

unfoldable pub unmap : ℕ → ℕ → Vm → Vm
unmap pgd va vm =
    let pte = table pgd vm.mem (pgd_index va) in
    if pte == 0
    then vm
    else record vm { mem = update vm.mem (word_at (to_virtual pte) (pte_index va)) 0 }

-- `out` is what `pa` points at, `none` when `pa` is NULL. The result is the return value and what
-- `pa` points at then.
unfoldable pub get_mapping : ℕ → ℕ → Option ℕ → Vm → ℕ × Option ℕ
get_mapping pgd va out vm =
    let pte = table pgd vm.mem (pgd_index va) in
    let entry = vm.mem (word_at (to_virtual pte) (pte_index va)) in
    if pte == 0 then (0, out) else elim out [
      | none ↦ (0, none)
      | some old ↦ if entry == 0 then (0, some old) else (1, some (bit_and entry page_mask))
    ]
