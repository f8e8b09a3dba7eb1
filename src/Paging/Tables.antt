-- ===== src/Paging/Tables.antt =====
-- Well-formed page tables, and the word that translates an address.
use ocean_os.Base.{
  ℕ, ◌+◌, ◌*◌, ◌/◌, ◌%◌, ◌^◌, ◌≤◌, ◌<◌, bit_or, ◌≡◌, ap, ◌∙◌, ◌≢◌, arith, ◌==◌, if◌then◌else◌,
}
use ocean_os.Base.Bits.{bit_and-page, bit_or-page, bit_or-three}
use ocean_os.Pages.{page_max_size, page_size}
use ocean_os.Paging.{Vm, page_offset, word_at, to_virtual, table_of, table, page_entry}

-- The address of a physical page that is not page 0 and that the kernel sees, apart from the page
-- directory at `pgd`.
pub record IsFrame (pgd p : ℕ) : Type 0 where
  pub aligned : p % page_size ≡ 0
  pub ne_zero : p ≢ 0
  pub low : p < 0x40000000
  pub apart : p + page_offset ≢ pgd

-- The directory and the tables are whole pages, no page serves twice, and no free page is in use.
pub record IsWf (pgd : ℕ) (vm : Vm) : Type 0 where
  pub dir_aligned : pgd % page_size ≡ 0
  pub dir_end : pgd + page_size ≤ 2 ^ 32
  pub words : (a : ℕ) → vm.mem a < 2 ^ 32
  pub frames : (i : ℕ) → i < 1024 → table pgd vm.mem i ≢ 0 → IsFrame pgd (table pgd vm.mem i)
  pub unshared :
      (i j : ℕ)
      → i < 1024
      → j < 1024
      → i ≢ j
      → table pgd vm.mem i ≢ 0
      → table pgd vm.mem i ≢ table pgd vm.mem j
  pub top_le : vm.pages.top ≤ page_max_size
  pub free : (k : ℕ) → 0 < k → k ≤ vm.pages.top → IsFrame pgd (vm.pages.slots k)
  pub free_unused :
      (k i : ℕ) → 0 < k → k ≤ vm.pages.top → i < 1024 → vm.pages.slots k ≢ table pgd vm.mem i
  pub free_once : (k l : ℕ) → 0 < k → k < l → l ≤ vm.pages.top → vm.pages.slots k ≢ vm.pages.slots l

-- The word that translates the `t`-th page of the `d`-th table, 0 when there is none.
unfoldable pub entry_at : ℕ → (ℕ → ℕ) → ℕ → ℕ → ℕ
entry_at pgd mem d t =
    let pte = table pgd mem d in if pte == 0 then 0 else mem (word_at (to_virtual pte) t)

pub word_at_lem :
    (base i : ℕ) → base + page_size ≤ 2 ^ 32 → i < 1024 → word_at base i ≡ base + 4 * i
unfolding word_at
word_at_lem base i h lt = omega arith

pub to_virtual_lem : (p : ℕ) → p < 0x40000000 → to_virtual p ≡ p + page_offset
unfolding to_virtual
to_virtual_lem p h = omega arith

pub table_of_lem : (e : ℕ) → e < 2 ^ 32 → table_of e ≡ 4096 * (e / 4096)
unfolding table_of
table_of_lem e h = bit_and-page e h

-- The word of the directory that names a page names no other.
pub table_of-linked :
    (p : ℕ) → p % page_size ≡ 0 → p < 0x40000000 → table_of (bit_or (bit_or p 1) 2) ≡ p
table_of-linked p aligned low =
    rw (bit_or-three p (omega arith)) (omega (arith, table_of_lem (p + 3) (omega arith)))

pub page_entry_lem :
    (pa flags : ℕ)
    → pa < 2 ^ 32
    → flags < page_size
    → page_entry pa flags ≡ 4096 * (pa / 4096) + flags
unfolding page_entry
page_entry_lem pa flags h small =
    ap (λ t. bit_or t flags) (bit_and-page pa h) ∙ bit_or-page (pa / 4096) flags small
