-- ===== src/Paging/Examples.antt =====
-- Runs of the page tables.
use native.Mathlib.Decide.{ℕ_discrete}
use ocean_os.Base.{
  ℕ, ◌+◌, ◌*◌, ◌%◌, ◌^◌, ◌<◌, ◌≡◌, refl, ap, ◌⊎◌, none, some, arith, ◌==◌, if◌then◌else◌, replicate,
  out_of_memory, ok, panic,
}
use ocean_os.Trap.{Trap, empty_gate}
use ocean_os.Paging.{Vm, pgd_index, word_at, table, table_of, map, unmap, get_mapping}
use ocean_os.Paging.Tables.{IsWf}
use ocean_os.Paging.Laws.{same_page, get_mapping-map, get_mapping-unmap}

abbrev pub directory : ℕ
directory = 0xC0400000

-- An empty directory and two free pages.
abbrev pub empty_vm : Vm
empty_vm = record { pages = record { slots = λ i. 0x200000 + 0x1000 * i; top = 2 }; mem = λ a. 0 }

no_table : (i : ℕ) → table directory (λ a. 0) i ≡ 0
unfolding table table_of
no_table i = refl

pub empty_vm-IsWf : IsWf directory empty_vm
empty_vm-IsWf = record {
  dir_aligned = refl;
  dir_end = omega arith;
  words = λ a. omega arith;
  frames = λ i h there. absurd (there (no_table i));
  unshared = λ i j h k ne there. absurd (there (no_table i));
  top_le = omega arith;
  free = λ k low high. record {
    aligned = omega arith;
    ne_zero = omega arith;
    low = omega arith;
    apart = omega arith;
  };
  free_unused = λ k i low high h e. omega (arith, e, no_table i);
  free_once = λ k l low lt high. omega arith;
}

get_mapping-map_example :
    ((vm' : Vm) × (map directory 0xE0000000 0x7000 3 empty_vm ≡ ok vm')
      × IsWf directory vm'
      × ((va' old : ℕ)
          → va' < 2 ^ 32
          → get_mapping directory va' (some old) vm' ≡ (
              if same_page 0xE0000000 va'
              then (1, some 0x7000)
              else get_mapping directory va' (some old) empty_vm)))
    ⊎ ((table directory (λ a. 0) (pgd_index 0xE0000000) ≡ 0)
        × (empty_vm.pages.top ≡ 0)
        × (map directory 0xE0000000 0x7000 3 empty_vm ≡ panic out_of_memory))
get_mapping-map_example =
    get_mapping-map directory 0xE0000000 empty_vm empty_vm-IsWf (omega arith) 0x7000 3 (omega arith)
      (omega arith) (omega arith)

-- One table, at 0x300000, with one page.
abbrev pub mapped_vm : Vm
mapped_vm = record {
  pages = record { slots = λ i. 0x200000 + 0x1000 * i; top = 2 };
  mem = λ a. if a == 0xC0400E00 then 0x300003 else if a == 0xC0300000 then 0x7003 else 0;
}

one_table :
    (i : ℕ) → i < 1024 → table directory mapped_vm.mem i ≡ (if i == 896 then 0x300000 else 0)
unfolding table table_of word_at
one_table i h = elim (ℕ_discrete i 896) [
  | yes here ↦ rw here refl
  | no other ↦
      let none : mapped_vm.mem ((directory + 4 * i) % 2 ^ 32) ≡ 0 = ground arith in
      rw (ap table_of none) (ground arith)
]

pub mapped_vm-IsWf : IsWf directory mapped_vm
mapped_vm-IsWf = record {
  dir_aligned = refl;
  dir_end = omega arith;
  words = λ a. ground arith;
  frames = λ i h there.
      let at : table directory mapped_vm.mem i ≡ 0x300000 = ground (arith, one_table i h) in
      rw at
        (record { aligned = refl; ne_zero = omega arith; low = omega arith; apart = omega arith });
  unshared = λ i j h k ne there e. ground (arith, one_table i h, one_table j k);
  top_le = omega arith;
  free = λ k low high. record {
    aligned = omega arith;
    ne_zero = omega arith;
    low = omega arith;
    apart = omega arith;
  };
  free_unused = λ k i low high h e. ground (arith, one_table i h);
  free_once = λ k l low lt high. omega arith;
}

get_mapping-unmap_example :
    IsWf directory (unmap directory 0xE0000000 mapped_vm)
    × ((va' old : ℕ)
        → va' < 2 ^ 32
        → get_mapping directory va' (some old) (unmap directory 0xE0000000 mapped_vm) ≡ (
            if same_page 0xE0000000 va'
            then (0, some old)
            else get_mapping directory va' (some old) mapped_vm))
get_mapping-unmap_example =
    get_mapping-unmap directory 0xE0000000 mapped_vm mapped_vm-IsWf (omega arith)

abbrev pub no_interrupts : Trap ℕ
no_interrupts = record {
  idts = λ i. empty_gate;
  idtr = record { limit = 0; base = 0 };
  handlers = replicate 256 none;
  ticks = 0;
}
