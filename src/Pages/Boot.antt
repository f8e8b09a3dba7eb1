-- ===== src/Pages/Boot.antt =====
-- What `init_page` leaves on the stack when the kernel boots.
use native.Mathlib.Decide.{ℕ_discrete}
use ocean_os.Base.{
  ℕ, zero, suc, ◌+◌, ◌-◌, ◌*◌, ◌/◌, ◌%◌, ◌^◌, ◌≤◌, ◌<◌, min, ◌≡◌, refl, ap, ◌∙◌, ◌≢◌, inl, inr,
  Bool, true, false, ◌&&◌, List, [], ◌∷◌, arith, ltb, leb, ◌==◌, length, Result, ok, bind-same,
}
use ocean_os.Pages.{
  PageStack, MemoryMap, page_max_size, page_size, memory_max_size, free_page, free_region,
  region_fuel, init_entry, init_entries, records_from, init_page,
}
use ocean_os.Pages.Stack.{stacked, free_pages, InBounds, free_page-cons, length-stacked}

-- `n` pages from `p` on, pushed in rising order.
unfoldable pub push_run : ℕ → ℕ → List ℕ → List ℕ
push_run zero p ps = ps
push_run (suc n) p ps = push_run n (p + page_size) (p ∷ ps)

-- How many pages from `p` on lie below `len` and at or below `memory_max_size`.
abbrev pub region_count : ℕ → ℕ → ℕ
region_count p len = (min len (memory_max_size + 1) + (page_size - 1) - p) / page_size

abbrev pub Frees : List ℕ → Result PageStack → Type 0
Frees ps r = (t : PageStack) × (r ≡ ok t) × (free_pages t ≡ ps) × InBounds t

-- A panic-free push.
free_page-room :
    (p : ℕ) (s : PageStack) → s.top < page_max_size → Frees (p ∷ free_pages s) (free_page p s)
free_page-room p s room = elim (free_page-cons p s (omega arith)) [
  | inl (_, pushed) ↦ pushed
  | inr (full, _) ↦ absurd (omega (arith, length-stacked s.slots s.top))
]

free_region-Frees :
    (fuel k p len : ℕ) (s : PageStack)
    → k ≡ region_count p len
    → k < fuel
    → s.top + k ≤ page_max_size
    → Frees (push_run k p (free_pages s)) (free_region fuel p len s)
unfolding free_region push_run
free_region-Frees zero k p len s count enough room = absurd (omega arith)
free_region-Frees (suc fuel) zero p len s count enough room = (s, ground arith, refl, omega arith)
free_region-Frees (suc fuel) (suc k) p len s count enough room =
    let (t, e, pages, inside) = free_page-room p s (omega arith) in
    let more : (ltb p len && leb p memory_max_size) ≡ true = ground arith in
    let grown : t.top ≡ s.top + 1 =
      omega (arith, length-stacked s.slots s.top, length-stacked t.slots t.top, ap length pages) in
    rw (more, e)
      (rw pages at
        (free_region-Frees fuel k (p + page_size) len t (omega arith) (omega arith) (omega arith)))

-- The test of an entry: usable memory that starts at one megabyte.
abbrev pub is_ram : MemoryMap → Bool
is_ram e = (e.type == 1) && (e.base_addr_low == 0x100000)

module _ (kernel_size : ℕ) (e : MemoryMap) (s : PageStack) where
  init_entry-skip : is_ram e ≡ false → init_entry kernel_size e s ≡ ok s
  unfolding init_entry
  init_entry-skip miss = rw miss

  init_entry-ram :
      is_ram e ≡ true
      → init_entry kernel_size e s
        ≡ free_region region_fuel
            ((e.base_addr_low + kernel_size) % 2 ^ 32)
            ((e.base_addr_low + e.length_low) % 2 ^ 32)
            s
  unfolding init_entry
  init_entry-ram hit = rw hit

module _ (kernel_size : ℕ) (memory : ℕ → MemoryMap) where
  init_entries-skip :
      (n i : ℕ) (s : PageStack)
      → ((j : ℕ) → i ≤ j → j < i + n → is_ram (memory j) ≡ false)
      → init_entries kernel_size (records_from memory i n) s ≡ ok s
  unfolding init_entries records_from
  init_entries-skip zero i s none_fit = refl
  init_entries-skip (suc n) i s none_fit =
      rw (init_entry-skip kernel_size (memory i) s (none_fit i (omega arith) (omega arith)))
        (init_entries-skip n (i + 1) s λ j low high. none_fit j (omega arith) (omega arith))

  init_entries-one :
      (n b i : ℕ) (s : PageStack)
      → b ≤ i
      → i < b + n
      → ((j : ℕ) → b ≤ j → j < b + n → j ≢ i → is_ram (memory j) ≡ false)
      → init_entries kernel_size (records_from memory b n) s ≡ init_entry kernel_size (memory i) s
  unfolding init_entries records_from
  init_entries-one zero b i s low high others = absurd (omega arith)
  init_entries-one (suc n) b i s low high others = elim (ℕ_discrete b i) [
    | yes here ↦ rw here (
        bind-same (init_entry kernel_size (memory i) s) _ λ t.
          init_entries-skip n (i + 1) t λ j l h. others j (omega arith) (omega arith) (omega arith))
    | no later ↦
        rw (init_entry-skip kernel_size (memory b) s (others b (omega arith) (omega arith) later)) (
          init_entries-one n (b + 1) i s (omega arith) (omega arith)
            λ j l h. others j (omega arith) (omega arith))
  ]

pub push_run-last :
    (n p : ℕ) (ps : List ℕ) → push_run (suc n) p ps ≡ (p + n * page_size) ∷ push_run n p ps
unfolding push_run
push_run-last zero p ps = ground arith
push_run-last (suc n) p ps = ground (arith, push_run-last n (p + page_size) (p ∷ ps))

-- The first page behind the kernel's image.
abbrev pub first_page : ℕ → MemoryMap → ℕ
first_page kernel_size e = (e.base_addr_low + kernel_size) % 2 ^ 32

abbrev pub ram_end : MemoryMap → ℕ
ram_end e = (e.base_addr_low + e.length_low) % 2 ^ 32

module _ (kernel_size : ℕ) (memory : ℕ → MemoryMap) (mmap_length i : ℕ) (s : PageStack)
    (empty : s.top ≡ 0) (visited : i < mmap_length) (ram : is_ram (memory i) ≡ true)
    (others : (j : ℕ) → j < mmap_length → j ≢ i → is_ram (memory j) ≡ false)
    (fits : kernel_size < 2 ^ 32 - 0x100000) where
  -- From an empty stack, when exactly one of the visited entries is usable memory from one
  -- megabyte on, `init_page` neither panics nor faults nor runs out of rounds. The free pages are
  -- then exactly the page addresses from the first one behind the kernel's image that lie below
  -- the end of that memory and at or below `memory_max_size`, and the highest comes first.
  pub init_page-Frees :
      Frees
        (push_run
          (region_count (first_page kernel_size (memory i)) (ram_end (memory i)))
          (first_page kernel_size (memory i))
          [])
        (init_page kernel_size memory mmap_length s)
  unfolding init_page stacked
  init_page-Frees =
      let base : (memory i).base_addr_low ≡ 0x100000 = ground arith in
      rw
        (
          init_entries-one kernel_size memory mmap_length 0 i s (omega arith) (omega arith)
              (λ j l h. others j (omega arith)),
          init_entry-ram kernel_size (memory i) s ram,
        )
        (rw none at (
          free_region-Frees region_fuel
            (region_count (first_page kernel_size (memory i)) (ram_end (memory i)))
            (first_page kernel_size (memory i)) (ram_end (memory i)) s refl (omega arith)
            (omega arith)))
    where
      none : free_pages s ≡ []
      none = rw empty

  -- When that memory reaches beyond `memory_max_size` and its pages are aligned, the page at
  -- `memory_max_size` itself is free too, and is the first one to be handed out.
  pub init_page-top :
      first_page kernel_size (memory i) % page_size ≡ 0
      → first_page kernel_size (memory i) ≤ memory_max_size
      → memory_max_size < ram_end (memory i)
      → (t : PageStack) × (ps : List ℕ) × (init_page kernel_size memory mmap_length s ≡ ok t)
        × (free_pages t ≡ memory_max_size ∷ ps)
  init_page-top aligned low high =
      let (t, e, pages, _) = init_page-Frees in
      let first = first_page kernel_size (memory i) in
      let n = (memory_max_size - first) / page_size in
      let count : region_count first (ram_end (memory i)) ≡ suc n = omega arith in
      let last : first + n * page_size ≡ memory_max_size = omega arith in
      (
        t,
        push_run n first [],
        e,
        pages
            ∙ ap (λ k. push_run k first []) count
            ∙ push_run-last n first []
            ∙ ap (λ a. a ∷ push_run n first []) last,
      )
