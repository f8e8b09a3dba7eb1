-- ===== src/Pages/Stack.antt =====
-- The page allocator refines a stack of page addresses.
use ocean_os.Base.{
  ℕ, zero, suc, ◌+◌, ◌≤◌, ◌<◌, ◌≡◌, refl, ap, ◌⊎◌, inl, inr, List, [], ◌∷◌, arith, ◌==◌, Bool-cases,
  length, out_of_memory, no_unused_memory, Result, ok, panic,
}
use ocean_os.Pages.{PageStack, page_max_size, alloc_page, free_page, update}

-- The abstract view: the free pages, the next one to be handed out first.
unfoldable pub stacked : (ℕ → ℕ) → ℕ → List ℕ
stacked slots zero = []
stacked slots (suc n) = slots (suc n) ∷ stacked slots n

abbrev pub free_pages : PageStack → List ℕ
free_pages s = stacked s.slots s.top

-- `_top` is an index of `_stack`.
abbrev pub InBounds : PageStack → Type 0
InBounds s = s.top ≤ page_max_size

pub stacked-update :
    (slots : ℕ → ℕ) (i v n : ℕ) → n < i → stacked (update slots i v) n ≡ stacked slots n
unfolding stacked
stacked-update slots i v zero h = refl
stacked-update slots i v (suc n) h = ground (arith, stacked-update slots i v n)

pub stacked-push :
    (slots : ℕ → ℕ) (n v : ℕ) → stacked (update slots (n + 1) v) (n + 1) ≡ v ∷ stacked slots n
unfolding stacked
stacked-push slots n v = ground (arith, stacked-update slots (n + 1) v n)

pub length-stacked : (slots : ℕ → ℕ) (n : ℕ) → length (stacked slots n) ≡ n
unfolding stacked
length-stacked slots zero = refl
length-stacked slots (suc n) = ap suc (length-stacked slots n)

-- What a stack of at most `page_max_size` pages answers to `pop`.
abbrev pub Pops : List ℕ → Result (ℕ × PageStack) → Type 0
Pops [] r = r ≡ panic out_of_memory
Pops (p ∷ ps) r = (t : PageStack) × (r ≡ ok (p, t)) × (free_pages t ≡ ps) × InBounds t

-- `alloc_page` of a stack in bounds hands out the page that was freed last and leaves the others,
-- and it panics exactly when no page is free; it never reads outside of the array.
pub alloc_page-Pops : (s : PageStack) → InBounds s → Pops (free_pages s) (alloc_page s)
unfolding alloc_page stacked
alloc_page-Pops s inside = go s.slots s.top inside
  where
    go :
        (slots : ℕ → ℕ) (n : ℕ)
        → n ≤ page_max_size
        → Pops (stacked slots n) (alloc_page (record { slots = slots; top = n }))
    go slots zero h = refl
    go slots (suc n) h = (record { slots = slots; top = n }, ground arith, refl, omega arith)

-- `free_page` puts the page on top of the free ones when the array has room, and panics when all
-- of its slots are taken; it never writes outside of the array.
pub free_page-cons :
    (p : ℕ) (s : PageStack)
    → InBounds s
    → ((length (free_pages s) < page_max_size)
        × ((t : PageStack) × (free_page p s ≡ ok t)
            × (free_pages t ≡ p ∷ free_pages s)
            × InBounds t))
      ⊎ ((length (free_pages s) ≡ page_max_size) × (free_page p s ≡ panic no_unused_memory))
unfolding free_page stacked
free_page-cons p s inside = elim (Bool-cases (s.top == page_max_size)) [
  | inl full ↦ inr (ground (arith, length-stacked s.slots s.top), ground arith)
  | inr room ↦ inl (
    ground (arith, length-stacked s.slots s.top),
    (
      record { slots = update s.slots (s.top + 1) p; top = s.top + 1 },
      ground arith,
      stacked-push s.slots s.top p,
      ground arith,
    ),
  )
]
