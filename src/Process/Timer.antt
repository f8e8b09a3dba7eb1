-- ===== src/Process/Timer.antt =====
-- The timer's interrupt gives every thread its turn: `timer_callback` of src/trap.c.
use native.Mathlib.Decide.{dec_lt}
use ocean_os.Base.{
  ℕ, zero, suc, ◌+◌, ◌-◌, ◌%◌, ◌^◌, ◌≤◌, ◌<◌, ◌≡◌, refl, sym, ap, ◌∙◌, Option, some, List, [], ◌∷◌,
  arith, length, get_elem?, get_or, get_elem?_lt, lt_of_some,
}
use ocean_os.Trap.{Trap}
use ocean_os.Process.{Scheduler, change_proc, schedule}
use ocean_os.Process.Links.{some_value}
use ocean_os.Process.Ring.{IsRing, schedule-IsRing}

-- The register that the handler gets is not read. The threads are those that `switch_to` gets.
unfoldable pub timer_callback {ℓ} :
    {Handler : Type ℓ} → Trap Handler → Scheduler → Trap Handler × Scheduler × Option (ℕ × ℕ)
timer_callback t s =
    let (s', switched) = schedule s in (record t { ticks = (t.ticks + 1) % 2 ^ 32 }, s', switched)

pub run_head-schedule : (s : Scheduler) → (schedule s).0.run_head ≡ s.run_head
unfolding schedule change_proc
run_head-schedule s = ground arith

get_or-tail : (h : ℕ) (ps : List ℕ) (i x : ℕ) → get_elem? ps i ≡ some x → get_or ps i h ≡ x
get_or-tail h [] i x e = cc
get_or-tail h (p ∷ ps) zero x e = some_value p x e
get_or-tail h (p ∷ ps) (suc i) x e = get_or-tail h ps i x e

get_or-end : (h : ℕ) (ps : List ℕ) → get_or ps (length ps) h ≡ h
get_or-end h [] = refl
get_or-end h (p ∷ ps) = get_or-end h ps

-- One turn, from the thread at index `i`.
turn_from :
    (s : Scheduler) (ps : List ℕ) (i : ℕ)
    → IsRing s ps
    → get_elem? (s.run_head ∷ ps) i ≡ some s.cur_proc
    → IsRing (schedule s).0 ps × ((schedule s).0.cur_proc ≡ get_or ps i s.run_head)
turn_from s ps i ring here =
    let at : IsRing s ps = record {
      links = ring.links;
      distinct = ring.distinct;
      nonzero = ring.nonzero;
      turn = i;
      current = here;
    } in
    let (ring', chosen, _) = schedule-IsRing s ps at in (ring', chosen)

module _ {ℓ} {Handler : Type ℓ} where
  -- The state after some interrupts of the timer.
  unfoldable pub after_ticks : ℕ → Trap Handler → Scheduler → Trap Handler × Scheduler
  after_ticks zero t s = (t, s)
  after_ticks (suc n) t s = let (t', s', _) = timer_callback t s in after_ticks n t' s'

  ticks-after_ticks :
      (n : ℕ) (t : Trap Handler) (s : Scheduler)
      → t.ticks < 2 ^ 32
      → (after_ticks n t s).0.ticks ≡ (t.ticks + n) % 2 ^ 32
  unfolding after_ticks timer_callback
  ticks-after_ticks zero t s small = omega arith
  ticks-after_ticks (suc n) t s small = omega (
    arith,
    ticks-after_ticks n (record t { ticks = (t.ticks + 1) % 2 ^ 32 }) (schedule s).0 (omega arith),
  )

  -- From index `i` on, until the end of the list.
  advance :
      (n i x : ℕ) (t : Trap Handler) (s : Scheduler) (ps : List ℕ)
      → IsRing s ps
      → get_elem? (s.run_head ∷ ps) i ≡ some s.cur_proc
      → get_elem? (s.run_head ∷ ps) (n + i) ≡ some x
      → ((after_ticks n t s).1.cur_proc ≡ x)
        × ((after_ticks n t s).1.run_head ≡ s.run_head)
        × IsRing (after_ticks n t s).1 ps
  unfolding after_ticks timer_callback
  advance zero i x t s ps ring here there =
      let same : 0 + i ≡ i = omega arith in
      (some_value s.cur_proc x (sym here ∙ rw same at there), refl, ring)
  advance (suc n) i x t s ps ring here there =
      let shift : suc n + i ≡ suc (n + i) = omega arith in
      let later : get_elem? ps (n + i) ≡ some x = rw shift at there in
      let (y, next) = get_elem?_lt ps i (omega (arith, lt_of_some ps (n + i) x later)) in
      let (ring', chosen) = turn_from s ps i ring here in
      let head = run_head-schedule s in
      let here' : get_elem? ((schedule s).0.run_head ∷ ps) (suc i) ≡ some (schedule s).0.cur_proc =
        next ∙ ap some (sym (chosen ∙ get_or-tail s.run_head ps i y next)) in
      let shift' : n + suc i ≡ suc (n + i) = omega arith in
      let there' : get_elem? ((schedule s).0.run_head ∷ ps) (n + suc i) ≡ some x =
        rw shift' later in
      let (now, same, ring'') =
        advance n (suc i) x (record t { ticks = (t.ticks + 1) % 2 ^ 32 }) (schedule s).0 ps ring'
          here' there' in
      (now, same ∙ head, ring'')

  after_ticks-add :
      (m n : ℕ) (t : Trap Handler) (s : Scheduler)
      → after_ticks (m + n) t s ≡ after_ticks n (after_ticks m t s).0 (after_ticks m t s).1
  unfolding after_ticks
  after_ticks-add zero n t s = let same : 0 + n ≡ n = omega arith in rw same refl
  after_ticks-add (suc m) n t s =
      let shift : suc m + n ≡ suc (m + n) = omega arith in
      rw shift (after_ticks-add m n (timer_callback t s).0 (timer_callback t s).1)

  -- From the end of the list back to its start, and on.
  wrap :
      (n i x : ℕ) (t : Trap Handler) (s : Scheduler) (ps : List ℕ)
      → IsRing s ps
      → get_elem? (s.run_head ∷ ps) i ≡ some s.cur_proc
      → get_elem? (s.run_head ∷ ps) n ≡ some x
      → ((after_ticks ((length ps - i) + suc n) t s).1.cur_proc ≡ x)
        × IsRing (after_ticks ((length ps - i) + suc n) t s).1 ps
  unfolding after_ticks timer_callback
  wrap n i x t s ps ring here there =
      let m = length ps - i in
      let (t', s') = after_ticks m t s in
      let inside = lt_of_some (s.run_head ∷ ps) i s.cur_proc here in
      let reach : m + i ≡ length ps = omega arith in
      let (y, last) = get_elem?_lt (s.run_head ∷ ps) (length ps) (omega arith) in
      let (at_y, head, ring') = advance m i y t s ps ring here (rw reach last) in
      let at_end : get_elem? (s'.run_head ∷ ps) (length ps) ≡ some s'.cur_proc =
        rw (head, at_y) last in
      let (ring'', chosen) = turn_from s' ps (length ps) ring' at_end in
      let first : (schedule s').0.cur_proc ≡ (schedule s').0.run_head =
        chosen ∙ get_or-end s'.run_head ps ∙ sym (run_head-schedule s') in
      let same_head : (schedule s').0.run_head ≡ s.run_head = run_head-schedule s' ∙ head in
      let zero_more : n + 0 ≡ n = omega arith in
      let (now, _, ring3) =
        advance n 0 x (record t' { ticks = (t'.ticks + 1) % 2 ^ 32 }) (schedule s').0 ps ring''
          (ap some (sym first)) (rw (zero_more, same_head) there) in
      rw (after_ticks-add m (suc n) t s) (now, ring3)

-- The timer's interrupts give every thread of a ring its turn: the thread at index `j` runs after
-- as many interrupts as there are threads at most, the ring stays, and the ticks are counted.
pub after_ticks-runs {ℓ} :
    {Handler : Type ℓ} (t : Trap Handler) (s : Scheduler) (ps : List ℕ) (j p : ℕ)
    → IsRing s ps
    → t.ticks < 2 ^ 32
    → get_elem? (s.run_head ∷ ps) j ≡ some p
    → (n : ℕ) × (n ≤ length ps)
      × ((after_ticks n t s).1.cur_proc ≡ p)
      × IsRing (after_ticks n t s).1 ps
      × ((after_ticks n t s).0.ticks ≡ (t.ticks + n) % 2 ^ 32)
after_ticks-runs t s ps j p ring small at =
    let i = ring.turn in
    let inside = lt_of_some (s.run_head ∷ ps) i s.cur_proc ring.current in
    let target = lt_of_some (s.run_head ∷ ps) j p at in
    elim (dec_lt j i) [
      | no ahead ↦
          let reach : (j - i) + i ≡ j = omega arith in
          let (now, _, ring') = advance (j - i) i p t s ps ring ring.current (rw reach at) in
          (j - i, omega arith, now, ring', ticks-after_ticks (j - i) t s small)
      | yes behind ↦
          let n = (length ps - i) + suc j in
          let (now, ring') = wrap j i p t s ps ring ring.current at in
          (n, omega arith, now, ring', ticks-after_ticks n t s small)
    ]
