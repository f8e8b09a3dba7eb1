-- ===== src/Process/Ring.antt =====
-- The threads form a ring, and the scheduler goes round it.
use ocean_os.Base.{
  ℕ, zero, suc, ◌+◌, ◌-◌, ◌%◌, ◌^◌, ◌<◌, ◌≡◌, refl, sym, ap, ◌≢◌, inl, inr, false, none, some, List,
  [], ◌∷◌, ◌++◌, arith, ◌==◌, if◌then◌else◌, ==_iff, Bool-cases, All, length, get_elem?, get_or, ok,
}
use ocean_os.Process.{
  Scheduler, store, init_proc_schedule, change_proc, schedule, new_thread, init_thread,
}
use ocean_os.Process.Links.{
  Linked, Distinct, last_of, All-last_of, find_last-last_of, Linked-append, Linked-kept, All-append,
  Distinct-append, Distinct-head, get_elem?-append, next-Linked, All-get_elem?, past_second,
}

-- The threads are `run_head` and `ps` in the order of their links, none stands at the null pointer
-- or twice, and one of them is the current one.
pub record IsRing (s : Scheduler) (ps : List ℕ) : Type 0 where
  pub links : Linked s.procs s.run_head s.run_head ps
  pub distinct : Distinct s.run_head ps
  pub nonzero : All (λ x. x ≢ 0) (s.run_head ∷ ps)
  pub turn : ℕ
  pub current : get_elem? (s.run_head ∷ ps) turn ≡ some s.cur_proc

-- `init_proc_schedule` makes the first thread, alone in the ring and current.
pub init_proc_schedule-IsRing :
    (kern_stack_top : ℕ) (s : Scheduler)
    → kern_stack_top < 2 ^ 32
    → 8192 < kern_stack_top
    → IsRing (init_proc_schedule kern_stack_top s) []
      × ((init_proc_schedule kern_stack_top s).cur_proc ≡ kern_stack_top - 8192)
unfolding init_proc_schedule
init_proc_schedule-IsRing kern_stack_top s word high =
    let cur = (kern_stack_top + 2 ^ 32 - 8192) % 2 ^ 32 in
    (
      record {
        links = ground arith;
        distinct = tt;
        nonzero = (omega arith, tt);
        turn = 0;
        current = refl;
      },
      omega arith,
    )

-- With a ring of threads and a block for the new one that no thread has, `init_thread` returns when
-- its search may take as many rounds as there are threads. The new thread is then the last of the
-- ring, which has the others in their order, and the current thread goes on. The pid is the next
-- free one, and the three words on the new stack end where its stack pointer is.
pub init_thread-IsRing :
    (fuel fn arg thread_exit new_proc : ℕ) (s : Scheduler) (ps : List ℕ)
    → IsRing s ps
    → new_proc ≢ 0
    → All (λ x. x ≢ new_proc) (s.run_head ∷ ps)
    → length ps < fuel
    → (pushed : List (ℕ × ℕ)) × (s' : Scheduler) × (init_thread fuel fn arg thread_exit new_proc s
        ≡ ok (s.cur_pid, pushed, s'))
      × IsRing s' (ps ++ new_proc ∷ [])
      × (s'.cur_proc ≡ s.cur_proc)
      × (s'.run_head ≡ s.run_head)
      × ((s'.procs new_proc).pid ≡ s.cur_pid)
      × (get_elem? pushed 2 ≡ some ((s'.procs new_proc).context.esp, fn))
unfolding init_thread new_thread
init_thread-IsRing fuel fn arg thread_exit new_proc s ps ring nonnull fresh enough =
    let head = s.run_head in
    let procs = store s.procs new_proc (new_thread new_proc s) in
    let last = last_of head ps in
    let procs' = store procs last (record (procs last) { next = new_proc }) in
    let old : (x : ℕ) → x ≢ new_proc → (procs x).next ≡ (s.procs x).next =
      λ x other. ground arith in
    let links = Linked-kept s.procs procs head new_proc head ps ring.links fresh old in
    let found =
      find_last-last_of fuel head head procs ps links (Distinct-head head ps ring.distinct)
        ring.nonzero enough in
    let apart : last ≢ new_proc = All-last_of (λ x. x ≢ new_proc) head ps fresh in
    let to_new : (procs' last).next ≡ new_proc = ground arith in
    let at_new : procs' new_proc ≡ new_thread new_proc s = ground arith in
    let kept : (x : ℕ) → x ≢ last → x ≢ new_proc → (procs' x).next ≡ (procs x).next =
      λ x a b. ground arith in
    let top = new_proc + 8192 in
    (
      ((top - 4) % 2 ^ 32, arg)
          ∷ ((top - 8) % 2 ^ 32, thread_exit)
          ∷ ((top - 12) % 2 ^ 32, fn)
          ∷ [],
      record s { procs = procs'; cur_pid = (s.cur_pid + 1) % 2 ^ 32 },
      rw found refl,
      record {
        links =
            Linked-append procs procs' head new_proc head ps links ring.distinct fresh to_new
              (ap (λ p. p.next) at_new) kept;
        distinct = Distinct-append head new_proc ps ring.distinct fresh;
        nonzero = All-append (λ x. x ≢ 0) (head ∷ ps) new_proc ring.nonzero nonnull;
        turn = ring.turn;
        current = get_elem?-append (head ∷ ps) ring.turn s.cur_proc new_proc ring.current;
      },
      refl,
      refl,
      ap (λ p. p.pid) at_new,
      ap (λ p. some (p.context.esp, fn)) (sym at_new),
    )

-- `schedule` on a ring keeps the ring and goes from the thread at index `i` to the next one, and
-- behind the last to the first. It switches exactly when that is another thread, from the old
-- current thread to the new one.
pub schedule-IsRing :
    (s : Scheduler) (ps : List ℕ)
    → (ring : IsRing s ps)
    → let s' = (schedule s).0 in
      let chosen = get_or ps ring.turn s.run_head in
      IsRing s' ps
      × (s'.cur_proc ≡ chosen)
      × ((schedule s).1 ≡ (if s.cur_proc == chosen then none else some (s.cur_proc, chosen)))
unfolding schedule change_proc
schedule-IsRing s ps ring =
    let chosen = get_or ps ring.turn s.run_head in
    let next : (s.procs s.cur_proc).next ≡ chosen =
      next-Linked s.procs s.run_head s.run_head ps ring.turn s.cur_proc ring.links ring.current in
    let running : (s.cur_proc == 0) ≡ false = ground (
      arith,
      All-get_elem? (λ x. x ≢ 0) (s.run_head ∷ ps) ring.turn s.cur_proc ring.nonzero ring.current,
    ) in
    let (turn', at) = index_of ps ring.turn s.run_head in
    elim (Bool-cases (s.cur_proc == chosen)) [
      | inl same ↦ rw (running, next, same) (ring, (==_iff s.cur_proc chosen).0 same, refl)
      | inr other ↦
          rw (running, next, other)
            (
              record {
                links = ring.links;
                distinct = ring.distinct;
                nonzero = ring.nonzero;
                turn = turn';
                current = at;
              },
              refl,
              refl,
            )
    ]
  where
    index_of : (qs : List ℕ) (i h : ℕ) → (j : ℕ) × (get_elem? (h ∷ qs) j ≡ some (get_or qs i h))
    index_of [] i h = (0, refl)
    index_of (q ∷ qs) zero h = (1, refl)
    index_of (q ∷ qs) (suc i) h =
        let (j, at) = index_of qs i h in past_second q qs h (get_or qs i h) j at
