-- ===== src/Demos.antt =====
-- The programs that the kernel runs to show what it can, src/test.c: the calls of `showStart`,
-- `showMemu` and the threads in order, which are data here and are not run, the loop of
-- `testMalloc` over what `scanf` stores, and the threads that `testProcess` makes.
pub mod Trials
pub mod Process
pub mod Examples
use ocean_os.Base.{
  ℕ, zero, suc, ◌+◌, ◌*◌, Bool, true, false, not, none, some, List, [], ◌∷◌, ◌++◌, ltb, ◌==◌,
  if◌then◌else◌, length, get_elem?, set, Result, ok, fault, out_of_fuel, ◌>>=◌,
}
use ocean_os.Base.Text.{c_string}
use ocean_os.Faults.{Line, plain, rc_red}
use ocean_os.FileTable.{is_zero}
use ocean_os.Heap.{Heap, kmalloc, kfree}
use ocean_os.Interrupts.{rc_blue}
use ocean_os.Process.{Scheduler}
use ocean_os.Process.Create.{create_thread}
use ocean_os.Strings.{strcmp}

-- A call of `printf` or `printf_color`, of `monitor_clear` and of `sleep`.
pub data Call : Type 0 where
  says : Line → Call
  clears : Call
  sleeps : ℕ → Call

unfoldable pub show_memu : List Call
show_memu =
    clears
    ∷ says (plain (c_string "f1 ----------- test memory\n") [])
    ∷ says (plain (c_string "f2 ----------- test process\n") [])
    ∷ []

-- `for (j = 0;j <= i;j++)`, with as many rounds as are left.
unfoldable pub bars : ℕ → List Call → List Call
bars zero rest = rest
bars (suc n) rest = says (plain (c_string "==") []) ∷ bars n rest

-- The rounds from `i` on.
unfoldable pub welcomes : ℕ → ℕ → List Call → List Call
welcomes zero i rest = rest
welcomes (suc n) i rest =
    says (plain (c_string "===============Welcome to OceanOS===============\n") [])
    ∷ says (plain (c_string "    Init system\n") [])
    ∷ bars (i + 1) (sleeps 20 ∷ clears ∷ welcomes n (i + 1) rest)

unfoldable pub show_start : List Call
show_start = clears ∷ welcomes 30 0 show_memu

abbrev pub rc_green : ℕ
rc_green = 2

-- `while (k++ < 15)`, with as many rounds as are left, in the colour and with the format of a
-- thread.
unfoldable pub proc_lines : ℕ → List ℕ → ℕ → ℕ → ℕ → List Call
proc_lines colour format str zero k = []
proc_lines colour format str (suc n) k =
    says (record { back = colour; fore = colour; format = format; args = str ∷ (k + 1) ∷ [] })
    ∷ sleeps 2
    ∷ proc_lines colour format str n (k + 1)

unfoldable pub test_a : ℕ → List Call
test_a str = proc_lines rc_red (c_string " * proc A : %s  %d* \n") str 15 0

unfoldable pub test_b : ℕ → List Call
test_b str = proc_lines rc_green (c_string " * proc B : %s  %d* \n") str 15 0

unfoldable pub test_c : ℕ → List Call
test_c str = proc_lines rc_blue (c_string " * proc C : %s  %d* \n") str 15 0

-- The variables of `testMalloc` and the heap. What `item` holds before is not set.
pub record Trial : Type 0 where
  pub heap : Heap
  pub item : List ℕ
  pub p : ℕ

-- `item[p] = kmalloc(size)` and what follows.
unfoldable pub take_item : ℕ → ℕ → ℕ → Trial → Result (Trial × List Line)
take_item fuel pgd size t = kmalloc fuel pgd size t.heap >>= λ (at, heap).
    if ltb t.p (length t.item)
    then ok (
      record { heap = heap; item = set t.item t.p at; p = t.p + 1 },
      plain (c_string "please input size : ") []
          ∷ plain (c_string "the %d memory start from 0x%X\n\n") (size ∷ at ∷ [])
          ∷ [],
    )
    else fault

-- `page` is the variable of `_free_memory` that is not set.
unfoldable pub free_item : ℕ → (ℕ → ℕ) → ℕ → Trial → Result (Trial × List Line)
free_item pgd page id t =
    let prompt = plain (c_string "please input free item : ") [] in
    elim (get_elem? t.item id) [
      | none ↦ fault
      | some at ↦
          if at == 0
          then ok (t, prompt ∷ [])
          else (kfree pgd page at t.heap >>= λ heap. ok (
            record t { heap = heap },
            prompt ∷ plain (c_string "the memory free at 0x%X\n\n") (at ∷ []) ∷ [],
          ))
    ]

-- What `scanf` stores in a round: the word, and `size` or `id` when it is asked for.
pub record Answer : Type 0 where
  pub code : List ℕ
  pub number : ℕ
  pub page : ℕ → ℕ

-- A round of the loop: the variables, `flag`, and what is printed between the calls of `scanf`.
unfoldable pub malloc_round : ℕ → ℕ → Answer → Trial → Result (Trial × Bool × List Line)
malloc_round fuel pgd a t = strcmp a.code (c_string "malloc") >>= λ malloc.
    (if is_zero malloc then take_item fuel pgd a.number t else ok (t, [])) >>= λ (t', taken).
    strcmp a.code (c_string "free") >>= λ free.
    (if is_zero free then free_item pgd a.page a.number t' else ok (t', [])) >>= λ (t'', freed).
    strcmp a.code (c_string "exit") >>= λ exit.
    ok (t'', not (is_zero exit), plain (c_string " your code: ") [] ∷ taken ++ freed)

-- `while (flag)` with the answers of the user, who does not end when they do.
unfoldable pub malloc_loop : ℕ → ℕ → List Answer → Trial → Result (Trial × List Line)
malloc_loop fuel pgd [] t = out_of_fuel
malloc_loop fuel pgd (a ∷ answers) t = malloc_round fuel pgd a t >>= λ (t', flag, said). elim flag [
  | true ↦ malloc_loop fuel pgd answers t' >>= λ (t'', more). ok (t'', said ++ more)
  | false ↦ ok (t', said)
]

-- `testMalloc` between its two calls of `monitor_clear`.
unfoldable pub test_malloc : ℕ → ℕ → List Answer → Trial → Result (Trial × List Line)
test_malloc fuel pgd answers t = malloc_loop fuel pgd answers t >>= λ (t', said).
    ok (t', plain (c_string "Memory malloc and free test\n") [] ∷ said)

-- The entry points of the three threads and the addresses of their strings, which are in the frame
-- of `testProcess`.
pub record Programs : Type 0 where
  pub entry_a : ℕ
  pub entry_b : ℕ
  pub entry_c : ℕ
  pub str_a : ℕ
  pub str_b : ℕ
  pub str_c : ℕ

-- The three calls of `init_thread` with which `testProcess` ends.
unfoldable pub start_threads :
    ℕ → ℕ → ℕ → ℕ → Programs → Heap → Scheduler → Result (Scheduler × Heap)
start_threads heap_fuel fuel pgd thread_exit d h s =
    create_thread heap_fuel fuel pgd d.entry_a d.str_a thread_exit h s >>= λ (pid, pushed, s', h').
    create_thread heap_fuel fuel pgd d.entry_b d.str_b thread_exit h' s'
    >>= λ (pid', pushed', s'', h'').
        create_thread heap_fuel fuel pgd d.entry_c d.str_c thread_exit h'' s''
        >>= λ (pid'', pushed'', s₃, h₃). ok (s₃, h₃)
