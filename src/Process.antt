-- ===== src/Process.antt =====
-- The threads of the kernel, src/process.c with include/process.h. Threads stand in memory at their
-- addresses, and 0 is the null pointer. `switch_to` of src/proc_s.s is recorded by the two threads
-- whose contexts it exchanges. The heap is not modelled: `init_thread` takes the address of the
-- block that kmalloc returns, and the writes to the block behind the record are a list.
pub mod Links
pub mod Ring
pub mod Timer
pub mod Create
pub mod Examples
use ocean_os.Base.{
  ℕ, zero, suc, ◌+◌, ◌-◌, ◌%◌, ◌^◌, Option, none, some, List, [], ◌∷◌, ◌==◌, if◌then◌else◌, Result,
  ok, fault, out_of_fuel, ◌>>=◌,
}

pub data ProcessState : Type 0 where
  uninit sleeping runnable zombie : ProcessState

pub record Context : Type 0 where
  pub esp : ℕ
  pub ebp : ℕ
  pub ebx : ℕ
  pub esi : ℕ
  pub edi : ℕ
  pub eflags : ℕ

pub record Process : Type 0 where
  pub state : ProcessState
  pub pid : ℕ
  pub stack : ℕ
  pub memory : ℕ
  pub context : Context
  pub next : ℕ

-- `procs` is the memory, by addresses.
pub record Scheduler : Type 0 where
  pub procs : ℕ → Process
  pub cur_pid : ℕ
  pub run_head : ℕ
  pub cur_proc : ℕ

abbrev pub stack_size : ℕ
stack_size = 8192

abbrev pub store : (ℕ → Process) → ℕ → Process → ℕ → Process
store procs a p b = if b == a then p else procs b

unfoldable pub init_proc_schedule : ℕ → Scheduler → Scheduler
init_proc_schedule kern_stack_top s =
    let cur = (kern_stack_top + 2 ^ 32 - stack_size) % 2 ^ 32 in
    record {
      procs = store s.procs cur (record (s.procs cur) {
        state = runnable;
        pid = s.cur_pid;
        stack = cur;
        memory = 0;
        next = cur;
      });
      cur_pid = (s.cur_pid + 1) % 2 ^ 32;
      run_head = cur;
      cur_proc = cur;
    }

-- The scheduler after the call, and the threads that `switch_to` gets.
unfoldable pub change_proc : ℕ → Scheduler → Scheduler × Option (ℕ × ℕ)
change_proc proc s =
    if s.cur_proc == proc
    then (s, none)
    else (record s { cur_proc = proc }, some (s.cur_proc, proc))

unfoldable pub schedule : Scheduler → Scheduler × Option (ℕ × ℕ)
unfolding change_proc
schedule s = if s.cur_proc == 0 then (s, none) else change_proc (s.procs s.cur_proc).next s

-- `while (proc->next != run_head) proc = proc->next;` A null pointer faults.
unfoldable pub find_last : ℕ → ℕ → ℕ → (ℕ → Process) → Result ℕ
find_last zero head proc procs = out_of_fuel
find_last (suc fuel) head proc procs =
    let rest = find_last fuel head (procs proc).next procs in
    if proc == 0 then fault else if (procs proc).next == head then ok proc else rest

-- The record of a new thread, after the `memset`.
unfoldable pub new_thread : ℕ → Scheduler → Process
new_thread new_proc s = record {
  state = runnable;
  pid = s.cur_pid;
  stack = s.cur_proc;
  memory = 0;
  context = record {
    esp = (new_proc + stack_size - 12) % 2 ^ 32;
    ebp = 0;
    ebx = 0;
    esi = 0;
    edi = 0;
    eflags = 0x200;
  };
  next = s.run_head;
}

-- The result is the new thread's pid, the words that are pushed on its stack with their addresses,
-- and the scheduler. `thread_exit` is the address of that function.
unfoldable pub init_thread : ℕ → ℕ → ℕ → ℕ → ℕ → Scheduler → Result (ℕ × List (ℕ × ℕ) × Scheduler)
init_thread fuel fn arg thread_exit new_proc s =
    let procs = store s.procs new_proc (new_thread new_proc s) in
    let top = new_proc + stack_size in
    find_last fuel s.run_head s.run_head procs >>= λ last. ok (
      s.cur_pid,
      ((top - 4) % 2 ^ 32, arg)
          ∷ ((top - 8) % 2 ^ 32, thread_exit)
          ∷ ((top - 12) % 2 ^ 32, fn)
          ∷ [],
      record s {
        procs = store procs last (record (procs last) { next = new_proc });
        cur_pid = (s.cur_pid + 1) % 2 ^ 32;
      },
    )
