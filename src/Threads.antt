-- ===== src/Threads.antt =====
-- code/threads/thread.h, thread.cc, scheduler.h and scheduler.cc: threads, the ready list, and the
-- switch from one thread to the next. A thread is a number, its address; the ready list, a list of
-- code/threads/list.cc, is the sequence that it stands for. `SWITCH` is assembly: what follows it in
-- `Scheduler::Run`, or in `SetupThreadState` for a thread that has not run yet, is done by the thread
-- that runs next, and stands in `arrive`. Interrupts are off in all of it.
pub mod State
pub mod Created
pub mod Stack
mod Tests
pub mod Fairness
pub mod Registers
pub mod System
pub mod Calls
pub mod Run
use non_os.Base.{
  ℕ, zero, suc, ◌+◌, ◌-◌, Bool, true, false, not, Option, none, some, List, [], ◌∷◌, ◌++◌, length,
  ltb, ◌==◌, if◌then◌else◌, get_or, set, Outcome, done, aborted, assert, ◌>>=◌, ◌>>◌,
}
use non_os.BitMap.{BitMap, find_start}
use non_os.Synch.{first_of, rest_of}
use non_os.Mips.Registers.{num_total_regs}

pub data ThreadStatus : Type 0 where
  just_created running ready blocked : ThreadStatus

-- `STACK_FENCEPOST`
abbrev pub stack_fencepost : ℕ
stack_fencepost = 3735928559

abbrev pub stack_size : ℕ
stack_size = 4096

-- The registers of the host that `StackAllocate` sets.
pub record MachineState : Type 0 where
  pub pc : ℕ
  pub startup_pc : ℕ
  pub initial_pc : ℕ
  pub initial_arg : ℕ
  pub when_done_pc : ℕ

-- `stack` is none for the main thread, and its bottom is its first word; `space` is none for a thread
-- of the kernel; `thread_id` is none for -1. The name is for output only.
pub record Thread : Type 0 where
  pub status : ThreadStatus
  pub stack : Option (List ℕ)
  pub stack_top : ℕ
  pub machine_state : MachineState
  pub user_registers : List ℕ
  pub space : Option ℕ
  pub thread_id : Option ℕ
  pub is_main : Bool

-- `tidMap`, `threads` and the static `lastId` of `GetNewThreadId`. The elements of `threads` are addresses.
pub record ThreadIds : Type 0 where
  pub tid_map : BitMap
  pub threads : List (Option ℕ)
  pub last_id : ℕ

-- The threads that there are, none for one that is deleted; the globals of the scheduler; the level of
-- the interrupts, true for IntOn; the registers of the machine, and the address space whose page table
-- it uses; and the ids of the threads.
pub record Kernel : Type 0 where
  pub threads : List (Option Thread)
  pub ready_list : List ℕ
  pub current_thread : ℕ
  pub thread_to_be_destroyed : Option ℕ
  pub level : Bool
  pub registers : List ℕ
  pub page_table_of : Option ℕ
  pub ids : ThreadIds

-- A thread's fields; those of a deleted thread are not there to be used.
pub fetch : Kernel → ℕ → Outcome Thread
fetch k t = elim (get_or k.threads t none) [ none ↦ aborted | some th ↦ done th ]

abbrev pub put : Kernel → ℕ → Thread → Kernel
put k t th = record k { threads = set k.threads t (some th) }

pub set_status : Kernel → ℕ → ThreadStatus → Outcome Kernel
set_status k t st = fetch k t >>= λ th. done (put k t (record th { status = st }))

-- The destructor.
pub delete_thread : Kernel → ℕ → Outcome Kernel
delete_thread k t = fetch k t >>= λ th.
    assert (not (t == k.current_thread)) >> done (record k { threads = set k.threads t none })

pub check_overflow : Thread → Outcome (Unit {0})
check_overflow th = elim th.stack [
  | none ↦ done tt
  | some stack ↦ assert (get_or stack 0 0 == stack_fencepost)
]

-- `for (i = 0; i < NumTotalRegs; i++) to[i] = from[i]` with the rounds that are left.
pub copy_registers : ℕ → ℕ → List ℕ → List ℕ → List ℕ
copy_registers zero i from to = to
copy_registers (suc left) i from to = copy_registers left (i + 1) from (set to i (get_or from i 0))

pub save_user_state : Kernel → ℕ → Outcome Kernel
save_user_state k t = fetch k t >>= λ th. done (
    put k t (record th {
      user_registers = copy_registers num_total_regs 0 k.registers th.user_registers;
    }))

pub restore_user_state : Kernel → ℕ → Outcome Kernel
restore_user_state k t = fetch k t >>= λ th.
    done (record k { registers = copy_registers num_total_regs 0 th.user_registers k.registers })

pub ready_to_run : Kernel → ℕ → Outcome Kernel
ready_to_run k t =
    set_status k t ready >>= λ k'. done (record k' { ready_list = k'.ready_list ++ t ∷ [] })

pub find_next_to_run : Kernel → Option ℕ × Kernel
find_next_to_run k = (first_of k.ready_list, record k { ready_list = rest_of k.ready_list })

-- `if (currentThread->space != NULL)` of `Run`, for a thread with this `space`.
pub save_if : Option ℕ → Kernel → Outcome Kernel
save_if none k = done k
save_if (some a) k = save_user_state k k.current_thread

-- `Run` up to `SWITCH`: the old thread's part.
pub leave : Kernel → ℕ → Outcome Kernel
leave k next =
    assert (not k.level)
    >> (fetch k k.current_thread >>= λ old. save_if old.space k >>= λ k₁.
        check_overflow old >> set_status (record k₁ { current_thread = next }) next running)

-- `if (threadToBeDestroyed != NULL)`
pub destroy_if : Option ℕ → Kernel → Outcome Kernel
destroy_if none k = done k
destroy_if (some t) k =
    delete_thread k t >>= λ k'. done (record k' { thread_to_be_destroyed = none })

-- The second `if (currentThread->space != NULL)` of `Run`. `AddrSpace::RestoreState` gives the machine
-- the page table of the address space.
pub restore_if : Option ℕ → Kernel → Outcome Kernel
restore_if none k = done k
restore_if (some a) k =
    restore_user_state k k.current_thread >>= λ k'. done (record k' { page_table_of = some a })

-- `Run` behind `SWITCH`, and `SetupThreadState`: the new thread's part.
pub arrive : Kernel → Outcome Kernel
arrive k = destroy_if k.thread_to_be_destroyed k >>= λ k₁.
    fetch k₁ k₁.current_thread >>= λ th. restore_if th.space k₁

pub run : Kernel → ℕ → Outcome Kernel
run k next = leave k next >>= arrive

-- `Yield` of the thread `t`. The thread that runs next sets the level of the interrupts that it had.
pub yield_thread : Kernel → ℕ → Outcome Kernel
yield_thread k t =
    assert (t == k.current_thread)
    >> (let r = find_next_to_run (record k { level = false }) in
        elim r.0 [ none ↦ done k | some next ↦ ready_to_run r.1 t >>= λ k'. run k' next ])

-- The test of the loop of `Sleep`: false where no thread is ready, and `Interrupt::Idle` is called before
-- the next test.
pub sleep_round : Kernel → Outcome (Bool × Kernel)
sleep_round k =
    let r = find_next_to_run k in
    elim r.0 [ none ↦ done (false, k) | some next ↦ run r.1 next >>= λ k'. done (true, k') ]

pub sleep : Kernel → ℕ → Outcome (Bool × Kernel)
sleep k t =
    assert (t == k.current_thread)
    >> (assert (not k.level) >> (set_status k t blocked >>= sleep_round))

abbrev pub is_null : Option ℕ → Bool
is_null none = true
is_null (some t) = false

pub finish_thread : Kernel → ℕ → Outcome (Bool × Kernel)
finish_thread k t =
    assert (t == k.current_thread)
    >> (assert (is_null k.thread_to_be_destroyed)
        >> sleep (record k { level = false; thread_to_be_destroyed = some k.current_thread }) t)

-- `threads[tid] = t`, unless the id is -1, and the static `lastId`.
pub enter : ThreadIds → BitMap → Option ℕ → ℕ → ThreadIds
enter ids tid_map none t = record ids { tid_map = tid_map; last_id = 0 }
enter ids tid_map (some tid) t = record ids {
  tid_map = tid_map;
  threads = set ids.threads tid (some t);
  last_id = tid + 1;
}

-- `GetNewThreadId` between `P` and `V` of its semaphore.
pub get_new_thread_id : ThreadIds → ℕ → Outcome (Option ℕ × ThreadIds)
get_new_thread_id ids t =
    find_start ids.tid_map ids.last_id >>= λ r. done (r.0, enter ids r.1 r.0 t)

-- The fields that the constructor sets; the others are as the memory holds them.
pub constructed : Thread → Option ℕ → Thread
constructed memory tid = record memory {
  status = just_created;
  stack = none;
  stack_top = 0;
  thread_id = tid;
  is_main = true;
}

-- The constructor: the new thread's address, and the thread in memory that happens to hold `memory`.
pub new_thread : Kernel → Thread → Outcome (ℕ × Kernel)
new_thread k memory = get_new_thread_id k.ids (length k.threads) >>= λ r. done (
  length k.threads,
  record k { threads = k.threads ++ some (constructed memory r.0) ∷ []; ids = r.1 },
)

-- The addresses of the procedures that a new thread starts in and ends in.
module _ (thread_root setup_thread_state thread_finish : ℕ) where
  -- On a host of kind i386, in memory that happens to hold `memory`.
  pub stack_allocate : List ℕ → Thread → ℕ → ℕ → Thread
  stack_allocate memory th func arg = record th {
    stack_top = stack_size - 4 - 1;
    stack = some (set (set memory (stack_size - 4 - 1) thread_root) 0 stack_fencepost);
    machine_state = record {
      pc = thread_root;
      startup_pc = setup_thread_state;
      initial_pc = func;
      initial_arg = arg;
      when_done_pc = thread_finish;
    };
  }

  -- `Fork` of the thread `t` by the current one.
  pub fork : Kernel → List ℕ → ℕ → ℕ → ℕ → Outcome Kernel
  fork k memory t func arg = fetch k t >>= λ th.
      fetch (put k t (stack_allocate memory th func arg)) k.current_thread >>= λ current.
      ready_to_run (put k t (record (stack_allocate memory th func arg) { space = current.space }))
        t
