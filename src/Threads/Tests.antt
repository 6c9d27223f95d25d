-- ===== src/Threads/Tests.antt =====
-- Three threads: the main one runs, one of a user program and one of the kernel are ready.
use non_os.Base.{
  ℕ, zero, suc, ◌≡◌, ◌≢◌, refl, subst, true, false, none, some, [], ◌∷◌, replicate, length, done,
  arith,
}
use non_os.Threads.{
  Kernel, Thread, ThreadIds, MachineState, running, ready, stack_fencepost, yield_thread, sleep,
  sleep_round, finish_thread, run, leave, arrive, save_if, save_user_state, destroy_if,
  delete_thread, restore_if, restore_user_state, copy_registers, fetch, set_status, check_overflow,
  ready_to_run, find_next_to_run,
}
use non_os.Threads.State.{IsFenced, IsRunning, IsState, thread_at}
use non_os.Threads.System.{Reachable-IsState, Returns, start, step, yields}
use non_os.Threads.Fairness.{yield_times, yield_times-reaches}
use non_os.Threads.Registers.{restore-save_user_state}

abbrev machine_state : MachineState
machine_state = record { pc = 0; startup_pc = 0; initial_pc = 0; initial_arg = 0; when_done_pc = 0 }

abbrev main_thread : Thread
main_thread = record {
  status = running;
  stack = none;
  stack_top = 0;
  machine_state = machine_state;
  user_registers = replicate 40 0;
  space = none;
  thread_id = some 0;
  is_main = true;
}

abbrev user_thread : Thread
user_thread = record {
  status = ready;
  stack = some (stack_fencepost ∷ []);
  stack_top = 4091;
  machine_state = machine_state;
  user_registers = replicate 40 7;
  space = some 100;
  thread_id = some 1;
  is_main = true;
}

abbrev kernel_thread : Thread
kernel_thread = record user_thread { space = none }

-- Three ids of 32 are given out.
abbrev ids : ThreadIds
ids = record {
  tid_map = record { num_bits = 32; num_words = 1; map = 7 ∷ [] };
  threads = some 0 ∷ some 1 ∷ some 2 ∷ replicate 29 none;
  last_id = 3;
}

abbrev three : Kernel
three = record {
  threads = some main_thread ∷ some user_thread ∷ some kernel_thread ∷ [];
  ready_list = 1 ∷ 2 ∷ [];
  current_thread = 0;
  thread_to_be_destroyed = none;
  level = true;
  registers = replicate 40 5;
  page_table_of = none;
  ids = ids;
}

IsFenced-same : (a b : Thread) → some a ≡ some b → IsFenced a.stack → IsFenced b.stack
IsFenced-same a b e h = subst (λ (y : Thread). IsFenced y.stack) (same e) h
  where
    same : some a ≡ some b → a ≡ b
    same q = cc

three-IsRunning : IsRunning three
three-IsRunning = record {
  kernel = record {
    all_ready = (
      record { thread = user_thread; there = refl; status = refl },
      (record { thread = kernel_thread; there = refl; status = refl }, tt),
    );
    distinct = (((λ e. absurd (omega arith)), tt), (tt, tt));
    fenced = fenced;
  };
  current = record { thread = main_thread; there = refl; status = refl };
  destroyed = refl;
}
  where
    fenced : (t : ℕ) (th : Thread) → thread_at three.threads t ≡ some th → IsFenced th.stack
    fenced zero th e = IsFenced-same main_thread th e tt
    fenced (suc zero) th e = IsFenced-same user_thread th e refl
    fenced (suc (suc zero)) th e = IsFenced-same kernel_thread th e refl
    fenced (suc (suc (suc t))) th e = absurd (differs e)
      where
        differs : none ≢ some th
        differs q = cc

-- The user program's thread runs, with its registers and its page table in the machine.
abbrev after_yield : Kernel
after_yield = record {
  threads =
      some (record main_thread { status = ready })
      ∷ some (record user_thread { status = running })
      ∷ some kernel_thread
      ∷ [];
  ready_list = 2 ∷ 0 ∷ [];
  current_thread = 1;
  thread_to_be_destroyed = none;
  level = false;
  registers = replicate 40 7;
  page_table_of = some 100;
  ids = ids;
}

yield_of_three : yield_thread three 0 ≡ done after_yield
unfolding yield_thread find_next_to_run ready_to_run set_status fetch run leave arrive save_if
    destroy_if restore_if restore_user_state copy_registers check_overflow
yield_of_three = refl

Reachable-IsState_example : IsState true after_yield × Returns 1 2 3 true after_yield
Reachable-IsState_example =
    Reachable-IsState 1 2 3 three true after_yield three-IsRunning
      (step true three true after_yield start (yields three after_yield yield_of_three))

-- The kernel's thread has the user program's thread ahead of it.
yield_times-reaches_example :
    (k' : Kernel) × (yield_times 2 three ≡ done k')
    × (k'.current_thread ≡ 2)
    × (k'.ready_list ≡ 0 ∷ 1 ∷ [])
    × IsRunning k'
yield_times-reaches_example = yield_times-reaches (1 ∷ []) [] 2 three three-IsRunning refl

restore-save_user_state_example :
    (k₁ : Kernel) × (save_user_state three 1 ≡ done k₁)
    × ((k₂ : Kernel)
        → thread_at k₂.threads 1 ≡ thread_at k₁.threads 1
        → length k₂.registers ≡ 40
        → (k₃ : Kernel) × (restore_user_state k₂ 1 ≡ done k₃) × (k₃.registers ≡ replicate 40 5))
restore-save_user_state_example = restore-save_user_state three 1 user_thread refl refl refl

-- `Finish` of the main thread: it is deleted once the next thread runs.
finish_of_three :
    finish_thread three 0
    ≡ done (
      true,
      record after_yield {
        threads = none ∷ some (record user_thread { status = running }) ∷ some kernel_thread ∷ [];
        ready_list = 2 ∷ [];
      },
    )
unfolding finish_thread sleep sleep_round find_next_to_run set_status fetch run leave arrive save_if
    destroy_if delete_thread restore_if restore_user_state copy_registers check_overflow
finish_of_three = refl
