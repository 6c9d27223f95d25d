-- ===== src/Threads/System.antt =====
-- All that the threads of a kernel can do, as steps: the calls of the current thread, its own work on
-- registers and stack, and the handlers of interrupts that wake threads while it runs or while it
-- sleeps and nobody is ready. A thread writes no word of its stack as far down as the first, which
-- `CheckOverflow` looks at: the steps are those of threads whose stacks do not run over.
use non_os.Base.{
  ℕ, ◌<◌, ◌≡◌, ◌≢◌, subst, sym, ◌∙◌, inl, inr, Bool, true, false, some, List, length, Outcome, done,
}
use non_os.BitMap.View.{IsValid}
use non_os.Threads.{
  Kernel, Thread, put, just_created, blocked, ready_to_run, yield_thread, sleep_round, sleep,
  finish_thread, new_thread, fork, stack_size,
}
use non_os.Threads.State.{thread_at, HasStatus, IsRunning, IsWaiting, IsState}
use non_os.Threads.Calls.{
  yield_thread-Yields, sleep_round-Wakes, Wakes-Sleeps, Sleeps, sleep-Sleeps, finish_thread-Sleeps,
  ready_to_run-IsRunning, ready_to_run-IsWaiting, fork-IsRunning,
}
use non_os.Threads.Created.{done_inj, new_thread-IsRunning, new_thread-returns}
use non_os.Threads.Stack.{pushed, pushed-IsState}

-- The first index: whether the current thread runs (true) or is in the loop of `Sleep`.
module _ (thread_root setup_thread_state thread_finish : ℕ) where
  pub data Step : Bool → Kernel → Bool → Kernel → Type 0 where
    creates :
        (k k' : Kernel) (memory : Thread) (t : ℕ)
        → new_thread k memory ≡ done (t, k')
        → Step true k true k'
    forks :
        (k k' : Kernel) (memory : List ℕ) (t func arg : ℕ)
        → HasStatus k.threads t just_created
        → length memory ≡ stack_size
        → fork thread_root setup_thread_state thread_finish k memory t func arg ≡ done k'
        → Step true k true k'
    yields : (k k' : Kernel) → yield_thread k k.current_thread ≡ done k' → Step true k true k'
    sleeps :
        (k k' : Kernel) (b : Bool)
        → k.level ≡ false
        → sleep k k.current_thread ≡ done (b, k')
        → Step true k b k'
    finishes :
        (k k' : Kernel) (b : Bool)
        → finish_thread k k.current_thread ≡ done (b, k')
        → Step true k b k'
    wakes :
        (b : Bool) (k k' : Kernel) (t : ℕ)
        → HasStatus k.threads t blocked
        → k.thread_to_be_destroyed ≢ some t
        → ready_to_run k t ≡ done k'
        → Step b k b k'
    tries : (k k' : Kernel) (b : Bool) → sleep_round k ≡ done (b, k') → Step false k b k'
    sets_level : (k : Kernel) (level : Bool) → Step true k true (record k { level = level })
    computes :
        (k : Kernel) (registers : List ℕ) → Step true k true (record k { registers = registers })
    pushes :
        (b : Bool) (k : Kernel) (th : Thread) (i word : ℕ)
        → thread_at k.threads k.current_thread ≡ some th
        → 0 < i
        → Step b k b (put k k.current_thread (pushed th i word))

  -- From a kernel in which one thread runs and all stacks are in order.
  pub data Reachable (k₀ : Kernel) : Bool → Kernel → Type 0 where
    start : Reachable k₀ true k₀
    step :
        (b : Bool) (k : Kernel) (b' : Bool) (k' : Kernel)
        → Reachable k₀ b k
        → Step b k b' k'
        → Reachable k₀ b' k'

Sleeps-IsState : (b : Bool) (k : Kernel) → Sleeps (b, k) → IsState b k
Sleeps-IsState true k (inl (e, r)) = r
Sleeps-IsState false k (inl (e, r)) = absurd (differs e)
  where
    differs : false ≢ true
    differs q = cc
Sleeps-IsState true k (inr (e, w)) = absurd (differs e)
  where
    differs : true ≢ false
    differs q = cc
Sleeps-IsState false k (inr (e, w)) = w

-- A call that returns, and what it returned.
returned :
    (m : Outcome (Bool × Kernel)) (b : Bool) (k' : Kernel)
    → m ≡ done (b, k')
    → (r : Bool × Kernel) × (m ≡ done r) × Sleeps r
    → IsState b k'
returned m b k' e (r, e', s) = Sleeps-IsState b k' (subst Sleeps (done_inj (sym e' ∙ e)) s)

returned_running :
    (m : Outcome Kernel) (k' : Kernel) (P : Kernel → Type 0)
    → m ≡ done k'
    → (k'' : Kernel) × (m ≡ done k'') × P k''
    → P k'
returned_running m k' P e (k'', e', r) = subst P (done_inj (sym e' ∙ e)) r

module _ (thread_root setup_thread_state thread_finish : ℕ) where
  Step-IsState :
      (b : Bool) (k : Kernel) (b' : Bool) (k' : Kernel)
      → Step thread_root setup_thread_state thread_finish b k b' k'
      → IsState b k
      → IsState b' k'
  Step-IsState b k b' k' (creates _ _ memory t e) i = new_thread-IsRunning k k' memory t e i
  Step-IsState b k b' k' (pushes _ _ th j word e p) i = pushed-IsState k th j word e p b i
  Step-IsState b k b' k' (forks _ _ memory t func arg s l e) i =
      let (k'', e', r, _) =
        fork-IsRunning thread_root setup_thread_state thread_finish k memory t func arg i s l in
      subst IsRunning (done_inj (sym e' ∙ e)) r
  Step-IsState b k b' k' (yields _ _ e) i = elim (yield_thread-Yields k i) [
    | inl (_, e') ↦ subst IsRunning (done_inj (sym e' ∙ e)) i
    | inr (next, rest, k'', _, e', _, _, r) ↦ subst IsRunning (done_inj (sym e' ∙ e)) r
  ]
  Step-IsState b k b' k' (sleeps _ _ _ off e) i = returned _ b' k' e (sleep-Sleeps k i off)
  Step-IsState b k b' k' (finishes _ _ _ e) i = returned _ b' k' e (finish_thread-Sleeps k i)
  Step-IsState true k b' k' (wakes _ _ _ t s n e) i =
      returned_running _ k' IsRunning e (ready_to_run-IsRunning k t s i)
  Step-IsState false k b' k' (wakes _ _ _ t s n e) i =
      returned_running _ k' IsWaiting e (ready_to_run-IsWaiting k t s i n)
  Step-IsState b k b' k' (tries _ _ _ e) i =
      let (r, e', w) = sleep_round-Wakes k i in returned _ b' k' e (r, e', Wakes-Sleeps k r w)
  Step-IsState b k b' k' (sets_level _ level) i = record {
    kernel = i.kernel;
    current = i.current;
    destroyed = i.destroyed;
  }
  Step-IsState b k b' k' (computes _ registers) i = record {
    kernel = i.kernel;
    current = i.current;
    destroyed = i.destroyed;
  }

  -- What a running thread or one in the loop of `Sleep` may call returns, `Sleep` with interrupts off,
  -- `Fork` on a new thread, and the constructor with a map of ids in order: no ASSERT fails, and no
  -- thread that is deleted is used.
  abbrev pub Returns : Bool → Kernel → Type 0
  Returns true k =
      ((k' : Kernel) × (yield_thread k k.current_thread ≡ done k'))
      × (k.level ≡ false → (r : Bool × Kernel) × (sleep k k.current_thread ≡ done r))
      × ((r : Bool × Kernel) × (finish_thread k k.current_thread ≡ done r))
      × ((memory : Thread)
          → IsValid k.ids.tid_map
          → 0 < k.ids.tid_map.num_bits
          → (r : ℕ × Kernel) × (new_thread k memory ≡ done r))
      × ((memory : List ℕ) (t func arg : ℕ)
          → HasStatus k.threads t just_created
          → length memory ≡ stack_size
          → (k' : Kernel) × (fork thread_root setup_thread_state thread_finish k memory t func arg
              ≡ done k'))
  Returns false k = (r : Bool × Kernel) × (sleep_round k ≡ done r)

  IsState-Returns : (b : Bool) (k : Kernel) → IsState b k → Returns b k
  IsState-Returns true k r = (
    (elim (yield_thread-Yields k r) [
      | inl (_, e) ↦ (k, e)
      | inr (_, _, k', _, e, _, _, _) ↦ (k', e)
    ]),
    (λ off. let (x, e, _) = sleep-Sleeps k r off in (x, e)),
    (let (x, e, _) = finish_thread-Sleeps k r in (x, e)),
    (λ memory v pos. new_thread-returns k memory v pos),
    λ memory t func arg s l.
        let (x, e, _, _) =
          fork-IsRunning thread_root setup_thread_state thread_finish k memory t func arg r s l in
        (x, e),
  )
  IsState-Returns false k w = let (x, e, _) = sleep_round-Wakes k w in (x, e)

  -- In every kernel that calls of threads, writes of the running thread to its registers and its stack,
  -- and wake-ups lead to, in any order, from one in which a thread runs, all where no thread writes
  -- the first word of a stack: the threads on the ready list are there once, are ready and not
  -- deleted, and either a thread runs that is not on it, or the current one is in the loop of
  -- `Sleep`; the first word of every stack is the fence; and `Yield`, `Finish`, the loop of `Sleep`,
  -- `Sleep` with interrupts off, `Fork` of a thread that is just created with memory of the stack's
  -- size, and the constructor with a valid map of ids that is not empty return: no ASSERT in them
  -- fails, and they use no deleted thread.
  pub Reachable-IsState :
      (k₀ : Kernel) (b : Bool) (k : Kernel)
      → IsRunning k₀
      → Reachable thread_root setup_thread_state thread_finish k₀ b k
      → IsState b k × Returns b k
  Reachable-IsState k₀ b k r path = (state b k path, IsState-Returns b k (state b k path))
    where
      state :
          (b : Bool) (k : Kernel)
          → Reachable thread_root setup_thread_state thread_finish k₀ b k
          → IsState b k
      state b k start = r
      state b k (step b' k' _ _ before s) = Step-IsState b' k' b k s (state b' k' before)
