-- ===== src/Threads/Calls.antt =====
-- `Yield`, `Sleep`, `Finish`, `Fork` and the waking of a thread: they never abort where the threads are
-- as `IsRunning` or `IsWaiting` say, and leave them so.
use non_os.Base.{
  ℕ, ◌-◌, ◌≡◌, ◌≢◌, refl, ap, subst, sym, ◌∙◌, inl, inr, ◌⊎◌, Bool, true, false, not, Option, none,
  some, List, [], ◌∷◌, ◌++◌, length, length-set, set, get_or-set_self, get_or-set_ne, All, Distinct,
  ==_self, done, arith, ◌>>=◌,
}
use non_os.Synch.{first_of, rest_of}
use native.Mathlib.Decide.{ℕ_discrete}
use non_os.Base.Apart.{Apart, All-append, Distinct-append}
use non_os.Threads.{
  Kernel, Thread, ThreadStatus, just_created, running, ready, blocked, put, ready_to_run,
  find_next_to_run, run, yield_thread, sleep_round, sleep, finish_thread, fork, stack_allocate,
  stack_fencepost, stack_size, is_null,
}
use non_os.Threads.State.{
  Threads, thread_at, replaced, HasStatus, IsFenced, IsKernel, IsRunning, IsWaiting, Doomed,
  fetch_lem, set_status_lem, thread_at-replaced_self, HasStatus-replaced_ne, IsFenced-replaced,
  status_ne, All-apart_from, apart_status,
}
use non_os.Threads.Run.{run-Runs, ready_ne_running}

-- A thread that is not ready is put on the ready list.
module _ (k : Kernel) (t : ℕ) (st : ThreadStatus) (n : st ≢ ready) (s : HasStatus k.threads t st)
    (i : IsKernel k.threads k.ready_list) where
  abbrev readied : Kernel
  readied = record k {
    threads = replaced k.threads t (record s.thread { status = ready });
    ready_list = k.ready_list ++ t ∷ [];
  }

  pub ready_to_run_lem : ready_to_run k t ≡ done readied
  unfolding ready_to_run
  ready_to_run_lem = rw (set_status_lem k t s.thread ready s.there) refl

  pub not_on_list : All (λ x. t ≢ x) k.ready_list
  not_on_list = apart_status k.threads t st ready k.ready_list n s i.all_ready

  pub self_ready : HasStatus readied.threads t ready
  self_ready = record {
    thread = record s.thread { status = ready };
    there =
        thread_at-replaced_self k.threads t s.thread (record s.thread { status = ready }) s.there;
    status = refl;
  }

  pub others_keep :
      (x : ℕ) (st' : ThreadStatus)
      → t ≢ x
      → HasStatus k.threads x st'
      → HasStatus readied.threads x st'
  others_keep x st' q =
      HasStatus-replaced_ne k.threads t s.thread (record s.thread { status = ready }) s.there x st'
        q

  pub readied-IsKernel : IsKernel readied.threads readied.ready_list
  readied-IsKernel = record {
    all_ready =
        All-append (λ x. HasStatus readied.threads x ready) k.ready_list (t ∷ [])
          (All-apart_from (λ x. HasStatus k.threads x ready)
            (λ x. HasStatus readied.threads x ready) t k.ready_list
            (λ x q h. others_keep x ready q h) not_on_list i.all_ready)
          (self_ready, tt);
    distinct =
        Distinct-append k.ready_list (t ∷ []) i.distinct (tt, tt) (behind k.ready_list not_on_list);
    fenced =
        IsFenced-replaced k.threads t s.thread (record s.thread { status = ready }) s.there
          (i.fenced t s.thread s.there) i.fenced;
  }
    where
      behind : (xs : List ℕ) → All (λ x. t ≢ x) xs → Apart xs (t ∷ [])
      behind [] a = tt
      behind (x ∷ xs) a = (((λ e. a.0 (sym e)), tt), behind xs a.1)

-- The first of the ready list taken off it.
module _ (k : Kernel) (next : ℕ) (rest : List ℕ) (i : IsKernel k.threads k.ready_list)
    (e : k.ready_list ≡ next ∷ rest) where
  abbrev taken : Kernel
  taken = record k { ready_list = rest }

  pub first_parts :
      HasStatus k.threads next ready × All (λ t. next ≢ t) rest × IsKernel k.threads rest
  first_parts =
      let a = subst (All (λ t. HasStatus k.threads t ready)) e i.all_ready in
      let d = subst Distinct e i.distinct in
      (a.0, d.0, record { all_ready = a.1; distinct = d.1; fenced = i.fenced })

-- `Yield` of the running thread: with nobody ready nothing changes; otherwise the first of the ready
-- list runs, and the thread stands at the end of the list.
pub yield_thread-Yields :
    (k : Kernel)
    → IsRunning k
    → ((k.ready_list ≡ []) × (yield_thread k k.current_thread ≡ done k))
      ⊎ ((next : ℕ) × (rest : List ℕ) × (k' : Kernel) × (k.ready_list ≡ next ∷ rest)
          × (yield_thread k k.current_thread ≡ done k')
          × (k'.current_thread ≡ next)
          × (k'.ready_list ≡ rest ++ k.current_thread ∷ [])
          × IsRunning k')
unfolding yield_thread find_next_to_run
yield_thread-Yields k r = by_list k.ready_list refl
  where
    by_list :
        (l : List ℕ)
        → k.ready_list ≡ l
        → ((k.ready_list ≡ []) × (yield_thread k k.current_thread ≡ done k))
          ⊎ ((next : ℕ) × (rest : List ℕ) × (k' : Kernel) × (k.ready_list ≡ next ∷ rest)
              × (yield_thread k k.current_thread ≡ done k')
              × (k'.current_thread ≡ next)
              × (k'.ready_list ≡ rest ++ k.current_thread ∷ [])
              × IsRunning k')
    by_list [] e = inl (e, rw (==_self k.current_thread) (rw (ap first_of e) refl))
    by_list (next ∷ rest) e =
        let k₀ : Kernel = record k { level = false; ready_list = rest } in
        let (h, apart, i) = first_parts k next rest r.kernel e in
        let old : HasStatus k₀.threads k.current_thread running = r.current in
        let k₁ : Kernel = readied k₀ k.current_thread running ready_ne_running old i in
        let differs : k.current_thread ≢ next =
          status_ne k.threads k.current_thread next running ready ready_ne_running r.current h in
        let (k', e', q) = run-Runs k₁ next (record {
          kernel = readied-IsKernel k₀ k.current_thread running ready_ne_running old i;
          off = refl;
          old = (self_ready k₀ k.current_thread running ready_ne_running old i).thread;
          there = (self_ready k₀ k.current_thread running ready_ne_running old i).there;
          next_ready =
              others_keep k₀ k.current_thread running ready_ne_running old i next ready differs h;
          next_apart =
              All-append (λ t. next ≢ t) rest (k.current_thread ∷ []) apart
                ((λ p. differs (sym p)), tt);
          doomed = subst (Doomed k₁.threads) (sym r.destroyed) tt;
        }) in
        inr (
          next,
          rest,
          k',
          e,
          rw (==_self k.current_thread) (
              rw (ap first_of e) (
                ap
                  (λ ts.
                    ready_to_run (record k { level = false; ready_list = ts }) k.current_thread
                    >>= λ x. run x next)
                  (ap rest_of e)
                ∙ ap (λ m. m >>= λ x. run x next)
                    (ready_to_run_lem k₀ k.current_thread running ready_ne_running old i)
                ∙ e')),
          q.current,
          q.list,
          q.running',
        )

-- One test of the loop of `Sleep`: the first of the ready list runs, or nobody is ready.
abbrev pub Wakes : Kernel → Bool × Kernel → Type 0
Wakes k r = ((r.0 ≡ true) × IsRunning r.1) ⊎ ((r.0 ≡ false) × (k.ready_list ≡ []) × IsWaiting r.1)

pub sleep_round-Wakes :
    (k : Kernel) → IsWaiting k → (r : Bool × Kernel) × (sleep_round k ≡ done r) × Wakes k r
unfolding sleep_round find_next_to_run
sleep_round-Wakes k w = by_list k.ready_list refl
  where
    by_list :
        (l : List ℕ) → k.ready_list ≡ l → (r : Bool × Kernel) × (sleep_round k ≡ done r) × Wakes k r
    by_list [] e = ((false, k), rw (ap first_of e, sleep_round) refl, inr (refl, e, w))
    by_list (next ∷ rest) e =
        let (h, apart, i) = first_parts k next rest w.kernel e in
        let (k', e', q) =
          run-Runs (record k { ready_list = rest }) next
            (record {
              kernel = i;
              off = w.off;
              old = w.old;
              there = w.there;
              next_ready = h;
              next_apart = apart;
              doomed = w.doomed;
            }) in
        (
          (true, k'),
          rw (ap first_of e, sleep_round)
              (ap (λ ts. run (record k { ready_list = ts }) next >>= λ x. done (true, x))
                  (ap rest_of e)
                ∙ ap (λ m. m >>= λ x. done (true, x)) e'),
          inl (refl, q.running'),
        )

-- The current thread blocks: its place in the loop of `Sleep`.
module _ (k : Kernel) (s : HasStatus k.threads k.current_thread running)
    (i : IsKernel k.threads k.ready_list) where
  abbrev blocking : Thread
  blocking = record s.thread { status = blocked }

  blocked-IsKernel : IsKernel (replaced k.threads k.current_thread blocking) k.ready_list
  blocked-IsKernel = record {
    all_ready =
        All-apart_from (λ x. HasStatus k.threads x ready)
          (λ x. HasStatus (replaced k.threads k.current_thread blocking) x ready) k.current_thread
          k.ready_list
          (λ x q h.
            HasStatus-replaced_ne k.threads k.current_thread s.thread blocking s.there x ready q h)
          (apart_status k.threads k.current_thread running ready k.ready_list ready_ne_running s
            i.all_ready)
          i.all_ready;
    distinct = i.distinct;
    fenced =
        IsFenced-replaced k.threads k.current_thread s.thread blocking s.there
          (i.fenced k.current_thread s.thread s.there) i.fenced;
  }

  there_blocked :
      thread_at (replaced k.threads k.current_thread blocking) k.current_thread ≡ some blocking
  there_blocked = thread_at-replaced_self k.threads k.current_thread s.thread blocking s.there

-- What `Sleep` and `Finish` end in: another thread runs, or nobody is ready.
abbrev pub Sleeps : Bool × Kernel → Type 0
Sleeps r = ((r.0 ≡ true) × IsRunning r.1) ⊎ ((r.0 ≡ false) × IsWaiting r.1)

pub Wakes-Sleeps : (k : Kernel) (r : Bool × Kernel) → Wakes k r → Sleeps r
Wakes-Sleeps k r (inl (e, x)) = inl (e, x)
Wakes-Sleeps k r (inr (e, _, w)) = inr (e, w)

-- The common end of both: `doomed` is the thread that is to be deleted.
blocks-Sleeps :
    (k : Kernel)
    → k.level ≡ false
    → (s : HasStatus k.threads k.current_thread running) → IsKernel k.threads k.ready_list
    → Doomed
        (replaced k.threads k.current_thread (record s.thread { status = blocked }))
        k.thread_to_be_destroyed
    → (r : Bool × Kernel) × (sleep k k.current_thread ≡ done r) × Sleeps r
unfolding sleep
blocks-Sleeps k off s i d =
    let k₁ : Kernel = put k k.current_thread (blocking k s i) in
    let (r, e, w) = sleep_round-Wakes k₁ (record {
      kernel = blocked-IsKernel k s i;
      off = off;
      old = blocking k s i;
      there = there_blocked k s i;
      doomed = d;
    }) in
    (
      r,
      rw (==_self k.current_thread, sleep)
          (rw (ap not off, sleep)
            (rw (set_status_lem k k.current_thread s.thread blocked s.there, sleep) e)),
      Wakes-Sleeps k₁ r w,
    )

pub sleep-Sleeps :
    (k : Kernel)
    → IsRunning k
    → k.level ≡ false
    → (r : Bool × Kernel) × (sleep k k.current_thread ≡ done r) × Sleeps r
sleep-Sleeps k r off = blocks-Sleeps k off r.current r.kernel (
    subst
      (Doomed (replaced k.threads k.current_thread (record r.current.thread { status = blocked })))
      (sym r.destroyed) tt)

pub finish_thread-Sleeps :
    (k : Kernel)
    → IsRunning k
    → (r : Bool × Kernel) × (finish_thread k k.current_thread ≡ done r) × Sleeps r
unfolding finish_thread
finish_thread-Sleeps k r =
    let k₁ : Kernel = record k { level = false; thread_to_be_destroyed = some k.current_thread } in
    let (x, e, q) = blocks-Sleeps k₁ refl r.current r.kernel (record {
      thread = record r.current.thread { status = blocked };
      there = there_blocked k₁ r.current r.kernel;
      status = refl;
    }) in
    (
      x,
      rw (==_self k.current_thread, finish_thread) (rw (ap is_null r.destroyed, finish_thread) e),
      q,
    )

-- A thread that is woken, by `V`, `Signal` or the handler of an interrupt.
module _ (k : Kernel) (t : ℕ) (s : HasStatus k.threads t blocked) where
  blocked_ne_ready : blocked ≢ ready
  blocked_ne_ready e = cc

  pub ready_to_run-IsRunning :
      (r : IsRunning k) → (k' : Kernel) × (ready_to_run k t ≡ done k') × IsRunning k'
  ready_to_run-IsRunning r = (
    readied k t blocked blocked_ne_ready s r.kernel,
    ready_to_run_lem k t blocked blocked_ne_ready s r.kernel,
    record {
      kernel = readied-IsKernel k t blocked blocked_ne_ready s r.kernel;
      current =
          others_keep k t blocked blocked_ne_ready s r.kernel k.current_thread running
            (status_ne k.threads t k.current_thread blocked running (λ e. blocked_ne_running e) s
              r.current)
            r.current;
      destroyed = r.destroyed;
    },
  )
    where
      blocked_ne_running : blocked ≢ running
      blocked_ne_running e = cc

  -- In the loop of `Sleep` the thread that sleeps can be the one.
  pub ready_to_run-IsWaiting :
      (w : IsWaiting k)
      → k.thread_to_be_destroyed ≢ some t
      → (k' : Kernel) × (ready_to_run k t ≡ done k') × IsWaiting k'
  ready_to_run-IsWaiting w n =
      let k' : Kernel = readied k t blocked blocked_ne_ready s w.kernel in
      let (old, there) = still_there (ℕ_discrete t k.current_thread) in
      (
        k',
        ready_to_run_lem k t blocked blocked_ne_ready s w.kernel,
        record {
          kernel = readied-IsKernel k t blocked blocked_ne_ready s w.kernel;
          off = w.off;
          old = old;
          there = there;
          doomed = still_doomed k.thread_to_be_destroyed n w.doomed;
        },
      )
    where
      ths' : Threads
      ths' = replaced k.threads t (record s.thread { status = ready })

      still_there :
          Dec (t ≡ k.current_thread) → (th : Thread) × (thread_at ths' k.current_thread ≡ some th)
      still_there (yes e) = (
        record s.thread { status = ready },
        ap (thread_at ths') (sym e)
            ∙ thread_at-replaced_self k.threads t s.thread (record s.thread { status = ready })
                s.there,
      )
      still_there (no n) = (
        w.old,
        get_or-set_ne k.threads t k.current_thread (some (record s.thread { status = ready })) none
              n
            ∙ w.there,
      )

      still_doomed : (o : Option ℕ) → o ≢ some t → Doomed k.threads o → Doomed ths' o
      still_doomed none n d = tt
      still_doomed (some x) n d =
          others_keep k t blocked blocked_ne_ready s w.kernel x blocked (λ e. n (ap some (sym e))) d

-- `Fork` of a thread that has just been created.
module _ (thread_root setup_thread_state thread_finish : ℕ) (k : Kernel) (memory : List ℕ)
    (t func arg : ℕ) (r : IsRunning k) (s : HasStatus k.threads t just_created)
    (room : length memory ≡ stack_size) where
  created_ne : (just_created ≢ ready) × (just_created ≢ running)
  created_ne = ((λ e. cc), (λ e. cc))

  abbrev allocated : Thread
  allocated = stack_allocate thread_root setup_thread_state thread_finish memory s.thread func arg

  abbrev given : Option ℕ → Thread
  given space = record allocated { space = space }

  t_ne_current : t ≢ k.current_thread
  t_ne_current =
      status_ne k.threads t k.current_thread just_created running created_ne.1 s r.current

  allocated_stack : IsFenced allocated.stack
  unfolding stack_allocate
  allocated_stack =
      get_or-set_self (set memory (stack_size - 4 - 1) thread_root) 0 stack_fencepost 0
        (omega (arith, length-set memory (stack_size - 4 - 1) thread_root, room))

  allocated_status : allocated.status ≡ just_created
  unfolding stack_allocate
  allocated_status = s.status

  -- It never aborts; the new thread is ready, with the fence in place, and has the address space of the
  -- one that calls.
  pub fork-IsRunning :
      (k' : Kernel) × (fork thread_root setup_thread_state thread_finish k memory t func arg
        ≡ done k')
      × IsRunning k'
      × (k'.ready_list ≡ k.ready_list ++ t ∷ [])
  unfolding fork
  fork-IsRunning =
      let c = r.current in
      let th : Thread = given c.thread.space in
      let k₁ : Kernel = record k { threads = replaced k.threads t th } in
      let s₁ : HasStatus k₁.threads t just_created = record {
        thread = th;
        there = thread_at-replaced_self k.threads t s.thread th s.there;
        status = allocated_status;
      } in
      let i₁ : IsKernel k₁.threads k.ready_list = record {
        all_ready =
            All-apart_from (λ x. HasStatus k.threads x ready) (λ x. HasStatus k₁.threads x ready) t
              k.ready_list
              (λ x q h. HasStatus-replaced_ne k.threads t s.thread th s.there x ready q h)
              (apart_status k.threads t just_created ready k.ready_list created_ne.0 s
                r.kernel.all_ready)
              r.kernel.all_ready;
        distinct = r.kernel.distinct;
        fenced = IsFenced-replaced k.threads t s.thread th s.there allocated_stack r.kernel.fenced;
      } in
      (
        readied k₁ t just_created created_ne.0 s₁ i₁,
        rw (fetch_lem k t s.thread s.there, fork)
            (rw
              (
                fetch_lem (put k t allocated) k.current_thread c.thread (
                    get_or-set_ne k.threads t k.current_thread (some allocated) none t_ne_current
                    ∙ c.there),
                fork,
              )
              (ready_to_run_lem k₁ t just_created created_ne.0 s₁ i₁)),
        record {
          kernel = readied-IsKernel k₁ t just_created created_ne.0 s₁ i₁;
          current =
              others_keep k₁ t just_created created_ne.0 s₁ i₁ k.current_thread running t_ne_current
                (HasStatus-replaced_ne k.threads t s.thread th s.there k.current_thread running
                  t_ne_current c);
          destroyed = r.destroyed;
        },
        refl,
      )
