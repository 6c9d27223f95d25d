-- ===== src/Threads/Run.antt =====
-- `Scheduler::Run`: the switch to a thread that was ready.
use non_os.Base.{
  ℕ, ◌≡◌, ◌≢◌, refl, ap, subst, sym, ◌∙◌, false, not, Option, none, some, set, All, ==_ne, done,
}
use non_os.Mips.Registers.{num_total_regs}
use non_os.Threads.{
  Kernel, Thread, ThreadStatus, running, ready, blocked, put, delete_thread, save_user_state,
  restore_user_state, leave, arrive, run, copy_registers, save_if, destroy_if, restore_if,
}
use non_os.Threads.State.{
  Threads, thread_at, replaced, HasStatus, IsFenced, IsKernel, IsRunning, Doomed, fetch_lem,
  set_status_lem, thread_at-replaced_self, HasStatus-replaced_ne, HasStatus-replaced,
  IsFenced-replaced, IsFenced-deleted, HasStatus-deleted, check_overflow_lem, status_ne,
  All-apart_from, apart_status,
}

pub ready_ne_blocked : blocked ≢ ready
ready_ne_blocked e = cc

pub ready_ne_running : running ≢ ready
ready_ne_running e = cc

-- When `Run` may be called.
pub record CanRun (k : Kernel) (next : ℕ) : Type 0 where
  pub kernel : IsKernel k.threads k.ready_list
  pub off : k.level ≡ false
  pub old : Thread
  pub there : thread_at k.threads k.current_thread ≡ some old
  pub next_ready : HasStatus k.threads next ready
  pub next_apart : All (λ t. next ≢ t) k.ready_list
  pub doomed : Doomed k.threads k.thread_to_be_destroyed

-- A kernel with the same threads, ready list and thread to be deleted, but for saved registers.
record Alike (k k₁ : Kernel) : Type 0 where
  list : k₁.ready_list ≡ k.ready_list
  doomed : k₁.thread_to_be_destroyed ≡ k.thread_to_be_destroyed
  level : k₁.level ≡ k.level
  has : (t : ℕ) (st : ThreadStatus) → HasStatus k.threads t st → HasStatus k₁.threads t st
  fenced : (t : ℕ) (th : Thread) → thread_at k₁.threads t ≡ some th → IsFenced th.stack

module _ (k : Kernel) (next : ℕ) (c : CanRun k next) where
  -- The registers of the machine are saved where the thread is a user program's.
  saved : (o : Option ℕ) → (k₁ : Kernel) × (save_if o k ≡ done k₁) × Alike k k₁
  unfolding save_if save_user_state
  saved none = (
    k,
    refl,
    record {
      list = refl;
      doomed = refl;
      level = refl;
      has = λ t st s. s;
      fenced = c.kernel.fenced;
    },
  )
  saved (some a) = (
    put k k.current_thread kept,
    rw (fetch_lem k k.current_thread c.old c.there) refl,
    record {
      list = refl;
      doomed = refl;
      level = refl;
      has = λ t st s. HasStatus-replaced k.threads k.current_thread c.old kept c.there t st refl s;
      fenced =
          IsFenced-replaced k.threads k.current_thread c.old kept c.there
            (c.kernel.fenced k.current_thread c.old c.there) c.kernel.fenced;
    },
  )
    where
      kept : Thread
      kept = record c.old {
        user_registers = copy_registers num_total_regs 0 k.registers c.old.user_registers;
      }

  -- The state behind `SWITCH`.
  record IsLeft (k₂ : Kernel) : Type 0 where
    current : k₂.current_thread ≡ next
    list : k₂.ready_list ≡ k.ready_list
    level : k₂.level ≡ false
    next_running : HasStatus k₂.threads next running
    all_ready : All (λ t. HasStatus k₂.threads t ready) k.ready_list
    fenced : (t : ℕ) (th : Thread) → thread_at k₂.threads t ≡ some th → IsFenced th.stack
    same_doomed : k₂.thread_to_be_destroyed ≡ k.thread_to_be_destroyed
    doomed : Doomed k₂.threads k.thread_to_be_destroyed

  leave-IsLeft : (k₂ : Kernel) × (leave k next ≡ done k₂) × IsLeft k₂
  unfolding leave
  leave-IsLeft =
      let (k₁, e, a) = saved c.old.space in
      let n : HasStatus k₁.threads next ready = a.has next ready c.next_ready in
      let th : Thread = record n.thread { status = running } in
      let moved : (t : ℕ)
          → next ≢ t
          → (st : ThreadStatus) → HasStatus k.threads t st
          → HasStatus (replaced k₁.threads next th) t st =
        λ t q st s.
          HasStatus-replaced_ne k₁.threads next n.thread th n.there t st q (a.has t st s) in
      (
        record k₁ { current_thread = next; threads = replaced k₁.threads next th },
        rw (ap not c.off) (
            rw (fetch_lem k k.current_thread c.old c.there) (
              rw e (
                rw (check_overflow_lem c.old (c.kernel.fenced k.current_thread c.old c.there)) (
                  set_status_lem (record k₁ { current_thread = next }) next n.thread running
                    n.there)))),
        record {
          current = refl;
          list = a.list;
          level = a.level ∙ c.off;
          next_running = record {
            thread = th;
            there = thread_at-replaced_self k₁.threads next n.thread th n.there;
            status = refl;
          };
          all_ready =
              All-apart_from (λ t. HasStatus k.threads t ready) _ next k.ready_list
                (λ t q s. moved t q ready s) c.next_apart c.kernel.all_ready;
          fenced =
              IsFenced-replaced k₁.threads next n.thread th n.there (a.fenced next n.thread n.there)
                a.fenced;
          same_doomed = a.doomed;
          doomed = still k.thread_to_be_destroyed c.doomed moved;
        },
      )
    where
      still :
          (o : Option ℕ)
          → Doomed k.threads o
          → {ths : Threads}
          → ((t : ℕ)
              → next ≢ t
              → (st : ThreadStatus) → HasStatus k.threads t st
              → HasStatus ths t st)
          → Doomed ths o
      still none h moved = tt
      still (some d) h moved =
          moved d
            (λ e. status_ne k.threads d next blocked ready ready_ne_blocked h c.next_ready (sym e))
            blocked h

  -- What `Run` leaves: the next thread runs, the ready list is the same, and the thread to be deleted is.
  pub record Runs (k' : Kernel) : Type 0 where
    pub current : k'.current_thread ≡ next
    pub list : k'.ready_list ≡ k.ready_list
    pub running' : IsRunning k'

  -- The old thread is deleted, if it was to be.
  record IsCleared (k₃ : Kernel) : Type 0 where
    current : k₃.current_thread ≡ next
    list : k₃.ready_list ≡ k.ready_list
    level : k₃.level ≡ false
    next_running : HasStatus k₃.threads next running
    all_ready : All (λ t. HasStatus k₃.threads t ready) k.ready_list
    fenced : (t : ℕ) (th : Thread) → thread_at k₃.threads t ≡ some th → IsFenced th.stack
    destroyed : k₃.thread_to_be_destroyed ≡ none

  destroy_if-IsCleared :
      (o : Option ℕ) (k₂ : Kernel)
      → k₂.thread_to_be_destroyed ≡ o
      → Doomed k₂.threads o
      → IsLeft k₂
      → (k₃ : Kernel) × (destroy_if o k₂ ≡ done k₃) × IsCleared k₃
  unfolding destroy_if delete_thread
  destroy_if-IsCleared none k₂ e d l = (
    k₂,
    refl,
    record {
      current = l.current;
      list = l.list;
      level = l.level;
      next_running = l.next_running;
      all_ready = l.all_ready;
      fenced = l.fenced;
      destroyed = e;
    },
  )
  destroy_if-IsCleared (some t) k₂ e d l = (
    record k₂ { threads = set k₂.threads t none; thread_to_be_destroyed = none },
    rw (fetch_lem k₂ t d.thread d.there)
        (rw (==_ne t k₂.current_thread (λ q. differs (q ∙ l.current))) refl),
    record {
      current = l.current;
      list = l.list;
      level = l.level;
      next_running = HasStatus-deleted k₂.threads t next running differs l.next_running;
      all_ready =
          All-apart_from (λ x. HasStatus k₂.threads x ready) _ t k.ready_list
            (λ x q s. HasStatus-deleted k₂.threads t x ready q s)
            (apart_status k₂.threads t blocked ready k.ready_list ready_ne_blocked d l.all_ready)
            l.all_ready;
      fenced = IsFenced-deleted k₂.threads t d.thread d.there l.fenced;
      destroyed = refl;
    },
  )
    where
      blocked_ne_running : blocked ≢ running
      blocked_ne_running q = cc

      differs : t ≢ next
      differs = status_ne k₂.threads t next blocked running blocked_ne_running d l.next_running

  ended :
      (k₃ k' : Kernel)
      → IsCleared k₃
      → k'.threads ≡ k₃.threads
      → k'.ready_list ≡ k₃.ready_list
      → k'.current_thread ≡ k₃.current_thread
      → k'.thread_to_be_destroyed ≡ k₃.thread_to_be_destroyed
      → Runs k'
  ended k₃ k' l e₁ e₂ e₃ e₄ = record {
    current = e₃ ∙ l.current;
    list = e₂ ∙ l.list;
    running' = record {
      kernel =
          subst (λ ts. IsKernel k'.threads ts) (sym (e₂ ∙ l.list))
            (subst (λ ths. IsKernel ths k.ready_list) (sym e₁)
              (record {
                all_ready = l.all_ready;
                distinct = c.kernel.distinct;
                fenced = l.fenced;
              }));
      current =
          subst (λ (t : ℕ). HasStatus k'.threads t running) (sym (e₃ ∙ l.current))
            (subst (λ ths. HasStatus ths next running) (sym e₁) l.next_running);
      destroyed = e₄ ∙ l.destroyed;
    };
  }

  restore_if-Runs :
      (o : Option ℕ) (k₃ : Kernel)
      → IsCleared k₃
      → (k' : Kernel) × (restore_if o k₃ ≡ done k') × Runs k'
  unfolding restore_if restore_user_state
  restore_if-Runs none k₃ l = (k₃, refl, ended k₃ k₃ l refl refl refl refl)
  restore_if-Runs (some a) k₃ l =
      let s : HasStatus k₃.threads k₃.current_thread running =
        subst (λ (t : ℕ). HasStatus k₃.threads t running) (sym l.current) l.next_running in
      let k' : Kernel = record k₃ {
        registers = copy_registers num_total_regs 0 s.thread.user_registers k₃.registers;
        page_table_of = some a;
      } in
      (
        k',
        rw (fetch_lem k₃ k₃.current_thread s.thread s.there) refl,
        ended k₃ k' l refl refl refl refl,
      )

  -- `Run` never aborts where it may be called.
  pub run-Runs : (k' : Kernel) × (run k next ≡ done k') × Runs k'
  unfolding run arrive
  run-Runs =
      let (k₂, e₂, l) = leave-IsLeft in
      let (k₃, e₃, r) =
        destroy_if-IsCleared k₂.thread_to_be_destroyed k₂ refl
          (subst (λ o. Doomed k₂.threads o) (sym l.same_doomed) l.doomed) l in
      let s : HasStatus k₃.threads k₃.current_thread running =
        subst (λ (t : ℕ). HasStatus k₃.threads t running) (sym r.current) r.next_running in
      let (k', e₄, q) = restore_if-Runs s.thread.space k₃ r in
      (k', rw e₂ (rw e₃ (rw (fetch_lem k₃ k₃.current_thread s.thread s.there) e₄)), q)
