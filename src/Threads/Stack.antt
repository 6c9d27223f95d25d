-- ===== src/Threads/Stack.antt =====
-- The words that the current thread writes on its stack, above the one that `CheckOverflow` looks at.
use non_os.Base.{
  ℕ, ◌<◌, ◌≡◌, refl, ◌∙◌, Bool, true, false, Option, none, some, List, set, get_or-set_ne, All-map,
  arith,
}
use non_os.Threads.{Kernel, Thread, ThreadStatus, put, running, ready, blocked}
use non_os.Threads.State.{
  thread_at, replaced, HasStatus, IsFenced, IsKernel, Doomed, IsState, HasStatus-replaced,
  IsFenced-replaced, thread_at-replaced_self,
}

-- A word written on a stack; the main thread's is not the kernel's.
abbrev pub push : Option (List ℕ) → ℕ → ℕ → Option (List ℕ)
push none i word = none
push (some stack) i word = some (set stack i word)

abbrev pub pushed : Thread → ℕ → ℕ → Thread
pushed th i word = record th { stack = push th.stack i word }

-- A word on the stack of the current thread, not its first.
push-IsFenced : (o : Option (List ℕ)) (i word : ℕ) → 0 < i → IsFenced o → IsFenced (push o i word)
push-IsFenced none i word p f = tt
push-IsFenced (some stack) i word p f =
    get_or-set_ne stack i 0 word 0 (λ e. absurd (omega arith)) ∙ f

module _ (k : Kernel) (th : Thread) (i word : ℕ)
    (there : thread_at k.threads k.current_thread ≡ some th) (p : 0 < i) where
  keeps_status :
      (t : ℕ) (st : ThreadStatus)
      → HasStatus k.threads t st
      → HasStatus (replaced k.threads k.current_thread (pushed th i word)) t st
  keeps_status t st s =
      HasStatus-replaced k.threads k.current_thread th (pushed th i word) there t st refl s

  pushed-IsKernel :
      IsKernel k.threads k.ready_list
      → IsKernel (replaced k.threads k.current_thread (pushed th i word)) k.ready_list
  pushed-IsKernel r = record {
    all_ready = All-map (λ t s. keeps_status t ready s) k.ready_list r.all_ready;
    distinct = r.distinct;
    fenced =
        IsFenced-replaced k.threads k.current_thread th (pushed th i word) there
          (push-IsFenced th.stack i word p (r.fenced k.current_thread th there)) r.fenced;
  }

  keeps_Doomed :
      (o : Option ℕ)
      → Doomed k.threads o
      → Doomed (replaced k.threads k.current_thread (pushed th i word)) o
  keeps_Doomed none d = tt
  keeps_Doomed (some x) d = keeps_status x blocked d

  pub pushed-IsState :
      (b : Bool) → IsState b k → IsState b (put k k.current_thread (pushed th i word))
  pushed-IsState true r = record {
    kernel = pushed-IsKernel r.kernel;
    current = keeps_status k.current_thread running r.current;
    destroyed = r.destroyed;
  }
  pushed-IsState false w = record {
    kernel = pushed-IsKernel w.kernel;
    off = w.off;
    old = pushed th i word;
    there = thread_at-replaced_self k.threads k.current_thread th (pushed th i word) there;
    doomed = keeps_Doomed k.thread_to_be_destroyed w.doomed;
  }
