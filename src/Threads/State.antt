-- ===== src/Threads/State.antt =====
-- What holds of the threads between two calls: who is on the ready list, and in which status.
use non_os.Base.{
  ℕ, zero, suc, ◌<◌, ◌≡◌, ◌≢◌, refl, ap, subst, sym, ◌∙◌, inl, inr, Option, Option-cases, none,
  some, Bool, true, List, [], ◌∷◌, length, get_or, set, get_or-set_self, get_or-set_ne, All,
  Distinct, done, arith, false,
}
use native.Mathlib.Decide.{ℕ_discrete}
use non_os.Threads.{
  Kernel, Thread, ThreadStatus, running, ready, blocked, fetch, set_status, put, check_overflow,
  stack_fencepost,
}

abbrev pub Threads : Type 0
Threads = List (Option Thread)

-- The thread that stands at an address.
abbrev pub thread_at : Threads → ℕ → Option Thread
thread_at ths t = get_or ths t none

abbrev pub replaced : Threads → ℕ → Thread → Threads
replaced ths t th = set ths t (some th)

pub record HasStatus (ths : Threads) (t : ℕ) (st : ThreadStatus) : Type 0 where
  pub thread : Thread
  pub there : thread_at ths t ≡ some thread
  pub status : thread.status ≡ st

-- The first word of the stack is what `StackAllocate` put there.
abbrev pub IsFenced : Option (List ℕ) → Type 0
IsFenced none = Unit
IsFenced (some stack) = get_or stack 0 0 ≡ stack_fencepost

-- The threads on the ready list are ready and stand there once, and no stack has run over.
pub record IsKernel (ths : Threads) (ready_list : List ℕ) : Type 0 where
  pub all_ready : All (λ t. HasStatus ths t ready) ready_list
  pub distinct : Distinct ready_list
  pub fenced : (t : ℕ) (th : Thread) → thread_at ths t ≡ some th → IsFenced th.stack

-- The current thread runs, and no thread is left to be deleted.
pub record IsRunning (k : Kernel) : Type 0 where
  pub kernel : IsKernel k.threads k.ready_list
  pub current : HasStatus k.threads k.current_thread running
  pub destroyed : k.thread_to_be_destroyed ≡ none

-- The thread to be deleted, if there is one, is there and neither ready nor running.
abbrev pub Doomed : Threads → Option ℕ → Type 0
Doomed ths none = Unit
Doomed ths (some d) = HasStatus ths d blocked

-- The current thread is in the loop of `Sleep`.
pub record IsWaiting (k : Kernel) : Type 0 where
  pub kernel : IsKernel k.threads k.ready_list
  pub off : k.level ≡ false
  pub old : Thread
  pub there : thread_at k.threads k.current_thread ≡ some old
  pub doomed : Doomed k.threads k.thread_to_be_destroyed

-- Whether the current thread runs (true) or is in the loop of `Sleep`.
abbrev pub IsState : Bool → Kernel → Type 0
IsState true k = IsRunning k
IsState false k = IsWaiting k

none_ne_some : {A : Type 0} {a : A} → none ≢ some a
none_ne_some e = cc

some_inj : {A : Type 0} {a b : A} → some a ≡ some b → a ≡ b
some_inj e = cc

pub fetch_lem :
    (k : Kernel) (t : ℕ) (th : Thread) → thread_at k.threads t ≡ some th → fetch k t ≡ done th
unfolding fetch
fetch_lem k t th e = rw (e, fetch) refl

pub set_status_lem :
    (k : Kernel) (t : ℕ) (th : Thread) (st : ThreadStatus)
    → thread_at k.threads t ≡ some th
    → set_status k t st ≡ done (put k t (record th { status = st }))
unfolding set_status
set_status_lem k t th st e = rw (fetch_lem k t th e) refl

-- An address with a thread is one of those given out.
there-lt : (ths : Threads) (t : ℕ) (th : Thread) → thread_at ths t ≡ some th → t < length ths
there-lt [] t th e = absurd (none_ne_some e)
there-lt (x ∷ ths) zero th e = omega arith
there-lt (x ∷ ths) (suc t) th e = omega (arith, there-lt ths t th e)

-- A thread's fields replaced, where it is there.
module _ (ths : Threads) (t : ℕ) (th th' : Thread) (e : thread_at ths t ≡ some th) where
  pub thread_at-replaced_self : thread_at (replaced ths t th') t ≡ some th'
  thread_at-replaced_self = get_or-set_self ths t (some th') none (there-lt ths t th e)

  pub HasStatus-replaced_ne :
      (j : ℕ) (st : ThreadStatus) → t ≢ j → HasStatus ths j st → HasStatus (replaced ths t th') j st
  HasStatus-replaced_ne j st n s = record {
    thread = s.thread;
    there = get_or-set_ne ths t j (some th') none n ∙ s.there;
    status = s.status;
  }

  -- The status is kept: the others cannot tell.
  pub HasStatus-replaced :
      (j : ℕ) (st : ThreadStatus)
      → th'.status ≡ th.status
      → HasStatus ths j st
      → HasStatus (replaced ths t th') j st
  HasStatus-replaced j st same s = elim (ℕ_discrete t j) [
    | yes q ↦ record {
      thread = th';
      there = ap (thread_at (replaced ths t th')) (sym q) ∙ thread_at-replaced_self;
      status =
          same
          ∙ ap (λ (x : Thread). x.status) (some_inj (sym e ∙ ap (thread_at ths) q ∙ s.there))
          ∙ s.status;
    }
    | no n ↦ HasStatus-replaced_ne j st n s
  ]

  pub IsFenced-replaced :
      IsFenced th'.stack
      → ((j : ℕ) (x : Thread) → thread_at ths j ≡ some x → IsFenced x.stack)
      → (j : ℕ) (x : Thread) → thread_at (replaced ths t th') j ≡ some x
      → IsFenced x.stack
  IsFenced-replaced good f j x q = elim (ℕ_discrete t j) [
    | yes p ↦
        subst (λ (y : Thread). IsFenced y.stack)
          (some_inj (sym thread_at-replaced_self ∙ ap (thread_at (replaced ths t th')) p ∙ q)) good
    | no n ↦ f j x (sym (get_or-set_ne ths t j (some th') none n) ∙ q)
  ]

-- A thread deleted.
pub IsFenced-deleted :
    (ths : Threads) (d : ℕ) (th : Thread)
    → thread_at ths d ≡ some th
    → ((j : ℕ) (x : Thread) → thread_at ths j ≡ some x → IsFenced x.stack)
    → (j : ℕ) (x : Thread) → thread_at (set ths d none) j ≡ some x
    → IsFenced x.stack
IsFenced-deleted ths d th e f j x q = elim (ℕ_discrete d j) [
  | yes p ↦ absurd (
      none_ne_some (
        sym (get_or-set_self ths d none none (there-lt ths d th e))
        ∙ ap (thread_at (set ths d none)) p
        ∙ q))
  | no n ↦ f j x (sym (get_or-set_ne ths d j none none n) ∙ q)
]

pub HasStatus-deleted :
    (ths : Threads) (d j : ℕ) (st : ThreadStatus)
    → d ≢ j
    → HasStatus ths j st
    → HasStatus (set ths d none) j st
HasStatus-deleted ths d j st n s = record {
  thread = s.thread;
  there = get_or-set_ne ths d j none none n ∙ s.there;
  status = s.status;
}

pub check_overflow_lem : (th : Thread) → IsFenced th.stack → check_overflow th ≡ done tt
unfolding check_overflow
check_overflow_lem th f = elim (Option-cases th.stack) [
  | inl e ↦ rw e refl
  | inr (stack, e) ↦ rw e (rw (subst IsFenced e f) refl)
]

-- Threads of different statuses are different.
pub status_ne :
    (ths : Threads) (t x : ℕ) (st st' : ThreadStatus)
    → st ≢ st'
    → HasStatus ths t st
    → HasStatus ths x st'
    → t ≢ x
status_ne ths t x st st' n s s' e = n (
    sym s.status
    ∙ ap (λ (y : Thread). y.status) (some_inj (sym s.there ∙ ap (thread_at ths) e ∙ s'.there))
    ∙ s'.status)

-- A statement about all threads of a list that goes over to those that are not `t`.
pub All-apart_from :
    (P Q : ℕ → Type 0) (t : ℕ) (ts : List ℕ)
    → ((x : ℕ) → t ≢ x → P x → Q x)
    → All (λ x. t ≢ x) ts
    → All P ts
    → All Q ts
All-apart_from P Q t [] f a b = tt
All-apart_from P Q t (x ∷ ts) f a b = (f x a.0 b.0, All-apart_from P Q t ts f a.1 b.1)

pub apart_status :
    (ths : Threads) (t : ℕ) (st st' : ThreadStatus) (ts : List ℕ)
    → st ≢ st'
    → HasStatus ths t st
    → All (λ x. HasStatus ths x st') ts
    → All (λ x. t ≢ x) ts
apart_status ths t st st' [] n s a = tt
apart_status ths t st st' (x ∷ ts) n s a =
    (status_ne ths t x st st' n s a.0, apart_status ths t st st' ts n s a.1)
