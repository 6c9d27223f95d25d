-- ===== src/Interrupt/Due.antt =====
-- `Interrupt::CheckIfDue` on the queue that the linked list stands for.
use non_os.Base.{
  ℕ, ◌+◌, ◌-◌, ◌<◌, ◌≤◌, ◌≡◌, ◌≢◌, ◌⊎◌, refl, ap, sym, subst, ◌∙◌, Bool, true, false, not, ◌&&◌,
  none, some, [], ◌∷◌, ltb, Outcome, done, ◌>>=◌, arith, Bool-cases, inl, inr, if◌then◌else◌,
  Option,
}
use non_os.Machine.{Machine}
use non_os.Mips.Registers.{delayed_load}
use non_os.LinkedList.{is_empty}
use non_os.LinkedList.Chain.{Represents}
use non_os.LinkedList.Ends.{sorted_remove-TakesFirst}
use non_os.LinkedList.Sorted.{insert}
use non_os.Interrupt.{
  Interrupt, PendingInterrupt, MachineStatus, idle_mode, system_mode, user_mode, IntType, timer_int,
  disk_int, console_write_int, console_read_int, network_send_int, network_recv_int, is_idle,
  is_user, is_timer, apply_load, fire, fire_unless_idle, check_time, check_if_due,
}
use non_os.Interrupt.Queue.{Queue, Queued, Requeued, Queued-is_empty, is_empty-Queued, enqueue_lem}

abbrev pub advanced : Interrupt → ℕ → Interrupt
advanced s when = record s {
  idle_ticks = s.idle_ticks + (when - s.total_ticks);
  total_ticks = when;
}

-- The clock has come to the time of an interrupt: it was there already, or it was to be advanced, and
-- the machine was idle in between. Nothing else has changed but the queue.
abbrev pub Comes : Interrupt → Bool → ℕ → Interrupt → Type 0
Comes s advance_clock when s' =
    ((when ≤ s.total_ticks) × Requeued s s')
    ⊎ ((advance_clock ≡ true) × (s.total_ticks < when) × Requeued (advanced s when) s')

-- An idle machine has nothing to come but a timer interrupt.
abbrev pub OnlyTimer : Interrupt → PendingInterrupt → Queue → Type 0
OnlyTimer s x rest = (s.status ≡ idle_mode) × (x.kind ≡ timer_int) × (rest ≡ [])

-- The state that a handler is called in, with the interrupt taken off the queue of `u`.
abbrev pub called : Interrupt → Interrupt
called u = record (apply_load u) { in_handler = true; status = system_mode }

module _ (call : PendingInterrupt → Interrupt → Outcome Interrupt) where
  -- What `CheckIfDue` can do with the queue `xs`, which starts with the earliest interrupt.
  pub data Checks (s : Interrupt) (advance_clock : Bool) (xs : Queue)
      (r : Outcome (Bool × Interrupt)) : Type 0 where
    nothing : xs ≡ [] → r ≡ done (false, s) → Checks s advance_clock xs r
    waits :
        {when : ℕ} {x : PendingInterrupt} {rest : Queue} (s' : Interrupt)
        → xs ≡ (when, x) ∷ rest
        → advance_clock ≡ false
        → s.total_ticks < when
        → r ≡ done (false, s')
        → Queued s' (insert when x rest)
        → Requeued s s'
        → Checks s advance_clock xs r
    only_timer :
        {when : ℕ} {x : PendingInterrupt} {rest : Queue} (s' : Interrupt)
        → xs ≡ (when, x) ∷ rest
        → OnlyTimer s x rest
        → Comes s advance_clock when s'
        → r ≡ done (false, s')
        → Queued s' ((when, x) ∷ [])
        → Checks s advance_clock xs r
    fires :
        {when : ℕ} {x : PendingInterrupt} {rest : Queue} (u : Interrupt)
        → xs ≡ (when, x) ∷ rest
        → ¬ OnlyTimer s x rest
        → Comes s advance_clock when u
        → Queued u rest
        → Queued (called u) rest
        → when ≤ (called u).total_ticks
        → r ≡ (
            call x (called u) >>= λ s''.
            done (true, record s'' { status = s.status; in_handler = false }))
        → Checks s advance_clock xs r

-- `DelayedLoad` before a handler leaves the queue and the clock.
record SameQueue (s s' : Interrupt) : Type 0 where
  store : s'.store ≡ s.store
  pending : s'.pending ≡ s.pending
  ticks : s'.total_ticks ≡ s.total_ticks

apply_load-SameQueue : (s : Interrupt) → SameQueue s (apply_load s)
apply_load-SameQueue s = go s.machine (is_user s.status)
  where
    go :
        (m : Option Machine) (u : Bool)
        → SameQueue s (elim m [
          | none ↦ s
          | some m ↦ if u then record s { machine = some (delayed_load m 0 0) } else s
        ])
    go none u = record { store = refl; pending = refl; ticks = refl }
    go (some m) true = record { store = refl; pending = refl; ticks = refl }
    go (some m) false = record { store = refl; pending = refl; ticks = refl }

both : {a b : Bool} → (a && b) ≡ true → (a ≡ true) × (b ≡ true)
both {a = true} e = (refl, e)
both {a = false} e = cc

is_idle_lem : (st : MachineStatus) → is_idle st ≡ true → st ≡ idle_mode
is_idle_lem idle_mode e = refl
is_idle_lem system_mode e = cc
is_idle_lem user_mode e = cc

is_timer_lem : (k : IntType) → is_timer k ≡ true → k ≡ timer_int
is_timer_lem timer_int e = refl
is_timer_lem disk_int e = cc
is_timer_lem console_write_int e = cc
is_timer_lem console_read_int e = cc
is_timer_lem network_send_int e = cc
is_timer_lem network_recv_int e = cc

-- The clock stands where the interrupt's time is, or behind it.
Comes-ticks :
    (s s' : Interrupt) (adv : Bool) (when : ℕ) → Comes s adv when s' → when ≤ s'.total_ticks
Comes-ticks s s' adv when (inl (h, e)) = omega (arith, ap (λ (x : Interrupt). x.total_ticks) e, h)
Comes-ticks s s' adv when (inr (_, _, e)) = omega (arith, ap (λ (x : Interrupt). x.total_ticks) e)

Comes-status :
    (s s' : Interrupt) (adv : Bool) (when : ℕ) → Comes s adv when s' → s'.status ≡ s.status
Comes-status s s' adv when (inl (h, e)) = ap (λ (x : Interrupt). x.status) e
Comes-status s s' adv when (inr (_, _, e)) = ap (λ (x : Interrupt). x.status) e

Requeued-trans : (s s' s'' : Interrupt) → Requeued s s' → Requeued s' s'' → Requeued s s''
Requeued-trans s s' s'' e e' =
    e' ∙ ap (λ (x : Interrupt). record x { pending = s''.pending; store = s''.store }) e

Comes-Requeued :
    (s s' s'' : Interrupt) (adv : Bool) (when : ℕ)
    → Comes s adv when s'
    → Requeued s' s''
    → Comes s adv when s''
Comes-Requeued s s' s'' adv when (inl (h, e)) q = inl (h, Requeued-trans s s' s'' e q)
Comes-Requeued s s' s'' adv when (inr (a, h, e)) q =
    inr (a, h, Requeued-trans (advanced s when) s' s'' e q)

-- The guard holds where `OnlyTimer` does.
guard-OnlyTimer :
    (s₀ s : Interrupt) (x : PendingInterrupt) (rest : Queue)
    → s.status ≡ s₀.status
    → Queued s rest
    → OnlyTimer s₀ x rest
    → (is_idle s.status && (is_timer x.kind && is_empty s.pending)) ≡ true
guard-OnlyTimer s₀ s x rest st q (idle, timer, empty) =
    rw (st ∙ idle, timer, is_empty-Queued s (subst (λ zs. Queued s zs) empty q)) refl

true_ne_false : true ≢ false
true_ne_false e = cc

module _ (call : PendingInterrupt → Interrupt → Outcome Interrupt) where
  -- The rest of `CheckIfDue` from a state with the queue `rest`, whose clock has reached the time.
  fire_unless_idle-Checks :
      (s₀ s : Interrupt) (advance_clock : Bool) (when : ℕ) (x : PendingInterrupt) (rest : Queue)
      → Queued s rest
      → Comes s₀ advance_clock when s
      → Checks call s₀ advance_clock ((when, x) ∷ rest) (fire_unless_idle call s when x)
  unfolding fire_unless_idle fire
  fire_unless_idle-Checks s₀ s adv when x rest q c =
      let st = Comes-status s₀ s adv when c in
      elim (Bool-cases (is_idle s.status && (is_timer x.kind && is_empty s.pending))) [
        | inl e ↦
            let (s', eq, r, t) = enqueue_lem s x when rest q in
            let empty = Queued-is_empty s rest q (both (both e).1).1 in
            only_timer s' refl
              (
                sym st ∙ is_idle_lem s.status (both e).0,
                is_timer_lem x.kind (both (both e).1).0,
                empty,
              )
              (Comes-Requeued s₀ s s' adv when c t)
              (rw e (ap (λ m. m >>= λ s'. done (false, s')) eq))
              (subst (λ zs. Queued s' (insert when x zs)) empty r)
        | inr e ↦
            let same = apply_load-SameQueue s in
            let s₁ = called s in
            rw e (
              fires s refl (λ o. true_ne_false (sym (guard-OnlyTimer s₀ s x rest st q o) ∙ e)) c q
                (subst (λ l. Represents (apply_load s).store l rest) (sym same.pending)
                  (subst (λ h. Represents h s.pending rest) (sym same.store) q))
                (omega (arith, same.ticks, Comes-ticks s₀ s adv when c))
                (ap
                  (λ u.
                    call x s₁ >>= λ s''. done (true, record s'' { status = u; in_handler = false }))
                  st))
      ]

  check_time-Checks :
      (s₀ s : Interrupt) (advance_clock : Bool) (when : ℕ) (x : PendingInterrupt) (rest : Queue)
      → Queued s rest
      → Requeued s₀ s
      → Checks call s₀ advance_clock ((when, x) ∷ rest) (check_time call s advance_clock when x)
  unfolding check_time
  check_time-Checks s₀ s adv when x rest q k =
      let tk : s.total_ticks ≡ s₀.total_ticks = ap (λ (x : Interrupt). x.total_ticks) k in
      elim (Bool-cases (ltb s.total_ticks when)) [
        | inr e ↦
            rw (e, and_false adv)
              (fire_unless_idle-Checks s₀ s adv when x rest q (inl (ground (arith, tk), k)))
        | inl e ↦ elim (Bool-cases adv) [
          | inl a ↦
              rw (e, a)
                (fire_unless_idle-Checks s₀ _ true when x rest q
                  (inr (refl, ground (arith, tk), ap (λ (y : Interrupt). advanced y when) k)))
          | inr a ↦
              let (s', eq, r, t) = enqueue_lem s x when rest q in
              rw (e, a)
                (waits s' refl refl (ground (arith, tk)) (ap (λ m. m >>= λ s'. done (false, s')) eq)
                  r (Requeued-trans s₀ s s' k t))
        ]
      ]
    where
      and_false : (b : Bool) → (b && false) ≡ false
      and_false true = refl
      and_false false = refl

  -- CheckIfDue with interrupts off, for any code of the handlers. With nothing in the queue, it returns
  -- FALSE and changes nothing. Where the first interrupt lies in the future and the clock is not to be
  -- advanced, it goes back into the queue, nothing else changes, and the result is FALSE. Otherwise the
  -- clock stands still where the time has come, and is advanced to it, as idle time, where it has
  -- not. Then, exactly where an idle machine has nothing to come but this timer interrupt, it goes back
  -- into the queue and the result is FALSE; everywhere else it is off the queue, and its handler is
  -- called in system mode and inside a handler, with the pending load of a user program done, and
  -- afterwards the result is TRUE and the status is the one before.
  pub check_if_due-Checks :
      (s : Interrupt) (advance_clock : Bool) (xs : Queue)
      → s.level ≡ false
      → Queued s xs
      → Checks call s advance_clock xs (check_if_due call s advance_clock)
  unfolding check_if_due
  check_if_due-Checks s adv [] lv q =
      nothing refl (rw (ap not lv, sorted_remove-TakesFirst s.pending s.store [] q) refl)
  check_if_due-Checks s adv (y ∷ xs) lv q =
      let (l, h, e, r) = sorted_remove-TakesFirst s.pending s.store (y ∷ xs) q in
      rw (ap not lv, e)
        (check_time-Checks s (record s { pending = l; store = h }) adv y.0 y.1 xs r refl)
