-- ===== src/Interrupt/Queue.antt =====
-- The queue of interrupts that are to come, and `Interrupt::Schedule`.
use non_os.Base.{
  ℕ, zero, suc, ◌+◌, ◌<◌, ◌≡◌, ◌≢◌, refl, ap, sym, ◌∙◌, true, false, none, List, [], ◌∷◌, ltb, done,
  aborted, ◌>>=◌, arith, inl, inr, ◌⊎◌, Option,
}
use non_os.LinkedList.{Store, is_empty}
use non_os.LinkedList.Chain.{Segment, stop, link, Represents}
use non_os.LinkedList.Sorted.{insert}
use non_os.LinkedList.Insertion.{sorted_insert-Represents}
use non_os.Interrupt.{Interrupt, PendingInterrupt, IntType, enqueue, schedule}

abbrev pub Queue : Type 0
Queue = List (ℕ × PendingInterrupt)

-- The queue of interrupts that are to come, with their times.
abbrev pub Queued : Interrupt → Queue → Type 0
Queued s xs = Represents s.store s.pending xs

is_empty_segment :
    (h : Store PendingInterrupt) (ps : List ℕ) (y : ℕ × PendingInterrupt) (xs : Queue)
    (first last : Option ℕ)
    → Segment h ps (y ∷ xs) first none
    → is_empty (record { first = first; last = last }) ≡ false
is_empty_segment h [] y xs first last c = elim c [ ]
is_empty_segment h (p ∷ ps) y xs first last (link c g) = refl

pub is_empty-Queued : (s : Interrupt) → Queued s [] → is_empty s.pending ≡ true
is_empty-Queued s q = go q.addresses s.pending.first s.pending.last q.chain
  where
    go :
        (ps : List ℕ) (first last : Option ℕ)
        → Segment s.store ps [] first none
        → is_empty (record { first = first; last = last }) ≡ true
    go [] first last stop = refl
    go (p ∷ ps) first last c = elim c [ ]

pub Queued-is_empty :
    (s : Interrupt) (xs : Queue) → Queued s xs → is_empty s.pending ≡ true → xs ≡ []
Queued-is_empty s [] q e = refl
Queued-is_empty s (y ∷ xs) q e = absurd (
    differs
      (sym e ∙ is_empty_segment s.store q.addresses y xs s.pending.first s.pending.last q.chain))
  where
    differs : true ≢ false
    differs e = cc

-- Nothing but the queue has changed.
abbrev pub Requeued : Interrupt → Interrupt → Type 0
Requeued s s' = s' ≡ record s { pending = s'.pending; store = s'.store }

pub enqueue_lem :
    (s : Interrupt) (x : PendingInterrupt) (when : ℕ) (xs : Queue)
    → Queued s xs
    → (s' : Interrupt) × (enqueue s x when ≡ done s') × Queued s' (insert when x xs) × Requeued s s'
enqueue_lem s x when xs q =
    let (l, h, e, r) = (sorted_insert-Represents s.pending s.store xs x when q).0 in
    (
      record s { pending = l; store = h },
      ap (λ m. m >>= λ r. done (record s { pending = r.0; store = r.1 })) e,
      r,
      refl,
    )

-- What `Schedule` can do.
abbrev pub Schedules : Interrupt → ℕ → ℕ → ℕ → IntType → Queue → Type 0
Schedules s handler arg from_now kind xs =
    let when = s.total_ticks + from_now in
    ((from_now ≡ 0) × (schedule s handler arg from_now kind ≡ aborted))
    ⊎ ((s' : Interrupt) × (0 < from_now)
        × (schedule s handler arg from_now kind ≡ done s')
        × Queued s'
            (insert when (record { handler = handler; arg = arg; when = when; kind = kind }) xs)
        × (s'.total_ticks ≡ s.total_ticks))

-- Schedule aborts where the delay is 0. Otherwise it never aborts, puts the interrupt into the queue at
-- the current time and the delay, behind those of the same time, and does not move the clock.
pub schedule_lem :
    (s : Interrupt) (handler arg from_now : ℕ) (kind : IntType) (xs : Queue)
    → Queued s xs
    → Schedules s handler arg from_now kind xs
unfolding schedule
schedule_lem s handler arg zero kind xs q = inl (refl, refl)
schedule_lem s handler arg (suc n) kind xs q =
    let (s', e, r, t) = enqueue_lem s _ (s.total_ticks + suc n) xs q in
    inr (s', omega arith, rw (positive n) e, r, ap (λ (x : Interrupt). x.total_ticks) t)
  where
    positive : (n : ℕ) → ltb 0 (suc n) ≡ true
    positive n = ground arith
