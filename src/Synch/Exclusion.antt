-- ===== src/Synch/Exclusion.antt =====
-- Mutual exclusion, and no thread that sleeps beside a free lock with nobody woken.
use non_os.Base.{
  ℕ, ◌+◌, ◌≤◌, ◌≡◌, ◌≢◌, refl, ap, sym, subst, ◌∙◌, true, false, Option, none, some, List, [], ◌∷◌,
  ◌++◌, ◌==◌, length, length-append, done, aborted, arith, Bool-cases, inl, inr,
}
use non_os.Synch.{p, v, first_of, rest_of, Lock, new_lock, is_held_by, acquire, release}
use non_os.Synch.System.{
  System, start, erase, after_acquire, after_release, Step, acquires, resumes, releases, Reachable,
  begin, then_step,
}

pub record IsSafe (s : System) : Type 0 where
  pub units : s.lock.sem.value + length s.inside ≡ 1
  pub owner : s.lock.lock_owner ≡ first_of s.inside
  pub wakes : s.lock.sem.queue ≢ [] → s.lock.sem.value ≤ length s.woken

start-IsSafe : IsSafe start
unfolding new_lock
start-IsSafe = record { units = refl; owner = refl; wakes = λ n. absurd (n refl) }

-- A thread at the test of `P`, of those that may be woken one fewer than before.
after_acquire-IsSafe :
    (t : ℕ) (s : System) (before : ℕ)
    → s.lock.sem.value + length s.inside ≡ 1
    → s.lock.lock_owner ≡ first_of s.inside
    → (s.lock.sem.queue ≢ [] → s.lock.sem.value ≤ before)
    → before ≤ length s.woken + 1
    → IsSafe (after_acquire t s)
unfolding acquire p
after_acquire-IsSafe t s before u o w b = elim (Bool-cases (s.lock.sem.value == 0)) [
  | inl e ↦ rw e (record { units = u; owner = o; wakes = λ n. ground arith })
  | inr e ↦
      rw e (record { units = ground (arith, u); owner = refl; wakes = λ n. omega (arith, w n, b) })
]

-- The lock after a release.
abbrev released : Lock → Lock
released l = record {
  lock_owner = none;
  sem = record { value = l.sem.value + 1; queue = rest_of l.sem.queue };
}

release_lem :
    (t : ℕ) (l : Lock) (r : Option ℕ × Lock)
    → release t l ≡ done r
    → (is_held_by t l ≡ true) × (r ≡ (first_of l.sem.queue, released l))
unfolding release v
release_lem t l r h = elim (Bool-cases (is_held_by t l)) [
  | inl e ↦ (e, go (rw e at h))
  | inr e ↦ absurd (no (rw e at h))
]
  where
    go : done (first_of l.sem.queue, released l) ≡ done r → r ≡ (first_of l.sem.queue, released l)
    go h = cc

    no : aborted ≢ done r
    no h = cc

-- The owner of a safe lock is the one that is inside.
owner_first :
    (t : ℕ) (o : Option ℕ) (us : List ℕ)
    → elim o [ none ↦ false | some u ↦ u == t ] ≡ true
    → o ≡ first_of us
    → (vs : List ℕ) × (us ≡ t ∷ vs)
owner_first t none us h e = cc
owner_first t (some u) [] h e = cc
owner_first t (some u) (w ∷ us) h e =
    let first : w ≡ u = cc in
    let mine : u ≡ t = ground arith in (us, ap (λ x. x ∷ us) (first ∙ mine))

empty_of_length : (us : List ℕ) → length us ≡ 0 → us ≡ []
empty_of_length [] h = refl
empty_of_length (u ∷ us) h = absurd (omega (arith, h))

erase_only : (t : ℕ) → erase t (t ∷ []) ≡ []
erase_only t = rw (same t) refl
  where
    same : (t : ℕ) → (t == t) ≡ true
    same t = ground arith

wakes_after :
    (queue woken : List ℕ) (value : ℕ)
    → (queue ≢ [] → value ≤ length woken)
    → rest_of queue ≢ []
    → value + 1 ≤ length (elim (first_of queue) [ none ↦ woken | some u ↦ woken ++ u ∷ [] ])
wakes_after [] woken value w n = absurd (n refl)
wakes_after (u ∷ us) woken value w n = omega (arith, w (λ e. cc), length-append woken (u ∷ []))

after_release-IsSafe :
    (t : ℕ) (s : System)
    → IsSafe s
    → is_held_by t s.lock ≡ true
    → IsSafe (after_release t s (first_of s.lock.sem.queue) (released s.lock))
after_release-IsSafe t s i h =
    let (vs, e) = owner_first t s.lock.lock_owner s.inside h i.owner in
    let alone = empty_of_length vs (omega (arith, i.units, ap length e)) in
    let left = ap (erase t) (e ∙ ap (λ us. t ∷ us) alone) ∙ erase_only t in
    record {
      units = omega (arith, i.units, ap length e, ap length left);
      owner = sym (ap first_of left);
      wakes = wakes_after s.lock.sem.queue s.woken s.lock.sem.value i.wakes;
    }

Step-IsSafe : (s s' : System) → IsSafe s → Step s s' → IsSafe s'
Step-IsSafe s s' i (acquires t) =
    after_acquire-IsSafe t s (length s.woken) i.units i.owner i.wakes (omega arith)
Step-IsSafe s s' i (resumes t before behind e) =
    after_acquire-IsSafe t (record s { woken = before ++ behind }) (length s.woken) i.units i.owner
      i.wakes
      (omega (arith, ap length e, length-append before (t ∷ behind), length-append before behind))
Step-IsSafe s s' i (releases t ready lock e) =
    let (h, r) = release_lem t s.lock (ready, lock) e in
    subst (λ x. IsSafe (after_release t s x.0 x.1)) (sym r) (after_release-IsSafe t s i h)

-- In every state that threads can bring a new lock to, in any order of their calls and wake-ups: the
-- semaphore's value and the number of threads inside make 1, so there is never more than one inside;
-- the lock's owner is that thread, or none; and while the lock is free and a thread sleeps in the
-- queue, some thread has been woken and will look at the lock again.
pub Reachable-IsSafe : (s : System) → Reachable s → IsSafe s
Reachable-IsSafe s begin = start-IsSafe
Reachable-IsSafe s (then_step {s = r} h step) = Step-IsSafe r s (Reachable-IsSafe r h) step
