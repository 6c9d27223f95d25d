-- ===== src/Synch/System.antt =====
-- Threads that share a lock, as steps: each one is a thread's run with interrupts off.
use non_os.Base.{ℕ, ◌≡◌, Option, none, some, List, [], ◌∷◌, ◌++◌, ◌==◌, if◌then◌else◌, done}
use non_os.Synch.{Lock, new_lock, acquire, release}

-- The threads inside are those that have come back from `Acquire` and have not called `Release`; the
-- woken ones were made ready by a `V` and have not run since.
pub record System : Type 0 where
  pub lock : Lock
  pub woken : List ℕ
  pub inside : List ℕ

abbrev pub start : System
start = record { lock = new_lock; woken = []; inside = [] }

-- One occurrence less.
abbrev pub erase : ℕ → List ℕ → List ℕ
erase t [] = []
erase t (u ∷ us) = let later = erase t us in if u == t then us else u ∷ later

abbrev pub after_acquire : ℕ → System → System
after_acquire t s =
    let r = acquire t s.lock in
    record s { lock = r.1; inside = if r.0 then t ∷ s.inside else s.inside }

abbrev pub after_release : ℕ → System → Option ℕ → Lock → System
after_release t s ready lock = record {
  lock = lock;
  woken = elim ready [ none ↦ s.woken | some u ↦ s.woken ++ u ∷ [] ];
  inside = erase t s.inside;
}

pub data Step (s : System) : System → Type 0 where
  -- A thread calls `Acquire`.
  acquires : (t : ℕ) → Step s (after_acquire t s)
  -- A woken thread runs again, in any order among the ready ones.
  resumes :
      (t : ℕ) (before behind : List ℕ)
      → s.woken ≡ before ++ t ∷ behind
      → Step s (after_acquire t (record s { woken = before ++ behind }))
  -- A thread calls `Release`, and the ASSERT holds.
  releases :
      (t : ℕ) (ready : Option ℕ) (lock : Lock)
      → release t s.lock ≡ done (ready, lock)
      → Step s (after_release t s ready lock)

-- The states that steps can lead to.
pub data Reachable : System → Type 0 where
  begin : Reachable start
  then_step : {s s' : System} → Reachable s → Step s s' → Reachable s'
