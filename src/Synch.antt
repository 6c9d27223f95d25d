-- ===== src/Synch.antt =====
-- code/threads/synch.h and code/threads/synch.cc: semaphores and locks. Threads are numbers, and the
-- queue of a semaphore, a list of code/threads/list.cc, is the sequence that it stands for. Interrupts
-- are off in every method, so a method runs without a switch up to its end or to `Sleep`.
pub mod System
pub mod Exclusion
mod Tests
use non_os.Base.{
  ℕ, zero, suc, ◌+◌, ◌-◌, Bool, true, false, Option, none, some, List, [], ◌∷◌, ◌++◌, ◌==◌,
  if◌then◌else◌, Outcome, done, aborted, assert, ◌>>=◌, ◌>>◌,
}

pub record Semaphore : Type 0 where
  pub value : ℕ
  pub queue : List ℕ

-- `P` from the test of the `while` on, in the thread `t`: true where it goes through and returns, false
-- where the thread goes to sleep in the queue, to start here again when it is woken.
pub p : ℕ → Semaphore → Bool × Semaphore
p t s =
    if s.value == 0
    then (false, record s { queue = s.queue ++ t ∷ [] })
    else (true, record s { value = s.value - 1 })

-- `queue->Remove()`
abbrev pub first_of : List ℕ → Option ℕ
first_of [] = none
first_of (t ∷ ts) = some t

abbrev pub rest_of : List ℕ → List ℕ
rest_of [] = []
rest_of (t ∷ ts) = ts

-- `V`: the thread that is made ready, if there is one, and the semaphore.
pub v : Semaphore → Option ℕ × Semaphore
v s = (first_of s.queue, record { value = s.value + 1; queue = rest_of s.queue })

-- `none` for the owner -1.
pub record Lock : Type 0 where
  pub lock_owner : Option ℕ
  pub sem : Semaphore

pub new_lock : Lock
new_lock = record { lock_owner = none; sem = record { value = 1; queue = [] } }

abbrev pub is_held_by : ℕ → Lock → Bool
is_held_by t l = elim l.lock_owner [ none ↦ false | some o ↦ o == t ]

-- `Acquire` from the test in `P` on, with the result of `p`.
pub acquire : ℕ → Lock → Bool × Lock
acquire t l =
    let r = p t l.sem in
    (r.0, record { lock_owner = if r.0 then some t else l.lock_owner; sem = r.1 })

pub release : ℕ → Lock → Outcome (Option ℕ × Lock)
release t l = do
  assert (is_held_by t l)
  let r : Option ℕ × Semaphore = v l.sem
  done (r.0, record { lock_owner = none; sem = r.1 })
