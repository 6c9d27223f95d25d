-- ===== src/Synch/Tests.antt =====
-- Three threads at a lock: the first is inside, leaves and wakes the second; the third is faster.
use non_os.Base.{◌≡◌, refl, none, some, [], ◌∷◌}
use non_os.Synch.{new_lock, acquire, release, p, v}
use non_os.Synch.System.{
  System, start, after_acquire, acquires, resumes, releases, Reachable, begin, then_step,
}
use non_os.Synch.Exclusion.{IsSafe, Reachable-IsSafe}

abbrev waiting : System
waiting = after_acquire 2 (after_acquire 1 start)

abbrev handed_on : System
handed_on = record {
  lock = record { lock_owner = none; sem = record { value = 1; queue = [] } };
  woken = 2 ∷ [];
  inside = [];
}

waiting_queue : waiting ≡ record {
  lock = record { lock_owner = some 1; sem = record { value = 0; queue = 2 ∷ [] } };
  woken = [];
  inside = 1 ∷ [];
}
unfolding acquire p new_lock
waiting_queue = refl

waiting-Reachable : Reachable waiting
waiting-Reachable = then_step (then_step begin (acquires 1)) (acquires 2)

handed_on-Reachable : Reachable handed_on
unfolding acquire p new_lock release v
handed_on-Reachable = then_step waiting-Reachable (
    releases 1 (some 2) (record { lock_owner = none; sem = record { value = 1; queue = [] } }) refl)

overtaken-Reachable :
    Reachable (after_acquire 2 (record (after_acquire 3 handed_on) { woken = [] }))
unfolding acquire p
overtaken-Reachable = then_step (then_step handed_on-Reachable (acquires 3)) (resumes 2 [] [] refl)

Reachable-IsSafe_example :
    IsSafe (after_acquire 2 (record (after_acquire 3 handed_on) { woken = [] }))
Reachable-IsSafe_example = Reachable-IsSafe _ overtaken-Reachable
