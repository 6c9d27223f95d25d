-- ===== src/Interrupt/Tests.antt =====
-- A clock at 50 with two interrupts to come.
use non_os.Base.{refl, false, none, some, [], ◌∷◌, Outcome, done, arith}
use non_os.LinkedList.Chain.{stop, link}
use non_os.Interrupt.{Interrupt, PendingInterrupt, timer_int, disk_int, system_mode, check_if_due}
use non_os.Interrupt.Queue.{Queue, Queued, Schedules, schedule_lem}
use non_os.Interrupt.Due.{Checks, check_if_due-Checks}

abbrev disk_done : PendingInterrupt
disk_done = record { handler = 1; arg = 0; when = 40; kind = disk_int }

abbrev time_slice : PendingInterrupt
time_slice = record { handler = 2; arg = 0; when = 90; kind = timer_int }

abbrev running : Interrupt
running = record {
  level = false;
  pending = record { first = some 1; last = some 0 };
  store =
      some (record { item = time_slice; key = 90; next = none })
      ∷ some (record { item = disk_done; key = 40; next = some 0 })
      ∷ [];
  in_handler = false;
  yield_on_return = false;
  status = system_mode;
  total_ticks = 50;
  idle_ticks = 0;
  machine = none;
}

abbrev to_come : Queue
to_come = (40, disk_done) ∷ (90, time_slice) ∷ []

running-Queued : Queued running to_come
running-Queued = record {
  addresses = 1 ∷ 0 ∷ [];
  chain = link refl (link refl stop);
  separate = ((omega arith, tt), (tt, tt));
  last = refl;
}

schedule_lem_example : Schedules running 3 0 5 disk_int to_come
schedule_lem_example = schedule_lem running 3 0 5 disk_int to_come running-Queued

-- A handler that does nothing.
abbrev ignore : PendingInterrupt → Interrupt → Outcome Interrupt
ignore x s = done s

check_if_due-Checks_example :
    Checks ignore running false to_come (check_if_due ignore running false)
check_if_due-Checks_example = check_if_due-Checks ignore running false to_come refl running-Queued
