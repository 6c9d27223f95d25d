-- ===== src/Disk/Tests.antt =====
-- Examples.
-- A disk of empty sectors, with the head over sector 40, and a clock without interrupts to come.
use non_os.Base.{ℕ, refl, false, none, List, [], ◌∷◌, arith, replicate, length-replicate}
use non_os.Files.{disk_sectors}
use non_os.LinkedList.Chain.{stop}
use non_os.Interrupt.{Interrupt, system_mode}
use non_os.Interrupt.Queue.{Queued}
use non_os.Disk.{Disk}
use non_os.Disk.Requests.{Returns, read_request-write_request}

abbrev empty_disk : Disk
empty_disk = record {
  address = 7;
  sectors = replicate disk_sectors [];
  active = false;
  last_sector = 40;
  buffer_init = 0;
}

abbrev clock : Interrupt
clock = record {
  level = false;
  pending = record { first = none; last = none };
  store = [];
  in_handler = false;
  yield_on_return = false;
  status = system_mode;
  total_ticks = 1250;
  idle_ticks = 0;
  machine = none;
}

clock-Queued : Queued clock []
clock-Queued = record { addresses = []; chain = stop; separate = tt; last = refl }

read_request-write_request_example : Returns 3 empty_disk clock 100 (1 ∷ 2 ∷ []) [] clock []
read_request-write_request_example =
    read_request-write_request 3 empty_disk clock 100 (1 ∷ 2 ∷ []) [] clock [] refl
      (length-replicate {A = List ℕ} disk_sectors []) (omega arith) (omega arith) clock-Queued
      clock-Queued
