-- ===== src/Disk.antt =====
-- code/machine/disk.h and code/machine/disk.cc: the simulated disk. A request reads or writes the host's
-- file at once, and its interrupt comes after the time that the disk's head and its rotation need. The
-- clock is that of the interrupts, and below the 2 ^ 31 that an `int` holds. Printing and the numbers of reads and writes have no effect.
pub mod Latency
pub mod Requests
mod Tests
use non_os.Base.{
  ℕ, ◌+◌, ◌-◌, ◌*◌, ◌/◌, ◌%◌, Bool, true, false, not, ◌&&◌, List, [], ltb, ◌==◌, if◌then◌else◌,
  get_or, set, Outcome, done, aborted, assert, ◌>>=◌, ◌>>◌,
}
use non_os.Files.{disk_sectors}
use non_os.Interrupt.{Interrupt, IntType, disk_int, schedule}

-- `SectorsPerTrack`, and `SeekTime` and `RotationTime` of code/machine/stats.h
abbrev pub sectors_per_track : ℕ
sectors_per_track = 32

abbrev pub seek_time : ℕ
seek_time = 500

abbrev pub rotation_time : ℕ
rotation_time = 500

-- `address` is the object's own; `sectors` is what the host's file holds behind the magic number.
pub record Disk : Type 0 where
  pub address : ℕ
  pub sectors : List (List ℕ)
  pub active : Bool
  pub last_sector : ℕ
  pub buffer_init : ℕ

-- The constructor, with what the host's file holds.
pub init : ℕ → List (List ℕ) → Disk
init address sectors = record {
  address = address;
  sectors = sectors;
  active = false;
  last_sector = 0;
  buffer_init = 0;
}

-- The seek time and the rotation behind it.
pub time_to_seek : Disk → ℕ → ℕ → ℕ × ℕ
time_to_seek d total_ticks new_sector =
    let new_track = new_sector / sectors_per_track in
    let old_track = d.last_sector / sectors_per_track in
    let seek = (new_track - old_track + (old_track - new_track)) * seek_time in
    let over = (total_ticks + seek) % rotation_time in
    (seek, if ltb 0 over then rotation_time - over else 0)

pub modulo_diff : ℕ → ℕ → ℕ
modulo_diff to from =
    (to % sectors_per_track + sectors_per_track - from % sectors_per_track) % sectors_per_track

-- A buffer that starts after the time comes out as 0 here and as at most 0 there: neither is a hit.
pub compute_latency : Disk → ℕ → ℕ → Bool → ℕ
compute_latency d total_ticks new_sector writing =
    let r = time_to_seek d total_ticks new_sector in
    let time_after = total_ticks + r.0 + r.1 in
    if not writing
      && (r.0 == 0
          && ltb (modulo_diff new_sector (d.buffer_init / rotation_time))
              ((time_after - d.buffer_init) / rotation_time))
    then rotation_time
    else r.0
      + (r.1 + modulo_diff new_sector (time_after / rotation_time) * rotation_time)
      + rotation_time

pub update_last : Disk → ℕ → ℕ → Disk
update_last d total_ticks new_sector =
    let r = time_to_seek d total_ticks new_sector in
    record d {
      buffer_init = if r.0 == 0 then d.buffer_init else total_ticks + r.0 + r.1;
      last_sector = new_sector;
    }

-- The address of `DiskDone`.
module _ (disk_done : ℕ) where
  -- The end of both requests.
  pub start_request : Disk → Interrupt → ℕ → ℕ → Outcome (Disk × Interrupt)
  start_request d s sector ticks = schedule s disk_done d.address ticks disk_int >>= λ s'.
      done (update_last (record d { active = true }) s.total_ticks sector, s')

  pub read_request : Disk → Interrupt → ℕ → Outcome (List ℕ × Disk × Interrupt)
  read_request d s sector =
      let ticks = compute_latency d s.total_ticks sector false in
      assert (not d.active)
      >> (assert (ltb sector disk_sectors)
          >> (start_request d s sector ticks >>= λ r. done (get_or d.sectors sector [], r.0, r.1)))

  pub write_request : Disk → Interrupt → ℕ → List ℕ → Outcome (Disk × Interrupt)
  write_request d s sector bytes =
      let ticks = compute_latency d s.total_ticks sector true in
      assert (not d.active)
      >> (assert (ltb sector disk_sectors)
          >> start_request (record d { sectors = set d.sectors sector bytes }) s sector ticks)

-- `HandleInterrupt` up to the call of the handler.
pub handle_interrupt : Disk → Disk
handle_interrupt d = record d { active = false }
