-- ===== src/Disk/Latency.antt =====
-- How long a request to the disk takes, and that its interrupt is to come.
use native.Mathlib.Nat.{mod-lt}
use non_os.Base.{
  ℕ, ◌+◌, ◌-◌, ◌*◌, ◌/◌, ◌%◌, ◌<◌, ◌≤◌, Bool, true, false, not, ◌&&◌, ltb, ◌==◌, if◌then◌else◌,
  arith,
}
use non_os.Files.{disk_sectors}
use non_os.Disk.{Disk, time_to_seek, modulo_diff, compute_latency}

modulo_diff-lt : (to from : ℕ) → modulo_diff to from < 32
unfolding modulo_diff
modulo_diff-lt to from = mod-lt (to % 32 + 32 - from % 32) (omega arith)

time_to_seek-bounds :
    (d : Disk) (t s : ℕ)
    → s < disk_sectors
    → d.last_sector < disk_sectors
    → ((time_to_seek d t s).0 ≤ 15500) × ((time_to_seek d t s).1 < 500)
unfolding time_to_seek
time_to_seek-bounds d t s h k = (omega arith, ground arith)

-- A request takes the transfer of a sector at least, and less than 64 of these times.
pub compute_latency-bounds :
    (d : Disk) (t s : ℕ) (writing : Bool)
    → s < disk_sectors
    → d.last_sector < disk_sectors
    → (500 ≤ compute_latency d t s writing) × (compute_latency d t s writing < 32000)
unfolding compute_latency
compute_latency-bounds d t s writing h k =
    cases
      (not writing
        && ((time_to_seek d t s).0 == 0
            && ltb (modulo_diff s (d.buffer_init / 500))
                ((t + (time_to_seek d t s).0 + (time_to_seek d t s).1 - d.buffer_init) / 500)))
      (time_to_seek d t s).0 (time_to_seek d t s).1
      (modulo_diff s ((t + (time_to_seek d t s).0 + (time_to_seek d t s).1) / 500))
      (time_to_seek-bounds d t s h k).0 (time_to_seek-bounds d t s h k).1
      (modulo_diff-lt s ((t + (time_to_seek d t s).0 + (time_to_seek d t s).1) / 500))
  where
    cases :
        (b : Bool) (seek rotation turn : ℕ)
        → seek ≤ 15500
        → rotation < 500
        → turn < 32
        → (500 ≤ (if b then 500 else seek + (rotation + turn * 500) + 500))
          × ((if b then 500 else seek + (rotation + turn * 500) + 500) < 32000)
    cases true seek rotation turn p q r = (omega arith, omega arith)
    cases false seek rotation turn p q r = (omega arith, omega arith)
