-- ===== src/Disk/Requests.antt =====
-- ReadRequest and WriteRequest: what they leave behind, and when their interrupt comes.
use non_os.Base.{
  ℕ, ◌+◌, ◌<◌, ◌≤◌, ◌≡◌, refl, ap, ◌∙◌, inl, inr, Bool, true, false, not, List, [], ltb, get_or,
  set, lt→ltb, Outcome, done, assert, arith, ◌>>=◌, ◌>>◌, length, get_or-set_self,
}
use non_os.Files.{disk_sectors}
use non_os.LinkedList.Sorted.{insert}
use non_os.Interrupt.{Interrupt, disk_int}
use non_os.Interrupt.Queue.{Queue, Queued, schedule_lem}
use non_os.Disk.{
  Disk, compute_latency, update_last, start_request, read_request, write_request, handle_interrupt,
}
use non_os.Disk.Latency.{compute_latency-bounds}

-- The interrupts to come, with that of a disk's request.
abbrev pub with_request : ℕ → Disk → ℕ → Queue → Queue
with_request disk_done d when xs =
    insert when (record { handler = disk_done; arg = d.address; when = when; kind = disk_int }) xs

-- What a request turns the disk and the clock into.
pub record Started (disk_done : ℕ) (d : Disk) (s : Interrupt) (sector : ℕ) (xs : Queue) (d' : Disk)
    (s' : Interrupt) : Type 0 where
  pub busy : d'.active ≡ true
  pub head : d'.last_sector ≡ sector
  pub contents : d'.sectors ≡ d.sectors
  pub clock : s'.total_ticks ≡ s.total_ticks
  pub to_come :
      (ticks : ℕ) × (500 ≤ ticks)
      × (ticks < 32000)
      × Queued s' (with_request disk_done d (s.total_ticks + ticks) xs)

start_request_lem :
    (disk_done : ℕ) (d : Disk) (s : Interrupt) (sector ticks : ℕ) (xs : Queue)
    → 500 ≤ ticks
    → ticks < 32000
    → Queued s xs
    → (d' : Disk) × (s' : Interrupt) × (start_request disk_done d s sector ticks ≡ done (d', s'))
      × Started disk_done d s sector xs d' s'
unfolding start_request update_last
start_request_lem disk_done d s sector ticks xs low high q =
    elim (schedule_lem s disk_done d.address ticks disk_int xs q) [
      | inl a ↦ absurd (omega arith)
      | inr (s', p, e, r, t) ↦ (
        update_last (record d { active = true }) s.total_ticks sector,
        s',
        ap
            (λ m.
              m >>= λ s'. done (update_last (record d { active = true }) s.total_ticks sector, s'))
            e,
        record {
          busy = refl;
          head = refl;
          contents = refl;
          clock = t;
          to_come = (ticks, low, high, r);
        },
      )
    ]

-- The two guards of a request.
pass {ℓ} :
    {A : Type ℓ} (active inside : Bool) (m : Outcome A)
    → active ≡ false
    → inside ≡ true
    → (assert (not active) >> (assert inside >> m)) ≡ m
pass active inside m p q = rw (p, q) refl

pub read_request-Started :
    (disk_done : ℕ) (d : Disk) (s : Interrupt) (sector : ℕ) (xs : Queue)
    → d.active ≡ false
    → sector < disk_sectors
    → d.last_sector < disk_sectors
    → Queued s xs
    → (d' : Disk) × (s' : Interrupt) × (read_request disk_done d s sector
        ≡ done (get_or d.sectors sector [], d', s'))
      × Started disk_done d s sector xs d' s'
unfolding read_request
read_request-Started disk_done d s sector xs idle h k q =
    let b = compute_latency-bounds d s.total_ticks sector false h k in
    let (d', s', e, r) =
      start_request_lem disk_done d s sector (compute_latency d s.total_ticks sector false) xs b.0
        b.1 q in
    (
      d',
      s',
      pass d.active (ltb sector disk_sectors) _ idle (lt→ltb sector disk_sectors h)
          ∙ ap (λ m. m >>= λ r. done (get_or d.sectors sector [], r.0, r.1)) e,
      r,
    )

pub write_request-Started :
    (disk_done : ℕ) (d : Disk) (s : Interrupt) (sector : ℕ) (bytes : List ℕ) (xs : Queue)
    → d.active ≡ false
    → sector < disk_sectors
    → d.last_sector < disk_sectors
    → Queued s xs
    → (d' : Disk) × (s' : Interrupt) × (write_request disk_done d s sector bytes ≡ done (d', s'))
      × Started disk_done (record d { sectors = set d.sectors sector bytes }) s sector xs d' s'
unfolding write_request
write_request-Started disk_done d s sector bytes xs idle h k q =
    let b = compute_latency-bounds d s.total_ticks sector true h k in
    let (d', s', e, r) =
      start_request_lem disk_done (record d { sectors = set d.sectors sector bytes }) s sector
        (compute_latency d s.total_ticks sector true) xs b.0 b.1 q in
    (d', s', pass d.active (ltb sector disk_sectors) _ idle (lt→ltb sector disk_sectors h) ∙ e, r)

-- What the write of a sector and, after the interrupt, its read come to. `s2` is the clock of the read.
pub record Returns (disk_done : ℕ) (d : Disk) (s : Interrupt) (sector : ℕ) (bytes : List ℕ)
    (xs : Queue) (s2 : Interrupt) (ys : Queue) : Type 0 where
  pub written : Disk
  pub after_write : Interrupt
  pub read : Disk
  pub after_read : Interrupt
  pub writes : write_request disk_done d s sector bytes ≡ done (written, after_write)
  pub starts_write :
      Started disk_done
        (record d { sectors = set d.sectors sector bytes })
        s
        sector
        xs
        written
        after_write
  pub reads :
      read_request disk_done (handle_interrupt written) s2 sector ≡ done (bytes, read, after_read)
  pub starts_read : Started disk_done (handle_interrupt written) s2 sector ys read after_read

-- A disk that serves no request, whose head is over one of its 1024 sectors, takes the write of a sector
-- that it has, and once HandleInterrupt is called the read of the same sector returns what was written,
-- whatever the clock and the queue of interrupts are by then. No ASSERT fails. Each request leaves the
-- clock, makes the disk busy, moves the head to the sector, and puts one interrupt into the queue, at
-- least 500 and less than 32000 ticks ahead. The write changes no other sector.
pub read_request-write_request :
    (disk_done : ℕ) (d : Disk) (s : Interrupt) (sector : ℕ) (bytes : List ℕ) (xs : Queue)
    (s2 : Interrupt) (ys : Queue)
    → d.active ≡ false
    → length d.sectors ≡ disk_sectors
    → sector < disk_sectors
    → d.last_sector < disk_sectors
    → Queued s xs
    → Queued s2 ys
    → Returns disk_done d s sector bytes xs s2 ys
unfolding handle_interrupt
read_request-write_request disk_done d s sector bytes xs s2 ys idle size h k q q2 =
    let (d', s', e, r) = write_request-Started disk_done d s sector bytes xs idle h k q in
    let (d2, s3, e2, r2) =
      read_request-Started disk_done (handle_interrupt d') s2 sector ys refl h (rw r.head h) q2 in
    record {
      written = d';
      after_write = s';
      read = d2;
      after_read = s3;
      writes = e;
      starts_write = r;
      reads =
          e2
          ∙ ap (λ x. done (x, d2, s3))
              (ap (λ xs. get_or xs sector []) r.contents
                ∙ get_or-set_self d.sectors sector bytes [] (rw size h));
      starts_read = r2;
    }
