-- ===== src/Files/ReadBack.antt =====
-- `OpenFile::ReadAt` of what `OpenFile::WriteAt` has written.
use non_os.Base.{
  same_elements, ℕ, ◌+◌, ◌-◌, ◌*◌, ◌≤◌, ◌≡◌, ap, sym, ◌∙◌, List, length, get_or, min, done, arith,
}
use non_os.Files.{Disk, FileHeader, read_at, write_at, slice, span}
use non_os.Files.Buffers.{length-slice, get_or-slice}
use non_os.Files.Contents.{IsDisk, Occupies, Occupies-SameBut, read_at-Holds}
use non_os.Files.Writes.{write_at-Writes}

-- `ReadAt` of as many bytes at the same position as `WriteAt` was asked to write gives the first bytes
-- of what it was given: all of them, or those up to the end of the file.
pub read_at-write_at :
    (levels : ℕ) (h : FileHeader) (ss : List ℕ) (d : Disk) (from memory : List ℕ) (n position : ℕ)
    → IsDisk d
    → Occupies levels d h ss
    → span position (min n (h.num_bytes - position)) * 128 ≤ length memory
    → (d' : Disk) × (write_at levels memory d h from n position
        ≡ done (min n (h.num_bytes - position), d'))
      × (read_at levels d' h n position ≡ done (slice from 0 (min n (h.num_bytes - position))))
read_at-write_at levels h ss d from memory n position v o room =
    let c : ℕ = min n (h.num_bytes - position) in
    let (d', e, w) = write_at-Writes levels h ss d from memory n position v o room in
    let (bytes, e', r) =
      read_at-Holds levels h ss d' n position w.valid (Occupies-SameBut levels h ss o w.same) in
    (
      d',
      e,
      e'
          ∙ ap done (
              same_elements bytes (slice from 0 c) (r.size ∙ sym (length-slice from 0 c)) (λ j p.
                r.bytes j (omega (arith, r.size))
                ∙ w.written j (omega (arith, r.size))
                ∙ ap (λ (t : ℕ). get_or from t 0) {x = j} {y = 0 + j} (omega arith)
                ∙ sym (get_or-slice from 0 c j (omega (arith, r.size))))),
    )
