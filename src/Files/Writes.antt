-- ===== src/Files/Writes.antt =====
-- `OpenFile::WriteAt` on a file as an array of bytes.
use native.Mathlib.Decide.{ℕ_discrete, dec_lt, dec_le}
use non_os.Base.{
  ℕ, zero, suc, ◌+◌, ◌-◌, ◌*◌, ◌/◌, ◌%◌, ◌<◌, ◌≤◌, ◌≡◌, ◌≢◌, refl, ap, sym, ◌∙◌, inl, inr, ◌⊎◌,
  Bool, true, false, not, ◌&&◌, ◌||◌, List, [], length, get_or, set, length-set, get_or-set_self,
  get_or-set_ne, All, All-get_or, Distinct-get_or, lt→ltb, ◌==◌, done, arith, min,
}
use non_os.Files.{
  Disk, FileHeader, sector_size, disk_sectors, write_sector, write_sectors, read_if, read_at,
  write_at, write_clipped, byte_to_sector, slice, copy_to, clipped, span,
}
use non_os.Files.Buffers.{
  length-slice, get_or-slice, length-copy_to, get_or-copy_to_in, get_or-copy_to_out,
}
use non_os.Files.Contents.{IsDisk, SameBut, byte_of, Occupies, Holds, clipped_lem, read_at-Holds}

-- A list has no element that is not equal to one of its own.
pub not_among : (ss : List ℕ) (t i : ℕ) → All (λ s. s ≢ t) ss → i < length ss → get_or ss i 0 ≢ t
not_among ss t i a h = All-get_or (λ s. s ≢ t) ss i 0 a h

-- One sector of a disk written.
pub IsDisk-set :
    (d : Disk) (s : ℕ) (bytes : List ℕ) → IsDisk d → length bytes ≡ 128 → IsDisk (set d s bytes)
IsDisk-set d s bytes v whole = record {
  size = length-set d s bytes ∙ v.size;
  sectors = λ t h. elim (ℕ_discrete s t) [
    | yes e ↦
        ap (λ (x : ℕ). length (get_or (set d s bytes) x [])) (sym e)
        ∙ ap length (get_or-set_self d s bytes [] (omega (arith, v.size)))
        ∙ whole
    | no n ↦ ap length (get_or-set_ne d s t bytes [] n) ∙ v.sectors t h
  ];
}

-- The disk with the sectors of a file from number `i` on, `left` of them, taken from a buffer that
-- starts with sector `first`.
record Stores (ss buf : List ℕ) (first i left : ℕ) (d d' : Disk) : Type 0 where
  valid : IsDisk d'
  same : SameBut ss d d'
  stored :
      (j : ℕ)
      → i ≤ j
      → j < i + left
      → get_or d' (get_or ss j 0) [] ≡ slice buf ((j - first) * 128) 128
  kept :
      (j : ℕ)
      → j < length ss
      → (j < i) ⊎ (i + left ≤ j)
      → get_or d' (get_or ss j 0) [] ≡ get_or d (get_or ss j 0) []

module _ (levels : ℕ) (h : FileHeader) (ss : List ℕ) where
  write_sectors-Stores :
      (buf : List ℕ) (first left i : ℕ) (d : Disk)
      → IsDisk d
      → Occupies levels d h ss
      → i + left ≤ length ss
      → (d' : Disk) × (write_sectors levels d h buf first left i ≡ done d')
        × Stores ss buf first i left d d'
  unfolding write_sectors write_sector
  write_sectors-Stores buf first zero i d v o p = (
    d,
    refl,
    record {
      valid = v;
      same = λ t a. refl;
      stored = λ j q r. absurd (omega arith);
      kept = λ j q r. refl;
    },
  )
  write_sectors-Stores buf first (suc left) i d v o p =
      let s : ℕ = get_or ss i 0 in
      let bytes = slice buf ((i - first) * 128) 128 in
      let d₁ = set d s bytes in
      let below : s < 1024 = All-get_or (λ s. s < disk_sectors) ss i 0 o.inside (omega arith) in
      let same₁ : SameBut ss d d₁ =
        λ t a. get_or-set_ne d s t bytes [] (not_among ss t i a (omega arith)) in
      let v₁ : IsDisk d₁ = IsDisk-set d s bytes v (length-slice buf ((i - first) * 128) 128) in
      let (d', e, r) =
        write_sectors-Stores buf first left (i + 1) d₁ v₁
          (non_os.Files.Contents.Occupies-SameBut levels h ss o same₁) (omega arith) in
      (
        d',
        rw (o.at d v (λ t a. refl) i (omega arith)) (rw (lt→ltb s 1024 below) (rw e refl)),
        record {
          valid = r.valid;
          same = λ t a. r.same t a ∙ same₁ t a;
          stored = λ j q w. elim (ℕ_discrete j i) [
            | yes j_is ↦
                ap (λ (x : ℕ). get_or d' (get_or ss x 0) []) j_is
                ∙ r.kept i (omega arith) (inl (omega arith))
                ∙ get_or-set_self d s bytes [] (omega (arith, v.size))
                ∙ ap (λ (x : ℕ). slice buf ((x - first) * 128) 128) (sym j_is)
            | no n ↦ r.stored j (omega arith) (omega arith)
          ];
          kept = λ j q w.
              r.kept j q (elim w [ inl a ↦ inl (omega arith) | inr a ↦ inr (omega arith) ])
              ∙ get_or-set_ne d s (get_or ss j 0) bytes []
                  (λ e. differs j q w (Distinct-get_or ss i j 0 o.distinct (omega arith) q e));
        },
      )
    where
      differs : (j : ℕ) → j < length ss → (j < i) ⊎ (i + suc left ≤ j) → i ≢ j
      differs j q (inl a) e = omega arith
      differs j q (inr a) e = omega arith

-- What the first and last sector give to the buffer of `WriteAt` before it is changed.
record Loads (b : Bool) (d : Disk) (h : FileHeader) (ss : List ℕ) (sector i : ℕ) (buf buf' : List ℕ)
    : Type 0 where
  size : length buf' ≡ length buf
  got :
      b ≡ true
      → (j k : ℕ) → i ≤ j
      → j < i + 128
      → k ≡ sector * 128 + (j - i)
      → k < h.num_bytes
      → get_or buf' j 0 ≡ byte_of d ss k
  kept : (j : ℕ) → (b ≡ false) ⊎ ((j < i) ⊎ (i + 128 ≤ j)) → get_or buf' j 0 ≡ get_or buf j 0

module _ (levels : ℕ) (h : FileHeader) (ss : List ℕ) (d : Disk) (v : IsDisk d)
    (o : Occupies levels d h ss) where
  read_if-Loads :
      (b : Bool) (sector i : ℕ) (buf : List ℕ)
      → i + 128 ≤ length buf
      → (buf' : List ℕ) × (read_if levels b d h sector i buf ≡ done buf')
        × Loads b d h ss sector i buf buf'
  unfolding read_if
  read_if-Loads false sector i buf fits =
      (buf, refl, record { size = refl; got = λ e. absurd (no e); kept = λ j p. refl })
    where
      no : false ≢ true
      no e = cc
  read_if-Loads true sector i buf fits =
      let (bytes, e, r) = read_at-Holds levels h ss d 128 (sector * 128) v o in
      (
        copy_to bytes i buf,
        rw e refl,
        record {
          size = length-copy_to bytes i buf;
          got = λ _ j k p q e' w.
              ap (λ (t : ℕ). get_or (copy_to bytes i buf) t 0) {x = j} {y = i + (j - i)}
                (omega arith)
              ∙ get_or-copy_to_in bytes i buf (j - i) (omega (arith, r.size))
                  (omega (arith, r.size))
              ∙ r.bytes (j - i) (omega arith)
              ∙ ap (byte_of d ss) (sym e');
          kept = λ j p. get_or-copy_to_out bytes i buf j (elim p [
            | inl e ↦ absurd (no e)
            | inr (inl a) ↦ inl a
            | inr (inr a) ↦ inr (omega (arith, r.size))
          ]);
        },
      )
    where
      no : true ≢ false
      no e = cc

-- What `WriteAt` of `c` bytes at a position makes of the disk.
pub record Writes (d : Disk) (h : FileHeader) (ss from : List ℕ) (position c : ℕ) (d' : Disk)
    : Type 0 where
  pub valid : IsDisk d'
  pub same : SameBut ss d d'
  pub written : (k : ℕ) → k < c → byte_of d' ss (position + k) ≡ get_or from k 0
  pub kept :
      (k : ℕ)
      → k < h.num_bytes
      → (k < position) ⊎ (position + c ≤ k)
      → byte_of d' ss k ≡ byte_of d ss k

-- A call of `WriteAt` that changes `c` bytes, `c` more than 0.
module _ (levels : ℕ) (h : FileHeader) (ss : List ℕ) (d : Disk) (v : IsDisk d)
    (o : Occupies levels d h ss) (from memory : List ℕ) (position m : ℕ)
    (fits : suc m ≤ h.num_bytes - position)
    (room : span position (suc m) * 128 ≤ length memory) where
  abbrev first : ℕ
  first = position / 128

  abbrev last : ℕ
  last = (position + suc m - 1) / 128

  abbrev reads_first : Bool
  reads_first = not (position == first * 128)

  abbrev reads_last : Bool
  reads_last =
      not ((position + suc m) == (last + 1) * 128)
      && (not (first == last) || position == first * 128)

  -- The bytes of the buffer that the call leaves as they are, as far as the file goes.
  loaded :
      (buf buf' : List ℕ)
      → Loads reads_first d h ss first 0 memory buf
      → Loads reads_last d h ss last ((last - first) * 128) buf buf'
      → (k : ℕ) → first * 128 ≤ k
      → k < (last + 1) * 128
      → k < h.num_bytes
      → (k < position) ⊎ (position + suc m ≤ k)
      → get_or buf' (k - first * 128) 0 ≡ byte_of d ss k
  loaded buf buf' l₁ l₂ k low high inside (inl before) =
      l₂.kept (k - first * 128) at_first ∙ from_first
    where
      from_first : get_or buf (k - first * 128) 0 ≡ byte_of d ss k
      from_first =
          l₁.got (ground arith) (k - first * 128) k (omega arith) (omega arith) (omega arith) inside

      at_first :
          (reads_last ≡ false)
          ⊎ ((k - first * 128 < (last - first) * 128)
              ⊎ ((last - first) * 128 + 128 ≤ k - first * 128))
      at_first = elim (ℕ_discrete first last) [
        | yes e ↦ inl (ground arith)
        | no n ↦ inr (inl (omega arith))
      ]
  loaded buf buf' l₁ l₂ k low high inside (inr behind) = elim (ℕ_discrete first last) [
    | yes one ↦ elim (ℕ_discrete position (first * 128)) [
      | yes aligned ↦ from_last (ground arith)
      | no n ↦
          l₂.kept (k - first * 128) (inl (ground arith))
          ∙ l₁.got (ground arith) (k - first * 128) k (omega arith) (omega arith) (omega arith)
              inside
    ]
    | no two ↦ from_last (ground arith)
  ]
    where
      from_last : reads_last ≡ true → get_or buf' (k - first * 128) 0 ≡ byte_of d ss k
      from_last e = l₂.got e (k - first * 128) k (omega arith) (omega arith) (omega arith) inside

  inside_cases :
      (k : ℕ)
      → ((k / 128 < first) ⊎ (first + span position (suc m) ≤ k / 128))
        ⊎ ((first * 128 ≤ k) × (k < (last + 1) * 128))
  inside_cases k = elim (dec_lt (k / 128) first) [
    | yes p ↦ inl (inl p)
    | no p ↦ elim (dec_le (first + span position (suc m)) (k / 128)) [
      | yes q ↦ inl (inr q)
      | no q ↦ inr (omega arith, omega arith)
    ]
  ]

  outside :
      (k : ℕ)
      → first * 128 ≤ k
      → (k < position) ⊎ (position + suc m ≤ k)
      → (k - first * 128 < position - first * 128)
        ⊎ (position - first * 128 + length (slice from 0 (suc m)) ≤ k - first * 128)
  outside k a (inl q) = inl (omega arith)
  outside k a (inr q) = inr (omega (arith, length-slice from 0 (suc m)))

  -- The buffer of the call, with the bytes to be written in it.
  abbrev changed : List ℕ → List ℕ
  changed buf' = copy_to (slice from 0 (suc m)) (position - first * 128) buf'

  module _ (buf buf' : List ℕ) (d' : Disk) (sizes : length buf' ≡ length memory)
      (l₁ : Loads reads_first d h ss first 0 memory buf)
      (l₂ : Loads reads_last d h ss last ((last - first) * 128) buf buf')
      (s : Stores ss (changed buf') first first (span position (suc m)) d d') where
    byte_of-stored :
        (k : ℕ)
        → first ≤ k / 128
        → k / 128 < last + 1
        → byte_of d' ss k ≡ get_or (changed buf') (k - first * 128) 0
    byte_of-stored k p q =
        ap (λ (b : List ℕ). get_or b (k % 128) 0) (s.stored (k / 128) p (omega arith))
        ∙ get_or-slice (changed buf') ((k / 128 - first) * 128) 128 (k % 128) (omega arith)
        ∙ ap (λ (t : ℕ). get_or (changed buf') t 0) {x = (k / 128 - first) * 128 + k % 128}
            {y = k - first * 128} (omega arith)

    stored-written : (k : ℕ) → k < suc m → byte_of d' ss (position + k) ≡ get_or from k 0
    stored-written k p =
        byte_of-stored (position + k) (omega arith) (omega arith)
        ∙ ap (λ (t : ℕ). get_or (changed buf') t 0) {x = position + k - first * 128}
            {y = position - first * 128 + k} (omega arith)
        ∙ get_or-copy_to_in (slice from 0 (suc m)) (position - first * 128) buf' k
            (omega (arith, sizes, length-slice from 0 (suc m)))
            (omega (arith, length-slice from 0 (suc m)))
        ∙ get_or-slice from 0 (suc m) k p
        ∙ ap (λ (t : ℕ). get_or from t 0) {x = 0 + k} {y = k} (omega arith)

    stored-Writes : Writes d h ss from position (suc m) d'
    stored-Writes = record {
      valid = s.valid;
      same = s.same;
      written = stored-written;
      kept = λ k p q. elim (inside_cases k) [
        | inl out ↦
            ap (λ (b : List ℕ). get_or b (k % 128) 0)
              (s.kept (k / 128) (omega (arith, o.enough)) out)
        | inr (a, b) ↦
            byte_of-stored k (omega arith) (omega arith)
            ∙ get_or-copy_to_out (slice from 0 (suc m)) (position - first * 128) buf'
                (k - first * 128) (outside k a q)
            ∙ loaded buf buf' l₁ l₂ k a b p q
      ];
    }

  write_clipped-Writes :
      (d' : Disk) × (write_clipped levels memory d h from position (suc m) ≡ done (suc m, d'))
      × Writes d h ss from position (suc m) d'
  unfolding write_clipped
  write_clipped-Writes =
      let (buf, e₁, l₁) =
        read_if-Loads levels h ss d v o reads_first first 0 memory (omega arith) in
      let (buf', e₂, l₂) =
        read_if-Loads levels h ss d v o reads_last last ((last - first) * 128) buf
          (omega (arith, l₁.size)) in
      let (d', e₃, s) =
        write_sectors-Stores levels h ss (changed buf') first (span position (suc m)) first d v o
          (omega (arith, o.enough)) in
      (d', rw e₁ (rw e₂ (rw e₃ refl)), stored-Writes buf buf' d' (l₂.size ∙ l₁.size) l₁ l₂ s)

module _ (levels : ℕ) (h : FileHeader) (ss : List ℕ) where
  -- `WriteAt` never aborts: it returns how many bytes it has changed, as many as are asked for or those
  -- up to the end of the file; these are the bytes of `from`, the others of the file are as they were,
  -- those in the sectors that are read and written back included, and so are the sectors of the disk
  -- that are not the file's. The buffer that it allocates has room for the sectors in question.
  pub write_at-Writes :
      (d : Disk) (from memory : List ℕ) (n position : ℕ)
      → IsDisk d
      → Occupies levels d h ss
      → span position (min n (h.num_bytes - position)) * 128 ≤ length memory
      → (d' : Disk) × (write_at levels memory d h from n position
          ≡ done (min n (h.num_bytes - position), d'))
        × Writes d h ss from position (min n (h.num_bytes - position)) d'
  unfolding write_at write_clipped
  write_at-Writes d from memory n position v o room =
      rw (clipped_lem h n position) (counted (min n (h.num_bytes - position)) (omega arith) room)
    where
      counted :
          (c : ℕ)
          → c ≤ h.num_bytes - position
          → span position c * 128 ≤ length memory
          → (d' : Disk) × (write_clipped levels memory d h from position c ≡ done (c, d'))
            × Writes d h ss from position c d'
      counted zero p q = (
        d,
        refl,
        record {
          valid = v;
          same = λ t a. refl;
          written = λ k w. absurd (omega arith);
          kept = λ k w r. refl;
        },
      )
      counted (suc m) p q = write_clipped-Writes levels h ss d v o from memory position m p q
