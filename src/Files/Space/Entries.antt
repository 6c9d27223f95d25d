-- ===== src/Files/Space/Entries.antt =====
-- The loop of `Extend` that takes sectors and writes their numbers in the undirected block.
use non_os.Base.{
  ℕ, zero, suc, ◌+◌, ◌-◌, ◌*◌, ◌/◌, ◌%◌, ◌^◌, ◌<◌, ◌≤◌, ◌≡◌, refl, ap, subst, ◌∙◌, inl, inr, ◌⊎◌,
  Bool, true, false, List, [], ◌∷◌, length, get_or, min, done, arith,
}
use non_os.BitMap.{BitMap}
use non_os.BitMap.View.{IsValid}
use non_os.BitMap.Count.{free_count}
use non_os.Files.{Disk, FileHeader, to_bytes, write, write_at, seek, span}
use non_os.Files.Contents.{IsDisk, SameBut, byte_of}
use non_os.Files.Writes.{Writes, write_at-Writes}
use non_os.Files.Sectors.{IsDirect, IsDirect-Occupies}
use non_os.Files.Fresh.{Fresh, Fresh-nil, Fresh-append, find-Gives}
use non_os.Files.Space.{write_entries}

-- The bytes of the sector numbers `xs` stand in the file of `us` from entry `k` on.
abbrev pub Lists : Disk → List ℕ → ℕ → List ℕ → Type 0
Lists d us k xs =
    (j b : ℕ)
    → j < length xs
    → b < 4
    → byte_of d us (4 * (k + j) + b) ≡ get_or xs j 0 / 256 ^ b % 256

-- What the loop does for `n` entries from entry `k` on.
pub record Enters (u : FileHeader) (us : List ℕ) (k n : ℕ) (m : BitMap) (d : Disk) (ok : Bool)
    (m' : BitMap) (d' : Disk) : Type 0 where
  pub valid : IsDisk d'
  pub same : SameBut us d d'
  pub kept : (i : ℕ) → i < 4 * k → byte_of d' us i ≡ byte_of d us i
  pub entries :
      ((ok ≡ true) × ((xs : List ℕ) × (length xs ≡ n) × Fresh m xs m' × Lists d' us k xs))
      ⊎ ((ok ≡ false) × (free_count m < n))

word_byte : (s b : ℕ) → b < 4 → get_or (to_bytes (s ∷ [])) b 0 ≡ s / 256 ^ b % 256
unfolding to_bytes
word_byte s zero h = omega arith
word_byte s (suc zero) h = refl
word_byte s (suc (suc zero)) h = refl
word_byte s (suc (suc (suc zero))) h = refl
word_byte s (suc (suc (suc (suc b)))) h = absurd (omega arith)

module _ (levels : ℕ) (memory table : List ℕ) (u : FileHeader) (us : List ℕ) (f : IsDirect u us)
    (room : 128 ≤ length memory) where
  -- One entry.
  write-Writes :
      (d : Disk) (k s : ℕ)
      → IsDisk d
      → 4 * (k + 1) ≤ u.num_bytes
      → (d' : Disk) × (write
            (suc levels)
            memory
            d
            (record { hdr = u; seek_position = 4 * k })
            (to_bytes (s ∷ []))
            4
          ≡ done (4, d', record { hdr = u; seek_position = 4 * (k + 1) }))
        × Writes d u us (to_bytes (s ∷ [])) (4 * k) 4 d'
  unfolding write seek
  write-Writes d k s v h =
      let (d', e, w) = whole in
      (
        d',
        rw e (
            ap (λ (t : ℕ). done (4, d', record { hdr = u; seek_position = t })) {x = 4 * k + 4}
              {y = 4 * (k + 1)} (omega arith)),
        w,
      )
    where
      fits : (k : ℕ) → span (4 * k) (min 4 (u.num_bytes - 4 * k)) * 128 ≤ length memory
      fits k = omega (arith, room)

      whole :
          (d' : Disk) × (write_at (suc levels) memory d u (to_bytes (s ∷ [])) 4 (4 * k)
            ≡ done (4, d'))
          × Writes d u us (to_bytes (s ∷ [])) (4 * k) 4 d'
      whole =
          subst
            (λ (n : ℕ).
              (d' : Disk) × (write_at (suc levels) memory d u (to_bytes (s ∷ [])) 4 (4 * k)
                ≡ done (n, d'))
              × Writes d u us (to_bytes (s ∷ [])) (4 * k) n d')
            {x = min 4 (u.num_bytes - 4 * k)} {y = 4} (omega arith)
            (write_at-Writes (suc levels) u us d (to_bytes (s ∷ [])) memory 4 (4 * k) v
              (IsDirect-Occupies levels d u us f) (fits k))

  Enters-suc :
      (k n s : ℕ) (m m₁ : BitMap) (d d₁ : Disk) (ok : Bool) (m' : BitMap) (d' : Disk)
      → 4 * (k + suc n) ≤ u.num_bytes
      → Fresh m (s ∷ []) m₁
      → Writes d u us (to_bytes (s ∷ [])) (4 * k) 4 d₁
      → Enters u us (k + 1) n m₁ d₁ ok m' d'
      → Enters u us k (suc n) m d ok m' d'
  Enters-suc k n s m m₁ d d₁ ok m' d' h fresh w e = record {
    valid = e.valid;
    same = λ t a. e.same t a ∙ w.same t a;
    kept = λ i p. e.kept i (omega arith) ∙ w.kept i (omega arith) (inl p);
    entries = elim e.entries [
      | inl (yes', (xs, l, g, listed)) ↦
          inl (yes', (s ∷ xs, ap suc l, Fresh-append m (s ∷ []) xs m₁ m' fresh g, all xs listed))
      | inr (no', few) ↦ inr (no', omega (arith, fresh.count))
    ];
  }
    where
      all : (xs : List ℕ) → Lists d' us (k + 1) xs → Lists d' us k (s ∷ xs)
      all xs listed zero b p q =
          ap (byte_of d' us) {x = 4 * (k + 0) + b} {y = 4 * k + b} (omega arith)
          ∙ e.kept (4 * k + b) (omega arith)
          ∙ w.written b q
          ∙ word_byte s b q
      all xs listed (suc j) b p q =
          ap (byte_of d' us) {x = 4 * (k + suc j) + b} {y = 4 * (k + 1 + j) + b} (omega arith)
          ∙ listed j b (omega arith) q

  pub write_entries-Enters :
      (n k : ℕ) (m : BitMap) (d : Disk)
      → IsValid m
      → IsDisk d
      → 4 * (k + n) ≤ u.num_bytes
      → (ok : Bool) × (m' : BitMap) × (d' : Disk) × (write_entries
            (suc levels)
            memory
            table
            n
            (record { hdr = u; seek_position = 4 * k })
            m
            d
          ≡ done (ok, m', d'))
        × Enters u us k n m d ok m' d'
  unfolding write_entries
  write_entries-Enters zero k m d v w h = (
    true,
    m,
    d,
    refl,
    record {
      valid = w;
      same = λ t a. refl;
      kept = λ i p. refl;
      entries = inl (refl, ([], refl, Fresh-nil m v, λ j b p q. absurd (omega arith)));
    },
  )
  write_entries-Enters (suc n) k m d v w h =
      let (o, m₁, e, g) = find-Gives m v in
      rw (e, write_entries)
        (elim g [
          | inl (none_left, full, same) ↦
              rw (none_left, write_entries)
                (
                  false,
                  m₁,
                  d,
                  refl,
                  record {
                    valid = w;
                    same = λ t a. refl;
                    kept = λ i p. refl;
                    entries = inr (refl, omega arith);
                  },
                )
          | inr (s, got, fresh) ↦
              let (d₁, e₁, w₁) = write-Writes d k s w (omega arith) in
              let (ok, m', d', e₂, r) =
                write_entries-Enters n (k + 1) m₁ d₁ fresh.valid w₁.valid (omega arith) in
              (
                ok,
                m',
                d',
                rw (got, write_entries) (rw (e₁, write_entries) e₂),
                Enters-suc k n s m m₁ d d₁ ok m' d' (omega arith) fresh w₁ r,
              )
        ])
