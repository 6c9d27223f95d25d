-- ===== src/Files/Space/Fill.antt =====
-- The part of `Extend` that makes the undirected block longer and writes new entries in it.
use non_os.Base.{
  ℕ, suc, ◌+◌, ◌-◌, ◌*◌, ◌/◌, ◌%◌, ◌^◌, ◌<◌, ◌≤◌, ◌≡◌, ◌≢◌, refl, ap, subst, sym, ◌∙◌, inl, inr,
  ◌⊎◌, Bool, true, false, List, [], ◌∷◌, ◌++◌, length, length-append, get_or, All, All-get_or,
  le→ltb, done, arith, if◌then◌else◌,
}
use native.Mathlib.Nat.{mod-eq_of_lt}
use native.Mathlib.Decide.{dec_lt, ℕ_discrete}
use non_os.Base.Apart.{All-append}
use non_os.BitMap.{BitMap, div_round_up}
use non_os.BitMap.Count.{free_count}
use non_os.Files.{
  Disk, FileHeader, data_sector, sector_size, disk_sectors, write_back, open_file, fetch_from, seek,
}
use non_os.Files.Buffers.{
  stored_header, length-cut, get_or-cut, WritesBack, write_back-WritesBack, get_or-append_left,
  get_or-append_right, fetch_from-same,
}
use non_os.Files.Contents.{IsDisk, SameBut, byte_of}
use non_os.Files.Sectors.{IsDirect}
use non_os.Files.Fresh.{Fresh, Fresh-append, Fresh-avoids}
use non_os.Files.Space.{Taken, Extended, extend_undirected_block, write_entries, fill_undirected}
use non_os.Files.Space.Takes.{Takes, Fills, take_sectors-Takes}
use non_os.Files.Space.Direct.{IsSized, InUse, Fills-table, Fresh-Distinct, Fresh-inside}
use non_os.Files.Space.Entries.{Lists, Enters, write_entries-Enters}

-- A header and the same header read back from its sector.
stored_header-IsDirect :
    (h : FileHeader) (ss : List ℕ)
    → IsDirect h ss
    → IsSized h ss
    → IsDirect (stored_header h) ss × IsSized (stored_header h) ss × (h.num_bytes < 2 ^ 32)
stored_header-IsDirect h ss f z = (
  record {
    few = f.few;
    table = λ i p.
        get_or-cut h.data_sectors i
        ∙ ap (λ (t : ℕ). t % 2 ^ 32) (f.table i p)
        ∙ mod-eq_of_lt
            (small (get_or ss i 0) (All-get_or (λ s. s < disk_sectors) ss i 0 f.inside p));
    enough = omega (arith, f.enough, bytes);
    inside = f.inside;
    distinct = f.distinct;
  },
  record {
    count = omega (arith, z.count, f.few);
    sized = z.sized ∙ ap (λ (t : ℕ). div_round_up t 128) (sym (mod-eq_of_lt bytes));
    table_size = length-cut h.data_sectors ∙ z.table_size;
  },
  bytes,
)
  where
    small : (s : ℕ) → s < 1024 → s < 2 ^ 32
    small s p = omega arith

    bytes : h.num_bytes < 2 ^ 32
    bytes = omega (arith, f.enough, f.few)

-- What `ExtendUndirectedBlock` by `n` entries does to a block of `k` entries.
abbrev Lengthens : FileHeader → List ℕ → ℕ → BitMap → Taken → Type 0
Lengthens u us n m t =
    ((t.ok ≡ true)
      × ((gs : List ℕ) × IsDirect t.hdr (us ++ gs)
          × IsSized t.hdr (us ++ gs)
          × (t.hdr.num_bytes ≡ u.num_bytes + n * 4)
          × Fresh m gs t.free_map))
    ⊎ ((t.ok ≡ false) × (free_count m < div_round_up (u.num_bytes + n * 4) sector_size - length us))

module _ (u : FileHeader) (us : List ℕ) (m : BitMap) (n : ℕ) (f : IsDirect u us) (z : IsSized u us)
    (i : InUse m us) (short : u.num_bytes + n * 4 ≤ 28 * 128) where
  abbrev total : ℕ
  total = div_round_up (u.num_bytes + n * 4) 128

  total-bounds : (length us ≤ total) × (total ≤ 28) × (u.num_bytes + n * 4 ≤ total * 128)
  total-bounds = (ground (arith, z.sized), ground arith, ground arith)

  longer : Taken → Taken
  longer t =
      if t.ok
      then record t { hdr = record t.hdr { num_sectors = total; num_bytes = u.num_bytes + n * 4 } }
      else t

  longer-Lengthens :
      (t : Taken)
      → Takes u u.num_sectors (total - u.num_sectors) m t
      → Lengthens u us n m (longer t)
  unfolding longer
  longer-Lengthens t (inl (ok, (xs, l, g, fresh))) = rw ok (
      inl (
        refl,
        (
          xs,
          record {
            few = omega (arith, sizes, total-bounds.1);
            table = λ i p.
                Fills-table u us xs t.hdr 28 (subst (λ (k : ℕ). Fills u k xs t.hdr) z.count g)
                  (λ j q r. f.table j q) i p (omega (arith, sizes, total-bounds.1));
            enough = omega (arith, sizes, total-bounds.2);
            inside = Fresh-inside m us xs t.free_map i fresh f.inside;
            distinct = Fresh-Distinct m us xs t.free_map i fresh f.distinct;
          },
          record { count = sym sizes; sized = sizes; table_size = g.table_size ∙ z.table_size },
          refl,
          fresh,
        ),
      ))
    where
      sizes : length (us ++ xs) ≡ total
      sizes = length-append us xs ∙ omega (arith, l, z.count, total-bounds.0)
  longer-Lengthens t (inr (ok, few, _, _, _, _)) = rw ok (inr (refl, omega (arith, few, z.count)))

  extend_undirected_block-Lengthens :
      (t : Taken) × (extend_undirected_block u m n ≡ done t) × Lengthens u us n m t
  unfolding extend_undirected_block longer
  extend_undirected_block-Lengthens =
      let (t, e, r) =
        take_sectors-Takes (total - u.num_sectors) u.num_sectors u m i.valid
          (rounds total total-bounds.0 total-bounds.1) in
      (
        longer t,
        rw (le→ltb 29 total (fits total total-bounds.1), extend_undirected_block)
            (rw (e, extend_undirected_block) refl),
        longer-Lengthens t r,
      )
    where
      rounds :
          (t : ℕ)
          → length us ≤ t
          → t ≤ 28
          → u.num_sectors + (t - u.num_sectors) ≤ length u.data_sectors
      rounds t p q = omega (arith, z.count, z.table_size)

      fits : (t : ℕ) → t ≤ 28 → t ≤ 29
      fits t p = omega arith

-- Reading a list of sectors that got more behind it.
byte_of-append :
    (d : Disk) (us gs : List ℕ) (i : ℕ)
    → i < length us * 128
    → byte_of d (us ++ gs) i ≡ byte_of d us i
byte_of-append d us gs i p =
    ap (λ (s : ℕ). get_or (get_or d s []) (i % 128) 0)
      (get_or-append_left us gs (i / 128) (omega arith))

-- One more list of entries behind the first.
Lists-append :
    (d : Disk) (us es xs : List ℕ)
    → Lists d us 0 es
    → Lists d us (length es) xs
    → Lists d us 0 (es ++ xs)
Lists-append d us es xs l r j b p q = elim (dec_lt j (length es)) [
  | yes h ↦ l j b h q ∙ ap (λ (t : ℕ). t / 256 ^ b % 256) (sym (get_or-append_left es xs j h))
  | no h ↦
      ap (byte_of d us) {x = 4 * (0 + j) + b} {y = 4 * (length es + (j - length es)) + b}
        (omega arith)
      ∙ r (j - length es) b (omega (arith, length-append es xs)) q
      ∙ ap (λ (t : ℕ). t / 256 ^ b % 256)
          (sym (get_or-append_right es xs (j - length es))
            ∙ ap (λ (t : ℕ). get_or (es ++ xs) t 0) {x = length es + (j - length es)} {y = j}
                (omega arith))
]

-- An undirected block: its header, in the sector `s`, its sectors, and its entries.
pub record IsBlock (d : Disk) (s : ℕ) (u : FileHeader) (us es : List ℕ) : Type 0 where
  pub direct : IsDirect u us
  pub sized : IsSized u us
  pub bytes : u.num_bytes ≡ 4 * length es
  pub entries : Lists d us 0 es
  pub apart : All (λ t. t ≢ s) us

-- What `Extend` gives by a block that gets `n` more entries: TRUE, and the block has fresh entries and
-- sectors behind its own, or FALSE, since there are not enough free sectors.
abbrev pub FillsBlock :
    FileHeader → ℕ → FileHeader → List ℕ → List ℕ → ℕ → BitMap → Disk → Extended → Type 0
FillsBlock h s u us es n m d e =
    ((e.ok ≡ true)
      × ((u' : FileHeader) × (gs : List ℕ) × (xs : List ℕ) × (length xs ≡ n)
          × (e.hdr ≡ h)
          × (fetch_from e.disk s ≡ done u')
          × IsBlock e.disk s u' (us ++ gs) (es ++ xs)
          × Fresh m (gs ++ xs) e.free_map
          × IsDisk e.disk
          × SameBut (s ∷ us ++ gs) d e.disk))
    ⊎ ((e.ok ≡ false)
        × (e.hdr ≡ h)
        × (free_count m < div_round_up (4 * (length es + n)) sector_size - length us + n))

module _ (levels : ℕ) (memory table : List ℕ) (room : 128 ≤ length memory) (h u : FileHeader)
    (us es : List ℕ) (n : ℕ) (m : BitMap) (d : Disk) (v : IsDisk d)
    (b : IsBlock d (data_sector h 28) u us es) (i : InUse m (data_sector h 28 ∷ us))
    (inside : data_sector h 28 < disk_sectors) (short : length es + n ≤ 896) where
  abbrev s₀ : ℕ
  s₀ = data_sector h 28

  -- The disk once the block's new header is written back.
  module _ (t : Taken) (gs : List ℕ) (f : IsDirect t.hdr (us ++ gs)) (z : IsSized t.hdr (us ++ gs))
      (bytes : t.hdr.num_bytes ≡ u.num_bytes + n * 4) (fresh : Fresh m gs t.free_map) (d₁ : Disk)
      (w : WritesBack d s₀ t.hdr d₁) where
    still_IsDisk : IsDisk d₁
    still_IsDisk = record {
      size = w.size;
      sectors = λ x p. elim (ℕ_discrete s₀ x) [
        | yes e ↦ ap (λ (y : ℕ). length (get_or d₁ y [])) (sym e) ∙ w.whole
        | no q ↦ ap length (w.same x q) ∙ v.sectors x p
      ];
    }

    block_apart : All (λ x. x ≢ s₀) (us ++ gs)
    block_apart = All-append _ us gs b.apart (Fresh-avoids m gs t.free_map fresh s₀ i.used.0)

    total_sectors : length (us ++ gs) ≡ div_round_up (4 * (length es + n)) 128
    total_sectors =
        z.sized
        ∙ ap (λ (k : ℕ). div_round_up k 128) {x = t.hdr.num_bytes} {y = 4 * (length es + n)}
            (omega (arith, bytes, b.bytes))

    -- The entries that the block had are still there.
    old_entries :
        (d' : Disk)
        → ((j : ℕ) → j < 4 * length es → byte_of d' (us ++ gs) j ≡ byte_of d₁ (us ++ gs) j)
        → Lists d' (us ++ gs) 0 es
    old_entries d' kept j c p q =
        kept (4 * (0 + j) + c) (omega arith)
        ∙ byte_of-append d₁ us gs (4 * (0 + j) + c) low
        ∙ ap (λ (x : List ℕ). get_or x ((4 * (0 + j) + c) % 128) 0)
            (w.same (get_or us ((4 * (0 + j) + c) / 128) 0) (λ e.
              All-get_or (λ x. x ≢ s₀) us ((4 * (0 + j) + c) / 128) 0 b.apart (omega arith)
                (sym e)))
        ∙ b.entries j c p q
      where
        low : 4 * (0 + j) + c < length us * 128
        low = omega (arith, b.direct.enough, b.bytes)

    done_Fills :
        (m' : BitMap) (d' : Disk) (ok : Bool)
        → Enters (stored_header t.hdr) (us ++ gs) (length es) n t.free_map d₁ ok m' d'
        → FillsBlock h s₀ u us es n m d (record { ok = ok; hdr = h; free_map = m'; disk = d' })
    done_Fills m' d' ok r = elim r.entries [
      | inl (e, (xs, l, g, listed)) ↦
          let (f', z', small) = stored_header-IsDirect t.hdr (us ++ gs) f z in
          inl (
            e,
            (
              stored_header t.hdr,
              gs,
              xs,
              l,
              refl,
              fetch_from-same d₁ d' s₀ (r.same s₀ block_apart) ∙ w.fetched,
              record {
                direct = f';
                sized = z';
                bytes = mod-eq_of_lt small ∙ bytes ∙ omega (arith, b.bytes, l, length-append es xs);
                entries = Lists-append d' (us ++ gs) es xs (old_entries d' r.kept) listed;
                apart = block_apart;
              },
              Fresh-append m gs xs t.free_map m' fresh g,
              r.valid,
              λ x a. r.same x a.1 ∙ w.same x a.0,
            ),
          )
      | inr (e, few) ↦
          inr (e, refl, omega (arith, few, fresh.count, total_sectors, length-append us gs))
    ]

  -- The chain of the calls.
  fill_undirected-true :
      (t : Taken) (d₁ : Disk) (u' : FileHeader) (k : ℕ) (ok : Bool) (m' : BitMap) (d' : Disk)
      → extend_undirected_block u m n ≡ done t
      → t.ok ≡ true
      → write_back d s₀ t.hdr ≡ done d₁
      → fetch_from d₁ s₀ ≡ done u'
      → u'.num_bytes - n * 4 ≡ k
      → write_entries
          (suc levels)
          memory
          table
          n
          (record { hdr = u'; seek_position = k })
          t.free_map
          d₁
        ≡ done (ok, m', d')
      → fill_undirected (suc levels) memory table h u m d n
        ≡ done (record { ok = ok; hdr = h; free_map = m'; disk = d' })
  unfolding fill_undirected open_file seek
  fill_undirected-true t d₁ u' k ok m' d' e₁ e₂ e₃ e₄ e₅ e₆ =
      rw (e₁, fill_undirected)
        (rw (e₂, fill_undirected)
          (rw (e₃, fill_undirected)
            (rw (e₄, fill_undirected) (rw (e₅, fill_undirected) (rw (e₆, fill_undirected) refl)))))

  fill_undirected-false :
      (t : Taken)
      → extend_undirected_block u m n ≡ done t
      → t.ok ≡ false
      → fill_undirected (suc levels) memory table h u m d n
        ≡ done (record { ok = false; hdr = h; free_map = t.free_map; disk = d })
  unfolding fill_undirected
  fill_undirected-false t e₁ e₂ = rw (e₁, fill_undirected) (rw (e₂, fill_undirected) refl)

  pub fill_undirected-Fills :
      (e : Extended) × (fill_undirected (suc levels) memory table h u m d n ≡ done e)
      × FillsBlock h s₀ u us es n m d e
  fill_undirected-Fills =
      let (t, e, r) =
        extend_undirected_block-Lengthens u us m n b.direct b.sized
          (record { valid = i.valid; size = i.size; used = i.used.1 }) (omega (arith, b.bytes)) in
      elim r [
        | inl (ok, (gs, f, z, bytes, fresh)) ↦
            let (d₁, e₁, w) = write_back-WritesBack d s₀ t.hdr z.table_size inside v.size in
            let (f', z', small) = stored_header-IsDirect t.hdr (us ++ gs) f z in
            let fits : 4 * (length es + n) ≤ t.hdr.num_bytes % 2 ^ 32 =
              omega (arith, bytes, b.bytes, mod-eq_of_lt small) in
            let (ok', m', d', e₂, r') =
              write_entries-Enters levels memory table (stored_header t.hdr) (us ++ gs) f' room n
                (length es) t.free_map d₁ fresh.valid (still_IsDisk t gs f z bytes fresh d₁ w)
                fits in
            (
              record { ok = ok'; hdr = h; free_map = m'; disk = d' },
              fill_undirected-true t d₁ (stored_header t.hdr) (4 * length es) ok' m' d' e ok e₁
                  w.fetched (omega (arith, bytes, b.bytes, mod-eq_of_lt small)) e₂,
              done_Fills t gs f z bytes fresh d₁ w m' d' ok' r',
            )
        | inr (ok, few) ↦ (
          record { ok = false; hdr = h; free_map = t.free_map; disk = d },
          fill_undirected-false t e ok,
          inr (refl, refl, few_free few),
        )
      ]
    where
      few_free :
          free_count m < div_round_up (u.num_bytes + n * 4) 128 - length us
          → free_count m < div_round_up (4 * (length es + n)) 128 - length us + n
      few_free few = omega (
        arith,
        few,
        ap (λ (k : ℕ). div_round_up k 128) {x = u.num_bytes + n * 4} {y = 4 * (length es + n)}
            (omega (arith, b.bytes)),
      )
