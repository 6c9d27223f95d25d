-- ===== src/Files/Space/Return.antt =====
-- `Deallocate` of a file with an undirected block.
use non_os.Base.{
  same_elements, ℕ, zero, suc, ◌+◌, ◌-◌, ◌*◌, ◌/◌, ◌%◌, ◌^◌, ◌<◌, ◌≤◌, ◌≡◌, ◌≢◌, refl, ap, subst,
  sym, ◌∙◌, inl, inr, ◌⊎◌, true, List, [], ◌∷◌, ◌++◌, length, length-append, get_or, All, All-map,
  Distinct, min, leb, arith, done,
}
use non_os.Base.Apart.{Apart-transpose, All-split, Distinct-split}
use non_os.BitMap.{BitMap}
use non_os.BitMap.View.{is_set, IsValid}
use non_os.Machine.Bytes.{load_bytes}
use non_os.Files.{
  Disk, FileHeader, data_sector, disk_sectors, read, seek, copy_to, fetch_from, open_file,
}
use non_os.Files.Buffers.{
  get_or-append_left, get_or-append_right, length-copy_to, get_or-copy_to_in,
}
use non_os.Files.Contents.{IsDisk, byte_of, read_at-Holds}
use non_os.Files.Sectors.{IsDirect, IsDirect-Occupies}
use non_os.Files.Space.{
  give_back, give_entries, give_sectors, deallocate, deallocate_undirected_block,
}
use non_os.Files.Space.Release.{
  Frees, deallocate-Frees, give_back-IsUpdate, give_sectors-Frees, Frees-one, Frees-append,
  Frees-used, All-apart,
}
use non_os.Files.Space.Entries.{Lists}
use non_os.Files.Space.Indexed.{IsIndexed}
use non_os.Files.Space.Whole.{IsFile}

module _ (levels : ℕ) (d : Disk) (u : FileHeader) (us : List ℕ) (v : IsDisk d)
    (f : IsDirect u us) where
  -- One entry of the block read into `sector`.
  read-entry :
      (k s : ℕ) (sector : List ℕ)
      → length sector ≡ 4
      → 4 * (k + 1) ≤ u.num_bytes
      → s < 2 ^ 32
      → ((b : ℕ) → b < 4 → byte_of d us (4 * k + b) ≡ s / 256 ^ b % 256)
      → (bytes : List ℕ) × (read (suc levels) d (record { hdr = u; seek_position = 4 * k }) 4
          ≡ done (bytes, record { hdr = u; seek_position = 4 * (k + 1) }))
        × (load_bytes (copy_to bytes 0 sector) 0 4 ≡ s)
  unfolding read seek load_bytes
  read-entry k s sector l h small word =
      let (bytes, e, r) =
        read_at-Holds (suc levels) u us d 4 (4 * k) v (IsDirect-Occupies levels d u us f) in
      let four : length bytes ≡ 4 = omega (arith, r.size) in
      let byte : (b : ℕ) → b < 4 → get_or (copy_to bytes 0 sector) b 0 ≡ s / 256 ^ b % 256 = λ b p.
        ap (λ (t : ℕ). get_or (copy_to bytes 0 sector) t 0) {x = b} {y = 0 + b} (omega arith)
        ∙ get_or-copy_to_in bytes 0 sector b (omega (arith, four, l)) (omega (arith, four))
        ∙ r.bytes b (omega arith)
        ∙ word b p in
      (
        bytes,
        rw e (
            ap (λ (t : ℕ). done (bytes, record { hdr = u; seek_position = t }))
              {x = 4 * k + length bytes} {y = 4 * (k + 1)} (omega (arith, four))),
        omega (
          arith,
          small,
          byte 0 (omega arith),
          byte 1 (omega arith),
          byte 2 (omega arith),
          byte 3 (omega arith),
        ),
      )

  give_entries-Frees :
      (es : List ℕ) (k : ℕ) (sector : List ℕ) (m : BitMap)
      → length sector ≡ 4
      → 4 * (k + length es) ≤ u.num_bytes
      → m.num_bits ≡ 1024
      → IsValid m
      → All (λ x. x < disk_sectors) es
      → All (λ x. is_set m x ≡ true) es
      → Distinct es
      → Lists d us k es
      → (m' : BitMap) × (give_entries
            (suc levels)
            (length es)
            d
            (record { hdr = u; seek_position = 4 * k })
            sector
            m
          ≡ done m')
        × Frees m es m'
  unfolding give_entries load_bytes
  give_entries-Frees [] k sector m l h size w below used dist listed =
      (m, refl, record { valid = w; size = refl; freed = tt; kept = λ t a. refl })
  give_entries-Frees (x ∷ es) k sector m l h size w below used dist listed =
      let (bytes, e, word) = read-entry k x sector l (omega arith) (small x below.0) (λ b p.
        ap (byte_of d us) {x = 4 * k + b} {y = 4 * (k + 0) + b} (omega arith)
        ∙ listed 0 b (omega arith) p) in
      let (m₁, e₁, up) = give_back-IsUpdate m x w (omega (arith, size, below.0)) used.0 in
      let one : Frees m (x ∷ []) m₁ = Frees-one m x m₁ up in
      let (m', e₂, r) =
        give_entries-Frees es (k + 1) (copy_to bytes 0 sector) m₁
          (length-copy_to bytes 0 sector ∙ l) (omega arith) (one.size ∙ size) one.valid below.1
          (Frees-used m (x ∷ []) m₁ one es (All-apart x es dist.0) used.1) dist.1
          (λ j b p q.
            ap (byte_of d us) {x = 4 * (k + 1 + j) + b} {y = 4 * (k + suc j) + b} (omega arith)
            ∙ listed (suc j) b (omega arith) q) in
      (
        m',
        rw (e, give_entries) (rw (word, give_entries) (rw (e₁, give_entries) e₂)),
        Frees-append m (x ∷ []) es m₁ m' one r,
      )
    where
      small : (s : ℕ) → s < 1024 → s < 2 ^ 32
      small s p = omega arith

-- A list cut in two.
split_at :
    (n : ℕ) (xs : List ℕ)
    → n ≤ length xs
    → (ts : List ℕ) × (ys : List ℕ) × (xs ≡ ts ++ ys) × (length ts ≡ n)
split_at zero xs h = ([], xs, refl, refl)
split_at (suc n) [] h = absurd (omega arith)
split_at (suc n) (x ∷ xs) h =
    let (ts, ys, e, l) = split_at n xs (omega arith) in (x ∷ ts, ys, ap (λ zs. x ∷ zs) e, ap suc l)

-- The sectors of a file with an undirected block: 28 in the table, then the entries of the block.
IsIndexed-parts :
    (m : BitMap) (d : Disk) (h u : FileHeader) (us ss es : List ℕ)
    → IsIndexed m d h u us ss es
    → (ts : List ℕ) × (length ts ≡ 28) × (ss ≡ ts ++ es)
IsIndexed-parts m d h u us ss es x =
    let (ts, ys, e, l) = split_at 28 ss (omega (arith, x.size)) in
    let sizes : length ss ≡ 28 + length ys = ap length e ∙ length-append ts ys ∙ omega (arith, l) in
    let rest : ys ≡ es = same_elements ys es (omega (arith, sizes, x.size)) (λ j p.
      sym (get_or-append_right ts ys j)
      ∙ ap (λ (t : ℕ). get_or (ts ++ ys) t 0) {x = length ts + j} {y = 28 + j} (omega (arith, l))
      ∙ ap (λ (zs : List ℕ). get_or zs (28 + j) 0) (sym e)
      ∙ x.tail j (omega (arith, sizes, x.size))) in
    (ts, l, e ∙ ap (λ zs. ts ++ zs) rest)

module _ (levels : ℕ) (sector : List ℕ) (h u : FileHeader) (us ss es : List ℕ) (d : Disk)
    (m : BitMap) where
  -- The chain of the calls.
  deallocate-chain :
      (m₁ m₂ m₃ m₄ : BitMap)
      → 28 ≤ h.num_sectors
      → give_sectors 28 0 h m ≡ done m₁
      → fetch_from d (data_sector h 28) ≡ done u
      → give_entries
          (suc levels)
          (h.num_sectors - 28)
          d
          (record { hdr = u; seek_position = 0 })
          sector
          m₁
        ≡ done m₂
      → give_back m₂ (data_sector h 28) ≡ done m₃
      → deallocate_undirected_block u m₃ ≡ done m₄
      → deallocate (suc levels) sector h d m ≡ done m₄
  unfolding deallocate open_file
  deallocate-chain m₁ m₂ m₃ m₄ p e₁ e₂ e₃ e₄ e₅ =
      rw (rounds, deallocate)
        (rw (e₁, deallocate)
          (rw (many, deallocate)
            (rw (e₂, deallocate) (rw (e₃, deallocate) (rw (e₄, deallocate) e₅)))))
    where
      rounds : min 28 h.num_sectors ≡ 28
      rounds = omega arith

      many : leb 28 h.num_sectors ≡ true
      many = ground arith

swap_ends : (s : ℕ) (us : List ℕ) → All (λ t. t ≢ s) us → All (λ t. All (λ x. x ≢ t) (s ∷ [])) us
swap_ends s [] a = tt
swap_ends s (u ∷ us) a = (((λ e. a.0 (sym e)), tt), swap_ends s us a.1)

module _ (levels : ℕ) (sector : List ℕ) (h u : FileHeader) (us ss es : List ℕ) (d : Disk)
    (m : BitMap) (l : length sector ≡ 4) (v : IsDisk d) (x : IsIndexed m d h u us ss es) where
  abbrev s₀ : ℕ
  s₀ = data_sector h 28

  -- The loops over the table and over the entries.
  sectors-Frees :
      (m₁ : BitMap) × (m₂ : BitMap) × (give_sectors 28 0 h m ≡ done m₁)
      × (give_entries
            (suc levels)
            (h.num_sectors - 28)
            d
            (record { hdr = u; seek_position = 0 })
            sector
            m₁
          ≡ done m₂)
      × Frees m ss m₂
  sectors-Frees =
      let (ts, l', e) = IsIndexed-parts m d h u us ss es x in
      let k = x.keeps in
      let (dt, de, a) = Distinct-split ts es (subst Distinct e k.distinct) in
      let (it, ie) = All-split (λ s. s < disk_sectors) ts es (subst (All _) e k.inside) in
      let (ut, ue) = All-split (λ s. is_set m s ≡ true) ts es (subst (All _) e k.sectors.used) in
      let (m₁, e₁, f₁) =
        give_sectors-Frees ts 0 h m k.sectors.valid
          (All-map (λ s p. omega (arith, k.sectors.size)) ts it) ut dt
          (λ j p.
            ap (data_sector h) {x = 0 + j} {y = j} (omega arith)
            ∙ x.table j (omega (arith, l'))
            ∙ ap (λ (zs : List ℕ). get_or zs j 0) e
            ∙ get_or-append_left ts es j p) in
      let (m₂, e₂, f₂) =
        give_entries-Frees levels d u us v x.block.direct es 0 sector m₁ l
          (omega (arith, x.block.bytes)) (f₁.size ∙ k.sectors.size) f₁.valid ie
          (Frees-used m ts m₁ f₁ es (Apart-transpose ts es a) ue) de x.block.entries in
      (
        m₁,
        m₂,
        ap (λ (n : ℕ). give_sectors n 0 h m) (sym l') ∙ e₁,
        ap
              (λ (n : ℕ).
                give_entries (suc levels) n d (record { hdr = u; seek_position = 0 }) sector m₁)
              {x = h.num_sectors - 28} {y = length es} (omega (arith, x.sized.count, x.size))
            ∙ e₂,
        subst (λ zs. Frees m zs m₂) (sym e) (Frees-append m ts es m₁ m₂ f₁ f₂),
      )

  -- The sector of the block's header, and those of the block.
  block-Frees :
      (m₂ : BitMap)
      → Frees m ss m₂
      → (m₃ : BitMap) × (m₄ : BitMap) × (give_back m₂ s₀ ≡ done m₃)
        × (deallocate_undirected_block u m₃ ≡ done m₄)
        × Frees m₂ (s₀ ∷ us) m₄
  unfolding deallocate_undirected_block
  block-Frees m₂ both =
      let k = x.keeps in
      let size : m₂.num_bits ≡ 1024 = both.size ∙ k.sectors.size in
      let (m₃, e₃, up) =
        give_back-IsUpdate m₂ s₀ both.valid (omega (arith, size, k.header_inside))
          (both.kept s₀ k.header_apart ∙ k.block.used.0) in
      let head : Frees m₂ (s₀ ∷ []) m₃ = Frees-one m₂ s₀ m₃ up in
      let (m₄, e₄, f₄) =
        give_sectors-Frees us 0 u m₃ head.valid
          (All-map (λ s p. omega (arith, head.size, size)) us x.block.direct.inside)
          (Frees-used m₂ (s₀ ∷ []) m₃ head us (swap_ends s₀ us x.block.apart)
            (Frees-used m ss m₂ both us k.block_apart k.block.used.1))
          x.block.direct.distinct
          (λ j p.
            ap (data_sector u) {x = 0 + j} {y = j} (omega arith) ∙ x.block.direct.table j p) in
      (
        m₃,
        m₄,
        e₃,
        ap (λ (n : ℕ). give_sectors n 0 u m₃) x.block.sized.count ∙ e₄,
        Frees-append m₂ (s₀ ∷ []) us m₃ m₄ head f₄,
      )

  -- `Deallocate` of a file with an undirected block frees the file's sectors, the sector of the block's
  -- header and the sectors of the block, and no others, and never aborts.
  pub deallocate-Indexed :
      (m' : BitMap) × (deallocate (suc levels) sector h d m ≡ done m') × Frees m (ss ++ s₀ ∷ us) m'
  deallocate-Indexed =
      let (m₁, m₂, e₁, e₂, both) = sectors-Frees in
      let (m₃, m₄, e₃, e₄, f) = block-Frees m₂ both in
      (
        m₄,
        deallocate-chain levels sector h u us ss es d m m₁ m₂ m₃ m₄
            (omega (arith, x.sized.count, x.size)) e₁ x.fetched e₂ e₃ e₄,
        Frees-append m ss (s₀ ∷ us) m₂ m₄ both f,
      )

-- What `Deallocate` leaves of the map.
abbrev pub Releases : BitMap → Disk → FileHeader → List ℕ → BitMap → Type 0
Releases m d h ss m' =
    (IsDirect h ss × Frees m ss m')
    ⊎ ((u : FileHeader) × (us : List ℕ) × (es : List ℕ) × IsIndexed m d h u us ss es
        × Frees m (ss ++ data_sector h 28 ∷ us) m')

-- `Deallocate` of any file that does not have just 28 sectors: it ends and never aborts, and frees the
-- sectors of the file, the header's sector and the sectors of its undirected block, if it has one, and
-- no others.
pub deallocate-Releases :
    (levels : ℕ) (sector : List ℕ) (h : FileHeader) (ss : List ℕ) (d : Disk) (m : BitMap)
    → length sector ≡ 4
    → IsDisk d
    → IsFile m d h ss
    → length ss ≢ 28
    → (m' : BitMap) × (deallocate (suc levels) sector h d m ≡ done m') × Releases m d h ss m'
deallocate-Releases levels sector h ss d m l v (inl (f, z, i)) n =
    let (m', e, r) =
      deallocate-Frees (suc levels) sector h ss d m f z.count (omega (arith, f.few)) i in
    (m', e, inl (f, r))
deallocate-Releases levels sector h ss d m l v (inr (u, us, es, x)) n =
    let (m', e, r) = deallocate-Indexed levels sector h u us ss es d m l v x in
    (m', e, inr (u, us, es, x, r))
