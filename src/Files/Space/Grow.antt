-- ===== src/Files/Space/Grow.antt =====
-- `Extend` of a file that gets an undirected block, and of one that has one.
use non_os.Base.{
  ℕ, ◌+◌, ◌-◌, ◌<◌, ◌≤◌, ◌≡◌, refl, ap, sym, ◌∙◌, ◌⊎◌, true, false, none, some, List, ◌∷◌, ◌++◌,
  length, length-append, get_or, min, max, le→ltb, lt→ltb, arith, done,
}
use native.Mathlib.Decide.{dec_lt}
use non_os.BitMap.{BitMap, div_round_up, find}
use non_os.BitMap.Count.{free_count}
use non_os.Files.{Disk, FileHeader, data_sector, fetch_from}
use non_os.Files.Buffers.{get_or-append_left, get_or-append_right}
use non_os.Files.Contents.{IsDisk, SameBut}
use non_os.Files.Fresh.{Fresh}
use non_os.Files.Space.{
  Taken, Extended, take_sectors, put_sector, empty_header, fill_undirected, extend_undirected,
  grown, extend,
}
use non_os.Files.Space.Fill.{IsBlock}
use non_os.Files.Space.Indexed.{Keeps, Keeps-Fresh, IsIndexed}

-- What `Extend` by `n` bytes gives for a file of sectors `ss` that has an undirected block when it
-- returns TRUE: `xs` are its new sectors, `taken` all that are taken. `lack` is the number of free
-- sectors that it needs.
abbrev pub Reaches : BitMap → Disk → FileHeader → List ℕ → ℕ → ℕ → Extended → Type 0
Reaches m d h ss n lack e =
    ((e.ok ≡ true)
      × ((u : FileHeader) × (us : List ℕ) × (es : List ℕ) × (xs : List ℕ) × (taken : List ℕ)
          × IsIndexed e.free_map e.disk e.hdr u us (ss ++ xs) es
          × (e.hdr.num_bytes ≡ h.num_bytes + n)
          × Fresh m taken e.free_map
          × IsDisk e.disk
          × SameBut (data_sector e.hdr 28 ∷ us) d e.disk))
    ⊎ ((e.ok ≡ false) × (free_count m < lack))

-- The file once its block is filled.
pub grown-IsIndexed :
    (m m' : BitMap) (d' : Disk) (h u' : FileHeader) (us ss es gs xs : List ℕ) (bytes : ℕ)
    → Keeps m (data_sector h 28) us ss
    → length h.data_sectors ≡ 29
    → ((i : ℕ) → i < 28 → data_sector h i ≡ get_or ss i 0)
    → ((j : ℕ) → j < length es → get_or ss (28 + j) 0 ≡ get_or es j 0)
    → length ss ≡ 28 + length es
    → 0 < length xs
    → length ss + length xs ≡ div_round_up bytes 128
    → fetch_from d' (data_sector h 28) ≡ done u'
    → IsBlock d' (data_sector h 28) u' (us ++ gs) (es ++ xs)
    → Fresh m (gs ++ xs) m'
    → IsIndexed m' d'
        (record h { num_bytes = bytes; num_sectors = div_round_up bytes 128 })
        u'
        (us ++ gs)
        (ss ++ xs)
        (es ++ xs)
grown-IsIndexed m m' d' h u' us ss es gs xs bytes k table_size table tail size some' total fetched b
      f =
    record {
      keeps = Keeps-Fresh m (data_sector h 28) us ss gs xs m' k f;
      fetched = fetched;
      block = b;
      table = λ i p. table i p ∙ sym (get_or-append_left ss xs i (omega (arith, size)));
      tail = λ j p. elim (dec_lt j (length es)) [
        | yes q ↦
            get_or-append_left ss xs (28 + j) (omega (arith, size))
            ∙ tail j q
            ∙ sym (get_or-append_left es xs j q)
        | no q ↦
            ap (λ (t : ℕ). get_or (ss ++ xs) t 0) {x = 28 + j} {y = length ss + (j - length es)}
              (omega (arith, size))
            ∙ get_or-append_right ss xs (j - length es)
            ∙ sym (get_or-append_right es xs (j - length es))
            ∙ ap (λ (t : ℕ). get_or (es ++ xs) t 0) {x = length es + (j - length es)} {y = j}
                (omega arith)
      ];
      size = length-append ss xs ∙ omega (arith, size, length-append es xs);
      some = omega (arith, some', length-append es xs);
      sized = record {
        count = sym (length-append ss xs ∙ total);
        sized = length-append ss xs ∙ total;
        table_size = table_size;
      };
    }

module _ (levels : ℕ) (memory table : List ℕ) (h : FileHeader) (m : BitMap) (d : Disk) (n : ℕ) where
  abbrev total : ℕ
  total = div_round_up (h.num_bytes + n) 128

  -- The chains of the calls.
  pub extend-longer :
      (t : Taken) (e : Extended)
      → take_sectors (min total 28 - h.num_sectors) h.num_sectors h m ≡ done t
      → t.ok ≡ true
      → max h.num_sectors (min total 28) < total
      → extend_undirected levels memory table t.hdr t.free_map d h.num_sectors total ≡ done e
      → extend levels memory table h m d n
        ≡ done (grown levels memory table (h.num_bytes + n) total e)
  unfolding extend
  extend-longer t e e₁ e₂ p e₃ =
      rw (e₁, extend)
        (rw (e₂, extend)
          (rw (lt→ltb (max h.num_sectors (min total 28)) total p, extend) (rw (e₃, extend) refl)))

  pub extend-within :
      (t : Taken)
      → take_sectors (min total 28 - h.num_sectors) h.num_sectors h m ≡ done t
      → t.ok ≡ true
      → total ≤ max h.num_sectors (min total 28)
      → extend levels memory table h m d n
        ≡ done (record {
          ok = true;
          hdr = record t.hdr { num_bytes = h.num_bytes + n; num_sectors = total };
          free_map = t.free_map;
          disk = d;
        })
  unfolding extend
  extend-within t e₁ e₂ p =
      rw (e₁, extend)
        (rw (e₂, extend) (rw (le→ltb (max h.num_sectors (min total 28)) total p, extend) refl))

  pub extend-fails :
      (t : Taken)
      → take_sectors (min total 28 - h.num_sectors) h.num_sectors h m ≡ done t
      → t.ok ≡ false
      → extend levels memory table h m d n
        ≡ done (record { ok = false; hdr = t.hdr; free_map = t.free_map; disk = d })
  unfolding extend
  extend-fails t e₁ e₂ = rw (e₁, extend) (rw (e₂, extend) refl)

module _ (levels : ℕ) (memory table : List ℕ) (h : FileHeader) (m : BitMap) (d : Disk)
    (had total : ℕ) where
  pub extend_undirected-old :
      (u : FileHeader) (e : Extended)
      → 28 < had
      → fetch_from d (data_sector h 28) ≡ done u
      → fill_undirected levels memory table h u m d (total - had) ≡ done e
      → extend_undirected levels memory table h m d had total ≡ done e
  unfolding extend_undirected
  extend_undirected-old u e p e₁ e₂ =
      rw (lt→ltb 28 had p, extend_undirected) (rw (e₁, extend_undirected) e₂)

  pub extend_undirected-new :
      (s : ℕ) (m' : BitMap) (e : Extended)
      → had ≤ 28
      → find m ≡ done (some s, m')
      → fill_undirected levels memory table
          (put_sector h 28 s)
          (empty_header table)
          m'
          d
          (total - had - (28 - had))
        ≡ done e
      → extend_undirected levels memory table h m d had total ≡ done e
  unfolding extend_undirected
  extend_undirected-new s m' e p e₁ e₂ =
      rw (le→ltb 28 had p, extend_undirected) (rw (e₁, extend_undirected) e₂)

  pub extend_undirected-full :
      (m' : BitMap)
      → had ≤ 28
      → find m ≡ done (none, m')
      → (e : Extended) × (extend_undirected levels memory table h m d had total ≡ done e)
        × (e.ok ≡ false)
  unfolding extend_undirected
  extend_undirected-full m' p e₁ =
      rw (le→ltb 28 had p, extend_undirected) (rw (e₁, extend_undirected) (_, refl, refl))
