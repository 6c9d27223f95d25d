-- ===== src/Files/Space/Reach.antt =====
-- `Extend` into the undirected block, as a whole.
use non_os.Base.{
  ℕ, suc, ◌+◌, ◌-◌, ◌*◌, ◌<◌, ◌≤◌, ◌≡◌, refl, ap, subst, sym, ◌∙◌, inl, inr, true, false, List, [],
  ◌∷◌, ◌++◌, append_assoc, append-nil, length, length-append, length-set, get_or, get_or-set_self,
  get_or-set_ne, All-map, min, max, arith, done,
}
use non_os.BitMap.{BitMap, div_round_up}
use non_os.BitMap.Count.{free_count}
use non_os.Files.{Disk, FileHeader, data_sector, disk_sectors, sector_size, fetch_from}
use non_os.Files.Contents.{IsDisk, SameBut}
use non_os.Files.Sectors.{IsDirect}
use non_os.Files.Fresh.{Fresh, Fresh-nil, Fresh-append, Fresh-avoids, All-flip, find-Gives}
use non_os.Files.Space.{
  Taken, Extended, take_sectors, put_sector, empty_header, fill_undirected, grown, extend,
}
use non_os.Files.Space.Takes.{Fills, take_sectors-Takes}
use non_os.Files.Space.Direct.{
  IsSized, InUse, Fills-table, Fresh-Distinct, Fresh-inside, Fresh-InUse,
}
use non_os.Files.Space.Fill.{IsBlock, FillsBlock, fill_undirected-Fills}
use non_os.Files.Space.Indexed.{Keeps, IsIndexed}
use non_os.Files.Space.Grow.{
  Reaches, grown-IsIndexed, extend-longer, extend-fails, extend_undirected-old,
  extend_undirected-new, extend_undirected-full,
}

-- The end of both cases: the block is filled, with `k` entries, after `before` is taken.
module _ (levels : ℕ) (memory table : List ℕ) (m m₁ : BitMap) (d : Disk) (h₀ h u : FileHeader)
    (ss₀ old us ss es before : List ℕ) (n k lack : ℕ) (fresh : Fresh m before m₁)
    (keeps : Keeps m₁ (data_sector h 28) us ss) (table_size : length h.data_sectors ≡ 29)
    (direct : (i : ℕ) → i < 28 → data_sector h i ≡ get_or ss i 0)
    (tail : (j : ℕ) → j < length es → get_or ss (28 + j) 0 ≡ get_or es j 0)
    (size : length ss ≡ 28 + length es) (more : 0 < k)
    (total : length ss + k ≡ div_round_up (h₀.num_bytes + n) 128) (parts : ss ≡ ss₀ ++ old)
    (enough : div_round_up (4 * (length es + k)) 128 - length us + k + length before ≤ lack) where
  abbrev finished : Extended → Extended
  finished e = grown levels memory table (h₀.num_bytes + n) (div_round_up (h₀.num_bytes + n) 128) e

  finished-Reaches :
      (e : Extended)
      → FillsBlock h (data_sector h 28) u us es k m₁ d e
      → Reaches m d h₀ ss₀ n lack (finished e)
  finished-Reaches e (inl (ok, (u', gs, xs, l, same_hdr, fetched, b, f, v, same))) =
      let indexed =
        grown-IsIndexed m₁ e.free_map e.disk h u' us ss es gs xs (h₀.num_bytes + n) keeps table_size
          direct tail size (omega (arith, l)) (ap (λ (t : ℕ). length ss + t) l ∙ total) fetched b
          f in
      let lists : ss ++ xs ≡ ss₀ ++ (old ++ xs) =
        ap (λ ys. ys ++ xs) parts ∙ append_assoc ss₀ old xs in
      rw ok (
        inl (
          refl,
          (
            u',
            us ++ gs,
            es ++ xs,
            old ++ xs,
            before ++ (gs ++ xs),
            subst
                (λ (ys : List ℕ).
                  IsIndexed e.free_map e.disk
                    (record e.hdr {
                      num_bytes = h₀.num_bytes + n;
                      num_sectors = div_round_up (h₀.num_bytes + n) 128;
                    })
                    u' (us ++ gs) ys (es ++ xs))
                lists
                (subst
                  (λ (x : FileHeader).
                    IsIndexed e.free_map e.disk
                      (record x {
                        num_bytes = h₀.num_bytes + n;
                        num_sectors = div_round_up (h₀.num_bytes + n) 128;
                      })
                      u' (us ++ gs) (ss ++ xs) (es ++ xs))
                  (sym same_hdr) indexed),
            refl,
            Fresh-append m before (gs ++ xs) m₁ e.free_map fresh f,
            v,
            subst (λ (x : FileHeader). SameBut (data_sector x 28 ∷ us ++ gs) d e.disk)
                (sym same_hdr) same,
          ),
        ))
  finished-Reaches e (inr (ok, same_hdr, few)) =
      rw ok (inr (refl, omega (arith, few, fresh.count, enough)))

-- A block with nothing in it.
new-IsBlock :
    (d : Disk) (s : ℕ) (table : List ℕ) → length table ≡ 29 → IsBlock d s (empty_header table) [] []
new-IsBlock d s table l = record {
  direct = record {
    few = omega arith;
    table = λ i p. absurd (omega arith);
    enough = omega arith;
    inside = tt;
    distinct = tt;
  };
  sized = record { count = refl; sized = refl; table_size = l };
  bytes = refl;
  entries = λ j b p q. absurd (omega arith);
  apart = tt;
}

new-Keeps :
    (m m₁ m₂ : BitMap) (ss xs : List ℕ) (s : ℕ) (h : FileHeader)
    → IsDirect h ss
    → InUse m ss
    → Fresh m xs m₁
    → Fresh m₁ (s ∷ []) m₂
    → Keeps m₂ s [] (ss ++ xs)
new-Keeps m m₁ m₂ ss xs s h f u a b =
    let u₁ : InUse m₁ (ss ++ xs) = Fresh-InUse m ss xs m₁ u a in
    record {
      sectors = record {
        valid = b.valid;
        size = b.size ∙ u₁.size;
        used = All-map (non_os.Files.Fresh.Fresh-stays m₁ (s ∷ []) m₂ b) (ss ++ xs) u₁.used;
      };
      block = record { valid = b.valid; size = b.size ∙ u₁.size; used = b.taken };
      inside = Fresh-inside m ss xs m₁ u a f.inside;
      distinct = Fresh-Distinct m ss xs m₁ u a f.distinct;
      header_inside = omega (arith, b.inside.0, u₁.size);
      header_apart =
          All-map (λ t used e. (Fresh-avoids m₁ (s ∷ []) m₂ b t used).0 (sym e)) (ss ++ xs) u₁.used;
      block_apart = tt;
    }

-- A file that gets its undirected block by this call.
module _ (levels : ℕ) (memory table : List ℕ) (room : 128 ≤ length memory)
    (fresh_table : length table ≡ 29) (h : FileHeader) (ss : List ℕ) (m : BitMap) (d : Disk) (n : ℕ)
    (v : IsDisk d) (f : IsDirect h ss) (z : IsSized h ss) (u : InUse m ss)
    (long : 28 < div_round_up (h.num_bytes + n) 128)
    (fits : div_round_up (h.num_bytes + n) 128 ≤ 924) where
  abbrev total : ℕ
  total = div_round_up (h.num_bytes + n) 128

  -- How many free sectors it needs: the file's, the block's, and the one of the block's header.
  abbrev pub new_lack : ℕ
  new_lack = total - length ss + 1 + div_round_up (4 * (total - 28)) 128

  -- The part behind the table.
  behind_table :
      (t : Taken) (xs : List ℕ)
      → length xs ≡ 28 - length ss
      → Fills h (length ss) xs t.hdr
      → Fresh m xs t.free_map
      → (e : Extended) × (non_os.Files.Space.extend_undirected
            (suc levels)
            memory
            table
            t.hdr
            t.free_map
            d
            h.num_sectors
            total
          ≡ done e)
        × Reaches m d h ss n new_lack (grown (suc levels) memory table (h.num_bytes + n) total e)
  behind_table t xs l g a =
      let (o, m₂, e, r) = find-Gives t.free_map a.valid in
      elim r [
        | inl (none_left, full, _) ↦
            let (e', q, no') =
              extend_undirected-full (suc levels) memory table t.hdr t.free_map d h.num_sectors
                total m₂ (omega (arith, z.count, f.few)) (e ∙ ap (λ x. done (x, m₂)) none_left) in
            (e', q, not_enough e' no' (omega (arith, full, a.count, l)))
        | inr (s, got, b) ↦
            let h₂ : FileHeader = put_sector t.hdr 28 s in
            let at : data_sector h₂ 28 ≡ s =
              get_or-set_self t.hdr.data_sectors 28 s 0
                (omega (arith, g.table_size, z.table_size)) in
            let b' : Fresh t.free_map (data_sector h₂ 28 ∷ []) m₂ =
              subst (λ (x : ℕ). Fresh t.free_map (x ∷ []) m₂) (sym at) b in
            let keeps = new-Keeps m t.free_map m₂ ss xs (data_sector h₂ 28) h f u a b' in
            let counts : total - h.num_sectors - (28 - h.num_sectors) ≡ total - 28 =
              omega (arith, long, z.count, f.few) in
            let (e', q, r') =
              fill_undirected-Fills levels memory table room h₂ (empty_header table) [] []
                (total - 28) m₂ d v (new-IsBlock d (data_sector h₂ 28) table fresh_table)
                keeps.block keeps.header_inside (omega (arith, fits)) in
            (
              e',
              extend_undirected-new (suc levels) memory table t.hdr t.free_map d h.num_sectors total
                  s m₂ e' (omega (arith, z.count, f.few)) (e ∙ ap (λ x. done (x, m₂)) got)
                  (ap (fill_undirected (suc levels) memory table h₂ (empty_header table) m₂ d)
                      counts
                    ∙ q),
              finished-Reaches (suc levels) memory table m m₂ d h h₂ (empty_header table) ss xs []
                  (ss ++ xs) [] (xs ++ data_sector h₂ 28 ∷ []) n (total - 28) new_lack
                  (Fresh-append m xs (data_sector h₂ 28 ∷ []) t.free_map m₂ a b') keeps
                  (length-set t.hdr.data_sectors 28 s ∙ g.table_size ∙ z.table_size)
                  (λ i p.
                    get_or-set_ne t.hdr.data_sectors 28 i s 0 (omega arith)
                    ∙ Fills-table h ss xs t.hdr 28 g (λ j q r. f.table j q) i
                        (omega (arith, l, length-append ss xs)) p)
                  (λ j p. absurd (omega arith)) (omega (arith, l, length-append ss xs, f.few))
                  (omega (arith, long)) (omega (arith, l, length-append ss xs, f.few, long)) refl
                  (omega (arith, l, length-append xs (data_sector h₂ 28 ∷ []), f.few, long, blocks))
                  e' r',
            )
      ]
    where
      blocks : div_round_up (4 * (0 + (total - 28))) 128 ≡ div_round_up (4 * (total - 28)) 128
      blocks =
          ap (λ (k : ℕ). div_round_up (4 * k) 128) {x = 0 + (total - 28)} {y = total - 28}
            (omega arith)

      not_enough :
          (e : Extended)
          → e.ok ≡ false
          → free_count m < new_lack
          → Reaches m d h ss n new_lack (grown (suc levels) memory table (h.num_bytes + n) total e)
      not_enough e no' few = rw no' (inr (refl, few))

  -- `Extend` of a file that gets an undirected block by it.
  pub extend-new :
      (e : Extended) × (extend (suc levels) memory table h m d n ≡ done e)
      × Reaches m d h ss n new_lack e
  extend-new =
      let (t, e₁, r) =
        take_sectors-Takes (min total 28 - h.num_sectors) h.num_sectors h m u.valid
          (rounds total long) in
      elim r [
        | inl (ok, (xs, l, g, a)) ↦
            let (e, q, r') =
              behind_table t xs (omega (arith, l, long, z.count))
                (subst (λ (k : ℕ). Fills h k xs t.hdr) z.count g) a in
            (
              grown (suc levels) memory table (h.num_bytes + n) total e,
              extend-longer (suc levels) memory table h m d n t e e₁ ok (below total long) q,
              r',
            )
        | inr (ok, few, _, _, _, _) ↦ (
          record { ok = false; hdr = t.hdr; free_map = t.free_map; disk = d },
          extend-fails (suc levels) memory table h m d n t e₁ ok,
          inr (refl, omega (arith, few, long, z.count)),
        )
      ]
    where
      rounds : (k : ℕ) → 28 < k → h.num_sectors + (min k 28 - h.num_sectors) ≤ length h.data_sectors
      rounds k p = omega (arith, z.count, z.table_size, f.few)

      below : (k : ℕ) → 28 < k → max h.num_sectors (min k 28) < k
      below k p = omega (arith, z.count, f.few)

-- A file that has an undirected block.
module _ (levels : ℕ) (memory table : List ℕ) (room : 128 ≤ length memory) (h u : FileHeader)
    (us ss es : List ℕ) (m : BitMap) (d : Disk) (n : ℕ) (v : IsDisk d)
    (x : IsIndexed m d h u us ss es) (more : length ss < div_round_up (h.num_bytes + n) 128)
    (fits : div_round_up (h.num_bytes + n) 128 ≤ 924) where
  abbrev longer : ℕ
  longer = div_round_up (h.num_bytes + n) 128

  abbrev pub old_lack : ℕ
  old_lack = longer - length ss + (div_round_up (4 * (longer - 28)) 128 - length us)

  -- `Extend` of a file that has an undirected block.
  pub extend-old :
      (e : Extended) × (extend (suc levels) memory table h m d n ≡ done e)
      × Reaches m d h ss n old_lack e
  unfolding take_sectors
  extend-old =
      let (e, q, r) =
        fill_undirected-Fills levels memory table room h u us es (longer - h.num_sectors) m d v
          x.block x.keeps.block x.keeps.header_inside
          (omega (arith, fits, x.size, x.sized.count)) in
      (
        grown (suc levels) memory table (h.num_bytes + n) longer e,
        extend-longer (suc levels) memory table h m d n
            (record { ok = true; hdr = h; free_map = m }) e
            (ap (λ (k : ℕ). take_sectors k h.num_sectors h m) {x = min longer 28 - h.num_sectors}
              {y = 0} (no_rounds longer))
            refl (above longer more)
            (extend_undirected-old (suc levels) memory table h m d h.num_sectors longer u e
              (omega (arith, x.sized.count, x.size, x.some)) x.fetched q),
        finished-Reaches (suc levels) memory table m m d h h u ss [] us ss es [] n
            (longer - h.num_sectors) old_lack (Fresh-nil m x.keeps.sectors.valid) x.keeps
            x.sized.table_size x.table x.tail x.size (omega (arith, more, x.sized.count))
            (omega (arith, more, x.sized.count)) (sym (append-nil ss))
            (omega (arith, blocks, x.sized.count)) e r,
      )
    where
      no_rounds : (k : ℕ) → min k 28 - h.num_sectors ≡ 0
      no_rounds k = omega (arith, x.sized.count, x.size)

      above : (k : ℕ) → length ss < k → max h.num_sectors (min k 28) < k
      above k p = omega (arith, x.sized.count, x.size)

      blocks :
          div_round_up (4 * (length es + (longer - h.num_sectors))) 128
          ≡ div_round_up (4 * (longer - 28)) 128
      blocks =
          ap (λ (k : ℕ). div_round_up (4 * k) 128) {x = length es + (longer - h.num_sectors)}
            {y = longer - 28} (omega (arith, more, x.sized.count, x.size))
