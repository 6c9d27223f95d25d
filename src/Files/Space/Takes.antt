-- ===== src/Files/Space/Takes.antt =====
-- The loops of `Extend` and `ExtendUndirectedBlock` that fill the table of sectors.
use non_os.Base.{
  ℕ, zero, suc, ◌+◌, ◌<◌, ◌≤◌, ◌≡◌, ◌≢◌, refl, ap, ◌∙◌, inl, inr, ◌⊎◌, true, false, List, [], ◌∷◌,
  length, length-set, get_or, get_or-set_self, get_or-set_ne, done, arith,
}
use non_os.BitMap.{BitMap}
use non_os.BitMap.View.{IsValid}
use non_os.BitMap.Count.{free_count}
use non_os.Files.{FileHeader, data_sector}
use non_os.Files.Space.{Taken, take_sectors, put_sector, minus_one}
use non_os.Files.Fresh.{Fresh, Fresh-nil, Fresh-append, find-Gives}

-- `h'` is `h` with the sectors `xs` in its table from `i` on.
pub record Fills (h : FileHeader) (i : ℕ) (xs : List ℕ) (h' : FileHeader) : Type 0 where
  pub kind : h'.kind ≡ h.kind
  pub bytes : h'.num_bytes ≡ h.num_bytes
  pub count : h'.num_sectors ≡ h.num_sectors
  pub table_size : length h'.data_sectors ≡ length h.data_sectors
  pub new : (j : ℕ) → j < length xs → data_sector h' (i + j) ≡ get_or xs j 0
  pub old : (j : ℕ) → (j < i) ⊎ (i + length xs ≤ j) → data_sector h' j ≡ data_sector h j

-- The loop has taken all the sectors asked for, or there were not enough of them: then all are in use
-- now, and the header is as it was but for the entries from `i` on.
abbrev pub Takes : FileHeader → ℕ → ℕ → BitMap → Taken → Type 0
Takes h i left m t =
    ((t.ok ≡ true)
      × ((xs : List ℕ) × (length xs ≡ left) × Fills h i xs t.hdr × Fresh m xs t.free_map))
    ⊎ ((t.ok ≡ false)
        × (free_count m < left)
        × (free_count t.free_map ≡ 0)
        × (t.hdr.num_bytes ≡ h.num_bytes)
        × (t.hdr.num_sectors ≡ h.num_sectors)
        × ((j : ℕ) → j < i → data_sector t.hdr j ≡ data_sector h j))

Fills-nil : (h : FileHeader) (i : ℕ) → Fills h i [] h
Fills-nil h i = record {
  kind = refl;
  bytes = refl;
  count = refl;
  table_size = refl;
  new = λ j p. absurd (omega arith);
  old = λ j p. refl;
}

Fills-cons :
    (h : FileHeader) (i s : ℕ) (xs : List ℕ) (h' : FileHeader)
    → i < length h.data_sectors
    → Fills (put_sector h i s) (i + 1) xs h'
    → Fills h i (s ∷ xs) h'
Fills-cons h i s xs h' p f = record {
  kind = f.kind;
  bytes = f.bytes;
  count = f.count;
  table_size = f.table_size ∙ length-set h.data_sectors i s;
  new = new;
  old = λ j q.
      f.old j (elim q [ inl a ↦ inl (omega arith) | inr a ↦ inr (omega arith) ])
      ∙ get_or-set_ne h.data_sectors i j s 0 (λ e. differs j q e);
}
  where
    differs : (j : ℕ) → (j < i) ⊎ (i + suc (length xs) ≤ j) → i ≢ j
    differs j (inl a) e = omega arith
    differs j (inr a) e = omega arith

    new : (j : ℕ) → j < suc (length xs) → data_sector h' (i + j) ≡ get_or (s ∷ xs) j 0
    new zero q =
        ap (data_sector h') {x = i + 0} {y = i} (omega arith)
        ∙ f.old i (inl (omega arith))
        ∙ get_or-set_self h.data_sectors i s 0 p
    new (suc j) q =
        ap (data_sector h') {x = i + suc j} {y = i + 1 + j} (omega arith) ∙ f.new j (omega arith)

Takes-suc :
    (h : FileHeader) (i left s : ℕ) (m m₁ : BitMap) (t : Taken)
    → i < length h.data_sectors
    → Fresh m (s ∷ []) m₁
    → Takes (put_sector h i s) (i + 1) left m₁ t
    → Takes h i (suc left) m t
Takes-suc h i left s m m₁ t p f (inl (e, (xs, n, g, fresh))) = inl (
  e,
  (
    s ∷ xs,
    ap suc n,
    Fills-cons h i s xs t.hdr p g,
    Fresh-append m (s ∷ []) xs m₁ t.free_map f fresh,
  ),
)
Takes-suc h i left s m m₁ t p f (inr (e, n, full, b, c, old)) = inr (
  e,
  omega (arith, f.count),
  full,
  b,
  c,
  λ j q. old j (omega arith) ∙ get_or-set_ne h.data_sectors i j s 0 (omega arith),
)

pub take_sectors-Takes :
    (left i : ℕ) (h : FileHeader) (m : BitMap)
    → IsValid m
    → i + left ≤ length h.data_sectors
    → (t : Taken) × (take_sectors left i h m ≡ done t) × Takes h i left m t
unfolding take_sectors
take_sectors-Takes zero i h m v p = (_, refl, inl (refl, ([], refl, Fills-nil h i, Fresh-nil m v)))
take_sectors-Takes (suc left) i h m v p =
    let (o, m₁, e, g) = find-Gives m v in
    rw (e, take_sectors)
      (elim g [
        | inl (none_left, full, same) ↦
            rw (none_left, take_sectors)
              (
                _,
                refl,
                inr (
                  refl,
                  omega arith,
                  ap free_count same ∙ full,
                  refl,
                  refl,
                  λ j q. get_or-set_ne h.data_sectors i j minus_one 0 (omega arith),
                ),
              )
        | inr (s, got, f) ↦
            let (t, e', r) =
              take_sectors-Takes left (i + 1) (put_sector h i s) m₁ f.valid
                (omega (arith, length-set h.data_sectors i s)) in
            rw (got, take_sectors) (t, e', Takes-suc h i left s m m₁ t (omega arith) f r)
      ])
