-- ===== src/LinkedList/Insertion.antt =====
-- `SortedInsert` on the sequence that a list stands for.
use non_os.Base.{
  ℕ, ◌≤◌, ◌≡◌, refl, ap, sym, subst, ◌∙◌, true, false, Option, none, some, List, [], ◌∷◌, length,
  get_or-set_ne, All, All-map, Distinct, arith, done, ◌>>=◌, ltb, Bool-cases, inl, inr,
}
use non_os.Base.Pigeonhole.{length-Distinct}
use non_os.LinkedList.{
  ListElement, Store, LinkedList, cell, new_element, set_next, deref, insert_after, sorted_insert,
}
use non_os.LinkedList.Chain.{
  Segment, stop, link, last_of, Represents, cell-append_new, cell-append_old, Segment-below,
  Segment-kept, Segment-grown, set_next-cell, All-fresh,
}
use non_os.LinkedList.Ends.{Yields}
use non_os.LinkedList.Sorted.{insert, insert_after-Inserts}

module _ {ℓ} {A : Type ℓ} where
  -- The item goes in front of the first one.
  head_placed :
      (p : ℕ) (last : Option ℕ) (h : Store A) (x : A) (k : ℕ) (f : ListElement A) (h₂ : Store A)
      → cell (new_element h x k) p ≡ some f
      → ltb k f.key ≡ true
      → set_next (new_element h x k) (some (length h)) (some p) ≡ done h₂
      → sorted_insert (record { first = some p; last = last }) h x k
        ≡ done (record { first = some (length h); last = last }, h₂)
  unfolding sorted_insert
  head_placed p last h x k f h₂ c t s =
      rw (c, deref, t)
        (ap (λ m. m >>= λ h₂. done (record { first = some (length h); last = last }, h₂)) s)

  loop_entered :
      (p : ℕ) (last : Option ℕ) (h : Store A) (x : A) (k : ℕ) (f : ListElement A)
      → cell (new_element h x k) p ≡ some f
      → ltb k f.key ≡ false
      → sorted_insert (record { first = some p; last = last }) h x k
        ≡ insert_after
            (length h)
            p
            (record { first = some p; last = last })
            (new_element h x k)
            (length h)
            k
  unfolding sorted_insert
  loop_entered p last h x k f c t = rw (c, deref, t) refl

  insert_chain :
      (first last : Option ℕ) (h : Store A) (ps : List ℕ) (xs : List (ℕ × A)) (x : A) (k : ℕ)
      → Segment h ps xs first none
      → Distinct ps
      → last ≡ last_of ps
      → Yields (sorted_insert (record { first = first; last = last }) h x k) (insert k x xs)
  unfolding sorted_insert
  insert_chain first last h [] [] x k stop d e = (
    _,
    _,
    refl,
    record {
      addresses = length h ∷ [];
      chain = link (cell-append_new h _) stop;
      separate = (tt, tt);
      last = refl;
    },
  )
  insert_chain first last h [] (y ∷ xs) x k c d e = elim c [ ]
  insert_chain first last h (p ∷ ps) [] x k c d e = elim c [ ]
  insert_chain first last h (p ∷ ps) (y ∷ xs) x k (link c g) d e =
      let q = length h in
      let below = Segment-below h (p ∷ ps) (y ∷ xs) (some p) none (link c g) in
      let fresh = All-fresh q (p ∷ ps) below in
      let grown = Segment-grown h _ (p ∷ ps) (y ∷ xs) (some p) none (link c g) in
      let c₁ : cell (new_element h x k) p ≡ some _ = cell-append_old h _ p below.0 ∙ c in
      elim (Bool-cases (ltb k y.0)) [
        | inl t ↦
            let head = set_next-cell (new_element h x k) q (some p) _ (cell-append_new h _) in
            (
              record { first = some q; last = last },
              _,
              head_placed p last h x k _ _ c₁ t head.0,
              rw t (record {
                addresses = q ∷ p ∷ ps;
                chain = link head.1 (
                    Segment-kept (new_element h x k) _ (p ∷ ps) (y ∷ xs) (some p) none
                      (All-map
                        (λ j m. get_or-set_ne (new_element h x k) q j _ none (λ s. m (sym s)))
                        (p ∷ ps) fresh)
                      grown);
                separate = (All-map (λ j m s. m (sym s)) (p ∷ ps) fresh, d);
                last = e;
              }),
            )
        | inr t ↦
            let (l', h', eq, i) =
              insert_after-Inserts q p (record { first = some p; last = last }) (new_element h x k)
                ps y.0 y.1 xs q k x (some p) (omega (arith, length-Distinct q (p ∷ ps) d below))
                grown d e fresh (cell-append_new h _) in
            (
              l',
              h',
              loop_entered p last h x k _ c₁ t ∙ eq,
              rw t (record {
                addresses = p ∷ i.after;
                chain =
                    subst (λ s. Segment h' (p ∷ i.after) (y ∷ insert k x xs) s none) (sym i.first)
                      i.chain;
                separate = i.separate;
                last = i.last;
              }),
            )
      ]

  -- Keys that do not decrease.
  abbrev pub IsSorted : List (ℕ × A) → Type 0
  IsSorted [] = Unit {0}
  IsSorted (y ∷ xs) = All (λ z. y.0 ≤ z.0) xs × IsSorted xs

  insert-above :
      (j k : ℕ) (x : A) (xs : List (ℕ × A))
      → j ≤ k
      → All (λ z. j ≤ z.0) xs
      → All (λ z. j ≤ z.0) (insert k x xs)
  insert-above j k x [] h a = (h, tt)
  insert-above j k x (y ∷ xs) h a = elim (Bool-cases (ltb k y.0)) [
    | inl t ↦ rw t (h, a)
    | inr t ↦ rw t (a.0, insert-above j k x xs h a.1)
  ]

  insert-IsSorted : (k : ℕ) (x : A) (xs : List (ℕ × A)) → IsSorted xs → IsSorted (insert k x xs)
  insert-IsSorted k x [] s = (tt, tt)
  insert-IsSorted k x (y ∷ xs) s = elim (Bool-cases (ltb k y.0)) [
    | inl t ↦ rw t ((ground arith, All-map (λ z l. ground (arith, l)) xs s.0), s)
    | inr t ↦ rw t (insert-above y.0 k x xs (ground arith) s.0, insert-IsSorted k x xs s.1)
  ]

  -- SortedInsert on a list that stands for a sequence never aborts, so that its loop ends; the list
  -- then stands for the sequence with the item in front of the first one with a greater key, and
  -- where the keys did not decrease before, they do not after.
  pub sorted_insert-Represents :
      (l : LinkedList) (h : Store A) (xs : List (ℕ × A)) (x : A) (k : ℕ)
      → Represents h l xs
      → Yields (sorted_insert l h x k) (insert k x xs) × (IsSorted xs → IsSorted (insert k x xs))
  sorted_insert-Represents l h xs x k r = (
    insert_chain l.first l.last h r.addresses xs x k r.chain r.separate r.last,
    insert-IsSorted k x xs,
  )
