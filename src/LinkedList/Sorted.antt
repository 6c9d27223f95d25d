-- ===== src/LinkedList/Sorted.antt =====
-- The loop of `SortedInsert`: it ends, and the element is linked in front of the first greater key.
use non_os.Base.{
  ℕ, zero, suc, ◌<◌, ◌≡◌, ◌≢◌, refl, ap, sym, ◌∙◌, true, false, Option, none, some, List, [], ◌∷◌,
  length, set, get_or-set_ne, All, All-map, Distinct, arith, done, ◌>>=◌, if◌then◌else◌, ltb,
  Bool-cases, inl, inr,
}
use non_os.LinkedList.{ListElement, Store, LinkedList, cell, set_next, deref, insert_after}
use non_os.LinkedList.Chain.{Segment, stop, link, last_of, Segment-kept, set_next-cell}

module _ {ℓ} {A : Type ℓ} where
  -- The sequence with an item in front of the first one with a greater key.
  abbrev pub insert : ℕ → A → List (ℕ × A) → List (ℕ × A)
  insert k x [] = (k, x) ∷ []
  insert k x (y ∷ xs) =
      let later = insert k x xs in if ltb k y.0 then (k, x) ∷ y ∷ xs else y ∷ later

  insert_after-last :
      (left ptr : ℕ) (l : LinkedList) (h : Store A) (q k j : ℕ) (y : A)
      → cell h ptr ≡ some (record { item = y; key = j; next = none })
      → insert_after (suc left) ptr l h q k
        ≡ (set_next h l.last (some q) >>= λ h'. done (record l { last = some q }, h'))
  unfolding insert_after
  insert_after-last left ptr l h q k j y c = rw (c, deref) refl

  insert_after-before :
      (left ptr : ℕ) (l : LinkedList) (h : Store A) (q k j r : ℕ) (y : A) (f : ListElement A)
      → cell h ptr ≡ some (record { item = y; key = j; next = some r })
      → cell h r ≡ some f
      → ltb k f.key ≡ true
      → insert_after (suc left) ptr l h q k ≡ (
          set_next h (some q) (some r) >>= λ h₁.
          set_next h₁ (some ptr) (some q) >>= λ h₂. done (l, h₂))
  unfolding insert_after
  insert_after-before left ptr l h q k j r y f c c' t = rw (c, deref, c', deref, t) refl

  insert_after-later :
      (left ptr : ℕ) (l : LinkedList) (h : Store A) (q k j r : ℕ) (y : A) (f : ListElement A)
      → cell h ptr ≡ some (record { item = y; key = j; next = some r })
      → cell h r ≡ some f
      → ltb k f.key ≡ false
      → insert_after (suc left) ptr l h q k ≡ insert_after left r l h q k
  unfolding insert_after
  insert_after-later left ptr l h q k j r y f c c' t = rw (c, deref, c', deref, t) refl

  -- The chain from `ptr` on, once the loop has put the element at `q` into it.
  pub record Inserts (h : Store A) (l : LinkedList) (q ptr : ℕ) (ps : List ℕ) (xs : List (ℕ × A))
      (l' : LinkedList) (h' : Store A) : Type ℓ where
    pub after : List ℕ
    pub chain : Segment h' (ptr ∷ after) xs (some ptr) none
    pub separate : Distinct (ptr ∷ after)
    pub last : l'.last ≡ last_of (ptr ∷ after)
    pub first : l'.first ≡ l.first
    pub members : (j : ℕ) → All (λ p. j ≢ p) ps → j ≢ q → All (λ p. j ≢ p) after
    pub others : (i : ℕ) → ptr ≢ i → q ≢ i → All (λ p. p ≢ i) ps → cell h' i ≡ cell h i

  -- The element goes between `ptr` and the next one, at `r`.
  Inserts-before :
      (l : LinkedList) (h : Store A) (ptr r : ℕ) (ps : List ℕ) (q k j : ℕ) (x y : A)
      (ys : List (ℕ × A))
      → cell h ptr ≡ some (record { item = y; key = j; next = some r })
      → cell h q ≡ some (record { item = x; key = k; next = none })
      → Segment h (r ∷ ps) ys (some r) none
      → Distinct (ptr ∷ r ∷ ps)
      → l.last ≡ last_of (ptr ∷ r ∷ ps)
      → All (λ p. p ≢ q) (ptr ∷ r ∷ ps)
      → let h₁ = set h q (some (record { item = x; key = k; next = some r })) in
        let h₂ = set h₁ ptr (some (record { item = y; key = j; next = some q })) in
        (set_next h (some q) (some r) ≡ done h₁)
        × (set_next h₁ (some ptr) (some q) ≡ done h₂)
        × Inserts h l q ptr (r ∷ ps) ((j, y) ∷ (k, x) ∷ ys) l h₂
  Inserts-before l h ptr r ps q k j x y ys c new g d e f = (
    s.0,
    s'.0,
    record {
      after = q ∷ r ∷ ps;
      chain = link s'.1 (
          link (get_or-set_ne h₁ ptr q _ none f.0 ∙ s.1)
            (Segment-kept h _ (r ∷ ps) ys (some r) none (kept (r ∷ ps) d.0 f.1) g));
      separate = ((f.0, d.0), (All-map (λ i a u. a (sym u)) (r ∷ ps) f.1, d.1));
      last = e;
      first = refl;
      members = λ i a b. (b, a);
      others = λ i a b u. get_or-set_ne h₁ ptr i _ none a ∙ get_or-set_ne h q i _ none b;
    },
  )
    where
      h₁ : Store A
      h₁ = set h q (some (record { item = x; key = k; next = some r }))

      s :
          (set_next h (some q) (some r) ≡ done h₁)
          × (cell h₁ q ≡ some (record { item = x; key = k; next = some r }))
      s = set_next-cell h q (some r) _ new

      s' :
          (set_next h₁ (some ptr) (some q)
            ≡ done (set h₁ ptr (some (record { item = y; key = j; next = some q }))))
          × (cell (set h₁ ptr (some (record { item = y; key = j; next = some q }))) ptr
              ≡ some (record { item = y; key = j; next = some q }))
      s' = set_next-cell h₁ ptr (some q) _ (get_or-set_ne h q ptr _ none (λ u. f.0 (sym u)) ∙ c)

      kept :
          (qs : List ℕ)
          → All (λ p. ptr ≢ p) qs
          → All (λ p. p ≢ q) qs
          → All
              (λ p.
                cell (set h₁ ptr (some (record { item = y; key = j; next = some q }))) p ≡ cell h p)
              qs
      kept [] a b = tt
      kept (p ∷ qs) a b = (
        get_or-set_ne h₁ ptr p _ none a.0 ∙ get_or-set_ne h q p _ none (λ u. b.0 (sym u)),
        kept qs a.1 b.1,
      )

  -- The element goes further behind, in the chain from `r` on.
  Inserts-later :
      (l l' : LinkedList) (h h' : Store A) (ptr r : ℕ) (ps : List ℕ) (q j : ℕ) (y : A)
      (zs : List (ℕ × A))
      → cell h ptr ≡ some (record { item = y; key = j; next = some r })
      → Distinct (ptr ∷ r ∷ ps)
      → ptr ≢ q
      → Inserts h l q r ps zs l' h'
      → Inserts h l q ptr (r ∷ ps) ((j, y) ∷ zs) l' h'
  Inserts-later l l' h h' ptr r ps q j y zs c d f i = record {
    after = r ∷ i.after;
    chain =
        link
          (i.others ptr (λ u. d.0.0 (sym u)) (λ u. f (sym u))
              (All-map (λ p a u. a (sym u)) ps d.0.1)
            ∙ c)
          i.chain;
    separate = ((d.0.0, i.members ptr d.0.1 f), i.separate);
    last = i.last;
    first = i.first;
    members = λ p a b. (a.0, i.members p a.1 b);
    others = λ p a b u. i.others p u.0 b u.1;
  }

  -- The loop runs at most once for each element behind `ptr`, and once more.
  pub insert_after-Inserts :
      (left ptr : ℕ) (l : LinkedList) (h : Store A) (ps : List ℕ) (j : ℕ) (y : A)
      (xs : List (ℕ × A)) (q k : ℕ) (x : A) (start : Option ℕ)
      → length ps < left
      → Segment h (ptr ∷ ps) ((j, y) ∷ xs) start none
      → Distinct (ptr ∷ ps)
      → l.last ≡ last_of (ptr ∷ ps)
      → All (λ p. p ≢ q) (ptr ∷ ps)
      → cell h q ≡ some (record { item = x; key = k; next = none })
      → (l' : LinkedList) × (h' : Store A) × (insert_after left ptr l h q k ≡ done (l', h'))
        × Inserts h l q ptr ps ((j, y) ∷ insert k x xs) l' h'
  insert_after-Inserts zero ptr l h ps j y xs q k x start m c d e f new = absurd (omega arith)
  insert_after-Inserts (suc left) ptr l h [] j y (w ∷ xs) q k x start m (link c g) d e f new =
      elim g [ ]
  insert_after-Inserts (suc left) ptr l h (r ∷ ps) j y [] q k x start m (link c g) d e f new =
      elim g [ ]
  insert_after-Inserts (suc left) ptr l h [] j y [] q k x start m (link c stop) d e f new =
      let s = set_next-cell h ptr (some q) _ c in
      (
        record l { last = some q },
        _,
        insert_after-last left ptr l h q k j y c
            ∙ ap (λ t. set_next h t (some q) >>= λ h'. done (record l { last = some q }, h')) e
            ∙ ap (λ m. m >>= λ h'. done (record l { last = some q }, h')) s.0,
        record {
          after = q ∷ [];
          chain = link s.1 (link (get_or-set_ne h ptr q _ none f.0 ∙ new) stop);
          separate = ((f.0, tt), (tt, tt));
          last = refl;
          first = refl;
          members = λ i a b. (b, tt);
          others = λ i a b u. get_or-set_ne h ptr i _ none a;
        },
      )
  insert_after-Inserts (suc left) ptr l h (r ∷ ps) j y (w ∷ xs) q k x start m (link c (link c' g)) d
        e f new =
      elim (Bool-cases (ltb k w.0)) [
        | inl t ↦
            let (s, s', i) =
              Inserts-before l h ptr r ps q k j x y (w ∷ xs) c new (link c' g) d e f in
            (
              l,
              _,
              insert_after-before left ptr l h q k j r y _ c c' t
                  ∙ ap (λ m. m >>= λ h₁. set_next h₁ (some ptr) (some q) >>= λ h₂. done (l, h₂)) s
                  ∙ ap (λ m. m >>= λ h₂. done (l, h₂)) s',
              rw t i,
            )
        | inr t ↦
            let (l', h', eq, i) =
              insert_after-Inserts left r l h ps w.0 w.1 xs q k x _ (omega arith) (link c' g) d.1 e
                f.1 new in
            (
              l',
              h',
              insert_after-later left ptr l h q k j r y _ c c' t ∙ eq,
              rw t (Inserts-later l l' h h' ptr r ps q j y _ c d f.0 i),
            )
      ]
