-- ===== src/LinkedList/Ends.antt =====
-- `Append`, `Prepend` and `SortedRemove` on the sequence that a list stands for.
use non_os.Base.{
  ℕ, ◌≡◌, ◌≢◌, refl, ap, sym, ◌∙◌, true, false, Option, none, some, List, [], ◌∷◌, ◌++◌, length,
  set, get_or-set_ne, All, All-map, Distinct, arith, Outcome, done, ◌>>=◌, ◌==◌,
}
use non_os.LinkedList.{
  Store, LinkedList, cell, new_element, set_next, same_pointer, deref, append, prepend,
  sorted_remove,
}
use non_os.LinkedList.Chain.{
  Segment, stop, link, last_of, Represents, cell-append_new, Segment-below, Segment-kept,
  Segment-grown, set_next-cell, All-fresh, Distinct-snoc, last_of-snoc,
}

last_of-other :
    (p r : ℕ) (ps : List ℕ)
    → All (λ q. p ≢ q) (r ∷ ps)
    → same_pointer (some p) (last_of (r ∷ ps)) ≡ false
last_of-other p r [] a = other p r a.0
  where
    other : (p r : ℕ) → p ≢ r → (p == r) ≡ false
    other p r n = ground arith
last_of-other p r (q ∷ ps) a = last_of-other p q ps a.1

module _ {ℓ} {A : Type ℓ} where
  -- The chain with the element at `q` behind its last one.
  record Extends (h : Store A) (ps : List ℕ) (xs : List (ℕ × A)) (s : Option ℕ) (q k : ℕ) (x : A)
      (h' : Store A) : Type ℓ where
    stored : set_next h (last_of ps) (some q) ≡ done h'
    chain : Segment h' (ps ++ q ∷ []) (xs ++ (k, x) ∷ []) s none
    others : (j : ℕ) → All (λ p. p ≢ j) ps → cell h' j ≡ cell h j

  Segment-extend :
      (h : Store A) (p : ℕ) (ps : List ℕ) (xs : List (ℕ × A)) (s : Option ℕ) (q k : ℕ) (x : A)
      → Segment h (p ∷ ps) xs s none
      → Distinct (p ∷ ps)
      → All (λ r. r ≢ q) (p ∷ ps)
      → cell h q ≡ some (record { item = x; key = k; next = none })
      → (h' : Store A) × Extends h (p ∷ ps) xs s q k x h'
  Segment-extend h p [] (y ∷ []) s q k x (link {x = z} {n = n} c r) d a e = (
    set h p (some (record { item = z; key = y.0; next = some q })),
    record {
      stored = (set_next-cell h p (some q) _ c).0;
      chain =
          link (set_next-cell h p (some q) _ c).1 (link (get_or-set_ne h p q _ none a.0 ∙ e) stop);
      others = λ j b. get_or-set_ne h p j _ none b.0;
    },
  )
  Segment-extend h p [] [] s q k x c d a e = elim c [ ]
  Segment-extend h p [] (y ∷ w ∷ xs) s q k x (link c r) d a e = elim r [ ]
  Segment-extend h p (r ∷ ps) [] s q k x c d a e = elim c [ ]
  Segment-extend h p (r ∷ ps) (y ∷ xs) s q k x (link {n = n} c g) d a e =
      let (h', x') = Segment-extend h r ps xs n q k x g d.1 a.1 e in
      (
        h',
        record {
          stored = x'.stored;
          chain = link (x'.others p (All-map (λ j m e. m (sym e)) (r ∷ ps) d.0) ∙ c) x'.chain;
          others = λ j b. x'.others j b.1;
        },
      )

  -- The operation returns a list that stands for the sequence.
  abbrev pub Yields : Outcome (LinkedList × Store A) → List (ℕ × A) → Type ℓ
  Yields r xs = (l : LinkedList) × (h : Store A) × (r ≡ done (l, h)) × Represents h l xs

  append_chain :
      (first last : Option ℕ) (h : Store A) (ps : List ℕ) (xs : List (ℕ × A)) (x : A)
      → Segment h ps xs first none
      → Distinct ps
      → last ≡ last_of ps
      → Yields (append (record { first = first; last = last }) h x) (xs ++ (0, x) ∷ [])
  unfolding append
  append_chain first last h [] [] x stop d e = (
    _,
    _,
    refl,
    record {
      addresses = length h ∷ [];
      chain = link (cell-append_new h _) stop;
      separate = (tt, tt);
      last = refl;
    },
  )
  append_chain first last h [] (y ∷ xs) x c d e = elim c [ ]
  append_chain first last h (p ∷ ps) [] x c d e = elim c [ ]
  append_chain first last h (p ∷ ps) (y ∷ xs) x (link c g) d e =
      let fresh =
        All-fresh (length h) (p ∷ ps)
          (Segment-below h (p ∷ ps) (y ∷ xs) (some p) none (link c g)) in
      let (h', x') =
        Segment-extend (new_element h x 0) p ps (y ∷ xs) (some p) (length h) 0 x
          (Segment-grown h _ (p ∷ ps) (y ∷ xs) (some p) none (link c g)) d fresh
          (cell-append_new h _) in
      (
        record { first = some p; last = some (length h) },
        h',
        ap
              (λ (t : Option ℕ). set_next (new_element h x 0) t (some (length h)) >>= λ h₂.
                done (record { first = some p; last = some (length h) }, h₂))
              e
            ∙ ap (λ m. m >>= λ h₂. done (record { first = some p; last = some (length h) }, h₂))
                x'.stored,
        record {
          addresses = (p ∷ ps) ++ length h ∷ [];
          chain = x'.chain;
          separate = Distinct-snoc (p ∷ ps) (length h) d fresh;
          last = sym (last_of-snoc (p ∷ ps) (length h));
        },
      )

  -- Append on a list that stands for a sequence never aborts, and the list then stands for that
  -- sequence with the item, with key 0, at its end.
  pub append-Represents :
      (l : LinkedList) (h : Store A) (xs : List (ℕ × A)) (x : A)
      → Represents h l xs
      → Yields (append l h x) (xs ++ (0, x) ∷ [])
  append-Represents l h xs x r =
      append_chain l.first l.last h r.addresses xs x r.chain r.separate r.last

  prepend_chain :
      (first last : Option ℕ) (h : Store A) (ps : List ℕ) (xs : List (ℕ × A)) (x : A)
      → Segment h ps xs first none
      → Distinct ps
      → last ≡ last_of ps
      → Yields (prepend (record { first = first; last = last }) h x) ((0, x) ∷ xs)
  unfolding prepend
  prepend_chain first last h [] [] x stop d e = (
    _,
    _,
    refl,
    record {
      addresses = length h ∷ [];
      chain = link (cell-append_new h _) stop;
      separate = (tt, tt);
      last = refl;
    },
  )
  prepend_chain first last h [] (y ∷ xs) x c d e = elim c [ ]
  prepend_chain first last h (p ∷ ps) [] x c d e = elim c [ ]
  prepend_chain first last h (p ∷ ps) (y ∷ xs) x (link c g) d e =
      let fresh =
        All-fresh (length h) (p ∷ ps)
          (Segment-below h (p ∷ ps) (y ∷ xs) (some p) none (link c g)) in
      let head = set_next-cell (new_element h x 0) (length h) (some p) _ (cell-append_new h _) in
      (
        record { first = some (length h); last = last },
        _,
        ap (λ m. m >>= λ h₂. done (record { first = some (length h); last = last }, h₂)) head.0,
        record {
          addresses = length h ∷ p ∷ ps;
          chain = link head.1 (
              Segment-kept (new_element h x 0) _ (p ∷ ps) (y ∷ xs) (some p) none
                (All-map
                  (λ j m. get_or-set_ne (new_element h x 0) (length h) j _ none (λ s. m (sym s)))
                  (p ∷ ps) fresh)
                (Segment-grown h _ (p ∷ ps) (y ∷ xs) (some p) none (link c g)));
          separate = (All-map (λ j m s. m (sym s)) (p ∷ ps) fresh, d);
          last = e;
        },
      )

  -- Prepend on a list that stands for a sequence never aborts, and the list then stands for that
  -- sequence with the item, with key 0, in front.
  pub prepend-Represents :
      (l : LinkedList) (h : Store A) (xs : List (ℕ × A)) (x : A)
      → Represents h l xs
      → Yields (prepend l h x) ((0, x) ∷ xs)
  prepend-Represents l h xs x r =
      prepend_chain l.first l.last h r.addresses xs x r.chain r.separate r.last

  -- What `SortedRemove` does to a list that stands for the sequence.
  abbrev pub TakesFirst :
      Outcome (Option (ℕ × A) × LinkedList × Store A) → LinkedList → Store A → List (ℕ × A) → Type ℓ
  TakesFirst r l h [] = r ≡ done (none, l, h)
  TakesFirst r l h (y ∷ xs) =
      (l' : LinkedList) × (h' : Store A) × (r ≡ done (some y, l', h')) × Represents h' l' xs

  sorted_remove_chain :
      (first last : Option ℕ) (h : Store A) (ps : List ℕ) (xs : List (ℕ × A))
      → Segment h ps xs first none
      → Distinct ps
      → last ≡ last_of ps
      → TakesFirst
          (sorted_remove (record { first = first; last = last }) h)
          (record { first = first; last = last })
          h
          xs
  unfolding sorted_remove
  sorted_remove_chain first last h [] [] stop d e = refl
  sorted_remove_chain first last h [] (y ∷ xs) c d e = elim c [ ]
  sorted_remove_chain first last h (p ∷ ps) [] c d e = elim c [ ]
  sorted_remove_chain first last h (p ∷ []) (y ∷ w ∷ xs) (link c g) d e = elim g [ ]
  sorted_remove_chain first last h (p ∷ []) (y ∷ []) (link c g) d e = (
    record { first = none; last = none },
    set h p none,
    rw (e, c, deref, self p) refl,
    record { addresses = []; chain = stop; separate = tt; last = refl },
  )
    where
      self : (p : ℕ) → (p == p) ≡ true
      self p = ground arith
  sorted_remove_chain first last h (p ∷ r ∷ ps) (y ∷ xs) (link {n = n} c g) d e = (
    record { first = n; last = last },
    set h p none,
    rw (e, c, deref, last_of-other p r ps d.0) refl,
    record {
      addresses = r ∷ ps;
      chain =
          Segment-kept h (set h p none) (r ∷ ps) xs n none
            (All-map (λ j m. get_or-set_ne h p j none none m) (r ∷ ps) d.0) g;
      separate = d.1;
      last = e;
    },
  )

  -- SortedRemove on a list that stands for a sequence never aborts. On the empty sequence it returns
  -- NULL and changes nothing; otherwise it returns the first item with its key, and the list then
  -- stands for the rest.
  pub sorted_remove-TakesFirst :
      (l : LinkedList) (h : Store A) (xs : List (ℕ × A))
      → Represents h l xs
      → TakesFirst (sorted_remove l h) l h xs
  sorted_remove-TakesFirst l h xs r =
      sorted_remove_chain l.first l.last h r.addresses xs r.chain r.separate r.last
