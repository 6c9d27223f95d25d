-- ===== src/LinkedList/Chain.antt =====
-- What a linked list stands for: the sequence of its keys and items, along a chain of elements.
use non_os.Base.{
  ℕ, zero, suc, ◌<◌, ◌≡◌, ◌≢◌, refl, ◌∙◌, Option, none, some, List, [], ◌∷◌, ◌++◌, length, set,
  get_or-set_self, All, All-map, Distinct, arith, done,
}
use non_os.LinkedList.{ListElement, Store, LinkedList, cell, set_next}

-- The elements at the addresses, in this order, from the pointer `start` to the pointer `stop`.
pub data Segment {ℓ} {A : Type ℓ} (h : Store A)
    : List ℕ → List (ℕ × A) → Option ℕ → Option ℕ → Type ℓ where
  stop : {s : Option ℕ} → Segment h [] [] s s
  link :
      {p : ℕ} {ps : List ℕ} {k : ℕ} {x : A} {n : Option ℕ} {xs : List (ℕ × A)} {e : Option ℕ}
      → cell h p ≡ some (record { item = x; key = k; next = n })
      → Segment h ps xs n e
      → Segment h (p ∷ ps) ((k, x) ∷ xs) (some p) e

-- The last address.
abbrev pub last_of : List ℕ → Option ℕ
last_of [] = none
last_of (p ∷ []) = some p
last_of (p ∷ q ∷ ps) = last_of (q ∷ ps)

-- The list `l` in the store `h` is the sequence `xs`.
pub record Represents {ℓ} {A : Type ℓ} (h : Store A) (l : LinkedList) (xs : List (ℕ × A))
    : Type ℓ where
  pub addresses : List ℕ
  pub chain : Segment h addresses xs l.first none
  pub separate : Distinct addresses
  pub last : l.last ≡ last_of addresses

module _ {ℓ} {A : Type ℓ} where
  cell-lt : (h : Store A) (p : ℕ) (e : ListElement A) → cell h p ≡ some e → p < length h
  cell-lt [] p e q = cc
  cell-lt (c ∷ h) zero e q = omega arith
  cell-lt (c ∷ h) (suc p) e q = omega (arith, cell-lt h p e q)

  pub cell-append_old :
      (h : Store A) (c : Option (ListElement A)) (p : ℕ)
      → p < length h
      → cell (h ++ c ∷ []) p ≡ cell h p
  cell-append_old [] c p l = absurd (omega arith)
  cell-append_old (x ∷ h) c zero l = refl
  cell-append_old (x ∷ h) c (suc p) l = cell-append_old h c p (omega arith)

  pub cell-append_new :
      (h : Store A) (c : Option (ListElement A)) → cell (h ++ c ∷ []) (length h) ≡ c
  cell-append_new [] c = refl
  cell-append_new (x ∷ h) c = cell-append_new h c

  -- The addresses of a segment are those of elements.
  pub Segment-below :
      (h : Store A) (ps : List ℕ) (xs : List (ℕ × A)) (s e : Option ℕ)
      → Segment h ps xs s e
      → All (λ p. p < length h) ps
  Segment-below h [] xs s e c = tt
  Segment-below h (p ∷ ps) [] s e c = elim c [ ]
  Segment-below h (p ∷ ps) ((k, x) ∷ xs) s e (link q c) =
      (cell-lt h p _ q, Segment-below h ps xs _ e c)

  -- A store with the same elements at the addresses has the same segment.
  pub Segment-kept :
      (h h' : Store A) (ps : List ℕ) (xs : List (ℕ × A)) (s e : Option ℕ)
      → All (λ p. cell h' p ≡ cell h p) ps
      → Segment h ps xs s e
      → Segment h' ps xs s e
  Segment-kept h h' [] [] s e same stop = stop
  Segment-kept h h' [] (y ∷ xs) s e same c = elim c [ ]
  Segment-kept h h' (p ∷ ps) [] s e same c = elim c [ ]
  Segment-kept h h' (p ∷ ps) ((k, x) ∷ xs) s e same (link q c) =
      link (same.0 ∙ q) (Segment-kept h h' ps xs _ e same.1 c)

  -- A store with one more element.
  pub Segment-grown :
      (h : Store A) (c : Option (ListElement A)) (ps : List ℕ) (xs : List (ℕ × A)) (s e : Option ℕ)
      → Segment h ps xs s e
      → Segment (h ++ c ∷ []) ps xs s e
  Segment-grown h c ps xs s e g =
      Segment-kept h (h ++ c ∷ []) ps xs s e
        (All-map (λ p l. cell-append_old h c p l) ps (Segment-below h ps xs s e g)) g

  -- `p->next = q` at an element.
  pub set_next-cell :
      (h : Store A) (p : ℕ) (q : Option ℕ) (e : ListElement A)
      → cell h p ≡ some e
      → (set_next h (some p) q ≡ done (set h p (some (record e { next = q }))))
        × (cell (set h p (some (record e { next = q }))) p ≡ some (record e { next = q }))
  set_next-cell h p q e c = (
    rw (c, set_next) refl,
    get_or-set_self h p (some (record e { next = q })) none (cell-lt h p e c),
  )

-- Fresh addresses.
pub All-fresh : (n : ℕ) (ps : List ℕ) → All (λ p. p < n) ps → All (λ p. p ≢ n) ps
All-fresh n ps a = All-map (λ p l. omega arith) ps a

pub Distinct-snoc :
    (ps : List ℕ) (q : ℕ) → Distinct ps → All (λ p. p ≢ q) ps → Distinct (ps ++ q ∷ [])
Distinct-snoc [] q d a = (tt, tt)
Distinct-snoc (p ∷ ps) q d a = (snoc ps d.0, Distinct-snoc ps q d.1 a.1)
  where
    snoc : (ps : List ℕ) → All (λ y. p ≢ y) ps → All (λ y. p ≢ y) (ps ++ q ∷ [])
    snoc [] b = (a.0, tt)
    snoc (r ∷ ps) b = (b.0, snoc ps b.1)

pub last_of-snoc : (ps : List ℕ) (q : ℕ) → last_of (ps ++ q ∷ []) ≡ some q
last_of-snoc [] q = refl
last_of-snoc (p ∷ []) q = refl
last_of-snoc (p ∷ r ∷ ps) q = last_of-snoc (r ∷ ps) q
