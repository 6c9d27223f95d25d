-- ===== src/AddrSpace/Pages.antt =====
-- The loop that takes frames for a page table: the frames are real, free before and distinct, and
-- cleared; no frame in use is touched. The constructors aborts only where there are too few frames.
use non_os.Base.{
  ℕ, zero, suc, ◌+◌, ◌*◌, ◌<◌, ◌≤◌, ◌≡◌, ◌≢◌, refl, ap, ◌∙◌, true, false, List, [], ◌∷◌, map,
  length, get_or, All, All-map, Distinct, done, aborted, inl, inr, ◌⊎◌, arith,
}
use native.Mathlib.Decide.{dec_le}
use non_os.FrameProvider.{FrameProvider, page_size, num_phys_pages}
use non_os.FrameProvider.Laws.{IsValid, in_use, in_frame, IsTaken, get_empty_frame_lem}
use non_os.Machine.{TranslationEntry}
use non_os.AddrSpace.{AddrSpace, add_pages, init_pages, fresh_entry, frame_number}

abbrev pub frames : List TranslationEntry → List ℕ
frames = map (λ e. e.physical_page)

-- An entry that has been filled between two states of the provider, with the memory that it leads to.
pub record IsFresh (fp fp' : FrameProvider) (memory' : List ℕ) (e : TranslationEntry) : Type 0 where
  pub in_range : e.physical_page < num_phys_pages
  pub was_free : in_use fp e.physical_page ≡ false
  pub taken : in_use fp' e.physical_page ≡ true
  pub valid : e.valid ≡ true
  pub writable : e.read_only ≡ false
  pub cleared : (i : ℕ) → in_frame e.physical_page i ≡ true → get_or memory' i 0 ≡ 0

-- What the loop has done when it returns.
pub record IsAdded (fp : FrameProvider) (memory : List ℕ) (n i : ℕ) (pages : List TranslationEntry)
    (fp' : FrameProvider) (memory' : List ℕ) : Type 0 where
  pub valid : IsValid fp'
  pub avail : fp'.n_avail_frame + n ≡ fp.n_avail_frame
  pub count : length pages ≡ n
  pub fresh : All (IsFresh fp fp' memory') pages
  pub distinct : Distinct (frames pages)
  pub numbered : (j : ℕ) → j < n → (get_or pages j (fresh_entry 0 0)).virtual_page ≡ i + j
  pub keeps : (f : ℕ) → in_use fp f ≡ true → in_use fp' f ≡ true
  pub same_memory : length memory' ≡ length memory
  pub zeros : (j : ℕ) → get_or memory j 0 ≡ 0 → get_or memory' j 0 ≡ 0
  pub bytes :
      (f j : ℕ) → in_use fp f ≡ true → in_frame f j ≡ true → get_or memory' j 0 ≡ get_or memory j 0

-- A byte lies in one frame.
frame_unique : (f g i : ℕ) → in_frame f i ≡ true → in_frame g i ≡ true → f ≡ g
frame_unique f g i p q = ground arith

add_pages-zero :
    (fp : FrameProvider) (memory : List ℕ) (i : ℕ) → IsValid fp → IsAdded fp memory 0 i [] fp memory
add_pages-zero fp memory i v = record {
  valid = v;
  avail = omega arith;
  count = refl;
  fresh = tt;
  distinct = tt;
  numbered = λ j h. absurd (omega arith);
  keeps = λ f h. h;
  same_memory = refl;
  zeros = λ j h. h;
  bytes = λ f j h p. refl;
}

module _ (i : ℕ) {fp fp₁ fp₂ : FrameProvider} {memory memory₁ memory₂ : List ℕ} {n f : ℕ}
    {pages : List TranslationEntry} (t : IsTaken fp memory f fp₁ memory₁)
    (a : IsAdded fp₁ memory₁ n (i + 1) pages fp₂ memory₂) where
  first-IsFresh : IsFresh fp fp₂ memory₂ (fresh_entry i f)
  first-IsFresh = record {
    in_range = t.in_range;
    was_free = t.was_free;
    taken = a.keeps f (ground (arith, t.frames f));
    valid = refl;
    writable = refl;
    cleared = λ j p. a.zeros j (ground (arith, t.bytes j));
  }

  rest-IsFresh :
      (e : TranslationEntry)
      → IsFresh fp₁ fp₂ memory₂ e
      → IsFresh fp fp₂ memory₂ e × (f ≢ e.physical_page)
  rest-IsFresh e r = (
    record {
      in_range = r.in_range;
      was_free = ground (arith, t.frames e.physical_page, r.was_free);
      taken = r.taken;
      valid = r.valid;
      writable = r.writable;
      cleared = r.cleared;
    },
    λ q. ground (arith, t.frames e.physical_page, r.was_free),
  )

  frames_other :
      (pages : List TranslationEntry)
      → All (IsFresh fp₁ fp₂ memory₂) pages
      → All (λ g. f ≢ g) (frames pages)
  frames_other [] h = tt
  frames_other (e ∷ pages) h = ((rest-IsFresh e h.0).1, frames_other pages h.1)

  number :
      (j : ℕ)
      → j < suc n
      → (get_or (fresh_entry i f ∷ pages) j (fresh_entry 0 0)).virtual_page ≡ i + j
  number zero h = omega arith
  number (suc j) h = a.numbered j (omega arith) ∙ omega arith

  add_pages-suc : IsAdded fp memory (suc n) i (fresh_entry i f ∷ pages) fp₂ memory₂
  add_pages-suc = record {
    valid = a.valid;
    avail = omega (arith, a.avail, t.one_less);
    count = ap suc a.count;
    fresh = (first-IsFresh, All-map (λ e r. (rest-IsFresh e r).0) pages a.fresh);
    distinct = (frames_other pages a.fresh, a.distinct);
    numbered = number;
    keeps = λ g h. a.keeps g (ground (arith, t.frames g));
    same_memory = a.same_memory ∙ t.same_memory;
    zeros = λ j h. a.zeros j (ground (arith, t.bytes j));
    bytes = λ g j h p.
        ground (arith, a.bytes g j, t.frames g, t.bytes j, frame_unique f g j, t.was_free);
  }

-- With enough frames the loop returns, and every page has a frame of its own.
pub add_pages-IsAdded :
    (n i : ℕ) (fp : FrameProvider) (memory : List ℕ)
    → IsValid fp
    → n ≤ fp.n_avail_frame
    → (pages : List TranslationEntry) × (fp' : FrameProvider) × (memory' : List ℕ) × (add_pages n i
          fp memory
        ≡ done (pages, fp', memory'))
      × IsAdded fp memory n i pages fp' memory'
unfolding add_pages frame_number
add_pages-IsAdded zero i fp memory v h = ([], fp, memory, refl, add_pages-zero fp memory i v)
add_pages-IsAdded (suc n) i fp memory v h = elim (get_empty_frame_lem fp memory v) [
  | inr (_, none_left) ↦ absurd (omega arith)
  | inl (f, fp₁, memory₁, e, t, _) ↦
      let (pages, fp₂, memory₂, e', a) =
        add_pages-IsAdded n (i + 1) fp₁ memory₁ t.valid (omega (arith, t.one_less)) in
      (fresh_entry i f ∷ pages, fp₂, memory₂, rw e (rw e' refl), add_pages-suc i t a)
]

-- What the page table's part of a constructor does.
abbrev pub InitsPages : ℕ → FrameProvider → List ℕ → Type 0
InitsPages n fp memory =
    ((n ≤ fp.n_avail_frame)
      × (n ≤ num_phys_pages)
      × (space : AddrSpace) × (fp' : FrameProvider) × (memory' : List ℕ) × (init_pages n fp memory
          ≡ done (space, fp', memory'))
      × (space.num_pages ≡ n)
      × (space.brk ≡ n * page_size)
      × IsAdded fp memory n 0 space.page_table fp' memory')
    ⊎ (((fp.n_avail_frame < n) ⊎ (num_phys_pages < n)) × (init_pages n fp memory ≡ aborted))

-- The page table of a new address space: where the provider has the frames (and the machine that
-- many), every page is valid, writable, numbered in order, and has a cleared frame of its own that
-- was free before; frames in use keep their bytes. Otherwise the constructor aborts.
pub init_pages_lem :
    (n : ℕ) (fp : FrameProvider) (memory : List ℕ) → IsValid fp → InitsPages n fp memory
unfolding init_pages
init_pages_lem n fp memory v = elim (dec_le n fp.n_avail_frame) [
  | no few ↦ inr (inl (omega arith), ground arith)
  | yes enough ↦ elim (dec_le n num_phys_pages) [
    | no big ↦ inr (inr (omega arith), ground arith)
    | yes fits ↦
        let (pages, fp', memory', e, a) = add_pages-IsAdded n 0 fp memory v enough in
        inl (
          enough,
          fits,
          record { num_pages = n; page_table = pages; brk = n * page_size },
          fp',
          memory',
          ground (arith, e),
          refl,
          refl,
          a,
        )
  ]
]
