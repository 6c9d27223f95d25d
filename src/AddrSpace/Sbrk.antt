-- ===== src/AddrSpace/Sbrk.antt =====
-- Which address space owns which frame, and how `do_Sbrk` and `ReleaseFrames` keep that apart.
use native.Mathlib.Decide.{dec_le}
use non_os.Base.{
  ℕ, ◌+◌, ◌*◌, ◌<◌, ◌≤◌, ◌≡◌, ◌≢◌, refl, true, false, some, List, [], ◌∷◌, ◌++◌, ◌==◌,
  if◌then◌else◌, length, All, All-map, Distinct, done, inl, inr, ◌⊎◌, arith,
}
use mathlib.Core.List.{map-append}
use non_os.Base.Apart.{Apart, All-append, Distinct-append, Apart-of}
use non_os.FrameProvider.{FrameProvider, page_size, num_phys_pages}
use non_os.FrameProvider.Laws.{IsValid, in_use, release_frame_lem}
use non_os.Machine.{TranslationEntry}
use non_os.AddrSpace.{
  AddrSpace, Kernel, do_sbrk, grow, restore_state, release_entries, release_frames,
}
use non_os.AddrSpace.Pages.{frames, IsAdded, add_pages-IsAdded}

-- The entry's frame is a frame of the machine and in use.
abbrev pub IsHeld : FrameProvider → TranslationEntry → Type 0
IsHeld fp e = (e.physical_page < num_phys_pages) × (in_use fp e.physical_page ≡ true)

-- The frames of `table` and of `others`, the entries of all other address spaces, are in use, and no
-- frame stands twice.
pub record IsOwned (fp : FrameProvider) (table others : List TranslationEntry) : Type 0 where
  pub mine : All (IsHeld fp) table
  pub theirs : All (IsHeld fp) others
  pub distinct : Distinct (frames table)
  pub distinct_others : Distinct (frames others)
  pub apart : Apart (frames table) (frames others)

module _ {fp fp' : FrameProvider} {memory memory' : List ℕ} {n i : ℕ}
    {pages : List TranslationEntry} (a : IsAdded fp memory n i pages fp' memory') where
  keeps-IsHeld : (es : List TranslationEntry) → All (IsHeld fp) es → All (IsHeld fp') es
  keeps-IsHeld es h = All-map (λ e p. (p.0, a.keeps e.physical_page p.1)) es h

  fresh-IsHeld : All (IsHeld fp') pages
  fresh-IsHeld = All-map (λ e p. (p.in_range, p.taken)) pages a.fresh

  fresh_free : All (λ e. ¬ (in_use fp e.physical_page ≡ true)) pages
  fresh_free = All-map (λ e p q. ground (arith, p.was_free)) pages a.fresh

  fresh-Apart : (es : List TranslationEntry) → All (IsHeld fp) es → Apart (frames es) (frames pages)
  fresh-Apart es h =
      Apart-of (λ f. in_use fp f ≡ true) (λ e. e.physical_page) es pages (All-map (λ e p. p.1) es h)
        fresh_free

  fresh-Apart' :
      (es : List TranslationEntry) → All (IsHeld fp) es → Apart (frames pages) (frames es)
  fresh-Apart' es h =
      Apart-of (λ f. ¬ (in_use fp f ≡ true)) (λ e. e.physical_page) pages es fresh_free
        (All-map (λ e p k. k p.1) es h)

  -- The pages that the loop has added join the table.
  append-IsOwned :
      (table others : List TranslationEntry)
      → IsOwned fp table others
      → IsOwned fp' (table ++ pages) others
  append-IsOwned table others o = record {
    mine = All-append (IsHeld fp') table pages (keeps-IsHeld table o.mine) fresh-IsHeld;
    theirs = keeps-IsHeld others o.theirs;
    distinct = rw (map-append (λ (e : TranslationEntry). e.physical_page) table pages) (
        Distinct-append (frames table) (frames pages) o.distinct a.distinct
          (fresh-Apart table o.mine));
    distinct_others = o.distinct_others;
    apart =
        rw (map-append (λ (e : TranslationEntry). e.physical_page) table pages)
          (All-append _ (frames table) (frames pages) o.apart (fresh-Apart' others o.theirs));
  }

-- What `do_Sbrk` has done to the state when it had the frames.
pub record IsGrown (k : Kernel) (n : ℕ) (k' : Kernel) : Type 0 where
  pub pages : List TranslationEntry
  pub table : k'.space.page_table ≡ k.space.page_table ++ pages
  pub added :
      IsAdded k.provider k.machine.main_memory n k.space.num_pages pages k'.provider
        k'.machine.main_memory
  pub num_pages : k'.space.num_pages ≡ k.space.num_pages + n
  pub brk : k'.space.brk ≡ (k.space.num_pages + n) * page_size
  pub installed : k'.machine.page_table ≡ some k'.space.page_table
  pub installed_size : k'.machine.page_table_size ≡ k'.space.num_pages
  pub registers : k'.machine.registers ≡ k.machine.registers

-- What `do_Sbrk` can do.
abbrev pub Sbrks : Kernel → ℕ → List TranslationEntry → Type 0
Sbrks k n others =
    ((n ≤ k.provider.n_avail_frame)
      × (k' : Kernel) × (do_sbrk k n ≡ done (k.space.brk, k'))
      × IsGrown k n k'
      × IsOwned k'.provider k'.space.page_table others)
    ⊎ ((k.provider.n_avail_frame < n) × (do_sbrk k n ≡ done (0, k)))

-- `do_Sbrk` never aborts. With enough frames it returns the old break and puts `n` fresh pages behind
-- the old ones, in the address space and in the machine; no frame ends up in two places. With too
-- few it returns 0 and changes nothing.
pub do_sbrk_lem :
    (k : Kernel) (n : ℕ) (others : List TranslationEntry)
    → IsValid k.provider
    → IsOwned k.provider k.space.page_table others
    → Sbrks k n others
unfolding do_sbrk grow restore_state
do_sbrk_lem k n others v o = elim (dec_le n k.provider.n_avail_frame) [
  | no few ↦ inr (omega arith, ground arith)
  | yes enough ↦
      let (pages, fp, memory, e, a) =
        add_pages-IsAdded n k.space.num_pages k.provider k.machine.main_memory v enough in
      inl (
        enough,
        record {
          space = record {
            num_pages = k.space.num_pages + n;
            page_table = k.space.page_table ++ pages;
            brk = (k.space.num_pages + n) * page_size;
          };
          provider = fp;
          machine = record k.machine {
            main_memory = memory;
            page_table = some (k.space.page_table ++ pages);
            page_table_size = k.space.num_pages + n;
          };
        },
        ground (arith, e),
        record {
          pages = pages;
          table = refl;
          added = a;
          num_pages = refl;
          brk = refl;
          installed = refl;
          installed_size = refl;
          registers = refl;
        },
        append-IsOwned a k.space.page_table others o,
      )
]

-- Releasing a frame leaves the others held.
release-IsHeld :
    (fp fp' : FrameProvider) (f : ℕ) (es : List TranslationEntry)
    → ((g : ℕ) → in_use fp' g ≡ (if f == g then false else in_use fp g))
    → All (λ y. f ≢ y) (frames es)
    → All (IsHeld fp) es
    → All (IsHeld fp') es
release-IsHeld fp fp' f [] view ne h = tt
release-IsHeld fp fp' f (e ∷ es) view ne h = (
  (h.0.0, ground (arith, view e.physical_page, ne.0, h.0.1)),
  release-IsHeld fp fp' f es view ne.1 h.1,
)

-- The same for a list of entries; what was free stays free.
release_entries_lem :
    (table others : List TranslationEntry) (fp : FrameProvider)
    → IsValid fp
    → IsOwned fp table others
    → (fp' : FrameProvider) × (release_entries table fp ≡ done fp')
      × IsValid fp'
      × (fp'.n_avail_frame ≡ fp.n_avail_frame + length table)
      × All (λ e. in_use fp' e.physical_page ≡ false) table
      × All (IsHeld fp') others
      × ((g : ℕ) → in_use fp g ≡ false → in_use fp' g ≡ false)
unfolding release_entries
release_entries_lem [] others fp v o = (fp, refl, v, omega arith, tt, o.theirs, λ g h. h)
release_entries_lem (e ∷ table) others fp v o =
    let (fp₁, done₁, v₁, more, view) =
      release_frame_lem fp e.physical_page v o.mine.0.0 o.mine.0.1 in
    let o₁ : IsOwned fp₁ table others = record {
      mine = release-IsHeld fp fp₁ e.physical_page table view o.distinct.0 o.mine.1;
      theirs = release-IsHeld fp fp₁ e.physical_page others view o.apart.0 o.theirs;
      distinct = o.distinct.1;
      distinct_others = o.distinct_others;
      apart = o.apart.1;
    } in
    let (fp', done', v', more', freed, theirs, keeps) =
      release_entries_lem table others fp₁ v₁ o₁ in
    (
      fp',
      rw done₁ done',
      v',
      omega (arith, more, more'),
      (keeps e.physical_page (ground (arith, view e.physical_page)), freed),
      theirs,
      λ g h. keeps g (ground (arith, view g)),
    )

-- What `ReleaseFrames` does.
abbrev pub ReleasesFrames : AddrSpace → List TranslationEntry → FrameProvider → Type 0
ReleasesFrames space others fp =
    (fp' : FrameProvider) × (release_frames space fp ≡ done fp')
    × IsValid fp'
    × (fp'.n_avail_frame ≡ fp.n_avail_frame + length space.page_table)
    × All (λ e. in_use fp' e.physical_page ≡ false) space.page_table
    × All (IsHeld fp') others

-- The frames of an exiting address space all go back: nothing aborts, the counter grows by their
-- number, and the other address spaces keep theirs.
pub release_frames_lem :
    (space : AddrSpace) (others : List TranslationEntry) (fp : FrameProvider)
    → IsValid fp
    → IsOwned fp space.page_table others
    → ReleasesFrames space others fp
unfolding release_frames
release_frames_lem space others fp v o =
    let (fp', e, v', more, freed, theirs, _) = release_entries_lem space.page_table others fp v o in
    (fp', e, v', more, freed, theirs)
