-- ===== src/FrameProvider/Laws.antt =====
-- The provider's counter agrees with its bitmap, and a frame is handed out once and cleared.
use non_os.Base.{
  ℕ, ◌+◌, ◌-◌, ◌*◌, ◌<◌, ◌≡◌, refl, sym, ◌∙◌, Bool, true, false, none, some, List, length, get_or,
  if◌then◌else◌, ◌==◌, ltb, leb, ◌&&◌, done, arith, inl, inr, ◌⊎◌,
}
use non_os.BitMap.{BitMap, div_round_up}
use non_os.BitMap.View.{is_set, IsUpdate, clear-IsUpdate}
use non_os.BitMap.View
use non_os.BitMap.Find.{find-Finds}
use non_os.BitMap.Count.{
  init_lem, free_count, free_count-update, free_count-pos, free_count-zero, free_count-all,
}
use non_os.FrameProvider.{
  FrameProvider, num_phys_pages, page_size, init, find_free_frame, take_frame, get_empty_frame,
  release_frame,
}
use non_os.FrameProvider.Memory.{bzero, length-bzero, get_or-bzero}

-- The frame `f` is in use.
abbrev pub in_use : FrameProvider → ℕ → Bool
in_use fp f = is_set fp.frame_map f

pub record IsValid (fp : FrameProvider) : Type 0 where
  pub map : View.IsValid fp.frame_map
  pub size : fp.frame_map.num_bits ≡ num_phys_pages
  pub count : fp.n_avail_frame ≡ free_count fp.frame_map

-- The byte at `i` lies in frame `f`.
abbrev pub in_frame : ℕ → ℕ → Bool
in_frame f i = leb (page_size * f) i && ltb i (page_size * f + page_size)

-- A frame `f` was free and has been taken and cleared: what holds of the provider and the memory.
pub record IsTaken (fp : FrameProvider) (memory : List ℕ) (f : ℕ) (fp' : FrameProvider)
    (memory' : List ℕ) : Type 0 where
  pub valid : IsValid fp'
  pub in_range : f < num_phys_pages
  pub was_free : in_use fp f ≡ false
  pub one_less : fp'.n_avail_frame + 1 ≡ fp.n_avail_frame
  pub frames : (g : ℕ) → in_use fp' g ≡ (if f == g then true else in_use fp g)
  pub same_memory : length memory' ≡ length memory
  pub bytes : (i : ℕ) → get_or memory' i 0 ≡ (if in_frame f i then 0 else get_or memory i 0)

pub init-IsValid :
    (array : List ℕ)
    → length array ≡ div_round_up num_phys_pages 32
    → (fp : FrameProvider) × (init array ≡ done fp)
      × IsValid fp
      × ((f : ℕ) → f < num_phys_pages → in_use fp f ≡ false)
unfolding init
init-IsValid array h =
    let (m, e, v, s, free) = init_lem array num_phys_pages h in
    (
      record { frame_map = m; n_avail_frame = num_phys_pages },
      rw e refl,
      record {
        map = v;
        size = s;
        count = sym (free_count-all m (λ j p. free j (omega arith)) ∙ s);
      },
      free,
    )

take-IsTaken :
    (fp : FrameProvider) (memory : List ℕ) (f : ℕ) (m' : BitMap)
    → IsValid fp
    → f < num_phys_pages
    → in_use fp f ≡ false
    → IsUpdate fp.frame_map f true m'
    → IsTaken fp memory f
        (record { frame_map = m'; n_avail_frame = fp.n_avail_frame - 1 })
        (bzero memory (page_size * f) page_size)
take-IsTaken fp memory f m' v h free u = record {
  valid = record {
    map = u.valid;
    size = u.same_size ∙ v.size;
    count = omega (arith, v.count, less);
  };
  in_range = h;
  was_free = free;
  one_less = omega (arith, v.count, pos);
  frames = u.view;
  same_memory = length-bzero memory (page_size * f) page_size;
  bytes = get_or-bzero memory (page_size * f) page_size;
}
  where
    pos : 0 < free_count fp.frame_map
    pos = free_count-pos fp.frame_map f (omega (arith, v.size)) free

    less : free_count m' + 1 ≡ free_count fp.frame_map
    less = ground (arith, free_count-update fp.frame_map m' f true u, v.size)

-- What `GetEmptyFrame` can do to a provider and the memory.
abbrev pub GetsFrame : FrameProvider → List ℕ → Type 0
GetsFrame fp memory =
    ((f : ℕ) × (fp' : FrameProvider) × (memory' : List ℕ) × (get_empty_frame fp memory
        ≡ done (some f, fp', memory'))
      × IsTaken fp memory f fp' memory'
      × (0 < fp.n_avail_frame))
    ⊎ ((get_empty_frame fp memory ≡ done (none, fp, memory)) × (fp.n_avail_frame ≡ 0))

-- `GetEmptyFrame` never aborts. With a frame available it hands out one that was free, cleared, and
-- it returns -1, changing nothing, only when every frame is in use.
pub get_empty_frame_lem : (fp : FrameProvider) (memory : List ℕ) → IsValid fp → GetsFrame fp memory
unfolding get_empty_frame find_free_frame take_frame
get_empty_frame_lem fp memory v = elim (find-Finds fp.frame_map v.map) [
  | inl (all, e) ↦
      inr (
        rw e refl,
        v.count ∙ free_count-zero fp.frame_map (λ j h. all j (omega arith) (omega arith)),
      )
  | inr (f, m', _, h, free, _, u, e) ↦ inl (
    f,
    record { frame_map = m'; n_avail_frame = fp.n_avail_frame - 1 },
    bzero memory (page_size * f) page_size,
    rw e refl,
    take-IsTaken fp memory f m' v (omega arith) free u,
    omega (arith, v.count, free_count-pos fp.frame_map f (omega arith) free),
  )
]

-- `ReleaseFrame` of a frame in use.
abbrev pub Releases : FrameProvider → ℕ → Type 0
Releases fp f =
    (fp' : FrameProvider) × (release_frame fp f ≡ done fp')
    × IsValid fp'
    × (fp'.n_avail_frame ≡ fp.n_avail_frame + 1)
    × ((g : ℕ) → in_use fp' g ≡ (if f == g then false else in_use fp g))

-- `ReleaseFrame` of a frame in use frees that frame alone, and the counter follows.
pub release_frame_lem :
    (fp : FrameProvider) (f : ℕ)
    → IsValid fp
    → f < num_phys_pages
    → in_use fp f ≡ true
    → Releases fp f
unfolding release_frame
release_frame_lem fp f v h used =
    let (m', e, u) = clear-IsUpdate fp.frame_map f v.map (omega (arith, v.size)) in
    let more : free_count m' ≡ free_count fp.frame_map + 1 =
      ground (arith, free_count-update fp.frame_map m' f false u, v.size) in
    (
      record { frame_map = m'; n_avail_frame = fp.n_avail_frame + 1 },
      rw e refl,
      record { map = u.valid; size = u.same_size ∙ v.size; count = omega (arith, v.count) },
      refl,
      u.view,
    )

-- `ReleaseFrame` does not ask whether its frame is in use. Of a frame that is free already it makes
-- the counter one too large, so that it promises a frame that is not there.
pub release_frame_twice :
    (fp : FrameProvider) (f : ℕ)
    → IsValid fp
    → f < num_phys_pages
    → in_use fp f ≡ false
    → (fp' : FrameProvider) × (release_frame fp f ≡ done fp')
      × (fp'.n_avail_frame ≡ free_count fp'.frame_map + 1)
      × ¬ IsValid fp'
unfolding release_frame
release_frame_twice fp f v h free =
    let (m', e, u) = clear-IsUpdate fp.frame_map f v.map (omega (arith, v.size)) in
    let same : free_count m' ≡ free_count fp.frame_map =
      ground (arith, free_count-update fp.frame_map m' f false u, v.size) in
    (
      record { frame_map = m'; n_avail_frame = fp.n_avail_frame + 1 },
      rw e refl,
      omega (arith, v.count),
      λ w. absurd (omega (arith, v.count, w.count)),
    )
