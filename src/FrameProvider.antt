-- ===== src/FrameProvider.antt =====
-- code/userprog/frameprovider.h and code/userprog/frameprovider.cc: the allocator of physical page
-- frames. `GetEmptyFrame` also clears the frame in the machine's main memory, which is an argument
-- and a result. The provider's lock is not part of the state: a call here is the code between
-- `AcquireFpLock` and `ReleaseFpLock`.
pub mod Memory
pub mod Laws
pub mod Tests
use non_os.Base.{ℕ, suc, ◌+◌, ◌-◌, ◌*◌, Option, none, some, List, Outcome, done, ◌>>=◌}
use non_os.BitMap
use non_os.BitMap.{BitMap}
use Memory.{bzero}

-- `SectorSize` of code/machine/disk.h; `PageSize` and `NumPhysPages` of code/machine/machine.h
abbrev pub sector_size : ℕ
sector_size = 128

abbrev pub page_size : ℕ
page_size = sector_size

abbrev pub num_phys_pages : ℕ
num_phys_pages = 2096

-- `nAvailFrame` falls only after `Find` has found a free frame; see `Laws` for why it cannot pass 0.
pub record FrameProvider : Type 0 where
  pub frame_map : BitMap
  pub n_avail_frame : ℕ

-- `memory` is what the bitmap's array from `new` holds.
pub init : List ℕ → Outcome FrameProvider
init memory = do
  frame_map ← BitMap.init memory num_phys_pages
  done (record { frame_map = frame_map; n_avail_frame = num_phys_pages })

pub find_free_frame : FrameProvider → Outcome (Option ℕ × FrameProvider)
find_free_frame fp = BitMap.find fp.frame_map >>= λ r. done (r.0, record fp { frame_map = r.1 })

-- The end of `GetEmptyFrame`, once the search has returned; `none` is -1.
pub take_frame : Option ℕ → FrameProvider → List ℕ → Option ℕ × FrameProvider × List ℕ
take_frame none fp memory = (none, fp, memory)
take_frame (some idx) fp memory = (
  some idx,
  record fp { n_avail_frame = fp.n_avail_frame - 1 },
  bzero memory (page_size * idx) page_size,
)

pub get_empty_frame : FrameProvider → List ℕ → Outcome (Option ℕ × FrameProvider × List ℕ)
get_empty_frame fp memory = find_free_frame fp >>= λ r. done (take_frame r.0 r.1 memory)

pub release_frame : FrameProvider → ℕ → Outcome FrameProvider
release_frame fp frame = do
  frame_map ← BitMap.clear fp.frame_map frame
  done (record { frame_map = frame_map; n_avail_frame = fp.n_avail_frame + 1 })
