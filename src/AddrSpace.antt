-- ===== src/AddrSpace.antt =====
-- code/userprog/addrspace.h and code/userprog/addrspace.cc: the page table of an address space, its
-- growth by `do_Sbrk`, and the release of its frames. The frame provider and the main memory are
-- arguments and results. Each function is the code between `AcquireFpLock` and `ReleaseFpLock`.
pub mod Pages
pub mod Sbrk
pub mod Isolation
mod Tests
use non_os.Base.{
  ℕ, zero, suc, ◌+◌, ◌-◌, ◌*◌, ◌^◌, Bool, true, false, Option, none, some, List, [], ◌∷◌, ◌++◌, leb,
  if◌then◌else◌, Outcome, done, aborted, assert, ◌>>=◌, ◌>>◌,
}
use non_os.FrameProvider
use non_os.FrameProvider.{FrameProvider, page_size, num_phys_pages}
use non_os.Machine.{Machine, TranslationEntry}

-- The fields that the page table's operations use.
pub record AddrSpace : Type 0 where
  pub num_pages : ℕ
  pub page_table : List TranslationEntry
  pub brk : ℕ

-- `GetEmptyFrame()` as it is stored in the unsigned `physicalPage`: -1 is the largest word.
pub frame_number : Option ℕ → ℕ
frame_number none = 2 ^ 32 - 1
frame_number (some f) = f

abbrev pub fresh_entry : ℕ → ℕ → TranslationEntry
fresh_entry i frame = record {
  virtual_page = i;
  physical_page = frame;
  valid = true;
  read_only = false;
  used = false;
  dirty = false;
}

-- The loop that fills the entries from `i` on, with the rounds that are left.
pub add_pages :
    ℕ → ℕ → FrameProvider → List ℕ → Outcome (List TranslationEntry × FrameProvider × List ℕ)
add_pages zero i fp memory = done ([], fp, memory)
add_pages (suc left) i fp memory = do
  (frame, fp₁, memory₁) ← FrameProvider.get_empty_frame fp memory
  (rest, fp₂, memory₂) ← add_pages left (i + 1) fp₁ memory₁
  done (fresh_entry i (frame_number frame) ∷ rest, fp₂, memory₂)

-- The page table's part of both constructors.
pub init_pages : ℕ → FrameProvider → List ℕ → Outcome (AddrSpace × FrameProvider × List ℕ)
init_pages num_pages fp memory = do
  assert (leb num_pages fp.n_avail_frame)
  assert (leb num_pages num_phys_pages)
  (page_table, fp', memory') ← add_pages num_pages 0 fp memory
  done (
    record { num_pages = num_pages; page_table = page_table; brk = num_pages * page_size },
    fp',
    memory',
  )

pub release_entries : List TranslationEntry → FrameProvider → Outcome FrameProvider
release_entries [] fp = done fp
release_entries (entry ∷ rest) fp = do
  fp' ← FrameProvider.release_frame fp entry.physical_page
  release_entries rest fp'

pub release_frames : AddrSpace → FrameProvider → Outcome FrameProvider
release_frames space fp = release_entries space.page_table fp

pub get_size : AddrSpace → ℕ
get_size space = space.num_pages * page_size

pub restore_state : AddrSpace → Machine → Machine
restore_state space m = record m {
  page_table = some space.page_table;
  page_table_size = space.num_pages;
}

-- The state that `do_Sbrk` works on. The main memory is the machine's.
pub record Kernel : Type 0 where
  pub space : AddrSpace
  pub provider : FrameProvider
  pub machine : Machine

-- The branch of `do_Sbrk` that has the frames.
pub grow : Kernel → ℕ → Outcome (ℕ × Kernel)
grow k n = do
  (pages, fp, memory) ← add_pages n k.space.num_pages k.provider k.machine.main_memory
  let space : AddrSpace = record {
    num_pages = k.space.num_pages + n;
    page_table = k.space.page_table ++ pages;
    brk = (k.space.num_pages + n) * page_size;
  }
  done (
    k.space.brk,
    record {
      space = space;
      provider = fp;
      machine = restore_state space (record k.machine { main_memory = memory });
    },
  )

-- `do_Sbrk`: the old break, or 0 where there are too few frames.
pub do_sbrk : Kernel → ℕ → Outcome (ℕ × Kernel)
do_sbrk k n = if leb n k.provider.n_avail_frame then grow k n else done (0, k)
