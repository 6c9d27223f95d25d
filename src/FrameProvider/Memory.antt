-- ===== src/FrameProvider/Memory.antt =====
-- `bzero` on the main memory.
use non_os.Base.{
  ℕ, zero, suc, ◌+◌, ◌≡◌, refl, ◌∙◌, List, [], ◌∷◌, length, get_or, set, length-set, ltb, leb, ◌&&◌,
  if◌then◌else◌, get_or-set_ne, arith,
}

-- `bzero(memory + start, n)`
pub bzero : List ℕ → ℕ → ℕ → List ℕ
bzero memory start zero = memory
bzero memory start (suc n) = bzero (set memory start 0) (start + 1) n

pub length-bzero : (memory : List ℕ) (start n : ℕ) → length (bzero memory start n) ≡ length memory
unfolding bzero
length-bzero memory start zero = refl
length-bzero memory start (suc n) =
    length-bzero (set memory start 0) (start + 1) n ∙ length-set memory start 0

-- A 0 written anywhere is read back as a 0.
get_or-set_zero : (memory : List ℕ) (i : ℕ) → get_or (set memory i 0) i 0 ≡ 0
get_or-set_zero [] i = refl
get_or-set_zero (x ∷ memory) zero = refl
get_or-set_zero (x ∷ memory) (suc i) = get_or-set_zero memory i

-- The bytes of the block are 0, and all others as they were.
pub get_or-bzero :
    (memory : List ℕ) (start n i : ℕ)
    → get_or (bzero memory start n) i 0
      ≡ (if leb start i && ltb i (start + n) then 0 else get_or memory i 0)
unfolding bzero
get_or-bzero memory start zero i = ground arith
get_or-bzero memory start (suc n) i = ground (
  arith,
  get_or-bzero (set memory start 0) (start + 1) n i,
  get_or-set_zero memory start,
  get_or-set_ne memory start i 0 0,
)
