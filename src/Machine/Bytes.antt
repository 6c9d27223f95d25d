-- ===== src/Machine/Bytes.antt =====
-- Little-endian words in a byte array, as a pointer cast reads and writes them on the host.
use native.Mathlib.Nat.{pow-suc, one-le-pow}
use non_os.Base.Arith.{mod_mul}
use non_os.Base.{
  ℕ, zero, suc, ◌+◌, ◌-◌, ◌*◌, ◌/◌, ◌%◌, ◌^◌, ◌<◌, ◌≤◌, ◌≡◌, refl, ap, ◌∙◌, List, length, get_or,
  set, length-set, get_or-set_self, get_or-set_ne, inl, inr, ◌⊎◌, ltb, if◌then◌else◌, arith,
}

-- The `n` bytes from `i` on, lowest first.
unfoldable pub load_bytes : List ℕ → ℕ → ℕ → ℕ
load_bytes memory i zero = 0
load_bytes memory i (suc n) = get_or memory i 0 + 256 * load_bytes memory (i + 1) n

pub store_bytes : List ℕ → ℕ → ℕ → ℕ → List ℕ
store_bytes memory i zero v = memory
store_bytes memory i (suc n) v = store_bytes (set memory i (v % 256)) (i + 1) n (v / 256)

-- A `char` read as an `int`.
pub sign_extend_byte : ℕ → ℕ
sign_extend_byte b = if ltb b 128 then b else b + 2 ^ 32 - 256

pub length-store_bytes :
    (memory : List ℕ) (i n v : ℕ) → length (store_bytes memory i n v) ≡ length memory
unfolding store_bytes
length-store_bytes memory i zero v = refl
length-store_bytes memory i (suc n) v =
    length-store_bytes (set memory i (v % 256)) (i + 1) n (v / 256) ∙ length-set memory i (v % 256)

-- A store leaves what stands before it and behind it.
get_or-store_bytes_below :
    (memory : List ℕ) (i n v j : ℕ)
    → j < i
    → get_or (store_bytes memory i n v) j 0 ≡ get_or memory j 0
unfolding store_bytes
get_or-store_bytes_below memory i zero v j h = refl
get_or-store_bytes_below memory i (suc n) v j h =
    get_or-store_bytes_below (set memory i (v % 256)) (i + 1) n (v / 256) j (omega arith)
    ∙ get_or-set_ne memory i j (v % 256) 0 (omega arith)

get_or-store_bytes_above :
    (memory : List ℕ) (i n v j : ℕ)
    → i + n ≤ j
    → get_or (store_bytes memory i n v) j 0 ≡ get_or memory j 0
unfolding store_bytes
get_or-store_bytes_above memory i zero v j h = refl
get_or-store_bytes_above memory i (suc n) v j h =
    get_or-store_bytes_above (set memory i (v % 256)) (i + 1) n (v / 256) j (omega arith)
    ∙ get_or-set_ne memory i j (v % 256) 0 (omega arith)

pub get_or-store_bytes_out :
    (memory : List ℕ) (i n v j : ℕ)
    → (j < i) ⊎ (i + n ≤ j)
    → get_or (store_bytes memory i n v) j 0 ≡ get_or memory j 0
get_or-store_bytes_out memory i n v j (inl h) = get_or-store_bytes_below memory i n v j h
get_or-store_bytes_out memory i n v j (inr h) = get_or-store_bytes_above memory i n v j h

-- Bytes that agree load the same word.
pub load_bytes-same :
    (memory memory' : List ℕ) (i n : ℕ)
    → ((j : ℕ) → i ≤ j → j < i + n → get_or memory j 0 ≡ get_or memory' j 0)
    → load_bytes memory i n ≡ load_bytes memory' i n
unfolding load_bytes
load_bytes-same memory memory' i zero h = refl
load_bytes-same memory memory' i (suc n) h = omega (
  arith,
  h i (omega arith) (omega arith),
  load_bytes-same memory memory' (i + 1) n (λ j p q. h j (omega arith) (omega arith)),
)

mod_pow_suc : (v n : ℕ) → v % 256 ^ suc n ≡ v / 256 % 256 ^ n * 256 + v % 256
mod_pow_suc v n =
    ap (λ (t : ℕ). v % t) (pow-suc 256 n)
    ∙ mod_mul v (256 ^ n) 256 (omega (arith, one-le-pow n 256)) (omega arith)

-- A store that fits the memory is read back, cut to its bytes.
pub load-store_bytes :
    (memory : List ℕ) (i n v : ℕ)
    → i + n ≤ length memory
    → load_bytes (store_bytes memory i n v) i n ≡ v % 256 ^ n
unfolding load_bytes store_bytes
load-store_bytes memory i zero v h = omega arith
load-store_bytes memory i (suc n) v h = omega (
  arith,
  get_or-store_bytes_below (set memory i (v % 256)) (i + 1) n (v / 256) i (omega arith),
  get_or-set_self memory i (v % 256) 0 (omega arith),
  load-store_bytes (set memory i (v % 256)) (i + 1) n (v / 256)
      (omega (arith, length-set memory i (v % 256))),
  mod_pow_suc v n,
)
