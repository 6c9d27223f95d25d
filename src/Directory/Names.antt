-- ===== src/Directory/Names.antt =====
-- `strncmp` and `strncpy` of the C library, as code/filesys/directory.cc uses them: the names that a
-- directory takes for equal are those with the same first characters.
use non_os.Base.{
  ℕ, zero, suc, ◌≡◌, refl, ap, Bool, true, ◌&&◌, ◌||◌, List, [], ◌∷◌, ◌==◌, if◌then◌else◌, arith,
  Bool-cases, inl, inr,
}

-- The first character, NUL at the end, and the rest.
abbrev pub first : List ℕ → ℕ
first [] = 0
first (c ∷ cs) = c

abbrev pub rest : List ℕ → List ℕ
rest [] = []
rest (c ∷ cs) = cs

-- `!strncmp(a, b, n)`
unfoldable pub strncmp : ℕ → List ℕ → List ℕ → Bool
strncmp zero a b = true
strncmp (suc n) a b =
    let later = strncmp n (rest a) (rest b) in first a == first b && (first a == 0 || later)

-- `strncpy(dest, src, n)`: NULs behind a short `src`.
unfoldable pub strncpy : ℕ → List ℕ → List ℕ → List ℕ
strncpy zero dest src = dest
strncpy (suc n) dest src =
    first src ∷ strncpy n (rest dest) (if first src == 0 then [] else rest src)

-- The characters before the first NUL, `n` at most.
pub clip : ℕ → List ℕ → List ℕ
clip zero a = []
clip (suc n) a = let later = clip n (rest a) in if first a == 0 then [] else first a ∷ later

pub clip-strncpy : (n : ℕ) (dest src : List ℕ) → clip n (strncpy n dest src) ≡ clip n src
unfolding clip strncpy
clip-strncpy zero dest src = refl
clip-strncpy (suc n) dest src = elim (Bool-cases (first src == 0)) [
  | inl e ↦ rw e refl
  | inr e ↦ rw e (ap (λ t. first src ∷ t) (clip-strncpy n (rest dest) (rest src)))
]

pub strncmp-clip : (n : ℕ) (a b : List ℕ) → strncmp n a b ≡ true → clip n a ≡ clip n b
unfolding clip strncmp
strncmp-clip zero a b h = refl
strncmp-clip (suc n) a b h = ground (arith, strncmp-clip n (rest a) (rest b))

pub clip-strncmp : (n : ℕ) (a b : List ℕ) → clip n a ≡ clip n b → strncmp n a b ≡ true
unfolding clip strncmp
clip-strncmp zero a b h = refl
clip-strncmp (suc n) a b h = ground (arith, clip-strncmp n (rest a) (rest b))
