-- ===== src/Framework/BufferPool/Blocks.antt =====
-- A list of blocks with their sizes: what is found in it, and what an erase leaves.
-- The blocks in use with the sizes that were asked for, by the address of the block.
use Prim.{tt}
use zephyr_project.Prelude.{
  Bool, List, Option, [], arith, false, if◌then◌else◌, length, none, refl, some, suc, true, ℕ, ◌+◌,
  ◌==◌, ◌∷◌, ◌≡◌,
}

abbrev pub lookup : ℕ → List (ℕ × ℕ) → Option ℕ
lookup b [] = none
lookup b ((a, size) ∷ rest) = if a == b then some size else lookup b rest

abbrev pub erase : ℕ → List (ℕ × ℕ) → List (ℕ × ℕ)
erase b [] = []
erase b ((a, size) ∷ rest) = if a == b then rest else (a, size) ∷ erase b rest

abbrev pub total : List (ℕ × ℕ) → ℕ
total [] = 0
total ((a, size) ∷ rest) = size + total rest

-- No block is listed twice.
abbrev pub IsDistinct : List (ℕ × ℕ) → Type 0
IsDistinct [] = Unit
IsDistinct ((a, size) ∷ rest) = (lookup a rest ≡ none) × IsDistinct rest

abbrev pub is_some : Option ℕ → Bool
is_some none = false
is_some (some _) = true

pub found : (o : Option ℕ) → is_some o ≡ true → (size : ℕ) × (o ≡ some size)
found none h = cc
found (some size) h = (size, refl)

pub lookup-erase :
    (b c : ℕ) (blocks : List (ℕ × ℕ))
    → IsDistinct blocks
    → lookup c (erase b blocks) ≡ (if c == b then none else lookup c blocks)
lookup-erase b c [] h = ground arith
lookup-erase b c ((a, size) ∷ rest) h = ground (arith, lookup-erase b c rest h.1)

pub erase-IsDistinct :
    (b : ℕ) (blocks : List (ℕ × ℕ)) → IsDistinct blocks → IsDistinct (erase b blocks)
erase-IsDistinct b [] h = tt
erase-IsDistinct b ((a, size) ∷ rest) h =
    ground (arith, erase-IsDistinct b rest h.1, lookup-erase b a rest h.1)

pub total-erase :
    (b size : ℕ) (blocks : List (ℕ × ℕ))
    → lookup b blocks ≡ some size
    → total (erase b blocks) + size ≡ total blocks
total-erase b size [] h = cc
total-erase b size ((a, s) ∷ rest) h = ground (arith, total-erase b size rest)

pub length-erase :
    (b size : ℕ) (blocks : List (ℕ × ℕ))
    → lookup b blocks ≡ some size
    → suc (length (erase b blocks)) ≡ length blocks
length-erase b size [] h = cc
length-erase b size ((a, s) ∷ rest) h = ground (arith, length-erase b size rest)
