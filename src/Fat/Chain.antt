-- ===== src/Fat/Chain.antt =====
-- The block chains of a FAT (src/internal/pennfat_kernel.c).
use pennosgrp.Prelude.{
  ℕ, zero, suc, ◌<◌, ◌≡◌, ◌≢◌, refl, Bool, true, false, ◌||◌, List, [], ◌∷◌, arith, length, get_or,
  ◌==◌, Bool-cases, inl, inr,
}
use pennosgrp.Fat.{fat_free, fat_eoc}

abbrev pub has : ℕ → List ℕ → Bool
has b [] = false
has b (x ∷ xs) = b == x || has b xs

-- From `b` the FAT leads through the blocks `xs`, all different, to the end-of-chain mark.
abbrev pub Links : (ℕ → ℕ) → ℕ → List ℕ → Type 0
Links fat b [] = b ≡ fat_eoc
Links fat b (x ∷ xs) =
    (b ≡ x) × (x ≢ fat_eoc) × (x ≢ fat_free) × (has x xs ≡ false) × Links fat (fat x) xs

-- A chain survives any change of the FAT that spares its own entries.
pub Links-frame :
    (fat fat' : ℕ → ℕ) (b : ℕ) (xs : List ℕ)
    → ((i : ℕ) → has i xs ≡ true → fat' i ≡ fat i)
    → Links fat b xs
    → Links fat' b xs
Links-frame fat fat' b [] same links = links
Links-frame fat fat' b (x ∷ xs) same (e, ne, nf, fresh, rest) =
    let e' : fat' x ≡ fat x = same x (ground arith) in
    (e, ne, nf, fresh, rw e' (Links-frame fat fat' (fat x) xs (λ i h. same i (ground arith)) rest))

-- No block of a chain is free.
pub Links-allocated :
    (fat : ℕ → ℕ) (b i : ℕ) (xs : List ℕ) → Links fat b xs → has i xs ≡ true → fat i ≢ fat_free
Links-allocated fat b i (x ∷ []) (e, ne, nf, fresh, end) h free = ground arith
Links-allocated fat b i (x ∷ y ∷ ys) (e, ne, nf, fresh, rest) h free = elim (Bool-cases (i == x)) [
  | inl here ↦ let (e', _, nf', _, _) = rest in ground arith
  | inr there ↦ Links-allocated fat (fat x) i (y ∷ ys) rest (ground arith) free
]
Links-allocated fat b i [] links h free = ground arith

pub has-get_or : (xs : List ℕ) (i : ℕ) → i < length xs → has (get_or xs i 0) xs ≡ true
has-get_or [] i h = absurd (omega arith)
has-get_or (x ∷ xs) zero h = ground arith
has-get_or (x ∷ xs) (suc i) h = ground (arith, has-get_or xs i (omega arith))

-- The blocks of a chain are different.
pub get_or-distinct :
    (fat : ℕ → ℕ) (b : ℕ) (xs : List ℕ) (i j : ℕ)
    → Links fat b xs
    → i < length xs
    → j < length xs
    → get_or xs i 0 ≡ get_or xs j 0
    → i ≡ j
get_or-distinct fat b [] i j links hi hj same = absurd (omega arith)
get_or-distinct fat b (x ∷ xs) zero zero links hi hj same = refl
get_or-distinct fat b (x ∷ xs) zero (suc j) (e, ne, nf, fresh, rest) hi hj same =
    absurd (ground (arith, has-get_or xs j (omega arith)))
get_or-distinct fat b (x ∷ xs) (suc i) zero (e, ne, nf, fresh, rest) hi hj same =
    absurd (ground (arith, has-get_or xs i (omega arith)))
get_or-distinct fat b (x ∷ xs) (suc i) (suc j) (e, ne, nf, fresh, rest) hi hj same =
    omega (arith, get_or-distinct fat (fat x) xs i j rest (omega arith) (omega arith) same)
