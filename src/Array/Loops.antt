-- ===== src/Array/Loops.antt =====
-- What each loop over an array leaves in every cell.
use pennosgrp.Prelude.{
  ℕ, zero, suc, ◌+◌, ◌-◌, ◌≤◌, ◌<◌, ◌≡◌, refl, ap, none, some, [], ◌∷◌, arith, length, get_or, set,
  length-set, get_or-set, ltb, leb, if◌then◌else◌, ◌&&◌,
}
use pennosgrp.Array.{Cells, resize_cells, shift_up, shift_down, clear_cells}

pub length-resize_cells : (n : ℕ) (xs : Cells) → length (resize_cells n xs) ≡ n
unfolding resize_cells
length-resize_cells zero xs = refl
length-resize_cells (suc n) [] = ap suc (length-resize_cells n [])
length-resize_cells (suc n) (x ∷ xs) = ap suc (length-resize_cells n xs)

pub get_or-resize_cells :
    (n : ℕ) (xs : Cells) (i : ℕ) → i < n → get_or (resize_cells n xs) i none ≡ get_or xs i none
unfolding resize_cells
get_or-resize_cells zero xs i h = absurd (omega arith)
get_or-resize_cells (suc n) [] zero h = refl
get_or-resize_cells (suc n) [] (suc i) h = get_or-resize_cells n [] i (omega arith)
get_or-resize_cells (suc n) (x ∷ xs) zero h = refl
get_or-resize_cells (suc n) (x ∷ xs) (suc i) h = get_or-resize_cells n xs i (omega arith)

pub length-shift_up : (k index : ℕ) (a : Cells) → length (shift_up k index a) ≡ length a
unfolding shift_up
length-shift_up zero index a = refl
length-shift_up (suc k) index a = omega (
  arith,
  length-shift_up k index (set a (index + k + 1) (get_or a (index + k) none)),
  length-set a (index + k + 1) (get_or a (index + k) none),
)

pub length-shift_down : (k index : ℕ) (a : Cells) → length (shift_down k index a) ≡ length a
unfolding shift_down
length-shift_down zero index a = refl
length-shift_down (suc k) index a = omega (
  arith,
  length-shift_down k (index + 1) (set a index (get_or a (index + 1) none)),
  length-set a index (get_or a (index + 1) none),
)

pub length-clear_cells : (k index : ℕ) (a : Cells) → length (clear_cells k index a) ≡ length a
unfolding clear_cells
length-clear_cells zero index a = refl
length-clear_cells (suc k) index a =
    omega
      (arith, length-clear_cells k (index + 1) (set a index (some 0)), length-set a index (some 0))

-- The cells above `index`, up to the last one written, hold what the cell below them held.
pub get_or-shift_up :
    (k index : ℕ) (a : Cells) (j : ℕ)
    → index + k < length a
    → get_or (shift_up k index a) j none
      ≡ (if ltb index j && leb j (index + k) then get_or a (j - 1) none else get_or a j none)
unfolding shift_up
get_or-shift_up zero index a j h = ground arith
get_or-shift_up (suc k) index a j h = ground (
  arith,
  get_or-shift_up k index (set a (index + k + 1) (get_or a (index + k) none)) j,
  length-set a (index + k + 1) (get_or a (index + k) none),
  get_or-set a (index + k + 1) j (get_or a (index + k) none) none,
  get_or-set a (index + k + 1) (j - 1) (get_or a (index + k) none) none,
)

-- The cells from `index` on hold what the cell above them held.
pub get_or-shift_down :
    (k index : ℕ) (a : Cells) (j : ℕ)
    → index + k < length a
    → get_or (shift_down k index a) j none
      ≡ (if leb index j && ltb j (index + k) then get_or a (j + 1) none else get_or a j none)
unfolding shift_down
get_or-shift_down zero index a j h = ground arith
get_or-shift_down (suc k) index a j h = ground (
  arith,
  get_or-shift_down k (index + 1) (set a index (get_or a (index + 1) none)) j,
  length-set a index (get_or a (index + 1) none),
  get_or-set a index j (get_or a (index + 1) none) none,
  get_or-set a index (j + 1) (get_or a (index + 1) none) none,
)

pub get_or-clear_cells :
    (k index : ℕ) (a : Cells) (j : ℕ)
    → index + k ≤ length a
    → get_or (clear_cells k index a) j none
      ≡ (if leb index j && ltb j (index + k) then some 0 else get_or a j none)
unfolding clear_cells
get_or-clear_cells zero index a j h = ground arith
get_or-clear_cells (suc k) index a j h = ground (
  arith,
  get_or-clear_cells k (index + 1) (set a index (some 0)) j,
  length-set a index (some 0),
  get_or-set a index j (some 0) none,
)
