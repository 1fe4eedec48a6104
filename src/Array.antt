-- ===== src/Array.antt =====
-- Heap arrays of pointers, which src/util/Vec.c and src/kernel/pcb_vec.c both grow and shift.
-- A cell that malloc or realloc left indeterminate is `none`, and a pointer is a number (NULL is 0).
pub mod Loops
use pennosgrp.Prelude.{
  ℕ, zero, suc, ◌+◌, ◌-◌, ◌*◌, ◌/◌, ◌%◌, ◌^◌, ◌<◌, Option, none, some, List, [], ◌∷◌, set, get_or,
}

abbrev pub Cells : Type 0
Cells = List (Option ℕ)

-- `size_t` arithmetic.
abbrev pub size_add : ℕ → ℕ → ℕ
size_add a b = (a + b) % 2 ^ 64

abbrev pub size_sub : ℕ → ℕ → ℕ
size_sub a b = (a + 2 ^ 64 - b) % 2 ^ 64

-- The byte count of `n * sizeof(void*)`, and how many cells it holds.
abbrev pub cell_bytes : ℕ → ℕ
cell_bytes n = (n * 8) % 2 ^ 64

abbrev pub cells_of : ℕ → ℕ
cells_of n = cell_bytes n / 8

-- What realloc keeps, and what it adds.
unfoldable pub resize_cells : ℕ → Cells → Cells
resize_cells zero xs = []
resize_cells (suc n) [] = none ∷ resize_cells n []
resize_cells (suc n) (x ∷ xs) = x ∷ resize_cells n xs

-- for (i = index + rounds; i >= index + 1; i--) a[i] = a[i - 1];
unfoldable pub shift_up : ℕ → ℕ → Cells → Cells
shift_up zero index a = a
shift_up (suc k) index a = shift_up k index (set a (index + k + 1) (get_or a (index + k) none))

-- for (i = index; i < index + rounds; i++) a[i] = a[i + 1];
unfoldable pub shift_down : ℕ → ℕ → Cells → Cells
shift_down zero index a = a
shift_down (suc k) index a = shift_down k (index + 1) (set a index (get_or a (index + 1) none))

-- for (i = index; i < index + rounds; i++) a[i] = NULL;
unfoldable pub clear_cells : ℕ → ℕ → Cells → Cells
clear_cells zero index a = a
clear_cells (suc k) index a = clear_cells k (index + 1) (set a index (some 0))
