-- ===== src/Vec/Access.antt =====
-- Erasing, overwriting and reading, the forced write past the end, and the bounds that panic, for
-- src/util/Vec.c.
use pennosgrp.Prelude.{
  ℕ, ◌+◌, ◌-◌, ◌^◌, ◌≤◌, ◌<◌, ◌≡◌, refl, true, Bool, none, some, [], ◌∷◌, ◌++◌, arith, length, set,
  length-set, get_or-set, ltb, leb, ◌==◌, if◌then◌else◌, ok, panic, fault, Bool-cases, inl, inr,
  ◌↔◌,
}
use pennosgrp.Array.{Cells, size_add, size_sub, shift_down, clear_cells}
use pennosgrp.Array.Loops.{
  length-shift_down, length-clear_cells, get_or-shift_down, get_or-clear_cells,
}
use pennosgrp.Vec.{
  Vec, vec_resize_and_clean, vec_insert, vec_erase, vec_initialize_unused_capacity, vec_set_force,
  vec_get, vec_set,
}
use pennosgrp.Vec.Contents.{at, IsValid, ensure_lem}

-- vec_erase at an index in bounds hands exactly the erased element to the destructor, if there is one,
-- closes the gap and keeps the vector valid.
pub vec_erase_lem :
    (v : Vec) (index : ℕ)
    → IsValid v
    → index < v.len
    → (w : Vec) × (vec_erase v index ≡ ok w)
      × IsValid w
      × (w.len + 1 ≡ v.len)
      × (w.destroyed ≡ (if v.has_dtor then v.destroyed ++ at v index ∷ [] else v.destroyed))
      × ((i : ℕ) → i < w.len → at w i ≡ (if ltb i index then at v i else at v (i + 1)))
unfolding vec_erase
vec_erase_lem v index valid lt =
    let k : ℕ = v.len - 1 - index in
    (
      record v {
        cells = shift_down k index v.cells;
        len = v.len - 1;
        destroyed = if v.has_dtor then v.destroyed ++ at v index ∷ [] else v.destroyed;
      },
      ground arith,
      record {
        fits = omega (arith, valid.fits);
        allocated = omega (arith, length-shift_down k index v.cells, valid.allocated);
        small = valid.small;
      },
      omega arith,
      refl,
      λ i h. ground (arith, get_or-shift_down k index v.cells i, valid.allocated, valid.fits),
    )

-- Reads, overwrites and erasures panic exactly at an index out of bounds; insertions past the end panic.
pub out_of_bounds_panics :
    (malloc_ok : ℕ → Bool) (v : Vec) (index x : ℕ)
    → ((vec_get v index ≡ panic) ↔ (v.len ≤ index))
      × ((vec_erase v index ≡ panic) ↔ (v.len ≤ index))
      × ((vec_set malloc_ok v index x ≡ panic) ↔ (v.len ≤ index))
      × (v.len < index → vec_insert malloc_ok v index x ≡ panic)
unfolding vec_get vec_erase vec_set vec_insert
out_of_bounds_panics malloc_ok v index x = (
  (λ h. ground arith, λ h. ground arith),
  (λ h. ground arith, λ h. ground arith),
  (λ h. ground arith, λ h. ground arith),
  λ h. ground arith,
)

-- The last cell that vec_initialize_unused_capacity clears.
abbrev last_cleared : Vec → ℕ → ℕ
last_cleared v up_to = if ltb up_to (v.capacity - 1) then up_to else v.capacity - 1

init_unused_lem :
    (v : Vec) (up_to : ℕ)
    → IsValid v
    → 0 < v.capacity
    → vec_initialize_unused_capacity v up_to
      ≡ ok (record v { cells = clear_cells (last_cleared v up_to + 1 - v.len) v.len v.cells })
unfolding vec_initialize_unused_capacity
init_unused_lem v up_to valid room =
    let wraps : size_sub v.capacity 1 ≡ v.capacity - 1 = omega (arith, valid.small) in
    rw wraps (elim (Bool-cases (ltb (last_cleared v up_to) v.len)) [
      | inl below ↦
          let none_left : last_cleared v up_to + 1 - v.len ≡ 0 = ground arith in
          rw (below, none_left) (unfold clear_cells in refl)
      | inr above ↦
          let inside : ltb (last_cleared v up_to) (length v.cells) ≡ true =
            ground (arith, valid.allocated) in
          rw (above, inside) refl
    ])

-- While memory does not run out and the index is below 2^59, vec_set_force past the end grows the vector
-- to hold the index, fills the gap with NULL, keeps every old element and calls no destructor.
pub vec_set_force_lem :
    (malloc_ok : ℕ → Bool) (all : (n : ℕ) → malloc_ok n ≡ true) (v : Vec) (index x : ℕ)
    → IsValid v
    → v.len ≤ index
    → index < 2 ^ 59
    → (w : Vec) × (vec_set_force malloc_ok v index x ≡ ok w)
      × IsValid w
      × (w.len ≡ index + 1)
      × (w.destroyed ≡ v.destroyed)
      × ((i : ℕ)
          → i ≤ index
          → at w i ≡ (if ltb i v.len then at v i else if i == index then some x else some 0))
unfolding vec_set_force
vec_set_force_lem malloc_ok all v index x valid past small =
    let (w, runs, ok_w, room, grown) =
      ensure_lem malloc_ok all v (size_add index 1) valid (ground arith) (ground arith) in
    let up : ℕ = size_sub index 1 in
    let k : ℕ = last_cleared w up + 1 - w.len in
    let cleared : Cells = clear_cells k w.len w.cells in
    let room' : index < w.capacity = ground (arith, room) in
    let top : w.len + k ≤ length w.cells = ground (arith, ok_w.allocated, ok_w.fits) in
    (
      record w { cells = set cleared index (some x); len = size_add index 1 },
      rw (past_end, runs, init_unused_lem w up ok_w (omega arith)) refl,
      record {
        fits = omega arith;
        allocated = omega (
          arith,
          length-set cleared index (some x),
          length-clear_cells k w.len w.cells,
          ok_w.allocated,
        );
        small = ok_w.small;
      },
      omega arith,
      grown.destroyed,
      λ i h. ground (
        arith,
        top,
        length-clear_cells k w.len w.cells,
        get_or-clear_cells k w.len w.cells i,
        get_or-set cleared index i (some x) none,
        ok_w.allocated,
        grown.len,
        grown.same i,
      ),
    )
  where
    past_end : leb v.len index ≡ true
    past_end = ground arith

-- vec_resize_and_clean with capacity 0 on an empty vector that owns no storage writes through NULL:
-- its last index is 0 - 1, which wraps.
pub resize_and_clean_faults :
    (malloc_ok : ℕ → Bool) (v : Vec)
    → v.capacity ≡ 0
    → v.len ≡ 0
    → length v.cells ≡ 0
    → vec_resize_and_clean malloc_ok v 0 ≡ fault
unfolding vec_resize_and_clean
resize_and_clean_faults malloc_ok v c l n = ground arith
