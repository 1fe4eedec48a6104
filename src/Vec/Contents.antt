-- ===== src/Vec/Contents.antt =====
-- What the operations of src/util/Vec.c leave in the vector, cell by cell.
use pennosgrp.Prelude.{
  ℕ, ◌+◌, ◌-◌, ◌^◌, ◌≤◌, ◌<◌, ◌≡◌, refl, true, Bool, Option, none, some, arith, length, get_or, set,
  length-set, get_or-set, ltb, ◌==◌, if◌then◌else◌, ok, Bool-cases, inl, inr,
}
use pennosgrp.Array.{cell_bytes, cells_of, resize_cells, shift_up}
use pennosgrp.Array.Loops.{
  length-resize_cells, get_or-resize_cells, length-shift_up, get_or-shift_up,
}
use pennosgrp.Vec.{
  Vec, new_capacity, vec_resize, vec_ensure_or_double_capacity, vec_push_back, vec_insert,
}
use pennosgrp.Vec.Growth.{new_capacity_bounds}

-- The element at an index, as `v->data[i]`.
abbrev pub at : Vec → ℕ → Option ℕ
at v i = get_or v.cells i none

-- The length is within the capacity, the capacity is what is allocated, and its byte count does
-- not wrap.
pub record IsValid (v : Vec) : Type 0 where
  pub fits : v.len ≤ v.capacity
  pub allocated : length v.cells ≡ v.capacity
  pub small : v.capacity < 2 ^ 61

-- What growing leaves alone.
pub record Grown (v w : Vec) : Type 0 where
  pub len : w.len ≡ v.len
  pub dtor : w.has_dtor ≡ v.has_dtor
  pub destroyed : w.destroyed ≡ v.destroyed
  pub same : (i : ℕ) → i < v.len → at w i ≡ at v i

module _ (malloc_ok : ℕ → Bool) (all : (n : ℕ) → malloc_ok n ≡ true) where
  resize_lem :
      (v : Vec) (cap : ℕ)
      → v.len < cap
      → cap < 2 ^ 61
      → (w : Vec) × (vec_resize malloc_ok v cap ≡ ok w)
        × (w.capacity ≡ cap)
        × (length w.cells ≡ cap)
        × Grown v w
  unfolding vec_resize
  resize_lem v cap h small = (
    record v { cells = resize_cells (cells_of cap) v.cells; capacity = cap },
    ground (arith, all (cell_bytes cap)),
    refl,
    omega (arith, length-resize_cells (cells_of cap) v.cells),
    record {
      len = refl;
      dtor = refl;
      destroyed = refl;
      same = λ i lt. get_or-resize_cells (cells_of cap) v.cells i (omega arith);
    },
  )

  pub ensure_lem :
      (v : Vec) (least : ℕ)
      → IsValid v
      → v.len < (if least == 0 then v.len + 1 else least)
      → (if least == 0 then v.len + 1 else least) < 2 ^ 60
      → (w : Vec) × (vec_ensure_or_double_capacity malloc_ok v least ≡ ok w)
        × IsValid w
        × ((if least == 0 then v.len + 1 else least) ≤ w.capacity)
        × Grown v w
  unfolding vec_ensure_or_double_capacity
  ensure_lem v least valid more small =
      let goal : ℕ = if least == 0 then v.len + 1 else least in
      let bounds = new_capacity_bounds v.capacity goal (omega arith) in
      let cap : new_capacity v.capacity goal < 2 ^ 61 = ground (arith, valid.small) in
      let (w, runs, capacity, cells, grown) =
        resize_lem v (new_capacity v.capacity goal) (omega arith) cap in
      (
        w,
        runs,
        record { fits = omega (arith, grown.len); allocated = omega arith; small = omega arith },
        omega arith,
        grown,
      )

  -- While memory does not run out, and for fewer than 2^59 elements, vec_push_back keeps the vector valid
  -- and every element, and appends the new one.
  pub vec_push_back_lem :
      (v : Vec) (x : ℕ)
      → IsValid v
      → v.len < 2 ^ 59
      → (w : Vec) × (vec_push_back malloc_ok v x ≡ ok w)
        × IsValid w
        × (w.len ≡ v.len + 1)
        × (w.destroyed ≡ v.destroyed)
        × ((i : ℕ) → i ≤ v.len → at w i ≡ (if ltb i v.len then at v i else some x))
  unfolding vec_push_back
  vec_push_back_lem v x valid small =
      let (w, runs, ok_w, room, grown) = ensure_lem v 0 valid (omega arith) (omega arith) in
      (
        record w { cells = set w.cells w.len (some x); len = w.len + 1 },
        rw runs refl,
        record {
          fits = omega (arith, grown.len);
          allocated = omega (arith, length-set w.cells w.len (some x), ok_w.allocated);
          small = ok_w.small;
        },
        omega (arith, grown.len),
        grown.destroyed,
        λ i le. ground (
          arith,
          ok_w.allocated,
          grown.len,
          grown.same i,
          get_or-set w.cells w.len i (some x) none,
        ),
      )

  -- While memory does not run out, and for fewer than 2^59 elements, vec_insert up to the end keeps the
  -- vector valid, moves every element from the index on up by one, and puts the new one at the index.
  pub vec_insert_lem :
      (v : Vec) (index x : ℕ)
      → IsValid v
      → v.len < 2 ^ 59
      → index ≤ v.len
      → (w : Vec) × (vec_insert malloc_ok v index x ≡ ok w)
        × IsValid w
        × (w.len ≡ v.len + 1)
        × ((i : ℕ)
            → i ≤ v.len
            → at w i
              ≡ (if ltb i index then at v i else if i == index then some x else at v (i - 1)))
  unfolding vec_insert
  vec_insert_lem v index x valid small le = elim (Bool-cases (index == v.len)) [
    | inl last ↦
        let (w, runs, ok_w, len, _, at_w) = vec_push_back_lem v x valid small in
        (w, ground (arith, runs), ok_w, len, λ i h. ground (arith, at_w i))
    | inr inside ↦
        let (w, runs, ok_w, room, grown) = ensure_lem v 0 valid (omega arith) (omega arith) in
        let a = shift_up (v.len - index) index w.cells in
        let in_range : v.len < length w.cells = omega (arith, ok_w.allocated) in
        (
          record w { cells = set a index (some x); len = w.len + 1 },
          rw (inside, runs) (ground arith),
          record {
            fits = omega (arith, grown.len);
            allocated = omega (
              arith,
              length-set a index (some x),
              length-shift_up (v.len - index) index w.cells,
              ok_w.allocated,
            );
            small = ok_w.small;
          },
          omega (arith, grown.len),
          λ i h. ground (
            arith,
            in_range,
            length-shift_up (v.len - index) index w.cells,
            get_or-shift_up (v.len - index) index w.cells i,
            get_or-set a index i (some x) none,
            grown.same i,
            grown.same (i - 1),
          ),
        )
  ]
