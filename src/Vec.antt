-- ===== src/Vec.antt =====
-- The pointer vector of src/util/Vec.c and src/util/Vec.h. A `ptr_t` is a number, and what
-- the destructor was called on is recorded, oldest call first. `malloc_ok` says of a byte count
-- whether malloc or realloc succeeds.
mod Growth
pub mod Contents
pub mod Access
use pennosgrp.Prelude.{
  ℕ, zero, suc, ◌+◌, ◌-◌, ◌*◌, ◌/◌, ◌^◌, Bool, true, false, not, ◌&&◌, Option, none, some, List, [],
  ◌∷◌, ◌++◌, length, get_or, set, ltb, leb, ◌==◌, if◌then◌else◌, Outcome, ok, panic, fault, ◌>>=◌,
}
use pennosgrp.Array.{
  Cells, size_add, size_sub, cell_bytes, cells_of, resize_cells, shift_up, shift_down, clear_cells,
}

pub record Vec : Type 0 where
  pub cells : Cells
  pub len : ℕ
  pub capacity : ℕ
  pub has_dtor : Bool
  pub destroyed : Cells

-- SIZE_T_MAX
abbrev pub size_max : ℕ
size_max = 2 ^ 64 - 1

-- The call of `ele_dtor_fn`, if there is one.
abbrev pub destroy_ele : Vec → Option ℕ → Vec
destroy_ele v x = if v.has_dtor then record v { destroyed = v.destroyed ++ x ∷ [] } else v

-- while (new_capacity < min && new_capacity <= SIZE_T_MAX / 2) new_capacity *= 2;
-- A positive capacity passes SIZE_T_MAX / 2 within 63 rounds.
pub double_until : ℕ → ℕ → ℕ → ℕ
double_until zero c least = c
double_until (suc f) c least =
    let rest = double_until f (c * 2) least in
    if ltb c least && leb c (size_max / 2) then rest else c

-- The capacity that vec_ensure_or_double_capacity asks for.
pub new_capacity : ℕ → ℕ → ℕ
new_capacity old least =
    let doubled = double_until 64 (if old == 0 then 1 else old) least in
    if ltb doubled least then least else doubled

pub vec_initialize_unused_capacity : Vec → ℕ → Outcome Vec
vec_initialize_unused_capacity v up_to =
    let top = size_sub v.capacity 1 in
    let last = if ltb up_to top then up_to else top in
    if ltb last v.len
    then ok v
    else if ltb last (length v.cells)
    then ok (record v { cells = clear_cells (last + 1 - v.len) v.len v.cells })
    else fault

pub vec_get : Vec → ℕ → Outcome (Option ℕ)
vec_get v index = if leb v.len index then panic else ok (get_or v.cells index none)

pub vec_pop_back : Vec → Bool × Vec
vec_pop_back v = if v.len == 0 then (false, v) else (true, record v { len = v.len - 1 })

pub vec_erase : Vec → ℕ → Outcome Vec
vec_erase v index =
    if leb v.len index
    then panic
    else let v1 = destroy_ele v (get_or v.cells index none) in
      ok (record v1 { cells = shift_down (v.len - 1 - index) index v1.cells; len = v.len - 1 })

destroy_all : ℕ → ℕ → Vec → Vec
destroy_all zero i v = v
destroy_all (suc k) i v =
    destroy_all k (i + 1) (record v { destroyed = v.destroyed ++ get_or v.cells i none ∷ [] })

pub vec_clear : Vec → Vec
unfolding destroy_all
vec_clear v = record (if v.has_dtor then destroy_all v.len 0 v else v) { len = 0 }

pub vec_destroy : Vec → Vec
unfolding vec_clear
vec_destroy v = record (vec_clear v) { cells = []; capacity = 0 }

module _ (malloc_ok : ℕ → Bool) where
  pub vec_new : ℕ → Bool → Outcome Vec
  vec_new cap dtor =
      if cap == 0
      then ok (record { cells = []; len = 0; capacity = 0; has_dtor = dtor; destroyed = [] })
      else if malloc_ok (cell_bytes cap)
      then ok (record {
        cells = resize_cells (cells_of cap) [];
        len = 0;
        capacity = cap;
        has_dtor = dtor;
        destroyed = [];
      })
      else panic

  pub vec_resize : Vec → ℕ → Outcome Vec
  vec_resize v cap =
      if leb cap v.len
      then ok v
      else if malloc_ok (cell_bytes cap)
      then ok (record v { cells = resize_cells (cells_of cap) v.cells; capacity = cap })
      else panic

  pub vec_ensure_or_double_capacity : Vec → ℕ → Outcome Vec
  unfolding vec_resize new_capacity
  vec_ensure_or_double_capacity v least =
      vec_resize v (new_capacity v.capacity (if least == 0 then v.len + 1 else least))

  pub vec_push_back : Vec → ℕ → Outcome Vec
  unfolding vec_ensure_or_double_capacity
  vec_push_back v x = do
    v1 ← vec_ensure_or_double_capacity v 0
    ok (record v1 { cells = set v1.cells v1.len (some x); len = v1.len + 1 })

  pub vec_insert : Vec → ℕ → ℕ → Outcome Vec
  unfolding vec_push_back
  vec_insert v index x =
      if ltb v.len index then panic else if index == v.len then vec_push_back v x else do
        v1 ← vec_ensure_or_double_capacity v 0
        let a = shift_up (v.len - index) index v1.cells
        ok (record v1 { cells = set a index (some x); len = v1.len + 1 })

  pub vec_resize_and_clean : Vec → ℕ → Outcome Vec
  unfolding vec_resize vec_initialize_unused_capacity
  vec_resize_and_clean v cap = do
    v1 ← vec_resize v cap
    vec_initialize_unused_capacity v1 (size_sub cap 1)

  -- Past the end, `force` grows the vector, and the cells up to `index` become NULL.
  pub vec_set_helper : Vec → ℕ → ℕ → Bool → Outcome Vec
  unfolding vec_ensure_or_double_capacity vec_initialize_unused_capacity
  vec_set_helper v index x force =
      if leb v.len index
      then (if not force then panic else do
        v1 ← vec_ensure_or_double_capacity v (size_add index 1)
        v2 ← vec_initialize_unused_capacity v1 (size_sub index 1)
        ok (record v2 { cells = set v2.cells index (some x); len = size_add index 1 }))
      else let v1 = destroy_ele v (get_or v.cells index none) in
        ok (record v1 { cells = set v1.cells index (some x) })

  pub vec_set : Vec → ℕ → ℕ → Outcome Vec
  unfolding vec_set_helper
  vec_set v index x = vec_set_helper v index x false

  pub vec_set_force : Vec → ℕ → ℕ → Outcome Vec
  unfolding vec_set_helper
  vec_set_force v index x = vec_set_helper v index x true
