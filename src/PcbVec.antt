-- ===== src/PcbVec.antt =====
-- The vector of PCB pointers of src/kernel/pcb_vec.c and src/kernel/pcb_vec.h. `freed` records what
-- the destructor was called on, oldest first, and `alloc_ok` says of a byte count whether calloc or
-- realloc succeeds. The searches that look into the PCBs stand with the kernel's heap.
pub mod Contents
pub mod Removal
use pennosgrp.Prelude.{
  ℕ, zero, suc, ◌+◌, ◌-◌, ◌*◌, ◌^◌, Bool, true, false, ◌&&◌, Option, none, some, List, [], ◌∷◌,
  ◌++◌, length, get_or, set, replicate, ltb, leb, ◌==◌, if◌then◌else◌, ℤ, pos, negsuc, Outcome, ok,
  panic, fault, ◌>>=◌,
}
use pennosgrp.Array.{Cells, cell_bytes, cells_of, resize_cells, shift_up, shift_down}

pub record PcbVec : Type 0 where
  pub pcb_ptr_array : Cells
  pub len : ℕ
  pub capacity : ℕ
  pub has_dtor : Bool
  pub freed : Cells

abbrev pub dtor_fn : PcbVec → Option ℕ → PcbVec
dtor_fn v x = if v.has_dtor then record v { freed = v.freed ++ x ∷ [] } else v

-- a[i] = x, which needs a cell there.
abbrev pub store : PcbVec → ℕ → ℕ → Outcome PcbVec
store v i x =
    if ltb i (length v.pcb_ptr_array)
    then ok (record v { pcb_ptr_array = set v.pcb_ptr_array i (some x) })
    else fault

clear_loop : ℕ → ℕ → PcbVec → PcbVec
clear_loop zero i v = v
clear_loop (suc k) i v =
    clear_loop k (i + 1) (record v { freed = v.freed ++ get_or v.pcb_ptr_array i none ∷ [] })

pub pcb_vec_clear : PcbVec → PcbVec
unfolding clear_loop
pcb_vec_clear v = record (if v.has_dtor then clear_loop v.len 0 v else v) { len = 0 }

pub pcb_vec_destroy : PcbVec → PcbVec
unfolding pcb_vec_clear
pcb_vec_destroy v = record (pcb_vec_clear v) { pcb_ptr_array = []; capacity = 0 }

-- An empty vector gives NULL.
pub pcb_vec_pop_back : PcbVec → Option ℕ × PcbVec
pcb_vec_pop_back v = if v.len == 0 then (some 0, v) else (
  get_or v.pcb_ptr_array (v.len - 1) none,
  record v { pcb_ptr_array = set v.pcb_ptr_array (v.len - 1) (some 0); len = v.len - 1 },
)

pub pcb_vec_get : PcbVec → ℕ → Outcome (Option ℕ)
pcb_vec_get v index = if leb v.len index then panic else ok (get_or v.pcb_ptr_array index none)

pub pcb_vec_set : PcbVec → ℕ → ℕ → Outcome PcbVec
pcb_vec_set v index x =
    if leb v.len index then panic else store (dtor_fn v (get_or v.pcb_ptr_array index none)) index x

pub pcb_vec_erase : PcbVec → ℕ → Bool → Outcome PcbVec
pcb_vec_erase v index is_destroy =
    if leb v.len index
    then panic
    else let v1 =
        if v.has_dtor && is_destroy then dtor_fn v (get_or v.pcb_ptr_array index none) else v in
      ok (record v1 {
        pcb_ptr_array = shift_down (v.len - 1 - index) index v1.pcb_ptr_array;
        len = v.len - 1;
      })

-- for (index = 0; index < len; index++) if (a[index] == target) return index;
pub seek_loop : ℕ → ℕ → Cells → ℕ → Option ℕ
seek_loop zero i a target = none
seek_loop (suc k) i a target =
    let rest = seek_loop k (i + 1) a target in
    elim (get_or a i none) [ none ↦ rest | some p ↦ if p == target then some i else rest ]

pub pcb_vec_seek_index_by_pcb : PcbVec → ℕ → ℤ
unfolding seek_loop
pcb_vec_seek_index_by_pcb v target =
    if v.len == 0
    then negsuc 0
    else elim (seek_loop v.len 0 v.pcb_ptr_array target) [ none ↦ negsuc 1 | some i ↦ pos i ]

pub pcb_vec_remove_by_pcb : PcbVec → ℕ → Outcome (ℤ × PcbVec)
unfolding pcb_vec_erase
pcb_vec_remove_by_pcb v target = elim (pcb_vec_seek_index_by_pcb v target) [
  | negsuc n ↦ ok (negsuc 0, v)
  | pos index ↦ do v1 ← pcb_vec_erase v index false; ok (pos 0, v1)
]

module _ (alloc_ok : ℕ → Bool) where
  -- calloc fills the cells with NULL.
  pub pcb_vec_new : ℕ → Bool → Outcome PcbVec
  pcb_vec_new cap dtor =
      if cap == 0
      then ok (record { pcb_ptr_array = []; len = 0; capacity = 0; has_dtor = dtor; freed = [] })
      else if alloc_ok (cap * 8)
      then ok (record {
        pcb_ptr_array = replicate cap (some 0);
        len = 0;
        capacity = cap;
        has_dtor = dtor;
        freed = [];
      })
      else panic

  pub pcb_vec_resize : PcbVec → ℕ → Outcome PcbVec
  pcb_vec_resize v cap =
      if leb cap v.len
      then ok v
      else if alloc_ok (cell_bytes cap)
      then ok
          (record v { pcb_ptr_array = resize_cells (cells_of cap) v.pcb_ptr_array; capacity = cap })
      else panic

  -- The capacity step that pcb_vec_push_back and pcb_vec_insert begin with.
  pub make_room : PcbVec → Outcome PcbVec
  unfolding pcb_vec_resize
  make_room v =
      if v.capacity == 0
      then pcb_vec_resize v 1
      else if v.len == v.capacity
      then pcb_vec_resize v (2 * v.capacity)
      else ok v

  pub pcb_vec_push_back : PcbVec → ℕ → Outcome PcbVec
  pcb_vec_push_back v x = do
    v1 ← make_room v
    v2 ← store v1 v1.len x
    ok (record v2 { len = v2.len + 1 })

  -- The index is a valid position, so the int loop variable never passes below it.
  pub pcb_vec_insert : PcbVec → ℕ → ℕ → Outcome PcbVec
  pcb_vec_insert v index x = if ltb v.len index then panic else do
    v1 ← make_room v
    v2 ←
        store (record v1 { pcb_ptr_array = shift_up (v.len - index) index v1.pcb_ptr_array }) index
          x
    ok (record v2 { len = v2.len + 1 })
