-- ===== src/PcbVec/Contents.antt =====
-- The vector of src/kernel/pcb_vec.c as the list of the PCBs it holds.
use pennosgrp.Prelude.{
  ℕ, suc, ◌+◌, ◌-◌, ◌*◌, ◌^◌, ◌≤◌, ◌<◌, ◌≡◌, refl, ap, ◌∙◌, true, false, Bool, ◌&&◌, none, some,
  List, [], ◌∷◌, ◌++◌, arith, length, get_or, set, take, drop, length-set, get_or-set, length-take,
  length-drop, length-append, get_or-append, get_or-take, get_or-drop, ltb, ◌==◌, if◌then◌else◌, ok,
  Bool-cases, inl, inr, ◌>>=◌,
}
use pennosgrp.Array.{cell_bytes, cells_of, resize_cells, shift_up, shift_down}
use pennosgrp.Array.Loops.{
  length-resize_cells, get_or-resize_cells, length-shift_up, length-shift_down, get_or-shift_up,
  get_or-shift_down,
}
use pennosgrp.PcbVec.{
  PcbVec, store, make_room, pcb_vec_resize, pcb_vec_push_back, pcb_vec_pop_back, pcb_vec_insert,
  pcb_vec_erase,
}

-- The vector holds exactly the PCBs `ps`, in their order, in cells that it owns.
pub record Holds (v : PcbVec) (ps : List ℕ) : Type 0 where
  pub len : v.len ≡ length ps
  pub fits : v.len ≤ v.capacity
  pub allocated : length v.pcb_ptr_array ≡ v.capacity
  pub at : (i : ℕ) → i < length ps → get_or v.pcb_ptr_array i none ≡ some (get_or ps i 0)

module _ (alloc_ok : ℕ → Bool) (all : (n : ℕ) → alloc_ok n ≡ true) where
  resize_lem :
      (v : PcbVec) (ps : List ℕ) (cap : ℕ)
      → Holds v ps
      → v.len < cap
      → cap < 2 ^ 61
      → (w : PcbVec) × (pcb_vec_resize alloc_ok v cap ≡ ok w)
        × Holds w ps
        × (w.len < w.capacity)
        × (w.freed ≡ v.freed)
  unfolding pcb_vec_resize
  resize_lem v ps cap h more small = (
    record v { pcb_ptr_array = resize_cells (cells_of cap) v.pcb_ptr_array; capacity = cap },
    ground (arith, all (cell_bytes cap)),
    record {
      len = h.len;
      fits = omega arith;
      allocated = omega (arith, length-resize_cells (cells_of cap) v.pcb_ptr_array);
      at = λ i lt.
          get_or-resize_cells (cells_of cap) v.pcb_ptr_array i (omega (arith, h.len)) ∙ h.at i lt;
    },
    more,
    refl,
  )

  make_room_lem :
      (v : PcbVec) (ps : List ℕ)
      → Holds v ps
      → v.len < 2 ^ 59
      → (w : PcbVec) × (make_room alloc_ok v ≡ ok w)
        × Holds w ps
        × (w.len < w.capacity)
        × (w.freed ≡ v.freed)
  unfolding make_room
  make_room_lem v ps h small = elim (Bool-cases (v.capacity == 0)) [
    | inl empty ↦
        let (w, runs, held, room, freed) =
          resize_lem v ps 1 h (ground (arith, h.fits)) (omega arith) in
        (w, rw empty runs, held, room, freed)
    | inr some_room ↦ elim (Bool-cases (v.len == v.capacity)) [
      | inl full ↦
          let (w, runs, held, room, freed) =
            resize_lem v ps (2 * v.capacity) h (ground arith) (ground arith) in
          (w, rw (some_room, full) runs, held, room, freed)
      | inr free ↦ (v, rw (some_room, free) refl, h, ground (arith, h.fits), refl)
    ]
  ]

  -- pcb_vec_push_back appends the PCB.
  pub pcb_vec_push_back_lem :
      (v : PcbVec) (ps : List ℕ) (x : ℕ)
      → Holds v ps
      → v.len < 2 ^ 59
      → (w : PcbVec) × (pcb_vec_push_back alloc_ok v x ≡ ok w)
        × Holds w (ps ++ x ∷ [])
        × (w.freed ≡ v.freed)
  unfolding pcb_vec_push_back
  pcb_vec_push_back_lem v ps x h small =
      let (w, runs, held, room, freed) = make_room_lem v ps h small in
      let stored : store w w.len x
          ≡ ok (record w { pcb_ptr_array = set w.pcb_ptr_array w.len (some x) }) =
        ground (arith, held.allocated) in
      (
        record w { pcb_ptr_array = set w.pcb_ptr_array w.len (some x); len = w.len + 1 },
        rw (runs, ◌>>=◌) (rw (stored, ◌>>=◌) refl),
        record {
          len = omega (arith, length-append ps (x ∷ []), held.len);
          fits = omega arith;
          allocated = omega (arith, length-set w.pcb_ptr_array w.len (some x), held.allocated);
          at = λ i lt. ground (
            arith,
            length-append ps (x ∷ []),
            held.len,
            held.allocated,
            held.at i,
            get_or-set w.pcb_ptr_array w.len i (some x) none,
            get_or-append ps (x ∷ []) i 0,
          );
        },
        freed,
      )

  -- While memory does not run out, and for fewer than 2^59 PCBs, pcb_vec_insert up to the end puts the PCB
  -- in front of the one at the index, and keeps their order.
  pub pcb_vec_insert_lem :
      (v : PcbVec) (ps : List ℕ) (index x : ℕ)
      → Holds v ps
      → v.len < 2 ^ 59
      → index ≤ length ps
      → (w : PcbVec) × (pcb_vec_insert alloc_ok v index x ≡ ok w)
        × Holds w (take index ps ++ x ∷ drop index ps)
        × (w.freed ≡ v.freed)
  unfolding pcb_vec_insert
  pcb_vec_insert_lem v ps index x h small le =
      let (w, runs, held, room, freed) = make_room_lem v ps h small in
      let a = shift_up (v.len - index) index w.pcb_ptr_array in
      let len_a : length a ≡ length w.pcb_ptr_array =
        length-shift_up (v.len - index) index w.pcb_ptr_array in
      let stored : store (record w { pcb_ptr_array = a }) index x
          ≡ ok (record w { pcb_ptr_array = set a index (some x) }) =
        ground (arith, held.allocated, held.len) in
      let inside : ltb v.len index ≡ false = ground (arith, h.len) in
      (
        record w { pcb_ptr_array = set a index (some x); len = w.len + 1 },
        rw (inside, runs, ◌>>=◌) (rw (stored, ◌>>=◌) refl),
        record {
          len = omega (
            arith,
            length-append (take index ps) (x ∷ drop index ps),
            length-take index ps le,
            length-drop index ps,
            held.len,
          );
          fits = omega arith;
          allocated = omega (arith, length-set a index (some x), held.allocated);
          at = λ i lt. ground (
            arith,
            length-append (take index ps) (x ∷ drop index ps),
            length-take index ps le,
            length-drop index ps,
            held.len,
            h.len,
            held.allocated,
            held.at i,
            held.at (i - 1),
            get_or-set a index i (some x) none,
            get_or-shift_up (v.len - index) index w.pcb_ptr_array i,
            get_or-append (take index ps) (x ∷ drop index ps) i 0,
            get_or-take index ps i 0,
            behind i,
          );
        },
        freed,
      )
    where
      behind : (i : ℕ) → index < i → get_or (x ∷ drop index ps) (i - index) 0 ≡ get_or ps (i - 1) 0
      behind i h =
          ap (λ n. get_or (x ∷ drop index ps) n 0)
            (let e : i - index ≡ suc (i - index - 1) = omega arith in e)
          ∙ get_or-drop index ps (i - index - 1) 0
          ∙ ap (λ n. get_or ps n 0) (omega arith)

get_or-without :
    (ps : List ℕ) (index i : ℕ)
    → index ≤ length ps
    → get_or (take index ps ++ drop (index + 1) ps) i 0
      ≡ (if ltb i index then get_or ps i 0 else get_or ps (i + 1) 0)
get_or-without ps index i le =
    get_or-append (take index ps) (drop (index + 1) ps) i 0
    ∙ rw (length-take index ps le) (ground (arith, get_or-take index ps i 0, behind))
  where
    behind : index ≤ i → get_or (drop (index + 1) ps) (i - index) 0 ≡ get_or ps (i + 1) 0
    behind h = get_or-drop (index + 1) ps (i - index) 0 ∙ ap (λ n. get_or ps n 0) (omega arith)

-- pcb_vec_erase takes out the PCB at the index, keeps the order of the others, and hands the PCB to
-- the destructor exactly if there is one and the caller asks for it.
pub pcb_vec_erase_lem :
    (v : PcbVec) (ps : List ℕ) (index : ℕ) (is_destroy : Bool)
    → Holds v ps
    → index < length ps
    → (w : PcbVec) × (pcb_vec_erase v index is_destroy ≡ ok w)
      × Holds w (take index ps ++ drop (index + 1) ps)
      × (w.freed ≡ (
          if v.has_dtor && is_destroy then v.freed ++ some (get_or ps index 0) ∷ [] else v.freed))
unfolding pcb_vec_erase
pcb_vec_erase_lem v ps index is_destroy h lt =
    let k : ℕ = v.len - 1 - index in
    let small : index ≤ length ps = omega arith in
    let both = length-append (take index ps) (drop (index + 1) ps) in
    let front = length-take index ps small in
    let back = length-drop (index + 1) ps in
    (
      record v {
        pcb_ptr_array = shift_down k index v.pcb_ptr_array;
        len = v.len - 1;
        freed =
            if v.has_dtor && is_destroy then v.freed ++ some (get_or ps index 0) ∷ [] else v.freed;
      },
      ground (arith, h.len, h.at index lt),
      record {
        len = omega (arith, both, front, back, h.len);
        fits = omega (arith, h.fits);
        allocated = omega (arith, length-shift_down k index v.pcb_ptr_array, h.allocated);
        at = λ i below. ground (
          arith,
          both,
          front,
          back,
          h.len,
          h.allocated,
          h.fits,
          h.at i,
          h.at (i + 1),
          get_or-shift_down k index v.pcb_ptr_array i,
          get_or-without ps index i small,
        );
      },
      refl,
    )

-- pcb_vec_pop_back of a vector that is not empty gives the last PCB and leaves the others.
pub pcb_vec_pop_back_lem :
    (v : PcbVec) (ps : List ℕ) (x : ℕ)
    → Holds v (ps ++ x ∷ [])
    → let (popped, w) = pcb_vec_pop_back v in (popped ≡ some x) × Holds w ps
unfolding pcb_vec_pop_back
pcb_vec_pop_back_lem v ps x h =
    let both = length-append ps (x ∷ []) in
    (
      ground (arith, both, h.len, h.at (v.len - 1), get_or-append ps (x ∷ []) (v.len - 1) 0),
      ground (arith, h.len, both, rest),
    )
  where
    rest :
        Holds
          (record v { pcb_ptr_array = set v.pcb_ptr_array (v.len - 1) (some 0); len = v.len - 1 })
          ps
    rest =
        let both = length-append ps (x ∷ []) in
        record {
          len = omega (arith, both, h.len);
          fits = omega (arith, h.fits);
          allocated = omega (arith, length-set v.pcb_ptr_array (v.len - 1) (some 0), h.allocated);
          at = λ i lt. ground (
            arith,
            both,
            h.len,
            h.fits,
            h.allocated,
            h.at i,
            get_or-append ps (x ∷ []) i 0,
            get_or-set v.pcb_ptr_array (v.len - 1) i (some 0) none,
          );
        }
