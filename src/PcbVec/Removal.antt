-- ===== src/PcbVec/Removal.antt =====
-- pcb_vec_seek_index_by_pcb and pcb_vec_remove_by_pcb of src/kernel/pcb_vec.c, on the list of PCBs.
use pennosgrp.Prelude.{
  ℕ, zero, suc, ◌+◌, ◌<◌, ◌≡◌, refl, ap, subst, ◌∙◌, false, Option, none, some, List, [], ◌∷◌, ◌++◌,
  arith, length, get_or, take, drop, ◌==◌, if◌then◌else◌, ok, Option-cases, inl, inr, ℤ, pos,
  negsuc,
}
use pennosgrp.Array.{Cells}
use pennosgrp.PcbVec.{PcbVec, pcb_vec_seek_index_by_pcb, pcb_vec_remove_by_pcb, seek_loop}
use pennosgrp.PcbVec.Contents.{Holds, pcb_vec_erase_lem}

abbrev pub shifted : ℕ → Option ℕ → Option ℕ
shifted n none = none
shifted n (some j) = some (n + j)

-- Where a PCB first stands in a list.
unfoldable pub find_ptr : List ℕ → ℕ → Option ℕ
find_ptr [] target = none
find_ptr (p ∷ ps) target =
    let rest = find_ptr ps target in if p == target then some 0 else shifted 1 rest

-- The list without the first occurrence.
unfoldable pub remove_ptr : List ℕ → ℕ → List ℕ
remove_ptr [] target = []
remove_ptr (p ∷ ps) target = let rest = remove_ptr ps target in if p == target then ps else p ∷ rest

seek_loop_lem :
    (ps : List ℕ) (i : ℕ) (a : Cells) (target : ℕ)
    → ((j : ℕ) → j < length ps → get_or a (i + j) none ≡ some (get_or ps j 0))
    → seek_loop (length ps) i a target ≡ shifted i (find_ptr ps target)
unfolding seek_loop find_ptr
seek_loop_lem [] i a target at = refl
seek_loop_lem (p ∷ ps) i a target at =
    let here : get_or a i none ≡ some p =
      subst (λ n. get_or a n none ≡ some p) (plus_zero i) (at 0 (omega arith)) in
    rw (here, seek_loop)
      (rw (seek_loop_lem ps (i + 1) a target (λ j h. next j ∙ at (suc j) (omega arith)), find_ptr)
        (pick (find_ptr ps target)))
  where
    plus_zero : (i : ℕ) → i + 0 ≡ i
    plus_zero i = omega arith

    next : (j : ℕ) → get_or a (i + 1 + j) none ≡ get_or a (i + suc j) none
    next j = ap (λ n. get_or a n none) (omega arith)

    pick :
        (found : Option ℕ)
        → (if p == target then some i else shifted (i + 1) found)
          ≡ shifted i (if p == target then some 0 else shifted 1 found)
    pick none = ground arith
    pick (some j) = ground arith

find_ptr-bound : (ps : List ℕ) (target i : ℕ) → find_ptr ps target ≡ some i → i < length ps
unfolding find_ptr
find_ptr-bound [] target i e = absurd (ground (arith, e))
find_ptr-bound (p ∷ ps) target i e = elim (Option-cases (find_ptr ps target)) [
  | inl missing ↦ ground (arith, e, missing)
  | inr (j, found) ↦ ground (arith, e, found, find_ptr-bound ps target j found)
]

find_ptr-remove :
    (ps : List ℕ) (target i : ℕ)
    → find_ptr ps target ≡ some i
    → take i ps ++ drop (i + 1) ps ≡ remove_ptr ps target
unfolding find_ptr remove_ptr
find_ptr-remove [] target i e = absurd (ground (arith, e))
find_ptr-remove (p ∷ ps) target zero e = elim (Option-cases (find_ptr ps target)) [
  | inl missing ↦ ground (arith, e, missing)
  | inr (j, found) ↦ ground (arith, e, found)
]
find_ptr-remove (p ∷ ps) target (suc i) e = elim (Option-cases (find_ptr ps target)) [
  | inl missing ↦ absurd (ground (arith, e, missing))
  | inr (j, found) ↦ ground (arith, e, found, find_ptr-remove ps target i)
]

find_ptr-missing :
    (ps : List ℕ) (target : ℕ) → find_ptr ps target ≡ none → remove_ptr ps target ≡ ps
unfolding find_ptr remove_ptr
find_ptr-missing [] target e = refl
find_ptr-missing (p ∷ ps) target e = elim (Option-cases (find_ptr ps target)) [
  | inl missing ↦ ground (arith, e, missing, find_ptr-missing ps target missing)
  | inr (j, found) ↦ absurd (ground (arith, e, found))
]

-- What the searches answer.
abbrev pub index_code : Option ℕ → ℤ
index_code none = negsuc 1
index_code (some i) = pos i

abbrev pub removed_code : Option ℕ → ℤ
removed_code none = negsuc 0
removed_code (some i) = pos 0

-- pcb_vec_seek_index_by_pcb gives the first index of the PCB, -1 for an empty vector and -2 when the
-- PCB is not there.
pub pcb_vec_seek_index_by_pcb_lem :
    (v : PcbVec) (ps : List ℕ) (target : ℕ)
    → Holds v ps
    → pcb_vec_seek_index_by_pcb v target
      ≡ (if v.len == 0 then negsuc 0 else index_code (find_ptr ps target))
unfolding pcb_vec_seek_index_by_pcb
pcb_vec_seek_index_by_pcb_lem v ps target h = rw h.len (
    rw
      (
        seek_loop_lem ps 0 v.pcb_ptr_array target
            (λ j lt. ap (λ n. get_or v.pcb_ptr_array n none) (omega arith) ∙ h.at j lt),
        pcb_vec_seek_index_by_pcb,
      )
      (elim (Option-cases (find_ptr ps target)) [
        | inl missing ↦ ground (arith, missing)
        | inr (i, found) ↦ ground (arith, found)
      ]))

-- pcb_vec_remove_by_pcb takes the PCB out of the vector, at its first place, and keeps the others in
-- order; a PCB that is not there changes nothing and gives -1. It never calls the destructor.
pub pcb_vec_remove_by_pcb_lem :
    (v : PcbVec) (ps : List ℕ) (target : ℕ)
    → Holds v ps
    → (w : PcbVec) × (pcb_vec_remove_by_pcb v target ≡ ok (removed_code (find_ptr ps target), w))
      × Holds w (remove_ptr ps target)
      × (w.freed ≡ v.freed)
unfolding pcb_vec_remove_by_pcb
pcb_vec_remove_by_pcb_lem v ps target h =
    let seek = pcb_vec_seek_index_by_pcb_lem v ps target h in
    elim (Option-cases (find_ptr ps target)) [
      | inl missing ↦
          (v, ground (arith, seek, missing), rw (find_ptr-missing ps target missing) h, refl)
      | inr (i, found) ↦
          let inside = find_ptr-bound ps target i found in
          let (w, runs, held, freed) = pcb_vec_erase_lem v ps i false h inside in
          let at_i : pcb_vec_seek_index_by_pcb v target ≡ pos i =
            ground (arith, seek, found, inside, h.len) in
          (
            w,
            ground (arith, at_i, found, runs),
            rw (← find_ptr-remove ps target i found) held,
            ground (arith, freed),
          )
    ]
