-- ===== src/Kernel/Seek.antt =====
-- The searches of src/kernel/pcb_vec.c over the PCBs that the vector holds, as searches of a list.
use pennosgrp.Prelude.{
  ℕ, suc, ◌+◌, ◌<◌, ◌≡◌, refl, ap, subst, ◌∙◌, true, false, Bool, Option, none, some, List, [], ◌∷◌,
  arith, length, get_or, ◌==◌, if◌then◌else◌, if_false, ok, ◌>>=◌,
}
use pennosgrp.Pcb.{Ptr, Pcb, holds, fresh_pcb}
use pennosgrp.PcbQueue.{Machine, load}
use pennosgrp.PcbVec.{PcbVec}
use pennosgrp.PcbVec.Contents.{Holds}
use pennosgrp.Kernel.{ptr_at, seek_pcb, pcb_vec_seek_pcb_by_pid, pcb_vec_seek_pcb_by_thrd}

-- The PCB at a pointer.
unfoldable pub pcb_of : Machine → Ptr → Pcb
pcb_of m p = elim (m.heap p) [ none ↦ fresh_pcb 0 0 0 | some c ↦ c ]

-- Every pointer of the list is a PCB on the heap.
unfoldable pub AllLive : Machine → List ℕ → Type 0
AllLive m ps = (i : ℕ) → i < length ps → load m (get_or ps i 0) ≡ ok (pcb_of m (get_or ps i 0))

pub AllLive-tail : (m : Machine) (p : ℕ) (ps : List ℕ) → AllLive m (p ∷ ps) → AllLive m ps
unfolding AllLive
AllLive-tail m p ps live i lt = live (suc i) (omega arith)

-- The first PCB that passes the test, or NULL.
unfoldable pub first_pcb : (Pcb → Bool) → Machine → List ℕ → Ptr
first_pcb test m [] = 0
first_pcb test m (p ∷ ps) = let rest = first_pcb test m ps in if test (pcb_of m p) then p else rest

pub next_cell :
    (v : PcbVec) (i j : ℕ)
    → get_or v.pcb_ptr_array (i + 1 + j) none ≡ get_or v.pcb_ptr_array (i + suc j) none
next_cell v i j = ap (λ n. get_or v.pcb_ptr_array n none) (omega arith)

pub first_cell :
    (v : PcbVec) (i p : ℕ) → get_or v.pcb_ptr_array (i + 0) none ≡ some p → ptr_at v i ≡ ok p
first_cell v i p e =
    rw
      (
        subst (λ n. get_or v.pcb_ptr_array n none ≡ some p) (let z : i + 0 ≡ i = omega arith in z)
            e,
        ptr_at,
      )
      refl

seek_pcb_lem :
    (test : Pcb → Bool) (m : Machine) (v : PcbVec) (ps : List ℕ) (i : ℕ)
    → ((j : ℕ) → j < length ps → get_or v.pcb_ptr_array (i + j) none ≡ some (get_or ps j 0))
    → AllLive m ps
    → seek_pcb test (length ps) i m v ≡ ok (first_pcb test m ps)
unfolding seek_pcb first_pcb AllLive
seek_pcb_lem test m v [] i at live = refl
seek_pcb_lem test m v (p ∷ ps) i at live =
    rw (first_cell v i p (at 0 (omega arith)), ◌>>=◌)
      (rw (live 0 (omega arith), ◌>>=◌)
        (rw
          (seek_pcb_lem test m v ps (i + 1) (λ j lt. next_cell v i j ∙ at (suc j) (omega arith))
            (AllLive-tail m p ps live))
          (pick (test (pcb_of m p)) (first_pcb test m ps))))
  where
    pick : (b : Bool) (q : ℕ) → (if b then ok p else ok q) ≡ ok (if b then p else q)
    pick true q = refl
    pick false q = refl

seek_all :
    (test : Pcb → Bool) (m : Machine) (v : PcbVec) (ps : List ℕ)
    → Holds v ps
    → AllLive m ps
    → (if v.len == 0 then ok 0 else seek_pcb test v.len 0 m v) ≡ ok (first_pcb test m ps)
unfolding first_pcb
seek_all test m v [] h live = ap (λ (n : ℕ). if n == 0 then ok 0 else seek_pcb test n 0 m v) h.len
seek_all test m v (p ∷ ps) h live =
    ap (λ (n : ℕ). if n == 0 then ok 0 else seek_pcb test n 0 m v) h.len
    ∙ if_false (length (p ∷ ps) == 0) (ok 0) (seek_pcb test (length (p ∷ ps)) 0 m v) (ground arith)
    ∙ seek_pcb_lem test m v (p ∷ ps) 0
        (λ j lt. ap (λ n. get_or v.pcb_ptr_array n none) (omega arith) ∙ h.at j lt) live

-- The search by pid gives the first PCB of the vector with that pid, and NULL when none has it.
pub pcb_vec_seek_pcb_by_pid_lem :
    (m : Machine) (v : PcbVec) (ps : List ℕ) (pid : Option ℕ)
    → Holds v ps
    → AllLive m ps
    → pcb_vec_seek_pcb_by_pid m v pid ≡ ok (first_pcb (λ c. holds pid c.pid) m ps)
unfolding pcb_vec_seek_pcb_by_pid
pcb_vec_seek_pcb_by_pid_lem m v ps pid h live = seek_all (λ c. holds pid c.pid) m v ps h live

pub pcb_vec_seek_pcb_by_thrd_lem :
    (m : Machine) (v : PcbVec) (ps : List ℕ) (thrd : ℕ)
    → Holds v ps
    → AllLive m ps
    → pcb_vec_seek_pcb_by_thrd m v thrd ≡ ok (first_pcb (λ c. c.thrd == thrd) m ps)
unfolding pcb_vec_seek_pcb_by_thrd
pcb_vec_seek_pcb_by_thrd_lem m v ps thrd h live = seek_all (λ c. c.thrd == thrd) m v ps h live
