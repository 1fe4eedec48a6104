-- ===== src/Tests/Vectors.antt =====
-- The vectors, the child tables and the job table at sample values.
use pennosgrp.Prelude.{
  ℕ, zero, suc, ◌≤◌, ◌<◌, ◌≡◌, refl, ap, false, none, some, [], ◌∷◌, arith, replicate, get_or, ◌≢◌,
  pos, ok,
}
use pennosgrp.Vec.{Vec, vec_insert}
use pennosgrp.Vec.Contents.{IsValid, vec_insert_lem}
use pennosgrp.PcbVec.{PcbVec, pcb_vec_remove_by_pcb}
use pennosgrp.PcbVec.Removal.{removed_code, find_ptr, pcb_vec_remove_by_pcb_lem}
use pennosgrp.Pcb.{Pcb, fresh_pcb}
use pennosgrp.Pcb.Children.{HasTable, child}
use pennosgrp.Jobs.{Jobs, Job, jobs_add, find_empty_slot, first_job, no_job}
use pennosgrp.Jobs.Table.{IsTable, jobs_add_lem}
use pennosgrp.Tests.{all_ok, all_ok_lem, two_items, pcbs, vector, vector-Holds}

two_items-IsValid : IsValid two_items
two_items-IsValid = record { fits = omega arith; allocated = refl; small = omega arith }

vec_insert_lem_example : (w : Vec) × (vec_insert all_ok two_items 1 9 ≡ ok w)
vec_insert_lem_example = (
  (vec_insert_lem all_ok all_ok_lem two_items 1 9 two_items-IsValid (omega arith) (omega arith)).0,
  (vec_insert_lem all_ok all_ok_lem two_items 1 9 two_items-IsValid (omega arith) (omega arith)).1,
)

pcb_vec_remove_by_pcb_lem_example :
    (w : PcbVec) × (pcb_vec_remove_by_pcb vector 12 ≡ ok (removed_code (find_ptr pcbs 12), w))
pcb_vec_remove_by_pcb_lem_example = (
  (pcb_vec_remove_by_pcb_lem vector pcbs 12 vector-Holds).0,
  (pcb_vec_remove_by_pcb_lem vector pcbs 12 vector-Holds).1,
)

-- A PCB with one child.
abbrev parent : Pcb
parent = record (fresh_pcb 0 1 2) { num_child_pids = 1; child_pids = some 5 ∷ replicate 127 none }

all_default : {A : Type 0} → (n i : ℕ) (d : A) → get_or (replicate n d) i d ≡ d
all_default zero i d = refl
all_default (suc n) zero d = refl
all_default (suc n) (suc i) d = all_default n i d

parent-HasTable : HasTable parent
parent-HasTable = record { size = refl; fits = omega arith; used = used; unused = unused }
  where
    used : (i : ℕ) → i < 1 → child parent i ≢ none
    used zero h e = ground (arith, e)
    used (suc i) h e = absurd (omega arith)

    unused : (i : ℕ) → 1 ≤ i → child parent i ≡ none
    unused zero h = absurd (omega arith)
    unused (suc i) h = all_default 127 i none

abbrev no_jobs : Jobs
no_jobs = record { table = replicate 64 no_job; next_jid = 1; fg_index = none }

no_jobs-IsTable : IsTable no_jobs
no_jobs-IsTable = record {
  fresh = λ i. omega (arith, ap (λ (j : Job). j.jid) (all_default 64 i no_job));
  started = omega arith;
}

first_slot : find_empty_slot no_jobs ≡ some 0
unfolding find_empty_slot first_job
first_slot = refl

jobs_add_lem_example : (s : Jobs) × (jobs_add no_jobs 3 (97 ∷ []) false ≡ (pos 1, s))
jobs_add_lem_example = (
  (jobs_add_lem no_jobs 3 (97 ∷ []) false 0 no_jobs-IsTable first_slot).0,
  (jobs_add_lem no_jobs 3 (97 ∷ []) false 0 no_jobs-IsTable first_slot).1,
)
