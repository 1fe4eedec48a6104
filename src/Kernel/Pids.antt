-- ===== src/Kernel/Pids.antt =====
-- get_next_free_pid and k_proc_create of src/kernel/kernel_syscall.c.
use pennosgrp.Prelude.{
  ℕ, zero, suc, ◌+◌, ◌≤◌, ◌<◌, ◌≡◌, refl, ap, ◌∙◌, true, false, Bool, none, some, List, [], ◌∷◌,
  arith, length, get_or, leb, ◌==◌, if◌then◌else◌, ok, Bool-cases, inl, inr, ◌>>=◌,
}
use pennosgrp.PcbQueue.{Machine}
use pennosgrp.PcbVec.{PcbVec}
use pennosgrp.PcbVec.Contents.{Holds}
use pennosgrp.Kernel.{pid_used, free_pid_loop, get_next_free_pid}
use pennosgrp.Kernel.Seek.{pcb_of, AllLive, AllLive-tail, next_cell, first_cell}

-- Some PCB of the list has the pid.
unfoldable pub has_pid : Machine → List ℕ → ℕ → Bool
has_pid m [] pid = false
has_pid m (p ∷ ps) pid =
    let rest = has_pid m ps pid in if (pcb_of m p).pid == pid then true else rest

pid_used_loop :
    (m : Machine) (v : PcbVec) (ps : List ℕ) (i pid : ℕ)
    → ((j : ℕ) → j < length ps → get_or v.pcb_ptr_array (i + j) none ≡ some (get_or ps j 0))
    → AllLive m ps
    → pid_used (length ps) i m v pid ≡ ok (has_pid m ps pid)
unfolding pid_used has_pid AllLive
pid_used_loop m v [] i pid at live = refl
pid_used_loop m v (p ∷ ps) i pid at live =
    rw (first_cell v i p (at 0 (omega arith)), ◌>>=◌)
      (rw (live 0 (omega arith), ◌>>=◌)
        (rw
          (pid_used_loop m v ps (i + 1) pid (λ j lt. next_cell v i j ∙ at (suc j) (omega arith))
            (AllLive-tail m p ps live))
          (pick ((pcb_of m p).pid == pid) (has_pid m ps pid))))
  where
    pick : (b : Bool) (q : Bool) → (if b then ok true else ok q) ≡ ok (if b then true else q)
    pick true q = refl
    pick false q = refl

-- How many of the PCBs have a pid from `from` on: each round of the loop passes one of them.
count_from : Machine → List ℕ → ℕ → ℕ
count_from m [] from = 0
count_from m (p ∷ ps) from =
    let rest = count_from m ps from in if leb from (pcb_of m p).pid then suc rest else rest

count_from-bound : (m : Machine) (ps : List ℕ) (from : ℕ) → count_from m ps from ≤ length ps
unfolding count_from
count_from-bound m [] from = omega arith
count_from-bound m (p ∷ ps) from = ground (arith, count_from-bound m ps from)

count_from-step :
    (m : Machine) (ps : List ℕ) (from : ℕ) → count_from m ps (from + 1) ≤ count_from m ps from
unfolding count_from
count_from-step m [] from = omega arith
count_from-step m (p ∷ ps) from = ground (arith, count_from-step m ps from)

count_from-used :
    (m : Machine) (ps : List ℕ) (from : ℕ)
    → has_pid m ps from ≡ true
    → count_from m ps (from + 1) < count_from m ps from
unfolding count_from has_pid
count_from-used m [] from used = absurd (ground arith)
count_from-used m (p ∷ ps) from used =
    ground (arith, count_from-step m ps from, count_from-used m ps from)

free_pid_loop_lem :
    (f : ℕ) (m : Machine) (v : PcbVec) (ps : List ℕ) (from : ℕ)
    → Holds v ps
    → AllLive m ps
    → count_from m ps from < f
    → (pid : ℕ) × (free_pid_loop f m v from ≡ ok pid)
      × (from ≤ pid)
      × (has_pid m ps pid ≡ false)
      × ((q : ℕ) → from ≤ q → q < pid → has_pid m ps q ≡ true)
unfolding free_pid_loop
free_pid_loop_lem zero m v ps from h live enough = absurd (omega arith)
free_pid_loop_lem (suc f) m v ps from h live enough =
    let used : pid_used v.len 0 m v from ≡ ok (has_pid m ps from) =
      ap (λ n. pid_used n 0 m v from) h.len
      ∙ (pid_used_loop m v ps 0 from
          (λ j lt. ap (λ n. get_or v.pcb_ptr_array n none) (omega arith) ∙ h.at j lt) live) in
    elim (Bool-cases (has_pid m ps from)) [
      | inl taken ↦
          let (pid, runs, above, free, below) =
            free_pid_loop_lem f m v ps (from + 1) h live
              (omega (arith, count_from-used m ps from taken)) in
          (
            pid,
            rw (used, ◌>>=◌) (rw taken runs),
            omega arith,
            free,
            λ q ge lt. elim (Bool-cases (from == q)) [
              | inl here ↦ ground (arith, taken, here)
              | inr later ↦ below q (ground arith) lt
            ],
          )
      | inr free ↦ (
        from,
        rw (used, ◌>>=◌) (rw free refl),
        omega arith,
        free,
        λ q ge lt. absurd (omega arith),
      )
    ]

-- get_next_free_pid ends, and gives the smallest pid from 3 on that no PCB of the vector has.
pub get_next_free_pid_lem :
    (m : Machine) (v : PcbVec) (ps : List ℕ)
    → Holds v ps
    → AllLive m ps
    → (pid : ℕ) × (get_next_free_pid m v ≡ ok pid)
      × (3 ≤ pid)
      × (has_pid m ps pid ≡ false)
      × ((q : ℕ) → 3 ≤ q → q < pid → has_pid m ps q ≡ true)
unfolding get_next_free_pid
get_next_free_pid_lem m v ps h live =
    free_pid_loop_lem (v.len + 1) m v ps 3 h live (omega (arith, count_from-bound m ps 3, h.len))

pub has_pid-interrupts :
    (m : Machine) (b : Bool) (ps : List ℕ) (pid : ℕ)
    → has_pid m ps pid ≡ has_pid (record m { interrupts = b }) ps pid
unfolding has_pid pcb_of
has_pid-interrupts m b [] pid = refl
has_pid-interrupts m b (p ∷ ps) pid = rw (has_pid-interrupts m b ps pid) refl
