-- ===== src/Pcb/Children.antt =====
-- The child table of a PCB: pcb_add_child_pid and pcb_remove_child_pid of src/kernel/PCB.c.
use pennosgrp.Prelude.{
  ℕ, zero, suc, ◌+◌, ◌-◌, ◌≤◌, ◌<◌, ◌≡◌, ◌≢◌, refl, ◌⊎◌, inl, inr, Option, none, some, arith,
  length, get_or, set, length-set, get_or-set, replicate, Bool-cases, ltb, ◌==◌, if◌then◌else◌, pos,
  negsuc, is_neg,
}
use pennosgrp.Array.{Cells, shift_down}
use pennosgrp.Array.Loops.{length-shift_down, get_or-shift_down}
use pennosgrp.Pcb.{
  Pcb, holds, num_children_max, find_child, pcb_add_child_pid, pcb_remove_child_pid, fresh_pcb,
}

abbrev pub child : Pcb → ℕ → Option ℕ
child p i = get_or p.child_pids i none

-- The table has its 128 slots, the first `num_child_pids` of them hold pids and the rest -1.
pub record HasTable (p : Pcb) : Type 0 where
  pub size : length p.child_pids ≡ num_children_max
  pub fits : p.num_child_pids ≤ num_children_max
  pub used : (i : ℕ) → i < p.num_child_pids → child p i ≢ none
  pub unused : (i : ℕ) → p.num_child_pids ≤ i → child p i ≡ none

get_or-replicate-none : (n i : ℕ) → get_or (replicate {A = Option ℕ} n none) i none ≡ none
get_or-replicate-none zero i = refl
get_or-replicate-none (suc n) zero = refl
get_or-replicate-none (suc n) (suc i) = get_or-replicate-none n i

pub fresh_pcb-HasTable : (ppid priority pid : ℕ) → HasTable (fresh_pcb ppid priority pid)
unfolding fresh_pcb
fresh_pcb-HasTable ppid priority pid = record {
  size = refl;
  fits = omega arith;
  used = λ i h. absurd (omega arith);
  unused = λ i h. get_or-replicate-none 128 i;
}

-- The loop stops at the first slot that holds the pid, or at the end of the slots in use.
find_child_lem :
    (k i : ℕ) (a : Cells) (pid : ℕ)
    → (i ≤ find_child k i a pid)
      × (find_child k i a pid ≤ i + k)
      × ((find_child k i a pid ≡ i + k) ⊎ (get_or a (find_child k i a pid) none ≡ some pid))
      × ((j : ℕ) → i ≤ j → j < find_child k i a pid → get_or a j none ≢ some pid)
unfolding find_child
find_child_lem zero i a pid =
    (omega arith, omega arith, inl (omega arith), λ j h l. absurd (omega arith))
find_child_lem (suc k) i a pid =
    let (low, high, found, before) = find_child_lem k (i + 1) a pid in
    elim (Bool-cases (holds (get_or a i none) pid)) [
      | inl here ↦
          rw here (omega arith, omega arith, inr (ground arith), λ j h l. absurd (omega arith))
      | inr more ↦
          rw more (omega arith, omega arith, ground arith, λ j h l e. ground (arith, before j))
    ]

-- pcb_add_child_pid fails with -1 and changes nothing exactly when the table is full; otherwise it
-- keeps the table well formed, keeps every child, and puts the new one behind them.
pub pcb_add_child_pid_lem :
    (p : Pcb) (pid : ℕ)
    → HasTable p
    → ((p.num_child_pids ≡ num_children_max) × (pcb_add_child_pid p pid ≡ (negsuc 0, p)))
      ⊎ ((q : Pcb) × (p.num_child_pids < num_children_max)
          × (pcb_add_child_pid p pid ≡ (pos 0, q))
          × HasTable q
          × (q.num_child_pids ≡ p.num_child_pids + 1)
          × ((i : ℕ)
              → i ≤ p.num_child_pids
              → child q i ≡ (if ltb i p.num_child_pids then child p i else some pid)))
unfolding pcb_add_child_pid
pcb_add_child_pid_lem p pid table = elim (Bool-cases (p.num_child_pids == num_children_max)) [
  | inl full ↦ inl (ground arith, rw full refl)
  | inr room ↦
      let n : ℕ = p.num_child_pids in
      let lt : n < num_children_max = ground (arith, table.fits) in
      let at_i =
        λ (i : ℕ). get_or-set p.child_pids n i (some pid) none (omega (arith, table.size)) in
      inr (
        record p { child_pids = set p.child_pids n (some pid); num_child_pids = n + 1 },
        lt,
        rw room refl,
        record {
          size = omega (arith, length-set p.child_pids n (some pid), table.size);
          fits = omega arith;
          used = λ i h e. ground (arith, at_i i, table.used i);
          unused = λ i h. ground (arith, at_i i, table.unused i);
        },
        refl,
        λ i h. ground (arith, at_i i),
      )
]

-- The first slot in use that holds the pid.
pub record FirstChild (p : Pcb) (pid i : ℕ) : Type 0 where
  pub in_use : i < p.num_child_pids
  pub here : child p i ≡ some pid
  pub first : (j : ℕ) → j < i → child p j ≢ some pid

-- pcb_remove_child_pid fails with -1 and changes nothing exactly when no slot in use holds the pid.
-- Otherwise it removes the first slot that does, moves the later children down by one, and keeps
-- the table well formed.
pub pcb_remove_child_pid_lem :
    (p : Pcb) (pid : ℕ)
    → HasTable p
    → (((j : ℕ) → j < p.num_child_pids → child p j ≢ some pid)
        × (pcb_remove_child_pid p pid ≡ (negsuc 0, p)))
      ⊎ ((i : ℕ) × FirstChild p pid i
          × (q : Pcb) × (pcb_remove_child_pid p pid ≡ (pos 0, q))
          × HasTable q
          × (q.num_child_pids + 1 ≡ p.num_child_pids)
          × ((j : ℕ)
              → j < q.num_child_pids
              → child q j ≡ (if ltb j i then child p j else child p (j + 1))))
unfolding pcb_remove_child_pid
pcb_remove_child_pid_lem p pid table =
    let n : ℕ = p.num_child_pids in
    let index : ℕ = find_child n 0 p.child_pids pid in
    let (_, high, found, before) = find_child_lem n 0 p.child_pids pid in
    elim (Bool-cases (index == n)) [
      | inl absent ↦ inl (λ j h. before j (omega arith) (ground arith), rw absent (ground arith))
      | inr present ↦
          let lt : index < n = ground arith in
          let k : ℕ = n - 1 - index in
          let a : Cells = shift_down k index p.child_pids in
          let size : length a ≡ num_children_max =
            omega (arith, length-shift_down k index p.child_pids, table.size) in
          let at_j = λ (j : ℕ). get_or-set a (n - 1) j none none (omega (arith, table.fits)) in
          let moved = λ (j : ℕ).
            get_or-shift_down k index p.child_pids j (omega (arith, table.fits, table.size)) in
          inr (
            index,
            record { in_use = lt; here = ground arith; first = λ j h. before j (omega arith) h },
            record p { child_pids = set a (n - 1) none; num_child_pids = n - 1 },
            rw present (ground arith),
            record {
              size = omega (arith, length-set a (n - 1) none);
              fits = omega (arith, table.fits);
              used = λ j h e. ground (arith, at_j j, moved j, table.used j, table.used (j + 1));
              unused = λ j h. ground (arith, at_j j, moved j, table.unused j);
            },
            omega arith,
            λ j h. ground (arith, at_j j, moved j),
          )
    ]

pub add-fails :
    (p : Pcb) (pid : ℕ)
    → is_neg (pcb_add_child_pid p pid).0 ≡ (p.num_child_pids == num_children_max)
unfolding pcb_add_child_pid
add-fails p pid = elim (Bool-cases (p.num_child_pids == num_children_max)) [
  | inl full ↦ rw full refl
  | inr room ↦ rw room refl
]
