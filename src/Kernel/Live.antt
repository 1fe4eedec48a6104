-- ===== src/Kernel/Live.antt =====
-- PCBs on the heap, and what writing one of them leaves of the others.
use pennosgrp.Prelude.{
  ℕ, suc, ◌≡◌, refl, ap, subst, ◌∙◌, false, Bool, Option, some, List, [], ◌∷◌, arith, get_or, ◌==◌,
  if◌then◌else◌, ok, Bool-cases, inl, inr, Option-cases,
}
use pennosgrp.Pcb.{Ptr, Pcb, holds}
use pennosgrp.PcbQueue.{Machine, load, put}
use pennosgrp.Kernel.Seek.{pcb_of, AllLive, first_pcb}

-- A pointer to a PCB on the heap.
abbrev pub IsLive : Machine → Ptr → Type 0
IsLive m p = load m p ≡ ok (pcb_of m p)

pub IsLive-some : (m : Machine) (p : Ptr) → IsLive m p → (p == 0) ≡ false
IsLive-some m p live = elim (Bool-cases (p == 0)) [
  | inl z ↦ absurd (ground (arith, live, z))
  | inr nz ↦ nz
]

pub pcb_of-put :
    (m : Machine) (p q : Ptr) (c : Pcb) → pcb_of (put m p c) q ≡ (if q == p then c else pcb_of m q)
unfolding pcb_of
pcb_of-put m p q c = elim (Bool-cases (q == p)) [
  | inl same ↦ rw (same, pcb_of) refl
  | inr other ↦ rw (other, pcb_of) refl
]

pub IsLive-put :
    (m : Machine) (p q : Ptr) (c : Pcb) → IsLive m p → IsLive m q → IsLive (put m p c) q
unfolding pcb_of
IsLive-put m p q c live_p live_q = elim (Bool-cases (q == p)) [
  | inl same ↦ rw (same, IsLive-some m q live_q, pcb_of) refl
  | inr other ↦ rw (other, pcb_of) live_q
]

pub first_pcb-IsLive :
    (test : Pcb → Bool) (m : Machine) (ps : List ℕ)
    → AllLive m ps
    → (first_pcb test m ps == 0) ≡ false
    → IsLive m (first_pcb test m ps)
unfolding first_pcb AllLive
first_pcb-IsLive test m [] live found = absurd (ground arith)
first_pcb-IsLive test m (p ∷ ps) live found = elim (Bool-cases (test (pcb_of m p))) [
  | inl yes_p ↦ rw yes_p (live 0 (omega arith))
  | inr no_p ↦ rw no_p (
      first_pcb-IsLive test m ps (λ i lt. live (suc i) (omega arith))
        (subst (λ b. ((if b then p else first_pcb test m ps) == 0) ≡ false) no_p found))
]

-- A search by pid sees only the pids.
pub first_pcb-pids :
    (m m' : Machine) (pid : Option ℕ) (ps : List ℕ)
    → ((q : Ptr) → (pcb_of m' q).pid ≡ (pcb_of m q).pid)
    → first_pcb (λ c. holds pid c.pid) m' ps ≡ first_pcb (λ c. holds pid c.pid) m ps
unfolding first_pcb
first_pcb-pids m m' pid [] same = refl
first_pcb-pids m m' pid (p ∷ ps) same = rw (same p, first_pcb-pids m m' pid ps same) refl

pub AllLive-all :
    (m m1 : Machine) (ps : List ℕ)
    → AllLive m ps
    → ((q : Ptr) → IsLive m q → IsLive m1 q)
    → AllLive m1 ps
unfolding AllLive
AllLive-all m m1 ps live keeps i lt = keeps (get_or ps i 0) (live i lt)

-- What a thread sees does not depend on whether it takes signals.
pub AllLive-interrupts :
    (m : Machine) (b : Bool) (ps : List ℕ) → AllLive m ps → AllLive (record m { interrupts = b }) ps
unfolding AllLive pcb_of
AllLive-interrupts m b ps live = live

pub load-interrupts :
    (m : Machine) (b : Bool) (p : Ptr)
    → IsLive m p
    → load (record m { interrupts = b }) p ≡ ok (pcb_of m p)
load-interrupts m b p live = live

pub first_pcb-interrupts :
    (test : Pcb → Bool) (m : Machine) (b : Bool) (ps : List ℕ)
    → first_pcb test (record m { interrupts = b }) ps ≡ first_pcb test m ps
unfolding first_pcb pcb_of
first_pcb-interrupts test m b [] = refl
first_pcb-interrupts test m b (p ∷ ps) = rw (first_pcb-interrupts test m b ps) refl

pub pcb_of-interrupts :
    (m : Machine) (b : Bool) (p : Ptr) → pcb_of (record m { interrupts = b }) p ≡ pcb_of m p
unfolding pcb_of
pcb_of-interrupts m b p = refl

pub heap_lem : (m : Machine) (p : Ptr) → IsLive m p → m.heap p ≡ some (pcb_of m p)
unfolding pcb_of
heap_lem m p live = elim (Option-cases (m.heap p)) [
  | inl missing ↦ absurd (ground (arith, live, missing))
  | inr (c, found) ↦ found ∙ ap some (rw (found, pcb_of) refl)
]
