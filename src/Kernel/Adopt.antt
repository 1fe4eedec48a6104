-- ===== src/Kernel/Adopt.antt =====
-- A round of pcb_disconnect_child of src/kernel/PCB.c: a child goes to init.
use pennosgrp.Prelude.{
  ℕ, ◌≡◌, refl, ap, ◌∙◌, true, false, Bool, Option, none, List, arith, get_or, set, ◌==◌,
  if◌then◌else◌, ok, Bool-cases, inl, inr, ◌>>=◌,
}
use pennosgrp.Pcb.{Ptr, Pcb, holds}
use pennosgrp.PcbQueue.{Machine, put}
use pennosgrp.PcbVec.Contents.{Holds}
use pennosgrp.Kernel.{Kernel, adopt, clear_child, disconnect_one}
use pennosgrp.Kernel.Seek.{pcb_of, AllLive, first_pcb, pcb_vec_seek_pcb_by_pid_lem}
use pennosgrp.Kernel.Live.{IsLive, IsLive-some, IsLive-put, pcb_of-put, first_pcb-IsLive}

-- What one round of the loop, for the child with that pid, does to the heap.
pub record Round (m m1 : Machine) (ps : List ℕ) (p : Ptr) (pid : Option ℕ) (i : ℕ) : Type 0 where
  pub interrupts : m1.interrupts ≡ m.interrupts
  pub pids : (q : Ptr) → (pcb_of m1 q).pid ≡ (pcb_of m q).pid
  pub live : (q : Ptr) → IsLive m q → IsLive m1 q
  pub others :
      (q : Ptr)
      → (q == 0) ≡ false
      → (q == p) ≡ false
      → pcb_of m1 q ≡ (
          if first_pcb (λ c. holds pid c.pid) m ps == q
          then record (pcb_of m q) { ppid = 1 }
          else pcb_of m q)
  pub self : pcb_of m1 p ≡ record (pcb_of m p) {
    ppid = if first_pcb (λ c. holds pid c.pid) m ps == p then 1 else (pcb_of m p).ppid;
    child_pids = set (pcb_of m p).child_pids i none;
  }

adopt_lem :
    (k : Kernel) (child p : Ptr)
    → IsLive k.machine p
    → ((child == 0) ≡ false → IsLive k.machine child)
    → (m1 : Machine) × (adopt k child ≡ ok (record k { machine = m1 }))
      × (m1.interrupts ≡ k.machine.interrupts)
      × ((q : Ptr) → IsLive k.machine q → IsLive m1 q)
      × ((q : Ptr)
          → (q == 0) ≡ false
          → pcb_of m1 q
            ≡ (if child == q then record (pcb_of k.machine q) { ppid = 1 } else pcb_of k.machine q))
      × ((q : Ptr) → (pcb_of m1 q).pid ≡ (pcb_of k.machine q).pid)
unfolding adopt
adopt_lem k child p is is_child = elim (Bool-cases (child == 0)) [
  | inl missing ↦
      (k.machine, rw missing refl, refl, λ q l. l, λ q nz. ground (arith, missing), λ q. refl)
  | inr there ↦
      let c = record (pcb_of k.machine child) { ppid = 1 } in
      (
        put k.machine child c,
        rw (is_child there, ◌>>=◌) (rw there refl),
        refl,
        λ q l. IsLive-put k.machine child q c (is_child there) l,
        λ q nz. ground (arith, pcb_of-put k.machine child q c),
        λ q. ground (arith, pcb_of-put k.machine child q c),
      )
]

self_cleared :
    (b : Bool) (d c : Pcb) (i : ℕ)
    → d ≡ (if b then record c { ppid = 1 } else c)
    → record d { child_pids = set d.child_pids i none }
      ≡ record c { ppid = if b then 1 else c.ppid; child_pids = set c.child_pids i none }
self_cleared true d c i e = ap (λ (x : Pcb). record x { child_pids = set x.child_pids i none }) e
self_cleared false d c i e = ap (λ (x : Pcb). record x { child_pids = set x.child_pids i none }) e

pub round_lem :
    (i : ℕ) (k : Kernel) (p : Ptr) (ps : List ℕ)
    → Holds k.vector ps
    → AllLive k.machine ps
    → IsLive k.machine p
    → (m1 : Machine) × (disconnect_one i k p ≡ ok (record k { machine = m1 }))
      × Round k.machine m1 ps p (get_or (pcb_of k.machine p).child_pids i none) i
unfolding disconnect_one clear_child
round_lem i k p ps h live is =
    let m = k.machine in
    let pid = get_or (pcb_of m p).child_pids i none in
    let child : Ptr = first_pcb (λ c. holds pid c.pid) m ps in
    let sought = pcb_vec_seek_pcb_by_pid_lem m k.vector ps pid h live in
    let (m0, adopts, ints, keeps, gives, pids) =
      adopt_lem k child p is (first_pcb-IsLive (λ c. holds pid c.pid) m ps live) in
    let same : (p == p) ≡ true = ground arith in
    let is0 = keeps p is in
    let c = record (pcb_of m0 p) { child_pids = set (pcb_of m0 p).child_pids i none } in
    let self = gives p (IsLive-some m p is) in
    (
      put m0 p c,
      rw (is, ◌>>=◌) (rw (sought, ◌>>=◌) (rw (adopts, ◌>>=◌) (rw (is0, ◌>>=◌) refl))),
      record {
        interrupts = ints;
        pids = λ q. ground (arith, pcb_of-put m0 p q c, pids q);
        live = λ q l. IsLive-put m0 p q c is0 (keeps q l);
        others = λ q nz ne. pcb_of-put m0 p q c ∙ rw ne (gives q nz);
        self =
            pcb_of-put m0 p p c
            ∙ rw same (self_cleared (child == p) (pcb_of m0 p) (pcb_of m p) i self);
      },
    )
