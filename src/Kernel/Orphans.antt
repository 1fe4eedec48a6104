-- ===== src/Kernel/Orphans.antt =====
-- pcb_disconnect_child of src/kernel/PCB.c: the children of a process that ends go to init.
use pennosgrp.Prelude.{
  ℕ, zero, suc, ◌+◌, ◌≤◌, ◌<◌, ◌≡◌, refl, ap, ◌∙◌, true, false, Bool, ◌&&◌, none, List, arith,
  length, get_or, set, length-set, get_or-set, get_or-set_ne, ltb, leb, ◌==◌, if◌then◌else◌, ok,
  ◌>>=◌,
}
use pennosgrp.Array.{Cells}
use pennosgrp.Pcb.{Ptr, Pcb, holds}
use pennosgrp.PcbQueue.{Machine, put}
use pennosgrp.PcbVec.Contents.{Holds}
use pennosgrp.Kernel.{Kernel, disconnect_loop, pcb_disconnect_child}
use pennosgrp.Kernel.Seek.{pcb_of, AllLive, first_pcb}
use pennosgrp.Kernel.Live.{IsLive, IsLive-put, pcb_of-put, first_pcb-pids, AllLive-all}
use pennosgrp.Kernel.Adopt.{round_lem}

-- The PCB is the one that the vector has for a child pid in the cells from `i` on.
unfoldable pub is_child : Machine → List ℕ → ℕ → ℕ → Cells → Ptr → Bool
is_child m ps zero i cells q = false
is_child m ps (suc n) i cells q =
    let rest = is_child m ps n (i + 1) cells q in
    if first_pcb (λ c. holds (get_or cells i none) c.pid) m ps == q then true else rest

pub is_child-same :
    (m m1 : Machine) (ps : List ℕ) (n i j : ℕ) (cells : Cells) (q : Ptr)
    → ((r : Ptr) → (pcb_of m1 r).pid ≡ (pcb_of m r).pid)
    → j < i
    → is_child m1 ps n i (set cells j none) q ≡ is_child m ps n i cells q
unfolding is_child
is_child-same m m1 ps zero i j cells q pids lt = refl
is_child-same m m1 ps (suc n) i j cells q pids lt =
    let away : (j == i) ≡ false = ground arith in
    rw
      (
        get_or-set_ne cells j i none none away,
        first_pcb-pids m m1 (get_or cells i none) ps pids,
        is_child-same m m1 ps n (i + 1) j cells q pids (omega arith),
      )
      refl

pub is_child-pids :
    (m m1 : Machine) (ps : List ℕ) (n i : ℕ) (cells : Cells) (q : Ptr)
    → ((r : Ptr) → (pcb_of m1 r).pid ≡ (pcb_of m r).pid)
    → is_child m1 ps n i cells q ≡ is_child m ps n i cells q
unfolding is_child
is_child-pids m m1 ps zero i cells q pids = refl
is_child-pids m m1 ps (suc n) i cells q pids =
    rw
      (
        first_pcb-pids m m1 (get_or cells i none) ps pids,
        is_child-pids m m1 ps n (i + 1) cells q pids,
      )
      refl

-- What pcb_disconnect_child leaves: every other PCB is as it was, but that the children have init as
-- their parent.
pub record Orphaned (m m1 : Machine) (ps : List ℕ) (p : Ptr) (n i : ℕ) : Type 0 where
  pub interrupts : m1.interrupts ≡ m.interrupts
  pub pids : (q : Ptr) → (pcb_of m1 q).pid ≡ (pcb_of m q).pid
  pub live : (q : Ptr) → IsLive m q → IsLive m1 q
  pub others :
      (q : Ptr)
      → (q == 0) ≡ false
      → (q == p) ≡ false
      → pcb_of m1 q ≡ (
          if is_child m ps n i (pcb_of m p).child_pids q
          then record (pcb_of m q) { ppid = 1 }
          else pcb_of m q)
  pub self :
      (cells : Cells) × (pcb_of m1 p ≡ record (pcb_of m p) {
        ppid = if is_child m ps n i (pcb_of m p).child_pids p then 1 else (pcb_of m p).ppid;
        child_pids = cells;
      })
      × (length cells ≡ length (pcb_of m p).child_pids)
      × ((j : ℕ)
          → i + n ≤ length cells
          → get_or cells j none
            ≡ (if leb i j && ltb j (i + n) then none else get_or (pcb_of m p).child_pids j none))

adopted_twice :
    (a b : Bool) (d c : Pcb)
    → d ≡ (if a then record c { ppid = 1 } else c)
    → (if b then record d { ppid = 1 } else d)
      ≡ (if (if a then true else b) then record c { ppid = 1 } else c)
adopted_twice true true d c e = ap (λ (x : Pcb). record x { ppid = 1 }) e
adopted_twice true false d c e = e
adopted_twice false true d c e = ap (λ (x : Pcb). record x { ppid = 1 }) e
adopted_twice false false d c e = e

init_twice :
    (a b : Bool) (ppid : ℕ)
    → (if a then 1 else (if b then 1 else ppid)) ≡ (if (if b then true else a) then 1 else ppid)
init_twice true true ppid = refl
init_twice true false ppid = refl
init_twice false true ppid = refl
init_twice false false ppid = refl

cleared_twice :
    (n i j : ℕ) (cells0 cells1 cells : Cells)
    → cells0 ≡ set cells i none
    → length cells1 ≡ length cells0
    → (i + 1 + n ≤ length cells1
        → get_or cells1 j none
          ≡ (if leb (i + 1) j && ltb j (i + 1 + n) then none else get_or cells0 j none))
    → i + suc n ≤ length cells1
    → get_or cells1 j none ≡ (if leb i j && ltb j (i + suc n) then none else get_or cells j none)
cleared_twice n i j cells0 cells1 cells e len later fits =
    let old : get_or cells0 j none ≡ (if i == j then none else get_or cells j none) =
      rw e (get_or-set cells i j none none (omega (arith, ap length e, length-set cells i none))) in
    ground (arith, later (omega arith), old)

disconnect_loop_lem :
    (n i : ℕ) (k : Kernel) (p : Ptr) (ps : List ℕ)
    → Holds k.vector ps
    → AllLive k.machine ps
    → IsLive k.machine p
    → (m1 : Machine) × (disconnect_loop n i k p ≡ ok (record k { machine = m1 }))
      × Orphaned k.machine m1 ps p n i
unfolding disconnect_loop is_child
disconnect_loop_lem zero i k p ps h live is = (
  k.machine,
  refl,
  record {
    interrupts = refl;
    pids = λ q. refl;
    live = λ q l. l;
    others = λ q nz ne. refl;
    self = ((pcb_of k.machine p).child_pids, refl, refl, λ j fits. ground arith);
  },
)
disconnect_loop_lem (suc n) i k p ps h live is =
    let m = k.machine in
    let (m0, step, round) = round_lem i k p ps h live is in
    let (m1, runs, rest) =
      disconnect_loop_lem n (i + 1) (record k { machine = m0 }) p ps h
        (AllLive-all m m0 ps live round.live) (round.live p is) in
    let cleared : (pcb_of m0 p).child_pids ≡ set (pcb_of m p).child_pids i none =
      ap (λ c. c.child_pids) round.self in
    let (cells, gives, len, at) = rest.self in
    let a = is_child m ps n (i + 1) (pcb_of m p).child_pids p in
    let b = first_pcb (λ c. holds (get_or (pcb_of m p).child_pids i none) c.pid) m ps == p in
    (
      m1,
      rw (step, ◌>>=◌) runs,
      record {
        interrupts = rest.interrupts ∙ round.interrupts;
        pids = λ q. rest.pids q ∙ round.pids q;
        live = λ q l. rest.live q (round.live q l);
        others = λ q nz ne.
            rest.others q nz ne
            ∙ ap (λ b. if b then record (pcb_of m0 q) { ppid = 1 } else pcb_of m0 q)
                (ap (λ cs. is_child m0 ps n (i + 1) cs q) cleared
                  ∙ is_child-same m m0 ps n (i + 1) i (pcb_of m p).child_pids q round.pids
                      (omega arith))
            ∙ adopted_twice
                (first_pcb (λ c. holds (get_or (pcb_of m p).child_pids i none) c.pid) m ps == q)
                (is_child m ps n (i + 1) (pcb_of m p).child_pids q) (pcb_of m0 q) (pcb_of m q)
                (round.others q nz ne);
        self = (
          cells,
          gives
              ∙ ap
                  (λ t. record (pcb_of m0 p) {
                    ppid = if t then 1 else (pcb_of m0 p).ppid;
                    child_pids = cells;
                  })
                  (ap (λ cs. is_child m0 ps n (i + 1) cs p) cleared
                    ∙ is_child-same m m0 ps n (i + 1) i (pcb_of m p).child_pids p round.pids
                        (omega arith))
              ∙ ap (λ (c : Pcb). record c { ppid = if a then 1 else c.ppid; child_pids = cells })
                  round.self
              ∙ ap (λ v. record (pcb_of m p) { ppid = v; child_pids = cells })
                  (init_twice a b (pcb_of m p).ppid),
          len ∙ ap length cleared ∙ length-set (pcb_of m p).child_pids i none,
          λ j fits.
              cleared_twice n i j (pcb_of m0 p).child_pids cells (pcb_of m p).child_pids cleared len
                (at j) fits,
        );
      },
    )

-- What pcb_disconnect_child leaves of the PCBs: every PCB that the vector has for one of the child pids has
-- init as its parent, the process has no children and its cells for them, of which the table has enough,
-- are empty, and all else is as before: the cells behind them, the process's other fields, and every other
-- PCB.
pub record Disconnected (m m1 : Machine) (ps : List ℕ) (p : Ptr) : Type 0 where
  pub interrupts : m1.interrupts ≡ m.interrupts
  pub live : (q : Ptr) → IsLive m q → IsLive m1 q
  pub others :
      (q : Ptr)
      → (q == 0) ≡ false
      → (q == p) ≡ false
      → pcb_of m1 q ≡ (
          if is_child m ps (pcb_of m p).num_child_pids 0 (pcb_of m p).child_pids q
          then record (pcb_of m q) { ppid = 1 }
          else pcb_of m q)
  pub self :
      (cells : Cells) × (pcb_of m1 p ≡ record (pcb_of m p) {
        ppid =
            if is_child m ps (pcb_of m p).num_child_pids 0 (pcb_of m p).child_pids p
            then 1
            else (pcb_of m p).ppid;
        child_pids = cells;
        num_child_pids = 0;
      })
      × (length cells ≡ length (pcb_of m p).child_pids)
      × ((j : ℕ)
          → (pcb_of m p).num_child_pids ≤ length cells
          → get_or cells j none ≡ (
              if ltb j (pcb_of m p).num_child_pids
              then none
              else get_or (pcb_of m p).child_pids j none))

-- pcb_disconnect_child ends, gives every PCB that the vector has for a child pid of the process to init, and
-- leaves the process without children and with empty cells for them, of which its table has enough; no
-- other PCB, nothing else of the process and nothing else of the kernel changes.
pub pcb_disconnect_child_lem :
    (k : Kernel) (p : Ptr) (ps : List ℕ)
    → Holds k.vector ps
    → AllLive k.machine ps
    → IsLive k.machine p
    → (m1 : Machine) × (pcb_disconnect_child k p ≡ ok (record k { machine = m1 }))
      × Disconnected k.machine m1 ps p
unfolding pcb_disconnect_child
pcb_disconnect_child_lem k p ps h live is =
    let m = k.machine in
    let (m0, runs, done) = disconnect_loop_lem (pcb_of m p).num_child_pids 0 k p ps h live is in
    let is0 = done.live p is in
    let c = record (pcb_of m0 p) { num_child_pids = 0 } in
    let (cells, gives, len, at) = done.self in
    let same : (p == p) ≡ true = ground arith in
    (
      put m0 p c,
      rw (is, ◌>>=◌) (rw (runs, ◌>>=◌) (rw (is0, ◌>>=◌) refl)),
      record {
        interrupts = done.interrupts;
        live = λ q l. IsLive-put m0 p q c is0 (done.live q l);
        others = λ q nz ne. pcb_of-put m0 p q c ∙ rw ne (done.others q nz ne);
        self = (
          cells,
          pcb_of-put m0 p p c ∙ rw same (ap (λ (d : Pcb). record d { num_child_pids = 0 }) gives),
          len,
          λ j fits. ground (arith, at j),
        );
      },
    )
