-- ===== src/Kernel/Create.antt =====
-- k_proc_create of src/kernel/kernel_syscall.c.
use pennosgrp.Prelude.{
  set, ap, ◌+◌, ℕ, ◌^◌, ◌≤◌, ◌<◌, ◌≡◌, refl, ◌∙◌, true, false, Bool, none, some, List, [], ◌∷◌,
  ◌++◌, arith, ◌==◌, if◌then◌else◌, if_false, ok, ◌>>=◌, is_neg,
}
use pennosgrp.Pcb.{stopped, Ptr, Pcb, fresh_pcb, pcb_add_child_pid, num_children_max}
use pennosgrp.Pcb.Children.{add-fails}
use pennosgrp.PcbQueue.{Machine, load, put}
use pennosgrp.PcbVec.Contents.{Holds, pcb_vec_push_back_lem}
use pennosgrp.Kernel.{Kernel, pcb_init_empty, k_proc_create}
use pennosgrp.Kernel.Seek.{pcb_of, AllLive}
use pennosgrp.Kernel.Pids.{has_pid, has_pid-interrupts, get_next_free_pid_lem}
use pennosgrp.Kernel.Live.{
  IsLive, IsLive-some, pcb_of-put, AllLive-interrupts, load-interrupts, pcb_of-interrupts,
}

-- pcb_init_empty with a parent: its child table takes the pid, or is full and the call fails.
init_lem :
    (m : Machine) (fresh parent : Ptr) (c : Pcb) (priority pid : ℕ)
    → (fresh == 0) ≡ false
    → (parent == 0) ≡ false
    → load m parent ≡ ok c
    → pcb_init_empty m fresh parent priority pid
      ≡ ok (
          if c.num_child_pids == num_children_max
          then none
          else some
              (put (put m parent (pcb_add_child_pid c pid).1) fresh (fresh_pcb c.pid priority pid)))
unfolding pcb_init_empty
init_lem m fresh parent c priority pid some_fresh some_parent at_parent =
    rw some_fresh (if_false _ _ _ some_parent ∙ rw (at_parent, ◌>>=◌) (added c))
  where
    added :
        (c : Pcb)
        → (if is_neg (pcb_add_child_pid c pid).0
            then ok none
            else ok (
                some (
                  put
                    (put m parent (pcb_add_child_pid c pid).1)
                    fresh
                    (fresh_pcb c.pid priority pid))))
          ≡ ok (
              if c.num_child_pids == num_children_max
              then none
              else some (
                  put
                    (put m parent (pcb_add_child_pid c pid).1)
                    fresh
                    (fresh_pcb c.pid priority pid)))
    added c = rw (add-fails c pid) (pick (c.num_child_pids == num_children_max))
      where
        pick :
            (b : Bool)
            → (if b
                then ok none
                else ok (
                    some (
                      put
                        (put m parent (pcb_add_child_pid c pid).1)
                        fresh
                        (fresh_pcb c.pid priority pid))))
              ≡ ok (
                  if b
                  then none
                  else some (
                      put
                        (put m parent (pcb_add_child_pid c pid).1)
                        fresh
                        (fresh_pcb c.pid priority pid)))
        pick true = refl
        pick false = refl

-- A new process: its pid, which is also its group's, its parent and its priority; it is stopped, has no
-- children and stands in no queue.
pub record IsFresh (c : Pcb) (ppid priority pid : ℕ) : Type 0 where
  pub own : c.pid ≡ pid
  pub group : c.pgid ≡ pid
  pub parent : c.ppid ≡ ppid
  pub level : c.priority_level ≡ priority
  pub status : c.status ≡ stopped
  pub childless : c.num_child_pids ≡ 0
  pub unlinked : c.next_pcb_ptr ≡ 0

IsFresh_lem :
    (c : Pcb) (ppid priority pid : ℕ)
    → c ≡ fresh_pcb ppid priority pid
    → IsFresh c ppid priority pid
unfolding fresh_pcb
IsFresh_lem c ppid priority pid e = record {
  own = ap (λ (d : Pcb). d.pid) e;
  group = ap (λ (d : Pcb). d.pgid) e;
  parent = ap (λ (d : Pcb). d.ppid) e;
  level = ap (λ (d : Pcb). d.priority_level) e;
  status = ap (λ (d : Pcb). d.status) e;
  childless = ap (λ (d : Pcb). d.num_child_pids) e;
  unlinked = ap (λ (d : Pcb). d.next_pcb_ptr) e;
}

-- A child table with room takes the pid behind the others.
takes :
    (c : Pcb) (pid : ℕ)
    → (c.num_child_pids == num_children_max) ≡ false
    → (pcb_add_child_pid c pid).1 ≡ record c {
      child_pids = set c.child_pids c.num_child_pids (some pid);
      num_child_pids = c.num_child_pids + 1;
    }
unfolding pcb_add_child_pid
takes c pid room = rw room refl

-- k_proc_create under a parent whose child table has room gives the new PCB the smallest pid from 3 on
-- that is free, as its pid and its group, the parent's pid and the given priority; it is stopped, without
-- children and in no queue, comes behind the others in the vector, and its pid is recorded with the parent.
-- The call leaves every other PCB as it is and interrupts on. Memory is taken not to run out.
pub k_proc_create_lem :
    (alloc_ok : ℕ → Bool) (all : (n : ℕ) → alloc_ok n ≡ true) (k : Kernel) (ps : List ℕ)
    (fresh parent : Ptr) (priority : ℕ)
    → Holds k.vector ps
    → AllLive k.machine ps
    → k.vector.len < 2 ^ 59
    → (fresh == 0) ≡ false
    → (parent == fresh) ≡ false
    → IsLive k.machine parent
    → ((pcb_of k.machine parent).num_child_pids == num_children_max) ≡ false
    → (k' : Kernel) × (pid : ℕ) × (k_proc_create alloc_ok k fresh parent priority ≡ ok (fresh, k'))
      × (3 ≤ pid)
      × (has_pid k.machine ps pid ≡ false)
      × ((n : ℕ) → 3 ≤ n → n < pid → has_pid k.machine ps n ≡ true)
      × Holds k'.vector (ps ++ fresh ∷ [])
      × IsFresh (pcb_of k'.machine fresh) (pcb_of k.machine parent).pid priority pid
      × (pcb_of k'.machine parent ≡ record (pcb_of k.machine parent) {
        child_pids =
            set
              (pcb_of k.machine parent).child_pids
              (pcb_of k.machine parent).num_child_pids
              (some pid);
        num_child_pids = (pcb_of k.machine parent).num_child_pids + 1;
      })
      × ((r : Ptr)
          → (r == fresh) ≡ false
          → (r == parent) ≡ false
          → pcb_of k'.machine r ≡ pcb_of k.machine r)
      × (k'.machine.interrupts ≡ true)
unfolding k_proc_create
k_proc_create_lem alloc_ok all k ps fresh parent priority h live small some_fresh apart is room =
    let m = record k.machine { interrupts = false } in
    let c = pcb_of k.machine parent in
    let (pid, picks, from, free, below) =
      get_next_free_pid_lem m k.vector ps h (AllLive-interrupts k.machine false ps live) in
    let made =
      init_lem m fresh parent c priority pid some_fresh (IsLive-some k.machine parent is)
        (load-interrupts k.machine false parent is) in
    let m1 = put m parent (pcb_add_child_pid c pid).1 in
    let m2 = put m1 fresh (fresh_pcb c.pid priority pid) in
    let (v, pushes, held, _) = pcb_vec_push_back_lem alloc_ok all k.vector ps fresh h small in
    let at : (r : Ptr)
        → pcb_of (record m2 { interrupts = true }) r ≡ (
            if r == fresh
            then fresh_pcb c.pid priority pid
            else if r == parent
            then (pcb_add_child_pid c pid).1
            else pcb_of k.machine r) =
      λ r.
        pcb_of-interrupts m2 true r
        ∙ pcb_of-put m1 fresh r (fresh_pcb c.pid priority pid)
        ∙ rw
            (pcb_of-put m parent r (pcb_add_child_pid c pid).1, pcb_of-interrupts k.machine false r)
            refl in
    let same : (fresh == fresh) ≡ true = ground arith in
    let same' : (parent == parent) ≡ true = ground arith in
    (
      record k { machine = record m2 { interrupts = true }; vector = v },
      pid,
      rw (picks, ◌>>=◌) (rw (made, ◌>>=◌) (rw room (rw (pushes, ◌>>=◌) refl))),
      from,
      has_pid-interrupts k.machine false ps pid ∙ free,
      λ n ge lt. has_pid-interrupts k.machine false ps n ∙ below n ge lt,
      held,
      IsFresh_lem (pcb_of (record m2 { interrupts = true }) fresh) c.pid priority pid
          (at fresh ∙ rw same refl),
      at parent ∙ rw (apart, same') (takes c pid room),
      λ r a b. at r ∙ rw (a, b) refl,
      refl,
    )
