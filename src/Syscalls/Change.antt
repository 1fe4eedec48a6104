-- ===== src/Syscalls/Change.antt =====
-- A change of one process's status in the kernel of src/kernel/kernel_syscall.c: what a store of its PCB
-- does to the others.
use pennosgrp.Prelude.{
  ℕ, ◌≡◌, refl, ap, sym, ◌∙◌, true, false, Bool, List, arith, ◌==◌, if◌then◌else◌,
}
use pennosgrp.Pcb.{Ptr, Pcb, Status}
use pennosgrp.PcbQueue.{Machine}
use pennosgrp.Kernel.{Kernel, ThreadCall, interrupts, store_pcb}
use pennosgrp.Kernel.Seek.{pcb_of}
use pennosgrp.Kernel.Live.{IsLive, IsLive-put, pcb_of-put}
use pennosgrp.Kernel.Orphans.{Disconnected}

-- What a signal may change of the kernel: the status of the process becomes `s`, that of every other
-- process stays, and the vector, the queues and the clock stay.
pub record Becomes (k k' : Kernel) (p : Ptr) (s : Status) : Type 0 where
  pub status : (pcb_of k'.machine p).status ≡ s
  pub others :
      (q : Ptr)
      → (q == 0) ≡ false
      → (q == p) ≡ false
      → (pcb_of k'.machine q).status ≡ (pcb_of k.machine q).status
  pub live : (q : Ptr) → IsLive k.machine q → IsLive k'.machine q
  pub vector : k'.vector ≡ k.vector
  pub queues : k'.queues ≡ k.queues
  pub clock : k'.global_clock ≡ k.global_clock

pub stays : (k : Kernel) (p : Ptr) (s : Status) → s ≡ (pcb_of k.machine p).status → Becomes k k p s
stays k p s e = record {
  status = sym e;
  others = λ q nz ne. refl;
  live = λ q l. l;
  vector = refl;
  queues = refl;
  clock = refl;
}

pub stored_self :
    (k : Kernel) (p : Ptr) (c : Pcb) (calls : List ThreadCall) (b : Bool)
    → pcb_of (interrupts b (store_pcb (record k { calls = calls }) p c)).machine p ≡ c
unfolding pcb_of
stored_self k p c calls b = ground (arith, pcb_of-put k.machine p p c)

pub stored_other :
    (k : Kernel) (p q : Ptr) (c : Pcb) (calls : List ThreadCall) (b : Bool)
    → (q == p) ≡ false
    → pcb_of (interrupts b (store_pcb (record k { calls = calls }) p c)).machine q
      ≡ pcb_of k.machine q
unfolding pcb_of
stored_other k p q c calls b ne = ground (arith, pcb_of-put k.machine p q c, ne)

pub stored_pid :
    (k : Kernel) (p : Ptr) (c : Pcb) (calls : List ThreadCall) (b : Bool)
    → c.pid ≡ (pcb_of k.machine p).pid
    → (r : Ptr)
    → (pcb_of (interrupts b (store_pcb (record k { calls = calls }) p c)).machine r).pid
      ≡ (pcb_of k.machine r).pid
unfolding pcb_of
stored_pid k p c calls b same r = ground (arith, pcb_of-put k.machine p r c, same)

pub stored :
    (k : Kernel) (p : Ptr) (c : Pcb) (calls : List ThreadCall) (b : Bool)
    → IsLive k.machine p
    → Becomes k (interrupts b (store_pcb (record k { calls = calls }) p c)) p c.status
unfolding pcb_of
stored k p c calls b is = record {
  status = ground (arith, pcb_of-put k.machine p p c);
  others = λ q nz ne. ground (arith, pcb_of-put k.machine p q c, ne);
  live = λ q l. IsLive-put k.machine p q c is l;
  vector = refl;
  queues = refl;
  clock = refl;
}

pub status_adopted :
    (b : Bool) (d c : Pcb) → d ≡ (if b then record c { ppid = 1 } else c) → d.status ≡ c.status
status_adopted true d c e = ap (λ (x : Pcb). x.status) e
status_adopted false d c e = ap (λ (x : Pcb). x.status) e

pub interrupted :
    (k k' : Kernel) (p : Ptr) (s : Status) (b : Bool)
    → Becomes k k' p s
    → Becomes k (interrupts b k') p s
unfolding pcb_of
interrupted k k' p s b is = record {
  status = is.status;
  others = is.others;
  live = is.live;
  vector = is.vector;
  queues = is.queues;
  clock = is.clock;
}

pub disconnected :
    (k k2 : Kernel) (m1 : Machine) (ps : List ℕ) (p : Ptr) (s : Status) (calls : List ThreadCall)
    → Becomes k k2 p s
    → Disconnected k2.machine m1 ps p
    → Becomes k (record k2 { machine = m1; calls = calls }) p s
disconnected k k2 m1 ps p s calls is d =
    let (cells, self, _, _) = d.self in
    record {
      status = ap (λ (c : Pcb). c.status) self ∙ is.status;
      others = λ q nz ne.
          status_adopted _ (pcb_of m1 q) (pcb_of k2.machine q) (d.others q nz ne)
          ∙ is.others q nz ne;
      live = λ q l. d.live q (is.live q l);
      vector = is.vector;
      queues = is.queues;
      clock = is.clock;
    }
