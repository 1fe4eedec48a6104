-- ===== src/Scheduler/Renice.antt =====
-- k_nice of src/kernel/kernel_syscall.c, and what the next scan of src/kernel/scheduler.c makes of it.
use pennosgrp.Prelude.{
  ℕ, ◌+◌, ◌<◌, ◌≡◌, ◌≢◌, refl, ◌∙◌, true, false, ◌||◌, Option, some, List, [], ◌∷◌, arith, length,
  set, get_or-set_ne, length-set, leb, ◌==◌, if◌then◌else◌, if_false, ok, Bool-cases, inl, inr,
  ◌>>=◌, ℤ, pos, negsuc,
}
use pennosgrp.Pcb.{Ptr, Pcb, running, same_status, holds}
use pennosgrp.PcbQueue.{Queue, write}
use pennosgrp.PcbQueue.Chain.{IsQueue, IsChain, has, load_lem, pcb_in_queue_lem, IsChain-put}
use pennosgrp.PcbQueue.Push.{push_empty}
use pennosgrp.PcbVec.Contents.{Holds}
use pennosgrp.Kernel.{Kernel, queue_at, store_pcb}
use pennosgrp.Kernel.Seek.{pcb_of, AllLive, first_pcb, pcb_vec_seek_pcb_by_pid_lem}
use pennosgrp.Kernel.Live.{first_pcb-IsLive}
use pennosgrp.Syscalls.{k_nice, num_priority_queues}
use pennosgrp.Scheduler.{push_to, enqueue, scan_one}
use pennosgrp.Scheduler.Pick.{queue_at-set, IsQueue-interrupts}

-- k_nice fails for a priority that no queue has, and for a pid that no PCB of the vector has. Otherwise
-- it returns 0, and sets the priority of that PCB and nothing else.
pub k_nice_lem :
    (k : Kernel) (ps : List ℕ) (pid : Option ℕ) (priority : ℤ)
    → Holds k.vector ps
    → AllLive k.machine ps
    → let p = first_pcb (λ c. holds pid c.pid) k.machine ps in
      ((n : ℕ) → priority ≡ negsuc n → k_nice k pid priority ≡ ok (negsuc 0, k))
      × ((n : ℕ)
          → priority ≡ pos n
          → k_nice k pid priority ≡ (
              if leb num_priority_queues n || p == 0
              then ok (negsuc 0, k)
              else ok (pos 0, store_pcb k p (record (pcb_of k.machine p) { priority_level = n }))))
unfolding k_nice
k_nice_lem k ps pid priority h live =
    let m = k.machine in
    let p : Ptr = first_pcb (λ c. holds pid c.pid) m ps in
    let sought = pcb_vec_seek_pcb_by_pid_lem m k.vector ps pid h live in
    (
      λ n e. rw e refl,
      λ n e. rw e (elim (Bool-cases (leb num_priority_queues n)) [
        | inl high ↦ rw high refl
        | inr fits ↦
            rw (fits, sought, ◌>>=◌)
              (elim (Bool-cases (p == 0)) [
                | inl missing ↦ rw missing refl
                | inr there ↦
                    if_false _ _ _ there
                    ∙ rw (first_pcb-IsLive (λ c. holds pid c.pid) m ps live there, ◌>>=◌)
                        (rw there refl)
              ])
      ]),
    )

other_queue :
    (k : Kernel) (qs : List Queue) (i j : ℕ) (r q : Queue)
    → (j == i) ≡ false
    → queue_at (record k { queues = qs }) i ≡ ok q
    → queue_at (record k { queues = set qs j r }) i ≡ ok q
other_queue k qs i j r q apart at_i =
    rw
      (
        length-set qs j r,
        get_or-set_ne qs j i r (record { q_type = 0; q_head_ptr = 0; q_end_ptr = 0; len = 0 })
            apart,
      )
      at_i

-- k_nice with the pid of a running PCB and another priority, that of an empty queue, returns 0 and leaves
-- the PCB in its old queue; and the next scan puts it into the queue of its new
-- priority too: the PCB becomes its head and only member, while the old queue
-- still holds it; unless it is the last of the old queue, the new queue is then not well formed, as its
-- chain runs on into the old one.
pub nice_links_two_queues :
    (k : Kernel) (ps : List ℕ) (pid : Option ℕ) (p : Ptr) (c : Pcb) (new : ℕ) (q r : Queue)
    (xs : List Ptr)
    → Holds k.vector ps
    → AllLive k.machine ps
    → first_pcb (λ c. holds pid c.pid) k.machine ps ≡ p
    → new < num_priority_queues
    → p ≢ 0
    → k.machine.heap p ≡ some c
    → same_status c.status running ≡ true
    → queue_at k c.priority_level ≡ ok q
    → IsQueue k.machine q xs
    → has p xs ≡ true
    → new < length k.queues
    → (new == c.priority_level) ≡ false
    → queue_at k new ≡ ok r
    → IsQueue k.machine r []
    → (k1 : Kernel) × (k2 : Kernel) × (k_nice k pid (pos new) ≡ ok (pos 0, k1))
      × (scan_one k1 p ≡ ok (false, k2))
      × (queue_at k2 c.priority_level ≡ ok q)
      × IsQueue k2.machine q xs
      × (r' : Queue) × (queue_at k2 new ≡ ok r')
      × (r'.q_head_ptr ≡ p)
      × (r'.len ≡ 1)
      × ((ys : List Ptr) → IsQueue k2.machine r' ys → c.next_pcb_ptr ≡ 0)
unfolding scan_one enqueue push_to pcb_of
nice_links_two_queues k ps pid p c new q r xs held live sought high nonnull at_p runs at_q valid
      queued lt apart at_r empty =
    let c' = record c { priority_level = new } in
    let k1 = store_pcb k p c' in
    let m1 = k1.machine in
    let at_p' : m1.heap p ≡ some c' = ground arith in
    let empty1 : IsQueue m1 r [] = record {
      chain = empty.chain;
      last = empty.last;
      counted = empty.counted;
    } in
    let r' = record r { q_head_ptr = p; q_end_ptr = p; len = r.len + 1 } in
    let k2 = record k1 {
      machine = record m1 { interrupts = true };
      queues = set k.queues new r';
    } in
    (
      k1,
      k2,
      niced,
      rw (load_lem m1 p c' nonnull at_p', ◌>>=◌)
          (rw runs (
            rw (at_r, ◌>>=◌)
              (rw (pcb_in_queue_lem m1 r [] p empty1, ◌>>=◌)
                (rw (push_empty m1 r p empty1, ◌>>=◌) refl)))),
      other_queue k2 k.queues c.priority_level new r' q apart at_q,
      IsQueue-interrupts m1 true q xs (record {
        chain = IsChain-put k.machine.heap p c c' q.q_head_ptr xs at_p refl valid.chain;
        last = valid.last;
        counted = valid.counted;
      }),
      r',
      queue_at-set k2 k.queues new r' lt,
      refl,
      omega (arith, empty.counted),
      λ ys is. alone ys is.counted is.chain,
    )
  where
    niced : k_nice k pid (pos new) ≡ ok (pos 0, store_pcb k p (record c { priority_level = new }))
    niced =
        (k_nice_lem k ps pid (pos new) held live).1 new refl
        ∙ rw (sought, is_heap) (if_false (leb num_priority_queues new || p == 0) _ _ (ground arith))
      where
        is_heap : pcb_of k.machine p ≡ c
        is_heap = rw (at_p, pcb_of) refl

    alone :
        (ys : List Ptr)
        → r.len + 1 ≡ length ys
        → IsChain (write k.machine.heap p (some (record c { priority_level = new }))) p ys
        → c.next_pcb_ptr ≡ 0
    alone [] counted chain = absurd (omega arith)
    alone (y ∷ []) counted (e, _, _, b, at_y, rest) = ground (arith, at_p, e, at_y, rest)
    alone (y ∷ z ∷ ys) counted chain = absurd (omega (arith, counted, empty.counted))
