-- ===== src/Scheduler/Quantum.antt =====
-- What follows a quantum in src/kernel/scheduler.c.
use pennosgrp.Prelude.{
  ◌<◌, ◌≡◌, refl, ap, sym, ◌∙◌, true, false, Option, none, some, List, [], ◌∷◌, ◌++◌, arith, length,
  set, length-set, ◌==◌, if_false, ok, ◌>>=◌,
}
use pennosgrp.Pcb.{Ptr, Pcb, running, same_status}
use pennosgrp.PcbQueue.{Queue}
use pennosgrp.PcbQueue.Chain.{IsQueue, OnlyLinks, unlinked, load_lem}
use pennosgrp.PcbQueue.Pop.{pcb_queue_pop_lem}
use pennosgrp.Kernel.{Kernel, queue_at, interrupts, call, suspend}
use pennosgrp.Scheduler.{push_to, after_quantum}
use pennosgrp.Scheduler.Pick.{queue_at-set, IsQueue-interrupts}
use pennosgrp.Scheduler.Wake.{push_to_lem}

-- After the quantum of the head of a queue that still runs, its thread is suspended, and the PCB goes
-- from the front of the queue to its end; no PCB changes but in its link.
pub round_robin :
    (k : Kernel) (p : Ptr) (c : Pcb) (q : Queue) (xs : List Ptr)
    → k.machine.heap p ≡ some c
    → same_status c.status running ≡ true
    → c.priority_level < length k.queues
    → queue_at k c.priority_level ≡ ok q
    → IsQueue k.machine q (p ∷ xs)
    → (k' : Kernel) × (q' : Queue) × (after_quantum k c.priority_level p ≡ ok k')
      × (queue_at k' c.priority_level ≡ ok q')
      × IsQueue k'.machine q' (xs ++ p ∷ [])
      × OnlyLinks k.machine.heap k'.machine.heap
      × (k'.calls ≡ k.calls ++ suspend c.thrd ∷ [])
      × (k'.machine.interrupts ≡ true)
unfolding after_quantum
round_robin k p c q xs at_p runs lt at_q valid =
    let valid0 = IsQueue-interrupts k.machine false q (p ∷ xs) valid in
    let (q1, m1, pops, valid1, loose, links1, _) =
      pcb_queue_pop_lem (record k.machine { interrupts = false }) q p xs valid0 in
    let (d, at_d, link) = loose in
    let (_, nonnull, out, _, _, _) = valid.chain in
    let same : record d { next_pcb_ptr = 0 } ≡ record c { next_pcb_ptr = 0 } =
      ap the (sym (ap unlinked at_d) ∙ links1 p ∙ ap unlinked at_p) in
    let thread : d.thrd ≡ c.thrd = ap (λ (e : Pcb). e.thrd) same in
    let level : d.priority_level ≡ c.priority_level = ap (λ (e : Pcb). e.priority_level) same in
    let ready : same_status d.status running ≡ true =
      ap (λ (e : Pcb). same_status e.status running) same ∙ runs in
    let k2 = record k { machine = m1; queues = set k.queues c.priority_level q1 } in
    let k3 = call (suspend d.thrd) k2 in
    let (k', pushes, q', at_k', valid', links', _, _, _, calls') =
      push_to_lem k3 c.priority_level q1 xs p d
        (omega (arith, length-set k.queues c.priority_level q1))
        (queue_at-set k3 k.queues c.priority_level q1 lt) valid1 nonnull at_d link out in
    let some_p : (p == 0) ≡ false = ground (arith, nonnull) in
    (
      interrupts true k',
      q',
      rw (at_q, ◌>>=◌)
          (rw (pops, ◌>>=◌)
            (if_false _ _ _ some_p
              ∙ rw (load_lem m1 p d nonnull at_d, ◌>>=◌)
                  (rw ready (rw (ap (λ n. push_to k3 n p) level ∙ pushes, ◌>>=◌) refl)))),
      at_k',
      IsQueue-interrupts k'.machine true q' (xs ++ p ∷ []) valid',
      λ a. links' a ∙ links1 a,
      calls' ∙ rw thread refl,
      refl,
    )
  where
    the : Option Pcb → Pcb
    the none = c
    the (some e) = e
