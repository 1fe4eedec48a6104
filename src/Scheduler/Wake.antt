-- ===== src/Scheduler/Wake.antt =====
-- How the scan of src/kernel/scheduler.c puts a PCB into the queue of its priority, and what k_nice of
-- src/kernel/kernel_syscall.c makes of it.
use pennosgrp.Prelude.{
  ℕ, ◌<◌, ◌≡◌, ◌≢◌, refl, ap, subst, ◌∙◌, true, false, Bool, not, ◌&&◌, ◌||◌, some, List, [], ◌∷◌,
  ◌++◌, arith, length, set, ◌==◌, ok, Bool-cases, inl, inr, ◌>>=◌,
}
use pennosgrp.Pcb.{Ptr, Pcb, running, blocked, reaped, same_status}
use pennosgrp.PcbQueue.{Machine, Queue, put, write}
use pennosgrp.PcbQueue.Chain.{IsQueue, has, OnlyLinks, unlinked, load_lem, frame, pcb_in_queue_lem}
use pennosgrp.PcbQueue.Push.{pcb_queue_push_lem}
use pennosgrp.Kernel.{Kernel, queue_at, store_pcb}
use pennosgrp.Scheduler.{push_to, slept, wake, enqueue, scan_one}
use pennosgrp.Scheduler.Pick.{runs_at, runs_at_lem, runs_at-links, queue_at-set}

pub push_to_lem :
    (k : Kernel) (i : ℕ) (q : Queue) (xs : List Ptr) (p : Ptr) (c : Pcb)
    → i < length k.queues
    → queue_at k i ≡ ok q
    → IsQueue k.machine q xs
    → p ≢ 0
    → k.machine.heap p ≡ some c
    → c.next_pcb_ptr ≡ 0
    → has p xs ≡ false
    → (k' : Kernel) × (push_to k i p ≡ ok k')
      × (q' : Queue) × (queue_at k' i ≡ ok q')
      × IsQueue k'.machine q' (xs ++ p ∷ [])
      × OnlyLinks k.machine.heap k'.machine.heap
      × (k'.machine.interrupts ≡ true)
      × (k'.queues ≡ set k.queues i q')
      × (k'.vector ≡ k.vector)
      × (k'.calls ≡ k.calls)
unfolding push_to
push_to_lem k i q xs p c lt at_i valid nonnull at_p link out =
    let (q', m', pushes, valid', links, ints) =
      pcb_queue_push_lem k.machine q xs p c valid nonnull at_p link out in
    let k' = record k { machine = m'; queues = set k.queues i q' } in
    (
      k',
      rw (at_i, ◌>>=◌) (rw (pushes, ◌>>=◌) refl),
      q',
      queue_at-set k' k.queues i q' lt,
      valid',
      links,
      ints,
      refl,
      refl,
      refl,
    )

IsQueue-write :
    (m : Machine) (q : Queue) (xs : List Ptr) (p : Ptr) (c : Pcb)
    → IsQueue m q xs
    → has p xs ≡ false
    → IsQueue (put m p c) q xs
IsQueue-write m q xs p c valid out = record {
  chain =
      frame m.heap (write m.heap p (some c)) q.q_head_ptr xs (λ a i. rw (apart a xs i out) refl)
        valid.chain;
  last = valid.last;
  counted = valid.counted;
}
  where
    apart : (a : Ptr) (xs : List Ptr) → has a xs ≡ true → has p xs ≡ false → (a == p) ≡ false
    apart a xs i o = elim (Bool-cases (a == p)) [
      | inl same ↦
          let e : a ≡ p = ground (arith, same) in
          absurd (ground (arith, subst (λ r. has r xs ≡ true) e i, o))
      | inr other ↦ other
    ]

-- What the scan tests of a PCB: it runs, or its sleep is over.
abbrev pub should_run : Kernel → Pcb → Bool
should_run k c =
    same_status c.status running
    || (same_status c.status blocked && not (c.sleep_stamp == 0) && slept k c)

-- What putting the PCB into its queue does: it runs, it is the last of the queue, and no PCB changes
-- but in its link.
pub record Enqueued (k k' : Kernel) (p : Ptr) (c : Pcb) (xs : List Ptr) : Type 0 where
  pub queue :
      (q' : Queue) × (queue_at k' c.priority_level ≡ ok q') × IsQueue k'.machine q' (xs ++ p ∷ [])
  pub runs : runs_at k'.machine.heap p ≡ true
  pub others :
      (a : Ptr) → (a == p) ≡ false → unlinked (k'.machine.heap a) ≡ unlinked (k.machine.heap a)
  pub vector : k'.vector ≡ k.vector

-- The scan's round for a PCB that is not reaped: if it runs and is in the queue of its priority already,
-- nothing changes; if it runs, or its sleep is over, and it is in no queue and its link is NULL, it becomes
-- the last of that queue and runs; if it neither runs nor has slept enough, nothing changes.
pub scan_one_lem :
    (k : Kernel) (p : Ptr) (c : Pcb) (q : Queue) (xs : List Ptr)
    → p ≢ 0
    → k.machine.heap p ≡ some c
    → same_status c.status reaped ≡ false
    → c.priority_level < length k.queues
    → queue_at k c.priority_level ≡ ok q
    → IsQueue k.machine q xs
    → (same_status c.status running ≡ true → has p xs ≡ true → scan_one k p ≡ ok (false, k))
      × (should_run k c ≡ true
          → has p xs ≡ false
          → c.next_pcb_ptr ≡ 0
          → (k' : Kernel) × (scan_one k p ≡ ok (false, k')) × Enqueued k k' p c xs)
      × (should_run k c ≡ false → scan_one k p ≡ ok (false, k))
unfolding scan_one wake enqueue
scan_one_lem k p c q xs nonnull at_p alive lt at_i valid =
    let loads = load_lem k.machine p c nonnull at_p in
    elim (Bool-cases (same_status c.status running)) [
      | inl ready ↦
          let queued = pcb_in_queue_lem k.machine q xs p valid in
          (
            λ h inside.
                rw (loads, ◌>>=◌) (rw ready (rw (at_i, ◌>>=◌) (rw (queued, inside, ◌>>=◌) refl))),
            λ h out link.
                let (k', pushes, q', at_k', valid', links, _, _, vec, _) =
                  push_to_lem k c.priority_level q xs p c lt at_i valid nonnull at_p link out in
                (
                  k',
                  rw (loads, ◌>>=◌)
                      (rw ready
                        (rw (at_i, ◌>>=◌) (rw (queued, out, ◌>>=◌) (rw (pushes, ◌>>=◌) refl)))),
                  record {
                    queue = (q', at_k', valid');
                    runs =
                        runs_at-links k.machine.heap k'.machine.heap p links
                        ∙ runs_at_lem k.machine.heap p c at_p
                        ∙ ready;
                    others = λ a ne. links a;
                    vector = vec;
                  },
                ),
            λ h. absurd (ground (arith, h, ready)),
          )
      | inr not_ready ↦
          elim (Bool-cases (same_status c.status blocked && not (c.sleep_stamp == 0))) [
            | inl sleeps ↦ elim (Bool-cases (slept k c)) [
              | inr early ↦ (
                λ h inside. absurd (ground (arith, h, not_ready)),
                λ h out link. absurd (ground (arith, h, not_ready, early)),
                λ h. rw (loads, ◌>>=◌) (rw (not_ready, sleeps) (rw (early, ◌>>=◌) refl)),
              )
              | inl over ↦
                  let c' = record c { status = running } in
                  let k0 = store_pcb k p c' in
                  let at_p' : k0.machine.heap p ≡ some c' = ground arith in
                  (
                    λ h inside. absurd (ground (arith, h, not_ready)),
                    λ h out link.
                        let (k', pushes, q', at_k', valid', links, _, _, vec, _) =
                          push_to_lem k0 c.priority_level q xs p c' lt at_i
                            (IsQueue-write k.machine q xs p c' valid out) nonnull at_p' link out in
                        (
                          k',
                          rw (loads, ◌>>=◌)
                              (rw (not_ready, sleeps) (rw (over, pushes, ◌>>=◌) refl)),
                          record {
                            queue = (q', at_k', valid');
                            runs =
                                runs_at-links k0.machine.heap k'.machine.heap p links
                                ∙ runs_at_lem k0.machine.heap p c' at_p';
                            others = λ a ne. links a ∙ ap unlinked (rw ne refl);
                            vector = vec;
                          },
                        ),
                    λ h. absurd (ground (arith, h, sleeps, over)),
                  )
            ]
            | inr idle ↦ (
              λ h inside. absurd (ground (arith, h, not_ready)),
              λ h out link. absurd (ground (arith, h, not_ready, idle)),
              λ h. rw (loads, ◌>>=◌) (rw (not_ready, idle, alive) refl),
            )
          ]
    ]
