-- ===== src/Tests/Queues.antt =====
-- The queue operations and the scheduler at a queue of two PCBs.
use pennosgrp.Prelude.{suc, ◌≡◌, ◌≢◌, refl, true, false, [], ◌∷◌, some, pos, ℕ, arith, ok}
use pennosgrp.PcbQueue.{Machine, Queue, pcb_queue_pop, pcb_queue_push, pcb_queue_pop_by_pid}
use pennosgrp.PcbQueue.Chain.{IsQueue, has}
use pennosgrp.PcbQueue.Push.{pcb_queue_push_lem, pcb_queue_push_queued}
use pennosgrp.PcbQueue.Pop.{pcb_queue_pop_lem}
use pennosgrp.PcbQueue.PopByPid.{find_pid, Popped, pcb_queue_pop_by_pid_lem}
use pennosgrp.Kernel.{Kernel}
use pennosgrp.Kernel.Seek.{pcb_of, first_pcb}
use pennosgrp.Pcb.{same_status, running, holds}
use pennosgrp.Syscalls.{k_nice}
use pennosgrp.Scheduler.{pick, scan_one, after_quantum}
use pennosgrp.Scheduler.Pick.{from_running, head_of, pick_lem}
use pennosgrp.Scheduler.Quantum.{round_robin}
use pennosgrp.Scheduler.Wake.{Enqueued, should_run, scan_one_lem}
use pennosgrp.Scheduler.Renice.{nice_links_two_queues}
use pennosgrp.Tests.Processes.{pcbs-AllLive}
use pennosgrp.Tests.{
  pcbs, vector-Holds, heap, machine, ready, kernel, shell, dead, no_pcbs, ready-IsQueue,
}

empty-IsQueue : IsQueue machine (no_pcbs 2) []
empty-IsQueue = record { chain = refl; last = refl; counted = refl }

nonnull : (n : ℕ) → suc n ≢ 0
nonnull n e = omega arith

pcb_queue_push_lem_example :
    (q : Queue) × (m : Machine) × (pcb_queue_push machine ready 13 ≡ ok (q, m))
pcb_queue_push_lem_example = (
  (pcb_queue_push_lem machine ready (11 ∷ 12 ∷ []) 13 dead ready-IsQueue (nonnull 12) refl refl
      refl).0,
  (pcb_queue_push_lem machine ready (11 ∷ 12 ∷ []) 13 dead ready-IsQueue (nonnull 12) refl refl
      refl).1,
  (pcb_queue_push_lem machine ready (11 ∷ 12 ∷ []) 13 dead ready-IsQueue (nonnull 12) refl refl
      refl).2,
)

pcb_queue_push_queued_example :
    pcb_queue_push machine ready 12 ≡ ok (ready, record machine { interrupts = false })
pcb_queue_push_queued_example =
    pcb_queue_push_queued machine ready (11 ∷ 12 ∷ []) 12 ready-IsQueue refl

pcb_queue_pop_lem_example :
    (q : Queue) × (m : Machine) × (pcb_queue_pop machine ready ≡ ok (11, q, m))
pcb_queue_pop_lem_example = (
  (pcb_queue_pop_lem machine ready 11 (12 ∷ []) ready-IsQueue).0,
  (pcb_queue_pop_lem machine ready 11 (12 ∷ []) ready-IsQueue).1,
  (pcb_queue_pop_lem machine ready 11 (12 ∷ []) ready-IsQueue).2,
)

pcb_queue_pop_by_pid_lem_example :
    (q : Queue) × (m : Machine) × (pcb_queue_pop_by_pid machine ready 3
      ≡ ok (find_pid machine.heap 3 (11 ∷ 12 ∷ []), q, m))
    × Popped machine q m 3 (11 ∷ 12 ∷ [])
pcb_queue_pop_by_pid_lem_example =
    pcb_queue_pop_by_pid_lem machine ready (11 ∷ 12 ∷ []) 3 ready-IsQueue

pick_lem_example :
    (k : Kernel) × (pick kernel 1 ≡ ok (head_of (from_running heap (11 ∷ 12 ∷ [])), k))
pick_lem_example = (
  (pick_lem kernel 1 ready (11 ∷ 12 ∷ []) (omega arith) refl ready-IsQueue).0,
  (pick_lem kernel 1 ready (11 ∷ 12 ∷ []) (omega arith) refl ready-IsQueue).1,
)

round_robin_example : (k : Kernel) × (q : Queue) × (after_quantum kernel 1 11 ≡ ok k)
round_robin_example = (
  (round_robin kernel 11 shell ready (12 ∷ []) refl refl (omega arith) refl ready-IsQueue).0,
  (round_robin kernel 11 shell ready (12 ∷ []) refl refl (omega arith) refl ready-IsQueue).1,
  (round_robin kernel 11 shell ready (12 ∷ []) refl refl (omega arith) refl ready-IsQueue).2,
)

scan_one_lem_example :
    (same_status dead.status running ≡ true
      → has 13 (11 ∷ 12 ∷ []) ≡ true
      → scan_one kernel 13 ≡ ok (false, kernel))
    × (should_run kernel dead ≡ true
        → has 13 (11 ∷ 12 ∷ []) ≡ false
        → dead.next_pcb_ptr ≡ 0
        → (k : Kernel) × (scan_one kernel 13 ≡ ok (false, k))
          × Enqueued kernel k 13 dead (11 ∷ 12 ∷ []))
    × (should_run kernel dead ≡ false → scan_one kernel 13 ≡ ok (false, kernel))
scan_one_lem_example =
    scan_one_lem kernel 13 dead ready (11 ∷ 12 ∷ []) (nonnull 12) refl refl (omega arith) refl
      ready-IsQueue

shell_found : first_pcb (λ c. holds (some 2) c.pid) machine pcbs ≡ 11
unfolding first_pcb pcb_of
shell_found = refl

nice_links_two_queues_example :
    (k1 : Kernel) × (k2 : Kernel) × (k_nice kernel (some 2) (pos 2) ≡ ok (pos 0, k1))
    × (scan_one k1 11 ≡ ok (false, k2))
nice_links_two_queues_example = (
  (nice_links_two_queues kernel pcbs (some 2) 11 shell 2 ready (no_pcbs 2) (11 ∷ 12 ∷ [])
      vector-Holds pcbs-AllLive shell_found (omega arith) (nonnull 10) refl refl refl ready-IsQueue
      refl (omega arith) refl refl empty-IsQueue).0,
  (nice_links_two_queues kernel pcbs (some 2) 11 shell 2 ready (no_pcbs 2) (11 ∷ 12 ∷ [])
      vector-Holds pcbs-AllLive shell_found (omega arith) (nonnull 10) refl refl refl ready-IsQueue
      refl (omega arith) refl refl empty-IsQueue).1,
  (nice_links_two_queues kernel pcbs (some 2) 11 shell 2 ready (no_pcbs 2) (11 ∷ 12 ∷ [])
      vector-Holds pcbs-AllLive shell_found (omega arith) (nonnull 10) refl refl refl ready-IsQueue
      refl (omega arith) refl refl empty-IsQueue).2,
  (nice_links_two_queues kernel pcbs (some 2) 11 shell 2 ready (no_pcbs 2) (11 ∷ 12 ∷ [])
      vector-Holds pcbs-AllLive shell_found (omega arith) (nonnull 10) refl refl refl ready-IsQueue
      refl (omega arith) refl refl empty-IsQueue).3,
)
