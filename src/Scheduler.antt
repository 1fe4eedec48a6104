-- ===== src/Scheduler.antt =====
-- The scheduler's loop of src/kernel/scheduler.c: the scan of the PCB vector, the choice of a PCB from a
-- queue, and what stands before and after the quantum, in which sigsuspend lets the chosen thread run.
-- The set-up of signals and of the timer is the system's.
pub mod Wake
pub mod Pick
pub mod Quantum
pub mod Renice
pub mod Sleep
use pennosgrp.Prelude.{
  ℕ, zero, suc, ◌+◌, ◌-◌, ◌%◌, ◌^◌, Bool, true, false, not, ◌&&◌, Option, none, some, List, [], ◌∷◌,
  ◌++◌, length, get_or, set, ltb, leb, ◌==◌, if◌then◌else◌, Outcome, ok, panic, fault, out_of_fuel,
  ◌>>=◌,
}
use pennosgrp.Pcb.{Ptr, Pcb, running, blocked, reaped, same_status}
use pennosgrp.PcbQueue.{
  Machine, Queue, load, put, pcb_in_queue, pcb_queue_push, pcb_queue_pop, pcb_queue_pop_by_pid,
}
use pennosgrp.PcbVec.{PcbVec, pcb_vec_remove_by_pcb}
use pennosgrp.Kernel.{
  Kernel, suspend, continue, interrupts, store_pcb, call, ptr_at, queue_at, pcb_destroy,
}

abbrev pub queue_pick_pattern : List ℕ
queue_pick_pattern = 0 ∷ 1 ∷ 0 ∷ 2 ∷ 1 ∷ 0 ∷ 1 ∷ 0 ∷ 2 ∷ 0 ∷ 1 ∷ 0 ∷ 2 ∷ 0 ∷ 1 ∷ 0 ∷ 1 ∷ 0 ∷ 2 ∷ []

-- pcb_queue_push(&priority_queue_array[i], p)
pub push_to : Kernel → ℕ → Ptr → Outcome Kernel
push_to k i p = do
  q ← queue_at k i
  (q1, m1) ← pcb_queue_push k.machine q p
  ok (record k { machine = m1; queues = set k.queues i q1 })

-- global_clock - stamp >= length, in unsigned arithmetic.
abbrev pub slept : Kernel → Pcb → Bool
slept k c = leb c.sleep_length ((k.global_clock + 2 ^ 32 - c.sleep_stamp) % 2 ^ 32)

-- A blocked PCB with a sleep stamp runs again once its time is over.
pub wake : Kernel → Ptr → Pcb → Outcome Kernel
wake k p c =
    if slept k c
    then push_to (store_pcb k p (record c { status = running })) c.priority_level p
    else ok k

-- The reaped PCB leaves its queue and the vector, and is freed.
pub remove_reaped : Kernel → Ptr → Pcb → Outcome Kernel
remove_reaped k p c = do
  q ← queue_at k c.priority_level
  (popped, q1, m1) ← pcb_queue_pop_by_pid k.machine q c.pid
  (code, v) ← pcb_vec_remove_by_pcb k.vector p
  ok (record k {
    machine = pcb_destroy m1 p;
    queues = set k.queues c.priority_level q1;
    vector = v;
  })

-- A running PCB that is not in the queue of its priority goes there.
pub enqueue : Kernel → Ptr → Pcb → Outcome Kernel
enqueue k p c = do
  q ← queue_at k c.priority_level
  queued ← pcb_in_queue k.machine p q
  if queued then ok k else push_to k c.priority_level p

-- A round of the scan: whether its PCB was removed.
pub scan_one : Kernel → Ptr → Outcome (Bool × Kernel)
scan_one k p = do
  c ← load k.machine p
  if same_status c.status running
      then (do k1 ← enqueue k p c; ok (false, k1))
      else if same_status c.status blocked && not (c.sleep_stamp == 0)
      then (do k1 ← wake k p c; ok (false, k1))
      else if same_status c.status reaped
      then (do k1 ← remove_reaped k p c; ok (true, k1))
      else ok (false, k)

-- for (i = ...; i < len; i++), where a removal takes i back.
pub scan : ℕ → ℕ → Kernel → Outcome Kernel
scan zero i k = out_of_fuel
scan (suc f) i k = if leb k.vector.len i then ok k else do
  p ← ptr_at k.vector i
  (removed, k1) ← scan_one k p
  scan f (if removed then i else i + 1) k1

-- Each round brings i nearer to the length, or the length nearer to i.
pub scan_vector : Kernel → Outcome Kernel
scan_vector k = do k1 ← scan (k.vector.len + 1) 0 (interrupts false k); ok (interrupts true k1)

pub all_queues_empty : List Queue → Bool
all_queues_empty [] = true
all_queues_empty (q ∷ qs) = let rest = all_queues_empty qs in if q.len == 0 then rest else false

-- The walk that drops PCBs which do not run, up to the first one that does.
pub refresh : ℕ → Machine → Queue → Ptr → Outcome (Ptr × Queue × Machine)
refresh zero m q cur = out_of_fuel
refresh (suc f) m q cur = if cur == 0 then ok (0, q, m) else do
  c ← load m cur
  if same_status c.status running
      then ok (cur, q, m)
      else do (popped, q1, m1) ← pcb_queue_pop_by_pid m q c.pid; refresh f m1 q1 c.next_pcb_ptr

-- The thread that runs in the slot of queue i, or NULL.
pub pick : Kernel → ℕ → Outcome (Ptr × Kernel)
pick k i = do
  let k0 = interrupts false k
  q ← queue_at k0 i
  (p, q1, m1) ← refresh (q.len + 1) k0.machine q q.q_head_ptr
  let k1 = interrupts true (record k0 { machine = m1; queues = set k0.queues i q1 })
  if p == 0 then ok (0, k1) else do c ← load k1.machine p; ok (p, call (continue c.thrd) k1)

abbrev pub tick : Kernel → Kernel
tick k = record k { global_clock = (k.global_clock + 1) % 2 ^ 32 }

-- A slot of the pattern up to sigsuspend: all queues are empty, the slot's queue has no PCB that runs,
-- or the PCB runs for a quantum.
pub data Slot : Type 0 where
  idle passes : Slot
  runs : Ptr → Slot

pub before_quantum : Kernel → ℕ → Outcome (Slot × Kernel)
before_quantum k slot = do
  k1 ← scan_vector k
  if all_queues_empty k1.queues then ok (idle, tick k1) else do
    (p, k2) ← pick k1 (get_or queue_pick_pattern slot 0)
    if p == 0 then ok (passes, k2) else ok (runs p, tick k2)

-- What follows the quantum of `p`, from queue i. The early `continue` leaves interrupts disabled.
pub after_quantum : Kernel → ℕ → Ptr → Outcome Kernel
after_quantum k i p = do
  let k1 = interrupts false k
  q ← queue_at k1 i
  (popped, q1, m1) ← pcb_queue_pop k1.machine q
  let k2 = record k1 { machine = m1; queues = set k1.queues i q1 }
  if popped == 0 then ok k2 else do
    c ← load k2.machine p
    k3 ←
        (if same_status c.status running
          then push_to (call (suspend c.thrd) k2) c.priority_level p
          else if same_status c.status blocked && not (c.sleep_stamp == 0)
          then wake k2 p c
          else if same_status c.status reaped
          then (do
            (code, v) ← pcb_vec_remove_by_pcb k2.vector p
            ok (record k2 { vector = v; machine = pcb_destroy k2.machine p }))
          else ok k2)
    ok (interrupts true k3)
