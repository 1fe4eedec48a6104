-- ===== src/PcbQueue.antt =====
-- The intrusive FIFO of PCBs: src/kernel/pcb_queue.c and pcb_in_queue of src/kernel/kernel_syscall.c.
-- PCBs live on a heap and are linked through their `next_pcb_ptr`. Reading or writing through NULL or
-- a freed PCB is a fault. `interrupts` says whether the calling thread takes spthread signals.
pub mod Chain
pub mod Push
pub mod Pop
pub mod PopByPid
use pennosgrp.Prelude.{
  ℕ, zero, suc, ◌+◌, ◌-◌, Bool, true, false, Option, none, some, ◌==◌, if◌then◌else◌, Outcome, ok,
  panic, fault, out_of_fuel, ◌>>=◌,
}
use pennosgrp.Pcb.{Ptr, Pcb}

pub record Machine : Type 0 where
  pub heap : Ptr → Option Pcb
  pub interrupts : Bool

pub record Queue : Type 0 where
  pub q_type : ℕ
  pub q_head_ptr : Ptr
  pub q_end_ptr : Ptr
  pub len : ℕ

-- *p
abbrev pub load : Machine → Ptr → Outcome Pcb
load m p = if p == 0 then fault else elim (m.heap p) [ none ↦ fault | some c ↦ ok c ]

abbrev pub write : (Ptr → Option Pcb) → Ptr → Option Pcb → Ptr → Option Pcb
write h p c a = if a == p then c else h a

abbrev pub put : Machine → Ptr → Pcb → Machine
put m p c = record m { heap = write m.heap p (some c) }

-- p->next_pcb_ptr = q
pub set_next : Machine → Ptr → Ptr → Outcome Machine
set_next m p q = do c ← load m p; ok (put m p (record c { next_pcb_ptr = q }))

pub pcb_queue_init : ℕ → Queue
pcb_queue_init code = record { q_type = code; q_head_ptr = 0; q_end_ptr = 0; len = 0 }

-- The walk of pcb_in_queue. A chain of n PCBs takes n + 1 rounds.
pub in_chain : ℕ → Machine → (target cur : Ptr) → Outcome Bool
in_chain zero m target cur = out_of_fuel
in_chain (suc f) m target cur =
    if cur == 0
    then ok false
    else if cur == target
    then ok true
    else do c ← load m cur; in_chain f m target c.next_pcb_ptr

pub pcb_in_queue : Machine → Ptr → Queue → Outcome Bool
pcb_in_queue m p q = in_chain (q.len + 1) m p q.q_head_ptr

pub pcb_queue_pop : Machine → Queue → Outcome (Ptr × Queue × Machine)
pcb_queue_pop m q = if q.len == 0 then ok (0, q, m) else do
  c ← load m q.q_head_ptr
  m1 ← set_next m q.q_head_ptr 0
  ok (
    q.q_head_ptr,
    record q {
      q_head_ptr = c.next_pcb_ptr;
      q_end_ptr = if q.len == 1 then 0 else q.q_end_ptr;
      len = q.len - 1;
    },
    m1,
  )

-- The early return for a PCB that is queued already leaves interrupts disabled.
pub pcb_queue_push : Machine → Queue → Ptr → Outcome (Queue × Machine)
pcb_queue_push m q p = do
  let m1 = record m { interrupts = false }
  found ← pcb_in_queue m1 p q
  if found
      then ok (q, m1)
      else if q.len == 0
      then ok (
        record q { q_head_ptr = p; q_end_ptr = p; len = q.len + 1 },
        record m1 { interrupts = true },
      )
      else do
        m2 ← set_next m1 q.q_end_ptr p
        ok (record q { q_end_ptr = p; len = q.len + 1 }, record m2 { interrupts = true })

-- while (next(cur) != NULL && pid(next(cur)) != target) cur = next(cur);
pub seek_prev : ℕ → Machine → (pid : ℕ) → Ptr → Outcome Ptr
seek_prev zero m pid cur = out_of_fuel
seek_prev (suc f) m pid cur = do
  c ← load m cur
  if c.next_pcb_ptr == 0 then ok cur else do
    n ← load m c.next_pcb_ptr
    if n.pid == pid then ok cur else seek_prev f m pid c.next_pcb_ptr

-- What pcb_queue_pop_by_pid does once its walk has stopped at `prev`.
pub unlink_after : Machine → Queue → Ptr → Outcome (Ptr × Queue × Machine)
unlink_after m q prev = do
  c ← load m prev
  if c.next_pcb_ptr == 0 then ok (0, q, m) else do
    n ← load m c.next_pcb_ptr
    m1 ← set_next m prev n.next_pcb_ptr
    m2 ← set_next m1 c.next_pcb_ptr 0
    ok (
      c.next_pcb_ptr,
      record q {
        q_end_ptr = if c.next_pcb_ptr == q.q_end_ptr then prev else q.q_end_ptr;
        len = q.len - 1;
      },
      m2,
    )

pub pcb_queue_pop_by_pid : Machine → Queue → ℕ → Outcome (Ptr × Queue × Machine)
pcb_queue_pop_by_pid m q pid = if q.len == 0 then ok (0, q, m) else do
  c ← load m q.q_head_ptr
  if c.pid == pid
      then pcb_queue_pop m q
      else do prev ← seek_prev (q.len + 1) m pid q.q_head_ptr; unlink_after m q prev

-- while (!empty) pop
pub drain : ℕ → Machine → Queue → Outcome (Queue × Machine)
drain zero m q = out_of_fuel
drain (suc f) m q =
    if q.len == 0 then ok (q, m) else do (p, q1, m1) ← pcb_queue_pop m q; drain f m1 q1

pub pcb_queue_destroy : Machine → Queue → Outcome (Queue × Machine)
pcb_queue_destroy m q = drain (q.len + 1) m q
