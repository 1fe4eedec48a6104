-- ===== src/Kernel.antt =====
-- The kernel's shared state and the life of a process: the searches of src/kernel/pcb_vec.c that look
-- into PCBs, src/kernel/PCB.c where it uses them, and process creation and clean-up of
-- src/kernel/kernel_syscall.c. A pid argument is `none` where it is negative, which matches no PCB. The
-- calls of spthread are recorded in order. Reading an indeterminate cell is a fault.
pub mod Seek
pub mod Pids
pub mod Live
pub mod Adopt
pub mod Orphans
pub mod Create
use pennosgrp.Prelude.{
  ℕ, zero, suc, ◌+◌, ◌-◌, ◌*◌, ◌%◌, ◌^◌, Bool, true, false, not, ◌&&◌, ◌||◌, Option, none, some,
  List, [], ◌∷◌, ◌++◌, length, get_or, set, ltb, leb, ◌==◌, if◌then◌else◌, ℤ, pos, negsuc, is_neg,
  Outcome, ok, panic, fault, out_of_fuel, ◌>>=◌,
}
use pennosgrp.Pcb.{
  Ptr, Pcb, Status, running, stopped, blocked, zombie, reaped, same_status, holds, fresh_pcb,
  pcb_add_child_pid, pcb_remove_child_pid,
}
use pennosgrp.PcbQueue.{Machine, Queue, load, write, put, pcb_in_queue, pcb_queue_push}
use pennosgrp.PcbVec.{PcbVec, pcb_vec_push_back, pcb_vec_remove_by_pcb}

pub data ThreadCall : Type 0 where
  suspend continue cancel join : ℕ → ThreadCall
  suspend_self exit_self : ThreadCall

pub record Kernel : Type 0 where
  pub machine : Machine
  pub vector : PcbVec
  pub queues : List Queue
  pub global_clock : ℕ
  pub k_errno : ℕ
  pub calls : List ThreadCall

-- spthread_disable_interrupts_self and spthread_enable_interrupts_self
abbrev pub interrupts : Bool → Kernel → Kernel
interrupts b k = record k { machine = record k.machine { interrupts = b } }

abbrev pub store_pcb : Kernel → Ptr → Pcb → Kernel
store_pcb k p c = record k { machine = put k.machine p c }

abbrev pub call : ThreadCall → Kernel → Kernel
call c k = record k { calls = k.calls ++ c ∷ [] }

-- vec->pcb_ptr_array[i]
abbrev pub ptr_at : PcbVec → ℕ → Outcome Ptr
ptr_at v i = elim (get_or v.pcb_ptr_array i none) [ none ↦ fault | some p ↦ ok p ]

-- priority_queue_array[i]
abbrev pub queue_at : Kernel → ℕ → Outcome Queue
queue_at k i =
    if ltb i (length k.queues)
    then ok (get_or k.queues i (record { q_type = 0; q_head_ptr = 0; q_end_ptr = 0; len = 0 }))
    else fault

-- for (i = ...; i < len; i++) if (test(a[i])) return a[i]; return NULL;
pub seek_pcb : (Pcb → Bool) → ℕ → ℕ → Machine → PcbVec → Outcome Ptr
seek_pcb test zero i m v = ok 0
seek_pcb test (suc k) i m v = do
  p ← ptr_at v i
  c ← load m p
  if test c then ok p else seek_pcb test k (i + 1) m v

pub pcb_vec_seek_pcb_by_pid : Machine → PcbVec → Option ℕ → Outcome Ptr
pcb_vec_seek_pcb_by_pid m v pid =
    if v.len == 0 then ok 0 else seek_pcb (λ c. holds pid c.pid) v.len 0 m v

-- A thread handle stands for its pthread_t, and pthread_equal for equality.
pub pcb_vec_seek_pcb_by_thrd : Machine → PcbVec → ℕ → Outcome Ptr
pcb_vec_seek_pcb_by_thrd m v thrd =
    if v.len == 0 then ok 0 else seek_pcb (λ c. c.thrd == thrd) v.len 0 m v

-- `me` is pthread_self().
abbrev pub k_get_self_pcb : ℕ → Kernel → Outcome Ptr
k_get_self_pcb me k = pcb_vec_seek_pcb_by_thrd k.machine k.vector me

pub k_get_pid : Kernel → Ptr → Outcome ℤ
k_get_pid k p = if p == 0 then ok (negsuc 0) else do c ← load k.machine p; ok (pos c.pid)

-- The inner loop of get_next_free_pid.
pub pid_used : ℕ → ℕ → Machine → PcbVec → ℕ → Outcome Bool
pid_used zero i m v candidate = ok false
pid_used (suc k) i m v candidate = do
  p ← ptr_at v i
  c ← load m p
  if c.pid == candidate then ok true else pid_used k (i + 1) m v candidate

pub free_pid_loop : ℕ → Machine → PcbVec → ℕ → Outcome ℕ
free_pid_loop zero m v candidate = out_of_fuel
free_pid_loop (suc f) m v candidate = do
  used ← pid_used v.len 0 m v candidate
  if not used then ok candidate else free_pid_loop f m v (candidate + 1)

-- Each round passes a pid that a PCB has, so one more round than there are PCBs is enough.
pub get_next_free_pid : Machine → PcbVec → Outcome ℕ
get_next_free_pid m v = free_pid_loop (v.len + 1) m v 3

-- `fresh` is what calloc returns. -1 is `none`.
pub pcb_init_empty : Machine → (fresh parent : Ptr) → (priority pid : ℕ) → Outcome (Option Machine)
pcb_init_empty m fresh parent priority pid =
    if fresh == 0
    then ok none
    else if parent == 0
    then ok (some (put m fresh (fresh_pcb 0 priority pid)))
    else do
      c ← load m parent
      let added = pcb_add_child_pid c pid
      if is_neg added.0
          then ok none
          else ok (some (put (put m parent added.1) fresh (fresh_pcb c.pid priority pid)))

pub pcb_init :
    Machine
    → (fresh parent : Ptr) → (thread priority pid : ℕ) → (command : Ptr) → Outcome (Option Machine)
pcb_init m fresh parent thread priority pid command = do
  made ← pcb_init_empty m fresh parent priority pid
  elim made [
    | none ↦ ok none
    | some m1 ↦ do
      c ← load m1 fresh
      ok (some (put m1 fresh (record c { thrd = thread; command = command; status = running })))
  ]

pub pcb_disconnect_parent : Kernel → Ptr → Outcome Kernel
pcb_disconnect_parent k p = do
  c ← load k.machine p
  parent ← pcb_vec_seek_pcb_by_pid k.machine k.vector (some c.ppid)
  if parent == 0
      then ok k
      else do d ← load k.machine parent; ok (store_pcb k parent (pcb_remove_child_pid d c.pid).1)

-- self->child_pids[i] = -1
pub clear_child : ℕ → Kernel → Ptr → Outcome Kernel
clear_child i k p = do
  c ← load k.machine p
  ok (store_pcb k p (record c { child_pids = set c.child_pids i none }))

-- child->ppid = 1, init
pub adopt : Kernel → Ptr → Outcome Kernel
adopt k child =
    if child == 0
    then ok k
    else do d ← load k.machine child; ok (store_pcb k child (record d { ppid = 1 }))

-- A round of the loop of pcb_disconnect_child.
pub disconnect_one : ℕ → Kernel → Ptr → Outcome Kernel
disconnect_one i k p = do
  c ← load k.machine p
  child ← pcb_vec_seek_pcb_by_pid k.machine k.vector (get_or c.child_pids i none)
  k1 ← adopt k child
  clear_child i k1 p

pub disconnect_loop : ℕ → ℕ → Kernel → Ptr → Outcome Kernel
disconnect_loop zero i k p = ok k
disconnect_loop (suc n) i k p = do k1 ← disconnect_one i k p; disconnect_loop n (i + 1) k1 p

pub pcb_disconnect_child : Kernel → Ptr → Outcome Kernel
pcb_disconnect_child k p = do
  c ← load k.machine p
  k1 ← disconnect_loop c.num_child_pids 0 k p
  c1 ← load k1.machine p
  ok (store_pcb k1 p (record c1 { num_child_pids = 0 }))

-- free(self)
abbrev pub pcb_destroy : Machine → Ptr → Machine
pcb_destroy m p = record m { heap = write m.heap p none }

pub k_proc_create : (ℕ → Bool) → Kernel → (fresh parent : Ptr) → ℕ → Outcome (Ptr × Kernel)
k_proc_create alloc_ok k fresh parent priority = do
  let k1 = interrupts false k
  pid ← get_next_free_pid k1.machine k1.vector
  made ← pcb_init_empty k1.machine fresh parent priority pid
  elim made [
    | none ↦ panic
    | some m ↦ do
      let k2 = interrupts true (record k1 { machine = m })
      v ← pcb_vec_push_back alloc_ok k2.vector fresh
      ok (fresh, record k2 { vector = v })
  ]

pub k_register_pcb : (ℕ → Bool) → Kernel → Ptr → Outcome Kernel
k_register_pcb alloc_ok k p =
    if p == 0
    then ok k
    else do v ← pcb_vec_push_back alloc_ok k.vector p; ok (record k { vector = v })

pub k_proc_cleanup : Kernel → Ptr → Outcome (ℤ × Kernel)
k_proc_cleanup k p = if p == 0 then ok (negsuc 0, k) else do
  (code, v) ← pcb_vec_remove_by_pcb k.vector p
  ok (pos 0, record k { vector = v; machine = pcb_destroy k.machine p })
