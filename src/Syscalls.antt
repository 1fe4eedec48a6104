-- ===== src/Syscalls.antt =====
-- The process system calls of src/kernel/kernel_syscall.c and the wait status macros of
-- src/kernel/kernel_definition.h. `me` is the thread that calls. A call that blocks is two steps: what
-- it does before it suspends or joins, and what it does when it goes on.
pub mod Change
pub mod Signals
pub mod Exit
pub mod Wait
use pennosgrp.Prelude.{
  ℕ, zero, suc, ◌+◌, ◌-◌, ◌*◌, ◌/◌, ◌%◌, ◌^◌, Bool, true, false, not, ◌&&◌, ◌||◌, Option, none,
  some, List, [], ◌∷◌, ◌++◌, length, get_or, set, ltb, leb, ◌==◌, if◌then◌else◌, ℤ, pos, negsuc,
  Outcome, ok, panic, fault, ◌>>=◌,
}
use pennosgrp.Pcb.{
  Ptr, Pcb, Status, running, stopped, blocked, zombie, reaped, same_status, p_sigstop, p_sigcont,
  p_sigterm,
}
use pennosgrp.PcbQueue.{Machine, Queue, load, put, pcb_in_queue}
use pennosgrp.PcbVec.{PcbVec}
use pennosgrp.Kernel.{
  Kernel, ThreadCall, suspend, continue, cancel, join, suspend_self, exit_self, interrupts,
  store_pcb, call, ptr_at, queue_at, k_get_self_pcb, pcb_vec_seek_pcb_by_pid, pcb_disconnect_child,
}

abbrev pub num_priority_queues : ℕ
num_priority_queues = 3

-- P_ECHILD
abbrev pub p_echild : ℕ
p_echild = 2

-- The three signals, at the PCB that k_kill has found.
pub sigstop : Kernel → Ptr → Outcome Kernel
sigstop k p = do
  c ← load k.machine p
  let k1 = call (suspend c.thrd) (interrupts false k)
  if same_status c.status running
      then ok (
          interrupts true (store_pcb k1 p (record c { status = stopped; stop_signal = p_sigstop })))
      else ok k

pub sigcont : Kernel → Ptr → Outcome Kernel
sigcont k p = do
  c ← load k.machine p
  let d = record c { status = running; cont_signal = p_sigcont }
  if same_status c.status stopped
      then ok (interrupts true (store_pcb (interrupts false k) p d))
      else ok k

pub sigterm : Kernel → Ptr → Outcome Kernel
sigterm k p = do
  c ← load k.machine p
  let k1 =
      call (suspend c.thrd) (call (continue c.thrd) (call (cancel c.thrd) (interrupts false k)))
  let d = record c { status = zombie; term_signal = p_sigterm; exit_code = pos 1 }
  if same_status c.status zombie
      then ok k
      else do k2 ← pcb_disconnect_child (store_pcb k1 p d) p; ok (interrupts true k2)

pub k_kill : Kernel → Option ℕ → ℕ → Outcome (ℤ × Kernel)
k_kill k pid sig = do
  p ← pcb_vec_seek_pcb_by_pid k.machine k.vector pid
  if p == 0 then ok (negsuc 0, k) else do
    k1 ←
        (if sig == p_sigstop
          then sigstop k p
          else if sig == p_sigcont
          then sigcont k p
          else if sig == p_sigterm
          then sigterm k p
          else ok k)
    ok (pos 0, k1)

-- Up to spthread_exit, which does not return.
pub k_exit : ℕ → Kernel → Outcome Kernel
k_exit me k = do
  p ← k_get_self_pcb me k
  if p == 0 then ok (call exit_self k) else do
    c ← load k.machine p
    let k1 =
        store_pcb (interrupts false k) p
          (record c { status = zombie; term_signal = 0; exit_code = pos 0 })
    k2 ← pcb_disconnect_child (interrupts true k1) p
    ok (call exit_self k2)

-- Up to spthread_suspend_self. `self` is not tested for NULL.
unfoldable pub k_sleep : ℕ → Kernel → ℕ → Outcome Kernel
k_sleep me k seconds = do
  let k1 = interrupts false k
  p ← k_get_self_pcb me k1
  c ← load k1.machine p
  let d = record c {
    sleep_stamp = k.global_clock;
    sleep_length = seconds * 10 % 2 ^ 32;
    status = blocked;
  }
  ok (call suspend_self (interrupts true (store_pcb k1 p d)))

-- From there on.
pub k_sleep_wakes : Kernel → Ptr → Outcome Kernel
k_sleep_wakes k p = do
  c ← load k.machine p
  ok (store_pcb k p (record c { sleep_stamp = 0; sleep_length = 0 }))

unfoldable pub k_nice : Kernel → Option ℕ → ℤ → Outcome (ℤ × Kernel)
k_nice k pid (negsuc n) = ok (negsuc 0, k)
k_nice k pid (pos priority) = if leb num_priority_queues priority then ok (negsuc 0, k) else do
  p ← pcb_vec_seek_pcb_by_pid k.machine k.vector pid
  if p == 0 then ok (negsuc 0, k) else do
    c ← load k.machine p
    ok (pos 0, store_pcb k p (record c { priority_level = priority }))

pub k_tcsetpid : ℕ → ℤ
k_tcsetpid pid = negsuc 0

pub k_pipe : ℕ → ℤ
k_pipe fds = negsuc 0

-- The child that k_waitpid finds.
pub find_target : ℕ → ℕ → Machine → PcbVec → (self_pid pid : ℕ) → Outcome Ptr
find_target zero i m v self_pid pid = ok 0
find_target (suc n) i m v self_pid pid = do
  p ← ptr_at v i
  c ← load m p
  if c.ppid == self_pid && c.pid == pid then ok p else find_target n (i + 1) m v self_pid pid

-- What k_waitpid does up to the join: it has its result, or it waits for the child.
pub data Waiting : Type 0 where
  returns : ℤ → Waiting
  joins : (self child : Ptr) → Waiting

pub k_waitpid : ℕ → Kernel → ℤ → Bool → Outcome (Waiting × Kernel)
k_waitpid me k (negsuc n) nohang = panic
k_waitpid me k (pos zero) nohang = panic
k_waitpid me k (pos (suc n)) nohang = do
  self ← k_get_self_pcb me k
  if self == 0 then ok (returns (negsuc 0), k) else do
    s ← load k.machine self
    child ← find_target k.vector.len 0 k.machine k.vector s.pid (suc n)
    if child == 0 then ok (returns (negsuc 0), record k { k_errno = p_echild }) else do
      c ← load k.machine child
      if not (same_status c.status zombie) && nohang then ok (returns (pos 0), k) else do
        let k1 = interrupts false k
        self1 ← k_get_self_pcb me k1
        s1 ← load k1.machine self1
        let k2 = interrupts true (store_pcb k1 self1 (record s1 { status = blocked }))
        ok (joins self1 child, call (join c.thrd) k2)

-- exit_code << 8, for an int whose bits do not overflow.
abbrev pub shift_8 : ℤ → ℤ
shift_8 (pos n) = pos (n * 256)
shift_8 (negsuc n) = negsuc (n * 256 + 255)

-- The end of k_waitpid: the child is reaped, and its end is reported to a wstatus that is not NULL.
pub reap : Kernel → Ptr → Outcome (ℕ × ℤ × Kernel)
reap k child = do
  c ← load k.machine child
  let k1 = store_pcb k child (record c { status = reaped })
  if not (same_status c.status zombie)
      then panic
      else if c.term_signal == 0
      then ok (c.pid, shift_8 c.exit_code, k1)
      else if c.term_signal == p_sigterm
      then ok (c.pid, pos c.term_signal, k1)
      else panic

-- From the join on.
pub k_waitpid_joined : Kernel → (self child : Ptr) → Outcome (ℕ × ℤ × Kernel)
k_waitpid_joined k self child = do
  let k1 = interrupts false k
  s ← load k1.machine self
  let k2 = store_pcb k1 self (record s { status = running })
  q ← queue_at k2 s.priority_level
  queued ← pcb_in_queue k2.machine self q
  reap (if queued then interrupts true k2 else call suspend_self (interrupts true k2)) child

-- The macros on a wait status that is not negative.
pub p_wifexited : ℕ → Bool
p_wifexited w = w % 128 == 0

pub p_wexitstatus : ℕ → ℕ
p_wexitstatus w = w / 256 % 256

pub p_wifsignaled : ℕ → Bool
p_wifsignaled w = not (w % 128 == 0) && not (w % 128 == 127)

pub p_wtermsig : ℕ → ℕ
p_wtermsig w = w % 128

pub p_wifstopped : ℕ → Bool
p_wifstopped w = w % 256 == 127

pub p_wstopsig : ℕ → ℕ
p_wstopsig w = w / 256 % 256

pub p_wifcontinued : ℕ → Bool
p_wifcontinued w = w == 0xFFFF
