-- ===== src/Tests/Processes.antt =====
-- The system calls at a shell with a running child and a dead one.
use pennosgrp.Prelude.{
  ℕ, zero, suc, ◌≤◌, ◌≡◌, refl, true, false, some, [], ◌∷◌, arith, ◌==◌, ℤ, pos, ok,
}
use pennosgrp.Pcb.{zombie, holds, blocked, p_sigterm}
use pennosgrp.PcbQueue.{Machine}
use pennosgrp.Kernel.{
  Kernel, store_pcb, queue_at, get_next_free_pid, pcb_disconnect_child, k_proc_create,
}
use pennosgrp.Kernel.Seek.{pcb_of, AllLive, first_pcb}
use pennosgrp.Kernel.Live.{IsLive}
use pennosgrp.Kernel.Pids.{get_next_free_pid_lem}
use pennosgrp.Kernel.Create.{k_proc_create_lem}
use pennosgrp.Kernel.Orphans.{Disconnected, pcb_disconnect_child_lem}
use pennosgrp.Syscalls.{k_kill, k_exit, k_sleep, k_nice, k_waitpid, k_waitpid_joined, returns}
use pennosgrp.Syscalls.Change.{Becomes}
use pennosgrp.Syscalls.Signals.{signalled, k_kill_lem}
use pennosgrp.Syscalls.Exit.{k_exit_lem}
use pennosgrp.Syscalls.Wait.{k_waitpid_lem, k_waitpid_joined_lem}
use pennosgrp.Scheduler.Sleep.{k_sleep_lem}
use pennosgrp.Scheduler.Renice.{k_nice_lem}
use pennosgrp.Tests.{
  all_ok, all_ok_lem, machine, vector, pcbs, ready, kernel, vector-Holds, ready-IsQueue,
}

pub pcbs-AllLive : AllLive machine pcbs
unfolding AllLive pcb_of
pcbs-AllLive zero lt = refl
pcbs-AllLive (suc zero) lt = refl
pcbs-AllLive (suc (suc zero)) lt = refl
pcbs-AllLive (suc (suc (suc i))) lt = absurd (omega arith)

get_next_free_pid_lem_example : (pid : ℕ) × (get_next_free_pid machine vector ≡ ok pid) × (3 ≤ pid)
get_next_free_pid_lem_example = (
  (get_next_free_pid_lem machine vector pcbs vector-Holds pcbs-AllLive).0,
  (get_next_free_pid_lem machine vector pcbs vector-Holds pcbs-AllLive).1,
  (get_next_free_pid_lem machine vector pcbs vector-Holds pcbs-AllLive).2,
)

shell-IsLive : IsLive machine 11
unfolding pcb_of
shell-IsLive = refl

dead-IsLive : IsLive machine 13
unfolding pcb_of
dead-IsLive = refl

has_room : ((pcb_of machine 11).num_child_pids == 128) ≡ false
unfolding pcb_of
has_room = refl

k_proc_create_lem_example :
    (k : Kernel) × (pid : ℕ) × (k_proc_create all_ok kernel 14 11 1 ≡ ok (14, k)) × (3 ≤ pid)
k_proc_create_lem_example = (
  (k_proc_create_lem all_ok all_ok_lem kernel pcbs 14 11 1 vector-Holds pcbs-AllLive (omega arith)
      refl refl shell-IsLive has_room).0,
  (k_proc_create_lem all_ok all_ok_lem kernel pcbs 14 11 1 vector-Holds pcbs-AllLive (omega arith)
      refl refl shell-IsLive has_room).1,
  (k_proc_create_lem all_ok all_ok_lem kernel pcbs 14 11 1 vector-Holds pcbs-AllLive (omega arith)
      refl refl shell-IsLive has_room).2,
  (k_proc_create_lem all_ok all_ok_lem kernel pcbs 14 11 1 vector-Holds pcbs-AllLive (omega arith)
      refl refl shell-IsLive has_room).3,
)

pcb_disconnect_child_lem_example :
    (m : Machine) × (pcb_disconnect_child kernel 11 ≡ ok (record kernel { machine = m }))
    × Disconnected machine m pcbs 11
pcb_disconnect_child_lem_example =
    pcb_disconnect_child_lem kernel 11 pcbs vector-Holds pcbs-AllLive shell-IsLive

found_child : (first_pcb (λ c. holds (some 3) c.pid) machine pcbs == 0) ≡ false
unfolding first_pcb pcb_of
found_child = refl

k_kill_lem_example :
    (k : Kernel) × (k_kill kernel (some 3) 3 ≡ ok (pos 0, k))
    × Becomes kernel k
        (first_pcb (λ c. holds (some 3) c.pid) machine pcbs)
        (signalled 3 (pcb_of machine (first_pcb (λ c. holds (some 3) c.pid) machine pcbs)).status)
k_kill_lem_example = (k_kill_lem kernel pcbs (some 3) 3 vector-Holds pcbs-AllLive).1 found_child

found_self : (first_pcb (λ c. c.thrd == 101) machine pcbs == 0) ≡ false
unfolding first_pcb pcb_of
found_self = refl

k_exit_lem_example :
    (k : Kernel) × (k_exit 101 kernel ≡ ok k)
    × Becomes kernel k (first_pcb (λ c. c.thrd == 101) machine pcbs) zombie
k_exit_lem_example = (
  (k_exit_lem 101 kernel pcbs vector-Holds pcbs-AllLive found_self).0,
  (k_exit_lem 101 kernel pcbs vector-Holds pcbs-AllLive found_self).1,
  (k_exit_lem 101 kernel pcbs vector-Holds pcbs-AllLive found_self).2,
)

k_waitpid_lem_example : k_waitpid 101 kernel (pos 3) true ≡ ok (returns (pos 0), kernel)
unfolding first_pcb pcb_of
k_waitpid_lem_example = k_waitpid_lem 101 kernel pcbs 2 true vector-Holds pcbs-AllLive found_self

its_queue : queue_at kernel (pcb_of machine 11).priority_level ≡ ok ready
unfolding pcb_of
its_queue = refl

ended : (pcb_of machine 13).status ≡ zombie
unfolding pcb_of
ended = refl

terminated :
    ((pcb_of machine 13).term_signal == 0) ≡ false → (pcb_of machine 13).term_signal ≡ p_sigterm
unfolding pcb_of
terminated h = refl

k_waitpid_joined_lem_example :
    (k : Kernel) × (pid : ℕ) × (w : ℤ) × (k_waitpid_joined kernel 11 13 ≡ ok (pid, w, k))
k_waitpid_joined_lem_example = (
  (k_waitpid_joined_lem kernel 11 13 ready (11 ∷ 12 ∷ []) shell-IsLive dead-IsLive refl its_queue
      ready-IsQueue ended terminated).0,
  (k_waitpid_joined_lem kernel 11 13 ready (11 ∷ 12 ∷ []) shell-IsLive dead-IsLive refl its_queue
      ready-IsQueue ended terminated).1,
  (k_waitpid_joined_lem kernel 11 13 ready (11 ∷ 12 ∷ []) shell-IsLive dead-IsLive refl its_queue
      ready-IsQueue ended terminated).2,
  (k_waitpid_joined_lem kernel 11 13 ready (11 ∷ 12 ∷ []) shell-IsLive dead-IsLive refl its_queue
      ready-IsQueue ended terminated).3,
)

k_sleep_lem_example :
    (k : Kernel) × (k_sleep 101 kernel 2 ≡ ok k)
    × ((pcb_of k.machine (first_pcb (λ c. c.thrd == 101) machine pcbs)).status ≡ blocked)
k_sleep_lem_example = (
  (k_sleep_lem 101 kernel pcbs 2 vector-Holds pcbs-AllLive (omega arith) found_self).0,
  (k_sleep_lem 101 kernel pcbs 2 vector-Holds pcbs-AllLive (omega arith) found_self).1,
  (k_sleep_lem 101 kernel pcbs 2 vector-Holds pcbs-AllLive (omega arith) found_self).2,
)

k_nice_lem_example :
    k_nice kernel (some 3) (pos 2)
    ≡ ok (pos 0, store_pcb kernel 12 (record (pcb_of machine 12) { priority_level = 2 }))
unfolding first_pcb pcb_of
k_nice_lem_example = (k_nice_lem kernel pcbs (some 3) (pos 2) vector-Holds pcbs-AllLive).1 2 refl
