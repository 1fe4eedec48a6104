-- ===== src/Pcb.antt =====
-- Process control blocks: src/kernel/PCB.h and src/kernel/PCB.c.
-- A pid that the kernel hands out is at least 1; the -1 of an unused child slot is `none`. Pointers
-- (to PCBs, threads, strings) are numbers, and NULL is 0.
pub mod Children
use pennosgrp.Prelude.{
  ℕ, zero, suc, ◌+◌, ◌-◌, Bool, true, false, ◌&&◌, ◌||◌, Option, none, some, List, [], ◌∷◌, get_or,
  set, replicate, ltb, leb, ◌==◌, if◌then◌else◌, ℤ, pos, negsuc, Outcome, ok, panic, fault, ◌>>=◌,
}
use pennosgrp.Array.{Cells, shift_down}

abbrev pub Ptr : Type 0
Ptr = ℕ

-- thrd_status_t
pub data Status : Type 0 where
  running stopped blocked zombie reaped : Status

abbrev pub same_status : Status → Status → Bool
same_status running running = true
same_status stopped stopped = true
same_status blocked blocked = true
same_status zombie zombie = true
same_status reaped reaped = true
same_status a b = false

-- k_signal_t; a field that holds no signal is 0.
abbrev pub p_sigstop : ℕ
p_sigstop = 1

abbrev pub p_sigcont : ℕ
p_sigcont = 2

abbrev pub p_sigterm : ℕ
p_sigterm = 3

abbrev pub num_children_max : ℕ
num_children_max = 128

pub record Pcb : Type 0 where
  pub thrd : ℕ
  pub pid : ℕ
  pub pgid : ℕ
  pub ppid : ℕ
  pub priority_level : ℕ
  pub command : Ptr
  pub num_child_pids : ℕ
  pub child_pids : Cells
  pub next_pcb_ptr : Ptr
  pub status : Status
  pub pre_status : Status
  pub exit_code : ℤ
  pub term_signal : ℕ
  pub stop_signal : ℕ
  pub cont_signal : ℕ
  pub errno : ℕ
  pub sleep_stamp : ℕ
  pub sleep_length : ℕ
  pub fds : Ptr

abbrev pub holds : Option ℕ → ℕ → Bool
holds none pid = false
holds (some c) pid = c == pid

-- for (i = 0; i < num_child; i++) if (child_pids[i] == pid) break;
-- The result is the index at which the loop stops.
pub find_child : ℕ → ℕ → Cells → ℕ → ℕ
find_child zero i a pid = i
find_child (suc k) i a pid =
    let rest = find_child k (i + 1) a pid in if holds (get_or a i none) pid then i else rest

unfoldable pub pcb_add_child_pid : Pcb → ℕ → ℤ × Pcb
pcb_add_child_pid p pid = if p.num_child_pids == num_children_max then (negsuc 0, p) else (
  pos 0,
  record p {
    child_pids = set p.child_pids p.num_child_pids (some pid);
    num_child_pids = p.num_child_pids + 1;
  },
)

pub pcb_remove_child_pid : Pcb → ℕ → ℤ × Pcb
pcb_remove_child_pid p pid =
    let index = find_child p.num_child_pids 0 p.child_pids pid in
    if p.num_child_pids == 0
    then (negsuc 0, p)
    else if index == p.num_child_pids
    then (negsuc 0, p)
    else (
      pos 0,
      record p {
        child_pids =
            set (shift_down (p.num_child_pids - 1 - index) index p.child_pids)
              (p.num_child_pids - 1) none;
        num_child_pids = p.num_child_pids - 1;
      },
    )

pub is_thrd_status_changed : Pcb → Bool
is_thrd_status_changed p =
    if same_status p.status stopped || same_status p.status zombie
    then same_status p.status p.pre_status
    else same_status p.pre_status stopped && p.cont_signal == p_sigcont

pub reset_pcb_status_signal : Pcb → Pcb
reset_pcb_status_signal p = record p {
  pre_status = p.status;
  exit_code = pos 0;
  term_signal = 0;
  stop_signal = 0;
  cont_signal = 0;
}

-- The fields that pcb_init_empty gives a new PCB, behind its memory and parent.
unfoldable pub fresh_pcb : (ppid priority pid : ℕ) → Pcb
fresh_pcb ppid priority pid = record {
  thrd = 0;
  pid = pid;
  pgid = pid;
  ppid = ppid;
  priority_level = priority;
  command = 0;
  num_child_pids = 0;
  child_pids = replicate num_children_max none;
  next_pcb_ptr = 0;
  status = stopped;
  pre_status = stopped;
  exit_code = negsuc 0;
  term_signal = 0;
  stop_signal = 0;
  cont_signal = 0;
  errno = 0;
  sleep_stamp = 0;
  sleep_length = 0;
  fds = 0;
}
