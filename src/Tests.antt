-- ===== src/Tests.antt =====
-- Sample states of the program, and the tests that run on them.
mod Vectors
mod Queues
mod Processes
mod Files
mod Lines
mod Trees
mod Calls
use pennosgrp.Prelude.{
  ℕ, zero, suc, ◌<◌, ◌≤◌, ◌≡◌, ◌≢◌, refl, get_or, Bool, true, false, Option, none, some, List, [],
  ◌∷◌, arith, ◌==◌, if◌then◌else◌, pos, negsuc,
}
use pennosgrp.Pcb.{Ptr, Pcb, Status, running, stopped, blocked, zombie, fresh_pcb}
use pennosgrp.PcbQueue.{Machine, Queue}
use pennosgrp.PcbVec.{PcbVec}
use pennosgrp.PcbQueue.Chain.{IsQueue}
use pennosgrp.PcbVec.Contents.{Holds}
use pennosgrp.Kernel.{Kernel}
use pennosgrp.Vec.{Vec}

abbrev pub all_ok : ℕ → Bool
all_ok n = true

pub all_ok_lem : (n : ℕ) → all_ok n ≡ true
all_ok_lem n = refl

abbrev pub two_items : Vec
two_items = record {
  cells = some 7 ∷ some 8 ∷ [];
  len = 2;
  capacity = 2;
  has_dtor = true;
  destroyed = [];
}

-- A PCB without a thread, children or link.
abbrev pub plain : (ppid pid : ℕ) → Pcb
plain ppid pid = record {
  thrd = 0;
  pid = pid;
  pgid = pid;
  ppid = ppid;
  priority_level = 1;
  command = 0;
  num_child_pids = 0;
  child_pids = [];
  next_pcb_ptr = 0;
  status = stopped;
  pre_status = stopped;
  exit_code = negsuc 0;
  term_signal = 0;
  stop_signal = 0;
  cont_signal = 0;
  errno = 0;
  sleep_stamp = 0;
  sleep_length = 0;
  fds = 0;
}

-- The shell (pid 2) at 11, with a child (pid 3) at 12 that runs behind it in the queue of priority 1,
-- and a second child (pid 4) at 13, a zombie.
abbrev pub shell : Pcb
shell = record (plain 1 2) {
  thrd = 101;
  status = running;
  next_pcb_ptr = 12;
  num_child_pids = 2;
  child_pids = some 3 ∷ some 4 ∷ [];
}

abbrev pub child : Pcb
child = record (plain 2 3) { thrd = 102; status = running }

abbrev pub dead : Pcb
dead = record (plain 2 4) { thrd = 103; status = zombie; exit_code = pos 1; term_signal = 3 }

abbrev pub heap : Ptr → Option Pcb
heap p =
    if p == 11
    then some shell
    else if p == 12
    then some child
    else if p == 13
    then some dead
    else none

abbrev pub machine : Machine
machine = record { heap = heap; interrupts = true }

abbrev pub pcbs : List ℕ
pcbs = 11 ∷ 12 ∷ 13 ∷ []

abbrev pub vector : PcbVec
vector = record {
  pcb_ptr_array = some 11 ∷ some 12 ∷ some 13 ∷ none ∷ [];
  len = 3;
  capacity = 4;
  has_dtor = false;
  freed = [];
}

abbrev pub no_pcbs : ℕ → Queue
no_pcbs i = record { q_type = i; q_head_ptr = 0; q_end_ptr = 0; len = 0 }

abbrev pub ready : Queue
ready = record { q_type = 1; q_head_ptr = 11; q_end_ptr = 12; len = 2 }

abbrev pub kernel : Kernel
kernel = record {
  machine = machine;
  vector = vector;
  queues = no_pcbs 0 ∷ ready ∷ no_pcbs 2 ∷ [];
  global_clock = 5;
  k_errno = 0;
  calls = [];
}

pub vector-Holds : Holds vector pcbs
vector-Holds = record { len = refl; fits = omega arith; allocated = refl; at = λ i lt. at i lt }
  where
    at : (i : ℕ) → i < 3 → get_or vector.pcb_ptr_array i none ≡ some (get_or pcbs i 0)
    at zero lt = refl
    at (suc zero) lt = refl
    at (suc (suc zero)) lt = refl
    at (suc (suc (suc i))) lt = absurd (omega arith)

pub ready-IsQueue : IsQueue machine ready (11 ∷ 12 ∷ [])
ready-IsQueue = record {
  chain = (refl, nonzero 10, refl, shell, refl, (refl, nonzero 11, refl, child, refl, refl));
  last = refl;
  counted = refl;
}
  where
    nonzero : (n : ℕ) → suc n ≢ 0
    nonzero n e = omega arith
