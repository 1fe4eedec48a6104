-- ===== src/Jobs.antt =====
-- The shell's job table: src/user/jobs.c and src/user/jobs.h. A pointer into the table is an index, and
-- NULL or -1 is `none`. next_jid is taken not to reach the end of an int. `wait` is s_waitpid without
-- hanging: its result and the wait status. The lines that jobs_list prints, and the installation of the
-- signal handler, are the system's.
pub mod Table
use pennosgrp.Prelude.{
  ℕ, zero, suc, ◌+◌, ◌*◌, ◌%◌, Bool, true, false, not, ◌&&◌, ◌||◌, Option, none, some, List, [],
  ◌∷◌, length, get_or, set, take, replicate, ltb, leb, ◌==◌, if◌then◌else◌, ℤ, pos, negsuc,
}
use pennosgrp.Pcb.{p_sigcont}
use pennosgrp.Syscalls.{p_wifstopped}

pub data JobState : Type 0 where
  job_running job_stopped job_done : JobState

pub record Job : Type 0 where
  pub jid : ℕ
  pub pid : ℕ
  pub cmdline : List ℕ
  pub state : JobState

abbrev pub max_jobs : ℕ
max_jobs = 64

-- A job_t of zeros.
abbrev pub no_job : Job
no_job = record { jid = 0; pid = 0; cmdline = []; state = job_running }

pub record Jobs : Type 0 where
  pub table : List Job
  pub next_jid : ℕ
  pub fg_index : Option ℕ

abbrev pub job : Jobs → ℕ → Job
job s i = get_or s.table i no_job

abbrev pub is_stopped : JobState → Bool
is_stopped job_stopped = true
is_stopped s = false

abbrev pub is_running : JobState → Bool
is_running job_running = true
is_running s = false

-- for (i = 0; i < MAX_JOBS; ++i) if (test(table[i])) return i; return -1;
unfoldable pub first_job : (Job → Bool) → List Job → ℕ → Option ℕ
first_job test [] i = none
first_job test (j ∷ js) i = let rest = first_job test js (i + 1) in if test j then some i else rest

unfoldable pub find_empty_slot : Jobs → Option ℕ
find_empty_slot s = first_job (λ j. j.jid == 0) s.table 0

pub index_by_pid : Jobs → ℕ → Option ℕ
index_by_pid s pid = first_job (λ j. not (j.jid == 0) && j.pid == pid) s.table 0

pub jobs_init : Jobs → Jobs
jobs_init s = record s { table = replicate max_jobs no_job }

-- strncpy leaves the last byte, which is 0.
pub jobs_add : Jobs → ℕ → List ℕ → Bool → ℤ × Jobs
jobs_add s pid cmdline bg = elim (find_empty_slot s) [
  | none ↦ (negsuc 0, s)
  | some i ↦
      let j : Job = record {
        jid = s.next_jid;
        pid = pid;
        cmdline = take 127 cmdline;
        state = job_running;
      } in
      (
        pos s.next_jid,
        record {
          table = set s.table i j;
          next_jid = s.next_jid + 1;
          fg_index = if bg then s.fg_index else some i;
        },
      )
]

pub jobs_update : Jobs → ℕ → JobState → Jobs
jobs_update s pid st = elim (index_by_pid s pid) [
  | none ↦ s
  | some i ↦ record s { table = set s.table i (record (job s i) { state = st }) }
]

pub jobs_remove : Jobs → ℕ → Jobs
jobs_remove s pid = elim (index_by_pid s pid) [
  | none ↦ s
  | some i ↦ record s { table = set s.table i no_job }
]

pub jobs_by_jid : Jobs → ℕ → Option ℕ
jobs_by_jid s jid = first_job (λ j. j.jid == jid) s.table 0

abbrev pub jobs_current_fg : Jobs → Option ℕ
jobs_current_fg s = s.fg_index

pub jobs_have_stopped : List Job → Bool
jobs_have_stopped [] = false
jobs_have_stopped (j ∷ js) =
    let rest = jobs_have_stopped js in if not (j.jid == 0) && is_stopped j.state then true else rest

-- The state that a wait status gives a job.
pub state_of_status : ℕ → JobState
state_of_status status =
    if p_wifstopped status
    then job_stopped
    else if status == p_sigcont
    then job_running
    else job_done

abbrev pub is_index : Option ℕ → ℕ → Bool
is_index none i = false
is_index (some j) i = j == i

-- A round of the SIGCHLD handler.
pub reap_job : (ℕ → ℤ × ℕ) → ℕ → Jobs → Jobs
reap_job wait i s =
    let (pid, status) = wait (job s i).pid in
    if (job s i).jid == 0 then s else elim pid [
      | negsuc n ↦ s
      | pos zero ↦ s
      | pos (suc n) ↦
          let st = state_of_status status in
          record s {
            table = set s.table i (record (job s i) { state = st });
            fg_index = if is_index s.fg_index i && not (is_running st) then none else s.fg_index;
          }
    ]

reap_from : (ℕ → ℤ × ℕ) → ℕ → ℕ → Jobs → Jobs
reap_from wait zero i s = s
reap_from wait (suc n) i s = reap_from wait n (i + 1) (reap_job wait i s)

pub chld_handler : (ℕ → ℤ × ℕ) → Jobs → Jobs
unfolding reap_from
chld_handler wait s = reap_from wait max_jobs 0 s
