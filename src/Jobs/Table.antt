-- ===== src/Jobs/Table.antt =====
-- What the job table of src/user/jobs.c keeps.
use pennosgrp.Prelude.{
  ℕ, zero, suc, ◌+◌, ◌<◌, ◌≡◌, refl, ap, subst, ◌∙◌, Bool, true, false, none, some, List, [], ◌∷◌,
  arith, length, get_or, set, take, length-set, get_or-set_ne, get_or-set_self, ◌==◌, if◌then◌else◌,
  pos, negsuc, Bool-cases, inl, inr,
}
use pennosgrp.Jobs.{
  Job, job_running, Jobs, job, no_job, first_job, find_empty_slot, jobs_add, jobs_by_jid,
}

-- No job has an id that is still to be given, and the next id is positive.
pub record IsTable (s : Jobs) : Type 0 where
  pub fresh : (i : ℕ) → (job s i).jid < s.next_jid
  pub started : 0 < s.next_jid

-- What a search that succeeds says of the table.
found_job :
    (test : Job → Bool) (js : List Job) (i j : ℕ)
    → first_job test js i ≡ some j
    → (k : ℕ) × (j ≡ i + k) × (k < length js) × (test (get_or js k no_job) ≡ true)
unfolding first_job
found_job test [] i j e = absurd (ground (arith, e))
found_job test (x ∷ xs) i j e = elim (Bool-cases (test x)) [
  | inl here ↦ (0, ground (arith, e, here), omega arith, here)
  | inr not_here ↦
      let (k, at, lt, passes) = found_job test xs (i + 1) j (ground (arith, e, not_here)) in
      (suc k, omega arith, omega arith, passes)
]

first_job_at :
    (test : Job → Bool) (js : List Job) (i k : ℕ)
    → k < length js
    → test (get_or js k no_job) ≡ true
    → ((n : ℕ) → n < k → test (get_or js n no_job) ≡ false)
    → first_job test js i ≡ some (i + k)
unfolding first_job
first_job_at test [] i k lt passes before = absurd (omega arith)
first_job_at test (x ∷ xs) i zero lt passes before = rw passes (ap some (omega arith))
first_job_at test (x ∷ xs) i (suc k) lt passes before = rw (before 0 (omega arith)) (
    first_job_at test xs (i + 1) k (omega arith) passes (λ n h. before (suc n) (omega arith))
    ∙ ap some (omega arith))

slot-bound : (s : Jobs) (i : ℕ) → find_empty_slot s ≡ some i → i < length s.table
unfolding find_empty_slot
slot-bound s i slot =
    let (k, at, lt, free) = found_job (λ j. j.jid == 0) s.table 0 i slot in omega arith

-- jobs_add to a table with a free slot returns the next job id, under which the job is then found; the
-- job runs with its pid, is the foreground job exactly if it is not in the background (else that stays),
-- and every other slot is as before. Every id stays below the next one.
pub jobs_add_lem :
    (s : Jobs) (pid : ℕ) (cmdline : List ℕ) (bg : Bool) (i : ℕ)
    → IsTable s
    → find_empty_slot s ≡ some i
    → (s' : Jobs) × (jobs_add s pid cmdline bg ≡ (pos s.next_jid, s'))
      × (jobs_by_jid s' s.next_jid ≡ some i)
      × ((job s' i).pid ≡ pid)
      × ((job s' i).state ≡ job_running)
      × (s'.fg_index ≡ (if bg then s.fg_index else some i))
      × ((k : ℕ) → (i == k) ≡ false → job s' k ≡ job s k)
      × IsTable s'
unfolding jobs_add jobs_by_jid
jobs_add_lem s pid cmdline bg i is slot =
    let j : Job = record {
      jid = s.next_jid;
      pid = pid;
      cmdline = take 127 cmdline;
      state = job_running;
    } in
    let s' : Jobs = record {
      table = set s.table i j;
      next_jid = s.next_jid + 1;
      fg_index = if bg then s.fg_index else some i;
    } in
    let inside = slot-bound s i slot in
    let here : job s' i ≡ j = get_or-set_self s.table i j no_job inside in
    let others : (n : ℕ) → (i == n) ≡ false → job s' n ≡ job s n =
      λ n ne. get_or-set_ne s.table i n j no_job ne in
    (
      s',
      rw (slot, jobs_add) refl,
      first_job_at (λ c. c.jid == s.next_jid) s'.table 0 i (omega (arith, length-set s.table i j))
            (ground (arith, ap (λ (c : Job). c.jid) here))
            (λ n h. ground (arith, others n (ground arith), is.fresh n))
          ∙ ap some (omega arith),
      ap (λ (c : Job). c.pid) here,
      ap (λ (c : Job). c.state) here,
      refl,
      others,
      record {
        fresh = λ n. elim (Bool-cases (i == n)) [
          | inl same ↦
              let e : i ≡ n = ground (arith, same) in
              subst (λ r. (job s' r).jid < s.next_jid + 1) e
                (omega (arith, ap (λ (c : Job). c.jid) here))
          | inr ne ↦ omega (arith, ap (λ (c : Job). c.jid) (others n ne), is.fresh n)
        ];
        started = omega arith;
      },
    )

-- A full table refuses the job and stays as it is.
pub jobs_add_full :
    (s : Jobs) (pid : ℕ) (cmdline : List ℕ) (bg : Bool)
    → find_empty_slot s ≡ none
    → jobs_add s pid cmdline bg ≡ (negsuc 0, s)
unfolding jobs_add
jobs_add_full s pid cmdline bg full = rw (full, jobs_add) refl
