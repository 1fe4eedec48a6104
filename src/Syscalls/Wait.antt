-- ===== src/Syscalls/Wait.antt =====
-- k_waitpid of src/kernel/kernel_syscall.c and the wait status macros of src/kernel/kernel_definition.h.
use pennosgrp.Prelude.{
  ℕ, suc, ◌+◌, ◌*◌, ◌<◌, ◌≡◌, refl, ap, ◌∙◌, true, false, Bool, not, ◌&&◌, none, some, List, [],
  ◌∷◌, ◌++◌, arith, length, get_or, ◌==◌, if◌then◌else◌, if_false, ok, Bool-cases, inl, inr, ◌>>=◌,
  ℤ, pos, negsuc,
}
use pennosgrp.Pcb.{Ptr, Pcb, running, blocked, zombie, reaped, same_status, p_sigterm}
use pennosgrp.PcbQueue.{Machine, Queue, load, put}
use pennosgrp.PcbQueue.Chain.{IsQueue, IsChain-put, has, pcb_in_queue_lem}
use pennosgrp.PcbVec.{PcbVec}
use pennosgrp.PcbVec.Contents.{Holds}
use pennosgrp.Kernel.{
  Kernel, join, suspend_self, interrupts, store_pcb, call, queue_at, pcb_vec_seek_pcb_by_thrd,
}
use pennosgrp.Kernel.Seek.{
  pcb_of, AllLive, AllLive-tail, first_pcb, first_cell, next_cell, pcb_vec_seek_pcb_by_thrd_lem,
}
use pennosgrp.Kernel.Live.{
  IsLive, pcb_of-put, first_pcb-IsLive, AllLive-interrupts, load-interrupts, first_pcb-interrupts,
  pcb_of-interrupts, heap_lem,
}
use pennosgrp.Syscalls.{
  find_target, Waiting, returns, joins, k_waitpid, reap, k_waitpid_joined, shift_8, p_echild,
  p_wifexited, p_wexitstatus, p_wifsignaled, p_wtermsig, p_wifstopped,
}

-- The test of k_waitpid on a PCB: a child of the caller, with the pid.
abbrev pub is_target : ℕ → ℕ → Pcb → Bool
is_target self_pid pid c = c.ppid == self_pid && c.pid == pid

find_target_loop :
    (self_pid pid : ℕ) (m : Machine) (v : PcbVec) (ps : List ℕ) (i : ℕ)
    → ((j : ℕ) → j < length ps → get_or v.pcb_ptr_array (i + j) none ≡ some (get_or ps j 0))
    → AllLive m ps
    → find_target (length ps) i m v self_pid pid ≡ ok (first_pcb (is_target self_pid pid) m ps)
unfolding find_target first_pcb AllLive
find_target_loop self_pid pid m v [] i at live = refl
find_target_loop self_pid pid m v (p ∷ ps) i at live =
    rw (first_cell v i p (at 0 (omega arith)), ◌>>=◌)
      (rw (live 0 (omega arith), ◌>>=◌)
        (rw
          (find_target_loop self_pid pid m v ps (i + 1)
            (λ j lt. next_cell v i j ∙ at (suc j) (omega arith)) (AllLive-tail m p ps live))
          (pick (is_target self_pid pid (pcb_of m p)) (first_pcb (is_target self_pid pid) m ps))))
  where
    pick : (b : Bool) (q : ℕ) → (if b then ok p else ok q) ≡ ok (if b then p else q)
    pick true q = refl
    pick false q = refl

find_target_lem :
    (self_pid pid : ℕ) (m : Machine) (v : PcbVec) (ps : List ℕ)
    → Holds v ps
    → AllLive m ps
    → find_target v.len 0 m v self_pid pid ≡ ok (first_pcb (is_target self_pid pid) m ps)
find_target_lem self_pid pid m v ps h live =
    ap (λ n. find_target n 0 m v self_pid pid) h.len
    ∙ find_target_loop self_pid pid m v ps 0
        (λ j lt. ap (λ n. get_or v.pcb_ptr_array n none) (omega arith) ∙ h.at j lt) live

-- k_waitpid for a positive pid, called by a thread with a PCB, up to the join. Without a child of that
-- pid it returns -1 and sets k_errno to P_ECHILD. With one that is not a zombie, nohang returns 0 and
-- changes nothing. Otherwise the caller is blocked and joins the child's thread.
pub k_waitpid_lem :
    (me : ℕ) (k : Kernel) (ps : List ℕ) (n : ℕ) (nohang : Bool)
    → Holds k.vector ps
    → AllLive k.machine ps
    → let self = first_pcb (λ c. c.thrd == me) k.machine ps in
      (self == 0) ≡ false
      → let child = first_pcb (is_target (pcb_of k.machine self).pid (suc n)) k.machine ps in
        let alive = not (same_status (pcb_of k.machine child).status zombie) in
        k_waitpid me k (pos (suc n)) nohang
        ≡ ok (
            if child == 0
            then (returns (negsuc 0), record k { k_errno = p_echild })
            else if alive && nohang
            then (returns (pos 0), k)
            else (
              joins self child,
              call (join (pcb_of k.machine child).thrd) (
                  interrupts true (
                    store_pcb
                      (interrupts false k)
                      self
                      (record (pcb_of k.machine self) { status = blocked }))),
            ))
unfolding k_waitpid
k_waitpid_lem me k ps n nohang h live there =
    let m = k.machine in
    let self = first_pcb (λ c. c.thrd == me) m ps in
    let child = first_pcb (is_target (pcb_of m self).pid (suc n)) m ps in
    let sought = pcb_vec_seek_pcb_by_thrd_lem m k.vector ps me h live in
    let is = first_pcb-IsLive (λ c. c.thrd == me) m ps live there in
    let found = find_target_lem (pcb_of m self).pid (suc n) m k.vector ps h live in
    let k1 = interrupts false k in
    let self_again : pcb_vec_seek_pcb_by_thrd k1.machine k.vector me ≡ ok self =
      pcb_vec_seek_pcb_by_thrd_lem k1.machine k.vector ps me h (AllLive-interrupts m false ps live)
      ∙ ap ok (first_pcb-interrupts (λ c. c.thrd == me) m false ps) in
    let self_live = load-interrupts m false self is in
    rw (sought, ◌>>=◌)
      (if_false _ _ _ there
        ∙ rw (is, ◌>>=◌)
            (rw (found, ◌>>=◌)
              (elim (Bool-cases (child == 0)) [
                | inl missing ↦ rw missing refl
                | inr some_child ↦
                    if_false _ _ _ some_child
                    ∙ rw
                        (
                          first_pcb-IsLive (is_target (pcb_of m self).pid (suc n)) m ps live
                              some_child,
                          ◌>>=◌,
                        )
                        (rw (some_child, self_again, ◌>>=◌)
                          (rw (self_live, ◌>>=◌)
                            (pick (not (same_status (pcb_of m child).status zombie) && nohang) _
                              _)))
              ])))
  where
    pick :
        (b : Bool) (x y : Waiting × Kernel) → (if b then ok x else ok y) ≡ ok (if b then x else y)
    pick true x y = refl
    pick false x y = refl

-- What k_waitpid tells of a child that ended: its pid, and a wait status from which the macros read how
-- it ended.
pub record Reaped (c : Pcb) (result : ℕ) (w : ℤ) : Type 0 where
  pub pid : result ≡ c.pid
  pub exited :
      (n : ℕ)
      → c.term_signal ≡ 0
      → c.exit_code ≡ pos n
      → n < 256
      → (u : ℕ) × (w ≡ pos u)
        × (p_wifexited u ≡ true)
        × (p_wexitstatus u ≡ n)
        × (p_wifsignaled u ≡ false)
        × (p_wifstopped u ≡ false)
  pub killed :
      c.term_signal ≡ p_sigterm
      → (u : ℕ) × (w ≡ pos u)
        × (p_wifexited u ≡ false)
        × (p_wifsignaled u ≡ true)
        × (p_wtermsig u ≡ p_sigterm)
        × (p_wifstopped u ≡ false)

exited_status :
    (n : ℕ)
    → n < 256
    → (p_wifexited (n * 256) ≡ true)
      × (p_wexitstatus (n * 256) ≡ n)
      × (p_wifsignaled (n * 256) ≡ false)
      × (p_wifstopped (n * 256) ≡ false)
unfolding p_wifexited p_wexitstatus p_wifsignaled p_wifstopped
exited_status n small = (ground arith, ground arith, ground arith, ground arith)

killed_status :
    (p_wifexited 3 ≡ false)
    × (p_wifsignaled 3 ≡ true)
    × (p_wtermsig 3 ≡ 3)
    × (p_wifstopped 3 ≡ false)
unfolding p_wifexited p_wtermsig p_wifsignaled p_wifstopped
killed_status = (refl, refl, refl, refl)

status_of : (c : Pcb) → ℤ
status_of c = if c.term_signal == 0 then shift_8 c.exit_code else pos c.term_signal

status_of-Reaped : (c : Pcb) → Reaped c c.pid (status_of c)
unfolding status_of
status_of-Reaped c = record {
  pid = refl;
  exited = λ n normal code small.
      let (a, b, d, e) = exited_status n small in (n * 256, rw (normal, code) refl, a, b, d, e);
  killed = λ sig. let (a, b, d, e) = killed_status in (3, rw sig refl, a, b, d, e);
}

reap_lem :
    (k : Kernel) (child : Ptr) (c : Pcb)
    → load k.machine child ≡ ok c
    → c.status ≡ zombie
    → ((c.term_signal == 0) ≡ false → c.term_signal ≡ p_sigterm)
    → reap k child ≡ ok (c.pid, status_of c, store_pcb k child (record c { status = reaped }))
unfolding reap status_of
reap_lem k child c at_child ended sig =
    rw (at_child, ◌>>=◌)
      (rw ended (elim (Bool-cases (c.term_signal == 0)) [
        | inl normal ↦ rw normal refl
        | inr killed ↦ rw (sig killed) refl
      ]))

-- When the child that k_waitpid joined is a zombie, and its term signal is none or P_SIGTERM, k_waitpid
-- returns the child's pid and a wait status that tells its exit code, or the signal; the child is
-- reaped, the caller runs again, no other process changes, and the caller suspends itself exactly if it
-- is not in the queue of its priority.
pub k_waitpid_joined_lem :
    (k : Kernel) (self child : Ptr) (q : Queue) (xs : List Ptr)
    → IsLive k.machine self
    → IsLive k.machine child
    → (child == self) ≡ false
    → queue_at k (pcb_of k.machine self).priority_level ≡ ok q
    → IsQueue k.machine q xs
    → (pcb_of k.machine child).status ≡ zombie
    → (((pcb_of k.machine child).term_signal == 0) ≡ false
        → (pcb_of k.machine child).term_signal ≡ p_sigterm)
    → (k' : Kernel) × (pid : ℕ) × (w : ℤ) × (k_waitpid_joined k self child ≡ ok (pid, w, k'))
      × Reaped (pcb_of k.machine child) pid w
      × ((pcb_of k'.machine child).status ≡ reaped)
      × ((pcb_of k'.machine self).status ≡ running)
      × ((r : Ptr)
          → (r == self) ≡ false
          → (r == child) ≡ false
          → pcb_of k'.machine r ≡ pcb_of k.machine r)
      × (k'.vector ≡ k.vector)
      × (k'.calls ≡ (if has self xs then k.calls else k.calls ++ suspend_self ∷ []))
unfolding k_waitpid_joined
k_waitpid_joined_lem k self child q xs is_self is_child apart at_q valid ended sig =
    let m = k.machine in
    let s = pcb_of m self in
    let c = pcb_of m child in
    let s' = record s { status = running } in
    let c' = record c { status = reaped } in
    let k2 = store_pcb (interrupts false k) self s' in
    let queued : IsQueue k2.machine q xs = record {
      chain =
          IsChain-put m.heap self s s' q.q_head_ptr xs (heap_lem m self is_self) refl valid.chain;
      last = valid.last;
      counted = valid.counted;
    } in
    let k4 : Kernel =
      if has self xs then interrupts true k2 else call suspend_self (interrupts true k2) in
    let k3 = interrupts true k2 in
    let same : k4.machine ≡ k3.machine = ap (λ k. k.machine) (kept (has self xs) k3) in
    let at_child : load k4.machine child ≡ ok c = ap (λ m. load m child) same ∙ rw apart is_child in
    let at : (r : Ptr) → pcb_of k4.machine r ≡ (if r == self then s' else pcb_of m r) = λ r.
      ap (λ m. pcb_of m r) same
      ∙ pcb_of-interrupts (put m self s') true r
      ∙ pcb_of-put m self r s' in
    (
      store_pcb k4 child c',
      c.pid,
      status_of c,
      rw (load-interrupts m false self is_self, ◌>>=◌)
          (rw (at_q, ◌>>=◌)
            (rw (pcb_in_queue_lem k2.machine q xs self queued, ◌>>=◌)
              (reap_lem k4 child c at_child ended sig))),
      status_of-Reaped c,
      ground (arith, pcb_of-put k4.machine child child c'),
      ground (arith, pcb_of-put k4.machine child self c', at self, apart),
      λ r not_self not_child.
          ground (arith, pcb_of-put k4.machine child r c', at r, not_self, not_child),
      ap (λ k. k.vector) (kept (has self xs) k3),
      ap (λ k. k.calls) (kept (has self xs) k3),
    )
  where
    kept :
        (b : Bool) (k : Kernel)
        → (if b then k else call suspend_self k)
          ≡ record k { calls = if b then k.calls else k.calls ++ suspend_self ∷ [] }
    kept true k = refl
    kept false k = refl
