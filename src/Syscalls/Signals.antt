-- ===== src/Syscalls/Signals.antt =====
-- k_kill of src/kernel/kernel_syscall.c.
use pennosgrp.Prelude.{
  ℕ, ◌≡◌, refl, sym, true, false, Option, List, [], ◌∷◌, ◌++◌, arith, ◌==◌, if◌then◌else◌, ok,
  Bool-cases, inl, inr, ◌>>=◌, pos, negsuc,
}
use pennosgrp.Pcb.{
  Ptr, Status, running, stopped, blocked, zombie, reaped, same_status, holds, p_sigstop, p_sigcont,
  p_sigterm,
}
use pennosgrp.PcbVec.Contents.{Holds}
use pennosgrp.Kernel.{Kernel, suspend, continue, cancel, interrupts, store_pcb, call}
use pennosgrp.Kernel.Seek.{pcb_of, AllLive, first_pcb, pcb_vec_seek_pcb_by_pid_lem}
use pennosgrp.Kernel.Live.{IsLive, first_pcb-IsLive, AllLive-all}
use pennosgrp.Kernel.Orphans.{pcb_disconnect_child_lem}
use pennosgrp.Syscalls.{sigstop, sigcont, sigterm, k_kill}
use pennosgrp.Syscalls.Change.{Becomes, stays, stored, interrupted, disconnected}

-- The state that a signal puts a process into.
abbrev pub stop : Status → Status
stop running = stopped
stop s = s

abbrev pub cont : Status → Status
cont stopped = running
cont s = s

abbrev pub signalled : ℕ → Status → Status
signalled sig s =
    if sig == p_sigstop
    then stop s
    else if sig == p_sigcont
    then cont s
    else if sig == p_sigterm
    then zombie
    else s

stop_lem :
    (s : Status)
    → (same_status s running ≡ true → stop s ≡ stopped)
      × (same_status s running ≡ false → stop s ≡ s)
stop_lem running = (λ h. refl, λ h. absurd (ground (arith, h)))
stop_lem stopped = (λ h. absurd (ground (arith, h)), λ h. refl)
stop_lem blocked = (λ h. absurd (ground (arith, h)), λ h. refl)
stop_lem zombie = (λ h. absurd (ground (arith, h)), λ h. refl)
stop_lem reaped = (λ h. absurd (ground (arith, h)), λ h. refl)

cont_lem :
    (s : Status)
    → (same_status s stopped ≡ true → cont s ≡ running)
      × (same_status s stopped ≡ false → cont s ≡ s)
cont_lem stopped = (λ h. refl, λ h. absurd (ground (arith, h)))
cont_lem running = (λ h. absurd (ground (arith, h)), λ h. refl)
cont_lem blocked = (λ h. absurd (ground (arith, h)), λ h. refl)
cont_lem zombie = (λ h. absurd (ground (arith, h)), λ h. refl)
cont_lem reaped = (λ h. absurd (ground (arith, h)), λ h. refl)

zombie_lem : (s : Status) → same_status s zombie ≡ true → s ≡ zombie
zombie_lem zombie h = refl
zombie_lem running h = absurd (ground (arith, h))
zombie_lem blocked h = absurd (ground (arith, h))
zombie_lem stopped h = absurd (ground (arith, h))
zombie_lem reaped h = absurd (ground (arith, h))

sigstop_lem :
    (k : Kernel) (p : Ptr)
    → IsLive k.machine p
    → (k' : Kernel) × (sigstop k p ≡ ok k') × Becomes k k' p (stop (pcb_of k.machine p).status)
unfolding sigstop
sigstop_lem k p is =
    let c = pcb_of k.machine p in
    let d = record c { status = stopped; stop_signal = p_sigstop } in
    elim (Bool-cases (same_status c.status running)) [
      | inl acts ↦ (
        interrupts true (store_pcb (call (suspend c.thrd) k) p d),
        rw (is, ◌>>=◌) (rw acts refl),
        rw ((stop_lem c.status).0 acts) (stored k p d (k.calls ++ suspend c.thrd ∷ []) true is),
      )
      | inr idle ↦ (k, rw (is, ◌>>=◌) (rw idle refl), stays k p _ ((stop_lem c.status).1 idle))
    ]

sigcont_lem :
    (k : Kernel) (p : Ptr)
    → IsLive k.machine p
    → (k' : Kernel) × (sigcont k p ≡ ok k') × Becomes k k' p (cont (pcb_of k.machine p).status)
unfolding sigcont
sigcont_lem k p is =
    let c = pcb_of k.machine p in
    let d = record c { status = running; cont_signal = p_sigcont } in
    elim (Bool-cases (same_status c.status stopped)) [
      | inl acts ↦ (
        interrupts true (store_pcb k p d),
        rw (is, ◌>>=◌) (rw acts refl),
        rw ((cont_lem c.status).0 acts) (stored k p d k.calls true is),
      )
      | inr idle ↦ (k, rw (is, ◌>>=◌) (rw idle refl), stays k p _ ((cont_lem c.status).1 idle))
    ]

sigterm_lem :
    (k : Kernel) (p : Ptr) (ps : List ℕ)
    → Holds k.vector ps
    → AllLive k.machine ps
    → IsLive k.machine p
    → (k' : Kernel) × (sigterm k p ≡ ok k') × Becomes k k' p zombie
unfolding sigterm
sigterm_lem k p ps h live is =
    let c = pcb_of k.machine p in
    let d = record c { status = zombie; term_signal = p_sigterm; exit_code = pos 1 } in
    let k2 =
      store_pcb
        (call (suspend c.thrd) (call (continue c.thrd) (call (cancel c.thrd) (interrupts false k))))
        p d in
    let becomes : Becomes k k2 p zombie = stored k p d k2.calls false is in
    elim (Bool-cases (same_status c.status zombie)) [
      | inl idle ↦ (k, rw (is, ◌>>=◌) (rw idle refl), stays k p _ (sym (zombie_lem c.status idle)))
      | inr acts ↦
          let (m1, runs, done) =
            pcb_disconnect_child_lem k2 p ps h
              (AllLive-all k.machine k2.machine ps live becomes.live) (becomes.live p is) in
          (
            interrupts true (record k2 { machine = m1 }),
            rw (is, ◌>>=◌) (rw acts (rw (runs, ◌>>=◌) refl)),
            interrupted k (record k2 { machine = m1 }) p zombie true
                (disconnected k k2 m1 ps p zombie k2.calls becomes done),
          )
    ]

-- k_kill of a pid that no PCB of the vector has returns -1 and changes nothing. Otherwise it returns 0,
-- whatever the signal, and moves the process: P_SIGSTOP stops a running one, P_SIGCONT runs a stopped
-- one, P_SIGTERM makes a zombie, and nothing else changes its status. Every other process keeps its
-- status, and the vector, the queues and the clock stay.
pub k_kill_lem :
    (k : Kernel) (ps : List ℕ) (pid : Option ℕ) (sig : ℕ)
    → Holds k.vector ps
    → AllLive k.machine ps
    → let p = first_pcb (λ c. holds pid c.pid) k.machine ps in
      ((p == 0) ≡ true → k_kill k pid sig ≡ ok (negsuc 0, k))
      × ((p == 0) ≡ false
          → (k' : Kernel) × (k_kill k pid sig ≡ ok (pos 0, k'))
            × Becomes k k' p (signalled sig (pcb_of k.machine p).status))
unfolding k_kill
k_kill_lem k ps pid sig h live =
    let m = k.machine in
    let sought = pcb_vec_seek_pcb_by_pid_lem m k.vector ps pid h live in
    let p : Ptr = first_pcb (λ c. holds pid c.pid) m ps in
    (
      λ missing. rw (sought, ◌>>=◌) (rw missing refl),
      λ there.
          let is = first_pcb-IsLive (λ c. holds pid c.pid) m ps live there in
          elim (Bool-cases (sig == p_sigstop)) [
            | inl eq ↦
                let (k', runs, becomes) = sigstop_lem k p is in
                (k', rw (sought, ◌>>=◌) (rw (there, eq) (rw (runs, ◌>>=◌) refl)), rw eq becomes)
            | inr ne1 ↦ elim (Bool-cases (sig == p_sigcont)) [
              | inl eq ↦
                  let (k', runs, becomes) = sigcont_lem k p is in
                  (
                    k',
                    rw (sought, ◌>>=◌) (rw (there, ne1, eq) (rw (runs, ◌>>=◌) refl)),
                    rw (ne1, eq) becomes,
                  )
              | inr ne2 ↦ elim (Bool-cases (sig == p_sigterm)) [
                | inl eq ↦
                    let (k', runs, becomes) = sigterm_lem k p ps h live is in
                    (
                      k',
                      rw (sought, ◌>>=◌) (rw (there, ne1, ne2, eq) (rw (runs, ◌>>=◌) refl)),
                      rw (ne1, ne2, eq) becomes,
                    )
                | inr ne3 ↦ (
                  k,
                  rw (sought, ◌>>=◌) (rw (there, ne1, ne2, ne3) refl),
                  rw (ne1, ne2, ne3) (stays k p _ refl),
                )
              ]
            ]
          ],
    )
