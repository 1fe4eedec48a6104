-- ===== src/Syscalls/Exit.antt =====
-- k_exit of src/kernel/kernel_syscall.c.
use pennosgrp.Prelude.{
  ℕ, ◌≡◌, refl, ap, ◌∙◌, true, false, Bool, List, [], ◌∷◌, ◌++◌, ◌==◌, if◌then◌else◌, if_false, ok,
  ◌>>=◌, pos,
}
use pennosgrp.Pcb.{Ptr, Pcb, zombie}
use pennosgrp.PcbVec.Contents.{Holds}
use pennosgrp.Kernel.{Kernel, exit_self, interrupts, store_pcb}
use pennosgrp.Kernel.Seek.{pcb_of, AllLive, first_pcb, pcb_vec_seek_pcb_by_thrd_lem}
use pennosgrp.Kernel.Live.{first_pcb-IsLive, AllLive-all}
use pennosgrp.Kernel.Orphans.{is_child, is_child-pids, pcb_disconnect_child_lem}
use pennosgrp.Syscalls.{k_exit}
use pennosgrp.Syscalls.Change.{Becomes, stored_self, stored_other, stored_pid, stored, disconnected}

orphan :
    (b : Bool) (e d c : Pcb)
    → e ≡ (if b then record d { ppid = 1 } else d)
    → d ≡ c
    → e.ppid ≡ (if b then 1 else c.ppid)
orphan true e d c gives same = ap (λ (x : Pcb). x.ppid) gives
orphan false e d c gives same = ap (λ (x : Pcb). x.ppid) (gives ∙ same)

-- k_exit of a thread that has a PCB makes that process a zombie that exited normally with code 0 and has
-- no children; its children in the vector go to init, no other process changes its status or its parent,
-- and the thread's last call is spthread_exit.
pub k_exit_lem :
    (me : ℕ) (k : Kernel) (ps : List ℕ)
    → Holds k.vector ps
    → AllLive k.machine ps
    → let p = first_pcb (λ c. c.thrd == me) k.machine ps in
      (p == 0) ≡ false
      → (k' : Kernel) × (k_exit me k ≡ ok k')
        × Becomes k k' p zombie
        × ((pcb_of k'.machine p).term_signal ≡ 0)
        × ((pcb_of k'.machine p).exit_code ≡ pos 0)
        × ((pcb_of k'.machine p).num_child_pids ≡ 0)
        × ((q : Ptr)
            → (q == 0) ≡ false
            → (q == p) ≡ false
            → (pcb_of k'.machine q).ppid ≡ (
                if is_child k.machine ps
                  (pcb_of k.machine p).num_child_pids
                  0
                  (pcb_of k.machine p).child_pids
                  q
                then 1
                else (pcb_of k.machine q).ppid))
        × (k'.calls ≡ k.calls ++ exit_self ∷ [])
unfolding k_exit
k_exit_lem me k ps h live there =
    let m = k.machine in
    let test : Pcb → Bool = λ c. c.thrd == me in
    let p : Ptr = first_pcb test m ps in
    let sought = pcb_vec_seek_pcb_by_thrd_lem m k.vector ps me h live in
    let is = first_pcb-IsLive test m ps live there in
    let c = pcb_of m p in
    let d = record c { status = zombie; term_signal = 0; exit_code = pos 0 } in
    let k1 = interrupts true (store_pcb (interrupts false k) p d) in
    let becomes : Becomes k k1 p zombie = stored k p d k.calls true is in
    let (m1, runs, done) =
      pcb_disconnect_child_lem k1 p ps h (AllLive-all m k1.machine ps live becomes.live)
        (becomes.live p is) in
    let at_p = stored_self k p d k.calls true in
    let (cells, self, _, _) = done.self in
    let pids : (r : Ptr) → (pcb_of k1.machine r).pid ≡ (pcb_of m r).pid =
      stored_pid k p d k.calls true refl in
    (
      record k1 { machine = m1; calls = k.calls ++ exit_self ∷ [] },
      rw (sought, ◌>>=◌) (if_false _ _ _ there ∙ rw (is, ◌>>=◌) (rw (runs, ◌>>=◌) refl)),
      disconnected k k1 m1 ps p zombie (k.calls ++ exit_self ∷ []) becomes done,
      ap (λ (e : Pcb). e.term_signal) self ∙ ap (λ (e : Pcb). e.term_signal) at_p,
      ap (λ (e : Pcb). e.exit_code) self ∙ ap (λ (e : Pcb). e.exit_code) at_p,
      ap (λ (e : Pcb). e.num_child_pids) self,
      λ q nz ne.
          orphan _ (pcb_of m1 q) (pcb_of k1.machine q) (pcb_of m q) (done.others q nz ne)
            (stored_other k p q d k.calls true ne)
          ∙ ap (λ b. if b then 1 else (pcb_of m q).ppid)
              (ap (λ (e : Pcb). is_child k1.machine ps e.num_child_pids 0 e.child_pids q) at_p
                ∙ is_child-pids m k1.machine ps c.num_child_pids 0 c.child_pids q pids),
      refl,
    )
