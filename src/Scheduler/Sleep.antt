-- ===== src/Scheduler/Sleep.antt =====
-- k_sleep of src/kernel/kernel_syscall.c against the clock of src/kernel/scheduler.c.
use pennosgrp.Prelude.{
  ℕ, ◌+◌, ◌-◌, ◌*◌, ◌%◌, ◌^◌, ◌≤◌, ◌<◌, ◌≡◌, refl, ap, ◌∙◌, true, false, not, ◌&&◌, List, arith,
  leb, ◌==◌, ok, ◌>>=◌,
}
use pennosgrp.Pcb.{Ptr, Pcb, blocked}
use pennosgrp.PcbQueue.{put}
use pennosgrp.PcbVec.Contents.{Holds}
use pennosgrp.Kernel.{Kernel, suspend_self, interrupts, store_pcb, call, pcb_vec_seek_pcb_by_thrd}
use pennosgrp.Kernel.Seek.{pcb_of, AllLive, first_pcb, pcb_vec_seek_pcb_by_thrd_lem}
use pennosgrp.Kernel.Live.{
  first_pcb-IsLive, AllLive-interrupts, load-interrupts, first_pcb-interrupts, pcb_of-put,
  pcb_of-interrupts,
}
use pennosgrp.Syscalls.{k_sleep}
use pennosgrp.Scheduler.Wake.{should_run}

-- k_sleep blocks the calling process. From a positive clock, as long as the clock does not wrap, the
-- scan takes it for ready exactly when ten ticks a second have passed. A process that goes to sleep
-- while the clock is 0 never becomes ready by the clock.
pub k_sleep_lem :
    (me : ℕ) (k : Kernel) (ps : List ℕ) (seconds : ℕ)
    → Holds k.vector ps
    → AllLive k.machine ps
    → seconds * 10 < 2 ^ 32
    → let p = first_pcb (λ c. c.thrd == me) k.machine ps in
      (p == 0) ≡ false
      → (k' : Kernel) × (k_sleep me k seconds ≡ ok k')
        × ((pcb_of k'.machine p).status ≡ blocked)
        × ((later : Kernel)
            → k.global_clock ≤ later.global_clock
            → later.global_clock < 2 ^ 32
            → should_run later (pcb_of k'.machine p) ≡ (
                not (k.global_clock == 0)
                && leb (seconds * 10) (later.global_clock - k.global_clock)))
unfolding k_sleep
k_sleep_lem me k ps seconds h live small there =
    let m = k.machine in
    let p : Ptr = first_pcb (λ c. c.thrd == me) m ps in
    let is = first_pcb-IsLive (λ c. c.thrd == me) m ps live there in
    let k1 = interrupts false k in
    let sought : pcb_vec_seek_pcb_by_thrd k1.machine k.vector me ≡ ok p =
      pcb_vec_seek_pcb_by_thrd_lem k1.machine k.vector ps me h (AllLive-interrupts m false ps live)
      ∙ ap ok (first_pcb-interrupts (λ c. c.thrd == me) m false ps) in
    let fits : seconds * 10 % 2 ^ 32 ≡ seconds * 10 = ground arith in
    let d = record (pcb_of m p) {
      sleep_stamp = k.global_clock;
      sleep_length = seconds * 10 % 2 ^ 32;
      status = blocked;
    } in
    let k' = call suspend_self (interrupts true (store_pcb k1 p d)) in
    let at_p : pcb_of k'.machine p ≡ d =
      pcb_of-interrupts (put m p d) true p ∙ pcb_of-put m p p d ∙ rw (same p) refl in
    (
      k',
      rw (sought, ◌>>=◌) (rw (load-interrupts m false p is, ◌>>=◌) refl),
      ap (λ (c : Pcb). c.status) at_p,
      λ later after wraps.
          ap (λ (c : Pcb). should_run later c) at_p
          ∙ rw fits (ground (arith, wrapped later after wraps)),
    )
  where
    same : (p : Ptr) → (p == p) ≡ true
    same p = ground arith

    wrapped :
        (later : Kernel)
        → k.global_clock ≤ later.global_clock
        → later.global_clock < 2 ^ 32
        → (later.global_clock + 2 ^ 32 - k.global_clock) % 2 ^ 32
          ≡ later.global_clock - k.global_clock
    wrapped later after wraps = omega arith
