-- ===== src/Scheduler/Pick.antt =====
-- The choice of a PCB from a queue, in src/kernel/scheduler.c.
use pennosgrp.Prelude.{
  ℕ, zero, suc, ◌+◌, ◌<◌, ◌≡◌, refl, ap, sym, subst, ◌∙◌, true, false, Bool, Option, none, some,
  List, [], ◌∷◌, arith, length, set, get_or-set_self, length-set, ◌++◌, ltb, ◌==◌, if◌then◌else◌,
  if_false, ok, Bool-cases, inl, inr, ◌>>=◌,
}
use pennosgrp.Pcb.{Ptr, Pcb, running, same_status}
use pennosgrp.PcbQueue.{Machine, Queue, load}
use pennosgrp.PcbQueue.Chain.{IsQueue, IsChain, unlinked, OnlyLinks}
use pennosgrp.PcbQueue.PopByPid.{has_pid, has_pid_lem, pcb_queue_pop_by_pid_lem}
use pennosgrp.Kernel.{Kernel, queue_at, interrupts, call, continue}
use pennosgrp.Scheduler.{refresh, pick}

abbrev pub runs_pcb : Option Pcb → Bool
runs_pcb none = false
runs_pcb (some c) = same_status c.status running

-- The PCB at the pointer runs.
unfoldable pub runs_at : (Ptr → Option Pcb) → Ptr → Bool
runs_at h p = runs_pcb (h p)

abbrev pub thread_of : Option Pcb → ℕ
thread_of none = 0
thread_of (some c) = c.thrd

-- The thread of the PCB at a pointer.
unfoldable pub thread_at : (Ptr → Option Pcb) → Ptr → ℕ
thread_at h p = thread_of (h p)

-- The queue from its first running PCB on.
unfoldable pub from_running : (Ptr → Option Pcb) → List Ptr → List Ptr
from_running h [] = []
from_running h (x ∷ xs) = let rest = from_running h xs in if runs_at h x then x ∷ xs else rest

abbrev pub head_of : List Ptr → Ptr
head_of [] = 0
head_of (x ∷ xs) = x

pub runs_at_lem :
    (h : Ptr → Option Pcb) (p : Ptr) (c : Pcb)
    → h p ≡ some c
    → runs_at h p ≡ same_status c.status running
unfolding runs_at
runs_at_lem h p c at_p = rw (at_p, runs_at) refl

pub runs_at-links : (h g : Ptr → Option Pcb) (p : Ptr) → OnlyLinks h g → runs_at g p ≡ runs_at h p
unfolding runs_at
runs_at-links h g p links = same (g p) (h p) (links p)
  where
    same : (a b : Option Pcb) → unlinked a ≡ unlinked b → runs_pcb a ≡ runs_pcb b
    same none none e = refl
    same none (some b) e = absurd (ground (arith, e))
    same (some a) none e = absurd (ground (arith, e))
    same (some a) (some b) e = ap runs_pcb e

from_running-links :
    (h g : Ptr → Option Pcb) (xs : List Ptr) → OnlyLinks h g → from_running g xs ≡ from_running h xs
unfolding from_running
from_running-links h g [] links = refl
from_running-links h g (x ∷ xs) links =
    rw (runs_at-links h g x links, from_running-links h g xs links) refl

chain_head : (h : Ptr → Option Pcb) (p : Ptr) (xs : List Ptr) → IsChain h p xs → p ≡ head_of xs
chain_head h p [] chain = chain
chain_head h p (x ∷ xs) chain = chain.0

refresh_lem :
    (f : ℕ) (m : Machine) (q : Queue) (xs : List Ptr)
    → length xs < f
    → IsQueue m q xs
    → (q' : Queue) × (m' : Machine) × (refresh f m q q.q_head_ptr
        ≡ ok (head_of (from_running m.heap xs), q', m'))
      × IsQueue m' q' (from_running m.heap xs)
      × OnlyLinks m.heap m'.heap
      × (m'.interrupts ≡ m.interrupts)
unfolding refresh from_running
refresh_lem zero m q xs enough valid = absurd (omega arith)
refresh_lem (suc f) m q [] enough valid =
    (q, m, ground (arith, valid.chain), valid, λ a. refl, refl)
refresh_lem (suc f) m q (x ∷ xs) enough valid =
    let (e, nonnull, fresh, c, at_x, rest) = valid.chain in
    let at_head : load m q.q_head_ptr ≡ ok c = ground (arith, nonnull, at_x) in
    let some_head : (q.q_head_ptr == 0) ≡ false = ground (arith, nonnull) in
    elim (Bool-cases (same_status c.status running)) [
      | inl found ↦
          let at_run : runs_at m.heap x ≡ true = runs_at_lem m.heap x c at_x ∙ found in
          (
            q,
            m,
            if_false _ _ _ some_head ∙ rw (at_head, ◌>>=◌) (rw (found, at_run, e) refl),
            rw at_run valid,
            λ a. refl,
            refl,
          )
      | inr dead ↦
          let at_run : runs_at m.heap x ≡ false = runs_at_lem m.heap x c at_x ∙ dead in
          let (q1, m1, pops, popped) = pcb_queue_pop_by_pid_lem m q (x ∷ xs) c.pid valid in
          let matches : has_pid m.heap c.pid x ≡ true =
            ground (arith, has_pid_lem m.heap c.pid x c at_x) in
          let valid1 : IsQueue m1 q1 xs =
            subst (λ ys. IsQueue m1 q1 ys) (rw matches refl) popped.rest in
          let next : c.next_pcb_ptr ≡ q1.q_head_ptr =
            chain_head m.heap c.next_pcb_ptr xs rest
            ∙ sym (chain_head m1.heap q1.q_head_ptr xs valid1.chain) in
          let same = from_running-links m.heap m1.heap xs popped.links in
          let (q2, m2, goes, valid2, links2, ints2) = refresh_lem f m1 q1 xs (omega arith) valid1 in
          (
            q2,
            m2,
            if_false _ _ _ some_head
                ∙ rw (at_head, ◌>>=◌) (rw (dead, at_run, pops, ◌>>=◌) (rw next (rw (← same) goes))),
            rw at_run (rw (← same) valid2),
            λ a. links2 a ∙ popped.links a,
            ints2 ∙ popped.interrupts,
          )
    ]

chain_first :
    (m : Machine) (p : Ptr) (ys : List Ptr)
    → IsChain m.heap p ys
    → (head_of ys == 0) ≡ false
    → (c : Pcb) × (load m (head_of ys) ≡ ok c) × (thread_at m.heap (head_of ys) ≡ c.thrd)
unfolding thread_at
chain_first m p [] chain some_head = absurd (ground arith)
chain_first m p (y ∷ ys) (e, nonnull, fresh, c, at_y, rest) some_head =
    (c, ground (arith, nonnull, at_y), rw (at_y, thread_at) refl)

thread_at-links : (h g : Ptr → Option Pcb) (p : Ptr) → OnlyLinks h g → thread_at g p ≡ thread_at h p
unfolding thread_at
thread_at-links h g p links = same (g p) (h p) (links p)
  where
    same : (a b : Option Pcb) → unlinked a ≡ unlinked b → thread_of a ≡ thread_of b
    same none none e = refl
    same none (some b) e = absurd (ground (arith, e))
    same (some a) none e = absurd (ground (arith, e))
    same (some a) (some b) e = ap thread_of e

-- Whether the thread takes signals does not matter to a queue.
pub IsQueue-interrupts :
    (m : Machine) (b : Bool) (q : Queue) (xs : List Ptr)
    → IsQueue m q xs
    → IsQueue (record m { interrupts = b }) q xs
IsQueue-interrupts m b q xs valid = record {
  chain = valid.chain;
  last = valid.last;
  counted = valid.counted;
}

pub queue_at-set :
    (k : Kernel) (qs : List Queue) (i : ℕ) (q : Queue)
    → i < length qs
    → queue_at (record k { queues = set qs i q }) i ≡ ok q
queue_at-set k qs i q lt =
    let inside : ltb i (length (set qs i q)) ≡ true = ground (arith, length-set qs i q) in
    rw inside (
      ap ok
        (get_or-set_self qs i q (record { q_type = 0; q_head_ptr = 0; q_end_ptr = 0; len = 0 }) lt))

-- pick ends on a well-formed queue. It drops the PCBs in front of the first one that runs, keeps the
-- rest in order, changes nothing of any PCB but links, and continues the thread of the PCB that it
-- returns; without a running PCB it empties the queue and returns NULL.
pub pick_lem :
    (k : Kernel) (i : ℕ) (q : Queue) (xs : List Ptr)
    → i < length k.queues
    → queue_at k i ≡ ok q
    → IsQueue k.machine q xs
    → let ys = from_running k.machine.heap xs in
      (k' : Kernel) × (pick k i ≡ ok (head_of ys, k'))
      × (q' : Queue) × (queue_at k' i ≡ ok q')
      × IsQueue k'.machine q' ys
      × OnlyLinks k.machine.heap k'.machine.heap
      × (k'.calls ≡ (
          if head_of ys == 0
          then k.calls
          else k.calls ++ continue (thread_at k.machine.heap (head_of ys)) ∷ []))
unfolding pick
pick_lem k i q xs lt at_i valid =
    let h = k.machine.heap in
    let ys = from_running h xs in
    let valid0 = IsQueue-interrupts k.machine false q xs valid in
    let (q', m', goes, valid', links, _) =
      refresh_lem (q.len + 1) (record k.machine { interrupts = false }) q xs
        (omega (arith, valid.counted)) valid0 in
    let k1 = interrupts true (record k { machine = m'; queues = set k.queues i q' }) in
    let at_k1 = queue_at-set k1 k.queues i q' lt in
    let valid1 = IsQueue-interrupts m' true q' ys valid' in
    elim (Bool-cases (head_of ys == 0)) [
      | inl empty ↦ (
        k1,
        rw (at_i, ◌>>=◌)
            (rw (goes, ◌>>=◌) (rw empty (ap (λ (p : Ptr). ok (p, k1)) (ground (arith, empty))))),
        q',
        at_k1,
        valid1,
        links,
        rw empty refl,
      )
      | inr there ↦
          let (c, at_c, thread) = chain_first k1.machine q'.q_head_ptr ys valid1.chain there in
          (
            call (continue c.thrd) k1,
            rw (at_i, ◌>>=◌) (rw (goes, ◌>>=◌) (if_false _ _ _ there ∙ rw (at_c, ◌>>=◌) refl)),
            q',
            at_k1,
            valid1,
            links,
            rw (there, ← thread_at-links h m'.heap (head_of ys) links, thread) refl,
          )
    ]
