-- ===== src/PcbQueue/Pop.antt =====
-- pcb_queue_pop and pcb_queue_destroy of src/kernel/pcb_queue.c.
use pennosgrp.Prelude.{
  ℕ, zero, suc, ◌+◌, ◌-◌, ◌<◌, ◌≡◌, refl, false, some, List, [], ◌∷◌, arith, length, ◌==◌,
  if◌then◌else◌, ok, ◌∙◌,
}
use pennosgrp.Pcb.{Ptr, Pcb}
use pennosgrp.PcbQueue.{Machine, Queue, put, set_next, pcb_queue_pop, pcb_queue_destroy, drain}
use pennosgrp.PcbQueue.Chain.{
  last_of, IsQueue, frame, OnlyLinks, load_lem, set_next_lem, OnlyLinks-write,
}

-- A PCB that is off the queue: it is there, and its link is NULL.
abbrev pub IsLoose : Machine → Ptr → Type 0
IsLoose m p = (c : Pcb) × (m.heap p ≡ some c) × (c.next_pcb_ptr ≡ 0)

-- Popping a nonempty queue returns its first PCB with its link cleared, and leaves the rest as a
-- well-formed queue; links alone change.
pub pcb_queue_pop_lem :
    (m : Machine) (q : Queue) (x : Ptr) (xs : List Ptr)
    → IsQueue m q (x ∷ xs)
    → (q' : Queue) × (m' : Machine) × (pcb_queue_pop m q ≡ ok (x, q', m'))
      × IsQueue m' q' xs
      × IsLoose m' x
      × OnlyLinks m.heap m'.heap
      × (m'.interrupts ≡ m.interrupts)
unfolding pcb_queue_pop
pcb_queue_pop_lem m q x xs valid =
    let (e, nonnull, fresh, c, at_x, rest) = valid.chain in
    let nonempty : (q.len == 0) ≡ false = ground (arith, valid.counted) in
    let linked : set_next m x 0 ≡ ok (put m x (record c { next_pcb_ptr = 0 })) =
      set_next_lem m x 0 c nonnull at_x in
    (
      record q {
        q_head_ptr = c.next_pcb_ptr;
        q_end_ptr = if q.len == 1 then 0 else q.q_end_ptr;
        len = q.len - 1;
      },
      put m x (record c { next_pcb_ptr = 0 }),
      rw (nonempty, e, load_lem m x c nonnull at_x, linked) refl,
      record {
        chain = frame m.heap _ c.next_pcb_ptr xs (λ a i. ground arith) rest;
        last = last xs valid.counted valid.last;
        counted = omega (arith, valid.counted);
      },
      (record c { next_pcb_ptr = 0 }, ground arith, refl),
      OnlyLinks-write m.heap x 0 c at_x,
      refl,
    )
  where
    last :
        (ys : List Ptr)
        → q.len ≡ suc (length ys)
        → q.q_end_ptr ≡ last_of x ys
        → (if q.len == 1 then 0 else q.q_end_ptr) ≡ last_of 0 ys
    last [] counted at_end = ground arith
    last (y ∷ ys) counted at_end = ground arith

-- An empty queue gives NULL, and nothing changes.
pub pcb_queue_pop_empty :
    (m : Machine) (q : Queue) → IsQueue m q [] → pcb_queue_pop m q ≡ ok (0, q, m)
unfolding pcb_queue_pop
pcb_queue_pop_empty m q valid = ground (arith, valid.counted)

drain_lem :
    (f : ℕ) (m : Machine) (q : Queue) (xs : List Ptr)
    → length xs < f
    → IsQueue m q xs
    → (q' : Queue) × (m' : Machine) × (drain f m q ≡ ok (q', m'))
      × IsQueue m' q' []
      × OnlyLinks m.heap m'.heap
unfolding drain
drain_lem zero m q xs enough valid = absurd (omega arith)
drain_lem (suc f) m q [] enough valid = (q, m, ground (arith, valid.counted), valid, λ a. refl)
drain_lem (suc f) m q (x ∷ xs) enough valid =
    let (q1, m1, runs, valid1, _, links1, _) = pcb_queue_pop_lem m q x xs valid in
    let (q2, m2, runs2, valid2, links2) = drain_lem f m1 q1 xs (omega arith) valid1 in
    let nonempty : (q.len == 0) ≡ false = ground (arith, valid.counted) in
    (q2, m2, rw (nonempty, runs) runs2, valid2, λ a. links2 a ∙ links1 a)

-- pcb_queue_destroy ends, empties every well-formed queue, and changes PCBs in their links only.
pub pcb_queue_destroy_lem :
    (m : Machine) (q : Queue) (xs : List Ptr)
    → IsQueue m q xs
    → (q' : Queue) × (m' : Machine) × (pcb_queue_destroy m q ≡ ok (q', m'))
      × IsQueue m' q' []
      × OnlyLinks m.heap m'.heap
unfolding pcb_queue_destroy
pcb_queue_destroy_lem m q xs valid =
    drain_lem (q.len + 1) m q xs (omega (arith, valid.counted)) valid
