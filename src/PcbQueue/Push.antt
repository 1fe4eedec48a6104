-- ===== src/PcbQueue/Push.antt =====
-- pcb_queue_push of src/kernel/pcb_queue.c.
use pennosgrp.Prelude.{
  ◌+◌, ◌≡◌, ◌≢◌, refl, true, false, Option, some, List, [], ◌∷◌, ◌++◌, arith, length-append, ◌==◌,
  ok, ◌∙◌, ap, ◌>>=◌,
}
use pennosgrp.Pcb.{Ptr, Pcb}
use pennosgrp.PcbQueue.{Machine, Queue, write, set_next, put, pcb_in_queue, pcb_queue_push}
use pennosgrp.PcbQueue.Chain.{
  has, last_of, IsChain, IsQueue, pcb_in_queue_lem, OnlyLinks, has-last_of, has-append,
  last_of-append, chain_cell, set_next_lem, OnlyLinks-write,
}

-- The end of a chain, linked to one more PCB whose own link is NULL.
IsChain-snoc :
    (h : Ptr → Option Pcb) (n : Ptr) (new end : Pcb) (p x : Ptr) (xs : List Ptr)
    → n ≢ 0
    → has n (x ∷ xs) ≡ false
    → h n ≡ some new
    → new.next_pcb_ptr ≡ 0
    → h (last_of x xs) ≡ some end
    → IsChain h p (x ∷ xs)
    → IsChain
        (write h (last_of x xs) (some (record end { next_pcb_ptr = n })))
        p
        ((x ∷ xs) ++ n ∷ [])
IsChain-snoc h n new end p x [] nonnull out at_n link at_end (e, ne, fresh, c, at_x, rest) = (
  e,
  ne,
  ground arith,
  record end { next_pcb_ptr = n },
  ground arith,
  (refl, nonnull, refl, new, ground arith, link),
)
IsChain-snoc h n new end p x (y ∷ ys) nonnull out at_n link at_end (e, ne, fresh, c, at_x, rest) = (
  e,
  ne,
  ground (arith, has-append x (y ∷ ys) n),
  c,
  ground (arith, has-last_of y ys),
  IsChain-snoc h n new end c.next_pcb_ptr y ys nonnull (ground arith) at_n link at_end rest,
)

-- The test of pcb_queue_push, once it has disabled interrupts.
in_queue_off :
    (m : Machine) (q : Queue) (xs : List Ptr) (p : Ptr)
    → IsQueue m q xs
    → pcb_in_queue (record m { interrupts = false }) p q ≡ ok (has p xs)
in_queue_off m q xs p valid =
    pcb_in_queue_lem (record m { interrupts = false }) q xs p
      (record { chain = valid.chain; last = valid.last; counted = valid.counted })

not_queued :
    (m : Machine) (q : Queue) (xs : List Ptr) (p : Ptr)
    → IsQueue m q xs
    → has p xs ≡ false
    → pcb_in_queue (record m { interrupts = false }) p q ≡ ok false
not_queued m q xs p valid out = in_queue_off m q xs p valid ∙ ap ok out

-- Pushing a PCB that is not queued, and whose link is NULL, puts it behind the others; the queue
-- stays well formed, links alone change, and interrupts are on again.
pub pcb_queue_push_lem :
    (m : Machine) (q : Queue) (xs : List Ptr) (p : Ptr) (c : Pcb)
    → IsQueue m q xs
    → p ≢ 0
    → m.heap p ≡ some c
    → c.next_pcb_ptr ≡ 0
    → has p xs ≡ false
    → (q' : Queue) × (m' : Machine) × (pcb_queue_push m q p ≡ ok (q', m'))
      × IsQueue m' q' (xs ++ p ∷ [])
      × OnlyLinks m.heap m'.heap
      × (m'.interrupts ≡ true)
unfolding pcb_queue_push
pcb_queue_push_lem m q [] p c valid nonnull at_p link out = (
  record q { q_head_ptr = p; q_end_ptr = p; len = q.len + 1 },
  record m { interrupts = true },
  rw (not_queued m q [] p valid out, empty) refl,
  record {
    chain = (refl, nonnull, refl, c, at_p, link);
    last = refl;
    counted = omega (arith, valid.counted);
  },
  λ a. refl,
  refl,
)
  where
    empty : (q.len == 0) ≡ true
    empty = ground (arith, valid.counted)
pcb_queue_push_lem m q (x ∷ xs) p c valid nonnull at_p link out =
    let (end_ne, end, at_end) =
      chain_cell m.heap (last_of x xs) q.q_head_ptr (x ∷ xs) valid.chain (has-last_of x xs) in
    let off : Machine = record m { interrupts = false } in
    let linked : set_next off q.q_end_ptr p
        ≡ ok (put off (last_of x xs) (record end { next_pcb_ptr = p })) =
      rw valid.last (set_next_lem off (last_of x xs) p end end_ne at_end) in
    let nonempty : (q.len == 0) ≡ false = ground (arith, valid.counted) in
    (
      record q { q_end_ptr = p; len = q.len + 1 },
      record {
        heap = write m.heap (last_of x xs) (some (record end { next_pcb_ptr = p }));
        interrupts = true;
      },
      rw (not_queued m q (x ∷ xs) p valid out, nonempty, linked) refl,
      record {
        chain =
            IsChain-snoc m.heap p c end q.q_head_ptr x xs nonnull out at_p link at_end valid.chain;
        last = ground (arith, last_of-append x xs p);
        counted = omega (arith, valid.counted, length-append xs (p ∷ []));
      },
      OnlyLinks-write m.heap (last_of x xs) p end at_end,
      refl,
    )

-- Pushing a PCB that is queued already changes no link, but returns with interrupts disabled.
pub pcb_queue_push_queued :
    (m : Machine) (q : Queue) (xs : List Ptr) (p : Ptr)
    → IsQueue m q xs
    → has p xs ≡ true
    → pcb_queue_push m q p ≡ ok (q, record m { interrupts = false })
unfolding pcb_queue_push
pcb_queue_push_queued m q xs p valid queued = rw (in_queue_off m q xs p valid, queued) refl

-- An empty queue takes the PCB as it is, with whatever link it has.
pub push_empty :
    (m : Machine) (q : Queue) (p : Ptr)
    → IsQueue m q []
    → pcb_queue_push m q p
      ≡ ok (
        record q { q_head_ptr = p; q_end_ptr = p; len = q.len + 1 },
        record m { interrupts = true },
      )
unfolding pcb_queue_push
push_empty m q p valid =
    let empty : (q.len == 0) ≡ true = ground (arith, valid.counted) in
    rw (in_queue_off m q [] p valid, ◌>>=◌) (rw empty refl)
