-- ===== src/PcbQueue/Chain.antt =====
-- What a queue of src/kernel/pcb_queue.c stands for: the PCBs on its chain, in order.
use pennosgrp.Prelude.{
  ℕ, zero, suc, ◌+◌, ◌<◌, ◌≡◌, ◌≢◌, refl, Bool, true, false, ◌||◌, Option, none, some, List, [],
  ◌∷◌, ◌++◌, arith, length, ◌==◌, ok, Bool-cases, inl, inr,
}
use mathlib.Core.Bool.{false≢true}
use pennosgrp.Pcb.{Ptr, Pcb}
use pennosgrp.PcbQueue.{Machine, Queue, write, put, load, set_next, in_chain, pcb_in_queue}

abbrev pub has : Ptr → List Ptr → Bool
has p [] = false
has p (x ∷ xs) = p == x || has p xs

abbrev pub last_of : Ptr → List Ptr → Ptr
last_of d [] = d
last_of d (x ∷ xs) = last_of x xs

-- From `p` the next pointers lead through the PCBs `xs`, all different, and end in NULL.
abbrev pub IsChain : (Ptr → Option Pcb) → Ptr → List Ptr → Type 0
IsChain h p [] = p ≡ 0
IsChain h p (x ∷ xs) =
    (p ≡ x)
    × (x ≢ 0)
    × (has x xs ≡ false)
    × (c : Pcb) × (h x ≡ some c)
    × IsChain h c.next_pcb_ptr xs

-- The queue's fields agree with its chain.
pub record IsQueue (m : Machine) (q : Queue) (xs : List Ptr) : Type 0 where
  pub chain : IsChain m.heap q.q_head_ptr xs
  pub last : q.q_end_ptr ≡ last_of 0 xs
  pub counted : q.len ≡ length xs

-- A chain survives any change that spares its own PCBs.
pub frame :
    (h g : Ptr → Option Pcb) (p : Ptr) (xs : List Ptr)
    → ((a : Ptr) → has a xs ≡ true → g a ≡ h a)
    → IsChain h p xs
    → IsChain g p xs
frame h g p [] same chain = chain
frame h g p (x ∷ xs) same (e, nonnull, fresh, c, at_x, rest) = (
  e,
  nonnull,
  fresh,
  c,
  ground (arith, same x),
  frame h g c.next_pcb_ptr xs (λ a i. same a (ground arith)) rest,
)

-- On a chain the walk of pcb_in_queue finds exactly the PCBs of the chain, within its rounds.
pub in_chain_lem :
    (m : Machine) (f target p : ℕ) (xs : List Ptr)
    → length xs < f
    → IsChain m.heap p xs
    → in_chain f m target p ≡ ok (has target xs)
unfolding in_chain
in_chain_lem m zero target p xs enough chain = absurd (omega arith)
in_chain_lem m (suc f) target p [] enough chain = ground arith
in_chain_lem m (suc f) target p (x ∷ xs) enough (e, nonnull, fresh, c, at_x, rest) =
    ground (arith, in_chain_lem m f target c.next_pcb_ptr xs (omega arith) rest)

-- pcb_in_queue on a well-formed queue returns, and says whether the PCB is in the queue.
pub pcb_in_queue_lem :
    (m : Machine) (q : Queue) (xs : List Ptr) (p : Ptr)
    → IsQueue m q xs
    → pcb_in_queue m p q ≡ ok (has p xs)
unfolding pcb_in_queue
pcb_in_queue_lem m q xs p valid =
    in_chain_lem m (q.len + 1) p q.q_head_ptr xs (omega (arith, valid.counted)) valid.chain

-- A PCB without its link: the queue operations may change links only.
abbrev pub unlinked : Option Pcb → Option Pcb
unlinked none = none
unlinked (some c) = some (record c { next_pcb_ptr = 0 })

abbrev pub OnlyLinks : (h g : Ptr → Option Pcb) → Type 0
OnlyLinks h g = (a : Ptr) → unlinked (g a) ≡ unlinked (h a)

pub has-last_of : (x : Ptr) (xs : List Ptr) → has (last_of x xs) (x ∷ xs) ≡ true
has-last_of x [] = ground arith
has-last_of x (y ∷ ys) = ground (arith, has-last_of y ys)

pub has-append : (a : Ptr) (xs : List Ptr) (n : Ptr) → has a (xs ++ n ∷ []) ≡ (has a xs || a == n)
has-append a [] n = ground arith
has-append a (x ∷ xs) n = ground (arith, has-append a xs n)

pub last_of-append : (d : Ptr) (xs : List Ptr) (n : Ptr) → last_of d (xs ++ n ∷ []) ≡ n
last_of-append d [] n = refl
last_of-append d (x ∷ xs) n = last_of-append x xs n

-- The PCB at an address of a chain.
pub chain_cell :
    (h : Ptr → Option Pcb) (a p : Ptr) (xs : List Ptr)
    → IsChain h p xs
    → has a xs ≡ true
    → (a ≢ 0) × (c : Pcb) × (h a ≡ some c)
chain_cell h a p [] chain i = absurd (false≢true i)
chain_cell h a p (x ∷ xs) (e, nonnull, fresh, c, at_x, rest) i = elim (Bool-cases (a == x)) [
  | inl here ↦ let e' : a ≡ x = ground arith in (ground arith, c, ground arith)
  | inr there ↦ chain_cell h a c.next_pcb_ptr xs rest (ground arith)
]

pub load_lem : (m : Machine) (p : Ptr) (c : Pcb) → p ≢ 0 → m.heap p ≡ some c → load m p ≡ ok c
load_lem m p c nonnull at_p = ground arith

pub set_next_lem :
    (m : Machine) (p q : Ptr) (c : Pcb)
    → p ≢ 0
    → m.heap p ≡ some c
    → set_next m p q ≡ ok (put m p (record c { next_pcb_ptr = q }))
unfolding set_next
set_next_lem m p q c nonnull at_p = rw (load_lem m p c nonnull at_p) refl

pub OnlyLinks-write :
    (h : Ptr → Option Pcb) (a n : Ptr) (c : Pcb)
    → h a ≡ some c
    → OnlyLinks h (write h a (some (record c { next_pcb_ptr = n })))
OnlyLinks-write h a n c at_a b = ground arith

-- Writing a PCB without its link keeps the queues.
pub IsChain-put :
    (h : Ptr → Option Pcb) (a : Ptr) (c d : Pcb) (p : Ptr) (xs : List Ptr)
    → h a ≡ some c
    → d.next_pcb_ptr ≡ c.next_pcb_ptr
    → IsChain h p xs
    → IsChain (write h a (some d)) p xs
IsChain-put h a c d p [] at_a link chain = chain
IsChain-put h a c d p (x ∷ xs) at_a link (e, nonnull, fresh, b, at_x, rest) =
    elim (Bool-cases (x == a)) [
      | inl here ↦
          let next : d.next_pcb_ptr ≡ b.next_pcb_ptr = ground (arith, at_a, at_x, here, link) in
          (
            e,
            nonnull,
            fresh,
            d,
            ground (arith, here),
            rw next (IsChain-put h a c d b.next_pcb_ptr xs at_a link rest),
          )
      | inr other ↦ (
        e,
        nonnull,
        fresh,
        b,
        ground (arith, other, at_x),
        IsChain-put h a c d b.next_pcb_ptr xs at_a link rest,
      )
    ]
