-- ===== src/PcbQueue/PopByPid.antt =====
-- pcb_queue_pop_by_pid of src/kernel/pcb_queue.c.
use pennosgrp.Prelude.{
  ℕ, zero, suc, ◌+◌, ◌-◌, ◌<◌, ◌≤◌, ◌≡◌, ◌≢◌, refl, Bool, true, false, Option, none, some, List, [],
  ◌∷◌, arith, length, ◌==◌, if◌then◌else◌, ok, ◌>>=◌, Bool-cases, inl, inr, ◌∙◌, sym, subst,
}
use pennosgrp.Pcb.{Ptr, Pcb}
use pennosgrp.PcbQueue.{
  Machine, Queue, load, put, set_next, seek_prev, unlink_after, pcb_queue_pop_by_pid,
}
use pennosgrp.PcbQueue.Chain.{
  has, last_of, IsChain, IsQueue, frame, OnlyLinks, load_lem, set_next_lem, has-last_of,
}
use pennosgrp.PcbQueue.Pop.{IsLoose, pcb_queue_pop_lem}

-- Whether the PCB at an address has the pid.
unfoldable pub has_pid : (Ptr → Option Pcb) → ℕ → Ptr → Bool
has_pid h pid a = elim (h a) [ none ↦ false | some c ↦ c.pid == pid ]

-- The first PCB of a list with the pid, or NULL.
abbrev pub find_pid : (Ptr → Option Pcb) → ℕ → List Ptr → Ptr
find_pid h pid [] = 0
find_pid h pid (x ∷ xs) = if has_pid h pid x then x else find_pid h pid xs

-- The list without that PCB.
abbrev pub erase_pid : (Ptr → Option Pcb) → ℕ → List Ptr → List Ptr
erase_pid h pid [] = []
erase_pid h pid (x ∷ xs) = if has_pid h pid x then xs else x ∷ erase_pid h pid xs

-- What pcb_queue_pop_by_pid promises: the result, the queue behind it, and the PCB taken out.
pub record Popped (m : Machine) (q' : Queue) (m' : Machine) (pid : ℕ) (xs : List Ptr) : Type 0 where
  pub rest : IsQueue m' q' (erase_pid m.heap pid xs)
  pub links : OnlyLinks m.heap m'.heap
  pub loose : find_pid m.heap pid xs ≢ 0 → IsLoose m' (find_pid m.heap pid xs)
  pub interrupts : m'.interrupts ≡ m.interrupts

-- What unlinking leaves of the chain from `x` on, of whose PCBs `x` itself does not match.
record Unlinked (m : Machine) (q : Queue) (pid : ℕ) (x : Ptr) (xs : List Ptr) (q' : Queue)
    (m' : Machine) : Type 0 where
  chain : IsChain m'.heap x (x ∷ erase_pid m.heap pid xs)
  last : q'.q_end_ptr ≡ last_of x (erase_pid m.heap pid xs)
  head : q'.q_head_ptr ≡ q.q_head_ptr
  counted : q'.len + length xs ≡ q.len + length (erase_pid m.heap pid xs)
  links : OnlyLinks m.heap m'.heap
  loose : find_pid m.heap pid xs ≢ 0 → IsLoose m' (find_pid m.heap pid xs)
  interrupts : m'.interrupts ≡ m.interrupts
  outside : (a : Ptr) → has a (x ∷ xs) ≡ false → m'.heap a ≡ m.heap a

module _ (m : Machine) (q : Queue) (x y : Ptr) (ys : List Ptr) (c d : Pcb) (nonnull : x ≢ 0)
    (fresh : has x (y ∷ ys) ≡ false) (at_x : m.heap x ≡ some c) (link : c.next_pcb_ptr ≡ y)
    (nonnull_y : y ≢ 0) (fresh_y : has y ys ≡ false) (at_y : m.heap y ≡ some d) where
  joined : Machine
  joined = put m x (record c { next_pcb_ptr = d.next_pcb_ptr })

  -- The state once `y` is out, and the queue.
  out : Machine
  out = put joined y (record d { next_pcb_ptr = 0 })

  shorter : Queue
  shorter = record q { q_end_ptr = if y == q.q_end_ptr then x else q.q_end_ptr; len = q.len - 1 }

  unlink_runs : unlink_after m q x ≡ ok (y, shorter, out)
  unfolding unlink_after out shorter joined
  unlink_runs =
      rw
        (
          load_lem m x c nonnull at_x,
          link,
          load_lem m y d nonnull_y at_y,
          set_next_lem m x d.next_pcb_ptr c nonnull at_x,
          nonempty,
          second,
        )
        refl
    where
      nonempty : (y == 0) ≡ false
      nonempty = ground arith

      second :
          set_next (put m x (record c { next_pcb_ptr = d.next_pcb_ptr })) y 0
          ≡ ok (
              put
                (put m x (record c { next_pcb_ptr = d.next_pcb_ptr }))
                y
                (record d { next_pcb_ptr = 0 }))
      second =
          set_next_lem (put m x (record c { next_pcb_ptr = d.next_pcb_ptr })) y 0 d nonnull_y
            (ground arith)

  last_shorter :
      (zs : List Ptr)
      → has y zs ≡ false
      → q.q_end_ptr ≡ last_of y zs
      → shorter.q_end_ptr ≡ last_of x zs
  unfolding shorter
  last_shorter [] fresh at_end = ground arith
  last_shorter (z ∷ zs) fresh at_end = ground (arith, has-last_of z zs)

  -- Taking out the PCB right behind `x`.
  unlink_lem :
      (pid : ℕ)
      → has_pid m.heap pid y ≡ true
      → 0 < q.len
      → IsChain m.heap d.next_pcb_ptr ys
      → q.q_end_ptr ≡ last_of y ys
      → Unlinked m q pid x (y ∷ ys) shorter out
  unfolding out shorter joined
  unlink_lem pid match small rest at_end = record {
    chain = rw match (
      refl,
      nonnull,
      ground arith,
      record c { next_pcb_ptr = d.next_pcb_ptr },
      ground arith,
      frame m.heap _ d.next_pcb_ptr ys (λ a i. ground arith) rest,
    );
    last = rw match (last_shorter ys fresh_y at_end);
    head = refl;
    counted = rw match (omega arith);
    links = λ a. ground arith;
    loose = rw match (λ h. (record d { next_pcb_ptr = 0 }, ground arith, refl));
    interrupts = refl;
    outside = λ a o. ground arith;
  }

pub has_pid_lem :
    (h : Ptr → Option Pcb) (pid : ℕ) (a : Ptr) (c : Pcb)
    → h a ≡ some c
    → has_pid h pid a ≡ (c.pid == pid)
unfolding has_pid
has_pid_lem h pid a c at_a = ground arith

has-erase_pid :
    (h : Ptr → Option Pcb) (pid : ℕ) (a : Ptr) (xs : List Ptr)
    → has a xs ≡ false
    → has a (erase_pid h pid xs) ≡ false
has-erase_pid h pid a [] out = refl
has-erase_pid h pid a (x ∷ xs) out = ground (arith, has-erase_pid h pid a xs)

walk_lem :
    (f : ℕ) (m : Machine) (q : Queue) (pid : ℕ) (x : Ptr) (xs : List Ptr)
    → length xs < f
    → length xs ≤ q.len
    → IsChain m.heap x (x ∷ xs)
    → q.q_end_ptr ≡ last_of x xs
    → (q' : Queue) × (m' : Machine) × ((seek_prev f m pid x >>= unlink_after m q)
        ≡ ok (find_pid m.heap pid xs, q', m'))
      × Unlinked m q pid x xs q' m'
unfolding seek_prev
walk_lem zero m q pid x xs enough small chain at_end = absurd (omega arith)
walk_lem (suc f) m q pid x [] enough small (e, nonnull, fresh, c, at_x, link) at_end = (
  q,
  m,
  rw (load_lem m x c nonnull at_x, link)
      (unfold unlink_after in rw (load_lem m x c nonnull at_x, link) refl),
  record {
    chain = (e, nonnull, fresh, c, at_x, link);
    last = at_end;
    head = refl;
    counted = refl;
    links = λ a. refl;
    loose = λ h. absurd (h refl);
    interrupts = refl;
    outside = λ a o. refl;
  },
)
walk_lem (suc f) m q pid x (y ∷ ys) enough small
      (e, nonnull, fresh, c, at_x, (link, nonnull_y, fresh_y, d, at_y, rest)) at_end =
    elim (Bool-cases (has_pid m.heap pid y)) [
      | inl match ↦ (
        shorter m q x y ys c d nonnull fresh at_x link nonnull_y fresh_y at_y,
        out m q x y ys c d nonnull fresh at_x link nonnull_y fresh_y at_y,
        rw
            (
              load_lem m x c nonnull at_x,
              link,
              load_lem m y d nonnull_y at_y,
              nonempty,
              sym same ∙ match,
              match,
            )
            (unlink_runs m q x y ys c d nonnull fresh at_x link nonnull_y fresh_y at_y),
        unlink_lem m q x y ys c d nonnull fresh at_x link nonnull_y fresh_y at_y pid match
            (omega arith) rest at_end,
      )
      | inr other ↦
          let (q', m', runs, un) =
            walk_lem f m q pid y ys (omega arith) (omega arith)
              (refl, nonnull_y, fresh_y, d, at_y, rest) at_end in
          (
            q',
            m',
            rw
                (
                  load_lem m x c nonnull at_x,
                  link,
                  load_lem m y d nonnull_y at_y,
                  nonempty,
                  sym same ∙ other,
                  other,
                )
                runs,
            record {
              chain = rw other (
                refl,
                nonnull,
                ground (arith, has-erase_pid m.heap pid x ys),
                c,
                un.outside x fresh ∙ at_x,
                rw link un.chain,
              );
              last = rw other un.last;
              head = un.head;
              counted = rw other (omega (arith, un.counted));
              links = un.links;
              loose = rw other un.loose;
              interrupts = un.interrupts;
              outside = λ a o. un.outside a (ground arith);
            },
          )
    ]
  where
    nonempty : (y == 0) ≡ false
    nonempty = ground arith

    same : has_pid m.heap pid y ≡ (d.pid == pid)
    same = has_pid_lem m.heap pid y d at_y

-- pcb_queue_pop_by_pid takes the first PCB with the pid out of the queue and returns it, unlinked, or
-- returns NULL if there is none; the queue of the others stays well formed and in order, and links
-- alone change.
pub pcb_queue_pop_by_pid_lem :
    (m : Machine) (q : Queue) (xs : List Ptr) (pid : ℕ)
    → IsQueue m q xs
    → (q' : Queue) × (m' : Machine) × (pcb_queue_pop_by_pid m q pid
        ≡ ok (find_pid m.heap pid xs, q', m'))
      × Popped m q' m' pid xs
unfolding pcb_queue_pop_by_pid
pcb_queue_pop_by_pid_lem m q [] pid valid = (
  q,
  m,
  ground (arith, valid.counted),
  record { rest = valid; links = λ a. refl; loose = λ h. absurd (h refl); interrupts = refl },
)
pcb_queue_pop_by_pid_lem m q (x ∷ xs) pid valid =
    let (e, nonnull, fresh, c, at_x, rest) = valid.chain in
    let same : has_pid m.heap pid x ≡ (c.pid == pid) = has_pid_lem m.heap pid x c at_x in
    let nonempty : (q.len == 0) ≡ false = ground (arith, valid.counted) in
    let at_head : load m q.q_head_ptr ≡ ok c = ground (arith, nonnull, at_x) in
    elim (Bool-cases (has_pid m.heap pid x)) [
      | inl match ↦
          let (q', m', runs, valid', loose, links, on) = pcb_queue_pop_lem m q x xs valid in
          (
            q',
            m',
            rw (nonempty, at_head, sym same ∙ match, match) runs,
            record {
              rest = rw match valid';
              links = links;
              loose = rw match (λ h. loose);
              interrupts = on;
            },
          )
      | inr other ↦
          let (q', m', runs, un) =
            walk_lem (q.len + 1) m q pid x xs (omega (arith, valid.counted))
              (omega (arith, valid.counted)) (refl, nonnull, fresh, c, at_x, rest) valid.last in
          (
            q',
            m',
            rw (nonempty, at_head, sym same ∙ other, other)
                (subst
                  (λ p.
                    (seek_prev (q.len + 1) m pid p >>= unlink_after m q)
                    ≡ ok (find_pid m.heap pid xs, q', m'))
                  (sym e) runs),
            record {
              rest = rw other (record {
                chain =
                    subst (λ p. IsChain m'.heap p (x ∷ erase_pid m.heap pid xs)) (sym (un.head ∙ e))
                      un.chain;
                last = un.last;
                counted = omega (arith, un.counted, valid.counted);
              });
              links = un.links;
              loose = rw other un.loose;
              interrupts = un.interrupts;
            },
          )
    ]
