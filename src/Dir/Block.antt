-- ===== src/Dir/Block.antt =====
-- One block of a directory (src/internal/pennfat_kernel.c): the search of a name in it, and what writing
-- an entry to its first free slot does to such a search.
use pennosgrp.Prelude.{
  ℕ, zero, suc, ◌+◌, ◌*◌, ◌<◌, ◌≤◌, ◌≡◌, ap, sym, ◌∙◌, true, false, none, some, List, arith, length,
  ltb, ◌==◌, if◌then◌else◌, Bool-cases, inl, inr,
}
use pennosgrp.Bytes.{splice}
use pennosgrp.Dirent.{DirEntry, encode, entry_at}
use pennosgrp.Dirent.Codec.{IsEntry}
use pennosgrp.Dirent.RoundTrip.{entry_at-splice}
use pennosgrp.Dir.{str_eq, entry_name, mark, find_in_block, free_slot}

pub free_slot_bounds :
    (n i j : ℕ) (block : List ℕ) → free_slot n i block ≡ some j → (i ≤ j) × (j < i + n)
unfolding free_slot
free_slot_bounds zero i j block e = absurd (ground (arith, e))
free_slot_bounds (suc n) i j block e = elim (Bool-cases (ltb (mark (entry_at block i)) 2)) [
  | inl free ↦ ground (arith, e, free)
  | inr taken ↦
      let (low, high) = free_slot_bounds n (i + 1) j block (ground (arith, e, taken)) in
      (omega arith, omega arith)
]

-- One step of the search.
pub find_step_end :
    (n i : ℕ) (block name : List ℕ)
    → mark (entry_at block i) ≡ 0
    → find_in_block (suc n) i block name ≡ none
unfolding find_in_block
find_step_end n i block name e = ground (arith, e)

pub find_step_deleted :
    (n i : ℕ) (block name : List ℕ)
    → (mark (entry_at block i) == 0) ≡ false
    → ltb 2 (mark (entry_at block i)) ≡ false
    → find_in_block (suc n) i block name ≡ find_in_block n (i + 1) block name
unfolding find_in_block
find_step_deleted n i block name a b = ground arith

pub find_step_other :
    (n i : ℕ) (block name : List ℕ)
    → ltb 2 (mark (entry_at block i)) ≡ true
    → str_eq (entry_name (entry_at block i)) name ≡ false
    → find_in_block (suc n) i block name ≡ find_in_block n (i + 1) block name
unfolding find_in_block
find_step_other n i block name a b = ground arith

pub find_step_hit :
    (n i : ℕ) (block name : List ℕ)
    → ltb 2 (mark (entry_at block i)) ≡ true
    → str_eq (entry_name (entry_at block i)) name ≡ true
    → find_in_block (suc n) i block name ≡ some (i, entry_at block i)
unfolding find_in_block
find_step_hit n i block name a b = ground arith

-- An entry that is written to slot j of a block of n entries.
module _ (e : DirEntry) (is : IsEntry e) (live : ltb 2 (mark e) ≡ true) (block : List ℕ)
    (j : ℕ) where
  abbrev after : List ℕ
  after = splice (64 * j) (encode e) block

  -- The name of the new entry, when it was not there.
  pub find_in_block-splice :
      (n i : ℕ) (name : List ℕ)
      → str_eq (entry_name e) name ≡ true
      → 64 * (i + n) ≤ length block
      → free_slot n i block ≡ some j
      → find_in_block n i block name ≡ none
      → find_in_block n i after name ≡ some (j, e)
  unfolding free_slot
  find_in_block-splice zero i name named fits slot gone = absurd (ground (arith, slot))
  find_in_block-splice (suc n) i name named fits slot gone =
      elim (Bool-cases (ltb (mark (entry_at block i)) 2)) [
        | inl free ↦
            let here : i ≡ j = ground (arith, slot, free) in
            let now_e : entry_at after i ≡ e = entry (omega arith) (omega arith) ∙ rw (same here) in
            find_step_hit n i after name (ap (λ x. ltb 2 (mark x)) now_e ∙ live)
              (ap (λ x. str_eq (entry_name x) name) now_e ∙ named)
            ∙ ap some (pair here now_e)
        | inr taken ↦
            let slot' : free_slot n (i + 1) block ≡ some j = ground (arith, slot, taken) in
            let (low, high) = free_slot_bounds n (i + 1) j block slot' in
            let kept : entry_at after i ≡ entry_at block i =
              entry (omega arith) (omega arith) ∙ rw (apart low) in
            let rest = λ (g : find_in_block n (i + 1) block name ≡ none).
              find_in_block-splice n (i + 1) name named (omega arith) slot' g in
            elim (Bool-cases (ltb 2 (mark (entry_at block i)))) [
              | inr deleted ↦
                  let a : (mark (entry_at block i) == 0) ≡ false = ground (arith, taken) in
                  find_step_deleted n i after name (ap (λ x. mark x == 0) kept ∙ a)
                    (ap (λ x. ltb 2 (mark x)) kept ∙ deleted)
                  ∙ rest (sym (find_step_deleted n i block name a deleted) ∙ gone)
              | inl alive ↦ elim (Bool-cases (str_eq (entry_name (entry_at block i)) name)) [
                | inl hit ↦ absurd (ground (arith, find_step_hit n i block name alive hit, gone))
                | inr other ↦
                    find_step_other n i after name (ap (λ x. ltb 2 (mark x)) kept ∙ alive)
                      (ap (λ x. str_eq (entry_name x) name) kept ∙ other)
                    ∙ rest (sym (find_step_other n i block name alive other) ∙ gone)
              ]
            ]
      ]
    where
      entry :
          64 * i + 64 ≤ length block
          → 64 * j + 64 ≤ length block
          → entry_at after i ≡ (if j == i then e else entry_at block i)
      entry hi hj = entry_at-splice e block j i is hj hi

      same : i ≡ j → (j == i) ≡ true
      same h = ground arith

      apart : i + 1 ≤ j → (j == i) ≡ false
      apart h = ground arith

      pair : i ≡ j → entry_at after i ≡ e → ◌≡◌ {A = ℕ × DirEntry} (i, entry_at after i) (j, e)
      pair a b = λ k. (a k, b k)

  -- Another name that was found stays where it was: the slot held no live entry.
  pub find_in_block-splice_other :
      (n i k : ℕ) (name : List ℕ) (d : DirEntry)
      → str_eq (entry_name e) name ≡ false
      → 64 * (i + n) ≤ length block
      → 64 * j + 64 ≤ length block
      → ltb (mark (entry_at block j)) 2 ≡ true
      → find_in_block n i block name ≡ some (k, d)
      → find_in_block n i after name ≡ some (k, d)
  unfolding find_in_block
  find_in_block-splice_other zero i k name d named fits inside slot found =
      absurd (ground (arith, found))
  find_in_block-splice_other (suc n) i k name d named fits inside slot found =
      let entry : entry_at after i ≡ (if j == i then e else entry_at block i) =
        entry_at-splice e block j i is inside (omega arith) in
      let rest = λ (g : find_in_block n (i + 1) block name ≡ some (k, d)).
        find_in_block-splice_other n (i + 1) k name d named (omega arith) inside slot g in
      elim (Bool-cases (j == i)) [
        | inl here ↦
            let now_e : entry_at after i ≡ e = entry ∙ rw here in
            let old : ltb (mark (entry_at block i)) 2 ≡ true = rw (same here) at slot in
            let deleted : mark (entry_at block i) ≡ 1 = ground (arith, old, found) in
            find_step_other n i after name (ap (λ x. ltb 2 (mark x)) now_e ∙ live)
              (ap (λ x. str_eq (entry_name x) name) now_e ∙ named)
            ∙ rest (
                sym (
                  find_step_deleted n i block name (ground (arith, deleted))
                    (ground (arith, deleted)))
                ∙ found)
        | inr there ↦
            let kept : entry_at after i ≡ entry_at block i = entry ∙ rw there in
            elim (Bool-cases (mark (entry_at block i) == 0)) [
              | inl end ↦ absurd (ground (arith, found, end))
              | inr going ↦ elim (Bool-cases (ltb 2 (mark (entry_at block i)))) [
                | inr deleted ↦
                    find_step_deleted n i after name (ap (λ x. mark x == 0) kept ∙ going)
                      (ap (λ x. ltb 2 (mark x)) kept ∙ deleted)
                    ∙ rest (sym (find_step_deleted n i block name going deleted) ∙ found)
                | inl alive ↦ elim (Bool-cases (str_eq (entry_name (entry_at block i)) name)) [
                  | inl hit ↦
                      find_step_hit n i after name (ap (λ x. ltb 2 (mark x)) kept ∙ alive)
                        (ap (λ x. str_eq (entry_name x) name) kept ∙ hit)
                      ∙ ap (λ x. some (i, x)) kept
                      ∙ sym (find_step_hit n i block name alive hit)
                      ∙ found
                  | inr other ↦
                      find_step_other n i after name (ap (λ x. ltb 2 (mark x)) kept ∙ alive)
                        (ap (λ x. str_eq (entry_name x) name) kept ∙ other)
                      ∙ rest (sym (find_step_other n i block name alive other) ∙ found)
                ]
              ]
            ]
      ]
    where
      same : (j == i) ≡ true → j ≡ i
      same h = ground arith

pub free_slot-mark :
    (n i j : ℕ) (block : List ℕ)
    → free_slot n i block ≡ some j
    → ltb (mark (entry_at block j)) 2 ≡ true
unfolding free_slot
free_slot-mark zero i j block e = absurd (ground (arith, e))
free_slot-mark (suc n) i j block e = elim (Bool-cases (ltb (mark (entry_at block i)) 2)) [
  | inl free ↦ let here : i ≡ j = ground (arith, e, free) in rw here at free
  | inr taken ↦ free_slot-mark n (i + 1) j block (ground (arith, e, taken))
]
