-- ===== src/Dir/Add.antt =====
-- add_dirent_to_dir and then find_entry_in_dir (src/internal/pennfat_kernel.c).
use pennosgrp.Prelude.{
  ℕ, zero, suc, ◌+◌, ◌*◌, ◌<◌, ◌≤◌, ◌≡◌, refl, ap, sym, ◌∙◌, true, false, none, some, List, [], ◌∷◌,
  arith, length, ltb, ◌==◌, Bool-cases, Option-cases, inl, inr, ok,
}
use pennosgrp.Bytes.{splice}
use pennosgrp.Fat.{Fs, update, in_fat, read_block, write_block}
use pennosgrp.Fat.Region.{beside_fat}
use pennosgrp.Dirent.{DirEntry, success, encode}
use pennosgrp.Dirent.Codec.{IsEntry}
use pennosgrp.Dir.{
  str_eq, entry_name, mark, Search, failed, missing, hit, entries_per_block, find_in_block,
  find_loop, free_slot, slot_loop, put_entry,
}
use pennosgrp.Dir.Block.{find_in_block-splice}
use pennosgrp.Dir.Walks.{
  at_end, Ends, find_loop_next, find_loop_hit, slot_loop_next, slot_loop_hit, passed,
  missing-Passed,
}

-- Blocks beside the FAT that can be read are whole.
abbrev pub HasBlocks : Fs → Type 0
HasBlocks g =
    (b : ℕ) (block : List ℕ)
    → in_fat g b ≡ false
    → read_block g b ≡ some block
    → length block ≡ g.block_size

-- A slot in a block of the directory.
pub record HasSlot (g : Fs) (b i : ℕ) : Type 0 where
  pub going : at_end b ≡ false
  pub block : List ℕ
  pub reads : read_block g b ≡ some block
  pub slot : free_slot (entries_per_block g) 0 block ≡ some i

slot_loop_end :
    (f : ℕ) (g : Fs) (cur : ℕ) → at_end cur ≡ true → slot_loop (suc f) g cur ≡ ok missing
unfolding slot_loop
slot_loop_end f g cur e = rw e refl

slot_loop_failed :
    (f : ℕ) (g : Fs) (cur : ℕ)
    → at_end cur ≡ false
    → read_block g cur ≡ none
    → slot_loop (suc f) g cur ≡ ok failed
unfolding slot_loop
slot_loop_failed f g cur going r = rw (going, r) refl

pub slot_loop-HasSlot :
    (f : ℕ) (g : Fs) (cur b i : ℕ) → slot_loop f g cur ≡ ok (hit (b, i)) → HasSlot g b i
slot_loop-HasSlot zero g cur b i e = absurd (stuck e)
  where
    stuck : slot_loop zero g cur ≡ ok (hit (b, i)) → ⊥
    stuck e = unfold slot_loop in ground (arith, e)
slot_loop-HasSlot (suc f) g cur b i e = elim (Bool-cases (at_end cur)) [
  | inl end ↦ absurd (ground (arith, e, slot_loop_end f g cur end))
  | inr going ↦ elim (Option-cases (read_block g cur)) [
    | inl bad ↦ absurd (ground (arith, e, slot_loop_failed f g cur going bad))
    | inr (block, reads) ↦ elim (Option-cases (free_slot (entries_per_block g) 0 block)) [
      | inl full ↦
          slot_loop-HasSlot f g (g.fat cur) b i
            (sym (slot_loop_next f g cur block going reads full) ∙ e)
      | inr (j, slot) ↦
          let hits = slot_loop_hit f g cur block going reads j slot in
          let same_b : cur ≡ b = ground (arith, e, hits) in
          let same_i : j ≡ i = ground (arith, e, hits) in
          record {
            going = rw (← same_b) going;
            block = block;
            reads = rw (← same_b) reads;
            slot = slot ∙ ap some same_i;
          }
    ]
  ]
]

-- The image after the entry is written to the slot.
abbrev pub with_entry : Fs → ℕ → ℕ → List ℕ → DirEntry → Fs
with_entry g b i block e = record g {
  blocks = update g.blocks b (some (splice (64 * i) (encode e) block));
}

pub put_entry_lem :
    (g g' : Fs) (b i : ℕ) (block : List ℕ) (e : DirEntry)
    → in_fat g b ≡ false
    → read_block g b ≡ some block
    → put_entry g b i e ≡ (success, g')
    → (g.fs_open ≡ true) × (g' ≡ with_entry g b i block e)
unfolding put_entry read_block write_block
put_entry_lem g g' b i block e out reads runs =
    (ground (arith, out, reads, runs), ground (arith, out, reads, runs))

module _ (g : Fs) (b i : ℕ) (e : DirEntry) (is : IsEntry e) (live : ltb 2 (mark e) ≡ true)
    (opened : g.fs_open ≡ true) (one : g.fat_block_count ≤ 1) (sizes : HasBlocks g)
    (at_slot : HasSlot g b i) where
  abbrev g' : Fs
  g' = with_entry g b i at_slot.block e

  out : in_fat g b ≡ false
  out = beside_fat g b one (ground (arith, at_slot.going))

  read_same : read_block g' b ≡ some (splice (64 * i) (encode e) at_slot.block)
  unfolding read_block
  read_same = ground (arith, opened, out)

  read_other : (c : ℕ) → at_end c ≡ false → (c == b) ≡ false → read_block g' c ≡ read_block g c
  unfolding read_block
  read_other c going ne = ground (arith, opened, ne, beside_fat g c one (ground (arith, going)))

  fits :
      (c : ℕ) (block : List ℕ)
      → in_fat g c ≡ false
      → read_block g c ≡ some block
      → 64 * (0 + entries_per_block g) ≤ length block
  fits c block beside reads = omega (arith, sizes c block beside reads)

  pub find_loop-put :
      (f cur : ℕ) (name : List ℕ)
      → str_eq (entry_name e) name ≡ true
      → slot_loop f g cur ≡ ok (hit (b, i))
      → find_loop f g cur name ≡ ok missing
      → find_loop f g' cur name ≡ ok (hit (record { block = b; index = i; entry = e }))
  find_loop-put zero cur name named slot gone = absurd (stuck slot)
    where
      stuck : slot_loop zero g cur ≡ ok (hit (b, i)) → ⊥
      stuck e = unfold slot_loop in ground (arith, e)
  find_loop-put (suc f) cur name named slot gone = elim (Bool-cases (at_end cur)) [
    | inl end ↦ absurd (ground (arith, slot, slot_loop_end f g cur end))
    | inr going ↦ elim (missing-Passed f g cur name going gone) [
      | passed block reads none_here ↦
          elim (Option-cases (free_slot (entries_per_block g) 0 block)) [
            | inl full ↦
                let other : (cur == b) ≡ false = apart cur block reads full in
                find_loop_next f g' cur block going (read_other cur going other ∙ reads) name
                  none_here
                ∙ find_loop-put f (g.fat cur) name named
                    (sym (slot_loop_next f g cur block going reads full) ∙ slot)
                    (sym (find_loop_next f g cur block going reads name none_here) ∙ gone)
            | inr (j, here) ↦
                let hits = slot_loop_hit f g cur block going reads j here in
                let same_b : cur ≡ b = ground (arith, slot, hits) in
                let same_block : block ≡ at_slot.block =
                  ground (arith, reads, at_slot.reads, same_b) in
                rw same_b (
                  find_loop_hit f g' b (splice (64 * i) (encode e) at_slot.block) at_slot.going
                    read_same name i e
                    (find_in_block-splice e is live at_slot.block i (entries_per_block g) 0 name
                      named (fits b at_slot.block out at_slot.reads) at_slot.slot
                      (ap (λ x. find_in_block (entries_per_block g) 0 x name) (sym same_block)
                        ∙ none_here)))
          ]
    ]
  ]
    where
      apart :
          (cur : ℕ) (block : List ℕ)
          → read_block g cur ≡ some block
          → free_slot (entries_per_block g) 0 block ≡ none
          → (cur == b) ≡ false
      apart cur block reads full = elim (Bool-cases (cur == b)) [
        | inr ne ↦ ne
        | inl eq ↦ absurd (conflict eq)
      ]
        where
          conflict : (cur == b) ≡ true → ⊥
          conflict eq =
              let same_b : cur ≡ b = ground arith in
              let same_block : block ≡ at_slot.block =
                ground (arith, reads, at_slot.reads, same_b) in
              ground (arith, full, at_slot.slot, ap (free_slot (entries_per_block g) 0) same_block)

-- The search of a slot in a chain that ends ends.
pub slot_loop_total :
    (f : ℕ) (g : Fs) (cur : ℕ) (xs : List ℕ)
    → Ends g.fat cur xs
    → length xs < f
    → (s : Search (ℕ × ℕ)) × (slot_loop f g cur ≡ ok s)
slot_loop_total zero g cur xs ends lt = absurd (omega arith)
slot_loop_total (suc f) g cur [] ends lt = (missing, slot_loop_end f g cur ends)
slot_loop_total (suc f) g cur (x ∷ xs) (same, going, ends) lt =
    let (s, runs) = slot_loop_total f g (g.fat x) xs ends (omega arith) in
    let here : at_end cur ≡ false = rw same going in
    elim (Option-cases (read_block g cur)) [
      | inl bad ↦ (failed, slot_loop_failed f g cur here bad)
      | inr (block, reads) ↦ elim (Option-cases (free_slot (entries_per_block g) 0 block)) [
        | inr (i, slot) ↦ (hit (cur, i), slot_loop_hit f g cur block here reads i slot)
        | inl full ↦ (
          s,
          slot_loop_next f g cur block here reads full
              ∙ ap (λ b. slot_loop f g (g.fat b)) same
              ∙ runs,
        )
      ]
    ]
