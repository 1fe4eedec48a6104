-- ===== src/Dir/Frame.antt =====
-- What an allocation leaves of a directory (src/internal/pennfat_kernel.c).
use pennosgrp.Prelude.{
  ℕ, zero, suc, ◌<◌, ◌≤◌, ◌≡◌, refl, ap, sym, ◌∙◌, true, false, ◌||◌, Option, none, some, List, [],
  ◌∷◌, arith, ◌==◌, if◌then◌else◌, if_false, Bool-cases, length, Option-cases, inl, inr, ok, ◌>>=◌,
}
use pennosgrp.Fat.{Fs, fat_eoc, fat_free, update, set_fat, in_fat, read_block, allocate_free_block}
use pennosgrp.Fat.Chain.{has, Links}
use pennosgrp.Fat.Region.{beside_fat, read_beside}
use pennosgrp.Fat.Alloc.{allocate_free_block_lem, allocate-Links}
use pennosgrp.Dirent.{success, invad}
use pennosgrp.Dir.{
  missing, entries_per_block, find_in_block, find_loop, chain_fuel, report, find_entry_in_dir,
}
use pennosgrp.Dir.Walks.{at_end, find_loop_end, find_loop_failed, find_loop_next, find_loop_hit}
use pennosgrp.Dir.Extend.{has-apart}
use pennosgrp.Dir.Lookup.{IsDir, IsDir-going, find_entry_lem, find_entry_missing}

-- The search of a chain sees the entries of the FAT and the blocks of that chain only.
pub find_loop-frame :
    (f : ℕ) (g : Fs) (fat' : ℕ → ℕ) (blocks' : ℕ → Option (List ℕ)) (cur : ℕ) (xs name : List ℕ)
    → g.fat_block_count ≤ 1
    → Links g.fat cur xs
    → ((c : ℕ) → has c xs ≡ true → fat' c ≡ g.fat c)
    → ((c : ℕ) → has c xs ≡ true → blocks' c ≡ g.blocks c)
    → find_loop f (record g { fat = fat'; blocks = blocks' }) cur name ≡ find_loop f g cur name
unfolding find_loop
find_loop-frame zero g fat' blocks' cur xs name one links same_fat same_blocks = refl
find_loop-frame (suc f) g fat' blocks' cur [] name one links same_fat same_blocks =
    find_loop_end f (record g { fat = fat'; blocks = blocks' }) cur name (ground arith)
    ∙ sym (find_loop_end f g cur name (ground arith))
find_loop-frame (suc f) g fat' blocks' cur (x ∷ xs) name one (same, ne, nf, fresh, rest) same_fat
      same_blocks =
    elim (Option-cases (read_block g cur)) [
      | inl bad ↦
          find_loop_failed f h cur name going (read_same ∙ bad)
          ∙ sym (find_loop_failed f g cur name going bad)
      | inr (block, reads) ↦
          elim (Option-cases (find_in_block (entries_per_block g) 0 block name)) [
            | inr ((i, d), found) ↦
                find_loop_hit f h cur block going (read_same ∙ reads) name i d found
                ∙ sym (find_loop_hit f g cur block going reads name i d found)
            | inl gone ↦
                find_loop_next f h cur block going (read_same ∙ reads) name gone
                ∙ ap (λ c. find_loop f h c name) moved
                ∙ find_loop-frame f g fat' blocks' (g.fat x) xs name one rest
                    (λ c there. same_fat c (ground (arith, there)))
                    (λ c there. same_blocks c (ground (arith, there)))
                ∙ ap (λ c. find_loop f g (g.fat c) name) (sym same)
                ∙ sym (find_loop_next f g cur block going reads name gone)
          ]
    ]
  where
    h : Fs
    h = record g { fat = fat'; blocks = blocks' }

    going : at_end cur ≡ false
    going = ground arith

    here : has cur (x ∷ xs) ≡ true
    here = ground (arith, same)

    read_same : read_block h cur ≡ read_block g cur
    read_same =
        let out = beside_fat g cur one (ground (arith, going)) in
        read_beside h cur out
        ∙ ap (λ b. if g.fs_open then b else none) (same_blocks cur here)
        ∙ sym (read_beside g cur out)

    moved : fat' cur ≡ g.fat x
    moved = same_fat cur here ∙ ap g.fat same

set_fat-IsDir :
    (g : Fs) (b dir : ℕ) (xs : List ℕ)
    → IsDir g dir xs
    → allocate_free_block g ≡ some (b, set_fat g b fat_eoc)
    → IsDir (set_fat g b fat_eoc) dir xs
      × ((name : List ℕ)
          → find_entry_in_dir g dir name ≡ ok (success, none)
          → find_entry_in_dir (set_fat g b fat_eoc) dir name ≡ ok (success, none))
set_fat-IsDir g b dir xs is runs =
    let kept = λ (c : ℕ) (ne : (c == b) ≡ false). if_false (c == b) fat_eoc (g.fat c) ne in
    let (_, keep) =
      allocate-Links g (set_fat g b fat_eoc) b is.fat.start is.fat.small is.fat.room runs in
    let (out, links) = keep dir (dir ∷ xs) is.links in
    let is' : IsDir (set_fat g b fat_eoc) dir xs = record {
      blocks = λ c block out reads.
          is.blocks c block out
            (read_beside g c out ∙ sym (read_beside (set_fat g b fat_eoc) c out) ∙ reads);
      fat = record {
        one = is.fat.one;
        start = is.fat.start;
        room = is.fat.room;
        small = is.fat.small;
      };
      room = is.room;
      links = links;
      short = is.short;
    } in
    (
      is',
      λ name gone. find_entry_lem (set_fat g b fat_eoc) dir name missing (IsDir-going g dir xs is) (
          find_loop-frame chain_fuel g (update g.fat b fat_eoc) g.blocks dir (dir ∷ xs) name
            is.fat.one is.links (λ c there. kept c (has-apart b c (dir ∷ xs) out there))
            (λ c there. refl)
          ∙ find_entry_missing g dir xs name is gone),
    )

-- A directory is still one after an allocation, and a name that it does not have it has not after it.
pub allocated-IsDir :
    (g g' : Fs) (b dir : ℕ) (xs : List ℕ)
    → IsDir g dir xs
    → allocate_free_block g ≡ some (b, g')
    → IsDir g' dir xs
      × (b < fat_eoc)
      × (g.fat b ≡ fat_free)
      × ((name : List ℕ)
          → find_entry_in_dir g dir name ≡ ok (success, none)
          → find_entry_in_dir g' dir name ≡ ok (success, none))
allocated-IsDir g g' b dir xs is runs = elim (allocate_free_block_lem g is.fat.room) [
  | inl (full, _) ↦ absurd (ground (arith, runs, full))
  | inr (b', runs', first) ↦
      let here : b ≡ b' = ground (arith, runs, runs') in
      let image : g' ≡ set_fat g b' fat_eoc = ground (arith, runs, runs') in
      let (is', keep) = set_fat-IsDir g b' dir xs is runs' in
      rw (image, here) (is', omega (arith, first.high, is.fat.small), first.free, keep)
]

-- The same for a lookup as a whole.
pub find_entry-frame :
    (g : Fs) (fat' : ℕ → ℕ) (blocks' : ℕ → Option (List ℕ)) (dir : ℕ) (xs name : List ℕ)
    → g.fat_block_count ≤ 1
    → Links g.fat dir xs
    → ((c : ℕ) → has c xs ≡ true → fat' c ≡ g.fat c)
    → ((c : ℕ) → has c xs ≡ true → blocks' c ≡ g.blocks c)
    → find_entry_in_dir (record g { fat = fat'; blocks = blocks' }) dir name
      ≡ find_entry_in_dir g dir name
unfolding find_entry_in_dir
find_entry-frame g fat' blocks' dir xs name one links same_fat same_blocks =
    ap
      (λ m.
        if dir == fat_free || dir == fat_eoc then ok (invad, none) else (do s ← m; ok (report s)))
      (find_loop-frame chain_fuel g fat' blocks' dir xs name one links same_fat same_blocks)

-- A directory is still one after another block was written, and a name that it does not have it has not
-- after it.
pub written-IsDir :
    (g : Fs) (b dir : ℕ) (xs bytes : List ℕ)
    → IsDir g dir xs
    → has b (dir ∷ xs) ≡ false
    → length bytes ≡ g.block_size
    → let g' : Fs = record g { blocks = update g.blocks b (some bytes) } in
      IsDir g' dir xs
      × ((name : List ℕ)
          → find_entry_in_dir g dir name ≡ ok (success, none)
          → find_entry_in_dir g' dir name ≡ ok (success, none))
written-IsDir g b dir xs bytes is out size = (
  record {
    blocks = sizes;
    fat = record {
      one = is.fat.one;
      start = is.fat.start;
      room = is.fat.room;
      small = is.fat.small;
    };
    room = is.room;
    links = is.links;
    short = is.short;
  },
  λ name gone.
      find_entry-frame g g.fat (update g.blocks b (some bytes)) dir (dir ∷ xs) name is.fat.one
        is.links (λ c there. refl)
        (λ c there. if_false (c == b) _ _ (has-apart b c (dir ∷ xs) out there))
      ∙ gone,
)
  where
    g' : Fs
    g' = record g { blocks = update g.blocks b (some bytes) }

    sizes :
        (c : ℕ) (block : List ℕ)
        → in_fat g c ≡ false
        → read_block g' c ≡ some block
        → length block ≡ g.block_size
    sizes c block beside reads = elim (Bool-cases (c == b)) [
      | inl same ↦ ground (arith, reads, read_beside g' c beside, same, size)
      | inr other ↦
          is.blocks c block beside
            (ground (arith, reads, read_beside g' c beside, read_beside g c beside, other))
    ]
