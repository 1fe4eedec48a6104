-- ===== src/Tree/Rmdir.antt =====
-- k_rmdir (src/internal/pennfat_kernel.c).
use pennosgrp.Prelude.{
  ℕ, zero, suc, ◌+◌, ◌<◌, ◌/◌, ◌≡◌, refl, ap, sym, ◌∙◌, true, false, not, ◌||◌, none, some, List,
  [], ◌∷◌, arith, length, ltb, ◌==◌, if◌then◌else◌, pos, Bool-cases, inl, inr, ok,
}
use pennosgrp.Fat.{Fs, fat_free, in_fat, set_fat, update, read_block}
use pennosgrp.Dirent.{DirEntry, PennFatErr, success, entry_at, read_dirent, write_dirent}
use pennosgrp.Dirent.RoundTrip.{write-read_dirent}
use pennosgrp.File.{State}
use pennosgrp.Dir.{str_eq, entry_name, mark, entries_per_block, find_in_block}
use pennosgrp.Dir.Block.{find_step_end, find_step_deleted, find_step_other}
use pennosgrp.Resolve.{Resolved, resolve_path, is_nil, slash, dot, dotdot}
use pennosgrp.Open.{is_success, deleted_entry}
use pennosgrp.Tree.{Result, is_empty, k_rmdir}
use pennosgrp.Tree.Guards.{is_success-equal, failure_ends, passed, passed_inside}
use pennosgrp.Tree.Unlink.{
  write_dirent-fat, write_dirent_keeps_count, reads_same, IsRemoved, IsRemoved_lem, deleted-IsEntry,
}

str_eq-equal : (a b : List ℕ) → str_eq a b ≡ true → a ≡ b
str_eq-equal [] [] h = refl
str_eq-equal [] (c ∷ b) h = absurd (ground (arith, h))
str_eq-equal (c ∷ a) [] h = absurd (ground (arith, h))
str_eq-equal (c ∷ a) (d ∷ b) h =
    let same : c ≡ d = ground (arith, h) in
    let rest : a ≡ b = str_eq-equal a b (ground (arith, h)) in λ k. same k ∷ rest k

-- An entry under one of two names has no third one.
other_name :
    (e : DirEntry) (name : List ℕ)
    → (str_eq (entry_name e) dot || str_eq (entry_name e) dotdot) ≡ true
    → str_eq name dot ≡ false
    → str_eq name dotdot ≡ false
    → str_eq (entry_name e) name ≡ false
other_name e name either not_dot not_dotdot = elim (Bool-cases (str_eq (entry_name e) name)) [
  | inr other ↦ other
  | inl same ↦
      let here : entry_name e ≡ name = str_eq-equal (entry_name e) name same in
      let either' : (str_eq name dot || str_eq name dotdot) ≡ true = rw here at either in
      absurd (ground (arith, either', not_dot, not_dotdot))
]

-- A block that passes for empty holds no name but `.` and `..`.
is_empty-find_in_block :
    (n i : ℕ) (block name : List ℕ)
    → is_empty n i block ≡ true
    → str_eq name dot ≡ false
    → str_eq name dotdot ≡ false
    → find_in_block n i block name ≡ none
unfolding is_empty find_in_block
is_empty-find_in_block zero i block name h a b = refl
is_empty-find_in_block (suc n) i block name h a b =
    elim (Bool-cases (mark (entry_at block i) == 0)) [
      | inl end ↦ find_step_end n i block name (ground (arith, end))
      | inr more ↦ elim (Bool-cases (ltb 2 (mark (entry_at block i)))) [
        | inr deleted ↦
            find_step_deleted n i block name more deleted
            ∙ is_empty-find_in_block n (i + 1) block name (ground (arith, h, more, deleted)) a b
        | inl live ↦
            elim (Bool-cases (
              str_eq (entry_name (entry_at block i)) dot
              || str_eq (entry_name (entry_at block i)) dotdot)) [
                | inr other ↦ absurd (ground (arith, h, more, live, other))
                | inl either ↦
                    find_step_other n i block name live
                      (other_name (entry_at block i) name either a b)
                    ∙ is_empty-find_in_block n (i + 1) block name
                        (ground (arith, h, more, live, either)) a b
              ]
      ]
    ]

-- The end of the call, after the write.
abbrev finished : State → ℕ → PennFatErr × Fs → State × PennFatErr
finished s first (err, g) =
    if is_success err
    then (record s { fs = set_fat g first fat_free }, success)
    else (record s { fs = g }, err)

finished-success :
    (s s' : State) (first : ℕ) (w : PennFatErr × Fs)
    → ◌≡◌ {A = Result} (ok (finished s first w)) (ok (s', success))
    → (w ≡ (success, w.1)) × (s' ≡ record s { fs = set_fat (w.1) first fat_free })
finished-success s s' first (err, g) e = elim (Bool-cases (is_success err)) [
  | inl won ↦
      let here : err ≡ success = is_success-equal err won in
      let end : record s { fs = set_fat g first fat_free } ≡ s' = ground (arith, rw won at e) in
      (λ k. (here k, g), sym end)
  | inr lost ↦ absurd (failure_ends (record s { fs = g }) s' err lost (rw lost at e))
]

-- An entry read beside the FAT does not hang on the FAT.
read_dirent_same :
    (g : Fs) (i v b : ℕ) (j : ℕ)
    → in_fat g b ≡ false
    → read_dirent (set_fat g i v) b (pos j) ≡ read_dirent g b (pos j)
unfolding read_dirent
read_dirent_same g i v b j out = rw (reads_same g (update g.fat i v) b out) refl

-- When k_rmdir succeeds, no name but `.` and `..` was found in the first block of the directory; the entry
-- that the path led to begins with the deletion mark 1 and the other entries of its block are as before; of
-- the FAT the entry of that first block alone changes, and is free; and the tables of open files are as
-- before. The path leads to a place in a block that lies beside the FAT and could be read as a whole, and
-- the directory's first block could be read.
pub k_rmdir_lem :
    (now cwd : ℕ) (s s' : State) (path : List ℕ) (r : Resolved) (i j : ℕ) (bytes block : List ℕ)
    → resolve_path s.fs now cwd path ≡ ok (success, r)
    → r.entry_index ≡ pos i
    → in_fat s.fs r.entry_block ≡ false
    → read_block s.fs r.entry_block ≡ some bytes
    → length bytes ≡ s.fs.block_size
    → j < s.fs.block_size / 64
    → read_block s.fs r.entry.first_block ≡ some block
    → k_rmdir now cwd s path ≡ ok (s', success)
    → ((name : List ℕ)
        → str_eq name dot ≡ false
        → str_eq name dotdot ≡ false
        → find_in_block (entries_per_block s.fs) 0 block name ≡ none)
      × IsRemoved s'.fs r.entry_block i j (entry_at bytes j)
      × ((b : ℕ) → s'.fs.fat b ≡ (if b == r.entry.first_block then fat_free else s.fs.fat b))
      × (s' ≡ record s { fs = s'.fs })
unfolding k_rmdir
k_rmdir_lem now cwd s s' path r i j bytes block resolves place beside reads size small opens runs =
    let (_, after_mount) = passed (not s.mounted) s s' _ _ refl runs in
    let (_, after_path) = passed (is_nil path || str_eq path slash) s s' _ _ refl after_mount in
    let (_, after_found) = passed (not r.found) s s' _ _ refl (rw resolves at after_path) in
    let (_, after_type) = passed (not (r.entry.ftype == 2)) s s' _ _ refl after_found in
    let (empty, ends) =
      passed_inside (not (is_empty (entries_per_block s.fs) 0 block)) s s' _ _ refl
        (rw opens at after_type) in
    let w = write_dirent s.fs r.entry_block (pos i) deleted_entry in
    let (placed, image) = finished-success s s' r.entry.first_block w (rw place at ends) in
    (
      λ name a b.
          is_empty-find_in_block (entries_per_block s.fs) 0 block name (ground (arith, empty)) a b,
      IsRemoved_lem s'.fs r.entry_block i j (entry_at bytes j) (
          ap (λ t. read_dirent t.fs r.entry_block (pos j)) image
          ∙ read_dirent_same (w.1) r.entry.first_block fat_free r.entry_block j (
              ap (λ n. ltb r.entry_block n)
                (write_dirent_keeps_count s.fs r.entry_block i deleted_entry)
              ∙ beside)
          ∙ write-read_dirent s.fs (w.1) r.entry_block i j bytes deleted_entry deleted-IsEntry
              beside reads size small placed),
      λ b.
          ap (λ t. t.fs.fat b) image
          ∙ ap (λ f. if b == r.entry.first_block then fat_free else f b)
              (write_dirent-fat s.fs (w.1) r.entry_block i deleted_entry beside placed),
      image ∙ (λ k. record s { fs = (sym image k).fs }),
    )
