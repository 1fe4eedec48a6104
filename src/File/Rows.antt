-- ===== src/File/Rows.antt =====
-- The rows of the system-wide file table that an open takes (src/internal/pennfat_kernel.c).
use pennosgrp.Prelude.{
  ℕ, ◌+◌, ◌<◌, ◌≡◌, refl, ap, sym, ◌∙◌, Bool, true, false, not, ◌&&◌, none, some, List, [], ◌∷◌,
  arith, length, ◌==◌, if◌then◌else◌, Option-cases, inl, inr,
}
use pennosgrp.First.{IsFirst, first_where, first_where-IsFirst, first_where-none}
use pennosgrp.Dirent.{DirEntry}
use pennosgrp.File.{
  State, SystemFile, file, no_file, set_file, find_file, find_unused, find_and_increment_sysfile,
  create_sysfile_entry_from_resolved,
}

-- The row is in use for the file of that inode.
abbrev pub holds : ℕ → SystemFile → Bool
holds inode f = f.in_use && f.dir_index == inode

abbrev pub is_unused : SystemFile → Bool
is_unused f = not f.in_use

find_file_lem :
    (fs : List SystemFile) (i inode : ℕ) → find_file fs i inode ≡ first_where (holds inode) fs i
unfolding find_file first_where
find_file_lem [] i inode = refl
find_file_lem (f ∷ fs) i inode =
    ap (λ t. if holds inode f then some i else t) (find_file_lem fs (i + 1) inode)

find_unused_lem : (fs : List SystemFile) (i : ℕ) → find_unused fs i ≡ first_where is_unused fs i
unfolding find_unused first_where
find_unused_lem [] i = refl
find_unused_lem (f ∷ fs) i =
    ap (λ t. if is_unused f then some i else t) (find_unused_lem fs (i + 1))

-- The row of a file that is opened for the first time.
abbrev pub first_opened : DirEntry → ℕ → SystemFile
first_opened e inode = record {
  ref_count = 1;
  in_use = true;
  first_block = e.first_block;
  size = e.size;
  mtime = e.mtime;
  dir_index = inode;
}

pub find_and_increment_none :
    (s : State) (inode : ℕ)
    → find_and_increment_sysfile s inode ≡ none
    → (j : ℕ) → j < length s.sysfile_table
    → holds inode (file s j) ≡ false
unfolding find_and_increment_sysfile
find_and_increment_none s inode e = elim (Option-cases (find_file s.sysfile_table 0 inode)) [
  | inl gone ↦
      first_where-none (holds inode) s.sysfile_table no_file 0
        (sym (find_file_lem s.sysfile_table 0 inode) ∙ gone)
  | inr (i, found) ↦ absurd (ground (arith, e, found))
]

pub find_and_increment_lem :
    (s s' : State) (inode i : ℕ)
    → find_and_increment_sysfile s inode ≡ some (i, s')
    → IsFirst (holds inode) s.sysfile_table no_file i
      × (s' ≡ set_file s i (record (file s i) { ref_count = (file s i).ref_count + 1 }))
unfolding find_and_increment_sysfile
find_and_increment_lem s s' inode i e = elim (Option-cases (find_file s.sysfile_table 0 inode)) [
  | inl gone ↦ absurd (ground (arith, e, gone))
  | inr (n, found) ↦
      let (n', same, is) =
        first_where-IsFirst (holds inode) s.sysfile_table no_file 0 n
          (sym (find_file_lem s.sysfile_table 0 inode) ∙ found) in
      let here : n' ≡ i = ground (arith, e, found, same) in
      (rw here at is, ground (arith, e, found))
]

pub create_sysfile_entry_lem :
    (s s' : State) (entry : DirEntry) (inode i : ℕ)
    → create_sysfile_entry_from_resolved s entry inode ≡ some (i, s')
    → IsFirst is_unused s.sysfile_table no_file i × (s' ≡ set_file s i (first_opened entry inode))
unfolding create_sysfile_entry_from_resolved
create_sysfile_entry_lem s s' entry inode i e =
    elim (Option-cases (find_unused s.sysfile_table 0)) [
      | inl full ↦ absurd (ground (arith, e, full))
      | inr (n, found) ↦
          let (n', same, is) =
            first_where-IsFirst is_unused s.sysfile_table no_file 0 n
              (sym (find_unused_lem s.sysfile_table 0) ∙ found) in
          let here : n' ≡ i = ground (arith, e, found, same) in
          (rw here at is, ground (arith, e, found))
    ]
