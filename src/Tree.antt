-- ===== src/Tree.antt =====
-- The calls that change directories, of src/internal/pennfat_kernel.c: k_unlink, k_touch, k_chmod,
-- k_chdir, k_symlink, k_mkdir and k_rmdir.
pub mod Guards
pub mod Touch
pub mod Chmod
pub mod Unlink
pub mod Rmdir
pub mod NewDir
pub mod Mkdir
pub mod Rename
pub mod Symlink
use pennosgrp.Prelude.{
  ℕ, zero, suc, ◌+◌, ◌-◌, ◌*◌, Bool, true, false, not, ◌&&◌, ◌||◌, Option, none, some, List, [],
  ◌∷◌, ◌++◌, length, replicate, leb, ◌==◌, if◌then◌else◌, ℤ, pos, negsuc, Outcome, ok, ◌>>=◌,
}
use pennosgrp.Bytes.{splice}
use pennosgrp.Fat.{
  Fs, fat_free, fat_eoc, set_fat, read_block, write_block, allocate_free_block, free_block_chain,
}
use pennosgrp.Dirent.{
  DirEntry, PennFatErr, success, not_mounted, invad, exists, nospace, notempty, notdir, isdir,
  io_error, busy, range, entry_size, encode, entry_at, write_dirent,
}
use pennosgrp.File.{State, set_file, file, find_and_increment_sysfile}
use pennosgrp.Dir.{str_eq, entry_name, mark, entries_per_block, add_dirent_to_dir}
use pennosgrp.Open.{
  is_success, is_notdir, inode_of, deleted_entry, no_parent, get_filename_from_path,
}
use pennosgrp.Resolve.{
  Resolved, resolve_path, resolve_path_no_follow, new_entry, padded, def_perm, dot, dotdot, slash,
  is_nil,
}

-- A name that a new entry cannot have.
abbrev pub bad_name : List ℕ → Bool
bad_name name = is_nil name || leb 32 (length name) || str_eq name dot || str_eq name dotdot

-- The new state with what a call returns.
abbrev pub Result : Type 0
Result = Outcome (State × PennFatErr)

abbrev with_fs : State → PennFatErr × Fs → State × PennFatErr
with_fs s (err, g) = (record s { fs = g }, err)

-- The file is open if its row had a reference before the search took one.
unfoldable pub is_busy : State → Resolved → Bool
is_busy s r = elim (find_and_increment_sysfile s (inode_of r.entry_block r.entry_index)) [
  | none ↦ false
  | some (i, s1) ↦ leb 2 (file s1 i).ref_count
]

-- The blocks are freed, and the entry is marked as deleted.
unfoldable pub remove_file : State → Resolved → Result
remove_file s r = do
  g ←
      (if r.entry.first_block == fat_eoc || r.entry.first_block == fat_free
        then ok s.fs
        else free_block_chain s.fs r.entry.first_block)
  let (err, g1) = write_dirent g r.entry_block r.entry_index deleted_entry
  ok (record s { fs = g1 }, err)

unfoldable pub k_unlink : (now cwd : ℕ) → State → List ℕ → Result
k_unlink now cwd s path =
    if not s.mounted
    then ok (s, not_mounted)
    else if is_nil path || str_eq path slash || str_eq path dot || str_eq path dotdot
    then ok (s, invad)
    else do
      (err, r) ← resolve_path s.fs now cwd path
      if not (is_success err)
          then ok (s, err)
          else if not r.found || r.is_root
          then ok (s, exists)
          else if r.entry.ftype == 2
          then ok (s, isdir)
          else if is_busy s r
          then ok (s, busy)
          else remove_file s r

-- A new empty file, in a directory that was found.
unfoldable pub touch_new : ℕ → State → List ℕ → Resolved → Result
touch_new now s path r =
    if no_parent r
    then ok (s, exists)
    else if leb 32 (length (get_filename_from_path path))
    then ok (s, invad)
    else if str_eq (get_filename_from_path path) dot || str_eq (get_filename_from_path path) dotdot
    then ok (s, invad)
    else elim (allocate_free_block s.fs) [
      | none ↦ ok (s, nospace)
      | some (b, g) ↦ do
        (err, g1) ←
            add_dirent_to_dir g r.parent_dir_block
              (new_entry (get_filename_from_path path) 1 def_perm b now)
        ok (record s { fs = if is_success err then g1 else set_fat g1 b fat_free }, err)
    ]

unfoldable pub k_touch : (now cwd : ℕ) → State → List ℕ → Result
k_touch now cwd s path =
    if not s.mounted then ok (s, not_mounted) else if is_nil path then ok (s, invad) else do
      (err, r) ← resolve_path s.fs now cwd path
      if not (is_success err || is_notdir err)
          then ok (s, err)
          else if not r.found
          then touch_new now s path r
          else if r.is_root
          then ok (s, isdir)
          else ok (
              with_fs s
                (write_dirent s.fs r.entry_block r.entry_index (record r.entry { mtime = now })))

-- VALID_PERM
unfoldable pub valid_perm : ℕ → Bool
valid_perm p = p == 0 || p == 1 || p == 2 || p == 5 || p == 6 || p == 7

unfoldable pub k_chmod : (now cwd : ℕ) → State → List ℕ → ℕ → Result
k_chmod now cwd s path new_perm =
    if not s.mounted
    then ok (s, not_mounted)
    else if is_nil path || not (valid_perm new_perm)
    then ok (s, invad)
    else do
      (err, r) ← resolve_path s.fs now cwd path
      if not (is_success err)
          then ok (s, err)
          else if not r.found || r.is_root
          then ok (s, exists)
          else ok (
              with_fs s (
                write_dirent s.fs r.entry_block r.entry_index
                  (record r.entry { perm = new_perm; mtime = now })))

-- The new g_cwd_block.
pub k_chdir : (now cwd : ℕ) → State → List ℕ → Outcome (ℕ × PennFatErr)
k_chdir now cwd s path = if not s.mounted then ok (cwd, not_mounted) else do
  (err, r) ← resolve_path s.fs now cwd path
  ok (
      if not (is_success err)
      then (cwd, err)
      else if not r.found
      then (cwd, exists)
      else if r.is_root
      then (1, success)
      else if not (r.entry.ftype == 2)
      then (cwd, notdir)
      else (r.entry.first_block, success))

-- The block with the target's bytes, and the link's entry.
unfoldable pub link_to : ℕ → State → (target name : List ℕ) → ℕ → Result
link_to now s target name parent = elim (allocate_free_block s.fs) [
  | none ↦ ok (s, nospace)
  | some (b, g) ↦ elim (write_block g b (target ++ replicate (g.block_size - length target) 0)) [
    | none ↦ ok (record s { fs = set_fat g b fat_free }, io_error)
    | some g1 ↦ do
      (err, g2) ←
          add_dirent_to_dir g1 parent (record (new_entry name 4 7 b now) { size = length target })
      if is_success err
          then ok (record s { fs = g2 }, success)
          else do g3 ← free_block_chain g2 b; ok (record s { fs = g3 }, err)
  ]
]

unfoldable pub k_symlink : (now cwd : ℕ) → State → (target linkpath : List ℕ) → Result
k_symlink now cwd s target linkpath =
    if not s.mounted
    then ok (s, not_mounted)
    else if is_nil target || is_nil linkpath
    then ok (s, invad)
    else do
      (err, r) ← resolve_path_no_follow s.fs now cwd linkpath
      let name = get_filename_from_path linkpath
      if not (is_success err || is_notdir err)
          then ok (s, err)
          else if r.found || no_parent r
          then ok (s, exists)
          else if bad_name name
          then ok (s, invad)
          else if leb s.fs.block_size (length target)
          then ok (s, range)
          else link_to now s target name r.parent_dir_block

-- The first block of a new directory: `.` and `..`.
unfoldable pub dir_block : (now block_size self parent : ℕ) → List ℕ
dir_block now block_size self parent =
    encode (new_entry dot 2 def_perm self now)
    ++ (encode (new_entry dotdot 2 def_perm parent now)
        ++ replicate (block_size - 2 * entry_size) 0)

unfoldable pub make_dir : ℕ → State → List ℕ → ℕ → Result
make_dir now s name parent = elim (allocate_free_block s.fs) [
  | none ↦ ok (s, nospace)
  | some (b, g) ↦ do
    (err, g1) ← add_dirent_to_dir g parent (new_entry name 2 def_perm b now)
    if not (is_success err)
        then ok (record s { fs = set_fat g1 b fat_free }, err)
        else elim (write_block g1 b (dir_block now g1.block_size b parent)) [
          | none ↦ ok (record s { fs = set_fat g1 b fat_free }, io_error)
          | some g2 ↦ ok (record s { fs = g2 }, success)
        ]
]

unfoldable pub k_mkdir : (now cwd : ℕ) → State → List ℕ → Result
k_mkdir now cwd s path =
    if not s.mounted then ok (s, not_mounted) else if is_nil path then ok (s, invad) else do
      (err, r) ← resolve_path s.fs now cwd path
      let name = get_filename_from_path path
      if not (is_success err || is_notdir err)
          then ok (s, err)
          else if r.found || no_parent r
          then ok (s, exists)
          else if bad_name name
          then ok (s, invad)
          else make_dir now s name r.parent_dir_block

-- No entry but `.` and `..` among n entries of a block, up to the end mark.
unfoldable pub is_empty : ℕ → ℕ → List ℕ → Bool
is_empty zero i block = true
is_empty (suc n) i block =
    let e = entry_at block i in
    let rest = is_empty n (i + 1) block in
    if mark e == 0
    then true
    else if mark e == 1 || mark e == 2
    then rest
    else if not (str_eq (entry_name e) dot || str_eq (entry_name e) dotdot)
    then false
    else rest

unfoldable pub k_rmdir : (now cwd : ℕ) → State → List ℕ → Result
k_rmdir now cwd s path =
    if not s.mounted
    then ok (s, not_mounted)
    else if is_nil path || str_eq path slash
    then ok (s, invad)
    else do
      (err, r) ← resolve_path s.fs now cwd path
      if not (is_success err)
          then ok (s, err)
          else if not r.found
          then ok (s, exists)
          else if not (r.entry.ftype == 2)
          then ok (s, notdir)
          else elim (read_block s.fs r.entry.first_block) [
            | none ↦ ok (s, io_error)
            | some block ↦
                let (done, g) = write_dirent s.fs r.entry_block r.entry_index deleted_entry in
                ok (
                  if not (is_empty (entries_per_block s.fs) 0 block)
                  then (s, notempty)
                  else if is_success done
                  then (record s { fs = set_fat g r.entry.first_block fat_free }, success)
                  else (record s { fs = g }, done))
          ]
