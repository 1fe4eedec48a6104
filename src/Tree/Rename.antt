-- ===== src/Tree/Rename.antt =====
-- k_rename of src/internal/pennfat_kernel.c.
use pennosgrp.Prelude.{ℕ, not, ◌||◌, List, ◌==◌, if◌then◌else◌, ok, ◌>>=◌}
use pennosgrp.Dirent.{success, not_mounted, invad, exists, notdir, isdir, write_dirent}
use pennosgrp.File.{State}
use pennosgrp.Dir.{str_eq, entry_name, add_dirent_to_dir}
use pennosgrp.Open.{is_success, is_notdir, deleted_entry, no_parent, get_filename_from_path}
use pennosgrp.Resolve.{Resolved, resolve_path, padded, dot, dotdot, is_nil}
use pennosgrp.Tree.{Result, bad_name, with_fs, k_rmdir, k_unlink}

-- The entry goes to its new directory under its new name, and then the old one is marked as deleted.
pub move_entry : ℕ → State → Resolved → List ℕ → ℕ → Result
move_entry now s old name parent = do
  (err, g) ← add_dirent_to_dir s.fs parent (record old.entry { name = padded name; mtime = now })
  ok (
      if is_success err
      then with_fs s (write_dirent g old.entry_block old.entry_index deleted_entry)
      else (record s { fs = g }, err))

-- What stands at the new path is removed, if it is of the same type.
pub replace_target : (now cwd : ℕ) → State → Resolved → Resolved → List ℕ → Result
replace_target now cwd s old new newpath =
    if not new.found
    then ok (s, success)
    else if not (old.entry.ftype == new.entry.ftype)
    then ok (s, if old.entry.ftype == 2 then notdir else isdir)
    else if new.entry.ftype == 2
    then k_rmdir now cwd s newpath
    else k_unlink now cwd s newpath

pub k_rename : (now cwd : ℕ) → State → (oldpath newpath : List ℕ) → Result
k_rename now cwd s oldpath newpath =
    if not s.mounted
    then ok (s, not_mounted)
    else if is_nil oldpath || is_nil newpath
    then ok (s, invad)
    else if str_eq oldpath newpath
    then ok (s, success)
    else do
      (err, old) ← resolve_path s.fs now cwd oldpath
      if not (is_success err)
          then ok (s, err)
          else if not old.found || old.is_root
          then ok (s, exists)
          else if str_eq (entry_name old.entry) dot || str_eq (entry_name old.entry) dotdot
          then ok (s, invad)
          else do
            (err2, new) ← resolve_path s.fs now cwd newpath
            let name = get_filename_from_path newpath
            if not (is_success err2 || is_notdir err2)
                then ok (s, err2)
                else if no_parent new
                then ok (s, exists)
                else if bad_name name
                then ok (s, invad)
                else do
                  (s1, removed) ← replace_target now cwd s old new newpath
                  if is_success removed
                      then move_entry now s1 old name new.parent_dir_block
                      else ok (s1, removed)
