-- ===== src/Tests/Calls.antt =====
-- Calls that change a directory, after k_touch of /a, and k_getcwd.
use pennosgrp.Prelude.{
  none, ℕ, ◌<◌, ◌≡◌, refl, true, some, List, [], ◌∷◌, arith, length, replicate, ◌==◌, if◌then◌else◌,
  ◌||◌, pos, Outcome, ok,
}
use pennosgrp.Bytes.{splice, le_bytes, from_le}
use pennosgrp.Fat.{
  fat_eoc, read_block, write_block, free_block_chain, free_loop, allocate_free_block, find_free,
  fat_free,
}
use pennosgrp.Fat.Chain.{Links}
use pennosgrp.Dirent.{
  DirEntry, PennFatErr, success, encode, decode, entry_at, read_dirent, write_dirent,
}
use pennosgrp.File.{State, find_and_increment_sysfile, find_file, pseudo_inode}
use pennosgrp.Dir.{
  Place, entry_name, find_in_block, find_loop, find_entry_in_dir, add_dirent_to_dir, slot_loop,
  free_slot, put_entry,
}
use pennosgrp.Resolve.{
  Resolved, new_entry, components, tokens, step_last, step_name, step, walk, resolve_from,
  resolve_path_internal, resolve_path, not_there, dot, dotdot, resolve_path_no_follow,
  read_symlink_target,
}
use pennosgrp.Open.{base_name, get_filename_from_path}
use pennosgrp.Tree.{
  valid_perm, k_chmod, is_busy, remove_file, k_unlink, is_empty, k_rmdir, k_mkdir, make_dir,
  k_symlink, link_to,
}
use pennosgrp.Tree.Chmod.{k_chmod_lem}
use pennosgrp.Tree.Unlink.{IsRemoved, k_unlink_lem}
use pennosgrp.Tree.Rmdir.{k_rmdir_lem}
use pennosgrp.Tree.Mkdir.{k_mkdir_lem}
use pennosgrp.Tree.Symlink.{k_symlink_lem}
use pennosgrp.Tree.Touch.{FoundAs, HasFields}
use pennosgrp.Dir.Lookup.{IsDir}
use pennosgrp.Cwd.{k_getcwd}
use pennosgrp.Cwd.Total.{k_getcwd_lem}
use pennosgrp.Tests.Trees.{
  disk, state, a_path, a_entry, a_entry-IsEntry, found_a, touched, all_end, root-IsDir, a_name,
  a_name-IsFileName, root_without_a,
}

abbrev state_of : Outcome (State × PennFatErr) → State
state_of (ok (s, err)) = s
state_of _ = state

a_touched : resolve_path touched.fs 100 1 a_path ≡ ok (success, found_a)
unfolding resolve_path resolve_path_internal resolve_from walk step step_name step_last components
    tokens find_entry_in_dir find_loop find_in_block entry_name entry_at encode decode read_block
    le_bytes from_le splice
a_touched = refl

a_block : read_block touched.fs 1 ≡ some (splice 0 (encode a_entry) (replicate 64 0))
unfolding read_block
a_block = refl

a_block_size : length (splice 0 (encode a_entry) (replicate 64 0)) ≡ 64
unfolding encode le_bytes splice
a_block_size = refl

abbrev chmodded : State
chmodded = state_of (k_chmod 100 1 touched a_path 2)

chmods : k_chmod 100 1 touched a_path 2 ≡ ok (chmodded, success)
unfolding k_chmod valid_perm write_dirent write_block resolve_path resolve_path_internal
    resolve_from walk step step_name step_last components tokens find_entry_in_dir find_loop
    find_in_block entry_name entry_at encode decode read_block le_bytes from_le splice
chmods = refl

k_chmod_lem_example :
    read_dirent chmodded.fs 1 (pos 0) ≡ (success, some (record a_entry { perm = 2; mtime = 100 }))
k_chmod_lem_example =
    (k_chmod_lem 100 1 touched chmodded a_path 2 found_a 0 0
      (splice 0 (encode a_entry) (replicate 64 0)) a_touched refl refl a_block a_block_size
      a_entry-IsEntry (omega arith) (omega arith) chmods).1

a_chain : Links touched.fs.fat 2 (2 ∷ [])
a_chain = (refl, (λ e. omega (arith, e)), (λ e. omega (arith, e)), refl, refl)

abbrev unlinked : State
unlinked = state_of (k_unlink 100 1 touched a_path)

unlinks : k_unlink 100 1 touched a_path ≡ ok (unlinked, success)
unfolding k_unlink is_busy remove_file find_and_increment_sysfile find_file pseudo_inode
    free_block_chain free_loop write_dirent write_block resolve_path resolve_path_internal
    resolve_from walk step step_name step_last components tokens find_entry_in_dir find_loop
    find_in_block entry_name entry_at encode decode read_block le_bytes from_le splice
unlinks = refl

k_unlink_lem_example :
    IsRemoved unlinked.fs 1 0 0 (entry_at (splice 0 (encode a_entry) (replicate 64 0)) 0)
k_unlink_lem_example =
    (k_unlink_lem 100 1 touched unlinked a_path found_a 0 0
      (splice 0 (encode a_entry) (replicate 64 0)) [] a_touched refl a_chain (omega arith) refl
      a_block a_block_size (omega arith) unlinks).1

-- A root directory with an empty directory d at block 3.
abbrev d_entry : DirEntry
d_entry = new_entry (b'd' ∷ []) 2 6 3 100

abbrev d_path : List ℕ
d_path = b'd' ∷ []

abbrev has_d : State
has_d = record state {
  fs = record disk {
    fat = λ b. if b == 1 || b == 3 then fat_eoc else 0;
    blocks = λ b.
        if b == 1 then some (splice 0 (encode d_entry) (replicate 64 0)) else some (replicate 64 0);
  };
}

abbrev found_d : Resolved
found_d = record found_a { entry = d_entry }

d_there : resolve_path has_d.fs 100 1 d_path ≡ ok (success, found_d)
unfolding resolve_path resolve_path_internal resolve_from walk step step_name step_last components
    tokens find_entry_in_dir find_loop find_in_block entry_name entry_at encode decode read_block
    le_bytes from_le splice
d_there = refl

d_parent_block : read_block has_d.fs 1 ≡ some (splice 0 (encode d_entry) (replicate 64 0))
unfolding read_block
d_parent_block = refl

d_parent_size : length (splice 0 (encode d_entry) (replicate 64 0)) ≡ 64
unfolding encode le_bytes splice
d_parent_size = refl

d_block : read_block has_d.fs 3 ≡ some (replicate 64 0)
unfolding read_block
d_block = refl

abbrev removed : State
removed = state_of (k_rmdir 100 1 has_d d_path)

removes : k_rmdir 100 1 has_d d_path ≡ ok (removed, success)
unfolding k_rmdir is_empty write_dirent write_block resolve_path resolve_path_internal resolve_from
    walk step step_name step_last components tokens find_entry_in_dir find_loop find_in_block
    entry_name entry_at encode decode read_block le_bytes from_le splice
removes = refl

k_rmdir_lem_example :
    IsRemoved removed.fs 1 0 0 (entry_at (splice 0 (encode d_entry) (replicate 64 0)) 0)
k_rmdir_lem_example =
    (k_rmdir_lem 100 1 has_d removed d_path found_d 0 0 (splice 0 (encode d_entry) (replicate 64 0))
      (replicate 64 0) d_there refl refl d_parent_block d_parent_size (omega arith) d_block
      removes).1

k_getcwd_lem_example :
    (err : PennFatErr) × (s : List ℕ) × (k_getcwd true disk 2 16 ≡ ok (err, s)) × (length s < 16)
k_getcwd_lem_example = k_getcwd_lem true disk 2 16 all_end (omega arith)

-- A cleared root directory in blocks of two entries.
abbrev wide : State
wide = record state { fs = record disk { block_size = 128; blocks = λ b. some (replicate 128 0) } }

wide-IsDir : IsDir wide.fs 1 []
unfolding read_block
wide-IsDir = record {
  blocks = λ b block out reads. ground (arith, out, reads);
  fat = record { one = omega arith; start = omega arith; room = omega arith; small = omega arith };
  room = omega arith;
  links = (refl, (λ e. omega (arith, e)), (λ e. omega (arith, e)), refl, refl);
  short = omega arith;
}

wide_without_a : find_entry_in_dir wide.fs 1 (b'a' ∷ []) ≡ ok (success, none)
unfolding find_entry_in_dir find_loop find_in_block entry_at decode read_block from_le
wide_without_a = refl

wide_not_there : resolve_path wide.fs 100 1 a_path ≡ ok (success, not_there 1)
unfolding resolve_path resolve_path_internal resolve_from walk step step_name components tokens
    find_entry_in_dir find_loop find_in_block entry_at decode read_block from_le
wide_not_there = refl

abbrev with_dir : State
with_dir = state_of (k_mkdir 100 1 wide a_path)

makes_dir : k_mkdir 100 1 wide a_path ≡ ok (with_dir, success)
unfolding k_mkdir make_dir get_filename_from_path base_name allocate_free_block find_free
    add_dirent_to_dir slot_loop free_slot put_entry write_block resolve_path resolve_path_internal
    resolve_from walk step step_name components tokens find_entry_in_dir find_loop find_in_block
    entry_at decode read_block from_le
makes_dir = refl

k_mkdir_lem_example :
    (b : ℕ) × (wide.fs.fat b ≡ fat_free)
    × FoundAs with_dir.fs 1 (b'a' ∷ []) 2 6 0 b 100
    × FoundAs with_dir.fs b dot 2 6 0 b 100
    × FoundAs with_dir.fs b dotdot 2 6 0 1 100
unfolding get_filename_from_path base_name
k_mkdir_lem_example =
    k_mkdir_lem 100 1 wide with_dir a_path success (not_there 1) [] wide_not_there wide-IsDir
      (record { chars = (refl, refl, tt); short = omega arith; first = refl }) (omega arith)
      (omega arith) (omega arith) wide_without_a makes_dir

no_link_there : resolve_path_no_follow disk 100 1 a_path ≡ ok (success, not_there 1)
unfolding resolve_path_no_follow resolve_path_internal resolve_from walk step step_name components
    tokens find_entry_in_dir find_loop find_in_block entry_at decode read_block from_le
no_link_there = refl

-- The state after /a was made a link to d.
abbrev linked : State
linked = state_of (k_symlink 100 1 state d_path a_path)

makes_link : k_symlink 100 1 state d_path a_path ≡ ok (linked, success)
unfolding k_symlink link_to get_filename_from_path base_name allocate_free_block find_free
    add_dirent_to_dir slot_loop free_slot put_entry write_block resolve_path_no_follow
    resolve_path_internal resolve_from walk step step_name components tokens find_entry_in_dir
    find_loop find_in_block entry_at decode read_block from_le
makes_link = refl

k_symlink_lem_example :
    (b : ℕ) × (disk.fat b ≡ fat_free)
    × (p : Place) × HasFields p.entry a_name 4 7 1 b 100
    × (find_entry_in_dir linked.fs 1 a_name ≡ ok (success, some p))
    × (read_symlink_target linked.fs p.entry ≡ some d_path)
unfolding get_filename_from_path base_name
k_symlink_lem_example =
    k_symlink_lem 100 1 state linked d_path a_path success (not_there 1) [] no_link_there root-IsDir
      a_name-IsFileName (refl, tt) (omega arith) (omega arith) root_without_a makes_link
