-- ===== src/Tests/Trees.antt =====
-- Directories, paths and opens at an image whose root directory is one cleared block.
use pennosgrp.Prelude.{
  ℕ, ◌≡◌, refl, true, false, none, some, List, [], ◌∷◌, arith, replicate, ◌==◌, if◌then◌else◌, ◌||◌,
  inl, inr, Bool-cases, pos, ok,
}
use pennosgrp.Bytes.{splice, le_bytes, from_le}
use pennosgrp.Fat.{
  Fs, fat_eoc, fat_free, set_fat, read_block, write_block, find_free, allocate_free_block,
}
use pennosgrp.Dirent.{DirEntry, PennFatErr, success, encode, decode, entry_at}
use pennosgrp.Dirent.Codec.{IsEntry}
use pennosgrp.File.{
  State, no_file, no_fd, pseudo_inode, find_file, find_unused, find_and_increment_sysfile,
  create_sysfile_entry_from_resolved,
}
use pennosgrp.Dir.{
  entry_name, find_in_block, find_loop, find_entry_in_dir, free_slot, slot_loop, put_entry,
  add_dirent_to_dir,
}
use pennosgrp.Dir.Lookup.{IsDir, find-add_dirent_to_dir}
use pennosgrp.Dir.Walks.{Ends}
use pennosgrp.Resolve.{
  Resolved, not_there, new_entry, components, tokens, step_last, step_name, step, walk,
  resolve_from, resolve_path_internal, resolve_path, resolve_path_no_follow,
}
use pennosgrp.Resolve.Total.{AllEnd, resolve_path_total}
use pennosgrp.Resolve.Names.{IsFileName}
use pennosgrp.Open.{
  base_name, get_filename_from_path, is_valid_mode, perm_allows, acquire, open_existing, free_fd,
  assign_fd, k_open,
}
use pennosgrp.Open.Existing.{IsOpened, k_open_lem}
use pennosgrp.Tree.{touch_new, k_touch}
use pennosgrp.Tree.Touch.{FoundAs, k_touch_lem}

abbrev pub disk : Fs
disk = record {
  fs_open = true;
  block_size = 64;
  fat = λ b. if b == 1 then fat_eoc else 0;
  fat_block_count = 1;
  data_start_block = 2;
  blocks = λ b. some (replicate 64 0);
  writable = λ b. true;
}

abbrev pub state : State
state = record {
  fs = disk;
  mounted = true;
  sysfile_table = replicate 64 no_file;
  fd_table = replicate 32 no_fd;
}

abbrev pub a_name : List ℕ
a_name = b'a' ∷ []

pub root-IsDir : IsDir disk 1 []
unfolding read_block
root-IsDir = record {
  blocks = λ b block out reads. ground (arith, out, reads);
  fat = record { one = omega arith; start = omega arith; room = omega arith; small = omega arith };
  room = omega arith;
  links = (refl, (λ e. omega (arith, e)), (λ e. omega (arith, e)), refl, refl);
  short = omega arith;
}

pub a_name-IsFileName : IsFileName a_name
a_name-IsFileName = record { chars = (refl, refl, tt); short = omega arith; first = refl }

abbrev pub a_entry : DirEntry
a_entry = new_entry a_name 1 6 2 100

pub a_entry-IsEntry : IsEntry a_entry
a_entry-IsEntry = record {
  name = refl;
  size = omega arith;
  first_block = omega arith;
  mtime = omega arith;
  reserved = refl;
}

pub root_without_a : find_entry_in_dir disk 1 a_name ≡ ok (success, none)
unfolding find_entry_in_dir find_loop find_in_block entry_at decode read_block from_le
root_without_a = refl

-- The image after `a_entry` has gone into the root directory.
abbrev disk_with_a : Fs
disk_with_a = record disk {
  blocks = λ b.
      if b == 1 then some (splice 0 (encode a_entry) (replicate 64 0)) else some (replicate 64 0);
}

a_added : add_dirent_to_dir disk 1 a_entry ≡ ok (success, disk_with_a)
unfolding add_dirent_to_dir slot_loop free_slot put_entry entry_at decode read_block write_block
    from_le
a_added = refl

find-add_dirent_to_dir_example :
    (b : ℕ) × (i : ℕ) × (find_entry_in_dir disk_with_a 1 a_name
      ≡ ok (success, some (record { block = b; index = i; entry = a_entry })))
unfolding entry_name encode le_bytes
find-add_dirent_to_dir_example =
    find-add_dirent_to_dir disk disk_with_a 1 [] a_entry a_name root-IsDir a_entry-IsEntry refl refl
      root_without_a a_added

-- /a
abbrev pub a_path : List ℕ
a_path = b'/' ∷ b'a' ∷ []

pub all_end : AllEnd disk
all_end = record {
  chain = λ b. if b == 1 then 1 ∷ [] else if b == fat_eoc || b == fat_free then [] else b ∷ [];
  ends = λ b. ends b;
  short = λ b. ground arith;
}
  where
    ends :
        (b : ℕ)
        → Ends disk.fat b
            (if b == 1 then 1 ∷ [] else if b == fat_eoc || b == fat_free then [] else b ∷ [])
    ends b = elim (Bool-cases (b == 1)) [
      | inl root ↦ rw root (ground (arith, root), refl, refl)
      | inr other ↦ elim (Bool-cases (b == fat_eoc || b == fat_free)) [
        | inl end ↦ rw (other, end) (ground (arith, end))
        | inr going ↦ rw (other, going) (refl, ground (arith, going), rw other refl)
      ]
    ]

resolve_path_total_example :
    ((r : PennFatErr × Resolved) × (resolve_path disk 100 1 a_path ≡ ok r))
    × ((r : PennFatErr × Resolved) × (resolve_path_no_follow disk 100 1 a_path ≡ ok r))
resolve_path_total_example = resolve_path_total disk 100 1 a_path all_end

a_not_there : resolve_path disk 100 1 a_path ≡ ok (success, not_there 1)
unfolding resolve_path resolve_path_internal resolve_from walk step step_name components tokens
    find_entry_in_dir find_loop find_in_block entry_at decode read_block from_le
a_not_there = refl

-- The state after k_touch of /a.
abbrev pub touched : State
touched = record state { fs = record (set_fat disk 2 fat_eoc) { blocks = disk_with_a.blocks } }

touches : k_touch 100 1 state a_path ≡ ok (touched, success)
unfolding k_touch touch_new resolve_path resolve_path_internal resolve_from walk step step_name
    components tokens find_entry_in_dir find_loop find_in_block entry_at decode read_block from_le
    get_filename_from_path base_name allocate_free_block find_free add_dirent_to_dir slot_loop
    free_slot put_entry write_block
touches = refl

k_touch_lem_example : (b : ℕ) × (disk.fat b ≡ fat_free) × FoundAs touched.fs 1 a_name 1 6 0 b 100
unfolding get_filename_from_path base_name
k_touch_lem_example =
    k_touch_lem 100 1 state touched a_path success (not_there 1) [] refl refl a_not_there refl
      root-IsDir a_name-IsFileName (omega arith) root_without_a touches

abbrev has_a : State
has_a = record state { fs = disk_with_a }

abbrev pub found_a : Resolved
found_a = record {
  found = true;
  is_root = false;
  entry = a_entry;
  entry_block = 1;
  entry_index = pos 0;
  parent_dir_block = 1;
}

a_there : resolve_path disk_with_a 100 1 a_path ≡ ok (success, found_a)
unfolding resolve_path resolve_path_internal resolve_from walk step step_name step_last components
    tokens find_entry_in_dir find_loop find_in_block entry_name entry_at encode decode read_block
    le_bytes from_le splice
a_there = refl

-- /a opened for reading: row 0, descriptor 0.
abbrev opened_a : State
opened_a = record has_a {
  sysfile_table =
      record {
        ref_count = 1;
        in_use = true;
        first_block = 2;
        size = 0;
        mtime = 100;
        dir_index = 0x10000;
      }
      ∷ replicate 63 no_file;
  fd_table = record { in_use = true; sysfile_index = 0; mode = 2; offset = 0 } ∷ replicate 31 no_fd;
}

opens_a : k_open 100 1 has_a a_path (pos 2) ≡ ok (opened_a, pos 0)
unfolding k_open is_valid_mode open_existing perm_allows acquire find_and_increment_sysfile
    find_file create_sysfile_entry_from_resolved find_unused pseudo_inode assign_fd free_fd
    resolve_path resolve_path_internal resolve_from walk step step_name step_last components tokens
    find_entry_in_dir find_loop find_in_block entry_name entry_at encode decode read_block le_bytes
    from_le splice
opens_a = refl

k_open_lem_example : IsOpened has_a a_entry 0x10000 2 opened_a 0
unfolding pseudo_inode is_valid_mode perm_allows
k_open_lem_example =
    k_open_lem 100 1 has_a opened_a a_path 2 0 found_a refl refl refl a_there refl refl refl refl
      opens_a
