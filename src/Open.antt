-- ===== src/Open.antt =====
-- k_open of src/internal/pennfat_kernel.c, with the mode and permission macros of
-- src/common/pennfat_definitions.h.
pub mod Existing
use pennosgrp.Prelude.{
  ℕ, zero, suc, ◌+◌, ◌-◌, ◌%◌, ◌^◌, Bool, true, false, not, ◌&&◌, ◌||◌, Option, none, some, List,
  [], ◌∷◌, ◌++◌, length, replicate, leb, ltb, ◌==◌, if◌then◌else◌, ℤ, pos, negsuc, Outcome, ok,
  ◌>>=◌,
}
use pennosgrp.Fat.{Fs, fat_free, fat_eoc, set_fat, allocate_free_block, free_block_chain}
use pennosgrp.Dirent.{
  DirEntry, PennFatErr, success, not_mounted, invad, exists, perm_denied, nospace, outofmem, notdir,
  isdir, io_error, code, write_dirent,
}
use pennosgrp.File.{
  State, FdEntry, set_fd, has_bit, pseudo_inode, find_and_increment_sysfile,
  create_sysfile_entry_from_resolved, release_sysfile_entry,
}
use pennosgrp.Dir.{add_dirent_to_dir}
use pennosgrp.Resolve.{Resolved, resolve_path, new_entry, zero_entry, def_perm, is_nil}

abbrev pub is_success : PennFatErr → Bool
is_success success = true
is_success _ = false

abbrev pub is_notdir : PennFatErr → Bool
is_notdir notdir = true
is_notdir _ = false

-- The flags are bits 0 to 3: K_O_CREATE, K_O_RDONLY, K_O_WRONLY and K_O_APPEND.
unfoldable pub is_valid_mode : ℤ → Bool
is_valid_mode (negsuc m) = false
is_valid_mode (pos m) = ltb m 16 && not (has_bit 2 m && has_bit 3 m)

abbrev pub mode_bits : ℤ → ℕ
mode_bits (pos m) = m
mode_bits (negsuc m) = 0

-- CAN_READ and CAN_WRITE are bits 2 and 1 of the permissions.
unfoldable pub perm_allows : (mode perm : ℕ) → Bool
perm_allows mode perm = not (
    (has_bit 1 mode && not (has_bit 2 perm))
    || ((has_bit 2 mode || has_bit 3 mode) && not (has_bit 1 perm)))

-- What follows the last slash.
unfoldable pub base_name : List ℕ → List ℕ → List ℕ
base_name cur [] = cur
base_name cur (c ∷ s) = base_name (if c == b'/' then [] else cur ++ c ∷ []) s

unfoldable pub get_filename_from_path : List ℕ → List ℕ
unfolding base_name
get_filename_from_path path = base_name [] path

-- (entry_block << 16) | entry_index, for an index that may be -1.
abbrev pub inode_of : ℕ → ℤ → ℕ
inode_of block (pos i) = pseudo_inode block i
inode_of block (negsuc i) = 2 ^ 32 - suc i

-- The mark of a deleted entry.
abbrev pub deleted_entry : DirEntry
deleted_entry = record zero_entry { name = 1 ∷ replicate 31 0 }

abbrev pub no_parent : Resolved → Bool
no_parent r = r.parent_dir_block == fat_free || r.parent_dir_block == fat_eoc

-- How far k_open came before it looks for a descriptor: an error, or a row of the file table and the
-- size that its entry gives.
pub data Opened : Type 0 where
  refused : PennFatErr → Opened
  opened : (sysfile size : ℕ) → Opened

-- The file's blocks are freed, and it gets a new first one.
pub truncate_file : ℕ → Fs → Resolved → Outcome (PennFatErr × DirEntry × Fs)
truncate_file now g r = do
  g1 ← free_block_chain g r.entry.first_block
  elim (allocate_free_block g1) [
    | none ↦ ok (nospace, r.entry, g1)
    | some (b, g2) ↦
        let e = record r.entry { first_block = b; size = 0; mtime = now } in
        let (err, g3) = write_dirent g2 r.entry_block r.entry_index e in
        ok (err, e, if is_success err then g3 else set_fat g3 b fat_free)
  ]

-- A row of the file table that has the file, or a new one.
unfoldable pub acquire : State → DirEntry → ℕ → State × Opened
acquire s e inode = elim (find_and_increment_sysfile s inode) [
  | some (i, s1) ↦ (s1, opened i e.size)
  | none ↦ elim (create_sysfile_entry_from_resolved s e inode) [
    | some (i, s1) ↦ (s1, opened i e.size)
    | none ↦ (s, refused outofmem)
  ]
]

unfoldable pub open_existing : ℕ → State → Resolved → ℕ → Outcome (State × Opened)
open_existing now s r mode =
    if r.entry.ftype == 2
    then ok (s, refused isdir)
    else if not (perm_allows mode r.entry.perm)
    then ok (s, refused perm_denied)
    else if has_bit 2 mode && not (has_bit 3 mode)
    then (do
      (err, e, g) ← truncate_file now s.fs r
      ok (
          if is_success err
          then acquire (record s { fs = g }) e (inode_of r.entry_block r.entry_index)
          else (record s { fs = g }, refused err)))
    else ok (acquire s r.entry (inode_of r.entry_block r.entry_index))

-- After the entry is in its directory the path is resolved again to learn where.
pub open_created : (now cwd : ℕ) → State → List ℕ → ℕ → Outcome (State × Opened)
open_created now cwd s path first_block = do
  (err, r) ← resolve_path s.fs now cwd path
  if not (is_success err && r.found)
      then ok (s, refused (if is_success err then io_error else err))
      else elim (create_sysfile_entry_from_resolved s r.entry
          (inode_of r.entry_block r.entry_index)) [
            | some (i, s1) ↦ ok (s1, opened i r.entry.size)
            | none ↦ do
              let (_, g) = write_dirent s.fs r.entry_block r.entry_index deleted_entry
              g1 ← free_block_chain g first_block
              ok (record s { fs = g1 }, refused outofmem)
          ]

pub open_new : (now cwd : ℕ) → State → List ℕ → Resolved → ℕ → Outcome (State × Opened)
open_new now cwd s path r mode =
    if not (has_bit 0 mode) || no_parent r
    then ok (s, refused exists)
    else if leb 32 (length (get_filename_from_path path))
    then ok (s, refused invad)
    else elim (allocate_free_block s.fs) [
      | none ↦ ok (s, refused nospace)
      | some (b, g) ↦ do
        (err, g1) ←
            add_dirent_to_dir g r.parent_dir_block
              (new_entry (get_filename_from_path path) 1 def_perm b now)
        if is_success err
            then open_created now cwd (record s { fs = g1 }) path b
            else ok (record s { fs = set_fat g1 b fat_free }, refused err)
    ]

unfoldable pub free_fd : List FdEntry → ℕ → Option ℕ
free_fd [] fd = none
free_fd (d ∷ ds) fd = let rest = free_fd ds (fd + 1) in if not d.in_use then some fd else rest

-- The first descriptor that is free gets the row; without one the row's reference goes back.
unfoldable pub assign_fd : State → ℕ → (sysfile size : ℕ) → State × ℤ
assign_fd s mode i size = elim (free_fd s.fd_table 0) [
  | none ↦ (release_sysfile_entry s i, code outofmem)
  | some fd ↦ (
    set_fd s fd (record {
      in_use = true;
      sysfile_index = i;
      mode = mode;
      offset = if has_bit 3 mode then size else 0;
    }),
    pos fd,
  )
]

unfoldable pub k_open : (now cwd : ℕ) → State → List ℕ → ℤ → Outcome (State × ℤ)
k_open now cwd s path mode =
    if not s.mounted
    then ok (s, code not_mounted)
    else if is_nil path && cwd == 1
    then ok (s, code invad)
    else if not (is_valid_mode mode)
    then ok (s, code invad)
    else do
      (err, r) ← resolve_path s.fs now cwd path
      if not (is_success err || is_notdir err) then ok (s, code err) else do
        (s1, o) ←
            (if r.found
              then open_existing now s r (mode_bits mode)
              else open_new now cwd s path r (mode_bits mode))
        elim o [
          | refused e ↦ ok (s1, code e)
          | opened i size ↦ ok (assign_fd s1 (mode_bits mode) i size)
        ]
