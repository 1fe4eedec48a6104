-- ===== src/File/Errors.antt =====
-- Refused calls, seeks, the full chain and round trips of src/internal/pennfat_kernel.c.
use pennosgrp.Prelude.{
  ℕ, suc, ◌+◌, ◌/◌, ◌%◌, ◌≡◌, refl, ap, ◌∙◌, true, false, none, some, List, [], ◌∷◌, arith, length,
  if_false, ℤ, pos, negsuc, ok, not, ◌>>=◌,
}
use pennosgrp.Fat.{Fs, read_block, fat_eoc, locate_block_in_chain}
use pennosgrp.Fat.Chain.{Links}
use pennosgrp.Fat.Locate.{locate_block_in_chain_lem}
use pennosgrp.Dirent.{internal, not_mounted, invad, perm_denied, code}
use pennosgrp.File.{
  State, Writing, file, fd_entry, set_fd, has_bit, open_fd, write_target, write_loop, k_read,
  k_write, k_lseek, k_close, seek_target,
}
use pennosgrp.File.WriteLoop.{written_state, k_write_runs}

-- A call on a file system that is not mounted, or on a descriptor that is not open, changes nothing
-- and returns the code for it.
pub refused_calls :
    (now : ℕ) (s : State) (fd n offset : ℤ) (whence : ℕ) (bytes : List ℕ)
    → (s.mounted ≡ false
        → (k_read s fd n ≡ ok (s, code not_mounted, []))
          × (k_write now s fd bytes ≡ ok (s, code not_mounted))
          × (k_lseek s fd offset whence ≡ (s, code not_mounted))
          × (k_close s fd ≡ (s, code not_mounted)))
      × (s.mounted ≡ true
          → open_fd s fd ≡ none
          → (k_read s fd n ≡ ok (s, code internal, []))
            × (k_write now s fd bytes ≡ ok (s, code internal))
            × (k_lseek s fd offset whence ≡ (s, code internal))
            × (k_close s fd ≡ (s, code internal)))
unfolding k_read k_write k_lseek k_close
refused_calls now s fd n offset whence bytes = (
  λ h. (ground arith, ground arith, ground arith, ground arith),
  λ h bad. (ground (arith, bad), ground (arith, bad), ground (arith, bad), ground (arith, bad)),
)

-- A descriptor opened for writing refuses reads, and one opened for reading refuses writes, with the
-- permission code and no effect.
pub wrong_mode :
    (now : ℕ) (s : State) (fd : ℕ) (n : ℤ) (bytes : List ℕ)
    → s.mounted ≡ true
    → open_fd s (pos fd) ≡ some fd
    → (has_bit 2 (fd_entry s fd).mode ≡ true → k_read s (pos fd) n ≡ ok (s, code perm_denied, []))
      × (has_bit 1 (fd_entry s fd).mode ≡ true
          → k_write now s (pos fd) bytes ≡ ok (s, code perm_denied))
unfolding k_read k_write
wrong_mode now s fd n bytes mounted opened =
    (λ h. ground (arith, mounted, opened, h), λ h. ground (arith, mounted, opened, h))

-- k_lseek moves an open descriptor to a target that is not negative, and returns it; a negative
-- target or an unknown whence changes nothing and returns the code for an invalid argument.
pub k_lseek_lem :
    (s : State) (fd : ℕ) (offset : ℤ) (whence : ℕ)
    → s.mounted ≡ true
    → open_fd s (pos fd) ≡ some fd
    → let d = fd_entry s fd in
      let f = file s d.sysfile_index in
      ((m : ℕ)
        → seek_target d f offset whence ≡ some (pos m)
        → k_lseek s (pos fd) offset whence ≡ (set_fd s fd (record d { offset = m }), pos m))
      × ((m : ℕ)
          → seek_target d f offset whence ≡ some (negsuc m)
          → k_lseek s (pos fd) offset whence ≡ (s, code invad))
      × (seek_target d f offset whence ≡ none → k_lseek s (pos fd) offset whence ≡ (s, code invad))
unfolding k_lseek
k_lseek_lem s fd offset whence mounted opened = (
  λ m h.
      if_false (not s.mounted) _ _ (ground (arith, mounted))
      ∙ rw (opened, k_lseek) (rw (h, k_lseek) refl),
  λ m h.
      if_false (not s.mounted) _ _ (ground (arith, mounted))
      ∙ rw (opened, k_lseek) (rw (h, k_lseek) refl),
  λ h.
      if_false (not s.mounted) _ _ (ground (arith, mounted))
      ∙ rw (opened, k_lseek) (rw (h, k_lseek) refl),
)

target_lem :
    (g : Fs) (first x : ℕ) (xs : List ℕ) (offset : ℕ)
    → Links g.fat first (x ∷ xs)
    → offset / g.block_size ≡ length (x ∷ xs)
    → write_target g first offset ≡ ok (some (fat_eoc, offset % g.block_size, g))
unfolding write_target
target_lem g first x xs offset links at_end = rw links.0 (rw (located, write_target) refl)
  where
    located : locate_block_in_chain g x offset ≡ some (fat_eoc, offset % g.block_size)
    located = ground (
      arith,
      at_end,
      locate_block_in_chain_lem g x xs offset (refl, links.1, links.2, links.3, links.4),
    )

stops :
    (f now : ℕ) (w : Writing) (x : ℕ) (xs : List ℕ) (b : ℕ) (bytes : List ℕ)
    → Links w.fs.fat w.file.first_block (x ∷ xs)
    → w.offset / w.fs.block_size ≡ length (x ∷ xs)
    → read_block w.fs fat_eoc ≡ none
    → write_loop (suc f) now w (b ∷ bytes) ≡ ok w
unfolding write_loop
stops f now w x xs b bytes links at_end no_block =
    rw (target_lem w.fs w.file.first_block x xs w.offset links at_end, ◌>>=◌)
      (rw (no_block, write_loop) (ground arith))

-- Once a descriptor stands at the end of its file's blocks, and the image has no block 0xFFFF,
-- k_write writes nothing, though the FAT may have free blocks: the file cannot grow past the
-- blocks it has.
pub k_write_at_chain_end :
    (now : ℕ) (s : State) (fd x : ℕ) (xs : List ℕ) (b : ℕ) (bytes : List ℕ)
    → s.mounted ≡ true
    → open_fd s (pos fd) ≡ some fd
    → has_bit 1 (fd_entry s fd).mode ≡ false
    → Links s.fs.fat (file s (fd_entry s fd).sysfile_index).first_block (x ∷ xs)
    → (fd_entry s fd).offset / s.fs.block_size ≡ length (x ∷ xs)
    → read_block s.fs fat_eoc ≡ none
    → (s' : State) × (k_write now s (pos fd) (b ∷ bytes) ≡ ok (s', pos 0)) × (s'.fs ≡ s.fs)
k_write_at_chain_end now s fd x xs b bytes mounted opened writable links at_end no_block =
    let d = fd_entry s fd in
    let start : Writing = record {
      fs = s.fs;
      file = file s d.sysfile_index;
      offset = d.offset;
      written = 0;
    } in
    let rounds : length (b ∷ bytes) + 1 ≡ suc (length (b ∷ bytes)) = omega arith in
    (
      written_state s fd start,
      k_write_runs now s fd (b ∷ bytes) start mounted opened writable (
          ap (λ n. write_loop n now start (b ∷ bytes)) rounds
          ∙ stops (length (b ∷ bytes)) now start x xs b bytes links at_end no_block),
      refl,
    )
