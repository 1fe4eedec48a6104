-- ===== src/Tests/Files.antt =====
-- The file system at an image with one file of two blocks.
use pennosgrp.Prelude.{
  ℕ, zero, suc, ◌<◌, ◌≡◌, ◌≢◌, refl, true, false, Option, none, some, List, [], ◌∷◌, arith, length,
  replicate, get_or, ◌==◌, if◌then◌else◌, pos, ok,
}
use pennosgrp.Fat.{
  Fs, in_fat, fat_eoc, set_fat, read_block, write_block, locate_block_in_chain, find_free,
  allocate_free_block, overwritten,
}
use pennosgrp.Fat.Chain.{Links}
use pennosgrp.Fat.Locate.{locate_block_in_chain_lem}
use pennosgrp.Bytes.{splice, le_bytes, from_le}
use pennosgrp.Dirent.{DirEntry, success, code, encode, decode, entry_at, write_dirent}
use pennosgrp.Dirent.Codec.{IsEntry}
use pennosgrp.File.{State, SystemFile, no_fd, no_file, open_fd, k_read, k_write, k_lseek, k_close}
use pennosgrp.File.Bytewise.{HasFile}
use pennosgrp.File.Read.{IsOpen}
use pennosgrp.File.WriteLoop.{HasTables, k_write_lem}
use pennosgrp.File.RoundTrip.{k_write-k_read}
use pennosgrp.File.Table.{HasEntry, k_close_lem}
use pennosgrp.File.Errors.{k_write_at_chain_end}

abbrev fat : ℕ → ℕ
fat b = if b == 2 then 3 else if b == 3 then fat_eoc else if b == 4 then fat_eoc else 0

abbrev entry : DirEntry
entry = record {
  name = 97 ∷ replicate 31 0;
  size = 6;
  first_block = 2;
  ftype = 1;
  perm = 6;
  mtime = 300;
  reserved = replicate 16 0;
}

-- A directory block with that entry.
abbrev names : List ℕ
names = splice 0 (encode entry) (replicate 256 0)

abbrev blocks : ℕ → Option (List ℕ)
blocks b =
    if b == 2
    then some (replicate 256 10)
    else if b == 3
    then some (replicate 256 14)
    else if b == 4
    then some names
    else none

abbrev disk : Fs
disk = record {
  fs_open = true;
  block_size = 256;
  fat = fat;
  fat_block_count = 1;
  data_start_block = 2;
  blocks = blocks;
  writable = λ b. true;
}

abbrev file_2 : SystemFile
file_2 = record {
  ref_count = 1;
  in_use = true;
  first_block = 2;
  size = 300;
  mtime = 400;
  dir_index = 0x40000;
}

abbrev at_offset : ℕ → State
at_offset o = record {
  fs = disk;
  mounted = true;
  sysfile_table = file_2 ∷ replicate 63 no_file;
  fd_table = record { in_use = true; sysfile_index = 0; mode = 8; offset = o } ∷ replicate 31 no_fd;
}

nonzero : (n : ℕ) → suc n ≢ 0
nonzero n e = omega arith

small : (n : ℕ) → n < 65535 → n ≢ fat_eoc
small n lt e = omega arith

links : Links fat 2 (2 ∷ 3 ∷ [])
links = (
  refl,
  small 2 (omega arith),
  nonzero 1,
  refl,
  (refl, small 3 (omega arith), nonzero 2, refl, refl),
)

locate_block_in_chain_lem_example : locate_block_in_chain disk 2 512 ≡ some (fat_eoc, 0)
locate_block_in_chain_lem_example = locate_block_in_chain_lem disk 2 (3 ∷ []) 512 links

allocates : allocate_free_block disk ≡ some (5, set_fat disk 5 fat_eoc)
unfolding allocate_free_block find_free
allocates = refl

entry-IsEntry : IsEntry entry
entry-IsEntry = record {
  name = refl;
  size = omega arith;
  first_block = omega arith;
  mtime = omega arith;
  reserved = refl;
}

root_written : write_dirent disk 4 (pos 0) entry ≡ (success, (write_dirent disk 4 (pos 0) entry).1)
unfolding write_dirent read_block write_block
root_written = refl

disk-HasFile : HasFile disk 2 (2 ∷ 3 ∷ [])
disk-HasFile = record {
  links = links;
  size = omega arith;
  readable = readable;
  writable = λ i lt. refl;
  is_open = refl;
}
  where
    readable :
        (i : ℕ)
        → i < 2
        → (bytes : List ℕ) × (read_block disk (get_or (2 ∷ 3 ∷ []) i 0) ≡ some bytes)
          × (length bytes ≡ 256)
    readable zero lt = (replicate 256 10, unfold read_block in refl, refl)
    readable (suc zero) lt = (replicate 256 14, unfold read_block in refl, refl)
    readable (suc (suc i)) lt = absurd (omega arith)

at_3-IsOpen : IsOpen (at_offset 3) 0 (2 ∷ 3 ∷ [])
at_3-IsOpen = record {
  mounted = refl;
  in_range = omega arith;
  in_use = refl;
  chain = disk-HasFile;
  holds = omega arith;
  small = omega arith;
}

at_3-HasTables : HasTables (at_offset 3) 0
at_3-HasTables = record { fds = refl; files = refl; slot = omega arith }

at_3-beside : (i : ℕ) → i < 2 → in_fat disk (get_or (2 ∷ 3 ∷ []) i 0) ≡ false
at_3-beside zero lt = refl
at_3-beside (suc zero) lt = refl
at_3-beside (suc (suc i)) lt = absurd (omega arith)

k_write_lem_example :
    (s : State) × (k_write 0 (at_offset 3) (pos 0) (1 ∷ 2 ∷ 3 ∷ []) ≡ ok (s, pos 3))
k_write_lem_example = (
  (k_write_lem 0 (at_offset 3) 0 (2 ∷ 3 ∷ []) (1 ∷ 2 ∷ 3 ∷ []) at_3-IsOpen at_3-HasTables
      at_3-beside refl (omega arith) (omega arith)).0,
  (k_write_lem 0 (at_offset 3) 0 (2 ∷ 3 ∷ []) (1 ∷ 2 ∷ 3 ∷ []) at_3-IsOpen at_3-HasTables
      at_3-beside refl (omega arith) (omega arith)).1,
)

k_write-k_read_example :
    (s1 s2 s3 : State) × (k_write 0 (at_offset 3) (pos 0) (1 ∷ 2 ∷ 3 ∷ []) ≡ ok (s1, pos 3))
    × (k_lseek s1 (pos 0) (pos 3) 0 ≡ (s2, pos 3))
    × (k_read s2 (pos 0) (pos 3) ≡ ok (s3, pos 3, 1 ∷ 2 ∷ 3 ∷ []))
k_write-k_read_example =
    k_write-k_read 0 (at_offset 3) 0 (2 ∷ 3 ∷ []) (1 ∷ 2 ∷ 3 ∷ []) at_3-IsOpen at_3-HasTables
      at_3-beside refl refl (omega arith) (omega arith) (omega arith)

opened : (o : ℕ) → open_fd (at_offset o) (pos 0) ≡ some 0
unfolding open_fd
opened o = refl

names-HasEntry : HasEntry disk file_2 names
unfolding read_block entry_at decode from_le encode le_bytes splice
names-HasEntry = record {
  is_open = refl;
  out = refl;
  going = refl;
  reads = refl;
  size = refl;
  inside = omega arith;
  writes = refl;
  fits = record {
    name = refl;
    size = omega arith;
    first_block = omega arith;
    mtime = omega arith;
    reserved = refl;
  };
}

k_close_lem_example : (s : State) × (k_close (at_offset 3) (pos 0) ≡ (s, code success))
k_close_lem_example = (
  (k_close_lem (at_offset 3) 0 0 names refl (opened 3) refl refl (omega arith) (omega arith) refl
      names-HasEntry (omega arith)).0,
  (k_close_lem (at_offset 3) 0 0 names refl (opened 3) refl refl (omega arith) (omega arith) refl
      names-HasEntry (omega arith)).1,
)

k_write_at_chain_end_example :
    (s : State) × (k_write 0 (at_offset 512) (pos 0) (1 ∷ []) ≡ ok (s, pos 0)) × (s.fs ≡ disk)
k_write_at_chain_end_example =
    k_write_at_chain_end 0 (at_offset 512) 0 2 (3 ∷ []) 1 [] refl (opened 512) refl links refl
      (unfold read_block in refl)

-- With a FAT of two blocks, what goes to block 1 goes to the entries from 128 on.
overwrites :
    (elim (write_block (record disk { fat_block_count = 2 }) 1 (replicate 256 255)) [
      | none ↦ 0
      | some g ↦ g.fat 130
    ])
    ≡ fat_eoc
unfolding write_block overwritten from_le
overwrites = refl
