-- ===== src/Dirent.antt =====
-- Directory entries: dir_entry_t of src/common/pennfat_definitions.h, 64 packed bytes, and
-- read_dirent and write_dirent of src/internal/pennfat_kernel.c. malloc is taken to succeed.
pub mod Codec
pub mod RoundTrip
use pennosgrp.Prelude.{
  ℕ, ◌+◌, ◌*◌, ◌/◌, Bool, true, false, ◌||◌, Option, none, some, List, [], ◌∷◌, ◌++◌, get_or, take,
  drop, leb, ltb, not, ◌==◌, if◌then◌else◌, ℤ, pos, negsuc,
}
use pennosgrp.Bytes.{splice, le_bytes, from_le}
use pennosgrp.Fat.{Fs, fat_free, fat_eoc, read_block, write_block}

-- PennFatErr, by its values.
pub data PennFatErr : Type 0 where
  success internal not_mounted invad exists perm_denied inuse nospace outofmem : PennFatErr
  unexpcmd notempty notdir isdir io_error busy not_impl range dummy : PennFatErr

abbrev pub code : PennFatErr → ℤ
code success = pos 0
code internal = negsuc 0
code not_mounted = negsuc 1
code invad = negsuc 2
code exists = negsuc 3
code perm_denied = negsuc 4
code inuse = negsuc 5
code nospace = negsuc 6
code outofmem = negsuc 7
code unexpcmd = negsuc 8
code notempty = negsuc 9
code notdir = negsuc 11
code isdir = negsuc 12
code io_error = negsuc 13
code busy = negsuc 14
code not_impl = negsuc 15
code range = negsuc 16
code dummy = negsuc 17

pub record DirEntry : Type 0 where
  pub name : List ℕ
  pub size : ℕ
  pub first_block : ℕ
  pub ftype : ℕ
  pub perm : ℕ
  pub mtime : ℕ
  pub reserved : List ℕ

abbrev pub entry_size : ℕ
entry_size = 64

-- The bytes of an entry in memory.
unfoldable pub encode : DirEntry → List ℕ
encode e =
    e.name
    ++ (le_bytes 4 e.size
        ++ (le_bytes 2 e.first_block ++ (e.ftype ∷ e.perm ∷ (le_bytes 8 e.mtime ++ e.reserved))))

unfoldable pub decode : List ℕ → DirEntry
decode bytes = record {
  name = take 32 bytes;
  size = from_le (take 4 (drop 32 bytes));
  first_block = from_le (take 2 (drop 4 (drop 32 bytes)));
  ftype = get_or (drop 2 (drop 4 (drop 32 bytes))) 0 0;
  perm = get_or (drop 2 (drop 4 (drop 32 bytes))) 1 0;
  mtime = from_le (take 8 (drop 2 (drop 2 (drop 4 (drop 32 bytes)))));
  reserved = take 16 (drop 8 (drop 2 (drop 2 (drop 4 (drop 32 bytes)))));
}

-- dir_entries[index] of a block.
unfoldable pub entry_at : List ℕ → ℕ → DirEntry
entry_at block index = decode (take entry_size (drop (entry_size * index) block))

-- index < 0 || index >= entries_per_block
abbrev pub bad_index : Fs → ℤ → Bool
bad_index g (negsuc i) = true
bad_index g (pos i) = leb (g.block_size / entry_size) i

abbrev pub index_of : ℤ → ℕ
index_of (pos i) = i
index_of (negsuc i) = 0

unfoldable pub read_dirent : Fs → ℕ → ℤ → PennFatErr × Option DirEntry
read_dirent g block index =
    if block == fat_free || block == fat_eoc then (invad, none) else elim (read_block g block) [
      | none ↦ (io_error, none)
      | some bytes ↦
          if bad_index g index
          then (invad, none)
          else (success, some (entry_at bytes (index_of index)))
    ]

unfoldable pub write_dirent : Fs → ℕ → ℤ → DirEntry → PennFatErr × Fs
write_dirent g block index e =
    if block == fat_free || block == fat_eoc then (invad, g) else elim (read_block g block) [
      | none ↦ (io_error, g)
      | some bytes ↦
          if bad_index g index
          then (invad, g)
          else elim (write_block g block (splice (entry_size * index_of index) (encode e) bytes)) [
            | none ↦ (io_error, g)
            | some g' ↦ (success, g')
          ]
    ]
