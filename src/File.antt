-- ===== src/File.antt =====
-- Open files of src/internal/pennfat_kernel.c: the system-wide file table, the descriptor table, and
-- k_read, k_write, k_lseek and k_close. `now` is what time(NULL) gives, and malloc is taken to
-- succeed. A descriptor's mode is its four flag bits, as a number.
pub mod Table
pub mod Bytewise
pub mod Read
pub mod Write
pub mod WriteLoop
pub mod Errors
pub mod RoundTrip
pub mod Rows
use pennosgrp.Prelude.{
  ℕ, zero, suc, ◌+◌, ◌-◌, ◌*◌, ◌/◌, ◌%◌, ◌^◌, min, Bool, true, false, not, ◌&&◌, ◌||◌, Option, none,
  some, List, [], ◌∷◌, ◌++◌, length, get_or, set, take, drop, replicate, ltb, leb, ◌==◌,
  if◌then◌else◌, ℤ, pos, negsuc, sub_ℕ, is_neg, ◌+ℤ◌, Outcome, ok, out_of_fuel, ◌>>=◌,
}
use pennosgrp.Bytes.{splice}
use pennosgrp.Fat.{
  Fs, fat_eoc, set_fat, read_block, write_block, locate_block_in_chain, allocate_free_block,
  find_last,
}
use pennosgrp.Dirent.{
  DirEntry, PennFatErr, success, internal, not_mounted, invad, perm_denied, code, read_dirent,
  write_dirent,
}

-- system_file_t, with the bits of the int `dir_index`.
pub record SystemFile : Type 0 where
  pub ref_count : ℕ
  pub in_use : Bool
  pub first_block : ℕ
  pub size : ℕ
  pub mtime : ℕ
  pub dir_index : ℕ

-- fd_entry_t
pub record FdEntry : Type 0 where
  pub in_use : Bool
  pub sysfile_index : ℕ
  pub mode : ℕ
  pub offset : ℕ

pub record State : Type 0 where
  pub fs : Fs
  pub mounted : Bool
  pub sysfile_table : List SystemFile
  pub fd_table : List FdEntry

abbrev pub no_file : SystemFile
no_file = record {
  ref_count = 0;
  in_use = false;
  first_block = 0;
  size = 0;
  mtime = 0;
  dir_index = 0;
}

abbrev pub no_fd : FdEntry
no_fd = record { in_use = false; sysfile_index = 0; mode = 0; offset = 0 }

abbrev pub max_system_files : ℕ
max_system_files = 64

abbrev pub max_fd : ℕ
max_fd = 32

abbrev pub file : State → ℕ → SystemFile
file s i = get_or s.sysfile_table i no_file

abbrev pub fd_entry : State → ℕ → FdEntry
fd_entry s i = get_or s.fd_table i no_fd

abbrev pub set_file : State → ℕ → SystemFile → State
set_file s i f = record s { sysfile_table = set s.sysfile_table i f }

abbrev pub set_fd : State → ℕ → FdEntry → State
set_fd s i d = record s { fd_table = set s.fd_table i d }

-- HAS_READ, HAS_WRITE and HAS_APPEND: bits 1, 2 and 3.
abbrev pub has_bit : ℕ → ℕ → Bool
has_bit k mode = mode / 2 ^ k % 2 == 1

-- The number of the directory entry: (block << 16) | index, in 32 bits.
unfoldable pub pseudo_inode : ℕ → ℕ → ℕ
pseudo_inode block index = (block * 2 ^ 16 + index) % 2 ^ 32

-- for (i = ...; i < MAX_SYSTEM_FILES; i++) if (in_use && dir_index == inode)
unfoldable pub find_file : List SystemFile → ℕ → ℕ → Option ℕ
find_file [] i inode = none
find_file (f ∷ fs) i inode =
    let rest = find_file fs (i + 1) inode in
    if f.in_use && f.dir_index == inode then some i else rest

unfoldable pub find_and_increment_sysfile : State → ℕ → Option (ℕ × State)
unfolding find_file
find_and_increment_sysfile s inode = elim (find_file s.sysfile_table 0 inode) [
  | none ↦ none
  | some i ↦ some (i, set_file s i (record (file s i) { ref_count = (file s i).ref_count + 1 }))
]

unfoldable pub find_unused : List SystemFile → ℕ → Option ℕ
find_unused [] i = none
find_unused (f ∷ fs) i = let rest = find_unused fs (i + 1) in if not f.in_use then some i else rest

unfoldable pub create_sysfile_entry_from_resolved : State → DirEntry → ℕ → Option (ℕ × State)
unfolding find_unused
create_sysfile_entry_from_resolved s entry inode = elim (find_unused s.sysfile_table 0) [
  | none ↦ none
  | some i ↦ some (
    i,
    set_file s i (record {
      ref_count = 1;
      in_use = true;
      first_block = entry.first_block;
      size = entry.size;
      mtime = entry.mtime;
      dir_index = inode;
    }),
  )
]

-- The entry on disk is written back only if it is neither the end mark nor deleted (first byte of
-- the name 0, 1 or 2), and still begins at the same block.
abbrev pub still_there : DirEntry → SystemFile → Bool
still_there e f = ltb 2 (get_or e.name 0 0) && e.first_block == f.first_block

pub write_back : Fs → SystemFile → Fs
write_back g f =
    let block : ℕ = f.dir_index / 2 ^ 16 % 2 ^ 16 in
    let index : ℤ = pos (f.dir_index % 2 ^ 16) in
    elim ((read_dirent g block index).1) [
      | none ↦ g
      | some e ↦
          if still_there e f
          then (write_dirent g block index
              (record e { size = f.size; mtime = f.mtime; first_block = f.first_block })).1
          else g
    ]

-- The count falls by one; when it reaches 0 the metadata goes to disk and the entry is cleared.
pub release_sysfile_entry : State → ℕ → State
unfolding write_back
release_sysfile_entry s i =
    if leb max_system_files i || not (file s i).in_use
    then s
    else if leb (file s i).ref_count 1
    then record (set_file s i no_file) { fs = write_back s.fs (file s i) }
    else set_file s i (record (file s i) { ref_count = (file s i).ref_count - 1 })

-- The test on a descriptor that every call begins with: its index, if it is open.
unfoldable pub open_fd : State → ℤ → Option ℕ
open_fd s (negsuc n) = none
open_fd s (pos n) = if ltb n max_fd && (fd_entry s n).in_use then some n else none

pub k_close : State → ℤ → State × ℤ
unfolding open_fd release_sysfile_entry
k_close s fd = if not s.mounted then (s, code not_mounted) else elim (open_fd s fd) [
  | none ↦ (s, code internal)
  | some n ↦
      let d = fd_entry s n in
      (
        release_sysfile_entry (set_fd s n (record d { in_use = false })) d.sysfile_index,
        code success,
      )
]

-- (int)x for a uint32_t x, and the wrap of an int.
abbrev pub to_int : ℕ → ℤ
to_int x = if ltb x (2 ^ 31) then pos x else negsuc (2 ^ 32 - x - 1)

-- F_SEEK_SET, F_SEEK_CUR and F_SEEK_END are 0, 1 and 2. The sum is taken not to overflow.
pub seek_target : FdEntry → SystemFile → ℤ → ℕ → Option ℤ
seek_target d f offset whence =
    if whence == 0
    then some offset
    else if whence == 1
    then some (to_int d.offset +ℤ offset)
    else if whence == 2
    then some (to_int f.size +ℤ offset)
    else none

pub k_lseek : State → ℤ → ℤ → ℕ → State × ℤ
unfolding open_fd seek_target
k_lseek s fd offset whence = if not s.mounted then (s, code not_mounted) else elim (open_fd s fd) [
  | none ↦ (s, code internal)
  | some n ↦
      let d = fd_entry s n in
      elim (seek_target d (file s d.sysfile_index) offset whence) [
        | none ↦ (s, code invad)
        | some (negsuc m) ↦ (s, code invad)
        | some (pos m) ↦ (set_fd s n (record d { offset = m }), pos m)
      ]
]

-- What a transfer loop has to say: the bytes moved and the new offset.
pub record Moved : Type 0 where
  pub bytes : List ℕ
  pub offset : ℕ

-- The loop of k_read, with the bytes still to read. Each round reads at least one.
pub read_loop : ℕ → Fs → (first offset left : ℕ) → List ℕ → Outcome Moved
read_loop zero g first offset left out = out_of_fuel
read_loop (suc f) g first offset left out =
    let done : Outcome Moved = ok (record { bytes = out; offset = offset }) in
    if left == 0 then done else elim (locate_block_in_chain g first offset) [
      | none ↦ done
      | some (b, o) ↦ elim (read_block g b) [
        | none ↦ done
        | some block ↦
            let chunk : ℕ = min (g.block_size - o) left in
            read_loop f g first (offset + chunk) (left - chunk) (out ++ take chunk (drop o block))
      ]
    ]

-- (n < (int)size_left) ? n : (int)size_left, as a count of rounds: a negative count reads nothing.
abbrev pub to_read : ℤ → ℕ → ℕ
to_read (negsuc n) left = 0
to_read (pos n) left = elim (to_int left) [ negsuc m ↦ 0 | pos m ↦ min n m ]

-- The result and the bytes that go to the caller's buffer.
pub k_read : State → ℤ → ℤ → Outcome (State × ℤ × List ℕ)
unfolding open_fd read_loop
k_read s fd n = if not s.mounted then ok (s, code not_mounted, []) else elim (open_fd s fd) [
  | none ↦ ok (s, code internal, [])
  | some i ↦
      let d = fd_entry s i in
      let f = file s d.sysfile_index in
      if has_bit 2 d.mode
      then ok (s, code perm_denied, [])
      else if leb f.size d.offset
      then ok (s, code success, [])
      else do
        let left = to_read n (f.size - d.offset)
        m ← read_loop (left + 1) s.fs f.first_block d.offset left []
        ok (set_fd s i (record d { offset = m.offset }), pos (length m.bytes), m.bytes)
]

-- The block and offset that a round of k_write uses: past the chain, a new block at its end.
pub write_target : Fs → (first offset : ℕ) → Outcome (Option (ℕ × ℕ × Fs))
write_target g first offset = elim (locate_block_in_chain g first offset) [
  | some (b, o) ↦ ok (some (b, o, g))
  | none ↦ do
    last ← find_last 65536 g.fat first
    elim (allocate_free_block g) [
      | none ↦ ok none
      | some (b, g') ↦ ok (some (b, 0, set_fat g' last b))
    ]
]

-- The state of k_write's loop: the file system, the file's entry, the offset, and the bytes written.
pub record Writing : Type 0 where
  pub fs : Fs
  pub file : SystemFile
  pub offset : ℕ
  pub written : ℕ

-- What a round does after its block is written.
abbrev pub advance : ℕ → Writing → Fs → ℕ → Writing
advance now w g chunk =
    let off : ℕ = (w.offset + chunk) % 2 ^ 32 in
    record {
      fs = g;
      file = if ltb w.file.size off then record w.file { size = off; mtime = now } else w.file;
      offset = off;
      written = w.written + chunk;
    }

-- The loop of k_write, with the bytes still to write.
pub write_loop : ℕ → ℕ → Writing → List ℕ → Outcome Writing
write_loop zero now w bytes = out_of_fuel
write_loop (suc f) now w bytes = if length bytes == 0 then ok w else (do
  target ← write_target w.fs w.file.first_block w.offset
  elim target [
    | none ↦ ok w
    | some (b, o, g) ↦ elim (read_block g b) [
      | none ↦ ok (record w { fs = g })
      | some block ↦
          let chunk : ℕ = min (g.block_size - o) (length bytes) in
          elim (write_block g b (splice o (take chunk bytes) block)) [
            | none ↦ ok (record w { fs = g })
            | some g' ↦ write_loop f now (advance now w g' chunk) (drop chunk bytes)
          ]
    ]
  ])

-- `bytes` are the n bytes of the caller's buffer (none for a negative n).
pub k_write : ℕ → State → ℤ → List ℕ → Outcome (State × ℤ)
unfolding open_fd write_loop
k_write now s fd bytes = if not s.mounted then ok (s, code not_mounted) else elim (open_fd s fd) [
  | none ↦ ok (s, code internal)
  | some i ↦
      let d = fd_entry s i in
      let f = file s d.sysfile_index in
      if has_bit 1 d.mode then ok (s, code perm_denied) else do
        w ←
            write_loop (length bytes + 1) now
              (record { fs = s.fs; file = f; offset = d.offset; written = 0 }) bytes
        let s1 = set_fd s i (record d { offset = w.offset })
        ok (record (set_file s1 d.sysfile_index w.file) { fs = w.fs }, pos w.written)
]
