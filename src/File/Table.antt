-- ===== src/File/Table.antt =====
-- Closing a descriptor: k_close and release_sysfile_entry of src/internal/pennfat_kernel.c.
use pennosgrp.Prelude.{
  Bool, List, ltb, ◌&&◌, ◌/◌, ◌%◌, ◌*◌, ◌^◌, ℕ, ◌-◌, ◌<◌, ◌≡◌, refl, ap, ◌∙◌, true, false, not,
  ◌||◌, none, some, arith, length, get_or, set, get_or-set_self, get_or-set_ne, leb, ◌==◌,
  if◌then◌else◌, if_false, Bool-cases, inl, inr, pos,
}
use pennosgrp.Bytes.{splice}
use pennosgrp.Fat.{Fs, fat_free, fat_eoc, in_fat, update, read_block}
use pennosgrp.Fat.Region.{write_beside}
use pennosgrp.Dirent.{
  PennFatErr, DirEntry, success, code, encode, entry_at, read_dirent, write_dirent,
}
use pennosgrp.Dirent.Codec.{IsEntry}
use pennosgrp.Dirent.RoundTrip.{write-read_dirent}
use pennosgrp.File.{
  State, FdEntry, SystemFile, file, fd_entry, no_fd, no_file, open_fd, k_close,
  release_sysfile_entry, write_back,
}

abbrev released : SystemFile → SystemFile
released f = if leb f.ref_count 1 then no_file else record f { ref_count = f.ref_count - 1 }

release_lem :
    (s : State) (i : ℕ)
    → i < 64
    → (file s i).in_use ≡ true
    → release_sysfile_entry s i ≡ record s {
      fs = if leb (file s i).ref_count 1 then write_back s.fs (file s i) else s.fs;
      sysfile_table = set s.sysfile_table i (released (file s i));
    }
unfolding release_sysfile_entry
release_lem s i lt used =
    if_false (leb 64 i || not (file s i).in_use) _ _ (ground (arith, used))
    ∙ elim (Bool-cases (leb (file s i).ref_count 1)) [
      | inl last ↦ rw last refl
      | inr more ↦ rw more refl
    ]

shut : (s : State) (fd : ℕ) → (fd_entry s fd).in_use ≡ false → open_fd s (pos fd) ≡ none
unfolding open_fd
shut s fd closed = ground (arith, closed)

-- Where the entry of an open file lies.
abbrev pub entry_block : SystemFile → ℕ
entry_block f = f.dir_index / 2 ^ 16 % 2 ^ 16

abbrev pub entry_index : SystemFile → ℕ
entry_index f = f.dir_index % 2 ^ 16

-- The entry with the size, the time and the first block of the row.
abbrev pub updated : DirEntry → SystemFile → DirEntry
updated e f = record e { size = f.size; mtime = f.mtime; first_block = f.first_block }

-- The place of the file's entry can be read and written, and the row fits an entry.
pub record HasEntry (g : Fs) (f : SystemFile) (bytes : List ℕ) : Type 0 where
  pub is_open : g.fs_open ≡ true
  pub out : in_fat g (entry_block f) ≡ false
  pub going : (entry_block f == fat_free || entry_block f == fat_eoc) ≡ false
  pub reads : read_block g (entry_block f) ≡ some bytes
  pub size : length bytes ≡ g.block_size
  pub inside : entry_index f < g.block_size / 64
  pub writes : g.writable (entry_block f) ≡ true
  pub fits : IsEntry (updated (entry_at bytes (entry_index f)) f)

module _ (g : Fs) (f : SystemFile) (bytes : List ℕ) (has : HasEntry g f bytes) where
  reads_entry :
      (j : ℕ)
      → j < g.block_size / 64
      → read_dirent g (entry_block f) (pos j) ≡ (success, some (entry_at bytes j))
  unfolding read_dirent
  reads_entry j lt = rw (has.going, has.reads) (ground arith)

  writes_entry :
      (e : DirEntry)
      → write_dirent g (entry_block f) (pos (entry_index f)) e ≡ (
        success,
        record g {
          blocks =
              update g.blocks (entry_block f) (some (splice (64 * entry_index f) (encode e) bytes));
        },
      )
  unfolding write_dirent
  writes_entry e =
      let inside : leb (g.block_size / 64) (entry_index f) ≡ false = ground (arith, has.inside) in
      rw (has.going, has.reads)
        (rw
          (
            inside,
            write_beside g (entry_block f) (splice (64 * entry_index f) (encode e) bytes) has.out,
          )
          (rw (has.is_open, has.writes) refl))

  -- What goes to disk, if the entry is still that of the file.
  abbrev still : Bool
  still =
      ltb 2 (get_or (entry_at bytes (entry_index f)).name 0 0)
      && (entry_at bytes (entry_index f)).first_block == f.first_block

  abbrev put_back : Fs
  put_back = record g {
    blocks = update g.blocks (entry_block f) (
        some (
          splice (64 * entry_index f) (encode (updated (entry_at bytes (entry_index f)) f)) bytes));
  }

  write_back_runs : write_back g f ≡ (if still then put_back else g)
  unfolding write_back
  write_back_runs =
      rw (reads_entry (entry_index f) has.inside, write_back)
        (ap (λ (w : PennFatErr × Fs). if still then w.1 else g)
          (writes_entry (updated (entry_at bytes (entry_index f)) f)))

  -- The entry on disk has the metadata of the row if it is still that of the file, and no other entry
  -- of its block changes.
  write_back_lem :
      (j : ℕ)
      → j < g.block_size / 64
      → (read_dirent (write_back g f) (entry_block f) (pos j) ≡ (
        success,
        some (
            if still && entry_index f == j
            then updated (entry_at bytes (entry_index f)) f
            else entry_at bytes j),
      ))
        × ((write_back g f).fat ≡ g.fat)
  write_back_lem j lt = rw write_back_runs (by_case still)
    where
      by_case :
          (b : Bool)
          → (read_dirent (if b then put_back else g) (entry_block f) (pos j) ≡ (
            success,
            some (
                if b && entry_index f == j
                then updated (entry_at bytes (entry_index f)) f
                else entry_at bytes j),
          ))
            × ((if b then put_back else g).fat ≡ g.fat)
      by_case false = (reads_entry j lt, refl)
      by_case true = (
        write-read_dirent g put_back (entry_block f) (entry_index f) j bytes
            (updated (entry_at bytes (entry_index f)) f) has.fits has.out has.reads has.size lt
            (writes_entry (updated (entry_at bytes (entry_index f)) f)),
        refl,
      )

-- k_close of an open descriptor, in tables of full length, whose slot of the file table is in use, returns
-- success; the descriptor is no longer open and every other one is as before. The file's count falls by
-- one; at the last reference its slot is cleared, and the entry on disk gets the size, the time and the
-- first block of the slot, if its name does not begin like a mark and its first block is that of the slot.
-- The other entries of its block and the FAT stay, and before the last reference the disk does not change.
-- The entry's block lies beside the FAT and can be read and written as a whole, and the slot's values fit
-- an entry.
pub k_close_lem :
    (s : State) (fd j : ℕ) (bytes : List ℕ)
    → s.mounted ≡ true
    → open_fd s (pos fd) ≡ some fd
    → length s.fd_table ≡ 32
    → length s.sysfile_table ≡ 64
    → fd < 32
    → (fd_entry s fd).sysfile_index < 64
    → (file s (fd_entry s fd).sysfile_index).in_use ≡ true
    → HasEntry s.fs (file s (fd_entry s fd).sysfile_index) bytes
    → j < s.fs.block_size / 64
    → let i = (fd_entry s fd).sysfile_index in
      let f = file s i in
      let e = entry_at bytes (f.dir_index % 2 ^ 16) in
      (s' : State) × (k_close s (pos fd) ≡ (s', code success))
      × (open_fd s' (pos fd) ≡ none)
      × ((n : ℕ) → (fd == n) ≡ false → fd_entry s' n ≡ fd_entry s n)
      × (file s' i
          ≡ (if leb f.ref_count 1 then no_file else record f { ref_count = f.ref_count - 1 }))
      × ((n : ℕ) → (i == n) ≡ false → file s' n ≡ file s n)
      × (read_dirent s'.fs (f.dir_index / 2 ^ 16 % 2 ^ 16) (pos j) ≡ (
        success,
        some (
            if leb f.ref_count 1
            then (if (ltb 2 (get_or e.name 0 0) && e.first_block == f.first_block)
                  && f.dir_index % 2 ^ 16 == j
                then record e { size = f.size; mtime = f.mtime; first_block = f.first_block }
                else entry_at bytes j)
            else entry_at bytes j),
      ))
      × (s'.fs.fat ≡ s.fs.fat)
      × ((if leb f.ref_count 1 then s.fs else s'.fs) ≡ s.fs)
unfolding k_close
k_close_lem s fd j bytes mounted opened fds files in_range slot used has lt =
    let d = fd_entry s fd in
    let i = d.sysfile_index in
    let f = file s i in
    let d' : FdEntry = record d { in_use = false } in
    let closed : (get_or (set s.fd_table fd d') fd no_fd).in_use ≡ false =
      ap (λ (e : FdEntry). e.in_use) (get_or-set_self s.fd_table fd d' no_fd (omega arith)) in
    let kept = λ (n : ℕ) (ne : (fd == n) ≡ false). get_or-set_ne s.fd_table fd n d' no_fd ne in
    let after : SystemFile =
      if leb f.ref_count 1 then no_file else record f { ref_count = f.ref_count - 1 } in
    let s' : State = record s {
      fs = if leb f.ref_count 1 then write_back s.fs f else s.fs;
      sysfile_table = set s.sysfile_table i after;
      fd_table = set s.fd_table fd d';
    } in
    (
      s',
      if_false (not s.mounted) _ _ (ground (arith, mounted))
          ∙ rw (opened, k_close)
              (ap (λ (t : State). (t, code success))
                (release_lem (record s { fd_table = set s.fd_table fd d' }) i slot used)),
      shut s' fd closed,
      kept,
      get_or-set_self s.sysfile_table i after no_file (omega arith),
      λ n ne. get_or-set_ne s.sysfile_table i n after no_file ne,
      by_count (leb f.ref_count 1) _ _ (write_back_lem s.fs f bytes has j lt).0
          (reads_entry s.fs f bytes has j lt),
      fat_by_count (leb f.ref_count 1) (write_back_lem s.fs f bytes has j lt).1,
      before_last (leb f.ref_count 1),
    )
  where
    f : SystemFile
    f = file s (fd_entry s fd).sysfile_index

    by_count :
        (last : Bool) (new old : DirEntry)
        → read_dirent (write_back s.fs f) (entry_block f) (pos j) ≡ (success, some new)
        → read_dirent s.fs (entry_block f) (pos j) ≡ (success, some old)
        → read_dirent (if last then write_back s.fs f else s.fs) (entry_block f) (pos j)
          ≡ (success, some (if last then new else old))
    by_count true new old a b = a
    by_count false new old a b = b

    fat_by_count :
        (last : Bool)
        → (write_back s.fs f).fat ≡ s.fs.fat
        → (if last then write_back s.fs f else s.fs).fat ≡ s.fs.fat
    fat_by_count true h = h
    fat_by_count false h = refl

    before_last :
        (last : Bool) → (if last then s.fs else (if last then write_back s.fs f else s.fs)) ≡ s.fs
    before_last true = refl
    before_last false = refl
