-- ===== src/File/RoundTrip.antt =====
-- Writing, seeking back and reading, with the calls of src/internal/pennfat_kernel.c.
use pennosgrp.Prelude.{
  ℕ, ◌+◌, ◌-◌, ◌*◌, ◌^◌, ◌<◌, ◌≤◌, ◌≡◌, refl, ap, sym, subst, ◌∙◌, false, ◌&&◌, some, List, arith,
  length, get_or, leb, ltb, if◌then◌else◌, get_or-set_self, pos, ok,
}
use pennosgrp.Bytes.{list_ext}
use pennosgrp.Fat.{in_fat}
use pennosgrp.File.{
  State, FdEntry, SystemFile, file, fd_entry, set_fd, has_bit, open_fd, k_read, k_write, k_lseek,
  seek_target, no_fd,
}
use pennosgrp.File.Bytewise.{byte_at}
use pennosgrp.File.Read.{IsOpen, k_read_lem}
use pennosgrp.File.WriteLoop.{HasTables, k_write_lem}
use pennosgrp.File.Errors.{k_lseek_lem}

-- A descriptor moved to another offset is open on the same file.
IsOpen-seek :
    (s : State) (fd m : ℕ) (xs : List ℕ)
    → IsOpen s fd xs
    → fd_entry (set_fd s fd (record (fd_entry s fd) { offset = m })) fd
      ≡ record (fd_entry s fd) { offset = m }
    → IsOpen (set_fd s fd (record (fd_entry s fd) { offset = m })) fd xs
IsOpen-seek s fd m xs is entry =
    let same = ap (λ (e : FdEntry). e.sysfile_index) entry in
    record {
      mounted = is.mounted;
      in_range = is.in_range;
      in_use = ap (λ (e : FdEntry). e.in_use) entry ∙ is.in_use;
      chain = rw same is.chain;
      holds = rw same is.holds;
      small = rw same is.small;
    }

opens : (s : State) (fd : ℕ) (xs : List ℕ) → IsOpen s fd xs → open_fd s (pos fd) ≡ some fd
unfolding open_fd
opens s fd xs is = ground (arith, is.in_range, is.in_use)

target : (d : FdEntry) (f : SystemFile) (o : ℕ) → seek_target d f (pos o) 0 ≡ some (pos o)
unfolding seek_target
target d f o = refl

-- On a descriptor whose mode has neither the read nor the write flag: bytes, at least one, that are
-- written inside the chain of a file whose blocks lie beside the FAT, after a seek back to where they
-- begin, are read back as they are. The tables have
-- their full length, and the chain holds fewer than 2^31 bytes.
pub k_write-k_read :
    (now : ℕ) (s : State) (fd : ℕ) (xs bytes : List ℕ)
    → IsOpen s fd xs
    → HasTables s fd
    → ((i : ℕ) → i < length xs → in_fat s.fs (get_or xs i 0) ≡ false)
    → has_bit 1 (fd_entry s fd).mode ≡ false
    → has_bit 2 (fd_entry s fd).mode ≡ false
    → 0 < length bytes
    → (fd_entry s fd).offset + length bytes ≤ s.fs.block_size * length xs
    → s.fs.block_size * length xs < 2 ^ 31
    → let o = (fd_entry s fd).offset in
      let n = length bytes in
      (s1 : State) × (s2 : State) × (s3 : State) × (k_write now s (pos fd) bytes ≡ ok (s1, pos n))
      × (k_lseek s1 (pos fd) (pos o) 0 ≡ (s2, pos o))
      × (k_read s2 (pos fd) (pos n) ≡ ok (s3, pos n, bytes))
k_write-k_read now s fd xs bytes is tables beside writable readable some_bytes within small =
    let d = fd_entry s fd in
    let o = d.offset in
    let (s1, writes, is1, tables1, fat1, entry1, size1, bytes1) =
      k_write_lem now s fd xs bytes is tables beside writable within small in
    let d2 = record (fd_entry s1 fd) { offset = o } in
    let s2 = set_fd s1 fd d2 in
    let entry2 : fd_entry s2 fd ≡ d2 =
      get_or-set_self s1.fd_table fd d2 no_fd (omega (arith, is1.in_range, tables1.fds)) in
    let is2 = IsOpen-seek s1 fd o xs is1 entry2 in
    let opened = opens s1 fd xs is1 in
    let same_mode : (fd_entry s2 fd).mode ≡ d.mode =
      ap (λ (e : FdEntry). e.mode) entry2 ∙ ap (λ (e : FdEntry). e.mode) entry1 in
    let at_o : (fd_entry s2 fd).offset ≡ o = ap (λ (e : FdEntry). e.offset) entry2 in
    let index : (fd_entry s2 fd).sysfile_index ≡ d.sysfile_index =
      ap (λ (e : FdEntry). e.sysfile_index) entry2 ∙ ap (λ (e : FdEntry). e.sysfile_index) entry1 in
    let covers : o + length bytes ≤ (file s2 (fd_entry s2 fd).sysfile_index).size =
      subst (λ j. o + length bytes ≤ (file s1 j).size) (sym index) (ground (arith, size1)) in
    let (new, reads, len, contents) =
      k_read_lem s2 fd (length bytes) xs is2 (rw same_mode readable) (omega arith) in
    let all : length new ≡ length bytes = omega arith in
    let back : new ≡ bytes = list_ext new bytes all (λ i h.
      contents i h
      ∙ ap (λ n. byte_at s1.fs xs (n + i)) at_o
      ∙ bytes1 (o + i) (omega arith)
      ∙ window i (omega arith)) in
    (
      s1,
      s2,
      set_fd s2 fd (record (fd_entry s2 fd) { offset = (fd_entry s2 fd).offset + length new }),
      writes,
      (k_lseek_lem s1 fd (pos o) 0 is1.mounted opened).0 o
          (target (fd_entry s1 fd) (file s1 (fd_entry s1 fd).sysfile_index) o),
      reads
          ∙ ap
              (λ (t : ℕ). ok (
                set_fd s2 fd
                    (record (fd_entry s2 fd) { offset = (fd_entry s2 fd).offset + length new }),
                pos t,
                new,
              ))
              all
          ∙ ap
              (λ (ys : List ℕ). ok (
                set_fd s2 fd
                    (record (fd_entry s2 fd) { offset = (fd_entry s2 fd).offset + length new }),
                pos (length bytes),
                ys,
              ))
              back,
    )
  where
    cancelled : (o i : ℕ) → o + i - o ≡ i
    cancelled o i = omega arith

    window :
        (i : ℕ)
        → i < length bytes
        → (if leb (fd_entry s fd).offset ((fd_entry s fd).offset + i)
              && ltb ((fd_entry s fd).offset + i) ((fd_entry s fd).offset + length bytes)
            then get_or bytes ((fd_entry s fd).offset + i - (fd_entry s fd).offset) 0
            else byte_at s.fs xs ((fd_entry s fd).offset + i))
          ≡ get_or bytes i 0
    window i lt = ground (arith, ap (λ n. get_or bytes n 0) (cancelled (fd_entry s fd).offset i))
