-- ===== src/File/WriteLoop.antt =====
-- The loop of k_write and the whole call (src/internal/pennfat_kernel.c), inside a file's chain.
use pennosgrp.Prelude.{
  ℕ, zero, suc, ◌+◌, ◌-◌, ◌*◌, ◌^◌, ◌<◌, ◌≤◌, ◌≡◌, refl, ap, sym, subst, ◌∙◌, true, false, ◌&&◌,
  some, List, [], ◌∷◌, arith, length, get_or, take, drop, leb, ltb, ◌==◌, if◌then◌else◌, if_false,
  length-take, length-drop, get_or-take, get_or-drop, pos, ok, not, get_or-set_self, length-set,
  set, ◌>>=◌,
}
use pennosgrp.Fat.{in_fat}
use pennosgrp.File.{
  State, SystemFile, Writing, file, fd_entry, has_bit, open_fd, write_loop, k_write, no_fd, no_file,
}
use pennosgrp.File.Bytewise.{byte_at}
use pennosgrp.File.Read.{IsOpen}
use pennosgrp.File.Write.{IsBeside, Wrote, round}

-- Two writes, one behind the other, are one.
Wrote-append :
    (w w1 w2 : Writing) (c : ℕ) (bytes xs : List ℕ)
    → 0 < c
    → c ≤ length bytes
    → Wrote w w1 (take c bytes) xs
    → Wrote w1 w2 (drop c bytes) xs
    → Wrote w w2 bytes xs
Wrote-append w w1 w2 c bytes xs some_left fits a b =
    let front : length (take c bytes) ≡ c = length-take c bytes fits in
    let back : length (drop c bytes) ≡ length bytes - c = length-drop c bytes in
    record {
      has = rw (← a.first_block) b.has;
      first_block = b.first_block ∙ a.first_block;
      fat = b.fat ∙ a.fat;
      block_size = b.block_size ∙ a.block_size;
      offset = omega (arith, a.offset, b.offset);
      written = omega (arith, a.written, b.written);
      size = ground (arith, a.size, b.size, a.offset);
      contents = λ k h. ground (
        arith,
        a.contents k,
        b.contents k,
        a.offset,
        a.block_size,
        get_or-take c bytes (k - w.offset) 0,
        get_or-drop c bytes (k - w1.offset) 0,
        further k,
      );
    }
  where
    further :
        (k : ℕ)
        → w1.offset ≡ w.offset + c
        → w1.offset ≤ k
        → get_or bytes (c + (k - w1.offset)) 0 ≡ get_or bytes (k - w.offset) 0
    further k e h = ap (λ n. get_or bytes n 0) (omega arith)

write_loop_lem :
    (f now : ℕ) (w : Writing) (xs bytes : List ℕ)
    → IsBeside w.fs w.file.first_block xs
    → length bytes < f
    → w.offset + length bytes ≤ w.fs.block_size * length xs
    → w.fs.block_size * length xs < 2 ^ 32
    → (w' : Writing) × (write_loop f now w bytes ≡ ok w') × Wrote w w' bytes xs
write_loop_lem zero now w xs bytes has enough within small = absurd (omega arith)
write_loop_lem (suc f) now w xs [] has enough within small = (
  w,
  unfold write_loop in refl,
  record {
    has = has;
    first_block = refl;
    fat = refl;
    block_size = refl;
    offset = omega arith;
    written = omega arith;
    size = refl;
    contents = λ k h. ground arith;
  },
)
write_loop_lem (suc f) now w xs (b ∷ bs) has enough within small =
    let (c, w1, some_left, fits, steps, wrote) =
      round now w xs (b ∷ bs) has (omega arith) within small f in
    let room : w.offset + suc (length bs) ≤ w1.fs.block_size * length xs =
      subst (λ n. w.offset + suc (length bs) ≤ n * length xs) (sym wrote.block_size) within in
    let (w2, runs, more) =
      write_loop_lem f now w1 xs (drop c (b ∷ bs)) (rw wrote.first_block wrote.has)
        (omega (arith, length-drop c (b ∷ bs)))
        (omega (arith, length-drop c (b ∷ bs), wrote.offset, length-take c (b ∷ bs) fits))
        (rw wrote.block_size small) in
    (w2, steps ∙ runs, Wrote-append w w1 w2 c (b ∷ bs) xs some_left fits wrote more)

-- The tables have their sizes, and the descriptor names a slot of the file table.
pub record HasTables (s : State) (fd : ℕ) : Type 0 where
  pub fds : length s.fd_table ≡ 32
  pub files : length s.sysfile_table ≡ 64
  pub slot : (fd_entry s fd).sysfile_index < 64

-- The state that k_write leaves.
abbrev pub written_state : State → ℕ → Writing → State
written_state s fd w = record s {
  fs = w.fs;
  sysfile_table = set s.sysfile_table (fd_entry s fd).sysfile_index w.file;
  fd_table = set s.fd_table fd (record (fd_entry s fd) { offset = w.offset });
}

pub k_write_runs :
    (now : ℕ) (s : State) (fd : ℕ) (bytes : List ℕ) (w : Writing)
    → s.mounted ≡ true
    → open_fd s (pos fd) ≡ some fd
    → has_bit 1 (fd_entry s fd).mode ≡ false
    → write_loop
        (length bytes + 1)
        now
        (record {
          fs = s.fs;
          file = file s (fd_entry s fd).sysfile_index;
          offset = (fd_entry s fd).offset;
          written = 0;
        })
        bytes
      ≡ ok w
    → k_write now s (pos fd) bytes ≡ ok (written_state s fd w, pos w.written)
unfolding k_write
k_write_runs now s fd bytes w mounted opened writable runs =
    if_false (not s.mounted) _ _ (ground (arith, mounted))
    ∙ rw (opened, k_write) (if_false _ _ _ writable ∙ rw (runs, ◌>>=◌) refl)

-- k_write on an open descriptor whose mode lacks the read flag, for bytes that end inside the chain of a
-- file whose blocks lie beside the FAT, writes them all: the file's bytes from the offset on are the given
-- ones and the others are as before, the offset moves past them, the size grows to cover them, and the FAT
-- and the descriptor's other fields stay. The tables have their full length, and the chain holds fewer than
-- 2^31 bytes.
pub k_write_lem :
    (now : ℕ) (s : State) (fd : ℕ) (xs bytes : List ℕ)
    → IsOpen s fd xs
    → HasTables s fd
    → ((i : ℕ) → i < length xs → in_fat s.fs (get_or xs i 0) ≡ false)
    → has_bit 1 (fd_entry s fd).mode ≡ false
    → (fd_entry s fd).offset + length bytes ≤ s.fs.block_size * length xs
    → s.fs.block_size * length xs < 2 ^ 31
    → let d = fd_entry s fd in
      let f = file s d.sysfile_index in
      (s' : State) × (k_write now s (pos fd) bytes ≡ ok (s', pos (length bytes)))
      × IsOpen s' fd xs
      × HasTables s' fd
      × (s'.fs.fat ≡ s.fs.fat)
      × (fd_entry s' fd ≡ record d { offset = d.offset + length bytes })
      × ((file s' d.sysfile_index).size ≡ (
          if length bytes == 0
          then f.size
          else if ltb f.size (d.offset + length bytes)
          then d.offset + length bytes
          else f.size))
      × ((k : ℕ)
          → k < s.fs.block_size * length xs
          → byte_at s'.fs xs k ≡ (
              if leb d.offset k && ltb k (d.offset + length bytes)
              then get_or bytes (k - d.offset) 0
              else byte_at s.fs xs k))
k_write_lem now s fd xs bytes is tables beside writable within small =
    let d = fd_entry s fd in
    let f = file s d.sysfile_index in
    let start : Writing = record { fs = s.fs; file = f; offset = d.offset; written = 0 } in
    let (w, runs, wrote) =
      write_loop_lem (length bytes + 1) now start xs bytes
        (record { chain = is.chain; out = beside }) (omega arith) within (omega arith) in
    let all : w.written ≡ length bytes = omega (arith, wrote.written) in
    let opened : open_fd s (pos fd) ≡ some fd =
      unfold open_fd in ground (arith, is.in_range, is.in_use) in
    let entry : fd_entry (written_state s fd w) fd ≡ record d { offset = w.offset } =
      get_or-set_self s.fd_table fd (record d { offset = w.offset }) no_fd
        (omega (arith, is.in_range, tables.fds)) in
    let slot : file (written_state s fd w) d.sysfile_index ≡ w.file =
      get_or-set_self s.sysfile_table d.sysfile_index w.file no_file
        (omega (arith, tables.slot, tables.files)) in
    let same : (fd_entry (written_state s fd w) fd).sysfile_index ≡ d.sysfile_index =
      ap (λ e. e.sysfile_index) entry in
    (
      written_state s fd w,
      k_write_runs now s fd bytes w is.mounted opened writable runs
          ∙ ap (λ n. ok (written_state s fd w, pos n)) all,
      record {
        mounted = is.mounted;
        in_range = is.in_range;
        in_use = ap (λ e. e.in_use) entry ∙ is.in_use;
        chain = rw (same, slot, wrote.first_block) wrote.has.chain;
        holds = rw (same, slot, wrote.size, wrote.block_size) (ground (arith, is.holds));
        small = rw (same, slot, wrote.size) (ground (arith, is.small));
      },
      record {
        fds = omega (arith, tables.fds, length-set s.fd_table fd (record d { offset = w.offset }));
        files = omega (arith, tables.files, length-set s.sysfile_table d.sysfile_index w.file);
        slot = rw same tables.slot;
      },
      wrote.fat,
      entry ∙ ap (λ n. record d { offset = n }) wrote.offset,
      ap (λ (e : SystemFile). e.size) slot ∙ wrote.size,
      wrote.contents,
    )
