-- ===== src/Tree/Unlink.antt =====
-- k_unlink (src/internal/pennfat_kernel.c).
use pennosgrp.Prelude.{
  ℕ, ◌<◌, ◌/◌, ◌≡◌, refl, ap, sym, ◌∙◌, true, false, not, ◌&&◌, ◌||◌, some, List, ◌∷◌, arith,
  length, ◌+◌, ◌≢◌, leb, get_or-set_self, ◌==◌, if◌then◌else◌, pos, Bool-cases, Option-cases, inl,
  inr, ok, ◌>>=◌,
}
use pennosgrp.First.{IsFirst, IsFirst-unique}
use pennosgrp.Fat.{in_fat, Fs, fat_free, fat_eoc, read_block, write_block, free_block_chain}
use pennosgrp.Fat.Region.{read_beside}
use pennosgrp.Fat.Chain.{has, Links}
use pennosgrp.Fat.Free.{free_block_chain_lem}
use pennosgrp.Dirent.{DirEntry, success, entry_at, bad_index, read_dirent, write_dirent}
use pennosgrp.Dirent.Codec.{IsEntry}
use pennosgrp.Dirent.RoundTrip.{write-read_dirent}
use pennosgrp.File.{State, SystemFile, file, no_file, find_and_increment_sysfile}
use pennosgrp.File.Rows.{holds, find_and_increment_none, find_and_increment_lem}
use pennosgrp.Dir.{str_eq, mark}
use pennosgrp.Resolve.{Resolved, resolve_path, is_nil, slash, dot, dotdot}
use pennosgrp.Open.{deleted_entry, inode_of}
use pennosgrp.Tree.{is_busy, remove_file, k_unlink, with_fs}
use pennosgrp.Tree.Guards.{passed, with_fs-success}

write_dirent_keeps_fat :
    (g : Fs) (block i : ℕ) (e : DirEntry)
    → in_fat g block ≡ false
    → ((write_dirent g block (pos i) e).1).fat ≡ g.fat
unfolding write_dirent write_block
write_dirent_keeps_fat g block i e beside =
    elim (Bool-cases (block == fat_free || block == fat_eoc)) [
      | inl bad ↦ rw bad refl
      | inr good ↦ elim (Option-cases (read_block g block)) [
        | inl bad ↦ rw (good, bad) refl
        | inr (bytes, reads) ↦ elim (Bool-cases (bad_index g (pos i))) [
          | inl out ↦ rw (good, reads) (rw out refl)
          | inr inside ↦ elim (Bool-cases (g.fs_open && g.writable block)) [
            | inl writes ↦ rw (good, reads) (rw inside (rw writes (rw beside refl)))
            | inr stuck ↦ rw (good, reads) (rw inside (rw stuck refl))
          ]
        ]
      ]
    ]

pub write_dirent_keeps_count :
    (g : Fs) (block i : ℕ) (e : DirEntry)
    → ((write_dirent g block (pos i) e).1).fat_block_count ≡ g.fat_block_count
unfolding write_dirent write_block
write_dirent_keeps_count g block i e = elim (Bool-cases (block == fat_free || block == fat_eoc)) [
  | inl bad ↦ rw bad refl
  | inr good ↦ elim (Option-cases (read_block g block)) [
    | inl bad ↦ rw (good, bad) refl
    | inr (bytes, reads) ↦ elim (Bool-cases (bad_index g (pos i))) [
      | inl out ↦ rw (good, reads) (rw out refl)
      | inr inside ↦ elim (Bool-cases (g.fs_open && g.writable block)) [
        | inl writes ↦
            rw (good, reads)
              (rw inside (
                rw writes (elim (Bool-cases (in_fat g block)) [
                  | inl part ↦ rw part refl
                  | inr apart ↦ rw apart refl
                ])))
        | inr stuck ↦ rw (good, reads) (rw inside (rw stuck refl))
      ]
    ]
  ]
]

-- Writing an entry beside the FAT changes no entry of it.
pub write_dirent-fat :
    (g g' : Fs) (block i : ℕ) (e : DirEntry)
    → in_fat g block ≡ false
    → write_dirent g block (pos i) e ≡ (success, g')
    → g'.fat ≡ g.fat
write_dirent-fat g g' block i e beside runs =
    ap (λ w. (w.1).fat) (sym runs) ∙ write_dirent_keeps_fat g block i e beside

pub reads_same :
    (g : Fs) (fat : ℕ → ℕ) (b : ℕ)
    → in_fat g b ≡ false
    → read_block (record g { fat = fat }) b ≡ read_block g b
reads_same g fat b out = read_beside (record g { fat = fat }) b out ∙ sym (read_beside g b out)

-- What is read at place j of a block after its entry at place i was marked as deleted.
pub record IsRemoved (g : Fs) (block i j : ℕ) (old : DirEntry) : Type 0 where
  pub entry : DirEntry
  pub reads : read_dirent g block (pos j) ≡ (success, some entry)
  pub deleted : i ≡ j → mark entry ≡ 1
  pub kept : i ≢ j → entry ≡ old

pub IsRemoved_lem :
    (g : Fs) (block i j : ℕ) (old : DirEntry)
    → read_dirent g block (pos j) ≡ (success, some (if i == j then deleted_entry else old))
    → IsRemoved g block i j old
IsRemoved_lem g block i j old reads = record {
  entry = if i == j then deleted_entry else old;
  reads = reads;
  deleted = λ e. marked (ground (arith, e));
  kept = λ ne. ground (arith, ne);
}
  where
    marked : (i == j) ≡ true → mark (if i == j then deleted_entry else old) ≡ 1
    marked same = rw same refl

-- A file that passes for closed has no reference in the row that stands for it.
not_busy :
    (s : State) (r : Resolved)
    → is_busy s r ≡ false
    → (n : ℕ) → IsFirst (holds (inode_of r.entry_block r.entry_index)) s.sysfile_table no_file n
    → (file s n).ref_count ≡ 0
unfolding is_busy
not_busy s r free n is =
    let inode = inode_of r.entry_block r.entry_index in
    elim (Option-cases (find_and_increment_sysfile s inode)) [
      | inl gone ↦
          absurd (ground (arith, find_and_increment_none s inode gone n is.inside, is.accepted))
      | inr ((i, s1), finds) ↦
          let (is_i, image) = find_and_increment_lem s s1 inode i finds in
          let same : i ≡ n = IsFirst-unique (holds inode) s.sysfile_table no_file i n is_i is in
          let counted : leb 2 (file s1 i).ref_count ≡ false = rw (finds, is_busy) at free in
          let row : (file s1 i).ref_count ≡ (file s i).ref_count + 1 =
            ap (λ t. (file t i).ref_count) image
            ∙ ap (λ (f : SystemFile). f.ref_count)
                (get_or-set_self s.sysfile_table i
                  (record (file s i) { ref_count = (file s i).ref_count + 1 }) no_file
                  is_i.inside) in
          ap (λ t. (file s t).ref_count) (sym same) ∙ ground (arith, counted, row)
    ]

pub deleted-IsEntry : IsEntry deleted_entry
deleted-IsEntry = record {
  name = refl;
  size = omega arith;
  first_block = omega arith;
  mtime = omega arith;
  reserved = refl;
}

remove_step :
    (s : State) (r : Resolved) (fat : ℕ → ℕ)
    → (r.entry.first_block == fat_eoc || r.entry.first_block == fat_free) ≡ false
    → free_block_chain s.fs r.entry.first_block ≡ ok (record s.fs { fat = fat })
    → remove_file s r
      ≡ ok (
          with_fs s
            (write_dirent (record s.fs { fat = fat }) r.entry_block r.entry_index deleted_entry))
unfolding remove_file
remove_step s r fat going frees = rw going (rw (frees, ◌>>=◌) refl)

-- When k_unlink succeeds, the first row in use for the file in the table of open files, if there is one, has
-- no reference; the entry that the path led to begins with the deletion mark 1 and the other entries of its
-- block are as before; exactly the blocks of the file's chain are free that were not,
-- and the tables of open files are as before. The path leads to a place in a block that lies beside the FAT
-- and could be read as a whole, and the file's chain is one of the FAT that ends within 65536 blocks.
pub k_unlink_lem :
    (now cwd : ℕ) (s s' : State) (path : List ℕ) (r : Resolved) (i j : ℕ) (bytes xs : List ℕ)
    → resolve_path s.fs now cwd path ≡ ok (success, r)
    → r.entry_index ≡ pos i
    → Links s.fs.fat r.entry.first_block (r.entry.first_block ∷ xs)
    → length xs < 65536
    → in_fat s.fs r.entry_block ≡ false
    → read_block s.fs r.entry_block ≡ some bytes
    → length bytes ≡ s.fs.block_size
    → j < s.fs.block_size / 64
    → k_unlink now cwd s path ≡ ok (s', success)
    → ((n : ℕ)
        → IsFirst (holds (inode_of r.entry_block r.entry_index)) s.sysfile_table no_file n
        → (file s n).ref_count ≡ 0)
      × IsRemoved s'.fs r.entry_block i j (entry_at bytes j)
      × ((b : ℕ)
          → s'.fs.fat b ≡ (if has b (r.entry.first_block ∷ xs) then fat_free else s.fs.fat b))
      × (s' ≡ record s { fs = s'.fs })
unfolding k_unlink
k_unlink_lem now cwd s s' path r i j bytes xs resolves place links short beside reads size small
      runs =
    let (_, after_mount) = passed (not s.mounted) s s' _ _ refl runs in
    let (_, after_path) =
      passed (is_nil path || str_eq path slash || str_eq path dot || str_eq path dotdot) s s' _ _
        refl after_mount in
    let (_, after_found) =
      passed (not r.found || r.is_root) s s' _ _ refl (rw resolves at after_path) in
    let (_, after_type) = passed (r.entry.ftype == 2) s s' _ _ refl after_found in
    let (free, removes) = passed (is_busy s r) s s' _ _ refl after_type in
    let (fat, frees, freed) =
      free_block_chain_lem s.fs r.entry.first_block (r.entry.first_block ∷ xs) (omega arith)
        links in
    let (_, ne, nf, _, _) = links in
    let (written, same) =
      with_fs-success s s' _ (sym (remove_step s r fat (ground arith) frees) ∙ removes) in
    let placed : write_dirent (record s.fs { fat = fat }) r.entry_block (pos i) deleted_entry
        ≡ (success, s'.fs) =
      rw place at written in
    (
      not_busy s r free,
      IsRemoved_lem s'.fs r.entry_block i j (entry_at bytes j) (
          write-read_dirent (record s.fs { fat = fat }) s'.fs r.entry_block i j bytes deleted_entry
            deleted-IsEntry beside (reads_same s.fs fat r.entry_block beside ∙ reads) size small
            placed),
      λ b.
          ap (λ f. f b)
            (write_dirent-fat (record s.fs { fat = fat }) s'.fs r.entry_block i deleted_entry beside
              placed)
          ∙ freed b,
      same,
    )
