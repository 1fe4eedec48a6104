-- ===== src/Open/Existing.antt =====
-- k_open of a file that is there and is not truncated (src/internal/pennfat_kernel.c).
use pennosgrp.Prelude.{
  ℕ, ◌+◌, ◌<◌, ◌≡◌, refl, ap, sym, ◌∙◌, Bool, true, false, not, ◌&&◌, some, List, [], ◌∷◌, arith,
  length, get_or-set_self, get_or-set_ne, ◌==◌, if◌then◌else◌, ℤ, pos, if_false, Option-cases, inl,
  inr, Outcome, ok, ◌>>=◌,
}
use pennosgrp.First.{IsFirst, first_where, first_where-IsFirst}
use pennosgrp.Dirent.{DirEntry, PennFatErr, success, outofmem, code}
use pennosgrp.File.{
  State, SystemFile, FdEntry, file, fd_entry, no_file, no_fd, set_file, set_fd, has_bit,
  find_and_increment_sysfile, create_sysfile_entry_from_resolved,
}
use pennosgrp.File.Rows.{
  holds, is_unused, first_opened, find_and_increment_none, find_and_increment_lem,
  create_sysfile_entry_lem,
}
use pennosgrp.Resolve.{Resolved, resolve_path, is_nil}
use pennosgrp.Open.{
  Opened, refused, opened, inode_of, is_valid_mode, perm_allows, acquire, open_existing, free_fd,
  assign_fd, k_open,
}

-- What an open leaves in row `i`: a file that had a row has one reference more, and another one gets the
-- first row that is not in use.
pub data HasRow (s : State) (e : DirEntry) (inode : ℕ) (s' : State) (i : ℕ) : Type 0 where
  shared :
      IsFirst (holds inode) s.sysfile_table no_file i
      → file s' i ≡ record (file s i) { ref_count = (file s i).ref_count + 1 }
      → HasRow s e inode s' i
  fresh :
      ((j : ℕ) → j < length s.sysfile_table → holds inode (file s j) ≡ false)
      → IsFirst is_unused s.sysfile_table no_file i
      → file s' i ≡ first_opened e inode
      → HasRow s e inode s' i

-- The state after an open: all but the row and the descriptor is as before.
pub record IsOpened (s : State) (e : DirEntry) (inode mode : ℕ) (s' : State) (fd : ℕ) : Type 0 where
  pub row : ℕ
  pub has_row : HasRow s e inode s' row
  pub lowest : IsFirst (λ (d : FdEntry). not d.in_use) s.fd_table no_fd fd
  pub descriptor : fd_entry s' fd ≡ record {
    in_use = true;
    sysfile_index = row;
    mode = mode;
    offset = if has_bit 3 mode then e.size else 0;
  }
  pub other_rows : (j : ℕ) → (row == j) ≡ false → file s' j ≡ file s j
  pub other_descriptors : (j : ℕ) → (fd == j) ≡ false → fd_entry s' j ≡ fd_entry s j
  pub same_fs : s'.fs ≡ s.fs

if_true {ℓ} : {A : Type ℓ} (b : Bool) (x y : A) → b ≡ true → (if b then x else y) ≡ x
if_true true x y h = refl
if_true false x y h = absurd (ground (arith, h))

free_fd_lem :
    (ds : List FdEntry) (i : ℕ) → free_fd ds i ≡ first_where (λ (d : FdEntry). not d.in_use) ds i
unfolding free_fd first_where
free_fd_lem [] i = refl
free_fd_lem (d ∷ ds) i = ap (λ t. if not d.in_use then some i else t) (free_fd_lem ds (i + 1))

abbrev descriptor_for : (mode row size : ℕ) → FdEntry
descriptor_for mode row size = record {
  in_use = true;
  sysfile_index = row;
  mode = mode;
  offset = if has_bit 3 mode then size else 0;
}

assign_fd_lem :
    (s s' : State) (mode row size fd : ℕ)
    → assign_fd s mode row size ≡ (s', pos fd)
    → IsFirst (λ (d : FdEntry). not d.in_use) s.fd_table no_fd fd
      × (s' ≡ set_fd s fd (descriptor_for mode row size))
unfolding assign_fd
assign_fd_lem s s' mode row size fd e = elim (Option-cases (free_fd s.fd_table 0)) [
  | inl full ↦ absurd (ground (arith, e, full))
  | inr (n, found) ↦
      let (n', same, is) =
        first_where-IsFirst (λ (d : FdEntry). not d.in_use) s.fd_table no_fd 0 n
          (sym (free_fd_lem s.fd_table 0) ∙ found) in
      let here : n' ≡ fd = ground (arith, e, found, same) in
      (rw here at is, ground (arith, e, found))
]

-- The row that is taken, and the size that goes on.
data Taken (s : State) (e : DirEntry) (inode : ℕ) (s1 : State) (row size : ℕ) : Type 0 where
  taken :
      (v : SystemFile)
      → s1 ≡ set_file s row v
      → row < length s.sysfile_table
      → size ≡ e.size
      → ((s' : State) → file s' row ≡ v → HasRow s e inode s' row)
      → Taken s e inode s1 row size

acquire-Taken :
    (s s1 : State) (e : DirEntry) (inode row size : ℕ)
    → acquire s e inode ≡ (s1, opened row size)
    → Taken s e inode s1 row size
unfolding acquire
acquire-Taken s s1 e inode row size runs =
    elim (Option-cases (find_and_increment_sysfile s inode)) [
      | inr ((i, s2), found) ↦
          let here : i ≡ row = ground (arith, runs, found) in
          let there : s2 ≡ s1 = ground (arith, runs, found) in
          let (is, image) = find_and_increment_lem s s1 inode row (rw (here, there) at found) in
          taken (record (file s row) { ref_count = (file s row).ref_count + 1 }) image is.inside
            (ground (arith, runs, found)) (λ s' v. shared is v)
      | inl none_has ↦ elim (Option-cases (create_sysfile_entry_from_resolved s e inode)) [
        | inl full ↦
            let refuses : acquire s e inode ≡ (s, refused outofmem) =
              rw (none_has, acquire) (rw full refl) in
            let apart : refused outofmem ≡ opened row size = ap (λ t. t.1) (sym refuses ∙ runs) in
            absurd (ground (arith, apart))
        | inr ((i, s2), found) ↦
            let here : i ≡ row = ground (arith, runs, none_has, found) in
            let there : s2 ≡ s1 = ground (arith, runs, none_has, found) in
            let (is, image) =
              create_sysfile_entry_lem s s1 e inode row (rw (here, there) at found) in
            taken (first_opened e inode) image is.inside (ground (arith, runs, none_has, found))
              (λ s' v. fresh (find_and_increment_none s inode none_has) is v)
      ]
    ]

acquire-outofmem :
    (s s1 : State) (e : DirEntry) (inode : ℕ) (err : PennFatErr)
    → acquire s e inode ≡ (s1, refused err)
    → refused err ≡ refused outofmem
unfolding acquire
acquire-outofmem s s1 e inode err runs = elim (Option-cases (find_and_increment_sysfile s inode)) [
  | inr (_, found) ↦ absurd (ground (arith, runs, found))
  | inl none_has ↦ elim (Option-cases (create_sysfile_entry_from_resolved s e inode)) [
    | inr (_, found) ↦ absurd (ground (arith, runs, none_has, found))
    | inl full ↦
        let refuses : acquire s e inode ≡ (s, refused outofmem) =
          rw (none_has, acquire) (rw full refl) in
        ap (λ t. t.1) (sym runs ∙ refuses)
  ]
]

-- The row and then the descriptor.
acquired-IsOpened :
    (s s1 s' : State) (e : DirEntry) (inode mode row size fd : ℕ)
    → Taken s e inode s1 row size
    → assign_fd s1 mode row size ≡ (s', pos fd)
    → IsOpened s e inode mode s' fd
acquired-IsOpened s s1 s' e inode mode row size fd (taken v image inside same_size has) runs =
    let (is, image') = assign_fd_lem s1 s' mode row size fd runs in
    let whole : s' ≡ set_fd (set_file s row v) fd (descriptor_for mode row e.size) =
      image' ∙ (λ k. set_fd (image k) fd (descriptor_for mode row (same_size k))) in
    let lowest : IsFirst (λ (d : FdEntry). not d.in_use) s.fd_table no_fd fd = rw image at is in
    rw whole (record {
      row = row;
      has_row =
          has (set_fd (set_file s row v) fd (descriptor_for mode row e.size))
            (get_or-set_self s.sysfile_table row v no_file inside);
      lowest = lowest;
      descriptor =
          get_or-set_self s.fd_table fd (descriptor_for mode row e.size) no_fd lowest.inside;
      other_rows = λ j ne. get_or-set_ne s.sysfile_table row j v no_file ne;
      other_descriptors =
          λ j ne. get_or-set_ne s.fd_table fd j (descriptor_for mode row e.size) no_fd ne;
      same_fs = refl;
    })

-- The end of k_open.
abbrev finish_open : ℕ → State × Opened → Outcome (State × ℤ)
finish_open mode (s1, refused e) = ok (s1, code e)
finish_open mode (s1, opened row size) = ok (assign_fd s1 mode row size)

open_step :
    (now cwd : ℕ) (s : State) (path : List ℕ) (mode : ℕ) (r : Resolved) (a : State × Opened)
    → s.mounted ≡ true
    → (is_nil path && cwd == 1) ≡ false
    → is_valid_mode (pos mode) ≡ true
    → resolve_path s.fs now cwd path ≡ ok (success, r)
    → r.found ≡ true
    → open_existing now s r mode ≡ ok a
    → k_open now cwd s path (pos mode) ≡ finish_open mode a
unfolding k_open
open_step now cwd s path mode r a mounted some_path valid resolves found opens =
    if_false (not s.mounted) _ _ (ground (arith, mounted))
    ∙ if_false (is_nil path && cwd == 1) _ _ some_path
    ∙ if_false (not (is_valid_mode (pos mode))) _ _ (ap not valid)
    ∙ rw resolves (ap (λ m. m >>= finish_open mode) (if_true r.found _ _ found ∙ opens))

existing_step :
    (now : ℕ) (s : State) (r : Resolved) (mode : ℕ)
    → (r.entry.ftype == 2) ≡ false
    → perm_allows mode r.entry.perm ≡ true
    → (has_bit 2 mode && not (has_bit 3 mode)) ≡ false
    → open_existing now s r mode ≡ ok (acquire s r.entry (inode_of r.entry_block r.entry_index))
unfolding open_existing
existing_step now s r mode plain allowed keeps = rw (plain, allowed, keeps) refl

-- On a mounted system, k_open of a file that is there, with permissions that allow the mode and a mode that
-- does not truncate, returns a descriptor only as IsOpened says: the lowest free one, which begins at 0,
-- or, with the append flag, at the size that the entry on disk gives. The file's row is shared with those
-- who have it open or is the first unused one. The file system and all other rows and descriptors are as
-- before.
pub k_open_lem :
    (now cwd : ℕ) (s s' : State) (path : List ℕ) (mode fd : ℕ) (r : Resolved)
    → s.mounted ≡ true
    → (is_nil path && cwd == 1) ≡ false
    → is_valid_mode (pos mode) ≡ true
    → resolve_path s.fs now cwd path ≡ ok (success, r)
    → r.found ≡ true
    → (r.entry.ftype == 2) ≡ false
    → perm_allows mode r.entry.perm ≡ true
    → (has_bit 2 mode && not (has_bit 3 mode)) ≡ false
    → k_open now cwd s path (pos mode) ≡ ok (s', pos fd)
    → IsOpened s r.entry (inode_of r.entry_block r.entry_index) mode s' fd
k_open_lem now cwd s s' path mode fd r mounted some_path valid resolves found plain allowed keeps
      runs =
    go (acquire s r.entry (inode_of r.entry_block r.entry_index)) refl
  where
    opening :
        (s1 : State) (o : Opened)
        → acquire s r.entry (inode_of r.entry_block r.entry_index) ≡ (s1, o)
        → k_open now cwd s path (pos mode) ≡ finish_open mode (s1, o)
    opening s1 o acquires =
        open_step now cwd s path mode r (s1, o) mounted some_path valid resolves found
          (existing_step now s r mode plain allowed keeps ∙ ap ok acquires)

    out : {x y : State × ℤ} → ◌≡◌ {A = Outcome (State × ℤ)} (ok x) (ok y) → x ≡ y
    out e = ground (arith, e)

    failing : (s1 : State) → finish_open mode (s1, refused outofmem) ≡ ok (s', pos fd) → ⊥
    failing s1 h = ground (arith, h)

    go :
        (a : State × Opened)
        → acquire s r.entry (inode_of r.entry_block r.entry_index) ≡ a
        → IsOpened s r.entry (inode_of r.entry_block r.entry_index) mode s' fd
    go (s1, refused e) acquires = absurd (
        failing s1 (
          sym (
            ap (λ o. finish_open mode (s1, o))
              (acquire-outofmem s s1 r.entry (inode_of r.entry_block r.entry_index) e acquires))
          ∙ sym (opening s1 (refused e) acquires)
          ∙ runs))
    go (s1, opened row size) acquires =
        acquired-IsOpened s s1 s' r.entry (inode_of r.entry_block r.entry_index) mode row size fd
          (acquire-Taken s s1 r.entry (inode_of r.entry_block r.entry_index) row size acquires)
          (out (sym (opening s1 (opened row size) acquires) ∙ runs))
