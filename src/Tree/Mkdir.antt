-- ===== src/Tree/Mkdir.antt =====
-- k_mkdir (src/internal/pennfat_kernel.c).
use pennosgrp.Prelude.{
  ℕ, ◌<◌, ◌≤◌, ◌^◌, ◌≡◌, refl, ap, sym, ◌∙◌, true, false, not, ◌&&◌, ◌||◌, Option, none, some, List,
  ◌∷◌, arith, ◌==◌, if◌then◌else◌, if_false, Bool-cases, Option-cases, inl, inr, Outcome, ok, panic,
  fault, out_of_fuel, ◌>>=◌,
}
use pennosgrp.Fat.{
  Fs, fat_free, fat_eoc, set_fat, update, in_fat, read_block, write_block, allocate_free_block,
  total_entries,
}
use pennosgrp.Fat.Alloc.{allocate_free_block_lem, allocate-Links}
use pennosgrp.Fat.Region.{beside_fat, read_beside, write_beside}
use pennosgrp.Dirent.{PennFatErr, success, io_error}
use pennosgrp.File.{State}
use pennosgrp.Dir.{find_entry_in_dir, add_dirent_to_dir}
use pennosgrp.Dir.Lookup.{IsDir}
use pennosgrp.Dir.Frame.{allocated-IsDir, find_entry-frame}
use pennosgrp.Dir.Chains.{add-Grown}
use pennosgrp.Dir.Extend.{has-apart}
use pennosgrp.Resolve.{Resolved, resolve_path, new_entry, def_perm, is_nil, dot, dotdot}
use pennosgrp.Resolve.Names.{IsFileName}
use pennosgrp.Open.{is_success, no_parent, get_filename_from_path}
use pennosgrp.Tree.{Result, bad_name, dir_block, make_dir, k_mkdir}
use pennosgrp.Tree.Guards.{is_success-equal, failure_ends, passed, passed_path}
use pennosgrp.Tree.Touch.{FoundIn, FoundAs, FoundIn-FoundAs, find-new_entry}
use pennosgrp.Tree.NewDir.{new_dir_lem, dot-IsFileName, dotdot-IsFileName}

-- A call that succeeded took a block, added an entry and wrote the block.
record Made (s s' : State) (now : ℕ) (name : List ℕ) (parent : ℕ) : Type 0 where
  block : ℕ
  image : Fs
  with_entry : Fs
  allocates : allocate_free_block s.fs ≡ some (block, image)
  adds :
      add_dirent_to_dir image parent (new_entry name 2 def_perm block now)
      ≡ ok (success, with_entry)
  writes :
      write_block with_entry block (dir_block now with_entry.block_size block parent) ≡ some s'.fs

-- The end of make_dir.
abbrev end_of_make_dir : State → (now parent b : ℕ) → PennFatErr × Fs → Result
end_of_make_dir s now parent b (err, g) =
    if not (is_success err)
    then ok (record s { fs = set_fat g b fat_free }, err)
    else elim (write_block g b (dir_block now g.block_size b parent)) [
      | none ↦ ok (record s { fs = set_fat g b fat_free }, io_error)
      | some g2 ↦ ok (record s { fs = g2 }, success)
    ]

end_of_make_dir_lem :
    (s s' : State) (now parent b : ℕ) (x : Outcome (PennFatErr × Fs))
    → (x >>= end_of_make_dir s now parent b) ≡ ok (s', success)
    → (g : Fs) × (x ≡ ok (success, g))
      × (write_block g b (dir_block now g.block_size b parent) ≡ some s'.fs)
end_of_make_dir_lem s s' now parent b panic e = absurd (ground (arith, e))
end_of_make_dir_lem s s' now parent b fault e = absurd (ground (arith, e))
end_of_make_dir_lem s s' now parent b out_of_fuel e = absurd (ground (arith, e))
end_of_make_dir_lem s s' now parent b (ok (err, g)) e = elim (Bool-cases (is_success err)) [
  | inr lost ↦
      absurd (failure_ends (record s { fs = set_fat g b fat_free }) s' err lost (rw lost at e))
  | inl won ↦
      let here = is_success-equal err won in
      let written = go (write_block g b (dir_block now g.block_size b parent)) (rw won at e) in
      (g, (λ k. ok (here k, g)), written)
]
  where
    go :
        (o : Option Fs)
        → ◌≡◌ {A = Result}
            (elim o [
              | none ↦ ok (record s { fs = set_fat g b fat_free }, io_error)
              | some g2 ↦ ok (record s { fs = g2 }, success)
            ])
            (ok (s', success))
        → o ≡ some s'.fs
    go none h = absurd (failure_ends (record s { fs = set_fat g b fat_free }) s' io_error refl h)
    go (some g2) h =
        let same : record s { fs = g2 } ≡ s' = ground (arith, h) in ap some (ap (λ t. t.fs) same)

make_dir-Made :
    (now : ℕ) (s s' : State) (name : List ℕ) (parent : ℕ)
    → make_dir now s name parent ≡ ok (s', success)
    → Made s s' now name parent
unfolding make_dir
make_dir-Made now s s' name parent runs = elim (Option-cases (allocate_free_block s.fs)) [
  | inl full ↦ absurd (ground (arith, runs, full))
  | inr ((b, g), allocates) ↦
      let (g1, adds, writes) =
        end_of_make_dir_lem s s' now parent b
          (add_dirent_to_dir g parent (new_entry name 2 def_perm b now))
          (rw (allocates, make_dir) at runs) in
      record {
        block = b;
        image = g;
        with_entry = g1;
        allocates = allocates;
        adds = adds;
        writes = writes;
      }
]

-- What is written to a block is read there, and the rest of the image is as before.
pub write_block_lem :
    (g g' : Fs) (b : ℕ) (bytes : List ℕ)
    → in_fat g b ≡ false
    → write_block g b bytes ≡ some g'
    → g' ≡ record g { blocks = update g.blocks b (some bytes) }
write_block_lem g g' b bytes out runs = elim (Bool-cases (g.fs_open && g.writable b)) [
  | inl able ↦ ground (arith, runs, able, write_beside g b bytes out)
  | inr stuck ↦ absurd (ground (arith, runs, stuck, write_beside g b bytes out))
]

read_written :
    (g : Fs) (b : ℕ) (bytes : List ℕ)
    → g.fs_open ≡ true
    → in_fat g b ≡ false
    → read_block (record g { blocks = update g.blocks b (some bytes) }) b ≡ some bytes
read_written g b bytes opened out =
    read_beside (record g { blocks = update g.blocks b (some bytes) }) b out
    ∙ ground (arith, opened)

pub allocated_size :
    (g g' : Fs) (b : ℕ)
    → g.data_start_block ≤ total_entries g
    → allocate_free_block g ≡ some (b, g')
    → g'.block_size ≡ g.block_size
allocated_size g g' b room runs = elim (allocate_free_block_lem g room) [
  | inl (full, _) ↦ absurd (ground (arith, runs, full))
  | inr (b', runs', _) ↦
      let image : g' ≡ set_fat g b' fat_eoc = ground (arith, runs, runs') in
      ap (λ h. h.block_size) image
]

pub apart_marks : ◌≡◌ {A = ℕ} fat_free fat_eoc → ⊥
apart_marks e = omega (arith, e)

-- What k_mkdir makes of a directory.
module _ (now : ℕ) (s s' : State) (name : List ℕ) (parent : ℕ) (xs : List ℕ) where
  made_lem :
      Made s s' now name parent
      → IsDir s.fs parent xs
      → IsFileName name
      → now < 2 ^ 64
      → parent < 2 ^ 16
      → 128 ≤ s.fs.block_size
      → find_entry_in_dir s.fs parent name ≡ ok (success, none)
      → (b : ℕ) × (s.fs.fat b ≡ fat_free)
        × FoundIn s'.fs parent name (new_entry name 2 def_perm b now)
        × FoundIn s'.fs b dot (new_entry dot 2 def_perm b now)
        × FoundIn s'.fs b dotdot (new_entry dotdot 2 def_perm parent now)
  made_lem made is named time narrow room gone =
      let g = made.image in
      let g1 = made.with_entry in
      let b = made.block in
      let (is1, small, _, _) = allocated-IsDir s.fs g b parent xs is made.allocates in
      let ((_, ne, nf, _, end), keep) =
        allocate-Links s.fs g b is.fat.start is.fat.small is.fat.room made.allocates in
      let (out, _) = keep parent (parent ∷ xs) is.links in
      let (free, (p, entry, finds)) =
        find-new_entry s.fs g g1 parent b 2 def_perm now xs name is named time gone made.allocates
          made.adds in
      let grown = add-Grown g g1 parent xs (new_entry name 2 def_perm b now) is1 made.adds in
      let apart = grown.old_or_free b out (λ zero_b. apart_marks (sym zero_b ∙ end)) in
      let beside : in_fat g1 b ≡ false =
        beside_fat g1 b (omega (arith, grown.same_count, is1.fat.one)) nf in
      let image =
        write_block_lem g1 s'.fs b (dir_block now g1.block_size b parent) beside made.writes in
      let size : s'.fs.block_size ≡ s.fs.block_size =
        ap (λ h. h.block_size) image
        ∙ grown.same_size
        ∙ allocated_size s.fs g b is.fat.room made.allocates in
      let (self, up) =
        new_dir_lem now g1.block_size b parent (omega arith) narrow time s'.fs (ground arith)
          (ap (λ h. read_block h b) image
            ∙ read_written g1 b (dir_block now g1.block_size b parent) grown.opened beside)
          (rw size room) in
      (
        b,
        free,
        (
          p,
          entry,
          ap (λ h. find_entry_in_dir h parent name) image
              ∙ find_entry-frame g1 g1.fat
                  (update g1.blocks b (some (dir_block now g1.block_size b parent))) parent
                  (parent ∷ grown.rest) name (omega (arith, grown.same_count, is1.fat.one))
                  grown.links (λ c there. refl)
                  (λ c there.
                    if_false (c == b) _ _ (has-apart b c (parent ∷ grown.rest) apart there))
              ∙ finds,
        ),
        self,
        up,
      )

-- When k_mkdir succeeds, the directory of the image that the path's walk stopped in, which had no entry of
-- the path's last name, has then a directory (type 2) of that name; its first block was free, and in it `.`
-- leads to itself and `..` to the directory above, all of size 0, with permissions 6 and the time of the
-- call. The FAT has one block, blocks have room for two entries, the time fits 64 bits and the directory's
-- number 16, and the name has fewer than 32 bytes, none of them a slash or 0, and the first above 2.
pub k_mkdir_lem :
    (now cwd : ℕ) (s s' : State) (path : List ℕ) (err : PennFatErr) (r : Resolved) (xs : List ℕ)
    → resolve_path s.fs now cwd path ≡ ok (err, r)
    → IsDir s.fs r.parent_dir_block xs
    → IsFileName (get_filename_from_path path)
    → now < 2 ^ 64
    → r.parent_dir_block < 2 ^ 16
    → 128 ≤ s.fs.block_size
    → find_entry_in_dir s.fs r.parent_dir_block (get_filename_from_path path) ≡ ok (success, none)
    → k_mkdir now cwd s path ≡ ok (s', success)
    → (b : ℕ) × (s.fs.fat b ≡ fat_free)
      × FoundAs s'.fs r.parent_dir_block (get_filename_from_path path) 2 6 0 b now
      × FoundAs s'.fs b dot 2 6 0 b now
      × FoundAs s'.fs b dotdot 2 6 0 r.parent_dir_block now
unfolding k_mkdir
k_mkdir_lem now cwd s s' path err r xs resolves is named time narrow room gone runs =
    let name = get_filename_from_path path in
    let (_, after_mount) = passed (not s.mounted) s s' _ _ refl runs in
    let (_, after_path) = passed (is_nil path) s s' _ _ refl after_mount in
    let after_walk = passed_path s s' err _ (rw resolves at after_path) in
    let (_, after_found) = passed (r.found || no_parent r) s s' _ _ refl after_walk in
    let (_, makes) = passed (bad_name name) s s' _ _ refl after_found in
    let (b, free, found, self, up) =
      made_lem now s s' name r.parent_dir_block xs
        (make_dir-Made now s s' name r.parent_dir_block makes) is named time narrow room gone in
    (
      b,
      free,
      FoundIn-FoundAs s'.fs r.parent_dir_block name 2 def_perm b now named found,
      FoundIn-FoundAs s'.fs b dot 2 def_perm b now dot-IsFileName self,
      FoundIn-FoundAs s'.fs b dotdot 2 def_perm r.parent_dir_block now dotdot-IsFileName up,
    )
