-- ===== src/Tree/Symlink.antt =====
-- k_symlink (src/internal/pennfat_kernel.c).
use pennosgrp.Prelude.{
  ℕ, ◌-◌, ◌<◌, ◌^◌, ◌≡◌, ◌≢◌, refl, ap, sym, ◌∙◌, true, false, not, ◌||◌, none, some, List, [], ◌∷◌,
  ◌++◌, arith, length, take, min, replicate, length-append, length-replicate, leb, ◌==◌,
  if◌then◌else◌, Bool-cases, Option-cases, inl, inr, Outcome, ok, panic, fault, out_of_fuel, ◌>>=◌,
}
use pennosgrp.Bytes.{take-append}
use pennosgrp.Fat.{
  Fs, fat_free, set_fat, update, in_fat, read_block, write_block, allocate_free_block,
  free_block_chain,
}
use pennosgrp.Fat.Alloc.{allocate-Links}
use pennosgrp.Fat.Region.{beside_fat, read_beside}
use pennosgrp.Dirent.{DirEntry, PennFatErr, success, io_error}
use pennosgrp.Dirent.Codec.{IsEntry}
use pennosgrp.File.{State}
use pennosgrp.Dir.{Place, entry_name, c_str, str_eq, find_entry_in_dir, add_dirent_to_dir}
use pennosgrp.Dir.Lookup.{IsDir, find-add_dirent_to_dir}
use pennosgrp.Dir.Frame.{allocated-IsDir, written-IsDir}
use pennosgrp.Dir.Chains.{add-Grown}
use pennosgrp.Resolve.{
  Resolved, resolve_path_no_follow, read_symlink_target, new_entry, is_nil, path_max,
}
use pennosgrp.Resolve.Names.{
  IsFileName, str_eq_refl, new_entry-IsEntry, mark-new_entry, entry_name-padded,
}
use pennosgrp.Open.{is_success, no_parent, get_filename_from_path}
use pennosgrp.Tree.{Result, bad_name, link_to, k_symlink}
use pennosgrp.Tree.Guards.{is_success-equal, failure_ends, passed, passed_path}
use pennosgrp.Tree.Touch.{FoundIn, HasFields}
use pennosgrp.Tree.Mkdir.{write_block_lem, allocated_size, apart_marks}

-- The bytes of a link's block, and its entry.
abbrev link_block : List ℕ → ℕ → List ℕ
link_block target size = target ++ replicate (size - length target) 0

abbrev pub link_entry : (target name : List ℕ) → (b now : ℕ) → DirEntry
link_entry target name b now = record (new_entry name 4 7 b now) { size = length target }

-- No byte of a C string is 0.
abbrev pub NoZero : List ℕ → Type 0
NoZero [] = Unit {0}
NoZero (c ∷ cs) = ((c == 0) ≡ false) × NoZero cs

c_str_whole : (s : List ℕ) → NoZero s → c_str s ≡ s
c_str_whole [] all = refl
c_str_whole (c ∷ cs) (plain, all) = rw plain (ap (λ t. c ∷ t) (c_str_whole cs all))

-- A call that succeeded took a block, wrote the target to it and added an entry.
record Linked (s s' : State) (now : ℕ) (target name : List ℕ) (parent : ℕ) : Type 0 where
  block : ℕ
  image : Fs
  written : Fs
  allocates : allocate_free_block s.fs ≡ some (block, image)
  writes : write_block image block (link_block target image.block_size) ≡ some written
  adds : add_dirent_to_dir written parent (link_entry target name block now) ≡ ok (success, s'.fs)

abbrev end_of_link : State → ℕ → PennFatErr × Fs → Result
end_of_link s b (err, g) =
    if is_success err
    then ok (record s { fs = g }, success)
    else (do g3 ← free_block_chain g b; ok (record s { fs = g3 }, err))

end_of_link_lem :
    (s s' : State) (b : ℕ) (x : Outcome (PennFatErr × Fs))
    → (x >>= end_of_link s b) ≡ ok (s', success)
    → x ≡ ok (success, s'.fs)
end_of_link_lem s s' b panic e = absurd (ground (arith, e))
end_of_link_lem s s' b fault e = absurd (ground (arith, e))
end_of_link_lem s s' b out_of_fuel e = absurd (ground (arith, e))
end_of_link_lem s s' b (ok (err, g)) e = elim (Bool-cases (is_success err)) [
  | inl won ↦
      let here = is_success-equal err won in
      let same : record s { fs = g } ≡ s' = ground (arith, rw won at e) in
      λ k. ok (here k, (same k).fs)
  | inr lost ↦ absurd (go (free_block_chain g b) lost (rw lost at e))
]
  where
    go :
        (o : Outcome Fs)
        → is_success err ≡ false
        → ◌≡◌ {A = Result} (o >>= (λ g3. ok (record s { fs = g3 }, err))) (ok (s', success))
        → ⊥
    go (ok g3) lost h = failure_ends (record s { fs = g3 }) s' err lost h
    go panic lost h = ground (arith, h)
    go fault lost h = ground (arith, h)
    go out_of_fuel lost h = ground (arith, h)

link_to-Linked :
    (now : ℕ) (s s' : State) (target name : List ℕ) (parent : ℕ)
    → link_to now s target name parent ≡ ok (s', success)
    → Linked s s' now target name parent
unfolding link_to
link_to-Linked now s s' target name parent runs = elim (Option-cases (allocate_free_block s.fs)) [
  | inl full ↦ absurd (ground (arith, runs, full))
  | inr ((b, g), allocates) ↦
      elim (Option-cases (write_block g b (link_block target g.block_size))) [
        | inl bad ↦ absurd (refused b g allocates bad)
        | inr (g1, writes) ↦ record {
          block = b;
          image = g;
          written = g1;
          allocates = allocates;
          writes = writes;
          adds =
              end_of_link_lem s s' b (add_dirent_to_dir g1 parent (link_entry target name b now))
                (rw writes at (rw (allocates, link_to) at runs));
        }
      ]
]
  where
    refused :
        (b : ℕ) (g : Fs)
        → allocate_free_block s.fs ≡ some (b, g)
        → write_block g b (link_block target g.block_size) ≡ none
        → ⊥
    refused b g allocates bad =
        failure_ends (record s { fs = set_fat g b fat_free }) s' io_error refl
          (rw bad at (rw (allocates, link_to) at runs))

read_kept :
    (g' : Fs) (b : ℕ) (bytes : List ℕ)
    → g'.fs_open ≡ true
    → in_fat g' b ≡ false
    → g'.blocks b ≡ some bytes
    → read_block g' b ≡ some bytes
read_kept g' b bytes opened out here = read_beside g' b out ∙ ground (arith, opened, here)

-- What is read of a link whose block holds the target.
read_symlink_target_lem :
    (g : Fs) (e : DirEntry) (target : List ℕ) (size : ℕ)
    → read_block g e.first_block ≡ some (link_block target size)
    → e.size ≡ length target
    → length target < path_max
    → NoZero target
    → read_symlink_target g e ≡ some target
unfolding read_symlink_target
read_symlink_target_lem g e target size reads same short all =
    rw (reads, read_symlink_target)
      (ap (λ n. some (c_str (take (min n 255) (link_block target size)))) same
        ∙ ap (λ n. some (c_str (take n (link_block target size)))) shorter
        ∙ ap (λ t. some (c_str t)) (take-append (length target) target _ refl)
        ∙ ap some (c_str_whole target all))
  where
    shorter : min (length target) 255 ≡ length target
    shorter = omega (arith, short)

module _ (now : ℕ) (s s' : State) (target name : List ℕ) (parent : ℕ) (xs : List ℕ) where
  linked_lem :
      Linked s s' now target name parent
      → IsDir s.fs parent xs
      → IsFileName name
      → NoZero target
      → length target < path_max
      → length target < s.fs.block_size
      → now < 2 ^ 64
      → find_entry_in_dir s.fs parent name ≡ ok (success, none)
      → (b : ℕ) × (s.fs.fat b ≡ fat_free)
        × FoundIn s'.fs parent name (link_entry target name b now)
        × (read_symlink_target s'.fs (link_entry target name b now) ≡ some target)
  linked_lem linked is named clean short fits time gone =
      let g = linked.image in
      let g1 = linked.written in
      let b = linked.block in
      let e = link_entry target name b now in
      let bytes = link_block target g.block_size in
      let (is_g, small, free, keep_g) = allocated-IsDir s.fs g b parent xs is linked.allocates in
      let ((_, _, nf, _, end), keep) =
        allocate-Links s.fs g b is.fat.start is.fat.small is.fat.room linked.allocates in
      let (out, _) = keep parent (parent ∷ xs) is.links in
      let room : length target < g.block_size =
        rw (allocated_size s.fs g b is.fat.room linked.allocates) fits in
      let image = write_block_lem g g1 b bytes (beside_fat g b is_g.fat.one nf) linked.writes in
      let (is_w, keep_w) = written-IsDir g b parent xs bytes is_g out (whole g.block_size room) in
      let is1 : IsDir g1 parent xs = rw image is_w in
      let gone1 : find_entry_in_dir g1 parent name ≡ ok (success, none) =
        rw image (keep_w name (keep_g name gone)) in
      let plain = new_entry-IsEntry name 4 7 b now named (omega (arith, small)) time in
      let is_e : IsEntry e = record {
        name = plain.name;
        size = omega (arith, short);
        first_block = plain.first_block;
        mtime = time;
        reserved = plain.reserved;
      } in
      let (block, index, finds) =
        find-add_dirent_to_dir g1 s'.fs parent xs e name is1 is_e
          (mark-new_entry name 4 7 b now named)
          (ap (λ t. str_eq t name) (entry_name-padded e name named refl) ∙ str_eq_refl name) gone1
          linked.adds in
      let grown = add-Grown g1 s'.fs parent xs e is1 linked.adds in
      let busy : g1.fat b ≢ fat_free =
        λ zero_b. apart_marks (sym zero_b ∙ ap (λ h. h.fat b) image ∙ end) in
      let out' : in_fat s'.fs b ≡ false =
        beside_fat s'.fs b (omega (arith, grown.same_count, is1.fat.one)) nf in
      let kept : s'.fs.blocks b ≡ some bytes =
        grown.same_blocks b out busy ∙ ap (λ h. h.blocks b) image ∙ here b bytes g in
      (
        b,
        free,
        (record { block = block; index = index; entry = e }, refl, finds),
        read_symlink_target_lem s'.fs e target g.block_size
            (read_kept s'.fs b bytes grown.opened out' kept) refl short clean,
      )
    where
      whole : (size : ℕ) → length target < size → length (link_block target size) ≡ size
      whole size h = omega (
        arith,
        length-append target (replicate (size - length target) 0),
        length-replicate {A = ℕ} (size - length target) 0,
      )

      here : (b : ℕ) (bytes : List ℕ) (g : Fs) → update g.blocks b (some bytes) b ≡ some bytes
      here b bytes g = ground arith

-- When k_symlink succeeds, the directory of the image that the path's walk stopped in, which had no entry
-- of the path's last name, has then a link (type 4) of that name with permissions 7, the length of the
-- target as its size, the time of the call and a first block that was free, and what is read of the link is
-- the target. The FAT has one block; the target has fewer than 256 bytes, none of them 0; the name has
-- fewer than 32 bytes, none of them a slash or 0, and the first above 2; and the time fits 64 bits.
pub k_symlink_lem :
    (now cwd : ℕ) (s s' : State) (target path : List ℕ) (err : PennFatErr) (r : Resolved)
    (xs : List ℕ)
    → resolve_path_no_follow s.fs now cwd path ≡ ok (err, r)
    → IsDir s.fs r.parent_dir_block xs
    → IsFileName (get_filename_from_path path)
    → NoZero target
    → length target < path_max
    → now < 2 ^ 64
    → find_entry_in_dir s.fs r.parent_dir_block (get_filename_from_path path) ≡ ok (success, none)
    → k_symlink now cwd s target path ≡ ok (s', success)
    → (b : ℕ) × (s.fs.fat b ≡ fat_free)
      × (p : Place) × HasFields p.entry (get_filename_from_path path) 4 7 (length target) b now
      × (find_entry_in_dir s'.fs r.parent_dir_block (get_filename_from_path path)
          ≡ ok (success, some p))
      × (read_symlink_target s'.fs p.entry ≡ some target)
unfolding k_symlink
k_symlink_lem now cwd s s' target path err r xs resolves is named clean short time gone runs =
    let name = get_filename_from_path path in
    let (_, after_mount) = passed (not s.mounted) s s' _ _ refl runs in
    let (_, after_paths) = passed (is_nil target || is_nil path) s s' _ _ refl after_mount in
    let after_walk = passed_path s s' err _ (rw resolves at after_paths) in
    let (_, after_found) = passed (r.found || no_parent r) s s' _ _ refl after_walk in
    let (_, after_name) = passed (bad_name name) s s' _ _ refl after_found in
    let (fits, links) = passed (leb s.fs.block_size (length target)) s s' _ _ refl after_name in
    let (b, free, (p, same, finds), reads) =
      linked_lem now s s' target name r.parent_dir_block xs
        (link_to-Linked now s s' target name r.parent_dir_block links) is named clean short
        (ground (arith, fits)) time gone in
    (
      b,
      free,
      p,
      record {
        named =
            ap entry_name same ∙ entry_name-padded (link_entry target name b now) name named refl;
        typed = ap (λ (e : DirEntry). e.ftype) same;
        allowed = ap (λ (e : DirEntry). e.perm) same;
        sized = ap (λ (e : DirEntry). e.size) same;
        begins = ap (λ (e : DirEntry). e.first_block) same;
        timed = ap (λ (e : DirEntry). e.mtime) same;
      },
      finds,
      ap (read_symlink_target s'.fs) same ∙ reads,
    )
