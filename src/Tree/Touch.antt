-- ===== src/Tree/Touch.antt =====
-- k_touch of a path that leads to no entry (src/internal/pennfat_kernel.c).
use pennosgrp.Prelude.{
  ℕ, ◌<◌, ◌^◌, ◌≡◌, refl, ap, sym, ◌∙◌, true, false, not, ◌||◌, none, some, List, arith, length,
  leb, if◌then◌else◌, Bool-cases, Option-cases, inl, inr, Outcome, ok, panic, fault, out_of_fuel,
  ◌>>=◌,
}
use pennosgrp.Fat.{Fs, fat_free, set_fat, allocate_free_block}
use pennosgrp.Dirent.{DirEntry, PennFatErr, success}
use pennosgrp.File.{State}
use pennosgrp.Dir.{Place, str_eq, entry_name, find_entry_in_dir, add_dirent_to_dir}
use pennosgrp.Dir.Lookup.{IsDir, find-add_dirent_to_dir}
use pennosgrp.Dir.Frame.{allocated-IsDir}
use pennosgrp.Resolve.{Resolved, resolve_path, new_entry, def_perm, is_nil, dot, dotdot}
use pennosgrp.Resolve.Names.{
  IsFileName, str_eq_refl, new_entry-IsEntry, mark-new_entry, entry_name-new_entry,
}
use pennosgrp.Open.{is_success, is_notdir, no_parent, get_filename_from_path}
use pennosgrp.Tree.{k_touch, touch_new}

-- The name leads to this entry, somewhere in the directory.
abbrev pub FoundIn : Fs → ℕ → List ℕ → DirEntry → Type 0
FoundIn g dir name e =
    (p : Place) × (p.entry ≡ e) × (find_entry_in_dir g dir name ≡ ok (success, some p))

-- The fields of an entry: its name up to the first 0, and its type, permissions, size, first block and time.
pub record HasFields (e : DirEntry) (name : List ℕ) (ftype perm size block mtime : ℕ) : Type 0 where
  pub named : entry_name e ≡ name
  pub typed : e.ftype ≡ ftype
  pub allowed : e.perm ≡ perm
  pub sized : e.size ≡ size
  pub begins : e.first_block ≡ block
  pub timed : e.mtime ≡ mtime

-- The name leads to an entry with these fields, somewhere in the directory.
abbrev pub FoundAs : Fs → (dir : ℕ) → List ℕ → (ftype perm size block mtime : ℕ) → Type 0
FoundAs g dir name ftype perm size block mtime =
    (p : Place) × HasFields p.entry name ftype perm size block mtime
    × (find_entry_in_dir g dir name ≡ ok (success, some p))

pub FoundIn-FoundAs :
    (g : Fs) (dir : ℕ) (name : List ℕ) (ftype perm block mtime : ℕ)
    → IsFileName name
    → FoundIn g dir name (new_entry name ftype perm block mtime)
    → FoundAs g dir name ftype perm 0 block mtime
FoundIn-FoundAs g dir name ftype perm block mtime is (p, same, finds) = (
  p,
  record {
    named = ap entry_name same ∙ entry_name-new_entry name ftype perm block mtime is;
    typed = ap (λ (e : DirEntry). e.ftype) same;
    allowed = ap (λ (e : DirEntry). e.perm) same;
    sized = ap (λ (e : DirEntry). e.size) same;
    begins = ap (λ (e : DirEntry). e.first_block) same;
    timed = ap (λ (e : DirEntry). e.mtime) same;
  },
  finds,
)

-- An entry made for a name, added to a directory on an image after an allocation, is found there.
pub find-new_entry :
    (g g1 g2 : Fs) (dir b ftype perm now : ℕ) (xs name : List ℕ)
    → IsDir g dir xs
    → IsFileName name
    → now < 2 ^ 64
    → find_entry_in_dir g dir name ≡ ok (success, none)
    → allocate_free_block g ≡ some (b, g1)
    → add_dirent_to_dir g1 dir (new_entry name ftype perm b now) ≡ ok (success, g2)
    → (g.fat b ≡ fat_free) × FoundIn g2 dir name (new_entry name ftype perm b now)
find-new_entry g g1 g2 dir b ftype perm now xs name is named time gone allocates adds =
    let (is1, small, free, keep) = allocated-IsDir g g1 b dir xs is allocates in
    let (block, index, finds) =
      find-add_dirent_to_dir g1 g2 dir xs (new_entry name ftype perm b now) name is1
        (new_entry-IsEntry name ftype perm b now named (omega arith) time)
        (mark-new_entry name ftype perm b now named)
        (ap (λ t. str_eq t name) (entry_name-new_entry name ftype perm b now named)
          ∙ str_eq_refl name)
        (keep name gone) adds in
    (
      free,
      (
        record { block = block; index = index; entry = new_entry name ftype perm b now },
        refl,
        finds,
      ),
    )

-- A call that succeeded took a block and added an entry.
record Touched (g : Fs) (now : ℕ) (s' : State) (path : List ℕ) (dir : ℕ) : Type 0 where
  block : ℕ
  image : Fs
  allocates : allocate_free_block g ≡ some (block, image)
  adds :
      add_dirent_to_dir image dir (new_entry (get_filename_from_path path) 1 def_perm block now)
      ≡ ok (success, s'.fs)

-- The end of touch_new.
abbrev rest_of_touch : State → ℕ → PennFatErr × Fs → Outcome (State × PennFatErr)
rest_of_touch s b (err, g) =
    ok (record s { fs = if is_success err then g else set_fat g b fat_free }, err)

added_ok :
    (s s' : State) (b : ℕ) (x : Outcome (PennFatErr × Fs))
    → (x >>= rest_of_touch s b) ≡ ok (s', success)
    → x ≡ ok (success, s'.fs)
added_ok s s' b (ok (err, g)) e = by_err err e
  where
    by_err :
        (err : PennFatErr)
        → rest_of_touch s b (err, g) ≡ ok (s', success)
        → ◌≡◌ {A = Outcome (PennFatErr × Fs)} (ok (err, g)) (ok (success, s'.fs))
    by_err err h =
        let won : err ≡ success = ground (arith, h) in
        let here : record s { fs = if is_success err then g else set_fat g b fat_free } ≡ s' =
          ground (arith, h) in
        let image : (if is_success err then g else set_fat g b fat_free) ≡ s'.fs =
          ap (λ t. t.fs) here in
        let g_here : g ≡ s'.fs =
          ap (λ w. if is_success w then g else set_fat g b fat_free) (sym won) ∙ image in
        λ k. ok (won k, g_here k)
added_ok s s' b panic e = absurd (ground (arith, e))
added_ok s s' b fault e = absurd (ground (arith, e))
added_ok s s' b out_of_fuel e = absurd (ground (arith, e))

touch_step :
    (now : ℕ) (s : State) (path : List ℕ) (r : Resolved) (b : ℕ) (g : Fs)
    → no_parent r ≡ false
    → leb 32 (length (get_filename_from_path path)) ≡ false
    → (str_eq (get_filename_from_path path) dot || str_eq (get_filename_from_path path) dotdot)
      ≡ false
    → allocate_free_block s.fs ≡ some (b, g)
    → touch_new now s path r ≡ (
        add_dirent_to_dir g r.parent_dir_block
          (new_entry (get_filename_from_path path) 1 def_perm b now)
        >>= rest_of_touch s b)
unfolding touch_new
touch_step now s path r b g has_parent short name allocates =
    rw (has_parent, short, name) (rw allocates refl)

touch_new-Touched :
    (now : ℕ) (s s' : State) (path : List ℕ) (r : Resolved)
    → touch_new now s path r ≡ ok (s', success)
    → Touched s.fs now s' path r.parent_dir_block
unfolding touch_new
touch_new-Touched now s s' path r runs = elim (Bool-cases (no_parent r)) [
  | inl h ↦ absurd (ground (arith, runs, h))
  | inr has_parent ↦ elim (Bool-cases (leb 32 (length (get_filename_from_path path)))) [
    | inl h ↦ absurd (ground (arith, runs, has_parent, h))
    | inr short ↦
        elim (Bool-cases (
          str_eq (get_filename_from_path path) dot
          || str_eq (get_filename_from_path path) dotdot)) [
            | inl h ↦ absurd (ground (arith, runs, has_parent, short, h))
            | inr name ↦ elim (Option-cases (allocate_free_block s.fs)) [
              | inl full ↦ absurd (ground (arith, runs, has_parent, short, name, full))
              | inr ((b, g), allocates) ↦ record {
                block = b;
                image = g;
                allocates = allocates;
                adds =
                    added_ok s s' b _
                      (sym (touch_step now s path r b g has_parent short name allocates) ∙ runs);
              }
            ]
          ]
  ]
]

k_touch_step :
    (now cwd : ℕ) (s : State) (path : List ℕ) (err : PennFatErr) (r : Resolved)
    → s.mounted ≡ true
    → is_nil path ≡ false
    → resolve_path s.fs now cwd path ≡ ok (err, r)
    → r.found ≡ false
    → k_touch now cwd s path
      ≡ (if not (is_success err || is_notdir err) then ok (s, err) else touch_new now s path r)
unfolding k_touch
k_touch_step now cwd s path err r mounted some_path resolves absent =
    rw (mounted, some_path, resolves) (rw absent refl)

-- When k_touch succeeds on a mounted system and a nonempty path that leads to no entry, the directory of
-- the image that the path's walk stopped in, which had no entry of the path's last name, has then one of
-- that name, a file (type 1) of size 0 with permissions 6, the time of the call, which fits 64 bits, and a
-- first block that was free. The FAT has one block. The name has fewer than 32 bytes, none of them a slash
-- or 0, and the first above 2.
pub k_touch_lem :
    (now cwd : ℕ) (s s' : State) (path : List ℕ) (err : PennFatErr) (r : Resolved) (xs : List ℕ)
    → s.mounted ≡ true
    → is_nil path ≡ false
    → resolve_path s.fs now cwd path ≡ ok (err, r)
    → r.found ≡ false
    → IsDir s.fs r.parent_dir_block xs
    → IsFileName (get_filename_from_path path)
    → now < 2 ^ 64
    → find_entry_in_dir s.fs r.parent_dir_block (get_filename_from_path path) ≡ ok (success, none)
    → k_touch now cwd s path ≡ ok (s', success)
    → (b : ℕ) × (s.fs.fat b ≡ fat_free)
      × FoundAs s'.fs r.parent_dir_block (get_filename_from_path path) 1 6 0 b now
k_touch_lem now cwd s s' path err r xs mounted some_path resolves absent is named time gone runs =
    elim (Bool-cases (is_success err || is_notdir err)) [
      | inl usable ↦
          let touched = touch_new-Touched now s s' path r (
            sym
              (k_touch_step now cwd s path err r mounted some_path resolves absent ∙ rw usable refl)
            ∙ runs) in
          let (free, found) =
            find-new_entry s.fs touched.image s'.fs r.parent_dir_block touched.block 1 def_perm now
              xs (get_filename_from_path path) is named time gone touched.allocates touched.adds in
          (
            touched.block,
            free,
            FoundIn-FoundAs s'.fs r.parent_dir_block (get_filename_from_path path) 1 def_perm
                touched.block now named found,
          )
      | inr bad ↦ absurd (
          failing err bad (
            sym (k_touch_step now cwd s path err r mounted some_path resolves absent ∙ rw bad refl)
            ∙ runs))
    ]
  where
    failing :
        (err : PennFatErr)
        → (is_success err || is_notdir err) ≡ false
        → ◌≡◌ {A = Outcome (State × PennFatErr)} (ok (s, err)) (ok (s', success))
        → ⊥
    failing err bad e =
        let won : err ≡ success = ground (arith, e) in ground (arith, ap is_success won, bad)
