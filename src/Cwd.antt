-- ===== src/Cwd.antt =====
-- find_dir_name_in_parent and k_getcwd of src/internal/pennfat_kernel.c.
pub mod Total
use pennosgrp.Prelude.{
  ℕ, zero, suc, ◌+◌, ◌-◌, Bool, not, ◌&&◌, ◌||◌, Option, none, some, List, [], ◌∷◌, ◌++◌, length,
  take, leb, ltb, ◌==◌, if◌then◌else◌, Outcome, ok, out_of_fuel, ◌>>=◌,
}
use pennosgrp.Fat.{Fs, fat_free, fat_eoc, read_block}
use pennosgrp.Dirent.{
  DirEntry, PennFatErr, success, not_mounted, invad, exists, io_error, range, entry_at,
}
use pennosgrp.Dir.{
  str_eq, entry_name, mark, entries_per_block, Search, failed, missing, hit, chain_fuel,
  find_entry_in_dir,
}
use pennosgrp.Resolve.{dot, dotdot, slash, path_max}

-- The test on an entry of the parent: a directory at that block, under a name of its own.
abbrev pub names : ℕ → DirEntry → Bool
names target e =
    ltb 2 (mark e)
    && e.ftype == 2
    && e.first_block == target
    && not (str_eq (entry_name e) dot)
    && not (str_eq (entry_name e) dotdot)

pub name_in_block : ℕ → ℕ → List ℕ → ℕ → Option (List ℕ)
name_in_block zero i block target = none
name_in_block (suc n) i block target =
    let e = entry_at block i in
    let rest = name_in_block n (i + 1) block target in
    if names target e then some (entry_name e) else if mark e == 0 then none else rest

pub name_loop : ℕ → Fs → ℕ → ℕ → Outcome (Search (List ℕ))
name_loop zero g current target = out_of_fuel
name_loop (suc f) g current target =
    if current == fat_eoc || current == fat_free then ok missing else elim (read_block g current) [
      | none ↦ ok failed
      | some block ↦ elim (name_in_block (entries_per_block g) 0 block target) [
        | some name ↦ ok (hit name)
        | none ↦ name_loop f g (g.fat current) target
      ]
    ]

-- Called on a mounted system, with a buffer of `size` bytes, at least one.
pub find_dir_name_in_parent : Fs → (target parent size : ℕ) → Outcome (PennFatErr × List ℕ)
find_dir_name_in_parent g target parent size =
    if parent == fat_free || parent == fat_eoc || target == fat_free || target == fat_eoc
    then ok (invad, [])
    else if target == 1
    then ok (success, [])
    else do
      s ← name_loop chain_fuel g parent target
      ok (elim s [
        | failed ↦ (io_error, [])
        | missing ↦ (exists, [])
        | hit name ↦ (success, take (size - 1) name)
      ])

-- One round: the parent of a directory and the directory's name there; none is the error.
pub name_of_dir : Fs → ℕ → Outcome (Option (ℕ × List ℕ))
name_of_dir g dir = do
  (err, up) ← find_entry_in_dir g dir dotdot
  elim up [
    | none ↦ ok none
    | some p ↦ do
      (err2, name) ← find_dir_name_in_parent g dir p.entry.first_block 32
      ok (elim err2 [ success ↦ some (p.entry.first_block, name) | _ ↦ none ])
  ]

abbrev pub question : List ℕ
question = b'?' ∷ []

-- while (current_dir != 1 && safety_count < max_depth), with the rounds left; snprintf and strncpy cut
-- the path to PATH_MAX - 1 bytes.
pub climb : ℕ → Fs → ℕ → List ℕ → Outcome (PennFatErr × List ℕ)
climb zero g dir path = ok (range, question)
climb (suc n) g dir path = if dir == 1 then ok (success, path) else (do
  up ← name_of_dir g dir
  elim up [
    | none ↦ ok (io_error, question)
    | some (parent, name) ↦ climb n g parent (take (path_max - 1) (slash ++ (name ++ path)))
  ])

-- What goes to a buffer of that size, at least 1.
abbrev pub fit : List ℕ → ℕ → PennFatErr × List ℕ
fit path size = if leb size (length path) then (range, take (size - 1) path) else (success, path)

-- The error and the string in the caller's buffer, which has `size` bytes.
pub k_getcwd : (mounted : Bool) → Fs → (cwd size : ℕ) → Outcome (PennFatErr × List ℕ)
unfolding climb
k_getcwd mounted g cwd size =
    if not mounted
    then ok (not_mounted, [])
    else if size == 0
    then ok (invad, [])
    else if cwd == 1
    then ok (if ltb size 2 then (range, []) else (success, slash))
    else do
      (err, path) ← climb 64 g cwd []
      ok (elim err [ success ↦ fit path size | other ↦ (other, path) ])
