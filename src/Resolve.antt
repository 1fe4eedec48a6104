-- ===== src/Resolve.antt =====
-- Path resolution of src/internal/pennfat_kernel.c. `cwd` is g_cwd_block and `now` what time(NULL) gives.
-- A path is the list of its bytes, without the 0 at its end, and is not NULL.
pub mod Components
pub mod Total
pub mod Names
use pennosgrp.Prelude.{
  ℕ, zero, suc, ◌+◌, ◌-◌, Bool, true, false, not, ◌&&◌, ◌||◌, Option, none, some, List, [], ◌∷◌,
  ◌++◌, length, take, replicate, leb, min, ◌==◌, if◌then◌else◌, ℤ, pos, negsuc, Outcome, ok, ◌>>=◌,
}
use pennosgrp.Fat.{Fs, read_block}
use pennosgrp.Dirent.{DirEntry, PennFatErr, success, notdir, io_error, range}
use pennosgrp.Dir.{c_str, str_eq, Place, find_entry_in_dir}

-- resolved_path_t
pub record Resolved : Type 0 where
  pub found : Bool
  pub is_root : Bool
  pub entry : DirEntry
  pub entry_block : ℕ
  pub entry_index : ℤ
  pub parent_dir_block : ℕ

abbrev pub def_perm : ℕ
def_perm = 6

-- An entry after memset(&entry, 0, sizeof(dir_entry_t)).
abbrev pub zero_entry : DirEntry
zero_entry = record {
  name = replicate 32 0;
  size = 0;
  first_block = 0;
  ftype = 0;
  perm = 0;
  mtime = 0;
  reserved = replicate 16 0;
}

-- strncpy(name, s, 31) into a name of zeros, for a string of at most 31 bytes.
abbrev pub padded : List ℕ → List ℕ
padded s = s ++ replicate (32 - length s) 0

-- An entry that is set up from zeros.
abbrev pub new_entry : List ℕ → (ftype perm block mtime : ℕ) → DirEntry
new_entry name ftype perm block mtime = record zero_entry {
  name = padded name;
  ftype = ftype;
  perm = perm;
  first_block = block;
  mtime = mtime;
}

abbrev pub dot : List ℕ
dot = b'.' ∷ []

abbrev pub dotdot : List ℕ
dotdot = b'.' ∷ b'.' ∷ []

abbrev pub slash : List ℕ
slash = b'/' ∷ []

abbrev pub no_path : Resolved
no_path = record {
  found = false;
  is_root = false;
  entry = zero_entry;
  entry_block = 0;
  entry_index = pos 0;
  parent_dir_block = 0;
}

-- A directory that is reached as itself and not through its entry.
abbrev pub resolved_dir : (is_root : Bool) → (block parent : ℕ) → DirEntry → Resolved
resolved_dir is_root block parent e = record {
  found = true;
  is_root = is_root;
  entry = e;
  entry_block = block;
  entry_index = negsuc 0;
  parent_dir_block = parent;
}

abbrev pub resolved_place : ℕ → Place → Resolved
resolved_place parent p = record {
  found = true;
  is_root = false;
  entry = p.entry;
  entry_block = p.block;
  entry_index = pos p.index;
  parent_dir_block = parent;
}

abbrev pub not_there : ℕ → Resolved
not_there parent = record no_path { parent_dir_block = parent }

-- The components of a path: strtok(path, "/").
abbrev pub flush : List ℕ → List (List ℕ) → List (List ℕ)
flush [] rest = rest
flush (c ∷ cs) rest = (c ∷ cs) ∷ rest

unfoldable pub tokens : List ℕ → List ℕ → List (List ℕ)
tokens cur [] = flush cur []
tokens cur (c ∷ s) =
    let cut = flush cur (tokens [] s) in
    let more = tokens (cur ++ c ∷ []) s in if c == b'/' then cut else more

abbrev pub path_max : ℕ
path_max = 256

unfoldable pub components : List ℕ → List (List ℕ)
unfolding tokens
components path = tokens [] (take (path_max - 1) path)

-- The target of a symbolic link, in a buffer of PATH_MAX bytes.
unfoldable pub read_symlink_target : Fs → DirEntry → Option (List ℕ)
read_symlink_target g e = elim (read_block g e.first_block) [
  | none ↦ none
  | some block ↦ some (c_str (take (min e.size (path_max - 1)) block))
]

-- What a component leads to: another directory with the one before it, or the end of the walk.
pub data Step : Type 0 where
  goes : (dir parent : ℕ) → Step
  ends : PennFatErr → Resolved → Step

-- `..` of a directory that is not the root.
unfoldable pub step_up : Fs → ℕ → Outcome Step
step_up g dir = do
  (err, d) ← find_entry_in_dir g dir dotdot
  elim d [ none ↦ ok (ends err no_path) | some p ↦ ok (goes p.entry.first_block dir) ]

abbrev pub Resolver : Type 0
Resolver = List ℕ → Outcome (PennFatErr × Resolved)

-- The last component, which is there: a link that is to be followed resolves as its target.
unfoldable pub step_last : Resolver → Fs → Bool → ℕ → Place → Outcome Step
step_last next g follow dir p =
    if follow && p.entry.ftype == 4
    then (elim (read_symlink_target g p.entry) [
      | none ↦ ok (ends io_error no_path)
      | some target ↦ do (err, r) ← next target; ok (ends err r)
    ])
    else ok (ends success (resolved_place dir p))

-- A name, looked up in its directory. A component that is not there is no error, so that it can be made.
unfoldable pub step_name : Resolver → Fs → Bool → ℕ → List ℕ → Bool → Outcome Step
step_name next g follow dir c last = do
  (err, d) ← find_entry_in_dir g dir c
  elim d [
    | none ↦ ok (ends err (elim err [ success ↦ not_there dir | _ ↦ no_path ]))
    | some p ↦
        if last
        then step_last next g follow dir p
        else if p.entry.ftype == 2
        then ok (goes p.entry.first_block dir)
        else ok (ends notdir (not_there dir))
  ]

unfoldable pub step : Resolver → Fs → Bool → (dir parent : ℕ) → List ℕ → Bool → Outcome Step
unfolding step_up step_name step_last
step next g follow dir parent c last =
    if str_eq c dot
    then ok (goes dir parent)
    else if str_eq c dotdot
    then (if dir == 1 then ok (goes dir parent) else step_up g dir)
    else step_name next g follow dir c last

abbrev pub is_nil {ℓ} : {A : Type ℓ} → List A → Bool
is_nil [] = true
is_nil (x ∷ xs) = false

-- while (component != NULL); a path that ends in `.` or `..` is the directory reached.
unfoldable pub walk :
    Resolver → Fs → ℕ → Bool → (dir parent : ℕ) → List (List ℕ) → Outcome (PennFatErr × Resolved)
walk next g now follow dir parent [] =
    ok (success, resolved_dir (dir == 1) dir parent (new_entry dot 2 def_perm dir now))
walk next g now follow dir parent (c ∷ cs) = do
  s ← step next g follow dir parent c (is_nil cs)
  elim s [ ends err r ↦ ok (err, r) | goes dir' parent' ↦ walk next g now follow dir' parent' cs ]

abbrev pub root_dir : ℕ → Resolved
root_dir now = resolved_dir true 1 1 (new_entry slash 2 def_perm 1 now)

-- The empty path.
abbrev pub cwd_dir : (now cwd : ℕ) → Resolved
cwd_dir now cwd =
    if cwd == 1 then root_dir now else resolved_dir false cwd cwd (new_entry dot 2 def_perm cwd 0)

unfoldable pub resolve_from :
    Resolver → Fs → (now cwd : ℕ) → Bool → List ℕ → Outcome (PennFatErr × Resolved)
resolve_from next g now cwd follow [] = ok (success, cwd_dir now cwd)
resolve_from next g now cwd follow (c ∷ cs) =
    if c == b'/'
    then (if is_nil cs
        then ok (success, root_dir now)
        else walk next g now follow 1 1 (components cs))
    else walk next g now follow cwd cwd (components (c ∷ cs))

-- The first argument is 9 - symlink_depth: past depth 8 there is an error.
unfoldable pub resolve_path_internal :
    ℕ → Fs → (now cwd : ℕ) → Bool → List ℕ → Outcome (PennFatErr × Resolved)
resolve_path_internal zero g now cwd follow path = ok (range, no_path)
resolve_path_internal (suc d) g now cwd follow path =
    resolve_from (λ target. resolve_path_internal d g now cwd follow target) g now cwd follow path

unfoldable pub resolve_path : Fs → (now cwd : ℕ) → List ℕ → Outcome (PennFatErr × Resolved)
resolve_path g now cwd path =
    if str_eq path slash
    then ok (success, record no_path { found = true; is_root = true; entry_block = 1 })
    else resolve_path_internal 9 g now cwd true path

unfoldable pub resolve_path_no_follow :
    Fs → (now cwd : ℕ) → List ℕ → Outcome (PennFatErr × Resolved)
resolve_path_no_follow g now cwd path = resolve_path_internal 9 g now cwd false path
