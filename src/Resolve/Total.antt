-- ===== src/Resolve/Total.antt =====
-- Path resolution ends (src/internal/pennfat_kernel.c).
use pennosgrp.Prelude.{
  ℕ, zero, suc, ◌<◌, ◌≡◌, refl, true, false, Bool, ◌&&◌, Option, none, some, List, [], ◌∷◌, length,
  ◌==◌, if◌then◌else◌, Bool-cases, inl, inr, ok, ◌>>=◌,
}
use pennosgrp.Fat.{Fs}
use pennosgrp.Dirent.{PennFatErr, success, invad, range, io_error, notdir}
use pennosgrp.Dir.{Place, str_eq, find_entry_in_dir, report, chain_fuel}
use pennosgrp.Dir.Walks.{at_end, Ends, find_loop_total}
use pennosgrp.Dir.Lookup.{find_entry_lem, find_entry_refused}
use pennosgrp.Resolve.{
  Resolved, Resolver, Step, goes, ends, step, step_up, step_last, step_name, walk, is_nil,
  components, read_symlink_target, resolve_from, resolve_path_internal, resolve_path, dot, dotdot,
  slash, no_path, resolve_path_no_follow, not_there, root_dir, cwd_dir, resolved_dir, new_entry,
  def_perm, resolved_place,
}

-- Every chain of the FAT ends.
pub record AllEnd (g : Fs) : Type 0 where
  pub chain : ℕ → List ℕ
  pub ends : (b : ℕ) → Ends g.fat b (chain b)
  pub short : (b : ℕ) → length (chain b) < chain_fuel

pub find_entry_total :
    (g : Fs) (dir : ℕ) (name : List ℕ)
    → AllEnd g
    → (r : PennFatErr × Option Place) × (find_entry_in_dir g dir name ≡ ok r)
find_entry_total g dir name all = elim (Bool-cases (at_end dir)) [
  | inl end ↦ ((invad, none), find_entry_refused g dir name end)
  | inr going ↦
      let (s, runs) =
        find_loop_total chain_fuel g dir name (all.chain dir) (all.ends dir) (all.short dir) in
      (report s, find_entry_lem g dir name s going runs)
]

-- Whatever a link leads to is resolved.
abbrev Answers : Resolver → Type 0
Answers next = (path : List ℕ) → (r : PennFatErr × Resolved) × (next path ≡ ok r)

step_last_total :
    (next : Resolver) (g : Fs) (follow : Bool) (dir : ℕ) (p : Place)
    → Answers next
    → (s : Step) × (step_last next g follow dir p ≡ ok s)
unfolding step_last
step_last_total next g follow dir p answers = elim (Bool-cases (follow && p.entry.ftype == 4)) [
  | inr plain ↦ (ends success (resolved_place dir p), rw plain refl)
  | inl link ↦ rw link (go (read_symlink_target g p.entry))
]
  where
    go :
        (o : Option (List ℕ))
        → (s : Step) × ((elim o [
          | none ↦ ok (ends io_error no_path)
          | some target ↦ (do (err, r) ← next target; ok (ends err r))
        ])
            ≡ ok s)
    go none = (ends io_error no_path, refl)
    go (some target) = let ((err, r), runs) = answers target in (ends err r, rw (runs, ◌>>=◌) refl)

step_up_total : (g : Fs) (dir : ℕ) → AllEnd g → (s : Step) × (step_up g dir ≡ ok s)
unfolding step_up
step_up_total g dir all =
    let ((err, d), runs) = find_entry_total g dir dotdot all in rw (runs, ◌>>=◌) (go err d)
  where
    go :
        (err : PennFatErr) (d : Option Place)
        → (s : Step) × ((elim d [
          | none ↦ ok (ends err no_path)
          | some p ↦ ok (goes p.entry.first_block dir)
        ])
            ≡ ok s)
    go err none = (ends err no_path, refl)
    go err (some p) = (goes p.entry.first_block dir, refl)

step_name_total :
    (next : Resolver) (g : Fs) (follow : Bool) (dir : ℕ) (c : List ℕ) (last : Bool)
    → AllEnd g
    → Answers next
    → (s : Step) × (step_name next g follow dir c last ≡ ok s)
unfolding step_name
step_name_total next g follow dir c last all answers =
    let ((err, d), runs) = find_entry_total g dir c all in rw (runs, ◌>>=◌) (go err d)
  where
    go :
        (err : PennFatErr) (d : Option Place)
        → (s : Step) × ((elim d [
          | none ↦ ok (ends err (elim err [ success ↦ not_there dir | _ ↦ no_path ]))
          | some p ↦
              if last
              then step_last next g follow dir p
              else if p.entry.ftype == 2
              then ok (goes p.entry.first_block dir)
              else ok (ends notdir (not_there dir))
        ])
            ≡ ok s)
    go err none = (ends err (elim err [ success ↦ not_there dir | _ ↦ no_path ]), refl)
    go err (some p) = elim (Bool-cases last) [
      | inl is_last ↦ rw is_last (step_last_total next g follow dir p answers)
      | inr more ↦ elim (Bool-cases (p.entry.ftype == 2)) [
        | inl is_dir ↦ (goes p.entry.first_block dir, rw (more, is_dir) refl)
        | inr other ↦ (ends notdir (not_there dir), rw (more, other) refl)
      ]
    ]

step_total :
    (next : Resolver) (g : Fs) (follow : Bool) (dir parent : ℕ) (c : List ℕ) (last : Bool)
    → AllEnd g
    → Answers next
    → (s : Step) × (step next g follow dir parent c last ≡ ok s)
unfolding step
step_total next g follow dir parent c last all answers = elim (Bool-cases (str_eq c dot)) [
  | inl here ↦ (goes dir parent, rw here refl)
  | inr not_dot ↦ elim (Bool-cases (str_eq c dotdot)) [
    | inr name ↦ rw (not_dot, name) (step_name_total next g follow dir c last all answers)
    | inl up ↦ elim (Bool-cases (dir == 1)) [
      | inl root ↦ (goes dir parent, rw (not_dot, up, root) refl)
      | inr other ↦ rw (not_dot, up, other) (step_up_total g dir all)
    ]
  ]
]

walk_total :
    (next : Resolver) (g : Fs) (now : ℕ) (follow : Bool) (dir parent : ℕ) (cs : List (List ℕ))
    → AllEnd g
    → Answers next
    → (r : PennFatErr × Resolved) × (walk next g now follow dir parent cs ≡ ok r)
unfolding walk
walk_total next g now follow dir parent [] all answers =
    ((success, resolved_dir (dir == 1) dir parent (new_entry dot 2 def_perm dir now)), refl)
walk_total next g now follow dir parent (c ∷ cs) all answers =
    let (s, runs) = step_total next g follow dir parent c (is_nil cs) all answers in
    rw (runs, ◌>>=◌)
      (go s (λ dir' parent'. walk_total next g now follow dir' parent' cs all answers))
  where
    go :
        (s : Step)
        → ((dir' parent' : ℕ)
            → (r : PennFatErr × Resolved) × (walk next g now follow dir' parent' cs ≡ ok r))
        → (r : PennFatErr × Resolved) × ((elim s [
          | ends err r ↦ ok (err, r)
          | goes dir' parent' ↦ walk next g now follow dir' parent' cs
        ])
            ≡ ok r)
    go (ends err r) on = ((err, r), refl)
    go (goes dir' parent') on = on dir' parent'

resolve_from_total :
    (next : Resolver) (g : Fs) (now cwd : ℕ) (follow : Bool) (path : List ℕ)
    → AllEnd g
    → Answers next
    → (r : PennFatErr × Resolved) × (resolve_from next g now cwd follow path ≡ ok r)
unfolding resolve_from
resolve_from_total next g now cwd follow [] all answers = ((success, cwd_dir now cwd), refl)
resolve_from_total next g now cwd follow (c ∷ cs) all answers = elim (Bool-cases (c == b'/')) [
  | inr relative ↦
      rw relative (walk_total next g now follow cwd cwd (components (c ∷ cs)) all answers)
  | inl from_root ↦ elim (Bool-cases (is_nil cs)) [
    | inl root ↦ ((success, root_dir now), rw (from_root, root) refl)
    | inr below ↦
        rw (from_root, below) (walk_total next g now follow 1 1 (components cs) all answers)
  ]
]

-- The walk itself, at any depth of symbolic links.
pub resolve_path_internal_total :
    (depth : ℕ) (g : Fs) (now cwd : ℕ) (follow : Bool) (path : List ℕ)
    → AllEnd g
    → (r : PennFatErr × Resolved) × (resolve_path_internal depth g now cwd follow path ≡ ok r)
unfolding resolve_path_internal
resolve_path_internal_total zero g now cwd follow path all = ((range, no_path), refl)
resolve_path_internal_total (suc d) g now cwd follow path all =
    resolve_from_total (λ target. resolve_path_internal d g now cwd follow target) g now cwd follow
      path all (λ target. resolve_path_internal_total d g now cwd follow target all)

-- On a file system whose chains all end, resolve_path and resolve_path_no_follow return for every path and
-- every current directory, symbolic links that lead to each other included.
pub resolve_path_total :
    (g : Fs) (now cwd : ℕ) (path : List ℕ)
    → AllEnd g
    → ((r : PennFatErr × Resolved) × (resolve_path g now cwd path ≡ ok r))
      × ((r : PennFatErr × Resolved) × (resolve_path_no_follow g now cwd path ≡ ok r))
unfolding resolve_path resolve_path_no_follow
resolve_path_total g now cwd path all = (
  elim (Bool-cases (str_eq path slash)) [
    | inl root ↦
        ((success, record no_path { found = true; is_root = true; entry_block = 1 }), rw root refl)
    | inr other ↦ rw other (resolve_path_internal_total 9 g now cwd true path all)
  ],
  resolve_path_internal_total 9 g now cwd false path all,
)
