-- ===== src/Cwd/Total.antt =====
-- k_getcwd ends, and stays within its buffer (src/internal/pennfat_kernel.c).
use pennosgrp.Prelude.{
  ℕ, zero, suc, ◌-◌, ◌<◌, ◌≤◌, ◌≡◌, refl, ap, ◌∙◌, true, false, Bool, ◌||◌, Option, none, some,
  List, [], ◌∷◌, ◌++◌, arith, length, take, length-take, leb, ltb, ◌==◌, if_false, Bool-cases,
  Option-cases, inl, inr, ok, ◌>>=◌,
}
use pennosgrp.Fat.{Fs, fat_free, fat_eoc, read_block}
use pennosgrp.Dirent.{PennFatErr, success, not_mounted, invad, exists, io_error, range}
use pennosgrp.Dir.{Search, failed, missing, hit, Place, entries_per_block, chain_fuel}
use pennosgrp.Dir.Walks.{at_end, Ends}
use pennosgrp.Resolve.{dotdot, slash, path_max}
use pennosgrp.Resolve.Total.{AllEnd, find_entry_total}
use pennosgrp.Cwd.{
  name_in_block, name_loop, find_dir_name_in_parent, name_of_dir, question, climb, fit, k_getcwd,
}

name_loop_total :
    (f : ℕ) (g : Fs) (cur target : ℕ) (xs : List ℕ)
    → Ends g.fat cur xs
    → length xs < f
    → (s : Search (List ℕ)) × (name_loop f g cur target ≡ ok s)
unfolding name_loop
name_loop_total zero g cur target xs ends lt = absurd (omega arith)
name_loop_total (suc f) g cur target [] ends lt = (missing, rw ends refl)
name_loop_total (suc f) g cur target (x ∷ xs) (same, going, ends) lt =
    let (s, runs) = name_loop_total f g (g.fat x) target xs ends (omega arith) in
    let here : at_end cur ≡ false = rw same going in
    elim (Option-cases (read_block g cur)) [
      | inl bad ↦ (failed, rw (here, bad) refl)
      | inr (block, reads) ↦
          elim (Option-cases (name_in_block (entries_per_block g) 0 block target)) [
            | inr (name, found) ↦ (hit name, rw (here, reads) (rw found refl))
            | inl gone ↦ (
              s,
              rw (here, reads) (rw gone (ap (λ b. name_loop f g (g.fat b) target) same ∙ runs)),
            )
          ]
    ]

find_dir_name_total :
    (g : Fs) (target parent size : ℕ)
    → AllEnd g
    → (r : PennFatErr × List ℕ) × (find_dir_name_in_parent g target parent size ≡ ok r)
unfolding find_dir_name_in_parent
find_dir_name_total g target parent size all =
    elim (Bool-cases
      (parent == fat_free || parent == fat_eoc || target == fat_free || target == fat_eoc)) [
        | inl bad ↦ ((invad, []), rw bad refl)
        | inr good ↦ elim (Bool-cases (target == 1)) [
          | inl root ↦ ((success, []), rw good (rw root refl))
          | inr below ↦
              let (s, runs) =
                name_loop_total chain_fuel g parent target (all.chain parent) (all.ends parent)
                  (all.short parent) in
              (
                elim s [
                  | failed ↦ (io_error, [])
                  | missing ↦ (exists, [])
                  | hit name ↦ (success, take (size - 1) name)
                ],
                rw good (rw below (rw (runs, ◌>>=◌) refl)),
              )
        ]
      ]

name_of_dir_total :
    (g : Fs) (dir : ℕ) → AllEnd g → (r : Option (ℕ × List ℕ)) × (name_of_dir g dir ≡ ok r)
unfolding name_of_dir
name_of_dir_total g dir all =
    let ((err, up), runs) = find_entry_total g dir dotdot all in rw (runs, ◌>>=◌) (go up)
  where
    go :
        (up : Option Place)
        → (r : Option (ℕ × List ℕ)) × ((elim up [
          | none ↦ ok none
          | some p ↦ do
            (err2, name) ← find_dir_name_in_parent g dir p.entry.first_block 32
            ok (elim err2 [ success ↦ some (p.entry.first_block, name) | _ ↦ none ])
        ])
            ≡ ok r)
    go none = (none, refl)
    go (some p) =
        let ((err2, name), named) = find_dir_name_total g dir p.entry.first_block 32 all in
        (
          elim err2 [ success ↦ some (p.entry.first_block, name) | _ ↦ none ],
          rw (named, ◌>>=◌) refl,
        )

-- How a climb ends.
data Climbed : PennFatErr × List ℕ → Type 0 where
  reached : (path : List ℕ) → Climbed (success, path)
  too_deep : Climbed (range, question)
  broken : Climbed (io_error, question)

climb_total :
    (n : ℕ) (g : Fs) (dir : ℕ) (path : List ℕ)
    → AllEnd g
    → (r : PennFatErr × List ℕ) × (climb n g dir path ≡ ok r) × Climbed r
unfolding climb
climb_total zero g dir path all = ((range, question), refl, too_deep)
climb_total (suc n) g dir path all = elim (Bool-cases (dir == 1)) [
  | inl root ↦ ((success, path), rw root refl, reached path)
  | inr below ↦
      let (up, runs) = name_of_dir_total g dir all in
      let on = λ (parent : ℕ) (name : List ℕ).
        climb_total n g parent (take (path_max - 1) (slash ++ (name ++ path))) all in
      rw below (rw (runs, ◌>>=◌) (go up on))
]
  where
    go :
        (up : Option (ℕ × List ℕ))
        → ((parent : ℕ) (name : List ℕ)
            → (r : PennFatErr × List ℕ) × (climb n g parent
                  (take (path_max - 1) (slash ++ (name ++ path)))
                ≡ ok r)
              × Climbed r)
        → (r : PennFatErr × List ℕ) × ((elim up [
          | none ↦ ok (io_error, question)
          | some (parent, name) ↦ climb n g parent (take (path_max - 1) (slash ++ (name ++ path)))
        ])
            ≡ ok r)
          × Climbed r
    go none on = ((io_error, question), refl, broken)
    go (some (parent, name)) on = on parent name

fit-length : (path : List ℕ) (size : ℕ) → 0 < size → length ((fit path size).1) < size
fit-length path size h = elim (Bool-cases (leb size (length path))) [
  | inl long ↦ rw long (ground (arith, long, length-take (size - 1) path))
  | inr fits ↦ rw fits (ground arith)
]

-- On a file system whose chains all end, k_getcwd returns for every current directory, directories that
-- lead around in a circle included, and the string that it leaves in a buffer of at least two bytes is
-- shorter than the buffer.
pub k_getcwd_lem :
    (mounted : Bool) (g : Fs) (cwd size : ℕ)
    → AllEnd g
    → 2 ≤ size
    → (err : PennFatErr) × (s : List ℕ) × (k_getcwd mounted g cwd size ≡ ok (err, s))
      × (length s < size)
unfolding k_getcwd
k_getcwd_lem false g cwd size all h = (not_mounted, [], refl, omega arith)
k_getcwd_lem true g cwd size all h = elim (Bool-cases (cwd == 1)) [
  | inl root ↦ (
    success,
    slash,
    if_false (size == 0) _ _ (ground arith)
        ∙ rw root (ap ok (if_false (ltb size 2) _ _ (ground arith))),
    omega arith,
  )
  | inr below ↦ let (r, runs, climbed) = climb_total 64 g cwd [] all in go r climbed runs below
]
  where
    getcwd_step :
        (r : PennFatErr × List ℕ)
        → climb 64 g cwd [] ≡ ok r
        → (cwd == 1) ≡ false
        → k_getcwd true g cwd size
          ≡ ok (elim (r.0) [ success ↦ fit (r.1) size | other ↦ (other, r.1) ])
    getcwd_step r runs below =
        if_false (size == 0) _ _ (ground arith)
        ∙ if_false (cwd == 1) _ _ below
        ∙ rw (runs, ◌>>=◌) refl

    go :
        (r : PennFatErr × List ℕ)
        → Climbed r
        → climb 64 g cwd [] ≡ ok r
        → (cwd == 1) ≡ false
        → (err : PennFatErr) × (s : List ℕ) × (k_getcwd true g cwd size ≡ ok (err, s))
          × (length s < size)
    go _ (reached path) runs below = (
      (fit path size).0,
      (fit path size).1,
      getcwd_step (success, path) runs below,
      fit-length path size (omega arith),
    )
    go _ too_deep runs below =
        (range, question, getcwd_step (range, question) runs below, omega arith)
    go _ broken runs below =
        (io_error, question, getcwd_step (io_error, question) runs below, omega arith)
