-- ===== src/Dir/Lookup.antt =====
-- find_entry_in_dir and add_dirent_to_dir as a whole (src/internal/pennfat_kernel.c).
use pennosgrp.Prelude.{
  ℕ, ◌<◌, ◌≤◌, ◌≡◌, refl, ap, sym, ◌∙◌, true, false, ◌||◌, Option, none, some, List, [], ◌∷◌, arith,
  length, ltb, ◌==◌, Outcome, ok, ◌>>=◌,
}
use pennosgrp.Fat.{Fs, fat_eoc, fat_free}
use pennosgrp.Fat.Chain.{Links}
use pennosgrp.Fat.Region.{beside_fat}
use pennosgrp.Dirent.{DirEntry, PennFatErr, success, invad, io_error}
use pennosgrp.Dirent.Codec.{IsEntry}
use pennosgrp.Dir.{
  str_eq, entry_name, mark, Search, failed, missing, hit, Place, find_loop, slot_loop, chain_fuel,
  report, find_entry_in_dir, put_entry, extend_dir, add_dirent_to_dir,
}
use pennosgrp.Dir.Walks.{at_end, Ends, find_loop_total}
use pennosgrp.Dir.Add.{HasBlocks, slot_loop-HasSlot, slot_loop_total, put_entry_lem, find_loop-put}
use pennosgrp.Dir.Extend.{HasFat, extend_dir_lem}

-- A directory of a mounted image: a chain of blocks that begins at `dir`.
pub record IsDir (g : Fs) (dir : ℕ) (xs : List ℕ) : Type 0 where
  pub blocks : HasBlocks g
  pub fat : HasFat g
  pub room : 64 ≤ g.block_size
  pub links : Links g.fat dir (dir ∷ xs)
  pub short : length xs < 65535

pub IsDir-going : (g : Fs) (dir : ℕ) (xs : List ℕ) → IsDir g dir xs → at_end dir ≡ false
IsDir-going g dir xs is = let (_, ne, nf, _, _) = is.links in ground arith

pub Links-Ends : (fat : ℕ → ℕ) (b : ℕ) (xs : List ℕ) → Links fat b xs → Ends fat b xs
Links-Ends fat b [] end = ground arith
Links-Ends fat b (x ∷ xs) (same, ne, nf, fresh, rest) =
    (same, ground arith, Links-Ends fat (fat x) xs rest)

-- find_entry_in_dir reports what the search of the chain comes to.
pub find_entry_lem :
    (g : Fs) (dir : ℕ) (name : List ℕ) (s : Search Place)
    → at_end dir ≡ false
    → find_loop chain_fuel g dir name ≡ ok s
    → find_entry_in_dir g dir name ≡ ok (report s)
unfolding find_entry_in_dir
find_entry_lem g dir name s going runs = rw (test going) (rw (runs, ◌>>=◌) refl)
  where
    test : at_end dir ≡ false → (dir == fat_free || dir == fat_eoc) ≡ false
    test h = ground arith

pub find_entry_missing :
    (g : Fs) (dir : ℕ) (xs name : List ℕ)
    → IsDir g dir xs
    → find_entry_in_dir g dir name ≡ ok (success, none)
    → find_loop chain_fuel g dir name ≡ ok missing
find_entry_missing g dir xs name is gone =
    let (s, runs) =
      find_loop_total chain_fuel g dir name (dir ∷ xs) (Links-Ends g.fat dir (dir ∷ xs) is.links)
        (omega (arith, is.short)) in
    go s runs (sym (find_entry_lem g dir name s (IsDir-going g dir xs is) runs) ∙ gone)
  where
    go :
        (s : Search Place)
        → find_loop chain_fuel g dir name ≡ ok s
        → ◌≡◌ {A = Outcome (PennFatErr × Option Place)} (ok (report s)) (ok (success, none))
        → find_loop chain_fuel g dir name ≡ ok missing
    go missing runs e = runs
    go failed runs e = absurd (ground (arith, e))
    go (hit p) runs e = absurd (ground (arith, e))

-- What add_dirent_to_dir does after its search of a slot.
abbrev pub added : Fs → ℕ → DirEntry → Search (ℕ × ℕ) → Outcome (PennFatErr × Fs)
added g dir e failed = ok (io_error, g)
added g dir e missing = extend_dir g dir e
added g dir e (hit (b, i)) = ok (put_entry g b i e)

pub add_step :
    (g : Fs) (dir : ℕ) (e : DirEntry) (s : Search (ℕ × ℕ))
    → at_end dir ≡ false
    → slot_loop chain_fuel g dir ≡ ok s
    → add_dirent_to_dir g dir e ≡ added g dir e s
unfolding add_dirent_to_dir
add_step g dir e s going runs = rw (test going) (rw (runs, ◌>>=◌) (by_case s))
  where
    test : at_end dir ≡ false → (dir == fat_free || dir == fat_eoc) ≡ false
    test h = ground arith

    by_case :
        (s : Search (ℕ × ℕ))
        → (elim s [
          | failed ↦ ok (io_error, g)
          | hit (b, i) ↦ ok (put_entry g b i e)
          | missing ↦ extend_dir g dir e
        ])
          ≡ added g dir e s
    by_case failed = refl
    by_case missing = refl
    by_case (hit (b, i)) = refl

-- After add_dirent_to_dir has succeeded in a directory that had no entry of that name, find_entry_in_dir
-- finds the entry that was added, in a slot that was free or in a new block. The directory is one of a
-- mounted image whose FAT has one block, the entry fits its 64 bytes, its name is the one that is looked
-- for and does not begin like a mark.
pub find-add_dirent_to_dir :
    (g g' : Fs) (dir : ℕ) (xs : List ℕ) (e : DirEntry) (name : List ℕ)
    → IsDir g dir xs
    → IsEntry e
    → ltb 2 (mark e) ≡ true
    → str_eq (entry_name e) name ≡ true
    → find_entry_in_dir g dir name ≡ ok (success, none)
    → add_dirent_to_dir g dir e ≡ ok (success, g')
    → (b : ℕ) × (i : ℕ) × (find_entry_in_dir g' dir name
        ≡ ok (success, some (record { block = b; index = i; entry = e })))
find-add_dirent_to_dir g g' dir xs e name is ok_e live named gone runs =
    let going = IsDir-going g dir xs is in
    let none_here = find_entry_missing g dir xs name is gone in
    let (s, slots) =
      slot_loop_total chain_fuel g dir (dir ∷ xs) (Links-Ends g.fat dir (dir ∷ xs) is.links)
        (omega (arith, is.short)) in
    go going none_here s slots (sym (add_step g dir e s going slots) ∙ runs)
  where
    go :
        at_end dir ≡ false
        → find_loop chain_fuel g dir name ≡ ok missing
        → (s : Search (ℕ × ℕ)) → slot_loop chain_fuel g dir ≡ ok s
        → added g dir e s ≡ ok (success, g')
        → (b : ℕ) × (i : ℕ) × (find_entry_in_dir g' dir name
            ≡ ok (success, some (record { block = b; index = i; entry = e })))
    go going none_here failed slots e1 = absurd (ground (arith, e1))
    go going none_here missing slots e1 =
        let (b, finds) =
          extend_dir_lem g g' dir xs e name ok_e live named is.fat is.room is.links is.short
            none_here e1 in
        (b, 0, find_entry_lem g' dir name _ going finds)
    go going none_here (hit (b, i)) slots e1 =
        let at_slot = slot_loop-HasSlot chain_fuel g dir b i slots in
        let put : put_entry g b i e ≡ (success, g') = ground (arith, e1) in
        let out = beside_fat g b is.fat.one (ground (arith, at_slot.going)) in
        let (opened, image) = put_entry_lem g g' b i at_slot.block e out at_slot.reads put in
        (
          b,
          i,
          find_entry_lem g' dir name (hit (record { block = b; index = i; entry = e })) going (
              ap (λ h. find_loop chain_fuel h dir name) image
              ∙ find_loop-put g b i e ok_e live opened is.fat.one is.blocks at_slot chain_fuel dir
                  name named slots none_here),
        )

pub find_entry_refused :
    (g : Fs) (dir : ℕ) (name : List ℕ)
    → at_end dir ≡ true
    → find_entry_in_dir g dir name ≡ ok (invad, none)
unfolding find_entry_in_dir
find_entry_refused g dir name e = rw (test e) refl
  where
    test : at_end dir ≡ true → (dir == fat_free || dir == fat_eoc) ≡ true
    test h = ground arith
