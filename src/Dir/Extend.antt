-- ===== src/Dir/Extend.antt =====
-- A directory that gets a new block (src/internal/pennfat_kernel.c).
use pennosgrp.Prelude.{
  ℕ, zero, suc, ◌+◌, ◌-◌, ◌*◌, ◌<◌, ◌≤◌, ◌≡◌, refl, ap, sym, ◌∙◌, true, false, ◌&&◌, none, some,
  List, [], ◌∷◌, arith, length, replicate, length-replicate, ltb, ◌==◌, if◌then◌else◌, Bool-cases,
  inl, inr, ok, ◌>>=◌,
}
use pennosgrp.Bytes.{splice}
use pennosgrp.Fat.{
  Fs, fat_eoc, fat_free, update, set_fat, in_fat, read_block, write_block, total_entries,
  allocate_free_block, find_last,
}
use pennosgrp.Fat.Chain.{has, Links}
use pennosgrp.Fat.Region.{beside_fat}
use pennosgrp.Fat.Alloc.{FirstFree, allocate_free_block_lem, allocate-Links}
use pennosgrp.Dirent.{DirEntry, success, io_error, encode, entry_at}
use pennosgrp.Dirent.Codec.{IsEntry}
use pennosgrp.Dirent.RoundTrip.{entry_at-splice}
use pennosgrp.Dir.{
  str_eq, entry_name, mark, missing, hit, entries_per_block, find_loop, put_entry, extend_dir,
}
use pennosgrp.Dir.Block.{find_step_hit}
use pennosgrp.Dir.Walks.{at_end, find_loop_next, find_loop_hit, passed, missing-Passed}

abbrev pub last_of : ℕ → List ℕ → ℕ
last_of x [] = x
last_of x (y ∷ ys) = last_of y ys

pub last_of-has : (y : ℕ) (ys : List ℕ) → has (last_of y ys) (y ∷ ys) ≡ true
last_of-has y [] = ground arith
last_of-has y (z ∷ zs) = ground (arith, last_of-has z zs)

-- A block that is not in the chain is not its last one, and the first block is the last only if alone.
pub has-apart : (b c : ℕ) (xs : List ℕ) → has b xs ≡ false → has c xs ≡ true → (c == b) ≡ false
has-apart b c [] out h = absurd (ground (arith, h))
has-apart b c (x ∷ xs) out h = elim (Bool-cases (c == x)) [
  | inl here ↦ ground (arith, out, here)
  | inr there ↦ has-apart b c xs (ground (arith, out)) (ground (arith, h, there))
]

-- The loop to the end of a chain finds its last block.
pub find_last_lem :
    (f : ℕ) (fat : ℕ → ℕ) (cur x : ℕ) (xs : List ℕ)
    → Links fat cur (x ∷ xs)
    → length xs < f
    → find_last f fat cur ≡ ok (last_of x xs)
unfolding find_last
find_last_lem zero fat cur x xs links lt = absurd (omega arith)
find_last_lem (suc f) fat cur x [] (e, _, _, _, end) lt = ground arith
find_last_lem (suc f) fat cur x (y ∷ ys) (e, _, _, _, (e', ne, nf, fresh, rest)) lt =
    let going : (fat cur == fat_eoc) ≡ false = ground arith in
    let there : fat cur ≡ fat x = ap fat e in
    rw going (find_last_lem f fat (fat cur) y ys (there ∙ e', ne, nf, fresh, rest) (omega arith))

abbrev pub first_block : Fs → DirEntry → List ℕ
first_block g e = splice (64 * 0) (encode e) (replicate g.block_size 0)

-- The image with the new block, linked behind the last one, and the entry in it.
abbrev pub extended : Fs → (b last : ℕ) → DirEntry → Fs
extended g b last e = record g {
  fat = update (update g.fat b fat_eoc) last b;
  blocks = update (update g.blocks b (some (replicate g.block_size 0))) b (some (first_block g e));
}

module _ (g : Fs) (b last : ℕ) (e : DirEntry) (is : IsEntry e) (live : ltb 2 (mark e) ≡ true)
    (opened : g.fs_open ≡ true) (room : 64 ≤ g.block_size) (one : g.fat_block_count ≤ 1)
    (going_b : at_end b ≡ false) where
  abbrev after : Fs
  after = extended g b last e

  read_new : read_block after b ≡ some (first_block g e)
  unfolding read_block
  read_new = ground (arith, opened, beside_fat g b one (ground (arith, going_b)))

  read_old : (c : ℕ) → at_end c ≡ false → (c == b) ≡ false → read_block after c ≡ read_block g c
  unfolding read_block
  read_old c going ne = ground (arith, opened, ne, beside_fat g c one (ground (arith, going)))

  first_entry : entry_at (first_block g e) 0 ≡ e
  first_entry =
      entry_at-splice e (replicate g.block_size 0) 0 0 is
        (omega (arith, length-replicate g.block_size (the_zero)))
        (omega (arith, length-replicate g.block_size (the_zero)))
      ∙ refl
    where
      the_zero : ℕ
      the_zero = 0

  new_hit :
      (f : ℕ) (name : List ℕ)
      → str_eq (entry_name e) name ≡ true
      → find_loop (suc f) after b name ≡ ok (hit (record { block = b; index = 0; entry = e }))
  new_hit f name named = find_loop_hit f after b (first_block g e) going_b read_new name 0 e (
      let some_entry : entries_per_block g ≡ suc (entries_per_block g - 1) = omega arith in
      rw some_entry (
        find_step_hit (entries_per_block g - 1) 0 (first_block g e) name
          (ap (λ x. ltb 2 (mark x)) first_entry ∙ live)
          (ap (λ x. str_eq (entry_name x) name) first_entry ∙ named)
        ∙ ap (λ x. some (0, x)) first_entry))

  pub find_loop_extended :
      (f cur x : ℕ) (xs name : List ℕ)
      → str_eq (entry_name e) name ≡ true
      → Links g.fat cur (x ∷ xs)
      → has b (x ∷ xs) ≡ false
      → last ≡ last_of x xs
      → length xs + 1 < f
      → find_loop f g cur name ≡ ok missing
      → find_loop f after cur name ≡ ok (hit (record { block = b; index = 0; entry = e }))
  find_loop_extended zero cur x xs name named links new ends lt gone = absurd (omega arith)
  find_loop_extended (suc zero) cur x xs name named links new ends lt gone = absurd (omega arith)
  find_loop_extended (suc (suc f)) cur x [] name named (same, ne, nf, _, end) new ends lt gone =
      let going : at_end cur ≡ false = ground arith in
      let old : (cur == b) ≡ false = ground arith in
      let next : after.fat cur ≡ b = ground arith in
      elim (missing-Passed (suc f) g cur name going gone) [
        | passed block reads none_here ↦
            find_loop_next (suc f) after cur block going (read_old cur going old ∙ reads) name
              none_here
            ∙ ap (λ c. find_loop (suc f) after c name) next
            ∙ new_hit f name named
      ]
  find_loop_extended (suc (suc f)) cur x (y ∷ ys) name named (same, ne, nf, fresh, rest) new ends lt
        gone =
      let going : at_end cur ≡ false = ground arith in
      let old : (cur == b) ≡ false = ground arith in
      let not_last : (cur == last) ≡ false = middle same fresh ends in
      let next : after.fat cur ≡ g.fat cur = ground arith in
      elim (missing-Passed (suc f) g cur name going gone) [
        | passed block reads none_here ↦
            find_loop_next (suc f) after cur block going (read_old cur going old ∙ reads) name
              none_here
            ∙ ap (λ c. find_loop (suc f) after c name) (next ∙ ap g.fat same)
            ∙ find_loop_extended (suc f) (g.fat x) y ys name named rest (ground (arith, new)) ends
                (omega arith)
                (ap (λ c. find_loop (suc f) g (g.fat c) name) (sym same)
                  ∙ sym (find_loop_next (suc f) g cur block going reads name none_here)
                  ∙ gone)
      ]
    where
      middle : cur ≡ x → has x (y ∷ ys) ≡ false → last ≡ last_of y ys → (cur == last) ≡ false
      middle same fresh ends =
          let apart : (last_of y ys == x) ≡ false =
            has-apart x (last_of y ys) (y ∷ ys) fresh (last_of-has y ys) in
          ground (arith, apart, same, ends)

-- The FAT of one block that a mount leaves: the data region lies between the reserved entries.
pub record HasFat (g : Fs) : Type 0 where
  pub one : g.fat_block_count ≤ 1
  pub start : 0 < g.data_start_block
  pub room : g.data_start_block ≤ total_entries g
  pub small : total_entries g ≤ fat_eoc

pub no_block :
    (g g' : Fs) (dir : ℕ) (e : DirEntry)
    → allocate_free_block g ≡ none
    → extend_dir g dir e ≡ ok (success, g')
    → ⊥
unfolding extend_dir
no_block g g' dir e full runs = ground (arith, runs, full)

extend_step :
    (g : Fs) (b last dir : ℕ) (e : DirEntry)
    → in_fat g b ≡ false
    → allocate_free_block g ≡ some (b, set_fat g b fat_eoc)
    → find_last 65536 (set_fat g b fat_eoc).fat dir ≡ ok last
    → extend_dir g dir e ≡ (
        if g.fs_open && g.writable b
        then ok (success, extended g b last e)
        else ok (
          io_error,
          set_fat (set_fat (set_fat (set_fat g b fat_eoc) last b) last fat_eoc) b fat_free,
        ))
unfolding extend_dir put_entry read_block write_block
extend_step g b last dir e out allocates finds =
    rw (allocates, extend_dir)
      (rw (finds, ◌>>=◌)
        (elim (Bool-cases (g.fs_open && g.writable b)) [
          | inl able ↦ rw able (ap ok (ground (arith, able, out)))
          | inr bad ↦ rw bad refl
        ]))

pub extend_runs :
    (g g' : Fs) (b last dir : ℕ) (e : DirEntry)
    → in_fat g b ≡ false
    → allocate_free_block g ≡ some (b, set_fat g b fat_eoc)
    → find_last 65536 (set_fat g b fat_eoc).fat dir ≡ ok last
    → extend_dir g dir e ≡ ok (success, g')
    → (g.fs_open ≡ true) × (g' ≡ extended g b last e)
extend_runs g g' b last dir e out allocates finds runs = (
  ground (arith, runs, extend_step g b last dir e out allocates finds),
  ground (arith, runs, extend_step g b last dir e out allocates finds),
)

-- When extend_dir succeeds, the name of the new entry is found in the new block.
pub extend_dir_lem :
    (g g' : Fs) (dir : ℕ) (xs : List ℕ) (e : DirEntry) (name : List ℕ)
    → IsEntry e
    → ltb 2 (mark e) ≡ true
    → str_eq (entry_name e) name ≡ true
    → HasFat g
    → 64 ≤ g.block_size
    → Links g.fat dir (dir ∷ xs)
    → length xs < 65535
    → find_loop 65537 g dir name ≡ ok missing
    → extend_dir g dir e ≡ ok (success, g')
    → (b : ℕ) × (find_loop 65537 g' dir name
        ≡ ok (hit (record { block = b; index = 0; entry = e })))
extend_dir_lem g g' dir xs e name is live named fat room links short gone runs =
    elim (allocate_free_block_lem g fat.room) [
      | inl (full, _) ↦ absurd (no_block g g' dir e full runs)
      | inr (b, allocates, first) ↦
          let (_, chains) =
            allocate-Links g (set_fat g b fat_eoc) b fat.start fat.small fat.room allocates in
          let (new, links1) = chains dir (dir ∷ xs) links in
          let finds : find_last 65536 (set_fat g b fat_eoc).fat dir ≡ ok (last_of dir xs) =
            find_last_lem 65536 (set_fat g b fat_eoc).fat dir dir xs links1 (omega arith) in
          let (opened, image) =
            extend_runs g g' b (last_of dir xs) dir e
              (beside_fat g b fat.one (ground (arith, first.low, fat.start))) allocates finds
              runs in
          (
            b,
            ap (λ h. find_loop 65537 h dir name) image
                ∙ find_loop_extended g b (last_of dir xs) e is live opened room fat.one
                    (ends b first fat.start fat.small) 65537 dir dir xs name named links new refl
                    (omega arith) gone,
          )
    ]
  where
    ends :
        (b : ℕ)
        → FirstFree g.fat g.data_start_block (total_entries g) b
        → 0 < g.data_start_block
        → total_entries g ≤ fat_eoc
        → at_end b ≡ false
    ends b first start small = ground (arith, first.low, first.high)
