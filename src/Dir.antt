-- ===== src/Dir.antt =====
-- Directories of src/internal/pennfat_kernel.c: find_entry_in_dir and add_dirent_to_dir. A directory is a
-- chain of blocks of entries. A C string is the list of its bytes, without the 0 at its end. malloc is
-- taken to succeed.
pub mod Block
pub mod Add
pub mod Walks
pub mod Extend
pub mod Lookup
pub mod Frame
pub mod Chains
use pennosgrp.Prelude.{
  ℕ, zero, suc, ◌+◌, ◌-◌, ◌*◌, ◌/◌, Bool, true, false, not, ◌&&◌, ◌||◌, Option, none, some, List,
  [], ◌∷◌, ◌++◌, length, get_or, replicate, ltb, ◌==◌, if◌then◌else◌, Outcome, ok, panic, fault,
  out_of_fuel, ◌>>=◌,
}
use pennosgrp.Bytes.{splice}
use pennosgrp.Fat.{
  Fs, fat_free, fat_eoc, set_fat, read_block, write_block, allocate_free_block, find_last,
}
use pennosgrp.Dirent.{
  DirEntry, PennFatErr, success, invad, nospace, io_error, entry_size, encode, entry_at,
}

-- The string that begins at the first of these bytes.
abbrev pub c_str : List ℕ → List ℕ
c_str [] = []
c_str (c ∷ cs) = if c == 0 then [] else c ∷ c_str cs

-- strcmp(a, b) == 0
abbrev pub str_eq : List ℕ → List ℕ → Bool
str_eq [] [] = true
str_eq [] (b ∷ bs) = false
str_eq (a ∷ as') [] = false
str_eq (a ∷ as') (b ∷ bs) = a == b && str_eq as' bs

-- The string at an entry's name, which ends at the latest where a byte of the entry is 0.
unfoldable pub entry_name : DirEntry → List ℕ
entry_name e = c_str (encode e)

abbrev pub mark : DirEntry → ℕ
mark e = get_or e.name 0 0

abbrev pub entries_per_block : Fs → ℕ
entries_per_block g = g.block_size / entry_size

-- What a search of a directory comes to: a block could not be read, there is none, or there is one.
pub data Search {ℓ} (A : Type ℓ) : Type ℓ where
  failed missing : Search A
  hit : A → Search A

-- A place in a directory: a block, and an index in it.
pub record Place : Type 0 where
  pub block : ℕ
  pub index : ℕ
  pub entry : DirEntry

-- The entry of that name in a block, among n entries from index i on. Mark 0 ends the directory, and
-- marks 1 and 2 are deleted entries.
unfoldable pub find_in_block : ℕ → ℕ → List ℕ → List ℕ → Option (ℕ × DirEntry)
find_in_block zero i block name = none
find_in_block (suc n) i block name =
    let e = entry_at block i in
    let rest = find_in_block n (i + 1) block name in
    if mark e == 0
    then none
    else if mark e == 1 || mark e == 2
    then rest
    else if str_eq (entry_name e) name
    then some (i, e)
    else rest

-- while (current_block != FAT_EOC && current_block != FAT_FREE)
unfoldable pub find_loop : ℕ → Fs → ℕ → List ℕ → Outcome (Search Place)
find_loop zero g current name = out_of_fuel
find_loop (suc f) g current name =
    if current == fat_eoc || current == fat_free then ok missing else elim (read_block g current) [
      | none ↦ ok failed
      | some block ↦ elim (find_in_block (entries_per_block g) 0 block name) [
        | some (i, e) ↦ ok (hit (record { block = current; index = i; entry = e }))
        | none ↦ find_loop f g (g.fat current) name
      ]
    ]

-- A chain of 16-bit block numbers has at most 65536 blocks.
abbrev pub chain_fuel : ℕ
chain_fuel = 65537

-- What find_entry_in_dir reports of a search.
abbrev pub report : Search Place → PennFatErr × Option Place
report failed = (io_error, none)
report missing = (success, none)
report (hit p) = (success, some p)

unfoldable pub find_entry_in_dir : Fs → ℕ → List ℕ → Outcome (PennFatErr × Option Place)
find_entry_in_dir g dir name =
    if dir == fat_free || dir == fat_eoc
    then ok (invad, none)
    else do s ← find_loop chain_fuel g dir name; ok (report s)

-- The first index from i on whose entry is the end mark or deleted.
unfoldable pub free_slot : ℕ → ℕ → List ℕ → Option ℕ
free_slot zero i block = none
free_slot (suc n) i block =
    let rest = free_slot n (i + 1) block in if ltb (mark (entry_at block i)) 2 then some i else rest

unfoldable pub slot_loop : ℕ → Fs → ℕ → Outcome (Search (ℕ × ℕ))
slot_loop zero g current = out_of_fuel
slot_loop (suc f) g current =
    if current == fat_eoc || current == fat_free then ok missing else elim (read_block g current) [
      | none ↦ ok failed
      | some block ↦ elim (free_slot (entries_per_block g) 0 block) [
        | some i ↦ ok (hit (current, i))
        | none ↦ slot_loop f g (g.fat current)
      ]
    ]

-- The end of add_dirent_to_dir: the entry goes to its place.
unfoldable pub put_entry : Fs → ℕ → ℕ → DirEntry → PennFatErr × Fs
put_entry g b i e = elim (read_block g b) [
  | none ↦ (io_error, g)
  | some bytes ↦ elim (write_block g b (splice (entry_size * i) (encode e) bytes)) [
    | none ↦ (io_error, g)
    | some g' ↦ (success, g')
  ]
]

-- A directory without a free slot gets a new block at its end, cleared.
unfoldable pub extend_dir : Fs → ℕ → DirEntry → Outcome (PennFatErr × Fs)
extend_dir g dir e = elim (allocate_free_block g) [
  | none ↦ ok (nospace, g)
  | some (b, g1) ↦ do
    last ← find_last 65536 g1.fat dir
    let g2 = set_fat g1 last b
    elim (write_block g2 b (replicate g.block_size 0)) [
      | none ↦ ok (io_error, set_fat (set_fat g2 last fat_eoc) b fat_free)
      | some g3 ↦ ok (put_entry g3 b 0 e)
    ]
]

unfoldable pub add_dirent_to_dir : Fs → ℕ → DirEntry → Outcome (PennFatErr × Fs)
add_dirent_to_dir g dir e = if dir == fat_free || dir == fat_eoc then ok (invad, g) else do
  s ← slot_loop chain_fuel g dir
  elim s [
    | failed ↦ ok (io_error, g)
    | hit (b, i) ↦ ok (put_entry g b i e)
    | missing ↦ extend_dir g dir e
  ]
