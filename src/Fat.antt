-- ===== src/Fat.antt =====
-- The mounted image of src/internal/pennfat_kernel.c: its globals, block input and output, and the
-- FAT helpers. A block number is a uint16_t. g_fat maps the image from its beginning, shared, so the blocks
-- below fat_block_count are the FAT itself: they are kept as the entries `fat`, and the other ones as the
-- bytes `blocks`. A read fails or is short where `blocks b` is `none`, and `writable b` says whether write(2)
-- and fdatasync(2) succeed at block `b`.
pub mod Region
pub mod Chain
pub mod Free
pub mod Alloc
pub mod Locate
use pennosgrp.Prelude.{
  ℕ, zero, suc, ◌+◌, ◌-◌, ◌*◌, ◌/◌, ◌%◌, ◌^◌, Bool, true, false, not, ◌&&◌, ◌||◌, Option, none,
  some, List, [], ◌∷◌, ◌++◌, take, drop, leb, ltb, ◌==◌, if◌then◌else◌, Outcome, ok, panic, fault,
  out_of_fuel,
}
use pennosgrp.Bytes.{le_bytes, from_le}

abbrev pub fat_free : ℕ
fat_free = 0

abbrev pub fat_eoc : ℕ
fat_eoc = 0xFFFF

pub record Fs : Type 0 where
  pub fs_open : Bool
  pub block_size : ℕ
  pub fat : ℕ → ℕ
  pub fat_block_count : ℕ
  pub data_start_block : ℕ
  pub blocks : ℕ → Option (List ℕ)
  pub writable : ℕ → Bool

abbrev pub update {ℓ} : {A : Type ℓ} → (ℕ → A) → ℕ → A → ℕ → A
update f i v j = if j == i then v else f j

-- g_fat[i] = v
abbrev pub set_fat : Fs → ℕ → ℕ → Fs
set_fat g i v = record g { fat = update g.fat i v }

-- Whether a block is part of the mapped FAT.
abbrev pub in_fat : Fs → ℕ → Bool
in_fat g b = ltb b g.fat_block_count

-- The bytes of n entries of the FAT from entry i on.
unfoldable pub fat_bytes : (ℕ → ℕ) → (n i : ℕ) → List ℕ
fat_bytes fat zero i = []
fat_bytes fat (suc n) i = le_bytes 2 (fat i) ++ fat_bytes fat n (i + 1)

-- The FAT after bytes came in the place of n entries from entry i on.
unfoldable pub overwritten : (ℕ → ℕ) → (n i : ℕ) → List ℕ → ℕ → ℕ
overwritten fat n i bytes j =
    if leb i j && ltb j (i + n) then from_le (take 2 (drop (2 * (j - i)) bytes)) else fat j

abbrev pub entries_in_block : Fs → ℕ
entries_in_block g = g.block_size / 2

-- -1 is `none`.
unfoldable pub read_block : Fs → ℕ → Option (List ℕ)
read_block g b =
    if g.fs_open
    then (if in_fat g b
        then (elim (g.blocks b) [
          | none ↦ none
          | some bytes ↦ some (fat_bytes g.fat (entries_in_block g) (entries_in_block g * b))
        ])
        else g.blocks b)
    else none

unfoldable pub write_block : Fs → ℕ → List ℕ → Option Fs
write_block g b bytes =
    if g.fs_open && g.writable b
    then some (
        if in_fat g b
        then record g {
          fat = overwritten g.fat (entries_in_block g) (entries_in_block g * b) bytes;
        }
        else record g { blocks = update g.blocks b (some bytes) })
    else none

-- for (i = 0; i < block_count; i++) { if (current == FAT_EOC) return -1; current = g_fat[current]; }
pub walk_chain : (ℕ → ℕ) → ℕ → ℕ → Option ℕ
walk_chain fat zero current = some current
walk_chain fat (suc k) current =
    let rest = walk_chain fat k (fat current) in if current == fat_eoc then none else rest

pub locate_block_in_chain : Fs → ℕ → ℕ → Option (ℕ × ℕ)
locate_block_in_chain g start offset =
    if start == fat_free || start == fat_eoc
    then none
    else elim (walk_chain g.fat (offset / g.block_size) start) [
      | none ↦ none
      | some current ↦ some (current, offset % g.block_size)
    ]

abbrev pub total_entries : Fs → ℕ
total_entries g = (g.fat_block_count * g.block_size) % 2 ^ 32 / 2

-- for (i = ...; i < total_entries; i++) if (g_fat[i] == FAT_FREE) return i;
unfoldable pub find_free : (ℕ → ℕ) → ℕ → ℕ → Option ℕ
find_free fat zero i = none
find_free fat (suc k) i =
    let rest = find_free fat k (i + 1) in if fat i == fat_free then some i else rest

-- The scan marks the block that it finds as the end of a chain.
unfoldable pub allocate_free_block : Fs → Option (ℕ × Fs)
allocate_free_block g =
    elim (find_free g.fat (total_entries g - g.data_start_block) g.data_start_block) [
      | none ↦ none
      | some i ↦ some (i, set_fat g i fat_eoc)
    ]

-- while (current != FAT_EOC && current != FAT_FREE) { next = g_fat[current]; g_fat[current] = FAT_FREE; ... }
unfoldable pub free_loop : ℕ → (ℕ → ℕ) → ℕ → Outcome (ℕ → ℕ)
free_loop zero fat current = out_of_fuel
free_loop (suc f) fat current =
    let rest = free_loop f (update fat current fat_free) (fat current) in
    if current == fat_eoc || current == fat_free then ok fat else rest

-- Each round frees an entry of the 65536 there are, so the rounds suffice for every FAT.
unfoldable pub free_block_chain : Fs → ℕ → Outcome Fs
free_block_chain g start = elim (free_loop 65538 g.fat start) [
  | ok fat ↦ ok (record g { fat = fat })
  | panic ↦ panic
  | fault ↦ fault
  | out_of_fuel ↦ out_of_fuel
]

-- while (g_fat[last] != FAT_EOC) last = g_fat[last];
unfoldable pub find_last : ℕ → (ℕ → ℕ) → ℕ → Outcome ℕ
find_last zero fat last = out_of_fuel
find_last (suc f) fat last =
    let rest = find_last f fat (fat last) in if fat last == fat_eoc then ok last else rest
