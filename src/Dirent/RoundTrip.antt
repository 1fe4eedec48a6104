-- ===== src/Dirent/RoundTrip.antt =====
-- write_dirent followed by read_dirent (src/internal/pennfat_kernel.c).
use pennosgrp.Prelude.{
  ℕ, ◌+◌, ◌-◌, ◌*◌, ◌/◌, ◌<◌, ◌≤◌, ◌≡◌, refl, ap, ◌∙◌, some, List, false, arith, length, get_or,
  take, drop, length-take, length-drop, get_or-take, get_or-drop, ◌==◌, if◌then◌else◌, pos,
  Bool-cases, inl, inr,
}
use pennosgrp.Bytes.{splice, length-splice, get_or-splice, list_ext}
use pennosgrp.Fat.{Fs, in_fat, read_block, write_block}
use pennosgrp.Dirent.{DirEntry, success, encode, decode, entry_at, read_dirent, write_dirent}
use pennosgrp.Dirent.Codec.{IsEntry, length-encode, decode-encode}

-- The 64 bytes of a block that a splice at entry `i` leaves at entry `j`.
window_splice :
    (bytes block : List ℕ) (i j : ℕ)
    → length bytes ≡ 64
    → 64 * i + 64 ≤ length block
    → 64 * j + 64 ≤ length block
    → take 64 (drop (64 * j) (splice (64 * i) bytes block))
      ≡ (if i == j then bytes else take 64 (drop (64 * j) block))
window_splice bytes block i j len hi hj = elim (Bool-cases (i == j)) [
  | inl same ↦ rw same (
      list_ext window bytes (omega (arith, length_window))
        λ k h. ground (arith, byte k, same, length_window))
  | inr other ↦ rw other (
      list_ext window (take 64 (drop (64 * j) block))
        (omega
          (arith, length_window, length-take 64 (drop (64 * j) block), length-drop (64 * j) block))
        λ k h. ground (
          arith,
          byte k,
          other,
          length_window,
          get_or-take 64 (drop (64 * j) block) k 0,
          get_or-drop (64 * j) block k 0,
        ))
]
  where
    window : List ℕ
    window = take 64 (drop (64 * j) (splice (64 * i) bytes block))

    length_window : length window ≡ 64
    length_window = omega (
      arith,
      length-take 64 (drop (64 * j) (splice (64 * i) bytes block)),
      length-drop (64 * j) (splice (64 * i) bytes block),
      length-splice (64 * i) bytes block,
    )

    byte :
        (k : ℕ)
        → k < 64
        → get_or window k 0 ≡ (if i == j then get_or bytes k 0 else get_or block (64 * j + k) 0)
    byte k h = ground (
      arith,
      get_or-take 64 (drop (64 * j) (splice (64 * i) bytes block)) k 0,
      get_or-drop (64 * j) (splice (64 * i) bytes block) k 0,
      get_or-splice (64 * i) bytes block (64 * j + k),
      same_byte,
    )
      where
        same_byte : i ≡ j → get_or bytes (64 * j + k - 64 * i) 0 ≡ get_or bytes k 0
        same_byte e = ap (λ n. get_or bytes n 0) (omega arith)

-- The entry written is read back, and the other entries of the block are unchanged.
pub entry_at-splice :
    (e : DirEntry) (block : List ℕ) (i j : ℕ)
    → IsEntry e
    → 64 * i + 64 ≤ length block
    → 64 * j + 64 ≤ length block
    → entry_at (splice (64 * i) (encode e) block) j ≡ (if i == j then e else entry_at block j)
unfolding entry_at
entry_at-splice e block i j is hi hj =
    ap decode (window_splice (encode e) block i j (length-encode e is) hi hj) ∙ by_case
  where
    by_case :
        decode (if i == j then encode e else take 64 (drop (64 * j) block))
        ≡ (if i == j then e else decode (take 64 (drop (64 * j) block)))
    by_case = elim (Bool-cases (i == j)) [
      | inl same ↦ rw same (decode-encode e is)
      | inr other ↦ rw other refl
    ]

-- After write_dirent has succeeded at one entry of a block beside the FAT, read_dirent gives that entry
-- back, and every other entry of the block as it was before.
pub write-read_dirent :
    (g g' : Fs) (block i j : ℕ) (bytes : List ℕ) (e : DirEntry)
    → IsEntry e
    → in_fat g block ≡ false
    → read_block g block ≡ some bytes
    → length bytes ≡ g.block_size
    → j < g.block_size / 64
    → write_dirent g block (pos i) e ≡ (success, g')
    → read_dirent g' block (pos j) ≡ (success, some (if i == j then e else entry_at bytes j))
unfolding write_dirent read_dirent read_block write_block
write-read_dirent g g' block i j bytes e is out reads len small runs =
    ground (arith, out, entry_at-splice e bytes i j is)
