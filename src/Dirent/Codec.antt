-- ===== src/Dirent/Codec.antt =====
-- The byte layout of a directory entry.
use pennosgrp.Prelude.{ℕ, ◌^◌, ◌<◌, ◌≡◌, refl, sym, List, ◌∷◌, ◌++◌, arith, length, length-append}
use pennosgrp.Bytes.{
  le_bytes, take-append, take_all, drop-append, length-le_bytes, from_le-le_bytes,
}
use pennosgrp.Dirent.{DirEntry, entry_size, encode, decode}

-- The values fit the fields of the structure.
pub record IsEntry (e : DirEntry) : Type 0 where
  pub name : length e.name ≡ 32
  pub size : e.size < 2 ^ 32
  pub first_block : e.first_block < 2 ^ 16
  pub mtime : e.mtime < 2 ^ 64
  pub reserved : length e.reserved ≡ 16

pub length-encode : (e : DirEntry) → IsEntry e → length (encode e) ≡ entry_size
unfolding encode
length-encode e is = omega (
  arith,
  length-append e.name (
      le_bytes 4 e.size
      ++ (le_bytes 2 e.first_block ++ (e.ftype ∷ e.perm ∷ (le_bytes 8 e.mtime ++ e.reserved)))),
  length-append (le_bytes 4 e.size)
      (le_bytes 2 e.first_block ++ (e.ftype ∷ e.perm ∷ (le_bytes 8 e.mtime ++ e.reserved))),
  length-append (le_bytes 2 e.first_block) (e.ftype ∷ e.perm ∷ (le_bytes 8 e.mtime ++ e.reserved)),
  length-append (le_bytes 8 e.mtime) e.reserved,
  length-le_bytes 4 e.size,
  length-le_bytes 2 e.first_block,
  length-le_bytes 8 e.mtime,
  is.name,
  is.reserved,
)

-- Every entry whose values fit its fields survives its layout in memory.
pub decode-encode : (e : DirEntry) → IsEntry e → decode (encode e) ≡ e
unfolding encode decode
decode-encode e is =
    let stamp : List ℕ = le_bytes 8 e.mtime ++ e.reserved in
    let tail : List ℕ = e.ftype ∷ e.perm ∷ stamp in
    let first : List ℕ = le_bytes 2 e.first_block ++ tail in
    let rest : List ℕ = le_bytes 4 e.size ++ first in
    rw
      (
        take-append 32 e.name rest (sym is.name),
        drop-append 32 e.name rest (sym is.name),
        take-append 4 (le_bytes 4 e.size) first (sym (length-le_bytes 4 e.size)),
        drop-append 4 (le_bytes 4 e.size) first (sym (length-le_bytes 4 e.size)),
        take-append 2 (le_bytes 2 e.first_block) tail (sym (length-le_bytes 2 e.first_block)),
        drop-append 2 (le_bytes 2 e.first_block) tail (sym (length-le_bytes 2 e.first_block)),
        take-append 8 (le_bytes 8 e.mtime) e.reserved (sym (length-le_bytes 8 e.mtime)),
        drop-append 8 (le_bytes 8 e.mtime) e.reserved (sym (length-le_bytes 8 e.mtime)),
        take_all 16 e.reserved (sym is.reserved),
        from_le-le_bytes 4 e.size is.size,
        from_le-le_bytes 2 e.first_block is.first_block,
        from_le-le_bytes 8 e.mtime is.mtime,
      )
      refl
