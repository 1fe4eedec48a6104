-- ===== src/Fat/Locate.antt =====
-- locate_block_in_chain of src/internal/pennfat_kernel.c.
use pennosgrp.Prelude.{
  ℕ, zero, suc, ◌/◌, ◌%◌, ◌≡◌, none, some, List, [], ◌∷◌, arith, length, get_or, ltb, ◌==◌,
  if◌then◌else◌,
}
use pennosgrp.Fat.{Fs, fat_eoc, walk_chain, locate_block_in_chain}
use pennosgrp.Fat.Chain.{Links}

walk_chain_lem :
    (fat : ℕ → ℕ) (k b : ℕ) (xs : List ℕ)
    → Links fat b xs
    → walk_chain fat k b ≡ (
        if ltb k (length xs)
        then some (get_or xs k 0)
        else if k == length xs
        then some fat_eoc
        else none)
unfolding walk_chain
walk_chain_lem fat zero b [] links = ground arith
walk_chain_lem fat zero b (x ∷ xs) links = ground arith
walk_chain_lem fat (suc k) b [] links = ground arith
walk_chain_lem fat (suc k) b (x ∷ xs) (e, ne, nf, fresh, rest) =
    ground (arith, walk_chain_lem fat k (fat x) xs rest)

-- Over a chain of n blocks, an offset inside the n blocks is located at its block and remainder, and
-- an offset at least one block past them gives -1. An offset in the first block past the chain is
-- answered with the end-of-chain mark 0xFFFF as if it were a block.
pub locate_block_in_chain_lem :
    (g : Fs) (x : ℕ) (xs : List ℕ) (offset : ℕ)
    → Links g.fat x (x ∷ xs)
    → let n = length (x ∷ xs) in
      let i = offset / g.block_size in
      locate_block_in_chain g x offset ≡ (
        if ltb i n
        then some (get_or (x ∷ xs) i 0, offset % g.block_size)
        else if i == n
        then some (fat_eoc, offset % g.block_size)
        else none)
unfolding locate_block_in_chain
locate_block_in_chain_lem g x xs offset links =
    ground (arith, walk_chain_lem g.fat (offset / g.block_size) x (x ∷ xs) links)
