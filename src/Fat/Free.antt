-- ===== src/Fat/Free.antt =====
-- free_block_chain of src/internal/pennfat_kernel.c.
use pennosgrp.Prelude.{
  ℕ, zero, suc, ◌+◌, ◌<◌, ◌≡◌, refl, false, ◌||◌, List, [], ◌∷◌, arith, ◌⊎◌, length, ◌==◌,
  if◌then◌else◌, ok,
}
use pennosgrp.Fat.{Fs, fat_free, fat_eoc, update, free_loop, free_block_chain}
use pennosgrp.Fat.Chain.{has, Links, Links-frame}

-- How many of the first n entries are not free.
used : ℕ → (ℕ → ℕ) → ℕ
used zero fat = 0
used (suc n) fat = (if fat n == fat_free then 0 else 1) + used n fat

-- What the loop may do to a FAT: free entries.
abbrev pub OnlyFrees : (fat fat' : ℕ → ℕ) → Type 0
OnlyFrees fat fat' = (i : ℕ) → (fat' i ≡ fat i) ⊎ (fat' i ≡ fat_free)

free_loop-Links :
    (f : ℕ) (fat : ℕ → ℕ) (b : ℕ) (xs : List ℕ)
    → length xs < f
    → Links fat b xs
    → (fat' : ℕ → ℕ) × (free_loop f fat b ≡ ok fat')
      × ((i : ℕ) → fat' i ≡ (if has i xs then fat_free else fat i))
unfolding free_loop
free_loop-Links zero fat b xs enough links = absurd (omega arith)
free_loop-Links (suc f) fat b [] enough links = (fat, ground arith, λ i. refl)
free_loop-Links (suc f) fat b (x ∷ xs) enough (e, ne, nf, fresh, rest) =
    let (fat', runs, freed) =
      free_loop-Links f (update fat x fat_free) (fat x) xs (omega arith)
        (Links-frame fat (update fat x fat_free) (fat x) xs (λ i h. ground arith) rest) in
    (fat', rw (e, going) runs, λ i. ground (arith, freed i))
  where
    going : (x == fat_eoc || x == fat_free) ≡ false
    going = ground arith

-- On a chain of fewer than 65538 blocks, free_block_chain frees exactly the blocks of the chain.
pub free_block_chain_lem :
    (g : Fs) (start : ℕ) (xs : List ℕ)
    → length xs < 65538
    → Links g.fat start xs
    → (fat' : ℕ → ℕ) × (free_block_chain g start ≡ ok (record g { fat = fat' }))
      × ((i : ℕ) → fat' i ≡ (if has i xs then fat_free else g.fat i))
unfolding free_block_chain
free_block_chain_lem g start xs enough links =
    let (fat', runs, freed) = free_loop-Links 65538 g.fat start xs enough links in
    (fat', rw (runs, free_block_chain) refl, freed)
