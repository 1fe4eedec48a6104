-- ===== src/Fat/Alloc.antt =====
-- allocate_free_block of src/internal/pennfat_kernel.c.
use pennosgrp.Prelude.{
  ℕ, zero, suc, ◌+◌, ◌-◌, ◌<◌, ◌≤◌, ◌≡◌, ◌≢◌, refl, true, false, Option, none, some, List, [], ◌∷◌,
  arith, ◌==◌, Bool-cases, inl, inr, ◌⊎◌, sym, ap, ◌∙◌,
}
use pennosgrp.Fat.{Fs, fat_free, fat_eoc, set_fat, total_entries, find_free, allocate_free_block}
use pennosgrp.Fat.Chain.{has, Links, Links-frame, Links-allocated}

-- The first free entry of a range.
pub record FirstFree (fat : ℕ → ℕ) (from to i : ℕ) : Type 0 where
  pub low : from ≤ i
  pub high : i < to
  pub free : fat i ≡ fat_free
  pub first : (j : ℕ) → from ≤ j → j < i → fat j ≢ fat_free

find_free_lem :
    (fat : ℕ → ℕ) (k i to : ℕ)
    → i + k ≡ to
    → ((find_free fat k i ≡ none) × ((j : ℕ) → i ≤ j → j < to → fat j ≢ fat_free))
      ⊎ ((b : ℕ) × (find_free fat k i ≡ some b) × FirstFree fat i to b)
unfolding find_free
find_free_lem fat zero i to e = inl (refl, λ j l h. absurd (omega arith))
find_free_lem fat (suc k) i to e = elim (Bool-cases (fat i == fat_free)) [
  | inl free ↦ inr (
    i,
    rw free refl,
    record {
      low = omega arith;
      high = omega arith;
      free = ground arith;
      first = λ j l h. absurd (omega arith);
    },
  )
  | inr busy ↦ elim (find_free_lem fat k (i + 1) to (omega arith)) [
    | inl (full, all) ↦ inl (rw busy full, λ j l h z. ground (arith, all j))
    | inr (b, found, is) ↦ inr (
      b,
      rw busy found,
      record {
        low = omega (arith, is.low);
        high = is.high;
        free = is.free;
        first = λ j l h z. ground (arith, is.first j);
      },
    )
  ]
]

-- allocate_free_block fails, and changes nothing, only if no entry of the data region is free.
-- Otherwise it returns the first free one, marks it as the end of a chain and changes no other.
pub allocate_free_block_lem :
    (g : Fs)
    → g.data_start_block ≤ total_entries g
    → ((allocate_free_block g ≡ none)
        × ((j : ℕ) → g.data_start_block ≤ j → j < total_entries g → g.fat j ≢ fat_free))
      ⊎ ((b : ℕ) × (allocate_free_block g ≡ some (b, set_fat g b fat_eoc))
          × FirstFree g.fat g.data_start_block (total_entries g) b)
unfolding allocate_free_block
allocate_free_block_lem g room =
    elim (find_free_lem g.fat (total_entries g - g.data_start_block) g.data_start_block
      (total_entries g) (omega arith)) [
        | inl (full, all) ↦ inl (rw (full, allocate_free_block) refl, all)
        | inr (b, found, is) ↦ inr (b, rw (found, allocate_free_block) refl, is)
      ]

-- A new block belongs to no chain, so allocating it leaves every chain as it is, and it is a chain
-- of its own.
pub allocate-Links :
    (g g' : Fs) (b : ℕ)
    → 0 < g.data_start_block
    → total_entries g ≤ fat_eoc
    → g.data_start_block ≤ total_entries g
    → allocate_free_block g ≡ some (b, g')
    → Links g'.fat b (b ∷ [])
      × ((c : ℕ) (xs : List ℕ) → Links g.fat c xs → (has b xs ≡ false) × Links g'.fat c xs)
allocate-Links g g' b start small room runs = elim (allocate_free_block_lem g room) [
  | inl (full, all) ↦ cc
  | inr (b', runs', is) ↦
      let e : ◌≡◌ {A = Option (ℕ × Fs)} (some (b, g')) (some (b', set_fat g b' fat_eoc)) =
        sym runs ∙ runs' in
      let same : b ≡ b' = cc in
      let state : g' ≡ set_fat g b' fat_eoc = cc in
      let out = λ (c : ℕ) (xs : List ℕ) (links : Links g.fat c xs).
        not_in c xs links (Bool-cases (has b xs)) same is.free in
      (
        rw (state, same)
            (refl, ground (arith, is.high), ground (arith, is.low), refl, ground arith),
        λ c xs links. (
          out c xs links,
          rw state (Links-frame g.fat _ c xs (λ i h. ground (arith, out c xs links)) links),
        ),
      )
]
  where
    not_in :
        (c : ℕ) (xs : List ℕ) {b' : ℕ}
        → Links g.fat c xs
        → (has b xs ≡ true) ⊎ (has b xs ≡ false)
        → b ≡ b'
        → g.fat b' ≡ fat_free
        → has b xs ≡ false
    not_in c xs links (inl h) same free =
        absurd (Links-allocated g.fat c b xs links h (ap g.fat same ∙ free))
    not_in c xs links (inr h) same free = h
