-- ===== src/Dir/Walks.antt =====
-- The loops over a directory's chain, round by round (src/internal/pennfat_kernel.c).
use pennosgrp.Prelude.{
  ℕ, zero, suc, ◌<◌, ◌≡◌, refl, ap, ◌∙◌, Bool, true, false, ◌||◌, none, some, List, [], ◌∷◌, arith,
  length, ◌==◌, Option-cases, inl, inr, ok,
}
use pennosgrp.Fat.{Fs, fat_eoc, fat_free, read_block}
use pennosgrp.Dirent.{DirEntry}
use pennosgrp.Dir.{
  Search, failed, missing, hit, Place, entries_per_block, find_in_block, find_loop, free_slot,
  slot_loop,
}

abbrev pub at_end : ℕ → Bool
at_end b = b == fat_eoc || b == fat_free

module _ (f : ℕ) (g : Fs) (cur : ℕ) where
  pub find_loop_end :
      (name : List ℕ) → at_end cur ≡ true → find_loop (suc f) g cur name ≡ ok missing
  unfolding find_loop
  find_loop_end name e = rw e refl

  pub find_loop_failed :
      (name : List ℕ)
      → at_end cur ≡ false
      → read_block g cur ≡ none
      → find_loop (suc f) g cur name ≡ ok failed
  unfolding find_loop
  find_loop_failed name e r = rw (e, r) refl

  module _ (block : List ℕ) (going : at_end cur ≡ false)
      (reads : read_block g cur ≡ some block) where
    pub find_loop_next :
        (name : List ℕ)
        → find_in_block (entries_per_block g) 0 block name ≡ none
        → find_loop (suc f) g cur name ≡ find_loop f g (g.fat cur) name
    unfolding find_loop
    find_loop_next name e = rw (going, reads) (rw e refl)

    pub find_loop_hit :
        (name : List ℕ) (i : ℕ) (d : DirEntry)
        → find_in_block (entries_per_block g) 0 block name ≡ some (i, d)
        → find_loop (suc f) g cur name ≡ ok (hit (record { block = cur; index = i; entry = d }))
    unfolding find_loop
    find_loop_hit name i d e = rw (going, reads) (rw e refl)

    pub slot_loop_next :
        free_slot (entries_per_block g) 0 block ≡ none
        → slot_loop (suc f) g cur ≡ slot_loop f g (g.fat cur)
    unfolding slot_loop
    slot_loop_next e = rw (going, reads) (rw e refl)

    pub slot_loop_hit :
        (i : ℕ)
        → free_slot (entries_per_block g) 0 block ≡ some i
        → slot_loop (suc f) g cur ≡ ok (hit (cur, i))
    unfolding slot_loop
    slot_loop_hit i e = rw (going, reads) (rw e refl)

-- What a search that goes on past a block says of it.
pub data Passed (g : Fs) (cur : ℕ) (name : List ℕ) : Type 0 where
  passed :
      (block : List ℕ)
      → read_block g cur ≡ some block
      → find_in_block (entries_per_block g) 0 block name ≡ none
      → Passed g cur name

pub missing-Passed :
    (f : ℕ) (g : Fs) (cur : ℕ) (name : List ℕ)
    → at_end cur ≡ false
    → find_loop (suc f) g cur name ≡ ok missing
    → Passed g cur name
missing-Passed f g cur name going e = elim (Option-cases (read_block g cur)) [
  | inl bad ↦ absurd (ground (arith, e, find_loop_failed f g cur name going bad))
  | inr (block, reads) ↦ elim (Option-cases (find_in_block (entries_per_block g) 0 block name)) [
    | inl gone ↦ passed block reads gone
    | inr ((i, d), found) ↦
        absurd (ground (arith, e, find_loop_hit f g cur block going reads name i d found))
  ]
]

-- A chain that ends, in an end mark or in a free entry.
abbrev pub Ends : (ℕ → ℕ) → ℕ → List ℕ → Type 0
Ends fat b [] = at_end b ≡ true
Ends fat b (x ∷ xs) = (b ≡ x) × (at_end x ≡ false) × Ends fat (fat x) xs

-- The search of a chain that ends ends.
pub find_loop_total :
    (f : ℕ) (g : Fs) (cur : ℕ) (name : List ℕ) (xs : List ℕ)
    → Ends g.fat cur xs
    → length xs < f
    → (s : Search Place) × (find_loop f g cur name ≡ ok s)
find_loop_total zero g cur name xs ends lt = absurd (omega arith)
find_loop_total (suc f) g cur name [] ends lt = (missing, find_loop_end f g cur name ends)
find_loop_total (suc f) g cur name (x ∷ xs) (same, going, ends) lt =
    let (s, runs) = find_loop_total f g (g.fat x) name xs ends (omega arith) in
    let here : at_end cur ≡ false = rw same going in
    elim (Option-cases (read_block g cur)) [
      | inl bad ↦ (failed, find_loop_failed f g cur name here bad)
      | inr (block, reads) ↦
          elim (Option-cases (find_in_block (entries_per_block g) 0 block name)) [
            | inr ((i, d), found) ↦ (
              hit (record { block = cur; index = i; entry = d }),
              find_loop_hit f g cur block here reads name i d found,
            )
            | inl gone ↦ (
              s,
              find_loop_next f g cur block here reads name gone
                  ∙ ap (λ b. find_loop f g (g.fat b) name) same
                  ∙ runs,
            )
          ]
    ]
