-- ===== src/Dir/Chains.antt =====
-- The chain of a directory after add_dirent_to_dir (src/internal/pennfat_kernel.c).
use pennosgrp.Prelude.{
  ℕ, zero, suc, Outcome, false, Option-cases, ◌≡◌, ◌≢◌, refl, ap, sym, ◌∙◌, true, ◌||◌, List, [],
  ◌∷◌, ◌++◌, arith, ◌==◌, if_false, Bool-cases, inl, inr, ok,
}
use pennosgrp.Fat.{Fs, fat_eoc, fat_free, update, set_fat, find_last, read_block}
use pennosgrp.Fat.Chain.{has, Links}
use pennosgrp.Fat.Region.{beside_fat}
use pennosgrp.Fat.Alloc.{allocate_free_block_lem, allocate-Links}
use pennosgrp.Dirent.{DirEntry, success}
use pennosgrp.Dir.{
  Search, failed, missing, hit, chain_fuel, entries_per_block, free_slot, slot_loop, put_entry,
  extend_dir, add_dirent_to_dir,
}
use pennosgrp.Dir.Walks.{at_end, slot_loop_next, slot_loop_hit}
use pennosgrp.Dir.Add.{slot_loop-HasSlot, slot_loop_total, put_entry_lem}
use pennosgrp.Dir.Extend.{
  last_of, last_of-has, has-apart, no_block, find_last_lem, extended, extend_runs,
}
use pennosgrp.Dir.Lookup.{IsDir, IsDir-going, Links-Ends, added, add_step}

has-snoc : (c b : ℕ) (xs : List ℕ) → has c (xs ++ b ∷ []) ≡ (has c xs || c == b)
has-snoc c b [] = ground arith
has-snoc c b (x ∷ xs) = ground (arith, has-snoc c b xs)

-- A block is linked behind the last one of a chain.
Links-snoc :
    (fat fat' : ℕ → ℕ) (b cur x : ℕ) (xs : List ℕ)
    → Links fat cur (x ∷ xs)
    → has b (x ∷ xs) ≡ false
    → at_end b ≡ false
    → fat' (last_of x xs) ≡ b
    → fat' b ≡ fat_eoc
    → ((c : ℕ) → has c (x ∷ xs) ≡ true → (c == last_of x xs) ≡ false → fat' c ≡ fat c)
    → Links fat' cur (x ∷ (xs ++ b ∷ []))
Links-snoc fat fat' b cur x [] (e, ne, nf, _, _) out going last end same = (
  e,
  ne,
  nf,
  ground (arith, out),
  (last, ground (arith, going), ground (arith, going), refl, end),
)
Links-snoc fat fat' b cur x (y ∷ ys) (e, ne, nf, fresh, rest) out going last end same =
    let apart : (x == last_of y ys) ≡ false = apart_lem (last_of-has y ys) fresh in
    let kept : fat' x ≡ fat x = same x (ground arith) apart in
    (
      e,
      ne,
      nf,
      has-snoc x b (y ∷ ys) ∙ ground (arith, fresh, out),
      rw kept (
          Links-snoc fat fat' b (fat x) y ys rest (ground (arith, out)) going last end
            (λ c there other. same c (ground (arith, there)) other)),
    )
  where
    apart_lem :
        has (last_of y ys) (y ∷ ys) ≡ true → has x (y ∷ ys) ≡ false → (x == last_of y ys) ≡ false
    apart_lem inside out_x =
        let reversed = has-apart x (last_of y ys) (y ∷ ys) out_x inside in ground (arith, reversed)

-- A slot that is found lies in a block of the chain.
slot_loop-has :
    (f : ℕ) (g : Fs) (cur b i : ℕ) (xs : List ℕ)
    → Links g.fat cur xs
    → slot_loop f g cur ≡ ok (hit (b, i))
    → has b xs ≡ true
unfolding slot_loop
slot_loop-has zero g cur b i xs links e = absurd (ground (arith, e))
slot_loop-has (suc f) g cur b i [] end e =
    let stops : slot_loop (suc f) g cur ≡ ok missing = rw (at_the_end end) refl in
    absurd (ground (arith, sym stops ∙ e))
  where
    at_the_end : cur ≡ fat_eoc → at_end cur ≡ true
    at_the_end h = ground arith
slot_loop-has (suc f) g cur b i (x ∷ xs) (same, ne, nf, fresh, rest) e =
    elim (Option-cases (read_block g cur)) [
      | inl bad ↦
          let stops : slot_loop (suc f) g cur ≡ ok failed = rw (going, bad) refl in
          absurd (ground (arith, sym stops ∙ e))
      | inr (block, reads) ↦ elim (Option-cases (free_slot (entries_per_block g) 0 block)) [
        | inr (j, found) ↦
            let here : ◌≡◌ {A = Outcome (Search (ℕ × ℕ))} (ok (hit (b, i))) (ok (hit (cur, j))) =
              sym e ∙ slot_loop_hit f g cur block going reads j found in
            let block_here : b ≡ cur = ground (arith, here) in ground (arith, block_here, same)
        | inl full ↦
            let later = slot_loop-has f g (g.fat x) b i xs rest (
              ap (λ c. slot_loop f g (g.fat c)) (sym same)
              ∙ sym (slot_loop_next f g cur block going reads full)
              ∙ e) in
            ground (arith, later)
      ]
    ]
  where
    going : at_end cur ≡ false
    going = ground arith

-- What is left of a directory's chain by a call that added an entry: blocks that were there or were free.
pub record Grown (g g' : Fs) (dir : ℕ) (xs : List ℕ) : Type 0 where
  pub rest : List ℕ
  pub links : Links g'.fat dir (dir ∷ rest)
  pub old_or_free :
      (c : ℕ) → has c (dir ∷ xs) ≡ false → g.fat c ≢ fat_free → has c (dir ∷ rest) ≡ false
  pub same_blocks :
      (c : ℕ) → has c (dir ∷ xs) ≡ false → g.fat c ≢ fat_free → g'.blocks c ≡ g.blocks c
  pub same_size : g'.block_size ≡ g.block_size
  pub same_count : g'.fat_block_count ≡ g.fat_block_count
  pub opened : g'.fs_open ≡ true

extend-Grown :
    (g g' : Fs) (dir : ℕ) (xs : List ℕ) (e : DirEntry)
    → IsDir g dir xs
    → extend_dir g dir e ≡ ok (success, g')
    → Grown g g' dir xs
extend-Grown g g' dir xs e is runs = elim (allocate_free_block_lem g is.fat.room) [
  | inl (full, _) ↦ absurd (no_block g g' dir e full runs)
  | inr (b, allocates, first) ↦
      let (_, chains) =
        allocate-Links g (set_fat g b fat_eoc) b is.fat.start is.fat.small is.fat.room allocates in
      let (new, links1) = chains dir (dir ∷ xs) is.links in
      let finds : find_last 65536 (set_fat g b fat_eoc).fat dir ≡ ok (last_of dir xs) =
        find_last_lem 65536 (set_fat g b fat_eoc).fat dir dir xs links1 (omega (arith, is.short)) in
      let (opened, image) =
        extend_runs g g' b (last_of dir xs) dir e
          (beside_fat g b is.fat.one (ground (arith, first.low, is.fat.start))) allocates finds
          runs in
      let last_apart = has-apart b (last_of dir xs) (dir ∷ xs) new (last_of-has dir xs) in
      let going : at_end b ≡ false =
        ground (arith, first.low, first.high, is.fat.start, is.fat.small) in
      rw image (record {
        rest = xs ++ b ∷ [];
        links =
            Links-snoc (update g.fat b fat_eoc) (extended g b (last_of dir xs) e).fat b dir dir xs
              links1 new going (ground arith) (ground (arith, last_apart))
              (λ c there other. if_false (c == last_of dir xs) b _ other);
        old_or_free = λ c out busy.
            has-snoc c b (dir ∷ xs) ∙ ground (arith, out, busy_apart c b busy first.free);
        same_blocks = λ c out busy.
            if_false (c == b) _ _ (busy_apart c b busy first.free)
            ∙ if_false (c == b) _ _ (busy_apart c b busy first.free);
        same_size = refl;
        same_count = refl;
        opened = opened;
      })
]
  where
    busy_apart : (c b : ℕ) → g.fat c ≢ fat_free → g.fat b ≡ fat_free → (c == b) ≡ false
    busy_apart c b busy free = elim (Bool-cases (c == b)) [
      | inr apart ↦ apart
      | inl same ↦ absurd (busy (ap g.fat (ground (arith, same)) ∙ free))
    ]

-- An entry that goes to a slot leaves the FAT; one that does not fit takes a block that was free.
pub add-Grown :
    (g g' : Fs) (dir : ℕ) (xs : List ℕ) (e : DirEntry)
    → IsDir g dir xs
    → add_dirent_to_dir g dir e ≡ ok (success, g')
    → Grown g g' dir xs
add-Grown g g' dir xs e is runs =
    let (s, slots) =
      slot_loop_total chain_fuel g dir (dir ∷ xs) (Links-Ends g.fat dir (dir ∷ xs) is.links)
        (omega (arith, is.short)) in
    go s slots (sym (add_step g dir e s (IsDir-going g dir xs is) slots) ∙ runs)
  where
    go :
        (s : Search (ℕ × ℕ))
        → slot_loop chain_fuel g dir ≡ ok s
        → added g dir e s ≡ ok (success, g')
        → Grown g g' dir xs
    go failed slots e1 = absurd (ground (arith, e1))
    go missing slots e1 = extend-Grown g g' dir xs e is e1
    go (hit (b, i)) slots e1 =
        let at_slot = slot_loop-HasSlot chain_fuel g dir b i slots in
        let put : put_entry g b i e ≡ (success, g') = ground (arith, e1) in
        let out = beside_fat g b is.fat.one (ground (arith, at_slot.going)) in
        let (opened, image) = put_entry_lem g g' b i at_slot.block e out at_slot.reads put in
        rw image (record {
          rest = xs;
          links = is.links;
          old_or_free = λ c out busy. out;
          same_blocks = λ c out busy.
              let inside = slot_loop-has chain_fuel g dir b i (dir ∷ xs) is.links slots in
              if_false (c == b) _ _ (ground (arith, has-apart c b (dir ∷ xs) out inside));
          same_size = refl;
          same_count = refl;
          opened = opened;
        })
