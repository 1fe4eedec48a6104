-- ===== src/Tree/NewDir.antt =====
-- The first block of a new directory (src/internal/pennfat_kernel.c).
use pennosgrp.Prelude.{
  ℕ, zero, suc, ◌<◌, ◌≤◌, ◌^◌, ◌≡◌, refl, ap, sym, ◌∙◌, true, false, some, List, ◌++◌, arith, take,
  ltb,
}
use pennosgrp.Bytes.{take-append, drop-append}
use pennosgrp.Fat.{Fs, read_block}
use pennosgrp.Dirent.{DirEntry, encode, decode, entry_at}
use pennosgrp.Dirent.Codec.{IsEntry, length-encode, decode-encode}
use pennosgrp.Dir.{str_eq, entry_name, mark, entries_per_block, find_in_block}
use pennosgrp.Dir.Block.{find_step_hit, find_step_other}
use pennosgrp.Dir.Walks.{at_end, find_loop_hit}
use pennosgrp.Dir.Lookup.{find_entry_lem}
use pennosgrp.Resolve.{new_entry, def_perm, dot, dotdot}
use pennosgrp.Resolve.Names.{IsFileName, new_entry-IsEntry, mark-new_entry, entry_name-new_entry}
use pennosgrp.Tree.{dir_block}
use pennosgrp.Tree.Touch.{FoundIn}

pub dot-IsFileName : IsFileName dot
dot-IsFileName = record { chars = (refl, refl, tt); short = omega arith; first = refl }

pub dotdot-IsFileName : IsFileName dotdot
dotdot-IsFileName = record {
  chars = (refl, refl, (refl, refl, tt));
  short = omega arith;
  first = refl;
}

entry_at_first : (e : DirEntry) (rest : List ℕ) → IsEntry e → entry_at (encode e ++ rest) 0 ≡ e
unfolding entry_at
entry_at_first e rest is =
    ap decode (take-append 64 (encode e) rest (sym (length-encode e is))) ∙ decode-encode e is

entry_at_second :
    (e e' : DirEntry) (rest : List ℕ)
    → IsEntry e
    → IsEntry e'
    → entry_at (encode e ++ (encode e' ++ rest)) 1 ≡ e'
unfolding entry_at
entry_at_second e e' rest is is' =
    ap (λ t. decode (take 64 t))
      (drop-append 64 (encode e) (encode e' ++ rest) (sym (length-encode e is)))
    ∙ entry_at_first e' rest is'

at_least_two : (n : ℕ) → 2 ≤ n → (k : ℕ) × (n ≡ suc (suc k))
at_least_two zero h = absurd (omega arith)
at_least_two (suc zero) h = absurd (omega arith)
at_least_two (suc (suc k)) h = (k, refl)

module _ (now size b parent : ℕ) (small : b < 2 ^ 16) (small' : parent < 2 ^ 16)
    (time : now < 2 ^ 64) where
  abbrev pub self : DirEntry
  self = new_entry dot 2 def_perm b now

  abbrev pub up : DirEntry
  up = new_entry dotdot 2 def_perm parent now

  self-IsEntry : IsEntry self
  self-IsEntry = new_entry-IsEntry dot 2 def_perm b now dot-IsFileName small time

  up-IsEntry : IsEntry up
  up-IsEntry = new_entry-IsEntry dotdot 2 def_perm parent now dotdot-IsFileName small' time

  at_0 : entry_at (dir_block now size b parent) 0 ≡ self
  unfolding dir_block
  at_0 = entry_at_first self _ self-IsEntry

  at_1 : entry_at (dir_block now size b parent) 1 ≡ up
  unfolding dir_block
  at_1 = entry_at_second self up _ self-IsEntry up-IsEntry

  live_0 : ltb 2 (mark (entry_at (dir_block now size b parent) 0)) ≡ true
  live_0 = ap (λ e. ltb 2 (mark e)) at_0 ∙ mark-new_entry dot 2 def_perm b now dot-IsFileName

  live_1 : ltb 2 (mark (entry_at (dir_block now size b parent) 1)) ≡ true
  live_1 =
      ap (λ e. ltb 2 (mark e)) at_1 ∙ mark-new_entry dotdot 2 def_perm parent now dotdot-IsFileName

  name_0 : entry_name (entry_at (dir_block now size b parent) 0) ≡ dot
  name_0 = ap entry_name at_0 ∙ entry_name-new_entry dot 2 def_perm b now dot-IsFileName

  name_1 : entry_name (entry_at (dir_block now size b parent) 1) ≡ dotdot
  name_1 = ap entry_name at_1 ∙ entry_name-new_entry dotdot 2 def_perm parent now dotdot-IsFileName

  finds_self :
      (k : ℕ) → find_in_block (suc (suc k)) 0 (dir_block now size b parent) dot ≡ some (0, self)
  finds_self k =
      find_step_hit (suc k) 0 (dir_block now size b parent) dot live_0
        (ap (λ t. str_eq t dot) name_0)
      ∙ (λ i. some (0, at_0 i))

  finds_up :
      (k : ℕ) → find_in_block (suc (suc k)) 0 (dir_block now size b parent) dotdot ≡ some (1, up)
  finds_up k =
      find_step_other (suc k) 0 (dir_block now size b parent) dotdot live_0
        (ap (λ t. str_eq t dotdot) name_0)
      ∙ find_step_hit k 1 (dir_block now size b parent) dotdot live_1
          (ap (λ t. str_eq t dotdot) name_1)
      ∙ (λ i. some (1, at_1 i))

  -- A directory of which this is the first block finds itself and its parent.
  pub new_dir_lem :
      (g : Fs)
      → at_end b ≡ false
      → read_block g b ≡ some (dir_block now size b parent)
      → 128 ≤ g.block_size
      → FoundIn g b dot self × FoundIn g b dotdot up
  new_dir_lem g going reads room =
      let (k, two) = at_least_two (entries_per_block g) (omega arith) in
      (
        (
          record { block = b; index = 0; entry = self },
          refl,
          find_entry_lem g b dot _ going (
              find_loop_hit 65536 g b (dir_block now size b parent) going reads dot 0 self
                (ap (λ n. find_in_block n 0 (dir_block now size b parent) dot) two ∙ finds_self k)),
        ),
        (
          record { block = b; index = 1; entry = up },
          refl,
          find_entry_lem g b dotdot _ going (
              find_loop_hit 65536 g b (dir_block now size b parent) going reads dotdot 1 up (
                ap (λ n. find_in_block n 0 (dir_block now size b parent) dotdot) two ∙ finds_up k)),
        ),
      )
