-- ===== src/Resolve/Names.antt =====
-- Entries that are made for a name (src/internal/pennfat_kernel.c).
use mathlib.Core.List.{append_assoc}
use pennosgrp.Prelude.{
  ℕ, zero, suc, ◌-◌, ◌<◌, ◌≡◌, refl, ap, ◌∙◌, true, List, [], ◌∷◌, ◌++◌, ◌^◌, arith, length, get_or,
  replicate, length-append, length-replicate, ltb,
}
use pennosgrp.Bytes.{le_bytes}
use pennosgrp.Dirent.{DirEntry, encode}
use pennosgrp.Dirent.Codec.{IsEntry}
use pennosgrp.Dir.{c_str, str_eq, entry_name, mark}
use pennosgrp.Resolve.{new_entry, padded}
use pennosgrp.Resolve.Components.{AllPlain}

-- A name that fits an entry and does not look like a mark.
pub record IsFileName (name : List ℕ) : Type 0 where
  pub chars : AllPlain name
  pub short : length name < 32
  pub first : ltb 2 (get_or name 0 0) ≡ true

pub str_eq_refl : (s : List ℕ) → str_eq s s ≡ true
str_eq_refl [] = refl
str_eq_refl (c ∷ cs) = ground (arith, str_eq_refl cs)

c_str-append : (s rest : List ℕ) → AllPlain s → c_str (s ++ 0 ∷ rest) ≡ s
c_str-append [] rest all = refl
c_str-append (c ∷ cs) rest (_, plain, all) = rw plain (ap (λ t. c ∷ t) (c_str-append cs rest all))

-- The name of an entry is what its name field was padded from.
pub entry_name-padded :
    (e : DirEntry) (name : List ℕ) → IsFileName name → e.name ≡ padded name → entry_name e ≡ name
unfolding entry_name encode
entry_name-padded e name is named =
    ap (λ t. c_str (t ++ rest)) named ∙ go (32 - length name) (omega (arith, is.short))
  where
    rest : List ℕ
    rest =
        le_bytes 4 e.size
        ++ (le_bytes 2 e.first_block ++ (e.ftype ∷ e.perm ∷ (le_bytes 8 e.mtime ++ e.reserved)))

    go : (k : ℕ) → 0 < k → c_str ((name ++ replicate k 0) ++ rest) ≡ name
    go zero h = absurd (omega arith)
    go (suc k) h =
        ap c_str (append_assoc name (replicate (suc k) 0) rest)
        ∙ c_str-append name (replicate k 0 ++ rest) is.chars

module _ (name : List ℕ) (ftype perm block mtime : ℕ) (is : IsFileName name) where
  pub new_entry-IsEntry :
      block < 2 ^ 16 → mtime < 2 ^ 64 → IsEntry (new_entry name ftype perm block mtime)
  new_entry-IsEntry b m = record {
    name = omega (
      arith,
      is.short,
      length-append name (replicate (32 - length name) 0),
      length-replicate {A = ℕ} (32 - length name) 0,
    );
    size = omega arith;
    first_block = b;
    mtime = m;
    reserved = refl;
  }

  pub mark-new_entry : ltb 2 (mark (new_entry name ftype perm block mtime)) ≡ true
  mark-new_entry = go name is.first
    where
      go : (s : List ℕ) → ltb 2 (get_or s 0 0) ≡ true → ltb 2 (get_or (padded s) 0 0) ≡ true
      go [] h = absurd (ground (arith, h))
      go (c ∷ cs) h = h

  -- The name of the entry is the name that it was made with.
  pub entry_name-new_entry : entry_name (new_entry name ftype perm block mtime) ≡ name
  entry_name-new_entry = entry_name-padded (new_entry name ftype perm block mtime) name is refl
