-- ===== src/Parser/Words.antt =====
-- Words and spaces of a command line (src/util/parser.c).
use pennosgrp.Prelude.{
  ℕ, ◌≤◌, ◌≡◌, refl, ap, true, false, Bool, ◌&&◌, not, Option, none, some, List, [], ◌∷◌, ◌++◌,
  arith, length, ◌==◌, Bool-cases, inl, inr,
}
use pennosgrp.Parser.{
  is_space, in_word, word, skip_word, skip_space, before_comment, cons_unless, trim_end, unsnoc,
  is_nil,
}

-- The characters of a word, which are no comment mark either.
abbrev pub AllIn : List ℕ → Type 0
AllIn [] = Unit {0}
AllIn (c ∷ cs) = (in_word c ≡ true) × ((c == b'#') ≡ false) × AllIn cs

pub record IsWord (w : List ℕ) : Type 0 where
  pub nonempty : is_nil w ≡ false
  pub chars : AllIn w

-- What can follow a word: nothing, or a character of no word.
abbrev pub stops : List ℕ → Bool
stops [] = true
stops (c ∷ cs) = not (in_word c)

pub word-append : (w r : List ℕ) → AllIn w → stops r ≡ true → word (w ++ r) ≡ w
unfolding word
word-append [] [] all end = refl
word-append [] (c ∷ r) all end = ground arith
word-append (c ∷ w) r (here, _, all) end =
    rw here (ap (λ (t : List ℕ). c ∷ t) (word-append w r all end))

pub skip_word-append : (w r : List ℕ) → AllIn w → stops r ≡ true → skip_word (w ++ r) ≡ r
unfolding skip_word
skip_word-append [] [] all end = refl
skip_word-append [] (c ∷ r) all end = ground arith
skip_word-append (c ∷ w) r (here, _, all) end = rw here (skip_word-append w r all end)

-- A text that begins with no space.
abbrev pub solid : List ℕ → Bool
solid [] = true
solid (c ∷ cs) = not (is_space c)

pub skip_space-solid : (s : List ℕ) → solid s ≡ true → skip_space s ≡ s
unfolding skip_space
skip_space-solid [] h = refl
skip_space-solid (c ∷ cs) h = ground arith

pub skip_space_space : (s : List ℕ) → solid s ≡ true → skip_space (32 ∷ s) ≡ s
unfolding skip_space
skip_space_space s h = skip_space-solid s h

-- A text without a comment mark.
abbrev pub NoComment : List ℕ → Type 0
NoComment [] = Unit {0}
NoComment (c ∷ cs) = ((c == b'#') ≡ false) × NoComment cs

pub before_comment-NoComment : (s : List ℕ) → NoComment (before_comment s)
unfolding before_comment
before_comment-NoComment [] = tt
before_comment-NoComment (c ∷ cs) = elim (Bool-cases (c == b'#')) [
  | inl mark ↦ rw mark tt
  | inr other ↦ rw other (other, before_comment-NoComment cs)
]

pub before_comment_all : (s : List ℕ) → NoComment s → before_comment s ≡ s
unfolding before_comment
before_comment_all [] none_left = refl
before_comment_all (c ∷ cs) (other, others) =
    rw other (ap (λ (t : List ℕ). c ∷ t) (before_comment_all cs others))

pub skip_word-NoComment : (s : List ℕ) → NoComment s → NoComment (skip_word s)
unfolding skip_word
skip_word-NoComment [] h = tt
skip_word-NoComment (c ∷ cs) h = elim (Bool-cases (in_word c)) [
  | inl inside ↦ rw inside (skip_word-NoComment cs h.1)
  | inr out ↦ rw out h
]

pub skip_space-NoComment : (s : List ℕ) → NoComment s → NoComment (skip_space s)
unfolding skip_space
skip_space-NoComment [] h = tt
skip_space-NoComment (c ∷ cs) h = elim (Bool-cases (is_space c)) [
  | inl space ↦ rw space (skip_space-NoComment cs h.1)
  | inr out ↦ rw out h
]

pub word-AllIn : (s : List ℕ) → NoComment s → AllIn (word s)
unfolding word
word-AllIn [] h = tt
word-AllIn (c ∷ cs) h = elim (Bool-cases (in_word c)) [
  | inl inside ↦ rw inside (inside, h.0, word-AllIn cs h.1)
  | inr out ↦ rw out tt
]

-- Every skip shortens.
pub length-skip_word : (s : List ℕ) → length (skip_word s) ≤ length s
unfolding skip_word
length-skip_word [] = omega arith
length-skip_word (c ∷ cs) = ground (arith, length-skip_word cs)

pub length-skip_space : (s : List ℕ) → length (skip_space s) ≤ length s
unfolding skip_space
length-skip_space [] = omega arith
length-skip_space (c ∷ cs) = ground (arith, length-skip_space cs)

-- A text whose last character is no space loses exactly what is behind it.
abbrev pub blank : List ℕ → Bool
blank [] = true
blank (c ∷ cs) = is_space c && blank cs

pub trim_end-blank : (s : List ℕ) → blank s ≡ true → trim_end s ≡ []
unfolding trim_end
trim_end-blank [] h = refl
trim_end-blank (c ∷ cs) h = rw (trim_end-blank cs (ground arith)) (ground arith)

pub trim_end_solid :
    (s r : List ℕ) (c : ℕ)
    → is_space c ≡ false
    → blank r ≡ true
    → trim_end (s ++ (c ∷ r)) ≡ s ++ c ∷ []
unfolding trim_end
trim_end_solid [] r c solid_c h = rw (trim_end-blank r h, solid_c) refl
trim_end_solid (d ∷ s) r c solid_c h = rw (trim_end_solid s r c solid_c h) (keep s)
  where
    keep : (s : List ℕ) → cons_unless (is_space d) d (s ++ c ∷ []) ≡ d ∷ (s ++ c ∷ [])
    keep [] = refl
    keep (x ∷ xs) = refl

pub unsnoc_snoc : (s : List ℕ) (c : ℕ) → unsnoc (s ++ c ∷ []) ≡ some (s, c)
unfolding unsnoc
unsnoc_snoc [] c = refl
unsnoc_snoc (d ∷ s) c = rw (unsnoc_snoc s c) refl

pub trim_end-NoComment : (s : List ℕ) → NoComment s → NoComment (trim_end s)
unfolding trim_end
trim_end-NoComment [] h = tt
trim_end-NoComment (c ∷ cs) h = keep (trim_end cs) (trim_end-NoComment cs h.1)
  where
    keep : (t : List ℕ) → NoComment t → NoComment (cons_unless (is_space c) c t)
    keep [] n = elim (Bool-cases (is_space c)) [ inl e ↦ rw e tt | inr e ↦ rw e (h.0, tt) ]
    keep (x ∷ xs) n = (h.0, n)

abbrev pub KeptPart : Option (List ℕ × ℕ) → Type 0
KeptPart none = Unit {0}
KeptPart (some (t, c)) = NoComment t

pub unsnoc-NoComment : (s : List ℕ) → NoComment s → KeptPart (unsnoc s)
unfolding unsnoc
unsnoc-NoComment [] h = tt
unsnoc-NoComment (d ∷ s) h = keep (unsnoc s) (unsnoc-NoComment s h.1)
  where
    keep :
        (o : Option (List ℕ × ℕ))
        → KeptPart o
        → KeptPart (elim o [ none ↦ some ([], d) | some (ds, x) ↦ some (d ∷ ds, x) ])
    keep none n = tt
    keep (some (ds, x)) n = (h.0, n)
