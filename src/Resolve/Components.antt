-- ===== src/Resolve/Components.antt =====
-- The components of a path (src/internal/pennfat_kernel.c).
use mathlib.Core.List.{append-nil, append_assoc}
use pennosgrp.Prelude.{
  ℕ, zero, suc, ◌+◌, ◌<◌, ◌≤◌, ◌≡◌, refl, ap, sym, ◌∙◌, false, List, [], ◌∷◌, ◌++◌, arith, length,
  take, length-append, ◌==◌,
}
use pennosgrp.Resolve.{tokens, flush, components, path_max, is_nil}

-- No slash and no 0.
abbrev pub AllPlain : List ℕ → Type 0
AllPlain [] = Unit {0}
AllPlain (c ∷ cs) = ((c == b'/') ≡ false) × ((c == 0) ≡ false) × AllPlain cs

pub record IsName (name : List ℕ) : Type 0 where
  pub nonempty : is_nil name ≡ false
  pub chars : AllPlain name

abbrev pub AllNames : List (List ℕ) → Type 0
AllNames [] = Unit {0}
AllNames (name ∷ names) = IsName name × AllNames names

-- Names with a slash between two of them.
unfoldable pub join : List ℕ → List (List ℕ) → List ℕ
join name [] = name
join name (next ∷ names) = name ++ (b'/' ∷ join next names)

flush_name :
    (name : List ℕ) (rest : List (List ℕ)) → is_nil name ≡ false → flush name rest ≡ name ∷ rest
flush_name [] rest h = absurd (ground (arith, h))
flush_name (c ∷ cs) rest h = refl

-- Plain characters are gathered.
tokens-append :
    (name cur rest : List ℕ) → AllPlain name → tokens cur (name ++ rest) ≡ tokens (cur ++ name) rest
unfolding tokens
tokens-append [] cur rest all = rw append-nil
tokens-append (c ∷ cs) cur rest (plain, _, all) = rw plain (
    tokens-append cs (cur ++ c ∷ []) rest all
    ∙ ap (λ t. tokens t rest) (append_assoc cur (c ∷ []) cs))

tokens-join :
    (name : List ℕ) (names : List (List ℕ))
    → IsName name
    → AllNames names
    → tokens [] (join name names) ≡ name ∷ names
unfolding tokens join
tokens-join name [] is all =
    ap (tokens []) (sym (append-nil name))
    ∙ tokens-append name [] [] is.chars
    ∙ flush_name name [] is.nonempty
tokens-join name (next ∷ names) is (is_next, all) =
    tokens-append name [] (b'/' ∷ join next names) is.chars
    ∙ flush_name name (tokens [] (join next names)) is.nonempty
    ∙ ap (λ t. name ∷ t) (tokens-join next names is_next all)

take_short : (n : ℕ) (xs : List ℕ) → length xs ≤ n → take n xs ≡ xs
take_short zero [] h = refl
take_short zero (x ∷ xs) h = absurd (omega arith)
take_short (suc n) [] h = refl
take_short (suc n) (x ∷ xs) h = ap (λ t. x ∷ t) (take_short n xs (omega arith))

-- A path of at most 255 bytes that is joined from names, none empty or with a slash, has exactly these
-- components.
pub components-join :
    (name : List ℕ) (names : List (List ℕ))
    → IsName name
    → AllNames names
    → length (join name names) < path_max
    → components (join name names) ≡ name ∷ names
unfolding components
components-join name names is all short =
    ap (tokens []) (take_short 255 (join name names) (omega arith)) ∙ tokens-join name names is all

-- Slashes that stand twice, or at the end, make no component.
pub components-slash :
    (name : List ℕ)
    → IsName name
    → length name + 1 < path_max
    → components (name ++ b'/' ∷ []) ≡ name ∷ []
unfolding components tokens
components-slash name is short =
    ap (tokens [])
      (take_short 255 (name ++ b'/' ∷ []) (omega (arith, length-append name (b'/' ∷ []))))
    ∙ tokens-append name [] (b'/' ∷ []) is.chars
    ∙ flush_name name [] is.nonempty
