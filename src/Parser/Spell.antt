-- ===== src/Parser/Spell.antt =====
-- The passes of parse_command (src/util/parser.c) over a line that is spelled from tokens, one space
-- between two of them.
use pennosgrp.Prelude.{
  ℕ, zero, suc, ◌+◌, ◌≤◌, ◌≡◌, refl, ap, ◌∙◌, true, false, Bool, ◌||◌, not, some, List, [], ◌∷◌,
  ◌++◌, arith, length, ltb, if◌then◌else◌, ok, length-append,
}
use mathlib.Core.List.{append-nil}
use pennosgrp.Parser.{
  is_space, word, skip_word, skip_space, ParserError, unexpected_file_input, unexpected_file_output,
  unexpected_pipeline, Scan, Round, jump_out, continues, scan_round, Scanned, refused, scanned,
  first_pass, Build, build_round, second_pass,
}
use pennosgrp.Parser.Words.{
  AllIn, IsWord, stops, word-append, skip_word-append, solid, skip_space-solid, skip_space_space,
}

pub data Token : Type 0 where
  arg input : List ℕ → Token
  output : Bool → List ℕ → Token
  pipe : Token

abbrev pub text : Token → List ℕ
text (arg w) = w
text (input w) = b'<' ∷ 32 ∷ w
text (output true w) = b'>' ∷ b'>' ∷ 32 ∷ w
text (output false w) = b'>' ∷ 32 ∷ w
text pipe = b'|' ∷ []

abbrev pub IsToken : Token → Type 0
IsToken (arg w) = IsWord w
IsToken (input w) = IsWord w
IsToken (output append w) = IsWord w
IsToken pipe = Unit {0}

abbrev pub AllTokens : List Token → Type 0
AllTokens [] = Unit {0}
AllTokens (t ∷ ts) = IsToken t × AllTokens ts

unfoldable pub spell : Token → List Token → List ℕ
spell t [] = text t
spell t (u ∷ us) = text t ++ (32 ∷ spell u us)

-- What a token does in the first pass, and in the second.
unfoldable pub scan_token : Scan → Token → Scanned
scan_token sc (arg w) =
    scanned (record sc { has_token_last = true; total_strings = sc.total_strings + 1 })
scan_token sc (input w) =
    if ltb 0 sc.num_commands || sc.has_file_input
    then refused unexpected_file_input
    else scanned (record sc { has_file_input = true })
scan_token sc (output append w) =
    if sc.has_file_output
    then refused unexpected_file_output
    else scanned
        (record sc { has_file_output = true; is_file_append = append || sc.is_file_append })
scan_token sc pipe =
    if sc.has_file_output
    then refused unexpected_file_output
    else if not sc.has_token_last
    then refused unexpected_pipeline
    else scanned (record sc { has_token_last = false; num_commands = sc.num_commands + 1 })

unfoldable pub scan_tokens : Scan → List Token → Scanned
scan_tokens sc [] = scanned sc
scan_tokens sc (t ∷ ts) = elim (scan_token sc t) [
  | refused e ↦ refused e
  | scanned sc' ↦ scan_tokens sc' ts
]

unfoldable pub build_token : Build → Token → Build
build_token b (arg w) = record b { argv = b.argv ++ w ∷ [] }
build_token b (input w) = record b { stdin_file = some w }
build_token b (output append w) = record b { stdout_file = some w }
build_token b pipe = record b { done = b.done ++ b.argv ∷ []; argv = [] }

unfoldable pub build_tokens : Build → List Token → Build
build_tokens b [] = b
build_tokens b (t ∷ ts) = build_tokens (build_token b t) ts

abbrev pub to_round : Scanned → List ℕ → Round
to_round (refused e) r = jump_out e
to_round (scanned sc) r = continues sc r

abbrev pub head_char : List ℕ → ℕ
head_char [] = 0
head_char (c ∷ cs) = c

abbrev pub tail_chars : List ℕ → List ℕ
tail_chars [] = []
tail_chars (c ∷ cs) = cs

solid_word : (c : ℕ) (cs : List ℕ) → AllIn (c ∷ cs) → is_space c ≡ false
solid_word c cs all = ground (arith, all.0)

-- The name after a redirection: what is found, and what is left.
module _ (w r : List ℕ) (is : IsWord w) (end : stops r ≡ true) where
  solid-append : (w : List ℕ) → IsWord w → solid (w ++ r) ≡ true
  solid-append [] is = absurd (ground (arith, is.nonempty))
  solid-append (c ∷ cs) is = rw (solid_word c cs is.chars) refl

  file_word : word (skip_space (32 ∷ (w ++ r))) ≡ w
  file_word = rw (skip_space_space (w ++ r) (solid-append w is)) (word-append w r is.chars end)

  file_rest : skip_word (skip_space (32 ∷ (w ++ r))) ≡ r
  file_rest = rw (skip_space_space (w ++ r) (solid-append w is)) (skip_word-append w r is.chars end)

-- A round on a token's text does what the token does.
pub scan_round-token :
    (sc : Scan) (t : Token) (r : List ℕ)
    → IsToken t
    → stops r ≡ true
    → scan_round sc (head_char (text t)) (tail_chars (text t) ++ r) ≡ to_round (scan_token sc t) r
unfolding scan_round scan_token
scan_round-token sc (arg []) r is end = absurd (ground (arith, is.nonempty))
scan_round-token sc (arg (c ∷ cs)) r is end =
    ground (arith, is.chars.0, skip_word-append (c ∷ cs) r is.chars end)
scan_round-token sc (input w) r is end =
    rw (file_word w r is end, file_rest w r is end, is.nonempty) (ground arith)
scan_round-token sc (output true w) r is end =
    rw (file_word w r is end, file_rest w r is end, is.nonempty) (ground arith)
scan_round-token sc (output false w) r is end =
    rw (file_word w r is end, file_rest w r is end, is.nonempty) (ground arith)
scan_round-token sc pipe r is end = ground arith

abbrev pub appends : Bool → Token → Bool
appends a (output b w) = (if a then b else not b)
appends a t = true

pub build_round-token :
    (append : Bool) (b : Build) (t : Token) (r : List ℕ)
    → IsToken t
    → stops r ≡ true
    → appends append t ≡ true
    → build_round append b (head_char (text t)) (tail_chars (text t) ++ r) ≡ (build_token b t, r)
unfolding build_round build_token
build_round-token append b (arg []) r is end same = absurd (ground (arith, is.nonempty))
build_round-token append b (arg (c ∷ cs)) r is end same = ground (
  arith,
  is.chars.0,
  word-append (c ∷ cs) r is.chars end,
  skip_word-append (c ∷ cs) r is.chars end,
)
build_round-token append b (input w) r is end same =
    rw (file_word w r is end, file_rest w r is end) refl
build_round-token true b (output true w) r is end same =
    rw (file_word w r is end, file_rest w r is end) refl
build_round-token false b (output true w) r is end same = absurd (ground (arith, same))
build_round-token true b (output false w) r is end same = absurd (ground (arith, same))
build_round-token false b (output false w) r is end same =
    rw (file_word w r is end, file_rest w r is end) refl
build_round-token append b pipe r is end same = refl

-- The text of tokens, and what stands behind one of them.
abbrev pub after : List Token → List ℕ
after [] = []
after (t ∷ ts) = spell t ts

abbrev pub rest_of : List Token → List ℕ
rest_of [] = []
rest_of (t ∷ ts) = 32 ∷ spell t ts

rest_of-stops : (ts : List Token) → stops (rest_of ts) ≡ true
rest_of-stops [] = refl
rest_of-stops (t ∷ ts) = refl

text_cons :
    (t : Token) (r : List ℕ)
    → IsToken t
    → text t ++ r ≡ head_char (text t) ∷ (tail_chars (text t) ++ r)
text_cons (arg []) r is = absurd (ground (arith, is.nonempty))
text_cons (arg (c ∷ cs)) r is = refl
text_cons (input w) r is = refl
text_cons (output true w) r is = refl
text_cons (output false w) r is = refl
text_cons pipe r is = refl

spell_lem : (t : Token) (ts : List Token) → spell t ts ≡ text t ++ rest_of ts
unfolding spell
spell_lem t [] = rw append-nil
spell_lem t (u ∷ us) = refl

spell_cons :
    (t : Token) (ts : List Token)
    → IsToken t
    → spell t ts ≡ head_char (text t) ∷ (tail_chars (text t) ++ rest_of ts)
spell_cons t ts is = spell_lem t ts ∙ text_cons t (rest_of ts) is

solid_head : (t : Token) → IsToken t → is_space (head_char (text t)) ≡ false
solid_head (arg []) is = absurd (ground (arith, is.nonempty))
solid_head (arg (c ∷ cs)) is = solid_word c cs is.chars
solid_head (input w) is = refl
solid_head (output true w) is = refl
solid_head (output false w) is = refl
solid_head pipe is = refl

pub skip_space-rest_of : (ts : List Token) → AllTokens ts → skip_space (rest_of ts) ≡ after ts
unfolding skip_space
skip_space-rest_of [] all = refl
skip_space-rest_of (t ∷ ts) (is, all) =
    skip_space-solid (spell t ts) (rw (spell_cons t ts is, solid_head t is) refl)

-- Each token costs at least one character, and the passes one round.
fewer :
    (f : ℕ) (t : Token) (ts : List Token)
    → IsToken t
    → length (spell t ts) ≤ suc f
    → length (after ts) ≤ f
fewer f t [] is h = omega arith
fewer f t (u ∷ us) is h = omega (
  arith,
  ap length (spell_cons t (u ∷ us) is),
  length-append (tail_chars (text t)) (32 ∷ spell u us),
)

no_fuel : (t : Token) (ts : List Token) → IsToken t → length (spell t ts) ≤ 0 → ⊥
no_fuel t ts is h = omega (arith, ap length (spell_cons t ts is))

-- One round of each pass.
pub first_pass_more :
    (f : ℕ) (sc sc' : Scan) (c : ℕ) (cs r : List ℕ)
    → scan_round sc c cs ≡ continues sc' r
    → first_pass (suc f) sc (c ∷ cs) ≡ first_pass f sc' (skip_space r)
unfolding first_pass
first_pass_more f sc sc' c cs r e = rw (e, first_pass)

pub first_pass_ends :
    (f : ℕ) (sc : Scan) (c : ℕ) (cs : List ℕ) (why : ParserError)
    → scan_round sc c cs ≡ jump_out why
    → first_pass (suc f) sc (c ∷ cs) ≡ ok (refused why)
unfolding first_pass
first_pass_ends f sc c cs why e = rw (e, first_pass)

pub second_pass_more :
    (f : ℕ) (append : Bool) (b b' : Build) (c : ℕ) (cs r : List ℕ)
    → build_round append b c cs ≡ (b', r)
    → second_pass (suc f) append b (c ∷ cs) ≡ second_pass f append b' (skip_space r)
unfolding second_pass
second_pass_more f append b b' c cs r e =
    ap (λ (x : Build × List ℕ). second_pass f append x.0 (skip_space x.1)) e

-- The first pass over spelled tokens takes them one by one.
pub first_pass-after :
    (f : ℕ) (sc : Scan) (ts : List Token)
    → AllTokens ts
    → length (after ts) ≤ f
    → first_pass f sc (after ts) ≡ ok (scan_tokens sc ts)
unfolding first_pass scan_tokens
first_pass-after f sc [] all h = refl
first_pass-after zero sc (t ∷ ts) (is, all) h = absurd (no_fuel t ts is h)
first_pass-after (suc f) sc (t ∷ ts) (is, all) h =
    go (scan_token sc t) refl (λ sc'. first_pass-after f sc' ts all (fewer f t ts is h))
  where
    round :
        scan_round sc (head_char (text t)) (tail_chars (text t) ++ rest_of ts)
        ≡ to_round (scan_token sc t) (rest_of ts)
    round = scan_round-token sc t (rest_of ts) is (rest_of-stops ts)

    go :
        (s : Scanned)
        → scan_token sc t ≡ s
        → ((sc' : Scan) → first_pass f sc' (after ts) ≡ ok (scan_tokens sc' ts))
        → first_pass (suc f) sc (spell t ts) ≡ ok (scan_tokens sc (t ∷ ts))
    go (refused e) does ih = rw (spell_cons t ts is) (
        first_pass_ends f sc _ _ e (round ∙ ap (λ x. to_round x (rest_of ts)) does)
        ∙ rw (does, scan_tokens))
    go (scanned sc') does ih = rw (spell_cons t ts is) (
        first_pass_more f sc sc' _ _ (rest_of ts) (round ∙ ap (λ x. to_round x (rest_of ts)) does)
        ∙ rw (skip_space-rest_of ts all) (ih sc' ∙ rw (does, scan_tokens)))

abbrev pub AllAppend : Bool → List Token → Type 0
AllAppend append [] = Unit {0}
AllAppend append (t ∷ ts) = (appends append t ≡ true) × AllAppend append ts

pub second_pass-after :
    (f : ℕ) (append : Bool) (b : Build) (ts : List Token)
    → AllTokens ts
    → AllAppend append ts
    → length (after ts) ≤ f
    → second_pass f append b (after ts) ≡ ok (build_tokens b ts)
unfolding second_pass build_tokens
second_pass-after f append b [] all same h = refl
second_pass-after zero append b (t ∷ ts) (is, all) same h = absurd (no_fuel t ts is h)
second_pass-after (suc f) append b (t ∷ ts) (is, all) (same, sames) h = rw (spell_cons t ts is) (
    second_pass_more f append b (build_token b t) _ _ (rest_of ts)
      (build_round-token append b t (rest_of ts) is (rest_of-stops ts) same)
    ∙ rw (skip_space-rest_of ts all)
        (second_pass-after f append (build_token b t) ts all sames (fewer f t ts is h)))

pub solid-spell : (t : Token) (ts : List Token) → IsToken t → solid (spell t ts) ≡ true
solid-spell t ts is = rw (spell_cons t ts is, solid_head t is) refl
