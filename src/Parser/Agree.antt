-- ===== src/Parser/Agree.antt =====
-- The two passes of parse_command (src/util/parser.c) in step: what the first one counts is what the
-- second one puts in.
use pennosgrp.Prelude.{
  ℕ, ◌+◌, ◌≡◌, refl, ap, sym, ◌∙◌, true, false, Bool, ◌||◌, not, some, List, [], ◌∷◌, ◌++◌, arith,
  length, length-append, ltb, ◌==◌, if◌then◌else◌, Bool-cases, inl, inr,
}
use pennosgrp.Parser.{
  is_space, in_word, is_nil, word, skip_word, skip_space, Scan, Round, jump_out, continues,
  file_name, output_round, scan_round, Build, skip_one, build_round, expect_input_filename,
  expect_output_filename, unexpected_file_input, unexpected_file_output, unexpected_pipeline,
}
use pennosgrp.Parser.Words.{IsWord, NoComment, skip_space-NoComment, word-AllIn}
use pennosgrp.Parser.Shape.{AllWords, AllArgvs, IsFile, is_none}

abbrev pub count : List (List (List ℕ)) → ℕ
count [] = 0
count (ws ∷ wss) = length ws + count wss

-- The variables of the passes at the same place of the line.
pub record Agree (sc : Scan) (b : Build) : Type 0 where
  pub stages : length b.done ≡ sc.num_commands
  pub words : count b.done + length b.argv ≡ sc.total_strings
  pub done_ok : AllArgvs b.done
  pub argv_ok : AllWords b.argv
  pub last : is_nil b.argv ≡ not sc.has_token_last
  pub input : IsFile b.stdin_file
  pub output : IsFile b.stdout_file
  pub has_output : is_none b.stdout_file ≡ not sc.has_file_output
  pub no_append : sc.has_file_output ≡ false → sc.is_file_append ≡ false

-- What a round keeps: both passes go on at the same place, and still agree, provided that the second one
-- knows the append mode.
abbrev pub Keeps : Bool → ℕ → List ℕ → Round → Build × List ℕ → Type 0
Keeps append c cs (jump_out e) r = Unit {0}
Keeps append c cs (continues sc rest) r =
    ((c == b'>') ≡ true → sc.is_file_append ≡ append) → (r.1 ≡ rest) × Agree sc r.0

AllWords-snoc : (ws : List (List ℕ)) (w : List ℕ) → AllWords ws → IsWord w → AllWords (ws ++ w ∷ [])
AllWords-snoc [] w all is = (is, tt)
AllWords-snoc (x ∷ ws) w (is_x, all) is = (is_x, AllWords-snoc ws w all is)

pub AllArgvs-snoc :
    (wss : List (List (List ℕ))) (ws : List (List ℕ))
    → AllArgvs wss
    → is_nil ws ≡ false
    → AllWords ws
    → AllArgvs (wss ++ ws ∷ [])
AllArgvs-snoc [] ws all ne is = (ne, is, tt)
AllArgvs-snoc (x ∷ wss) ws (ne_x, is_x, all) ne is = (ne_x, is_x, AllArgvs-snoc wss ws all ne is)

pub count_snoc :
    (wss : List (List (List ℕ))) (ws : List (List ℕ))
    → count (wss ++ ws ∷ []) ≡ count wss + length ws
count_snoc [] ws = omega arith
count_snoc (x ∷ wss) ws = omega (arith, count_snoc wss ws)

pub nil_snoc {ℓ} : {A : Type ℓ} (xs : List A) (x : A) → is_nil (xs ++ x ∷ []) ≡ false
nil_snoc [] x = refl
nil_snoc (y ∷ ys) x = refl

-- A file name that is there.
file_IsWord : (s : List ℕ) → NoComment s → is_nil (word s) ≡ false → IsWord (word s)
file_IsWord s h ne = record { nonempty = ne; chars = word-AllIn s h }

-- A word of the line.
pub argument_round :
    (sc : Scan) (b : Build) (c : ℕ) (cs : List ℕ)
    → Agree sc b
    → NoComment (c ∷ cs)
    → in_word c ≡ true
    → Agree
        (record sc { has_token_last = true; total_strings = sc.total_strings + 1 })
        (record b { argv = b.argv ++ word (c ∷ cs) ∷ [] })
argument_round sc b c cs a h inside = record {
  stages = a.stages;
  words = omega (arith, a.words, length-append b.argv (word (c ∷ cs) ∷ []));
  done_ok = a.done_ok;
  argv_ok = AllWords-snoc b.argv (word (c ∷ cs)) a.argv_ok (file_IsWord (c ∷ cs) h (first inside));
  last = nil_snoc b.argv (word (c ∷ cs));
  input = a.input;
  output = a.output;
  has_output = a.has_output;
  no_append = a.no_append;
}
  where
    first : in_word c ≡ true → is_nil (word (c ∷ cs)) ≡ false
    first inside = unfold word in rw inside

input_round :
    (append : Bool) (sc : Scan) (b : Build) (c : ℕ) (cs : List ℕ)
    → Agree sc b
    → NoComment cs
    → Keeps append c cs
        (file_name (record sc { has_file_input = true }) expect_input_filename cs)
        (record b { stdin_file = some (word (skip_space cs)) }, skip_word (skip_space cs))
input_round append sc b c cs a h = elim (Bool-cases (is_nil (word (skip_space cs)))) [
  | inl nothing ↦ rw nothing tt
  | inr found ↦ rw found λ _. (
    refl,
    record {
      stages = a.stages;
      words = a.words;
      done_ok = a.done_ok;
      argv_ok = a.argv_ok;
      last = a.last;
      input = file_IsWord (skip_space cs) (skip_space-NoComment cs h) found;
      output = a.output;
      has_output = a.has_output;
      no_append = a.no_append;
    },
  )
]

-- After the '>' signs, where the second pass reads on at `at`.
output_file :
    (append mode : Bool) (sc : Scan) (b : Build) (c : ℕ) (cs at all : List ℕ)
    → (c == b'>') ≡ true
    → Agree sc b
    → NoComment cs
    → (mode ≡ append → at ≡ cs)
    → Keeps append c all
        (file_name
          (record sc { has_file_output = true; is_file_append = mode })
          expect_output_filename
          cs)
        (record b { stdout_file = some (word (skip_space at)) }, skip_word (skip_space at))
output_file append mode sc b c cs at all gt a h same =
    elim (Bool-cases (is_nil (word (skip_space cs)))) [
      | inl nothing ↦ rw nothing tt
      | inr found ↦ rw found λ known. (
        ap (λ x. skip_word (skip_space x)) (same (known gt)),
        record {
          stages = a.stages;
          words = a.words;
          done_ok = a.done_ok;
          argv_ok = a.argv_ok;
          last = a.last;
          input = a.input;
          output =
              rw (same (known gt)) (file_IsWord (skip_space cs) (skip_space-NoComment cs h) found);
          has_output = refl;
          no_append = λ e. absurd (ground (arith, e));
        },
      )
    ]

skip_one-true :
    (append : Bool) (d : ℕ) (ds : List ℕ) → true ≡ append → skip_one append (d ∷ ds) ≡ ds
skip_one-true true d ds e = refl
skip_one-true false d ds e = absurd (ground (arith, e))

skip_one-false : (append : Bool) (ds : List ℕ) → false ≡ append → skip_one append ds ≡ ds
skip_one-false true ds e = absurd (ground (arith, e))
skip_one-false false ds e = refl

no_word : word (skip_space []) ≡ []
unfolding word skip_space
no_word = refl

output-Keeps :
    (append : Bool) (sc : Scan) (b : Build) (c : ℕ) (cs : List ℕ)
    → (c == b'>') ≡ true
    → Agree sc b
    → NoComment cs
    → sc.has_file_output ≡ false
    → Keeps append c cs (output_round sc cs) (
      record b { stdout_file = some (word (skip_space (skip_one append cs))) },
      skip_word (skip_space (skip_one append cs)),
    )
output-Keeps append sc b c [] gt a h out = rw no_word tt
output-Keeps append sc b c (d ∷ ds) gt a h out = elim (Bool-cases (d == b'>')) [
  | inl twice ↦
      rw twice
        (output_file append true sc b c ds _ (d ∷ ds) gt a h.1 (λ e. skip_one-true append d ds e))
  | inr once ↦ rw once (
      output_file append sc.is_file_append sc b c (d ∷ ds) _ (d ∷ ds) gt a h
        (λ e. skip_one-false append (d ∷ ds) (sym (a.no_append out) ∙ e)))
]

pipe_round :
    (sc : Scan) (b : Build)
    → Agree sc b
    → sc.has_token_last ≡ true
    → Agree
        (record sc { has_token_last = false; num_commands = sc.num_commands + 1 })
        (record b { done = b.done ++ b.argv ∷ []; argv = [] })
pipe_round sc b a last = record {
  stages = omega (arith, a.stages, length-append b.done (b.argv ∷ []));
  words = omega (arith, a.words, count_snoc b.done b.argv);
  done_ok = AllArgvs-snoc b.done b.argv a.done_ok (a.last ∙ ap not last) a.argv_ok;
  argv_ok = tt;
  last = refl;
  input = a.input;
  output = a.output;
  has_output = a.has_output;
  no_append = a.no_append;
}

-- Every round keeps the passes in step.
pub round-Keeps :
    (append : Bool) (sc : Scan) (b : Build) (c : ℕ) (cs : List ℕ)
    → Agree sc b
    → NoComment (c ∷ cs)
    → is_space c ≡ false
    → Keeps append c cs (scan_round sc c cs) (build_round append b c cs)
unfolding scan_round build_round
round-Keeps append sc b c cs a h solid_c = elim (Bool-cases (c == b'&')) [
  | inl amp ↦ rw amp tt
  | inr no_amp ↦ elim (Bool-cases (c == b'<')) [
    | inl lt ↦ rw (no_amp, lt) (input_case (ltb 0 sc.num_commands || sc.has_file_input))
    | inr no_lt ↦ elim (Bool-cases (c == b'>')) [
      | inl gt ↦ rw (no_amp, no_lt, gt) (output_case gt sc.has_file_output refl)
      | inr no_gt ↦ elim (Bool-cases (c == b'|')) [
        | inl bar ↦
            rw (no_amp, no_lt, no_gt, bar) (pipe_case sc.has_file_output sc.has_token_last refl)
        | inr no_bar ↦
            rw (no_amp, no_lt, no_gt, no_bar)
              λ _. (
                refl,
                argument_round sc b c cs a h
                    (ground (arith, no_amp, no_lt, no_gt, no_bar, solid_c)),
              )
      ]
    ]
  ]
]
  where
    input_case :
        (bad : Bool)
        → Keeps append c cs
            (if bad
              then jump_out unexpected_file_input
              else file_name (record sc { has_file_input = true }) expect_input_filename cs)
            (record b { stdin_file = some (word (skip_space cs)) }, skip_word (skip_space cs))
    input_case true = tt
    input_case false = input_round append sc b c cs a h.1

    output_case :
        (c == b'>') ≡ true
        → (out : Bool) → sc.has_file_output ≡ out
        → Keeps append c cs (if out then jump_out unexpected_file_output else output_round sc cs) (
          record b { stdout_file = some (word (skip_space (skip_one append cs))) },
          skip_word (skip_space (skip_one append cs)),
        )
    output_case gt true e = tt
    output_case gt false e = output-Keeps append sc b c cs gt a h.1 e

    pipe_case :
        (out last : Bool)
        → sc.has_token_last ≡ last
        → Keeps append c cs
            (if out
              then jump_out unexpected_file_output
              else if not last
              then jump_out unexpected_pipeline
              else continues
                  (record sc { has_token_last = false; num_commands = sc.num_commands + 1 })
                  cs)
            (record b { done = b.done ++ b.argv ∷ []; argv = [] }, cs)
    pipe_case true last e = tt
    pipe_case false false e = tt
    pipe_case false true e = λ _. (refl, pipe_round sc b a e)
