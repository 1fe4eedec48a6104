-- ===== src/Parser/Moves.antt =====
-- What a round of the first pass of parse_command (src/util/parser.c) does to the line and to the output mode.
use pennosgrp.Prelude.{
  ℕ, ◌+◌, ◌≤◌, ◌≡◌, refl, true, false, Bool, ◌||◌, not, List, [], ◌∷◌, arith, length, ltb, ◌==◌,
  if◌then◌else◌, Bool-cases, inl, inr,
}
use pennosgrp.Parser.{
  is_space, in_word, is_nil, word, skip_word, skip_space, ParserError, Scan, Round, jump_out,
  continues, file_name, output_round, scan_round, expect_input_filename, expect_output_filename,
  unexpected_file_input, unexpected_file_output, unexpected_pipeline,
}
use pennosgrp.Parser.Words.{
  NoComment, skip_word-NoComment, skip_space-NoComment, length-skip_word, length-skip_space,
}

-- Once there is an output file, the append mode stays.
abbrev pub Stays : Scan → Round → Type 0
Stays sc (jump_out e) = Unit {0}
Stays sc (continues sc' rest) =
    (sc'.has_file_output ≡ true) × (sc'.is_file_append ≡ sc.is_file_append)

-- What every round does to the line, and that '>' gives an output file.
abbrev pub Moves : ℕ → List ℕ → Round → Type 0
Moves c cs (jump_out e) = Unit {0}
Moves c cs (continues sc rest) =
    (length rest ≤ length cs)
    × (NoComment cs → NoComment rest)
    × ((c == b'>') ≡ true → sc.has_file_output ≡ true)

Stays-file_name :
    (sc sc' : Scan) (e : ParserError) (cs : List ℕ)
    → sc'.has_file_output ≡ true
    → sc'.is_file_append ≡ sc.is_file_append
    → Stays sc (file_name sc' e cs)
Stays-file_name sc sc' e cs out same = elim (Bool-cases (is_nil (word (skip_space cs)))) [
  | inl nothing ↦ rw nothing tt
  | inr found ↦ rw found (out, same)
]

pub round-Stays :
    (sc : Scan) (c : ℕ) (cs : List ℕ) → sc.has_file_output ≡ true → Stays sc (scan_round sc c cs)
unfolding scan_round
round-Stays sc c cs out = elim (Bool-cases (c == b'&')) [
  | inl amp ↦ rw amp tt
  | inr no_amp ↦ elim (Bool-cases (c == b'<')) [
    | inl lt ↦ rw (no_amp, lt) (input_case (ltb 0 sc.num_commands || sc.has_file_input))
    | inr no_lt ↦ elim (Bool-cases (c == b'>')) [
      | inl gt ↦ rw (no_amp, no_lt, gt) (output_case sc.has_file_output out)
      | inr no_gt ↦ elim (Bool-cases (c == b'|')) [
        | inl bar ↦ rw (no_amp, no_lt, no_gt, bar) (pipe_case sc.has_file_output out)
        | inr no_bar ↦ rw (no_amp, no_lt, no_gt, no_bar) (out, refl)
      ]
    ]
  ]
]
  where
    input_case :
        (bad : Bool)
        → Stays sc (
            if bad
            then jump_out unexpected_file_input
            else file_name (record sc { has_file_input = true }) expect_input_filename cs)
    input_case true = tt
    input_case false =
        Stays-file_name sc (record sc { has_file_input = true }) expect_input_filename cs out refl

    output_case :
        (o : Bool)
        → o ≡ true
        → Stays sc (if o then jump_out unexpected_file_output else output_round sc cs)
    output_case true e = tt
    output_case false e = absurd (ground (arith, e))

    pipe_case :
        (o : Bool)
        → o ≡ true
        → Stays sc (
            if o
            then jump_out unexpected_file_output
            else if not sc.has_token_last
            then jump_out unexpected_pipeline
            else continues
                (record sc { has_token_last = false; num_commands = sc.num_commands + 1 })
                cs)
    pipe_case true e = tt
    pipe_case false e = absurd (ground (arith, e))

Moves-file_name :
    (sc : Scan) (e : ParserError) (c : ℕ) (cs all : List ℕ)
    → length cs ≤ length all
    → (NoComment all → NoComment cs)
    → ((c == b'>') ≡ true → sc.has_file_output ≡ true)
    → Moves c all (file_name sc e cs)
Moves-file_name sc e c cs all shorter clean out =
    elim (Bool-cases (is_nil (word (skip_space cs)))) [
      | inl nothing ↦ rw nothing tt
      | inr found ↦ rw found (
        omega (arith, length-skip_word (skip_space cs), length-skip_space cs),
        λ h. skip_word-NoComment (skip_space cs) (skip_space-NoComment cs (clean h)),
        out,
      )
    ]

Moves-output_round : (sc : Scan) (c : ℕ) (cs : List ℕ) → Moves c cs (output_round sc cs)
Moves-output_round sc c [] =
    Moves-file_name (record sc { has_file_output = true }) expect_output_filename c [] []
      (omega arith) (λ h. h) (λ h. refl)
Moves-output_round sc c (d ∷ ds) = elim (Bool-cases (d == b'>')) [
  | inl twice ↦ rw twice (
      Moves-file_name (record sc { has_file_output = true; is_file_append = true })
        expect_output_filename c ds (d ∷ ds) (omega arith) (λ h. h.1) (λ h. refl))
  | inr once ↦ rw once (
      Moves-file_name (record sc { has_file_output = true }) expect_output_filename c (d ∷ ds)
        (d ∷ ds) (omega arith) (λ h. h) (λ h. refl))
]

-- Every round shortens the line.
pub round-Moves :
    (sc : Scan) (c : ℕ) (cs : List ℕ) → is_space c ≡ false → Moves c cs (scan_round sc c cs)
unfolding scan_round
round-Moves sc c cs solid_c = elim (Bool-cases (c == b'&')) [
  | inl amp ↦ rw amp tt
  | inr no_amp ↦ elim (Bool-cases (c == b'<')) [
    | inl lt ↦ rw (no_amp, lt) (input_case lt (ltb 0 sc.num_commands || sc.has_file_input))
    | inr no_lt ↦ elim (Bool-cases (c == b'>')) [
      | inl gt ↦ rw (no_amp, no_lt, gt) (output_case sc.has_file_output)
      | inr no_gt ↦ elim (Bool-cases (c == b'|')) [
        | inl bar ↦
            rw (no_amp, no_lt, no_gt, bar) (pipe_case no_gt sc.has_file_output sc.has_token_last)
        | inr no_bar ↦
            rw (no_amp, no_lt, no_gt, no_bar)
              (
                shorter (ground (arith, no_amp, no_lt, no_gt, no_bar, solid_c)),
                clean (ground (arith, no_amp, no_lt, no_gt, no_bar, solid_c)),
                λ h. absurd (ground (arith, h, no_gt)),
              )
      ]
    ]
  ]
]
  where
    shorter : in_word c ≡ true → length (skip_word (c ∷ cs)) ≤ length cs
    shorter inside = unfold skip_word in rw inside (length-skip_word cs)

    clean : in_word c ≡ true → NoComment cs → NoComment (skip_word (c ∷ cs))
    clean inside h = unfold skip_word in rw inside (skip_word-NoComment cs h)

    input_case :
        (c == b'<') ≡ true
        → (bad : Bool)
        → Moves c cs (
            if bad
            then jump_out unexpected_file_input
            else file_name (record sc { has_file_input = true }) expect_input_filename cs)
    input_case lt true = tt
    input_case lt false =
        Moves-file_name (record sc { has_file_input = true }) expect_input_filename c cs cs
          (omega arith) (λ h. h) (λ gt. absurd (ground (arith, lt, gt)))

    output_case :
        (o : Bool) → Moves c cs (if o then jump_out unexpected_file_output else output_round sc cs)
    output_case true = tt
    output_case false = Moves-output_round sc c cs

    pipe_case :
        (c == b'>') ≡ false
        → (o last : Bool)
        → Moves c cs (
            if o
            then jump_out unexpected_file_output
            else if not last
            then jump_out unexpected_pipeline
            else continues
                (record sc { has_token_last = false; num_commands = sc.num_commands + 1 })
                cs)
    pipe_case no_gt true last = tt
    pipe_case no_gt false false = tt
    pipe_case no_gt false true = (omega arith, λ h. h, λ gt. absurd (ground (arith, no_gt, gt)))
