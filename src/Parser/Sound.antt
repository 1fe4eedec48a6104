-- ===== src/Parser/Sound.antt =====
-- parse_command (src/util/parser.c) on any line.
use pennosgrp.Prelude.{
  ℕ, ◌≡◌, refl, ap, sym, ◌∙◌, true, false, Bool, ◌||◌, not, Option, none, some, List, [], ◌∷◌, ◌++◌,
  arith, length, ◌==◌, if◌then◌else◌, Bool-cases, inl, inr, ok, ◌>>=◌,
}
use pennosgrp.Parser.{
  is_space, is_nil, cons_unless, skip_space, before_comment, trim_end, unsnoc, Scan, scan_start,
  Scanned, refused, scanned, first_pass, build_start, ParsedCommand, Parsed, parsed, fails, finish,
  parse_body, parse_command, empty_command, print_parsed_command, unexpected_pipeline,
  system_call_error, expect_commands,
}
use pennosgrp.Parser.Words.{
  NoComment, KeptPart, before_comment-NoComment, skip_space-NoComment, trim_end-NoComment,
  unsnoc-NoComment, solid,
}
use pennosgrp.Parser.Shape.{IsCommand}
use pennosgrp.Parser.Agree.{nil_snoc, AllArgvs-snoc}
use pennosgrp.Parser.RoundTrip.{parse-print_parsed_command}
use pennosgrp.Parser.Counts.{solid-skip_space, first_pass_total, passes-Agree, start_Agree}

-- What a result of parse_command is: an error, an empty line, or a command as IsCommand says.
abbrev pub IsResult : Parsed → Type 0
IsResult (fails e) = Unit {0}
IsResult (parsed cmd) = (is_nil cmd.commands ≡ false) → IsCommand cmd

finish_lem :
    (realloc_ok background : Bool) (s : List ℕ) (sc : Scan)
    → NoComment s
    → solid s ≡ true
    → first_pass (length s) scan_start s ≡ ok (scanned sc)
    → (r : Parsed) × (finish realloc_ok background s sc ≡ ok r) × IsResult r
finish_lem realloc_ok background s sc clean h e = elim (Bool-cases (sc.total_strings == 0)) [
  | inl nothing ↦ rw nothing (none_case (background || sc.has_file_input || sc.has_file_output))
  | inr some_word ↦ elim (Bool-cases sc.has_token_last) [
    | inr open_end ↦ (fails unexpected_pipeline, rw (some_word, open_end), tt)
    | inl closed ↦ elim (Bool-cases realloc_ok) [
      | inr out ↦ (fails system_call_error, rw (some_word, closed, out), tt)
      | inl memory ↦
          let (b, runs, a) =
            passes-Agree (length s) scan_start sc build_start s start_Agree clean h e in
          (
            parsed (record {
              is_background = background;
              is_file_append = sc.is_file_append;
              stdin_file = b.stdin_file;
              stdout_file = b.stdout_file;
              commands = b.done ++ b.argv ∷ [];
            }),
            rw (some_word, closed, memory) (rw (runs, ◌>>=◌) refl),
            λ _. record {
              some_stage = nil_snoc b.done b.argv;
              stages = AllArgvs-snoc b.done b.argv a.done_ok (a.last ∙ ap not closed) a.argv_ok;
              input = a.input;
              output = a.output;
              append =
                  λ no_file. a.no_append (flip sc.has_file_output (sym a.has_output ∙ no_file));
            },
          )
    ]
  ]
]
  where
    none_case :
        (b : Bool)
        → (r : Parsed) × (ok (if b then fails expect_commands else parsed empty_command) ≡ ok r)
          × IsResult r
    none_case true = (fails expect_commands, refl, tt)
    none_case false = (parsed empty_command, refl, λ ne. absurd (ground (arith, ne)))

    flip : (b : Bool) → not b ≡ true → b ≡ false
    flip true e = absurd (ground (arith, e))
    flip false e = refl

parse_body_lem :
    (realloc_ok background : Bool) (s : List ℕ)
    → NoComment s
    → solid s ≡ true
    → (r : Parsed) × (parse_body realloc_ok background s ≡ ok r) × IsResult r
unfolding parse_body
parse_body_lem realloc_ok background s clean h =
    let (x, runs) = first_pass_total (length s) scan_start s h (omega arith) in go x runs
  where
    go :
        (x : Scanned)
        → first_pass (length s) scan_start s ≡ ok x
        → (r : Parsed) × (parse_body realloc_ok background s ≡ ok r) × IsResult r
    go (refused e) runs = (fails e, rw (runs, ◌>>=◌) refl, tt)
    go (scanned sc) runs =
        let (r, eq, is) = finish_lem realloc_ok background s sc clean h runs in
        (r, rw (runs, ◌>>=◌) eq, is)

trim_end-solid : (s : List ℕ) → solid s ≡ true → solid (trim_end s) ≡ true
unfolding trim_end
trim_end-solid [] h = refl
trim_end-solid (c ∷ cs) h = keep (trim_end cs)
  where
    keep : (t : List ℕ) → solid (cons_unless (is_space c) c t) ≡ true
    keep [] = elim (Bool-cases (is_space c)) [ inl e ↦ rw e refl | inr e ↦ rw (e, e) refl ]
    keep (x ∷ xs) = h

abbrev SolidPart : Option (List ℕ × ℕ) → Type 0
SolidPart none = Unit {0}
SolidPart (some (t, c)) = solid t ≡ true

unsnoc-solid : (s : List ℕ) → solid s ≡ true → SolidPart (unsnoc s)
unfolding unsnoc
unsnoc-solid [] h = tt
unsnoc-solid (d ∷ s) h = keep (unsnoc s)
  where
    keep :
        (o : Option (List ℕ × ℕ))
        → SolidPart (elim o [ none ↦ some ([], d) | some (ds, x) ↦ some (d ∷ ds, x) ])
    keep none = refl
    keep (some (ds, x)) = h

-- parse_command ends on every line, with an error, with the empty command, or with a well-formed
-- command: no empty stage, no empty word or file name, and no append mode without an output file.
pub parse_command_lem :
    (calloc_ok realloc_ok : Bool) (line : List ℕ)
    → (r : Parsed) × (parse_command calloc_ok realloc_ok line ≡ ok r) × IsResult r
unfolding parse_command
parse_command_lem false realloc_ok line = (fails system_call_error, refl, tt)
parse_command_lem true realloc_ok line = elim (Bool-cases (is_nil s)) [
  | inl nothing ↦ (parsed empty_command, rw nothing refl, λ ne. absurd (ground (arith, ne)))
  | inr more ↦ rw more (go (unsnoc s) (unsnoc-NoComment s clean) (unsnoc-solid s solid_s))
]
  where
    s : List ℕ
    s = trim_end (skip_space (before_comment line))

    clean : NoComment s
    clean = trim_end-NoComment _ (skip_space-NoComment _ (before_comment-NoComment line))

    solid_s : solid s ≡ true
    solid_s = trim_end-solid _ (solid-skip_space (before_comment line))

    go :
        (o : Option (List ℕ × ℕ))
        → KeptPart o
        → SolidPart o
        → (r : Parsed) × ((elim o [
          | none ↦ ok (parsed empty_command)
          | some (body, last) ↦
              if last == b'&'
              then parse_body realloc_ok true (trim_end body)
              else parse_body realloc_ok false s
        ])
            ≡ ok r)
          × IsResult r
    go none kept front = (parsed empty_command, refl, λ ne. absurd (ground (arith, ne)))
    go (some (body, last)) kept front = elim (Bool-cases (last == b'&')) [
      | inl amp ↦ rw amp (
          parse_body_lem realloc_ok true (trim_end body) (trim_end-NoComment body kept)
            (trim_end-solid body front))
      | inr other ↦ rw other (parse_body_lem realloc_ok false s clean solid_s)
    ]

-- While memory does not run out, printing a command that a line was parsed to, and parsing that, gives
-- the same command.
pub parse-print-parse :
    (line : List ℕ) (cmd : ParsedCommand)
    → parse_command true true line ≡ ok (parsed cmd)
    → is_nil cmd.commands ≡ false
    → parse_command true true (print_parsed_command cmd) ≡ parse_command true true line
parse-print-parse line cmd e some_stage =
    let (r, eq, is) = parse_command_lem true true line in
    let same : r ≡ parsed cmd = ground (arith, e, eq) in
    let well : IsResult (parsed cmd) = rw same at is in
    parse-print_parsed_command cmd (well some_stage) ∙ sym e
