-- ===== src/Parser.antt =====
-- parse_command and print_parsed_command of src/util/parser.c. A command line is the list of its bytes,
-- without the 0 at its end. The words of the result are copied out of the line; in the code they are
-- pointers into a copy of the line in which every word is followed by a 0.
pub mod Words
pub mod Spell
pub mod Shape
pub mod Passes
pub mod RoundTrip
pub mod Agree
pub mod Moves
pub mod Counts
pub mod Sound
use pennosgrp.Prelude.{
  ℕ, zero, suc, ◌+◌, ◌-◌, Bool, true, false, not, ◌&&◌, ◌||◌, Option, none, some, List, [], ◌∷◌,
  ◌++◌, length, set, ltb, leb, ◌==◌, if◌then◌else◌, Outcome, ok, out_of_fuel, ◌>>=◌,
}

-- isspace in the C locale.
abbrev pub is_space : ℕ → Bool
is_space c = c == 32 || (leb 9 c && leb c 13)

-- The characters that end a word.
abbrev pub is_special : ℕ → Bool
is_special c = c == b'<' || c == b'>' || c == b'|' || c == b'&'

abbrev pub in_word : ℕ → Bool
in_word c = not (is_special c || is_space c)

-- What skip_word passes, and what is left.
unfoldable pub word : List ℕ → List ℕ
word [] = []
word (c ∷ cs) = if in_word c then c ∷ word cs else []

unfoldable pub skip_word : List ℕ → List ℕ
skip_word [] = []
skip_word (c ∷ cs) = if in_word c then skip_word cs else c ∷ cs

unfoldable pub skip_space : List ℕ → List ℕ
skip_space [] = []
skip_space (c ∷ cs) = if is_space c then skip_space cs else c ∷ cs

-- The line up to its first '#'.
pub before_comment : List ℕ → List ℕ
before_comment [] = []
before_comment (c ∷ cs) = if c == b'#' then [] else c ∷ before_comment cs

abbrev pub cons_unless : Bool → ℕ → List ℕ → List ℕ
cons_unless b c [] = if b then [] else c ∷ []
cons_unless b c (d ∷ ds) = c ∷ d ∷ ds

-- while (start < end && isspace(end[-1])) --end;
pub trim_end : List ℕ → List ℕ
trim_end [] = []
trim_end (c ∷ cs) = cons_unless (is_space c) c (trim_end cs)

-- The characters but the last one, and the last one.
pub unsnoc : List ℕ → Option (List ℕ × ℕ)
unsnoc [] = none
unsnoc (c ∷ cs) = elim (unsnoc cs) [ none ↦ some ([], c) | some (ds, d) ↦ some (c ∷ ds, d) ]

pub data ParserError : Type 0 where
  unexpected_file_input unexpected_file_output unexpected_pipeline : ParserError
  unexpected_ampersand expect_input_filename expect_output_filename : ParserError
  expect_commands system_call_error : ParserError

-- struct parsed_command; num_commands is the length of `commands`.
pub record ParsedCommand : Type 0 where
  pub is_background : Bool
  pub is_file_append : Bool
  pub stdin_file : Option (List ℕ)
  pub stdout_file : Option (List ℕ)
  pub commands : List (List (List ℕ))

abbrev pub empty_command : ParsedCommand
empty_command = record {
  is_background = false;
  is_file_append = false;
  stdin_file = none;
  stdout_file = none;
  commands = [];
}

-- The variables of the first pass.
pub record Scan : Type 0 where
  pub has_token_last : Bool
  pub has_file_input : Bool
  pub has_file_output : Bool
  pub is_file_append : Bool
  pub num_commands : ℕ
  pub total_strings : ℕ

abbrev pub scan_start : Scan
scan_start = record {
  has_token_last = false;
  has_file_input = false;
  has_file_output = false;
  is_file_append = false;
  num_commands = 0;
  total_strings = 0;
}

-- A round of the first pass: an error, or the variables and the rest of the line.
pub data Round : Type 0 where
  jump_out : ParserError → Round
  continues : Scan → List ℕ → Round

abbrev pub is_nil {ℓ} : {A : Type ℓ} → List A → Bool
is_nil [] = true
is_nil (x ∷ xs) = false

-- A file name must follow.
abbrev pub file_name : Scan → ParserError → List ℕ → Round
file_name sc e cs =
    if is_nil (word (skip_space cs)) then jump_out e else continues sc (skip_word (skip_space cs))

-- '>' or '>>', after the first '>'.
abbrev pub output_round : Scan → List ℕ → Round
output_round sc [] = file_name (record sc { has_file_output = true }) expect_output_filename []
output_round sc (c ∷ cs) =
    if c == b'>'
    then file_name (record sc { has_file_output = true; is_file_append = true })
        expect_output_filename cs
    else file_name (record sc { has_file_output = true }) expect_output_filename (c ∷ cs)

-- The switch on a character and what follows it.
unfoldable pub scan_round : Scan → ℕ → List ℕ → Round
scan_round sc c cs =
    if c == b'&'
    then jump_out unexpected_ampersand
    else if c == b'<'
    then (if ltb 0 sc.num_commands || sc.has_file_input
        then jump_out unexpected_file_input
        else file_name (record sc { has_file_input = true }) expect_input_filename cs)
    else if c == b'>'
    then (if sc.has_file_output then jump_out unexpected_file_output else output_round sc cs)
    else if c == b'|'
    then (if sc.has_file_output
        then jump_out unexpected_file_output
        else if not sc.has_token_last
        then jump_out unexpected_pipeline
        else continues (record sc { has_token_last = false; num_commands = sc.num_commands + 1 })
            cs)
    else continues (record sc { has_token_last = true; total_strings = sc.total_strings + 1 })
        (skip_word (c ∷ cs))

pub data Scanned : Type 0 where
  refused : ParserError → Scanned
  scanned : Scan → Scanned

-- for (cur = start; cur < end; skip_space(&cur, end)); every round passes a character.
unfoldable pub first_pass : ℕ → Scan → List ℕ → Outcome Scanned
first_pass f sc [] = ok (scanned sc)
first_pass zero sc (c ∷ cs) = out_of_fuel
first_pass (suc f) sc (c ∷ cs) = elim (scan_round sc c cs) [
  | jump_out e ↦ ok (refused e)
  | continues sc' rest ↦ first_pass f sc' (skip_space rest)
]

-- What the second pass has put in: the commands before the current one, and its arguments so far.
pub record Build : Type 0 where
  pub stdin_file : Option (List ℕ)
  pub stdout_file : Option (List ℕ)
  pub done : List (List (List ℕ))
  pub argv : List (List ℕ)

abbrev pub build_start : Build
build_start = record { stdin_file = none; stdout_file = none; done = []; argv = [] }

-- if (pcmd->is_file_append) ++cur;
abbrev pub skip_one : Bool → List ℕ → List ℕ
skip_one true (c ∷ cs) = cs
skip_one b cs = cs

-- The switch of the second pass, with the rest of the line.
pub build_round : Bool → Build → ℕ → List ℕ → Build × List ℕ
build_round append b c cs =
    if c == b'<'
    then (record b { stdin_file = some (word (skip_space cs)) }, skip_word (skip_space cs))
    else if c == b'>'
    then (
      record b { stdout_file = some (word (skip_space (skip_one append cs))) },
      skip_word (skip_space (skip_one append cs)),
    )
    else if c == b'|'
    then (record b { done = b.done ++ b.argv ∷ []; argv = [] }, cs)
    else (record b { argv = b.argv ++ word (c ∷ cs) ∷ [] }, skip_word (c ∷ cs))

pub second_pass : ℕ → Bool → Build → List ℕ → Outcome Build
second_pass f append b [] = ok b
second_pass zero append b (c ∷ cs) = out_of_fuel
second_pass (suc f) append b (c ∷ cs) =
    let r = build_round append b c cs in second_pass f append r.0 (skip_space r.1)

pub data Parsed : Type 0 where
  parsed : ParsedCommand → Parsed
  fails : ParserError → Parsed

-- The tests between the passes, and the second pass.
abbrev pub finish : (realloc_ok background : Bool) → List ℕ → Scan → Outcome Parsed
finish realloc_ok background s sc =
    if sc.total_strings == 0
    then ok (
        if background || sc.has_file_input || sc.has_file_output
        then fails expect_commands
        else parsed empty_command)
    else if not sc.has_token_last
    then ok (fails unexpected_pipeline)
    else if not realloc_ok
    then ok (fails system_call_error)
    else do
      b ← second_pass (length s) sc.is_file_append build_start s
      ok (
          parsed (record {
            is_background = background;
            is_file_append = sc.is_file_append;
            stdin_file = b.stdin_file;
            stdout_file = b.stdout_file;
            commands = b.done ++ b.argv ∷ [];
          }))

-- Both passes, over the line without comment, outer spaces and ampersand.
pub parse_body : (realloc_ok background : Bool) → List ℕ → Outcome Parsed
parse_body realloc_ok background s = do
  r ← first_pass (length s) scan_start s
  elim r [ refused e ↦ ok (fails e) | scanned sc ↦ finish realloc_ok background s sc ]

pub parse_command : (calloc_ok realloc_ok : Bool) → List ℕ → Outcome Parsed
parse_command calloc_ok realloc_ok line =
    let s = trim_end (skip_space (before_comment line)) in
    if not calloc_ok
    then ok (fails system_call_error)
    else if is_nil s
    then ok (parsed empty_command)
    else elim (unsnoc s) [
      | none ↦ ok (parsed empty_command)
      | some (body, last) ↦
          if last == b'&'
          then parse_body realloc_ok true (trim_end body)
          else parse_body realloc_ok false s
    ]

-- What the caller's line holds after a call for which calloc succeeds: the ampersand is overwritten by a space.
pub line_after : List ℕ → List ℕ
line_after line =
    let rest = skip_space (before_comment line) in
    elim (unsnoc (trim_end rest)) [
      | none ↦ line
      | some (body, last) ↦
          if last == b'&'
          then set line (length (before_comment line) - length rest + length body) 32
          else line
    ]

-- printf("%s ", word)
abbrev pub print_word : List ℕ → List ℕ → List ℕ
print_word w rest = w ++ (32 ∷ rest)

pub print_words : List (List ℕ) → List ℕ → List ℕ
print_words [] rest = rest
print_words (w ∷ ws) rest = print_word w (print_words ws rest)

abbrev pub print_input : Option (List ℕ) → List ℕ → List ℕ
print_input none rest = rest
print_input (some w) rest = b'<' ∷ 32 ∷ print_word w rest

abbrev pub print_output : Bool → Option (List ℕ) → List ℕ → List ℕ
print_output append none rest = rest
print_output true (some w) rest = b'>' ∷ b'>' ∷ 32 ∷ print_word w rest
print_output false (some w) rest = b'>' ∷ 32 ∷ print_word w rest

-- The commands after the first one, each behind a '|'.
pub print_more : List (List (List ℕ)) → List ℕ → List ℕ
print_more [] rest = rest
print_more (ws ∷ wss) rest = b'|' ∷ 32 ∷ print_words ws (print_more wss rest)

pub print_commands : ParsedCommand → List (List (List ℕ)) → List ℕ → List ℕ
print_commands cmd [] rest = rest
print_commands cmd (ws ∷ wss) rest = print_words ws (
    print_input cmd.stdin_file
      (print_more wss (print_output cmd.is_file_append cmd.stdout_file rest)))

pub print_parsed_command : ParsedCommand → List ℕ
print_parsed_command cmd =
    print_commands cmd cmd.commands (if cmd.is_background then b'&' ∷ b'\n' ∷ [] else b'\n' ∷ [])
