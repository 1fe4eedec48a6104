-- ===== src/Tests/Lines.antt =====
-- The command parser at command lines.
use pennosgrp.Prelude.{ℕ, arith, true, false, some, List, [], ◌∷◌, ◌++◌, ◌≡◌, refl, ok, length}
use pennosgrp.Parser.{
  ParsedCommand, Parsed, parsed, Scan, scan_start, scanned, Build, build_start, word, skip_word,
  skip_space, scan_round, first_pass, second_pass, parse_command, print_parsed_command,
}
use pennosgrp.Parser.Shape.{IsCommand}
use pennosgrp.Parser.Agree.{count}
use pennosgrp.Parser.RoundTrip.{parse-print_parsed_command}
use pennosgrp.Parser.Counts.{second_pass-first_pass}
use pennosgrp.Parser.Sound.{IsResult, parse_command_lem}

-- cat -n <in | wc >>out &
abbrev command : ParsedCommand
command = record {
  is_background = true;
  is_file_append = true;
  stdin_file = some (b'i' ∷ b'n' ∷ []);
  stdout_file = some (b'o' ∷ b'u' ∷ b't' ∷ []);
  commands = ((b'c' ∷ b'a' ∷ b't' ∷ []) ∷ (b'-' ∷ b'n' ∷ []) ∷ []) ∷ ((b'w' ∷ b'c' ∷ []) ∷ []) ∷ [];
}

command-IsCommand : IsCommand command
command-IsCommand = record {
  some_stage = refl;
  stages = (
    refl,
    (
      record { nonempty = refl; chars = (refl, refl, (refl, refl, (refl, refl, tt))) },
      (record { nonempty = refl; chars = (refl, refl, (refl, refl, tt)) }, tt),
    ),
    (refl, (record { nonempty = refl; chars = (refl, refl, (refl, refl, tt)) }, tt), tt),
  );
  input = record { nonempty = refl; chars = (refl, refl, (refl, refl, tt)) };
  output = record { nonempty = refl; chars = (refl, refl, (refl, refl, (refl, refl, tt))) };
  append = λ e. absurd (ground (arith, e));
}

parse-print_parsed_command_example :
    parse_command true true (print_parsed_command command) ≡ ok (parsed command)
parse-print_parsed_command_example = parse-print_parsed_command command command-IsCommand

-- >f | is an error of the first pass.
parse_command_lem_example :
    (r : Parsed) × (parse_command true true (b'>' ∷ b'f' ∷ b'|' ∷ []) ≡ ok r) × IsResult r
parse_command_lem_example = parse_command_lem true true (b'>' ∷ b'f' ∷ b'|' ∷ [])

-- a b|c >f
abbrev line : List ℕ
line = b'a' ∷ b' ' ∷ b'b' ∷ b'|' ∷ b'c' ∷ b' ' ∷ b'>' ∷ b'f' ∷ []

abbrev counts : Scan
counts = record scan_start {
  num_commands = 1;
  total_strings = 3;
  has_file_output = true;
  has_token_last = true;
}

counted : first_pass 8 scan_start line ≡ ok (scanned counts)
unfolding first_pass scan_round skip_word skip_space word
counted = refl

second_pass-first_pass_example :
    (b : Build) × (second_pass 8 false build_start line ≡ ok b)
    × (length (b.done ++ b.argv ∷ []) ≡ 2)
    × (count (b.done ++ b.argv ∷ []) ≡ 3)
second_pass-first_pass_example =
    second_pass-first_pass line counts
      (refl, (refl, (refl, (refl, (refl, (refl, (refl, (refl, tt)))))))) refl counted
