-- ===== src/Parser/RoundTrip.antt =====
-- parse_command reads what print_parsed_command prints (src/util/parser.c).
use mathlib.Core.List.{append_assoc}
use pennosgrp.Prelude.{
  ℕ, ◌≡◌, refl, ap, sym, ◌∙◌, true, false, Bool, List, [], ◌∷◌, ◌++◌, arith, length, ◌==◌,
  if◌then◌else◌, ok, ◌>>=◌,
}
use pennosgrp.Parser.{
  is_space, in_word, is_nil, skip_space, before_comment, trim_end, ParsedCommand, parsed, Scan,
  scan_start, scanned, first_pass, Build, build_start, second_pass, parse_body, parse_command,
  print_parsed_command,
}
use pennosgrp.Parser.Words.{
  AllIn, IsWord, NoComment, before_comment_all, solid, skip_space-solid, trim_end_solid, blank,
  unsnoc_snoc,
}
use pennosgrp.Parser.Spell.{
  Token, arg, input, output, pipe, text, IsToken, AllTokens, spell, after, first_pass-after,
  second_pass-after, solid-spell,
}
use pennosgrp.Parser.Shape.{
  IsCommand, AllArgvs, command_tokens, command_tokens-AllTokens, command_tokens-AllAppend,
  print_tokens, print_tokens-spell, print_commands-tokens,
}
use pennosgrp.Parser.Passes.{scan_command, build_command, all_stages}

-- Between the passes, and the second pass, for a command that is accepted.
parse_body_lem :
    (background : Bool) (cmd : ParsedCommand)
    → IsCommand cmd
    → cmd.is_background ≡ background
    → parse_body true background (after (command_tokens cmd cmd.commands)) ≡ ok (parsed cmd)
unfolding parse_body
parse_body_lem background cmd is bg =
    let ts = command_tokens cmd cmd.commands in
    let s = after ts in
    let well = command_tokens-AllTokens cmd cmd.commands is.stages is.input is.output in
    let (sc, scans, counted, last, app) =
      scan_command cmd cmd.commands is.some_stage is.stages is.append in
    let (b, builds, stages, i, o) = build_command cmd cmd.commands is.some_stage in
    let first : first_pass (length s) scan_start s ≡ ok (scanned sc) =
      first_pass-after (length s) scan_start ts well (omega arith) ∙ ap ok scans in
    let second : second_pass (length s) sc.is_file_append build_start s ≡ ok b =
      ap (λ a. second_pass (length s) a build_start s) app
      ∙ second_pass-after (length s) cmd.is_file_append build_start ts well
          (command_tokens-AllAppend cmd cmd.commands) (omega arith)
      ∙ ap ok builds in
    rw (first, ◌>>=◌) (rw (counted, last) (rw (second, ◌>>=◌) (same sc b app stages i o)))
  where
    same :
        (sc : Scan) (b : Build)
        → sc.is_file_append ≡ cmd.is_file_append
        → all_stages b ≡ cmd.commands
        → b.stdin_file ≡ cmd.stdin_file
        → b.stdout_file ≡ cmd.stdout_file
        → ok (
            parsed (record {
              is_background = background;
              is_file_append = sc.is_file_append;
              stdin_file = b.stdin_file;
              stdout_file = b.stdout_file;
              commands = b.done ++ b.argv ∷ [];
            }))
          ≡ ok (parsed cmd)
    same sc b app stages i o = ground (arith, app, stages, i, o, bg)

-- The last character of a spelled line: it is in a word, or the '|' that ends the line.
word_snoc :
    (w : List ℕ)
    → is_nil w ≡ false
    → AllIn w
    → (s : List ℕ) × (c : ℕ) × (w ≡ s ++ c ∷ []) × (in_word c ≡ true)
word_snoc [] h all = absurd (ground (arith, h))
word_snoc (c ∷ []) h (here, _, all) = ([], c, refl, here)
word_snoc (c ∷ d ∷ w) h (here, _, all) =
    let (s, x, eq, inside) = word_snoc (d ∷ w) refl all in
    (c ∷ s, x, ap (λ (t : List ℕ). c ∷ t) eq, inside)

NoComment-append : (s r : List ℕ) → NoComment s → NoComment r → NoComment (s ++ r)
NoComment-append [] r hs hr = hr
NoComment-append (c ∷ s) r (h, hs) hr = (h, NoComment-append s r hs hr)

AllIn-NoComment : (w : List ℕ) → AllIn w → NoComment w
AllIn-NoComment [] all = tt
AllIn-NoComment (c ∷ w) (_, other, all) = (other, AllIn-NoComment w all)

text-NoComment : (t : Token) → IsToken t → NoComment (text t)
text-NoComment (arg w) is = AllIn-NoComment w is.chars
text-NoComment (input w) is = (refl, (refl, AllIn-NoComment w is.chars))
text-NoComment (output true w) is = (refl, (refl, (refl, AllIn-NoComment w is.chars)))
text-NoComment (output false w) is = (refl, (refl, AllIn-NoComment w is.chars))
text-NoComment pipe is = (refl, tt)

print_tokens-NoComment :
    (ts : List Token) (rest : List ℕ)
    → AllTokens ts
    → NoComment rest
    → NoComment (print_tokens ts rest)
unfolding print_tokens
print_tokens-NoComment [] rest all h = h
print_tokens-NoComment (t ∷ ts) rest (is, all) h =
    NoComment-append (text t) (32 ∷ print_tokens ts rest) (text-NoComment t is)
      (refl, print_tokens-NoComment ts rest all h)

-- A text whose last character is no space and no ampersand.
record Ends (s : List ℕ) : Type 0 where
  front : List ℕ
  last : ℕ
  snoc : s ≡ front ++ last ∷ []
  solid_last : is_space last ≡ false
  no_amp : (last == b'&') ≡ false

in_word-Ends : (c : ℕ) → in_word c ≡ true → (is_space c ≡ false) × ((c == b'&') ≡ false)
in_word-Ends c h = ground arith

Ends-append : (p s : List ℕ) → Ends s → Ends (p ++ s)
Ends-append p s e = record {
  front = p ++ e.front;
  last = e.last;
  snoc = ap (λ (x : List ℕ). p ++ x) e.snoc ∙ sym (append_assoc p e.front (e.last ∷ []));
  solid_last = e.solid_last;
  no_amp = e.no_amp;
}

word-Ends : (w : List ℕ) → IsWord w → Ends w
word-Ends w is =
    let (s, c, eq, inside) = word_snoc w is.nonempty is.chars in
    let (solid_c, other) = in_word-Ends c inside in
    record { front = s; last = c; snoc = eq; solid_last = solid_c; no_amp = other }

text-Ends : (t : Token) → IsToken t → Ends (text t)
text-Ends (arg w) is = word-Ends w is
text-Ends (input w) is = Ends-append (b'<' ∷ 32 ∷ []) w (word-Ends w is)
text-Ends (output true w) is = Ends-append (b'>' ∷ b'>' ∷ 32 ∷ []) w (word-Ends w is)
text-Ends (output false w) is = Ends-append (b'>' ∷ 32 ∷ []) w (word-Ends w is)
text-Ends pipe is = record {
  front = [];
  last = b'|';
  snoc = refl;
  solid_last = refl;
  no_amp = refl;
}

spell-Ends : (t : Token) (ts : List Token) → IsToken t → AllTokens ts → Ends (spell t ts)
unfolding spell
spell-Ends t [] is all = text-Ends t is
spell-Ends t (u ∷ us) is (is_u, all) =
    Ends-append (text t) (32 ∷ spell u us)
      (Ends-append (32 ∷ []) (spell u us) (spell-Ends u us is_u all))

-- What is left of a line when it ends in blanks.
trim_Ends : (s r : List ℕ) → Ends s → blank r ≡ true → trim_end (s ++ r) ≡ s
trim_Ends s r e h =
    ap (λ (x : List ℕ). trim_end (x ++ r)) e.snoc
    ∙ ap trim_end (append_assoc e.front (e.last ∷ []) r)
    ∙ trim_end_solid e.front r e.last e.solid_last h
    ∙ sym e.snoc

solid-append : (s r : List ℕ) → is_nil s ≡ false → solid s ≡ true → solid (s ++ r) ≡ true
solid-append [] r ne h = absurd (ground (arith, ne))
solid-append (c ∷ s) r ne h = h

nil_snoc : (s : List ℕ) (c : ℕ) → is_nil (s ++ c ∷ []) ≡ false
nil_snoc [] c = refl
nil_snoc (d ∷ s) c = refl

spell-nonempty :
    (t : Token) (ts : List Token) → IsToken t → AllTokens ts → is_nil (spell t ts) ≡ false
spell-nonempty t ts is all =
    let e = spell-Ends t ts is all in ap is_nil e.snoc ∙ nil_snoc e.front e.last

-- The line that parse_command splits, behind comment and blanks.
line_lem :
    (t : Token) (ts : List Token) (tail : List ℕ)
    → IsToken t
    → AllTokens ts
    → NoComment tail
    → skip_space (before_comment (print_tokens (t ∷ ts) tail)) ≡ spell t ts ++ (32 ∷ tail)
line_lem t ts tail is all none_left =
    ap skip_space (
      before_comment_all _ (print_tokens-NoComment (t ∷ ts) tail (is, all) none_left)
      ∙ print_tokens-spell t ts tail)
    ∙ skip_space-solid (spell t ts ++ (32 ∷ tail))
        (solid-append (spell t ts) (32 ∷ tail) (spell-nonempty t ts is all) (solid-spell t ts is))

parse_foreground :
    (t : Token) (ts : List Token)
    → IsToken t
    → AllTokens ts
    → parse_command true true (print_tokens (t ∷ ts) (b'\n' ∷ []))
      ≡ parse_body true false (spell t ts)
unfolding parse_command
parse_foreground t ts is all =
    let e = spell-Ends t ts is all in
    let s : trim_end (skip_space (before_comment (print_tokens (t ∷ ts) (b'\n' ∷ []))))
        ≡ e.front ++ e.last ∷ [] =
      ap trim_end (line_lem t ts (b'\n' ∷ []) is all (refl, tt))
      ∙ trim_Ends (spell t ts) (32 ∷ b'\n' ∷ []) e refl
      ∙ e.snoc in
    rw s (
      rw (nil_snoc e.front e.last, unsnoc_snoc e.front e.last)
        (rw e.no_amp (ap (parse_body true false) (s ∙ sym e.snoc))))

parse_background :
    (t : Token) (ts : List Token)
    → IsToken t
    → AllTokens ts
    → parse_command true true (print_tokens (t ∷ ts) (b'&' ∷ b'\n' ∷ []))
      ≡ parse_body true true (spell t ts)
unfolding parse_command
parse_background t ts is all =
    let e = spell-Ends t ts is all in
    let front = spell t ts ++ 32 ∷ [] in
    let s : trim_end (skip_space (before_comment (print_tokens (t ∷ ts) (b'&' ∷ b'\n' ∷ []))))
        ≡ front ++ b'&' ∷ [] =
      ap trim_end (
        line_lem t ts (b'&' ∷ b'\n' ∷ []) is all (refl, (refl, tt))
        ∙ sym (append_assoc (spell t ts) (32 ∷ []) (b'&' ∷ b'\n' ∷ [])))
      ∙ trim_end_solid front (b'\n' ∷ []) b'&' refl refl in
    rw s (
      rw (nil_snoc front b'&', unsnoc_snoc front b'&')
        (ap (parse_body true true) (trim_Ends (spell t ts) (32 ∷ []) e refl)))

parse_tokens :
    (background : Bool) (ts : List Token)
    → is_nil ts ≡ false
    → AllTokens ts
    → parse_command true true
        (print_tokens ts (if background then b'&' ∷ b'\n' ∷ [] else b'\n' ∷ []))
      ≡ parse_body true background (after ts)
parse_tokens background [] ne all = absurd (ground (arith, ne))
parse_tokens true (t ∷ ts) ne (is, all) = parse_background t ts is all
parse_tokens false (t ∷ ts) ne (is, all) = parse_foreground t ts is all

some_token :
    (cmd : ParsedCommand) (wss : List (List (List ℕ)))
    → is_nil wss ≡ false
    → AllArgvs wss
    → is_nil (command_tokens cmd wss) ≡ false
some_token cmd [] ne all = absurd (ground (arith, ne))
some_token cmd ([] ∷ wss) ne (h, _, _) = absurd (ground (arith, h))
some_token cmd ((w ∷ ws) ∷ wss) ne all = refl

-- While memory does not run out, parse_command reads back every well-formed command from what
-- print_parsed_command prints: stages, words, redirections, append mode and background mark.
pub parse-print_parsed_command :
    (cmd : ParsedCommand)
    → IsCommand cmd
    → parse_command true true (print_parsed_command cmd) ≡ ok (parsed cmd)
unfolding print_parsed_command
parse-print_parsed_command cmd is =
    let ts = command_tokens cmd cmd.commands in
    ap (parse_command true true) (print_commands-tokens cmd cmd.commands _)
    ∙ parse_tokens cmd.is_background ts (some_token cmd cmd.commands is.some_stage is.stages)
        (command_tokens-AllTokens cmd cmd.commands is.stages is.input is.output)
    ∙ parse_body_lem cmd.is_background cmd is refl
