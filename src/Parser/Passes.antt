-- ===== src/Parser/Passes.antt =====
-- What the two passes of parse_command (src/util/parser.c) make of the tokens of a command.
use mathlib.Core.List.{append-nil, append_assoc}
use pennosgrp.Prelude.{
  ℕ, suc, ◌+◌, ◌≤◌, ◌≡◌, refl, ap, sym, ◌∙◌, true, false, Bool, Option, none, some, List, [], ◌∷◌,
  ◌++◌, arith, length, ◌==◌, if◌then◌else◌,
}
use pennosgrp.Parser.{is_nil, ParsedCommand, Scan, scan_start, scanned, Build, build_start}
use pennosgrp.Parser.Spell.{
  Token, input, output, pipe, scan_token, scan_tokens, build_token, build_tokens,
}
use pennosgrp.Parser.Shape.{AllArgvs, is_none, args, inputs, outputs, more, command_tokens}

-- A token that is accepted, and the three that have conditions.
scan_tokens_more :
    (sc sc' : Scan) (t : Token) (ts : List Token)
    → scan_token sc t ≡ scanned sc'
    → scan_tokens sc (t ∷ ts) ≡ scan_tokens sc' ts
unfolding scan_tokens
scan_tokens_more sc sc' t ts e = rw (e, scan_tokens)

scan_pipe :
    (sc : Scan)
    → sc.has_token_last ≡ true
    → sc.has_file_output ≡ false
    → scan_token sc pipe
      ≡ scanned (record sc { has_token_last = false; num_commands = sc.num_commands + 1 })
unfolding scan_token
scan_pipe sc last out = ground arith

scan_input :
    (sc : Scan) (w : List ℕ)
    → sc.num_commands ≡ 0
    → sc.has_file_input ≡ false
    → scan_token sc (input w) ≡ scanned (record sc { has_file_input = true })
unfolding scan_token
scan_input sc w zero_stages none_yet = ground arith

scan_output :
    (sc : Scan) (append : Bool) (w : List ℕ)
    → sc.has_file_output ≡ false
    → sc.is_file_append ≡ false
    → scan_token sc (output append w)
      ≡ scanned (record sc { has_file_output = true; is_file_append = append })
unfolding scan_token
scan_output sc true w out app = ground arith
scan_output sc false w out app = ground arith

-- The scan of something goes from sc to sc', whatever comes behind, and only counts.
record Scans (sc sc' : Scan) (f : List Token → List Token) : Type 0 where
  runs : (ts : List Token) → scan_tokens sc (f ts) ≡ scan_tokens sc' ts
  output : sc'.has_file_output ≡ sc.has_file_output
  append : sc'.is_file_append ≡ sc.is_file_append
  input : sc'.has_file_input ≡ sc.has_file_input
  counted : sc.total_strings ≤ sc'.total_strings

record ScansArgs (sc sc' : Scan) (ws : List (List ℕ)) : Type 0 where
  scans : Scans sc sc' (args ws)
  stages : sc'.num_commands ≡ sc.num_commands
  all : sc'.total_strings ≡ sc.total_strings + length ws
  last : sc'.has_token_last ≡ (if is_nil ws then sc.has_token_last else true)

scan_args : (ws : List (List ℕ)) (sc : Scan) → (sc' : Scan) × ScansArgs sc sc' ws
unfolding scan_tokens scan_token
scan_args [] sc = (
  sc,
  record {
    scans = record {
      runs = λ ts. refl;
      output = refl;
      append = refl;
      input = refl;
      counted = omega arith;
    };
    stages = refl;
    all = omega arith;
    last = refl;
  },
)
scan_args (w ∷ ws) sc =
    let sc1 = record sc { has_token_last = true; total_strings = sc.total_strings + 1 } in
    let (sc', rec) = scan_args ws sc1 in
    (
      sc',
      record {
        scans = record {
          runs = λ ts. rec.scans.runs ts;
          output = rec.scans.output;
          append = rec.scans.append;
          input = rec.scans.input;
          counted = omega (arith, rec.all);
        };
        stages = rec.stages;
        all = omega (arith, rec.all);
        last = rec.last ∙ both (is_nil ws);
      },
    )
  where
    both : (b : Bool) → (if b then true else true) ≡ true
    both true = refl
    both false = refl

record ScansMore (sc sc' : Scan) (wss : List (List (List ℕ))) : Type 0 where
  scans : Scans sc sc' (more wss)
  last : sc'.has_token_last ≡ true

scan_more :
    (wss : List (List (List ℕ))) (sc : Scan)
    → AllArgvs wss
    → sc.has_token_last ≡ true
    → sc.has_file_output ≡ false
    → (sc' : Scan) × ScansMore sc sc' wss
unfolding scan_tokens scan_token
scan_more [] sc all last out = (
  sc,
  record {
    scans = record {
      runs = λ ts. refl;
      output = refl;
      append = refl;
      input = refl;
      counted = omega arith;
    };
    last = last;
  },
)
scan_more (ws ∷ wss) sc (nonempty, _, all) last out =
    let sc1 = record sc { has_token_last = false; num_commands = sc.num_commands + 1 } in
    let (sc2, one) = scan_args ws sc1 in
    let (sc', rec) = scan_more wss sc2 all (one.last ∙ rw nonempty) (one.scans.output ∙ out) in
    (
      sc',
      record {
        scans = record {
          runs = λ ts.
              scan_tokens_more sc sc1 pipe (args ws (more wss ts)) (scan_pipe sc last out)
              ∙ one.scans.runs (more wss ts)
              ∙ rec.scans.runs ts;
          output = rec.scans.output ∙ one.scans.output;
          append = rec.scans.append ∙ one.scans.append;
          input = rec.scans.input ∙ one.scans.input;
          counted = omega (arith, rec.scans.counted, one.scans.counted);
        };
        last = rec.last;
      },
    )

-- The input file of the first stage changes nothing that is looked at later.
scan_inputs :
    (o : Option (List ℕ)) (sc : Scan)
    → sc.num_commands ≡ 0
    → sc.has_file_input ≡ false
    → (sc' : Scan) × ((ts : List Token) → scan_tokens sc (inputs o ts) ≡ scan_tokens sc' ts)
      × (sc'.has_file_output ≡ sc.has_file_output)
      × (sc'.is_file_append ≡ sc.is_file_append)
      × (sc'.total_strings ≡ sc.total_strings)
      × (sc'.has_token_last ≡ sc.has_token_last)
scan_inputs none sc first none_yet = (sc, λ ts. refl, refl, refl, refl, refl)
scan_inputs (some w) sc first none_yet = (
  record sc { has_file_input = true },
  λ ts. scan_tokens_more sc _ (input w) ts (scan_input sc w first none_yet),
  refl,
  refl,
  refl,
  refl,
)

scan_outputs :
    (append : Bool) (o : Option (List ℕ)) (sc : Scan)
    → sc.has_file_output ≡ false
    → sc.is_file_append ≡ false
    → (is_none o ≡ true → append ≡ false)
    → (sc' : Scan) × (scan_tokens sc (outputs append o []) ≡ scanned sc')
      × (sc'.total_strings ≡ sc.total_strings)
      × (sc'.has_token_last ≡ sc.has_token_last)
      × (sc'.is_file_append ≡ append)
unfolding scan_tokens
scan_outputs append none sc out app needs = (sc, refl, refl, refl, app ∙ sym (needs refl))
scan_outputs append (some w) sc out app needs = (
  record sc { has_file_output = true; is_file_append = append },
  scan_tokens_more sc _ (output append w) [] (scan_output sc append w out app),
  refl,
  refl,
  refl,
)

-- The first pass accepts the tokens of a command, and finds its append mode.
pub scan_command :
    (cmd : ParsedCommand) (wss : List (List (List ℕ)))
    → is_nil wss ≡ false
    → AllArgvs wss
    → (is_none cmd.stdout_file ≡ true → cmd.is_file_append ≡ false)
    → (sc : Scan) × (scan_tokens scan_start (command_tokens cmd wss) ≡ scanned sc)
      × ((sc.total_strings == 0) ≡ false)
      × (sc.has_token_last ≡ true)
      × (sc.is_file_append ≡ cmd.is_file_append)
scan_command cmd [] some_stage all needs = absurd (ground (arith, some_stage))
scan_command cmd ([] ∷ wss) some_stage (nonempty, _, all) needs = absurd (ground (arith, nonempty))
scan_command cmd ((w ∷ ws) ∷ wss) some_stage (nonempty, _, all) needs =
    let (sc1, one) = scan_args (w ∷ ws) scan_start in
    let (sc2, runs2, out2, app2, total2, last2) =
      scan_inputs cmd.stdin_file sc1 one.stages one.scans.input in
    let (sc3, three) = scan_more wss sc2 all (last2 ∙ one.last) (out2 ∙ one.scans.output) in
    let (sc4, runs4, total4, last4, app4) =
      scan_outputs cmd.is_file_append cmd.stdout_file sc3
        (three.scans.output ∙ out2 ∙ one.scans.output)
        (three.scans.append ∙ app2 ∙ one.scans.append) needs in
    let some_word : length (w ∷ ws) ≡ suc (length ws) = refl in
    (
      sc4,
      one.scans.runs _ ∙ runs2 _ ∙ three.scans.runs _ ∙ runs4,
      ground (arith, total4, three.scans.counted, total2, one.all, some_word),
      last4 ∙ three.last,
      app4,
    )

-- What the second pass puts in.
build_args :
    (ws : List (List ℕ)) (b : Build) (ts : List Token)
    → build_tokens b (args ws ts) ≡ build_tokens (record b { argv = b.argv ++ ws }) ts
unfolding build_tokens build_token
build_args [] b ts = ap (λ a. build_tokens (record b { argv = a }) ts) (sym (append-nil b.argv))
build_args (w ∷ ws) b ts =
    build_args ws (record b { argv = b.argv ++ w ∷ [] }) ts
    ∙ ap (λ a. build_tokens (record b { argv = a }) ts) (append_assoc b.argv (w ∷ []) ws)

-- The stages are those done, and the current one.
abbrev pub all_stages : Build → List (List (List ℕ))
all_stages b = b.done ++ b.argv ∷ []

build_more :
    (wss : List (List (List ℕ))) (b : Build)
    → (b' : Build) × ((ts : List Token) → build_tokens b (more wss ts) ≡ build_tokens b' ts)
      × (all_stages b' ≡ all_stages b ++ wss)
      × (b'.stdin_file ≡ b.stdin_file)
      × (b'.stdout_file ≡ b.stdout_file)
unfolding build_tokens build_token
build_more [] b = (b, λ ts. refl, sym (append-nil (all_stages b)), refl, refl)
build_more (ws ∷ wss) b =
    let b1 = record b { done = all_stages b; argv = ws } in
    let (b', runs, stages, i, o) = build_more wss b1 in
    (
      b',
      λ ts. build_args ws (record b { done = all_stages b; argv = [] }) (more wss ts) ∙ runs ts,
      stages ∙ append_assoc (all_stages b) (ws ∷ []) wss,
      i,
      o,
    )

-- The second pass puts in exactly the command.
pub build_command :
    (cmd : ParsedCommand) (wss : List (List (List ℕ)))
    → is_nil wss ≡ false
    → (b : Build) × (build_tokens build_start (command_tokens cmd wss) ≡ b)
      × (all_stages b ≡ wss)
      × (b.stdin_file ≡ cmd.stdin_file)
      × (b.stdout_file ≡ cmd.stdout_file)
unfolding build_tokens build_token
build_command cmd [] some_stage = absurd (ground (arith, some_stage))
build_command cmd (ws ∷ wss) some_stage =
    let first = record build_start { argv = ws } in
    let b1 = record first { stdin_file = cmd.stdin_file } in
    let (b2, runs, stages, i, o) = build_more wss b1 in
    let b3 = record b2 { stdout_file = cmd.stdout_file } in
    (
      b3,
      build_args ws build_start _
          ∙ inputs_lem cmd.stdin_file first refl _
          ∙ runs _
          ∙ outputs_lem cmd.stdout_file b2 o,
      stages,
      i,
      refl,
    )
  where
    inputs_lem :
        (i : Option (List ℕ)) (b : Build)
        → b.stdin_file ≡ none
        → (ts : List Token)
        → build_tokens b (inputs i ts) ≡ build_tokens (record b { stdin_file = i }) ts
    inputs_lem none b e ts = ap (λ x. build_tokens (record b { stdin_file = x }) ts) e
    inputs_lem (some w) b e ts = refl

    outputs_lem :
        (o : Option (List ℕ)) (b : Build)
        → b.stdout_file ≡ none
        → build_tokens b (outputs cmd.is_file_append o []) ≡ record b { stdout_file = o }
    outputs_lem none b e = ap (λ x. record b { stdout_file = x }) e
    outputs_lem (some w) b e = refl
