-- ===== src/Parser/Shape.antt =====
-- Commands as tokens: what print_parsed_command (src/util/parser.c) spells, and what the passes make of it.
use mathlib.Core.List.{append_assoc}
use pennosgrp.Prelude.{
  ℕ, ◌≡◌, refl, ap, ◌∙◌, true, false, Bool, Option, none, some, List, [], ◌∷◌, ◌++◌,
}
use pennosgrp.Parser.{
  is_nil, ParsedCommand, print_words, print_input, print_output, print_more, print_commands,
}
use pennosgrp.Parser.Words.{IsWord}
use pennosgrp.Parser.Spell.{Token, arg, input, output, pipe, text, AllTokens, AllAppend, spell}

abbrev pub AllWords : List (List ℕ) → Type 0
AllWords [] = Unit {0}
AllWords (w ∷ ws) = IsWord w × AllWords ws

abbrev pub AllArgvs : List (List (List ℕ)) → Type 0
AllArgvs [] = Unit {0}
AllArgvs (ws ∷ wss) = (is_nil ws ≡ false) × AllWords ws × AllArgvs wss

abbrev pub IsFile : Option (List ℕ) → Type 0
IsFile none = Unit {0}
IsFile (some w) = IsWord w

abbrev pub is_none {ℓ} : {A : Type ℓ} → Option A → Bool
is_none none = true
is_none (some a) = false

-- A command that a line can spell: at least one pipeline stage, no empty stage, no empty word, and no
-- append mode without an output file.
pub record IsCommand (cmd : ParsedCommand) : Type 0 where
  pub some_stage : is_nil cmd.commands ≡ false
  pub stages : AllArgvs cmd.commands
  pub input : IsFile cmd.stdin_file
  pub output : IsFile cmd.stdout_file
  pub append : is_none cmd.stdout_file ≡ true → cmd.is_file_append ≡ false

abbrev pub args : List (List ℕ) → List Token → List Token
args [] ts = ts
args (w ∷ ws) ts = arg w ∷ args ws ts

abbrev pub inputs : Option (List ℕ) → List Token → List Token
inputs none ts = ts
inputs (some w) ts = input w ∷ ts

abbrev pub outputs : Bool → Option (List ℕ) → List Token → List Token
outputs append none ts = ts
outputs append (some w) ts = output append w ∷ ts

abbrev pub more : List (List (List ℕ)) → List Token → List Token
more [] ts = ts
more (ws ∷ wss) ts = pipe ∷ args ws (more wss ts)

abbrev pub command_tokens : ParsedCommand → List (List (List ℕ)) → List Token
command_tokens cmd [] = []
command_tokens cmd (ws ∷ wss) =
    args ws (inputs cmd.stdin_file (more wss (outputs cmd.is_file_append cmd.stdout_file [])))

-- Every token and a space behind it.
unfoldable pub print_tokens : List Token → List ℕ → List ℕ
print_tokens [] rest = rest
print_tokens (t ∷ ts) rest = text t ++ (32 ∷ print_tokens ts rest)

pub print_tokens-spell :
    (t : Token) (ts : List Token) (rest : List ℕ)
    → print_tokens (t ∷ ts) rest ≡ spell t ts ++ (32 ∷ rest)
unfolding print_tokens spell
print_tokens-spell t [] rest = refl
print_tokens-spell t (u ∷ us) rest =
    rw (append_assoc (text t) (32 ∷ spell u us) (32 ∷ rest))
      (ap (λ (s : List ℕ). text t ++ (32 ∷ s)) (print_tokens-spell u us rest))

print_words-args :
    (ws : List (List ℕ)) (ts : List Token) (rest : List ℕ)
    → print_words ws (print_tokens ts rest) ≡ print_tokens (args ws ts) rest
unfolding print_words print_tokens
print_words-args [] ts rest = refl
print_words-args (w ∷ ws) ts rest = ap (λ (s : List ℕ). w ++ (32 ∷ s)) (print_words-args ws ts rest)

print_output-outputs :
    (append : Bool) (o : Option (List ℕ)) (rest : List ℕ)
    → print_output append o rest ≡ print_tokens (outputs append o []) rest
unfolding print_tokens
print_output-outputs append none rest = refl
print_output-outputs true (some w) rest = refl
print_output-outputs false (some w) rest = refl

print_more-more :
    (wss : List (List (List ℕ))) (ts : List Token) (rest : List ℕ)
    → print_more wss (print_tokens ts rest) ≡ print_tokens (more wss ts) rest
unfolding print_more print_tokens
print_more-more [] ts rest = refl
print_more-more (ws ∷ wss) ts rest =
    ap (λ (s : List ℕ). b'|' ∷ 32 ∷ s)
      (ap (print_words ws) (print_more-more wss ts rest) ∙ print_words-args ws (more wss ts) rest)

print_input-inputs :
    (o : Option (List ℕ)) (ts : List Token) (rest : List ℕ)
    → print_input o (print_tokens ts rest) ≡ print_tokens (inputs o ts) rest
unfolding print_tokens
print_input-inputs none ts rest = refl
print_input-inputs (some w) ts rest = refl

pub print_commands-tokens :
    (cmd : ParsedCommand) (wss : List (List (List ℕ))) (rest : List ℕ)
    → print_commands cmd wss rest ≡ print_tokens (command_tokens cmd wss) rest
unfolding print_commands print_tokens
print_commands-tokens cmd [] rest = refl
print_commands-tokens cmd (ws ∷ wss) rest =
    let last = outputs cmd.is_file_append cmd.stdout_file [] in
    ap (λ (s : List ℕ). print_words ws (print_input cmd.stdin_file (print_more wss s)))
      (print_output-outputs cmd.is_file_append cmd.stdout_file rest)
    ∙ ap (λ (s : List ℕ). print_words ws (print_input cmd.stdin_file s))
        (print_more-more wss last rest)
    ∙ ap (print_words ws) (print_input-inputs cmd.stdin_file (more wss last) rest)
    ∙ print_words-args ws (inputs cmd.stdin_file (more wss last)) rest

-- The tokens are well formed, and agree on the append mode.
args-AllTokens :
    (ws : List (List ℕ)) (ts : List Token) → AllWords ws → AllTokens ts → AllTokens (args ws ts)
args-AllTokens [] ts ok_ws ok_ts = ok_ts
args-AllTokens (w ∷ ws) ts (is, ok_ws) ok_ts = (is, args-AllTokens ws ts ok_ws ok_ts)

more-AllTokens :
    (wss : List (List (List ℕ))) (ts : List Token)
    → AllArgvs wss
    → AllTokens ts
    → AllTokens (more wss ts)
more-AllTokens [] ts ok_wss ok_ts = ok_ts
more-AllTokens (ws ∷ wss) ts (_, ok_ws, ok_wss) ok_ts =
    (tt, args-AllTokens ws (more wss ts) ok_ws (more-AllTokens wss ts ok_wss ok_ts))

inputs-AllTokens :
    (o : Option (List ℕ)) (ts : List Token) → IsFile o → AllTokens ts → AllTokens (inputs o ts)
inputs-AllTokens none ts is ok_ts = ok_ts
inputs-AllTokens (some w) ts is ok_ts = (is, ok_ts)

outputs-AllTokens :
    (append : Bool) (o : Option (List ℕ)) → IsFile o → AllTokens (outputs append o [])
outputs-AllTokens append none is = tt
outputs-AllTokens append (some w) is = (is, tt)

pub command_tokens-AllTokens :
    (cmd : ParsedCommand) (wss : List (List (List ℕ)))
    → AllArgvs wss
    → IsFile cmd.stdin_file
    → IsFile cmd.stdout_file
    → AllTokens (command_tokens cmd wss)
command_tokens-AllTokens cmd [] all i o = tt
command_tokens-AllTokens cmd (ws ∷ wss) (_, ok_ws, ok_wss) i o = args-AllTokens ws _ ok_ws (
    inputs-AllTokens cmd.stdin_file _ i
      (more-AllTokens wss _ ok_wss (outputs-AllTokens cmd.is_file_append cmd.stdout_file o)))

args-AllAppend :
    (a : Bool) (ws : List (List ℕ)) (ts : List Token) → AllAppend a ts → AllAppend a (args ws ts)
args-AllAppend a [] ts h = h
args-AllAppend a (w ∷ ws) ts h = (refl, args-AllAppend a ws ts h)

more-AllAppend :
    (a : Bool) (wss : List (List (List ℕ))) (ts : List Token)
    → AllAppend a ts
    → AllAppend a (more wss ts)
more-AllAppend a [] ts h = h
more-AllAppend a (ws ∷ wss) ts h =
    (refl, args-AllAppend a ws (more wss ts) (more-AllAppend a wss ts h))

inputs-AllAppend :
    (a : Bool) (o : Option (List ℕ)) (ts : List Token) → AllAppend a ts → AllAppend a (inputs o ts)
inputs-AllAppend a none ts h = h
inputs-AllAppend a (some w) ts h = (refl, h)

outputs-AllAppend : (a : Bool) (o : Option (List ℕ)) → AllAppend a (outputs a o [])
outputs-AllAppend a none = tt
outputs-AllAppend true (some w) = (refl, tt)
outputs-AllAppend false (some w) = (refl, tt)

pub command_tokens-AllAppend :
    (cmd : ParsedCommand) (wss : List (List (List ℕ)))
    → AllAppend cmd.is_file_append (command_tokens cmd wss)
command_tokens-AllAppend cmd [] = tt
command_tokens-AllAppend cmd (ws ∷ wss) =
    let a = cmd.is_file_append in
    args-AllAppend a ws _ (
      inputs-AllAppend a cmd.stdin_file _
        (more-AllAppend a wss _ (outputs-AllAppend a cmd.stdout_file)))
