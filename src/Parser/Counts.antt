-- ===== src/Parser/Counts.antt =====
-- The two passes of parse_command (src/util/parser.c), side by side.
use pennosgrp.Prelude.{
  ℕ, zero, suc, ◌+◌, ◌≤◌, ◌≡◌, refl, ap, sym, ◌∙◌, true, false, Bool, List, [], ◌∷◌, ◌++◌, arith,
  length, length-append, Bool-cases, inl, inr, ok,
}
use pennosgrp.Parser.{
  is_space, skip_space, Scan, scan_start, Round, jump_out, continues, scan_round, Scanned, refused,
  scanned, first_pass, Build, build_start, build_round, second_pass,
}
use pennosgrp.Parser.Words.{NoComment, skip_space-NoComment, solid, length-skip_space}
use pennosgrp.Parser.Spell.{first_pass_more, first_pass_ends, second_pass_more}
use pennosgrp.Parser.Agree.{count, count_snoc, Agree, Keeps, round-Keeps}
use pennosgrp.Parser.Moves.{Stays, round-Stays, Moves, round-Moves}

pub solid-skip_space : (s : List ℕ) → solid (skip_space s) ≡ true
unfolding skip_space
solid-skip_space [] = refl
solid-skip_space (c ∷ cs) = elim (Bool-cases (is_space c)) [
  | inl space ↦ rw space (solid-skip_space cs)
  | inr out ↦ rw out (rw out refl)
]

-- The first pass needs no more rounds than there are characters.
pub first_pass_total :
    (f : ℕ) (sc : Scan) (s : List ℕ)
    → solid s ≡ true
    → length s ≤ f
    → (r : Scanned) × (first_pass f sc s ≡ ok r)
unfolding first_pass
first_pass_total f sc [] h le = (scanned sc, refl)
first_pass_total zero sc (c ∷ cs) h le = absurd (omega (arith, le))
first_pass_total (suc f) sc (c ∷ cs) h le = go (scan_round sc c cs) refl (λ sc' r short.
    first_pass_total f sc' (skip_space r) (solid-skip_space r)
      (omega (arith, le, short, length-skip_space r)))
  where
    solid_c : is_space c ≡ false
    solid_c = ground (arith, h)

    go :
        (r : Round)
        → scan_round sc c cs ≡ r
        → ((sc' : Scan) (rest : List ℕ)
            → length rest ≤ length cs
            → (x : Scanned) × (first_pass f sc' (skip_space rest) ≡ ok x))
        → (x : Scanned) × (first_pass (suc f) sc (c ∷ cs) ≡ ok x)
    go (jump_out e) does ih = (refused e, first_pass_ends f sc c cs e does)
    go (continues sc' rest) does ih =
        let moved : Moves c cs (continues sc' rest) = rw does at (round-Moves sc c cs solid_c) in
        let (x, eq) = ih sc' rest moved.0 in (x, first_pass_more f sc sc' c cs rest does ∙ eq)

-- After the output file the append mode is settled.
first_pass_stays :
    (f : ℕ) (sc last : Scan) (s : List ℕ)
    → sc.has_file_output ≡ true
    → first_pass f sc s ≡ ok (scanned last)
    → last.is_file_append ≡ sc.is_file_append
unfolding first_pass
first_pass_stays f sc last [] out e = ground (arith, e)
first_pass_stays zero sc last (c ∷ cs) out e = absurd (ground (arith, e))
first_pass_stays (suc f) sc last (c ∷ cs) out e =
    go (scan_round sc c cs) refl
      (λ sc' rest out'. first_pass_stays f sc' last (skip_space rest) out')
  where
    go :
        (r : Round)
        → scan_round sc c cs ≡ r
        → ((sc' : Scan) (rest : List ℕ)
            → sc'.has_file_output ≡ true
            → first_pass f sc' (skip_space rest) ≡ ok (scanned last)
            → last.is_file_append ≡ sc'.is_file_append)
        → last.is_file_append ≡ sc.is_file_append
    go (jump_out why) does ih = absurd (ground (arith, e, first_pass_ends f sc c cs why does))
    go (continues sc' rest) does ih =
        let stayed : Stays sc (continues sc' rest) = rw does at (round-Stays sc c cs out) in
        ih sc' rest stayed.0 (sym (first_pass_more f sc sc' c cs rest does) ∙ e) ∙ stayed.1

-- The passes in step to the end of the line.
pub passes-Agree :
    (f : ℕ) (sc last : Scan) (b : Build) (s : List ℕ)
    → Agree sc b
    → NoComment s
    → solid s ≡ true
    → first_pass f sc s ≡ ok (scanned last)
    → (b' : Build) × (second_pass f last.is_file_append b s ≡ ok b') × Agree last b'
unfolding first_pass second_pass
passes-Agree f sc last b [] a clean h e =
    (b, refl, let same : sc ≡ last = ground (arith, e) in rw same at a)
passes-Agree zero sc last b (c ∷ cs) a clean h e = absurd (ground (arith, e))
passes-Agree (suc f) sc last b (c ∷ cs) a clean h e =
    go (scan_round sc c cs) refl (λ sc' b' rest a' clean' e'.
      passes-Agree f sc' last b' (skip_space rest) a' (skip_space-NoComment rest clean')
        (solid-skip_space rest) e')
  where
    solid_c : is_space c ≡ false
    solid_c = ground (arith, h)

    append : Bool
    append = last.is_file_append

    go :
        (r : Round)
        → scan_round sc c cs ≡ r
        → ((sc' : Scan) (b' : Build) (rest : List ℕ)
            → Agree sc' b'
            → NoComment rest
            → first_pass f sc' (skip_space rest) ≡ ok (scanned last)
            → (x : Build) × (second_pass f append b' (skip_space rest) ≡ ok x) × Agree last x)
        → (x : Build) × (second_pass (suc f) append b (c ∷ cs) ≡ ok x) × Agree last x
    go (jump_out why) does ih = absurd (ground (arith, e, first_pass_ends f sc c cs why does))
    go (continues sc' rest) does ih =
        let moved : Moves c cs (continues sc' rest) = rw does at (round-Moves sc c cs solid_c) in
        let kept : Keeps append c cs (continues sc' rest) (build_round append b c cs) =
          rw does at (round-Keeps append sc b c cs a clean solid_c) in
        let e' = sym (first_pass_more f sc sc' c cs rest does) ∙ e in
        let (same, agree) =
          kept (λ gt. sym (first_pass_stays f sc' last (skip_space rest) (moved.2 gt) e')) in
        let (x, runs, done) =
          ih sc' (build_round append b c cs).0 rest agree (moved.1 clean.1) e' in
        (
          x,
          second_pass_more f append b (build_round append b c cs).0 c cs rest
                (ap (λ r. ((build_round append b c cs).0, r)) same)
              ∙ runs,
          done,
        )

pub start_Agree : Agree scan_start build_start
start_Agree = record {
  stages = refl;
  words = refl;
  done_ok = tt;
  argv_ok = tt;
  last = refl;
  input = tt;
  output = tt;
  has_output = refl;
  no_append = λ e. refl;
}

-- When the first pass of parse_command accepts a line without comment mark that begins with no space, the
-- second one ends and puts in exactly what the first one counted: one stage per pipe and one more, and
-- total_strings words, as many as the memory was allocated for.
pub second_pass-first_pass :
    (s : List ℕ) (sc : Scan)
    → NoComment s
    → solid s ≡ true
    → first_pass (length s) scan_start s ≡ ok (scanned sc)
    → (b : Build) × (second_pass (length s) sc.is_file_append build_start s ≡ ok b)
      × (length (b.done ++ b.argv ∷ []) ≡ sc.num_commands + 1)
      × (count (b.done ++ b.argv ∷ []) ≡ sc.total_strings)
second_pass-first_pass s sc clean h e =
    let (b, runs, a) = passes-Agree (length s) scan_start sc build_start s start_Agree clean h e in
    (
      b,
      runs,
      omega (arith, length-append b.done (b.argv ∷ []), a.stages),
      omega (arith, count_snoc b.done b.argv, a.words),
    )
