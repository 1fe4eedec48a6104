-- ===== src/Tree/Guards.antt =====
-- The early returns of the calls (src/internal/pennfat_kernel.c).
use pennosgrp.Prelude.{
  ◌≡◌, refl, ap, sym, ◌∙◌, true, false, Bool, not, ◌||◌, arith, if◌then◌else◌, Bool-cases, inl, inr,
  ok,
}
use pennosgrp.Fat.{Fs}
use pennosgrp.Dirent.{PennFatErr, success}
use pennosgrp.File.{State}
use pennosgrp.Open.{is_success, is_notdir}
use pennosgrp.Tree.{Result, with_fs}

pub is_success-equal : (err : PennFatErr) → is_success err ≡ true → err ≡ success
is_success-equal success h = refl
is_success-equal _ h = absurd (ground (arith, h))

pub failure_ends :
    (s s' : State) (err : PennFatErr)
    → is_success err ≡ false
    → ◌≡◌ {A = Result} (ok (s, err)) (ok (s', success))
    → ⊥
failure_ends s s' err h e =
    let won : err ≡ success = ground (arith, e) in ground (arith, ap is_success won, h)

-- A call that succeeded did not take an early return with an error.
pub passed :
    (b : Bool) (s s' : State) (err : PennFatErr) (rest : Result)
    → is_success err ≡ false
    → (if b then ok (s, err) else rest) ≡ ok (s', success)
    → (b ≡ false) × (rest ≡ ok (s', success))
passed true s s' err rest h e = absurd (failure_ends s s' err h e)
passed false s s' err rest h e = (refl, e)

-- The same for an error that came from a path.
pub passed_path :
    (s s' : State) (err : PennFatErr) (rest : Result)
    → (if not (is_success err || is_notdir err) then ok (s, err) else rest) ≡ ok (s', success)
    → rest ≡ ok (s', success)
passed_path s s' err rest e = elim (Bool-cases (is_success err || is_notdir err)) [
  | inl usable ↦ rw usable at e
  | inr lost ↦ absurd (failure_ends s s' err (ground (arith, lost)) (rw lost at e))
]

-- The same for a test within what is returned.
pub passed_inside :
    (b : Bool) (s s' : State) (err : PennFatErr) (rest : State × PennFatErr)
    → is_success err ≡ false
    → ◌≡◌ {A = Result} (ok (if b then (s, err) else rest)) (ok (s', success))
    → (b ≡ false) × ◌≡◌ {A = Result} (ok rest) (ok (s', success))
passed_inside true s s' err rest h e = absurd (failure_ends s s' err h e)
passed_inside false s s' err rest h e = (refl, e)

-- A call that ended with a write of an entry and succeeded.
pub with_fs-success :
    (s s' : State) (w : PennFatErr × Fs)
    → ◌≡◌ {A = Result} (ok (with_fs s w)) (ok (s', success))
    → (w ≡ (success, s'.fs)) × (s' ≡ record s { fs = s'.fs })
with_fs-success s s' (err, g) e =
    let won : err ≡ success = ground (arith, e) in
    let here : record s { fs = g } ≡ s' = ground (arith, e) in
    let image : g ≡ s'.fs = ap (λ t. t.fs) here in
    (λ k. (won k, image k), sym here ∙ (λ k. record s { fs = image k }))
