-- ===== src/First.antt =====
-- The first element of an array that a test accepts: what the loops over the tables of open files look for.
use pennosgrp.Prelude.{
  ℕ, zero, suc, ◌+◌, ◌<◌, ◌≡◌, Bool, true, false, Option, none, some, List, [], ◌∷◌, arith, length,
  get_or, if◌then◌else◌, Bool-cases, inl, inr, ◌⊎◌,
}

module _ {ℓ} {A : Type ℓ} (test : A → Bool) where
  pub record IsFirst (xs : List A) (default : A) (i : ℕ) : Type ℓ where
    pub inside : i < length xs
    pub accepted : test (get_or xs i default) ≡ true
    pub before : (j : ℕ) → j < i → test (get_or xs j default) ≡ false

  unfoldable pub first_where : List A → ℕ → Option ℕ
  first_where [] i = none
  first_where (x ∷ xs) i = let rest = first_where xs (i + 1) in if test x then some i else rest

  IsFirst-cons :
      (x : A) (xs : List A) (default : A) (i : ℕ)
      → test x ≡ false
      → IsFirst xs default i
      → IsFirst (x ∷ xs) default (suc i)
  IsFirst-cons x xs default i not_it is = record {
    inside = omega (arith, is.inside);
    accepted = is.accepted;
    before = λ j. earlier j;
  }
    where
      earlier : (j : ℕ) → j < suc i → test (get_or (x ∷ xs) j default) ≡ false
      earlier zero h = not_it
      earlier (suc j) h = is.before j (omega arith)

  pub first_where-IsFirst :
      (xs : List A) (default : A) (k n : ℕ)
      → first_where xs k ≡ some n
      → (i : ℕ) × (n ≡ k + i) × IsFirst xs default i
  unfolding first_where
  first_where-IsFirst [] default k n e = absurd (ground (arith, e))
  first_where-IsFirst (x ∷ xs) default k n e = elim (Bool-cases (test x)) [
    | inl is_it ↦ (
      0,
      ground (arith, e, is_it),
      record { inside = omega arith; accepted = is_it; before = λ j h. absurd (omega arith) },
    )
    | inr not_it ↦
        let (i, same, is) = first_where-IsFirst xs default (k + 1) n (ground (arith, e, not_it)) in
        (suc i, omega arith, IsFirst-cons x xs default i not_it is)
  ]

  pub first_where-none :
      (xs : List A) (default : A) (k : ℕ)
      → first_where xs k ≡ none
      → (j : ℕ) → j < length xs
      → test (get_or xs j default) ≡ false
  unfolding first_where
  first_where-none [] default k e j h = absurd (omega arith)
  first_where-none (x ∷ xs) default k e zero h = elim (Bool-cases (test x)) [
    | inl is_it ↦ absurd (ground (arith, e, is_it))
    | inr not_it ↦ not_it
  ]
  first_where-none (x ∷ xs) default k e (suc j) h = elim (Bool-cases (test x)) [
    | inl is_it ↦ absurd (ground (arith, e, is_it))
    | inr not_it ↦ first_where-none xs default (k + 1) (ground (arith, e, not_it)) j (omega arith)
  ]

-- There is one first element.
pub IsFirst-unique {ℓ} :
    {A : Type ℓ}
    → (test : A → Bool) (xs : List A) (default : A) (i j : ℕ) → IsFirst test xs default i
    → IsFirst test xs default j
    → i ≡ j
IsFirst-unique test xs default i j is js = elim (compare i j) [
  | inl below ↦ absurd (ground (arith, js.before i below, is.accepted))
  | inr (inl above) ↦ absurd (ground (arith, is.before j above, js.accepted))
  | inr (inr same) ↦ same
]
  where
    compare : (i j : ℕ) → (i < j) ⊎ ((j < i) ⊎ (i ≡ j))
    compare i j = omega arith
