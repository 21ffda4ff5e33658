-- ===== src/Prelude/Quantifiers.antt =====
-- Predicates over sequences, and what the Boolean walks say of them.
use mathlib.Core.Bool.{Bool, true, false}
use mathlib.Core.List.{List, [], ◌∷◌, ◌++◌}
use mathlib.Core.Option.{none, some}
use mathlib.Core.Path.{◌≡◌, refl}
use mathlib.Core.Logic.{inl, inr}
use native.Mathlib.Omega.{arith}
use tellyq.Prelude.Tests.{Bool-cases}
use tellyq.Prelude.Lists.{any, all, first, last, update_where}

abbrev pub All {ℓ κ} : {A : Type ℓ} → (A → Type κ) → List A → Type κ
All P [] = Unit
All P (x ∷ xs) = P x × All P xs

module _ {ℓ} {A : Type ℓ} (p : A → Bool) where
  pub All-any-false : (xs : List A) → any p xs ≡ false → All (λ x. p x ≡ false) xs
  All-any-false [] h = tt
  All-any-false (x ∷ xs) h = (ground arith, All-any-false xs (ground arith))

  pub All-all : (xs : List A) → all p xs ≡ true → All (λ x. p x ≡ true) xs
  All-all [] h = tt
  All-all (x ∷ xs) h = (ground arith, All-all xs (ground arith))

  pub All-first-none : (xs : List A) → first p xs ≡ none → All (λ x. p x ≡ false) xs
  All-first-none [] h = tt
  All-first-none (x ∷ xs) h = (ground arith, All-first-none xs (ground arith))

  pub holds-last : (xs : List A) {x : A} → all p xs ≡ true → last xs ≡ some x → p x ≡ true
  holds-last [] h e = cc
  holds-last (y ∷ []) h e = ground arith
  holds-last (y ∷ z ∷ zs) h e = holds-last (z ∷ zs) (ground arith) e

pub All-map {ℓ κ μ} :
    {A : Type ℓ} (P : A → Type κ) (Q : A → Type μ) (xs : List A)
    → ((x : A) → P x → Q x)
    → All P xs
    → All Q xs
All-map P Q [] f h = tt
All-map P Q (x ∷ xs) f h = (f x h.0, All-map P Q xs f h.1)

pub All-append_left {ℓ κ} :
    {A : Type ℓ} (P : A → Type κ) (xs ys : List A) → All P (xs ++ ys) → All P xs
All-append_left P [] ys h = tt
All-append_left P (x ∷ xs) ys h = (h.0, All-append_left P xs ys h.1)

-- The first that passes, with what stands before it and after it.
pub record IsFirst {ℓ} {A : Type ℓ} (p : A → Bool) (xs : List A) (x : A) : Type ℓ where
  pub before : List A
  pub after : List A
  pub parts : xs ≡ before ++ (x ∷ after)
  pub none_before : All (λ y. p y ≡ false) before
  pub passes : p x ≡ true

pub first-IsFirst {ℓ} :
    {A : Type ℓ} (p : A → Bool) (xs : List A) (x : A) → first p xs ≡ some x → IsFirst p xs x
first-IsFirst p [] x h = cc
first-IsFirst p (y ∷ ys) x h = elim (Bool-cases (p y)) [
  | inl passing ↦ record {
    before = [];
    after = ys;
    parts = ground arith;
    none_before = tt;
    passes = ground arith;
  }
  | inr failing ↦
      let rest = first-IsFirst p ys x (ground arith) in
      record {
        before = y ∷ rest.before;
        after = rest.after;
        parts = cc (rest.parts);
        none_before = (failing, rest.none_before);
        passes = rest.passes;
      }
]

module _ {ℓ} {A : Type ℓ} (p : A → Bool) where
  pub first-update_where :
      (f : A → A)
      → ((x : A) → p x ≡ true → p (f x) ≡ true)
      → (xs : List A) (x : A) → first p xs ≡ some x
      → first p (update_where p f xs) ≡ some (f x)
  first-update_where f stays [] x h = cc
  first-update_where f stays (y ∷ ys) x h = elim (Bool-cases (p y)) [
    | inl passing ↦ let passes = stays y passing in ground arith
    | inr failing ↦ let rest = first-update_where f stays ys x (ground arith) in ground arith
  ]

  pub first-append_none : (xs ys : List A) → first p xs ≡ none → first p (xs ++ ys) ≡ first p ys
  first-append_none [] ys h = refl
  first-append_none (x ∷ xs) ys h = elim (Bool-cases (p x)) [
    | inl passing ↦ ground arith
    | inr failing ↦ let rest = first-append_none xs ys (ground arith) in ground arith
  ]

  pub any-first-none : (xs : List A) → any p xs ≡ false → first p xs ≡ none
  any-first-none [] h = refl
  any-first-none (x ∷ xs) h = elim (Bool-cases (p x)) [
    | inl passing ↦ ground arith
    | inr failing ↦ let rest = any-first-none xs (ground arith) in ground arith
  ]

  pub first-passes : (xs : List A) (x : A) → first p xs ≡ some x → p x ≡ true
  first-passes [] x h = cc
  first-passes (y ∷ ys) x h = elim (Bool-cases (p y)) [
    | inl passing ↦ ground arith
    | inr failing ↦ first-passes ys x (ground arith)
  ]
