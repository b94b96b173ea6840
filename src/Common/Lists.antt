-- ===== src/Common/Lists.antt =====
-- Lists measured by native numbers, membership as a test, and sorting.
use Prim.Native.Nat.{zero, ℕ, suc, ◌+◌}
use mathlib.Core.Path.{◌≡◌, refl}
use mathlib.Core.Logic.{◌⊎◌, inl, inr}
use mathlib.Core.Option.{Option, none, some}
use mathlib.Core.Bool.{Bool, true, false, ◌&&◌, ◌||◌}
use mathlib.Core.List.{List, [], ◌∷◌, ◌++◌}
use native.Mathlib.Omega.{arith}
use genesis_runtime.Common.Tests.{Bool-cases, Eq, if◌then◌else◌, list_eq, nat_eq, option_eq, ◌==◌}

module _ {ℓ} {A : Type ℓ} where
  abbrev pub length : List A → ℕ
  length [] = 0
  length (x ∷ xs) = suc (length xs)

  pub length-append : (xs ys : List A) → length (xs ++ ys) ≡ length xs + length ys
  length-append [] ys = omega arith
  length-append (x ∷ xs) ys = omega (arith, length-append xs ys)

  pub List-cases : (xs : List A) → (xs ≡ []) ⊎ ((x : A) × (rest : List A) × (xs ≡ x ∷ rest))
  List-cases [] = inl refl
  List-cases (x ∷ xs) = inr (x, xs, refl)

  abbrev pub take : ℕ → List A → List A
  take zero xs = []
  take (suc n) [] = []
  take (suc n) (x ∷ xs) = x ∷ take n xs

  abbrev pub drop : ℕ → List A → List A
  drop zero xs = xs
  drop (suc n) [] = []
  drop (suc n) (x ∷ xs) = drop n xs

  -- `iter().any` and `iter().all`.
  unfoldable pub any : (A → Bool) → List A → Bool
  any p [] = false
  any p (x ∷ xs) = p x || any p xs

  unfoldable pub all : (A → Bool) → List A → Bool
  all p [] = true
  all p (x ∷ xs) = p x && all p xs

  -- `iter().filter().count()`
  unfoldable pub count_if : (A → Bool) → List A → ℕ
  count_if p [] = 0
  count_if p (x ∷ xs) = let rest = count_if p xs in if p x then rest + 1 else rest

  -- `sort_by`: insertion sort, which is stable as Rust's sort is.
  unfoldable pub insert_by : (A → A → Bool) → A → List A → List A
  insert_by le x [] = x ∷ []
  insert_by le x (y ∷ ys) = if le x y then x ∷ y ∷ ys else y ∷ insert_by le x ys

  unfoldable pub sort_by : (A → A → Bool) → List A → List A
  unfolding insert_by
  sort_by le [] = []
  sort_by le (x ∷ xs) = insert_by le x (sort_by le xs)

  -- An element that `same` finds among those before it.
  unfoldable pub repeats : (A → A → Bool) → List A → List A → Bool
  repeats same seen [] = false
  repeats same seen (x ∷ xs) = any (same x) seen || repeats same (x ∷ seen) xs

  -- `iter().find()`
  unfoldable pub find : (A → Bool) → List A → Option A
  find p [] = none
  find p (x ∷ xs) = if p x then some x else find p xs

  -- A predicate of every element.
  abbrev pub All {κ} : (A → Type κ) → List A → Type κ
  All P [] = Unit
  All P (x ∷ xs) = P x × All P xs

module _ {ℓ} {A : Type ℓ} ⦃e : Eq A⦄ where
  unfoldable pub drop_equal : A → List A → List A
  drop_equal x [] = x ∷ []
  drop_equal x (y ∷ ys) = if x == y then x ∷ ys else x ∷ y ∷ ys

  -- `dedup`: of equal neighbours the first is kept.
  unfoldable pub dedup : List A → List A
  unfolding drop_equal
  dedup [] = []
  dedup (x ∷ xs) = drop_equal x (dedup xs)

  unfoldable pub contains : List A → A → Bool
  contains [] a = false
  contains (x ∷ xs) a = x == a || contains xs a

  pub contains-append :
      (xs ys : List A) (a : A) → contains (xs ++ ys) a ≡ (contains xs a || contains ys a)
  unfolding contains
  contains-append [] ys a = refl
  contains-append (x ∷ xs) ys a = ground (arith, contains-append xs ys a)

  contains-insert_by :
      (le : A → A → Bool) (x : A) (xs : List A) (a : A)
      → contains (insert_by le x xs) a ≡ (x == a || contains xs a)
  unfolding contains insert_by
  contains-insert_by le x [] a = refl
  contains-insert_by le x (y ∷ ys) a = ground (arith, contains-insert_by le x ys a)

  pub contains-sort_by :
      (le : A → A → Bool) (xs : List A) (a : A) → contains (sort_by le xs) a ≡ contains xs a
  unfolding contains sort_by
  contains-sort_by le [] a = refl
  contains-sort_by le (x ∷ xs) a =
      ground (arith, contains-insert_by le x (sort_by le xs) a, contains-sort_by le xs a)

  pub all-contains :
      (p : A → Bool) (xs : List A) (a : A) → all p xs ≡ true → contains xs a ≡ true → p a ≡ true
  unfolding all contains
  all-contains p [] a h m = cc
  all-contains p (x ∷ xs) a h m = ground (arith, all-contains p xs a)

  pub all_of_contains :
      (p : A → Bool) (xs : List A) → ((a : A) → contains xs a ≡ true → p a ≡ true) → all p xs ≡ true
  unfolding all contains
  all_of_contains p [] h = refl
  all_of_contains p (x ∷ xs) h =
      ground (arith, h x, all_of_contains p xs (λ a m. h a (ground (arith, m))))

  pub any_of_contains :
      (p : A → Bool) (xs : List A) (a : A) → contains xs a ≡ true → p a ≡ true → any p xs ≡ true
  unfolding any contains
  any_of_contains p [] a m h = cc
  any_of_contains p (x ∷ xs) a m h = ground (arith, any_of_contains p xs a)

  pub contains_of_any :
      (p : A → Bool) (xs : List A)
      → any p xs ≡ true
      → (a : A) × (contains xs a ≡ true) × (p a ≡ true)
  unfolding any contains
  contains_of_any p [] h = absurd (cc)
  contains_of_any p (x ∷ xs) h = elim (Bool-cases (p x)) [
    | inl q ↦ (x, ground arith, q)
    | inr q ↦ let (a, m, r) = contains_of_any p xs (ground arith) in (a, ground arith, r)
  ]
