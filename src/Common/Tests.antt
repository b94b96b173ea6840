-- ===== src/Common/Tests.antt =====
-- Boolean tests, the conditional, and equality as an interface.
use Prim.Native.Nat.{ℕ, ◌+◌, ◌%◌, ◌^◌, ◌<◌, compare, Ordering}
use mathlib.Core.Path.{◌≡◌, refl, ap}
use mathlib.Core.Logic.{◌≢◌, ◌↔◌, ◌⊎◌, inl, inr}
use mathlib.Core.Bool.{Bool, true, false}
use mathlib.Core.Option.{Option, none, some}
use mathlib.Core.List.{List, [], ◌∷◌}
use native.Mathlib.Omega.{arith}
use native.Mathlib.Decide.{ℕ_discrete}

infix 1 if◌then◌else◌
abbrev pub if◌then◌else◌ {ℓ} : {A : Type ℓ} → Bool → A → A → A
if true then x else y = x
if false then x else y = y

-- These compute to `compare`, which `ground` and `grind` read with no lemma listed.
abbrev pub ltb : ℕ → ℕ → Bool
ltb a b = elim (compare a b) [ Ordering.lt ↦ true | _ ↦ false ]

abbrev pub leb : ℕ → ℕ → Bool
leb a b = elim (compare a b) [ Ordering.gt ↦ false | _ ↦ true ]

pub Bool-cases : (b : Bool) → (b ≡ true) ⊎ (b ≡ false)
Bool-cases true = inl refl
Bool-cases false = inr refl

pub Option-cases {ℓ} : {A : Type ℓ} (o : Option A) → (o ≡ none) ⊎ ((a : A) × (o ≡ some a))
Option-cases none = inl refl
Option-cases (some a) = inr (a, refl)

-- Rust's `Eq`.
pub record Eq {ℓ} (A : Type ℓ) : Type ℓ where
  pub dec : Discrete A

infix 50 ◌==◌
abbrev pub ◌==◌ {ℓ} : {A : Type ℓ} ⦃e : Eq A⦄ → A → A → Bool
◌==◌ ⦃e⦄ a b = elim (e.dec a b) [ yes _ ↦ true | no _ ↦ false ]

pub ==_iff {ℓ} : {A : Type ℓ} ⦃e : Eq A⦄ (a b : A) → ((a == b) ≡ true) ↔ (a ≡ b)
==_iff a b = ground arith

-- An equality test carried over along an injection.
unfoldable pub dec_by {ℓ κ} :
    {A : Type ℓ} {B : Type κ} (f : A → B)
    → ((a b : A) → f a ≡ f b → a ≡ b)
    → Discrete B
    → Discrete A
dec_by f injective d a b = elim (d (f a) (f b)) [
  | yes p ↦ yes (injective a b p)
  | no n ↦ no (λ e. n (ap f e))
]

cons_ne_head {ℓ} : {A : Type ℓ} {x y : A} {xs ys : List A} → x ≢ y → x ∷ xs ≢ y ∷ ys
cons_ne_head n e = n (cc)

cons_ne_tail {ℓ} : {A : Type ℓ} {x y : A} {xs ys : List A} → xs ≢ ys → x ∷ xs ≢ y ∷ ys
cons_ne_tail n e = n (cc)

nil_ne_cons {ℓ} : {A : Type ℓ} {y : A} {ys : List A} → [] ≢ y ∷ ys
nil_ne_cons e = cc

cons_ne_nil {ℓ} : {A : Type ℓ} {y : A} {ys : List A} → y ∷ ys ≢ []
cons_ne_nil e = cc

cons_eq {ℓ} : {A : Type ℓ} {x y : A} {xs ys : List A} → x ≡ y → xs ≡ ys → x ∷ xs ≡ y ∷ ys
cons_eq p q = cc

unfoldable pub list_dec {ℓ} : {A : Type ℓ} → Discrete A → Discrete (List A)
unfolding nil_ne_cons cons_ne_nil cons_ne_head cons_ne_tail cons_eq
list_dec d [] [] = yes refl
list_dec d [] (y ∷ ys) = no nil_ne_cons
list_dec d (x ∷ xs) [] = no cons_ne_nil
list_dec d (x ∷ xs) (y ∷ ys) = elim (d x y) [
  | no n ↦ no (cons_ne_head n)
  | yes p ↦ elim (list_dec d xs ys) [ no n ↦ no (cons_ne_tail n) | yes q ↦ yes (cons_eq p q) ]
]

some_ne {ℓ} : {A : Type ℓ} {x y : A} → x ≢ y → some x ≢ some y
some_ne n e = n (cc)

none_ne_some {ℓ} : {A : Type ℓ} {x : A} → none ≢ some x
none_ne_some e = cc

some_ne_none {ℓ} : {A : Type ℓ} {x : A} → some x ≢ none
some_ne_none e = cc

unfoldable pub option_dec {ℓ} : {A : Type ℓ} → Discrete A → Discrete (Option A)
unfolding none_ne_some some_ne_none some_ne
option_dec d none none = yes refl
option_dec d none (some y) = no none_ne_some
option_dec d (some x) none = no some_ne_none
option_dec d (some x) (some y) = elim (d x y) [ no n ↦ no (some_ne n) | yes p ↦ yes (ap some p) ]

instance abbrev pub nat_eq : Eq ℕ
nat_eq = record { dec = ℕ_discrete }

instance abbrev pub list_eq {ℓ} : {A : Type ℓ} ⦃e : Eq A⦄ → Eq (List A)
list_eq ⦃e⦄ = record { dec = list_dec e.dec }

instance abbrev pub option_eq {ℓ} : {A : Type ℓ} ⦃e : Eq A⦄ → Eq (Option A)
option_eq ⦃e⦄ = record { dec = option_dec e.dec }

-- `counter + 1` on a `u64` of a release build.
unfoldable pub next_u64 : ℕ → ℕ
next_u64 n = (n + 1) % 2 ^ 64

pub next_u64_ne : (n : ℕ) → next_u64 n ≢ n
unfolding next_u64
next_u64_ne n e = omega arith

pub next_u64_lt : (n : ℕ) → n + 1 < 2 ^ 64 → next_u64 n ≡ n + 1
unfolding next_u64
next_u64_lt n h = omega arith
