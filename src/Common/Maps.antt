-- ===== src/Common/Maps.antt =====
-- `HashMap` and `BTreeMap` as association lists. The runtime never observes the order of a
-- `HashMap`: what it collects from one it sorts, or asks of it whether any entry passes a test.
use mathlib.Core.Path.{◌≡◌, refl}
use mathlib.Core.Bool.{Bool, true, false}
use mathlib.Core.Option.{Option, none, some}
use mathlib.Core.Option
use mathlib.Core.List.{◌++◌, List, [], ◌∷◌}
use native.Mathlib.Omega.{arith}
use genesis_runtime.Common.Tests.{Eq, if◌then◌else◌, list_eq, nat_eq, option_eq, ◌==◌}
use genesis_runtime.Common.Lists.{contains}

abbrev pub Map {ℓ} : Type ℓ → Type ℓ → Type ℓ
Map K V = List (K × V)

module _ {ℓ} {K V : Type ℓ} ⦃e : Eq K⦄ where
  unfoldable pub get : K → Map K V → Option V
  get k [] = none
  get k ((j, v) ∷ m) = if j == k then some v else get k m

  unfoldable pub contains_key : Map K V → K → Bool
  contains_key m k = elim (get k m) [ none ↦ false | some _ ↦ true ]

  unfoldable pub insert : K → V → Map K V → Map K V
  insert k v [] = (k, v) ∷ []
  insert k v ((j, w) ∷ m) = if j == k then (j, v) ∷ m else (j, w) ∷ insert k v m

  -- A write through `get_mut`.
  unfoldable pub modify : K → (V → V) → Map K V → Map K V
  modify k f [] = []
  modify k f ((j, w) ∷ m) = if j == k then (j, f w) ∷ m else (j, w) ∷ modify k f m

  unfoldable pub keys : Map K V → List K
  keys [] = []
  keys ((k, v) ∷ m) = k ∷ keys m

  unfoldable pub values : Map K V → List V
  values [] = []
  values ((k, v) ∷ m) = v ∷ values m

  pub get-insert :
      (k j : K) (v : V) (m : Map K V) → get j (insert k v m) ≡ (if k == j then some v else get j m)
  unfolding get insert
  get-insert k j v [] = refl
  get-insert k j v ((i, w) ∷ m) = ground (arith, get-insert k j v m)

  pub get-modify :
      (k j : K) (f : V → V) (m : Map K V)
      → get j (modify k f m) ≡ (if k == j then Option.map f (get j m) else get j m)
  unfolding get modify
  get-modify k j f [] = ground arith
  get-modify k j f ((i, w) ∷ m) = ground (arith, get-modify k j f m)

  pub keys-modify : (k : K) (f : V → V) (m : Map K V) → keys (modify k f m) ≡ keys m
  unfolding keys modify
  keys-modify k f [] = refl
  keys-modify k f ((i, w) ∷ m) = ground (arith, keys-modify k f m)

  pub contains-keys : (m : Map K V) (k : K) → contains (keys m) k ≡ contains_key m k
  unfolding keys contains contains_key get
  contains-keys [] k = refl
  contains-keys ((j, v) ∷ m) k = ground (arith, contains-keys m k)

  -- No key stands twice, so that an entry of the list is what `get` finds.
  abbrev pub IsDistinct : Map K V → Type ℓ
  IsDistinct [] = Unit
  IsDistinct ((k, v) ∷ m) = (get k m ≡ none) × IsDistinct m

  pub insert-IsDistinct : (k : K) (v : V) (m : Map K V) → IsDistinct m → IsDistinct (insert k v m)
  unfolding insert get
  insert-IsDistinct k v [] d = (refl, tt)
  insert-IsDistinct k v ((j, w) ∷ m) d =
      ground (arith, get-insert k j v m, insert-IsDistinct k v m d.1)

  pub modify-IsDistinct :
      (k : K) (f : V → V) (m : Map K V) → IsDistinct m → IsDistinct (modify k f m)
  unfolding modify get
  modify-IsDistinct k f [] d = tt
  modify-IsDistinct k f ((j, w) ∷ m) d =
      ground (arith, get-modify k j f m, modify-IsDistinct k f m d.1)

-- `entry(key).or_default().push(value)`
module _ {ℓ} {K A : Type ℓ} ⦃e : Eq K⦄ where
  unfoldable pub get_list : K → Map K (List A) → List A
  get_list k m = elim (get k m) [ none ↦ [] | some xs ↦ xs ]

  unfoldable pub push_back : K → A → Map K (List A) → Map K (List A)
  unfolding get_list
  push_back k a m = insert k (get_list k m ++ a ∷ []) m

  pub get_list-push_back :
      (k j : K) (a : A) (m : Map K (List A))
      → get_list j (push_back k a m) ≡ (if k == j then get_list k m ++ a ∷ [] else get_list j m)
  unfolding get_list push_back
  get_list-push_back k j a m = ground (arith, get-insert k j (get_list k m ++ a ∷ []) m)
