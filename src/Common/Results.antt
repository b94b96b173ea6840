-- ===== src/Common/Results.antt =====
-- Results and the machine-readable error codes (crates/aeon_agent_runtime/src/error.rs). The
-- human-readable message of a `RuntimeError` is left out.
use mathlib.Core.Path.{ap, ◌≡◌, refl}
use mathlib.Core.Bool.{Bool, true, false}
use mathlib.Core.Option.{Option, none, some}
use mathlib.Core.List.{List, [], ◌∷◌}
use mathlib.Core.Logic.{◌⊎◌, inl, inr}
use genesis_runtime.Common.Tests.{list_eq, nat_eq, option_eq}

pub data ErrorCode : Type 0 where
  invalid_identifier invalid_input canonical_serialization malformed_protocol : ErrorCode
  output_too_large unknown_tool duplicate_tool tool_outside_mission : ErrorCode
  capability_outside_authority capability_all_forbidden tool_manifest_mismatch : ErrorCode
  semantic_context_changed context_resolution_failed mission_inactive agent_inactive : ErrorCode
  lease_inactive identity_invalid delegation_invalid lease_generation_mismatch : ErrorCode
  capability_manifest_mismatch authorization_invalid budget_exhausted execution_failed : ErrorCode
  model_failed event_incomplete internal : ErrorCode

pub data Result {ℓ} (T : Type ℓ) : Type ℓ where
  err : ErrorCode → Result T
  ok : T → Result T

-- `if reject { return Err(code) }`
abbrev pub refuse_if : Bool → ErrorCode → Result (Unit {0})
refuse_if false code = ok tt
refuse_if true code = err code

-- The `?` operator: an error returns at once.
abbrev pub ◌>>=◌ {ℓ κ} : {T : Type ℓ} {U : Type κ} → Result T → (T → Result U) → Result U
err code >>= rest = err code
ok value >>= rest = rest value

-- `ok_or_else`
abbrev pub ok_or {ℓ} : {A : Type ℓ} → Option A → ErrorCode → Result A
ok_or none e = err e
ok_or (some a) e = ok a

-- `map_err(|_| code)`
abbrev pub with_error {ℓ} : {A : Type ℓ} → Result A → ErrorCode → Result A
with_error (ok a) e = ok a
with_error (err _) e = err e

-- `iter().map().collect::<Result<Vec<_>>>()`
unfoldable pub collect {ℓ κ} : {A : Type ℓ} {B : Type κ} → (A → Result B) → List A → Result (List B)
collect f [] = ok []
collect f (x ∷ xs) = do y ← f x; ys ← collect f xs; ok (y ∷ ys)

-- A statement that ends in `?;`, before the rest of the block.
abbrev pub ◌>>◌ {ℓ} : {U : Type ℓ} → Result (Unit {0}) → Result U → Result U
checked >> rest = checked >>= λ _. rest

infixl 5 ◌>>=◌ ◌>>◌
-- What `?` has let through, where the whole block returned a value.
pub >>=-eq-ok {ℓ κ} :
    {T : Type ℓ} {U : Type κ} (r : Result T) (rest : T → Result U) {result : U}
    → (r >>= rest) ≡ ok result
    → (value : T) × (r ≡ ok value) × (rest value ≡ ok result)
>>=-eq-ok (err code) rest returned = absurd (cc)
>>=-eq-ok (ok value) rest returned = (value, refl, returned)

pub >>=-cong {ℓ κ} :
    {A : Type ℓ} {B : Type κ} (m : Result A) {f g : A → Result B}
    → ((a : A) → f a ≡ g a)
    → (m >>= f) ≡ (m >>= g)
>>=-cong (ok a) e = e a
>>=-cong (err c) e = refl

unfoldable or_else {ℓ} : {A : Type ℓ} → A → Result A → A
or_else a (ok x) = x
or_else a (err e) = a

pub ok-inj {ℓ} : {A : Type ℓ} {a b : A} → ok a ≡ ok b → a ≡ b
unfolding or_else
ok-inj {a} e = ap (or_else a) e

pub Result-cases {ℓ} :
    {A : Type ℓ} (r : Result A) → ((e : ErrorCode) × (r ≡ err e)) ⊎ ((a : A) × (r ≡ ok a))
Result-cases (ok a) = inr (a, refl)
Result-cases (err e) = inl (e, refl)

-- A guard that has let through.
pub refuse_if-ok :
    (b : Bool) (code : ErrorCode) {u : Unit {0}} → refuse_if b code ≡ ok u → b ≡ false
refuse_if-ok false code q = refl
refuse_if-ok true code q = absurd (cc)

pub ok_or-eq_ok {ℓ} :
    {A : Type ℓ} (o : Option A) (e : ErrorCode) {a : A} → ok_or o e ≡ ok a → o ≡ some a
ok_or-eq_ok none e q = absurd (cc)
ok_or-eq_ok (some b) e q = ap some (ok-inj q)
