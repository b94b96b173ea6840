-- ===== src/Schema/Decides.antt =====
-- A value that conforms to a schema passes the check of the instance
-- (crates/aeon_agent_runtime/src/tool_registry.rs).
use genesis_runtime.Common.{
  Bool-cases, List, Option, Option-cases, false, inl, inr, list_eq, nat_eq, none, ok, option_eq,
  refl, some, true, ℕ, ◌==◌, ◌↔◌, ◌≡◌,
}
use genesis_runtime.Json.{
  Fields, Items, Value, array, bool, end, field, get_field, null, number, object, string,
}
use genesis_runtime.Schema.{
  additional_word, all_keys, check_names, check_names_of, check_required, check_required_of,
  check_type, instance_each, instance_properties, instance_properties_of, is_false, is_known,
  matches_type, properties_word, required_word, type_name, validate_instance,
}
use genesis_runtime.Schema.Conforms.{
  Conforms, IsProperty, conforms, listed-check_required, validate_instance-Conforms,
}
use genesis_runtime.Schema.Types.{HasType-matches_type, found-type_name, known-all_keys}

check_required_of-ok :
    (o : Option Value) (os : Fields)
    → ((vs : Items) → o ≡ some (array vs) → check_required vs os ≡ ok tt)
    → check_required_of o os ≡ ok tt
check_required_of-ok none os each = refl
check_required_of-ok (some (array vs)) os each = each vs refl
check_required_of-ok (some null) os each = refl
check_required_of-ok (some (bool _)) os each = refl
check_required_of-ok (some (number _)) os each = refl
check_required_of-ok (some (string _)) os each = refl
check_required_of-ok (some (object _)) os each = refl

is_false-found : (o : Option Value) → is_false o ≡ true → o ≡ some (bool false)
is_false-found none q = absurd (cc)
is_false-found (some (bool false)) q = refl
is_false-found (some (bool true)) q = absurd (cc)
is_false-found (some null) q = absurd (cc)
is_false-found (some (number _)) q = absurd (cc)
is_false-found (some (string _)) q = absurd (cc)
is_false-found (some (array _)) q = absurd (cc)
is_false-found (some (object _)) q = absurd (cc)

check_names-ok :
    (fs os : Fields)
    → ((vs : Items) → get_field required_word fs ≡ some (array vs) → check_required vs os ≡ ok tt)
    → (get_field additional_word fs ≡ some (bool false)
        → all_keys (is_known (get_field properties_word fs)) os ≡ true)
    → check_names fs os ≡ ok tt
unfolding check_names
check_names-ok fs os required closed =
    let first = check_required_of-ok (get_field required_word fs) os required in
    elim (Bool-cases (is_false (get_field additional_word fs))) [
      | inl q ↦ rw (first, q, closed (is_false-found (get_field additional_word fs) q)) refl
      | inr q ↦ rw (first, q) refl
    ]

check_names_of-ok :
    (fs : Fields) (value : Value)
    → ((os : Fields) → value ≡ object os → check_names fs os ≡ ok tt)
    → check_names_of fs value ≡ ok tt
check_names_of-ok fs (object os) each = each os refl
check_names_of-ok fs null each = refl
check_names_of-ok fs (bool _) each = refl
check_names_of-ok fs (number _) each = refl
check_names_of-ok fs (string _) each = refl
check_names_of-ok fs (array _) each = refl

check_type-fits :
    (name : Option (List ℕ)) (value : Value)
    → ((t : List ℕ) → name ≡ some t → matches_type t value ≡ true)
    → check_type name value ≡ ok tt
check_type-fits none value fits = refl
check_type-fits (some t) value fits = rw (fits t refl) refl

mutual
  unfolding validate_instance get_field

  Conforms-validate_instance :
      (schema value : Value) → Conforms schema value → validate_instance schema value ≡ ok tt
  Conforms-validate_instance (object fs) value (conforms types required closed properties) =
      let typed =
        check_type-fits (type_name fs) value
          (λ t name. HasType-matches_type t value (types fs t refl (found-type_name fs t name))) in
      let names = check_names_of-ok fs value (λ os same.
        check_names-ok fs os
          (λ vs found.
            listed-check_required vs os (λ name m. required fs os vs name refl same found m))
          (λ found. known-all_keys (is_known (get_field properties_word fs)) os (λ name m.
            let (ps, listed, there) = closed fs os name refl same found m in rw listed there))) in
      rw (typed, names)
        (instance_properties_of-ok fs value (λ os ps name s v same found m present.
          properties fs os ps name s v refl same found m present))
  Conforms-validate_instance null value c = refl
  Conforms-validate_instance (bool _) value c = refl
  Conforms-validate_instance (number _) value c = refl
  Conforms-validate_instance (string _) value c = refl
  Conforms-validate_instance (array _) value c = refl

  instance_properties_of-ok :
      (fs : Fields) (value : Value)
      → ((os ps : Fields) (name : List ℕ) (s v : Value)
          → value ≡ object os
          → get_field properties_word fs ≡ some (object ps)
          → IsProperty name s ps
          → get_field name os ≡ some v
          → Conforms s v)
      → instance_properties_of fs value ≡ ok tt
  instance_properties_of-ok end value each = refl
  instance_properties_of-ok (field k w fs) value each = elim (Bool-cases (k == properties_word)) [
    | inl hit ↦ rw hit (
        instance_properties-ok w value (λ os ps name s v same found m present.
          each os ps name s v same (rw (hit, found) refl) m present))
    | inr miss ↦ rw miss (
        instance_properties_of-ok fs value (λ os ps name s v same found m present.
          each os ps name s v same (rw miss found) m present))
  ]

  instance_properties-ok :
      (w value : Value)
      → ((os ps : Fields) (name : List ℕ) (s v : Value)
          → value ≡ object os
          → w ≡ object ps
          → IsProperty name s ps
          → get_field name os ≡ some v
          → Conforms s v)
      → instance_properties w value ≡ ok tt
  instance_properties-ok (object qs) (object os) each =
      instance_each-ok qs os (λ name s v m present. each os qs name s v refl refl m present)
  instance_properties-ok (object qs) null each = refl
  instance_properties-ok (object qs) (bool _) each = refl
  instance_properties-ok (object qs) (number _) each = refl
  instance_properties-ok (object qs) (string _) each = refl
  instance_properties-ok (object qs) (array _) each = refl
  instance_properties-ok null value each = refl
  instance_properties-ok (bool _) value each = refl
  instance_properties-ok (number _) value each = refl
  instance_properties-ok (string _) value each = refl
  instance_properties-ok (array _) value each = refl

  instance_each-ok :
      (ps os : Fields)
      → ((name : List ℕ) (s v : Value)
          → IsProperty name s ps
          → get_field name os ≡ some v
          → Conforms s v)
      → instance_each ps os ≡ ok tt
  instance_each-ok end os each = refl
  instance_each-ok (field k s ps) os each =
      let rest = instance_each-ok ps os (λ name t v m present. each name t v (inr m) present) in
      elim (Option-cases (get_field k os)) [
        | inl missing ↦ rw missing rest
        | inr (v, present) ↦
            rw (present, Conforms-validate_instance s v (each k s v (inl (refl, refl)) present))
              rest
      ]

-- The check of an instance decides whether the value conforms to the schema. It succeeds exactly
-- where the value has the type that the schema names, if it names one, an object has all required
-- names, each name of an object of a closed schema is one of the schema's properties, and each
-- property that is present conforms to its own schema.
pub validate_instance-decides :
    (schema value : Value) → (validate_instance schema value ≡ ok tt) ↔ Conforms schema value
validate_instance-decides schema value =
    (validate_instance-Conforms schema value, Conforms-validate_instance schema value)
