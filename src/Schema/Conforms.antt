-- ===== src/Schema/Conforms.antt =====
-- What it means that a value conforms to a schema, and that the check of an instance decides it
-- (crates/aeon_agent_runtime/src/tool_registry.rs).
use genesis_runtime.Common.{
  >>=-eq-ok, Bool-cases, List, Option, arith, false, inl, inr, invalid_input, list_eq, nat_eq, not,
  ok, option_eq, refl, refuse_if, refuse_if-ok, some, subst, true, ℕ, ◌&&◌, ◌==◌, ◌≡◌, ◌≢◌, ◌⊎◌,
}
use genesis_runtime.Json.{
  Fields, Items, Value, array, bool, cons, end, field, get_field, has_key, nil, null, number,
  object, string,
}
use genesis_runtime.Schema.{
  additional_word, all_keys, check_names, check_names_of, check_required, check_required_of,
  check_type, instance_each, instance_properties, instance_properties_of, is_false, is_known,
  matches_type, properties_word, required_word, type_name, validate_instance, when_present,
}
use genesis_runtime.Schema.Types.{
  HasType, all_keys-known, is_known-found, matches_type-HasType, type_name-found,
}
use genesis_runtime.Ids.{codes, identifier_eq}
use mathlib.Core.Path.{sym, ◌∙◌, ap}

-- A name that a `required` array lists.
abbrev pub IsListed : List ℕ → Items → Type 0
IsListed name nil = ⊥
IsListed name (cons (string t) vs) = (t ≡ name) ⊎ IsListed name vs
IsListed name (cons null vs) = IsListed name vs
IsListed name (cons (bool _) vs) = IsListed name vs
IsListed name (cons (number _) vs) = IsListed name vs
IsListed name (cons (array _) vs) = IsListed name vs
IsListed name (cons (object _) vs) = IsListed name vs

-- An entry of an object of properties.
abbrev pub IsProperty : List ℕ → Value → Fields → Type 0
IsProperty name s end = ⊥
IsProperty name s (field k v fs) = ((k ≡ name) × (v ≡ s)) ⊎ IsProperty name s fs

-- What a schema asks of a value: its type; of an object the required names, no unknown names in
-- a closed schema, and of each property that is present, what the schema of the property asks.
-- A schema that is no object asks nothing.
pub data Conforms : Value → Value → Type 0 where
  conforms :
      {schema value : Value}
      → ((fs : Fields) (t : List ℕ)
          → schema ≡ object fs
          → get_field (codes "type") fs ≡ some (string t)
          → HasType t value)
      → ((fs os : Fields) (vs : Items) (name : List ℕ)
          → schema ≡ object fs
          → value ≡ object os
          → get_field (codes "required") fs ≡ some (array vs)
          → IsListed name vs
          → has_key os name ≡ true)
      → ((fs os : Fields) (name : List ℕ)
          → schema ≡ object fs
          → value ≡ object os
          → get_field (codes "additionalProperties") fs ≡ some (bool false)
          → has_key os name ≡ true
          → (ps : Fields) × (get_field (codes "properties") fs ≡ some (object ps))
            × (has_key ps name ≡ true))
      → ((fs os ps : Fields) (name : List ℕ) (s v : Value)
          → schema ≡ object fs
          → value ≡ object os
          → get_field (codes "properties") fs ≡ some (object ps)
          → IsProperty name s ps
          → get_field name os ≡ some v
          → Conforms s v)
      → Conforms schema value

check_required-listed :
    (vs : Items) (os : Fields) (name : List ℕ)
    → check_required vs os ≡ ok tt
    → IsListed name vs
    → has_key os name ≡ true
unfolding check_required
check_required-listed nil os name q m = absurd m
check_required-listed (cons (string t) vs) os name q (inl same) =
    let (_, a, _) = >>=-eq-ok (refuse_if (not (has_key os t)) invalid_input) _ q in
    let b = refuse_if-ok (not (has_key os t)) invalid_input a in rw (sym same) (ground (arith, b))
check_required-listed (cons (string t) vs) os name q (inr m) =
    let (_, _, b) = >>=-eq-ok (refuse_if (not (has_key os t)) invalid_input) _ q in
    check_required-listed vs os name b m
check_required-listed (cons null vs) os name q m = check_required-listed vs os name q m
check_required-listed (cons (bool _) vs) os name q m = check_required-listed vs os name q m
check_required-listed (cons (number _) vs) os name q m = check_required-listed vs os name q m
check_required-listed (cons (array _) vs) os name q m = check_required-listed vs os name q m
check_required-listed (cons (object _) vs) os name q m = check_required-listed vs os name q m

pub listed-check_required :
    (vs : Items) (os : Fields)
    → ((name : List ℕ) → IsListed name vs → has_key os name ≡ true)
    → check_required vs os ≡ ok tt
unfolding check_required
listed-check_required nil os each = refl
listed-check_required (cons (string t) vs) os each =
    rw (each t (inl refl)) (listed-check_required vs os (λ name m. each name (inr m)))
listed-check_required (cons null vs) os each = listed-check_required vs os each
listed-check_required (cons (bool _) vs) os each = listed-check_required vs os each
listed-check_required (cons (number _) vs) os each = listed-check_required vs os each
listed-check_required (cons (array _) vs) os each = listed-check_required vs os each
listed-check_required (cons (object _) vs) os each = listed-check_required vs os each

object_inj : (fs gs : Fields) → object fs ≡ object gs → fs ≡ gs
object_inj fs gs e = cc

some_object_inj : (fs gs : Fields) → some (object fs) ≡ some (object gs) → fs ≡ gs
some_object_inj fs gs e = cc

-- A schema that is no object.
Conforms-freely :
    (schema value : Value) → ((gs : Fields) → schema ≢ object gs) → Conforms schema value
Conforms-freely schema value other =
    conforms (λ gs t e. absurd (other gs e)) (λ gs os vs name e. absurd (other gs e))
      (λ gs os name e. absurd (other gs e)) (λ gs os ps name s v e. absurd (other gs e))

check_names-listed :
    (fs os : Fields) (vs : Items)
    → check_names fs os ≡ ok tt
    → get_field required_word fs ≡ some (array vs)
    → check_required vs os ≡ ok tt
unfolding check_names
check_names-listed fs os vs q found =
    let (_, a, _) = >>=-eq-ok (check_required_of (get_field required_word fs) os) _ q in
    rw found at a

check_names-closed :
    (fs os : Fields)
    → check_names fs os ≡ ok tt
    → get_field additional_word fs ≡ some (bool false)
    → all_keys (is_known (get_field properties_word fs)) os ≡ true
unfolding check_names
check_names-closed fs os q found =
    let (_, _, b) = >>=-eq-ok (check_required_of (get_field required_word fs) os) _ q in
    let unknown =
      is_false (get_field additional_word fs)
      && not (all_keys (is_known (get_field properties_word fs)) os) in
    let c : unknown ≡ false = refuse_if-ok unknown invalid_input b in ground (arith, c, found)

check_type-ok :
    (name : Option (List ℕ)) (t : List ℕ) (value : Value)
    → check_type name value ≡ ok tt
    → name ≡ some t
    → matches_type t value ≡ true
check_type-ok name t value q e =
    let r : check_type (some t) value ≡ ok tt = subst (λ n. check_type n value ≡ ok tt) e q in
    ground (arith, refuse_if-ok (not (matches_type t value)) invalid_input r)

-- The properties that the check goes through.
mutual
  unfolding validate_instance get_field check_names

  pub validate_instance-Conforms :
      (schema value : Value) → validate_instance schema value ≡ ok tt → Conforms schema value
  validate_instance-Conforms (object fs) value q =
      let (_, typed, q1) = >>=-eq-ok (check_type (type_name fs) value) _ q in
      let (_, names, q2) = >>=-eq-ok (check_names_of fs value) _ q1 in
      conforms
        (λ gs t e name. matches_type-HasType t value (
          check_type-ok (type_name fs) t value typed
            (ap type_name (object_inj fs gs e) ∙ type_name-found gs t name)))
        (λ gs os vs name e same found m.
          check_required-listed vs os name
            (check_names-listed fs os vs (rw same at names)
              (ap (get_field required_word) (object_inj fs gs e) ∙ found))
            m)
        (λ gs os name e same found m. is_known-found (get_field properties_word gs) name (
          all_keys-known (is_known (get_field properties_word gs)) os name
            (subst (λ (x : Fields). all_keys (is_known (get_field properties_word x)) os ≡ true)
              (object_inj fs gs e)
              (check_names-closed fs os (rw same at names)
                (ap (get_field additional_word) (object_inj fs gs e) ∙ found)))
            m))
        (λ gs os ps name s v e same found m present.
          instance_properties_of-each fs value q2 os ps name s v same
            (ap (get_field properties_word) (object_inj fs gs e) ∙ found) m present)
  validate_instance-Conforms null value q = Conforms-freely _ value (λ gs e. cc)
  validate_instance-Conforms (bool _) value q = Conforms-freely _ value (λ gs e. cc)
  validate_instance-Conforms (number _) value q = Conforms-freely _ value (λ gs e. cc)
  validate_instance-Conforms (string _) value q = Conforms-freely _ value (λ gs e. cc)
  validate_instance-Conforms (array _) value q = Conforms-freely _ value (λ gs e. cc)

  instance_properties_of-each :
      (fs : Fields) (value : Value)
      → instance_properties_of fs value ≡ ok tt
      → (os ps : Fields) (name : List ℕ) (s v : Value) → value ≡ object os
      → get_field properties_word fs ≡ some (object ps)
      → IsProperty name s ps
      → get_field name os ≡ some v
      → Conforms s v
  instance_properties_of-each end value q os ps name s v same found m present = absurd (cc)
  instance_properties_of-each (field k w fs) value q os ps name s v same found m present =
      elim (Bool-cases (k == properties_word)) [
        | inl hit ↦
            instance_properties-each w value (rw hit at q) os ps name s v same (rw hit at found) m
              present
        | inr miss ↦
            instance_properties_of-each fs value (rw miss at q) os ps name s v same
              (rw miss at found) m present
      ]

  instance_properties-each :
      (w value : Value)
      → instance_properties w value ≡ ok tt
      → (os ps : Fields) (name : List ℕ) (s v : Value) → value ≡ object os
      → some w ≡ some (object ps)
      → IsProperty name s ps
      → get_field name os ≡ some v
      → Conforms s v
  instance_properties-each (object qs) value q os ps name s v same found m present =
      instance_each-each qs os (rw same at q) name s v (rw (some_object_inj qs ps found) m) present
  instance_properties-each null value q os ps name s v same found m present = absurd (cc)
  instance_properties-each (bool _) value q os ps name s v same found m present = absurd (cc)
  instance_properties-each (number _) value q os ps name s v same found m present = absurd (cc)
  instance_properties-each (string _) value q os ps name s v same found m present = absurd (cc)
  instance_properties-each (array _) value q os ps name s v same found m present = absurd (cc)

  instance_each-each :
      (ps os : Fields)
      → instance_each ps os ≡ ok tt
      → (name : List ℕ) (s v : Value) → IsProperty name s ps
      → get_field name os ≡ some v
      → Conforms s v
  instance_each-each end os q name s v m present = absurd m
  instance_each-each (field k w ps) os q name s v (inl (same, schema)) present =
      let (_, one, _) =
        >>=-eq-ok (when_present (get_field k os) (λ x. validate_instance w x)) _ q in
      let found : get_field k os ≡ some v = rw same present in
      rw (sym schema) (validate_instance-Conforms w v (rw found at one))
  instance_each-each (field k w ps) os q name s v (inr m) present =
      let (_, _, rest) =
        >>=-eq-ok (when_present (get_field k os) (λ x. validate_instance w x)) _ q in
      instance_each-each ps os rest name s v m present
