-- ===== src/Schema.antt =====
-- The JSON schemas of tools: the supported keywords, and an instance against its schema
-- (crates/aeon_agent_runtime/src/tool_registry.rs).
pub mod Types
pub mod Conforms
pub mod Decides
use genesis_runtime.Common.{
  Bool, List, Option, Result, [], contains, err, false, if◌then◌else◌, invalid_input, list_eq,
  nat_eq, none, not, ok, option_eq, refuse_if, some, true, ℕ, ◌&&◌, ◌==◌, ◌>>=◌, ◌>>◌, ◌||◌, ◌∷◌,
}
use genesis_runtime.Ids.{codes, identifier_eq}
use genesis_runtime.Json.{
  Fields, Items, Number, Value, array, as_text, bool, cons, end, field, float, get_field, has_key,
  nil, null, number, object, string,
}

abbrev pub type_word : List ℕ
type_word = codes "type"

abbrev pub required_word : List ℕ
required_word = codes "required"

abbrev pub properties_word : List ℕ
properties_word = codes "properties"

abbrev pub additional_word : List ℕ
additional_word = codes "additionalProperties"

-- `SUPPORTED_KEYWORDS`
abbrev pub supported_keywords : List (List ℕ)
supported_keywords = type_word ∷ required_word ∷ properties_word ∷ additional_word ∷ []

abbrev pub supported_types : List (List ℕ)
supported_types =
    codes "object"
    ∷ codes "array"
    ∷ codes "string"
    ∷ codes "number"
    ∷ codes "integer"
    ∷ codes "boolean"
    ∷ codes "null"
    ∷ []

unfoldable pub all_keys : (List ℕ → Bool) → Fields → Bool
all_keys p end = true
all_keys p (field k v fs) = p k && all_keys p fs

abbrev pub is_object : Value → Bool
is_object (object _) = true
is_object _ = false

abbrev pub is_array : Value → Bool
is_array (array _) = true
is_array _ = false

abbrev pub is_string : Value → Bool
is_string (string _) = true
is_string _ = false

abbrev pub is_number : Value → Bool
is_number (number _) = true
is_number _ = false

-- `as_i64().is_some() || as_u64().is_some()`
abbrev pub is_integer : Value → Bool
is_integer (number (Number.float _)) = false
is_integer (number _) = true
is_integer _ = false

abbrev pub is_boolean : Value → Bool
is_boolean (bool _) = true
is_boolean _ = false

abbrev pub is_null : Value → Bool
is_null null = true
is_null _ = false

-- The `match expected_type` of `validate_instance`.
unfoldable pub matches_type : List ℕ → Value → Bool
matches_type expected value =
    if expected == codes "object"
    then is_object value
    else if expected == codes "array"
    then is_array value
    else if expected == codes "string"
    then is_string value
    else if expected == codes "number"
    then is_number value
    else if expected == codes "integer"
    then is_integer value
    else if expected == codes "boolean"
    then is_boolean value
    else if expected == codes "null"
    then is_null value
    else false

-- `schema.get("type").and_then(Value::as_str)`, on the fields of an object.
unfoldable pub type_name : Fields → Option (List ℕ)
unfolding get_field
type_name fs = elim (get_field type_word fs) [ none ↦ none | some v ↦ as_text v ]

unfoldable pub all_strings : Items → Bool
all_strings nil = true
all_strings (cons v vs) = is_string v && all_strings vs

abbrev is_supported_type : Value → Bool
is_supported_type (string t) = contains supported_types t
is_supported_type _ = false

abbrev is_string_array : Value → Bool
is_string_array (array vs) = all_strings vs
is_string_array _ = false

-- A test of a keyword's value, where the schema has the keyword.
abbrev pub on_keyword : Option Value → (Value → Bool) → Bool
on_keyword none p = true
on_keyword (some v) p = p v

-- What `validate_schema_definition` asks of one schema, before it descends.
unfoldable pub validate_keywords : Fields → Result (Unit {0})
unfolding all_keys get_field has_key type_name
validate_keywords fs = do
  refuse_if (not (all_keys (contains supported_keywords) fs)) invalid_input
  refuse_if (not (on_keyword (get_field type_word fs) is_supported_type)) invalid_input
  refuse_if
      ((has_key fs required_word || has_key fs properties_word)
        && not (type_name fs == some (codes "object")))
      invalid_input
  refuse_if (not (on_keyword (get_field required_word fs) is_string_array)) invalid_input
  refuse_if (not (on_keyword (get_field additional_word fs) is_boolean)) invalid_input

-- The descent goes through the fields to the first "properties". The keyword after it in the
-- source is asked for before it here: every refusal has one code.
unfoldable mutual
  unfolding validate_keywords

  pub validate_schema_definition : Value → Result (Unit {0})
  validate_schema_definition (object fs) = do validate_keywords fs; validate_properties_of fs
  validate_schema_definition _ = err invalid_input

  pub validate_properties_of : Fields → Result (Unit {0})
  validate_properties_of end = ok tt
  validate_properties_of (field k v fs) =
      let this = validate_properties v in
      let rest = validate_properties_of fs in if k == properties_word then this else rest

  pub validate_properties : Value → Result (Unit {0})
  validate_properties (object ps) = validate_each ps
  validate_properties _ = err invalid_input

  pub validate_each : Fields → Result (Unit {0})
  validate_each end = ok tt
  validate_each (field k v fs) = do validate_schema_definition v; validate_each fs

-- Each text of `required` that is a string must be a key of the object.
unfoldable pub check_required : Items → Fields → Result (Unit {0})
unfolding has_key
check_required nil os = ok tt
check_required (cons (string name) vs) os = do
  refuse_if (not (has_key os name)) invalid_input
  check_required vs os
check_required (cons _ vs) os = check_required vs os

abbrev pub check_required_of : Option Value → Fields → Result (Unit {0})
check_required_of (some (array vs)) os = check_required vs os
check_required_of _ os = ok tt

abbrev pub is_false : Option Value → Bool
is_false (some (bool false)) = true
is_false _ = false

-- `properties.is_some_and(|known| known.contains_key(name))`
abbrev pub is_known : Option Value → List ℕ → Bool
is_known (some (object ps)) name = has_key ps name
is_known _ name = false

-- The two loops over names in `validate_instance`.
unfoldable pub check_names : Fields → Fields → Result (Unit {0})
unfolding get_field all_keys check_required
check_names fs os = do
  check_required_of (get_field required_word fs) os
  refuse_if
      (is_false (get_field additional_word fs)
        && not (all_keys (is_known (get_field properties_word fs)) os))
      invalid_input

-- The check of the type, where the schema names one.
abbrev pub check_type : Option (List ℕ) → Value → Result (Unit {0})
check_type none value = ok tt
check_type (some expected) value = refuse_if (not (matches_type expected value)) invalid_input

-- The part of `validate_instance` for an object that is checked against an object.
abbrev pub check_names_of : Fields → Value → Result (Unit {0})
check_names_of fs (object os) = check_names fs os
check_names_of fs _ = ok tt

-- `if let Some(property) = object.get(name)`
abbrev pub when_present : Option Value → (Value → Result (Unit {0})) → Result (Unit {0})
when_present none check = ok tt
when_present (some value) check = check value

-- The loop over the properties goes through the fields to the first "properties".
unfoldable mutual
  unfolding check_names type_name matches_type get_field

  pub validate_instance : Value → Value → Result (Unit {0})
  validate_instance (object fs) value = do
    check_type (type_name fs) value
    check_names_of fs value
    instance_properties_of fs value
  validate_instance _ value = ok tt

  pub instance_properties_of : Fields → Value → Result (Unit {0})
  instance_properties_of end value = ok tt
  instance_properties_of (field k v fs) value =
      let this = instance_properties v value in
      let rest = instance_properties_of fs value in if k == properties_word then this else rest

  pub instance_properties : Value → Value → Result (Unit {0})
  instance_properties (object ps) (object os) = instance_each ps os
  instance_properties _ _ = ok tt

  pub instance_each : Fields → Fields → Result (Unit {0})
  instance_each end os = ok tt
  instance_each (field k s ps) os = do
    when_present (get_field k os) (λ value. validate_instance s value)
    instance_each ps os
