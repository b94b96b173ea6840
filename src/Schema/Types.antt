-- ===== src/Schema/Types.antt =====
-- What the words of a schema mean: the types that it can name, and the names that it knows
-- (crates/aeon_agent_runtime/src/tool_registry.rs).
use genesis_runtime.Common.{
  ==_iff, Bool, Bool-cases, List, Option, Option-cases, arith, if◌then◌else◌, false, inl, inr,
  list_dec, list_eq, nat_eq, none, option_eq, refl, some, true, ℕ, ℕ_discrete, ◌==◌, ◌≡◌,
}
use genesis_runtime.Ids.{codes, identifier_eq}
use genesis_runtime.Json.{
  Fields, Items, Number, Value, array, as_text, bool, end, field, get_field, has_key, neg_int, null,
  number, object, pos_int, string,
}
use mathlib.Core.Path.{sym, ◌∙◌, ap}
use genesis_runtime.Schema.{
  all_keys, is_array, is_boolean, is_integer, is_known, is_null, is_number, is_object, is_string,
  matches_type, type_name, type_word,
}

-- The values of each type that a schema can name. A number with a fraction or an exponent is no
-- integer.
pub data HasType (t : List ℕ) (v : Value) : Type 0 where
  an_object : (fs : Fields) → t ≡ codes "object" → v ≡ object fs → HasType t v
  an_array : (vs : Items) → t ≡ codes "array" → v ≡ array vs → HasType t v
  a_string : (s : List ℕ) → t ≡ codes "string" → v ≡ string s → HasType t v
  a_number : (n : Number) → t ≡ codes "number" → v ≡ number n → HasType t v
  a_natural : (n : ℕ) → t ≡ codes "integer" → v ≡ number (pos_int n) → HasType t v
  a_negative : (n : ℕ) → t ≡ codes "integer" → v ≡ number (neg_int n) → HasType t v
  a_boolean : (b : Bool) → t ≡ codes "boolean" → v ≡ bool b → HasType t v
  a_null : t ≡ codes "null" → v ≡ null → HasType t v

object_shape : (t : List ℕ) (v : Value) → is_object v ≡ true → t ≡ codes "object" → HasType t v
object_shape t (object fs) q e = an_object fs e refl
object_shape t null q e = absurd (cc)
object_shape t (bool _) q e = absurd (cc)
object_shape t (number _) q e = absurd (cc)
object_shape t (string _) q e = absurd (cc)
object_shape t (array _) q e = absurd (cc)

array_shape : (t : List ℕ) (v : Value) → is_array v ≡ true → t ≡ codes "array" → HasType t v
array_shape t (array vs) q e = an_array vs e refl
array_shape t null q e = absurd (cc)
array_shape t (bool _) q e = absurd (cc)
array_shape t (number _) q e = absurd (cc)
array_shape t (string _) q e = absurd (cc)
array_shape t (object _) q e = absurd (cc)

string_shape : (t : List ℕ) (v : Value) → is_string v ≡ true → t ≡ codes "string" → HasType t v
string_shape t (string s) q e = a_string s e refl
string_shape t null q e = absurd (cc)
string_shape t (bool _) q e = absurd (cc)
string_shape t (number _) q e = absurd (cc)
string_shape t (array _) q e = absurd (cc)
string_shape t (object _) q e = absurd (cc)

number_shape : (t : List ℕ) (v : Value) → is_number v ≡ true → t ≡ codes "number" → HasType t v
number_shape t (number n) q e = a_number n e refl
number_shape t null q e = absurd (cc)
number_shape t (bool _) q e = absurd (cc)
number_shape t (string _) q e = absurd (cc)
number_shape t (array _) q e = absurd (cc)
number_shape t (object _) q e = absurd (cc)

integer_shape : (t : List ℕ) (v : Value) → is_integer v ≡ true → t ≡ codes "integer" → HasType t v
integer_shape t (number (pos_int n)) q e = a_natural n e refl
integer_shape t (number (neg_int n)) q e = a_negative n e refl
integer_shape t (number (Number.float _)) q e = absurd (cc)
integer_shape t null q e = absurd (cc)
integer_shape t (bool _) q e = absurd (cc)
integer_shape t (string _) q e = absurd (cc)
integer_shape t (array _) q e = absurd (cc)
integer_shape t (object _) q e = absurd (cc)

boolean_shape : (t : List ℕ) (v : Value) → is_boolean v ≡ true → t ≡ codes "boolean" → HasType t v
boolean_shape t (bool b) q e = a_boolean b e refl
boolean_shape t null q e = absurd (cc)
boolean_shape t (number _) q e = absurd (cc)
boolean_shape t (string _) q e = absurd (cc)
boolean_shape t (array _) q e = absurd (cc)
boolean_shape t (object _) q e = absurd (cc)

null_shape : (t : List ℕ) (v : Value) → is_null v ≡ true → t ≡ codes "null" → HasType t v
null_shape t null q e = a_null e refl
null_shape t (bool _) q e = absurd (cc)
null_shape t (number _) q e = absurd (cc)
null_shape t (string _) q e = absurd (cc)
null_shape t (array _) q e = absurd (cc)
null_shape t (object _) q e = absurd (cc)

-- One test of the chain: the value has the type of this name, or the rest of the chain holds.
one_type :
    (t name : List ℕ) (v : Value) (fits rest : Bool)
    → (if t == name then fits else rest) ≡ true
    → (fits ≡ true → t ≡ name → HasType t v)
    → (rest ≡ true → HasType t v)
    → HasType t v
one_type t name v fits rest q here later = elim (Bool-cases (t == name)) [
  | inl same ↦ here (rw same at q) ((==_iff t name).0 same)
  | inr other ↦ later (rw other at q)
]

pub matches_type-HasType : (t : List ℕ) (v : Value) → matches_type t v ≡ true → HasType t v
unfolding matches_type
matches_type-HasType t v q =
    one_type t (codes "object") v (is_object v) _ q (object_shape t v) λ q1.
      one_type t (codes "array") v (is_array v) _ q1 (array_shape t v) λ q2.
        one_type t (codes "string") v (is_string v) _ q2 (string_shape t v) λ q3.
          one_type t (codes "number") v (is_number v) _ q3 (number_shape t v) λ q4.
            one_type t (codes "integer") v (is_integer v) _ q4 (integer_shape t v) λ q5.
              one_type t (codes "boolean") v (is_boolean v) _ q5 (boolean_shape t v) λ q6.
                one_type t (codes "null") v (is_null v) false q6 (null_shape t v)
                  λ q7. absurd (cc (q7))

pub HasType-matches_type : (t : List ℕ) (v : Value) → HasType t v → matches_type t v ≡ true
unfolding matches_type list_dec ℕ_discrete
HasType-matches_type t v (an_object fs e s) = rw (e, s) refl
HasType-matches_type t v (an_array vs e s) = rw (e, s) refl
HasType-matches_type t v (a_string u e s) = rw (e, s) refl
HasType-matches_type t v (a_number n e s) = rw (e, s) refl
HasType-matches_type t v (a_natural n e s) = rw (e, s) refl
HasType-matches_type t v (a_negative n e s) = rw (e, s) refl
HasType-matches_type t v (a_boolean b e s) = rw (e, s) refl
HasType-matches_type t v (a_null e s) = rw (e, s) refl

pub type_name-found :
    (fs : Fields) (t : List ℕ) → get_field type_word fs ≡ some (string t) → type_name fs ≡ some t
unfolding type_name
type_name-found fs t q = rw (q, type_name) refl

as_text-string : (v : Value) (t : List ℕ) → as_text v ≡ some t → v ≡ string t
as_text-string (string s) t q = cc
as_text-string null t q = absurd (cc)
as_text-string (bool _) t q = absurd (cc)
as_text-string (number _) t q = absurd (cc)
as_text-string (array _) t q = absurd (cc)
as_text-string (object _) t q = absurd (cc)

pub found-type_name :
    (fs : Fields) (t : List ℕ) → type_name fs ≡ some t → get_field type_word fs ≡ some (string t)
unfolding type_name
found-type_name fs t q = elim (Option-cases (get_field type_word fs)) [
  | inl none_ ↦ absurd (cc (rw (none_, type_name) at q))
  | inr (v, found) ↦ found ∙ ap some (as_text-string v t (rw (found, type_name) at q))
]

pub all_keys-known :
    (p : List ℕ → Bool) (os : Fields) (name : List ℕ)
    → all_keys p os ≡ true
    → has_key os name ≡ true
    → p name ≡ true
unfolding all_keys has_key
all_keys-known p end name q m = absurd (cc)
all_keys-known p (field k v os) name q m = elim (Bool-cases (k == name)) [
  | inl hit ↦
      let first : p k ≡ true = ground (arith, q) in ap p (sym ((==_iff k name).0 hit)) ∙ first
  | inr miss ↦ all_keys-known p os name (ground (arith, q)) (ground (arith, m, miss))
]

pub known-all_keys :
    (p : List ℕ → Bool) (os : Fields)
    → ((name : List ℕ) → has_key os name ≡ true → p name ≡ true)
    → all_keys p os ≡ true
unfolding all_keys has_key
known-all_keys p end each = refl
known-all_keys p (field k v os) each =
    let first = each k (ground (arith, (==_iff k k).1 refl)) in
    let rest = known-all_keys p os (λ name m. each name (ground (arith, m))) in
    ground (arith, first, rest)

-- A name that the "properties" of a schema list.
pub is_known-found :
    (o : Option Value) (name : List ℕ)
    → is_known o name ≡ true
    → (ps : Fields) × (o ≡ some (object ps)) × (has_key ps name ≡ true)
is_known-found none name q = absurd (cc)
is_known-found (some (object ps)) name q = (ps, refl, q)
is_known-found (some null) name q = absurd (cc)
is_known-found (some (bool _)) name q = absurd (cc)
is_known-found (some (number _)) name q = absurd (cc)
is_known-found (some (string _)) name q = absurd (cc)
is_known-found (some (array _)) name q = absurd (cc)
