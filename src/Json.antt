-- ===== src/Json.antt =====
-- `serde_json::Value`, and the interfaces of the crates that the runtime calls.
use genesis_runtime.Common.{
  Bool, List, Option, false, if◌then◌else◌, list_eq, nat_eq, none, option_eq, some, ℕ, ◌==◌, ◌||◌,
}

-- A number that is a `u64`, a negative `i64` (by the distance from zero), or a float (by its bits).
pub data Number : Type 0 where
  pos_int neg_int float : ℕ → Number

-- Texts and keys are lists of bytes.
mutual
  pub data Value : Type 0 where
    null : Value
    bool : Bool → Value
    number : Number → Value
    string : List ℕ → Value
    array : Items → Value
    object : Fields → Value

  pub data Items : Type 0 where
    nil : Items
    cons : Value → Items → Items

  pub data Fields : Type 0 where
    end : Fields
    field : List ℕ → Value → Fields → Fields

-- `Map::get` and `contains_key` of `serde_json`, whose keys are distinct: the first one counts.
unfoldable pub get_field : List ℕ → Fields → Option Value
get_field name end = none
get_field name (field k v fs) = if k == name then some v else get_field name fs

unfoldable pub has_key : Fields → List ℕ → Bool
has_key end name = false
has_key (field k v fs) name = k == name || has_key fs name

-- `as_str`
abbrev pub as_text : Value → Option (List ℕ)
as_text (string t) = some t
as_text _ = none

-- `serde::Serialize` as `serde_json::to_value` uses it; `none` is a serialization error.
pub record Serialize {ℓ} (A : Type ℓ) : Type ℓ where
  pub to_value : A → Option Value

-- What the runtime calls of nexus, ed25519_dalek, sha2 and serde_json. Times are `DateTime<Utc>`
-- as nanoseconds.
pub record Host : Type 1 where
  pub Capability : Type 0
  pub capability_all : Capability
  pub capability_dec : Discrete Capability
  pub is_subset_of : Capability → Capability → Bool
  pub capability_serialize : Serialize Capability
  pub VerifyingKey : Type 0
  pub key_from_bytes : List ℕ → Option VerifyingKey
  pub key_to_bytes : VerifyingKey → List ℕ
  pub verify : VerifyingKey → List ℕ → List ℕ → Bool
  pub sha256 : List ℕ → List ℕ
  pub to_vec : Value → Option (List ℕ)
