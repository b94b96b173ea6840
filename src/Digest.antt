-- ===== src/Digest.antt =====
-- Canonical JSON, domain-separated digests and signing payloads
-- (crates/aeon_agent_runtime/src/digest.rs).
pub mod Framing
pub mod Hex
use genesis_runtime.Common.{
  Eq, List, Option, Result, [], all, canonical_serialization, dec_by, if◌then◌else◌, invalid_input,
  leb, length, list_dec, list_eq, ltb, nat_eq, none, not, ok, ok_or, option_eq, refuse_if, some, ℕ,
  ℕ_discrete, ◌%◌, ◌&&◌, ◌*◌, ◌++◌, ◌+◌, ◌-◌, ◌/◌, ◌==◌, ◌>>=◌, ◌>>◌, ◌^◌, ◌||◌, ◌∷◌, ◌≡◌,
}
use genesis_runtime.Ids.{bytes_le, identifier_eq}
use genesis_runtime.Json.{
  Fields, Host, Items, Serialize, Value, array, bool, cons, end, field, nil, null, number, object,
  string,
}

pub record Digest : Type 0 where
  pub bytes : List ℕ

Digest-ext : (a b : Digest) → a.bytes ≡ b.bytes → a ≡ b
Digest-ext a b e i = record { bytes = e i }

unfoldable pub digest_dec : Discrete Digest
unfolding Digest-ext dec_by list_dec ℕ_discrete
digest_dec = dec_by (λ d. d.bytes) Digest-ext (list_dec ℕ_discrete)

instance abbrev pub digest_eq : Eq Digest
digest_eq = record { dec = digest_dec }

abbrev pub hex_digit : ℕ → ℕ
hex_digit n = if ltb n 10 then n + b'0' else n - 10 + b'a'

-- `write!(encoded, "{byte:02x}")` for each byte.
unfoldable pub hex_bytes : List ℕ → List ℕ
hex_bytes [] = []
hex_bytes (b ∷ bs) = hex_digit (b / 16) ∷ hex_digit (b % 16) ∷ hex_bytes bs

-- `Digest::to_hex`
unfoldable pub to_hex : Digest → List ℕ
unfolding hex_bytes
to_hex d = hex_bytes d.bytes

abbrev pub decode_hex : ℕ → Option ℕ
decode_hex c =
    if leb b'0' c && leb c b'9'
    then some (c - b'0')
    else if leb b'a' c && leb c b'f'
    then some (c - b'a' + 10)
    else none

-- The loop of `from_hex`; `(high << 4) | low` is the sum, since `low` is below 16.
unfoldable pub decode_pairs : List ℕ → Result (List ℕ)
decode_pairs [] = ok []
decode_pairs (_ ∷ []) = ok []
decode_pairs (a ∷ b ∷ rest) = do
  high ← ok_or (decode_hex a) invalid_input
  low ← ok_or (decode_hex b) invalid_input
  bytes ← decode_pairs rest
  ok ((high * 16 + low) ∷ bytes)

-- `Digest::from_hex`
unfoldable pub from_hex : List ℕ → Result Digest
unfolding decode_pairs
from_hex value = do
  refuse_if (not (length value == 64) || not (all (λ c. ltb c 128) value)) invalid_input
  bytes ← decode_pairs value
  ok (record { bytes = bytes })

abbrev pub u32_max : ℕ
u32_max = 2 ^ 32 - 1

-- `entries.sort_by` on the keys: insertion into fields that are sorted already.
unfoldable pub insert_field : List ℕ → Value → Fields → Fields
insert_field k v end = field k v end
insert_field k v (field j w fs) =
    if bytes_le k j then field k v (field j w fs) else field j w (insert_field k v fs)

-- The fields are canonicalised before they are sorted, where the source sorts first: a key does
-- not change, so the order is the same.
unfoldable mutual
  pub canonicalize_json : Value → Value
  canonicalize_json null = null
  canonicalize_json (bool b) = bool b
  canonicalize_json (number n) = number n
  canonicalize_json (string s) = string s
  canonicalize_json (array xs) = array (canonicalize_items xs)
  canonicalize_json (object fs) = object (canonicalize_fields fs)

  pub canonicalize_items : Items → Items
  canonicalize_items nil = nil
  canonicalize_items (cons x xs) = cons (canonicalize_json x) (canonicalize_items xs)

  pub canonicalize_fields : Fields → Fields
  canonicalize_fields end = end
  canonicalize_fields (field k v fs) = insert_field k (canonicalize_json v) (canonicalize_fields fs)

-- `u32::to_be_bytes` and `u64::to_be_bytes`, after the `as` conversion.
unfoldable pub u32_be_bytes : ℕ → List ℕ
u32_be_bytes n = (n / 2 ^ 24 % 256) ∷ (n / 2 ^ 16 % 256) ∷ (n / 2 ^ 8 % 256) ∷ (n % 256) ∷ []

unfoldable pub u64_be_bytes : ℕ → List ℕ
unfolding u32_be_bytes
u64_be_bytes n = u32_be_bytes (n / 2 ^ 32) ++ u32_be_bytes n

-- What is hashed or signed: the domain and the encoded value, each behind its length.
unfoldable pub frame : List ℕ → List ℕ → List ℕ
frame domain encoded =
    u32_be_bytes (length domain) ++ (domain ++ (u64_be_bytes (length encoded) ++ encoded))

module _ ⦃h : Host⦄ where
  unfoldable pub canonical_value_bytes : Value → Result (List ℕ)
  canonical_value_bytes value = ok_or (h.to_vec (canonicalize_json value)) canonical_serialization

  unfoldable pub canonical_digest {ℓ} : {A : Type ℓ} → Serialize A → List ℕ → A → Result Digest
  unfolding canonical_value_bytes
  canonical_digest s domain a = do
    refuse_if (length domain == 0 || ltb u32_max (length domain)) invalid_input
    value ← ok_or (s.to_value a) canonical_serialization
    encoded ← canonical_value_bytes value
    ok (record { bytes = h.sha256 (frame domain encoded) })

  unfoldable pub canonical_bytes {ℓ} : {A : Type ℓ} → Serialize A → List ℕ → A → Result (List ℕ)
  unfolding canonical_value_bytes
  canonical_bytes s domain a = do
    refuse_if (length domain == 0) invalid_input
    value ← ok_or (s.to_value a) canonical_serialization
    encoded ← canonical_value_bytes value
    refuse_if (ltb u32_max (length domain)) invalid_input
    refuse_if (ltb (2 ^ 64 - 1) (length encoded)) invalid_input
    ok (frame domain encoded)
