-- ===== src/Ids.antt =====
-- Validated identifiers (crates/aeon_agent_runtime/src/ids.rs). A text is the list of its UTF-8
-- bytes; the macro `string_id!` is one record with the kind of identifier as its parameter.
use Prim.Native.Char.{code}
use genesis_runtime.Common.{
  Bool, Eq, List, Result, String, [], all, dec_by, err, false, invalid_identifier, leb, length,
  list_dec, list_eq, ltb, nat_eq, not, ok, option_eq, refuse_if, true, ℕ, ℕ_discrete, ◌&&◌, ◌++◌,
  ◌==◌, ◌>>◌, ◌||◌, ◌∷◌, ◌≡◌,
}

-- The bytes of an ASCII text.
abbrev pub codes : String → List ℕ
codes String.[] = []
codes (String.◌∷◌ c s) = code c ∷ codes s

pub data IdKind : Type 0 where
  mission agent lease authorization certificate key tool model memory : IdKind
  retrieval_index instruction_profile : IdKind

pub record Identifier (kind : IdKind) : Type 0 where
  pub bytes : List ℕ

abbrev pub MissionId : Type 0
MissionId = Identifier mission

abbrev pub AgentId : Type 0
AgentId = Identifier agent

abbrev pub LeaseId : Type 0
LeaseId = Identifier lease

abbrev pub AuthorizationId : Type 0
AuthorizationId = Identifier authorization

abbrev pub KeyId : Type 0
KeyId = Identifier key

abbrev pub ToolId : Type 0
ToolId = Identifier tool

Identifier-ext : {k : IdKind} (a b : Identifier k) → a.bytes ≡ b.bytes → a ≡ b
Identifier-ext a b e i = record { bytes = e i }

unfoldable pub identifier_dec : (k : IdKind) → Discrete (Identifier k)
unfolding Identifier-ext dec_by list_dec ℕ_discrete
identifier_dec k = dec_by (λ i. i.bytes) Identifier-ext (list_dec ℕ_discrete)

instance abbrev pub identifier_eq : {k : IdKind} → Eq (Identifier k)
identifier_eq {k} = record { dec = identifier_dec k }

-- The derived `Ord`: the byte-wise order of the texts.
unfoldable pub bytes_le : List ℕ → List ℕ → Bool
bytes_le [] ys = true
bytes_le (x ∷ xs) [] = false
bytes_le (x ∷ xs) (y ∷ ys) = let rest = bytes_le xs ys in ltb x y || (x == y && rest)

unfoldable pub identifier_le : {k : IdKind} → Identifier k → Identifier k → Bool
unfolding bytes_le
identifier_le a b = bytes_le a.bytes b.bytes

abbrev pub max_identifier_bytes : ℕ
max_identifier_bytes = 128

-- `char::is_ascii_alphanumeric`. A byte of a longer character is at least 128.
abbrev pub is_ascii_alphanumeric : ℕ → Bool
is_ascii_alphanumeric c =
    (leb b'0' c && leb c b'9') || (leb b'A' c && leb c b'Z') || (leb b'a' c && leb c b'z')

abbrev pub is_identifier_byte : ℕ → Bool
is_identifier_byte c =
    is_ascii_alphanumeric c
    || c == b'-'
    || c == b'_'
    || c == b'.'
    || c == b':'
    || c == b'/'
    || c == b'@'

-- The checks on the characters; the empty text is refused once more here, as in the source.
validate_characters : List ℕ → Result (Unit {0})
validate_characters [] = err invalid_identifier
validate_characters (first ∷ rest) = do
  refuse_if (not (is_ascii_alphanumeric first)) invalid_identifier
  refuse_if (not (all is_identifier_byte rest)) invalid_identifier

unfoldable pub validate_identifier : List ℕ → Result (Unit {0})
unfolding validate_characters
validate_identifier value = do
  refuse_if (length value == 0 || ltb max_identifier_bytes (length value)) invalid_identifier
  validate_characters value

unfoldable pub new_identifier : {k : IdKind} → List ℕ → Result (Identifier k)
unfolding validate_identifier
new_identifier value = do validate_identifier value; ok (record { bytes = value })

-- `LeaseId::new(format!("lease-{}", Uuid::new_v4()))`, over the text of the UUID.
unfoldable pub new_lease_id : List ℕ → Result LeaseId
unfolding new_identifier
new_lease_id uuid = new_identifier (codes "lease-" ++ uuid)
