-- ===== src/Protocol.antt =====
-- The closed message protocol of the model (crates/aeon_agent_runtime/src/protocol.rs). What
-- `serde_json` reads a text as is a parameter: the entries of its one object, in their order.
pub mod RoundTrip
use genesis_runtime.Common.{
  Bool, List, Map, Option, Result, [], all, any, err, find, get, if◌then◌else◌, keys, length,
  list_eq, ltb, malformed_protocol, nat_eq, none, not, ok, ok_or, option_eq, output_too_large,
  refuse_if, repeats, some, values, ℕ, ◌*◌, ◌==◌, ◌>>=◌, ◌>>◌, ◌∷◌,
}
use genesis_runtime.Ids.{ToolId, codes, identifier_eq, new_identifier}
use genesis_runtime.Json.{Host, Serialize, Value, as_text, string}
use genesis_runtime.Digest.{Digest, canonical_digest, digest_eq}
use genesis_runtime.Schema.{is_object, is_string}

abbrev pub default_max_output_bytes : ℕ
default_max_output_bytes = 64 * 1024

pub record ToolCallProposal : Type 0 where
  pub tool_id : ToolId
  pub arguments : Value

pub record FinalResult : Type 0 where
  pub final_text : List ℕ

pub data AgentMessage : Type 0 where
  tool_call : ToolCallProposal → AgentMessage
  final_message : FinalResult → AgentMessage

pub data ProtocolFieldShape : Type 0 where
  tool_id_shape object_shape string_shape : ProtocolFieldShape

unfoldable pub accepts : ProtocolFieldShape → Value → Bool
accepts tool_id_shape value = is_string value
accepts string_shape value = is_string value
accepts object_shape value = is_object value

pub record ProtocolFieldSchema : Type 0 where
  pub name : List ℕ
  pub shape : ProtocolFieldShape

pub record ProtocolVariantSchema : Type 0 where
  pub name : List ℕ
  pub fields : List ProtocolFieldSchema

pub record ProtocolSchema : Type 0 where
  pub tag : List ℕ
  pub variants : List ProtocolVariantSchema

abbrev pub kind_word : List ℕ
kind_word = codes "kind"

abbrev pub tool_call_word : List ℕ
tool_call_word = codes "tool_call"

abbrev pub final_word : List ℕ
final_word = codes "final"

abbrev pub tool_id_field : ProtocolFieldSchema
tool_id_field = record { name = codes "tool_id"; shape = tool_id_shape }

abbrev pub arguments_field : ProtocolFieldSchema
arguments_field = record { name = codes "arguments"; shape = object_shape }

abbrev pub result_field : ProtocolFieldSchema
result_field = record { name = codes "result"; shape = string_shape }

abbrev pub tool_call_schema : ProtocolVariantSchema
tool_call_schema = record { name = tool_call_word; fields = tool_id_field ∷ arguments_field ∷ [] }

abbrev pub final_schema : ProtocolVariantSchema
final_schema = record { name = final_word; fields = result_field ∷ [] }

abbrev pub protocol_schema : ProtocolSchema
protocol_schema = record { tag = kind_word; variants = tool_call_schema ∷ final_schema ∷ [] }

-- The field in front of the variants, as `visit_map` takes it.
abbrev pub kind_field : ProtocolFieldSchema
kind_field = record { name = kind_word; shape = string_shape }

abbrev pub Entries : Type 0
Entries = Map (List ℕ) Value

-- `ProtocolVariantSchema::field`, as a test.
unfoldable pub has_protocol_field : ProtocolVariantSchema → List ℕ → Bool
has_protocol_field schema name = any (λ f. f.name == name) schema.fields

-- The entries that `Serialize` writes; `none` is its error.
unfoldable pub serialize_message : AgentMessage → Option Entries
unfolding accepts
serialize_message (tool_call proposal) =
    if accepts object_shape proposal.arguments
    then some (
        (kind_word, string tool_call_word)
        ∷ (codes "tool_id", string proposal.tool_id.bytes)
        ∷ (codes "arguments", proposal.arguments)
        ∷ [])
    else none
serialize_message (final_message result) =
    some ((kind_word, string final_word) ∷ (codes "result", string result.final_text) ∷ [])

-- `BTreeMap::remove`
unfoldable pub remove_entry : List ℕ → Entries → Entries
remove_entry name [] = []
remove_entry name ((k, v) ∷ entries) =
    let rest = remove_entry name entries in if k == name then entries else (k, v) ∷ rest

-- `take_field`: the value beside the fields that are left. `from_value` is the argument.
unfoldable pub take_field {ℓ} :
    {T : Type ℓ} → (Value → Option T) → Entries → ProtocolFieldSchema → Result (T × Entries)
unfolding remove_entry accepts
take_field from_value values schema = do
  value ← ok_or (get schema.name values) malformed_protocol
  refuse_if (not (accepts schema.shape value)) malformed_protocol
  taken ← ok_or (from_value value) malformed_protocol
  ok (taken, remove_entry schema.name values)

-- `from_value::<ToolId>`, which validates the text.
abbrev pub tool_id_of : Value → Option ToolId
tool_id_of (string text) = elim (new_identifier text) [ err _ ↦ none | ok tool_id ↦ some tool_id ]
tool_id_of _ = none

unfoldable pub read_tool_call : Entries → Result AgentMessage
unfolding take_field
read_tool_call values = do
  (tool_id, rest) ← take_field tool_id_of values tool_id_field
  (arguments, _) ← take_field some rest arguments_field
  ok (tool_call (record { tool_id = tool_id; arguments = arguments }))

unfoldable pub read_final : Entries → Result AgentMessage
unfolding take_field
read_final values = do
  (text, _) ← take_field as_text values result_field
  ok (final_message (record { final_text = text }))

-- `visit_map`
unfoldable pub visit_map : Entries → Result AgentMessage
unfolding take_field read_tool_call read_final has_protocol_field
visit_map entries = do
  refuse_if (repeats (λ a b. a == b) [] (keys entries)) malformed_protocol
  (kind, values) ← take_field as_text entries kind_field
  schema ← ok_or (find (λ v. v.name == kind) protocol_schema.variants) malformed_protocol
  refuse_if (not (all (has_protocol_field schema) (keys values))) malformed_protocol
  if schema.name == tool_call_word
      then read_tool_call values
      else if schema.name == final_word
      then read_final values
      else err malformed_protocol

-- What `serde_json::from_str` finds in a text, before the visitor sees it, and the derived
-- serializer of the schema.
pub record ProtocolCodec : Type 0 where
  pub entries_of_text : List ℕ → Option Entries
  pub schema : Serialize ProtocolSchema

pub record ProtocolGate : Type 0 where
  pub max_output_bytes : ℕ

abbrev pub default_gate : ProtocolGate
default_gate = record { max_output_bytes = default_max_output_bytes }

-- `ProtocolGate::new`
unfoldable pub new_gate : ℕ → Result ProtocolGate
new_gate max_output_bytes = do
  refuse_if (max_output_bytes == 0) malformed_protocol
  ok (record { max_output_bytes = max_output_bytes })

abbrev pub protocol_domain : List ℕ
protocol_domain = codes "aeon-agent-protocol-schema-v1"

module _ ⦃codec : ProtocolCodec⦄ where
  -- `ProtocolGate::parse`
  unfoldable pub parse : ProtocolGate → List ℕ → Result AgentMessage
  unfolding visit_map
  parse gate raw = do
    refuse_if (ltb gate.max_output_bytes (length raw)) output_too_large
    entries ← ok_or (codec.entries_of_text raw) malformed_protocol
    visit_map entries

  -- `AgentMessage::schema_digest`
  unfoldable pub schema_digest : ⦃h : Host⦄ → Result Digest
  schema_digest = canonical_digest codec.schema protocol_domain protocol_schema
