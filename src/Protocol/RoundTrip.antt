-- ===== src/Protocol/RoundTrip.antt =====
-- Serialized messages read back (crates/aeon_agent_runtime/src/protocol.rs).
use genesis_runtime.Common.{
  Bool-cases, List, Option, [], all, any, arith, false, find, get, inl, inr, keys, length, list_dec,
  list_eq, ltb, nat_eq, none, ok, option_eq, refl, repeats, some, subst, true, values, ℕ,
  ℕ_discrete, ◌∷◌, ◌≡◌, ◌≤◌,
}
use genesis_runtime.Ids.{ToolId, codes, identifier_eq, new_identifier}
use genesis_runtime.Json.{Value, string}
use genesis_runtime.Protocol.{
  AgentMessage, Entries, ProtocolCodec, ProtocolFieldSchema, ProtocolGate, accepts, arguments_field,
  final_message, final_word, has_protocol_field, kind_word, object_shape, parse, read_final,
  read_tool_call, remove_entry, serialize_message, take_field, tool_call, tool_call_word,
  tool_id_field, tool_id_of, visit_map,
}
use mathlib.Core.Path.{◌∙◌}

-- The identifier of a proposal is one that `ToolId::new` makes.
unfoldable pub HasToolId : AgentMessage → Type 0
HasToolId (tool_call proposal) = new_identifier proposal.tool_id.bytes ≡ ok proposal.tool_id
HasToolId (final_message _) = Unit

take_field-ok :
    {T : Type 0} (from_value : Value → Option T) (values : Entries) (schema : ProtocolFieldSchema)
    (v : Value) (t : T)
    → get schema.name values ≡ some v
    → accepts schema.shape v ≡ true
    → from_value v ≡ some t
    → take_field from_value values schema ≡ ok (t, remove_entry schema.name values)
unfolding take_field
take_field-ok from_value values schema v t found shape read = rw (found, shape, read) refl

-- The fields of a tool call without the kind.
abbrev tool_call_values : ToolId → Value → Entries
tool_call_values tool_id arguments =
    (codes "tool_id", string tool_id.bytes) ∷ (codes "arguments", arguments) ∷ []

read_tool_call-ok :
    (tool_id : ToolId) (arguments : Value)
    → new_identifier tool_id.bytes ≡ ok tool_id
    → accepts object_shape arguments ≡ true
    → read_tool_call (tool_call_values tool_id arguments)
      ≡ ok (tool_call (record { tool_id = tool_id; arguments = arguments }))
unfolding read_tool_call get remove_entry accepts list_dec ℕ_discrete
read_tool_call-ok tool_id arguments q shape =
    let read : tool_id_of (string tool_id.bytes) ≡ some tool_id = ground (arith, q) in
    rw
      (
        take_field-ok tool_id_of (tool_call_values tool_id arguments) tool_id_field
            (string tool_id.bytes) tool_id refl refl read,
        take_field-ok some ((codes "arguments", arguments) ∷ []) arguments_field arguments arguments
            refl shape refl,
      )
      refl

visit_map-tool_call :
    (tool_id : ToolId) (arguments : Value)
    → visit_map ((kind_word, string tool_call_word) ∷ tool_call_values tool_id arguments)
      ≡ read_tool_call (tool_call_values tool_id arguments)
unfolding visit_map take_field has_protocol_field accepts remove_entry repeats any keys get find all
    list_dec ℕ_discrete
visit_map-tool_call tool_id arguments = refl

visit_map-final :
    (text : List ℕ)
    → visit_map ((kind_word, string final_word) ∷ (codes "result", string text) ∷ [])
      ≡ ok (final_message (record { final_text = text }))
unfolding visit_map take_field read_final has_protocol_field accepts remove_entry repeats any keys
    get find all list_dec ℕ_discrete
visit_map-final text = refl

-- A message that serializes is what its entries read back as. The identifier of a tool call is
-- one that `ToolId::new` returned.
pub serialize_message-visit_map :
    (m : AgentMessage) (entries : Entries)
    → HasToolId m
    → serialize_message m ≡ some entries
    → visit_map entries ≡ ok m
unfolding serialize_message HasToolId
serialize_message-visit_map (final_message result) entries tool q =
    subst
      (λ (es : Option Entries). elim es [
        | none ↦ Unit
        | some x ↦ visit_map x ≡ ok (final_message result)
      ])
      q (visit_map-final result.final_text)
serialize_message-visit_map (tool_call proposal) entries tool q =
    elim (Bool-cases (accepts object_shape proposal.arguments)) [
      | inl shape ↦
          subst
            (λ (es : Option Entries). elim es [
              | none ↦ Unit
              | some x ↦ visit_map x ≡ ok (tool_call proposal)
            ])
            (rw shape at q)
            (visit_map-tool_call proposal.tool_id proposal.arguments
              ∙ read_tool_call-ok proposal.tool_id proposal.arguments tool shape)
      | inr shape ↦ absurd (cc (rw shape at q))
    ]

module _ ⦃codec : ProtocolCodec⦄ where
  -- A message that serializes to entries is parsed from any text that serde_json reads as these
  -- entries and that is within the size limit of the gate.
  pub parse-serialize_message :
      (gate : ProtocolGate) (m : AgentMessage) (entries : Entries) (raw : List ℕ)
      → HasToolId m
      → serialize_message m ≡ some entries
      → codec.entries_of_text raw ≡ some entries
      → length raw ≤ gate.max_output_bytes
      → parse gate raw ≡ ok m
  unfolding parse
  parse-serialize_message gate m entries raw tool written read small =
      let fits : ltb gate.max_output_bytes (length raw) ≡ false = ground (arith, small) in
      rw (fits, read) (serialize_message-visit_map m entries tool written)
