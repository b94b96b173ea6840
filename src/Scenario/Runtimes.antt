-- ===== src/Scenario/Runtimes.antt =====
-- A runtime with one tool, a model that calls it, and a Nexus that runs it: examples for the
-- theorems about the supervisor, the gate and the port
-- (crates/aeon_agent_runtime/src/supervisor.rs and execution.rs).
use genesis_runtime.Texts.{utf8_length, validate_text}
use genesis_runtime.Kernel.Requests.{validate_root_request}
use genesis_runtime.Kernel.Issue.{new_entry, signed_identity, signed_lease}
use genesis_runtime.Kernel.Checks.{
  authority_is_subset_of, validate_active_record, validate_authority_sets, validate_manifest,
}
use genesis_runtime.Kernel.Chain.{
  check_root_identity, climb_identities, climb_leases, last?, validate_certificate_entry,
  validate_chain, validate_identity_chain, validate_links, validate_renewal_link,
}
use genesis_runtime.Kernel.{push_event}
use genesis_runtime.Identity.{
  identity_digest, signing_payload, unsigned, verify_signature, verifying_key,
}
use genesis_runtime.Execution.Refusals.{is_refused}
use genesis_runtime.Execution.Port.{PortView, execute}
use genesis_runtime.Authority.Sets.{canonical_capabilities, is_capability_all}
use genesis_runtime.Authority.Manifest.{has_duplicate_tool}
use genesis_runtime.Authority.Lease.{
  lease_payload, lease_ref, lease_signing_payload, verify_lease_signature,
}
use genesis_runtime.Common.{
  Bool, Result, [], all, any, collect, contains, err, false, if◌then◌else◌, insert, length, list_eq,
  nat_eq, none, ok, option_eq, refl, some, sort_by, true, ℕ, ◌+◌, ◌==◌, ◌∷◌, ◌≡◌,
}
use genesis_runtime.Ids.{ToolId, codes, identifier_dec, identifier_eq, new_lease_id}
use genesis_runtime.Json.{Value, end, field, object, string}
use genesis_runtime.Digest.{
  canonical_bytes, canonical_digest, canonicalize_items, digest_dec, digest_eq, frame, u64_be_bytes,
}
use genesis_runtime.Mission.{DateTime, MissionEnvelope}
use genesis_runtime.Authority.{active_record, bound_tool_eq, lease_ref_eq}
use genesis_runtime.Action.{ActionCodec}
use genesis_runtime.Agent.{AgentSpec, ContextCodec}
use genesis_runtime.Context.{InstructionCodec}
use genesis_runtime.Protocol.{Entries, ProtocolCodec, ToolCallProposal, schema_digest}
use genesis_runtime.Store.{
  MissionStore, append_event, begin_attempt, find_record, insert_authorization_for_attempt,
  read_only,
}
use genesis_runtime.Nexus.{Nexus}
use genesis_runtime.Registry.{RegisteredTool, ToolCodec, from_tools, new_tool}
use genesis_runtime.Execution.{AuthorizationArtifact, AuthorizedExecution, GateRequest, authorize}
use genesis_runtime.Supervisor.{BootstrapRequest, ModelClient, Runtime, RuntimeCodec, bootstrap_r2}
use genesis_runtime.Supervisor.Run.{RunView, gate_request, port_view, run_attempt, run_once}
use genesis_runtime.Scenario.{
  custody_of, repeat_key, text_of, toy_codec, toy_host, toy_identity_codec,
}

abbrev pub is_ok {ℓ} : {A : Type ℓ} → Result A → Bool
is_ok (ok _) = true
is_ok (err _) = false

pub err_not_ok : false ≡ true → ⊥
err_not_ok q = cc

-- The value of a result that is one.
abbrev pub value_of {ℓ} : {A : Type ℓ} (r : Result A) → is_ok r ≡ true → (a : A) × (r ≡ ok a)
value_of (ok a) q = (a, refl)
value_of (err e) q = absurd (err_not_ok q)

instance abbrev pub toy_nexus : Nexus
toy_nexus = record {
  ToolDefinition = ℕ;
  new_definition = λ name wasm. length wasm;
  with_entry = λ d entry. d;
  with_capabilities = λ d capabilities. d;
  with_input_schema = λ d schema. d;
  Hypervisor = ℕ;
  new_hypervisor = some 0;
  Token = ℕ;
  issue_token = λ hypervisor c agent validity. some (c, hypervisor + 1);
  Output = Bool;
  success = λ output. output;
  execute_tool = λ hypervisor d input tokens. some true;
}

instance abbrev pub toy_tool_codec : ToolCodec
toy_tool_codec = record {
  manifest = record { to_value = λ m. some (string m.tool_id.bytes) };
  capability_text = λ c. some (c ∷ []);
  capability_of_text = λ text. elim text [ [] ↦ none | ◌∷◌ c _ ↦ some c ];
  value = record { to_value = λ v. some v };
  value_text = text_of;
}

instance abbrev pub toy_context_codec : ContextCodec
toy_context_codec = record {
  identity = record { to_value = λ c. some (string (c.policy_epoch ∷ [])) };
}

instance abbrev pub toy_action_codec : ActionCodec
toy_action_codec = record {
  action = record { to_value = λ a. some (string a.target.text) };
  payload = record { to_value = λ p. some (string p.tool_id.bytes) };
}

instance abbrev pub toy_instruction_codec : InstructionCodec
toy_instruction_codec = record {
  instruction_text = λ i. some i.role.text;
  text = record { to_value = λ t. some (string t) };
}

-- The text "c" is a tool call, "f" a final message; no other text is a JSON object.
abbrev pub call_entries : Entries
call_entries =
    (codes "kind", string (codes "tool_call"))
    ∷ (codes "tool_id", string (codes "t"))
    ∷ (codes "arguments", object end)
    ∷ []

instance abbrev pub toy_protocol_codec : ProtocolCodec
toy_protocol_codec = record {
  entries_of_text = λ raw. if raw == codes "c" then some call_entries else none;
  schema = record { to_value = λ s. some (string s.tag) };
}

instance abbrev pub toy_runtime_codec : RuntimeCodec
toy_runtime_codec = record { config = record { to_value = λ c. some (string (c.0 ∷ [])) } }

abbrev pub tool_name : ToolId
tool_name = record { bytes = codes "t" }

abbrev pub object_schema : Value
object_schema = object (field (codes "type") (string (codes "object")) end)

abbrev pub small_tool : RegisteredTool
small_tool = record {
  manifest = record {
    version = 1;
    tool_id = tool_name;
    wasm_sha256 = [];
    entry_point = codes "e";
    input_schema_digest = record { bytes = [] };
    required_capabilities = 7 ∷ [];
    effect_class = read_only;
    output_schema_digest = none;
  };
  wasm_bytes = 1 ∷ [];
  input_schema = object_schema;
  output_schema = none;
}

abbrev pub tool_mission : MissionEnvelope
tool_mission = record {
  mission_id = record { bytes = codes "m" };
  allowed_tools = tool_name ∷ [];
  allowed_capabilities = 7 ∷ [];
  policy_epoch = 1;
  organization_version = 1;
  active = true;
  expires_at = 1000;
  max_actions = 3;
}

abbrev pub small_spec : AgentSpec
small_spec = record {
  role = record { text = codes "r" };
  objective = record { text = codes "o" };
  requested_model = record { bytes = codes "model" };
  requested_tools = tool_name ∷ [];
  requested_capabilities = 7 ∷ [];
  output_contract = record { text = codes "c" };
  max_steps = 2;
  semantic_requirements = record {
    requested_memory = none;
    requested_retrieval_index = none;
    requested_instruction_profile = none;
  };
}

abbrev pub bootstrap_request : BootstrapRequest
bootstrap_request = record {
  mission = tool_mission;
  agent_id = record { bytes = codes "a" };
  spec = small_spec;
  registry = small_tool ∷ [];
  context_version = 1;
  delegable_authority = record { capabilities = [] };
}

abbrev pub calling_model : ModelClient
calling_model = record {
  generate = λ request. ok (codes "c");
  manifest_digest = λ model. ok (record { bytes = [] });
}

abbrev pub clock_of_events : ℕ → DateTime
clock_of_events n = 20

abbrev pub boot_result : Result Runtime
boot_result =
    bootstrap_r2 bootstrap_request calling_model (custody_of 5) (codes "1") 10 clock_of_events

pub boot_ok : is_ok boot_result ≡ true
unfolding lease_payload lease_signing_payload verify_lease_signature has_duplicate_tool
    is_capability_all canonical_capabilities any all sort_by contains collect canonical_digest
    canonical_bytes canonicalize_items unsigned signing_payload identity_digest verifying_key
    verify_signature identifier_dec new_lease_id authority_is_subset_of validate_authority_sets
    validate_manifest signed_identity signed_lease validate_root_request schema_digest from_tools
    new_tool bootstrap_r2 run_attempt repeat_key
boot_ok = refl

abbrev pub booted : Runtime
booted = (value_of boot_result boot_ok).0

abbrev pub quiet_view : RunView
quiet_view = record {
  kernel = λ moment. booted.kernel;
  clock = λ moment. 30;
  authorization_uuid = codes "1";
  certificate_uuid = codes "1";
  event_time = clock_of_events;
}

abbrev pub proposal : ToolCallProposal
proposal = record { tool_id = tool_name; arguments = object end }

abbrev pub proposed : GateRequest
proposed = gate_request booted quiet_view proposal

pub authorize_ok : is_ok (authorize proposed) ≡ true
unfolding active_record lease_payload lease_signing_payload verify_lease_signature lease_ref
    has_duplicate_tool is_capability_all canonical_capabilities any all sort_by contains insert
    collect digest_dec u64_be_bytes frame canonical_digest canonical_bytes canonicalize_items
    unsigned signing_payload identity_digest verifying_key verify_signature identifier_dec
    new_lease_id push_event last? check_root_identity climb_identities validate_identity_chain
    validate_renewal_link validate_certificate_entry climb_leases validate_links validate_chain
    validate_active_record authority_is_subset_of validate_authority_sets validate_manifest
    signed_identity signed_lease new_entry validate_root_request schema_digest from_tools new_tool
    bootstrap_r2 run_once utf8_length validate_text repeat_key
authorize_ok = refl

abbrev pub authorized : AuthorizedExecution × AuthorizationArtifact
authorized = (value_of (authorize proposed) authorize_ok).0

-- The store with the record of the authorization, bound to the first attempt.
abbrev pub ready_store : MissionStore
ready_store =
    (insert_authorization_for_attempt (begin_attempt booted.store).1 1 authorized.1.authorization).1

abbrev pub small_port : PortView
small_port = port_view booted quiet_view

pub execute_ok : is_refused (execute small_port authorized.0 1 ready_store).0 ≡ false
unfolding active_record lease_payload lease_signing_payload verify_lease_signature lease_ref
    has_duplicate_tool is_capability_all canonical_capabilities any all sort_by contains insert
    collect digest_dec u64_be_bytes frame canonical_digest canonical_bytes canonicalize_items
    unsigned signing_payload identity_digest verifying_key verify_signature identifier_dec
    new_lease_id push_event last? check_root_identity climb_identities validate_identity_chain
    validate_renewal_link validate_certificate_entry climb_leases validate_links validate_chain
    validate_active_record authority_is_subset_of validate_authority_sets validate_manifest
    signed_identity signed_lease new_entry validate_root_request schema_digest from_tools new_tool
    append_event find_record bootstrap_r2 port_view run_once utf8_length validate_text repeat_key
execute_ok = refl

pub authorized_end : authorized.0.certificate.expires_at ≡ 1000
unfolding active_record lease_payload lease_signing_payload verify_lease_signature lease_ref
    has_duplicate_tool is_capability_all canonical_capabilities any all sort_by contains insert
    collect digest_dec u64_be_bytes frame canonical_digest canonical_bytes canonicalize_items
    unsigned signing_payload identity_digest verifying_key verify_signature identifier_dec
    new_lease_id push_event last? check_root_identity climb_identities validate_identity_chain
    validate_renewal_link validate_certificate_entry climb_leases validate_links validate_chain
    validate_active_record authority_is_subset_of validate_authority_sets validate_manifest
    signed_identity signed_lease new_entry validate_root_request schema_digest from_tools new_tool
    bootstrap_r2 run_once utf8_length validate_text repeat_key
authorized_end = refl

pub proposed_custody : proposed.custody ≡ custody_of 5
unfolding active_record lease_payload lease_signing_payload verify_lease_signature lease_ref
    has_duplicate_tool is_capability_all canonical_capabilities any all sort_by contains insert
    collect digest_dec u64_be_bytes frame canonical_digest canonical_bytes canonicalize_items
    unsigned signing_payload identity_digest verifying_key verify_signature identifier_dec
    new_lease_id push_event last? check_root_identity climb_identities validate_identity_chain
    validate_renewal_link validate_certificate_entry climb_leases validate_links validate_chain
    validate_active_record authority_is_subset_of validate_authority_sets validate_manifest
    signed_identity signed_lease new_entry validate_root_request schema_digest from_tools new_tool
    bootstrap_r2 run_once utf8_length validate_text repeat_key
proposed_custody = refl
