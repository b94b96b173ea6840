-- ===== src/Scenario/RuntimeExamples.antt =====
-- Examples: the theorems about the supervisor, the gate, the port, the registry and the protocol
-- (crates/aeon_agent_runtime/src/supervisor.rs, execution.rs, tool_registry.rs, protocol.rs and
-- digest.rs).
use genesis_runtime.Common.{
  ErrorCode, [], all, any, arith, collect, dec_by, find, insert_by, length, list_dec, list_eq, map,
  nat_eq, ok, ok-inj, option_eq, refl, repeats, some, sort_by, true, ℕ_discrete, ◌*◌, ◌+◌, ◌<◌, ◌^◌,
  ◌↔◌, ◌∷◌, ◌≡◌, ◌≤◌,
}
use mathlib.Core.Path.{sym}
use genesis_runtime.Ids.{codes, identifier_dec, identifier_eq, new_identifier, validate_identifier}
use genesis_runtime.Digest.{
  canonical_digest, canonical_value_bytes, canonicalize_json, digest_eq, frame, from_hex, hex_bytes,
  insert_field, to_hex,
}
use genesis_runtime.Digest.Hex.{are_bytes, from_hex-to_hex}
use genesis_runtime.Authority.{CapabilityManifest, bound_tool_eq, lease_ref_eq}
use genesis_runtime.Agent.{max_agent_steps}
use genesis_runtime.Protocol.{accepts, default_gate, parse, serialize_message, tool_call}
use genesis_runtime.Protocol.RoundTrip.{HasToolId, parse-serialize_message}
use genesis_runtime.Store.{MissionStore}
use genesis_runtime.Store.Evidence.{verify_event_completeness}
use genesis_runtime.Store.History.{start}
use genesis_runtime.Registry.{
  RegisteredTool, dedup_capabilities, digest_of_tool, drop_equal_capability, find_tool, from_tools,
  items_of, resolve, root_digest_for_tools, root_entry, sort_capabilities, tool_manifest_digest,
}
use genesis_runtime.Registry.Bindings.{
  bind_tool, refresh_capability_manifest, resolve_with_capability_manifest, snapshot_for_tools,
}
use genesis_runtime.Registry.Refresh.{
  BoundNow, refresh_capability_manifest-stable, resolve_with_capability_manifest-coherent,
}
use genesis_runtime.Execution.{Admitted, authorize}
use genesis_runtime.Execution.Admission.{IsAdmitted, IsBound, authorize-IsAdmitted}
use genesis_runtime.Execution.Port.{before_nexus, execute, stopped}
use genesis_runtime.Execution.Tokens.{
  remaining_validity, token_validity, validate_action_certificate,
}
use genesis_runtime.Execution.Refusals.{execute-once}
use genesis_runtime.Execution.Safety.{IsLawful, execute-IsLawful, remaining_validity-bounded}
use genesis_runtime.Supervisor.{Runtime}
use genesis_runtime.Supervisor.Run.{run_once}
use genesis_runtime.Execution.Growth.{count_started}
use genesis_runtime.Supervisor.Runs.{
  AgentRuns, AgentRuns-budgets, AgentRuns-verified, none_yet, one_more,
}
use genesis_runtime.Scenario.Runtimes.{
  authorize_ok, authorized, authorized_end, boot_ok, boot_result, booted, bootstrap_request,
  call_entries, calling_model, clock_of_events, execute_ok, is_ok, object_schema, proposal,
  proposed, proposed_custody, quiet_view, ready_store, small_port, small_tool, tool_name,
  toy_action_codec, toy_context_codec, toy_instruction_codec, toy_nexus, toy_protocol_codec,
  toy_runtime_codec, toy_tool_codec, value_of,
}
use genesis_runtime.Execution.Accepted.{IsHonest, authorize-accepted}
use genesis_runtime.Identity.{is_signature_length}
use genesis_runtime.Scenario.{
  custody_of, repeat_key, small_manifest, toy_codec, toy_host, toy_identity_codec,
}
use genesis_runtime.Json.{end, object}
use genesis_runtime.Schema.{validate_instance}
use genesis_runtime.Schema.Conforms.{Conforms}
use genesis_runtime.Schema.Decides.{validate_instance-decides}
use genesis_runtime.Registry.Lookup.{from_tools-resolve}

validity_facts : remaining_validity (100 * 10 ^ 9) (40 * 10 ^ 9) 5 ≡ ok token_validity
unfolding remaining_validity ℕ_discrete
validity_facts = refl

hex_facts : (length (repeat_key 32 171) ≡ 32) × (are_bytes (repeat_key 32 171) ≡ true)
unfolding are_bytes all repeat_key
hex_facts = (refl, refl)

message_facts :
    HasToolId (tool_call proposal)
    × (serialize_message (tool_call proposal) ≡ some call_entries)
    × (toy_protocol_codec.entries_of_text (codes "c") ≡ some call_entries)
unfolding HasToolId new_identifier validate_identifier serialize_message accepts all list_dec
    ℕ_discrete
message_facts = (refl, refl, refl)

abbrev bound_manifest : CapabilityManifest
bound_manifest = record (small_manifest 7) {
  approved_tools =
      record { tool_id = tool_name; tool_manifest_digest = record { bytes = [] } } ∷ [];
}

refresh_ok : is_ok (refresh_capability_manifest (small_tool ∷ []) bound_manifest) ≡ true
unfolding refresh_capability_manifest snapshot_for_tools collect resolve find_tool find
    identifier_dec list_dec dec_by ℕ_discrete bind_tool digest_of_tool tool_manifest_digest
    sort_capabilities sort_by insert_by dedup_capabilities drop_equal_capability canonical_digest
    canonical_value_bytes canonicalize_json frame root_digest_for_tools root_entry items_of to_hex
    hex_bytes insert_field
refresh_ok = refl

abbrev refreshed : CapabilityManifest
refreshed = (value_of (refresh_capability_manifest (small_tool ∷ []) bound_manifest) refresh_ok).0

select_ok :
    is_ok (resolve_with_capability_manifest (small_tool ∷ []) tool_name bound_manifest) ≡ true
unfolding resolve_with_capability_manifest refresh_capability_manifest snapshot_for_tools collect
    resolve find_tool find identifier_dec list_dec dec_by ℕ_discrete bind_tool digest_of_tool
    tool_manifest_digest sort_capabilities sort_by insert_by dedup_capabilities
    drop_equal_capability canonical_digest canonical_value_bytes canonicalize_json frame
    root_digest_for_tools root_entry items_of to_hex hex_bytes insert_field
select_ok = refl

abbrev selected : RegisteredTool × CapabilityManifest
selected =
    (value_of (resolve_with_capability_manifest (small_tool ∷ []) tool_name bound_manifest)
      select_ok).0

abbrev boot_found : boot_result ≡ ok booted
boot_found = (value_of boot_result boot_ok).1

abbrev twice : Runtime
twice = (run_once calling_model quiet_view (run_once calling_model quiet_view booted).1).1

two_runs : AgentRuns booted twice
two_runs = one_more (one_more none_yet calling_model quiet_view) calling_model quiet_view

AgentRuns-verified_example : verify_event_completeness twice.store ≡ ok tt
AgentRuns-verified_example =
    AgentRuns-verified bootstrap_request calling_model (custody_of 5) (codes "1") 10 clock_of_events
      booted twice boot_found two_runs

AgentRuns-budgets_example :
    (twice.store.next_attempt_id ≤ twice.steps_consumed)
    × (twice.steps_consumed ≤ twice.spec.max_steps)
    × (twice.spec.max_steps ≤ max_agent_steps)
    × (length twice.action_certificates ≤ twice.actions_consumed)
    × (length twice.store.authorization_records ≤ twice.actions_consumed)
    × (count_started twice.store.events ≤ twice.actions_consumed)
    × (twice.actions_consumed ≤ twice.mission.max_actions)
AgentRuns-budgets_example =
    AgentRuns-budgets bootstrap_request calling_model (custody_of 5) (codes "1") 10 clock_of_events
      booted twice boot_found two_runs

authorize-IsAdmitted_example :
    (a : Admitted) × IsAdmitted proposed a × IsBound proposed a authorized
authorize-IsAdmitted_example =
    authorize-IsAdmitted proposed authorized (value_of (authorize proposed) authorize_ok).1

execute-IsLawful_example : IsLawful small_port authorized.0 1 ready_store
execute-IsLawful_example = execute-IsLawful small_port authorized.0 1 ready_store execute_ok

abbrev executed_store : MissionStore
executed_store = (execute small_port authorized.0 1 ready_store).1

execute-once_example :
    (c : ErrorCode) × (execute small_port authorized.0 2 executed_store
      ≡ (stopped c before_nexus, executed_store))
execute-once_example =
    execute-once small_port authorized.0 1 ready_store executed_store small_port authorized.0 2
      execute_ok start refl

remaining_validity-bounded_example :
    (0 < token_validity)
    × (token_validity ≤ token_validity)
    × (5 + token_validity ≤ 100 * 10 ^ 9)
    × (5 + token_validity ≤ 40 * 10 ^ 9)
remaining_validity-bounded_example =
    remaining_validity-bounded (100 * 10 ^ 9) (40 * 10 ^ 9) 5 token_validity validity_facts

from_hex-to_hex_example :
    from_hex (to_hex (record { bytes = repeat_key 32 171 }))
    ≡ ok (record { bytes = repeat_key 32 171 })
from_hex-to_hex_example =
    from_hex-to_hex (record { bytes = repeat_key 32 171 }) hex_facts.0 hex_facts.1

parse-serialize_message_example : parse default_gate (codes "c") ≡ ok (tool_call proposal)
parse-serialize_message_example =
    parse-serialize_message default_gate (tool_call proposal) call_entries (codes "c")
      message_facts.0 message_facts.1 message_facts.2 (omega arith)

refresh_capability_manifest-stable_example :
    (map (λ b. b.tool_id) refreshed.approved_tools
      ≡ map (λ b. b.tool_id) bound_manifest.approved_tools)
    × BoundNow (small_tool ∷ []) refreshed.approved_tools tool_name
    × (root_digest_for_tools (small_tool ∷ []) ≡ ok refreshed.tool_registry_root_digest)
    × (refreshed.version ≡ bound_manifest.version)
    × (refreshed.model_manifest_digest ≡ bound_manifest.model_manifest_digest)
    × (refreshed.permissions ≡ bound_manifest.permissions)
    × (refreshed.runtime_config_digest ≡ bound_manifest.runtime_config_digest)
    × (refresh_capability_manifest (small_tool ∷ []) refreshed ≡ ok refreshed)
refresh_capability_manifest-stable_example =
    refresh_capability_manifest-stable (small_tool ∷ []) bound_manifest refreshed tool_name
      (value_of (refresh_capability_manifest (small_tool ∷ []) bound_manifest) refresh_ok).1

resolve_with_capability_manifest-coherent_example :
    (find_tool (small_tool ∷ []) tool_name ≡ some selected.0)
    × (selected.0.manifest.tool_id ≡ tool_name)
    × (map (λ y. y.tool_id) selected.1.approved_tools
        ≡ map (λ y. y.tool_id) bound_manifest.approved_tools)
    × BoundNow (small_tool ∷ []) selected.1.approved_tools tool_name
    × (refresh_capability_manifest (small_tool ∷ []) bound_manifest ≡ ok selected.1)
resolve_with_capability_manifest-coherent_example =
    resolve_with_capability_manifest-coherent (small_tool ∷ []) tool_name bound_manifest selected.0
      selected.1 tool_name
      (value_of (resolve_with_capability_manifest (small_tool ∷ []) tool_name bound_manifest)
        select_ok).1

validate_instance-decides_example :
    (validate_instance object_schema (object end) ≡ ok tt) ↔ Conforms object_schema (object end)
validate_instance-decides_example = validate_instance-decides object_schema (object end)

registry_found : from_tools (small_tool ∷ []) ≡ ok (small_tool ∷ [])
unfolding from_tools repeats any
registry_found = refl

from_tools-resolve_example :
    (small_tool ∷ [] ≡ small_tool ∷ [])
    × (resolve (small_tool ∷ []) small_tool.manifest.tool_id ≡ ok small_tool)
from_tools-resolve_example =
    from_tools-resolve (small_tool ∷ []) (small_tool ∷ []) [] [] small_tool registry_found refl

custody-IsHonest : IsHonest (custody_of 5)
unfolding IsHonest is_signature_length list_dec ℕ_discrete repeat_key
custody-IsHonest payload signature q = rw (sym (ok-inj q)) (refl, refl)

authorize-accepted_example :
    validate_action_certificate authorized.0.certificate authorized.0 proposed.custody 30 ≡ ok tt
authorize-accepted_example =
    authorize-accepted proposed authorized 30 (value_of (authorize proposed) authorize_ok).1
      (rw proposed_custody custody-IsHonest) (rw authorized_end (omega arith))
