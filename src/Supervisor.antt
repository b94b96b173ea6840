-- ===== src/Supervisor.antt =====
-- The runtime of one agent: its bootstrap (crates/aeon_agent_runtime/src/supervisor.rs).
pub mod Run
pub mod Control
pub mod Trails
pub mod Evidence
pub mod Complete
pub mod Budgets
pub mod Spending
pub mod Runs
pub mod Revocation
use genesis_runtime.Common.{
  ErrorCode, List, Result, [], any, budget_exhausted, capability_all_forbidden,
  capability_outside_authority, contains, execution_failed, leb, list_eq, ltb, min,
  mission_inactive, nat_eq, not, ok, ok_or, option_eq, refuse_if, tool_outside_mission, ℕ, ◌+◌,
  ◌==◌, ◌>>=◌, ◌>>◌, ◌||◌,
}
use genesis_runtime.Ids.{AgentId, MissionId, codes, identifier_eq}
use genesis_runtime.Json.{Host, Serialize}
use genesis_runtime.Digest.{Digest, canonical_digest, digest_eq}
use genesis_runtime.Mission.{DateTime, MissionEnvelope}
use genesis_runtime.Identity.{IdentityCodec, KeyCustody}
use genesis_runtime.Authority.{
  AuthorityCodec, AuthoritySet, CapabilityManifest, active, bound_tool_eq, lease_ref_eq,
}
use genesis_runtime.Authority.Sets.{authority_set, is_capability_all, set_is_subset_of}
use genesis_runtime.Kernel.{AuthorityState, lease_issued}
use genesis_runtime.Kernel.Bootstrap.{bootstrap}
use genesis_runtime.Action.{ActionCertificate}
use genesis_runtime.Agent.{
  AgentSpec, ContextCodec, ModelRef, SemanticContext, context_digest, validate_spec,
}
use genesis_runtime.Context.{
  InstructionCodec, resolve_context, resolved_system_instruction, resolver_for_r1,
}
use genesis_runtime.Protocol.{ProtocolCodec, ProtocolGate, default_gate}
use genesis_runtime.Store.{
  MissionEventKind, MissionStore, agent_activated, append, context_resolved, mission_created,
  new_store,
}
use genesis_runtime.Nexus.{Nexus}
use genesis_runtime.Registry.{RegisteredTool, ToolCodec}
use genesis_runtime.Registry.Bindings.{snapshot_for_tools}
use genesis_runtime.Execution.{five_minutes}

abbrev pub runtime_config_domain : List ℕ
runtime_config_domain = codes "aeon-r1-runtime-config-v1"

-- The serializer of the pair of budgets.
pub record RuntimeCodec : Type 0 where
  pub config : Serialize (ℕ × ℕ)

-- `reserve_budget`: the counter that it leaves, or the error.
unfoldable pub reserve_budget : ℕ → ℕ → Result ℕ
reserve_budget consumed_count limit = do
  refuse_if (not (ltb consumed_count limit)) budget_exhausted
  ok (consumed_count + 1)

module _ ⦃h : Host⦄ where
  pub record ModelRequest : Type 0 where
    pub agent_id : AgentId
    pub spec : AgentSpec
    pub semantic_context : SemanticContext
    pub resolved_system_instruction : List ℕ

  -- The trait `ModelClient`; a response is its `raw_output`.
  pub record ModelClient : Type 0 where
    pub generate : ModelRequest → Result (List ℕ)
    pub manifest_digest : ModelRef → Result Digest

  -- The port and the metrics have no state of their own here.
  pub record Runtime : Type 0 where
    pub mission : MissionEnvelope
    pub agent_id : AgentId
    pub spec : AgentSpec
    pub registry : List RegisteredTool
    pub semantic_context : SemanticContext
    pub kernel : AuthorityState
    pub custody : KeyCustody
    pub protocol_gate : ProtocolGate
    pub store : MissionStore
    pub action_certificates : List ActionCertificate
    pub steps_consumed : ℕ
    pub actions_consumed : ℕ

  pub record BootstrapRequest : Type 0 where
    pub mission : MissionEnvelope
    pub agent_id : AgentId
    pub spec : AgentSpec
    pub registry : List RegisteredTool
    pub context_version : ℕ
    pub delegable_authority : AuthoritySet

  -- The guards of `bootstrap_r2`; the granted authority is the set that is requested.
  unfoldable pub check_bootstrap : BootstrapRequest → DateTime → Result AuthoritySet
  unfolding validate_spec authority_set set_is_subset_of
  check_bootstrap r now = do
    validate_spec r.spec
    refuse_if (not r.mission.active || leb r.mission.expires_at now) mission_inactive
    refuse_if (r.mission.max_actions == 0 || r.spec.max_steps == 0) budget_exhausted
    refuse_if
        (any is_capability_all r.mission.allowed_capabilities
          || any is_capability_all r.spec.requested_capabilities)
        capability_all_forbidden
    mission_authority ← authority_set r.mission.allowed_capabilities
    requested_authority ← authority_set r.spec.requested_capabilities
    refuse_if (not (set_is_subset_of requested_authority mission_authority))
        capability_outside_authority
    refuse_if (any (λ t. not (contains r.mission.allowed_tools t)) r.spec.requested_tools)
        tool_outside_mission
    ok requested_authority

  -- The events of the activation.
  unfoldable pub activated_store : MissionId → (ℕ → DateTime) → MissionStore
  unfolding append new_store
  activated_store mission_id event_time =
      append
        (append
          (append (append (new_store mission_id) mission_created (event_time 0)) context_resolved
            (event_time 1))
          MissionEventKind.lease_issued (event_time 2))
        agent_activated (event_time 3)

  module _ ⦃identity_codec : IdentityCodec⦄ ⦃authority_codec : AuthorityCodec⦄
      ⦃tool_codec : ToolCodec⦄ ⦃context_codec : ContextCodec⦄ ⦃instruction_codec : InstructionCodec⦄
      ⦃protocol_codec : ProtocolCodec⦄ ⦃runtime_codec : RuntimeCodec⦄ ⦃nexus : Nexus⦄ where
    -- The semantic context and the capability manifest of a new runtime.
    unfoldable pub bind_runtime :
        BootstrapRequest → ModelClient → Result (SemanticContext × Digest × CapabilityManifest)
    unfolding snapshot_for_tools resolver_for_r1 resolve_context context_digest
    bind_runtime r model = do
      snapshot ← snapshot_for_tools r.registry r.spec.requested_tools
      model_digest ← model.manifest_digest r.spec.requested_model
      resolver ← resolver_for_r1 model_digest r.mission.policy_epoch r.context_version
      context ← resolve_context resolver r.spec snapshot
      digest ← context_digest context
      config_digest ←
          canonical_digest runtime_codec.config runtime_config_domain
            (r.mission.max_actions, r.spec.max_steps)
      ok (
        context,
        digest,
        record {
          version = 1;
          model_manifest_digest = context.model_manifest_digest;
          approved_tools = snapshot.bound_tools;
          permissions = record { capabilities = r.spec.requested_capabilities };
          runtime_config_digest = config_digest;
          tool_registry_root_digest = context.tool_registry_root_digest;
        },
      )

    -- `R1Runtime::bootstrap_r2`. The generated key is an argument.
    unfoldable pub bootstrap_r2 :
        BootstrapRequest
        → ModelClient
        → KeyCustody
        → List ℕ
        → DateTime
        → (ℕ → DateTime)
        → Result Runtime
    unfolding check_bootstrap bind_runtime bootstrap activated_store
    bootstrap_r2 r model custody lease_uuid now event_time = do
      granted ← check_bootstrap r now
      (context, digest, manifest) ← bind_runtime r model
      kernel ←
          bootstrap
            (record {
              mission = r.mission;
              agent_id = r.agent_id;
              granted_authority = granted;
              delegable_authority = r.delegable_authority;
              capability_manifest = manifest;
              semantic_context_digest = digest;
              expires_at = min r.mission.expires_at (now + five_minutes);
            })
            custody lease_uuid now
      _ ← ok_or nexus.new_hypervisor ErrorCode.execution_failed
      ok (record {
        mission = r.mission;
        agent_id = r.agent_id;
        spec = r.spec;
        registry = r.registry;
        semantic_context = context;
        kernel = kernel;
        custody = custody;
        protocol_gate = default_gate;
        store = activated_store r.mission.mission_id event_time;
        action_certificates = [];
        steps_consumed = 0;
        actions_consumed = 0;
      })

    -- `R1Runtime::bootstrap`: nothing may be delegated.
    unfoldable pub bootstrap_r1 :
        BootstrapRequest
        → ModelClient
        → KeyCustody
        → List ℕ
        → DateTime
        → (ℕ → DateTime)
        → Result Runtime
    unfolding bootstrap_r2
    bootstrap_r1 r model custody lease_uuid now event_time = do
      nothing ← authority_set []
      bootstrap_r2 (record r { delegable_authority = nothing }) model custody lease_uuid now
          event_time
