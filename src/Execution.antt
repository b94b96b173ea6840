-- ===== src/Execution.antt =====
-- The action gate: what a proposed tool call must pass to be authorized
-- (crates/aeon_agent_runtime/src/execution.rs). The times and the texts of fresh UUIDs are
-- arguments.
pub mod Port
pub mod Tokens
pub mod Gate
pub mod Refusals
pub mod Certificate
pub mod Steps
pub mod Growth
pub mod Safety
pub mod Admission
pub mod Accepted
use genesis_runtime.Common.{
  Bool, List, Result, [], any, authorization_invalid, capability_all_forbidden,
  capability_outside_authority, contains, find, leb, list_eq, min, mission_inactive, nat_eq, not,
  ok, ok_or, option_eq, refuse_if, semantic_context_changed, some, tool_manifest_mismatch,
  tool_outside_mission, ℕ, ◌&&◌, ◌*◌, ◌++◌, ◌+◌, ◌==◌, ◌>>=◌, ◌>>◌, ◌^◌, ◌||◌,
}
use genesis_runtime.Ids.{
  AgentId, AuthorizationId, LeaseId, ToolId, codes, identifier_eq, new_identifier,
}
use genesis_runtime.Json.{Host, Value}
use genesis_runtime.Digest.{Digest, canonical_digest, canonicalize_json, digest_eq, to_hex}
use genesis_runtime.Mission.{Capability, DateTime, MissionEnvelope}
use genesis_runtime.Identity.{IdentityCodec, KeyCustody}
use genesis_runtime.Authority.{
  AuthorityCodec, AuthorityLeaseCertificate, AuthoritySet, CapabilityManifest, LeaseRef, active,
  bound_tool_eq, lease_ref_eq,
}
use genesis_runtime.Authority.Sets.{authority_set, covers, is_capability_all}
use genesis_runtime.Kernel.{AuthorityState, LeaseEntry, ValidatedAuthority}
use genesis_runtime.Kernel.Chain.{validate_active_chain}
use genesis_runtime.Kernel.Lifecycle.{lease_snapshot}
use genesis_runtime.Action.{
  ActionCertificate, ActionCodec, ActionTarget, CanonicalAction, CertificateId, action_ref_of,
  action_signing_payload, mission_scope, new_target,
}
use genesis_runtime.Agent.{ContextCodec, SemanticContext, context_digest}
use genesis_runtime.Store.{AuthorizationRecord, EffectClass, issued}
use genesis_runtime.Registry.{
  RegisteredTool, ToolCodec, digest_of_tool, tool_manifest_digest, validate_input,
}
use genesis_runtime.Registry.Bindings.{resolve_with_capability_manifest}

-- `chrono::Duration::minutes(5)`
abbrev pub five_minutes : ℕ
five_minutes = 300 * 10 ^ 9

abbrev pub input_domain : List ℕ
input_domain = codes "aeon-concrete-input-v1"

module _ ⦃h : Host⦄ where
  pub record AuthorizedExecution : Type 0 where
    pub tool_id : ToolId
    pub arguments : Value
    pub tool_manifest_digest : Digest
    pub required_capabilities : List Capability
    pub capability_manifest : CapabilityManifest
    pub certificate : ActionCertificate
    pub observed_generations : List (LeaseId × ℕ)

  pub record AuthorizationArtifact : Type 0 where
    pub certificate : ActionCertificate
    pub authorization : AuthorizationRecord

  -- The arguments of `authorize`. The kernel is locked once for the snapshot and once for the
  -- validation of the chain: between them it may move.
  pub record GateRequest : Type 0 where
    pub mission : MissionEnvelope
    pub agent_id : AgentId
    pub lease_kernel : AuthorityState
    pub chain_kernel : AuthorityState
    pub lease_id : LeaseId
    pub current_context : SemanticContext
    pub registry : List RegisteredTool
    pub proposal_tool_id : ToolId
    pub arguments : Value
    pub custody : KeyCustody
    pub now : DateTime
    pub authorization_uuid : List ℕ
    pub certificate_uuid : List ℕ

  -- The first two guards.
  unfoldable pub check_mission : MissionEnvelope → ToolId → DateTime → Result (Unit {0})
  check_mission mission tool_id now = do
    refuse_if (not mission.active || leb mission.expires_at now) mission_inactive
    refuse_if (not (contains mission.allowed_tools tool_id)) tool_outside_mission

  -- The digest that the lease binds the tool to.
  unfoldable pub authorized_digest : CapabilityManifest → ToolId → Result Digest
  unfolding find
  authorized_digest manifest tool_id = do
    bound ← ok_or (find (λ b. b.tool_id == tool_id) manifest.approved_tools) tool_manifest_mismatch
    ok bound.tool_manifest_digest

  -- Whether the certificate of a lease belongs to the agent and the mission of the runtime.
  unfoldable pub is_runtime_binding : AuthorityLeaseCertificate → AgentId → MissionEnvelope → Bool
  is_runtime_binding c agent_id mission =
      c.agent_id == agent_id
      && c.mission_id == mission.mission_id
      && c.organization_version == mission.organization_version
      && c.policy_epoch == mission.policy_epoch

  -- The guards on the capabilities that the tool requires.
  unfoldable pub check_capabilities :
      List Capability → MissionEnvelope → AuthoritySet → Result (Unit {0})
  check_capabilities required mission granted = do
    refuse_if (any is_capability_all required) capability_all_forbidden
    mission_authority ← authority_set mission.allowed_capabilities
    refuse_if (any (λ c. not (covers mission_authority c) || not (covers granted c)) required)
        capability_outside_authority

  -- `AuthorizationRecord` of one fresh authorization.
  unfoldable pub fresh_authorization :
      AuthorizationId → Digest → List LeaseRef → EffectClass → AuthorizationRecord
  fresh_authorization record_id action_ref chain effect_class = record {
    record_id = record_id;
    action_ref = action_ref;
    authority_chain = chain;
    total_budget = record { actions = 1 };
    remaining_budget = record { actions = 1 };
    state = issued;
    stable_idempotency_key = codes "aeon-r1:" ++ to_hex action_ref;
    effect_class = effect_class;
    generation = 0;
  }

  module _ ⦃identity_codec : IdentityCodec⦄ ⦃authority_codec : AuthorityCodec⦄
      ⦃tool_codec : ToolCodec⦄ ⦃context_codec : ContextCodec⦄ ⦃action_codec : ActionCodec⦄ where
    -- What the guards of `authorize` establish.
    pub record Admitted : Type 0 where
      pub lease : LeaseEntry
      pub tool : RegisteredTool
      pub live_manifest : CapabilityManifest
      pub manifest_digest : Digest
      pub validated : ValidatedAuthority
      pub context_digest : Digest

    -- The guards of `authorize`, in their order.
    unfoldable pub admit : GateRequest → Result Admitted
    unfolding check_mission authorized_digest is_runtime_binding check_capabilities validate_input
        resolve_with_capability_manifest digest_of_tool lease_snapshot validate_active_chain
        context_digest
    admit r = do
      check_mission r.mission r.proposal_tool_id r.now
      lease ← lease_snapshot r.lease_kernel r.lease_id
      (tool, live_manifest) ←
          resolve_with_capability_manifest r.registry r.proposal_tool_id lease.manifest
      current_digest ← digest_of_tool tool
      bound_digest ← authorized_digest lease.manifest r.proposal_tool_id
      refuse_if (not (bound_digest == current_digest)) tool_manifest_mismatch
      validated ←
          validate_active_chain r.chain_kernel r.lease_id (some lease.lease_record.generation)
            live_manifest r.now
      refuse_if (not (is_runtime_binding lease.certificate r.agent_id r.mission))
          authorization_invalid
      current_context_digest ← context_digest r.current_context
      refuse_if (not (current_context_digest == validated.semantic_context_digest))
          semantic_context_changed
      validate_input tool r.arguments
      check_capabilities tool.manifest.required_capabilities r.mission
          lease.certificate.granted_authority
      ok (record {
        lease = lease;
        tool = tool;
        live_manifest = live_manifest;
        manifest_digest = current_digest;
        validated = validated;
        context_digest = current_context_digest;
      })

    -- The certificate that `authorize` signs, before it has its signature.
    unfoldable pub unsigned_action :
        GateRequest
        → Admitted
        → Digest
        → Digest
        → AuthorizationId
        → CertificateId
        → ActionCertificate
    unsigned_action r a action_ref input_digest authorization_id certificate_id = record {
      certificate_id = certificate_id;
      mission_id = r.mission.mission_id;
      agent_identity_digest = a.validated.agent_identity_digest;
      authority_lease_id = r.lease_id;
      organization_version = r.mission.organization_version;
      policy_epoch = r.mission.policy_epoch;
      semantic_context_digest = a.context_digest;
      action_ref = action_ref;
      tool_id = r.proposal_tool_id;
      tool_manifest_digest = a.manifest_digest;
      concrete_input_digest = input_digest;
      authorization_record_id = authorization_id;
      granted_uses = 1;
      authorization_generation = 0;
      issued_at = r.now;
      expires_at = min (r.now + five_minutes) a.lease.certificate.expires_at;
      signature = [];
    }

    -- What `authorize` returns with a signed certificate.
    unfoldable pub certified :
        GateRequest
        → Admitted
        → Digest
        → Digest
        → AuthorizationId
        → CertificateId
        → List ℕ
        → AuthorizedExecution × AuthorizationArtifact
    unfolding unsigned_action fresh_authorization
    certified r a action_ref input_digest authorization_id certificate_id signature =
        let draft = unsigned_action r a action_ref input_digest authorization_id certificate_id in
        let certificate : ActionCertificate = record draft { signature = signature } in
        (
          record {
            tool_id = r.proposal_tool_id;
            arguments = r.arguments;
            tool_manifest_digest = a.manifest_digest;
            required_capabilities = a.tool.manifest.required_capabilities;
            capability_manifest = a.live_manifest;
            certificate = certificate;
            observed_generations = a.validated.observed_generations;
          },
          record {
            certificate = certificate;
            authorization =
                fresh_authorization authorization_id action_ref a.validated.chain
                  a.tool.manifest.effect_class;
          },
        )

    -- The action that is proposed.
    unfoldable pub proposed_action : GateRequest → Admitted → ActionTarget → CanonicalAction
    proposed_action r a target = record {
      mission_id = r.mission.mission_id;
      effect_kind = a.tool.manifest.effect_class;
      target = target;
      normalized_parameters = canonicalize_json r.arguments;
      semantic_scope = mission_scope;
    }

    -- The rest of `authorize`.
    unfoldable pub certify :
        GateRequest → Admitted → Result (AuthorizedExecution × AuthorizationArtifact)
    unfolding certified proposed_action new_target action_ref_of action_signing_payload
    certify r a = do
      target ← new_target r.proposal_tool_id.bytes
      action_ref ← action_ref_of (proposed_action r a target)
      input_digest ← canonical_digest tool_codec.value input_domain r.arguments
      authorization_id ← new_identifier (codes "auth-" ++ r.authorization_uuid)
      certificate_id ← new_identifier (codes "cert-" ++ r.certificate_uuid)
      payload ←
          action_signing_payload
            (unsigned_action r a action_ref input_digest authorization_id certificate_id)
      signature ← r.custody.sign payload
      ok (certified r a action_ref input_digest authorization_id certificate_id signature)

    -- `ActionGate::authorize`
    unfoldable pub authorize : GateRequest → Result (AuthorizedExecution × AuthorizationArtifact)
    unfolding admit certify
    authorize r = do admitted ← admit r; certify r admitted
