-- ===== src/Kernel/Bootstrap.antt =====
-- The start of a kernel (crates/aeon_agent_runtime/src/authority_kernel.rs), over the state
-- under the lock. The time and the text of a fresh UUID are arguments.
use genesis_runtime.Common.{
  List, Result, [], insert, list_eq, nat_eq, none, ok, option_eq, ℕ, ◌>>=◌, ◌>>◌,
}
use genesis_runtime.Ids.{LeaseId, identifier_eq, new_lease_id}
use genesis_runtime.Json.{Host}
use genesis_runtime.Digest.{Digest, digest_eq}
use genesis_runtime.Mission.{DateTime}
use genesis_runtime.Identity.{AgentIdentityCertificate, IdentityCodec, KeyCustody, identity_digest}
use genesis_runtime.Authority.{
  AuthorityCodec, AuthorityLeaseCertificate, bound_tool_eq, lease_ref_eq,
}
use genesis_runtime.Authority.Manifest.{manifest_digest}
use genesis_runtime.Kernel.{
  AuthorityState, RootLeaseRequest, identity_registered, lease_issued, push_event,
}
use genesis_runtime.Kernel.Requests.{validate_root_request}
use genesis_runtime.Kernel.Issue.{LeaseDraft, new_entry, signed_identity, signed_lease}

module _ ⦃h : Host⦄ ⦃identity_codec : IdentityCodec⦄ ⦃codec : AuthorityCodec⦄ where
  unfoldable pub root_draft : RootLeaseRequest → LeaseId → Digest → Digest → DateTime → LeaseDraft
  root_draft request lease_id identity manifest now = record {
    lease_id = lease_id;
    mission_id = request.mission.mission_id;
    agent_id = request.agent_id;
    agent_identity_digest = identity;
    parent_agent_id = none;
    parent_lease = none;
    renewed_from = none;
    organization_version = request.mission.organization_version;
    policy_epoch = request.mission.policy_epoch;
    granted_authority = request.granted_authority;
    delegable_authority = request.delegable_authority;
    capability_manifest_digest = manifest;
    semantic_context_digest = request.semantic_context_digest;
    issued_at = now;
    expires_at = request.expires_at;
  }

  -- The state that `bootstrap` starts the kernel in.
  unfoldable pub root_state :
      RootLeaseRequest
      → KeyCustody
      → LeaseId
      → AgentIdentityCertificate
      → AuthorityLeaseCertificate
      → DateTime
      → AuthorityState
  root_state request root_custody lease_id root_identity certificate now =
      let st : AuthorityState = record {
        mission = request.mission;
        root_lease_id = lease_id;
        identities = insert request.agent_id root_identity [];
        custodians = insert request.agent_id root_custody [];
        leases = insert lease_id (new_entry lease_id certificate request.capability_manifest) [];
        events = [];
      } in
      push_event (push_event st lease_id none identity_registered now) lease_id none lease_issued
        now

  unfoldable pub bootstrap :
      RootLeaseRequest → KeyCustody → List ℕ → DateTime → Result AuthorityState
  unfolding root_draft root_state
  bootstrap request root_custody uuid now = do
    validate_root_request request now
    root_identity ← signed_identity request.agent_id root_custody none root_custody now
    identity ← identity_digest root_identity
    lease_id ← new_lease_id uuid
    manifest ← manifest_digest request.capability_manifest
    certificate ←
        signed_lease (root_draft request lease_id identity manifest now) identity root_custody
    ok (root_state request root_custody lease_id root_identity certificate now)
