-- ===== src/Kernel/Delegate.antt =====
-- Delegation (crates/aeon_agent_runtime/src/authority_kernel.rs), over the state
-- under the lock. The time and the text of a fresh UUID are arguments.
use genesis_runtime.Common.{
  List, Result, any, contains_key, delegation_invalid, get, identity_invalid, insert,
  lease_inactive, leb, length, list_eq, nat_eq, none, ok, ok_or, option_eq, refuse_if, some, values,
  ℕ, ◌==◌, ◌>>=◌, ◌>>◌,
}
use genesis_runtime.Ids.{LeaseId, identifier_eq, new_lease_id}
use genesis_runtime.Json.{Host}
use genesis_runtime.Digest.{Digest, digest_eq}
use genesis_runtime.Mission.{DateTime}
use genesis_runtime.Identity.{AgentIdentityCertificate, IdentityCodec, KeyCustody, identity_digest}
use genesis_runtime.Authority.{
  AuthorityCodec, AuthorityLeaseCertificate, LeaseRef, bound_tool_eq, lease_ref_eq,
}
use genesis_runtime.Authority.Manifest.{manifest_digest}
use genesis_runtime.Authority.Lease.{lease_ref}
use genesis_runtime.Kernel.{
  AuthorityState, DelegationRequest, LeaseEntry, attempt, identity_registered, lease_delegated,
  max_authority_chain_depth, push_event,
}
use genesis_runtime.Kernel.Checks.{validate_active_record}
use genesis_runtime.Kernel.Chain.{validate_chain}
use genesis_runtime.Kernel.Requests.{validate_delegation_request}
use genesis_runtime.Kernel.Issue.{LeaseDraft, new_entry, signed_identity, signed_lease}

module _ ⦃h : Host⦄ ⦃identity_codec : IdentityCodec⦄ ⦃codec : AuthorityCodec⦄ where
  -- What a delegation adds to the state.
  pub record Delegated : Type 0 where
    pub identity : AgentIdentityCertificate
    pub lease_id : LeaseId
    pub certificate : AuthorityLeaseCertificate

  unfoldable pub child_draft :
      LeaseEntry → DelegationRequest → LeaseRef → LeaseId → Digest → Digest → DateTime → LeaseDraft
  child_draft parent request parent_reference lease_id identity manifest now = record {
    lease_id = lease_id;
    mission_id = parent.certificate.mission_id;
    agent_id = request.child_agent_id;
    agent_identity_digest = identity;
    parent_agent_id = some parent.certificate.agent_id;
    parent_lease = some parent_reference;
    renewed_from = none;
    organization_version = parent.certificate.organization_version;
    policy_epoch = parent.certificate.policy_epoch;
    granted_authority = request.granted_authority;
    delegable_authority = request.delegable_authority;
    capability_manifest_digest = manifest;
    semantic_context_digest = request.semantic_context_digest;
    issued_at = now;
    expires_at = request.expires_at;
  }

  -- The guards of `delegate`: the parent lease.
  unfoldable pub check_delegation :
      AuthorityState → DelegationRequest → KeyCustody → DateTime → Result LeaseEntry
  check_delegation st request child_custody now = do
    parent ← ok_or (get request.parent_lease_id st.leases) lease_inactive
    validate_active_record parent (some request.expected_parent_generation) now
    validated_parent ←
        validate_chain st request.parent_lease_id (some request.expected_parent_generation)
          parent.manifest now
    refuse_if (leb max_authority_chain_depth (length validated_parent.chain)) delegation_invalid
    validate_delegation_request st parent request now
    refuse_if (contains_key st.identities request.child_agent_id) identity_invalid
    refuse_if (any (λ identity. identity.key_id == child_custody.key_id) (values st.identities))
        identity_invalid
    ok parent

  unfoldable pub issue_delegation :
      AuthorityState
      → LeaseEntry
      → DelegationRequest
      → KeyCustody
      → List ℕ
      → DateTime
      → Result Delegated
  unfolding child_draft
  issue_delegation st parent request child_custody uuid now = do
    parent_custody ← ok_or (get parent.certificate.agent_id st.custodians) identity_invalid
    child_identity ←
        signed_identity request.child_agent_id child_custody (some parent.certificate.agent_id)
          parent_custody now
    child_digest ← identity_digest child_identity
    parent_identity ← ok_or (get parent.certificate.agent_id st.identities) identity_invalid
    parent_reference ← lease_ref parent.certificate
    child_lease_id ← new_lease_id uuid
    manifest ← manifest_digest request.capability_manifest
    parent_digest ← identity_digest parent_identity
    certificate ←
        signed_lease
          (child_draft parent request parent_reference child_lease_id child_digest manifest now)
          parent_digest parent_custody
    ok (record { identity = child_identity; lease_id = child_lease_id; certificate = certificate })

  unfoldable pub install_delegation :
      AuthorityState → DelegationRequest → KeyCustody → Delegated → DateTime → AuthorityState
  install_delegation st request child_custody child now =
      let st' = record st {
        identities = insert request.child_agent_id child.identity st.identities;
        custodians = insert request.child_agent_id child_custody st.custodians;
        leases =
            insert child.lease_id
              (new_entry child.lease_id child.certificate request.capability_manifest) st.leases;
      } in
      push_event
        (push_event st' child.lease_id (some request.parent_lease_id) identity_registered now)
        child.lease_id (some request.parent_lease_id) lease_delegated now

  unfoldable pub delegate :
      AuthorityState
      → DelegationRequest
      → KeyCustody
      → List ℕ
      → DateTime
      → Result LeaseId × AuthorityState
  delegate st request child_custody uuid now =
      attempt (check_delegation st request child_custody now) st λ parent.
        attempt (issue_delegation st parent request child_custody uuid now) st
          λ child. (ok child.lease_id, install_delegation st request child_custody child now)
