-- ===== src/Kernel/Issue.antt =====
-- Issuing signed identities and leases (crates/aeon_agent_runtime/src/authority_kernel.rs).
use genesis_runtime.Common.{Option, Result, [], list_eq, nat_eq, ok, option_eq, ℕ, ◌>>=◌, ◌>>◌}
use genesis_runtime.Ids.{AgentId, LeaseId, MissionId, identifier_eq}
use genesis_runtime.Json.{Host}
use genesis_runtime.Digest.{Digest, digest_eq}
use genesis_runtime.Mission.{DateTime}
use genesis_runtime.Kernel.{LeaseEntry}
use genesis_runtime.Identity.{
  AgentIdentityCertificate, IdentityCodec, KeyCustody, signing_payload, unsigned, verify_signature,
}
use genesis_runtime.Authority.{
  AuthorityCodec, AuthorityLeaseCertificate, AuthoritySet, CapabilityManifest, LeaseRef,
  active_record, bound_tool_eq, lease_ref_eq,
}
use genesis_runtime.Authority.Lease.{lease_signing_payload, verify_lease_signature}

module _ ⦃h : Host⦄ where
  pub record LeaseDraft : Type 0 where
    pub lease_id : LeaseId
    pub mission_id : MissionId
    pub agent_id : AgentId
    pub agent_identity_digest : Digest
    pub parent_agent_id : Option AgentId
    pub parent_lease : Option LeaseRef
    pub renewed_from : Option LeaseRef
    pub organization_version : ℕ
    pub policy_epoch : ℕ
    pub granted_authority : AuthoritySet
    pub delegable_authority : AuthoritySet
    pub capability_manifest_digest : Digest
    pub semantic_context_digest : Digest
    pub issued_at : DateTime
    pub expires_at : DateTime

  module _ ⦃identity_codec : IdentityCodec⦄ where
    unfoldable pub signed_identity :
        AgentId
        → KeyCustody
        → Option AgentId
        → KeyCustody
        → DateTime
        → Result AgentIdentityCertificate
    signed_identity agent_id subject_custody issuer_agent_id issuer_custody now = do
      let identity =
          unsigned agent_id subject_custody.key_id subject_custody.verifying_key issuer_agent_id
            issuer_custody.key_id now
      payload ← signing_payload identity
      signature ← issuer_custody.sign payload
      let signed = record identity { signature = signature }
      verify_signature signed issuer_custody.verifying_key
      ok signed

  -- The certificate of a draft, before it is signed.
  unfoldable pub unsigned_lease : LeaseDraft → Digest → KeyCustody → AuthorityLeaseCertificate
  unsigned_lease draft issuer_identity_digest issuer_custody = record {
    lease_id = draft.lease_id;
    mission_id = draft.mission_id;
    agent_id = draft.agent_id;
    parent_agent_id = draft.parent_agent_id;
    agent_identity_digest = draft.agent_identity_digest;
    issuer_identity_digest = issuer_identity_digest;
    issuer_key_id = issuer_custody.key_id;
    parent_lease = draft.parent_lease;
    renewed_from = draft.renewed_from;
    organization_version = draft.organization_version;
    policy_epoch = draft.policy_epoch;
    granted_authority = draft.granted_authority;
    delegable_authority = draft.delegable_authority;
    capability_manifest_digest = draft.capability_manifest_digest;
    semantic_context_digest = draft.semantic_context_digest;
    issued_at = draft.issued_at;
    expires_at = draft.expires_at;
    signature = [];
  }

  module _ ⦃codec : AuthorityCodec⦄ where
    unfoldable pub signed_lease :
        LeaseDraft → Digest → KeyCustody → Result AuthorityLeaseCertificate
    unfolding unsigned_lease
    signed_lease draft issuer_identity_digest issuer_custody = do
      let certificate = unsigned_lease draft issuer_identity_digest issuer_custody
      payload ← lease_signing_payload certificate
      signature ← issuer_custody.sign payload
      let signed = record certificate { signature = signature }
      verify_lease_signature signed issuer_custody.verifying_key
      ok signed

  unfoldable pub new_entry : LeaseId → AuthorityLeaseCertificate → CapabilityManifest → LeaseEntry
  new_entry lease_id certificate manifest = record {
    certificate = certificate;
    lease_record = active_record lease_id;
    manifest = manifest;
  }
