-- ===== src/Authority/Lease.antt =====
-- Signing, verifying and referring to a lease certificate
-- (crates/aeon_agent_runtime/src/authority.rs, and `lease_ref` of authority_kernel/validation.rs).
use genesis_runtime.Common.{
  List, Result, authorization_invalid, list_eq, nat_eq, not, ok, option_eq, refuse_if, ℕ, ◌>>=◌,
  ◌>>◌,
}
use genesis_runtime.Ids.{codes, identifier_eq}
use genesis_runtime.Json.{Host}
use genesis_runtime.Digest.{canonical_bytes, canonical_digest, digest_eq}
use genesis_runtime.Identity.{VerifyingKey, is_signature_length}
use genesis_runtime.Authority.{
  AuthorityCodec, AuthorityLeaseCertificate, LeasePayload, LeaseRef, bound_tool_eq, lease_ref_eq,
}

abbrev pub lease_domain : List ℕ
lease_domain = codes "aeon-authority-lease-certificate-v2"

abbrev pub lease_record_domain : List ℕ
lease_record_domain = codes "aeon-authority-lease-certificate-record-v2"

module _ ⦃h : Host⦄ where
  unfoldable pub lease_payload : AuthorityLeaseCertificate → LeasePayload
  lease_payload c = record {
    lease_id = c.lease_id;
    mission_id = c.mission_id;
    agent_id = c.agent_id;
    parent_agent_id = c.parent_agent_id;
    agent_identity_digest = c.agent_identity_digest;
    issuer_identity_digest = c.issuer_identity_digest;
    issuer_key_id = c.issuer_key_id;
    parent_lease = c.parent_lease;
    renewed_from = c.renewed_from;
    organization_version = c.organization_version;
    policy_epoch = c.policy_epoch;
    granted_authority = c.granted_authority;
    delegable_authority = c.delegable_authority;
    capability_manifest_digest = c.capability_manifest_digest;
    semantic_context_digest = c.semantic_context_digest;
    issued_at = c.issued_at;
    expires_at = c.expires_at;
  }

  module _ ⦃codec : AuthorityCodec⦄ where
    -- `AuthorityLeaseCertificate::signing_payload`
    unfoldable pub lease_signing_payload : AuthorityLeaseCertificate → Result (List ℕ)
    lease_signing_payload c = canonical_bytes codec.payload lease_domain (lease_payload c)

    -- `AuthorityLeaseCertificate::verify_signature`
    unfoldable pub verify_lease_signature :
        AuthorityLeaseCertificate → VerifyingKey → Result (Unit {0})
    verify_lease_signature c key = do
      refuse_if (not (is_signature_length c.signature)) authorization_invalid
      payload ← lease_signing_payload c
      refuse_if (not (h.verify key payload c.signature)) authorization_invalid

    unfoldable pub lease_ref : AuthorityLeaseCertificate → Result LeaseRef
    lease_ref c = do
      digest ← canonical_digest codec.certificate lease_record_domain c
      ok (record { lease_id = c.lease_id; certificate_digest = digest })
