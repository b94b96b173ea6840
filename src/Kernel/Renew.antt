-- ===== src/Kernel/Renew.antt =====
-- Renewal (crates/aeon_agent_runtime/src/authority_kernel.rs), over the state
-- under the lock. The time and the text of a fresh UUID are arguments.
use genesis_runtime.Common.{
  List, Result, get, identity_invalid, if◌then◌else◌, insert, lease_inactive, list_eq, modify,
  nat_eq, ok, ok_or, option_eq, some, ℕ, ◌==◌, ◌>>=◌, ◌>>◌,
}
use genesis_runtime.Ids.{LeaseId, identifier_eq, new_lease_id}
use genesis_runtime.Json.{Host}
use genesis_runtime.Digest.{Digest, digest_eq}
use genesis_runtime.Mission.{DateTime}
use genesis_runtime.Identity.{IdentityCodec, identity_digest}
use genesis_runtime.Authority.{
  AuthorityCodec, AuthorityLeaseCertificate, LeaseRef, bound_tool_eq, lease_ref_eq,
}
use genesis_runtime.Authority.Manifest.{manifest_digest}
use genesis_runtime.Authority.Lease.{lease_ref}
use genesis_runtime.Kernel.{
  AuthorityState, LeaseEntry, RenewalRequest, attempt, lease_renewed, push_event,
}
use genesis_runtime.Kernel.Checks.{validate_active_record}
use genesis_runtime.Kernel.Chain.{issuer_of, validate_chain}
use genesis_runtime.Kernel.Descendants.{revoke_descendants}
use genesis_runtime.Kernel.Requests.{validate_renewal_request}
use genesis_runtime.Kernel.Lifecycle.{retire_entry}
use genesis_runtime.Kernel.Issue.{LeaseDraft, new_entry, signed_lease}

module _ ⦃h : Host⦄ ⦃identity_codec : IdentityCodec⦄ ⦃codec : AuthorityCodec⦄ where
  unfoldable pub renewal_draft :
      LeaseEntry → RenewalRequest → LeaseRef → LeaseId → Digest → DateTime → LeaseDraft
  renewal_draft old request old_reference lease_id manifest now = record {
    lease_id = lease_id;
    mission_id = old.certificate.mission_id;
    agent_id = old.certificate.agent_id;
    agent_identity_digest = old.certificate.agent_identity_digest;
    parent_agent_id = old.certificate.parent_agent_id;
    parent_lease = old.certificate.parent_lease;
    renewed_from = some old_reference;
    organization_version = old.certificate.organization_version;
    policy_epoch = old.certificate.policy_epoch;
    granted_authority = request.granted_authority;
    delegable_authority = request.delegable_authority;
    capability_manifest_digest = manifest;
    semantic_context_digest = request.semantic_context_digest;
    issued_at = now;
    expires_at = request.expires_at;
  }

  -- The guards of `renew`: the lease that is renewed.
  unfoldable pub check_renewal : AuthorityState → RenewalRequest → DateTime → Result LeaseEntry
  check_renewal st request now = do
    old ← ok_or (get request.lease_id st.leases) lease_inactive
    validate_active_record old (some request.expected_generation) now
    _ ← validate_chain st request.lease_id (some request.expected_generation) old.manifest now
    validate_renewal_request st old request now
    ok old

  unfoldable pub issue_renewal :
      AuthorityState
      → LeaseEntry
      → RenewalRequest
      → List ℕ
      → DateTime
      → Result AuthorityLeaseCertificate
  unfolding renewal_draft
  issue_renewal st old request uuid now = do
    let issuer_agent_id = issuer_of old.certificate
    issuer_identity ← ok_or (get issuer_agent_id st.identities) identity_invalid
    issuer_custody ← ok_or (get issuer_agent_id st.custodians) identity_invalid
    lease_id ← new_lease_id uuid
    old_reference ← lease_ref old.certificate
    manifest ← manifest_digest request.capability_manifest
    issuer_digest ← identity_digest issuer_identity
    signed_lease (renewal_draft old request old_reference lease_id manifest now) issuer_digest
        issuer_custody

  -- The last part of `renew`: the new lease takes its place.
  unfoldable pub install_renewal :
      AuthorityState → RenewalRequest → AuthorityLeaseCertificate → DateTime → AuthorityState
  install_renewal st request certificate now =
      let lease_id = certificate.lease_id in
      let st' = record st {
        leases =
            insert lease_id (new_entry lease_id certificate request.capability_manifest) st.leases;
        root_lease_id = if st.root_lease_id == request.lease_id then lease_id else st.root_lease_id;
      } in
      push_event st' lease_id (some request.lease_id) lease_renewed now

  unfoldable pub renew :
      AuthorityState → RenewalRequest → List ℕ → DateTime → Result LeaseId × AuthorityState
  unfolding retire_entry
  renew st request uuid now = attempt (check_renewal st request now) st λ old.
      attempt (issue_renewal st old request uuid now) st λ certificate.
        let lease_id = certificate.lease_id in
        let retiring = record st {
          leases = modify request.lease_id (retire_entry lease_id) st.leases;
        } in
        let (r, st') =
          revoke_descendants retiring request.lease_id "ancestor lease retired during renewal"
            now in
        attempt r st' (λ _. (ok lease_id, install_renewal st' request certificate now))
