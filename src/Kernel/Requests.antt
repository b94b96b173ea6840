-- ===== src/Kernel/Requests.antt =====
-- The checks on the requests for a root lease, a delegation and a renewal
-- (crates/aeon_agent_runtime/src/authority_kernel.rs).
use genesis_runtime.Common.{
  Option, Result, any, capability_outside_authority, delegation_invalid, get, lease_inactive, leb,
  list_eq, ltb, nat_eq, none, not, ok, ok_or, option_eq, refuse_if, semantic_context_changed, some,
  tool_outside_mission, ◌==◌, ◌>>=◌, ◌>>◌, ◌||◌,
}
use genesis_runtime.Ids.{identifier_eq}
use genesis_runtime.Json.{Host}
use genesis_runtime.Digest.{digest_eq}
use genesis_runtime.Mission.{DateTime, is_usable_at}
use genesis_runtime.Authority.{LeaseRef, bound_tool_eq, lease_ref_eq}
use genesis_runtime.Kernel.{
  AuthorityState, DelegationRequest, LeaseEntry, RenewalRequest, RootLeaseRequest,
}
use genesis_runtime.Kernel.Checks.{
  authority_is_subset_of, authority_is_subset_of_capabilities, validate_active_record,
  validate_authority_sets, validate_manifest, validate_manifest_attenuation,
}

module _ ⦃h : Host⦄ where
  unfoldable pub validate_root_request : RootLeaseRequest → DateTime → Result (Unit {0})
  validate_root_request request now = do
    refuse_if
        (not (is_usable_at request.mission now)
          || leb request.expires_at now
          || ltb request.mission.expires_at request.expires_at)
        lease_inactive
    validate_authority_sets request.granted_authority request.delegable_authority
    refuse_if
        (not (
          authority_is_subset_of_capabilities request.granted_authority
            request.mission.allowed_capabilities))
        capability_outside_authority
    validate_manifest request.capability_manifest request.granted_authority
    refuse_if
        (any
          (λ bound. not (any (λ allowed. allowed == bound.tool_id) request.mission.allowed_tools))
          request.capability_manifest.approved_tools)
        tool_outside_mission

  unfoldable pub validate_delegation_request :
      AuthorityState → LeaseEntry → DelegationRequest → DateTime → Result (Unit {0})
  validate_delegation_request st parent request now = do
    refuse_if
        (leb request.expires_at now
          || ltb parent.certificate.expires_at request.expires_at
          || ltb st.mission.expires_at request.expires_at)
        delegation_invalid
    validate_authority_sets request.granted_authority request.delegable_authority
    refuse_if
        (not
          (authority_is_subset_of request.granted_authority parent.certificate.delegable_authority))
        delegation_invalid
    validate_manifest request.capability_manifest request.granted_authority
    validate_manifest_attenuation request.capability_manifest parent.manifest

  -- `if let Some(parent_ref) = &old.certificate.parent_lease`
  unfoldable pub validate_renewal_parent :
      AuthorityState → Option LeaseRef → DateTime → DateTime → Result (Unit {0})
  validate_renewal_parent st none expires_at now = ok tt
  validate_renewal_parent st (some parent_ref) expires_at now = do
    parent ← ok_or (get parent_ref.lease_id st.leases) delegation_invalid
    validate_active_record parent none now
    refuse_if (ltb parent.certificate.expires_at expires_at) delegation_invalid

  unfoldable pub validate_renewal_request :
      AuthorityState → LeaseEntry → RenewalRequest → DateTime → Result (Unit {0})
  validate_renewal_request st old request now = do
    refuse_if (leb request.expires_at now || ltb st.mission.expires_at request.expires_at)
        delegation_invalid
    refuse_if (not (request.semantic_context_digest == old.certificate.semantic_context_digest))
        semantic_context_changed
    validate_authority_sets request.granted_authority request.delegable_authority
    refuse_if
        (not (authority_is_subset_of request.granted_authority old.certificate.granted_authority)
          || not (
              authority_is_subset_of request.delegable_authority
                old.certificate.delegable_authority))
        delegation_invalid
    validate_manifest request.capability_manifest request.granted_authority
    validate_manifest_attenuation request.capability_manifest old.manifest
    validate_renewal_parent st old.certificate.parent_lease request.expires_at now
