-- ===== src/Scenario/Calls.antt =====
-- Single calls on the kernel of the examples
-- (crates/aeon_agent_runtime/src/authority_kernel.rs).
use genesis_runtime.Common.{
  [], all, any, collect, contains, contains_key, dec_by, err, get, insert, insert_by,
  lease_generation_mismatch, list_dec, list_eq, nat_eq, next_u64, ok, option_dec, option_eq, refl,
  sort_by, values, ℕ_discrete, ◌≡◌,
}
use genesis_runtime.Ids.{
  bytes_le, codes, identifier_dec, identifier_eq, identifier_le, new_identifier, new_lease_id,
  validate_identifier,
}
use genesis_runtime.Digest.{
  canonical_bytes, canonical_digest, canonical_value_bytes, canonicalize_json, digest_dec,
  digest_eq, frame, insert_field, u32_be_bytes, u64_be_bytes,
}
use genesis_runtime.Mission.{is_usable_at}
use genesis_runtime.Identity.{
  identity_digest, signing_payload, unsigned, verify_signature, verifying_key,
}
use genesis_runtime.Authority.{
  LeaseRecord, active, active_record, bound_tool_dec, bound_tool_eq, bound_tool_le, lease_ref_dec,
  lease_ref_eq, paused,
}
use genesis_runtime.Authority.Sets.{
  canonical_capabilities, covers_any, dedup_keyed, drop_same, is_capability_all, key_capability,
  keyed_le,
}
use genesis_runtime.Authority.Manifest.{has_duplicate_tool, manifest_digest}
use genesis_runtime.Authority.Lease.{
  lease_payload, lease_ref, lease_signing_payload, verify_lease_signature,
}
use genesis_runtime.Kernel.{AuthorityState, RenewalRequest, lease_paused, push_event}
use genesis_runtime.Kernel.Checks.{
  authority_is_subset_of, authority_is_subset_of_capabilities, require_generation,
  validate_active_record, validate_authority_sets, validate_manifest, validate_manifest_attenuation,
  validate_parent_child,
}
use genesis_runtime.Kernel.Chain.{
  check_issued_identity, check_root_identity, climb_identities, climb_leases, last?,
  validate_certificate_entry, validate_chain, validate_identity_chain, validate_links,
  validate_renewal_link,
}
use genesis_runtime.Kernel.Requests.{validate_delegation_request, validate_root_request}
use genesis_runtime.Kernel.Issue.{new_entry, signed_identity, signed_lease, unsigned_lease}
use genesis_runtime.Kernel.Bootstrap.{bootstrap, root_draft, root_state}
use genesis_runtime.Kernel.Delegate.{
  check_delegation, child_draft, delegate, install_delegation, issue_delegation,
}
use genesis_runtime.Kernel.Renew.{check_renewal, renew}
use genesis_runtime.Kernel.Lifecycle.{
  check_revocation, check_transition, move_to, revoke, transition,
}
use genesis_runtime.Scenario.{
  child_id, one_capability, repeat_key, root_id, small_manifest, toy_codec, toy_host,
  toy_identity_codec,
}
use genesis_runtime.Scenario.Kernels.{delegated}

-- A renewal of the child that names a generation it never had.
abbrev pub late_renewal : RenewalRequest
late_renewal = record {
  lease_id = child_id;
  expected_generation = 7;
  granted_authority = one_capability 7;
  delegable_authority = one_capability 7;
  capability_manifest = small_manifest 7;
  semantic_context_digest = record { bytes = [] };
  expires_at = 700;
}

abbrev pub paused_record : LeaseRecord
paused_record = record (active_record child_id) { state = paused; generation = 1 }

abbrev pub paused_kernel : AuthorityState
paused_kernel = (transition delegated child_id 0 active paused lease_paused 30).1

pub call_facts :
    ((revoke delegated root_id 7 "late" 40).0 ≡ err lease_generation_mismatch)
    × ((renew delegated late_renewal (codes "3") 40).0 ≡ err lease_generation_mismatch)
    × ((transition delegated child_id 0 active paused lease_paused 30).0 ≡ ok paused_record)
unfolding bootstrap validate_root_request is_usable_at validate_authority_sets any is_capability_all
    ℕ_discrete authority_is_subset_of all covers_any validate_manifest canonical_capabilities
    collect canonical_value_bytes list_dec sort_by has_duplicate_tool signed_identity lease_payload
    lease_signing_payload verify_lease_signature manifest_digest dedup_keyed drop_same
    key_capability keyed_le active_record bound_tool_le contains insert_by insert dec_by
    canonical_bytes canonical_digest canonicalize_json frame insert_field u32_be_bytes u64_be_bytes
    identity_digest signing_payload unsigned verify_signature verifying_key bytes_le identifier_dec
    identifier_le new_identifier new_lease_id validate_identifier root_draft root_state
    authority_is_subset_of_capabilities new_entry signed_lease unsigned_lease push_event get
    repeat_key delegate check_delegation issue_delegation install_delegation child_draft
    validate_active_record require_generation validate_chain climb_leases validate_certificate_entry
    validate_identity_chain climb_identities check_root_identity check_issued_identity
    validate_renewal_link validate_links validate_parent_child last? lease_ref
    validate_delegation_request validate_manifest_attenuation contains_key values lease_ref_dec
    bound_tool_dec digest_dec option_dec revoke check_revocation renew check_renewal transition
    check_transition move_to next_u64
call_facts = (refl, refl, refl)
