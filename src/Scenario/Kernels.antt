-- ===== src/Scenario/Kernels.antt =====
-- A kernel that is started, and delegates one lease: examples for the theorems about the authority
-- kernel (crates/aeon_agent_runtime/src/authority_kernel.rs).
use genesis_runtime.Common.{
  Result, [], all, any, collect, contains, contains_key, dec_by, err, false, get, get_list, insert,
  insert_by, list_dec, list_eq, modify, nat_eq, none, ok, ok-inj, option_dec, option_eq, push_back,
  refl, some, sort_by, subst, values, ℕ_discrete, ◌≡◌,
}
use genesis_runtime.Ids.{
  LeaseId, bytes_le, codes, identifier_dec, identifier_eq, identifier_le, new_identifier,
  new_lease_id, validate_identifier,
}
use genesis_runtime.Digest.{
  canonical_bytes, canonical_digest, canonical_value_bytes, canonicalize_json, digest_dec,
  digest_eq, frame, insert_field, u32_be_bytes, u64_be_bytes,
}
use genesis_runtime.Mission.{is_usable_at}
use genesis_runtime.Identity.{
  identity_digest, signing_payload, unsigned, verify_signature, verifying_key,
}
use genesis_runtime.Authority.{
  AuthorityLeaseCertificate, active_record, bound_tool_dec, bound_tool_eq, bound_tool_le, is_live,
  lease_ref_dec, lease_ref_eq,
}
use genesis_runtime.Authority.Sets.{
  canonical_capabilities, covers_any, dedup_keyed, drop_same, is_capability_all, key_capability,
  keyed_le,
}
use genesis_runtime.Authority.Manifest.{has_duplicate_tool, manifest_digest}
use genesis_runtime.Authority.Lease.{
  lease_payload, lease_ref, lease_signing_payload, verify_lease_signature,
}
use genesis_runtime.Kernel.{AuthorityState, LeaseEntry, ValidatedAuthority, push_event}
use genesis_runtime.Kernel.Checks.{
  authority_is_subset_of, authority_is_subset_of_capabilities, require_generation,
  validate_active_record, validate_authority_sets, validate_manifest, validate_manifest_attenuation,
  validate_parent_child,
}
use genesis_runtime.Kernel.Chain.{
  check_issued_identity, check_root_identity, climb_identities, climb_leases, last?,
  validate_certificate_entry, validate_chain, validate_identity_chain, validate_links,
  validate_renewal_link,
}
use genesis_runtime.Kernel.Requests.{validate_delegation_request, validate_root_request}
use genesis_runtime.Kernel.Issue.{new_entry, signed_identity, signed_lease, unsigned_lease}
use genesis_runtime.Kernel.Bootstrap.{bootstrap, root_draft, root_state}
use genesis_runtime.Kernel.Delegate.{
  check_delegation, child_draft, delegate, install_delegation, issue_delegation,
}
use genesis_runtime.Kernel.Lifecycle.{check_revocation, revoke}
use genesis_runtime.Kernel.Descendants.{
  children_by_parent, descendants_including, offer, offer_all, revoke_each, revoke_entry,
  revoke_one, sort_children, visit, walk, walk_from,
}
use genesis_runtime.Kernel.Descendants.Index.{parent_of}
use genesis_runtime.Kernel.Runs.{IsFresh}
use genesis_runtime.Scenario.{
  child_id, child_request, custody_of, repeat_key, root_id, root_request, small_manifest,
  small_mission, toy_codec, toy_host, toy_identity_codec,
}

abbrev empty_kernel : AuthorityState
empty_kernel = record {
  mission = small_mission;
  root_lease_id = root_id;
  identities = [];
  custodians = [];
  leases = [];
  events = [];
}

abbrev kernel_of : Result AuthorityState → AuthorityState
kernel_of (ok st) = st
kernel_of (err e) = empty_kernel

abbrev pub started : AuthorityState
started = kernel_of (bootstrap root_request (custody_of 5) (codes "1") 10)

abbrev pub delegated : AuthorityState
delegated = (delegate started child_request (custody_of 6) (codes "2") 20).1

abbrev empty_certificate : AuthorityLeaseCertificate
empty_certificate =
    unsigned_lease
      (root_draft root_request root_id (record { bytes = [] }) (record { bytes = [] }) 0)
      (record { bytes = [] }) (custody_of 0)

abbrev pub entry_at : LeaseId → AuthorityState → LeaseEntry
entry_at id st = elim (get id st.leases) [
  | none ↦ new_entry id empty_certificate (small_manifest 7)
  | some e ↦ e
]

abbrev pub validated_of : Result ValidatedAuthority → ValidatedAuthority
validated_of (ok v) = v
validated_of (err e) = record {
  leaf_lease_id = root_id;
  leaf_expires_at = 0;
  agent_identity_digest = record { bytes = [] };
  capability_manifest_digest = record { bytes = [] };
  semantic_context_digest = record { bytes = [] };
  chain = [];
  observed_generations = [];
}

abbrev pub child_chain : Result ValidatedAuthority
child_chain = validate_chain delegated child_id (some 0) (small_manifest 7) 30

abbrev pub revoked_kernel : AuthorityState
revoked_kernel = (revoke delegated root_id 0 "compromised" 40).1

pub started_ok : bootstrap root_request (custody_of 5) (codes "1") 10 ≡ ok started
unfolding bootstrap validate_root_request is_usable_at validate_authority_sets any is_capability_all
    ℕ_discrete authority_is_subset_of all covers_any validate_manifest canonical_capabilities
    collect canonical_value_bytes list_dec sort_by has_duplicate_tool signed_identity lease_payload
    lease_signing_payload verify_lease_signature manifest_digest dedup_keyed drop_same
    key_capability keyed_le active_record bound_tool_le contains insert_by insert dec_by
    canonical_bytes canonical_digest canonicalize_json frame insert_field u32_be_bytes u64_be_bytes
    identity_digest signing_payload unsigned verify_signature verifying_key bytes_le identifier_dec
    identifier_le new_identifier new_lease_id validate_identifier root_draft root_state
    authority_is_subset_of_capabilities new_entry signed_lease unsigned_lease push_event get
    repeat_key
started_ok = refl

-- The run: the delegation returns the child, whose chain validates, and is refused once the root
-- is revoked.
pub delegated_facts :
    ((delegate started child_request (custody_of 6) (codes "2") 20).0 ≡ ok child_id)
    × (get root_id delegated.leases ≡ some (entry_at root_id delegated))
    × (get child_id delegated.leases ≡ some (entry_at child_id delegated))
    × (parent_of delegated.leases child_id ≡ some root_id)
    × (child_chain ≡ ok (validated_of child_chain))
unfolding bootstrap validate_root_request is_usable_at validate_authority_sets any is_capability_all
    ℕ_discrete authority_is_subset_of all covers_any validate_manifest canonical_capabilities
    collect canonical_value_bytes list_dec sort_by has_duplicate_tool signed_identity lease_payload
    lease_signing_payload verify_lease_signature manifest_digest dedup_keyed drop_same
    key_capability keyed_le active_record bound_tool_le contains insert_by insert dec_by
    canonical_bytes canonical_digest canonicalize_json frame insert_field u32_be_bytes u64_be_bytes
    identity_digest signing_payload unsigned verify_signature verifying_key bytes_le identifier_dec
    identifier_le new_identifier new_lease_id validate_identifier root_draft root_state
    authority_is_subset_of_capabilities new_entry signed_lease unsigned_lease push_event get
    repeat_key delegate check_delegation issue_delegation install_delegation child_draft
    validate_active_record require_generation validate_chain climb_leases validate_certificate_entry
    validate_identity_chain climb_identities check_root_identity check_issued_identity
    validate_renewal_link validate_links validate_parent_child last? lease_ref
    validate_delegation_request validate_manifest_attenuation contains_key values lease_ref_dec
    bound_tool_dec digest_dec option_dec parent_of
delegated_facts = (refl, refl, refl, refl, refl)

pub revoked_facts :
    ((entry_at root_id delegated).lease_record ≡ active_record root_id)
    × (get child_id revoked_kernel.leases ≡ some (entry_at child_id revoked_kernel))
    × (is_live (entry_at child_id revoked_kernel).lease_record.state ≡ false)
unfolding bootstrap validate_root_request is_usable_at validate_authority_sets any is_capability_all
    ℕ_discrete authority_is_subset_of all covers_any validate_manifest canonical_capabilities
    collect canonical_value_bytes list_dec sort_by has_duplicate_tool signed_identity lease_payload
    lease_signing_payload verify_lease_signature manifest_digest dedup_keyed drop_same
    key_capability keyed_le active_record bound_tool_le contains insert_by insert dec_by
    canonical_bytes canonical_digest canonicalize_json frame insert_field u32_be_bytes u64_be_bytes
    identity_digest signing_payload unsigned verify_signature verifying_key bytes_le identifier_dec
    identifier_le new_identifier new_lease_id validate_identifier root_draft root_state
    authority_is_subset_of_capabilities new_entry signed_lease unsigned_lease push_event get
    repeat_key delegate check_delegation issue_delegation install_delegation child_draft
    validate_active_record require_generation validate_chain climb_leases validate_certificate_entry
    validate_identity_chain climb_identities check_root_identity check_issued_identity
    validate_renewal_link validate_links validate_parent_child last? lease_ref
    validate_delegation_request validate_manifest_attenuation contains_key values lease_ref_dec
    bound_tool_dec digest_dec option_dec revoke check_revocation revoke_each revoke_one revoke_entry
    descendants_including walk visit offer_all offer sort_children children_by_parent walk_from
    push_back get_list modify parent_of
revoked_facts = (refl, refl, refl)

-- The identifier made from the text "2" is new to the kernel.
pub started-IsFresh : IsFresh started (codes "2")
unfolding bootstrap validate_root_request is_usable_at validate_authority_sets any is_capability_all
    ℕ_discrete authority_is_subset_of all covers_any validate_manifest canonical_capabilities
    collect canonical_value_bytes list_dec sort_by has_duplicate_tool signed_identity lease_payload
    lease_signing_payload verify_lease_signature manifest_digest dedup_keyed drop_same
    key_capability keyed_le active_record bound_tool_le contains insert_by insert dec_by
    canonical_bytes canonical_digest canonicalize_json frame insert_field u32_be_bytes u64_be_bytes
    identity_digest signing_payload unsigned verify_signature verifying_key bytes_le identifier_dec
    identifier_le new_identifier new_lease_id validate_identifier root_draft root_state
    authority_is_subset_of_capabilities new_entry signed_lease unsigned_lease push_event get
    repeat_key
started-IsFresh id r = subst (λ x. get x started.leases ≡ none) (ok-inj r) refl

pub delegated_root : delegated.root_lease_id ≡ root_id
unfolding bootstrap validate_root_request is_usable_at validate_authority_sets any is_capability_all
    ℕ_discrete authority_is_subset_of all covers_any validate_manifest canonical_capabilities
    collect canonical_value_bytes list_dec sort_by has_duplicate_tool signed_identity lease_payload
    lease_signing_payload verify_lease_signature manifest_digest dedup_keyed drop_same
    key_capability keyed_le active_record bound_tool_le contains insert_by insert dec_by
    canonical_bytes canonical_digest canonicalize_json frame insert_field u32_be_bytes u64_be_bytes
    identity_digest signing_payload unsigned verify_signature verifying_key bytes_le identifier_dec
    identifier_le new_identifier new_lease_id validate_identifier root_draft root_state
    authority_is_subset_of_capabilities new_entry signed_lease unsigned_lease push_event get
    repeat_key delegate check_delegation issue_delegation install_delegation child_draft
    validate_active_record require_generation validate_chain climb_leases validate_certificate_entry
    validate_identity_chain climb_identities check_root_identity check_issued_identity
    validate_renewal_link validate_links validate_parent_child last? lease_ref
    validate_delegation_request validate_manifest_attenuation contains_key values lease_ref_dec
    bound_tool_dec digest_dec option_dec parent_of
delegated_root = refl
