-- ===== src/Kernel/Checks.antt =====
-- The checks on one lease, one authority pair or one manifest
-- (crates/aeon_agent_runtime/src/authority_kernel/validation.rs).
use genesis_runtime.Common.{
  Bool, List, Option, Result, [], all, any, capability_all_forbidden, capability_manifest_mismatch,
  contains, delegation_invalid, false, lease_generation_mismatch, lease_inactive, leb, list_dec,
  list_eq, ltb, nat_eq, none, not, ok, ok_or, option_eq, refuse_if, some, true, ℕ, ◌++◌, ◌==◌,
  ◌>>=◌, ◌>>◌, ◌||◌,
}
use genesis_runtime.Ids.{identifier_eq}
use genesis_runtime.Json.{Host}
use genesis_runtime.Digest.{digest_eq}
use genesis_runtime.Mission.{Capability, DateTime}
use genesis_runtime.Authority.{
  AuthorityCodec, AuthoritySet, CapabilityManifest, LeaseRecord, bound_tool_eq, is_active,
  lease_ref_eq,
}
use genesis_runtime.Authority.Sets.{canonical_capabilities, covers_any, is_capability_all}
use genesis_runtime.Authority.Manifest.{has_duplicate_tool}
use genesis_runtime.Authority.Lease.{lease_ref}
use genesis_runtime.Kernel.{LeaseEntry}

unfoldable pub require_generation : LeaseRecord → ℕ → Result (Unit {0})
require_generation record_ expected_generation =
    refuse_if (not (record_.generation == expected_generation)) lease_generation_mismatch

-- `if let Some(expected) = expected_generation`
abbrev pub check_expected : LeaseRecord → Option ℕ → Result (Unit {0})
check_expected r none = ok tt
check_expected r (some expected) = require_generation r expected

module _ ⦃h : Host⦄ where
  unfoldable pub validate_active_record : LeaseEntry → Option ℕ → DateTime → Result (Unit {0})
  unfolding require_generation
  validate_active_record entry expected_generation now = do
    check_expected entry.lease_record expected_generation
    refuse_if (not (is_active entry.lease_record.state) || leb entry.certificate.expires_at now)
        lease_inactive

  unfoldable pub authority_is_subset_of_capabilities : AuthoritySet → List Capability → Bool
  authority_is_subset_of_capabilities child parent = all (covers_any parent) child.capabilities

  unfoldable pub authority_is_subset_of : AuthoritySet → AuthoritySet → Bool
  unfolding authority_is_subset_of_capabilities
  authority_is_subset_of child parent =
      authority_is_subset_of_capabilities child parent.capabilities

  unfoldable pub validate_authority_sets : AuthoritySet → AuthoritySet → Result (Unit {0})
  validate_authority_sets granted delegable = do
    refuse_if (any is_capability_all (granted.capabilities ++ delegable.capabilities))
        capability_all_forbidden
    refuse_if (not (authority_is_subset_of delegable granted)) delegation_invalid

  abbrev pub same_capabilities : List Capability → List Capability → Bool
  same_capabilities a b = elim (list_dec h.capability_dec a b) [ yes _ ↦ true | no _ ↦ false ]

  unfoldable pub validate_manifest : CapabilityManifest → AuthoritySet → Result (Unit {0})
  validate_manifest manifest authority = do
    refuse_if (not (manifest.version == 1)) capability_manifest_mismatch
    permitted ← canonical_capabilities manifest.permissions.capabilities
    granted ← canonical_capabilities authority.capabilities
    refuse_if (not (same_capabilities permitted granted)) capability_manifest_mismatch
    refuse_if (has_duplicate_tool [] manifest.approved_tools) capability_manifest_mismatch

  unfoldable pub validate_manifest_attenuation :
      CapabilityManifest → CapabilityManifest → Result (Unit {0})
  validate_manifest_attenuation child parent =
      refuse_if
        (not (child.version == parent.version)
          || not (child.model_manifest_digest == parent.model_manifest_digest)
          || not (child.runtime_config_digest == parent.runtime_config_digest)
          || not (child.tool_registry_root_digest == parent.tool_registry_root_digest)
          || any (λ child_tool. not (contains parent.approved_tools child_tool))
              child.approved_tools)
        capability_manifest_mismatch

  module _ ⦃codec : AuthorityCodec⦄ where
    unfoldable pub validate_parent_child : LeaseEntry → LeaseEntry → Result (Unit {0})
    validate_parent_child parent child = do
      parent_ref ← ok_or child.certificate.parent_lease delegation_invalid
      expected_ref ← lease_ref parent.certificate
      refuse_if
          (not (parent_ref == expected_ref)
            || not (child.certificate.parent_agent_id == some parent.certificate.agent_id)
            || ltb parent.certificate.expires_at child.certificate.expires_at
            || not (
                authority_is_subset_of child.certificate.granted_authority
                  parent.certificate.delegable_authority))
          delegation_invalid
      validate_authority_sets child.certificate.granted_authority
          child.certificate.delegable_authority
      validate_manifest_attenuation child.manifest parent.manifest
