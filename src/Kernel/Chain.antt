-- ===== src/Kernel/Chain.antt =====
-- Validation of an authority chain, from a leaf lease up to a root
-- (crates/aeon_agent_runtime/src/authority_kernel/validation.rs). Both loops stop at a depth of
-- `max_authority_chain_depth` by a test of their own, which is the fuel that they are given.
pub mod Steps
pub mod Sound
pub mod Attenuation
pub mod Depth
pub mod IdentityDepth
use genesis_runtime.Common.{
  List, Option, Result, [], capability_manifest_mismatch, collect, contains, delegation_invalid,
  err, get, identity_invalid, if◌then◌else◌, internal, leb, length, list_eq, map, nat_eq, none, not,
  ok, ok_or, option_eq, refuse_if, some, suc, zero, ℕ, ◌++◌, ◌==◌, ◌>>=◌, ◌>>◌, ◌||◌, ◌∷◌,
}
use genesis_runtime.Ids.{AgentId, LeaseId, identifier_eq}
use genesis_runtime.Json.{Host}
use genesis_runtime.Digest.{digest_eq}
use genesis_runtime.Mission.{DateTime}
use genesis_runtime.Identity.{
  AgentIdentityCertificate, IdentityCodec, identity_digest, verify_signature, verifying_key,
}
use genesis_runtime.Authority.{
  AuthorityCodec, AuthorityLeaseCertificate, CapabilityManifest, bound_tool_eq, is_retired,
  lease_ref_eq,
}
use genesis_runtime.Authority.Manifest.{manifest_digest}
use genesis_runtime.Authority.Lease.{lease_ref, verify_lease_signature}
use genesis_runtime.Kernel.{
  AuthorityState, LeaseEntry, ValidatedAuthority, max_authority_chain_depth,
}
use genesis_runtime.Kernel.Checks.{validate_active_record, validate_parent_child}

unfoldable pub last? {ℓ} : {A : Type ℓ} → List A → Option A
last? [] = none
last? (x ∷ []) = some x
last? (x ∷ y ∷ xs) = last? (y ∷ xs)

module _ ⦃h : Host⦄ ⦃identity_codec : IdentityCodec⦄ where
  -- The last step of the identity loop: a root must have signed itself.
  unfoldable pub check_root_identity : AgentIdentityCertificate → Result (Unit {0})
  check_root_identity identity = do
    refuse_if (not (identity.issuer_key_id == identity.key_id)) identity_invalid
    self_key ← verifying_key identity
    verify_signature identity self_key

  -- Any other step: the issuer is known and has signed.
  unfoldable pub check_issued_identity :
      AuthorityState → AgentIdentityCertificate → AgentId → Result (Unit {0})
  check_issued_identity st identity issuer_agent_id = do
    issuer ← ok_or (get issuer_agent_id st.identities) identity_invalid
    refuse_if (not (identity.issuer_key_id == issuer.key_id)) identity_invalid
    issuer_key ← verifying_key issuer
    verify_signature identity issuer_key

  -- The loop of `validate_identity_chain`: the identities validated, the leaf first.
  unfoldable pub climb_identities :
      ℕ → AuthorityState → List AgentId → List AgentId → AgentId → Result (List AgentId)
  climb_identities zero st validated visited current = err internal
  climb_identities (suc fuel) st validated visited current =
      if contains validated current then ok [] else do
        refuse_if (contains visited current) identity_invalid
        identity ← ok_or (get current st.identities) identity_invalid
        elim identity.issuer_agent_id [
          | none ↦ do check_root_identity identity; ok (current ∷ [])
          | some issuer_agent_id ↦ do
            refuse_if (leb max_authority_chain_depth (length (current ∷ visited))) identity_invalid
            check_issued_identity st identity issuer_agent_id
            above ← climb_identities fuel st validated (current ∷ visited) issuer_agent_id
            ok (current ∷ above)
        ]

  -- The set of identities that are validated afterwards.
  unfoldable pub validate_identity_chain :
      AuthorityState → AgentId → List AgentId → Result (List AgentId)
  validate_identity_chain st leaf_agent_id validated =
      if contains validated leaf_agent_id then ok validated else do
        fresh ← climb_identities max_authority_chain_depth st validated [] leaf_agent_id
        ok (fresh ++ validated)

  module _ ⦃codec : AuthorityCodec⦄ where
    unfoldable pub validate_renewal_link :
        AuthorityState → AuthorityLeaseCertificate → Result (Unit {0})
    validate_renewal_link st certificate = elim certificate.renewed_from [
      | none ↦ ok tt
      | some renewed_from ↦ do
        predecessor ← ok_or (get renewed_from.lease_id st.leases) delegation_invalid
        expected_ref ← lease_ref predecessor.certificate
        refuse_if
            (not (renewed_from == expected_ref)
              || not (predecessor.certificate.agent_id == certificate.agent_id)
              || not (predecessor.certificate.mission_id == certificate.mission_id)
              || not (is_retired predecessor.lease_record.state)
              || not (predecessor.lease_record.renewed_by == some certificate.lease_id))
            delegation_invalid
    ]

    abbrev pub issuer_of : AuthorityLeaseCertificate → AgentId
    issuer_of c = elim c.parent_agent_id [ none ↦ c.agent_id | some parent ↦ parent ]

    unfoldable pub validate_certificate_entry :
        AuthorityState → LeaseEntry → List AgentId → Result (List AgentId)
    validate_certificate_entry st entry validated = do
      let certificate = entry.certificate
      refuse_if
          (not (certificate.mission_id == st.mission.mission_id)
            || not (certificate.organization_version == st.mission.organization_version)
            || not (certificate.policy_epoch == st.mission.policy_epoch))
          capability_manifest_mismatch
      manifest ← manifest_digest entry.manifest
      refuse_if (not (certificate.capability_manifest_digest == manifest))
          capability_manifest_mismatch
      subject ← ok_or (get certificate.agent_id st.identities) identity_invalid
      validated' ← validate_identity_chain st certificate.agent_id validated
      subject_digest ← identity_digest subject
      refuse_if (not (subject_digest == certificate.agent_identity_digest)) identity_invalid
      issuer ← ok_or (get (issuer_of certificate) st.identities) identity_invalid
      issuer_digest ← identity_digest issuer
      refuse_if
          (not (issuer_digest == certificate.issuer_identity_digest)
            || not (issuer.key_id == certificate.issuer_key_id))
          identity_invalid
      issuer_key ← verifying_key issuer
      verify_lease_signature certificate issuer_key
      validate_renewal_link st certificate
      ok validated'

    abbrev pub Link : Type 0
    Link = LeaseId × LeaseEntry

    module _ (st : AuthorityState) (leaf_lease_id : LeaseId) (expected : Option ℕ)
        (now : DateTime) where
      -- The loop of `validate_chain`. The source pushes each entry and reverses the list at the
      -- end; here an entry is put in front, so that the result is the reversed list, root first.
      unfoldable pub climb_leases :
          ℕ → List LeaseId → List AgentId → List Link → LeaseId → Result (List Link)
      climb_leases zero visited validated entries current = err internal
      climb_leases (suc fuel) visited validated entries current = do
        refuse_if (contains visited current) delegation_invalid
        entry ← ok_or (get current st.leases) delegation_invalid
        validate_active_record entry (if current == leaf_lease_id then expected else none) now
        validated' ← validate_certificate_entry st entry validated
        let entries' = (current, entry) ∷ entries
        elim entry.certificate.parent_lease [
          | none ↦ ok entries'
          | some parent ↦ do
            refuse_if (leb max_authority_chain_depth (length entries')) delegation_invalid
            climb_leases fuel (current ∷ visited) validated' entries' parent.lease_id
        ]

    -- `for pair in chain_entries.windows(2)`
    unfoldable pub validate_links : List Link → Result (Unit {0})
    validate_links [] = ok tt
    validate_links (_ ∷ []) = ok tt
    validate_links (parent ∷ child ∷ rest) = do
      validate_parent_child parent.1 child.1
      validate_links (child ∷ rest)

    unfoldable pub validate_chain :
        AuthorityState
        → LeaseId
        → Option ℕ
        → CapabilityManifest
        → DateTime
        → Result ValidatedAuthority
    validate_chain st leaf_lease_id expected current_manifest now = do
      entries ←
          climb_leases st leaf_lease_id expected now max_authority_chain_depth [] [] []
            leaf_lease_id
      validate_links entries
      leaf ← ok_or (last? entries) delegation_invalid
      leaf_digest ← manifest_digest leaf.1.manifest
      current_digest ← manifest_digest current_manifest
      refuse_if (not (leaf_digest == current_digest)) capability_manifest_mismatch
      chain ← collect (λ link. lease_ref link.1.certificate) entries
      ok (record {
        leaf_lease_id = leaf_lease_id;
        leaf_expires_at = leaf.1.certificate.expires_at;
        agent_identity_digest = leaf.1.certificate.agent_identity_digest;
        capability_manifest_digest = leaf.1.certificate.capability_manifest_digest;
        semantic_context_digest = leaf.1.certificate.semantic_context_digest;
        chain = chain;
        observed_generations = map (λ link. (link.0, link.1.lease_record.generation)) entries;
      })

    unfoldable pub validate_active_chain :
        AuthorityState
        → LeaseId
        → Option ℕ
        → CapabilityManifest
        → DateTime
        → Result ValidatedAuthority
    validate_active_chain st leaf_lease_id expected current_manifest now =
        validate_chain st leaf_lease_id expected current_manifest now

    -- The commit action runs under the lock for reading, so that the state is the one validated.
    unfoldable pub commit_active_chain {ℓ} :
        {T : Type ℓ}
        → AuthorityState
        → LeaseId
        → Option ℕ
        → CapabilityManifest
        → DateTime
        → (ValidatedAuthority → Result T)
        → Result T
    commit_active_chain st leaf_lease_id expected current_manifest now commit = do
      validated ← validate_chain st leaf_lease_id expected current_manifest now
      commit validated
