-- ===== src/Authority.antt =====
-- Authority sets, capability manifests and lease certificates
-- (crates/aeon_agent_runtime/src/authority.rs).
pub mod Sets
pub mod Manifest
pub mod Lease
use genesis_runtime.Common.{
  Bool, Eq, List, Option, String, [], dec_by, false, if◌then◌else◌, list_dec, list_eq, nat_eq, none,
  option_eq, true, ℕ, ℕ_discrete, ◌==◌, ◌∷◌, ◌≡◌,
}
use genesis_runtime.Ids.{
  AgentId, KeyId, LeaseId, MissionId, ToolId, bytes_le, identifier_eq, identifier_le,
}
use genesis_runtime.Json.{Host, Serialize}
use genesis_runtime.Digest.{Digest, digest_eq}
use genesis_runtime.Mission.{Capability, DateTime}

pub record BoundTool : Type 0 where
  pub tool_id : ToolId
  pub tool_manifest_digest : Digest

BoundTool-ext :
    (a b : BoundTool)
    → (a.tool_id.bytes ∷ a.tool_manifest_digest.bytes ∷ [])
      ≡ (b.tool_id.bytes ∷ b.tool_manifest_digest.bytes ∷ [])
    → a ≡ b
BoundTool-ext a b e = cc

unfoldable pub bound_tool_dec : Discrete BoundTool
unfolding BoundTool-ext dec_by list_dec ℕ_discrete
bound_tool_dec =
    dec_by (λ b. b.tool_id.bytes ∷ b.tool_manifest_digest.bytes ∷ []) BoundTool-ext
      (list_dec (list_dec ℕ_discrete))

instance abbrev pub bound_tool_eq : Eq BoundTool
bound_tool_eq = record { dec = bound_tool_dec }

-- The derived `Ord`: the identifier first, then the digest.
unfoldable pub bound_tool_le : BoundTool → BoundTool → Bool
bound_tool_le a b =
    if a.tool_id == b.tool_id
    then bytes_le a.tool_manifest_digest.bytes b.tool_manifest_digest.bytes
    else identifier_le a.tool_id b.tool_id

pub record LeaseRef : Type 0 where
  pub lease_id : LeaseId
  pub certificate_digest : Digest

LeaseRef-ext :
    (a b : LeaseRef)
    → (a.lease_id.bytes ∷ a.certificate_digest.bytes ∷ [])
      ≡ (b.lease_id.bytes ∷ b.certificate_digest.bytes ∷ [])
    → a ≡ b
LeaseRef-ext a b e = cc

unfoldable pub lease_ref_dec : Discrete LeaseRef
unfolding LeaseRef-ext dec_by list_dec ℕ_discrete
lease_ref_dec =
    dec_by (λ r. r.lease_id.bytes ∷ r.certificate_digest.bytes ∷ []) LeaseRef-ext
      (list_dec (list_dec ℕ_discrete))

instance abbrev pub lease_ref_eq : Eq LeaseRef
lease_ref_eq = record { dec = lease_ref_dec }

pub data LeaseState : Type 0 where
  active paused revoked expired retired : LeaseState

-- `matches!(state, LeaseState::Active | LeaseState::Paused)`
abbrev pub is_live : LeaseState → Bool
is_live active = true
is_live paused = true
is_live _ = false

abbrev pub is_active : LeaseState → Bool
is_active active = true
is_active _ = false

abbrev pub is_retired : LeaseState → Bool
is_retired retired = true
is_retired _ = false

pub record LeaseRecord : Type 0 where
  pub lease_id : LeaseId
  pub state : LeaseState
  pub generation : ℕ
  pub revoked_at : Option DateTime
  pub revocation_reason : Option String
  pub renewed_by : Option LeaseId

unfoldable pub active_record : LeaseId → LeaseRecord
active_record lease_id = record {
  lease_id = lease_id;
  state = active;
  generation = 0;
  revoked_at = none;
  revocation_reason = none;
  renewed_by = none;
}

module _ ⦃h : Host⦄ where
  -- The field is private in the source: `AuthoritySet.new` is the only constructor.
  pub record AuthoritySet : Type 0 where
    pub capabilities : List Capability

  pub record PermissionSet : Type 0 where
    pub capabilities : List Capability

  pub record CapabilityManifest : Type 0 where
    pub version : ℕ
    pub model_manifest_digest : Digest
    pub approved_tools : List BoundTool
    pub permissions : PermissionSet
    pub runtime_config_digest : Digest
    pub tool_registry_root_digest : Digest

  pub record AuthorityLeaseCertificate : Type 0 where
    pub lease_id : LeaseId
    pub mission_id : MissionId
    pub agent_id : AgentId
    pub parent_agent_id : Option AgentId
    pub agent_identity_digest : Digest
    pub issuer_identity_digest : Digest
    pub issuer_key_id : KeyId
    pub parent_lease : Option LeaseRef
    pub renewed_from : Option LeaseRef
    pub organization_version : ℕ
    pub policy_epoch : ℕ
    pub granted_authority : AuthoritySet
    pub delegable_authority : AuthoritySet
    pub capability_manifest_digest : Digest
    pub semantic_context_digest : Digest
    pub issued_at : DateTime
    pub expires_at : DateTime
    pub signature : List ℕ

  -- The local `SigningPayload` of `signing_payload`: every field but the signature.
  pub record LeasePayload : Type 0 where
    pub lease_id : LeaseId
    pub mission_id : MissionId
    pub agent_id : AgentId
    pub parent_agent_id : Option AgentId
    pub agent_identity_digest : Digest
    pub issuer_identity_digest : Digest
    pub issuer_key_id : KeyId
    pub parent_lease : Option LeaseRef
    pub renewed_from : Option LeaseRef
    pub organization_version : ℕ
    pub policy_epoch : ℕ
    pub granted_authority : AuthoritySet
    pub delegable_authority : AuthoritySet
    pub capability_manifest_digest : Digest
    pub semantic_context_digest : Digest
    pub issued_at : DateTime
    pub expires_at : DateTime

  -- The derived serializers. `CanonicalManifest` has the fields of `CapabilityManifest`.
  pub record AuthorityCodec : Type 0 where
    pub manifest : Serialize CapabilityManifest
    pub certificate : Serialize AuthorityLeaseCertificate
    pub payload : Serialize LeasePayload
