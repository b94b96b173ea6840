-- ===== src/Action.antt =====
-- Actions and their certificates (crates/aeon_agent_runtime/src/action.rs). The types that the
-- mission store keeps are in Store.
use genesis_runtime.Common.{List, Result, list_eq, nat_eq, ok, option_eq, ℕ, ◌>>◌}
use genesis_runtime.Texts.{validate_text}
use genesis_runtime.Ids.{
  AuthorizationId, IdKind, Identifier, LeaseId, MissionId, ToolId, codes, identifier_eq,
}
use genesis_runtime.Json.{Host, Serialize, Value}
use genesis_runtime.Digest.{Digest, canonical_bytes, canonical_digest, digest_eq}
use genesis_runtime.Mission.{DateTime}
use genesis_runtime.Store.{EffectClass}

abbrev pub max_action_target_bytes : ℕ
max_action_target_bytes = 128

pub record ActionTarget : Type 0 where
  pub text : List ℕ

-- `ActionTarget::new`
unfoldable pub new_target : List ℕ → Result ActionTarget
new_target value = do validate_text max_action_target_bytes value; ok (record { text = value })

pub data SemanticScope : Type 0 where
  mission_scope agent_scope global_scope : SemanticScope

-- The parameters are those of `CanonicalJson`: canonical already.
pub record CanonicalAction : Type 0 where
  pub mission_id : MissionId
  pub effect_kind : EffectClass
  pub target : ActionTarget
  pub normalized_parameters : Value
  pub semantic_scope : SemanticScope

abbrev pub CertificateId : Type 0
CertificateId = Identifier IdKind.certificate

pub record ActionCertificate : Type 0 where
  pub certificate_id : CertificateId
  pub mission_id : MissionId
  pub agent_identity_digest : Digest
  pub authority_lease_id : LeaseId
  pub organization_version : ℕ
  pub policy_epoch : ℕ
  pub semantic_context_digest : Digest
  pub action_ref : Digest
  pub tool_id : ToolId
  pub tool_manifest_digest : Digest
  pub concrete_input_digest : Digest
  pub authorization_record_id : AuthorizationId
  pub granted_uses : ℕ
  pub authorization_generation : ℕ
  pub issued_at : DateTime
  pub expires_at : DateTime
  pub signature : List ℕ

-- The local `SigningPayload` of `signing_payload`: every field but the signature.
pub record ActionPayload : Type 0 where
  pub certificate_id : CertificateId
  pub mission_id : MissionId
  pub agent_identity_digest : Digest
  pub authority_lease_id : LeaseId
  pub organization_version : ℕ
  pub policy_epoch : ℕ
  pub semantic_context_digest : Digest
  pub action_ref : Digest
  pub tool_id : ToolId
  pub tool_manifest_digest : Digest
  pub concrete_input_digest : Digest
  pub authorization_record_id : AuthorizationId
  pub granted_uses : ℕ
  pub authorization_generation : ℕ
  pub issued_at : DateTime
  pub expires_at : DateTime

-- The derived serializers.
pub record ActionCodec : Type 0 where
  pub action : Serialize CanonicalAction
  pub payload : Serialize ActionPayload

unfoldable pub action_payload : ActionCertificate → ActionPayload
action_payload c = record {
  certificate_id = c.certificate_id;
  mission_id = c.mission_id;
  agent_identity_digest = c.agent_identity_digest;
  authority_lease_id = c.authority_lease_id;
  organization_version = c.organization_version;
  policy_epoch = c.policy_epoch;
  semantic_context_digest = c.semantic_context_digest;
  action_ref = c.action_ref;
  tool_id = c.tool_id;
  tool_manifest_digest = c.tool_manifest_digest;
  concrete_input_digest = c.concrete_input_digest;
  authorization_record_id = c.authorization_record_id;
  granted_uses = c.granted_uses;
  authorization_generation = c.authorization_generation;
  issued_at = c.issued_at;
  expires_at = c.expires_at;
}

abbrev pub action_domain : List ℕ
action_domain = codes "aeon-canonical-action-v1"

abbrev pub action_certificate_domain : List ℕ
action_certificate_domain = codes "aeon-action-certificate-v1"

module _ ⦃h : Host⦄ ⦃codec : ActionCodec⦄ where
  -- `CanonicalAction::action_ref`
  unfoldable pub action_ref_of : CanonicalAction → Result Digest
  action_ref_of action = canonical_digest codec.action action_domain action

  -- `ActionCertificate::signing_payload`
  unfoldable pub action_signing_payload : ActionCertificate → Result (List ℕ)
  unfolding action_payload
  action_signing_payload c =
      canonical_bytes codec.payload action_certificate_domain (action_payload c)
