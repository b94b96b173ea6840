-- ===== src/Identity.antt =====
-- Agent identity certificates and key custody (crates/aeon_agent_runtime/src/identity.rs).
use genesis_runtime.Common.{
  Bool, List, Option, Result, [], identity_invalid, length, list_eq, nat_eq, none, not, ok_or,
  option_eq, refuse_if, some, ℕ, ◌==◌, ◌>>=◌, ◌>>◌, ◌||◌,
}
use genesis_runtime.Ids.{AgentId, KeyId, codes, identifier_eq}
use genesis_runtime.Json.{Host, Serialize}
use genesis_runtime.Digest.{Digest, canonical_bytes, canonical_digest, digest_eq}
use genesis_runtime.Mission.{DateTime}

module _ ⦃h : Host⦄ where
  abbrev pub VerifyingKey : Type 0
  VerifyingKey = h.VerifyingKey

  -- The trait `KeyCustody`: the private key stays behind `sign`.
  pub record KeyCustody : Type 0 where
    pub key_id : KeyId
    pub verifying_key : VerifyingKey
    pub sign : List ℕ → Result (List ℕ)

pub record AgentIdentityCertificate : Type 0 where
  pub agent_id : AgentId
  pub key_id : KeyId
  pub verifying_key_bytes : List ℕ
  pub issuer_agent_id : Option AgentId
  pub issuer_key_id : KeyId
  pub issued_at : DateTime
  pub signature : List ℕ

-- The local `SigningPayload` of `signing_payload`: every field but the signature.
pub record IdentityPayload : Type 0 where
  pub agent_id : AgentId
  pub key_id : KeyId
  pub verifying_key_bytes : List ℕ
  pub issuer_agent_id : Option AgentId
  pub issuer_key_id : KeyId
  pub issued_at : DateTime

-- The derived serializers.
pub record IdentityCodec : Type 0 where
  pub certificate : Serialize AgentIdentityCertificate
  pub payload : Serialize IdentityPayload

abbrev pub identity_domain : List ℕ
identity_domain = codes "aeon-agent-identity-certificate-v1"

-- `<[u8; 64]>::try_from` of a signature.
abbrev pub is_signature_length : List ℕ → Bool
is_signature_length signature = length signature == 64

module _ ⦃h : Host⦄ where
  unfoldable pub unsigned :
      AgentId → KeyId → VerifyingKey → Option AgentId → KeyId → DateTime → AgentIdentityCertificate
  unsigned agent_id key_id verifying_key issuer_agent_id issuer_key_id issued_at = record {
    agent_id = agent_id;
    key_id = key_id;
    verifying_key_bytes = h.key_to_bytes verifying_key;
    issuer_agent_id = issuer_agent_id;
    issuer_key_id = issuer_key_id;
    issued_at = issued_at;
    signature = [];
  }

  module _ ⦃codec : IdentityCodec⦄ where
    unfoldable pub signing_payload : AgentIdentityCertificate → Result (List ℕ)
    signing_payload c = canonical_bytes codec.payload identity_domain (record {
      agent_id = c.agent_id;
      key_id = c.key_id;
      verifying_key_bytes = c.verifying_key_bytes;
      issuer_agent_id = c.issuer_agent_id;
      issuer_key_id = c.issuer_key_id;
      issued_at = c.issued_at;
    })

    unfoldable pub identity_digest : AgentIdentityCertificate → Result Digest
    identity_digest c = canonical_digest codec.certificate identity_domain c

    unfoldable pub verifying_key : AgentIdentityCertificate → Result VerifyingKey
    verifying_key c = ok_or (h.key_from_bytes c.verifying_key_bytes) identity_invalid

    unfoldable pub verify_signature : AgentIdentityCertificate → VerifyingKey → Result (Unit {0})
    verify_signature c issuer_key = do
      _ ← verifying_key c
      refuse_if (not (is_signature_length c.signature)) identity_invalid
      payload ← signing_payload c
      refuse_if (not (h.verify issuer_key payload c.signature)) identity_invalid

    unfoldable pub verify_issued_by :
        AgentIdentityCertificate → AgentIdentityCertificate → Result (Unit {0})
    verify_issued_by c issuer = do
      refuse_if
          (not (c.issuer_agent_id == some issuer.agent_id)
            || not (c.issuer_key_id == issuer.key_id))
          identity_invalid
      key ← verifying_key issuer
      verify_signature c key

    unfoldable pub verify_self_signed : AgentIdentityCertificate → Result (Unit {0})
    verify_self_signed c = do
      refuse_if (not (c.issuer_agent_id == none) || not (c.issuer_key_id == c.key_id))
          identity_invalid
      key ← verifying_key c
      verify_signature c key
