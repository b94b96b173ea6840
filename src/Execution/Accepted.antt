-- ===== src/Execution/Accepted.antt =====
-- The port accepts what the gate has signed (crates/aeon_agent_runtime/src/execution.rs).
use genesis_runtime.Common.{List, list_eq, nat_eq, ok, option_eq, refl, true, ℕ, ◌<◌, ◌≡◌}
use genesis_runtime.Ids.{identifier_eq}
use genesis_runtime.Json.{Host}
use genesis_runtime.Digest.{digest_eq}
use genesis_runtime.Mission.{DateTime}
use genesis_runtime.Identity.{IdentityCodec, KeyCustody, is_signature_length}
use genesis_runtime.Authority.{AuthorityCodec, bound_tool_eq, lease_ref_eq}
use genesis_runtime.Action.{ActionCodec, action_payload, action_signing_payload}
use genesis_runtime.Agent.{ContextCodec}
use genesis_runtime.Registry.{ToolCodec}
use genesis_runtime.Execution.{
  AuthorizationArtifact, AuthorizedExecution, GateRequest, authorize, certified, unsigned_action,
}
use genesis_runtime.Execution.Gate.{authorize-split}
use genesis_runtime.Execution.Tokens.{validate_action_certificate}
use genesis_runtime.Execution.Certificate.{IsCertified-validate_action_certificate}

module _ ⦃h : Host⦄ where
  -- What ed25519 promises of a custody: its signatures have 64 bytes and verify under its key.
  unfoldable pub IsHonest : KeyCustody → Type 0
  IsHonest custody =
      (payload signature : List ℕ)
      → custody.sign payload ≡ ok signature
      → (is_signature_length signature ≡ true)
        × (h.verify custody.verifying_key payload signature ≡ true)

  module _ ⦃identity_codec : IdentityCodec⦄ ⦃authority_codec : AuthorityCodec⦄
      ⦃tool_codec : ToolCodec⦄ ⦃context_codec : ContextCodec⦄ ⦃action_codec : ActionCodec⦄ where
    -- A certificate that the gate has issued passes the check of the port for the execution that
    -- was authorized with it, at every time before its end, where the signatures of the custody
    -- verify under its key.
    pub authorize-accepted :
        (r : GateRequest) (x : AuthorizedExecution × AuthorizationArtifact) (now : DateTime)
        → authorize r ≡ ok x
        → IsHonest r.custody
        → now < x.0.certificate.expires_at
        → validate_action_certificate x.0.certificate x.0 r.custody now ≡ ok tt
    unfolding certified unsigned_action action_signing_payload action_payload IsHonest
    authorize-accepted r x now q honest early =
        let (a, _, c) = authorize-split r x q in
        let (size, verified) = honest c.payload c.signature c.by_custody in
        let y =
          certified r a c.action_ref c.input_digest c.authorization_id c.certificate_id
            c.signature in
        rw c.same (
          IsCertified-validate_action_certificate y.0.certificate y.0 r.custody now
            (record {
              unexpired = rw c.same at early;
              tool = refl;
              tool_manifest = refl;
              input = c.input;
              payload = c.payload;
              signed = c.signed;
              verified = verified;
            })
            size)
