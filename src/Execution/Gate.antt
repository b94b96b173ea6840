-- ===== src/Execution/Gate.antt =====
-- What an authorization establishes (crates/aeon_agent_runtime/src/execution.rs).
use genesis_runtime.Common.{
  >>=-eq-ok, List, list_eq, nat_eq, ok, ok-inj, option_eq, refl, ℕ, ◌++◌, ◌≡◌,
}
use genesis_runtime.Ids.{AuthorizationId, codes, identifier_eq, new_identifier}
use genesis_runtime.Json.{Host}
use genesis_runtime.Digest.{Digest, canonical_digest, digest_eq}
use genesis_runtime.Identity.{IdentityCodec}
use genesis_runtime.Authority.{AuthorityCodec, bound_tool_eq, lease_ref_eq}
use genesis_runtime.Action.{
  ActionCodec, CertificateId, action_ref_of, action_signing_payload, new_target,
}
use genesis_runtime.Agent.{ContextCodec}
use genesis_runtime.Store.{issued}
use genesis_runtime.Registry.{ToolCodec}
use genesis_runtime.Execution.{
  Admitted, AuthorizationArtifact, AuthorizedExecution, GateRequest, admit, authorize, certified,
  certify, fresh_authorization, input_domain, proposed_action, unsigned_action,
}
use mathlib.Core.Path.{sym}

module _ ⦃h : Host⦄ ⦃identity_codec : IdentityCodec⦄ ⦃authority_codec : AuthorityCodec⦄
    ⦃tool_codec : ToolCodec⦄ ⦃context_codec : ContextCodec⦄ ⦃action_codec : ActionCodec⦄ where
  -- The parts of what `certify` returns.
  pub record Certified (r : GateRequest) (a : Admitted)
      (x : AuthorizedExecution × AuthorizationArtifact) : Type 0 where
    pub action_ref : Digest
    pub input_digest : Digest
    pub authorization_id : AuthorizationId
    pub certificate_id : CertificateId
    pub signature : List ℕ
    pub input : canonical_digest tool_codec.value input_domain r.arguments ≡ ok input_digest
    pub payload : List ℕ
    pub signed :
        action_signing_payload
          (unsigned_action r a action_ref input_digest authorization_id certificate_id)
        ≡ ok payload
    pub by_custody : r.custody.sign payload ≡ ok signature
    pub same : x ≡ certified r a action_ref input_digest authorization_id certificate_id signature

  pub certify-Certified :
      (r : GateRequest) (a : Admitted) (x : AuthorizedExecution × AuthorizationArtifact)
      → certify r a ≡ ok x
      → Certified r a x
  unfolding certify
  certify-Certified r a x q =
      let (target, _, q1) = >>=-eq-ok (new_target r.proposal_tool_id.bytes) _ q in
      let (action_ref, _, q2) = >>=-eq-ok (action_ref_of (proposed_action r a target)) _ q1 in
      let (input_digest, input, q3) =
        >>=-eq-ok (canonical_digest tool_codec.value input_domain r.arguments) _ q2 in
      let (authorization_id, _, q4) =
        >>=-eq-ok (new_identifier (codes "auth-" ++ r.authorization_uuid)) _ q3 in
      let (certificate_id, _, q5) =
        >>=-eq-ok (new_identifier (codes "cert-" ++ r.certificate_uuid)) _ q4 in
      let draft = unsigned_action r a action_ref input_digest authorization_id certificate_id in
      let (payload, signed, q6) = >>=-eq-ok (action_signing_payload draft) _ q5 in
      let (signature, by_custody, q7) = >>=-eq-ok (r.custody.sign payload) _ q6 in
      record {
        action_ref = action_ref;
        input_digest = input_digest;
        authorization_id = authorization_id;
        certificate_id = certificate_id;
        signature = signature;
        input = input;
        payload = payload;
        signed = signed;
        by_custody = by_custody;
        same = sym (ok-inj q7);
      }

  pub authorize-split :
      (r : GateRequest) (x : AuthorizedExecution × AuthorizationArtifact)
      → authorize r ≡ ok x
      → (a : Admitted) × (admit r ≡ ok a) × Certified r a x
  unfolding authorize
  authorize-split r x q =
      let (a, admitted, q1) = >>=-eq-ok (admit r) _ q in (a, admitted, certify-Certified r a x q1)

  -- The certificate names the record that is issued beside it.
  pub authorize-named :
      (r : GateRequest) (x : AuthorizedExecution × AuthorizationArtifact)
      → authorize r ≡ ok x
      → (x.0.certificate.authorization_record_id ≡ x.1.authorization.record_id)
        × (x.1.authorization.state ≡ issued)
  unfolding certified unsigned_action fresh_authorization
  authorize-named r x q = let (a, _, c) = authorize-split r x q in rw c.same (refl, refl)
