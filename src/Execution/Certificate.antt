-- ===== src/Execution/Certificate.antt =====
-- When the certificate of an action is valid for an execution
-- (crates/aeon_agent_runtime/src/execution.rs).
use genesis_runtime.Common.{
  ==_iff, >>=-eq-ok, List, arith, authorization_invalid, false, leb, list_eq, nat_eq, not, ok,
  option_eq, refl, refuse_if, refuse_if-ok, true, ℕ, ◌<◌, ◌==◌, ◌||◌, ◌≡◌,
}
use genesis_runtime.Ids.{identifier_eq}
use genesis_runtime.Json.{Host}
use genesis_runtime.Digest.{canonical_digest, digest_eq}
use genesis_runtime.Mission.{DateTime}
use genesis_runtime.Identity.{IdentityCodec, KeyCustody, is_signature_length}
use genesis_runtime.Authority.{AuthorityCodec, bound_tool_eq, lease_ref_eq}
use genesis_runtime.Action.{ActionCertificate, ActionCodec, action_signing_payload}
use genesis_runtime.Agent.{ContextCodec}
use genesis_runtime.Registry.{ToolCodec}
use genesis_runtime.Execution.{AuthorizedExecution, input_domain}
use genesis_runtime.Execution.Tokens.{check_binding, validate_action_certificate}
use mathlib.Core.Path.{◌∙◌, ap}

module _ ⦃h : Host⦄ ⦃identity_codec : IdentityCodec⦄ ⦃authority_codec : AuthorityCodec⦄
    ⦃tool_codec : ToolCodec⦄ ⦃context_codec : ContextCodec⦄ ⦃action_codec : ActionCodec⦄ where
  -- A certificate that is valid for an execution.
  pub record IsCertified (c : ActionCertificate) (a : AuthorizedExecution) (custody : KeyCustody)
      (now : DateTime) : Type 0 where
    pub unexpired : now < c.expires_at
    pub tool : c.tool_id ≡ a.tool_id
    pub tool_manifest : c.tool_manifest_digest ≡ a.tool_manifest_digest
    pub input :
        canonical_digest tool_codec.value input_domain a.arguments ≡ ok c.concrete_input_digest
    pub payload : List ℕ
    pub signed : action_signing_payload c ≡ ok payload
    pub verified : h.verify custody.verifying_key payload c.signature ≡ true

  pub validate_action_certificate-IsCertified :
      (c : ActionCertificate) (a : AuthorizedExecution) (custody : KeyCustody) (now : DateTime)
      → validate_action_certificate c a custody now ≡ ok tt
      → IsCertified c a custody now
  unfolding validate_action_certificate check_binding
  validate_action_certificate-IsCertified c a custody now q =
      let (_, bound, q1) = >>=-eq-ok (check_binding c a now) _ q in
      let tests =
        leb c.expires_at now
        || not (c.tool_id == a.tool_id)
        || not (c.tool_manifest_digest == a.tool_manifest_digest) in
      let (_, tested, b1) = >>=-eq-ok (refuse_if tests authorization_invalid) _ bound in
      let (digest, input, b2) =
        >>=-eq-ok (canonical_digest tool_codec.value input_domain a.arguments) _ b1 in
      let t : tests ≡ false = refuse_if-ok tests authorization_invalid tested in
      let i : not (c.concrete_input_digest == digest) ≡ false =
        refuse_if-ok _ authorization_invalid b2 in
      let (_, _, q2) =
        >>=-eq-ok (refuse_if (not (is_signature_length c.signature)) authorization_invalid) _ q1 in
      let (payload, signed, q3) = >>=-eq-ok (action_signing_payload c) _ q2 in
      let v =
        refuse_if-ok (not (h.verify custody.verifying_key payload c.signature))
          authorization_invalid q3 in
      record {
        unexpired = ground (arith, t);
        tool = ground (arith, t);
        tool_manifest = ground (arith, t);
        input = input ∙ ap ok (ground (arith, i));
        payload = payload;
        signed = signed;
        verified = ground (arith, v);
      }

  -- The converse, for a signature of the right length.
  pub IsCertified-validate_action_certificate :
      (c : ActionCertificate) (a : AuthorizedExecution) (custody : KeyCustody) (now : DateTime)
      → IsCertified c a custody now
      → is_signature_length c.signature ≡ true
      → validate_action_certificate c a custody now ≡ ok tt
  unfolding validate_action_certificate check_binding
  IsCertified-validate_action_certificate c a custody now v size =
      let unexpired : leb c.expires_at now ≡ false = ground (arith, v.unexpired) in
      let tool : (c.tool_id == a.tool_id) ≡ true = (==_iff _ _).1 v.tool in
      let manifest : (c.tool_manifest_digest == a.tool_manifest_digest) ≡ true =
        (==_iff _ _).1 v.tool_manifest in
      let input : (c.concrete_input_digest == c.concrete_input_digest) ≡ true =
        (==_iff c.concrete_input_digest c.concrete_input_digest).1 refl in
      rw (unexpired, tool, manifest, v.input, input, size, v.signed, v.verified) refl
