-- ===== src/Execution/Tokens.antt =====
-- Capability tokens and the check of an action certificate
-- (crates/aeon_agent_runtime/src/execution.rs).
use genesis_runtime.Common.{
  ErrorCode, List, Result, [], authorization_invalid, lease_inactive, leb, list_eq, ltb, min,
  nat_eq, not, ok, ok_or, option_eq, refuse_if, ℕ, ◌*◌, ◌-◌, ◌==◌, ◌>>=◌, ◌>>◌, ◌^◌, ◌||◌, ◌∷◌,
}
use genesis_runtime.Ids.{codes, identifier_eq}
use genesis_runtime.Json.{Host}
use genesis_runtime.Digest.{canonical_digest, digest_eq}
use genesis_runtime.Mission.{Capability, DateTime}
use genesis_runtime.Identity.{KeyCustody, is_signature_length}
use genesis_runtime.Action.{ActionCertificate, ActionCodec, action_signing_payload}
use genesis_runtime.Nexus.{Nexus}
use genesis_runtime.Registry.{ToolCodec}
use genesis_runtime.Execution.{AuthorizedExecution, input_domain}

-- `TOKEN_VALIDITY`, in nanoseconds.
abbrev pub token_validity : ℕ
token_validity = 30 * 10 ^ 9

-- The validity of the tokens: the time that the lease and the certificate have left, at most
-- `token_validity`. A negative rest is the error of `to_std`.
unfoldable pub remaining_validity : DateTime → DateTime → DateTime → Result ℕ
remaining_validity leaf_expires_at certificate_expires_at issue_now = do
  let limit = min leaf_expires_at certificate_expires_at
  refuse_if (ltb limit issue_now) lease_inactive
  let validity = min token_validity (limit - issue_now)
  refuse_if (validity == 0) lease_inactive
  ok validity

module _ ⦃h : Host⦄ where
  module _ ⦃nexus : Nexus⦄ where
    -- The loop of `issue_tokens`.
    unfoldable pub issue_each :
        nexus.Hypervisor → List Capability → ℕ → Result (nexus.Hypervisor × List nexus.Token)
    issue_each hypervisor [] validity = ok (hypervisor, [])
    issue_each hypervisor (c ∷ cs) validity = do
      (token, issued_from) ←
          ok_or (nexus.issue_token hypervisor c (codes "aeon-r2") validity)
            ErrorCode.execution_failed
      (last, tokens) ← issue_each issued_from cs validity
      ok (last, token ∷ tokens)

    unfoldable pub issue_tokens : List Capability → ℕ → Result (nexus.Hypervisor × List nexus.Token)
    unfolding issue_each
    issue_tokens required_capabilities validity = do
      hypervisor ← ok_or nexus.new_hypervisor ErrorCode.execution_failed
      issue_each hypervisor required_capabilities validity

  module _ ⦃tool_codec : ToolCodec⦄ ⦃action_codec : ActionCodec⦄ where
    -- The first guard of `validate_action_certificate`; the digest is computed only where the
    -- tests before it pass.
    unfoldable pub check_binding :
        ActionCertificate → AuthorizedExecution → DateTime → Result (Unit {0})
    check_binding c authorized now = do
      refuse_if
          (leb c.expires_at now
            || not (c.tool_id == authorized.tool_id)
            || not (c.tool_manifest_digest == authorized.tool_manifest_digest))
          authorization_invalid
      input_digest ← canonical_digest tool_codec.value input_domain authorized.arguments
      refuse_if (not (c.concrete_input_digest == input_digest)) authorization_invalid

    unfoldable pub validate_action_certificate :
        ActionCertificate → AuthorizedExecution → KeyCustody → DateTime → Result (Unit {0})
    unfolding check_binding action_signing_payload
    validate_action_certificate c authorized custody now = do
      check_binding c authorized now
      refuse_if (not (is_signature_length c.signature)) authorization_invalid
      payload ← action_signing_payload c
      refuse_if (not (h.verify custody.verifying_key payload c.signature)) authorization_invalid
