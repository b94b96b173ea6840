-- ===== src/Execution/Safety.antt =====
-- What holds of every execution that reaches Nexus
-- (crates/aeon_agent_runtime/src/execution.rs).
use genesis_runtime.Common.{
  >>=-eq-ok, ErrorCode, List, arith, authorization_invalid, false, get, lease_inactive, list_eq,
  ltb, min, nat_eq, not, ok, ok-inj, ok_or, ok_or-eq_ok, option_eq, refuse_if, refuse_if-ok,
  semantic_context_changed, some, ℕ, ◌+◌, ◌-◌, ◌<◌, ◌==◌, ◌||◌, ◌≡◌, ◌≢◌, ◌≤◌,
}
use genesis_runtime.Ids.{identifier_eq}
use genesis_runtime.Json.{Host}
use genesis_runtime.Digest.{digest_eq}
use genesis_runtime.Identity.{IdentityCodec}
use genesis_runtime.Authority.{AuthorityCodec, CapabilityManifest, bound_tool_eq, lease_ref_eq}
use genesis_runtime.Authority.Manifest.{manifest_digest}
use genesis_runtime.Kernel.{ValidatedAuthority}
use genesis_runtime.Kernel.Chain.{validate_active_chain}
use genesis_runtime.Action.{ActionCodec}
use genesis_runtime.Agent.{ContextCodec, context_digest}
use genesis_runtime.Store.{AuthorizationRecord, MissionStore, find_record, mark_consumed}
use genesis_runtime.Store.Records.{IsAvailable, available_record-found}
use genesis_runtime.Nexus.{Nexus}
use genesis_runtime.Registry.{RegisteredTool, ToolCodec, digest_of_tool, tool_definition}
use genesis_runtime.Registry.Bindings.{resolve_with_capability_manifest}
use genesis_runtime.Execution.{AuthorizedExecution}
use genesis_runtime.Execution.Tokens.{
  issue_tokens, remaining_validity, token_validity, validate_action_certificate,
}
use genesis_runtime.Execution.Port.{PortView, Positioned, check_commit, execute, generations_eq}
use genesis_runtime.Execution.Refusals.{execute-Entered, is_refused}
use genesis_runtime.Execution.Certificate.{IsCertified, validate_action_certificate-IsCertified}
use genesis_runtime.Execution.Steps.{
  IsMinted, answer, generations_eq-same, issue_each-IsMinted, prepare_execution-Prepared,
  run_tool-answer,
}
use mathlib.Core.Path.{◌∙◌, ap}

-- The validity of a token is positive, at most 30 seconds, and ends neither after the lease nor
-- after the certificate.
pub remaining_validity-bounded :
    (leaf_expires_at certificate_expires_at issue_now validity : ℕ)
    → remaining_validity leaf_expires_at certificate_expires_at issue_now ≡ ok validity
    → (0 < validity)
      × (validity ≤ token_validity)
      × (issue_now + validity ≤ leaf_expires_at)
      × (issue_now + validity ≤ certificate_expires_at)
unfolding remaining_validity
remaining_validity-bounded leaf certificate now validity q =
    let limit = min leaf certificate in
    let (_, early, q1) = >>=-eq-ok (refuse_if (ltb limit now) lease_inactive) _ q in
    let rest = min token_validity (limit - now) in
    let (_, positive, q2) = >>=-eq-ok (refuse_if (rest == 0) lease_inactive) _ q1 in
    let a = refuse_if-ok (ltb limit now) lease_inactive early in
    let b = refuse_if-ok (rest == 0) lease_inactive positive in
    let same : rest ≡ validity = ok-inj q2 in
    let c : now ≤ limit = ground (arith, a) in
    let d : rest ≢ 0 = ground (arith, b) in
    (omega (arith, same, d), omega (arith, same), omega (arith, same, c), omega (arith, same, c))

module _ ⦃h : Host⦄ ⦃identity_codec : IdentityCodec⦄ ⦃authority_codec : AuthorityCodec⦄
    ⦃tool_codec : ToolCodec⦄ ⦃context_codec : ContextCodec⦄ ⦃action_codec : ActionCodec⦄ where
  module _ ⦃nexus : Nexus⦄ where
    -- What an execution that reaches Nexus rests on.
    pub record IsLawful (view : PortView) (a : AuthorizedExecution) (attempt_id : ℕ)
        (s : MissionStore) : Type 0 where
      pub certified : IsCertified a.certificate a view.custody view.commit_now
      pub tool : RegisteredTool
      pub manifest : CapabilityManifest
      pub resolved :
          resolve_with_capability_manifest view.registry a.tool_id a.capability_manifest
          ≡ ok (tool, manifest)
      pub bound : digest_of_tool tool ≡ ok a.tool_manifest_digest
      pub generation : ℕ
      pub observed : get a.certificate.authority_lease_id a.observed_generations ≡ some generation
      pub authority : ValidatedAuthority
      pub chain :
          validate_active_chain view.kernel a.certificate.authority_lease_id
            (some generation)
            manifest
            view.commit_now
          ≡ ok authority
      pub generations : authority.observed_generations ≡ a.observed_generations
      pub agent : authority.agent_identity_digest ≡ a.certificate.agent_identity_digest
      pub live : manifest_digest manifest ≡ ok authority.capability_manifest_digest
      pub context : context_digest view.semantic_context ≡ ok authority.semantic_context_digest
      pub unchanged : a.certificate.semantic_context_digest ≡ authority.semantic_context_digest
      pub validity : ℕ
      pub hypervisor : nexus.Hypervisor
      pub fresh : nexus.new_hypervisor ≡ some hypervisor
      pub minted : nexus.Hypervisor × List nexus.Token
      pub tokens : IsMinted validity hypervisor a.required_capabilities minted.0 minted.1
      pub call :
          (execute view a attempt_id s).0
          ≡ answer (nexus.execute_tool minted.0 (tool_definition tool) a.arguments minted.1)
      pub brief :
          (0 < validity)
          × (validity ≤ token_validity)
          × (view.issue_now + validity ≤ authority.leaf_expires_at)
          × (view.issue_now + validity ≤ a.certificate.expires_at)
      pub before : AuthorizationRecord
      pub stored :
          find_record a.certificate.authorization_record_id s.authorization_records ≡ some before
      pub available : IsAvailable before a.certificate.authorization_generation

    -- An execution that reaches Nexus, whatever comes of it there, has at its commit a validated
    -- chain of active leases over the live manifest, which the registry has now resolved together
    -- with the tool, under the generations that were observed at the authorization, with the
    -- tool, the agent and the semantic context unchanged; an unexpired certificate that is signed
    -- and binds the tool and its input; and a record that was issued and is not spent. Nexus is
    -- called with that tool, the arguments that were authorized and a token for each required
    -- capability, issued for a time that ends with the lease and the certificate at the latest,
    -- and its answer is the outcome.
    pub execute-IsLawful :
        (view : PortView) (a : AuthorizedExecution) (attempt_id : ℕ) (s : MissionStore)
        → is_refused (execute view a attempt_id s).0 ≡ false
        → IsLawful view a attempt_id s
    unfolding check_commit issue_tokens
    execute-IsLawful view a attempt_id s reached =
        let e = execute-Entered view a attempt_id s reached in
        let v = e.validated in
        let c = a.certificate in
        let tests =
          not (generations_eq v.validated.observed_generations a.observed_generations)
          || not (v.validated.agent_identity_digest == c.agent_identity_digest)
          || not (v.validated.semantic_context_digest == c.semantic_context_digest) in
        let (_, tested, q1) = >>=-eq-ok (refuse_if tests authorization_invalid) _ v.commits in
        let (live, digested, q2) = >>=-eq-ok (manifest_digest v.live_manifest) _ q1 in
        let other = not (v.validated.capability_manifest_digest == live) in
        let (_, matched, q3) = >>=-eq-ok (refuse_if other authorization_invalid) _ q2 in
        let o : other ≡ false = refuse_if-ok other authorization_invalid matched in
        let p = prepare_execution-Prepared view a e.tool v.live_manifest v.generation v.prepared in
        let (current, context, q4) = >>=-eq-ok (context_digest view.semantic_context) _ q3 in
        let differs = not (current == v.validated.semantic_context_digest) in
        let (_, kept, q5) = >>=-eq-ok (refuse_if differs semantic_context_changed) _ q4 in
        let (_, valid, q6) =
          >>=-eq-ok (validate_action_certificate c a view.custody view.commit_now) _ q5 in
        let t : tests ≡ false = refuse_if-ok tests authorization_invalid tested in
        let k : differs ≡ false = refuse_if-ok differs semantic_context_changed kept in
        let (hypervisor, started_by, each) =
          >>=-eq-ok (ok_or nexus.new_hypervisor ErrorCode.execution_failed) _ e.tokens in
        let (found, available) =
          available_record-found s c.authorization_record_id c.authorization_generation e.before
            e.available in
        record {
          certified =
              validate_action_certificate-IsCertified c a view.custody view.commit_now valid;
          tool = e.tool;
          manifest = v.live_manifest;
          resolved = p.resolved;
          bound = p.bound;
          observed = p.observed;
          generations =
              generations_eq-same v.validated.observed_generations a.observed_generations
                (ground (arith, t));
          agent = ground (arith, t);
          live = digested ∙ ap ok (ground (arith, o));
          generation = v.generation;
          authority = v.validated;
          chain = v.chain;
          context = context ∙ ap ok (ground (arith, k));
          unchanged = ground (arith, t);
          validity = e.validity;
          hypervisor = hypervisor;
          fresh = ok_or-eq_ok nexus.new_hypervisor ErrorCode.execution_failed started_by;
          minted = e.minted;
          tokens =
              issue_each-IsMinted hypervisor e.minted.0 a.required_capabilities e.validity
                e.minted.1 each;
          call =
              ap (λ (u : Positioned nexus.Output × MissionStore). u.0) e.runs
              ∙ run_tool-answer view a attempt_id e.tool e.minted
                  (mark_consumed s c.authorization_record_id);
          brief =
              remaining_validity-bounded v.validated.leaf_expires_at c.expires_at view.issue_now
                e.validity q6;
          before = e.before;
          stored = found;
          available = available;
        }
