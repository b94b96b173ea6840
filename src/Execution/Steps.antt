-- ===== src/Execution/Steps.antt =====
-- The steps of an execution before and after its commit: the tool and the manifest that are resolved,
-- the tokens, and the call of Nexus (crates/aeon_agent_runtime/src/execution.rs).
use genesis_runtime.Common.{
  >>=-eq-ok, ErrorCode, List, Option, Option-cases, [], arith, authorization_invalid, false, get,
  inl, inr, list_eq, nat_eq, none, not, ok, ok-inj, ok_or, ok_or-eq_ok, option_eq, refl, refuse_if,
  refuse_if-ok, some, subst, tool_manifest_mismatch, true, ℕ, ◌==◌, ◌∷◌, ◌≡◌,
}
use genesis_runtime.Ids.{LeaseId, codes, identifier_eq}
use genesis_runtime.Json.{Host}
use genesis_runtime.Digest.{digest_eq}
use genesis_runtime.Mission.{Capability}
use genesis_runtime.Identity.{IdentityCodec}
use genesis_runtime.Authority.{AuthorityCodec, CapabilityManifest, bound_tool_eq, lease_ref_eq}
use genesis_runtime.Action.{ActionCodec}
use genesis_runtime.Agent.{ContextCodec}
use genesis_runtime.Store.{MissionStore}
use genesis_runtime.Nexus.{Nexus}
use genesis_runtime.Registry.{RegisteredTool, ToolCodec, digest_of_tool, tool_definition}
use genesis_runtime.Registry.Bindings.{resolve_with_capability_manifest}
use genesis_runtime.Execution.{AuthorizedExecution}
use genesis_runtime.Execution.Tokens.{issue_each}
use genesis_runtime.Execution.Port.{
  PortView, Positioned, finished, generations_eq, leaf_generation, prepare_execution, run_tool,
  started, stopped,
}
use mathlib.Core.Path.{sym, ◌∙◌, ap}

pub generations_eq-same : (xs ys : List (LeaseId × ℕ)) → generations_eq xs ys ≡ true → xs ≡ ys
unfolding generations_eq
generations_eq-same [] [] q = refl
generations_eq-same [] (y ∷ ys) q = absurd (cc)
generations_eq-same (x ∷ xs) [] q = absurd (cc)
generations_eq-same ((i, m) ∷ xs) ((j, n) ∷ ys) q =
    let rest : xs ≡ ys = generations_eq-same xs ys (ground (arith, q)) in
    let ids : i ≡ j = ground (arith, q) in let numbers : m ≡ n = ground (arith, q) in cc

module _ ⦃h : Host⦄ ⦃identity_codec : IdentityCodec⦄ ⦃authority_codec : AuthorityCodec⦄
    ⦃tool_codec : ToolCodec⦄ ⦃context_codec : ContextCodec⦄ ⦃action_codec : ActionCodec⦄ where
  module _ ⦃nexus : Nexus⦄ where
    -- What the steps before the commit have found.
    pub record Prepared (view : PortView) (a : AuthorizedExecution) (tool : RegisteredTool)
        (manifest : CapabilityManifest) (generation : ℕ) : Type 0 where
      pub resolved :
          resolve_with_capability_manifest view.registry a.tool_id a.capability_manifest
          ≡ ok (tool, manifest)
      pub bound : digest_of_tool tool ≡ ok a.tool_manifest_digest
      pub observed : get a.certificate.authority_lease_id a.observed_generations ≡ some generation

    pub prepare_execution-Prepared :
        (view : PortView) (a : AuthorizedExecution) (tool : RegisteredTool)
        (manifest : CapabilityManifest) (generation : ℕ)
        → prepare_execution view a ≡ ok (tool, manifest, generation)
        → Prepared view a tool manifest generation
    unfolding prepare_execution leaf_generation
    prepare_execution-Prepared view a tool manifest generation q =
        let ((t, m), resolved, q1) =
          >>=-eq-ok (resolve_with_capability_manifest view.registry a.tool_id a.capability_manifest)
            _ q in
        let (digest, digested, q2) = >>=-eq-ok (digest_of_tool t) _ q1 in
        let differs = not (digest == a.tool_manifest_digest) in
        let (_, matched, q3) = >>=-eq-ok (refuse_if differs tool_manifest_mismatch) _ q2 in
        let d : differs ≡ false = refuse_if-ok differs tool_manifest_mismatch matched in
        let (g, observed, q4) =
          >>=-eq-ok (leaf_generation a.observed_generations a.certificate.authority_lease_id) _
            q3 in
        let same = ok-inj q4 in
        record {
          resolved =
              resolved ∙ ap (λ (x : RegisteredTool × CapabilityManifest × ℕ). ok (x.0, x.1)) same;
          bound =
              ap (λ (x : RegisteredTool × CapabilityManifest × ℕ). digest_of_tool x.0) (sym same)
              ∙ digested
              ∙ ap ok (ground (arith, d));
          observed =
              ok_or-eq_ok (get a.certificate.authority_lease_id a.observed_generations)
                authorization_invalid observed
              ∙ ap (λ (x : RegisteredTool × CapabilityManifest × ℕ). some x.2) same;
        }

    -- Tokens for the capabilities, in their order, each issued by Nexus with the validity.
    pub data IsMinted (validity : ℕ)
        : nexus.Hypervisor → List Capability → nexus.Hypervisor → List nexus.Token → Type 0 where
      no_more : {x : nexus.Hypervisor} → IsMinted validity x [] x []
      one_token :
          {x y z : nexus.Hypervisor} {c : Capability} {cs : List Capability} {t : nexus.Token}
          {ts : List nexus.Token}
          → nexus.issue_token x c (codes "aeon-r2") validity ≡ some (t, y)
          → IsMinted validity y cs z ts
          → IsMinted validity x (c ∷ cs) z (t ∷ ts)

    pub issue_each-IsMinted :
        (x z : nexus.Hypervisor) (cs : List Capability) (validity : ℕ) (ts : List nexus.Token)
        → issue_each x cs validity ≡ ok (z, ts)
        → IsMinted validity x cs z ts
    unfolding issue_each
    issue_each-IsMinted x z [] validity ts q =
        let same : (x, []) ≡ (z, ts) = ok-inj q in
        subst (λ (u : nexus.Hypervisor × List nexus.Token). IsMinted validity x [] u.0 u.1) same
          no_more
    issue_each-IsMinted x z (c ∷ cs) validity ts q =
        let ((t, y), given, q1) =
          >>=-eq-ok
            (ok_or (nexus.issue_token x c (codes "aeon-r2") validity) ErrorCode.execution_failed) _
            q in
        let ((last, rest), others, q2) = >>=-eq-ok (issue_each y cs validity) _ q1 in
        let first =
          ok_or-eq_ok (nexus.issue_token x c (codes "aeon-r2") validity) ErrorCode.execution_failed
            given in
        subst (λ (u : nexus.Hypervisor × List nexus.Token). IsMinted validity x (c ∷ cs) u.0 u.1)
          (ok-inj q2) (one_token first (issue_each-IsMinted y last cs validity rest others))

    -- What the port makes of the answer of Nexus.
    abbrev pub answer : Option nexus.Output → Positioned nexus.Output
    answer none = stopped ErrorCode.execution_failed started
    answer (some output) = finished output

    pub run_tool-answer :
        (view : PortView) (a : AuthorizedExecution) (attempt_id : ℕ) (tool : RegisteredTool)
        (minted : nexus.Hypervisor × List nexus.Token) (s : MissionStore)
        → (run_tool view a attempt_id tool minted s).0
          ≡ answer (nexus.execute_tool minted.0 (tool_definition tool) a.arguments minted.1)
    unfolding run_tool
    run_tool-answer view a attempt_id tool (x, ts) s =
        elim (Option-cases (nexus.execute_tool x (tool_definition tool) a.arguments ts)) [
          | inl q ↦ rw (q, run_tool) refl
          | inr (output, q) ↦ rw (q, run_tool) refl
        ]
