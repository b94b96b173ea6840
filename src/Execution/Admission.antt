-- ===== src/Execution/Admission.antt =====
-- What an authorized tool call has passed (crates/aeon_agent_runtime/src/execution.rs).
use genesis_runtime.Store.{issued}
use genesis_runtime.Common.{
  >>=-eq-ok, Bool, List, [], all, any, arith, authorization_invalid, capability_all_forbidden,
  capability_outside_authority, contains, false, get, lease_inactive, leb, list_eq,
  mission_inactive, nat_eq, not, ok, ok-inj, ok_or, ok_or-eq_ok, option_eq, refl, refuse_if,
  refuse_if-ok, semantic_context_changed, some, tool_manifest_mismatch, tool_outside_mission, true,
  ◌+◌, ◌<◌, ◌==◌, ◌||◌, ◌∷◌, ◌≡◌, ◌≤◌,
}
use genesis_runtime.Ids.{AgentId, ToolId, identifier_eq}
use genesis_runtime.Json.{Host}
use genesis_runtime.Digest.{Digest, canonical_digest, digest_eq}
use genesis_runtime.Mission.{Capability, DateTime, MissionEnvelope}
use genesis_runtime.Identity.{IdentityCodec}
use genesis_runtime.Authority.{
  AuthorityCodec, AuthorityLeaseCertificate, AuthoritySet, bound_tool_eq, lease_ref_eq,
}
use genesis_runtime.Authority.Sets.{authority_set, covers, is_capability_all}
use genesis_runtime.Kernel.Chain.{validate_active_chain}
use genesis_runtime.Kernel.Lifecycle.{lease_snapshot}
use genesis_runtime.Action.{ActionCodec}
use genesis_runtime.Agent.{ContextCodec, context_digest}
use genesis_runtime.Schema.{validate_instance}
use genesis_runtime.Registry.{ToolCodec, digest_of_tool, validate_input}
use genesis_runtime.Registry.Bindings.{resolve_with_capability_manifest}
use genesis_runtime.Execution.{
  Admitted, AuthorizationArtifact, AuthorizedExecution, GateRequest, admit, authorize,
  authorized_digest, certified, check_capabilities, check_mission, five_minutes,
  fresh_authorization, input_domain, is_runtime_binding, unsigned_action,
}
use genesis_runtime.Execution.Gate.{Certified, authorize-split}
use mathlib.Core.Path.{sym, ◌∙◌, ap}

module _ ⦃h : Host⦄ where
  check_mission-ok :
      (mission : MissionEnvelope) (tool_id : ToolId) (now : DateTime)
      → check_mission mission tool_id now ≡ ok tt
      → (mission.active ≡ true)
        × (now < mission.expires_at)
        × (contains mission.allowed_tools tool_id ≡ true)
  unfolding check_mission
  check_mission-ok mission tool_id now q =
      let idle = not mission.active || leb mission.expires_at now in
      let (_, a, b) = >>=-eq-ok (refuse_if idle mission_inactive) _ q in
      let c : idle ≡ false = refuse_if-ok idle mission_inactive a in
      let d = refuse_if-ok (not (contains mission.allowed_tools tool_id)) tool_outside_mission b in
      (ground (arith, c), ground (arith, c), ground (arith, d))

  is_runtime_binding-ok :
      (c : AuthorityLeaseCertificate) (agent_id : AgentId) (mission : MissionEnvelope)
      → not (is_runtime_binding c agent_id mission) ≡ false
      → (c.agent_id ≡ agent_id)
        × (c.mission_id ≡ mission.mission_id)
        × (c.organization_version ≡ mission.organization_version)
        × (c.policy_epoch ≡ mission.policy_epoch)
  unfolding is_runtime_binding
  is_runtime_binding-ok c agent_id mission q =
      (ground (arith, q), ground (arith, q), ground (arith, q), ground (arith, q))

  same_digest : (a b : Digest) → not (a == b) ≡ false → a ≡ b
  same_digest a b q = ground (arith, q)

  all_of_none {ℓ} :
      {A : Type ℓ} (p q : A → Bool) (xs : List A)
      → any (λ x. not (p x) || not (q x)) xs ≡ false
      → (all p xs ≡ true) × (all q xs ≡ true)
  unfolding any all
  all_of_none p q [] e = (refl, refl)
  all_of_none p q (x ∷ xs) e =
      let (ps, qs) = all_of_none p q xs (ground (arith, e)) in
      (ground (arith, e, ps), ground (arith, e, qs))

  check_capabilities-ok :
      (required : List Capability) (mission : MissionEnvelope) (granted : AuthoritySet)
      → check_capabilities required mission granted ≡ ok tt
      → (any is_capability_all required ≡ false)
        × (all (covers granted) required ≡ true)
        × ((mission_authority : AuthoritySet) × (authority_set mission.allowed_capabilities
              ≡ ok mission_authority)
            × (all (covers mission_authority) required ≡ true))
  unfolding check_capabilities
  check_capabilities-ok required mission granted q =
      let (_, a, b) =
        >>=-eq-ok (refuse_if (any is_capability_all required) capability_all_forbidden) _ q in
      let (mission_authority, allowed, c) =
        >>=-eq-ok (authority_set mission.allowed_capabilities) _ b in
      let outside =
        any (λ x. not (covers mission_authority x) || not (covers granted x)) required in
      let (by_mission, by_grant) =
        all_of_none (covers mission_authority) (covers granted) required
          (refuse_if-ok outside capability_outside_authority c) in
      (
        refuse_if-ok (any is_capability_all required) capability_all_forbidden a,
        by_grant,
        (mission_authority, allowed, by_mission),
      )

  module _ ⦃identity_codec : IdentityCodec⦄ ⦃authority_codec : AuthorityCodec⦄
      ⦃tool_codec : ToolCodec⦄ ⦃context_codec : ContextCodec⦄ ⦃action_codec : ActionCodec⦄ where
    -- What the guards have found.
    pub record IsAdmitted (r : GateRequest) (a : Admitted) : Type 0 where
      pub active : r.mission.active ≡ true
      pub current : r.now < r.mission.expires_at
      pub allowed : contains r.mission.allowed_tools r.proposal_tool_id ≡ true
      pub lease : get r.lease_id r.lease_kernel.leases ≡ some a.lease
      pub bound : authorized_digest a.lease.manifest r.proposal_tool_id ≡ ok a.manifest_digest
      pub tool : digest_of_tool a.tool ≡ ok a.manifest_digest
      pub resolved :
          resolve_with_capability_manifest r.registry r.proposal_tool_id a.lease.manifest
          ≡ ok (a.tool, a.live_manifest)
      pub chain :
          validate_active_chain r.chain_kernel r.lease_id
            (some a.lease.lease_record.generation)
            a.live_manifest
            r.now
          ≡ ok a.validated
      pub agent : a.lease.certificate.agent_id ≡ r.agent_id
      pub mission : a.lease.certificate.mission_id ≡ r.mission.mission_id
      pub organization : a.lease.certificate.organization_version ≡ r.mission.organization_version
      pub policy : a.lease.certificate.policy_epoch ≡ r.mission.policy_epoch
      pub context : context_digest r.current_context ≡ ok a.validated.semantic_context_digest
      pub carried : a.context_digest ≡ a.validated.semantic_context_digest
      pub input : validate_instance a.tool.input_schema r.arguments ≡ ok tt
      pub restricted : any is_capability_all a.tool.manifest.required_capabilities ≡ false
      pub mission_authority : AuthoritySet
      pub mission_grants : authority_set r.mission.allowed_capabilities ≡ ok mission_authority
      pub within_mission :
          all (covers mission_authority) a.tool.manifest.required_capabilities ≡ true
      pub granted :
          all (covers a.lease.certificate.granted_authority) a.tool.manifest.required_capabilities
          ≡ true

    admit-IsAdmitted : (r : GateRequest) (a : Admitted) → admit r ≡ ok a → IsAdmitted r a
    unfolding admit lease_snapshot validate_input
    admit-IsAdmitted r a q =
        let (_, mission, q1) = >>=-eq-ok (check_mission r.mission r.proposal_tool_id r.now) _ q in
        let (lease, found, q2) =
          >>=-eq-ok (ok_or (get r.lease_id r.lease_kernel.leases) lease_inactive) _ q1 in
        let ((tool, live), resolved, q3) =
          >>=-eq-ok (resolve_with_capability_manifest r.registry r.proposal_tool_id lease.manifest)
            _ q2 in
        let (current, digested, q4) = >>=-eq-ok (digest_of_tool tool) _ q3 in
        let (bound, authorized, q5) =
          >>=-eq-ok (authorized_digest lease.manifest r.proposal_tool_id) _ q4 in
        let differs = not (bound == current) in
        let (_, matched, q6) = >>=-eq-ok (refuse_if differs tool_manifest_mismatch) _ q5 in
        let (validated, chain, q7) =
          >>=-eq-ok
            (validate_active_chain r.chain_kernel r.lease_id (some lease.lease_record.generation)
              live r.now)
            _ q6 in
        let foreign = not (is_runtime_binding lease.certificate r.agent_id r.mission) in
        let (_, own, q8) = >>=-eq-ok (refuse_if foreign authorization_invalid) _ q7 in
        let (digest, context, q9) = >>=-eq-ok (context_digest r.current_context) _ q8 in
        let changed = not (digest == validated.semantic_context_digest) in
        let (_, kept, q10) = >>=-eq-ok (refuse_if changed semantic_context_changed) _ q9 in
        let (_, input, q11) = >>=-eq-ok (validate_input tool r.arguments) _ q10 in
        let (_, capabilities, q12) =
          >>=-eq-ok
            (check_capabilities tool.manifest.required_capabilities r.mission
              lease.certificate.granted_authority)
            _ q11 in
        let same = ok-inj q12 in
        let (usable, unexpired, allowed) =
          check_mission-ok r.mission r.proposal_tool_id r.now mission in
        let (restricted, granted, (mission_authority, mission_grants, within_mission)) =
          check_capabilities-ok tool.manifest.required_capabilities r.mission
            lease.certificate.granted_authority capabilities in
        let agreed =
          same_digest bound current (refuse_if-ok differs tool_manifest_mismatch matched) in
        let (agent, of_mission, organization, policy) =
          is_runtime_binding-ok lease.certificate r.agent_id r.mission
            (refuse_if-ok foreign authorization_invalid own) in
        let carried =
          same_digest digest validated.semantic_context_digest
            (refuse_if-ok changed semantic_context_changed kept) in
        rw (sym same) (record {
          active = usable;
          current = unexpired;
          allowed = allowed;
          lease = ok_or-eq_ok (get r.lease_id r.lease_kernel.leases) lease_inactive found;
          bound = authorized ∙ ap ok agreed;
          tool = digested;
          resolved = resolved;
          chain = chain;
          agent = agent;
          mission = of_mission;
          organization = organization;
          policy = policy;
          context = context ∙ ap ok carried;
          carried = carried;
          input = input;
          restricted = restricted;
          mission_authority = mission_authority;
          mission_grants = mission_grants;
          within_mission = within_mission;
          granted = granted;
        })

    -- What the certificate and the record bind.
    pub record IsBound (r : GateRequest) (a : Admitted)
        (x : AuthorizedExecution × AuthorizationArtifact) : Type 0 where
      pub tool : x.0.certificate.tool_id ≡ r.proposal_tool_id
      pub tool_manifest : x.0.certificate.tool_manifest_digest ≡ a.manifest_digest
      pub input :
          canonical_digest tool_codec.value input_domain r.arguments
          ≡ ok x.0.certificate.concrete_input_digest
      pub arguments : x.0.arguments ≡ r.arguments
      pub required : x.0.required_capabilities ≡ a.tool.manifest.required_capabilities
      pub live : x.0.capability_manifest ≡ a.live_manifest
      pub observed : x.0.observed_generations ≡ a.validated.observed_generations
      pub lease : x.0.certificate.authority_lease_id ≡ r.lease_id
      pub agent : x.0.certificate.agent_identity_digest ≡ a.validated.agent_identity_digest
      pub context : x.0.certificate.semantic_context_digest ≡ a.context_digest
      pub uses : x.0.certificate.granted_uses ≡ 1
      pub soon : x.0.certificate.expires_at ≤ r.now + five_minutes
      pub within : x.0.certificate.expires_at ≤ a.lease.certificate.expires_at
      pub names : x.0.certificate.authorization_record_id ≡ x.1.authorization.record_id
      pub fresh : x.1.authorization.state ≡ issued
      pub budget : x.1.authorization.remaining_budget.actions ≡ 1

    Certified-IsBound :
        (r : GateRequest) (a : Admitted) (x : AuthorizedExecution × AuthorizationArtifact)
        → Certified r a x
        → IsBound r a x
    unfolding certified unsigned_action fresh_authorization
    Certified-IsBound r a x c = rw c.same (record {
      tool = refl;
      tool_manifest = refl;
      input = c.input;
      arguments = refl;
      required = refl;
      live = refl;
      observed = refl;
      lease = refl;
      agent = refl;
      context = refl;
      uses = refl;
      soon = omega arith;
      within = omega arith;
      names = refl;
      fresh = refl;
      budget = refl;
    })

    -- A tool call that is authorized has passed every guard of the gate: on the mission and its
    -- tools, the lease, the tool and its manifest, the chain, the agent, the mission, organization
    -- and policy of the lease, the context, the input, and the required capabilities, which both
    -- the mission and the lease cover. The certificate for it names the lease, the agent, the
    -- context, the tool, its bound manifest and the digest of its input, allows one use, and
    -- expires at most five minutes later and at most with the lease; the execution carries the
    -- arguments, the required capabilities, the live manifest and the observed generations; the
    -- record beside it is issued, with a budget of one.
    pub authorize-IsAdmitted :
        (r : GateRequest) (x : AuthorizedExecution × AuthorizationArtifact)
        → authorize r ≡ ok x
        → (a : Admitted) × IsAdmitted r a × IsBound r a x
    authorize-IsAdmitted r x q =
        let (a, admitted, c) = authorize-split r x q in
        (a, admit-IsAdmitted r a admitted, Certified-IsBound r a x c)
