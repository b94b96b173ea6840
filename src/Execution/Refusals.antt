-- ===== src/Execution/Refusals.antt =====
-- When an execution is refused before Nexus
-- (crates/aeon_agent_runtime/src/execution.rs, authority_kernel.rs and store.rs).
use genesis_runtime.Execution.Tokens.{issue_tokens}
use genesis_runtime.Store.Consumption.{mark_consumed-Consumed}
use genesis_runtime.Common.{
  >>=-eq-ok, Bool, ErrorCode, List, Result-cases, String, false, get, inl, inr, list_eq, nat_eq, ok,
  ok-inj, option_eq, refl, some, true, ℕ, ◌≡◌, ◌⊎◌,
}
use genesis_runtime.Ids.{LeaseId, identifier_eq}
use genesis_runtime.Json.{Host}
use genesis_runtime.Digest.{digest_eq}
use genesis_runtime.Mission.{DateTime}
use genesis_runtime.Identity.{IdentityCodec}
use genesis_runtime.Authority.{
  AuthorityCodec, CapabilityManifest, bound_tool_eq, is_live, lease_ref_eq,
}
use genesis_runtime.Kernel.{AuthorityState, LeaseEntry, ValidatedAuthority}
use genesis_runtime.Kernel.Chain.{commit_active_chain, validate_active_chain, validate_chain}
use genesis_runtime.Kernel.Lifecycle.{revoke}
use genesis_runtime.Kernel.Descendants.Correct.{Descends}
use genesis_runtime.Kernel.Runs.{Runs, WellFormed}
use genesis_runtime.Kernel.Runs.Safety.{revoke-refuses_descendants}
use genesis_runtime.Action.{ActionCodec}
use genesis_runtime.Agent.{ContextCodec}
use genesis_runtime.Store.{
  AuthorizationRecord, MissionStore, append_event, append_for_attempt, available_record,
  consume_authorization_with, mark_consumed,
}
use genesis_runtime.Store.Records.{available_record-consumed}
use genesis_runtime.Store.History.{Keeps-Runs, StoreRuns}
use genesis_runtime.Nexus.{Nexus}
use genesis_runtime.Registry.{RegisteredTool, ToolCodec}
use genesis_runtime.Execution.{AuthorizedExecution}
use genesis_runtime.Execution.Port.{
  PortView, Positioned, after_consumption, before_nexus, check_commit, consume_and_run, execute,
  finished, log_event, prepare_execution, run_tool, started, stopped, validate_execution,
}
use mathlib.Core.Path.{◌∙◌, ap}

module _ ⦃h : Host⦄ ⦃identity_codec : IdentityCodec⦄ ⦃authority_codec : AuthorityCodec⦄
    ⦃tool_codec : ToolCodec⦄ ⦃context_codec : ContextCodec⦄ ⦃action_codec : ActionCodec⦄
    ⦃nexus : Nexus⦄ where
  -- What `validate_execution` found where it passes.
  pub record Validated (view : PortView) (a : AuthorizedExecution) (tool : RegisteredTool)
      (validity : ℕ) : Type 0 where
    pub live_manifest : CapabilityManifest
    pub generation : ℕ
    pub prepared : prepare_execution view a ≡ ok (tool, live_manifest, generation)
    pub validated : ValidatedAuthority
    pub chain :
        validate_active_chain view.kernel a.certificate.authority_lease_id
          (some generation)
          live_manifest
          view.commit_now
        ≡ ok validated
    pub commits : check_commit view a live_manifest validated ≡ ok validity

  pub validate_execution-Validated :
      (view : PortView) (a : AuthorizedExecution) (tool : RegisteredTool) (validity : ℕ)
      → validate_execution view a ≡ ok (tool, validity)
      → Validated view a tool validity
  unfolding validate_execution commit_active_chain validate_active_chain
  validate_execution-Validated view a tool validity q =
      let ((found, manifest, generation), ready, q1) = >>=-eq-ok (prepare_execution view a) _ q in
      let (valid, committed, q2) =
        >>=-eq-ok
          (commit_active_chain view.kernel a.certificate.authority_lease_id (some generation)
            manifest view.commit_now (check_commit view a manifest))
          _ q1 in
      let (validated, chain, commits) =
        >>=-eq-ok
          (validate_chain view.kernel a.certificate.authority_lease_id (some generation) manifest
            view.commit_now)
          _ committed in
      let same = ok-inj q2 in
      record {
        live_manifest = manifest;
        generation = generation;
        prepared = ready ∙ ap (λ (x : RegisteredTool × ℕ). ok (x.0, manifest, generation)) same;
        validated = validated;
        chain = chain;
        commits = commits ∙ ap (λ (x : RegisteredTool × ℕ). ok x.1) same;
      }

  -- Once `revoke` has returned for a lease, no execution under it, or under a lease that descends
  -- from it, reaches Nexus, whatever calls of the kernel came in between and whatever was
  -- authorized before: it is refused with the store as it was, so that nothing is consumed.
  pub revoke-refuses_execution :
      (st : AuthorityState) (id : LeaseId) (e : LeaseEntry) (reason : String) (now : DateTime)
      (view : PortView) (a : AuthorizedExecution) (attempt_id : ℕ) (s : MissionStore)
      → WellFormed st
      → get id st.leases ≡ some e
      → is_live e.lease_record.state ≡ true
      → Runs (revoke st id e.lease_record.generation reason now).1 view.kernel
      → Descends st.leases id a.certificate.authority_lease_id
      → (c : ErrorCode) × (execute view a attempt_id s ≡ (stopped c before_nexus, s))
  unfolding execute validate_active_chain
  revoke-refuses_execution st id e reason now view a attempt_id s w found live runs d =
      elim (Result-cases (validate_execution view a)) [
        | inl (c, q) ↦ (c, rw (q, execute) refl)
        | inr ((tool, validity), q) ↦
            let v = validate_execution-Validated view a tool validity q in
            absurd (
              revoke-refuses_descendants st id e reason now view.kernel
                a.certificate.authority_lease_id (some v.generation) v.live_manifest view.commit_now
                v.validated w found live runs d v.chain)
      ]

  -- An execution that reaches Nexus.
  pub record Entered (view : PortView) (a : AuthorizedExecution) (attempt_id : ℕ) (s : MissionStore)
      : Type 0 where
    pub tool : RegisteredTool
    pub validity : ℕ
    pub validated : Validated view a tool validity
    pub minted : nexus.Hypervisor × List nexus.Token
    pub tokens : issue_tokens a.required_capabilities validity ≡ ok minted
    pub before : AuthorizationRecord
    pub available :
        available_record s a.certificate.authorization_record_id
          a.certificate.authorization_generation
        ≡ ok before
    pub runs :
        execute view a attempt_id s
        ≡ run_tool view a attempt_id tool minted
            (mark_consumed s a.certificate.authorization_record_id)

  -- Every execution is refused before Nexus and leaves the store as it was, or reaches Nexus.
  pub execute-cases :
      (view : PortView) (a : AuthorizedExecution) (attempt_id : ℕ) (s : MissionStore)
      → ((c : ErrorCode) × (execute view a attempt_id s ≡ (stopped c before_nexus, s)))
        ⊎ Entered view a attempt_id s
  unfolding execute consume_and_run after_consumption consume_authorization_with
  execute-cases view a attempt_id s = elim (Result-cases (validate_execution view a)) [
    | inl (c, q) ↦ inl (c, rw (q, execute) refl)
    | inr ((tool, validity), q) ↦
        elim (Result-cases (
          available_record s a.certificate.authorization_record_id
            a.certificate.authorization_generation)) [
              | inl (c, found) ↦ inl (c, rw (q, execute, found) refl)
              | inr (r, found) ↦
                  elim (Result-cases (issue_tokens a.required_capabilities validity)) [
                    | inl (c, tokens) ↦ inl (c, rw (q, execute, found, tokens) refl)
                    | inr (minted, tokens) ↦ inr (record {
                      tool = tool;
                      validity = validity;
                      validated = validate_execution-Validated view a tool validity q;
                      minted = minted;
                      tokens = tokens;
                      before = r;
                      available = found;
                      runs = rw (q, execute, found, tokens) refl;
                    })
                  ]
            ]
  ]

  -- Whether an execution was refused before Nexus.
  abbrev pub is_refused : Positioned nexus.Output → Bool
  is_refused (stopped _ before_nexus) = true
  is_refused (stopped _ started) = false
  is_refused (finished _) = false

  pub execute-Entered :
      (view : PortView) (a : AuthorizedExecution) (attempt_id : ℕ) (s : MissionStore)
      → is_refused (execute view a attempt_id s).0 ≡ false
      → Entered view a attempt_id s
  execute-Entered view a attempt_id s reached = elim (execute-cases view a attempt_id s) [
    | inl (c, q) ↦ absurd (cc (rw q at reached))
    | inr entered ↦ entered
  ]

  -- An authorization reaches Nexus at most once: after an execution that did, successful or not,
  -- and any further calls of the store, every execution of an authorization with the same record
  -- is refused before Nexus and leaves the store as it is.
  pub execute-once :
      (view : PortView) (a : AuthorizedExecution) (attempt_id : ℕ) (s t : MissionStore)
      (view' : PortView) (a' : AuthorizedExecution) (attempt_id' : ℕ)
      → is_refused (execute view a attempt_id s).0 ≡ false
      → StoreRuns (execute view a attempt_id s).1 t
      → a'.certificate.authorization_record_id ≡ a.certificate.authorization_record_id
      → (c : ErrorCode) × (execute view' a' attempt_id' t ≡ (stopped c before_nexus, t))
  unfolding run_tool log_event append_for_attempt append_event
  execute-once view a attempt_id s t view' a' attempt_id' reached runs same =
      let e = execute-Entered view a attempt_id s reached in
      let id = a.certificate.authorization_record_id in
      let spent =
        (mark_consumed-Consumed s id a.certificate.authorization_generation e.before
          e.available).0 in
      let left : (execute view a attempt_id s).1.authorization_records
          ≡ (mark_consumed s id).authorization_records =
        rw e.runs refl in
      let kept = (Keeps-Runs runs).spent id spent.after (rw left spent.stored) spent.spent in
      elim (execute-cases view' a' attempt_id' t) [
        | inl refusal ↦ refusal
        | inr again ↦
            let refused =
              available_record-consumed t id a'.certificate.authorization_generation spent.after
                kept spent.spent in
            absurd (cc (refused, rw same at again.available))
      ]
