-- ===== src/Supervisor/Revocation.antt =====
-- What a revocation does to the runs of a runtime
-- (crates/aeon_agent_runtime/src/supervisor.rs and authority_kernel.rs).
use genesis_runtime.Common.{
  >>=-eq-ok, ErrorCode, Result-cases, String, authorization_invalid, err, get, inl, inr,
  lease_inactive, list_eq, mission_inactive, nat_eq, not, ok, ok-inj, ok_or, ok_or-eq_ok, option_eq,
  refl, refuse_if, some, true, ℕ, ◌≡◌,
}
use genesis_runtime.Ids.{LeaseId, identifier_eq}
use genesis_runtime.Json.{Host}
use genesis_runtime.Digest.{digest_eq}
use genesis_runtime.Mission.{DateTime, is_usable_at}
use genesis_runtime.Identity.{IdentityCodec}
use genesis_runtime.Authority.{AuthorityCodec, bound_tool_eq, is_live, lease_ref_eq}
use genesis_runtime.Kernel.{AuthorityState, LeaseEntry}
use genesis_runtime.Kernel.Chain.{commit_active_chain, validate_active_chain, validate_chain}
use genesis_runtime.Kernel.Lifecycle.{lease_snapshot, revoke}
use genesis_runtime.Kernel.Descendants.Correct.{Descends}
use genesis_runtime.Kernel.Runs.{Runs, WellFormed}
use genesis_runtime.Kernel.Runs.Safety.{revoke-refuses_descendants}
use genesis_runtime.Action.{ActionCodec}
use genesis_runtime.Agent.{ContextCodec, validate_context_continuation}
use genesis_runtime.Context.{InstructionCodec}
use genesis_runtime.Protocol.{FinalResult, ProtocolCodec}
use genesis_runtime.Store.{final_rejected}
use genesis_runtime.Nexus.{Nexus}
use genesis_runtime.Registry.{ToolCodec}
use genesis_runtime.Execution.{is_runtime_binding}
use genesis_runtime.Supervisor.{ModelClient, Runtime}
use genesis_runtime.Supervisor.Run.{
  Observation, RunView, accept_model_final, fail, final_commit, finish_final, log,
  observe_model_authority, observed_chain, observed_lease, observed_root, run_once,
}
use mathlib.Core.Path.{sym}

module _ ⦃h : Host⦄ ⦃identity_codec : IdentityCodec⦄ ⦃authority_codec : AuthorityCodec⦄
    ⦃tool_codec : ToolCodec⦄ ⦃context_codec : ContextCodec⦄ ⦃action_codec : ActionCodec⦄
    ⦃instruction_codec : InstructionCodec⦄ ⦃protocol_codec : ProtocolCodec⦄ where
  -- What an observation rests on.
  record Observed (rt : Runtime) (view : RunView) (seen : Observation) : Type 0 where
    found :
        get (view.kernel observed_root).root_lease_id (view.kernel observed_lease).leases
        ≡ some seen.lease
    chain :
        validate_active_chain
          (view.kernel observed_chain)
          seen.lease.certificate.lease_id
          (some seen.lease.lease_record.generation)
          seen.lease.manifest
          (view.clock observed_lease)
        ≡ ok seen.validated

  observe_model_authority-Observed :
      (rt : Runtime) (view : RunView) (seen : Observation)
      → observe_model_authority rt view ≡ ok seen
      → Observed rt view seen
  unfolding observe_model_authority lease_snapshot
  observe_model_authority-Observed rt view seen q =
      let k = view.kernel observed_lease in
      let (_, _, q1) =
        >>=-eq-ok
          (refuse_if (not (is_usable_at rt.mission (view.clock observed_lease))) mission_inactive) _
          q in
      let (lease, found, q2) =
        >>=-eq-ok (ok_or (get (view.kernel observed_root).root_lease_id k.leases) lease_inactive) _
          q1 in
      let (_, _, q3) =
        >>=-eq-ok
          (refuse_if (not (is_runtime_binding lease.certificate rt.agent_id rt.mission))
            authorization_invalid)
          _ q2 in
      let (validated, chain, q4) =
        >>=-eq-ok
          (validate_active_chain (view.kernel observed_chain) lease.certificate.lease_id
            (some lease.lease_record.generation) lease.manifest (view.clock observed_lease))
          _ q3 in
      let (_, _, q5) =
        >>=-eq-ok
          (validate_context_continuation validated.semantic_context_digest rt.semantic_context) _
          q4 in
      rw (sym (ok-inj q5)) (record {
        found =
            ok_or-eq_ok (get (view.kernel observed_root).root_lease_id k.leases) lease_inactive
              found;
        chain = chain;
      })

  module _ ⦃nexus : Nexus⦄ where
    -- After a revocation of the lease that a run observes, or of one that it descends from, the
    -- run stops with an error before it calls the model, and leaves the runtime as it was: no
    -- step is spent and nothing is recorded.
    pub revoke-refuses_runs :
        (st : AuthorityState) (id : LeaseId) (e : LeaseEntry) (reason : String) (now : DateTime)
        (model : ModelClient) (view : RunView) (rt : Runtime)
        → WellFormed st
        → get id st.leases ≡ some e
        → is_live e.lease_record.state ≡ true
        → Runs (revoke st id e.lease_record.generation reason now).1 (view.kernel observed_chain)
        → WellFormed (view.kernel observed_lease)
        → Descends st.leases id (view.kernel observed_root).root_lease_id
        → (c : ErrorCode) × (run_once model view rt ≡ (err c, rt))
    unfolding run_once
    revoke-refuses_runs st id e reason now model view rt w found live runs w' d =
        elim (Result-cases (observe_model_authority rt view)) [
          | inl (c, q) ↦ (c, rw (q, run_once) refl)
          | inr (seen, q) ↦
              let o = observe_model_authority-Observed rt view seen q in
              let name = w'.named _ seen.lease o.found in
              absurd (
                revoke-refuses_descendants st id e reason now (view.kernel observed_chain)
                  seen.lease.certificate.lease_id (some seen.lease.lease_record.generation)
                  seen.lease.manifest (view.clock observed_lease) seen.validated w found live runs
                  (rw name.0 d) o.chain)
        ]

    -- After a revocation while the model was generating, of the lease that the run has observed
    -- or of one that it descends from, the final message of the model is refused, with the event
    -- that says so.
    revoke-refuses_final :
        (st : AuthorityState) (id : LeaseId) (e : LeaseEntry) (reason : String) (now : DateTime)
        (view : RunView) (seen : Observation) (attempt_id : ℕ) (result : FinalResult) (rt : Runtime)
        → WellFormed st
        → get id st.leases ≡ some e
        → is_live e.lease_record.state ≡ true
        → Runs (revoke st id e.lease_record.generation reason now).1 (view.kernel final_commit)
        → Descends st.leases id seen.lease.certificate.lease_id
        → (c : ErrorCode) × (finish_final view seen attempt_id result rt
            ≡ (err c, log view attempt_id (final_rejected c) rt))
    unfolding finish_final fail accept_model_final commit_active_chain validate_active_chain
    revoke-refuses_final st id e reason now view seen attempt_id result rt w found live runs d =
        elim (Result-cases (accept_model_final rt view seen)) [
          | inl (c, q) ↦ (c, rw (q, finish_final) refl)
          | inr (t, q) ↦
              let usable = not (is_usable_at rt.mission (view.clock final_commit)) in
              let (_, _, q1) = >>=-eq-ok (refuse_if usable mission_inactive) _ q in
              let (validated, chain, _) =
                >>=-eq-ok
                  (validate_chain (view.kernel final_commit) seen.lease.certificate.lease_id
                    (some seen.lease.lease_record.generation) seen.lease.manifest
                    (view.clock final_commit))
                  _ q1 in
              absurd (
                revoke-refuses_descendants st id e reason now (view.kernel final_commit)
                  seen.lease.certificate.lease_id (some seen.lease.lease_record.generation)
                  seen.lease.manifest (view.clock final_commit) validated w found live runs d chain)
        ]
