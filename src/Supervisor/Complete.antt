-- ===== src/Supervisor/Complete.antt =====
-- After any runs the evidence is complete (crates/aeon_agent_runtime/src/supervisor.rs and
-- store.rs).
use genesis_runtime.Execution.Gate.{authorize-named}
use genesis_runtime.Common.{
  List, Result, Result-cases, [], arith, err, inl, inr, list_eq, nat_eq, next_u64, next_u64_lt, ok,
  option_eq, refl, ℕ, ◌++◌, ◌+◌, ◌<◌, ◌^◌, ◌∷◌, ◌≡◌,
}
use genesis_runtime.Ids.{identifier_eq}
use genesis_runtime.Json.{Host}
use genesis_runtime.Digest.{digest_eq}
use genesis_runtime.Identity.{IdentityCodec}
use genesis_runtime.Authority.{AuthorityCodec, bound_tool_eq, lease_ref_eq}
use genesis_runtime.Action.{ActionCodec}
use genesis_runtime.Agent.{ContextCodec}
use genesis_runtime.Context.{InstructionCodec}
use genesis_runtime.Protocol.{ProtocolCodec, ToolCallProposal, final_message, parse, tool_call}
use genesis_runtime.Store.{
  MissionEventKind, MissionStore, action_authorized, action_rejected, append_event,
  append_for_attempt, authorization_issued, begin_attempt, execution_rejected_before_nexus,
  insert_authorization_for_attempt, issued, plan_accepted, protocol_accepted, protocol_rejected,
}
use genesis_runtime.Store.Evidence.{is_complete_attempt}
use genesis_runtime.Store.Complete.{Attempted}
use genesis_runtime.Nexus.{Nexus}
use genesis_runtime.Registry.{ToolCodec}
use genesis_runtime.Execution.{AuthorizationArtifact, AuthorizedExecution, authorize}
use genesis_runtime.Execution.Port.{execute, log_event}
use genesis_runtime.Supervisor.{ModelClient, ModelRequest, Runtime, reserve_budget}
use genesis_runtime.Supervisor.Run.{
  Observation, RunView, after_insertion, gate_request, log, port_view, run_attempt, run_authorized,
  run_proposal, run_response,
}
use genesis_runtime.Supervisor.Trails.{
  Inserted, Quiet, Trail, Trail-begin, Trail-insert, Trail-log, insert_authorization-Inserted,
}
use genesis_runtime.Supervisor.Evidence.{
  authorized_kinds, execute-Executed, fail-Attempted, finish_execution-Attempted,
  finish_final-Attempted,
}

module _ ⦃h : Host⦄ ⦃identity_codec : IdentityCodec⦄ ⦃authority_codec : AuthorityCodec⦄
    ⦃tool_codec : ToolCodec⦄ ⦃context_codec : ContextCodec⦄ ⦃action_codec : ActionCodec⦄
    ⦃instruction_codec : InstructionCodec⦄ ⦃protocol_codec : ProtocolCodec⦄ ⦃nexus : Nexus⦄ where
  module _ (view : RunView) (id : ℕ) (s : MissionStore) (next : id ≡ s.next_attempt_id + 1) where
    -- The parts of an attempt after the model has answered, the last one first.
    after_insertion-Attempted :
        (x : AuthorizedExecution × AuthorizationArtifact) (rt : Runtime)
        (p : Result (Unit {0}) × MissionStore)
        → Trail id s authorized_kinds p.1
        → Inserted id s x.1.authorization p
        → x.0.certificate.authorization_record_id ≡ x.1.authorization.record_id
        → x.1.authorization.state ≡ issued
        → Attempted s (after_insertion view id x rt p).1.store
    unfolding after_insertion is_complete_attempt port_view
    after_insertion-Attempted (a, art) rt (err e, t) trail quiet named state =
        fail-Attempted view id s next authorized_kinds execution_rejected_before_nexus e
          (record rt { store = t }) trail refl (inl quiet)
    after_insertion-Attempted (a, art) rt (ok _, t) trail holds named state =
        finish_execution-Attempted view id s next a art.authorization t
          (record rt { action_certificates = rt.action_certificates ++ art.certificate ∷ [] })
          (execute (port_view rt view) a id t) trail holds state named
          (execute-Executed (port_view rt view) a id t)

    run_authorized-Attempted :
        (x : AuthorizedExecution × AuthorizationArtifact) (rt : Runtime)
        → Trail id s (protocol_accepted ∷ plan_accepted ∷ []) rt.store
        → Quiet s rt.store
        → x.0.certificate.authorization_record_id ≡ x.1.authorization.record_id
        → x.1.authorization.state ≡ issued
        → Attempted s (run_authorized view id x rt).1.store
    unfolding run_authorized log log_event append_for_attempt append_event
    run_authorized-Attempted (a, art) rt trail quiet named state =
        let planned = protocol_accepted ∷ plan_accepted ∷ [] in
        let first = Trail-log id s planned rt.store view.event_time action_authorized trail in
        let marked = log view id action_authorized rt in
        let begun = log view id authorization_issued marked in
        let second =
          Trail-log id s (planned ++ action_authorized ∷ []) marked.store view.event_time
            authorization_issued first in
        let r = art.authorization in
        after_insertion-Attempted (a, art) begun (insert_authorization_for_attempt begun.store id r)
          (Trail-insert id s authorized_kinds begun.store r second)
          (insert_authorization-Inserted id s begun.store r quiet (ground (arith, next))) named
          state

    run_proposal-Attempted :
        (proposal : ToolCallProposal) (rt : Runtime)
        → Trail id s (protocol_accepted ∷ []) rt.store
        → Quiet s rt.store
        → Attempted s (run_proposal view id proposal rt).1.store
    unfolding run_proposal is_complete_attempt log log_event append_for_attempt append_event
    run_proposal-Attempted proposal rt trail quiet =
        let planned = log view id plan_accepted rt in
        let two = protocol_accepted ∷ plan_accepted ∷ [] in
        let more =
          Trail-log id s (protocol_accepted ∷ []) rt.store view.event_time plan_accepted trail in
        elim (Result-cases (authorize (gate_request rt view proposal))) [
          | inl (e, q) ↦
              rw (q, run_proposal)
                (fail-Attempted view id s next two action_rejected e planned more refl (inl quiet))
          | inr (x, q) ↦
              let (named, state) = authorize-named (gate_request rt view proposal) x q in
              elim (Result-cases (reserve_budget rt.actions_consumed rt.mission.max_actions)) [
                | inl (e, b) ↦
                    rw (q, run_proposal, b)
                      (fail-Attempted view id s next two action_rejected e planned more refl
                        (inl quiet))
                | inr (actions, b) ↦
                    rw (q, run_proposal, b)
                      (run_authorized-Attempted x (record planned { actions_consumed = actions })
                        more quiet named state)
              ]
        ]

    run_response-Attempted :
        (seen : Observation) (raw : List ℕ) (rt : Runtime)
        → Trail id s [] rt.store
        → Quiet s rt.store
        → Attempted s (run_response view seen id raw rt).1.store
    unfolding run_response is_complete_attempt log log_event append_for_attempt append_event
    run_response-Attempted seen raw rt trail quiet =
        let accepted = log view id protocol_accepted rt in
        let more = Trail-log id s [] rt.store view.event_time protocol_accepted trail in
        elim (Result-cases (parse rt.protocol_gate raw)) [
          | inl (e, q) ↦
              rw (q, run_response)
                (fail-Attempted view id s next [] protocol_rejected e rt trail refl (inl quiet))
          | inr (final_message result, q) ↦
              rw (q, run_response)
                (finish_final-Attempted view id s next seen result accepted more quiet)
          | inr (tool_call proposal, q) ↦
              rw (q, run_response) (run_proposal-Attempted proposal accepted more quiet)
        ]

  -- The attempt of a run, from the store before it.
  pub run_attempt-Attempted :
      (model : ModelClient) (view : RunView) (seen : Observation) (instruction : List ℕ)
      (rt : Runtime)
      → rt.store.next_attempt_id + 1 < 2 ^ 64
      → Attempted rt.store (run_attempt model view seen instruction rt).1.store
  unfolding run_attempt begin_attempt is_complete_attempt
  run_attempt-Attempted model view seen instruction rt small =
      let s = rt.store in
      let id = next_u64 s.next_attempt_id in
      let begun : Runtime = record rt { store = (begin_attempt s).1 } in
      let next = next_u64_lt s.next_attempt_id small in
      let request : ModelRequest = record {
        agent_id = rt.agent_id;
        spec = rt.spec;
        semantic_context = rt.semantic_context;
        resolved_system_instruction = instruction;
      } in
      elim (Result-cases (model.generate request)) [
        | inl (e, q) ↦
            rw (q, run_attempt)
              (fail-Attempted view id s next [] MissionEventKind.model_failed e begun
                (Trail-begin s) refl (inl (refl, refl)))
        | inr (raw, q) ↦
            rw (q, run_attempt)
              (run_response-Attempted view id s next seen raw begun (Trail-begin s) (refl, refl))
      ]
