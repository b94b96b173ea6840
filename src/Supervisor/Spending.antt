-- ===== src/Supervisor/Spending.antt =====
-- What the actions of a runtime are spent on: the certificates, the authorizations and the started
-- executions (crates/aeon_agent_runtime/src/supervisor.rs, execution.rs and store.rs).
use genesis_runtime.Common.{
  Bool, ErrorCode, List, Result, Result-cases, [], arith, err, false, inl, inr, length,
  length-append, list_eq, nat_eq, next_u64, ok, option_eq, refl, true, ℕ, ◌++◌, ◌+◌, ◌∷◌, ◌≡◌, ◌≤◌,
}
use genesis_runtime.Ids.{identifier_eq}
use genesis_runtime.Json.{Host}
use genesis_runtime.Digest.{digest_eq}
use genesis_runtime.Identity.{IdentityCodec}
use genesis_runtime.Authority.{AuthorityCodec, bound_tool_eq, lease_ref_eq}
use genesis_runtime.Action.{ActionCodec}
use genesis_runtime.Agent.{ContextCodec}
use genesis_runtime.Context.{InstructionCodec}
use genesis_runtime.Protocol.{ProtocolCodec, ToolCallProposal, final_message, parse, tool_call}
use genesis_runtime.Store.{
  MissionEventKind, MissionStore, action_authorized, action_rejected, authorization_issued,
  begin_attempt, execution_rejected_before_nexus, final_produced, final_rejected,
  insert_authorization_for_attempt, plan_accepted, protocol_accepted, protocol_rejected,
}
use genesis_runtime.Nexus.{Nexus}
use genesis_runtime.Registry.{ToolCodec}
use genesis_runtime.Execution.{AuthorizationArtifact, AuthorizedExecution, authorize}
use genesis_runtime.Execution.Port.{
  ExecutionPosition, Positioned, before_nexus, execute, finished, started, stopped,
}
use genesis_runtime.Supervisor.{ModelClient, ModelRequest, Runtime, reserve_budget}
use genesis_runtime.Execution.Growth.{
  Grows, count_started, execute-Grows, insert-Grows, is_start, log_event-quiet,
}
use genesis_runtime.Supervisor.Budgets.{reserve_budget-ok}
use genesis_runtime.Supervisor.Run.{
  Observation, RunView, accept_model_final, after_insertion, execution_event, fail,
  finish_execution, finish_final, gate_request, log, output_event, port_view, run_attempt,
  run_authorized, run_proposal, run_response,
}

module _ ⦃h : Host⦄ ⦃identity_codec : IdentityCodec⦄ ⦃authority_codec : AuthorityCodec⦄
    ⦃tool_codec : ToolCodec⦄ ⦃context_codec : ContextCodec⦄ ⦃action_codec : ActionCodec⦄
    ⦃nexus : Nexus⦄ where
  module _ ⦃instruction_codec : InstructionCodec⦄ ⦃protocol_codec : ProtocolCodec⦄ where
    -- Certificates, records and started executions grow at most as the actions do.
    pub record IsCharged (rt rt' : Runtime) : Type 0 where
      pub certificates :
          length rt'.action_certificates + rt.actions_consumed
          ≤ length rt.action_certificates + rt'.actions_consumed
      pub records :
          length rt'.store.authorization_records + rt.actions_consumed
          ≤ length rt.store.authorization_records + rt'.actions_consumed
      pub starts :
          count_started rt'.store.events + rt.actions_consumed
          ≤ count_started rt.store.events + rt'.actions_consumed

    IsCharged-trans : {a b c : Runtime} → IsCharged a b → IsCharged b c → IsCharged a c
    IsCharged-trans p q = record {
      certificates = omega (arith, p.certificates, q.certificates);
      records = omega (arith, p.records, q.records);
      starts = omega (arith, p.starts, q.starts);
    }

    execution_event-quiet :
        (position : ExecutionPosition) (e : ErrorCode)
        → is_start (execution_event position e) ≡ false
    execution_event-quiet before_nexus e = refl
    execution_event-quiet started e = refl

    output_event-quiet : (success : Bool) → is_start (output_event success) ≡ false
    output_event-quiet true = refl
    output_event-quiet false = refl

    module _ (view : RunView) (id : ℕ) where
      log-IsCharged :
          (kind : MissionEventKind) (rt : Runtime)
          → is_start kind ≡ false
          → IsCharged rt (log view id kind rt)
      unfolding log
      log-IsCharged kind rt other =
          let g = log_event-quiet rt.store view.event_time id kind other in
          record {
            certificates = omega arith;
            records = omega (arith, g.records);
            starts = omega (arith, g.starts);
          }

      finish_execution-IsCharged :
          (x : Positioned nexus.Output) (rt : Runtime)
          → IsCharged rt (finish_execution view id x rt).1
      unfolding finish_execution fail
      finish_execution-IsCharged (stopped e position) rt =
          log-IsCharged (execution_event position e) rt (execution_event-quiet position e)
      finish_execution-IsCharged (finished output) rt =
          log-IsCharged (output_event (nexus.success output)) rt
            (output_event-quiet (nexus.success output))

      finish_execution-actions :
          (x : Positioned nexus.Output) (rt : Runtime)
          → (finish_execution view id x rt).1.actions_consumed ≡ rt.actions_consumed
      unfolding finish_execution fail log
      finish_execution-actions (stopped e position) rt = refl
      finish_execution-actions (finished output) rt = refl

      -- From the reserved action on, a run adds one certificate, one record and one started
      -- execution at most, and reserves no further action.
      record Spends (rt rt' : Runtime) : Type 0 where
        certificates : length rt'.action_certificates ≤ length rt.action_certificates + 1
        records : length rt'.store.authorization_records ≤ length rt.store.authorization_records + 1
        starts : count_started rt'.store.events ≤ count_started rt.store.events + 1
        actions : rt'.actions_consumed ≡ rt.actions_consumed

      after_insertion-Spends :
          (x : AuthorizedExecution × AuthorizationArtifact) (rt : Runtime)
          (p : Result (Unit {0}) × MissionStore)
          → Grows 1 0 rt.store p.1
          → Spends rt (after_insertion view id x rt p).1
      unfolding after_insertion fail log
      after_insertion-Spends (a, art) rt (err e, t) g =
          let l = log_event-quiet t view.event_time id (execution_rejected_before_nexus e) refl in
          record {
            certificates = omega arith;
            records = omega (arith, g.records, l.records);
            starts = omega (arith, g.starts, l.starts);
            actions = refl;
          }
      after_insertion-Spends (a, art) rt (ok _, t) g =
          let x = execute (port_view rt view) a id t in
          let x_grows = execute-Grows (port_view rt view) a id t in
          let ended : Runtime = record rt {
            action_certificates = rt.action_certificates ++ art.certificate ∷ [];
            store = x.1;
          } in
          let c = finish_execution-IsCharged x.0 ended in
          let same = finish_execution-actions x.0 ended in
          let added = length-append rt.action_certificates (art.certificate ∷ []) in
          record {
            certificates = omega (arith, c.certificates, same, added);
            records = omega (arith, c.records, same, x_grows.records, g.records);
            starts = omega (arith, c.starts, same, x_grows.starts, g.starts);
            actions = same;
          }

      run_authorized-Spends :
          (x : AuthorizedExecution × AuthorizationArtifact) (rt : Runtime)
          → Spends rt (run_authorized view id x rt).1
      unfolding run_authorized log
      run_authorized-Spends x rt =
          let first = log view id action_authorized rt in
          let begun = log view id authorization_issued first in
          let l = log-IsCharged action_authorized rt refl in
          let m = log-IsCharged authorization_issued first refl in
          let s =
            after_insertion-Spends x begun
              (insert_authorization_for_attempt begun.store id x.1.authorization)
              (insert-Grows begun.store id x.1.authorization) in
          record {
            certificates = s.certificates;
            records = omega (arith, s.records, l.records, m.records);
            starts = omega (arith, s.starts, l.starts, m.starts);
            actions = s.actions;
          }

      run_proposal-IsCharged :
          (proposal : ToolCallProposal) (rt : Runtime)
          → IsCharged rt (run_proposal view id proposal rt).1
      unfolding run_proposal fail log
      run_proposal-IsCharged proposal rt =
          let planned = log view id plan_accepted rt in
          let plan = log-IsCharged plan_accepted rt refl in
          let reject = λ (e : ErrorCode).
            IsCharged-trans plan (log-IsCharged (action_rejected e) planned refl) in
          elim (Result-cases (authorize (gate_request rt view proposal))) [
            | inl (e, q) ↦ rw (q, run_proposal) (reject e)
            | inr (x, q) ↦
                elim (Result-cases (reserve_budget rt.actions_consumed rt.mission.max_actions)) [
                  | inl (e, b) ↦ rw (q, run_proposal, b) (reject e)
                  | inr (actions, b) ↦
                      let (_, same) = reserve_budget-ok _ _ actions b in
                      let s =
                        run_authorized-Spends x (record planned { actions_consumed = actions }) in
                      rw (q, run_proposal, b)
                        (record {
                          certificates = omega (arith, s.certificates, s.actions, same);
                          records = omega (arith, s.records, plan.records, s.actions, same);
                          starts = omega (arith, s.starts, plan.starts, s.actions, same);
                        })
                ]
          ]

      run_response-IsCharged :
          (seen : Observation) (raw : List ℕ) (rt : Runtime)
          → IsCharged rt (run_response view seen id raw rt).1
      unfolding run_response finish_final fail
      run_response-IsCharged seen raw rt =
          let accepted = log view id protocol_accepted rt in
          let accept = log-IsCharged protocol_accepted rt refl in
          elim (Result-cases (parse rt.protocol_gate raw)) [
            | inl (e, q) ↦ rw (q, run_response) (log-IsCharged (protocol_rejected e) rt refl)
            | inr (final_message result, q) ↦
                elim (Result-cases (accept_model_final accepted view seen)) [
                  | inl (e, f) ↦
                      rw (q, run_response, f, finish_final)
                        (IsCharged-trans accept (log-IsCharged (final_rejected e) accepted refl))
                  | inr (_, f) ↦
                      rw (q, run_response, f, finish_final)
                        (IsCharged-trans accept (log-IsCharged final_produced accepted refl))
                ]
            | inr (tool_call proposal, q) ↦
                rw (q, run_response)
                  (IsCharged-trans accept (run_proposal-IsCharged proposal accepted))
          ]

    pub run_attempt-IsCharged :
        (model : ModelClient) (view : RunView) (seen : Observation) (instruction : List ℕ)
        (rt : Runtime)
        → IsCharged rt (run_attempt model view seen instruction rt).1
    unfolding run_attempt begin_attempt fail
    run_attempt-IsCharged model view seen instruction rt =
        let id = next_u64 rt.store.next_attempt_id in
        let begun : Runtime = record rt { store = (begin_attempt rt.store).1 } in
        let begin : IsCharged rt begun = record {
          certificates = omega arith;
          records = omega arith;
          starts = omega arith;
        } in
        let request : ModelRequest = record {
          agent_id = rt.agent_id;
          spec = rt.spec;
          semantic_context = rt.semantic_context;
          resolved_system_instruction = instruction;
        } in
        elim (Result-cases (model.generate request)) [
          | inl (e, q) ↦
              rw (q, run_attempt)
                (IsCharged-trans begin
                  (log-IsCharged view id (MissionEventKind.model_failed e) begun refl))
          | inr (raw, q) ↦
              rw (q, run_attempt)
                (IsCharged-trans begin (run_response-IsCharged view id seen raw begun))
        ]
