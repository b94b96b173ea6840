-- ===== src/Supervisor/Budgets.antt =====
-- The budgets of the runtime (crates/aeon_agent_runtime/src/supervisor.rs).
use genesis_runtime.Common.{
  List, Result, Result-cases, [], arith, err, inl, inr, list_eq, nat_eq, next_u64, ok, option_eq,
  refl, ℕ, ◌++◌, ◌+◌, ◌<◌, ◌∷◌, ◌≡◌, ◌≤◌,
}
use genesis_runtime.Ids.{identifier_eq}
use genesis_runtime.Json.{Host}
use genesis_runtime.Digest.{digest_eq}
use genesis_runtime.Identity.{IdentityCodec}
use genesis_runtime.Authority.{AuthorityCodec, bound_tool_eq, lease_ref_eq}
use genesis_runtime.Action.{ActionCodec}
use genesis_runtime.Agent.{ContextCodec}
use genesis_runtime.Context.{InstructionCodec}
use genesis_runtime.Protocol.{ProtocolCodec, ToolCallProposal, final_message, parse, tool_call}
use genesis_runtime.Store.{
  MissionEventKind, MissionStore, action_authorized, authorization_issued, begin_attempt,
  insert_authorization_for_attempt, plan_accepted, protocol_accepted,
}
use genesis_runtime.Nexus.{Nexus}
use genesis_runtime.Registry.{ToolCodec}
use genesis_runtime.Execution.{AuthorizationArtifact, AuthorizedExecution, authorize}
use genesis_runtime.Execution.Port.{Positioned, execute, finished, stopped}
use genesis_runtime.Supervisor.{ModelClient, ModelRequest, Runtime, reserve_budget}
use genesis_runtime.Supervisor.Run.{
  Observation, RunView, accept_model_final, after_insertion, execution_event, fail,
  finish_execution, finish_final, gate_request, log, output_event, port_view, run_attempt,
  run_authorized, run_proposal, run_response,
}

pub reserve_budget-ok :
    (count limit reserved : ℕ)
    → reserve_budget count limit ≡ ok reserved
    → (count < limit) × (reserved ≡ count + 1)
unfolding reserve_budget
reserve_budget-ok count limit reserved q = ground (arith, q)

module _ ⦃h : Host⦄ ⦃identity_codec : IdentityCodec⦄ ⦃authority_codec : AuthorityCodec⦄
    ⦃tool_codec : ToolCodec⦄ ⦃context_codec : ContextCodec⦄ ⦃action_codec : ActionCodec⦄
    ⦃instruction_codec : InstructionCodec⦄ ⦃protocol_codec : ProtocolCodec⦄ ⦃nexus : Nexus⦄ where
  -- What the part of a run after the reserved step leaves as it is, and the action that it may
  -- reserve.
  pub record Settles (rt rt' : Runtime) : Type 0 where
    pub spec : rt'.spec ≡ rt.spec
    pub mission : rt'.mission ≡ rt.mission
    pub steps : rt'.steps_consumed ≡ rt.steps_consumed
    pub actions :
        rt.actions_consumed ≤ rt.mission.max_actions → rt'.actions_consumed ≤ rt.mission.max_actions

  Settles-refl : (rt : Runtime) → Settles rt rt
  Settles-refl rt = record { spec = refl; mission = refl; steps = refl; actions = λ a. a }

  module _ (view : RunView) (id : ℕ) where
    log-Settles : (kind : MissionEventKind) (rt : Runtime) → Settles rt (log view id kind rt)
    unfolding log
    log-Settles kind rt = record { spec = refl; mission = refl; steps = refl; actions = λ a. a }

    finish_execution-Settles :
        (x : Positioned nexus.Output) (rt : Runtime) → Settles rt (finish_execution view id x rt).1
    unfolding finish_execution fail
    finish_execution-Settles (stopped e position) rt = log-Settles (execution_event position e) rt
    finish_execution-Settles (finished output) rt =
        log-Settles (output_event (nexus.success output)) rt

    after_insertion-Settles :
        (x : AuthorizedExecution × AuthorizationArtifact) (rt : Runtime)
        (p : Result (Unit {0}) × MissionStore)
        → Settles rt (after_insertion view id x rt p).1
    unfolding after_insertion fail log
    after_insertion-Settles (a, art) rt (err e, t) = record {
      spec = refl;
      mission = refl;
      steps = refl;
      actions = λ b. b;
    }
    after_insertion-Settles (a, art) rt (ok _, t) =
        let x = execute (port_view rt view) a id t in
        let s = finish_execution-Settles x.0 (record rt {
          action_certificates = rt.action_certificates ++ art.certificate ∷ [];
          store = x.1;
        }) in
        record { spec = s.spec; mission = s.mission; steps = s.steps; actions = s.actions }

    run_proposal-Settles :
        (proposal : ToolCallProposal) (rt : Runtime)
        → Settles rt (run_proposal view id proposal rt).1
    unfolding run_proposal run_authorized fail log
    run_proposal-Settles proposal rt =
        elim (Result-cases (authorize (gate_request rt view proposal))) [
          | inl (e, q) ↦
              rw (q, run_proposal)
                (record { spec = refl; mission = refl; steps = refl; actions = λ b. b })
          | inr (x, q) ↦
              elim (Result-cases (reserve_budget rt.actions_consumed rt.mission.max_actions)) [
                | inl (e, b) ↦
                    rw (q, run_proposal, b)
                      (record { spec = refl; mission = refl; steps = refl; actions = λ b. b })
                | inr (actions, b) ↦
                    let (below, same) = reserve_budget-ok _ _ actions b in
                    rw (q, run_proposal, b)
                      (let planned = log view id plan_accepted rt in
                        let counted : Runtime = record planned { actions_consumed = actions } in
                        let begun =
                          log view id authorization_issued
                            (log view id action_authorized counted) in
                        let s =
                          after_insertion-Settles x begun
                            (insert_authorization_for_attempt begun.store id x.1.authorization) in
                        record {
                          spec = s.spec;
                          mission = s.mission;
                          steps = s.steps;
                          actions = λ _. s.actions (omega (arith, below, same));
                        })
              ]
        ]

    run_response-Settles :
        (seen : Observation) (raw : List ℕ) (rt : Runtime)
        → Settles rt (run_response view seen id raw rt).1
    unfolding run_response finish_final fail log
    run_response-Settles seen raw rt =
        let accepted = log view id protocol_accepted rt in
        elim (Result-cases (parse rt.protocol_gate raw)) [
          | inl (e, q) ↦
              rw (q, run_response)
                (record { spec = refl; mission = refl; steps = refl; actions = λ b. b })
          | inr (final_message result, q) ↦
              elim (Result-cases (accept_model_final accepted view seen)) [
                | inl (e, f) ↦
                    rw (q, run_response, f, finish_final)
                      (record { spec = refl; mission = refl; steps = refl; actions = λ b. b })
                | inr (_, f) ↦
                    rw (q, run_response, f, finish_final)
                      (record { spec = refl; mission = refl; steps = refl; actions = λ b. b })
              ]
          | inr (tool_call proposal, q) ↦
              rw (q, run_response)
                (let s = run_proposal-Settles proposal accepted in
                  record {
                    spec = s.spec;
                    mission = s.mission;
                    steps = s.steps;
                    actions = s.actions;
                  })
        ]

  pub run_attempt-Settles :
      (model : ModelClient) (view : RunView) (seen : Observation) (instruction : List ℕ)
      (rt : Runtime)
      → Settles rt (run_attempt model view seen instruction rt).1
  unfolding run_attempt begin_attempt fail log
  run_attempt-Settles model view seen instruction rt =
      let id = next_u64 rt.store.next_attempt_id in
      let begun : Runtime = record rt { store = (begin_attempt rt.store).1 } in
      let request : ModelRequest = record {
        agent_id = rt.agent_id;
        spec = rt.spec;
        semantic_context = rt.semantic_context;
        resolved_system_instruction = instruction;
      } in
      elim (Result-cases (model.generate request)) [
        | inl (e, q) ↦
            rw (q, run_attempt)
              (record { spec = refl; mission = refl; steps = refl; actions = λ b. b })
        | inr (raw, q) ↦
            rw (q, run_attempt)
              (let s = run_response-Settles view id seen raw begun in
                record { spec = s.spec; mission = s.mission; steps = s.steps; actions = s.actions })
      ]
