-- ===== src/Supervisor/Run.antt =====
-- One run of the agent: `run_once` (crates/aeon_agent_runtime/src/supervisor.rs).
use genesis_runtime.Common.{
  Bool, ErrorCode, List, Result, [], authorization_invalid, err, false, lease_generation_mismatch,
  list_eq, mission_inactive, nat_eq, not, ok, option_eq, refuse_if, some, true, ℕ, ◌++◌, ◌==◌,
  ◌>>=◌, ◌>>◌, ◌||◌, ◌∷◌,
}
use genesis_runtime.Ids.{identifier_eq}
use genesis_runtime.Json.{Host}
use genesis_runtime.Digest.{digest_eq}
use genesis_runtime.Mission.{DateTime, is_usable_at}
use genesis_runtime.Identity.{IdentityCodec}
use genesis_runtime.Authority.{AuthorityCodec, LeaseRef, bound_tool_eq, lease_ref_eq}
use genesis_runtime.Kernel.{AuthorityState, LeaseEntry, ValidatedAuthority}
use genesis_runtime.Kernel.Chain.{commit_active_chain, validate_active_chain}
use genesis_runtime.Kernel.Lifecycle.{lease_snapshot}
use genesis_runtime.Action.{ActionCodec}
use genesis_runtime.Agent.{ContextCodec, ContextTransition, validate_context_continuation}
use genesis_runtime.Context.{InstructionCodec, resolved_system_instruction}
use genesis_runtime.Protocol.{
  FinalResult, ProtocolCodec, ToolCallProposal, final_message, parse, tool_call,
}
use genesis_runtime.Store.{
  MissionEventKind, MissionStore, action_authorized, action_rejected, authorization_issued,
  begin_attempt, execution_completed, execution_rejected_before_nexus, final_produced,
  final_rejected, insert_authorization_for_attempt, plan_accepted, protocol_accepted,
  protocol_rejected,
}
use genesis_runtime.Nexus.{Nexus}
use genesis_runtime.Registry.{ToolCodec}
use genesis_runtime.Execution.{
  AuthorizationArtifact, AuthorizedExecution, GateRequest, authorize, is_runtime_binding,
}
use genesis_runtime.Execution.Port.{
  ExecutionPosition, PortView, Positioned, before_nexus, execute, finished, generations_eq,
  log_event, started, stopped,
}
use genesis_runtime.Supervisor.{ModelClient, Runtime, reserve_budget}

-- The moments of a run at which it reads the kernel or the clock.
pub data Moment : Type 0 where
  observed_root observed_lease observed_chain final_commit gate_root gate_lease : Moment
  gate_chain commit_chain token_issue : Moment

unfoldable pub chain_eq : List LeaseRef → List LeaseRef → Bool
chain_eq a b = a == b

module _ ⦃h : Host⦄ where
  -- What a run meets: the kernel, which others may move between two moments, the clock, the
  -- texts of fresh UUIDs and the clock of the store by the number of an event.
  pub record RunView : Type 0 where
    pub kernel : Moment → AuthorityState
    pub clock : Moment → DateTime
    pub authorization_uuid : List ℕ
    pub certificate_uuid : List ℕ
    pub event_time : ℕ → DateTime

  pub record Observation : Type 0 where
    pub lease : LeaseEntry
    pub validated : ValidatedAuthority

  module _ ⦃identity_codec : IdentityCodec⦄ ⦃authority_codec : AuthorityCodec⦄
      ⦃tool_codec : ToolCodec⦄ ⦃context_codec : ContextCodec⦄ ⦃action_codec : ActionCodec⦄
      ⦃instruction_codec : InstructionCodec⦄ ⦃protocol_codec : ProtocolCodec⦄ where
    -- `observe_model_authority`. The root and its lease are read under two locks.
    unfoldable pub observe_model_authority : Runtime → RunView → Result Observation
    unfolding is_usable_at lease_snapshot is_runtime_binding validate_active_chain
        validate_context_continuation
    observe_model_authority rt view = do
      refuse_if (not (is_usable_at rt.mission (view.clock observed_lease))) mission_inactive
      lease ← lease_snapshot (view.kernel observed_lease) (view.kernel observed_root).root_lease_id
      refuse_if (not (is_runtime_binding lease.certificate rt.agent_id rt.mission))
          authorization_invalid
      validated ←
          validate_active_chain (view.kernel observed_chain) lease.certificate.lease_id
            (some lease.lease_record.generation) lease.manifest (view.clock observed_lease)
      _ ← validate_context_continuation validated.semantic_context_digest rt.semantic_context
      ok (record { lease = lease; validated = validated })

    -- The commit action of `accept_model_final` up to its event.
    unfoldable pub check_final :
        Runtime → Observation → ValidatedAuthority → Result ContextTransition
    unfolding generations_eq chain_eq validate_context_continuation
    check_final rt seen validated = do
      refuse_if
          (not (generations_eq validated.observed_generations seen.validated.observed_generations))
          lease_generation_mismatch
      refuse_if
          (not (chain_eq validated.chain seen.validated.chain)
            || not (validated.agent_identity_digest == seen.validated.agent_identity_digest)
            || not
                (validated.capability_manifest_digest == seen.validated.capability_manifest_digest)
            || not (validated.semantic_context_digest == seen.validated.semantic_context_digest))
          authorization_invalid
      validate_context_continuation seen.validated.semantic_context_digest rt.semantic_context

    -- `accept_model_final`, but for its event, which `finish_final` appends.
    unfoldable pub accept_model_final : Runtime → RunView → Observation → Result ContextTransition
    unfolding is_usable_at check_final commit_active_chain
    accept_model_final rt view seen = do
      refuse_if (not (is_usable_at rt.mission (view.clock final_commit))) mission_inactive
      commit_active_chain (view.kernel final_commit) seen.lease.certificate.lease_id
          (some seen.lease.lease_record.generation) seen.lease.manifest (view.clock final_commit)
          (check_final rt seen)

    module _ ⦃nexus : Nexus⦄ where
      pub data RunOutcome : Type 0 where
        executed : nexus.Output → RunOutcome
        final_outcome : FinalResult → RunOutcome

      -- An event of the attempt.
      unfoldable pub log : RunView → ℕ → MissionEventKind → Runtime → Runtime
      unfolding log_event
      log view attempt_id kind rt = record rt {
        store = log_event rt.store view.event_time attempt_id kind;
      }

      -- `Err(error) => { append(kind(error.code())); return Err(error) }`
      unfoldable pub fail :
          RunView
          → ℕ
          → (ErrorCode → MissionEventKind)
          → ErrorCode
          → Runtime
          → Result RunOutcome × Runtime
      unfolding log
      fail view attempt_id kind e rt = (err e, log view attempt_id (kind e) rt)

      unfoldable pub finish_final :
          RunView → Observation → ℕ → FinalResult → Runtime → Result RunOutcome × Runtime
      unfolding accept_model_final fail
      finish_final view seen attempt_id result rt = elim (accept_model_final rt view seen) [
        | err e ↦ fail view attempt_id final_rejected e rt
        | ok _ ↦ (ok (final_outcome result), log view attempt_id final_produced rt)
      ]

      unfoldable pub gate_request : Runtime → RunView → ToolCallProposal → GateRequest
      gate_request rt view proposal = record {
        mission = rt.mission;
        agent_id = rt.agent_id;
        lease_kernel = view.kernel gate_lease;
        chain_kernel = view.kernel gate_chain;
        lease_id = (view.kernel gate_root).root_lease_id;
        current_context = rt.semantic_context;
        registry = rt.registry;
        proposal_tool_id = proposal.tool_id;
        arguments = proposal.arguments;
        custody = rt.custody;
        now = view.clock gate_lease;
        authorization_uuid = view.authorization_uuid;
        certificate_uuid = view.certificate_uuid;
      }

      unfoldable pub port_view : Runtime → RunView → PortView
      port_view rt view = record {
        registry = rt.registry;
        kernel = view.kernel commit_chain;
        semantic_context = rt.semantic_context;
        custody = rt.custody;
        commit_now = view.clock commit_chain;
        issue_now = view.clock token_issue;
        event_time = view.event_time;
      }

      -- The event of an error of the port, by its position.
      abbrev pub execution_event : ExecutionPosition → ErrorCode → MissionEventKind
      execution_event before_nexus e = execution_rejected_before_nexus e
      execution_event started e = MissionEventKind.execution_failed e

      abbrev pub output_event : Bool → MissionEventKind
      output_event true = execution_completed
      output_event false = MissionEventKind.execution_failed ErrorCode.execution_failed

      -- After the call of the port.
      unfoldable pub finish_execution :
          RunView → ℕ → Positioned nexus.Output → Runtime → Result RunOutcome × Runtime
      unfolding fail
      finish_execution view attempt_id (stopped e position) rt =
          fail view attempt_id (execution_event position) e rt
      finish_execution view attempt_id (finished output) rt =
          (ok (executed output), log view attempt_id (output_event (nexus.success output)) rt)

      -- After the insertion of the record: the certificate and the execution.
      unfoldable pub after_insertion :
          RunView
          → ℕ
          → AuthorizedExecution × AuthorizationArtifact
          → Runtime
          → Result (Unit {0}) × MissionStore
          → Result RunOutcome × Runtime
      unfolding finish_execution execute
      after_insertion view attempt_id (authorized, artifact) rt (err e, s) =
          fail view attempt_id execution_rejected_before_nexus e (record rt { store = s })
      after_insertion view attempt_id (authorized, artifact) rt (ok _, s) =
          let (outcome, s') = execute (port_view rt view) authorized attempt_id s in
          finish_execution view attempt_id outcome (record rt {
            action_certificates = rt.action_certificates ++ artifact.certificate ∷ [];
            store = s';
          })

      -- From the reserved action to the end.
      unfoldable pub run_authorized :
          RunView
          → ℕ
          → AuthorizedExecution × AuthorizationArtifact
          → Runtime
          → Result RunOutcome × Runtime
      unfolding after_insertion insert_authorization_for_attempt
      run_authorized view attempt_id (authorized, artifact) rt =
          let begun =
            log view attempt_id authorization_issued (log view attempt_id action_authorized rt) in
          after_insertion view attempt_id (authorized, artifact) begun
            (insert_authorization_for_attempt begun.store attempt_id artifact.authorization)

      -- The branch of a tool call.
      unfoldable pub run_proposal :
          RunView → ℕ → ToolCallProposal → Runtime → Result RunOutcome × Runtime
      unfolding run_authorized authorize gate_request reserve_budget
      run_proposal view attempt_id proposal rt =
          let planned = log view attempt_id plan_accepted rt in
          elim (authorize (gate_request rt view proposal)) [
            | err e ↦ fail view attempt_id action_rejected e planned
            | ok authorized ↦ elim (reserve_budget rt.actions_consumed rt.mission.max_actions) [
              | err e ↦ fail view attempt_id action_rejected e planned
              | ok actions ↦
                  run_authorized view attempt_id authorized
                    (record planned { actions_consumed = actions })
            ]
          ]

      -- What the protocol gate makes of the response.
      unfoldable pub run_response :
          RunView → Observation → ℕ → List ℕ → Runtime → Result RunOutcome × Runtime
      unfolding run_proposal finish_final parse
      run_response view seen attempt_id raw rt = elim (parse rt.protocol_gate raw) [
        | err e ↦ fail view attempt_id protocol_rejected e rt
        | ok (final_message result) ↦
            finish_final view seen attempt_id result (log view attempt_id protocol_accepted rt)
        | ok (tool_call proposal) ↦
            run_proposal view attempt_id proposal (log view attempt_id protocol_accepted rt)
      ]

      -- The attempt: the call of the model.
      unfoldable pub run_attempt :
          ModelClient → RunView → Observation → List ℕ → Runtime → Result RunOutcome × Runtime
      unfolding run_response begin_attempt
      run_attempt model view seen instruction rt =
          let (attempt_id, s) = begin_attempt rt.store in
          let begun : Runtime = record rt { store = s } in
          elim (model.generate (record {
            agent_id = rt.agent_id;
            spec = rt.spec;
            semantic_context = rt.semantic_context;
            resolved_system_instruction = instruction;
          })) [
            | err e ↦ fail view attempt_id MissionEventKind.model_failed e begun
            | ok raw ↦ run_response view seen attempt_id raw begun
          ]

      -- `R1Runtime::run_once`
      unfoldable pub run_once : ModelClient → RunView → Runtime → Result RunOutcome × Runtime
      unfolding observe_model_authority reserve_budget resolved_system_instruction run_attempt
      run_once model view rt = elim (observe_model_authority rt view) [
        | err e ↦ (err e, rt)
        | ok seen ↦ elim (reserve_budget rt.steps_consumed rt.spec.max_steps) [
          | err e ↦ (err e, rt)
          | ok steps ↦
              let stepped : Runtime = record rt { steps_consumed = steps } in
              elim (resolved_system_instruction rt.spec) [
                | err e ↦ (err e, stepped)
                | ok instruction ↦ run_attempt model view seen instruction stepped
              ]
        ]
      ]
