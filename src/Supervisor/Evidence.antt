-- ===== src/Supervisor/Evidence.antt =====
-- Every run leaves complete evidence (crates/aeon_agent_runtime/src/supervisor.rs and store.rs).
use genesis_runtime.Store.History.{Keeps, Keeps-consume_with}
use genesis_runtime.Store.Complete.{Attempted, Ledger}
use genesis_runtime.Supervisor.Trails.{
  Attempted-close, Holds, Holds-mark_consumed, Ledger-consumed, Ledger-issued, Quiet, Trail,
  Trail-log, Trail-records,
}
use genesis_runtime.Store.Evidence.{is_complete_attempt, is_consumption}
use genesis_runtime.Supervisor.{Runtime}
use genesis_runtime.Supervisor.Run.{
  Observation, RunView, accept_model_final, fail, finish_execution, finish_final, log,
}
use genesis_runtime.Protocol.{FinalResult, ProtocolCodec}
use genesis_runtime.Context.{InstructionCodec}
use genesis_runtime.Store.Records.{consume_authorization_with-cases}
use genesis_runtime.Execution.Tokens.{issue_tokens}
use genesis_runtime.Common.{
  Bool-cases, ErrorCode, List, Option-cases, Result-cases, [], count_if, false, inl, inr, list_eq,
  ltb, nat_eq, option_eq, refl, subst, true, ℕ, ◌++◌, ◌+◌, ◌∷◌, ◌≡◌,
}
use genesis_runtime.Ids.{AuthorizationId, identifier_eq}
use genesis_runtime.Json.{Host}
use genesis_runtime.Digest.{digest_eq}
use genesis_runtime.Mission.{DateTime}
use genesis_runtime.Identity.{IdentityCodec}
use genesis_runtime.Authority.{AuthorityCodec, bound_tool_eq, lease_ref_eq}
use genesis_runtime.Action.{ActionCodec}
use genesis_runtime.Agent.{ContextCodec}
use genesis_runtime.Store.{
  AuthorizationRecord, MissionEventKind, MissionStore, action_authorized, append_event,
  append_for_attempt, authorization_consumed, authorization_issued, consume_record,
  execution_completed, execution_rejected_before_nexus, execution_started, final_produced,
  final_rejected, issued, mark_consumed, plan_accepted, protocol_accepted,
}
use genesis_runtime.Nexus.{Nexus}
use genesis_runtime.Registry.{RegisteredTool, ToolCodec, tool_definition}
use genesis_runtime.Execution.{AuthorizedExecution}
use genesis_runtime.Execution.Port.{
  PortView, Positioned, after_consumption, before_nexus, consume_and_run, execute, finished,
  log_event, run_tool, started, stopped, validate_execution,
}

-- The kinds of events before the port is called.
abbrev pub authorized_kinds : List MissionEventKind
authorized_kinds = protocol_accepted ∷ plan_accepted ∷ action_authorized ∷ authorization_issued ∷ []

abbrev started_kinds : List MissionEventKind
started_kinds =
    protocol_accepted ∷ plan_accepted ∷ action_authorized ∷ authorization_issued
    ∷ authorization_consumed ∷ execution_started ∷ []

module _ ⦃h : Host⦄ ⦃identity_codec : IdentityCodec⦄ ⦃authority_codec : AuthorityCodec⦄
    ⦃tool_codec : ToolCodec⦄ ⦃context_codec : ContextCodec⦄ ⦃action_codec : ActionCodec⦄
    ⦃nexus : Nexus⦄ where
  -- What an execution does to the store: it stops before the consumption with the store as it
  -- was, or the record is consumed and both events are there.
  pub data Executed (id : ℕ) (t : MissionStore) (a : AuthorizedExecution)
      (event_time : ℕ → DateTime) : Positioned nexus.Output × MissionStore → Type 0 where
    refused : (e : ErrorCode) → Executed id t a event_time (stopped e before_nexus, t)
    failed :
        (e : ErrorCode)
        → Keeps t (mark_consumed t a.certificate.authorization_record_id)
        → Executed id t a event_time (
          stopped e started,
          log_event
              (log_event
                (mark_consumed t a.certificate.authorization_record_id)
                event_time
                id
                authorization_consumed)
              event_time
              id
              execution_started,
        )
    returned :
        (output : nexus.Output)
        → Keeps t (mark_consumed t a.certificate.authorization_record_id)
        → Executed id t a event_time (
          finished output,
          log_event
              (log_event
                (mark_consumed t a.certificate.authorization_record_id)
                event_time
                id
                authorization_consumed)
              event_time
              id
              execution_started,
        )

  run_tool-Executed :
      (view : PortView) (a : AuthorizedExecution) (id : ℕ) (tool : RegisteredTool)
      (minted : nexus.Hypervisor × List nexus.Token) (t : MissionStore)
      → Keeps t (mark_consumed t a.certificate.authorization_record_id)
      → Executed id t a view.event_time
          (run_tool view a id tool minted (mark_consumed t a.certificate.authorization_record_id))
  unfolding run_tool
  run_tool-Executed view a id tool (hypervisor, tokens) t keeps =
      elim (Option-cases
        (nexus.execute_tool hypervisor (tool_definition tool) a.arguments tokens)) [
          | inl q ↦ rw q (failed ErrorCode.execution_failed keeps)
          | inr (output, q) ↦ rw q (returned output keeps)
        ]

  consume_and_run-Executed :
      (view : PortView) (a : AuthorizedExecution) (id : ℕ) (t : MissionStore)
      (validated : RegisteredTool × ℕ)
      → Executed id t a view.event_time (consume_and_run view a id t validated)
  unfolding consume_and_run after_consumption
  consume_and_run-Executed view a id t (tool, validity) =
      let record_id = a.certificate.authorization_record_id in
      let generation = a.certificate.authorization_generation in
      let commit = issue_tokens a.required_capabilities validity in
      elim (consume_authorization_with-cases t record_id generation commit) [
        | inl (e, q) ↦ rw q (refused e)
        | inr (minted, _, q) ↦ rw q (
            run_tool-Executed view a id tool minted t
              (subst (λ x. Keeps t x.1) q (Keeps-consume_with t record_id generation commit)))
      ]

  pub execute-Executed :
      (view : PortView) (a : AuthorizedExecution) (id : ℕ) (t : MissionStore)
      → Executed id t a view.event_time (execute view a id t)
  unfolding execute
  execute-Executed view a id t = elim (Result-cases (validate_execution view a)) [
    | inl (e, q) ↦ rw (q, execute) (refused e)
    | inr (validated, q) ↦ rw (execute, q) (consume_and_run-Executed view a id t validated)
  ]

  module _ ⦃instruction_codec : InstructionCodec⦄ ⦃protocol_codec : ProtocolCodec⦄ (view : RunView)
      (id : ℕ) (s : MissionStore) (next : id ≡ s.next_attempt_id + 1) where
    log-Attempted :
        (kinds : List MissionEventKind) (kind : MissionEventKind) (rt : Runtime)
        → Trail id s kinds rt.store
        → is_complete_attempt (kinds ++ kind ∷ []) ≡ true
        → Ledger s rt.store id (kinds ++ kind ∷ [])
        → Attempted s (log view id kind rt).store
    unfolding log log_event append_for_attempt append_event
    log-Attempted kinds kind rt trail complete ledger =
        Attempted-close id s (kinds ++ kind ∷ []) (log view id kind rt).store next
          (Trail-log id s kinds rt.store view.event_time kind trail) complete ledger

    pub fail-Attempted :
        (kinds : List MissionEventKind) (kind : ErrorCode → MissionEventKind) (e : ErrorCode)
        (rt : Runtime)
        → Trail id s kinds rt.store
        → is_complete_attempt (kinds ++ kind e ∷ []) ≡ true
        → Ledger s rt.store id (kinds ++ kind e ∷ [])
        → Attempted s (fail view id kind e rt).1.store
    unfolding fail
    fail-Attempted kinds kind e rt trail complete ledger =
        log-Attempted kinds (kind e) rt trail complete ledger

    pub finish_final-Attempted :
        (seen : Observation) (result : FinalResult) (rt : Runtime)
        → Trail id s (protocol_accepted ∷ []) rt.store
        → Quiet s rt.store
        → Attempted s (finish_final view seen id result rt).1.store
    unfolding finish_final is_complete_attempt
    finish_final-Attempted seen result rt trail quiet =
        elim (Result-cases (accept_model_final rt view seen)) [
          | inl (e, q) ↦
              rw (q, finish_final)
                (fail-Attempted (protocol_accepted ∷ []) final_rejected e rt trail refl (inl quiet))
          | inr (_, q) ↦
              rw (q, finish_final)
                (log-Attempted (protocol_accepted ∷ []) final_produced rt trail refl (inl quiet))
        ]

    -- The store after the consumption and its two events.
    begun_store : MissionStore → AuthorizationId → MissionStore
    begun_store t record_id =
        log_event (log_event (mark_consumed t record_id) view.event_time id authorization_consumed)
          view.event_time id execution_started

    begun_store-Trail :
        (t : MissionStore) (r : AuthorizationRecord)
        → Trail id s authorized_kinds t
        → Holds id s r t
        → Keeps t (mark_consumed t r.record_id)
        → Trail id s started_kinds (begun_store t r.record_id)
          × Holds id s (consume_record r) (begun_store t r.record_id)
    unfolding begun_store log_event append_for_attempt append_event mark_consumed consume_record
    begun_store-Trail t r trail holds keeps =
        let spent = mark_consumed t r.record_id in
        let first = Trail-records id s authorized_kinds t spent trail keeps refl refl in
        let second =
          Trail-log id s authorized_kinds spent view.event_time authorization_consumed first in
        (
          Trail-log id s (authorized_kinds ++ authorization_consumed ∷ []) _ view.event_time
              execution_started second,
          Holds-mark_consumed id s r t holds,
        )

    -- The end of an attempt whose record is consumed.
    started-Attempted :
        (r : AuthorizationRecord) (t : MissionStore) (rt : Runtime)
        → Trail id s authorized_kinds t
        → Holds id s r t
        → Keeps t (mark_consumed t r.record_id)
        → (kind : MissionEventKind) → is_complete_attempt (started_kinds ++ kind ∷ []) ≡ true
        → ltb (count_if is_consumption (started_kinds ++ kind ∷ [])) 1 ≡ false
        → Attempted s (log view id kind (record rt { store = begun_store t r.record_id })).store
    started-Attempted r t rt trail holds keeps kind complete counted =
        let (begun, spent) = begun_store-Trail t r trail holds keeps in
        log-Attempted started_kinds kind (record rt { store = begun_store t r.record_id }) begun
          complete
          (Ledger-consumed id s (started_kinds ++ kind ∷ []) (begun_store t r.record_id)
            (consume_record r) counted spent)

    -- The end of an execution, by what the port did to the store.
    pub finish_execution-Attempted :
        (a : AuthorizedExecution) (r : AuthorizationRecord) (t : MissionStore) (rt : Runtime)
        (x : Positioned nexus.Output × MissionStore)
        → Trail id s authorized_kinds t
        → Holds id s r t
        → r.state ≡ issued
        → a.certificate.authorization_record_id ≡ r.record_id
        → Executed id t a view.event_time x
        → Attempted s (finish_execution view id x.0 (record rt { store = x.1 })).1.store
    unfolding finish_execution is_complete_attempt count_if begun_store
    finish_execution-Attempted a r t rt x trail holds state named (refused e) =
        fail-Attempted authorized_kinds execution_rejected_before_nexus e (record rt { store = t })
          trail refl
          (Ledger-issued id s (authorized_kinds ++ execution_rejected_before_nexus e ∷ []) t r
            (rw state refl) holds)
    finish_execution-Attempted a r t rt x trail holds state named (failed e keeps) = rw named (
        started-Attempted r t rt trail holds (subst (λ i. Keeps t (mark_consumed t i)) named keeps)
          (MissionEventKind.execution_failed e) refl refl)
    finish_execution-Attempted a r t rt x trail holds state named (returned output keeps) =
        let moved = subst (λ i. Keeps t (mark_consumed t i)) named keeps in
        rw named (elim (Bool-cases (nexus.success output)) [
          | inl q ↦ rw q (started-Attempted r t rt trail holds moved execution_completed refl refl)
          | inr q ↦ rw q (
              started-Attempted r t rt trail holds moved
                (MissionEventKind.execution_failed ErrorCode.execution_failed) refl refl)
        ])
