-- ===== src/Store/Evidence.antt =====
-- The check that the recorded evidence is complete (crates/aeon_agent_runtime/src/store.rs).
use genesis_runtime.Common.{
  Bool, List, Map, Result, [], any, count_if, drop, err, event_incomplete, false, get, get_list,
  insert, list_eq, ltb, map, nat_eq, none, not, ok, option_eq, push_back, refuse_if, some, take,
  true, values, ℕ, ◌&&◌, ◌+◌, ◌==◌, ◌>>=◌, ◌>>◌, ◌||◌, ◌∷◌,
}
use genesis_runtime.Ids.{AuthorizationId, identifier_eq}
use genesis_runtime.Store.{
  AuthorizationRecord, MissionEvent, MissionEventKind, MissionStore, action_authorized,
  action_rejected, agent_activated, authorization_consumed, authorization_issued, context_resolved,
  execution_completed, execution_rejected_before_nexus, execution_started, final_produced,
  final_rejected, is_consumed, lease_issued, mission_created, plan_accepted, protocol_accepted,
  protocol_rejected,
}

-- The patterns of `matches!` in `validate_attempt`.
unfoldable pub is_complete_attempt : List MissionEventKind → Bool
is_complete_attempt (MissionEventKind.model_failed _ ∷ []) = true
is_complete_attempt (protocol_rejected _ ∷ []) = true
is_complete_attempt (protocol_accepted ∷ final_produced ∷ []) = true
is_complete_attempt (protocol_accepted ∷ final_rejected _ ∷ []) = true
is_complete_attempt (protocol_accepted ∷ plan_accepted ∷ action_rejected _ ∷ []) = true
is_complete_attempt
      (protocol_accepted
        ∷ plan_accepted
        ∷ action_authorized
        ∷ authorization_issued
        ∷ execution_rejected_before_nexus _
        ∷ []) =
    true
is_complete_attempt
      (protocol_accepted
        ∷ plan_accepted
        ∷ action_authorized
        ∷ authorization_issued
        ∷ MissionEventKind.execution_failed _
        ∷ []) =
    true
is_complete_attempt
      (protocol_accepted
        ∷ plan_accepted
        ∷ action_authorized
        ∷ authorization_issued
        ∷ authorization_consumed
        ∷ execution_rejected_before_nexus _
        ∷ []) =
    true
is_complete_attempt
      (protocol_accepted ∷ plan_accepted ∷ action_authorized ∷ authorization_issued
        ∷ authorization_consumed ∷ execution_started ∷ execution_completed ∷ []) =
    true
is_complete_attempt
      (protocol_accepted
        ∷ plan_accepted
        ∷ action_authorized
        ∷ authorization_issued
        ∷ authorization_consumed
        ∷ execution_started
        ∷ MissionEventKind.execution_failed _
        ∷ []) =
    true
is_complete_attempt _ = false

unfoldable pub validate_attempt : List MissionEventKind → Result (Unit {0})
unfolding is_complete_attempt
validate_attempt events = refuse_if (not (is_complete_attempt events)) event_incomplete

-- The first four kinds are those of the activation.
unfoldable pub has_foundation : List MissionEventKind → Bool
has_foundation (mission_created ∷ context_resolved ∷ lease_issued ∷ agent_activated ∷ _) = true
has_foundation _ = false

abbrev pub has_attempt : MissionEvent → Bool
has_attempt e = elim e.attempt_id [ none ↦ false | some _ ↦ true ]

unfoldable pub has_activation_prefix : List MissionEvent → Bool
unfolding has_foundation
has_activation_prefix events =
    has_foundation (map (λ e. e.kind) events) && not (any has_attempt (take 4 events))

-- `events.iter().enumerate().any(|(index, event)| event.sequence != index as u64 + 1)`
unfoldable pub is_misnumbered : ℕ → List MissionEvent → Bool
is_misnumbered index [] = false
is_misnumbered index (e ∷ events) =
    not (e.sequence == index + 1) || is_misnumbered (index + 1) events

abbrev pub Attempts : Type 0
Attempts = Map ℕ (List MissionEventKind)

-- The loop over the events that follow the activation.
unfoldable pub group_attempts : List MissionEvent → Attempts → Result Attempts
group_attempts [] attempts = ok attempts
group_attempts (e ∷ events) attempts = elim e.attempt_id [
  | none ↦ err event_incomplete
  | some attempt_id ↦ elim (attempt_id == 0) [
    | true ↦ err event_incomplete
    | false ↦ group_attempts events (push_back attempt_id e.kind attempts)
  ]
]

unfoldable pub validate_attempts : List (List MissionEventKind) → Result (Unit {0})
validate_attempts [] = ok tt
validate_attempts (attempt ∷ attempts) = do validate_attempt attempt; validate_attempts attempts

-- `*consumed_by_attempt.entry(attempt_id).or_default() += 1`
unfoldable pub add_consumed : ℕ → Map ℕ ℕ → Map ℕ ℕ
add_consumed attempt_id m = elim (get attempt_id m) [
  | none ↦ insert attempt_id 1 m
  | some n ↦ insert attempt_id (n + 1) m
]

-- The loop over the consumed records.
unfoldable pub count_consumed :
    Map AuthorizationId ℕ → List AuthorizationRecord → Map ℕ ℕ → Result (Map ℕ ℕ)
unfolding add_consumed
count_consumed bound [] consumed_by_attempt = ok consumed_by_attempt
count_consumed bound (r ∷ records) consumed_by_attempt = elim (is_consumed r.state) [
  | false ↦ count_consumed bound records consumed_by_attempt
  | true ↦ elim (get r.record_id bound) [
    | none ↦ err event_incomplete
    | some attempt_id ↦ count_consumed bound records (add_consumed attempt_id consumed_by_attempt)
  ]
]

abbrev pub is_consumption : MissionEventKind → Bool
is_consumption authorization_consumed = true
is_consumption _ = false

-- The loop over the counts.
unfoldable pub check_consumed : Attempts → Map ℕ ℕ → Result (Unit {0})
check_consumed attempts [] = ok tt
check_consumed attempts ((attempt_id, consumed_count) ∷ rest) = do
  refuse_if (ltb (count_if is_consumption (get_list attempt_id attempts)) consumed_count)
      event_incomplete
  check_consumed attempts rest

unfoldable pub verify_event_completeness : MissionStore → Result (Unit {0})
verify_event_completeness s = do
  refuse_if (not (has_activation_prefix s.events)) event_incomplete
  refuse_if (is_misnumbered 0 s.events) event_incomplete
  refuse_if (any (λ e. not (e.mission_id == s.mission_id)) s.events) event_incomplete
  attempts ← group_attempts (drop 4 s.events) []
  validate_attempts (values attempts)
  consumed_by_attempt ← count_consumed s.authorization_attempts s.authorization_records []
  check_consumed attempts consumed_by_attempt
