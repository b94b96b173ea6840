-- ===== src/Store.antt =====
-- The in-memory mission store: the event log, the authorization records and their attempts
-- (crates/aeon_agent_runtime/src/store.rs, and the types of action.rs that it keeps). A method takes
-- the store under its locks and returns its result beside the store that it leaves.
pub mod Evidence
pub mod Records
pub mod History
pub mod Consumption
pub mod Grouping
pub mod Counting
pub mod Complete
use genesis_runtime.Common.{
  Bool, ErrorCode, List, Map, Option, Result, [], any, authorization_invalid, err, false,
  if◌then◌else◌, insert, invalid_input, length, list_eq, nat_eq, next_u64, none, not, ok, ok_or,
  option_eq, refuse_if, some, true, ℕ, ◌++◌, ◌+◌, ◌-◌, ◌==◌, ◌>>=◌, ◌>>◌, ◌||◌, ◌∷◌,
}
use genesis_runtime.Ids.{AuthorizationId, MissionId, identifier_eq}
use genesis_runtime.Digest.{Digest, digest_eq}
use genesis_runtime.Mission.{DateTime}
use genesis_runtime.Authority.{LeaseRef, bound_tool_eq, lease_ref_eq}

pub data EffectClass : Type 0 where
  read_only idempotent non_idempotent : EffectClass

pub data AuthorizationState : Type 0 where
  issued prepared consumed aborted auth_revoked auth_expired : AuthorizationState

abbrev pub is_issued : AuthorizationState → Bool
is_issued issued = true
is_issued _ = false

abbrev pub is_consumed : AuthorizationState → Bool
is_consumed consumed = true
is_consumed _ = false

pub record Budget : Type 0 where
  pub actions : ℕ

pub record AuthorizationRecord : Type 0 where
  pub record_id : AuthorizationId
  pub action_ref : Digest
  pub authority_chain : List LeaseRef
  pub total_budget : Budget
  pub remaining_budget : Budget
  pub state : AuthorizationState
  pub stable_idempotency_key : List ℕ
  pub effect_class : EffectClass
  pub generation : ℕ

pub data MissionEventKind : Type 0 where
  mission_created context_resolved lease_issued agent_activated : MissionEventKind
  model_failed : ErrorCode → MissionEventKind
  protocol_accepted : MissionEventKind
  protocol_rejected : ErrorCode → MissionEventKind
  plan_accepted action_authorized : MissionEventKind
  action_rejected : ErrorCode → MissionEventKind
  authorization_issued authorization_consumed execution_started : MissionEventKind
  execution_rejected_before_nexus execution_failed : ErrorCode → MissionEventKind
  execution_completed final_produced : MissionEventKind
  final_rejected : ErrorCode → MissionEventKind

pub record MissionEvent : Type 0 where
  pub sequence : ℕ
  pub mission_id : MissionId
  pub attempt_id : Option ℕ
  pub kind : MissionEventKind
  pub occurred_at : DateTime

-- `agent_record` and `lease`, which the store only hands back, are left out.
pub record MissionStore : Type 0 where
  pub mission_id : MissionId
  pub events : List MissionEvent
  pub next_attempt_id : ℕ
  pub authorization_records : List AuthorizationRecord
  pub authorization_attempts : Map AuthorizationId ℕ

unfoldable pub new_store : MissionId → MissionStore
new_store mission_id = record {
  mission_id = mission_id;
  events = [];
  next_attempt_id = 0;
  authorization_records = [];
  authorization_attempts = [];
}

-- `append_event`; `append` passes no attempt, `append_for_attempt` passes one.
unfoldable pub append_event : MissionStore → Option ℕ → MissionEventKind → DateTime → MissionStore
append_event s attempt_id kind now = record s { events = s.events ++ event ∷ [] }
  where
    event : MissionEvent
    event = record {
      sequence = length s.events + 1;
      mission_id = s.mission_id;
      attempt_id = attempt_id;
      kind = kind;
      occurred_at = now;
    }

unfoldable pub append : MissionStore → MissionEventKind → DateTime → MissionStore
append s kind now = append_event s none kind now

unfoldable pub append_for_attempt : MissionStore → ℕ → MissionEventKind → DateTime → MissionStore
append_for_attempt s attempt_id kind now = append_event s (some attempt_id) kind now

-- `fetch_add(1) + 1` on the atomic counter.
unfoldable pub begin_attempt : MissionStore → ℕ × MissionStore
begin_attempt s =
    (next_u64 s.next_attempt_id, record s { next_attempt_id = next_u64 s.next_attempt_id })

unfoldable pub find_record : AuthorizationId → List AuthorizationRecord → Option AuthorizationRecord
find_record record_id [] = none
find_record record_id (r ∷ records) =
    if r.record_id == record_id then some r else find_record record_id records

-- `if let (Some(attempts), Some(attempt_id))`
abbrev pub bind_attempt : Option ℕ → AuthorizationId → Map AuthorizationId ℕ → Map AuthorizationId ℕ
bind_attempt none record_id attempts = attempts
bind_attempt (some attempt_id) record_id attempts = insert record_id attempt_id attempts

unfoldable pub insert_authorization_inner :
    MissionStore → AuthorizationRecord → Option ℕ → Result (Unit {0}) × MissionStore
insert_authorization_inner s r attempt_id =
    if any (λ existing. existing.record_id == r.record_id) s.authorization_records
    then (err authorization_invalid, s)
    else (
      ok tt,
      record s {
        authorization_attempts = bind_attempt attempt_id r.record_id s.authorization_attempts;
        authorization_records = s.authorization_records ++ r ∷ [];
      },
    )

unfoldable pub insert_authorization :
    MissionStore → AuthorizationRecord → Result (Unit {0}) × MissionStore
unfolding insert_authorization_inner
insert_authorization s r = insert_authorization_inner s r none

unfoldable pub insert_authorization_for_attempt :
    MissionStore → ℕ → AuthorizationRecord → Result (Unit {0}) × MissionStore
unfolding insert_authorization_inner
insert_authorization_for_attempt s attempt_id r =
    if attempt_id == 0
    then (err invalid_input, s)
    else insert_authorization_inner s r (some attempt_id)

unfoldable pub validate_available_record : AuthorizationRecord → ℕ → Result (Unit {0})
validate_available_record r expected_generation =
    refuse_if
      (not (is_issued r.state)
        || not (r.generation == expected_generation)
        || r.remaining_budget.actions == 0)
      authorization_invalid

-- The write to the record found. The budget is not zero here, so that the subtraction is exact.
unfoldable pub consume_record : AuthorizationRecord → AuthorizationRecord
consume_record r = record r {
  remaining_budget = record { actions = r.remaining_budget.actions - 1 };
  state = consumed;
  generation = next_u64 r.generation;
}

-- A write through `iter_mut().find()`: to the first record of that identifier.
unfoldable pub replace_record :
    AuthorizationId
    → (AuthorizationRecord → AuthorizationRecord)
    → List AuthorizationRecord
    → List AuthorizationRecord
replace_record record_id f [] = []
replace_record record_id f (r ∷ records) =
    if r.record_id == record_id then f r ∷ records else r ∷ replace_record record_id f records

-- The record that a consumption finds available.
unfoldable pub available_record : MissionStore → AuthorizationId → ℕ → Result AuthorizationRecord
unfolding validate_available_record
available_record s record_id expected_generation = do
  r ← ok_or (find_record record_id s.authorization_records) authorization_invalid
  validate_available_record r expected_generation
  ok r

unfoldable pub mark_consumed : MissionStore → AuthorizationId → MissionStore
unfolding consume_record
mark_consumed s record_id = record s {
  authorization_records = replace_record record_id consume_record s.authorization_records;
}

-- The end of a method that has the store in hand: a failed step leaves the store as it is.
abbrev pub finish {ℓ κ} :
    {A : Type ℓ} {B : Type κ}
    → Result A
    → MissionStore
    → (A → Result B × MissionStore)
    → Result B × MissionStore
finish (ok a) s f = f a
finish (err e) s f = (err e, s)

unfoldable pub consume_authorization :
    MissionStore → AuthorizationId → ℕ → Result AuthorizationRecord × MissionStore
unfolding available_record mark_consumed
consume_authorization s record_id expected_generation =
    finish (available_record s record_id expected_generation) s
      λ r. (ok (consume_record r), mark_consumed s record_id)

-- The commit action runs under the lock, after the checks and before the write; it does not touch
-- the store.
unfoldable pub consume_authorization_with {ℓ} :
    {T : Type ℓ} → MissionStore → AuthorizationId → ℕ → Result T → Result T × MissionStore
unfolding available_record mark_consumed
consume_authorization_with s record_id expected_generation commit =
    finish (available_record s record_id expected_generation) s
      λ _. finish commit s λ committed. (ok committed, mark_consumed s record_id)
