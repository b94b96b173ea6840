-- ===== src/Scenario/StoreExamples.antt =====
-- Examples: the theorems about the mission store at one authorization
-- (crates/aeon_agent_runtime/src/store.rs).
use genesis_runtime.Common.{
  ErrorCode, Result, [], any, authorization_invalid, dec_by, err, false, invalid_input, list_dec,
  list_eq, nat_eq, next_u64, not, ok, option_eq, refl, ℕ_discrete, ◌==◌, ◌≡◌, ◌⊎◌,
}
use genesis_runtime.Ids.{AuthorizationId, codes, identifier_dec, identifier_eq}
use genesis_runtime.Digest.{digest_eq}
use genesis_runtime.Authority.{bound_tool_eq, lease_ref_eq}
use genesis_runtime.Store.{
  AuthorizationRecord, MissionStore, append, authorization_consumed, consume_authorization,
  consume_authorization_with, consumed, find_record, insert_authorization_for_attempt, issued,
  new_store, read_only,
}
use genesis_runtime.Store.Evidence.{is_misnumbered}
use genesis_runtime.Store.History.{StoreRuns-numbered, appends, inserts_for, start, step}
use genesis_runtime.Store.Consumption.{
  Consumed, consume_authorization-Consumed, consume_authorization-once,
  consume_authorization_with-atomic,
}

abbrev record_name : AuthorizationId
record_name = record { bytes = codes "auth-1" }

abbrev small_record : AuthorizationRecord
small_record = record {
  record_id = record_name;
  action_ref = record { bytes = [] };
  authority_chain = [];
  total_budget = record { actions = 1 };
  remaining_budget = record { actions = 1 };
  state = issued;
  stable_idempotency_key = [];
  effect_class = read_only;
  generation = 0;
}

abbrev one_record : MissionStore
one_record =
    (insert_authorization_for_attempt (new_store (record { bytes = codes "m" })) 1 small_record).1

abbrev consumed_record : AuthorizationRecord
consumed_record = record small_record {
  remaining_budget = record { actions = 0 };
  state = consumed;
  generation = 1;
}

abbrev done_commit : Result (Unit {0})
done_commit = ok tt

abbrev failed_commit : Result (Unit {0})
failed_commit = err invalid_input

one_record-consumes : (consume_authorization one_record record_name 0).0 ≡ ok consumed_record
unfolding consume_authorization insert_authorization_for_attempt new_store any find_record next_u64
    identifier_dec dec_by list_dec ℕ_discrete
one_record-consumes = refl

consume_authorization-once_example :
    (consume_authorization
        (append (consume_authorization one_record record_name 0).1 authorization_consumed 9)
        record_name
        1
      ≡ (
        err authorization_invalid,
        append (consume_authorization one_record record_name 0).1 authorization_consumed 9,
      ))
    × (consume_authorization_with
          (append (consume_authorization one_record record_name 0).1 authorization_consumed 9)
          record_name
          1
          done_commit
        ≡ (
          err authorization_invalid,
          append (consume_authorization one_record record_name 0).1 authorization_consumed 9,
        ))
consume_authorization-once_example =
    consume_authorization-once one_record record_name 0 consumed_record
      (append (consume_authorization one_record record_name 0).1 authorization_consumed 9) 1
      done_commit one_record-consumes (step start (appends authorization_consumed 9))

consume_authorization-Consumed_example :
    (c : Consumed one_record record_name 0 (consume_authorization one_record record_name 0).1)
    × (c.after ≡ consumed_record)
consume_authorization-Consumed_example =
    consume_authorization-Consumed one_record record_name 0 consumed_record one_record-consumes

consume_authorization_with-atomic_example :
    (((consume_authorization_with one_record record_name 0 failed_commit).0 ≡ done_commit)
      × (failed_commit ≡ done_commit)
      × Consumed one_record record_name 0
          (consume_authorization_with one_record record_name 0 failed_commit).1)
    ⊎ ((c : ErrorCode) × (consume_authorization_with one_record record_name 0 failed_commit
          ≡ (err c, one_record)))
consume_authorization_with-atomic_example =
    consume_authorization_with-atomic one_record record_name 0 failed_commit

abbrev noted_record : MissionStore
noted_record = append one_record authorization_consumed 9

StoreRuns-numbered_example :
    (is_misnumbered 0 noted_record.events ≡ false)
    × (any (λ e. not (e.mission_id == noted_record.mission_id)) noted_record.events ≡ false)
StoreRuns-numbered_example =
    StoreRuns-numbered (record { bytes = codes "m" }) noted_record
      (step (step start (inserts_for 1 small_record)) (appends authorization_consumed 9))
