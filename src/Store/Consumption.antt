-- ===== src/Store/Consumption.antt =====
-- An authorization is consumed at most once, and by the exact amount
-- (crates/aeon_agent_runtime/src/store.rs).
use genesis_runtime.Common.{
  ap, next_u64, ok-inj, ◌%◌, ◌^◌, ==_iff, ErrorCode, Result, Result-cases, arith,
  authorization_invalid, err, false, inl, inr, list_eq, nat_eq, next_u64_ne, ok, option_eq, refl,
  some, sym, ℕ, ◌+◌, ◌==◌, ◌∙◌, ◌≡◌, ◌≢◌, ◌⊎◌,
}
use genesis_runtime.Ids.{AuthorizationId, identifier_eq}
use genesis_runtime.Digest.{digest_eq}
use genesis_runtime.Authority.{bound_tool_eq, lease_ref_eq}
use genesis_runtime.Store.{
  AuthorizationRecord, MissionStore, available_record, consume_authorization,
  consume_authorization_with, consume_record, consumed, find_record, mark_consumed,
}
use genesis_runtime.Store.Records.{
  IsAvailable, available_record-consumed, available_record-found, find-replace_record,
}
use genesis_runtime.Store.History.{Keeps-Runs, StoreRuns}

-- What a consumption that succeeds has done.
pub record Consumed (s : MissionStore) (id : AuthorizationId) (generation : ℕ) (s' : MissionStore)
    : Type 0 where
  pub before : AuthorizationRecord
  pub found : find_record id s.authorization_records ≡ some before
  pub available : IsAvailable before generation
  pub after : AuthorizationRecord
  pub stored : find_record id s'.authorization_records ≡ some after
  pub spent : after.state ≡ consumed
  pub budget : after.remaining_budget.actions + 1 ≡ before.remaining_budget.actions
  pub renewed : after.generation ≡ (generation + 1) % 2 ^ 64
  pub stale : after.generation ≢ generation
  pub name : after.record_id ≡ before.record_id
  pub action : after.action_ref ≡ before.action_ref
  pub chain : after.authority_chain ≡ before.authority_chain
  pub total : after.total_budget ≡ before.total_budget
  pub key : after.stable_idempotency_key ≡ before.stable_idempotency_key
  pub effect : after.effect_class ≡ before.effect_class
  pub others :
      (x : AuthorizationId)
      → (id == x) ≡ false
      → find_record x s'.authorization_records ≡ find_record x s.authorization_records
  pub events : s'.events ≡ s.events
  pub mission : s'.mission_id ≡ s.mission_id
  pub counter : s'.next_attempt_id ≡ s.next_attempt_id
  pub attempts : s'.authorization_attempts ≡ s.authorization_attempts

pub mark_consumed-Consumed :
    (s : MissionStore) (id : AuthorizationId) (generation : ℕ) (v : AuthorizationRecord)
    → available_record s id generation ≡ ok v
    → (c : Consumed s id generation (mark_consumed s id)) × (c.after ≡ consume_record v)
unfolding mark_consumed consume_record next_u64
mark_consumed-Consumed s id generation v available =
    let (found, a) = available_record-found s id generation v available in
    let at_ = λ (x : AuthorizationId).
      find-replace_record id x consume_record s.authorization_records (λ _. refl) in
    (
      record {
        before = v;
        found = found;
        available = a;
        after = consume_record v;
        stored = ground (arith, at_ id, found, (==_iff id id).1 refl);
        spent = refl;
        budget = omega (arith, a.has_budget);
        renewed = ap (λ n. (n + 1) % 2 ^ 64) a.current;
        name = refl;
        action = refl;
        chain = refl;
        total = refl;
        key = refl;
        effect = refl;
        mission = refl;
        counter = refl;
        attempts = refl;
        stale = λ e. next_u64_ne v.generation (e ∙ sym a.current);
        others = λ x other. ground (arith, at_ x);
        events = refl;
      },
      refl,
    )

-- A consumption that returns a record found it issued, of the generation asked for and with some
-- budget left. It marks it consumed, moves its generation on by one (modulo 2 ^ 64), takes exactly
-- one action from its remaining budget and leaves its other fields as they were; this is the
-- record that it returns. The records of other identifiers, the log, the mission, the counter and
-- the attempts of the store stay as they were.
pub consume_authorization-Consumed :
    (s : MissionStore) (id : AuthorizationId) (generation : ℕ) (r : AuthorizationRecord)
    → (consume_authorization s id generation).0 ≡ ok r
    → (c : Consumed s id generation (consume_authorization s id generation).1) × (c.after ≡ r)
unfolding consume_authorization
consume_authorization-Consumed s id generation r e =
    elim (Result-cases (available_record s id generation)) [
      | inl (c, refused) ↦ absurd (cc (rw refused at e))
      | inr (v, available) ↦
          let made : consume_record v ≡ r = ok-inj (rw available at e) in
          let (c, after) = mark_consumed-Consumed s id generation v available in
          rw available (c, after ∙ made)
    ]

-- An authorization is used at most once: after a consumption that returned a record, and after
-- any further calls, every consumption of the same identifier is refused and leaves the store as
-- it is, under any generation, whether or not it comes with a commit action.
pub consume_authorization-once :
    (s : MissionStore) (id : AuthorizationId) (generation : ℕ) (r : AuthorizationRecord)
    (t : MissionStore) (generation' : ℕ) (commit : Result (Unit {0}))
    → (consume_authorization s id generation).0 ≡ ok r
    → StoreRuns (consume_authorization s id generation).1 t
    → (consume_authorization t id generation' ≡ (err authorization_invalid, t))
      × (consume_authorization_with t id generation' commit ≡ (err authorization_invalid, t))
unfolding consume_authorization consume_authorization_with
consume_authorization-once s id generation r t generation' commit e runs =
    let c = (consume_authorization-Consumed s id generation r e).0 in
    let kept = (Keeps-Runs runs).spent id c.after c.stored c.spent in
    let refused = available_record-consumed t id generation' c.after kept c.spent in
    (rw refused refl, rw refused refl)

-- A consumption with a commit action is all or nothing. Where it returns a value, the commit
-- action returned that value and the record is consumed; where it fails, the store is unchanged,
-- so that the authorization is not spent by a commit that fails.
pub consume_authorization_with-atomic :
    (s : MissionStore) (id : AuthorizationId) (generation : ℕ) (commit : Result (Unit {0}))
    → (((consume_authorization_with s id generation commit).0 ≡ ok tt)
        × (commit ≡ ok tt)
        × Consumed s id generation (consume_authorization_with s id generation commit).1)
      ⊎ ((c : ErrorCode) × (consume_authorization_with s id generation commit ≡ (err c, s)))
unfolding consume_authorization_with
consume_authorization_with-atomic s id generation commit =
    elim (Result-cases (available_record s id generation)) [
      | inl (c, refused) ↦ inr (c, rw refused refl)
      | inr (v, available) ↦ elim (Result-cases commit) [
        | inl (c, failed) ↦ inr (c, rw (available, failed) refl)
        | inr (_, done) ↦ inl (
          rw (available, done) refl,
          done,
          rw (available, done) (mark_consumed-Consumed s id generation v available).0,
        )
      ]
    ]
