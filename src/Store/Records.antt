-- ===== src/Store/Records.antt =====
-- What a consumption does to the authorization records
-- (crates/aeon_agent_runtime/src/store.rs).
use mathlib.Core.Option
use genesis_runtime.Common.{
  >>=-eq-ok, ErrorCode, List, Result, Result-cases, [], any, arith, authorization_invalid, err,
  false, if◌then◌else◌, inl, inr, list_eq, nat_eq, none, ok, ok-inj, ok_or, option_eq, refl, some,
  ℕ, ◌++◌, ◌<◌, ◌==◌, ◌∷◌, ◌≡◌, ◌⊎◌,
}
use genesis_runtime.Ids.{AuthorizationId, identifier_eq}
use genesis_runtime.Store.{
  AuthorizationRecord, MissionStore, available_record, consume_authorization_with, consumed,
  find_record, issued, mark_consumed, replace_record, validate_available_record,
}

pub find-replace_record :
    (id x : AuthorizationId) (f : AuthorizationRecord → AuthorizationRecord)
    (records : List AuthorizationRecord)
    → ((r : AuthorizationRecord) → (f r).record_id ≡ r.record_id)
    → find_record x (replace_record id f records)
      ≡ (if id == x then Option.map f (find_record x records) else find_record x records)
unfolding find_record replace_record
find-replace_record id x f [] keeps = ground arith
find-replace_record id x f (r ∷ records) keeps =
    ground (arith, keeps r, find-replace_record id x f records keeps)

pub find-append :
    (x : AuthorizationId) (records more : List AuthorizationRecord)
    → find_record x (records ++ more)
      ≡ elim (find_record x records) [ none ↦ find_record x more | some r ↦ some r ]
unfolding find_record
find-append x [] more = refl
find-append x (r ∷ records) more = ground (arith, find-append x records more)

pub find-any :
    (x : AuthorizationId) (records : List AuthorizationRecord)
    → any (λ existing. existing.record_id == x) records ≡ false
    → find_record x records ≡ none
unfolding find_record any
find-any x [] none_ = refl
find-any x (r ∷ records) none_ = ground (arith, find-any x records)

-- A record that was found available: issued, of the generation asked for, with some budget left.
pub record IsAvailable (r : AuthorizationRecord) (generation : ℕ) : Type 0 where
  pub is_issued : r.state ≡ issued
  pub current : r.generation ≡ generation
  pub has_budget : 0 < r.remaining_budget.actions

pub available_record-found :
    (s : MissionStore) (id : AuthorizationId) (generation : ℕ) (r : AuthorizationRecord)
    → available_record s id generation ≡ ok r
    → (find_record id s.authorization_records ≡ some r) × IsAvailable r generation
unfolding available_record validate_available_record
available_record-found s id generation r e =
    let (r', found, e1) =
      >>=-eq-ok (ok_or (find_record id s.authorization_records) authorization_invalid) _ e in
    let (_, valid, e2) = >>=-eq-ok (validate_available_record r' generation) _ e1 in
    let same : r' ≡ r = ok-inj e2 in
    let available : IsAvailable r' generation = record {
      is_issued = ground (arith, valid);
      current = ground (arith, valid);
      has_budget = ground (arith, valid);
    } in
    (ground (arith, same), rw same at available)

-- A record that was consumed is not available, under any generation.
pub available_record-consumed :
    (s : MissionStore) (id : AuthorizationId) (generation : ℕ) (r : AuthorizationRecord)
    → find_record id s.authorization_records ≡ some r
    → r.state ≡ consumed
    → available_record s id generation ≡ err authorization_invalid
unfolding available_record validate_available_record
available_record-consumed s id generation r found done = rw (found, done) refl

-- A consumption refuses and leaves the store, or hands out what was committed and consumes.
pub consume_authorization_with-cases {ℓ} :
    {T : Type ℓ} (s : MissionStore) (id : AuthorizationId) (generation : ℕ) (commit : Result T)
    → ((e : ErrorCode) × (consume_authorization_with s id generation commit ≡ (err e, s)))
      ⊎ ((value : T) × (commit ≡ ok value)
          × (consume_authorization_with s id generation commit ≡ (ok value, mark_consumed s id)))
unfolding consume_authorization_with
consume_authorization_with-cases s id generation (err c) =
    elim (Result-cases (available_record s id generation)) [
      | inl (e, refused) ↦ inl (e, rw refused refl)
      | inr (r, found) ↦ inl (c, rw found refl)
    ]
consume_authorization_with-cases s id generation (ok value) =
    elim (Result-cases (available_record s id generation)) [
      | inl (e, refused) ↦ inl (e, rw refused refl)
      | inr (r, found) ↦ inr (value, refl, rw found refl)
    ]
