-- ===== src/Supervisor/Trails.antt =====
-- The events that an attempt has appended so far (crates/aeon_agent_runtime/src/supervisor.rs).
use genesis_runtime.Common.{
  ==_iff, Bool-cases, List, Result, [], any, append-nil, append_assoc, arith, count_if, err, false,
  inl, inr, insert, length, list_eq, ltb, nat_eq, next_u64, ok, option_eq, refl, some, true, ℕ,
  ◌++◌, ◌+◌, ◌==◌, ◌∷◌, ◌≡◌,
}
use genesis_runtime.Ids.{identifier_eq}
use genesis_runtime.Mission.{DateTime}
use genesis_runtime.Store.{
  AuthorizationRecord, MissionEvent, MissionEventKind, MissionStore, append_event,
  append_for_attempt, begin_attempt, consume_record, insert_authorization_for_attempt,
  insert_authorization_inner, is_consumed, mark_consumed, replace_record,
}
use genesis_runtime.Store.Evidence.{is_complete_attempt, is_consumption}
use genesis_runtime.Store.History.{Keeps, Keeps-Step, Keeps-trans, appends_for, inserts_for}
use genesis_runtime.Store.Grouping.{Tagged, Tagged-append}
use genesis_runtime.Store.Complete.{Attempted, Ledger}
use genesis_runtime.Execution.Port.{log_event}
use mathlib.Core.Path.{ap, ◌∙◌, sym}

-- The store `t` is `s` with an attempt begun and events of these kinds appended.
pub record Trail (id : ℕ) (s : MissionStore) (kinds : List MissionEventKind) (t : MissionStore)
    : Type 0 where
  pub counter : t.next_attempt_id ≡ id
  pub added : List MissionEvent
  pub events : t.events ≡ s.events ++ added
  pub tagged : Tagged id added kinds
  pub keeps : Keeps s t

-- The same records and bindings.
abbrev pub Quiet : MissionStore → MissionStore → Type 0
Quiet s t =
    (t.authorization_records ≡ s.authorization_records)
    × (t.authorization_attempts ≡ s.authorization_attempts)

-- One more record, bound to the attempt.
abbrev pub Holds : ℕ → MissionStore → AuthorizationRecord → MissionStore → Type 0
Holds id s r t =
    (any (λ x. x.record_id == r.record_id) s.authorization_records ≡ false)
    × (t.authorization_records ≡ s.authorization_records ++ r ∷ [])
    × (t.authorization_attempts ≡ insert r.record_id id s.authorization_attempts)

pub Trail-begin : (s : MissionStore) → Trail (next_u64 s.next_attempt_id) s [] (begin_attempt s).1
unfolding begin_attempt
Trail-begin s = record {
  counter = refl;
  added = [];
  events = sym (append-nil s.events);
  tagged = tt;
  keeps = record { numbered = λ n. n; owned = λ o. o; spent = λ id r f d. f };
}

pub Trail-log :
    (id : ℕ) (s : MissionStore) (kinds : List MissionEventKind) (t : MissionStore)
    (event_time : ℕ → DateTime) (kind : MissionEventKind)
    → Trail id s kinds t
    → Trail id s (kinds ++ kind ∷ []) (log_event t event_time id kind)
unfolding log_event append_for_attempt append_event
Trail-log id s kinds t event_time kind r = record {
  counter = r.counter;
  added = r.added ++ event ∷ [];
  events = ap (λ es. es ++ event ∷ []) r.events ∙ append_assoc s.events r.added (event ∷ []);
  tagged = Tagged-append id r.added (event ∷ []) kinds (kind ∷ []) r.tagged (refl, refl, tt);
  keeps = Keeps-trans r.keeps (Keeps-Step (appends_for id kind (event_time (length t.events))));
}
  where
    event : MissionEvent
    event = record {
      sequence = length t.events + 1;
      mission_id = t.mission_id;
      attempt_id = some id;
      kind = kind;
      occurred_at = event_time (length t.events);
    }

-- A change of the records alone.
pub Trail-records :
    (id : ℕ) (s : MissionStore) (kinds : List MissionEventKind) (t u : MissionStore)
    → Trail id s kinds t
    → Keeps t u
    → u.next_attempt_id ≡ t.next_attempt_id
    → u.events ≡ t.events
    → Trail id s kinds u
Trail-records id s kinds t u r keeps counter events = record {
  counter = counter ∙ r.counter;
  added = r.added;
  events = events ∙ r.events;
  tagged = r.tagged;
  keeps = Keeps-trans r.keeps keeps;
}

module _ (id : ℕ) (s : MissionStore) (kinds : List MissionEventKind) (t : MissionStore) where
  -- An attempt at its end.
  pub Attempted-close :
      id ≡ s.next_attempt_id + 1
      → Trail id s kinds t
      → is_complete_attempt kinds ≡ true
      → Ledger s t id kinds
      → Attempted s t
  Attempted-close next r c l = record {
    id = id;
    next = next;
    counter = r.counter;
    added = r.added;
    events = r.events;
    kinds = kinds;
    tagged = r.tagged;
    complete = c;
    keeps = r.keeps;
    ledger = l;
  }

  pub Ledger-issued :
      (r : AuthorizationRecord) → is_consumed r.state ≡ false → Holds id s r t → Ledger s t id kinds
  Ledger-issued r unspent (fresh, records, bound) =
      inr (r, fresh, records, bound, λ q. absurd (cc (q, unspent)))

  pub Ledger-consumed :
      (r : AuthorizationRecord)
      → ltb (count_if is_consumption kinds) 1 ≡ false
      → Holds id s r t
      → Ledger s t id kinds
  Ledger-consumed r spent (fresh, records, bound) = inr (r, fresh, records, bound, λ q. spent)

replace_record-last :
    (r : AuthorizationRecord) (records : List AuthorizationRecord)
    → any (λ x. x.record_id == r.record_id) records ≡ false
    → replace_record r.record_id consume_record (records ++ r ∷ [])
      ≡ records ++ consume_record r ∷ []
unfolding replace_record any
replace_record-last r [] fresh = ground (arith, (==_iff r.record_id r.record_id).1 refl)
replace_record-last r (x ∷ records) fresh = ground (arith, replace_record-last r records)

-- The record that the attempt inserted, consumed.
pub Holds-mark_consumed :
    (id : ℕ) (s : MissionStore) (r : AuthorizationRecord) (t : MissionStore)
    → Holds id s r t
    → Holds id s (consume_record r) (mark_consumed t r.record_id)
unfolding mark_consumed consume_record
Holds-mark_consumed id s r t (fresh, records, bound) =
    (fresh, rw records (replace_record-last r s.authorization_records fresh), bound)

-- What the insertion of a record leaves, by its result.
abbrev pub Inserted :
    ℕ → MissionStore → AuthorizationRecord → Result (Unit {0}) × MissionStore → Type 0
Inserted id s r (err e, t) = Quiet s t
Inserted id s r (ok _, t) = Holds id s r t

pub insert_authorization-Inserted :
    (id : ℕ) (s : MissionStore) (t : MissionStore) (r : AuthorizationRecord)
    → Quiet s t
    → (id == 0) ≡ false
    → Inserted id s r (insert_authorization_for_attempt t id r)
unfolding insert_authorization_for_attempt insert_authorization_inner
insert_authorization-Inserted id s t r (records, bound) z =
    elim (Bool-cases
      (any (λ existing. existing.record_id == r.record_id) t.authorization_records)) [
        | inl known ↦ rw (z, known) (records, bound)
        | inr new_ ↦ rw (z, new_) (rw (sym records) new_, cc, cc)
      ]

-- The insertion changes neither the log nor the counter.
pub Trail-insert :
    (id : ℕ) (s : MissionStore) (kinds : List MissionEventKind) (t : MissionStore)
    (r : AuthorizationRecord)
    → Trail id s kinds t
    → Trail id s kinds (insert_authorization_for_attempt t id r).1
unfolding insert_authorization_for_attempt insert_authorization_inner
Trail-insert id s kinds t r trail =
    Trail-records id s kinds t (insert_authorization_for_attempt t id r).1 trail
      (Keeps-Step (inserts_for id r)) (ground arith) (ground arith)
