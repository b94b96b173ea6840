-- ===== src/Store/History.antt =====
-- Histories of the mission store: its operations in any order, failed calls included
-- (crates/aeon_agent_runtime/src/store.rs).
use mathlib.Core.Path.{ap}
use genesis_runtime.Common.{
  ==_iff, Bool, Bool-cases, List, Option, Result, Result-cases, [], any, arith, err, false, inl,
  inr, length, list_eq, nat_eq, none, not, ok, option_eq, refl, some, ℕ, ◌++◌, ◌+◌, ◌==◌, ◌∷◌, ◌≡◌,
}
use genesis_runtime.Ids.{AuthorizationId, MissionId, identifier_eq}
use genesis_runtime.Digest.{digest_eq}
use genesis_runtime.Mission.{DateTime}
use genesis_runtime.Authority.{bound_tool_eq, lease_ref_eq}
use genesis_runtime.Store.{
  AuthorizationRecord, MissionEvent, MissionEventKind, MissionStore, append, append_event,
  append_for_attempt, available_record, begin_attempt, consume_authorization,
  consume_authorization_with, consume_record, consumed, find_record, insert_authorization,
  insert_authorization_for_attempt, insert_authorization_inner, mark_consumed, new_store,
}
use genesis_runtime.Store.Evidence.{is_misnumbered}
use genesis_runtime.Store.Records.{available_record-found, find-append, find-replace_record}

-- One call of a method of the store.
pub data StoreStep (s : MissionStore) : MissionStore → Type 1 where
  appends : (kind : MissionEventKind) (now : DateTime) → StoreStep s (append s kind now)
  appends_for :
      (attempt_id : ℕ) (kind : MissionEventKind) (now : DateTime)
      → StoreStep s (append_for_attempt s attempt_id kind now)
  begins : StoreStep s (begin_attempt s).1
  inserts : (r : AuthorizationRecord) → StoreStep s (insert_authorization s r).1
  inserts_for :
      (attempt_id : ℕ) (r : AuthorizationRecord)
      → StoreStep s (insert_authorization_for_attempt s attempt_id r).1
  consumes :
      (id : AuthorizationId) (generation : ℕ)
      → StoreStep s (consume_authorization s id generation).1
  consumes_with :
      {T : Type 0} (id : AuthorizationId) (generation : ℕ) (commit : Result T)
      → StoreStep s (consume_authorization_with s id generation commit).1

pub data StoreRuns (s : MissionStore) : MissionStore → Type 1 where
  start : StoreRuns s s
  step : {t u : MissionStore} → StoreRuns s t → StoreStep t u → StoreRuns s u

-- What every operation keeps: the log stays numbered, and a stored record that no operation may
-- consume stays what it is.
pub record Keeps (s t : MissionStore) : Type 0 where
  pub numbered : is_misnumbered 0 s.events ≡ false → is_misnumbered 0 t.events ≡ false
  pub owned :
      any (λ e. not (e.mission_id == s.mission_id)) s.events ≡ false
      → any (λ e. not (e.mission_id == t.mission_id)) t.events ≡ false
  pub spent :
      (id : AuthorizationId) (r : AuthorizationRecord)
      → find_record id s.authorization_records ≡ some r
      → r.state ≡ consumed
      → find_record id t.authorization_records ≡ some r

pub Keeps-refl : (s : MissionStore) → Keeps s s
Keeps-refl s = record { numbered = λ n. n; owned = λ o. o; spent = λ id r f d. f }

pub Keeps-trans : {s t u : MissionStore} → Keeps s t → Keeps t u → Keeps s u
Keeps-trans a b = record {
  numbered = λ n. b.numbered (a.numbered n);
  owned = λ o. b.owned (a.owned o);
  spent = λ id r f d. b.spent id r (a.spent id r f d) d;
}

is_misnumbered-append :
    (n : ℕ) (events : List MissionEvent) (e : MissionEvent)
    → is_misnumbered n events ≡ false
    → e.sequence ≡ n + length events + 1
    → is_misnumbered n (events ++ e ∷ []) ≡ false
unfolding is_misnumbered
is_misnumbered-append n [] e h q = ground (arith)
is_misnumbered-append n (x ∷ events) e h q = ground (arith, is_misnumbered-append (n + 1) events e)

any-append {ℓ} :
    {A : Type ℓ} (p : A → Bool) (xs ys : List A)
    → any p xs ≡ false
    → any p ys ≡ false
    → any p (xs ++ ys) ≡ false
unfolding any
any-append p [] ys h k = k
any-append p (x ∷ xs) ys h k = ground (arith, any-append p xs ys)

Keeps-append_event :
    (s : MissionStore) (attempt_id : Option ℕ) (kind : MissionEventKind) (now : DateTime)
    → Keeps s (append_event s attempt_id kind now)
unfolding append_event any
Keeps-append_event s attempt_id kind now = record {
  numbered = λ n. is_misnumbered-append 0 s.events _ n (omega arith);
  owned =
      λ o. any-append _ s.events _ o (ground (arith, (==_iff s.mission_id s.mission_id).1 refl));
  spent = λ id r f d. f;
}

Keeps-insert :
    (s : MissionStore) (r : AuthorizationRecord) (attempt_id : Option ℕ)
    → Keeps s (insert_authorization_inner s r attempt_id).1
unfolding insert_authorization_inner
Keeps-insert s r attempt_id =
    elim (Bool-cases
      (any (λ existing. existing.record_id == r.record_id) s.authorization_records)) [
        | inl known ↦ rw known (Keeps-refl s)
        | inr new_ ↦ rw new_ (record {
          numbered = λ n. n;
          owned = λ o. o;
          spent = λ id v f d. ground (arith, find-append id s.authorization_records (r ∷ []), f);
        })
      ]

Keeps-mark_consumed :
    (s : MissionStore) (id : AuthorizationId) (generation : ℕ) (v : AuthorizationRecord)
    → available_record s id generation ≡ ok v
    → Keeps s (mark_consumed s id)
unfolding mark_consumed consume_record
Keeps-mark_consumed s id generation v available =
    let (found, a) = available_record-found s id generation v available in
    record {
      numbered = λ n. n;
      owned = λ o. o;
      spent = λ x r f d. elim (Bool-cases (id == x)) [
        | inl hit ↦
            let same : id ≡ x = (==_iff id x).0 hit in
            let one : v ≡ r = ground (arith, found, f, same) in
            absurd (cc (a.is_issued, d, ap (λ (u : AuthorizationRecord). u.state) one))
        | inr other ↦
            ground (
              arith,
              f,
              find-replace_record id x consume_record s.authorization_records (λ _. refl),
            )
      ];
    }

Keeps-consume :
    (s : MissionStore) (id : AuthorizationId) (generation : ℕ)
    → Keeps s (consume_authorization s id generation).1
unfolding consume_authorization
Keeps-consume s id generation = elim (Result-cases (available_record s id generation)) [
  | inl (e, refused) ↦ rw refused (Keeps-refl s)
  | inr (v, available) ↦ rw available (Keeps-mark_consumed s id generation v available)
]

pub Keeps-consume_with :
    {T : Type 0} (s : MissionStore) (id : AuthorizationId) (generation : ℕ) (commit : Result T)
    → Keeps s (consume_authorization_with s id generation commit).1
unfolding consume_authorization_with
Keeps-consume_with s id generation (err c) =
    elim (Result-cases (available_record s id generation)) [
      | inl (e, refused) ↦ rw refused (Keeps-refl s)
      | inr (v, available) ↦ rw available (Keeps-refl s)
    ]
Keeps-consume_with s id generation (ok t) = elim (Result-cases (available_record s id generation)) [
  | inl (e, refused) ↦ rw refused (Keeps-refl s)
  | inr (v, available) ↦ rw available (Keeps-mark_consumed s id generation v available)
]

Keeps-insert_for :
    (s : MissionStore) (attempt_id : ℕ) (r : AuthorizationRecord)
    → Keeps s (insert_authorization_for_attempt s attempt_id r).1
unfolding insert_authorization_for_attempt
Keeps-insert_for s attempt_id r = elim (Bool-cases (attempt_id == 0)) [
  | inl zero_ ↦ rw zero_ (Keeps-refl s)
  | inr other ↦ rw other (Keeps-insert s r (some attempt_id))
]

pub Keeps-Step : {s t : MissionStore} → StoreStep s t → Keeps s t
unfolding append append_for_attempt begin_attempt insert_authorization
Keeps-Step {s} (appends kind now) = Keeps-append_event s none kind now
Keeps-Step {s} (appends_for attempt_id kind now) = Keeps-append_event s (some attempt_id) kind now
Keeps-Step {s} begins = record { numbered = λ n. n; owned = λ o. o; spent = λ id r f d. f }
Keeps-Step {s} (inserts r) = Keeps-insert s r none
Keeps-Step {s} (inserts_for attempt_id r) = Keeps-insert_for s attempt_id r
Keeps-Step {s} (consumes id generation) = Keeps-consume s id generation
Keeps-Step {s} (consumes_with id generation commit) = Keeps-consume_with s id generation commit

pub Keeps-Runs : {s t : MissionStore} → StoreRuns s t → Keeps s t
Keeps-Runs {s} start = Keeps-refl s
Keeps-Runs {s} (step runs last) = Keeps-trans (Keeps-Runs runs) (Keeps-Step last)

-- The log of a store that any calls have left, failed ones included, is numbered from 1 without
-- a gap, and every event of it names the mission of the store.
pub StoreRuns-numbered :
    (mission_id : MissionId) (s : MissionStore)
    → StoreRuns (new_store mission_id) s
    → (is_misnumbered 0 s.events ≡ false)
      × (any (λ e. not (e.mission_id == s.mission_id)) s.events ≡ false)
unfolding new_store is_misnumbered any
StoreRuns-numbered mission_id s runs = let k = Keeps-Runs runs in (k.numbered refl, k.owned refl)
