-- ===== src/Store/Complete.antt =====
-- Stores whose evidence is complete, and one more attempt on such a store
-- (crates/aeon_agent_runtime/src/store.rs).
use genesis_runtime.Store.Counting.{check_consumed-append, check_consumed-new, count_consumed-new}
use genesis_runtime.Store.Grouping.{
  Tagged, get-append, get_list-last, group_attempts-new, validate_attempts-append, values-append,
}
use genesis_runtime.Common.{
  Bool-cases, List, Map, [], any, append_assoc, arith, count_if, drop, false, get, inl, inr, insert,
  list_eq, ltb, nat_eq, none, not, ok, option_eq, refl, true, values, ℕ, ◌++◌, ◌+◌, ◌<◌, ◌==◌, ◌∷◌,
  ◌≡◌, ◌≢◌, ◌⊎◌,
}
use genesis_runtime.Ids.{identifier_eq}
use genesis_runtime.Store.{
  AuthorizationRecord, MissionEvent, MissionEventKind, MissionStore, is_consumed,
}
use genesis_runtime.Store.Evidence.{
  Attempts, check_consumed, count_consumed, group_attempts, has_activation_prefix,
  is_complete_attempt, is_consumption, is_misnumbered, validate_attempts, verify_event_completeness,
}
use genesis_runtime.Store.History.{Keeps}
use mathlib.Core.Path.{ap, ◌∙◌}

-- Numbers above the counter are still free.
abbrev pub IsFreeAbove : {V : Type 0} → ℕ → Map ℕ V → Type 0
IsFreeAbove n m = (k : ℕ) → n < k → get k m ≡ none

-- What the check of the evidence asks, split into what one attempt changes.
pub record IsComplete (s : MissionStore) : Type 0 where
  pub foundation : List MissionEvent
  pub rest : List MissionEvent
  pub split : s.events ≡ foundation ++ rest
  pub four : (later : List MissionEvent) → drop 4 (foundation ++ later) ≡ later
  pub prefix : (later : List MissionEvent) → has_activation_prefix (foundation ++ later) ≡ true
  pub numbered : is_misnumbered 0 s.events ≡ false
  pub owned : any (λ e. not (e.mission_id == s.mission_id)) s.events ≡ false
  pub attempts : Attempts
  pub grouped : group_attempts rest [] ≡ ok attempts
  pub free : IsFreeAbove s.next_attempt_id attempts
  pub valid : validate_attempts (values attempts) ≡ ok tt
  pub counts : Map ℕ ℕ
  pub counted : count_consumed s.authorization_attempts s.authorization_records [] ≡ ok counts
  pub uncounted : IsFreeAbove s.next_attempt_id counts
  pub covered : check_consumed attempts counts ≡ ok tt

pub IsComplete-verified : (s : MissionStore) → IsComplete s → verify_event_completeness s ≡ ok tt
unfolding verify_event_completeness
IsComplete-verified s c =
    let prefix : has_activation_prefix s.events ≡ true = rw c.split (c.prefix c.rest) in
    let dropped : drop 4 s.events ≡ c.rest = rw c.split (c.four c.rest) in
    rw (prefix, c.numbered, c.owned, dropped, c.grouped, c.valid, c.counted) c.covered

-- The record of an attempt: none, or one of a new identifier that is bound to the attempt, and is
-- consumed only if an event says so.
abbrev pub Ledger : MissionStore → MissionStore → ℕ → List MissionEventKind → Type 0
Ledger s t id kinds =
    ((t.authorization_records ≡ s.authorization_records)
      × (t.authorization_attempts ≡ s.authorization_attempts))
    ⊎ ((r : AuthorizationRecord) × (any (λ x. x.record_id == r.record_id) s.authorization_records
          ≡ false)
        × (t.authorization_records ≡ s.authorization_records ++ r ∷ [])
        × (t.authorization_attempts ≡ insert r.record_id id s.authorization_attempts)
        × (is_consumed r.state ≡ true → ltb (count_if is_consumption kinds) 1 ≡ false))

-- One whole attempt, from the store before it to the store after it.
pub record Attempted (s t : MissionStore) : Type 0 where
  pub id : ℕ
  pub next : id ≡ s.next_attempt_id + 1
  pub counter : t.next_attempt_id ≡ id
  pub added : List MissionEvent
  pub events : t.events ≡ s.events ++ added
  pub kinds : List MissionEventKind
  pub tagged : Tagged id added kinds
  pub complete : is_complete_attempt kinds ≡ true
  pub keeps : Keeps s t
  pub ledger : Ledger s t id kinds

Attempted-above : (s t : MissionStore) (a : Attempted s t) → s.next_attempt_id < a.id
Attempted-above s t a = omega (arith, a.next)

IsFreeAbove-new :
    {V : Type 0} (n id : ℕ) (v : V) (m : Map ℕ V)
    → n < id
    → IsFreeAbove n m
    → IsFreeAbove id (m ++ (id, v) ∷ [])
IsFreeAbove-new n id v m above free k q =
    let old : get k m ≡ none = free k (omega arith) in
    let other : id ≢ k = λ e. omega arith in ground (arith, get-append id k v m, old, other)

IsFreeAbove-le : {V : Type 0} (n id : ℕ) (m : Map ℕ V) → n < id → IsFreeAbove n m → IsFreeAbove id m
IsFreeAbove-le n id m above free k q = free k (omega arith)

-- The counts after one more attempt.
record Counts (s t : MissionStore) (id : ℕ) (attempts : Attempts) : Type 0 where
  counts : Map ℕ ℕ
  counted : count_consumed t.authorization_attempts t.authorization_records [] ≡ ok counts
  uncounted : IsFreeAbove id counts
  covered : check_consumed attempts counts ≡ ok tt

Counts-new :
    (s t : MissionStore) (c : IsComplete s) (a : Attempted s t)
    → Counts s t a.id (c.attempts ++ (a.id, a.kinds) ∷ [])
Counts-new s t c a =
    let above = Attempted-above s t a in
    let kinds = a.kinds in
    let old = check_consumed-new a.id kinds c.attempts c.counts c.covered in
    let free = c.free a.id above in
    elim a.ledger [
      | inl (same, bound) ↦ record {
        counts = c.counts;
        counted = rw (same, bound) c.counted;
        uncounted = IsFreeAbove-le _ a.id c.counts above c.uncounted;
        covered = old;
      }
      | inr (r, new_, records, bound, spent) ↦
          let counted =
            count_consumed-new r a.id s.authorization_attempts s.authorization_records c.counts new_
              (c.uncounted a.id above) c.counted in
          elim (Bool-cases (is_consumed r.state)) [
            | inl q ↦ record {
              counts = c.counts ++ (a.id, 1) ∷ [];
              counted = rw (records, bound, counted, q) refl;
              uncounted = IsFreeAbove-new _ a.id 1 c.counts above c.uncounted;
              covered =
                  check_consumed-append _ c.counts a.id 1 old
                    (rw (get_list-last a.id kinds c.attempts free) (spent q));
            }
            | inr q ↦ record {
              counts = c.counts;
              counted = rw (records, bound, counted, q) refl;
              uncounted = IsFreeAbove-le _ a.id c.counts above c.uncounted;
              covered = old;
            }
          ]
    ]

-- One more attempt keeps the evidence complete.
pub IsComplete-Attempted : (s t : MissionStore) → IsComplete s → Attempted s t → IsComplete t
unfolding values
IsComplete-Attempted s t c a =
    let n = Counts-new s t c a in
    let above = Attempted-above s t a in
    let free = c.free a.id above in
    let positive : (a.id == 0) ≡ false = ground (arith, above) in
    record {
      foundation = c.foundation;
      rest = c.rest ++ a.added;
      split =
          a.events ∙ ap (λ es. es ++ a.added) c.split ∙ append_assoc c.foundation c.rest a.added;
      four = c.four;
      prefix = c.prefix;
      numbered = a.keeps.numbered c.numbered;
      owned = a.keeps.owned c.owned;
      attempts = c.attempts ++ (a.id, a.kinds) ∷ [];
      grouped =
          group_attempts-new a.id c.rest a.added a.kinds c.attempts positive free a.complete
            a.tagged c.grouped;
      free = rw a.counter (IsFreeAbove-new _ a.id _ c.attempts above c.free);
      valid =
          rw (values-append c.attempts ((a.id, a.kinds) ∷ []))
            (validate_attempts-append (values c.attempts) a.kinds c.valid a.complete);
      counts = n.counts;
      counted = n.counted;
      uncounted = rw a.counter n.uncounted;
      covered = n.covered;
    }
