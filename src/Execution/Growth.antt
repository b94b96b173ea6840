-- ===== src/Execution/Growth.antt =====
-- How the operations of the store and an execution let the records and the log of started
-- executions grow (crates/aeon_agent_runtime/src/store.rs and execution.rs).
use genesis_runtime.Common.{
  Bool, Bool-cases, List, [], any, arith, false, if◌then◌else◌, inl, inr, length, length-append,
  list_eq, nat_eq, option_eq, refl, true, ℕ, ◌++◌, ◌+◌, ◌==◌, ◌∷◌, ◌≡◌, ◌≤◌,
}
use genesis_runtime.Ids.{AuthorizationId, identifier_eq}
use genesis_runtime.Json.{Host}
use genesis_runtime.Digest.{digest_eq}
use genesis_runtime.Mission.{DateTime}
use genesis_runtime.Identity.{IdentityCodec}
use genesis_runtime.Authority.{AuthorityCodec, bound_tool_eq, lease_ref_eq}
use genesis_runtime.Action.{ActionCodec}
use genesis_runtime.Agent.{ContextCodec}
use genesis_runtime.Store.{
  AuthorizationRecord, MissionEvent, MissionEventKind, MissionStore, append_event,
  append_for_attempt, authorization_consumed, consume_record, execution_started,
  insert_authorization_for_attempt, insert_authorization_inner, mark_consumed, replace_record,
}
use genesis_runtime.Nexus.{Nexus}
use genesis_runtime.Registry.{ToolCodec}
use genesis_runtime.Execution.{AuthorizedExecution}
use genesis_runtime.Execution.Port.{PortView, execute, log_event, run_tool}
use genesis_runtime.Execution.Refusals.{execute-cases}

abbrev pub is_start : MissionEventKind → Bool
is_start execution_started = true
is_start _ = false

-- The executions that a log says have started.
unfoldable pub count_started : List MissionEvent → ℕ
count_started [] = 0
count_started (e ∷ es) = let rest = count_started es in if is_start e.kind then rest + 1 else rest

count_started-snoc :
    (es : List MissionEvent) (e : MissionEvent)
    → count_started (es ++ e ∷ [])
      ≡ (if is_start e.kind then count_started es + 1 else count_started es)
unfolding count_started
count_started-snoc [] e = ground arith
count_started-snoc (x ∷ es) e = ground (arith, count_started-snoc es e)

length-replace_record :
    (id : AuthorizationId) (f : AuthorizationRecord → AuthorizationRecord)
    (rs : List AuthorizationRecord)
    → length (replace_record id f rs) ≡ length rs
unfolding replace_record
length-replace_record id f [] = refl
length-replace_record id f (r ∷ rs) = ground (arith, length-replace_record id f rs)

-- How far the records and the started executions of a store have grown.
pub record Grows (m n : ℕ) (s s' : MissionStore) : Type 0 where
  pub records : length s'.authorization_records ≤ length s.authorization_records + m
  pub starts : count_started s'.events ≤ count_started s.events + n

Grows-refl : (s : MissionStore) → Grows 0 0 s s
Grows-refl s = record { records = omega arith; starts = omega arith }

log_event-count :
    (s : MissionStore) (event_time : ℕ → DateTime) (id : ℕ) (kind : MissionEventKind)
    → count_started (log_event s event_time id kind).events
      ≡ (if is_start kind then count_started s.events + 1 else count_started s.events)
unfolding log_event append_for_attempt append_event
log_event-count s event_time id kind = count_started-snoc s.events _

log_event-Grows :
    (s : MissionStore) (event_time : ℕ → DateTime) (id : ℕ) (kind : MissionEventKind)
    → Grows 0 1 s (log_event s event_time id kind)
unfolding log_event append_for_attempt append_event
log_event-Grows s event_time id kind = record {
  records = omega arith;
  starts = ground (arith, log_event-count s event_time id kind);
}

pub log_event-quiet :
    (s : MissionStore) (event_time : ℕ → DateTime) (id : ℕ) (kind : MissionEventKind)
    → is_start kind ≡ false
    → Grows 0 0 s (log_event s event_time id kind)
unfolding log_event append_for_attempt append_event
log_event-quiet s event_time id kind other = record {
  records = omega arith;
  starts = ground (arith, other, log_event-count s event_time id kind);
}

pub insert-Grows :
    (s : MissionStore) (id : ℕ) (r : AuthorizationRecord)
    → Grows 1 0 s (insert_authorization_for_attempt s id r).1
unfolding insert_authorization_for_attempt insert_authorization_inner
insert-Grows s id r = elim (Bool-cases (id == 0)) [
  | inl z ↦ rw z (record { records = omega arith; starts = omega arith })
  | inr n ↦ elim (Bool-cases (any (λ x. x.record_id == r.record_id) s.authorization_records)) [
    | inl known ↦ rw (n, known) (record { records = omega arith; starts = omega arith })
    | inr fresh ↦
        rw (n, fresh)
          (record {
            records = omega (arith, length-append s.authorization_records (r ∷ []));
            starts = omega arith;
          })
  ]
]

mark_consumed-Grows : (s : MissionStore) (id : AuthorizationId) → Grows 0 0 s (mark_consumed s id)
unfolding mark_consumed
mark_consumed-Grows s id = record {
  records = omega (arith, length-replace_record id consume_record s.authorization_records);
  starts = omega arith;
}

module _ ⦃h : Host⦄ ⦃identity_codec : IdentityCodec⦄ ⦃authority_codec : AuthorityCodec⦄
    ⦃tool_codec : ToolCodec⦄ ⦃context_codec : ContextCodec⦄ ⦃action_codec : ActionCodec⦄
    ⦃nexus : Nexus⦄ where
  pub execute-Grows :
      (view : PortView) (a : AuthorizedExecution) (id : ℕ) (s : MissionStore)
      → Grows 0 1 s (execute view a id s).1
  unfolding run_tool
  execute-Grows view a id s = elim (execute-cases view a id s) [
    | inl (c, q) ↦ rw q (record { records = omega arith; starts = omega arith })
    | inr e ↦
        let spent = mark_consumed s a.certificate.authorization_record_id in
        let noted = log_event spent view.event_time id authorization_consumed in
        let m = mark_consumed-Grows s a.certificate.authorization_record_id in
        let c = log_event-quiet spent view.event_time id authorization_consumed refl in
        let x = log_event-Grows noted view.event_time id execution_started in
        rw e.runs (record {
          records = omega (arith, m.records, c.records, x.records);
          starts = omega (arith, m.starts, c.starts, x.starts);
        })
  ]
