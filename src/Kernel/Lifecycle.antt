-- ===== src/Kernel/Lifecycle.antt =====
-- Reading, pausing, resuming, revoking and expiring leases (crates/aeon_agent_runtime/src/authority_kernel.rs), over the state
-- under the lock. The time is an argument.
use genesis_runtime.Common.{
  Bool, List, Map, Option, Result, String, [], err, false, get, identity_invalid, if◌then◌else◌,
  lease_inactive, leb, list_eq, modify, nat_eq, next_u64, none, not, ok, ok_or, option_eq,
  refuse_if, some, sort_by, true, ℕ, ◌&&◌, ◌==◌, ◌>>=◌, ◌>>◌, ◌||◌, ◌∷◌,
}
use genesis_runtime.Ids.{AgentId, LeaseId, identifier_eq, identifier_le}
use genesis_runtime.Json.{Host}
use genesis_runtime.Digest.{digest_eq}
use genesis_runtime.Mission.{DateTime}
use genesis_runtime.Identity.{AgentIdentityCertificate}
use genesis_runtime.Authority.{
  LeaseRecord, LeaseState, active, bound_tool_eq, expired, is_live, lease_ref_eq, paused, retired,
  revoked,
}
use genesis_runtime.Kernel.{
  AuthorityEventKind, AuthorityState, LeaseEntry, attempt, lease_expired, lease_paused,
  lease_resumed, push_event,
}
use genesis_runtime.Kernel.Checks.{require_generation}
use genesis_runtime.Kernel.Descendants.{descendants_including, revoke_descendants, revoke_each}

module _ ⦃h : Host⦄ where
  unfoldable pub identity_certificate : AuthorityState → AgentId → Result AgentIdentityCertificate
  identity_certificate st agent_id = ok_or (get agent_id st.identities) identity_invalid

  unfoldable pub lease_snapshot : AuthorityState → LeaseId → Result LeaseEntry
  lease_snapshot st lease_id = ok_or (get lease_id st.leases) lease_inactive

  -- The new record of a lease that is paused or resumed.
  unfoldable pub move_to : LeaseState → LeaseEntry → LeaseEntry
  move_to next_state entry = record entry {
    lease_record = record r { state = next_state; generation = next_u64 r.generation };
  }
    where
      r : LeaseRecord
      r = entry.lease_record

  -- The lease that `renew` replaces.
  unfoldable pub retire_entry : LeaseId → LeaseEntry → LeaseEntry
  retire_entry renewed_by entry = record entry {
    lease_record = record r {
      state = retired;
      generation = next_u64 r.generation;
      renewed_by = some renewed_by;
    };
  }
    where
      r : LeaseRecord
      r = entry.lease_record

  abbrev pub same_state : LeaseState → LeaseState → Bool
  same_state active active = true
  same_state paused paused = true
  same_state revoked revoked = true
  same_state expired expired = true
  same_state retired retired = true
  same_state _ _ = false

  unfoldable pub check_transition :
      AuthorityState → LeaseId → ℕ → LeaseState → DateTime → Result LeaseEntry
  check_transition st lease_id expected_generation expected_state now = do
    entry ← ok_or (get lease_id st.leases) lease_inactive
    require_generation entry.lease_record expected_generation
    refuse_if
        (not (same_state entry.lease_record.state expected_state)
          || leb entry.certificate.expires_at now)
        lease_inactive
    ok entry

  unfoldable pub transition :
      AuthorityState
      → LeaseId
      → ℕ
      → LeaseState
      → LeaseState
      → AuthorityEventKind
      → DateTime
      → Result LeaseRecord × AuthorityState
  unfolding move_to check_transition
  transition st lease_id expected_generation expected_state next_state event now =
      attempt (check_transition st lease_id expected_generation expected_state now) st λ entry. (
        ok (move_to next_state entry).lease_record,
        push_event (record st { leases = modify lease_id (move_to next_state) st.leases }) lease_id
            none event now,
      )

  unfoldable pub pause :
      AuthorityState → LeaseId → ℕ → DateTime → Result LeaseRecord × AuthorityState
  pause st lease_id expected_generation now =
      transition st lease_id expected_generation active paused lease_paused now

  unfoldable pub resume :
      AuthorityState → LeaseId → ℕ → DateTime → Result LeaseRecord × AuthorityState
  resume st lease_id expected_generation now =
      transition st lease_id expected_generation paused active lease_resumed now

  -- What `revoke` does before its loop: the leases that it affects.
  unfoldable pub check_revocation : AuthorityState → LeaseId → ℕ → Result (List LeaseId)
  check_revocation st lease_id expected_generation = do
    entry ← ok_or (get lease_id st.leases) lease_inactive
    require_generation entry.lease_record expected_generation
    refuse_if (not (is_live entry.lease_record.state)) lease_inactive
    descendants_including st lease_id

  -- `(affected_id != lease_id).then(|| lease_id)`
  abbrev pub cause_of : LeaseId → LeaseId → Option LeaseId
  cause_of lease_id affected_id = if affected_id == lease_id then none else some lease_id

  unfoldable pub revoke :
      AuthorityState → LeaseId → ℕ → String → DateTime → Result (List LeaseId) × AuthorityState
  unfolding check_revocation
  revoke st lease_id expected_generation reason now =
      attempt (check_revocation st lease_id expected_generation) st λ affected.
        let (r, st') = revoke_each affected (cause_of lease_id) reason now st in
        attempt r st' (λ _. (ok affected, st'))

  unfoldable pub is_due : DateTime → LeaseEntry → Bool
  is_due now entry = is_live entry.lease_record.state && leb entry.certificate.expires_at now

  unfoldable pub due_leases : DateTime → Map LeaseId LeaseEntry → List LeaseId
  unfolding is_due
  due_leases now [] = []
  due_leases now ((lease_id, entry) ∷ leases) =
      let rest = due_leases now leases in if is_due now entry then lease_id ∷ rest else rest

  unfoldable pub expire_one : AuthorityState → LeaseId → DateTime → AuthorityState
  unfolding move_to
  expire_one st lease_id now =
      push_event (record st { leases = modify lease_id (move_to expired) st.leases }) lease_id none
        lease_expired now

  -- The loop over the due leases.
  unfoldable pub expire_each :
      List LeaseId → DateTime → AuthorityState → Result (List LeaseId) × AuthorityState
  expire_each [] now st = (ok [], st)
  expire_each (lease_id ∷ rest) now st = elim (get lease_id st.leases) [
    | none ↦ (err lease_inactive, st)
    | some entry ↦ elim (is_live entry.lease_record.state) [
      | false ↦ expire_each rest now st
      | true ↦
          let (r, st') =
            revoke_descendants (expire_one st lease_id now) lease_id "ancestor lease expired" now in
          attempt r st' λ _.
            let (r', st'') = expire_each rest now st' in
            attempt r' st'' (λ due. (ok (lease_id ∷ due), st''))
    ]
  ]

  unfoldable pub refresh_expirations :
      AuthorityState → DateTime → Result (List LeaseId) × AuthorityState
  refresh_expirations st now = expire_each (sort_by identifier_le (due_leases now st.leases)) now st
