-- ===== src/Kernel/Evolution/Operations.antt =====
-- Each operation that issues no lease moves the leases along the edges of their lifecycle
-- (crates/aeon_agent_runtime/src/authority_kernel.rs).
use genesis_runtime.Common.{
  Bool-cases, List, Option-cases, Result, String, [], arith, err, get, inl, inr, list_eq, nat_eq,
  none, ok, option_eq, refl, some, true, ℕ, ◌∷◌, ◌≡◌,
}
use genesis_runtime.Ids.{LeaseId, identifier_eq}
use genesis_runtime.Json.{Host}
use genesis_runtime.Mission.{DateTime}
use genesis_runtime.Authority.{
  LeaseState, active, bound_tool_eq, expired, is_live, lease_ref_eq, paused,
}
use genesis_runtime.Kernel.{
  AuthorityEventKind, AuthorityState, LeaseEntry, attempt, lease_expired, lease_paused,
  lease_resumed,
}
use genesis_runtime.Kernel.Checks.{require_generation}
use genesis_runtime.Kernel.Descendants.{
  descendants_including, revoke_descendants, revoke_each, skip_first,
}
use genesis_runtime.Kernel.Lifecycle.{
  cause_of, check_revocation, check_transition, expire_each, expire_one, move_to, pause,
  refresh_expirations, resume, revoke, same_state, transition,
}
use genesis_runtime.Kernel.Evolution.{
  Edge, Evolves, Evolves-modify, Evolves-push_event, Evolves-refl, Evolves-trans, expires, pauses,
  resumes,
}
use genesis_runtime.Kernel.Evolution.Cascade.{Evolves-revoke_each}

module _ ⦃h : Host⦄ where
  pub Evolves-attempt {ℓ κ} :
      {A : Type ℓ} {B : Type κ} (st : AuthorityState) (r : Result A) (st' : AuthorityState)
      (next : A → Result B × AuthorityState)
      → Evolves st st'
      → ((x : A) → r ≡ ok x → Evolves st (next x).1)
      → Evolves st (attempt r st' next).1
  Evolves-attempt st (ok x) st' next ev more = more x refl
  Evolves-attempt st (err e) st' next ev more = ev

  check_transition-state :
      (st : AuthorityState) (id : LeaseId) (generation : ℕ) (from_ : LeaseState) (now : DateTime)
      (entry e : LeaseEntry)
      → check_transition st id generation from_ now ≡ ok entry
      → get id st.leases ≡ some e
      → same_state e.lease_record.state from_ ≡ true
  unfolding check_transition require_generation
  check_transition-state st id generation from_ now entry e r found = ground arith

  pub Evolves-transition :
      (st : AuthorityState) (id : LeaseId) (generation : ℕ) (from_ to_ : LeaseState)
      (event : AuthorityEventKind) (now : DateTime)
      → ((e : LeaseEntry) → same_state e.lease_record.state from_ ≡ true → Edge e (move_to to_ e))
      → Evolves st (transition st id generation from_ to_ event now).1
  unfolding transition check_transition
  Evolves-transition st id generation from_ to_ event now edge =
      Evolves-attempt st (check_transition st id generation from_ now) st _ (Evolves-refl st)
        (λ entry r.
          Evolves-trans
            (Evolves-modify st id (move_to to_) (λ e found.
              edge e (check_transition-state st id generation from_ now entry e r found)))
            (Evolves-push_event _ id none event now))

  pub Evolves-pause :
      (st : AuthorityState) (id : LeaseId) (generation : ℕ) (now : DateTime)
      → Evolves st (pause st id generation now).1
  unfolding pause
  Evolves-pause st id generation now =
      Evolves-transition st id generation active paused lease_paused now
        (λ e s. pauses (ground arith))

  pub Evolves-resume :
      (st : AuthorityState) (id : LeaseId) (generation : ℕ) (now : DateTime)
      → Evolves st (resume st id generation now).1
  unfolding resume
  Evolves-resume st id generation now =
      Evolves-transition st id generation paused active lease_resumed now
        (λ e s. resumes (ground arith))

  pub Evolves-revoke :
      (st : AuthorityState) (id : LeaseId) (generation : ℕ) (reason : String) (now : DateTime)
      → Evolves st (revoke st id generation reason now).1
  unfolding revoke
  Evolves-revoke st id generation reason now =
      Evolves-attempt st (check_revocation st id generation) st _ (Evolves-refl st) (λ affected _.
        Evolves-attempt st (revoke_each affected (cause_of id) reason now st).0
          (revoke_each affected (cause_of id) reason now st).1 _
          (Evolves-revoke_each (cause_of id) reason now affected st)
          (λ _ _. Evolves-revoke_each (cause_of id) reason now affected st))

  pub Evolves-revoke_descendants :
      (st : AuthorityState) (root : LeaseId) (reason : String) (now : DateTime)
      → Evolves st (revoke_descendants st root reason now).1
  unfolding revoke_descendants
  Evolves-revoke_descendants st root reason now =
      Evolves-attempt st (descendants_including st root) st _ (Evolves-refl st)
        (λ ds _. Evolves-revoke_each (λ _. some root) reason now (skip_first ds) st)

  pub Evolves-expire_one :
      (st : AuthorityState) (id : LeaseId) (e : LeaseEntry) (now : DateTime)
      → get id st.leases ≡ some e
      → is_live e.lease_record.state ≡ true
      → Evolves st (expire_one st id now)
  unfolding expire_one
  Evolves-expire_one st id e now found live =
      Evolves-trans
        (Evolves-modify st id (move_to expired)
          (λ f q. let same : e ≡ f = ground arith in expires (rw same at live)))
        (Evolves-push_event _ id none lease_expired now)

  pub Evolves-expire_each :
      (ids : List LeaseId) (now : DateTime) (st : AuthorityState)
      → Evolves st (expire_each ids now st).1
  unfolding expire_each
  Evolves-expire_each [] now st = Evolves-refl st
  Evolves-expire_each (id ∷ ids) now st = elim (Option-cases (get id st.leases)) [
    | inl missing ↦ rw (missing, expire_each) (Evolves-refl st)
    | inr (e, found) ↦ elim (Bool-cases (is_live e.lease_record.state)) [
      | inr dead ↦ rw (found, dead, expire_each) (Evolves-expire_each ids now st)
      | inl live ↦
          let one = expire_one st id now in
          let cascade = revoke_descendants one id "ancestor lease expired" now in
          let ev : Evolves st cascade.1 =
            Evolves-trans (Evolves-expire_one st id e now found live)
              (Evolves-revoke_descendants one id "ancestor lease expired" now) in
          let rest = Evolves-trans ev (Evolves-expire_each ids now cascade.1) in
          rw (found, live, expire_each)
            (Evolves-attempt st cascade.0 cascade.1 _ ev (λ _ _.
              Evolves-attempt st (expire_each ids now cascade.1).0 (expire_each ids now cascade.1).1
                _ rest (λ _ _. rest)))
    ]
  ]

  pub Evolves-refresh_expirations :
      (st : AuthorityState) (now : DateTime) → Evolves st (refresh_expirations st now).1
  unfolding refresh_expirations
  Evolves-refresh_expirations st now = Evolves-expire_each _ now st
