-- ===== src/Kernel/Evolution/Stale.antt =====
-- A generation that was observed before a change is refused after it
-- (crates/aeon_agent_runtime/src/authority_kernel.rs).
use mathlib.Core.Path.{ap, subst}
use genesis_runtime.Common.{
  ErrorCode, List, Result, ==_iff, Result-cases, String, arith, err, false, get, get-modify, inl,
  inr, lease_generation_mismatch, list_eq, nat_eq, next_u64_ne, ok, option_eq, refl, some, ℕ, ◌==◌,
  ◌≡◌,
}
use genesis_runtime.Ids.{LeaseId, identifier_eq}
use genesis_runtime.Json.{Host}
use genesis_runtime.Mission.{DateTime}
use genesis_runtime.Authority.{LeaseRecord, LeaseState, active, bound_tool_eq, lease_ref_eq, paused}
use genesis_runtime.Kernel.{
  AuthorityEventKind, AuthorityState, LeaseEntry, lease_paused, lease_resumed, push_event,
}
use genesis_runtime.Identity.{IdentityCodec, KeyCustody}
use genesis_runtime.Kernel.{DelegationRequest, RenewalRequest, ValidatedAuthority}
use genesis_runtime.Authority.{AuthorityCodec, CapabilityManifest}
use genesis_runtime.Kernel.Checks.{validate_active_record}
use genesis_runtime.Kernel.Delegate.{check_delegation, delegate}
use genesis_runtime.Kernel.Renew.{check_renewal, renew}
use genesis_runtime.Kernel.Chain.{commit_active_chain, validate_active_chain, validate_chain}
use genesis_runtime.Kernel.Chain.Sound.{validate_chain-generation}
use genesis_runtime.Kernel.Checks.{require_generation}
use genesis_runtime.Kernel.Lifecycle.{
  check_revocation, check_transition, move_to, pause, resume, revoke, transition,
}

module _ ⦃h : Host⦄ where
  -- The stored lease has another generation than `generation`.
  IsStale : AuthorityState → LeaseId → ℕ → Type 0
  IsStale st id generation =
      (e : LeaseEntry) × (get id st.leases ≡ some e)
      × ((e.lease_record.generation == generation) ≡ false)

  module _ (st : AuthorityState) (id : LeaseId) (generation : ℕ) where
    check_transition-stale :
        (from_ : LeaseState) (now : DateTime)
        → IsStale st id generation
        → check_transition st id generation from_ now ≡ err lease_generation_mismatch
    unfolding check_transition require_generation IsStale
    check_transition-stale from_ now (e, found, other) = rw (found, other) refl

    transition-stale :
        (from_ to_ : LeaseState) (event : AuthorityEventKind) (now : DateTime)
        → IsStale st id generation
        → transition st id generation from_ to_ event now ≡ (err lease_generation_mismatch, st)
    unfolding transition
    transition-stale from_ to_ event now stale = rw (check_transition-stale from_ now stale) refl

    revoke-stale :
        (reason : String) (now : DateTime)
        → IsStale st id generation
        → revoke st id generation reason now ≡ (err lease_generation_mismatch, st)
    unfolding revoke check_revocation require_generation IsStale
    revoke-stale reason now (e, found, other) = rw (found, other) refl

    check_transition-found :
        (from_ : LeaseState) (now : DateTime) (e : LeaseEntry)
        → check_transition st id generation from_ now ≡ ok e
        → (get id st.leases ≡ some e) × (e.lease_record.generation ≡ generation)
    unfolding check_transition require_generation
    check_transition-found from_ now e checked = ground arith

    transition-IsStale :
        (from_ to_ : LeaseState) (event : AuthorityEventKind) (now : DateTime) (r : LeaseRecord)
        → (transition st id generation from_ to_ event now).0 ≡ ok r
        → IsStale (transition st id generation from_ to_ event now).1 id generation
    unfolding transition IsStale push_event move_to
    transition-IsStale from_ to_ event now r done =
        elim (Result-cases (check_transition st id generation from_ now)) [
          | inl (c, refused) ↦ absurd (cc (rw refused at done))
          | inr (e, checked) ↦
              let (found, current) = check_transition-found from_ now e checked in
              rw checked (
                move_to to_ e,
                ground
                    (arith, get-modify id id (move_to to_) st.leases, found, (==_iff id id).1 refl),
                ground (arith, next_u64_ne e.lease_record.generation, current),
              )
        ]

  -- The calls that validate a chain or a parent, under a stale generation.
  module _ ⦃identity_codec : IdentityCodec⦄ ⦃codec : AuthorityCodec⦄ (st : AuthorityState)
      (id : LeaseId) (generation : ℕ) (stale : IsStale st id generation) (now : DateTime) where
    validate_chain-stale :
        (manifest : CapabilityManifest)
        → (c : ErrorCode) × (validate_chain st id (some generation) manifest now ≡ err c)
    unfolding IsStale
    validate_chain-stale manifest =
        elim (Result-cases (validate_chain st id (some generation) manifest now)) [
          | inl (c, q) ↦ (c, q)
          | inr (v, q) ↦
              let (e, found, other) = stale in
              let current = validate_chain-generation st id generation manifest now v e q found in
              absurd (cc ((==_iff e.lease_record.generation generation).1 current, other))
        ]

    commit_active_chain-stale {ℓ} :
        {T : Type ℓ} (manifest : CapabilityManifest) (commit : ValidatedAuthority → Result T)
        → (c : ErrorCode) × (commit_active_chain st id (some generation) manifest now commit
            ≡ err c)
    unfolding commit_active_chain
    commit_active_chain-stale manifest commit =
        let (c, q) = validate_chain-stale manifest in (c, rw q refl)

    delegate-stale :
        (request : DelegationRequest) (custody : KeyCustody) (uuid : List ℕ)
        → request.parent_lease_id ≡ id
        → request.expected_parent_generation ≡ generation
        → delegate st request custody uuid now ≡ (err lease_generation_mismatch, st)
    unfolding delegate check_delegation validate_active_record require_generation IsStale
    delegate-stale request custody uuid parent expected =
        let (e, found, other) = stale in rw (parent, expected, found, other) refl

    renew-stale :
        (request : RenewalRequest) (uuid : List ℕ)
        → request.lease_id ≡ id
        → request.expected_generation ≡ generation
        → renew st request uuid now ≡ (err lease_generation_mismatch, st)
    unfolding renew check_renewal validate_active_record require_generation IsStale
    renew-stale request uuid named expected =
        let (e, found, other) = stale in rw (named, expected, found, other) refl

  module _ ⦃identity_codec : IdentityCodec⦄ ⦃codec : AuthorityCodec⦄ where
    -- After a transition that returned a record (a pause or a resume), each next call of the kernel
    -- that still names the generation from before it is refused. A pause, a resume, a revocation, a
    -- delegation under the lease and a renewal of it fail for the generation and leave the state as
    -- it is; the validation of its chain, and a commit under it, whatever its action is, fail.
    pub transition-refuses_stale :
        (st : AuthorityState) (id : LeaseId) (generation : ℕ) (from_ to_ : LeaseState)
        (event : AuthorityEventKind) (now : DateTime) (r : LeaseRecord) (st' : AuthorityState)
        (reason : String) (now' : DateTime) (delegation : DelegationRequest)
        (renewal : RenewalRequest) (custody : KeyCustody) (uuid : List ℕ)
        (manifest : CapabilityManifest) (commit : ValidatedAuthority → Result (Unit {0}))
        → delegation.parent_lease_id ≡ id
        → delegation.expected_parent_generation ≡ generation
        → renewal.lease_id ≡ id
        → renewal.expected_generation ≡ generation
        → transition st id generation from_ to_ event now ≡ (ok r, st')
        → (pause st' id generation now' ≡ (err lease_generation_mismatch, st'))
          × (resume st' id generation now' ≡ (err lease_generation_mismatch, st'))
          × (revoke st' id generation reason now' ≡ (err lease_generation_mismatch, st'))
          × (delegate st' delegation custody uuid now' ≡ (err lease_generation_mismatch, st'))
          × (renew st' renewal uuid now' ≡ (err lease_generation_mismatch, st'))
          × ((c : ErrorCode) × (validate_active_chain st' id (some generation) manifest now'
                ≡ err c))
          × ((c : ErrorCode) × (commit_active_chain st' id (some generation) manifest now' commit
                ≡ err c))
    unfolding pause resume validate_active_chain
    transition-refuses_stale st id generation from_ to_ event now r st' reason now' delegation
          renewal custody uuid manifest commit under expected named current done =
        let stale : IsStale st' id generation =
          subst (λ s. IsStale s id generation) (ap (λ u. u.1) done)
            (transition-IsStale st id generation from_ to_ event now r (ap (λ u. u.0) done)) in
        (
          transition-stale st' id generation active paused lease_paused now' stale,
          transition-stale st' id generation paused active lease_resumed now' stale,
          revoke-stale st' id generation reason now' stale,
          delegate-stale st' id generation stale now' delegation custody uuid under expected,
          renew-stale st' id generation stale now' renewal uuid named current,
          validate_chain-stale st' id generation stale now' manifest,
          commit_active_chain-stale st' id generation stale now' manifest commit,
        )
