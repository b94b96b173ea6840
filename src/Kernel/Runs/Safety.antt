-- ===== src/Kernel/Runs/Safety.antt =====
-- What the authority kernel promises over any history of calls
-- (crates/aeon_agent_runtime/src/authority_kernel.rs).
use mathlib.Core.Path.{ap}
use genesis_runtime.Common.{
  >>=-eq-ok, ErrorCode, List, Option, Result, Result-cases, String, arith, err, false, get, inl,
  inr, insert, list_eq, nat_eq, none, ok, ok-inj, option_eq, refl, some, subst, true, ℕ, ◌∙◌, ◌≡◌,
}
use genesis_runtime.Ids.{LeaseId, identifier_eq, new_lease_id}
use genesis_runtime.Json.{Host}
use genesis_runtime.Digest.{digest_eq}
use genesis_runtime.Mission.{DateTime}
use genesis_runtime.Identity.{AgentIdentityCertificate, IdentityCodec, KeyCustody, identity_digest}
use genesis_runtime.Authority.{
  AuthorityCodec, AuthorityLeaseCertificate, CapabilityManifest, active_record, bound_tool_eq,
  is_live, lease_ref_eq,
}
use genesis_runtime.Authority.Manifest.{manifest_digest}
use genesis_runtime.Kernel.{
  AuthorityState, LeaseEntry, RootLeaseRequest, ValidatedAuthority, push_event,
}
use genesis_runtime.Kernel.Chain.{commit_active_chain, validate_active_chain, validate_chain}
use genesis_runtime.Kernel.Chain.Sound.{validate_chain-usable}
use genesis_runtime.Kernel.Requests.{validate_root_request}
use genesis_runtime.Kernel.Issue.{new_entry, signed_identity, signed_lease, unsigned_lease}
use genesis_runtime.Kernel.Descendants.Correct.{Descends, here}
use genesis_runtime.Kernel.Lifecycle.{revoke}
use genesis_runtime.Kernel.Bootstrap.{bootstrap, root_draft, root_state}
use genesis_runtime.Kernel.Evolution.{Moves, Moves-SameLease, Moves-dead, Moves-trans, stays}
use genesis_runtime.Kernel.Evolution.Exact.{Descends-IsStored, revoke_cascades, IsRevocation-dead}
use genesis_runtime.Kernel.Evolution.Operations.{
  Evolves-pause, Evolves-refresh_expirations, Evolves-resume, Evolves-revoke,
}
use genesis_runtime.Kernel.Runs.{
  Runs, Step, WellFormed, delegates, pauses_lease, refreshes, renews, resumes_lease, revokes_lease,
  start, step,
}
use genesis_runtime.Kernel.Runs.Growth.{Grows, Grows-IsStored, WellFormed-Grows, evolves}
use genesis_runtime.Kernel.Runs.Issuing.{Grows-delegate, signed_lease-draft}
use genesis_runtime.Kernel.Runs.Renewing.{Grows-renew}

module _ ⦃h : Host⦄ ⦃identity_codec : IdentityCodec⦄ ⦃codec : AuthorityCodec⦄ where
  pub Grows-Step : {st st' : AuthorityState} → Step st st' → Grows st st'
  Grows-Step {st} (pauses_lease id generation now) = evolves (Evolves-pause st id generation now)
  Grows-Step {st} (resumes_lease id generation now) = evolves (Evolves-resume st id generation now)
  Grows-Step {st} (revokes_lease id generation reason now) =
      evolves (Evolves-revoke st id generation reason now)
  Grows-Step {st} (refreshes now) = evolves (Evolves-refresh_expirations st now)
  Grows-Step {st} (delegates request custody uuid now fresh) =
      Grows-delegate st request custody uuid now fresh
  Grows-Step {st} (renews request uuid now fresh) = Grows-renew st request uuid now fresh

  Runs-IsStored :
      {st st' : AuthorityState} (x : LeaseId) (e : LeaseEntry)
      → Runs st st'
      → get x st.leases ≡ some e
      → (f : LeaseEntry) × (get x st'.leases ≡ some f) × Moves e f
  Runs-IsStored x e start found = (e, found, stays)
  Runs-IsStored x e (step runs s) found =
      let (f, found', m) = Runs-IsStored x e runs found in
      let (g, found'', n) = Grows-IsStored x f (Grows-Step s) found' in
      (g, found'', Moves-trans m n)

  -- A lease that is stored stays stored through any calls, those that fail included, with the
  -- certificate and the manifest it was issued with.
  pub Runs-certificate :
      (st st' : AuthorityState) (x : LeaseId) (e : LeaseEntry)
      → Runs st st'
      → get x st.leases ≡ some e
      → (f : LeaseEntry) × (get x st'.leases ≡ some f)
        × (f.certificate ≡ e.certificate)
        × (f.manifest ≡ e.manifest)
  Runs-certificate st st' x e runs found =
      let (f, found', m) = Runs-IsStored x e runs found in
      let s = Moves-SameLease m in (f, found', s.certificate, s.manifest)

  -- A lease that is revoked, expired or retired is never changed by any calls that follow, in
  -- whatever order they come: it never becomes active again.
  pub Runs-dead :
      (st st' : AuthorityState) (x : LeaseId) (e : LeaseEntry)
      → Runs st st'
      → get x st.leases ≡ some e
      → is_live e.lease_record.state ≡ false
      → get x st'.leases ≡ some e
  Runs-dead st st' x e runs found dead =
      let (f, found', m) = Runs-IsStored x e runs found in found' ∙ ap some (Moves-dead dead m)

  -- Once `revoke` has returned for a lease, no chain that ends at one of the leases that descend
  -- from it, nor one that ends at the lease itself, ever validates again: not at once and not
  -- after any further calls, under any expected generation, any manifest and at any time.
  pub revoke-refuses_descendants :
      (st : AuthorityState) (id : LeaseId) (e : LeaseEntry) (reason : String) (now : DateTime)
      (later : AuthorityState) (x : LeaseId) (expected : Option ℕ) (manifest : CapabilityManifest)
      (now' : DateTime) (v : ValidatedAuthority)
      → WellFormed st
      → get id st.leases ≡ some e
      → is_live e.lease_record.state ≡ true
      → Runs (revoke st id e.lease_record.generation reason now).1 later
      → Descends st.leases id x
      → ¬ (validate_chain later x expected manifest now' ≡ ok v)
  revoke-refuses_descendants st id e reason now later x expected manifest now' v w found live runs d
        valid =
      let (affected, st', done, hit, _, _) =
        revoke_cascades st id e reason now w.distinct found live in
      let (old, stored) = Descends-IsStored st.leases id x (e, found) d in
      let (revoked_, there, effect) = hit x old d stored in
      let runs' : Runs st' later = subst (λ s. Runs s later) (ap (λ r. r.1) done) runs in
      let dead = IsRevocation-dead now reason old revoked_ effect in
      let kept = Runs-dead st' later x revoked_ runs' there dead in
      let (f, found', usable) =
        validate_chain-usable later x expected manifest now' v x valid here in
      let same : f ≡ revoked_ = ground (arith, kept, found') in
      absurd (
        cc (
          dead,
          ap (λ (u : LeaseEntry). is_live u.lease_record.state) same,
          ap is_live usable.is_active,
        ))

  root_state-WellFormed :
      (request : RootLeaseRequest) (custody : KeyCustody) (id : LeaseId)
      (identity : AgentIdentityCertificate) (c : AuthorityLeaseCertificate) (now : DateTime)
      → c.lease_id ≡ id
      → c.parent_lease ≡ none
      → WellFormed (root_state request custody id identity c now)
  unfolding root_state push_event new_entry active_record get insert
  root_state-WellFormed request custody id identity c now name root = record {
    distinct = (refl, tt);
    numbered = (refl, (refl, tt));
    named = λ x e q. ground (arith, name);
    parents = λ x e p q parent. ground (arith, root);
    root = (new_entry id c request.capability_manifest, ground arith);
  }

  -- The same of an action that is committed under a chain: once `revoke` has returned for a
  -- lease, no action is ever committed under a chain that ends at the lease or at one of those that
  -- descend from it, whatever calls came in between. The commit is refused, with an error.
  pub revoke-refuses_commits :
      (st : AuthorityState) (id : LeaseId) (e : LeaseEntry) (reason : String) (now : DateTime)
      (later : AuthorityState) (x : LeaseId) (expected : Option ℕ) (manifest : CapabilityManifest)
      (now' : DateTime) (commit : ValidatedAuthority → Result (Unit {0}))
      → WellFormed st
      → get id st.leases ≡ some e
      → is_live e.lease_record.state ≡ true
      → Runs (revoke st id e.lease_record.generation reason now).1 later
      → Descends st.leases id x
      → (c : ErrorCode) × (commit_active_chain later x expected manifest now' commit ≡ err c)
        × (validate_active_chain later x expected manifest now' ≡ err c)
  unfolding commit_active_chain validate_active_chain
  revoke-refuses_commits st id e reason now later x expected manifest now' commit w found live runs
        d =
      elim (Result-cases (validate_chain later x expected manifest now')) [
        | inl (c, refused) ↦ (c, rw refused refl, refused)
        | inr (v, valid) ↦ absurd (
            revoke-refuses_descendants st id e reason now later x expected manifest now' v w found
              live runs d valid)
      ]

  -- The state that `bootstrap` returns is well formed.
  pub bootstrap-WellFormed :
      (request : RootLeaseRequest) (custody : KeyCustody) (uuid : List ℕ) (now : DateTime)
      (st : AuthorityState)
      → bootstrap request custody uuid now ≡ ok st
      → WellFormed st
  unfolding bootstrap root_draft unsigned_lease
  bootstrap-WellFormed request custody uuid now st r =
      let (_, _, r1) = >>=-eq-ok (validate_root_request request now) _ r in
      let (identity, _, r2) =
        >>=-eq-ok (signed_identity request.agent_id custody none custody now) _ r1 in
      let (digest, _, r3) = >>=-eq-ok (identity_digest identity) _ r2 in
      let (id, _, r4) = >>=-eq-ok (new_lease_id uuid) _ r3 in
      let (manifest, _, r5) = >>=-eq-ok (manifest_digest request.capability_manifest) _ r4 in
      let (c, signed, r6) =
        >>=-eq-ok (signed_lease (root_draft request id digest manifest now) digest custody) _ r5 in
      let (signature, whole) = signed_lease-draft _ digest custody c signed in
      subst WellFormed (ok-inj r6) (
        root_state-WellFormed request custody id identity c now
          (ap (λ (v : AuthorityLeaseCertificate). v.lease_id) whole)
          (ap (λ (v : AuthorityLeaseCertificate). v.parent_lease) whole))

  Runs-WellFormed : {st st' : AuthorityState} → Runs st st' → WellFormed st → WellFormed st'
  Runs-WellFormed start w = w
  Runs-WellFormed (step runs s) w = WellFormed-Grows (Grows-Step s) (Runs-WellFormed runs w)

  -- Every state that a kernel reaches from `bootstrap` is well formed, provided that each
  -- identifier made from a fresh UUID is new: identifiers are distinct, every lease is stored
  -- under the identifier of its certificate, every parent and the root are stored, and the
  -- events are numbered 1, 2, 3 and so on.
  pub reachable-WellFormed :
      (request : RootLeaseRequest) (custody : KeyCustody) (uuid : List ℕ) (now : DateTime)
      (st st' : AuthorityState)
      → bootstrap request custody uuid now ≡ ok st
      → Runs st st'
      → WellFormed st'
  reachable-WellFormed request custody uuid now st st' r runs =
      Runs-WellFormed runs (bootstrap-WellFormed request custody uuid now st r)
