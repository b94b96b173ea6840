-- ===== src/Kernel/Runs/Renewing.antt =====
-- `renew` as growth: what it does to the leases, error paths included
-- (crates/aeon_agent_runtime/src/authority_kernel.rs).
use mathlib.Core.Path.{ap}
use genesis_runtime.Common.{
  >>=-eq-ok, List, Option-cases, String, arith, get, identity_invalid, inl, inr, lease_inactive,
  list_eq, modify, nat_eq, none, ok, ok-inj, ok_or, option_eq, refl, some, subst, sym, ℕ, ◌∙◌, ◌≡◌,
}
use genesis_runtime.Ids.{LeaseId, identifier_eq, new_lease_id}
use genesis_runtime.Json.{Host}
use genesis_runtime.Digest.{digest_eq}
use genesis_runtime.Mission.{DateTime}
use genesis_runtime.Identity.{IdentityCodec, identity_digest}
use genesis_runtime.Authority.{
  AuthorityCodec, AuthorityLeaseCertificate, active_record, bound_tool_eq, lease_ref_eq,
}
use genesis_runtime.Authority.Lease.{lease_ref}
use genesis_runtime.Authority.Manifest.{manifest_digest}
use genesis_runtime.Kernel.{AuthorityState, LeaseEntry, RenewalRequest, push_event}
use genesis_runtime.Kernel.Checks.{validate_active_record}
use genesis_runtime.Kernel.Chain.{issuer_of, validate_chain}
use genesis_runtime.Kernel.Chain.Steps.{
  IsUsable, validate_active_record-IsUsable, validate_active_record-generation,
}
use genesis_runtime.Kernel.Requests.{validate_renewal_request}
use genesis_runtime.Kernel.Issue.{new_entry, unsigned_lease}
use genesis_runtime.Kernel.Descendants.{revoke_descendants}
use genesis_runtime.Kernel.Lifecycle.{retire_entry}
use genesis_runtime.Kernel.Renew.{
  check_renewal, install_renewal, issue_renewal, renew, renewal_draft,
}
use genesis_runtime.Kernel.Evolution.{
  Evolves, Evolves-modify, Evolves-refl, Evolves-trans, MovesStored, Numbered-append, retires,
}
use genesis_runtime.Kernel.Evolution.Cascade.{Evolves-IsStored}
use genesis_runtime.Kernel.Evolution.Operations.{Evolves-revoke_descendants}
use genesis_runtime.Kernel.Runs.{IsFresh}
use genesis_runtime.Kernel.Runs.Growth.{Grows, Issued, issues}
use genesis_runtime.Kernel.Runs.Issuing.{Grows-attempt, signed_lease-draft}

module _ ⦃h : Host⦄ where
  Evolves-none :
      {st st' : AuthorityState} (x : LeaseId)
      → Evolves st st'
      → get x st.leases ≡ none
      → get x st'.leases ≡ none
  Evolves-none {st} {st'} x ev missing = elim (Option-cases (get x st'.leases)) [
    | inl still ↦ still
    | inr (e, found) ↦ absurd (
        subst (λ o. MovesStored o (some e)) missing
          (subst (MovesStored (get x st.leases)) found (ev.stored x)))
  ]

module _ ⦃h : Host⦄ ⦃identity_codec : IdentityCodec⦄ ⦃codec : AuthorityCodec⦄ where
  -- What a renewal has checked of the lease that it replaces.
  pub record RenewalChecked (st : AuthorityState) (request : RenewalRequest) (now : DateTime)
      (old : LeaseEntry) : Type 0 where
    pub stored : get request.lease_id st.leases ≡ some old
    pub usable : IsUsable old now
    pub generation : old.lease_record.generation ≡ request.expected_generation
    pub requested : validate_renewal_request st old request now ≡ ok tt

  pub check_renewal-checked :
      (st : AuthorityState) (request : RenewalRequest) (now : DateTime) (old : LeaseEntry)
      → check_renewal st request now ≡ ok old
      → RenewalChecked st request now old
  unfolding check_renewal
  check_renewal-checked st request now old r =
      let (e, found, r1) = >>=-eq-ok (ok_or (get request.lease_id st.leases) lease_inactive) _ r in
      let (_, valid, r2) =
        >>=-eq-ok (validate_active_record e (some request.expected_generation) now) _ r1 in
      let (_, _, r3) =
        >>=-eq-ok
          (validate_chain st request.lease_id (some request.expected_generation) e.manifest now) _
          r2 in
      let (_, checked, r4) = >>=-eq-ok (validate_renewal_request st e request now) _ r3 in
      let same : e ≡ old = ok-inj r4 in
      record {
        stored = ground (arith, same);
        usable = rw same at (validate_active_record-IsUsable e _ now valid);
        generation =
            rw same at (validate_active_record-generation e request.expected_generation now valid);
        requested = rw same at checked;
      }

  -- What the certificate of a renewal says.
  pub record RenewalFacts (old : LeaseEntry) (request : RenewalRequest) (uuid : List ℕ)
      (c : AuthorityLeaseCertificate) : Type 0 where
    pub name : new_lease_id uuid ≡ ok c.lease_id
    pub agent : c.agent_id ≡ old.certificate.agent_id
    pub parent_lease : c.parent_lease ≡ old.certificate.parent_lease
    pub granted : c.granted_authority ≡ request.granted_authority
    pub delegable : c.delegable_authority ≡ request.delegable_authority
    pub expires : c.expires_at ≡ request.expires_at

  pub issue_renewal-facts :
      (st : AuthorityState) (old : LeaseEntry) (request : RenewalRequest) (uuid : List ℕ)
      (now : DateTime) (c : AuthorityLeaseCertificate)
      → issue_renewal st old request uuid now ≡ ok c
      → RenewalFacts old request uuid c
  unfolding issue_renewal renewal_draft unsigned_lease
  issue_renewal-facts st old request uuid now c r =
      let (identity, _, r1) =
        >>=-eq-ok (ok_or (get (issuer_of old.certificate) st.identities) identity_invalid) _ r in
      let (custody, _, r2) =
        >>=-eq-ok (ok_or (get (issuer_of old.certificate) st.custodians) identity_invalid) _ r1 in
      let (id, named, r3) = >>=-eq-ok (new_lease_id uuid) _ r2 in
      let (reference, _, r4) = >>=-eq-ok (lease_ref old.certificate) _ r3 in
      let (manifest, _, r5) = >>=-eq-ok (manifest_digest request.capability_manifest) _ r4 in
      let (issuer, _, r6) = >>=-eq-ok (identity_digest identity) _ r5 in
      let (signature, whole) = signed_lease-draft _ issuer custody c r6 in
      record {
        name = named ∙ ap ok (sym (ap (λ (v : AuthorityLeaseCertificate). v.lease_id) whole));
        agent = ap (λ (v : AuthorityLeaseCertificate). v.agent_id) whole;
        parent_lease = ap (λ (v : AuthorityLeaseCertificate). v.parent_lease) whole;
        granted = ap (λ (v : AuthorityLeaseCertificate). v.granted_authority) whole;
        delegable = ap (λ (v : AuthorityLeaseCertificate). v.delegable_authority) whole;
        expires = ap (λ (v : AuthorityLeaseCertificate). v.expires_at) whole;
      }

  Issued-renewal :
      (st s : AuthorityState) (old : LeaseEntry) (request : RenewalRequest) (uuid : List ℕ)
      (now : DateTime) (c : AuthorityLeaseCertificate)
      → IsFresh st uuid
      → Evolves st s
      → get request.lease_id st.leases ≡ some old
      → RenewalFacts old request uuid c
      → Issued st s (install_renewal s request c now)
  unfolding install_renewal push_event new_entry active_record
  Issued-renewal st s old request uuid now c fresh ev found f = record {
    id = c.lease_id;
    entry = new_entry c.lease_id c request.capability_manifest;
    new = Evolves-none c.lease_id ev (fresh c.lease_id f.name);
    leases = refl;
    certificate_name = refl;
    record_name = refl;
    parent = λ w p q.
        let (_, stored) = w.parents request.lease_id old p found (sym f.parent_lease ∙ q) in
        let (e', stored', _) = Evolves-IsStored p.lease_id ev stored in (e', stored');
    root = ground arith;
    numbered = λ n. Numbered-append 1 s.events _ n (omega arith);
  }

  pub Grows-renew :
      (st : AuthorityState) (request : RenewalRequest) (uuid : List ℕ) (now : DateTime)
      → IsFresh st uuid
      → Grows st (renew st request uuid now).1
  unfolding renew
  Grows-renew st request uuid now fresh =
      Grows-attempt st (check_renewal st request now) st _ (Evolves-refl st) (λ old checked.
        Grows-attempt st (issue_renewal st old request uuid now) st _ (Evolves-refl st) (λ c made.
          let k = check_renewal-checked st request now old checked in
          let retiring = record st {
            leases = modify request.lease_id (retire_entry c.lease_id) st.leases;
          } in
          let ev : Evolves st retiring =
            Evolves-modify st request.lease_id (retire_entry c.lease_id) (λ e found.
              let same : old ≡ e = ground (arith, k.stored, found) in
              retires c.lease_id (rw same at k.usable.is_active)) in
          let reason : String = "ancestor lease retired during renewal" in
          let cascade = revoke_descendants retiring request.lease_id reason now in
          let both : Evolves st cascade.1 =
            Evolves-trans ev (Evolves-revoke_descendants retiring request.lease_id reason now) in
          Grows-attempt st cascade.0 cascade.1 _ both (λ _ _. issues both (
            Issued-renewal st cascade.1 old request uuid now c fresh both k.stored
              (issue_renewal-facts st old request uuid now c made)))))
