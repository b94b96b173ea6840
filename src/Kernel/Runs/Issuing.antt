-- ===== src/Kernel/Runs/Issuing.antt =====
-- `delegate` and `renew` as growth: what they do to the leases, error paths included
-- (crates/aeon_agent_runtime/src/authority_kernel.rs).
use genesis_runtime.Common.{
  >>=-eq-ok, List, Result, [], any, ap, arith, contains_key, delegation_invalid, err, get,
  identity_invalid, inl, lease_inactive, leb, length, list_eq, nat_eq, ok, ok-inj, ok_or, option_eq,
  refl, refuse_if, some, sym, values, ℕ, ◌++◌, ◌==◌, ◌∙◌, ◌∷◌, ◌≡◌,
}
use genesis_runtime.Ids.{identifier_eq, new_lease_id}
use genesis_runtime.Json.{Host}
use genesis_runtime.Digest.{Digest, canonical_digest, digest_eq}
use genesis_runtime.Mission.{DateTime}
use genesis_runtime.Identity.{IdentityCodec, KeyCustody, identity_digest}
use genesis_runtime.Authority.{
  AuthorityCodec, AuthorityLeaseCertificate, LeaseRef, active_record, bound_tool_eq, lease_ref_eq,
}
use genesis_runtime.Authority.Lease.{
  lease_record_domain, lease_ref, lease_signing_payload, verify_lease_signature,
}
use genesis_runtime.Authority.Manifest.{manifest_digest}
use genesis_runtime.Kernel.{
  AuthorityState, DelegationRequest, LeaseEntry, attempt, max_authority_chain_depth, push_event,
}
use genesis_runtime.Kernel.Checks.{validate_active_record}
use genesis_runtime.Kernel.Chain.{validate_chain}
use genesis_runtime.Kernel.Requests.{validate_delegation_request}
use genesis_runtime.Kernel.Issue.{
  LeaseDraft, new_entry, signed_identity, signed_lease, unsigned_lease,
}
use genesis_runtime.Kernel.Delegate.{
  Delegated, check_delegation, child_draft, delegate, install_delegation, issue_delegation,
}
use genesis_runtime.Kernel.Evolution.{Evolves, Evolves-refl, Numbered-append}
use genesis_runtime.Kernel.Runs.{IsFresh}
use genesis_runtime.Kernel.Runs.Growth.{Grows, Issued, evolves, issues}

module _ ⦃h : Host⦄ ⦃identity_codec : IdentityCodec⦄ ⦃codec : AuthorityCodec⦄ where
  -- A certificate that is issued says what its draft says.
  pub signed_lease-draft :
      (draft : LeaseDraft) (issuer : Digest) (custody : KeyCustody) (c : AuthorityLeaseCertificate)
      → signed_lease draft issuer custody ≡ ok c
      → (signature : List ℕ) × (c
          ≡ record (unsigned_lease draft issuer custody) { signature = signature })
  unfolding signed_lease
  signed_lease-draft draft issuer custody c r =
      let (payload, _, r1) =
        >>=-eq-ok (lease_signing_payload (unsigned_lease draft issuer custody)) _ r in
      let (signature, _, r2) = >>=-eq-ok (custody.sign payload) _ r1 in
      let (_, _, r3) =
        >>=-eq-ok
          (verify_lease_signature
            (record (unsigned_lease draft issuer custody) { signature = signature })
            custody.verifying_key)
          _ r2 in
      (signature, cc)

  lease_ref-name :
      (c : AuthorityLeaseCertificate) (r : LeaseRef) → lease_ref c ≡ ok r → r.lease_id ≡ c.lease_id
  unfolding lease_ref
  lease_ref-name c r e =
      let (digest, _, e1) =
        >>=-eq-ok (canonical_digest codec.certificate lease_record_domain c) _ e in
      ground arith

  -- What a delegation that succeeds has checked and made.
  pub record DelegationFacts (st : AuthorityState) (parent : LeaseEntry)
      (request : DelegationRequest) (uuid : List ℕ) (d : Delegated) : Type 0 where
    pub name : new_lease_id uuid ≡ ok d.lease_id
    pub certificate_name : d.certificate.lease_id ≡ d.lease_id
    pub agent : d.certificate.agent_id ≡ request.child_agent_id
    pub parent_ref : LeaseRef
    pub reference : lease_ref parent.certificate ≡ ok parent_ref
    pub parent_lease : d.certificate.parent_lease ≡ some parent_ref
    pub parent_agent : d.certificate.parent_agent_id ≡ some parent.certificate.agent_id
    pub granted : d.certificate.granted_authority ≡ request.granted_authority
    pub delegable : d.certificate.delegable_authority ≡ request.delegable_authority
    pub expires : d.certificate.expires_at ≡ request.expires_at

  pub issue_delegation-facts :
      (st : AuthorityState) (parent : LeaseEntry) (request : DelegationRequest)
      (custody : KeyCustody) (uuid : List ℕ) (now : DateTime) (d : Delegated)
      → issue_delegation st parent request custody uuid now ≡ ok d
      → DelegationFacts st parent request uuid d
  unfolding issue_delegation child_draft unsigned_lease
  issue_delegation-facts st parent request custody uuid now d r =
      let (parent_custody, _, r1) =
        >>=-eq-ok (ok_or (get parent.certificate.agent_id st.custodians) identity_invalid) _ r in
      let (identity, _, r2) =
        >>=-eq-ok
          (signed_identity request.child_agent_id custody (some parent.certificate.agent_id)
            parent_custody now)
          _ r1 in
      let (child_digest, _, r3) = >>=-eq-ok (identity_digest identity) _ r2 in
      let (parent_identity, _, r4) =
        >>=-eq-ok (ok_or (get parent.certificate.agent_id st.identities) identity_invalid) _ r3 in
      let (reference, made, r5) = >>=-eq-ok (lease_ref parent.certificate) _ r4 in
      let (id, named, r6) = >>=-eq-ok (new_lease_id uuid) _ r5 in
      let (manifest, _, r7) = >>=-eq-ok (manifest_digest request.capability_manifest) _ r6 in
      let (parent_digest, _, r8) = >>=-eq-ok (identity_digest parent_identity) _ r7 in
      let (c, signed, r9) =
        >>=-eq-ok
          (signed_lease (child_draft parent request reference id child_digest manifest now)
            parent_digest parent_custody)
          _ r8 in
      let (_, same) = signed_lease-draft _ parent_digest parent_custody c signed in
      let made_record = ok-inj r9 in
      let c' : d.certificate ≡ c = ap (λ (v : Delegated). v.certificate) (sym made_record) in
      let id' : id ≡ d.lease_id = ap (λ (v : Delegated). v.lease_id) made_record in
      let whole = c' ∙ same in
      record {
        name = rw id' at named;
        certificate_name = ap (λ (v : AuthorityLeaseCertificate). v.lease_id) whole ∙ id';
        agent = ap (λ (v : AuthorityLeaseCertificate). v.agent_id) whole;
        parent_ref = reference;
        reference = made;
        parent_lease = ap (λ (v : AuthorityLeaseCertificate). v.parent_lease) whole;
        parent_agent = ap (λ (v : AuthorityLeaseCertificate). v.parent_agent_id) whole;
        granted = ap (λ (v : AuthorityLeaseCertificate). v.granted_authority) whole;
        delegable = ap (λ (v : AuthorityLeaseCertificate). v.delegable_authority) whole;
        expires = ap (λ (v : AuthorityLeaseCertificate). v.expires_at) whole;
      }

  -- What the guards of a delegation have checked of the parent.
  pub record DelegationChecked (st : AuthorityState) (request : DelegationRequest) (now : DateTime)
      (parent : LeaseEntry) : Type 0 where
    pub stored : get request.parent_lease_id st.leases ≡ some parent
    pub valid : validate_active_record parent (some request.expected_parent_generation) now ≡ ok tt
    pub requested : validate_delegation_request st parent request now ≡ ok tt

  pub check_delegation-checked :
      (st : AuthorityState) (request : DelegationRequest) (custody : KeyCustody) (now : DateTime)
      (parent : LeaseEntry)
      → check_delegation st request custody now ≡ ok parent
      → DelegationChecked st request now parent
  unfolding check_delegation
  check_delegation-checked st request custody now parent r =
      let (p, found, r1) =
        >>=-eq-ok (ok_or (get request.parent_lease_id st.leases) lease_inactive) _ r in
      let (_, valid, r2) =
        >>=-eq-ok (validate_active_record p (some request.expected_parent_generation) now) _ r1 in
      let (v, _, r3) =
        >>=-eq-ok
          (validate_chain st request.parent_lease_id (some request.expected_parent_generation)
            p.manifest now)
          _ r2 in
      let (_, _, r4) =
        >>=-eq-ok (refuse_if (leb max_authority_chain_depth (length v.chain)) delegation_invalid) _
          r3 in
      let (_, requested, r5) = >>=-eq-ok (validate_delegation_request st p request now) _ r4 in
      let (_, _, r6) =
        >>=-eq-ok (refuse_if (contains_key st.identities request.child_agent_id) identity_invalid) _
          r5 in
      let (_, _, r7) =
        >>=-eq-ok
          (refuse_if (any (λ identity. identity.key_id == custody.key_id) (values st.identities))
            identity_invalid)
          _ r6 in
      let same : p ≡ parent = ok-inj r7 in
      record {
        stored = ground (arith, found, same);
        valid = rw same at valid;
        requested = rw same at requested;
      }

  pub Grows-attempt {ℓ κ} :
      {A : Type ℓ} {B : Type κ} (st : AuthorityState) (r : Result A) (st' : AuthorityState)
      (next : A → Result B × AuthorityState)
      → Evolves st st'
      → ((x : A) → r ≡ ok x → Grows st (next x).1)
      → Grows st (attempt r st' next).1
  Grows-attempt st (ok x) st' next ev more = more x refl
  Grows-attempt st (err e) st' next ev more = evolves ev

  Issued-delegation :
      (st : AuthorityState) (parent : LeaseEntry) (request : DelegationRequest)
      (custody : KeyCustody) (uuid : List ℕ) (now : DateTime) (d : Delegated)
      → IsFresh st uuid
      → get request.parent_lease_id st.leases ≡ some parent
      → DelegationFacts st parent request uuid d
      → Issued st st (install_delegation st request custody d now)
  unfolding install_delegation push_event new_entry active_record
  Issued-delegation st parent request custody uuid now d fresh found f = record {
    id = d.lease_id;
    entry = new_entry d.lease_id d.certificate request.capability_manifest;
    new = fresh d.lease_id f.name;
    leases = refl;
    certificate_name = f.certificate_name;
    record_name = refl;
    parent = λ w p q.
        let same : f.parent_ref ≡ p = ground (arith, f.parent_lease, q) in
        (
          parent,
          ap (λ id. get id st.leases)
                (ap (λ (v : LeaseRef). v.lease_id) (sym same)
                  ∙ lease_ref-name parent.certificate f.parent_ref f.reference
                  ∙ (w.named request.parent_lease_id parent found).0)
              ∙ found,
        );
    root = inl refl;
    numbered = λ n.
        Numbered-append 1 (st.events ++ _ ∷ []) _ (Numbered-append 1 st.events _ n (omega arith))
          (omega arith);
  }

  pub Grows-delegate :
      (st : AuthorityState) (request : DelegationRequest) (custody : KeyCustody) (uuid : List ℕ)
      (now : DateTime)
      → IsFresh st uuid
      → Grows st (delegate st request custody uuid now).1
  unfolding delegate
  Grows-delegate st request custody uuid now fresh =
      Grows-attempt st (check_delegation st request custody now) st _ (Evolves-refl st)
        (λ parent checked.
          Grows-attempt st (issue_delegation st parent request custody uuid now) st _
            (Evolves-refl st)
            (λ d made. issues (Evolves-refl st) (
              Issued-delegation st parent request custody uuid now d fresh
                (check_delegation-checked st request custody now parent checked).stored
                (issue_delegation-facts st parent request custody uuid now d made))))
