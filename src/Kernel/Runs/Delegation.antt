-- ===== src/Kernel/Runs/Delegation.antt =====
-- What a delegation and a renewal that succeed have done, and that one that fails has done nothing
-- (crates/aeon_agent_runtime/src/authority_kernel.rs).
use genesis_runtime.Common.{
  ==_iff, >>=-eq-ok, ErrorCode, IsDistinct, List, Result-cases, String, ap, arith, contains_key,
  delegation_invalid, err, get, get-insert, get-modify, inl, inr, leb, list_eq, ltb, modify,
  modify-IsDistinct, nat_eq, not, ok, ok-inj, option_eq, refl, refuse_if, some, subst, true, ℕ, ◌<◌,
  ◌||◌, ◌≡◌, ◌≤◌,
}
use genesis_runtime.Ids.{LeaseId, identifier_eq}
use genesis_runtime.Json.{Host}
use genesis_runtime.Digest.{digest_eq}
use genesis_runtime.Mission.{DateTime}
use genesis_runtime.Identity.{IdentityCodec, KeyCustody}
use genesis_runtime.Authority.{AuthorityCodec, active_record, bound_tool_eq, lease_ref_eq}
use genesis_runtime.Kernel.Delegate.{
  Delegated, check_delegation, delegate, install_delegation, issue_delegation,
}
use genesis_runtime.Kernel.Issue.{new_entry}
use genesis_runtime.Kernel.Runs.Issuing.{
  DelegationChecked, DelegationFacts, check_delegation-checked, issue_delegation-facts,
}
use genesis_runtime.Kernel.Checks.{
  authority_is_subset_of, validate_authority_sets, validate_manifest, validate_manifest_attenuation,
}
use genesis_runtime.Kernel.{
  AuthorityState, DelegationRequest, LeaseEntry, RenewalRequest, push_event,
}
use genesis_runtime.Kernel.Chain.Steps.{
  IsUsable, validate_active_record-IsUsable, validate_active_record-generation,
}
use genesis_runtime.Kernel.Chain.Attenuation.Links.{
  Attenuates, tools_within, validate_manifest_attenuation-tools,
}
use genesis_runtime.Kernel.Requests.{validate_delegation_request}
use genesis_runtime.Kernel.Descendants.{revoke_descendants}
use genesis_runtime.Kernel.Lifecycle.{retire_entry}
use genesis_runtime.Kernel.Renew.{check_renewal, issue_renewal, renew}
use genesis_runtime.Kernel.Evolution.Atomic.{revoke_descendants_ok}
use genesis_runtime.Kernel.Runs.Renewing.{check_renewal-checked}

module _ ⦃h : Host⦄ ⦃identity_codec : IdentityCodec⦄ ⦃codec : AuthorityCodec⦄ where
  renew-completes :
      (st : AuthorityState) (old : LeaseEntry) (request : RenewalRequest) (by : LeaseId)
      (reason : String) (now : DateTime)
      → IsDistinct st.leases
      → get request.lease_id st.leases ≡ some old
      → (revoke_descendants
          (record st { leases = modify request.lease_id (retire_entry by) st.leases })
          request.lease_id
          reason
          now).0
        ≡ ok tt
  unfolding contains_key
  renew-completes st old request by reason now distinct found =
      revoke_descendants_ok
        (record st { leases = modify request.lease_id (retire_entry by) st.leases })
        request.lease_id reason now
        (modify-IsDistinct request.lease_id (retire_entry by) st.leases distinct)
        (ground
          (arith, get-modify request.lease_id request.lease_id (retire_entry by) st.leases, found))

  -- On leases with distinct identifiers a renewal is all or nothing: where it returns an error,
  -- whichever, the state has not changed, so that the old lease was not retired.
  pub renew-atomic :
      (st : AuthorityState) (request : RenewalRequest) (uuid : List ℕ) (now : DateTime)
      (c : ErrorCode)
      → IsDistinct st.leases
      → (renew st request uuid now).0 ≡ err c
      → (renew st request uuid now).1 ≡ st
  unfolding renew
  renew-atomic st request uuid now c distinct failed =
      elim (Result-cases (check_renewal st request now)) [
        | inl (_, refused) ↦ rw refused refl
        | inr (old, checked) ↦ elim (Result-cases (issue_renewal st old request uuid now)) [
          | inl (_, refused) ↦ rw (checked, refused) refl
          | inr (certificate, made) ↦
              let done =
                renew-completes st old request certificate.lease_id
                  "ancestor lease retired during renewal" now distinct
                  (check_renewal-checked st request now old checked).stored in
              absurd (cc (rw (checked, made, done) at failed))
        ]
      ]

  -- What a delegation that succeeds leaves behind.
  pub record DelegatedUnder (st : AuthorityState) (request : DelegationRequest) (now : DateTime)
      (child : LeaseId) (st' : AuthorityState) : Type 0 where
    pub parent : LeaseEntry
    pub stored_parent : get request.parent_lease_id st.leases ≡ some parent
    pub usable : IsUsable parent now
    pub current : parent.lease_record.generation ≡ request.expected_parent_generation
    pub entry : LeaseEntry
    pub stored : get child st'.leases ≡ some entry
    pub active_child : entry.lease_record ≡ active_record child
    pub attenuates : Attenuates parent entry
    pub in_mission : entry.certificate.expires_at ≤ st.mission.expires_at
    pub unexpired : now < entry.certificate.expires_at

  record Requested (st : AuthorityState) (parent : LeaseEntry) (request : DelegationRequest)
      (now : DateTime) : Type 0 where
    authority :
        authority_is_subset_of request.granted_authority parent.certificate.delegable_authority
        ≡ true
    bounded : request.expires_at ≤ parent.certificate.expires_at
    in_mission : request.expires_at ≤ st.mission.expires_at
    unexpired : now < request.expires_at
    manifests : validate_manifest_attenuation request.capability_manifest parent.manifest ≡ ok tt

  validate_delegation_request-Requested :
      (st : AuthorityState) (parent : LeaseEntry) (request : DelegationRequest) (now : DateTime)
      → validate_delegation_request st parent request now ≡ ok tt
      → Requested st parent request now
  unfolding validate_delegation_request
  validate_delegation_request-Requested st parent request now r =
      let (_, times, r1) =
        >>=-eq-ok
          (refuse_if
            (leb request.expires_at now
              || ltb parent.certificate.expires_at request.expires_at
              || ltb st.mission.expires_at request.expires_at)
            delegation_invalid)
          _ r in
      let (_, _, r2) =
        >>=-eq-ok (validate_authority_sets request.granted_authority request.delegable_authority) _
          r1 in
      let (_, within, r3) =
        >>=-eq-ok
          (refuse_if
            (not (
              authority_is_subset_of request.granted_authority
                parent.certificate.delegable_authority))
            delegation_invalid)
          _ r2 in
      let (_, _, r4) =
        >>=-eq-ok (validate_manifest request.capability_manifest request.granted_authority) _ r3 in
      record {
        authority = ground (arith, within);
        bounded = ground (arith, times);
        in_mission = ground (arith, times);
        unexpired = ground (arith, times);
        manifests = r4;
      }

  installed :
      (st : AuthorityState) (request : DelegationRequest) (custody : KeyCustody) (uuid : List ℕ)
      (now : DateTime) (parent : LeaseEntry) (d : Delegated) (child : LeaseId)
      → d.lease_id ≡ child
      → DelegationChecked st request now parent
      → DelegationFacts st parent request uuid d
      → DelegatedUnder st request now child (install_delegation st request custody d now)
  unfolding install_delegation push_event new_entry
  installed st request custody uuid now parent d child name k f =
      let q = validate_delegation_request-Requested st parent request now k.requested in
      record {
        parent = parent;
        stored_parent = k.stored;
        usable = validate_active_record-IsUsable parent _ now k.valid;
        current =
            validate_active_record-generation parent request.expected_parent_generation now k.valid;
        entry = new_entry d.lease_id d.certificate request.capability_manifest;
        stored = ground (
          arith,
          name,
          get-insert d.lease_id child
              (new_entry d.lease_id d.certificate request.capability_manifest) st.leases,
          (==_iff d.lease_id child).1 name,
        );
        active_child = ap active_record name;
        attenuates = record {
          authority = rw f.granted q.authority;
          bounded = rw f.expires q.bounded;
          tools =
              tools_within request.capability_manifest.approved_tools parent.manifest.approved_tools
                (validate_manifest_attenuation-tools request.capability_manifest parent.manifest
                  q.manifests);
        };
        in_mission = rw f.expires q.in_mission;
        unexpired = rw f.expires q.unexpired;
      }

  -- A delegation that succeeds was asked of a stored parent lease that is active, unexpired and of
  -- the generation that the request expects. It stores a new active lease under the identifier
  -- that it returns: this lease is granted no more than the parent may delegate, binds no tool
  -- that the parent does not, and ends after now, but not after its parent nor after the mission.
  pub delegate-DelegatedUnder :
      (st : AuthorityState) (request : DelegationRequest) (custody : KeyCustody) (uuid : List ℕ)
      (now : DateTime) (child : LeaseId) (st' : AuthorityState)
      → delegate st request custody uuid now ≡ (ok child, st')
      → DelegatedUnder st request now child st'
  unfolding delegate
  delegate-DelegatedUnder st request custody uuid now child st' r =
      elim (Result-cases (check_delegation st request custody now)) [
        | inl (_, refused) ↦ absurd (cc (rw refused at r))
        | inr (parent, checked) ↦
            elim (Result-cases (issue_delegation st parent request custody uuid now)) [
              | inl (_, refused) ↦ absurd (cc (rw (checked, refused) at r))
              | inr (d, made) ↦
                  let both = rw (checked, made) at r in
                  subst (DelegatedUnder st request now child) (ap (λ u. u.1) both) (
                    installed st request custody uuid now parent d child
                      (ok-inj (ap (λ u. u.0) both))
                      (check_delegation-checked st request custody now parent checked)
                      (issue_delegation-facts st parent request custody uuid now d made))
            ]
      ]
