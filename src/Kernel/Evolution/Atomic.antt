-- ===== src/Kernel/Evolution/Atomic.antt =====
-- A revocation that fails changes nothing: the loop over the affected leases cannot fail halfway
-- (crates/aeon_agent_runtime/src/authority_kernel.rs).
use genesis_runtime.Common.{
  >>=-eq-ok, ErrorCode, IsDistinct, List, Option-cases, Result-cases, String, [], arith, contains,
  contains_key, err, get, inl, inr, lease_inactive, list_eq, nat_eq, not, ok, ok-inj, ok_or,
  option_eq, refl, refuse_if, some, sym, true, ℕ, ◌∙◌, ◌∷◌, ◌≡◌,
}
use genesis_runtime.Ids.{LeaseId, identifier_eq}
use genesis_runtime.Json.{Host}
use genesis_runtime.Mission.{DateTime}
use genesis_runtime.Authority.{bound_tool_eq, is_live, lease_ref_eq}
use genesis_runtime.Kernel.{AuthorityState}
use genesis_runtime.Kernel.Checks.{require_generation}
use genesis_runtime.Kernel.Descendants.{descendants_including, revoke_descendants, skip_first}
use genesis_runtime.Kernel.Descendants.Correct.{descendants_including_correct}
use genesis_runtime.Kernel.Lifecycle.{cause_of, check_revocation, revoke}
use genesis_runtime.Kernel.Evolution.Cascade.{IsStored, revoke_each_ok}
use genesis_runtime.Kernel.Evolution.Exact.{Descends-IsStored}

module _ ⦃h : Host⦄ where
  descendants_including-key :
      (st : AuthorityState) (root : LeaseId) (ds : List LeaseId)
      → descendants_including st root ≡ ok ds
      → contains_key st.leases root ≡ true
  unfolding descendants_including
  descendants_including-key st root ds r =
      let (_, present, _) =
        >>=-eq-ok (refuse_if (not (contains_key st.leases root)) lease_inactive) _ r in
      ground (arith, present)

  -- The walk returns stored leases only.
  pub descendants_including-IsStored :
      (st : AuthorityState) (root : LeaseId) (ds : List LeaseId) (x : LeaseId)
      → IsDistinct st.leases
      → descendants_including st root ≡ ok ds
      → contains ds x ≡ true
      → IsStored st.leases x
  unfolding contains_key
  descendants_including-IsStored st root ds x distinct r m =
      let present = descendants_including-key st root ds r in
      let (ds', returned, exact) = descendants_including_correct st root distinct present in
      let same : ds ≡ ds' = ok-inj (sym r ∙ returned) in
      elim (Option-cases (get root st.leases)) [
        | inl missing ↦ absurd (cc (rw (missing, contains_key) at present))
        | inr (e, found) ↦
            Descends-IsStored st.leases root x (e, found) ((exact x).0 (rw same at m))
      ]

  contains-skip_first :
      (xs : List LeaseId) (x : LeaseId) → contains (skip_first xs) x ≡ true → contains xs x ≡ true
  unfolding contains
  contains-skip_first [] x m = m
  contains-skip_first (y ∷ xs) x m = ground (arith, m)

  -- `revoke_descendants` does not fail on a stored lease.
  pub revoke_descendants_ok :
      (st : AuthorityState) (root : LeaseId) (reason : String) (now : DateTime)
      → IsDistinct st.leases
      → contains_key st.leases root ≡ true
      → (revoke_descendants st root reason now).0 ≡ ok tt
  unfolding revoke_descendants
  revoke_descendants_ok st root reason now distinct present =
      let (ds, returned, _) = descendants_including_correct st root distinct present in
      rw returned (
        revoke_each_ok (λ _. some root) reason now (skip_first ds) st
          (λ x m.
            descendants_including-IsStored st root ds x distinct returned
              (contains-skip_first ds x m)))

  check_revocation-descendants :
      (st : AuthorityState) (id : LeaseId) (generation : ℕ) (ds : List LeaseId)
      → check_revocation st id generation ≡ ok ds
      → descendants_including st id ≡ ok ds
  unfolding check_revocation
  check_revocation-descendants st id generation ds r =
      let (e, _, r1) = >>=-eq-ok (ok_or (get id st.leases) lease_inactive) _ r in
      let (_, _, r2) = >>=-eq-ok (require_generation e.lease_record generation) _ r1 in
      let (_, _, r3) =
        >>=-eq-ok (refuse_if (not (is_live e.lease_record.state)) lease_inactive) _ r2 in
      r3

  -- On leases with distinct identifiers a revocation is all or nothing: where it returns an error,
  -- whichever, no lease and no event has changed.
  pub revoke-atomic :
      (st : AuthorityState) (id : LeaseId) (generation : ℕ) (reason : String) (now : DateTime)
      (c : ErrorCode)
      → IsDistinct st.leases
      → (revoke st id generation reason now).0 ≡ err c
      → (revoke st id generation reason now).1 ≡ st
  unfolding revoke
  revoke-atomic st id generation reason now c distinct failed =
      elim (Result-cases (check_revocation st id generation)) [
        | inl (_, refused) ↦ rw refused refl
        | inr (ds, checked) ↦
            let done = revoke_each_ok (cause_of id) reason now ds st (λ x m.
              descendants_including-IsStored st id ds x distinct
                (check_revocation-descendants st id generation ds checked) m) in
            absurd (cc (rw (checked, done) at failed))
      ]
