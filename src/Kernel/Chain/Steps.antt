-- ===== src/Kernel/Chain/Steps.antt =====
-- What one round of the loop of `validate_chain` has checked when the loop returns a chain
-- (crates/aeon_agent_runtime/src/authority_kernel/validation.rs).
use genesis_runtime.Common.{
  >>=-eq-ok, List, Option, arith, contains, delegation_invalid, false, get, if◌then◌else◌, leb,
  length, list_eq, nat_eq, none, ok, ok_or, option_eq, refuse_if, some, suc, ℕ, ◌<◌, ◌==◌, ◌>>◌,
  ◌∷◌, ◌≡◌,
}
use genesis_runtime.Ids.{AgentId, LeaseId, identifier_eq}
use genesis_runtime.Json.{Host}
use genesis_runtime.Mission.{DateTime}
use genesis_runtime.Identity.{IdentityCodec}
use genesis_runtime.Authority.{AuthorityCodec, active, bound_tool_eq, lease_ref_eq}
use genesis_runtime.Kernel.{AuthorityState, LeaseEntry, max_authority_chain_depth}
use genesis_runtime.Kernel.Checks.{validate_active_record}
use genesis_runtime.Kernel.Chain.{Link, climb_leases, validate_certificate_entry}

module _ ⦃h : Host⦄ where
  -- A lease that may be used: active, and not yet at its end.
  pub record IsUsable (e : LeaseEntry) (now : DateTime) : Type 0 where
    pub is_active : e.lease_record.state ≡ active
    pub unexpired : now < e.certificate.expires_at

  pub validate_active_record-IsUsable :
      (e : LeaseEntry) (expected : Option ℕ) (now : DateTime)
      → validate_active_record e expected now ≡ ok tt
      → IsUsable e now
  unfolding validate_active_record
  validate_active_record-IsUsable e expected now r = record {
    is_active = ground arith;
    unexpired = ground arith;
  }

  pub validate_active_record-generation :
      (e : LeaseEntry) (expected : ℕ) (now : DateTime)
      → validate_active_record e (some expected) now ≡ ok tt
      → e.lease_record.generation ≡ expected
  unfolding validate_active_record
  validate_active_record-generation e expected now r = ground arith

  module _ ⦃identity_codec : IdentityCodec⦄ ⦃codec : AuthorityCodec⦄ where
    module _ (st : AuthorityState) (leaf : LeaseId) (expected : Option ℕ) (now : DateTime) where
      -- The checks of a round at `current`, and how the loop goes on.
      pub record Round (fuel : ℕ) (visited : List LeaseId) (acc : List Link) (current : LeaseId)
          (entries : List Link) : Type 0 where
        pub entry : LeaseEntry
        pub stored : get current st.leases ≡ some entry
        pub fresh : contains visited current ≡ false
        pub checked :
            validate_active_record entry (if current == leaf then expected else none) now ≡ ok tt
        pub validated : List AgentId
        pub rest :
            (elim entry.certificate.parent_lease [
              | none ↦ ok ((current, entry) ∷ acc)
              | some parent ↦ do
                refuse_if
                    (leb max_authority_chain_depth (length ((current, entry) ∷ acc)))
                    delegation_invalid
                climb_leases st leaf expected now fuel
                    (current ∷ visited)
                    validated
                    ((current, entry) ∷ acc)
                    parent.lease_id
            ])
            ≡ ok entries

      pub climb_leases-Round :
          (fuel : ℕ) (visited : List LeaseId) (validated : List AgentId) (acc : List Link)
          (current : LeaseId) (entries : List Link)
          → climb_leases st leaf expected now (suc fuel) visited validated acc current ≡ ok entries
          → Round fuel visited acc current entries
      unfolding climb_leases
      climb_leases-Round fuel visited validated acc current entries r =
          let (_, a, r1) =
            >>=-eq-ok (refuse_if (contains visited current) delegation_invalid) _ r in
          let (entry, b, r2) = >>=-eq-ok (ok_or (get current st.leases) delegation_invalid) _ r1 in
          let (_, c, r3) =
            >>=-eq-ok
              (validate_active_record entry (if current == leaf then expected else none) now) _
              r2 in
          let (validated', _, r4) =
            >>=-eq-ok (validate_certificate_entry st entry validated) _ r3 in
          record {
            entry = entry;
            stored = ground arith;
            fresh = ground arith;
            checked = c;
            validated = validated';
            rest = r4;
          }
