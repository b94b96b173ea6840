-- ===== src/Kernel/Chain/Sound.antt =====
-- What a validated chain says of the leases it passes
-- (crates/aeon_agent_runtime/src/authority_kernel/validation.rs).
use genesis_runtime.Common.{
  ==_iff, >>=-eq-ok, List, Option, Option-cases, [], ap, arith, delegation_invalid, get, inl, inr,
  leb, length, list_eq, nat_eq, ok, option_eq, refl, refuse_if, some, suc, sym, true, zero, ℕ, ◌==◌,
  ◌∙◌, ◌∷◌, ◌≡◌,
}
use genesis_runtime.Ids.{AgentId, LeaseId, identifier_eq}
use genesis_runtime.Json.{Host}
use genesis_runtime.Mission.{DateTime}
use genesis_runtime.Identity.{IdentityCodec}
use genesis_runtime.Authority.{AuthorityCodec, CapabilityManifest, bound_tool_eq, lease_ref_eq}
use genesis_runtime.Kernel.{
  AuthorityState, LeaseEntry, ValidatedAuthority, max_authority_chain_depth,
}
use genesis_runtime.Kernel.Descendants.Index.{parent_of}
use genesis_runtime.Kernel.Descendants.Correct.{Descends, below, here}
use genesis_runtime.Kernel.Chain.{Link, climb_leases, validate_chain}
use genesis_runtime.Kernel.Chain.Steps.{
  IsUsable, Round, climb_leases-Round, validate_active_record-IsUsable,
  validate_active_record-generation,
}

module _ ⦃h : Host⦄ ⦃identity_codec : IdentityCodec⦄ ⦃codec : AuthorityCodec⦄ where
  -- A stored lease that may be used.
  abbrev pub StoredUsable : AuthorityState → LeaseId → DateTime → Type 0
  StoredUsable st a now = (e : LeaseEntry) × (get a st.leases ≡ some e) × IsUsable e now

  module _ (st : AuthorityState) (leaf : LeaseId) (expected : Option ℕ) (now : DateTime) where
    -- The parent that the loop goes on to is the one of the index.
    pub Round-next :
        {fuel : ℕ} {visited : List LeaseId} {acc : List Link} {current : LeaseId}
        {entries : List Link} (p : LeaseId)
        → (r : Round st leaf expected now fuel visited acc current entries)
        → parent_of st.leases current ≡ some p
        → climb_leases st leaf expected now fuel
            (current ∷ visited)
            r.validated
            ((current, r.entry) ∷ acc)
            p
          ≡ ok entries
    unfolding parent_of
    Round-next {fuel} {visited} {acc} {current} {entries} p r q =
        elim (Option-cases r.entry.certificate.parent_lease) [
          | inl none_ ↦ absurd (cc (rw (r.stored, none_, parent_of) at q))
          | inr (parent, e) ↦
              let same : parent.lease_id ≡ p = cc (rw (r.stored, e, parent_of) at q) in
              let (_, _, rest) =
                >>=-eq-ok
                  (refuse_if (leb max_authority_chain_depth (length ((current, r.entry) ∷ acc)))
                    delegation_invalid)
                  _ (rw e at r.rest) in
              rw same at rest
        ]

    climb_leases-usable :
        (fuel : ℕ) (visited : List LeaseId) (validated : List AgentId) (acc : List Link)
        (current : LeaseId) (entries : List Link) (a : LeaseId)
        → climb_leases st leaf expected now fuel visited validated acc current ≡ ok entries
        → Descends st.leases a current
        → StoredUsable st a now
    unfolding climb_leases
    climb_leases-usable zero visited validated acc current entries a r d = absurd (cc)
    climb_leases-usable (suc fuel) visited validated acc current entries a r here =
        let s =
          climb_leases-Round st leaf expected now fuel visited validated acc current entries r in
        (s.entry, s.stored, validate_active_record-IsUsable s.entry _ now s.checked)
    climb_leases-usable (suc fuel) visited validated acc current entries a r (below {p} d f) =
        let s =
          climb_leases-Round st leaf expected now fuel visited validated acc current entries r in
        climb_leases-usable fuel (current ∷ visited) s.validated ((current, s.entry) ∷ acc) p
          entries a (Round-next p s f) d

  -- A chain that validates has, at every ancestor of the leaf and at the leaf itself, a stored
  -- lease that is active and that has not reached its end.
  pub validate_chain-usable :
      (st : AuthorityState) (leaf : LeaseId) (expected : Option ℕ) (manifest : CapabilityManifest)
      (now : DateTime) (v : ValidatedAuthority) (a : LeaseId)
      → validate_chain st leaf expected manifest now ≡ ok v
      → Descends st.leases a leaf
      → StoredUsable st a now
  unfolding validate_chain
  validate_chain-usable st leaf expected manifest now v a r d =
      let (entries, climbed, _) =
        >>=-eq-ok (climb_leases st leaf expected now max_authority_chain_depth [] [] [] leaf) _ r in
      climb_leases-usable st leaf expected now max_authority_chain_depth [] [] [] leaf entries a
        climbed d

  -- A chain that validates under an expected generation has a leaf of that generation: a
  -- generation observed before the last change of the leaf is refused.
  pub validate_chain-generation :
      (st : AuthorityState) (leaf : LeaseId) (expected : ℕ) (manifest : CapabilityManifest)
      (now : DateTime) (v : ValidatedAuthority) (e : LeaseEntry)
      → validate_chain st leaf (some expected) manifest now ≡ ok v
      → get leaf st.leases ≡ some e
      → e.lease_record.generation ≡ expected
  unfolding validate_chain
  validate_chain-generation st leaf expected manifest now v e r found =
      let (entries, climbed, _) =
        >>=-eq-ok (climb_leases st leaf (some expected) now max_authority_chain_depth [] [] [] leaf)
          _ r in
      let s = climb_leases-Round st leaf (some expected) now 31 [] [] [] leaf entries climbed in
      let same : s.entry ≡ e = ground (arith, s.stored, found) in
      let itself : (leaf == leaf) ≡ true = (==_iff leaf leaf).1 refl in
      ap (λ (x : LeaseEntry). x.lease_record.generation) (sym same)
      ∙ validate_active_record-generation s.entry expected now (rw itself at s.checked)
