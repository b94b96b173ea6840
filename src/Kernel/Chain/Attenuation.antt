-- ===== src/Kernel/Chain/Attenuation.antt =====
-- A validated chain narrows authority from each lease to the next, and so from any ancestor to
-- the leaf (crates/aeon_agent_runtime/src/authority_kernel/validation.rs).
pub mod Subsets
pub mod Links
use mathlib.Core.Path.{ap, subst}
use genesis_runtime.Common.{
  >>=-eq-ok, List, Option, [], arith, get, list_eq, nat_eq, ok, option_eq, some, suc, true, zero, ℕ,
  ◌∷◌, ◌≡◌,
}
use genesis_runtime.Ids.{AgentId, LeaseId, identifier_eq}
use genesis_runtime.Json.{Host}
use genesis_runtime.Authority.{
  AuthorityCodec, AuthoritySet, CapabilityManifest, bound_tool_eq, lease_ref_eq,
}
use genesis_runtime.Identity.{IdentityCodec}
use genesis_runtime.Mission.{DateTime}
use genesis_runtime.Kernel.Descendants.Index.{parent_of}
use genesis_runtime.Kernel.Chain.Sound.{Round-next}
use genesis_runtime.Kernel.Chain.Attenuation.Links.{
  Attenuates, Linked, climb_leases-Linked, climb_leases-zero,
}
use genesis_runtime.Kernel.Chain.Attenuation.Subsets.{IsTransitive, authority_is_subset_of_trans}
use genesis_runtime.Kernel.Chain.Steps.{climb_leases-Round}
use genesis_runtime.Kernel.Descendants.Correct.{Descends, below, here}
use genesis_runtime.Kernel.{
  AuthorityState, LeaseEntry, ValidatedAuthority, max_authority_chain_depth,
}
use genesis_runtime.Kernel.Checks.{authority_is_subset_of}
use genesis_runtime.Kernel.Chain.{Link, climb_leases, validate_chain, validate_links}

module _ ⦃h : Host⦄ ⦃identity_codec : IdentityCodec⦄ ⦃codec : AuthorityCodec⦄ where
  module _ (transitive : IsTransitive) where
    Linked-trans : {a b c : LeaseEntry} → Linked a b → Linked b c → Linked a c
    Linked-trans {a} {b} {c} m l = record {
      attenuates = record {
        authority =
            subset_trans c.certificate.granted_authority b.certificate.delegable_authority
              a.certificate.delegable_authority l.attenuates.authority
              (subset_trans b.certificate.delegable_authority b.certificate.granted_authority
                a.certificate.delegable_authority m.within m.attenuates.authority);
        bounded = omega (arith, m.attenuates.bounded, l.attenuates.bounded);
        tools = λ t u. m.attenuates.tools t (l.attenuates.tools t u);
      };
      within = l.within;
    }
      where
        subset_trans :
            (x y z : AuthoritySet)
            → authority_is_subset_of x y ≡ true
            → authority_is_subset_of y z ≡ true
            → authority_is_subset_of x z ≡ true
        subset_trans = authority_is_subset_of_trans transitive

    module _ (st : AuthorityState) (leaf : LeaseId) (expected : Option ℕ) (now : DateTime) where
      climb_leases-ancestor :
          (entries : List Link) (a : LeaseId) (ea : LeaseEntry)
          → validate_links entries ≡ ok tt
          → get a st.leases ≡ some ea
          → (fuel : ℕ) (visited : List LeaseId) (validated : List AgentId) (acc : List Link)
            (current p : LeaseId) (e : LeaseEntry)
          → climb_leases st leaf expected now (suc fuel) visited validated acc current ≡ ok entries
          → get current st.leases ≡ some e
          → parent_of st.leases current ≡ some p
          → Descends st.leases a p
          → Linked ea e
      climb_leases-ancestor entries a ea links above fuel visited validated acc current p e r found
            f here =
          climb_leases-Linked st leaf expected now fuel visited validated acc current entries a e ea
            r links found above f
      climb_leases-ancestor entries a ea links above zero visited validated acc current p e r found
            f (below d g) =
          let s =
            climb_leases-Round st leaf expected now zero visited validated acc current entries r in
          absurd (
            climb_leases-zero st leaf expected now _ _ _ _ _
              (Round-next st leaf expected now p s f))
      climb_leases-ancestor entries a ea links above (suc fuel) visited validated acc current p e r
            found f (below {p = q} d g) =
          let s =
            climb_leases-Round st leaf expected now (suc fuel) visited validated acc current entries
              r in
          let next = Round-next st leaf expected now p s f in
          let t =
            climb_leases-Round st leaf expected now fuel (current ∷ visited) s.validated
              ((current, s.entry) ∷ acc) p entries next in
          Linked-trans
            (climb_leases-ancestor entries a ea links above fuel (current ∷ visited) s.validated
              ((current, s.entry) ∷ acc) p q t.entry next t.stored g d)
            (climb_leases-Linked st leaf expected now (suc fuel) visited validated acc current
              entries p e t.entry r links found t.stored f)

    -- Where the comparison of capabilities is transitive: a chain that validates attenuates from
    -- every proper ancestor to the leaf. The leaf is granted no capability beyond what the
    -- ancestor may delegate, it expires no later, and it binds no tool that the ancestor does not.
    pub validate_chain-Attenuates :
        (st : AuthorityState) (leaf : LeaseId) (expected : Option ℕ) (manifest : CapabilityManifest)
        (now : DateTime) (v : ValidatedAuthority) (p a : LeaseId) (e ea : LeaseEntry)
        → validate_chain st leaf expected manifest now ≡ ok v
        → get leaf st.leases ≡ some e
        → get a st.leases ≡ some ea
        → parent_of st.leases leaf ≡ some p
        → Descends st.leases a p
        → Attenuates ea e
    unfolding validate_chain
    validate_chain-Attenuates st leaf expected manifest now v p a e ea r found above f d =
        let (entries, climbed, r1) =
          >>=-eq-ok (climb_leases st leaf expected now max_authority_chain_depth [] [] [] leaf) _
            r in
        let (_, links, _) = >>=-eq-ok (validate_links entries) _ r1 in
        (climb_leases-ancestor st leaf expected now entries a ea links above 31 [] [] [] leaf p e
          climbed found f d).attenuates
