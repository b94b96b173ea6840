-- ===== src/Kernel/Chain/Attenuation/Subsets.antt =====
-- The comparison of authority sets is transitive where that of capabilities is
-- (crates/aeon_agent_runtime/src/authority_kernel/validation.rs).
use genesis_runtime.Common.{
  Bool-cases, List, [], all, any, arith, inl, inr, list_eq, nat_eq, option_eq, refl, true, ◌∷◌, ◌≡◌,
}
use genesis_runtime.Json.{Host}
use genesis_runtime.Mission.{Capability}
use genesis_runtime.Authority.{AuthoritySet, bound_tool_eq, lease_ref_eq}
use genesis_runtime.Authority.Sets.{covers_any}
use genesis_runtime.Kernel.Checks.{authority_is_subset_of, authority_is_subset_of_capabilities}

module _ ⦃h : Host⦄ where
  -- `Capability::is_subset_of` of the policy crate is transitive.
  abbrev pub IsTransitive : Type 0
  IsTransitive =
      (a b c : Capability)
      → h.is_subset_of a b ≡ true
      → h.is_subset_of b c ≡ true
      → h.is_subset_of a c ≡ true

  module _ (transitive : IsTransitive) where
    covers_any-narrower :
        (cs : List Capability) (a b : Capability)
        → h.is_subset_of a b ≡ true
        → covers_any cs b ≡ true
        → covers_any cs a ≡ true
    unfolding covers_any any
    covers_any-narrower [] a b s c = cc
    covers_any-narrower (x ∷ cs) a b s c =
        ground (arith, transitive a b x s, covers_any-narrower cs a b s)

    covers_any_trans :
        (bs cs : List Capability) (a : Capability)
        → covers_any bs a ≡ true
        → all (covers_any cs) bs ≡ true
        → covers_any cs a ≡ true
    unfolding covers_any any all
    covers_any_trans [] cs a c s = absurd (cc)
    covers_any_trans (b ∷ bs) cs a c s = elim (Bool-cases (h.is_subset_of a b)) [
      | inl q ↦ covers_any-narrower cs a b q (ground arith)
      | inr q ↦ covers_any_trans bs cs a (ground arith) (ground arith)
    ]

    covers_all_trans :
        (aa bs cs : List Capability)
        → all (covers_any bs) aa ≡ true
        → all (covers_any cs) bs ≡ true
        → all (covers_any cs) aa ≡ true
    unfolding all
    covers_all_trans [] bs cs c s = refl
    covers_all_trans (a ∷ aa) bs cs c s =
        ground (arith, covers_any_trans bs cs a, covers_all_trans aa bs cs)

    pub authority_is_subset_of_trans :
        (a b c : AuthoritySet)
        → authority_is_subset_of a b ≡ true
        → authority_is_subset_of b c ≡ true
        → authority_is_subset_of a c ≡ true
    unfolding authority_is_subset_of authority_is_subset_of_capabilities
    authority_is_subset_of_trans a b c r s =
        covers_all_trans a.capabilities b.capabilities c.capabilities r s
