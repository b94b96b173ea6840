-- ===== src/Kernel/Chain/Attenuation/Links.antt =====
-- One link of a validated chain: what the check of a parent and its child says, and that the chain
-- holds every lease beside its parent
-- (crates/aeon_agent_runtime/src/authority_kernel/validation.rs).
use mathlib.Core.Path.{ap, subst}
use genesis_runtime.Common.{
  ==_iff, >>=-eq-ok, Bool-cases, List, Option, Option-cases, [], any, arith, contains,
  delegation_invalid, false, get, inl, inr, leb, length, list_eq, ltb, nat_eq, not, ok, ok-inj,
  ok_or, option_eq, refl, refuse_if, some, suc, sym, true, zero, ℕ, ◌++◌, ◌==◌, ◌||◌, ◌∙◌, ◌∷◌, ◌≡◌,
  ◌≤◌,
}
use genesis_runtime.Ids.{AgentId, LeaseId, identifier_eq}
use genesis_runtime.Json.{Host}
use genesis_runtime.Authority.{
  AuthorityCodec, AuthoritySet, BoundTool, CapabilityManifest, bound_tool_eq, lease_ref_eq,
}
use genesis_runtime.Authority.Lease.{lease_ref}
use genesis_runtime.Identity.{IdentityCodec}
use genesis_runtime.Mission.{DateTime}
use genesis_runtime.Kernel.Descendants.Index.{parent_of}
use genesis_runtime.Kernel.Chain.Sound.{Round-next}
use genesis_runtime.Kernel.Chain.Steps.{Round, climb_leases-Round}
use genesis_runtime.Kernel.{AuthorityState, LeaseEntry, max_authority_chain_depth}
use genesis_runtime.Kernel.Checks.{
  authority_is_subset_of, validate_authority_sets, validate_manifest_attenuation,
  validate_parent_child,
}
use genesis_runtime.Kernel.Chain.{Link, climb_leases, validate_links}

append_cons {ℓ} :
    {A : Type ℓ} (xs : List A) (x : A) (ys : List A) → (xs ++ x ∷ []) ++ ys ≡ xs ++ x ∷ ys
append_cons [] x ys = refl
append_cons (z ∷ xs) x ys = ap (λ zs. z ∷ zs) (append_cons xs x ys)

module _ ⦃h : Host⦄ where
  -- The lease `e` is no wider than what its ancestor `a` may delegate, ends no later, and binds
  -- no tool that `a` does not.
  pub record Attenuates (a e : LeaseEntry) : Type 0 where
    pub authority :
        authority_is_subset_of e.certificate.granted_authority a.certificate.delegable_authority
        ≡ true
    pub bounded : e.certificate.expires_at ≤ a.certificate.expires_at
    pub tools :
        (t : BoundTool)
        → contains e.manifest.approved_tools t ≡ true
        → contains a.manifest.approved_tools t ≡ true

  -- What the check of a link says besides.
  pub record Linked (a e : LeaseEntry) : Type 0 where
    pub attenuates : Attenuates a e
    pub within :
        authority_is_subset_of e.certificate.delegable_authority e.certificate.granted_authority
        ≡ true

  pub tools_within :
      (child parent : List BoundTool)
      → any (λ t. not (contains parent t)) child ≡ false
      → (t : BoundTool) → contains child t ≡ true
      → contains parent t ≡ true
  unfolding any contains
  tools_within [] parent none_ t m = absurd (cc)
  tools_within (x ∷ child) parent none_ t m = elim (Bool-cases (x == t)) [
    | inl hit ↦
        subst (λ u. contains parent u ≡ true) ((==_iff x t).0 hit) (unfold any in ground arith)
    | inr other ↦ tools_within child parent (ground arith) t (ground arith)
  ]

  pub validate_manifest_attenuation-tools :
      (child parent : CapabilityManifest)
      → validate_manifest_attenuation child parent ≡ ok tt
      → any (λ t. not (contains parent.approved_tools t)) child.approved_tools ≡ false
  unfolding validate_manifest_attenuation
  validate_manifest_attenuation-tools child parent r = ground arith

  validate_authority_sets-within :
      (granted delegable : AuthoritySet)
      → validate_authority_sets granted delegable ≡ ok tt
      → authority_is_subset_of delegable granted ≡ true
  unfolding validate_authority_sets
  validate_authority_sets-within granted delegable r = ground arith

  module _ ⦃codec : AuthorityCodec⦄ where
    validate_parent_child-Linked :
        (parent child : LeaseEntry)
        → validate_parent_child parent child ≡ ok tt
        → Linked parent child
    unfolding validate_parent_child
    validate_parent_child-Linked parent child r =
        let (ref, _, r1) =
          >>=-eq-ok (ok_or child.certificate.parent_lease delegation_invalid) _ r in
        let (expected, _, r2) = >>=-eq-ok (lease_ref parent.certificate) _ r1 in
        let (_, guards, r3) =
          >>=-eq-ok
            (refuse_if
              (not (ref == expected)
                || not (child.certificate.parent_agent_id == some parent.certificate.agent_id)
                || ltb parent.certificate.expires_at child.certificate.expires_at
                || not (
                    authority_is_subset_of child.certificate.granted_authority
                      parent.certificate.delegable_authority))
              delegation_invalid)
            _ r2 in
        let (_, sets, manifests) =
          >>=-eq-ok
            (validate_authority_sets child.certificate.granted_authority
              child.certificate.delegable_authority)
            _ r3 in
        record {
          attenuates = record {
            authority = ground (arith, guards);
            bounded = ground (arith, guards);
            tools =
                tools_within child.manifest.approved_tools parent.manifest.approved_tools
                  (validate_manifest_attenuation-tools child.manifest parent.manifest manifests);
          };
          within = validate_authority_sets-within _ _ sets;
        }

module _ ⦃h : Host⦄ ⦃identity_codec : IdentityCodec⦄ ⦃codec : AuthorityCodec⦄ where
  validate_links-tail :
      (x : Link) (entries : List Link)
      → validate_links (x ∷ entries) ≡ ok tt
      → validate_links entries ≡ ok tt
  unfolding validate_links
  validate_links-tail x [] r = refl
  validate_links-tail x (y ∷ entries) r =
      let (_, _, r1) = >>=-eq-ok (validate_parent_child x.1 y.1) _ r in r1

  validate_links-suffix :
      (front entries : List Link)
      → validate_links (front ++ entries) ≡ ok tt
      → validate_links entries ≡ ok tt
  validate_links-suffix [] entries r = r
  validate_links-suffix (x ∷ front) entries r =
      validate_links-suffix front entries (validate_links-tail x (front ++ entries) r)

  module _ (st : AuthorityState) (leaf : LeaseId) (expected : Option ℕ) (now : DateTime) where
    Round-front :
        (fuel : ℕ) (visited : List LeaseId) (acc : List Link) (current : LeaseId)
        (entries : List Link)
        → ((vs : List LeaseId) (validated : List AgentId) (xs : List Link) (c : LeaseId)
            → climb_leases st leaf expected now fuel vs validated xs c ≡ ok entries
            → (front : List Link) × (entries ≡ front ++ xs))
        → (s : Round st leaf expected now fuel visited acc current entries)
        → (front : List Link) × (entries ≡ front ++ (current, s.entry) ∷ acc)
    Round-front fuel visited acc current entries more s =
        elim (Option-cases s.entry.certificate.parent_lease) [
          | inl root ↦ ([], sym (ok-inj (rw root at s.rest)))
          | inr (parent, e) ↦
              let (_, _, rest) =
                >>=-eq-ok
                  (refuse_if (leb max_authority_chain_depth (length ((current, s.entry) ∷ acc)))
                    delegation_invalid)
                  _ (rw e at s.rest) in
              more (current ∷ visited) s.validated ((current, s.entry) ∷ acc) parent.lease_id rest
        ]

    -- The loop only puts entries in front.
    climb_leases-front :
        (entries : List Link) (fuel : ℕ) (visited : List LeaseId) (validated : List AgentId)
        (acc : List Link) (current : LeaseId)
        → climb_leases st leaf expected now fuel visited validated acc current ≡ ok entries
        → (front : List Link) × (entries ≡ front ++ acc)
    unfolding climb_leases
    climb_leases-front entries zero visited validated acc current r = absurd (cc)
    climb_leases-front entries (suc fuel) visited validated acc current r =
        let s =
          climb_leases-Round st leaf expected now fuel visited validated acc current entries r in
        let (front, q) =
          Round-front fuel visited acc current entries (climb_leases-front entries fuel) s in
        (front ++ (current, s.entry) ∷ [], q ∙ sym (append_cons front (current, s.entry) acc))

    pub climb_leases-zero :
        (visited : List LeaseId) (validated : List AgentId) (acc : List Link) (current : LeaseId)
        (entries : List Link)
        → ¬ (climb_leases st leaf expected now zero visited validated acc current ≡ ok entries)
    unfolding climb_leases
    climb_leases-zero visited validated acc current entries r = cc r

    -- One link: the leases at `current` and at its parent.
    pub climb_leases-Linked :
        (fuel : ℕ) (visited : List LeaseId) (validated : List AgentId) (acc : List Link)
        (current : LeaseId) (entries : List Link) (p : LeaseId) (e ep : LeaseEntry)
        → climb_leases st leaf expected now (suc fuel) visited validated acc current ≡ ok entries
        → validate_links entries ≡ ok tt
        → get current st.leases ≡ some e
        → get p st.leases ≡ some ep
        → parent_of st.leases current ≡ some p
        → Linked ep e
    unfolding climb_leases validate_links
    climb_leases-Linked zero visited validated acc current entries p e ep r links found above f =
        let s =
          climb_leases-Round st leaf expected now zero visited validated acc current entries r in
        absurd (cc (Round-next st leaf expected now p s f))
    climb_leases-Linked (suc fuel) visited validated acc current entries p e ep r links found above
          f =
        let s =
          climb_leases-Round st leaf expected now (suc fuel) visited validated acc current entries
            r in
        let t =
          climb_leases-Round st leaf expected now fuel (current ∷ visited) s.validated
            ((current, s.entry) ∷ acc) p entries (Round-next st leaf expected now p s f) in
        let (front, q) =
          Round-front fuel (current ∷ visited) ((current, s.entry) ∷ acc) p entries
            (climb_leases-front entries fuel) t in
        let e_same : s.entry ≡ e = ground (arith, s.stored, found) in
        let ep_same : t.entry ≡ ep = ground (arith, t.stored, above) in
        let (_, linked, _) =
          >>=-eq-ok (validate_parent_child t.entry s.entry) _ (
            validate_links-suffix front ((p, t.entry) ∷ (current, s.entry) ∷ acc)
              (rw q at links)) in
        rw ep_same at (rw e_same at (validate_parent_child-Linked t.entry s.entry linked))
