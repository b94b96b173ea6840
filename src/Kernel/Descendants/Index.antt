-- ===== src/Kernel/Descendants/Index.antt =====
-- The index from parents to children lists exactly the leases whose certificate names the parent
-- (`descendants_including` in crates/aeon_agent_runtime/src/authority_kernel/validation.rs).
use mathlib.Core.Option
use genesis_runtime.Common.{
  ==_iff, IsDistinct, List, Map, Option, [], arith, contains, contains-append, contains-sort_by,
  contains_key, get, get_list, get_list-push_back, list_eq, nat_eq, none, option_eq, refl, some,
  sort_by, true, ◌==◌, ◌↔◌, ◌∷◌, ◌≡◌,
}
use genesis_runtime.Ids.{LeaseId, identifier_eq, identifier_le}
use genesis_runtime.Json.{Host}
use genesis_runtime.Digest.{digest_eq}
use genesis_runtime.Authority.{bound_tool_eq, lease_ref_eq}
use genesis_runtime.Kernel.{LeaseEntry}
use genesis_runtime.Kernel.Descendants.{children_by_parent, sort_children}

get_list-sort_children :
    (p : LeaseId) (m : Map LeaseId (List LeaseId))
    → get_list p (sort_children m) ≡ sort_by identifier_le (get_list p m)
unfolding get_list get sort_children sort_by
get_list-sort_children p [] = refl
get_list-sort_children p ((j, children) ∷ m) = ground (arith, get_list-sort_children p m)

module _ ⦃h : Host⦄ where
  -- A value for the parent also where there is none; used only where there is one.
  abbrev parent_in : LeaseEntry → LeaseId
  parent_in entry = elim entry.certificate.parent_lease [
    | none ↦ entry.certificate.lease_id
    | some r ↦ r.lease_id
  ]

  -- The parent that the certificate of a stored lease names.
  unfoldable pub parent_of : Map LeaseId LeaseEntry → LeaseId → Option LeaseId
  parent_of leases child = elim (get child leases) [
    | none ↦ none
    | some entry ↦ Option.map (λ r. r.lease_id) entry.certificate.parent_lease
  ]

  contains-children_by_parent :
      (leases : Map LeaseId LeaseEntry) (p c : LeaseId)
      → IsDistinct leases
      → contains (get_list p (children_by_parent leases)) c ≡ (parent_of leases c == some p)
  unfolding children_by_parent parent_of get get_list contains
  contains-children_by_parent [] p c d = ground arith
  contains-children_by_parent ((id, entry) ∷ leases) p c d = ground (
    arith,
    contains-children_by_parent leases p c d.1,
    get_list-push_back (parent_in entry) p id (children_by_parent leases),
    contains-append (get_list (parent_in entry) (children_by_parent leases)) (id ∷ []) c,
  )

  -- The children of `p` in the sorted index are the leases whose certificate names `p`.
  pub contains-children :
      (leases : Map LeaseId LeaseEntry) (p c : LeaseId)
      → IsDistinct leases
      → (contains (get_list p (sort_children (children_by_parent leases))) c ≡ true)
        ↔ (parent_of leases c ≡ some p)
  contains-children leases p c d =
      rw
        (
          get_list-sort_children p (children_by_parent leases),
          contains-sort_by identifier_le (get_list p (children_by_parent leases)) c,
          contains-children_by_parent leases p c d,
        )
        (==_iff (parent_of leases c) (some p))

  pub parent_of-contains_key :
      (leases : Map LeaseId LeaseEntry) (p c : LeaseId)
      → parent_of leases c ≡ some p
      → contains_key leases c ≡ true
  unfolding parent_of contains_key
  parent_of-contains_key leases p c h = ground arith
