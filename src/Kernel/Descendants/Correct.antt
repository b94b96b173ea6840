-- ===== src/Kernel/Descendants/Correct.antt =====
-- The worklist ends, and what it collects is the lease and its descendants
-- (`descendants_including` in crates/aeon_agent_runtime/src/authority_kernel/validation.rs).
use genesis_runtime.Common.{
  Bool-cases, IsDistinct, List, List-cases, Map, [], ap, arith, contains, contains-append,
  contains-keys, contains_key, get_list, inl, inr, keys, length, list_eq, nat_eq, ok, option_eq,
  refl, some, subst, suc, sym, true, zero, ℕ, ◌++◌, ◌<◌, ◌||◌, ◌↔◌, ◌∙◌, ◌∷◌, ◌≡◌, ◌≤◌,
}
use genesis_runtime.Ids.{LeaseId, identifier_eq}
use genesis_runtime.Json.{Host}
use genesis_runtime.Kernel.{AuthorityState, LeaseEntry}
use genesis_runtime.Kernel.Descendants.{
  Walk, children_by_parent, descendants_including, sort_children, visit, walk, walk_from,
}
use genesis_runtime.Kernel.Descendants.Index.{contains-children, parent_of, parent_of-contains_key}
use genesis_runtime.Kernel.Descendants.Rounds.{
  pending-offer_all, result-offer_all, seen-offer_all, unseen-root-lt, work, work-offer_all,
}

module _ ⦃h : Host⦄ where
  -- The leases that are reached from `root` by parent references, `root` included.
  pub data Descends (leases : Map LeaseId LeaseEntry) (root : LeaseId) : LeaseId → Type 0 where
    here : Descends leases root root
    below :
        {p c : LeaseId}
        → Descends leases root p
        → parent_of leases c ≡ some p
        → Descends leases root c

  module _ (leases : Map LeaseId LeaseEntry) (distinct : IsDistinct leases) (root : LeaseId) where
    abbrev index : Map LeaseId (List LeaseId)
    index = sort_children (children_by_parent leases)

    record Inv (w : Walk) : Type 0 where
      covered : (x : LeaseId) → contains w.seen x ≡ (contains w.result x || contains w.pending x)
      started : contains w.seen root ≡ true
      sound : (x : LeaseId) → contains w.seen x ≡ true → Descends leases root x
      closed :
          (p c : LeaseId)
          → contains w.result p ≡ true
          → parent_of leases c ≡ some p
          → contains w.seen c ≡ true

    Inv-walk_from : Inv (walk_from root)
    unfolding walk_from contains
    Inv-walk_from = record {
      covered = λ x. ground arith;
      started = ground arith;
      sound = λ x m. let e : root ≡ x = ground arith in subst (Descends leases root) e here;
      closed = λ p c m e. cc;
    }

    Inv-visit :
        (w : Walk) (p : LeaseId) (rest : List LeaseId)
        → w.pending ≡ p ∷ rest
        → Inv w
        → Inv (visit index w p rest)
    unfolding visit contains
    Inv-visit w p rest e v =
        let w' = record w { result = w.result ++ p ∷ []; pending = rest } in
        let cs = get_list p index in
        let seen = λ (x : LeaseId). seen-offer_all w' cs x in
        let children = λ (x : LeaseId). contains-children leases p x distinct in
        let p_seen : contains w.seen p ≡ true = ground (arith, v.covered p) in
        record {
          covered = λ x. ground (
            arith,
            v.covered x,
            seen x,
            pending-offer_all w' cs x,
            result-offer_all w' cs,
            contains-append w.result (p ∷ []) x,
          );
          started = ground (arith, v.started, seen root);
          sound = λ x m. elim (Bool-cases (contains w.seen x)) [
            | inl old ↦ v.sound x old
            | inr new ↦ below (v.sound p p_seen) ((children x).0 (ground (arith, seen x)))
          ];
          closed = λ q c m f. ground (
            arith,
            v.closed q c,
            seen c,
            result-offer_all w' cs,
            contains-append w.result (p ∷ []) q,
            (children c).1,
          );
        }

    work-visit :
        (w : Walk) (p : LeaseId) (rest : List LeaseId)
        → w.pending ≡ p ∷ rest
        → work (keys leases) (visit index w p rest) < work (keys leases) w
    unfolding visit
    work-visit w p rest e =
        let w' = record w { result = w.result ++ p ∷ []; pending = rest } in
        omega (
          arith,
          ap length e,
          work-offer_all (keys leases) w' (get_list p index) (λ x m.
              contains-keys leases x
              ∙ parent_of-contains_key leases p x ((contains-children leases p x distinct).0 m)),
        )

    -- With as many rounds as there is work the loop ends by its own test, under the invariant.
    walk_ends :
        (fuel : ℕ) (w : Walk)
        → Inv w
        → work (keys leases) w ≤ fuel
        → Inv (walk fuel index w) × ((walk fuel index w).pending ≡ [])
    unfolding walk
    walk_ends zero w v m = elim (List-cases w.pending) [
      | inl empty ↦ (v, empty)
      | inr (p, rest, e) ↦ absurd (omega (arith, ap length e))
    ]
    walk_ends (suc fuel) w v m = elim (List-cases w.pending) [
      | inl empty ↦ rw (empty, walk) (v, empty)
      | inr (p, rest, e) ↦
          rw (e, walk)
            (walk_ends fuel (visit index w p rest) (Inv-visit w p rest e v)
              (omega (arith, work-visit w p rest e)))
    ]

    complete :
        (w : Walk)
        → Inv w
        → w.pending ≡ []
        → {x : LeaseId} → Descends leases root x
        → contains w.seen x ≡ true
    unfolding contains
    complete w v e here = v.started
    complete w v e (below {p} {c} d f) =
        let seen : contains w.seen p ≡ true = complete w v e d in
        v.closed p c (ground (arith, v.covered p)) f

    collected :
        (w : Walk) (x : LeaseId)
        → Inv w
        → w.pending ≡ []
        → (contains w.result x ≡ true) ↔ Descends leases root x
    unfolding contains
    collected w x v e =
        let all_seen : contains w.seen x ≡ contains w.result x = ground (arith, v.covered x) in
        (λ m. v.sound x (all_seen ∙ m), λ d. sym all_seen ∙ complete w v e d)

  length-keys : (leases : Map LeaseId LeaseEntry) → length (keys leases) ≡ length leases
  unfolding keys
  length-keys [] = refl
  length-keys ((k, v) ∷ m) = ap suc (length-keys m)

  enough :
      (st : AuthorityState) (root : LeaseId)
      → contains_key st.leases root ≡ true
      → work (keys st.leases) (walk_from root) ≤ length st.leases
  unfolding walk_from
  enough st root stored = omega (
    arith,
    length-keys st.leases,
    unseen-root-lt (keys st.leases) root (contains-keys st.leases root ∙ stored),
  )

  -- In a store without repeated keys, the worklist for a stored lease runs to its end within one
  -- round for each lease: a list is returned, and it holds a lease exactly if that lease is reached
  -- from the given one by following parent references downwards, the given lease included.
  pub descendants_including_correct :
      (st : AuthorityState) (root : LeaseId)
      → IsDistinct st.leases
      → contains_key st.leases root ≡ true
      → (ds : List LeaseId) × (descendants_including st root ≡ ok ds)
        × ((x : LeaseId) → (contains ds x ≡ true) ↔ Descends st.leases root x)
  unfolding descendants_including
  descendants_including_correct st root distinct stored =
      let leases = st.leases in
      let ends =
        walk_ends leases distinct root (length leases) (walk_from root)
          (Inv-walk_from leases distinct root) (enough st root stored) in
      (
        (walk (length leases) (index leases distinct root) (walk_from root)).result,
        rw stored,
        λ x. collected leases distinct root _ x ends.0 ends.1,
      )
