-- ===== src/Kernel/Descendants.antt =====
-- The descendants of a lease, and their cascading revocation
-- (crates/aeon_agent_runtime/src/authority_kernel/validation.rs). The worklist loop takes one round
-- for each lease in the store as fuel; a lease enters the list once.
pub mod Index
pub mod Rounds
pub mod Correct
use genesis_runtime.Common.{
  List, Map, Option, Result, String, [], contains, contains_key, err, get, get_list, if◌then◌else◌,
  lease_inactive, length, list_eq, modify, nat_eq, next_u64, none, not, ok, option_eq, push_back,
  refuse_if, some, sort_by, suc, zero, ℕ, ◌++◌, ◌>>◌, ◌∷◌,
}
use genesis_runtime.Ids.{LeaseId, identifier_eq, identifier_le}
use genesis_runtime.Json.{Host}
use genesis_runtime.Digest.{digest_eq}
use genesis_runtime.Mission.{DateTime}
use genesis_runtime.Authority.{LeaseRecord, bound_tool_eq, is_live, lease_ref_eq, revoked}
use genesis_runtime.Kernel.{AuthorityState, LeaseEntry, attempt, lease_revoked, push_event}

-- The loop's variables; the front of `pending` is its head.
pub record Walk : Type 0 where
  pub result : List LeaseId
  pub pending : List LeaseId
  pub seen : List LeaseId

-- `values_mut()` and `sort()`
unfoldable pub sort_children : Map LeaseId (List LeaseId) → Map LeaseId (List LeaseId)
sort_children [] = []
sort_children ((parent, children) ∷ m) = (parent, sort_by identifier_le children) ∷ sort_children m

-- `if seen.insert(child) { pending.push_back(child) }`
unfoldable pub offer : Walk → LeaseId → Walk
offer w child =
    if contains w.seen child
    then w
    else record w { pending = w.pending ++ child ∷ []; seen = child ∷ w.seen }

unfoldable pub offer_all : Walk → List LeaseId → Walk
offer_all w [] = w
offer_all w (child ∷ children) = offer_all (offer w child) children

-- The round of the loop that took `parent` from the front. A lease that the index does not hold
-- has no children.
unfoldable pub visit : Map LeaseId (List LeaseId) → Walk → LeaseId → List LeaseId → Walk
visit index w parent rest =
    offer_all (record w { result = w.result ++ parent ∷ []; pending = rest })
      (get_list parent index)

unfoldable pub walk : ℕ → Map LeaseId (List LeaseId) → Walk → Walk
walk zero index w = w
walk (suc fuel) index w = elim w.pending [
  | [] ↦ w
  | parent ∷ rest ↦ walk fuel index (visit index w parent rest)
]

unfoldable pub walk_from : LeaseId → Walk
walk_from root = record { result = []; pending = root ∷ []; seen = root ∷ [] }

module _ ⦃h : Host⦄ where
  unfoldable pub children_by_parent : Map LeaseId LeaseEntry → Map LeaseId (List LeaseId)
  children_by_parent [] = []
  children_by_parent ((lease_id, entry) ∷ leases) = elim entry.certificate.parent_lease [
    | none ↦ children_by_parent leases
    | some parent ↦ push_back parent.lease_id lease_id (children_by_parent leases)
  ]

  unfoldable pub descendants_including : AuthorityState → LeaseId → Result (List LeaseId)
  descendants_including st root = do
    refuse_if (not (contains_key st.leases root)) lease_inactive
    let index = sort_children (children_by_parent st.leases)
    ok (walk (length st.leases) index (walk_from root)).result

  unfoldable pub revoke_entry : DateTime → String → LeaseEntry → LeaseEntry
  revoke_entry now reason entry = record entry {
    lease_record = record r {
      state = revoked;
      generation = next_u64 r.generation;
      revoked_at = some now;
      revocation_reason = some reason;
    };
  }
    where
      r : LeaseRecord
      r = entry.lease_record

  -- One round of the loop over the affected leases: a lease that is active or paused is revoked.
  unfoldable pub revoke_one :
      AuthorityState → LeaseId → LeaseEntry → Option LeaseId → String → DateTime → AuthorityState
  unfolding revoke_entry
  revoke_one st lease_id entry related reason now =
      if is_live entry.lease_record.state
      then push_event (record st { leases = modify lease_id (revoke_entry now reason) st.leases })
          lease_id related lease_revoked now
      else st

  -- The loop; `related` is the lease that an event names as its cause.
  unfoldable pub revoke_each :
      List LeaseId
      → (LeaseId → Option LeaseId)
      → String
      → DateTime
      → AuthorityState
      → Result (Unit {0}) × AuthorityState
  revoke_each [] related reason now st = (ok tt, st)
  revoke_each (lease_id ∷ rest) related reason now st = elim (get lease_id st.leases) [
    | none ↦ (err lease_inactive, st)
    | some entry ↦
        revoke_each rest related reason now
          (revoke_one st lease_id entry (related lease_id) reason now)
  ]

  -- `into_iter().skip(1)`
  abbrev pub skip_first : List LeaseId → List LeaseId
  skip_first [] = []
  skip_first (_ ∷ rest) = rest

  unfoldable pub revoke_descendants :
      AuthorityState → LeaseId → String → DateTime → Result (Unit {0}) × AuthorityState
  revoke_descendants st root reason now =
      attempt (descendants_including st root) st
        λ descendants. revoke_each (skip_first descendants) (λ _. some root) reason now st
