-- ===== src/Kernel/Evolution/Exact.antt =====
-- The exact effect of the revocation loop on every lease, and so of `revoke`
-- (crates/aeon_agent_runtime/src/authority_kernel.rs).
use mathlib.Core.Option
use genesis_runtime.Common.{
  ap, next_u64, ◌%◌, ◌+◌, ◌^◌, ◌↔◌, ◌≢◌, ◌⊎◌, Bool-cases, IsDistinct, List, Map, Option,
  Option-cases, String, [], arith, contains, contains_key, false, get, get-modify, if◌then◌else◌,
  inl, inr, list_eq, nat_eq, ok, option_eq, refl, some, true, ◌==◌, ◌∷◌, ◌≡◌,
}
use genesis_runtime.Ids.{LeaseId, identifier_eq}
use genesis_runtime.Json.{Host}
use genesis_runtime.Mission.{DateTime}
use mathlib.Core.Path.{◌∙◌}
use genesis_runtime.Authority.{
  LeaseState, active, expired, paused, retired, revoked, bound_tool_eq, is_live, lease_ref_eq,
}
use genesis_runtime.Kernel.{AuthorityState, LeaseEntry, push_event}
use genesis_runtime.Kernel.Checks.{require_generation}
use genesis_runtime.Kernel.Descendants.{revoke_each, revoke_entry, revoke_one}
use genesis_runtime.Kernel.Descendants.Index.{parent_of}
use genesis_runtime.Kernel.Descendants.Correct.{
  Descends, below, descendants_including_correct, here,
}
use genesis_runtime.Kernel.Lifecycle.{cause_of, revoke}
use genesis_runtime.Kernel.Evolution.Cascade.{IsStored, revoke_each_ok}

module _ ⦃h : Host⦄ where
  -- A lease that is active or paused is revoked; any other stays as it is.
  unfoldable pub revoke_live : DateTime → String → LeaseEntry → LeaseEntry
  revoke_live now reason e = if is_live e.lease_record.state then revoke_entry now reason e else e

  pub revoke_live-dead :
      (now : DateTime) (reason : String) (e : LeaseEntry)
      → is_live (revoke_live now reason e).lease_record.state ≡ false
  unfolding revoke_live revoke_entry
  revoke_live-dead now reason e = ground arith

  revoke_live-live :
      (now : DateTime) (reason : String) (e : LeaseEntry)
      → is_live e.lease_record.state ≡ true
      → revoke_live now reason e ≡ revoke_entry now reason e
  unfolding revoke_live
  revoke_live-live now reason e live = rw live

  revoke_live-stays :
      (now : DateTime) (reason : String) (e : LeaseEntry)
      → is_live e.lease_record.state ≡ false
      → revoke_live now reason e ≡ e
  unfolding revoke_live
  revoke_live-stays now reason e dead = rw dead

  -- What a lease is after a revocation of it, of what it was.
  pub data IsRevocation (now : DateTime) (reason : String) (before after : LeaseEntry)
      : Type 0 where
    revokes :
        (before.lease_record.state ≡ active) ⊎ (before.lease_record.state ≡ paused)
        → after.lease_record.state ≡ revoked
        → after.lease_record.generation ≡ (before.lease_record.generation + 1) % 2 ^ 64
        → after.lease_record.revoked_at ≡ some now
        → after.lease_record.revocation_reason ≡ some reason
        → after.lease_record.renewed_by ≡ before.lease_record.renewed_by
        → after.lease_record.lease_id ≡ before.lease_record.lease_id
        → after.certificate ≡ before.certificate
        → after.manifest ≡ before.manifest
        → IsRevocation now reason before after
    keeps :
        before.lease_record.state ≢ active
        → before.lease_record.state ≢ paused
        → after ≡ before
        → IsRevocation now reason before after

  is_live-state : (s : LeaseState) → is_live s ≡ true → (s ≡ active) ⊎ (s ≡ paused)
  is_live-state active q = inl refl
  is_live-state paused q = inr refl
  is_live-state revoked q = absurd (cc)
  is_live-state expired q = absurd (cc)
  is_live-state retired q = absurd (cc)

  dead_state : (s t : LeaseState) → is_live s ≡ false → is_live t ≡ true → s ≢ t
  dead_state s t dead live same = cc (ap is_live same, dead, live)

  revoke_live-IsRevocation :
      (now : DateTime) (reason : String) (e : LeaseEntry)
      → IsRevocation now reason e (revoke_live now reason e)
  unfolding revoke_entry next_u64
  revoke_live-IsRevocation now reason e = elim (Bool-cases (is_live e.lease_record.state)) [
    | inl live ↦
        rw (revoke_live-live now reason e live) (
          revokes (is_live-state e.lease_record.state live) refl refl refl refl refl refl refl refl)
    | inr dead ↦
        keeps (dead_state e.lease_record.state active dead refl)
          (dead_state e.lease_record.state paused dead refl) (revoke_live-stays now reason e dead)
  ]

  not_live : (s : LeaseState) → s ≢ active → s ≢ paused → is_live s ≡ false
  not_live active a p = absurd (a refl)
  not_live paused a p = absurd (p refl)
  not_live revoked a p = refl
  not_live expired a p = refl
  not_live retired a p = refl

  pub IsRevocation-dead :
      (now : DateTime) (reason : String) (before after : LeaseEntry)
      → IsRevocation now reason before after
      → is_live after.lease_record.state ≡ false
  IsRevocation-dead now reason before after (revokes _ state _ _ _ _ _ _ _) = rw state refl
  IsRevocation-dead now reason before after (keeps a p same) =
      rw same (not_live before.lease_record.state a p)

  module _ (related : LeaseId → Option LeaseId) (reason : String) (now : DateTime) where
    revoke_one-get :
        (st : AuthorityState) (id x : LeaseId) (e : LeaseEntry) (r : Option LeaseId)
        → get id st.leases ≡ some e
        → get x (revoke_one st id e r reason now).leases
          ≡ (if id == x then some (revoke_live now reason e) else get x st.leases)
    unfolding revoke_one push_event
    revoke_one-get st id x e r found = elim (Bool-cases (is_live e.lease_record.state)) [
      | inr dead ↦ rw (dead, revoke_live-stays now reason e dead) (ground arith)
      | inl live ↦
          rw (live, revoke_live-live now reason e live)
            (ground (arith, get-modify id x (revoke_entry now reason) st.leases))
    ]

    -- What the loop leaves under each identifier.
    pub revoke_each-get :
        (ids : List LeaseId) (st : AuthorityState) (x : LeaseId)
        → (revoke_each ids related reason now st).0 ≡ ok tt
        → get x (revoke_each ids related reason now st).1.leases ≡ (
            if contains ids x
            then Option.map (revoke_live now reason) (get x st.leases)
            else get x st.leases)
    unfolding revoke_each contains
    revoke_each-get [] st x r = refl
    revoke_each-get (id ∷ ids) st x r = elim (Option-cases (get id st.leases)) [
      | inl missing ↦ absurd (cc (rw (missing, revoke_each) at r))
      | inr (e, found) ↦
          rw (found, revoke_each)
            (ground (
              arith,
              revoke_each-get ids (revoke_one st id e (related id) reason now) x
                  (rw (found, revoke_each) at r),
              revoke_one-get st id x e (related id) found,
              revoke_live-stays now reason (revoke_live now reason e)
                  (revoke_live-dead now reason e),
            ))
    ]

  pub Descends-IsStored :
      (leases : Map LeaseId LeaseEntry) (root x : LeaseId)
      → IsStored leases root
      → Descends leases root x
      → IsStored leases x
  unfolding parent_of
  Descends-IsStored leases root x stored here = stored
  Descends-IsStored leases root x stored (below d e) = ground arith

  -- `revoke` on a stored lease that is active or paused, under its current generation, succeeds.
  -- It returns the given lease and its descendants. Every active or paused lease among the given one and its descendants is revoked after it, with
  -- the next generation, the time and the reason recorded and all else kept; every other lease,
  -- the dead ones among the descendants included, is as it was.
  pub revoke_cascades :
      (st : AuthorityState) (id : LeaseId) (e : LeaseEntry) (reason : String) (now : DateTime)
      → IsDistinct st.leases
      → get id st.leases ≡ some e
      → is_live e.lease_record.state ≡ true
      → (affected : List LeaseId) × (st' : AuthorityState) × (revoke st id e.lease_record.generation
            reason now
          ≡ (ok affected, st'))
        × ((x : LeaseId) (f : LeaseEntry)
            → Descends st.leases id x
            → get x st.leases ≡ some f
            → (g : LeaseEntry) × (get x st'.leases ≡ some g) × IsRevocation now reason f g)
        × ((x : LeaseId) → ¬ Descends st.leases id x → get x st'.leases ≡ get x st.leases)
        × ((x : LeaseId) → (contains affected x ≡ true) ↔ Descends st.leases id x)
  unfolding revoke contains_key require_generation
  revoke_cascades st id e reason now distinct found live =
      let (ds, returned, exact) =
        descendants_including_correct st id distinct (rw (found, contains_key)) in
      let done =
        revoke_each_ok (cause_of id) reason now ds st
          (λ x m. Descends-IsStored st.leases id x (e, found) ((exact x).0 m)) in
      let after = λ (x : LeaseId). revoke_each-get (cause_of id) reason now ds st x done in
      (
        ds,
        (revoke_each ds (cause_of id) reason now st).1,
        ground (arith, found, live, returned, done),
        λ x f d held. (
          revoke_live now reason f,
          after x ∙ rw ((exact x).1 d, held) refl,
          revoke_live-IsRevocation now reason f,
        ),
        λ x n. elim (Bool-cases (contains ds x)) [
          | inl m ↦ absurd (n ((exact x).0 m))
          | inr m ↦ ground (arith, after x)
        ],
        exact,
      )
