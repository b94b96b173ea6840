-- ===== src/Kernel/Evolution/Cascade.antt =====
-- The loop that revokes the affected leases (`revoke`, and `revoke_descendants` of
-- crates/aeon_agent_runtime/src/authority_kernel/validation.rs).
use genesis_runtime.Common.{
  ==_iff, Bool-cases, List, Map, Option, Option-cases, String, [], ap, arith, contains, false, get,
  get-modify, inl, inr, list_eq, nat_eq, none, ok, option_eq, refl, some, subst, true, ◌==◌, ◌∙◌,
  ◌∷◌, ◌≡◌,
}
use genesis_runtime.Ids.{LeaseId, identifier_eq}
use genesis_runtime.Json.{Host}
use genesis_runtime.Mission.{DateTime}
use genesis_runtime.Authority.{bound_tool_eq, is_live, lease_ref_eq}
use genesis_runtime.Kernel.{AuthorityState, LeaseEntry, lease_revoked, push_event}
use genesis_runtime.Kernel.Descendants.{revoke_each, revoke_entry, revoke_one}
use genesis_runtime.Kernel.Evolution.{
  Evolves, Evolves-modify, Evolves-push_event, Evolves-refl, Evolves-trans, Moves, Moves-dead,
  MovesStored, revokes,
}

module _ ⦃h : Host⦄ where
  -- A stored lease that no operation makes active again.
  abbrev pub IsDead : Map LeaseId LeaseEntry → LeaseId → Type 0
  IsDead leases x =
      (e : LeaseEntry) × (get x leases ≡ some e) × (is_live e.lease_record.state ≡ false)

  abbrev pub IsStored : Map LeaseId LeaseEntry → LeaseId → Type 0
  IsStored leases x = (e : LeaseEntry) × (get x leases ≡ some e)

  pub MovesStored-origin :
      (o p : Option LeaseEntry) (f : LeaseEntry)
      → MovesStored o p
      → p ≡ some f
      → (e : LeaseEntry) × (o ≡ some e) × Moves e f
  MovesStored-origin o none f m q = absurd (cc)
  MovesStored-origin none (some g) f m q = absurd m
  MovesStored-origin (some e) (some g) f m q =
      let same : g ≡ f = ground arith in (e, refl, rw same at m)

  pub Evolves-IsDead :
      {st st' : AuthorityState} (x : LeaseId)
      → Evolves st st'
      → IsDead st.leases x
      → IsDead st'.leases x
  Evolves-IsDead {st} {st'} x ev (e, found, dead) = go (get x st'.leases) refl
    where
      go : (o : Option LeaseEntry) → get x st'.leases ≡ o → IsDead st'.leases x
      go none q = absurd (
          subst (λ o. MovesStored o none) found
            (subst (MovesStored (get x st.leases)) q (ev.stored x)))
      go (some f) q =
          let m : Moves e f =
            subst (λ o. MovesStored o (some f)) found
              (subst (MovesStored (get x st.leases)) q (ev.stored x)) in
          (f, q, ap (λ (v : LeaseEntry). is_live v.lease_record.state) (Moves-dead dead m) ∙ dead)

  pub Evolves-IsStored :
      {st st' : AuthorityState} (x : LeaseId)
      → Evolves st st'
      → {e : LeaseEntry} → get x st.leases ≡ some e
      → (f : LeaseEntry) × (get x st'.leases ≡ some f) × Moves e f
  Evolves-IsStored {st} {st'} x ev {e} found = go (get x st'.leases) refl
    where
      go :
          (o : Option LeaseEntry)
          → get x st'.leases ≡ o
          → (f : LeaseEntry) × (get x st'.leases ≡ some f) × Moves e f
      go none q = absurd (
          subst (λ o. MovesStored o none) found
            (subst (MovesStored (get x st.leases)) q (ev.stored x)))
      go (some f) q = (
        f,
        q,
        subst (λ o. MovesStored o (some f)) found
            (subst (MovesStored (get x st.leases)) q (ev.stored x)),
      )

  module _ (related : LeaseId → Option LeaseId) (reason : String) (now : DateTime) where
    Evolves-revoke_one :
        (st : AuthorityState) (id : LeaseId) (e : LeaseEntry) (r : Option LeaseId)
        → get id st.leases ≡ some e
        → Evolves st (revoke_one st id e r reason now)
    unfolding revoke_one
    Evolves-revoke_one st id e r found = elim (Bool-cases (is_live e.lease_record.state)) [
      | inr dead ↦ rw dead (Evolves-refl st)
      | inl live ↦ rw live (
          Evolves-trans
            (Evolves-modify st id (revoke_entry now reason)
              (λ f q. let same : e ≡ f = ground arith in revokes now reason (rw same at live)))
            (Evolves-push_event _ id r lease_revoked now))
    ]

    revoke_one-IsDead :
        (st : AuthorityState) (id : LeaseId) (e : LeaseEntry) (r : Option LeaseId)
        → get id st.leases ≡ some e
        → IsDead (revoke_one st id e r reason now).leases id
    unfolding revoke_one push_event
    revoke_one-IsDead st id e r found = elim (Bool-cases (is_live e.lease_record.state)) [
      | inr dead ↦ rw dead (e, found, dead)
      | inl live ↦ rw live (
        revoke_entry now reason e,
        ground (arith, get-modify id id (revoke_entry now reason) st.leases),
        refl,
      )
    ]

    revoke_one-other :
        (st : AuthorityState) (id x : LeaseId) (e : LeaseEntry) (r : Option LeaseId)
        → (id == x) ≡ false
        → get x (revoke_one st id e r reason now).leases ≡ get x st.leases
    unfolding revoke_one push_event
    revoke_one-other st id x e r n =
        ground (arith, get-modify id x (revoke_entry now reason) st.leases)

    pub Evolves-revoke_each :
        (ids : List LeaseId) (st : AuthorityState)
        → Evolves st (revoke_each ids related reason now st).1
    unfolding revoke_each
    Evolves-revoke_each [] st = Evolves-refl st
    Evolves-revoke_each (id ∷ ids) st = elim (Option-cases (get id st.leases)) [
      | inl missing ↦ rw (missing, revoke_each) (Evolves-refl st)
      | inr (e, found) ↦
          rw (found, revoke_each)
            (Evolves-trans (Evolves-revoke_one st id e (related id) found)
              (Evolves-revoke_each ids (revoke_one st id e (related id) reason now)))
    ]

    -- The loop does not fail on stored leases.
    pub revoke_each_ok :
        (ids : List LeaseId) (st : AuthorityState)
        → ((x : LeaseId) → contains ids x ≡ true → IsStored st.leases x)
        → (revoke_each ids related reason now st).0 ≡ ok tt
    unfolding revoke_each
    revoke_each_ok [] st stored = refl
    revoke_each_ok (id ∷ ids) st stored =
        let (e, found) = stored id (unfold contains in ground arith) in
        rw (found, revoke_each)
          (revoke_each_ok ids (revoke_one st id e (related id) reason now) (λ x m.
            let (f, g) = stored x (unfold contains in ground arith) in
            let (f', g', _) =
              Evolves-IsStored x (Evolves-revoke_one st id e (related id) found) g in
            (f', g')))

    pub revoke_each-IsDead :
        (ids : List LeaseId) (st : AuthorityState) (x : LeaseId)
        → (revoke_each ids related reason now st).0 ≡ ok tt
        → contains ids x ≡ true
        → IsDead (revoke_each ids related reason now st).1.leases x
    unfolding revoke_each contains
    revoke_each-IsDead [] st x r m = absurd (cc)
    revoke_each-IsDead (id ∷ ids) st x r m = elim (Option-cases (get id st.leases)) [
      | inl missing ↦ absurd (cc (rw (missing, revoke_each) at r))
      | inr (e, found) ↦
          rw (found, revoke_each)
            (elim (Bool-cases (id == x)) [
              | inl hit ↦ Evolves-IsDead x (Evolves-revoke_each ids _) (
                  subst (IsDead (revoke_one st id e (related id) reason now).leases)
                    ((==_iff id x).0 hit) (revoke_one-IsDead st id e (related id) found))
              | inr n ↦
                  revoke_each-IsDead ids (revoke_one st id e (related id) reason now) x
                    (rw (found, revoke_each) at r) (ground arith)
            ])
    ]

    pub revoke_each-other :
        (ids : List LeaseId) (st : AuthorityState) (x : LeaseId)
        → contains ids x ≡ false
        → get x (revoke_each ids related reason now st).1.leases ≡ get x st.leases
    unfolding revoke_each contains
    revoke_each-other [] st x m = refl
    revoke_each-other (id ∷ ids) st x m = elim (Option-cases (get id st.leases)) [
      | inl missing ↦ rw (missing, revoke_each) refl
      | inr (e, found) ↦
          rw (found, revoke_each)
            (revoke_each-other ids (revoke_one st id e (related id) reason now) x (ground arith)
              ∙ revoke_one-other st id x e (related id) (ground arith))
    ]
