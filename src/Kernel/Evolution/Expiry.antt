-- ===== src/Kernel/Evolution/Expiry.antt =====
-- After `refresh_expirations` no lease that is active or paused is past its end
-- (crates/aeon_agent_runtime/src/authority_kernel.rs).
use mathlib.Core.Path.{ap, subst}
use genesis_runtime.Common.{
  ==_iff, Bool-cases, IsDistinct, List, Map, String, [], arith, contains, contains-sort_by,
  contains_key, ◌<◌, ◌⊎◌, false, get, get-modify, inl, inr, leb, list_eq, nat_eq, ok, option_eq,
  refl, some, sort_by, sym, true, ◌==◌, ◌∙◌, ◌∷◌, ◌≡◌,
}
use genesis_runtime.Ids.{LeaseId, identifier_eq, identifier_le}
use genesis_runtime.Json.{Host}
use genesis_runtime.Mission.{DateTime}
use genesis_runtime.Authority.{active, paused, bound_tool_eq, expired, is_live, lease_ref_eq}
use genesis_runtime.Kernel.Descendants.{revoke_descendants}
use genesis_runtime.Kernel.Evolution.Operations.{
  Evolves-expire_each, Evolves-expire_one, Evolves-revoke_descendants,
}
use genesis_runtime.Kernel.Evolution.Atomic.{revoke_descendants_ok}
use genesis_runtime.Kernel.Evolution.{Evolves, Evolves-trans, Moves, Moves-SameLease, Moves-dead}
use genesis_runtime.Kernel.{AuthorityState, LeaseEntry, push_event}
use genesis_runtime.Kernel.Lifecycle.{
  due_leases, expire_each, expire_one, is_due, move_to, refresh_expirations,
}
use genesis_runtime.Kernel.Evolution.Cascade.{
  Evolves-IsDead, Evolves-IsStored, IsDead, IsStored, MovesStored-origin,
}

module _ ⦃h : Host⦄ where
  -- The loop has come to its end, and the leases it was given are dead.
  record Expired (ids : List LeaseId) (now : DateTime) (st : AuthorityState) : Type 0 where
    due : List LeaseId
    returned : (expire_each ids now st).0 ≡ ok due
    dead : (x : LeaseId) → contains ids x ≡ true → IsDead (expire_each ids now st).1.leases x

  expire_one-IsDead :
      (st : AuthorityState) (id : LeaseId) (e : LeaseEntry) (now : DateTime)
      → get id st.leases ≡ some e
      → IsDead (expire_one st id now).leases id
  unfolding expire_one push_event move_to
  expire_one-IsDead st id e now found =
      (move_to expired e, ground (arith, get-modify id id (move_to expired) st.leases), refl)

  IsStored-Evolves :
      {st st' : AuthorityState} (x : LeaseId)
      → Evolves st st'
      → IsStored st.leases x
      → IsStored st'.leases x
  IsStored-Evolves x ev (e, found) = let (f, found', _) = Evolves-IsStored x ev found in (f, found')

  IsDead-expire_each :
      (ids : List LeaseId) (now : DateTime) (st : AuthorityState) (id x : LeaseId)
      → IsDead st.leases id
      → ((y : LeaseId) → contains ids y ≡ true → IsDead (expire_each ids now st).1.leases y)
      → contains (id ∷ ids) x ≡ true
      → IsDead (expire_each ids now st).1.leases x
  unfolding contains
  IsDead-expire_each ids now st id x first others m = elim (Bool-cases (id == x)) [
    | inl hit ↦
        Evolves-IsDead x (Evolves-expire_each ids now st)
          (subst (IsDead st.leases) ((==_iff id x).0 hit) first)
    | inr other ↦ others x (ground (arith, m))
  ]

  has_key :
      (id : LeaseId) (st : AuthorityState) (e : LeaseEntry)
      → get id st.leases ≡ some e
      → contains_key st.leases id ≡ true
  unfolding contains_key
  has_key id st e found = rw (found, contains_key) refl

  expire_each-Expired :
      (ids : List LeaseId) (now : DateTime) (st : AuthorityState)
      → IsDistinct st.leases
      → ((x : LeaseId) → contains ids x ≡ true → IsStored st.leases x)
      → Expired ids now st
  unfolding expire_each contains
  expire_each-Expired [] now st distinct stored = record {
    due = [];
    returned = refl;
    dead = λ x m. absurd (cc);
  }
  expire_each-Expired (id ∷ ids) now st distinct stored =
      let (e, found) = stored id (ground (arith, (==_iff id id).1 refl)) in
      elim (Bool-cases (is_live e.lease_record.state)) [
        | inr dead ↦
            let rest =
              expire_each-Expired ids now st distinct (λ x m. stored x (ground (arith, m))) in
            record {
              due = rest.due;
              returned = rw (found, dead, expire_each) rest.returned;
              dead = λ x m.
                  rw (found, dead, expire_each)
                    (IsDead-expire_each ids now st id x (e, found, dead) rest.dead m);
            }
        | inl live ↦
            let one = expire_one st id now in
            let reason : String = "ancestor lease expired" in
            let cascade = revoke_descendants one id reason now in
            let expiring = Evolves-expire_one st id e now found live in
            let (f, gone, _) = expire_one-IsDead st id e now found in
            let done =
              revoke_descendants_ok one id reason now (expiring.distinct distinct)
                (has_key id one f gone) in
            let after = Evolves-revoke_descendants one id reason now in
            let rest =
              expire_each-Expired ids now cascade.1 (after.distinct (expiring.distinct distinct))
                (λ x m.
                  IsStored-Evolves x (Evolves-trans expiring after)
                    (stored x (ground (arith, m)))) in
            record {
              due = id ∷ rest.due;
              returned = rw (found, live, done, rest.returned, expire_each) refl;
              dead = λ x m.
                  rw (found, live, done, rest.returned, expire_each)
                    (IsDead-expire_each ids now cascade.1 id x
                      (Evolves-IsDead id after (expire_one-IsDead st id e now found)) rest.dead m);
            }
      ]

  due_leases-IsStored :
      (now : DateTime) (leases : Map LeaseId LeaseEntry) (x : LeaseId)
      → contains (due_leases now leases) x ≡ true
      → IsStored leases x
  unfolding due_leases contains get
  due_leases-IsStored now [] x m = absurd (cc)
  due_leases-IsStored now ((id, e) ∷ leases) x m = elim (Bool-cases (id == x)) [
    | inl hit ↦ (e, ground arith)
    | inr other ↦
        let (f, found) = due_leases-IsStored now leases x (ground arith) in (f, ground arith)
  ]

  due_leases-contains :
      (now : DateTime) (leases : Map LeaseId LeaseEntry) (x : LeaseId) (e : LeaseEntry)
      → get x leases ≡ some e
      → is_due now e ≡ true
      → contains (due_leases now leases) x ≡ true
  unfolding due_leases contains get
  due_leases-contains now [] x e found due = absurd (cc)
  due_leases-contains now ((id, f) ∷ leases) x e found due = elim (Bool-cases (id == x)) [
    | inl hit ↦ let same : f ≡ e = ground arith in rw same (ground arith)
    | inr other ↦ let rest = due_leases-contains now leases x e (ground arith) due in ground arith
  ]

  due_after :
      (now : DateTime) (e f : LeaseEntry) → is_due now e ≡ false → Moves e f → is_due now f ≡ false
  unfolding is_due
  due_after now e f fine m = elim (Bool-cases (is_live e.lease_record.state)) [
    | inr dead ↦ rw (Moves-dead dead m) fine
    | inl live ↦
        let kept : leb e.certificate.expires_at now ≡ false = ground arith in
        rw ((Moves-SameLease m).certificate, kept) (ground arith)
  ]

  dead_not_due :
      (now : DateTime) (leases : Map LeaseId LeaseEntry) (x : LeaseId) (f : LeaseEntry)
      → IsDead leases x
      → get x leases ≡ some f
      → is_due now f ≡ false
  unfolding is_due
  dead_not_due now leases x f (g, there, dead) found =
      let same : g ≡ f = ground arith in subst (λ u. is_due now u ≡ false) same (rw dead refl)

  not_due :
      (now : DateTime) (leases : Map LeaseId LeaseEntry) (x : LeaseId) (e : LeaseEntry)
      → contains (due_leases now leases) x ≡ false
      → get x leases ≡ some e
      → is_due now e ≡ false
  not_due now leases x e m found = elim (Bool-cases (is_due now e)) [
    | inl due ↦ absurd (cc (due_leases-contains now leases x e found due, m))
    | inr fine ↦ fine
  ]

  stored_end :
      (st st' : AuthorityState) (x : LeaseId) (f : LeaseEntry)
      → Evolves st st'
      → get x st'.leases ≡ some f
      → (e : LeaseEntry) × (get x st.leases ≡ some e) × Moves e f
  stored_end st st' x f ev found =
      MovesStored-origin (get x st.leases) (get x st'.leases) f (ev.stored x) found

  -- A lease that is not due, and is active or paused, has not come to its end.
  unexpired :
      (now : DateTime) (f : LeaseEntry)
      → is_due now f ≡ false
      → (f.lease_record.state ≡ active) ⊎ (f.lease_record.state ≡ paused)
      → now < f.certificate.expires_at
  unfolding is_due
  unexpired now f fine (inl state) = ground (arith, state, fine)
  unexpired now f fine (inr state) = ground (arith, state, fine)

  -- On leases with distinct identifiers `refresh_expirations` succeeds, and every lease that it
  -- leaves active or paused has an end after the time of the call.
  pub refresh_expirations-expires :
      (st : AuthorityState) (now : DateTime)
      → IsDistinct st.leases
      → (due : List LeaseId) × (st' : AuthorityState) × (refresh_expirations st now ≡ (ok due, st'))
        × ((x : LeaseId) (f : LeaseEntry)
            → get x st'.leases ≡ some f
            → (f.lease_record.state ≡ active) ⊎ (f.lease_record.state ≡ paused)
            → now < f.certificate.expires_at)
  unfolding refresh_expirations
  refresh_expirations-expires st now distinct =
      let ids = sort_by identifier_le (due_leases now st.leases) in
      let sorted = contains-sort_by identifier_le (due_leases now st.leases) in
      let run =
        expire_each-Expired ids now st distinct
          (λ x m. due_leases-IsStored now st.leases x (sym (sorted x) ∙ m)) in
      (
        run.due,
        (expire_each ids now st).1,
        ap (λ r. (r, (expire_each ids now st).1)) run.returned,
        λ x f found state.
            unexpired now f
              (elim (Bool-cases (contains ids x)) [
                | inl m ↦
                    dead_not_due now (expire_each ids now st).1.leases x f (run.dead x m) found
                | inr m ↦
                    let (e, before, moved) =
                      stored_end st (expire_each ids now st).1 x f (Evolves-expire_each ids now st)
                        found in
                    due_after now e f (not_due now st.leases x e (sym (sorted x) ∙ m) before) moved
              ])
              state,
      )
