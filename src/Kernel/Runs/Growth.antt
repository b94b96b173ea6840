-- ===== src/Kernel/Runs/Growth.antt =====
-- What an operation of the authority kernel does to the leases, also where it issues one
-- (crates/aeon_agent_runtime/src/authority_kernel.rs).
use genesis_runtime.Common.{
  ==_iff, Bool-cases, ap, arith, get, get-insert, if◌then◌else◌, inl, inr, insert,
  insert-IsDistinct, list_eq, nat_eq, none, option_eq, some, subst, sym, ◌==◌, ◌∙◌, ◌≡◌, ◌⊎◌,
}
use genesis_runtime.Ids.{LeaseId, identifier_eq}
use genesis_runtime.Json.{Host}
use genesis_runtime.Authority.{AuthorityLeaseCertificate, LeaseRef, bound_tool_eq, lease_ref_eq}
use genesis_runtime.Kernel.{AuthorityState, LeaseEntry}
use genesis_runtime.Kernel.Evolution.{Evolves, Moves, Moves-SameLease, Numbered}
use genesis_runtime.Kernel.Evolution.Cascade.{Evolves-IsStored, IsStored, MovesStored-origin}
use genesis_runtime.Kernel.Runs.{WellFormed}

module _ ⦃h : Host⦄ where
  -- The last part of an operation: one new lease is stored.
  pub record Issued (before st st' : AuthorityState) : Type 0 where
    pub id : LeaseId
    pub entry : LeaseEntry
    pub new : get id st.leases ≡ none
    pub leases : st'.leases ≡ insert id entry st.leases
    pub certificate_name : entry.certificate.lease_id ≡ id
    pub record_name : entry.lease_record.lease_id ≡ id
    pub parent :
        WellFormed before
        → (p : LeaseRef) → entry.certificate.parent_lease ≡ some p
        → IsStored st.leases p.lease_id
    pub root : (st'.root_lease_id ≡ st.root_lease_id) ⊎ (st'.root_lease_id ≡ id)
    pub numbered : Numbered 1 st.events → Numbered 1 st'.events

  pub data Grows (st : AuthorityState) : AuthorityState → Type 0 where
    evolves : {st' : AuthorityState} → Evolves st st' → Grows st st'
    issues : {s t : AuthorityState} → Evolves st s → Issued st s t → Grows st t

  pub WellFormed-Evolves :
      {st st' : AuthorityState} → Evolves st st' → WellFormed st → WellFormed st'
  WellFormed-Evolves {st} {st'} ev w = record {
    distinct = ev.distinct w.distinct;
    numbered = ev.numbered w.numbered;
    named = λ x f q.
        let (e, found, m) =
          MovesStored-origin (get x st.leases) (get x st'.leases) f (ev.stored x) q in
        let s = Moves-SameLease m in
        let (a, b) = w.named x e found in
        (ap (λ (c : AuthorityLeaseCertificate). c.lease_id) s.certificate ∙ a, s.lease_id ∙ b);
    parents = λ x f p q parent.
        let (e, found, m) =
          MovesStored-origin (get x st.leases) (get x st'.leases) f (ev.stored x) q in
        let s = Moves-SameLease m in
        let (g, stored) =
          w.parents x e p found
            (sym (ap (λ (c : AuthorityLeaseCertificate). c.parent_lease) s.certificate) ∙ parent) in
        let (g', stored', _) = Evolves-IsStored p.lease_id ev stored in (g', stored');
    root =
        let (g, stored) = w.root in
        let (g', stored', _) = Evolves-IsStored st.root_lease_id ev stored in
        (g', ap (λ id. get id st'.leases) ev.root ∙ stored');
  }

  module _ {before st st' : AuthorityState} (i : Issued before st st') where
    issued-get :
        (x : LeaseId) → get x st'.leases ≡ (if i.id == x then some i.entry else get x st.leases)
    issued-get x = ap (get x) i.leases ∙ get-insert i.id x i.entry st.leases

    pub issued-old :
        (x : LeaseId) (e : LeaseEntry) → get x st.leases ≡ some e → get x st'.leases ≡ some e
    issued-old x e found = ground (arith, issued-get x, i.new)

    issued-IsStored : (x : LeaseId) → IsStored st.leases x → IsStored st'.leases x
    issued-IsStored x (e, found) = (e, issued-old x e found)

    pub WellFormed-issued : WellFormed before → WellFormed st → WellFormed st'
    WellFormed-issued w0 w = record {
      distinct = rw i.leases (insert-IsDistinct i.id i.entry st.leases w.distinct);
      numbered = i.numbered w.numbered;
      named = λ x f q. elim (Bool-cases (i.id == x)) [
        | inl hit ↦
            let same : i.entry ≡ f = ground (arith, issued-get x) in
            let name = (==_iff i.id x).0 hit in
            (
              ap (λ (e : LeaseEntry). e.certificate.lease_id) (sym same)
                  ∙ i.certificate_name
                  ∙ name,
              ap (λ (e : LeaseEntry). e.lease_record.lease_id) (sym same) ∙ i.record_name ∙ name,
            )
        | inr other ↦ w.named x f (ground (arith, issued-get x))
      ];
      parents = λ x f p q parent. elim (Bool-cases (i.id == x)) [
        | inl hit ↦
            let same : f ≡ i.entry = ground (arith, issued-get x) in
            issued-IsStored p.lease_id (i.parent w0 p (rw same at parent))
        | inr other ↦
            issued-IsStored p.lease_id (w.parents x f p (ground (arith, issued-get x)) parent)
      ];
      root = elim i.root [
        | inl old ↦ subst (IsStored st'.leases) (sym old) (issued-IsStored _ w.root)
        | inr new_ ↦
            subst (IsStored st'.leases) (sym new_) (i.entry, ground (arith, issued-get i.id))
      ];
    }

  pub WellFormed-Grows : {st st' : AuthorityState} → Grows st st' → WellFormed st → WellFormed st'
  WellFormed-Grows (evolves ev) w = WellFormed-Evolves ev w
  WellFormed-Grows (issues ev i) w = WellFormed-issued i w (WellFormed-Evolves ev w)

  pub Grows-IsStored :
      {st st' : AuthorityState} (x : LeaseId) (e : LeaseEntry)
      → Grows st st'
      → get x st.leases ≡ some e
      → (f : LeaseEntry) × (get x st'.leases ≡ some f) × Moves e f
  Grows-IsStored x e (evolves ev) found = Evolves-IsStored x ev found
  Grows-IsStored x e (issues ev i) found =
      let (f, found', m) = Evolves-IsStored x ev found in (f, issued-old i x f found', m)
