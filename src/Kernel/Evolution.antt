-- ===== src/Kernel/Evolution.antt =====
-- How the leases of a kernel may change: the edges of the lease lifecycle, and what an operation
-- that issues no lease leaves alone (`LeaseState` of crates/aeon_agent_runtime/src/authority.rs, and
-- the methods of authority_kernel.rs).
pub mod Cascade
pub mod Exact
pub mod Operations
pub mod Expiry
pub mod Stale
pub mod Atomic
use mathlib.Core.Option
use genesis_runtime.Common.{
  ==_iff, Bool-cases, IsDistinct, List, Map, Option, String, [], ap, arith, false, get, get-modify,
  inl, inr, length, list_eq, map, modify, modify-IsDistinct, nat_eq, none, option_eq, refl, some,
  true, ℕ, ◌++◌, ◌+◌, ◌==◌, ◌∙◌, ◌∷◌, ◌≡◌,
}
use genesis_runtime.Ids.{LeaseId, identifier_eq}
use genesis_runtime.Json.{Host}
use genesis_runtime.Mission.{DateTime}
use genesis_runtime.Authority.{active, bound_tool_eq, expired, is_live, lease_ref_eq, paused}
use genesis_runtime.Kernel.{
  AuthorityEvent, AuthorityEventKind, AuthorityState, LeaseEntry, push_event,
}
use genesis_runtime.Kernel.Descendants.{revoke_entry}
use genesis_runtime.Kernel.Lifecycle.{move_to, retire_entry}

-- The events are numbered from `n` on.
abbrev pub Numbered : ℕ → List AuthorityEvent → Type 0
Numbered n [] = Unit
Numbered n (e ∷ events) = (e.sequence ≡ n) × Numbered (n + 1) events

pub Numbered-append :
    (n : ℕ) (events : List AuthorityEvent) (e : AuthorityEvent)
    → Numbered n events
    → e.sequence ≡ n + length events
    → Numbered n (events ++ e ∷ [])
Numbered-append n [] e h q = (omega arith, tt)
Numbered-append n (x ∷ events) e h q = (h.0, Numbered-append (n + 1) events e h.1 (omega arith))

module _ ⦃h : Host⦄ where
  -- One change of one lease. The certificate and the manifest stay; the generation goes up.
  pub data Edge : LeaseEntry → LeaseEntry → Type 0 where
    pauses : {e : LeaseEntry} → e.lease_record.state ≡ active → Edge e (move_to paused e)
    resumes : {e : LeaseEntry} → e.lease_record.state ≡ paused → Edge e (move_to active e)
    expires : {e : LeaseEntry} → is_live e.lease_record.state ≡ true → Edge e (move_to expired e)
    revokes :
        {e : LeaseEntry} (now : DateTime) (reason : String)
        → is_live e.lease_record.state ≡ true
        → Edge e (revoke_entry now reason e)
    retires :
        {e : LeaseEntry} (renewed_by : LeaseId)
        → e.lease_record.state ≡ active
        → Edge e (retire_entry renewed_by e)

  pub data Moves (e : LeaseEntry) : LeaseEntry → Type 0 where
    stays : Moves e e
    moves : {f g : LeaseEntry} → Moves e f → Edge f g → Moves e g

  pub Moves-trans : {e f g : LeaseEntry} → Moves e f → Moves f g → Moves e g
  Moves-trans m stays = m
  Moves-trans m (moves n edge) = moves (Moves-trans m n) edge

  -- What no edge changes.
  pub record SameLease (e f : LeaseEntry) : Type 0 where
    pub certificate : f.certificate ≡ e.certificate
    pub manifest : f.manifest ≡ e.manifest
    pub lease_id : f.lease_record.lease_id ≡ e.lease_record.lease_id

  Edge-SameLease : {e f : LeaseEntry} → Edge e f → SameLease e f
  unfolding move_to revoke_entry retire_entry
  Edge-SameLease (pauses s) = record { certificate = refl; manifest = refl; lease_id = refl }
  Edge-SameLease (resumes s) = record { certificate = refl; manifest = refl; lease_id = refl }
  Edge-SameLease (expires s) = record { certificate = refl; manifest = refl; lease_id = refl }
  Edge-SameLease (revokes now r s) = record { certificate = refl; manifest = refl; lease_id = refl }
  Edge-SameLease (retires by s) = record { certificate = refl; manifest = refl; lease_id = refl }

  pub Moves-SameLease : {e f : LeaseEntry} → Moves e f → SameLease e f
  Moves-SameLease stays = record { certificate = refl; manifest = refl; lease_id = refl }
  Moves-SameLease (moves m edge) =
      let a = Moves-SameLease m in
      let b = Edge-SameLease edge in
      record {
        certificate = b.certificate ∙ a.certificate;
        manifest = b.manifest ∙ a.manifest;
        lease_id = b.lease_id ∙ a.lease_id;
      }

  Edge-live : {e f : LeaseEntry} → Edge e f → is_live e.lease_record.state ≡ true
  Edge-live (pauses s) = rw s
  Edge-live (resumes s) = rw s
  Edge-live (expires s) = s
  Edge-live (revokes now r s) = s
  Edge-live (retires by s) = rw s

  -- A lease that is revoked, expired or retired never changes again.
  pub Moves-dead : {e f : LeaseEntry} → is_live e.lease_record.state ≡ false → Moves e f → f ≡ e
  Moves-dead dead stays = refl
  Moves-dead {e} dead (moves {f} m edge) =
      let same : f ≡ e = Moves-dead dead m in
      absurd (cc (Edge-live edge, ap (λ (x : LeaseEntry). is_live x.lease_record.state) same))

  -- The same, of what is stored under one identifier.
  abbrev pub MovesStored : Option LeaseEntry → Option LeaseEntry → Type 0
  MovesStored none none = Unit
  MovesStored (some e) (some f) = Moves e f
  MovesStored _ _ = ⊥

  pub MovesStored-refl : (o : Option LeaseEntry) → MovesStored o o
  MovesStored-refl none = tt
  MovesStored-refl (some e) = stays

  pub MovesStored-trans :
      (o p q : Option LeaseEntry) → MovesStored o p → MovesStored p q → MovesStored o q
  MovesStored-trans none none none m n = tt
  MovesStored-trans (some e) (some f) (some g) m n = Moves-trans m n
  MovesStored-trans none none (some g) m n = absurd n
  MovesStored-trans none (some f) q m n = absurd m
  MovesStored-trans (some e) none q m n = absurd m
  MovesStored-trans (some e) (some f) none m n = absurd n

  pub record Evolves (st st' : AuthorityState) : Type 0 where
    pub mission : st'.mission ≡ st.mission
    pub root : st'.root_lease_id ≡ st.root_lease_id
    pub identities : st'.identities ≡ st.identities
    pub custodians : st'.custodians ≡ st.custodians
    pub stored : (x : LeaseId) → MovesStored (get x st.leases) (get x st'.leases)
    pub distinct : IsDistinct st.leases → IsDistinct st'.leases
    pub numbered : Numbered 1 st.events → Numbered 1 st'.events

  pub Evolves-refl : (st : AuthorityState) → Evolves st st
  Evolves-refl st = record {
    mission = refl;
    root = refl;
    identities = refl;
    custodians = refl;
    stored = λ x. MovesStored-refl (get x st.leases);
    distinct = λ d. d;
    numbered = λ n. n;
  }

  pub Evolves-trans : {s t u : AuthorityState} → Evolves s t → Evolves t u → Evolves s u
  Evolves-trans {s} {t} {u} a b = record {
    mission = b.mission ∙ a.mission;
    root = b.root ∙ a.root;
    identities = b.identities ∙ a.identities;
    custodians = b.custodians ∙ a.custodians;
    stored = λ x.
        MovesStored-trans (get x s.leases) (get x t.leases) (get x u.leases) (a.stored x)
          (b.stored x);
    distinct = λ d. b.distinct (a.distinct d);
    numbered = λ n. b.numbered (a.numbered n);
  }

  pub Numbered-push_event :
      (st : AuthorityState) (id : LeaseId) (related : Option LeaseId) (kind : AuthorityEventKind)
      (now : DateTime)
      → Numbered 1 st.events
      → Numbered 1 (push_event st id related kind now).events
  unfolding push_event
  Numbered-push_event st id related kind now n = Numbered-append 1 st.events _ n (omega arith)

  MovesStored-map :
      (f : LeaseEntry → LeaseEntry) (o : Option LeaseEntry)
      → ((e : LeaseEntry) → o ≡ some e → Edge e (f e))
      → MovesStored o (Option.map f o)
  MovesStored-map f none edge = tt
  MovesStored-map f (some e) edge = moves stays (edge e refl)

  MovesStored-modify :
      (id x : LeaseId) (f : LeaseEntry → LeaseEntry) (m : Map LeaseId LeaseEntry)
      → ((e : LeaseEntry) → get id m ≡ some e → Edge e (f e))
      → MovesStored (get x m) (get x (modify id f m))
  MovesStored-modify id x f m edge = rw (get-modify id x f m) (elim (Bool-cases (id == x)) [
    | inl e ↦
        let same : id ≡ x = (==_iff id x).0 e in
        rw e (MovesStored-map f (get x m) (λ v g. edge v (rw same g)))
    | inr n ↦ rw n (MovesStored-refl (get x m))
  ])

  -- A write to one lease along an edge, with or without an event.
  pub Evolves-modify :
      (st : AuthorityState) (id : LeaseId) (f : LeaseEntry → LeaseEntry)
      → ((e : LeaseEntry) → get id st.leases ≡ some e → Edge e (f e))
      → Evolves st (record st { leases = modify id f st.leases })
  Evolves-modify st id f edge = record {
    mission = refl;
    root = refl;
    identities = refl;
    custodians = refl;
    stored = λ x. MovesStored-modify id x f st.leases edge;
    distinct = modify-IsDistinct id f st.leases;
    numbered = λ n. n;
  }

  pub Evolves-push_event :
      (st : AuthorityState) (id : LeaseId) (related : Option LeaseId) (kind : AuthorityEventKind)
      (now : DateTime)
      → Evolves st (push_event st id related kind now)
  unfolding push_event
  Evolves-push_event st id related kind now = record {
    mission = refl;
    root = refl;
    identities = refl;
    custodians = refl;
    stored = λ x. MovesStored-refl (get x st.leases);
    distinct = λ d. d;
    numbered = λ n. Numbered-append 1 st.events _ n (omega arith);
  }
