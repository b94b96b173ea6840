-- ===== src/Kernel/Runs.antt =====
-- Histories of the authority kernel: its operations in any order, failed calls included
-- (crates/aeon_agent_runtime/src/authority_kernel.rs), and what holds of a state throughout.
pub mod Growth
pub mod Issuing
pub mod Renewing
pub mod Delegation
pub mod Safety
use genesis_runtime.Common.{
  IsDistinct, List, String, get, list_eq, nat_eq, none, ok, option_eq, some, ℕ, ◌≡◌,
}
use genesis_runtime.Ids.{LeaseId, identifier_eq, new_lease_id}
use genesis_runtime.Json.{Host}
use genesis_runtime.Mission.{DateTime}
use genesis_runtime.Identity.{IdentityCodec, KeyCustody}
use genesis_runtime.Authority.{AuthorityCodec, LeaseRef, bound_tool_eq, lease_ref_eq}
use genesis_runtime.Kernel.{AuthorityState, DelegationRequest, LeaseEntry, RenewalRequest}
use genesis_runtime.Kernel.Lifecycle.{pause, refresh_expirations, resume, revoke}
use genesis_runtime.Kernel.Delegate.{delegate}
use genesis_runtime.Kernel.Renew.{renew}
use genesis_runtime.Kernel.Evolution.{Numbered}
use genesis_runtime.Kernel.Evolution.Cascade.{IsStored}

module _ ⦃h : Host⦄ where
  -- What holds of the state of a kernel between two calls.
  pub record WellFormed (st : AuthorityState) : Type 0 where
    pub distinct : IsDistinct st.leases
    pub numbered : Numbered 1 st.events
    pub named :
        (x : LeaseId) (e : LeaseEntry)
        → get x st.leases ≡ some e
        → (e.certificate.lease_id ≡ x) × (e.lease_record.lease_id ≡ x)
    pub parents :
        (x : LeaseId) (e : LeaseEntry) (p : LeaseRef)
        → get x st.leases ≡ some e
        → e.certificate.parent_lease ≡ some p
        → IsStored st.leases p.lease_id
    pub root : IsStored st.leases st.root_lease_id

  -- The identifier made from a fresh UUID names no lease yet.
  abbrev pub IsFresh : AuthorityState → List ℕ → Type 0
  IsFresh st uuid = (id : LeaseId) → new_lease_id uuid ≡ ok id → get id st.leases ≡ none

  module _ ⦃identity_codec : IdentityCodec⦄ ⦃codec : AuthorityCodec⦄ where
    -- One call of a method that takes the lock for writing.
    pub data Step (st : AuthorityState) : AuthorityState → Type 0 where
      pauses_lease :
          (id : LeaseId) (generation : ℕ) (now : DateTime) → Step st (pause st id generation now).1
      resumes_lease :
          (id : LeaseId) (generation : ℕ) (now : DateTime) → Step st (resume st id generation now).1
      revokes_lease :
          (id : LeaseId) (generation : ℕ) (reason : String) (now : DateTime)
          → Step st (revoke st id generation reason now).1
      refreshes : (now : DateTime) → Step st (refresh_expirations st now).1
      delegates :
          (request : DelegationRequest) (custody : KeyCustody) (uuid : List ℕ) (now : DateTime)
          → IsFresh st uuid
          → Step st (delegate st request custody uuid now).1
      renews :
          (request : RenewalRequest) (uuid : List ℕ) (now : DateTime)
          → IsFresh st uuid
          → Step st (renew st request uuid now).1

    pub data Runs (st : AuthorityState) : AuthorityState → Type 0 where
      start : Runs st st
      step : {s t : AuthorityState} → Runs st s → Step s t → Runs st t
