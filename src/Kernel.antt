-- ===== src/Kernel.antt =====
-- The authority kernel: its requests, its state and its event log
-- (crates/aeon_agent_runtime/src/authority_kernel.rs). A method takes the state under the lock and
-- returns its result beside the state that it leaves.
pub mod Checks
pub mod Chain
pub mod Descendants
pub mod Requests
pub mod Issue
pub mod Lifecycle
pub mod Bootstrap
pub mod Delegate
pub mod Renew
pub mod Evolution
pub mod Runs
use genesis_runtime.Common.{
  List, Map, Option, Result, [], err, length, list_eq, nat_eq, ok, option_eq, ℕ, ◌++◌, ◌+◌, ◌∷◌,
}
use genesis_runtime.Ids.{AgentId, LeaseId, identifier_eq}
use genesis_runtime.Json.{Host}
use genesis_runtime.Digest.{Digest, digest_eq}
use genesis_runtime.Mission.{DateTime, MissionEnvelope}
use genesis_runtime.Identity.{AgentIdentityCertificate, KeyCustody}
use genesis_runtime.Authority.{
  AuthorityLeaseCertificate, AuthoritySet, CapabilityManifest, LeaseRecord, LeaseRef, bound_tool_eq,
  lease_ref_eq,
}

abbrev pub max_authority_chain_depth : ℕ
max_authority_chain_depth = 32

pub data AuthorityEventKind : Type 0 where
  identity_registered lease_issued lease_delegated lease_paused : AuthorityEventKind
  lease_resumed lease_revoked lease_expired lease_renewed : AuthorityEventKind

pub record AuthorityEvent : Type 0 where
  pub sequence : ℕ
  pub lease_id : LeaseId
  pub related_lease_id : Option LeaseId
  pub kind : AuthorityEventKind
  pub occurred_at : DateTime

pub record ValidatedAuthority : Type 0 where
  pub leaf_lease_id : LeaseId
  pub leaf_expires_at : DateTime
  pub agent_identity_digest : Digest
  pub capability_manifest_digest : Digest
  pub semantic_context_digest : Digest
  pub chain : List LeaseRef
  pub observed_generations : List (LeaseId × ℕ)

module _ ⦃h : Host⦄ where
  pub record RootLeaseRequest : Type 0 where
    pub mission : MissionEnvelope
    pub agent_id : AgentId
    pub granted_authority : AuthoritySet
    pub delegable_authority : AuthoritySet
    pub capability_manifest : CapabilityManifest
    pub semantic_context_digest : Digest
    pub expires_at : DateTime

  pub record DelegationRequest : Type 0 where
    pub parent_lease_id : LeaseId
    pub expected_parent_generation : ℕ
    pub child_agent_id : AgentId
    pub granted_authority : AuthoritySet
    pub delegable_authority : AuthoritySet
    pub capability_manifest : CapabilityManifest
    pub semantic_context_digest : Digest
    pub expires_at : DateTime

  pub record RenewalRequest : Type 0 where
    pub lease_id : LeaseId
    pub expected_generation : ℕ
    pub granted_authority : AuthoritySet
    pub delegable_authority : AuthoritySet
    pub capability_manifest : CapabilityManifest
    pub semantic_context_digest : Digest
    pub expires_at : DateTime

  -- `LeaseEntry`, and `LeaseSnapshot`, which has the same fields.
  pub record LeaseEntry : Type 0 where
    pub certificate : AuthorityLeaseCertificate
    pub lease_record : LeaseRecord
    pub manifest : CapabilityManifest

  pub record AuthorityState : Type 0 where
    pub mission : MissionEnvelope
    pub root_lease_id : LeaseId
    pub identities : Map AgentId AgentIdentityCertificate
    pub custodians : Map AgentId KeyCustody
    pub leases : Map LeaseId LeaseEntry
    pub events : List AuthorityEvent

  unfoldable pub push_event :
      AuthorityState → LeaseId → Option LeaseId → AuthorityEventKind → DateTime → AuthorityState
  push_event st lease_id related_lease_id kind occurred_at = record st {
    events = st.events ++ event ∷ [];
  }
    where
      event : AuthorityEvent
      event = record {
        sequence = length st.events + 1;
        lease_id = lease_id;
        related_lease_id = related_lease_id;
        kind = kind;
        occurred_at = occurred_at;
      }

  -- The `?` operator in a method that has the state in hand.
  abbrev pub attempt {ℓ κ} :
      {A : Type ℓ} {B : Type κ}
      → Result A
      → AuthorityState
      → (A → Result B × AuthorityState)
      → Result B × AuthorityState
  attempt (ok a) st f = f a
  attempt (err e) st f = (err e, st)
