-- ===== src/Scenario/CallExamples.antt =====
-- Examples: the theorems about single calls of the authority kernel
-- (crates/aeon_agent_runtime/src/authority_kernel.rs).
use mathlib.Core.Path.{ap}
use genesis_runtime.Common.{
  ErrorCode, Result, ◌<◌, ◌⊎◌, IsDistinct, List, refl, [], arith, err, get,
  lease_generation_mismatch, list_eq, nat_eq, ok, option_eq, some, ◌≡◌,
}
use genesis_runtime.Ids.{LeaseId, codes, identifier_eq}
use genesis_runtime.Digest.{digest_eq}
use genesis_runtime.Authority.{active, bound_tool_eq, lease_ref_eq, paused}
use genesis_runtime.Kernel.Delegate.{delegate}
use genesis_runtime.Kernel.Chain.{commit_active_chain, validate_active_chain}
use genesis_runtime.Kernel.{
  DelegationRequest, RenewalRequest, ValidatedAuthority, AuthorityState, LeaseEntry, lease_paused,
  max_authority_chain_depth,
}
use genesis_runtime.Kernel.Renew.{renew}
use genesis_runtime.Kernel.Lifecycle.{pause, refresh_expirations, resume, revoke}
use genesis_runtime.Kernel.Evolution.Stale.{transition-refuses_stale}
use genesis_runtime.Kernel.Evolution.Expiry.{refresh_expirations-expires}
use genesis_runtime.Kernel.Chain.{climb_identities}
use genesis_runtime.Kernel.Chain.IdentityDepth.{climb_identities-fuel}
use genesis_runtime.Kernel.Evolution.Atomic.{revoke-atomic}
use genesis_runtime.Kernel.Runs.{delegates, start, step}
use genesis_runtime.Kernel.Runs.Safety.{reachable-WellFormed}
use genesis_runtime.Kernel.Runs.Delegation.{DelegatedUnder, delegate-DelegatedUnder, renew-atomic}
use genesis_runtime.Scenario.{
  small_manifest, child_id, child_request, custody_of, root_id, root_request, toy_codec, toy_host,
  toy_identity_codec,
}
use genesis_runtime.Scenario.Kernels.{
  delegated, delegated_facts, started, started-IsFresh, started_ok,
}
use genesis_runtime.Scenario.Calls.{call_facts, late_renewal, paused_kernel, paused_record}

delegated-IsDistinct : IsDistinct delegated.leases
delegated-IsDistinct =
    (reachable-WellFormed root_request (custody_of 5) (codes "1") 10 started delegated started_ok
      (step start (delegates child_request (custody_of 6) (codes "2") 20 started-IsFresh))).distinct

delegate-DelegatedUnder_example : DelegatedUnder started child_request 20 child_id delegated
delegate-DelegatedUnder_example =
    delegate-DelegatedUnder started child_request (custody_of 6) (codes "2") 20 child_id delegated
      (ap (λ r. (r, delegated)) delegated_facts.0)

revoke-atomic_example : (revoke delegated root_id 7 "late" 40).1 ≡ delegated
revoke-atomic_example =
    revoke-atomic delegated root_id 7 "late" 40 lease_generation_mismatch delegated-IsDistinct
      call_facts.0

renew-atomic_example : (renew delegated late_renewal (codes "3") 40).1 ≡ delegated
renew-atomic_example =
    renew-atomic delegated late_renewal (codes "3") 40 lease_generation_mismatch
      delegated-IsDistinct call_facts.1

abbrev stale_delegation : DelegationRequest
stale_delegation = record child_request {
  parent_lease_id = child_id;
  expected_parent_generation = 0;
}

abbrev stale_renewal : RenewalRequest
stale_renewal = record late_renewal { lease_id = child_id; expected_generation = 0 }

abbrev accept_any : ValidatedAuthority → Result (Unit {0})
accept_any v = ok tt

transition-refuses_stale_example :
    (pause paused_kernel child_id 0 50 ≡ (err lease_generation_mismatch, paused_kernel))
    × (resume paused_kernel child_id 0 50 ≡ (err lease_generation_mismatch, paused_kernel))
    × (revoke paused_kernel child_id 0 "late" 50 ≡ (err lease_generation_mismatch, paused_kernel))
    × (delegate paused_kernel stale_delegation (custody_of 7) (codes "4") 50
        ≡ (err lease_generation_mismatch, paused_kernel))
    × (renew paused_kernel stale_renewal (codes "4") 50
        ≡ (err lease_generation_mismatch, paused_kernel))
    × ((c : ErrorCode) × (validate_active_chain paused_kernel child_id
            (some 0)
            (small_manifest 7)
            50
          ≡ err c))
    × ((c : ErrorCode) × (commit_active_chain paused_kernel child_id
            (some 0)
            (small_manifest 7)
            50
            accept_any
          ≡ err c))
transition-refuses_stale_example =
    transition-refuses_stale delegated child_id 0 active paused lease_paused 30 paused_record
      paused_kernel "late" 50 stale_delegation stale_renewal (custody_of 7) (codes "4")
      (small_manifest 7) accept_any refl refl refl refl (ap (λ r. (r, paused_kernel)) call_facts.2)

refresh_expirations-expires_example :
    (due : List LeaseId) × (st' : AuthorityState) × (refresh_expirations delegated 850
      ≡ (ok due, st'))
    × ((x : LeaseId) (f : LeaseEntry)
        → get x st'.leases ≡ some f
        → (f.lease_record.state ≡ active) ⊎ (f.lease_record.state ≡ paused)
        → 850 < f.certificate.expires_at)
refresh_expirations-expires_example = refresh_expirations-expires delegated 850 delegated-IsDistinct

climb_identities-fuel_example :
    climb_identities 100 delegated [] [] child_request.child_agent_id
    ≡ climb_identities max_authority_chain_depth delegated [] [] child_request.child_agent_id
climb_identities-fuel_example =
    climb_identities-fuel delegated [] 100 child_request.child_agent_id (omega arith)
