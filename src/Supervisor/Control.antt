-- ===== src/Supervisor/Control.antt =====
-- The control plane of the runtime: pausing, resuming, revoking and renewing the active lease
-- (crates/aeon_agent_runtime/src/supervisor.rs). A method reads the identifier of the
-- active lease under one lock, the lease under another and moves it under a third, so that it
-- takes the kernel three times: `root`, `seen` and `st`.
use genesis_runtime.Common.{List, Result, String, list_eq, nat_eq, ok, option_eq, ℕ, ◌>>=◌}
use genesis_runtime.Ids.{LeaseId, identifier_eq}
use genesis_runtime.Json.{Host}
use genesis_runtime.Digest.{digest_eq}
use genesis_runtime.Mission.{DateTime}
use genesis_runtime.Identity.{IdentityCodec}
use genesis_runtime.Authority.{AuthorityCodec, LeaseRecord, bound_tool_eq, lease_ref_eq}
use genesis_runtime.Kernel.{AuthorityState, LeaseEntry, RenewalRequest, attempt}
use genesis_runtime.Kernel.Lifecycle.{lease_snapshot, pause, resume, revoke}
use genesis_runtime.Kernel.Renew.{renew}
use genesis_runtime.Agent.{ContextCodec, SemanticContext, context_digest}
use genesis_runtime.Registry.{RegisteredTool, ToolCodec}
use genesis_runtime.Registry.Bindings.{refresh_capability_manifest}

module _ ⦃h : Host⦄ where
  unfoldable pub active_lease_snapshot : AuthorityState → AuthorityState → Result LeaseEntry
  unfolding lease_snapshot
  active_lease_snapshot root st = lease_snapshot st root.root_lease_id

  unfoldable pub pause_active :
      AuthorityState
      → AuthorityState
      → AuthorityState
      → DateTime
      → Result LeaseRecord × AuthorityState
  unfolding active_lease_snapshot pause
  pause_active root seen st now =
      attempt (active_lease_snapshot root seen) st
        λ lease. pause st lease.certificate.lease_id lease.lease_record.generation now

  unfoldable pub resume_active :
      AuthorityState
      → AuthorityState
      → AuthorityState
      → DateTime
      → Result LeaseRecord × AuthorityState
  unfolding active_lease_snapshot resume
  resume_active root seen st now =
      attempt (active_lease_snapshot root seen) st
        λ lease. resume st lease.certificate.lease_id lease.lease_record.generation now

  unfoldable pub revoke_active :
      AuthorityState
      → AuthorityState
      → AuthorityState
      → String
      → DateTime
      → Result (List LeaseId) × AuthorityState
  unfolding active_lease_snapshot revoke
  revoke_active root seen st reason now =
      attempt (active_lease_snapshot root seen) st
        λ lease. revoke st lease.certificate.lease_id lease.lease_record.generation reason now

  module _ ⦃identity_codec : IdentityCodec⦄ ⦃authority_codec : AuthorityCodec⦄
      ⦃tool_codec : ToolCodec⦄ ⦃context_codec : ContextCodec⦄ where
    -- The request of `R1Runtime::renew`: the authority of the old lease over the live manifest.
    unfoldable pub renewal_request :
        List RegisteredTool → SemanticContext → LeaseEntry → DateTime → Result RenewalRequest
    unfolding refresh_capability_manifest context_digest
    renewal_request registry context lease expires_at = do
      live_manifest ← refresh_capability_manifest registry lease.manifest
      digest ← context_digest context
      ok (record {
        lease_id = lease.certificate.lease_id;
        expected_generation = lease.lease_record.generation;
        granted_authority = lease.certificate.granted_authority;
        delegable_authority = lease.certificate.delegable_authority;
        capability_manifest = live_manifest;
        semantic_context_digest = digest;
        expires_at = expires_at;
      })

    -- `R1Runtime::renew`; the snapshot at its end is read under the lock of the renewal here.
    unfoldable pub renew_active :
        List RegisteredTool
        → SemanticContext
        → AuthorityState
        → AuthorityState
        → AuthorityState
        → List ℕ
        → DateTime
        → DateTime
        → Result LeaseEntry × AuthorityState
    unfolding active_lease_snapshot renewal_request renew lease_snapshot
    renew_active registry context root seen st uuid expires_at now =
        attempt (active_lease_snapshot root seen) st λ lease.
          attempt (renewal_request registry context lease expires_at) st λ request.
            let (renewed, st') = renew st request uuid now in
            attempt renewed st' λ renewed_id. (lease_snapshot st' renewed_id, st')
