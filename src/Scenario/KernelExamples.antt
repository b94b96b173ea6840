-- ===== src/Scenario/KernelExamples.antt =====
-- Examples: the theorems about the authority kernel at a concrete run
-- (crates/aeon_agent_runtime/src/authority_kernel.rs).
use genesis_runtime.Common.{
  ErrorCode, List, Result, [], ap, arith, contains, contains_key, err, get, list_eq, nat_eq, none,
  ok, option_eq, refl, some, true, ◌↔◌, ◌∷◌, ◌≡◌,
}
use genesis_runtime.Ids.{LeaseId, codes, identifier_eq}
use genesis_runtime.Authority.{LeaseRecord, active_record, bound_tool_eq, is_live, lease_ref_eq}
use genesis_runtime.Kernel.{
  AuthorityState, LeaseEntry, ValidatedAuthority, max_authority_chain_depth,
}
use genesis_runtime.Kernel.Chain.{
  climb_leases, commit_active_chain, validate_active_chain, validate_chain,
}
use genesis_runtime.Kernel.Chain.Sound.{
  StoredUsable, validate_chain-generation, validate_chain-usable,
}
use genesis_runtime.Kernel.Chain.Depth.{climb_leases-fuel}
use genesis_runtime.Kernel.Chain.Attenuation.{validate_chain-Attenuates}
use genesis_runtime.Kernel.Chain.Attenuation.Links.{Attenuates}
use genesis_runtime.Kernel.Chain.Attenuation.Subsets.{IsTransitive}
use genesis_runtime.Kernel.Descendants.{descendants_including}
use genesis_runtime.Kernel.Descendants.Index.{parent_of}
use genesis_runtime.Kernel.Descendants.Correct.{
  Descends, below, descendants_including_correct, here,
}
use genesis_runtime.Kernel.Lifecycle.{refresh_expirations, revoke}
use genesis_runtime.Kernel.Evolution.Exact.{IsRevocation, revoke_cascades}
use genesis_runtime.Kernel.Runs.{Runs, WellFormed, delegates, refreshes, revokes_lease, start, step}
use genesis_runtime.Kernel.Runs.Safety.{
  Runs-certificate, Runs-dead, reachable-WellFormed, revoke-refuses_commits,
  revoke-refuses_descendants,
}
use genesis_runtime.Scenario.{
  child_id, child_request, custody_of, root_id, root_request, small_manifest, toy_codec, toy_host,
  toy_identity_codec,
}
use genesis_runtime.Json.{end, object}
use genesis_runtime.Scenario.Runtimes.{
  booted, calling_model, clock_of_events, ready_store, small_tool, tool_name, toy_action_codec,
  toy_context_codec, toy_instruction_codec, toy_nexus, toy_protocol_codec, toy_runtime_codec,
  toy_tool_codec,
}
use genesis_runtime.Scenario.Kernels.{
  child_chain, delegated, delegated_facts, delegated_root, entry_at, revoked_facts, revoked_kernel,
  started, started-IsFresh, started_ok, validated_of,
}
use genesis_runtime.Supervisor.Run.{RunView, observed_lease, observed_root, run_once}
use genesis_runtime.Supervisor.Revocation.{revoke-refuses_runs}
use genesis_runtime.Execution.{AuthorizedExecution}
use genesis_runtime.Execution.Port.{PortView, before_nexus, execute, stopped}
use genesis_runtime.Execution.Refusals.{revoke-refuses_execution}

delegated-Runs : Runs started delegated
delegated-Runs = step start (delegates child_request (custody_of 6) (codes "2") 20 started-IsFresh)

delegated-WellFormed : WellFormed delegated
delegated-WellFormed =
    reachable-WellFormed root_request (custody_of 5) (codes "1") 10 started delegated started_ok
      delegated-Runs

root_found : get root_id delegated.leases ≡ some (entry_at root_id delegated)
root_found = delegated_facts.1

child_found : get child_id delegated.leases ≡ some (entry_at child_id delegated)
child_found = delegated_facts.2

root_stored : contains_key delegated.leases root_id ≡ true
unfolding contains_key
root_stored = rw (root_found, contains_key) refl

child_below : parent_of delegated.leases child_id ≡ some root_id
child_below = delegated_facts.3

child_validates :
    validate_chain delegated child_id (some 0) (small_manifest 7) 30 ≡ ok (validated_of child_chain)
child_validates = delegated_facts.4

root_live : is_live (entry_at root_id delegated).lease_record.state ≡ true
unfolding active_record
root_live = ap (λ (r : LeaseRecord). is_live r.state) revoked_facts.0

equal_transitive : IsTransitive
equal_transitive a b c r s = ground arith

reachable-WellFormed_example : WellFormed delegated
reachable-WellFormed_example =
    reachable-WellFormed root_request (custody_of 5) (codes "1") 10 started delegated started_ok
      delegated-Runs

validate_chain-Attenuates_example :
    Attenuates (entry_at root_id delegated) (entry_at child_id delegated)
validate_chain-Attenuates_example =
    validate_chain-Attenuates equal_transitive delegated child_id (some 0) (small_manifest 7) 30
      (validated_of child_chain) root_id root_id (entry_at child_id delegated)
      (entry_at root_id delegated) child_validates child_found root_found child_below here

validate_chain-usable_example : StoredUsable delegated root_id 30
validate_chain-usable_example =
    validate_chain-usable delegated child_id (some 0) (small_manifest 7) 30
      (validated_of child_chain) root_id child_validates (below here child_below)

validate_chain-generation_example : (entry_at child_id delegated).lease_record.generation ≡ 0
validate_chain-generation_example =
    validate_chain-generation delegated child_id 0 (small_manifest 7) 30 (validated_of child_chain)
      (entry_at child_id delegated) child_validates child_found

climb_leases-fuel_example :
    climb_leases delegated child_id none 30 100 [] [] [] child_id
    ≡ climb_leases delegated child_id none 30 max_authority_chain_depth [] [] [] child_id
climb_leases-fuel_example = climb_leases-fuel delegated child_id none 30 100 (omega arith)

descendants_including_correct_example :
    (ds : List LeaseId) × (descendants_including delegated root_id ≡ ok ds)
    × ((x : LeaseId) → (contains ds x ≡ true) ↔ Descends delegated.leases root_id x)
descendants_including_correct_example =
    descendants_including_correct delegated root_id delegated-WellFormed.distinct root_stored

revoke_cascades_example :
    (affected : List LeaseId) × (st' : AuthorityState) × (revoke delegated root_id
        (entry_at root_id delegated).lease_record.generation
        "lost"
        40
      ≡ (ok affected, st'))
    × ((x : LeaseId) (f : LeaseEntry)
        → Descends delegated.leases root_id x
        → get x delegated.leases ≡ some f
        → (g : LeaseEntry) × (get x st'.leases ≡ some g) × IsRevocation 40 "lost" f g)
    × ((x : LeaseId)
        → ¬ Descends delegated.leases root_id x
        → get x st'.leases ≡ get x delegated.leases)
    × ((x : LeaseId) → (contains affected x ≡ true) ↔ Descends delegated.leases root_id x)
revoke_cascades_example =
    revoke_cascades delegated root_id (entry_at root_id delegated) "lost" 40
      delegated-WellFormed.distinct root_found root_live

revoke-refuses_descendants_example : ¬ (
    validate_chain
      (revoke delegated root_id (entry_at root_id delegated).lease_record.generation "lost" 40).1
      child_id
      (some 0)
      (small_manifest 7)
      50
    ≡ ok (validated_of child_chain))
revoke-refuses_descendants_example =
    revoke-refuses_descendants delegated root_id (entry_at root_id delegated) "lost" 40
      (revoke delegated root_id (entry_at root_id delegated).lease_record.generation "lost" 40).1
      child_id (some 0) (small_manifest 7) 50 (validated_of child_chain) delegated-WellFormed
      root_found root_live start (below here child_below)

refreshed : Runs revoked_kernel (refresh_expirations revoked_kernel 2000).1
refreshed = step start (refreshes 2000)

Runs-dead_example :
    get child_id (refresh_expirations revoked_kernel 2000).1.leases
    ≡ some (entry_at child_id revoked_kernel)
Runs-dead_example =
    Runs-dead revoked_kernel (refresh_expirations revoked_kernel 2000).1 child_id
      (entry_at child_id revoked_kernel) refreshed revoked_facts.1 revoked_facts.2

Runs-certificate_example :
    (f : LeaseEntry) × (get child_id revoked_kernel.leases ≡ some f)
    × (f.certificate ≡ (entry_at child_id delegated).certificate)
    × (f.manifest ≡ (entry_at child_id delegated).manifest)
Runs-certificate_example =
    Runs-certificate delegated revoked_kernel child_id (entry_at child_id delegated)
      (step start (revokes_lease root_id 0 "compromised" 40)) child_found

abbrev accept_any : ValidatedAuthority → Result (Unit {0})
accept_any v = ok tt

revoke-refuses_commits_example :
    (c : ErrorCode) × (commit_active_chain
        (revoke delegated root_id (entry_at root_id delegated).lease_record.generation "lost" 40).1
        child_id
        (some 0)
        (small_manifest 7)
        50
        accept_any
      ≡ err c)
    × (validate_active_chain
          (revoke delegated root_id
            (entry_at root_id delegated).lease_record.generation
            "lost"
            40).1
          child_id
          (some 0)
          (small_manifest 7)
          50
        ≡ err c)
revoke-refuses_commits_example =
    revoke-refuses_commits delegated root_id (entry_at root_id delegated) "lost" 40
      (revoke delegated root_id (entry_at root_id delegated).lease_record.generation "lost" 40).1
      child_id (some 0) (small_manifest 7) 50 accept_any delegated-WellFormed root_found root_live
      start (below here child_below)

-- An execution that names the delegated lease, at a port that meets the kernel after the
-- revocation of its parent.
abbrev child_execution : AuthorizedExecution
child_execution = record {
  tool_id = tool_name;
  arguments = object end;
  tool_manifest_digest = record { bytes = [] };
  required_capabilities = 7 ∷ [];
  capability_manifest = small_manifest 7;
  certificate = record {
    certificate_id = record { bytes = codes "cert-1" };
    mission_id = record { bytes = codes "m" };
    agent_identity_digest = record { bytes = [] };
    authority_lease_id = child_id;
    organization_version = 1;
    policy_epoch = 1;
    semantic_context_digest = record { bytes = [] };
    action_ref = record { bytes = [] };
    tool_id = tool_name;
    tool_manifest_digest = record { bytes = [] };
    concrete_input_digest = record { bytes = [] };
    authorization_record_id = record { bytes = codes "auth-1" };
    granted_uses = 1;
    authorization_generation = 0;
    issued_at = 30;
    expires_at = 800;
    signature = [];
  };
  observed_generations = (child_id, 0) ∷ [];
}

abbrev late_port : PortView
late_port = record {
  registry = small_tool ∷ [];
  kernel =
      (revoke delegated root_id (entry_at root_id delegated).lease_record.generation "lost" 40).1;
  semantic_context = booted.semantic_context;
  custody = custody_of 6;
  commit_now = 50;
  issue_now = 50;
  event_time = clock_of_events;
}

revoke-refuses_execution_example :
    (c : ErrorCode) × (execute late_port child_execution 1 ready_store
      ≡ (stopped c before_nexus, ready_store))
revoke-refuses_execution_example =
    revoke-refuses_execution delegated root_id (entry_at root_id delegated) "lost" 40 late_port
      child_execution 1 ready_store delegated-WellFormed root_found root_live start
      (below here child_below)

-- A view in which the root lease is revoked between the moments at which a run reads the kernel.
abbrev revoked_view : RunView
revoked_view = record {
  kernel = λ moment. elim moment [
    | observed_root ↦ delegated
    | observed_lease ↦ delegated
    | _ ↦
        (revoke delegated root_id (entry_at root_id delegated).lease_record.generation "lost" 40).1
  ];
  clock = λ moment. 30;
  authorization_uuid = codes "1";
  certificate_uuid = codes "1";
  event_time = clock_of_events;
}

root_named : Descends delegated.leases root_id delegated.root_lease_id
root_named = rw delegated_root here

revoke-refuses_runs_example :
    (c : ErrorCode) × (run_once calling_model revoked_view booted ≡ (err c, booted))
revoke-refuses_runs_example =
    revoke-refuses_runs delegated root_id (entry_at root_id delegated) "lost" 40 calling_model
      revoked_view booted delegated-WellFormed root_found root_live start delegated-WellFormed
      root_named
