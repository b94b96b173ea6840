-- ===== src/Execution/Port.antt =====
-- The execution port: from an authorized execution to the call of Nexus
-- (crates/aeon_agent_runtime/src/execution.rs).
use genesis_runtime.Common.{
  Bool, ErrorCode, List, Result, [], authorization_invalid, err, false, get, length, list_eq,
  nat_eq, none, not, ok, ok_or, option_eq, refuse_if, semantic_context_changed, some,
  tool_manifest_mismatch, true, ℕ, ◌&&◌, ◌==◌, ◌>>=◌, ◌>>◌, ◌||◌, ◌∷◌,
}
use genesis_runtime.Ids.{LeaseId, identifier_eq}
use genesis_runtime.Json.{Host}
use genesis_runtime.Digest.{digest_eq}
use genesis_runtime.Mission.{DateTime}
use genesis_runtime.Identity.{IdentityCodec, KeyCustody}
use genesis_runtime.Authority.{AuthorityCodec, CapabilityManifest, bound_tool_eq, lease_ref_eq}
use genesis_runtime.Authority.Manifest.{manifest_digest}
use genesis_runtime.Kernel.{AuthorityState, ValidatedAuthority}
use genesis_runtime.Kernel.Chain.{commit_active_chain}
use genesis_runtime.Action.{ActionCodec}
use genesis_runtime.Agent.{ContextCodec, SemanticContext, context_digest}
use genesis_runtime.Store.{
  MissionEventKind, MissionStore, append_for_attempt, authorization_consumed,
  consume_authorization_with, execution_started,
}
use genesis_runtime.Nexus.{Nexus}
use genesis_runtime.Registry.{RegisteredTool, ToolCodec, digest_of_tool, tool_definition}
use genesis_runtime.Registry.Bindings.{resolve_with_capability_manifest}
use genesis_runtime.Execution.{AuthorizedExecution}
use genesis_runtime.Execution.Tokens.{issue_tokens, remaining_validity, validate_action_certificate}

pub data ExecutionPosition : Type 0 where
  before_nexus started : ExecutionPosition

-- `PositionedExecutionError` on the left.
pub data Positioned {ℓ} (T : Type ℓ) : Type ℓ where
  stopped : ErrorCode → ExecutionPosition → Positioned T
  finished : T → Positioned T

-- The fields of `NexusExecutionPort` that an execution reads, at the moments at which it reads
-- them: the kernel and the context at the commit. `event_time` is the clock that the store reads
-- for its n-th event.
pub record PortView ⦃h : Host⦄ : Type 0 where
  pub registry : List RegisteredTool
  pub kernel : AuthorityState
  pub semantic_context : SemanticContext
  pub custody : KeyCustody
  pub commit_now : DateTime
  pub issue_now : DateTime
  pub event_time : ℕ → DateTime

-- An event of an attempt, at the reading of the clock for it.
unfoldable pub log_event : MissionStore → (ℕ → DateTime) → ℕ → MissionEventKind → MissionStore
unfolding append_for_attempt
log_event s event_time attempt_id kind =
    append_for_attempt s attempt_id kind (event_time (length s.events))

-- The generation that the authorization observed of the active lease.
unfoldable pub leaf_generation : List (LeaseId × ℕ) → LeaseId → Result ℕ
unfolding get
leaf_generation observed lease_id = ok_or (get lease_id observed) authorization_invalid

unfoldable pub generations_eq : List (LeaseId × ℕ) → List (LeaseId × ℕ) → Bool
generations_eq [] [] = true
generations_eq ((i, m) ∷ xs) ((j, n) ∷ ys) = i == j && m == n && generations_eq xs ys
generations_eq _ _ = false

module _ ⦃h : Host⦄ ⦃identity_codec : IdentityCodec⦄ ⦃authority_codec : AuthorityCodec⦄
    ⦃tool_codec : ToolCodec⦄ ⦃context_codec : ContextCodec⦄ ⦃action_codec : ActionCodec⦄
    ⦃nexus : Nexus⦄ where
  -- The steps before the commit: the tool and the live manifest that the registry has.
  unfoldable pub prepare_execution :
      PortView → AuthorizedExecution → Result (RegisteredTool × CapabilityManifest × ℕ)
  unfolding resolve_with_capability_manifest digest_of_tool leaf_generation
  prepare_execution view authorized = do
    (tool, live_manifest) ←
        resolve_with_capability_manifest view.registry authorized.tool_id
          authorized.capability_manifest
    digest ← digest_of_tool tool
    refuse_if (not (digest == authorized.tool_manifest_digest)) tool_manifest_mismatch
    generation ←
        leaf_generation authorized.observed_generations authorized.certificate.authority_lease_id
    ok (tool, live_manifest, generation)

  -- The commit action up to the consumption: the validity of the tokens.
  unfoldable pub check_commit :
      PortView → AuthorizedExecution → CapabilityManifest → ValidatedAuthority → Result ℕ
  unfolding generations_eq manifest_digest context_digest validate_action_certificate
      remaining_validity
  check_commit view authorized live_manifest validated = do
    refuse_if
        (not (generations_eq validated.observed_generations authorized.observed_generations)
          || not (validated.agent_identity_digest == authorized.certificate.agent_identity_digest)
          || not
              (validated.semantic_context_digest == authorized.certificate.semantic_context_digest))
        authorization_invalid
    live_digest ← manifest_digest live_manifest
    refuse_if (not (validated.capability_manifest_digest == live_digest)) authorization_invalid
    current_context_digest ← context_digest view.semantic_context
    refuse_if (not (current_context_digest == validated.semantic_context_digest))
        semantic_context_changed
    validate_action_certificate authorized.certificate authorized view.custody view.commit_now
    remaining_validity validated.leaf_expires_at authorized.certificate.expires_at view.issue_now

  -- What comes before the consumption, under the lock of the kernel.
  unfoldable pub validate_execution : PortView → AuthorizedExecution → Result (RegisteredTool × ℕ)
  unfolding prepare_execution check_commit commit_active_chain
  validate_execution view authorized = do
    (tool, live_manifest, generation) ← prepare_execution view authorized
    validity ←
        commit_active_chain view.kernel authorized.certificate.authority_lease_id (some generation)
          live_manifest view.commit_now (check_commit view authorized live_manifest)
    ok (tool, validity)

  -- After the consumption: the evidence, and the call.
  unfoldable pub run_tool :
      PortView
      → AuthorizedExecution
      → ℕ
      → RegisteredTool
      → nexus.Hypervisor × List nexus.Token
      → MissionStore
      → Positioned nexus.Output × MissionStore
  unfolding log_event tool_definition
  run_tool view authorized attempt_id tool (hypervisor, tokens) s = (
    elim (nexus.execute_tool hypervisor (tool_definition tool) authorized.arguments tokens) [
      | none ↦ stopped ErrorCode.execution_failed started
      | some output ↦ finished output
    ],
    log_event (log_event s view.event_time attempt_id authorization_consumed) view.event_time
        attempt_id execution_started,
  )

  -- What follows the consumption.
  unfoldable pub after_consumption :
      PortView
      → AuthorizedExecution
      → ℕ
      → RegisteredTool
      → Result (nexus.Hypervisor × List nexus.Token) × MissionStore
      → Positioned nexus.Output × MissionStore
  unfolding run_tool
  after_consumption view authorized attempt_id tool (err e, s) = (stopped e before_nexus, s)
  after_consumption view authorized attempt_id tool (ok minted, s) =
      run_tool view authorized attempt_id tool minted s

  -- The consumption, which is the end of the commit action.
  unfoldable pub consume_and_run :
      PortView
      → AuthorizedExecution
      → ℕ
      → MissionStore
      → RegisteredTool × ℕ
      → Positioned nexus.Output × MissionStore
  unfolding after_consumption consume_authorization_with issue_tokens
  consume_and_run view authorized attempt_id s (tool, validity) =
      after_consumption view authorized attempt_id tool (
        consume_authorization_with s authorized.certificate.authorization_record_id
          authorized.certificate.authorization_generation
          (issue_tokens authorized.required_capabilities validity))

  -- `NexusExecutionPort::execute`
  unfoldable pub execute :
      PortView → AuthorizedExecution → ℕ → MissionStore → Positioned nexus.Output × MissionStore
  unfolding validate_execution consume_and_run
  execute view authorized attempt_id s = elim (validate_execution view authorized) [
    | err e ↦ (stopped e before_nexus, s)
    | ok validated ↦ consume_and_run view authorized attempt_id s validated
  ]
