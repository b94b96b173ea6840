-- ===== src/Supervisor/Runs.antt =====
-- Sequences of runs of one runtime (crates/aeon_agent_runtime/src/supervisor.rs).
use genesis_runtime.Kernel.Bootstrap.{bootstrap}
use genesis_runtime.Common.{
  ==_iff, >>=-eq-ok, ErrorCode, List, Result-cases, [], any, arith, capability_all_forbidden,
  duplicate_tool, get, inl, inr, invalid_input, length, list_eq, ltb, nat_eq, ok, ok-inj, ok_or,
  option_eq, refl, refuse_if, repeats, values, ℕ, ℕ_discrete, ◌+◌, ◌<◌, ◌==◌, ◌^◌, ◌≡◌, ◌≤◌,
}
use genesis_runtime.Ids.{MissionId, identifier_eq}
use genesis_runtime.Json.{Host}
use genesis_runtime.Digest.{digest_eq}
use genesis_runtime.Mission.{DateTime, same_capability}
use genesis_runtime.Identity.{IdentityCodec, KeyCustody}
use genesis_runtime.Authority.{AuthorityCodec, bound_tool_eq, lease_ref_eq}
use genesis_runtime.Authority.Sets.{is_capability_all}
use genesis_runtime.Action.{ActionCodec}
use genesis_runtime.Agent.{
  AgentSpec, ContextCodec, max_agent_steps, max_requested_capabilities, max_requested_tools,
  validate_spec,
}
use genesis_runtime.Context.{InstructionCodec, resolved_system_instruction}
use genesis_runtime.Protocol.{ProtocolCodec}
use genesis_runtime.Store.{append, append_event, new_store}
use genesis_runtime.Store.Evidence.{
  check_consumed, count_consumed, group_attempts, has_activation_prefix, has_foundation,
  is_misnumbered, validate_attempts, verify_event_completeness,
}
use genesis_runtime.Store.Complete.{IsComplete, IsComplete-Attempted, IsComplete-verified}
use genesis_runtime.Nexus.{Nexus}
use genesis_runtime.Registry.{ToolCodec}
use genesis_runtime.Supervisor.{
  BootstrapRequest, ModelClient, Runtime, RuntimeCodec, activated_store, bind_runtime, bootstrap_r2,
  check_bootstrap, reserve_budget,
}
use genesis_runtime.Supervisor.Run.{
  Observation, RunView, observe_model_authority, run_attempt, run_once,
}
use genesis_runtime.Supervisor.Complete.{run_attempt-Attempted}
use genesis_runtime.Execution.Growth.{count_started}
use genesis_runtime.Supervisor.Spending.{run_attempt-IsCharged}
use genesis_runtime.Supervisor.Budgets.{reserve_budget-ok, run_attempt-Settles}
use mathlib.Core.Path.{sym}

activated_store-IsComplete :
    ⦃h : Host⦄ (mission_id : MissionId) (event_time : ℕ → DateTime)
    → IsComplete (activated_store mission_id event_time)
unfolding activated_store append append_event new_store has_activation_prefix has_foundation
    is_misnumbered any group_attempts validate_attempts values count_consumed check_consumed get
    ℕ_discrete
activated_store-IsComplete mission_id event_time = record {
  foundation = (activated_store mission_id event_time).events;
  rest = [];
  split = refl;
  four = λ later. refl;
  prefix = λ later. refl;
  numbered = refl;
  owned = ground (arith, (==_iff mission_id mission_id).1 refl);
  attempts = [];
  grouped = refl;
  free = λ k q. refl;
  valid = refl;
  counts = [];
  counted = refl;
  uncounted = λ k q. refl;
  covered = refl;
}

validate_spec-steps :
    ⦃h : Host⦄ (spec : AgentSpec) → validate_spec spec ≡ ok tt → spec.max_steps ≤ max_agent_steps
unfolding validate_spec
validate_spec-steps spec q =
    let (_, _, q1) =
      >>=-eq-ok (refuse_if (ltb max_requested_tools (length spec.requested_tools)) invalid_input) _
        q in
    let (_, _, q2) =
      >>=-eq-ok (refuse_if (repeats (λ a b. a == b) [] spec.requested_tools) duplicate_tool) _ q1 in
    let (_, _, q3) =
      >>=-eq-ok
        (refuse_if (ltb max_requested_capabilities (length spec.requested_capabilities))
          invalid_input)
        _ q2 in
    let (_, _, q4) =
      >>=-eq-ok
        (refuse_if (any is_capability_all spec.requested_capabilities) capability_all_forbidden) _
        q3 in
    let (_, _, q5) =
      >>=-eq-ok (refuse_if (repeats same_capability [] spec.requested_capabilities) invalid_input) _
        q4 in
    ground (arith, q5)

module _ ⦃h : Host⦄ ⦃identity_codec : IdentityCodec⦄ ⦃authority_codec : AuthorityCodec⦄
    ⦃tool_codec : ToolCodec⦄ ⦃context_codec : ContextCodec⦄ ⦃action_codec : ActionCodec⦄
    ⦃instruction_codec : InstructionCodec⦄ ⦃protocol_codec : ProtocolCodec⦄
    ⦃runtime_codec : RuntimeCodec⦄ ⦃nexus : Nexus⦄ where
  -- What holds of a runtime between two runs.
  pub record IsSettled (rt : Runtime) : Type 0 where
    pub evidence : IsComplete rt.store
    pub attempts : rt.store.next_attempt_id ≤ rt.steps_consumed
    pub steps : rt.steps_consumed ≤ rt.spec.max_steps
    pub limit : rt.spec.max_steps ≤ max_agent_steps
    pub actions : rt.actions_consumed ≤ rt.mission.max_actions
    pub certificates : length rt.action_certificates ≤ rt.actions_consumed
    pub records : length rt.store.authorization_records ≤ rt.actions_consumed
    pub starts : count_started rt.store.events ≤ rt.actions_consumed

  -- A runtime and what any runs of it leave, failed runs included. Each run has its model and
  -- what it meets of its own.
  pub data AgentRuns (rt : Runtime) : Runtime → Type 1 where
    none_yet : AgentRuns rt rt
    one_more :
        {rt' : Runtime}
        → AgentRuns rt rt'
        → (model : ModelClient) (view : RunView) → AgentRuns rt (run_once model view rt').1

  run_attempt-IsSettled :
      (model : ModelClient) (view : RunView) (seen : Observation) (instruction : List ℕ)
      (rt : Runtime) (steps : ℕ)
      → IsSettled rt
      → reserve_budget rt.steps_consumed rt.spec.max_steps ≡ ok steps
      → IsSettled (run_attempt model view seen instruction (record rt { steps_consumed = steps })).1
  run_attempt-IsSettled model view seen instruction rt steps i b =
      let stepped : Runtime = record rt { steps_consumed = steps } in
      let (below, same) = reserve_budget-ok rt.steps_consumed rt.spec.max_steps steps b in
      let small : rt.store.next_attempt_id + 1 < 2 ^ 64 =
        omega (arith, i.attempts, below, i.limit) in
      let a = run_attempt-Attempted model view seen instruction stepped small in
      let s = run_attempt-Settles model view seen instruction stepped in
      let c = run_attempt-IsCharged model view seen instruction stepped in
      record {
        evidence = IsComplete-Attempted rt.store _ i.evidence a;
        attempts = rw (a.counter, s.steps) (omega (arith, a.next, i.attempts, same));
        steps = rw (s.steps, s.spec) (omega (arith, below, same));
        limit = rw s.spec i.limit;
        actions = rw s.mission (s.actions i.actions);
        certificates = omega (arith, c.certificates, i.certificates);
        records = omega (arith, c.records, i.records);
        starts = omega (arith, c.starts, i.starts);
      }

  run_once-IsSettled :
      (model : ModelClient) (view : RunView) (rt : Runtime)
      → IsSettled rt
      → IsSettled (run_once model view rt).1
  unfolding run_once
  run_once-IsSettled model view rt i = elim (Result-cases (observe_model_authority rt view)) [
    | inl (e, q) ↦ rw (q, run_once) i
    | inr (seen, q) ↦ elim (Result-cases (reserve_budget rt.steps_consumed rt.spec.max_steps)) [
      | inl (e, b) ↦ rw (q, run_once, b) i
      | inr (steps, b) ↦
          let (below, same) = reserve_budget-ok rt.steps_consumed rt.spec.max_steps steps b in
          elim (Result-cases (resolved_system_instruction rt.spec)) [
            | inl (e, t) ↦
                rw (q, run_once, b, t)
                  (record {
                    evidence = i.evidence;
                    attempts = omega (arith, i.attempts, same);
                    steps = omega (arith, below, same);
                    limit = i.limit;
                    actions = i.actions;
                    certificates = i.certificates;
                    records = i.records;
                    starts = i.starts;
                  })
            | inr (instruction, t) ↦
                rw (q, run_once, b, t)
                  (run_attempt-IsSettled model view seen instruction rt steps i b)
          ]
    ]
  ]

  AgentRuns-IsSettled : {rt rt' : Runtime} → IsSettled rt → AgentRuns rt rt' → IsSettled rt'
  AgentRuns-IsSettled i none_yet = i
  AgentRuns-IsSettled i (one_more {rt'} runs model view) =
      run_once-IsSettled model view rt' (AgentRuns-IsSettled i runs)

  bootstrap_r2-IsSettled :
      (r : BootstrapRequest) (model : ModelClient) (custody : KeyCustody) (uuid : List ℕ)
      (now : DateTime) (event_time : ℕ → DateTime) (rt : Runtime)
      → bootstrap_r2 r model custody uuid now event_time ≡ ok rt
      → IsSettled rt
  unfolding bootstrap_r2 check_bootstrap activated_store append append_event new_store count_started
  bootstrap_r2-IsSettled r model custody uuid now event_time rt q =
      let (granted, checked, q1) = >>=-eq-ok (check_bootstrap r now) _ q in
      let (_, spec, _) = >>=-eq-ok (validate_spec r.spec) _ checked in
      let ((context, digest, manifest), _, q2) = >>=-eq-ok (bind_runtime r model) _ q1 in
      let (kernel, _, q3) = >>=-eq-ok (bootstrap _ custody uuid now) _ q2 in
      let (_, _, q4) = >>=-eq-ok (ok_or nexus.new_hypervisor ErrorCode.execution_failed) _ q3 in
      rw (sym (ok-inj q4)) (record {
        evidence = activated_store-IsComplete r.mission.mission_id event_time;
        attempts = omega arith;
        steps = omega arith;
        limit = validate_spec-steps r.spec spec;
        actions = omega arith;
        certificates = omega arith;
        records = omega arith;
        starts = omega arith;
      })

  -- The evidence is complete after a bootstrap and any runs, whatever the model, the registry,
  -- the control plane and Nexus do: `verify_event_completeness` succeeds.
  pub AgentRuns-verified :
      (r : BootstrapRequest) (model : ModelClient) (custody : KeyCustody) (uuid : List ℕ)
      (now : DateTime) (event_time : ℕ → DateTime) (rt rt' : Runtime)
      → bootstrap_r2 r model custody uuid now event_time ≡ ok rt
      → AgentRuns rt rt'
      → verify_event_completeness rt'.store ≡ ok tt
  AgentRuns-verified r model custody uuid now event_time rt rt' q runs =
      let i =
        AgentRuns-IsSettled (bootstrap_r2-IsSettled r model custody uuid now event_time rt q)
          runs in
      IsComplete-verified rt'.store i.evidence

  -- After a bootstrap and any runs: the attempts are at most the reserved steps, these at most
  -- the steps of the specification, of which there are at most 256. The action certificates, the
  -- authorization records and the executions that the log says have started are, each, at most
  -- the reserved actions, and these are at most the actions of the mission.
  pub AgentRuns-budgets :
      (r : BootstrapRequest) (model : ModelClient) (custody : KeyCustody) (uuid : List ℕ)
      (now : DateTime) (event_time : ℕ → DateTime) (rt rt' : Runtime)
      → bootstrap_r2 r model custody uuid now event_time ≡ ok rt
      → AgentRuns rt rt'
      → (rt'.store.next_attempt_id ≤ rt'.steps_consumed)
        × (rt'.steps_consumed ≤ rt'.spec.max_steps)
        × (rt'.spec.max_steps ≤ max_agent_steps)
        × (length rt'.action_certificates ≤ rt'.actions_consumed)
        × (length rt'.store.authorization_records ≤ rt'.actions_consumed)
        × (count_started rt'.store.events ≤ rt'.actions_consumed)
        × (rt'.actions_consumed ≤ rt'.mission.max_actions)
  AgentRuns-budgets r model custody uuid now event_time rt rt' q runs =
      let i =
        AgentRuns-IsSettled (bootstrap_r2-IsSettled r model custody uuid now event_time rt q)
          runs in
      (i.attempts, i.steps, i.limit, i.certificates, i.records, i.starts, i.actions)
