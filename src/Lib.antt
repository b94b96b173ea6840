-- ===== src/Lib.antt =====
-- The AEON agent runtime (crates/aeon_agent_runtime). The runtime lets agents act only under
-- leases: signed certificates of authority that form chains from a root lease, each narrower than
-- its parent. A supervisor asks a model for one message at a time; a message that is a tool call
-- passes a gate, which signs a certificate for it, and a port, which validates the chain once
-- more, spends the authorization and calls Nexus. Everything is recorded in a store, whose
-- evidence can be checked.
--
-- The parts, and the files that model them:
--   * crates/aeon_agent_runtime/src/ids.rs is Ids: identifiers as bytes, and what is a valid one.
--     Texts has the tests on Unicode texts.
--   * crates/aeon_agent_runtime/src/digest.rs is Digest: canonical JSON, the framing of what is
--     hashed, digests and their hexadecimal text (Digest/Hex). Json has JSON values, and the
--     record Host of all that the crate calls outside itself.
--   * crates/aeon_agent_runtime/src/mission.rs is Mission,
--     crates/aeon_agent_runtime/src/identity.rs is Identity,
--     crates/aeon_agent_runtime/src/error.rs is Common/Results,
--     crates/aeon_agent_runtime/src/model.rs is in Supervisor.
--   * crates/aeon_agent_runtime/src/authority.rs is Authority: capability sets (Authority/Sets),
--     manifests (Authority/Manifest) and signed lease certificates (Authority/Lease).
--   * crates/aeon_agent_runtime/src/authority_kernel.rs and
--     crates/aeon_agent_runtime/src/authority_kernel/validation.rs are Kernel. Its state is the
--     record AuthorityState. One file has one part of the operations: Kernel/Bootstrap,
--     Kernel/Delegate, Kernel/Renew, Kernel/Lifecycle (pause, resume, revoke, expiry),
--     Kernel/Chain (validate_chain and the commit under it), Kernel/Descendants, and the checks
--     in Kernel/Checks, Kernel/Requests and Kernel/Issue.
--   * crates/aeon_agent_runtime/src/store.rs is Store, with the check of the recorded evidence in
--     Store/Evidence. crates/aeon_agent_runtime/src/action.rs is Action; its types that the store
--     keeps are in Store.
--   * crates/aeon_agent_runtime/src/agent.rs is Agent and
--     crates/aeon_agent_runtime/src/context.rs is Context: specifications, and the semantic
--     context that a lease is bound to.
--   * crates/aeon_agent_runtime/src/tool_registry.rs is Schema (schemas and instances), Registry
--     (manifests and tools) and Registry/Bindings (snapshots, and capability manifests that are
--     refreshed).
--   * crates/aeon_agent_runtime/src/protocol.rs is Protocol: the closed messages of a model.
--   * crates/aeon_agent_runtime/src/execution.rs is Execution (the gate: authorize),
--     Execution/Tokens and Execution/Port (the port: execute). Nexus is the record Nexus.
--   * crates/aeon_agent_runtime/src/supervisor.rs is Supervisor (bootstrap_r2), Supervisor/Run
--     (run_once) and Supervisor/Control (pause, resume, revoke, renew). Its state is the record
--     Runtime.
-- The proofs stand in the child modules of what they are about: Kernel/Descendants, Kernel/Chain,
-- Kernel/Evolution (what a call may change), Kernel/Runs (histories of calls), Store/History,
-- Store/Consumption, Store/Complete (evidence, attempt by attempt), Schema/Types,
-- Schema/Conforms, Schema/Decides, Registry/Refresh, Registry/Lookup, Protocol/RoundTrip,
-- Execution/Admission, Execution/Refusals, Execution/Certificate, Execution/Steps,
-- Execution/Growth, Execution/Safety, Execution/Accepted, Supervisor/Evidence,
-- Supervisor/Budgets, Supervisor/Spending, Supervisor/Revocation and Supervisor/Runs (histories
-- of runs). Common has the shared helpers, Scenario the examples.
--
-- A method that takes a lock is a function of the state under the lock; it returns its result
-- beside the state that it leaves, also where it fails. A lock that is poisoned is not modelled.
-- The time and the text of a fresh UUID are arguments. A hash map is an association list: the
-- source iterates over one only where the order does not matter or the result is sorted. A `u64`
-- generation wraps at 2 ^ 64, as in a release build. An execution and a run take the kernel and
-- the clock once for each moment at which they read them (PortView, RunView), so that the control
-- plane may move the kernel in between. The runs of one runtime follow one another, since they
-- share its store and its budgets; what two runs of it do to each other is not modelled. Sums of
-- times do not overflow.
--
-- What the crate calls is a parameter: capabilities and their comparison, signatures, SHA-256,
-- serde_json (the record Host), Nexus, the model (ModelClient), and the code that serde derives
-- or that reads and writes JSON texts (IdentityCodec, AuthorityCodec, ActionCodec, ContextCodec,
-- InstructionCodec, ProtocolCodec, ToolCodec, RuntimeCodec). The theorem on attenuation takes as
-- a hypothesis that the comparison of capabilities is transitive, the theorems on histories of
-- the kernel that the identifier made from a fresh UUID is new, the acceptance of a certificate
-- of the gate by the port that the signatures of the custody verify, and the round trip of
-- messages that serde_json reads the text as the entries that were written.
--
-- The two loops that climb a chain run on a fuel of 32, the depth at which the source stops by a
-- test of its own; the walk over the descendants runs on as much fuel as there are leases. All
-- three are given enough, as the results below say. Schemas are walked by structural recursion.
--
-- Not modelled: the counters of the metrics, the Debug output, the getters and the hooks of the
-- tests; the in-memory custody of crates/aeon_agent_runtime/src/identity.rs, which draws random
-- keys; the effect records and execution bindings of crates/aeon_agent_runtime/src/action.rs and
-- the lifecycle and memory types of crates/aeon_agent_runtime/src/agent.rs, which no code of the
-- runtime acts on; the implementations of serde's traits but for the closed protocol.
pub mod Common
pub mod Ids
pub mod Json
pub mod Digest
pub mod Mission
pub mod Identity
pub mod Authority
pub mod Kernel
pub mod Texts
pub mod Store
pub mod Action
pub mod Agent
pub mod Schema
pub mod Nexus
pub mod Registry
pub mod Protocol
pub mod Context
pub mod Execution
pub mod Supervisor
pub mod Scenario
