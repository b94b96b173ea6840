-- ===== src/Nexus.antt =====
-- What the runtime calls of the nexus hypervisor
-- (crates/aeon_agent_runtime/src/execution.rs and tool_registry.rs).
use genesis_runtime.Common.{Bool, List, Option, list_eq, nat_eq, option_eq, ℕ}
use genesis_runtime.Json.{Host, Value}
use genesis_runtime.Mission.{Capability}

-- A hypervisor is passed on as a value: it lives for one execution. A duration is a number of
-- nanoseconds; `none` is an error of the call.
pub record Nexus ⦃h : Host⦄ : Type 1 where
  pub ToolDefinition : Type 0
  pub new_definition : List ℕ → List ℕ → ToolDefinition
  pub with_entry : ToolDefinition → List ℕ → ToolDefinition
  pub with_capabilities : ToolDefinition → List Capability → ToolDefinition
  pub with_input_schema : ToolDefinition → Value → ToolDefinition
  pub Hypervisor : Type 0
  pub new_hypervisor : Option Hypervisor
  pub Token : Type 0
  pub issue_token : Hypervisor → Capability → List ℕ → ℕ → Option (Token × Hypervisor)
  pub Output : Type 0
  pub success : Output → Bool
  pub execute_tool : Hypervisor → ToolDefinition → Value → List Token → Option Output
