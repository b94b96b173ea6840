-- ===== src/Mission.antt =====
-- The mission envelope (crates/aeon_agent_runtime/src/mission.rs). A `DateTime<Utc>` is a number
-- of nanoseconds.
use genesis_runtime.Common.{
  Bool, List, any, false, list_eq, ltb, nat_eq, option_eq, true, ℕ, ◌&&◌, ◌==◌,
}
use genesis_runtime.Ids.{MissionId, ToolId, identifier_eq}
use genesis_runtime.Json.{Host}

abbrev pub DateTime : Type 0
DateTime = ℕ

module _ ⦃h : Host⦄ where
  abbrev pub Capability : Type 0
  Capability = h.Capability

  -- `==` on capabilities. It is no instance: it would fit every type.
  abbrev pub same_capability : Capability → Capability → Bool
  same_capability a b = elim (h.capability_dec a b) [ yes _ ↦ true | no _ ↦ false ]

  pub record MissionEnvelope : Type 0 where
    pub mission_id : MissionId
    pub allowed_tools : List ToolId
    pub allowed_capabilities : List Capability
    pub policy_epoch : ℕ
    pub organization_version : ℕ
    pub active : Bool
    pub expires_at : DateTime
    pub max_actions : ℕ

  unfoldable pub is_usable_at : MissionEnvelope → DateTime → Bool
  is_usable_at m now = m.active && ltb 0 m.max_actions && ltb now m.expires_at

  unfoldable pub allows_tool : MissionEnvelope → ToolId → Bool
  allows_tool m tool_id = any (λ allowed. allowed == tool_id) m.allowed_tools

  unfoldable pub allows_capability : MissionEnvelope → Capability → Bool
  allows_capability m capability =
      any (λ allowed. same_capability allowed capability) m.allowed_capabilities

  unfoldable pub contains_capability_all : MissionEnvelope → Bool
  contains_capability_all m = any (λ c. same_capability c h.capability_all) m.allowed_capabilities
