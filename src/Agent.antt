-- ===== src/Agent.antt =====
-- Agent specifications and the semantic context (crates/aeon_agent_runtime/src/agent.rs).
use genesis_runtime.Common.{
  Bool, List, Option, Result, [], any, budget_exhausted, capability_all_forbidden, dedup,
  duplicate_tool, invalid_input, leb, length, list_eq, ltb, nat_eq, not, ok, option_eq, refuse_if,
  repeats, semantic_context_changed, sort_by, ℕ, ◌&&◌, ◌==◌, ◌>>=◌, ◌>>◌,
}
use genesis_runtime.Texts.{validate_text}
use genesis_runtime.Ids.{IdKind, Identifier, ToolId, bytes_le, codes, identifier_eq}
use genesis_runtime.Json.{Host, Serialize}
use genesis_runtime.Digest.{Digest, canonical_digest, digest_eq}
use genesis_runtime.Mission.{Capability, same_capability}
use genesis_runtime.Authority.Sets.{is_capability_all}

abbrev pub max_declarative_text_bytes : ℕ
max_declarative_text_bytes = 4096

abbrev pub max_requested_tools : ℕ
max_requested_tools = 64

abbrev pub max_requested_capabilities : ℕ
max_requested_capabilities = 64

abbrev pub max_agent_steps : ℕ
max_agent_steps = 256

unfoldable pub validate_declarative_text : List ℕ → Result (Unit {0})
validate_declarative_text text = validate_text max_declarative_text_bytes text

-- The macro `declarative_text!`: `Role`, `Objective` and `Contract`.
pub record DeclarativeText : Type 0 where
  pub text : List ℕ

unfoldable pub new_declarative_text : List ℕ → Result DeclarativeText
unfolding validate_declarative_text
new_declarative_text value = do validate_declarative_text value; ok (record { text = value })

abbrev pub ModelRef : Type 0
ModelRef = Identifier IdKind.model

abbrev pub MemoryRef : Type 0
MemoryRef = Identifier IdKind.memory

abbrev pub RetrievalIndexRef : Type 0
RetrievalIndexRef = Identifier IdKind.retrieval_index

abbrev pub InstructionProfileRef : Type 0
InstructionProfileRef = Identifier IdKind.instruction_profile

pub record SemanticRequirements : Type 0 where
  pub requested_memory : Option MemoryRef
  pub requested_retrieval_index : Option RetrievalIndexRef
  pub requested_instruction_profile : Option InstructionProfileRef

pub record SemanticContext : Type 0 where
  pub context_version : ℕ
  pub model_manifest_digest : Digest
  pub resolved_system_instruction_digest : Digest
  pub tool_registry_root_digest : Digest
  pub bound_tool_digests : List Digest
  pub protocol_schema_digest : Digest
  pub policy_epoch : ℕ
  pub memory_generation : Option Digest
  pub retrieval_index_generation : Option Digest

-- The local `Identity` of `canonical_digest`: every field but the version.
pub record ContextIdentity : Type 0 where
  pub model_manifest_digest : Digest
  pub resolved_system_instruction_digest : Digest
  pub tool_registry_root_digest : Digest
  pub bound_tool_digests : List Digest
  pub protocol_schema_digest : Digest
  pub policy_epoch : ℕ
  pub memory_generation : Option Digest
  pub retrieval_index_generation : Option Digest

-- The derived `Ord` of digests: byte by byte.
unfoldable pub digest_le : Digest → Digest → Bool
digest_le a b = bytes_le a.bytes b.bytes

-- `sort_unstable` and `dedup`: equal digests are one value, so that the sort may be a stable one.
unfoldable pub canonical_digests : List Digest → List Digest
unfolding digest_le
canonical_digests digests = dedup (sort_by digest_le digests)

unfoldable pub context_identity : SemanticContext → ContextIdentity
unfolding canonical_digests
context_identity c = record {
  model_manifest_digest = c.model_manifest_digest;
  resolved_system_instruction_digest = c.resolved_system_instruction_digest;
  tool_registry_root_digest = c.tool_registry_root_digest;
  bound_tool_digests = canonical_digests c.bound_tool_digests;
  protocol_schema_digest = c.protocol_schema_digest;
  policy_epoch = c.policy_epoch;
  memory_generation = c.memory_generation;
  retrieval_index_generation = c.retrieval_index_generation;
}

-- The derived serializer of the identity.
pub record ContextCodec : Type 0 where
  pub identity : Serialize ContextIdentity

abbrev pub context_domain : List ℕ
context_domain = codes "aeon-semantic-context-v1"

pub data ContextTransition : Type 0 where
  exact : ContextTransition

module _ ⦃h : Host⦄ where
  -- `AuthorityRequest` and `ResourceRequest` have one field each, which stands here by itself.
  pub record AgentSpec : Type 0 where
    pub role : DeclarativeText
    pub objective : DeclarativeText
    pub requested_model : ModelRef
    pub requested_tools : List ToolId
    pub requested_capabilities : List Capability
    pub output_contract : DeclarativeText
    pub max_steps : ℕ
    pub semantic_requirements : SemanticRequirements

  -- `AgentSpec::validate`
  unfoldable pub validate_spec : AgentSpec → Result (Unit {0})
  validate_spec spec = do
    refuse_if (ltb max_requested_tools (length spec.requested_tools)) invalid_input
    refuse_if (repeats (λ a b. a == b) [] spec.requested_tools) duplicate_tool
    refuse_if (ltb max_requested_capabilities (length spec.requested_capabilities)) invalid_input
    refuse_if (any is_capability_all spec.requested_capabilities) capability_all_forbidden
    refuse_if (repeats same_capability [] spec.requested_capabilities) invalid_input
    refuse_if (not (leb 1 spec.max_steps && leb spec.max_steps max_agent_steps)) budget_exhausted

  module _ ⦃codec : ContextCodec⦄ where
    -- `SemanticContext::canonical_digest`
    unfoldable pub context_digest : SemanticContext → Result Digest
    unfolding context_identity
    context_digest c = canonical_digest codec.identity context_domain (context_identity c)

    unfoldable pub validate_context_continuation :
        Digest → SemanticContext → Result ContextTransition
    validate_context_continuation original_digest current = do
      current_digest ← context_digest current
      refuse_if (not (original_digest == current_digest)) semantic_context_changed
      ok exact
