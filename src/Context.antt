-- ===== src/Context.antt =====
-- The resolution of the semantic context of an agent (crates/aeon_agent_runtime/src/context.rs).
use genesis_runtime.Common.{
  Bool, List, Option, Result, context_resolution_failed, false, list_eq, map, nat_eq, none, ok,
  ok_or, option_eq, refuse_if, some, true, ℕ, ◌>>=◌, ◌>>◌, ◌||◌,
}
use genesis_runtime.Ids.{codes, identifier_eq}
use genesis_runtime.Json.{Host, Serialize}
use genesis_runtime.Digest.{Digest, canonical_digest, digest_eq}
use genesis_runtime.Agent.{
  AgentSpec, DeclarativeText, InstructionProfileRef, SemanticContext, canonical_digests,
}
use genesis_runtime.Authority.{bound_tool_eq, lease_ref_eq}
use genesis_runtime.Protocol.{ProtocolCodec, schema_digest}
use genesis_runtime.Registry.{RegistrySnapshot}

pub record ContextResolver : Type 0 where
  pub model_manifest_digest : Digest
  pub protocol_schema_digest : Digest
  pub policy_epoch : ℕ
  pub context_version : ℕ

pub record ResolvedInstruction : Type 0 where
  pub role : DeclarativeText
  pub objective : DeclarativeText
  pub instruction_profile : Option InstructionProfileRef
  pub output_contract : DeclarativeText

-- `serde_json::to_string` of the instruction, and the serializer of a text.
pub record InstructionCodec : Type 0 where
  pub instruction_text : ResolvedInstruction → Option (List ℕ)
  pub text : Serialize (List ℕ)

abbrev pub instruction_domain : List ℕ
instruction_domain = codes "aeon-resolved-system-instruction-v1"

abbrev pub is_some {ℓ} : {A : Type ℓ} → Option A → Bool
is_some none = false
is_some (some _) = true

module _ ⦃h : Host⦄ where
  -- `ContextResolver::for_r1`
  unfoldable pub resolver_for_r1 : ⦃codec : ProtocolCodec⦄ → Digest → ℕ → ℕ → Result ContextResolver
  resolver_for_r1 model_manifest_digest policy_epoch context_version = do
    protocol_schema_digest ← schema_digest
    ok (record {
      model_manifest_digest = model_manifest_digest;
      protocol_schema_digest = protocol_schema_digest;
      policy_epoch = policy_epoch;
      context_version = context_version;
    })

  unfoldable pub resolved_system_instruction :
      ⦃codec : InstructionCodec⦄ → AgentSpec → Result (List ℕ)
  resolved_system_instruction ⦃codec⦄ spec =
      ok_or
        (codec.instruction_text (record {
          role = spec.role;
          objective = spec.objective;
          instruction_profile = spec.semantic_requirements.requested_instruction_profile;
          output_contract = spec.output_contract;
        }))
        context_resolution_failed

  -- `ContextResolver::resolve`
  unfoldable pub resolve_context :
      ⦃codec : InstructionCodec⦄
      → ContextResolver
      → AgentSpec
      → RegistrySnapshot
      → Result SemanticContext
  unfolding canonical_digests resolved_system_instruction
  resolve_context ⦃codec⦄ resolver spec snapshot = do
    refuse_if
        (is_some spec.semantic_requirements.requested_memory
          || is_some spec.semantic_requirements.requested_retrieval_index)
        context_resolution_failed
    instruction ← resolved_system_instruction spec
    instruction_digest ← canonical_digest codec.text instruction_domain instruction
    ok (record {
      context_version = resolver.context_version;
      model_manifest_digest = resolver.model_manifest_digest;
      resolved_system_instruction_digest = instruction_digest;
      tool_registry_root_digest = snapshot.root_digest;
      bound_tool_digests =
          canonical_digests (map (λ t. t.tool_manifest_digest) snapshot.bound_tools);
      protocol_schema_digest = resolver.protocol_schema_digest;
      policy_epoch = resolver.policy_epoch;
      memory_generation = none;
      retrieval_index_generation = none;
    })
