-- ===== src/Registry.antt =====
-- The trusted tool registry: manifests, registered tools and the bindings of a capability
-- manifest (crates/aeon_agent_runtime/src/tool_registry.rs). The registry under its lock is the
-- list of its tools.
pub mod Bindings
pub mod Refresh
pub mod Lookup
use genesis_runtime.Common.{
  Bool, List, Option, Result, [], collect, duplicate_tool, find, if◌then◌else◌, invalid_input,
  length, list_eq, nat_eq, none, ok, ok_or, option_eq, refuse_if, repeats, some, sort_by,
  unknown_tool, ℕ, ◌==◌, ◌>>=◌, ◌>>◌, ◌||◌, ◌∷◌,
}
use genesis_runtime.Texts.{is_blank}
use genesis_runtime.Ids.{ToolId, bytes_le, codes, identifier_eq}
use genesis_runtime.Json.{
  Host, Items, Serialize, Value, array, cons, end, field, nil, object, string,
}
use genesis_runtime.Digest.{Digest, canonical_digest, digest_eq, hex_bytes, to_hex}
use genesis_runtime.Mission.{Capability, same_capability}
use genesis_runtime.Authority.{BoundTool, bound_tool_eq, lease_ref_eq}
use genesis_runtime.Store.{EffectClass}
use genesis_runtime.Schema.{validate_instance, validate_schema_definition}
use genesis_runtime.Nexus.{Nexus}
use mathlib.Core.Option

abbrev pub input_schema_domain : List ℕ
input_schema_domain = codes "aeon-tool-input-schema-v1"

abbrev pub output_schema_domain : List ℕ
output_schema_domain = codes "aeon-tool-output-schema-v1"

abbrev pub tool_manifest_domain : List ℕ
tool_manifest_domain = codes "aeon-tool-manifest-v1"

abbrev pub registry_root_domain : List ℕ
registry_root_domain = codes "aeon-tool-registry-root-v1"

-- The derived `Ord` of texts, for `serialized.sort()` and `sort_by_key`.
abbrev pub text_le : List ℕ → List ℕ → Bool
text_le a b = bytes_le a b

module _ ⦃h : Host⦄ where
  pub record ToolManifest : Type 0 where
    pub version : ℕ
    pub tool_id : ToolId
    pub wasm_sha256 : List ℕ
    pub entry_point : List ℕ
    pub input_schema_digest : Digest
    pub required_capabilities : List Capability
    pub effect_class : EffectClass
    pub output_schema_digest : Option Digest

  pub record RegisteredTool : Type 0 where
    pub manifest : ToolManifest
    pub wasm_bytes : List ℕ
    pub input_schema : Value
    pub output_schema : Option Value

  -- What serde_json is called for: the derived serializer of a manifest, `to_string` and
  -- `from_str` of a capability, the serializer of a `Value` and its `to_string`.
  pub record ToolCodec : Type 0 where
    pub manifest : Serialize ToolManifest
    pub capability_text : Capability → Option (List ℕ)
    pub capability_of_text : List ℕ → Option Capability
    pub value : Serialize Value
    pub value_text : Value → List ℕ

  -- `dedup` on capabilities.
  unfoldable pub drop_equal_capability : Capability → List Capability → List Capability
  drop_equal_capability c [] = c ∷ []
  drop_equal_capability c (d ∷ rest) = if same_capability c d then c ∷ rest else c ∷ d ∷ rest

  unfoldable pub dedup_capabilities : List Capability → List Capability
  unfolding drop_equal_capability
  dedup_capabilities [] = []
  dedup_capabilities (c ∷ cs) = drop_equal_capability c (dedup_capabilities cs)

  unfoldable pub hex_sha256 : List ℕ → List ℕ
  unfolding hex_bytes
  hex_sha256 bytes = hex_bytes (h.sha256 bytes)

  -- `RegisteredTool::validate_input`
  unfoldable pub validate_input : RegisteredTool → Value → Result (Unit {0})
  unfolding validate_instance
  validate_input tool input = validate_instance tool.input_schema input

  -- `RegisteredTool::tool_definition`
  unfoldable pub tool_definition : ⦃nexus : Nexus⦄ → RegisteredTool → nexus.ToolDefinition
  tool_definition ⦃nexus⦄ tool =
      nexus.with_input_schema
        (nexus.with_capabilities
          (nexus.with_entry (nexus.new_definition tool.manifest.tool_id.bytes tool.wasm_bytes)
            tool.manifest.entry_point)
          tool.manifest.required_capabilities)
        tool.input_schema

  pub record RegistrySnapshot : Type 0 where
    pub resolved_tools : List RegisteredTool
    pub bound_tools : List BoundTool
    pub root_digest : Digest

  -- `ToolRegistry::from_tools`: a tool is compared with those before it.
  unfoldable pub from_tools : List RegisteredTool → Result (List RegisteredTool)
  unfolding repeats
  from_tools tools = do
    refuse_if (repeats (λ a b. b.manifest.tool_id == a.manifest.tool_id) [] tools) duplicate_tool
    ok tools

  unfoldable pub find_tool : List RegisteredTool → ToolId → Option RegisteredTool
  unfolding find
  find_tool tools tool_id = find (λ tool. tool.manifest.tool_id == tool_id) tools

  -- `ToolRegistry::resolve`
  unfoldable pub resolve : List RegisteredTool → ToolId → Result RegisteredTool
  unfolding find_tool
  resolve tools tool_id = ok_or (find_tool tools tool_id) unknown_tool

  module _ ⦃codec : ToolCodec⦄ where
    -- `sort_capabilities`
    unfoldable pub sort_capabilities : List Capability → Result (List Capability)
    unfolding dedup_capabilities
    sort_capabilities capabilities = do
      serialized ← collect (λ c. ok_or (codec.capability_text c) invalid_input) capabilities
      sorted ←
          collect (λ t. ok_or (codec.capability_of_text t) invalid_input)
            (sort_by text_le serialized)
      ok (dedup_capabilities sorted)

    -- `as_ref().map(..).transpose()?`
    unfoldable pub output_digest : Option Value → Result (Option Digest)
    output_digest none = ok none
    output_digest (some schema) = do
      digest ← canonical_digest codec.value output_schema_domain schema
      ok (some digest)

    abbrev pub validate_output_schema : Option Value → Result (Unit {0})
    validate_output_schema none = ok tt
    validate_output_schema (some schema) = validate_schema_definition schema

    -- `ToolManifest::new`
    unfoldable pub new_manifest :
        ℕ
        → ToolId
        → List ℕ
        → List ℕ
        → Value
        → List Capability
        → EffectClass
        → Option Value
        → Result ToolManifest
    unfolding sort_capabilities output_digest hex_sha256 validate_schema_definition
    new_manifest version tool_id wasm entry_point input_schema capabilities effect output_schema =
        do
          refuse_if (version == 0 || length wasm == 0 || is_blank entry_point) invalid_input
          validate_schema_definition input_schema
          validate_output_schema output_schema
          required ← sort_capabilities capabilities
          input_digest ← canonical_digest codec.value input_schema_domain input_schema
          output ← output_digest output_schema
          ok (record {
            version = version;
            tool_id = tool_id;
            wasm_sha256 = hex_sha256 wasm;
            entry_point = entry_point;
            input_schema_digest = input_digest;
            required_capabilities = required;
            effect_class = effect;
            output_schema_digest = output;
          })

    -- `ToolManifest::canonical_digest`
    unfoldable pub tool_manifest_digest : ToolManifest → Result Digest
    tool_manifest_digest m = do
      required ← sort_capabilities m.required_capabilities
      canonical_digest codec.manifest tool_manifest_domain
          (record m { required_capabilities = required })

    -- `RegisteredTool::new`
    unfoldable pub new_tool :
        ToolId
        → List ℕ
        → List ℕ
        → Value
        → List Capability
        → EffectClass
        → Option Value
        → Result RegisteredTool
    unfolding new_manifest
    new_tool tool_id wasm entry_point input_schema capabilities effect output_schema = do
      manifest ←
          new_manifest 1 tool_id wasm entry_point input_schema capabilities effect output_schema
      ok (record {
        manifest = manifest;
        wasm_bytes = wasm;
        input_schema = input_schema;
        output_schema = output_schema;
      })

    -- `RegisteredTool::manifest_digest`
    unfoldable pub digest_of_tool : RegisteredTool → Result Digest
    unfolding tool_manifest_digest
    digest_of_tool tool = tool_manifest_digest tool.manifest

    unfoldable pub items_of : List Value → Items
    items_of [] = Items.nil
    items_of (v ∷ vs) = Items.cons v (items_of vs)

    -- The `json!` of one tool, its keys in the order of a `Map`.
    unfoldable pub root_entry : RegisteredTool → Result Value
    unfolding digest_of_tool to_hex
    root_entry tool = do
      digest ← digest_of_tool tool
      ok (
          object (
            field (codes "manifest_digest") (string (to_hex digest))
              (field (codes "tool_id") (string tool.manifest.tool_id.bytes) end)))

    -- `root_digest_for_tools`. A `Vec<Value>` serializes as the array of its values.
    unfoldable pub root_digest_for_tools : List RegisteredTool → Result Digest
    unfolding root_entry items_of
    root_digest_for_tools tools = do
      entries ← collect root_entry tools
      canonical_digest codec.value registry_root_domain (
          array
            (items_of (sort_by (λ a b. text_le (codec.value_text a) (codec.value_text b)) entries)))
