-- ===== src/Registry/Bindings.antt =====
-- Snapshots of the registry and the capability manifests that bind its tools
-- (crates/aeon_agent_runtime/src/tool_registry.rs).
use genesis_runtime.Common.{List, Result, collect, list_eq, map, nat_eq, ok, option_eq, ◌>>=◌}
use genesis_runtime.Ids.{ToolId, identifier_eq}
use genesis_runtime.Json.{Host}
use genesis_runtime.Digest.{digest_eq}
use genesis_runtime.Authority.{BoundTool, CapabilityManifest, bound_tool_eq, lease_ref_eq}
use genesis_runtime.Registry.{
  RegisteredTool, RegistrySnapshot, ToolCodec, digest_of_tool, resolve, root_digest_for_tools,
}

module _ ⦃h : Host⦄ ⦃codec : ToolCodec⦄ where
  -- The binding of one tool.
  unfoldable pub bind_tool : RegisteredTool → Result BoundTool
  unfolding digest_of_tool
  bind_tool tool = do
    digest ← digest_of_tool tool
    ok (record { tool_id = tool.manifest.tool_id; tool_manifest_digest = digest })

  unfoldable pub snapshot_for_tools : List RegisteredTool → List ToolId → Result RegistrySnapshot
  unfolding resolve bind_tool root_digest_for_tools
  snapshot_for_tools tools tool_ids = do
    resolved ← collect (resolve tools) tool_ids
    bound ← collect bind_tool resolved
    root ← root_digest_for_tools tools
    ok (record { resolved_tools = resolved; bound_tools = bound; root_digest = root })

  -- `ToolRegistry::resolve_all`
  unfoldable pub resolve_all : List RegisteredTool → List ToolId → Result (List RegisteredTool)
  unfolding snapshot_for_tools
  resolve_all tools tool_ids = do
    snapshot ← snapshot_for_tools tools tool_ids
    ok snapshot.resolved_tools

  -- The errors keep their codes: `map_err` changes a message only.
  unfoldable pub refresh_capability_manifest :
      List RegisteredTool → CapabilityManifest → Result CapabilityManifest
  unfolding snapshot_for_tools
  refresh_capability_manifest tools template = do
    snapshot ← snapshot_for_tools tools (map (λ b. b.tool_id) template.approved_tools)
    ok (record template {
      approved_tools = snapshot.bound_tools;
      tool_registry_root_digest = snapshot.root_digest;
    })

  -- `ToolRegistry::resolve_with_capability_manifest`
  unfoldable pub resolve_with_capability_manifest :
      List RegisteredTool
      → ToolId
      → CapabilityManifest
      → Result (RegisteredTool × CapabilityManifest)
  unfolding resolve refresh_capability_manifest
  resolve_with_capability_manifest tools tool_id template = do
    selected ← resolve tools tool_id
    manifest ← refresh_capability_manifest tools template
    ok (selected, manifest)
