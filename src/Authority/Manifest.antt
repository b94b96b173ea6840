-- ===== src/Authority/Manifest.antt =====
-- The digest of a capability manifest (crates/aeon_agent_runtime/src/authority.rs).
use genesis_runtime.Common.{
  Bool, List, Result, [], capability_manifest_mismatch, contains, false, list_eq, nat_eq, option_eq,
  refuse_if, sort_by, ℕ, ◌>>=◌, ◌>>◌, ◌||◌, ◌∷◌,
}
use genesis_runtime.Ids.{ToolId, codes, identifier_eq}
use genesis_runtime.Json.{Host}
use genesis_runtime.Digest.{Digest, canonical_digest, digest_eq}
use genesis_runtime.Authority.{
  AuthorityCodec, BoundTool, CapabilityManifest, bound_tool_eq, bound_tool_le, lease_ref_eq,
}
use genesis_runtime.Authority.Sets.{canonical_capabilities}

-- Whether `tool_ids.insert` refuses one of the tools: an identifier is seen twice.
unfoldable pub has_duplicate_tool : List ToolId → List BoundTool → Bool
has_duplicate_tool seen [] = false
has_duplicate_tool seen (tool ∷ tools) =
    contains seen tool.tool_id || has_duplicate_tool (tool.tool_id ∷ seen) tools

abbrev pub manifest_domain : List ℕ
manifest_domain = codes "aeon-capability-manifest-v1"

module _ ⦃h : Host⦄ ⦃codec : AuthorityCodec⦄ where
  -- `CapabilityManifest::canonical_digest`
  unfoldable pub manifest_digest : CapabilityManifest → Result Digest
  manifest_digest m = do
    refuse_if (has_duplicate_tool [] m.approved_tools) capability_manifest_mismatch
    let approved_tools = sort_by bound_tool_le m.approved_tools
    permissions ← canonical_capabilities m.permissions.capabilities
    canonical_digest codec.manifest manifest_domain (record m {
      approved_tools = approved_tools;
      permissions = record { capabilities = permissions };
    })
