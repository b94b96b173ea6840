-- ===== src/Registry/Lookup.antt =====
-- Every tool of a registry is found (crates/aeon_agent_runtime/src/tool_registry.rs).
use genesis_runtime.Common.{
  ==_iff, >>=-eq-ok, Bool, List, [], any, arith, duplicate_tool, false, find, list_eq, nat_eq, ok,
  ok-inj, option_eq, refl, refuse_if, refuse_if-ok, repeats, some, true, ◌++◌, ◌==◌, ◌∷◌, ◌≡◌,
}
use genesis_runtime.Ids.{identifier_eq}
use genesis_runtime.Json.{Host}
use mathlib.Core.Path.{sym}
use genesis_runtime.Registry.{RegisteredTool, find_tool, from_tools, resolve}

module _ ⦃h : Host⦄ where
  -- The test of `from_tools` between a tool and an earlier one.
  abbrev same_id : RegisteredTool → RegisteredTool → Bool
  same_id a b = b.manifest.tool_id == a.manifest.tool_id

  repeats-find :
      (seen before after : List RegisteredTool) (tool : RegisteredTool)
      → repeats same_id seen (before ++ tool ∷ after) ≡ false
      → (any (same_id tool) seen ≡ false)
        × (find (same_id tool) (before ++ tool ∷ after) ≡ some tool)
  unfolding repeats find any
  repeats-find seen [] after tool q =
      let same : (tool.manifest.tool_id == tool.manifest.tool_id) ≡ true =
        (==_iff tool.manifest.tool_id tool.manifest.tool_id).1 refl in
      (ground (arith, q), rw same refl)
  repeats-find seen (x ∷ before) after tool q =
      let (none_seen, found) = repeats-find (x ∷ seen) before after tool (ground (arith, q)) in
      let other : same_id tool x ≡ false = ground (arith, none_seen) in
      (ground (arith, none_seen), rw other found)

  -- A registry that `from_tools` accepts keeps the tools in their order, and each of them is
  -- what its identifier resolves to.
  pub from_tools-resolve :
      (tools registry before after : List RegisteredTool) (tool : RegisteredTool)
      → from_tools tools ≡ ok registry
      → tools ≡ before ++ tool ∷ after
      → (registry ≡ tools) × (resolve registry tool.manifest.tool_id ≡ ok tool)
  unfolding from_tools resolve find_tool
  from_tools-resolve tools registry before after tool q split =
      let (_, distinct, q1) = >>=-eq-ok (refuse_if (repeats same_id [] tools) duplicate_tool) _ q in
      let alone = refuse_if-ok (repeats same_id [] tools) duplicate_tool distinct in
      let same : tools ≡ registry = ok-inj q1 in
      let found = (repeats-find [] before after tool (rw split at alone)).1 in
      (cc, rw (sym same, split, found) refl)
