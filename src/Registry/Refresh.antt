-- ===== src/Registry/Refresh.antt =====
-- Resolving and refreshing bound tools (crates/aeon_agent_runtime/src/tool_registry.rs).
use genesis_runtime.Common.{
  ==_iff, >>=-eq-ok, Bool, Bool-cases, List, Option-cases, Result, [], arith, collect, find, inl,
  inr, list_eq, map, nat_eq, none, ok, ok-inj, ok_or-eq_ok, option_eq, refl, some, subst, true,
  unknown_tool, ◌==◌, ◌∷◌, ◌≡◌,
}
use genesis_runtime.Ids.{ToolId, identifier_eq}
use genesis_runtime.Json.{Host}
use genesis_runtime.Digest.{digest_eq}
use genesis_runtime.Authority.{BoundTool, CapabilityManifest, bound_tool_eq, lease_ref_eq}
use genesis_runtime.Registry.{
  RegisteredTool, RegistrySnapshot, ToolCodec, digest_of_tool, find_tool, resolve,
  root_digest_for_tools,
}
use genesis_runtime.Registry.Bindings.{
  bind_tool, refresh_capability_manifest, resolve_with_capability_manifest, snapshot_for_tools,
}
use mathlib.Core.Path.{sym, ◌∙◌, ap}

find-holds {ℓ} : {A : Type ℓ} (p : A → Bool) (xs : List A) (x : A) → find p xs ≡ some x → p x ≡ true
unfolding find
find-holds p [] x q = absurd (cc)
find-holds p (y ∷ xs) x q = elim (Bool-cases (p y)) [
  | inl hit ↦ ground (arith, hit, q)
  | inr miss ↦ find-holds p xs x (ground (arith, miss, q))
]

-- What each element of a collected list is to its source.
collect-map {ℓ} :
    {A B C : Type ℓ} (f : A → Result B) (g : B → C) (k : A → C) (xs : List A) (ys : List B)
    → ((a : A) (b : B) → f a ≡ ok b → g b ≡ k a)
    → collect f xs ≡ ok ys
    → map g ys ≡ map k xs
unfolding collect
collect-map f g k [] ys each q = ap (map g) (sym (ok-inj q))
collect-map f g k (x ∷ xs) ys each q =
    let (y, one, q1) = >>=-eq-ok (f x) _ q in
    let (rest, others, q2) = >>=-eq-ok (collect f xs) _ q1 in
    ap (map g) (sym (ok-inj q2)) ∙ cc (each x y one, collect-map f g k xs rest each others)

map_same {ℓ} : {A : Type ℓ} (xs : List A) → map (λ x. x) xs ≡ xs
map_same [] = refl
map_same (x ∷ xs) = ap (λ rest. x ∷ rest) (map_same xs)

module _ ⦃h : Host⦄ where
  resolve-named :
      (tools : List RegisteredTool) (tool_id : ToolId) (tool : RegisteredTool)
      → resolve tools tool_id ≡ ok tool
      → tool.manifest.tool_id ≡ tool_id
  unfolding resolve find_tool
  resolve-named tools tool_id tool q = elim (Option-cases (find_tool tools tool_id)) [
    | inl miss ↦ absurd (cc (rw miss at q))
    | inr (t, found) ↦
        let same : t ≡ tool = ok-inj (rw found at q) in
        let hit = find-holds _ tools t found in
        ap (λ (x : RegisteredTool). x.manifest.tool_id) (sym same) ∙ (==_iff _ tool_id).0 hit
  ]

  module _ ⦃codec : ToolCodec⦄ where
    bind_tool-named :
        (tool : RegisteredTool) (bound : BoundTool)
        → bind_tool tool ≡ ok bound
        → (bound.tool_id ≡ tool.manifest.tool_id)
          × (digest_of_tool tool ≡ ok bound.tool_manifest_digest)
    unfolding bind_tool
    bind_tool-named tool bound q =
        let (digest, digested, q1) = >>=-eq-ok (digest_of_tool tool) _ q in
        let same = ok-inj q1 in
        (
          ap (λ (b : BoundTool). b.tool_id) (sym same),
          digested ∙ ap (λ (b : BoundTool). ok b.tool_manifest_digest) same,
        )

    -- The parts of a snapshot.
    record Snapped (tools : List RegisteredTool) (tool_ids : List ToolId) (s : RegistrySnapshot)
        : Type 0 where
      resolved : collect (resolve tools) tool_ids ≡ ok s.resolved_tools
      bound : collect bind_tool s.resolved_tools ≡ ok s.bound_tools
      root : root_digest_for_tools tools ≡ ok s.root_digest

    snapshot_for_tools-Snapped :
        (tools : List RegisteredTool) (tool_ids : List ToolId) (s : RegistrySnapshot)
        → snapshot_for_tools tools tool_ids ≡ ok s
        → Snapped tools tool_ids s
    unfolding snapshot_for_tools
    snapshot_for_tools-Snapped tools tool_ids s q =
        let (resolved, a, q1) = >>=-eq-ok (collect (resolve tools) tool_ids) _ q in
        let (bound, b, q2) = >>=-eq-ok (collect bind_tool resolved) _ q1 in
        let (root, c, q3) = >>=-eq-ok (root_digest_for_tools tools) _ q2 in
        let same = ok-inj q3 in rw (sym same) (record { resolved = a; bound = b; root = c })

    snapshot-ids :
        (tools : List RegisteredTool) (tool_ids : List ToolId) (s : RegistrySnapshot)
        → Snapped tools tool_ids s
        → map (λ b. b.tool_id) s.bound_tools ≡ tool_ids
    snapshot-ids tools tool_ids s q =
        collect-map bind_tool (λ b. b.tool_id) (λ t. t.manifest.tool_id) s.resolved_tools
          s.bound_tools (λ t b e. (bind_tool-named t b e).0) q.bound
        ∙ collect-map (resolve tools) (λ t. t.manifest.tool_id) (λ i. i) tool_ids s.resolved_tools
            (λ i t e. resolve-named tools i t e) q.resolved
        ∙ map_same tool_ids

    -- What a snapshot binds an identifier to.
    bound-resolves :
        (tools : List RegisteredTool) (ids : List ToolId) (ts : List RegisteredTool)
        (bs : List BoundTool) (x : ToolId) (b : BoundTool)
        → collect (resolve tools) ids ≡ ok ts
        → collect bind_tool ts ≡ ok bs
        → find (λ y. y.tool_id == x) bs ≡ some b
        → (t : RegisteredTool) × (resolve tools x ≡ ok t)
          × (digest_of_tool t ≡ ok b.tool_manifest_digest)
    unfolding collect find
    bound-resolves tools [] ts bs x b q r found =
        let none_left : ts ≡ [] = sym (ok-inj q) in
        let none_bound : bs ≡ [] = sym (ok-inj (rw none_left at r)) in
        absurd (cc (rw none_bound at found))
    bound-resolves tools (id ∷ ids) ts bs x b q r found =
        let (t, one, q1) = >>=-eq-ok (resolve tools id) _ q in
        let (rest, others, q2) = >>=-eq-ok (collect (resolve tools) ids) _ q1 in
        let (first, bound, r1) = >>=-eq-ok (bind_tool t) _ (rw (sym (ok-inj q2)) at r) in
        let (later, after, r2) = >>=-eq-ok (collect bind_tool rest) _ r1 in
        let here = rw (sym (ok-inj r2)) at found in
        let (named, digested) = bind_tool-named t first bound in
        elim (Bool-cases (first.tool_id == x)) [
          | inl hit ↦
              let same : first ≡ b = ground (arith, hit, here) in
              let this : id ≡ x =
                sym (resolve-named tools id t one) ∙ sym named ∙ (==_iff _ x).0 hit in
              (
                t,
                rw (sym this) one,
                digested ∙ ap (λ (y : BoundTool). ok y.tool_manifest_digest) same,
              )
          | inr miss ↦
              bound-resolves tools ids rest later x b others after (ground (arith, miss, here))
        ]

    -- What bindings say of an identifier: nothing, or the digest of the tool that the registry
    -- holds under it.
    pub data BoundNow (tools : List RegisteredTool) (bs : List BoundTool) (x : ToolId)
        : Type 0 where
      unbound : find (λ y. y.tool_id == x) bs ≡ none → BoundNow tools bs x
      bound_to :
          (b : BoundTool) (t : RegisteredTool)
          → find (λ y. y.tool_id == x) bs ≡ some b
          → find_tool tools x ≡ some t
          → digest_of_tool t ≡ ok b.tool_manifest_digest
          → BoundNow tools bs x

    snapshot-BoundNow :
        (tools : List RegisteredTool) (ids : List ToolId) (s : RegistrySnapshot) (x : ToolId)
        → Snapped tools ids s
        → BoundNow tools s.bound_tools x
    unfolding resolve
    snapshot-BoundNow tools ids s x q =
        elim (Option-cases (find (λ y. y.tool_id == x) s.bound_tools)) [
          | inl missing ↦ unbound missing
          | inr (b, found) ↦
              let (t, there, digested) =
                bound-resolves tools ids s.resolved_tools s.bound_tools x b q.resolved q.bound
                  found in
              bound_to b t found (ok_or-eq_ok (find_tool tools x) unknown_tool there) digested
        ]

    -- A refreshed manifest binds the same tools in the same order, each identifier that it binds
    -- to the digest of the tool that the registry holds under it; it has the root digest of the
    -- registry, keeps everything else, and refreshes to itself while the registry stays as it is.
    pub refresh_capability_manifest-stable :
        (tools : List RegisteredTool) (template refreshed : CapabilityManifest) (x : ToolId)
        → refresh_capability_manifest tools template ≡ ok refreshed
        → (map (λ b. b.tool_id) refreshed.approved_tools
            ≡ map (λ b. b.tool_id) template.approved_tools)
          × BoundNow tools refreshed.approved_tools x
          × (root_digest_for_tools tools ≡ ok refreshed.tool_registry_root_digest)
          × (refreshed.version ≡ template.version)
          × (refreshed.model_manifest_digest ≡ template.model_manifest_digest)
          × (refreshed.permissions ≡ template.permissions)
          × (refreshed.runtime_config_digest ≡ template.runtime_config_digest)
          × (refresh_capability_manifest tools refreshed ≡ ok refreshed)
    unfolding refresh_capability_manifest
    refresh_capability_manifest-stable tools template refreshed x q =
        let ids = map (λ (b : BoundTool). b.tool_id) template.approved_tools in
        let (s, snapped, q1) = >>=-eq-ok (snapshot_for_tools tools ids) _ q in
        let parts = snapshot_for_tools-Snapped tools ids s snapped in
        let named = snapshot-ids tools ids s parts in
        let same = ok-inj q1 in
        rw (sym same) (
          named,
          snapshot-BoundNow tools ids s x parts,
          parts.root,
          refl,
          refl,
          refl,
          refl,
          rw (named, snapped) refl,
        )

    -- What `resolve_with_capability_manifest` returns is coherent: the tool is the one that the
    -- registry holds under the identifier, and the manifest binds the tools of the template, in
    -- its order, and each identifier that it binds to the digest of the tool that the same
    -- registry holds under it, as a refresh of the template by itself does.
    pub resolve_with_capability_manifest-coherent :
        (tools : List RegisteredTool) (tool_id : ToolId) (template : CapabilityManifest)
        (tool : RegisteredTool) (live : CapabilityManifest) (x : ToolId)
        → resolve_with_capability_manifest tools tool_id template ≡ ok (tool, live)
        → (find_tool tools tool_id ≡ some tool)
          × (tool.manifest.tool_id ≡ tool_id)
          × (map (λ y. y.tool_id) live.approved_tools
              ≡ map (λ y. y.tool_id) template.approved_tools)
          × BoundNow tools live.approved_tools x
          × (refresh_capability_manifest tools template ≡ ok live)
    unfolding resolve_with_capability_manifest refresh_capability_manifest resolve
    resolve_with_capability_manifest-coherent tools tool_id template tool live x q =
        let ids = map (λ (y : BoundTool). y.tool_id) template.approved_tools in
        let (t, resolved, q1) = >>=-eq-ok (resolve tools tool_id) _ q in
        let (m, refreshed, q2) = >>=-eq-ok (refresh_capability_manifest tools template) _ q1 in
        let (s, snapped, r1) = >>=-eq-ok (snapshot_for_tools tools ids) _ refreshed in
        let parts = snapshot_for_tools-Snapped tools ids s snapped in
        let same = ok-inj q2 in
        let one = ap (λ (y : RegisteredTool × CapabilityManifest). y.0) same in
        let two = ap (λ (y : RegisteredTool × CapabilityManifest). y.1.approved_tools) same in
        let three = ap (λ (y : CapabilityManifest). y.approved_tools) (ok-inj r1) ∙ two in
        let held = ok_or-eq_ok (find_tool tools tool_id) unknown_tool resolved in
        (
          held ∙ ap some one,
          ap (λ (y : RegisteredTool). y.manifest.tool_id) (sym one)
              ∙ resolve-named tools tool_id t resolved,
          ap (map (λ (y : BoundTool). y.tool_id)) (sym three) ∙ snapshot-ids tools ids s parts,
          subst (λ bs. BoundNow tools bs x) three (snapshot-BoundNow tools ids s x parts),
          refreshed ∙ ap (λ (y : RegisteredTool × CapabilityManifest). ok y.1) same,
        )
