-- ===== src/Authority/Sets.antt =====
-- Canonical capability lists and authority sets (crates/aeon_agent_runtime/src/authority.rs).
use genesis_runtime.Common.{
  Bool, List, Result, [], all, any, canonical_serialization, capability_all_forbidden, collect,
  if◌then◌else◌, list_eq, map, nat_eq, ok, ok_or, option_eq, refuse_if, sort_by, ℕ, ◌==◌, ◌>>=◌,
  ◌>>◌, ◌∷◌,
}
use genesis_runtime.Ids.{bytes_le, identifier_eq}
use genesis_runtime.Json.{Host}
use genesis_runtime.Digest.{canonical_value_bytes, digest_eq}
use genesis_runtime.Mission.{Capability, same_capability}
use genesis_runtime.Authority.{AuthoritySet, bound_tool_eq, lease_ref_eq}

module _ ⦃h : Host⦄ where
  unfoldable pub is_capability_all : Capability → Bool
  is_capability_all capability = same_capability capability h.capability_all

  abbrev pub Keyed : Type 0
  Keyed = List ℕ × Capability

  unfoldable pub key_capability : Capability → Result Keyed
  key_capability capability = do
    value ← ok_or (h.capability_serialize.to_value capability) canonical_serialization
    bytes ← canonical_value_bytes value
    ok (bytes, capability)

  unfoldable pub drop_same : Keyed → List Keyed → List Keyed
  drop_same x [] = x ∷ []
  drop_same x (y ∷ rest) = if x.0 == y.0 then x ∷ rest else x ∷ y ∷ rest

  -- `dedup_by` on the keys: of neighbours with one key the first is kept.
  unfoldable pub dedup_keyed : List Keyed → List Keyed
  unfolding drop_same
  dedup_keyed [] = []
  dedup_keyed (x ∷ xs) = drop_same x (dedup_keyed xs)

  unfoldable pub keyed_le : Keyed → Keyed → Bool
  keyed_le x y = bytes_le x.0 y.0

  unfoldable pub canonical_capabilities : List Capability → Result (List Capability)
  unfolding key_capability dedup_keyed keyed_le
  canonical_capabilities capabilities = do
    keyed ← collect key_capability capabilities
    ok (map (λ k. k.1) (dedup_keyed (sort_by keyed_le keyed)))

  -- `AuthoritySet::new`
  unfoldable pub authority_set : List Capability → Result AuthoritySet
  authority_set capabilities = do
    refuse_if (any is_capability_all capabilities) capability_all_forbidden
    canonical ← canonical_capabilities capabilities
    ok (record { capabilities = canonical })

  unfoldable pub covers_any : List Capability → Capability → Bool
  covers_any parent required = any (λ granted. h.is_subset_of required granted) parent

  -- `AuthoritySet::covers`
  unfoldable pub covers : AuthoritySet → Capability → Bool
  unfolding covers_any
  covers set required = covers_any set.capabilities required

  -- `AuthoritySet::is_subset_of`
  unfoldable pub set_is_subset_of : AuthoritySet → AuthoritySet → Bool
  unfolding covers
  set_is_subset_of set parent = all (covers parent) set.capabilities
