-- ===== src/Scenario.antt =====
-- A concrete run for the examples: capabilities are numbers, of which 0 is the forbidden one, a
-- key signs with 64 copies of itself, and a digest is the length of what is hashed.
pub mod Kernels
pub mod Runtimes
pub mod RuntimeExamples
pub mod KernelExamples
pub mod Calls
pub mod CallExamples
pub mod StoreExamples
pub mod DigestExamples
use genesis_runtime.Common.{
  List, Option, [], length, list_eq, nat_eq, none, ok, option_eq, some, suc, true, zero, ℕ,
  ℕ_discrete, ◌==◌, ◌∷◌,
}
use genesis_runtime.Ids.{LeaseId, codes, identifier_eq}
use genesis_runtime.Json.{Host, Value, string}
use genesis_runtime.Digest.{digest_eq}
use genesis_runtime.Mission.{Capability, MissionEnvelope}
use genesis_runtime.Identity.{IdentityCodec, KeyCustody, VerifyingKey, verifying_key}
use genesis_runtime.Authority.{
  AuthorityCodec, AuthoritySet, CapabilityManifest, active, bound_tool_eq, lease_ref_eq,
}
use genesis_runtime.Kernel.{DelegationRequest, RootLeaseRequest}

unfoldable pub repeat_key : ℕ → ℕ → List ℕ
repeat_key zero key = []
repeat_key (suc n) key = key ∷ repeat_key n key

abbrev pub key_of : List ℕ → Option ℕ
key_of [] = none
key_of (key ∷ rest) = some key

abbrev pub text_of : Value → List ℕ
text_of (string s) = s
text_of _ = []

instance abbrev pub toy_host : Host
toy_host = record {
  Capability = ℕ;
  capability_all = 0;
  capability_dec = ℕ_discrete;
  is_subset_of = λ a b. a == b;
  capability_serialize = record { to_value = λ c. some (string (c ∷ [])) };
  VerifyingKey = ℕ;
  key_from_bytes = key_of;
  key_to_bytes = λ key. key ∷ [];
  verify = λ key payload signature. signature == repeat_key 64 key;
  sha256 = λ bytes. length bytes ∷ [];
  to_vec = λ v. some (text_of v);
}

instance abbrev pub toy_identity_codec : IdentityCodec
toy_identity_codec = record {
  certificate = record { to_value = λ c. some (string c.agent_id.bytes) };
  payload = record { to_value = λ p. some (string p.agent_id.bytes) };
}

instance abbrev pub toy_codec : AuthorityCodec
toy_codec = record {
  manifest = record { to_value = λ m. some (string (m.version ∷ [])) };
  certificate = record { to_value = λ c. some (string c.lease_id.bytes) };
  payload = record { to_value = λ p. some (string p.lease_id.bytes) };
}

abbrev pub custody_of : ℕ → KeyCustody
custody_of key = record {
  key_id = record { bytes = key ∷ [] };
  verifying_key = key;
  sign = λ payload. ok (repeat_key 64 key);
}

abbrev pub small_manifest : ℕ → CapabilityManifest
small_manifest capability = record {
  version = 1;
  model_manifest_digest = record { bytes = [] };
  approved_tools = [];
  permissions = record { capabilities = capability ∷ [] };
  runtime_config_digest = record { bytes = [] };
  tool_registry_root_digest = record { bytes = [] };
}

abbrev pub one_capability : ℕ → AuthoritySet
one_capability capability = record { capabilities = capability ∷ [] }

abbrev pub small_mission : MissionEnvelope
small_mission = record {
  mission_id = record { bytes = codes "m" };
  allowed_tools = [];
  allowed_capabilities = 7 ∷ [];
  policy_epoch = 1;
  organization_version = 1;
  active = true;
  expires_at = 1000;
  max_actions = 3;
}

abbrev pub root_request : RootLeaseRequest
root_request = record {
  mission = small_mission;
  agent_id = record { bytes = codes "a" };
  granted_authority = one_capability 7;
  delegable_authority = one_capability 7;
  capability_manifest = small_manifest 7;
  semantic_context_digest = record { bytes = [] };
  expires_at = 900;
}

-- The identifiers made from the texts "1" and "2".
abbrev pub root_id : LeaseId
root_id = record { bytes = codes "lease-1" }

abbrev pub child_id : LeaseId
child_id = record { bytes = codes "lease-2" }

abbrev pub child_request : DelegationRequest
child_request = record {
  parent_lease_id = root_id;
  expected_parent_generation = 0;
  child_agent_id = record { bytes = codes "b" };
  granted_authority = one_capability 7;
  delegable_authority = one_capability 7;
  capability_manifest = small_manifest 7;
  semantic_context_digest = record { bytes = [] };
  expires_at = 800;
}
