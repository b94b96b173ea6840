-- ===== src/Scenario/DigestExamples.antt =====
-- Examples: the framing of what is hashed (crates/aeon_agent_runtime/src/digest.rs).
use genesis_runtime.Common.{arith, list_eq, nat_eq, option_eq, refl, ◌≡◌}
use genesis_runtime.Ids.{codes, identifier_eq}
use genesis_runtime.Digest.{digest_eq}
use genesis_runtime.Digest.Framing.{frame-inj}

frame-inj_example : (codes "d" ≡ codes "d") × (codes "v" ≡ codes "v")
frame-inj_example =
    frame-inj (codes "d") (codes "d") (codes "v") (codes "v") (omega arith) (omega arith) refl
