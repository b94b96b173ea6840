-- ===== src/Kernel/Chain/IdentityDepth.antt =====
-- The loop of `validate_identity_chain` ends by its own test of the depth, before its fuel is used
-- up (crates/aeon_agent_runtime/src/authority_kernel/validation.rs).
use mathlib.Core.Path.{ap}
use genesis_runtime.Common.{
  >>=-cong, Bool-cases, List, Option, Result, [], arith, contains, get, identity_invalid, inl, inr,
  leb, length, list_eq, nat_eq, none, ok, ok_or, option_eq, refl, refuse_if, some, suc, zero, ℕ,
  ◌+◌, ◌<◌, ◌>>=◌, ◌>>◌, ◌∷◌, ◌≡◌, ◌≤◌,
}
use genesis_runtime.Ids.{AgentId, identifier_eq}
use genesis_runtime.Json.{Host}
use genesis_runtime.Identity.{AgentIdentityCertificate, IdentityCodec}
use genesis_runtime.Authority.{bound_tool_eq, lease_ref_eq}
use genesis_runtime.Kernel.{AuthorityState, max_authority_chain_depth}
use genesis_runtime.Kernel.Chain.{check_issued_identity, check_root_identity, climb_identities}

module _ ⦃h : Host⦄ ⦃identity_codec : IdentityCodec⦄ where
  module _ (st : AuthorityState) (validated : List AgentId) where
    -- The end of a round at `current`.
    abbrev onward :
        ℕ
        → List AgentId
        → AgentId
        → AgentIdentityCertificate
        → Option AgentId
        → Result (List AgentId)
    onward fuel visited current identity none = do check_root_identity identity; ok (current ∷ [])
    onward fuel visited current identity (some issuer) = do
      refuse_if (leb max_authority_chain_depth (length visited)) identity_invalid
      check_issued_identity st identity issuer
      above ← climb_identities fuel st validated visited issuer
      ok (current ∷ above)

    same_onward :
        (f g : ℕ) (visited : List AgentId) (current : AgentId) (identity : AgentIdentityCertificate)
        (o : Option AgentId)
        → ((issuer : AgentId)
            → length visited < 32
            → climb_identities f st validated visited issuer
              ≡ climb_identities g st validated visited issuer)
        → onward f visited current identity o ≡ onward g visited current identity o
    same_onward f g visited current identity none more = refl
    same_onward f g visited current identity (some issuer) more =
        elim (Bool-cases (leb max_authority_chain_depth (length visited))) [
          | inl deep ↦ rw deep refl
          | inr shallow ↦ rw shallow (
              >>=-cong (check_issued_identity st identity issuer) (λ _.
                ap (λ r. r >>= (λ above. ok (current ∷ above)))
                  (more issuer (ground (arith, shallow)))))
        ]

    same_climb :
        (f g : ℕ) (visited : List AgentId) (current : AgentId)
        → 32 ≤ length visited + f
        → 32 ≤ length visited + g
        → length visited < 32
        → climb_identities f st validated visited current
          ≡ climb_identities g st validated visited current
    unfolding climb_identities
    same_climb zero g visited current a b c = absurd (omega arith)
    same_climb (suc f) zero visited current a b c = absurd (omega arith)
    same_climb (suc f) (suc g) visited current a b c =
        elim (Bool-cases (contains validated current)) [
          | inl known ↦ rw known refl
          | inr unknown ↦ rw unknown (
              >>=-cong (refuse_if (contains visited current) identity_invalid) (λ _.
                >>=-cong (ok_or (get current st.identities) identity_invalid) (λ identity.
                  same_onward f g (current ∷ visited) current identity identity.issuer_agent_id
                    (λ issuer d.
                      same_climb f g (current ∷ visited) issuer (omega arith) (omega arith) d))))
        ]

    -- The fuel of 32 is enough for the loop over the identities too: with any larger amount it
    -- returns the same, whatever the identities that are registered.
    pub climb_identities-fuel :
        (fuel : ℕ) (leaf : AgentId)
        → max_authority_chain_depth ≤ fuel
        → climb_identities fuel st validated [] leaf
          ≡ climb_identities max_authority_chain_depth st validated [] leaf
    climb_identities-fuel fuel leaf enough =
        same_climb fuel 32 [] leaf (omega arith) (omega arith) (omega arith)
