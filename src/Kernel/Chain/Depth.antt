-- ===== src/Kernel/Chain/Depth.antt =====
-- The loop of `validate_chain` ends by its own test of the depth, before its fuel is used up
-- (crates/aeon_agent_runtime/src/authority_kernel/validation.rs).
use genesis_runtime.Common.{
  >>=-cong, Bool-cases, List, Option, Result, [], arith, contains, delegation_invalid, get,
  if◌then◌else◌, inl, inr, leb, length, list_eq, nat_eq, none, ok, ok_or, option_eq, refl,
  refuse_if, some, suc, zero, ℕ, ◌+◌, ◌<◌, ◌==◌, ◌>>◌, ◌∷◌, ◌≡◌, ◌≤◌,
}
use genesis_runtime.Ids.{AgentId, LeaseId, identifier_eq}
use genesis_runtime.Json.{Host}
use genesis_runtime.Mission.{DateTime}
use genesis_runtime.Identity.{IdentityCodec}
use genesis_runtime.Authority.{AuthorityCodec, LeaseRef, bound_tool_eq, lease_ref_eq}
use genesis_runtime.Kernel.{AuthorityState, max_authority_chain_depth}
use genesis_runtime.Kernel.Checks.{validate_active_record}
use genesis_runtime.Kernel.Chain.{Link, climb_leases, validate_certificate_entry}

module _ ⦃h : Host⦄ ⦃identity_codec : IdentityCodec⦄ ⦃codec : AuthorityCodec⦄ where
  module _ (st : AuthorityState) (leaf : LeaseId) (expected : Option ℕ) (now : DateTime) where
    -- The end of a round, with the entries that it has.
    abbrev onward :
        ℕ → List LeaseId → List AgentId → List Link → Option LeaseRef → Result (List Link)
    onward fuel visited validated acc none = ok acc
    onward fuel visited validated acc (some parent) = do
      refuse_if (leb max_authority_chain_depth (length acc)) delegation_invalid
      climb_leases st leaf expected now fuel visited validated acc parent.lease_id

    same_onward :
        (f g : ℕ) (visited : List LeaseId) (validated : List AgentId) (acc : List Link)
        (o : Option LeaseRef)
        → ((current : LeaseId)
            → length acc < 32
            → climb_leases st leaf expected now f visited validated acc current
              ≡ climb_leases st leaf expected now g visited validated acc current)
        → onward f visited validated acc o ≡ onward g visited validated acc o
    same_onward f g visited validated acc none more = refl
    same_onward f g visited validated acc (some parent) more =
        elim (Bool-cases (leb max_authority_chain_depth (length acc))) [
          | inl deep ↦ rw deep refl
          | inr shallow ↦ rw shallow (more parent.lease_id (ground (arith, shallow)))
        ]

    same_climb :
        (f g : ℕ) (visited : List LeaseId) (validated : List AgentId) (acc : List Link)
        (current : LeaseId)
        → 32 ≤ length acc + f
        → 32 ≤ length acc + g
        → length acc < 32
        → climb_leases st leaf expected now f visited validated acc current
          ≡ climb_leases st leaf expected now g visited validated acc current
    unfolding climb_leases
    same_climb zero g visited validated acc current a b c = absurd (omega arith)
    same_climb (suc f) zero visited validated acc current a b c = absurd (omega arith)
    same_climb (suc f) (suc g) visited validated acc current a b c =
        >>=-cong (refuse_if (contains visited current) delegation_invalid) (λ _.
          >>=-cong (ok_or (get current st.leases) delegation_invalid) (λ entry.
            >>=-cong (validate_active_record entry (if current == leaf then expected else none) now)
              (λ _. >>=-cong (validate_certificate_entry st entry validated) (λ validated'.
                same_onward f g (current ∷ visited) validated' ((current, entry) ∷ acc)
                  entry.certificate.parent_lease
                  (λ parent d.
                    same_climb f g (current ∷ visited) validated' ((current, entry) ∷ acc) parent
                      (omega arith) (omega arith) d)))))

    -- The fuel of 32 is enough: with any larger amount the loop returns the same, whatever the
    -- leases that are stored, since it refuses a chain deeper than 32 by a test of its own.
    pub climb_leases-fuel :
        (fuel : ℕ)
        → max_authority_chain_depth ≤ fuel
        → climb_leases st leaf expected now fuel [] [] [] leaf
          ≡ climb_leases st leaf expected now max_authority_chain_depth [] [] [] leaf
    climb_leases-fuel fuel enough =
        same_climb fuel 32 [] [] [] leaf (omega arith) (omega arith) (omega arith)
