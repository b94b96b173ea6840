-- ===== src/Kernel/Descendants/Rounds.antt =====
-- One round of the worklist loop, and the number of rounds that it needs
-- (`descendants_including` in crates/aeon_agent_runtime/src/authority_kernel/validation.rs).
use genesis_runtime.Common.{
  List, [], arith, contains, contains-append, false, if◌then◌else◌, length, length-append, list_eq,
  nat_eq, not, option_eq, refl, true, ℕ, ◌&&◌, ◌+◌, ◌<◌, ◌||◌, ◌∷◌, ◌≡◌, ◌≤◌,
}
use genesis_runtime.Ids.{LeaseId, identifier_eq}
use genesis_runtime.Kernel.Descendants.{Walk, offer, offer_all}

-- The keys that the walk has not seen.
unfoldable pub unseen : List LeaseId → List LeaseId → ℕ
unseen [] seen = 0
unseen (k ∷ ks) seen = let rest = unseen ks seen in if contains seen k then rest else rest + 1

unseen-cons-le : (ks seen : List LeaseId) (x : LeaseId) → unseen ks (x ∷ seen) ≤ unseen ks seen
unfolding unseen contains
unseen-cons-le [] seen x = omega arith
unseen-cons-le (k ∷ ks) seen x = ground (arith, unseen-cons-le ks seen x)

unseen-cons-lt :
    (ks seen : List LeaseId) (x : LeaseId)
    → contains ks x ≡ true
    → contains seen x ≡ false
    → unseen ks (x ∷ seen) < unseen ks seen
unfolding unseen contains
unseen-cons-lt [] seen x m n = cc
unseen-cons-lt (k ∷ ks) seen x m n =
    ground (arith, unseen-cons-lt ks seen x, unseen-cons-le ks seen x)

pub unseen-nil : (ks : List LeaseId) → unseen ks [] ≡ length ks
unfolding unseen contains
unseen-nil [] = refl
unseen-nil (k ∷ ks) = ground (arith, unseen-nil ks)

pub unseen-root-lt :
    (ks : List LeaseId) (x : LeaseId) → contains ks x ≡ true → unseen ks (x ∷ []) < length ks
unseen-root-lt ks x m =
    ground (arith, unseen-cons-lt ks [] x m (unfold contains in refl), unseen-nil ks)

pub result-offer_all :
    (w : Walk) (children : List LeaseId) → (offer_all w children).result ≡ w.result
unfolding offer_all offer
result-offer_all w [] = refl
result-offer_all w (c ∷ cs) = ground (arith, result-offer_all (offer w c) cs)

pub seen-offer_all :
    (w : Walk) (children : List LeaseId) (x : LeaseId)
    → contains (offer_all w children).seen x ≡ (contains w.seen x || contains children x)
unfolding offer_all offer contains
seen-offer_all w [] x = ground arith
seen-offer_all w (c ∷ cs) x = ground (arith, seen-offer_all (offer w c) cs x)

pub pending-offer_all :
    (w : Walk) (children : List LeaseId) (x : LeaseId)
    → contains (offer_all w children).pending x
      ≡ (contains w.pending x || (contains children x && not (contains w.seen x)))
unfolding offer_all offer contains
pending-offer_all w [] x = ground arith
pending-offer_all w (c ∷ cs) x =
    ground (arith, pending-offer_all (offer w c) cs x, contains-append w.pending (c ∷ []) x)

-- What is left to do: the leases not seen, and those that wait.
abbrev pub work : List LeaseId → Walk → ℕ
work ks w = unseen ks w.seen + length w.pending

pub work-offer_all :
    (ks : List LeaseId) (w : Walk) (children : List LeaseId)
    → ((x : LeaseId) → contains children x ≡ true → contains ks x ≡ true)
    → work ks (offer_all w children) ≤ work ks w
unfolding offer_all offer
work-offer_all ks w [] known = omega arith
work-offer_all ks w (c ∷ cs) known =
    let here : contains ks c ≡ true = known c (unfold contains in ground arith) in
    let ih = work-offer_all ks (offer w c) cs (λ x m. known x (unfold contains in ground arith)) in
    ground (arith, ih, unseen-cons-lt ks w.seen c here, length-append w.pending (c ∷ []))
