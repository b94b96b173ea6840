-- ===== src/Digest/Framing.antt =====
-- What is hashed determines the domain and the encoded value
-- (`canonical_digest` of crates/aeon_agent_runtime/src/digest.rs).
use genesis_runtime.Common.{
  List, [], arith, length, list_eq, nat_eq, option_eq, refl, ℕ, ◌%◌, ◌++◌, ◌/◌, ◌<◌, ◌^◌, ◌∷◌, ◌≡◌,
}
use genesis_runtime.Digest.{digest_eq, frame, u32_be_bytes, u64_be_bytes}

u32_be_bytes-inj :
    (m n : ℕ) (xs ys : List ℕ)
    → m < 2 ^ 32
    → n < 2 ^ 32
    → (u32_be_bytes m ++ xs) ≡ (u32_be_bytes n ++ ys)
    → (m ≡ n) × (xs ≡ ys)
unfolding u32_be_bytes
u32_be_bytes-inj m n xs ys a b e =
    let top : m / 2 ^ 24 % 256 ≡ n / 2 ^ 24 % 256 = cc in
    let high : m / 2 ^ 16 % 256 ≡ n / 2 ^ 16 % 256 = cc in
    let low : m / 2 ^ 8 % 256 ≡ n / 2 ^ 8 % 256 = cc in
    let last : m % 256 ≡ n % 256 = cc in (omega (arith, top, high, low, last), cc)

u64_be_bytes_tail :
    (m n : ℕ) (xs ys : List ℕ) → (u64_be_bytes m ++ xs) ≡ (u64_be_bytes n ++ ys) → xs ≡ ys
unfolding u64_be_bytes u32_be_bytes
u64_be_bytes_tail m n xs ys e = cc

append-inj :
    (ds es xs ys : List ℕ) → length ds ≡ length es → (ds ++ xs) ≡ (es ++ ys) → (ds ≡ es) × (xs ≡ ys)
append-inj [] [] xs ys l e = (refl, e)
append-inj [] (y ∷ es) xs ys l e = absurd (omega (arith, l))
append-inj (x ∷ ds) [] xs ys l e = absurd (omega (arith, l))
append-inj (x ∷ ds) (y ∷ es) xs ys l e =
    let head : x ≡ y = cc in
    let (tail, rest) = append-inj ds es xs ys (omega (arith, l)) cc in (cc (head, tail), rest)

-- Domain separation: where the domains have fewer than 2 ^ 32 bytes, equal framings have the same
-- domain and the same encoded value, so that no value under one domain is hashed as a value under
-- another.
pub frame-inj :
    (domain domain' encoded encoded' : List ℕ)
    → length domain < 2 ^ 32
    → length domain' < 2 ^ 32
    → frame domain encoded ≡ frame domain' encoded'
    → (domain ≡ domain') × (encoded ≡ encoded')
unfolding frame
frame-inj domain domain' encoded encoded' a b e =
    let (same_length, rest) =
      u32_be_bytes-inj (length domain) (length domain')
        (domain ++ (u64_be_bytes (length encoded) ++ encoded))
        (domain' ++ (u64_be_bytes (length encoded') ++ encoded')) a b e in
    let (same, last) =
      append-inj domain domain' (u64_be_bytes (length encoded) ++ encoded)
        (u64_be_bytes (length encoded') ++ encoded') same_length rest in
    (same, u64_be_bytes_tail (length encoded) (length encoded') encoded encoded' last)
