-- ===== src/Digest/Hex.antt =====
-- The hexadecimal text of a digest reads back (crates/aeon_agent_runtime/src/digest.rs).
use genesis_runtime.Common.{
  Bool, List, [], all, arith, length, list_eq, ltb, nat_eq, ok, option_eq, refl, some, true, ℕ,
  ℕ_discrete, ◌%◌, ◌*◌, ◌/◌, ◌<◌, ◌∷◌, ◌≡◌,
}
use genesis_runtime.Digest.{
  Digest, decode_hex, decode_pairs, digest_eq, from_hex, hex_bytes, hex_digit, to_hex,
}
use mathlib.Core.Path.{ap}

-- Bytes.
unfoldable pub are_bytes : List ℕ → Bool
are_bytes bs = all (λ b. ltb b 256) bs

decode_hex-hex_digit : (n : ℕ) → n < 16 → decode_hex (hex_digit n) ≡ some n
decode_hex-hex_digit n h = ground arith

hex_digit-lt : (n : ℕ) → n < 16 → hex_digit n < 128
hex_digit-lt n h = ground arith

length-hex_bytes : (bs : List ℕ) → length (hex_bytes bs) ≡ 2 * length bs
unfolding hex_bytes
length-hex_bytes [] = refl
length-hex_bytes (b ∷ bs) = omega (arith, length-hex_bytes bs)

ascii-hex_bytes : (bs : List ℕ) → are_bytes bs ≡ true → all (λ c. ltb c 128) (hex_bytes bs) ≡ true
unfolding hex_bytes all are_bytes
ascii-hex_bytes [] h = refl
ascii-hex_bytes (b ∷ bs) h =
    let small : b < 256 = ground (arith, h) in
    let rest = ascii-hex_bytes bs (ground (arith, h)) in
    let high = hex_digit-lt (b / 16) (omega arith) in
    let low = hex_digit-lt (b % 16) (omega arith) in ground (arith, rest, high, low)

decode_pairs-hex_bytes : (bs : List ℕ) → are_bytes bs ≡ true → decode_pairs (hex_bytes bs) ≡ ok bs
unfolding decode_pairs hex_bytes all are_bytes
decode_pairs-hex_bytes [] h = refl
decode_pairs-hex_bytes (b ∷ bs) h =
    let small : b < 256 = ground (arith, h) in
    let rest = decode_pairs-hex_bytes bs (ground (arith, h)) in
    rw
      (
        decode_hex-hex_digit (b / 16) (omega arith),
        decode_hex-hex_digit (b % 16) (omega arith),
        rest,
      )
      (ap (λ n. ok (n ∷ bs)) (omega arith))

-- A digest of 32 bytes is what `from_hex` makes of the text that `to_hex` writes.
pub from_hex-to_hex :
    (d : Digest) → length d.bytes ≡ 32 → are_bytes d.bytes ≡ true → from_hex (to_hex d) ≡ ok d
unfolding from_hex to_hex ℕ_discrete
from_hex-to_hex d size bytes =
    rw
      (
        length-hex_bytes d.bytes,
        size,
        ascii-hex_bytes d.bytes bytes,
        decode_pairs-hex_bytes d.bytes bytes,
      )
      refl
