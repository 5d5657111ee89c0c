-- ===== src/Wire/RoundTrip.antt =====
-- The number encodings of the wire are read back as they were written.
use undying_terminal.Prelude.{ℕ, zero, suc, ◌/◌, ◌^◌, ◌<◌, ◌≡◌, refl, arith, length}
use native.Mathlib.Nat.{pow-suc}
use undying_terminal.Wire.{be32, of_be, of_be32, le_bytes, of_le}

-- `ntohl(htonl(n))` is `n` for every 32-bit number.
pub of_be32-be32 : (n : ℕ) → n < 2 ^ 32 → of_be32 (be32 n) ≡ n
unfolding be32 of_be32 of_be
of_be32-be32 n h = omega arith

pub length-be32 : (n : ℕ) → length (be32 n) ≡ 4
unfolding be32
length-be32 n = refl

pub of_le-le_bytes : (k n : ℕ) → n < 256 ^ k → of_le (le_bytes k n) ≡ n
unfolding of_le le_bytes
of_le-le_bytes zero n h = omega arith
of_le-le_bytes (suc k) n h =
    omega (arith, of_le-le_bytes k (n / 256) (omega (arith, pow-suc 256 k)))

pub length-le_bytes : (k n : ℕ) → length (le_bytes k n) ≡ k
unfolding le_bytes
length-le_bytes zero n = refl
length-le_bytes (suc k) n = omega (arith, length-le_bytes k (n / 256))
