-- ===== src/Wire.antt =====
-- How integers lie on the wire: `htonl` and `ntohl` on a `uint32_t` (most significant byte first)
-- and the raw `int64_t` of a protobuf message's length (least significant byte first, x86).
pub mod RoundTrip
use undying_terminal.Prelude.{
  ℕ, zero, suc, ◌+◌, ◌*◌, ◌/◌, ◌%◌, ◌^◌, ◌<◌, ◌≡◌, refl, List, [], ◌∷◌, Bytes,
}

-- `htonl(n)`, copied out byte by byte. `static_cast<uint32_t>` keeps the low 32 bits.
unfoldable pub be32 : ℕ → Bytes
be32 n = (n / 2 ^ 24 % 256) ∷ (n / 2 ^ 16 % 256) ∷ (n / 2 ^ 8 % 256) ∷ (n % 256) ∷ []

-- A byte string read as a number, the first byte the most significant: `memcpy` and `ntohl`.
unfoldable pub of_be : ℕ → Bytes → ℕ
of_be acc [] = acc
of_be acc (b ∷ bs) = of_be (acc * 256 + b) bs

unfoldable pub of_be32 : Bytes → ℕ
of_be32 = of_be 0

-- The `k` low bytes of `n`, least significant first.
unfoldable pub le_bytes : ℕ → ℕ → Bytes
le_bytes zero n = []
le_bytes (suc k) n = (n % 256) ∷ le_bytes k (n / 256)

unfoldable pub of_le : Bytes → ℕ
of_le [] = 0
of_le (b ∷ bs) = b + 256 * of_le bs

be32_runs : be32 0x01020304 ≡ 1 ∷ 2 ∷ 3 ∷ 4 ∷ []
unfolding be32
be32_runs = refl

le_bytes_runs : le_bytes 8 258 ≡ 2 ∷ 1 ∷ 0 ∷ 0 ∷ 0 ∷ 0 ∷ 0 ∷ 0 ∷ []
unfolding le_bytes
le_bytes_runs = refl
