-- ===== src/Packet.antt =====
-- src/ut/protocol/Packet.hpp: a packet, its serialized form, and its constructor from one.
pub mod RoundTrip
use undying_terminal.Prelude.{
  ℕ, ◌+◌, ◌≡◌, refl, Bool, true, false, not, List, [], ◌∷◌, ◌++◌, ◌==◌, if◌then◌else◌, length,
  Bytes,
}
use undying_terminal.Wire.{be32}

-- The fields `encrypted_`, `header_` (a `uint8_t`) and `payload_`.
pub record Packet : Type 0 where
  pub encrypted : Bool
  pub header : ℕ
  pub payload : Bytes

-- `Packet()`, also what a string of fewer than two bytes gives.
abbrev pub default_packet : Packet
default_packet = record { encrypted = false; header = 255; payload = [] }

-- `Packet(const std::string& serialized)`
unfoldable pub of_bytes : Bytes → Packet
of_bytes [] = default_packet
of_bytes (_ ∷ []) = default_packet
of_bytes (flag ∷ header ∷ payload) = record {
  encrypted = not (flag == 0);
  header = header;
  payload = payload;
}

-- `Packet::serialize`
unfoldable pub serialize : Packet → Bytes
serialize p = (if p.encrypted then 1 else 0) ∷ p.header ∷ p.payload

-- `Packet::length`
unfoldable pub packet_length : Packet → ℕ
packet_length p = 2 + length p.payload

-- What `BackedWriter::Write` and `SocketHandler::WritePacket` put on the wire for a packet.
unfoldable pub frame_bytes : Bytes → Bytes
frame_bytes s = be32 (length s) ++ s

serialize_runs :
    serialize (record { encrypted = true; header = 7; payload = 9 ∷ [] }) ≡ 1 ∷ 7 ∷ 9 ∷ []
unfolding serialize
serialize_runs = refl
