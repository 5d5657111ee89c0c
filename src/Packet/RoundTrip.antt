-- ===== src/Packet/RoundTrip.antt =====
-- A packet is rebuilt from its serialized form, and the reported length is the serialized size.
use undying_terminal.Prelude.{◌+◌, ◌≤◌, ◌≡◌, arith, length, length-append, Bytes}
use undying_terminal.Wire.{be32}
use undying_terminal.Wire.RoundTrip.{length-be32}
use undying_terminal.Packet.{Packet, of_bytes, serialize, packet_length, frame_bytes}

-- The constructor from a string undoes `serialize`, for both values of the flag and every header
-- and payload.
pub of_bytes-serialize : (p : Packet) → of_bytes (serialize p) ≡ p
unfolding of_bytes serialize
of_bytes-serialize p = ground arith

pub length-serialize : (p : Packet) → length (serialize p) ≡ packet_length p
unfolding serialize packet_length
length-serialize p = omega arith

pub packet_length_pos : (p : Packet) → 2 ≤ packet_length p
unfolding packet_length
packet_length_pos p = omega arith

pub length-frame_bytes : (s : Bytes) → length (frame_bytes s) ≡ 4 + length s
unfolding frame_bytes
length-frame_bytes s = omega (arith, length-append (be32 (length s)) s, length-be32 (length s))
