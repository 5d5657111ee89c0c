-- ===== src/Tests/Protocol.antt =====
-- The protocol's theorems at concrete links.
use undying_terminal.Prelude.{ℕ, ◌≡◌, refl, some, false, List, [], ◌∷◌, map, arith, replicate}
use undying_terminal.Prelude.Int.{◌-ℤ◌}
use undying_terminal.Result.{ok}
use undying_terminal.Packet.{Packet, serialize, frame_bytes, of_bytes, packet_length}
use undying_terminal.Crypto.{encrypt, decrypt, increment_nonce}
use undying_terminal.Wire.{be32, of_be32, of_be}
use undying_terminal.Writer.{
  BackedWriter, accepted, refused, success, wrote_with_failure, invalid_socket, write, write_sealed,
  send, send_loop, store, evict, new_writer, SendEvent, back_length, pop_back, recover_from,
  collect,
}
use undying_terminal.Writer
use undying_terminal.Reader.{
  new_reader, read, read_socket, read_local, read_body, finish, construct, message_length,
  open_packet, ReadResult,
}
use undying_terminal.Reader
use undying_terminal.Delivery.{Link, start, here, next, writes, reads, reader_closes}
use undying_terminal.Delivery.Sealing.{clear, sealed_packet}
use undying_terminal.Delivery.Reach.{delivered_prefix, read-total}
use undying_terminal.Delivery.Replay.{read_times, replay_complete}
use undying_terminal.Connection.{sequence_header}
use undying_terminal.Tests.Toys.{
  toy_box, toy_box-IsSecretBox, toy_recv, toy_pending, toy_recv-IsStream, toy_crypto,
}

abbrev hello : Packet
hello = record { encrypted = false; header = 1; payload = b'h' ∷ b'i' ∷ [] }

abbrev fresh : Link
fresh = start toy_crypto 5 6

abbrev whole : List SendEvent
whole = accepted 3 ∷ accepted 21 ∷ []

abbrev broken : List SendEvent
broken = accepted 10 ∷ refused ∷ []

-- What the tests run.
the_code : ℕ
unfolding write write_sealed send send_loop store evict back_length pop_back encrypt decrypt
    new_writer new_reader increment_nonce serialize of_bytes packet_length frame_bytes be32 of_be32
    of_be read read_socket read_local read_body finish construct message_length open_packet
    Writer.recover recover_from collect ◌-ℤ◌ Reader.revive sequence_header read_times
the_code = 0

write_runs : (write toy_box (new_writer toy_crypto 5) hello whole).result ≡ ok (some success)
unfolding the_code
write_runs = refl

-- A packet is written and read.
delivered_prefix_example : (ahead : List Packet) × (map clear (hello ∷ []) ≡ clear hello ∷ ahead)
unfolding the_code
delivered_prefix_example =
    delivered_prefix toy_recv toy_pending toy_box toy_crypto toy_box-IsSecretBox toy_recv-IsStream 5
      6
      (next (next here (writes hello whole success (omega arith) refl))
        (reads (write toy_box (new_writer toy_crypto 5) hello whole).sent refl))

-- The socket breaks in the middle of a packet: the reader has a part of it, and does not throw.
read-total_example :
    (result : ReadResult) × ((read toy_recv toy_box
        (new_reader toy_crypto 6)
        (write toy_box (new_writer toy_crypto 5) hello broken).sent).0.0
      ≡ ok result)
unfolding the_code
read-total_example =
    read-total toy_recv toy_pending toy_box toy_crypto toy_box-IsSecretBox toy_recv-IsStream 5 6 _
      (next here (writes hello broken wrote_with_failure (omega arith) refl)) refl

-- The same, then both ends close, and the recovery brings the packet.
replay_complete_example :
    read_times toy_recv toy_box 1
      (Reader.revive
        (new_reader toy_crypto invalid_socket)
        8
        (serialize (sealed_packet hello (b'h' ∷ b'i' ∷ replicate 16 0)) ∷ []))
      []
    ≡ clear hello ∷ []
unfolding the_code
replay_complete_example =
    replay_complete toy_recv toy_pending toy_box toy_crypto toy_box-IsSecretBox toy_recv-IsStream 5
      6 8 (serialize (sealed_packet hello (b'h' ∷ b'i' ∷ replicate 16 0)) ∷ []) []
      (next (next here (writes hello broken wrote_with_failure (omega arith) refl)) reader_closes)
      refl refl (omega arith) refl
