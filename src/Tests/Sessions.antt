-- ===== src/Tests/Sessions.antt =====
-- The components' theorems at concrete inputs.
use undying_terminal.Prelude.{
  ℕ, ◌+◌, ◌%◌, ◌^◌, ◌≡◌, refl, true, false, [], ◌∷◌, ◌++◌, replicate, arith, if◌then◌else◌, ◌==◌,
}
use undying_terminal.Prelude.Int.{pos}
use undying_terminal.Result.{ok, throw, active_socket}
use undying_terminal.Wire.{of_le}
use undying_terminal.Packet.{Packet, serialize, frame_bytes, of_bytes}
use undying_terminal.Packet.RoundTrip.{of_bytes-serialize}
use undying_terminal.Crypto.{increment_nonce}
use undying_terminal.Crypto.Nonce.{nonce_after_unique, of_le-increment_nonce}
use undying_terminal.Writer.{refused, invalid_socket, write, new_writer, store, recover}
use undying_terminal.Writer.History.{
  Tracks, numbered, write-Tracks, store-Tracks, new_writer-Tracks,
}
use undying_terminal.Writer.Recovery.{promised, recover-promised}
use undying_terminal.Reader.{new_reader, read_socket}
use undying_terminal.Reader.Assembly.{Assembles, read_socket-Assembles}
use undying_terminal.Connection.{Exchange, new_connection}
use undying_terminal.Connection.Client.{
  ClientConnection, Attempt, new_client, returning_client, connect,
}
use undying_terminal.Connection.Client.Returning.{Fails, Starts, connect-returning, connect-new}
use undying_terminal.Tests.Toys.{toy_box, toy_recv, toy_pending, toy_recv-IsStream, toy_crypto}

abbrev item : Packet
item = record { encrypted = true; header = 1; payload = 5 ∷ 6 ∷ [] }

write-Tracks_example :
    Tracks
      (write toy_box (new_writer toy_crypto 5) item (refused ∷ [])).writer
      ([] ++ numbered toy_box (new_writer toy_crypto 5) item)
write-Tracks_example =
    write-Tracks toy_box (new_writer toy_crypto 5) [] item (refused ∷ [])
      (new_writer-Tracks toy_crypto 5)

-- One packet is numbered, and the peer has had none.
recover-promised_example : recover (store (new_writer toy_crypto invalid_socket) item) (pos 0) ≡ (
    if (store (new_writer toy_crypto invalid_socket) item).socket == invalid_socket
    then promised (item ∷ []) (pos 0)
    else throw active_socket)
recover-promised_example =
    recover-promised (store (new_writer toy_crypto invalid_socket) item) (item ∷ []) (pos 0) (
      store-Tracks (new_writer toy_crypto invalid_socket) [] item
        (new_writer-Tracks toy_crypto invalid_socket))

read_socket-Assembles_example :
    Assembles toy_recv toy_box toy_pending (new_reader toy_crypto 6) (serialize item) (9 ∷ []) (
      read_socket toy_recv toy_box
        (new_reader toy_crypto 6)
        (frame_bytes (serialize item) ++ 9 ∷ []))
unfolding new_reader serialize
read_socket-Assembles_example =
    read_socket-Assembles toy_recv toy_box toy_pending (new_reader toy_crypto 6)
      (frame_bytes (serialize item) ++ 9 ∷ []) (serialize item) (9 ∷ []) toy_recv-IsStream
      (omega arith) (omega arith) refl

abbrev agreeable : Exchange
agreeable = record {
  header_written = ok tt;
  remote_header = ok (pos 0);
  catchup_written = ok tt;
  inbound = ok [];
}

abbrev attempt : Attempt
attempt = record {
  new_socket = 5;
  request_written = ok tt;
  response = ok returning_client;
  exchange = agreeable;
  shut_down = false;
  disabled = false;
}

abbrev client : ClientConnection
client = record {
  base = new_connection (b'i' ∷ []) (replicate 32 7);
  reconnect_enabled = true;
  returning = false;
  polling = false;
}

connect-returning_example : Fails (connect client attempt)
connect-returning_example = connect-returning client attempt refl

connect-new_example : Starts 5 (connect client (record attempt { response = ok new_client }))
unfolding new_connection
connect-new_example =
    connect-new client (record attempt { response = ok new_client }) refl (omega arith) refl

nonce_after_unique_example : (◌≡◌ {A = ℕ} 0 0) × (◌≡◌ {A = ℕ} 2 2)
nonce_after_unique_example =
    nonce_after_unique 0 0 2 2 (omega arith) (omega arith) (omega arith) (omega arith) refl

of_le-increment_nonce_example :
    of_le (increment_nonce (255 ∷ 255 ∷ [])) ≡ (of_le (255 ∷ 255 ∷ []) + 1) % 256 ^ 2
of_le-increment_nonce_example = of_le-increment_nonce (255 ∷ 255 ∷ []) (omega arith)

of_bytes-serialize_example : of_bytes (serialize item) ≡ item
of_bytes-serialize_example = of_bytes-serialize item
