-- ===== src/Reader.antt =====
-- src/ut/protocol/BackedReader.{hpp,cpp}: a reader that puts packets together from whatever pieces the
-- socket gives, and takes the packets that a reconnect brings first. The `int64_t` counter does not
-- wrap. `SocketHandler::Read` is a parameter: a function on a state of the network.
pub mod Assembly
use undying_terminal.Prelude.{
  ℕ, ◌+◌, ◌-◌, ◌*◌, Bool, true, false, not, ◌||◌, List, [], ◌∷◌, ◌++◌, ltb, ◌==◌, if◌then◌else◌,
  length, take, drop, Bytes,
}
use undying_terminal.Result.{
  Result, ok, throw, partial_header_missing, invalid_message_length, length_mismatch,
}
use undying_terminal.Wire.{of_be32}
use undying_terminal.Packet.{Packet, of_bytes}
use undying_terminal.Crypto.{SecretBox, CryptoHandler, decrypt}
use undying_terminal.Writer.{invalid_socket, is_empty}

abbrev pub max_message_bytes : ℕ
max_message_bytes = 128 * 1024 * 1024

-- `local_buffer_` from front to back, and `partial_message_`.
pub record BackedReader : Type 0 where
  pub socket : ℕ
  pub crypto : CryptoHandler
  pub sequence_number : ℕ
  pub local_buffer : List Bytes
  pub partial_message : Bytes

-- What `SocketHandler::Read` returns: bytes (a positive count), 0, or a negative number.
pub data Answer : Type 0 where
  received : Bytes → Answer
  closed failed : Answer

-- What `Read` returns: 1 with a packet, 0, or -1.
pub data ReadResult : Type 0 where
  packet : Packet → ReadResult
  incomplete lost : ReadResult

unfoldable pub new_reader : CryptoHandler → ℕ → BackedReader
new_reader crypto socket = record {
  socket = socket;
  crypto = crypto;
  sequence_number = 0;
  local_buffer = [];
  partial_message = [];
}

-- `BackedReader::GetPartialMessageLength`
unfoldable pub message_length : Bytes → Result ℕ
message_length partial =
    if ltb (length partial) 4
    then throw partial_header_missing
    else let len = of_be32 (take 4 partial) in
      if (len == 0) || ltb max_message_bytes len then throw invalid_message_length else ok len

-- The lines that `Read` and `ConstructPartialMessage` share: build a packet and decrypt it.
abbrev pub with_payload : Packet → Result Bytes × CryptoHandler → Result Packet × CryptoHandler
with_payload p (ok text, c) = (ok (record p { encrypted = false; payload = text }), c)
with_payload p (throw e, c) = (throw e, c)

unfoldable pub open_packet : SecretBox → CryptoHandler → Bytes → Result Packet × CryptoHandler
open_packet box c serialized =
    let p = of_bytes serialized in
    if p.encrypted then with_payload p (decrypt box c p.payload) else (ok p, c)

-- The reader after a call, and what the call returns or throws.
abbrev pub Out : Type 0
Out = Result ReadResult × BackedReader

abbrev pub as_packet : Result Packet → Result ReadResult
as_packet (ok p) = ok (packet p)
as_packet (throw e) = throw e

-- `BackedReader::Read` where `local_buffer_` is not empty; `rest` is the buffer without its front.
unfoldable pub read_local : SecretBox → BackedReader → Bytes → List Bytes → Out
read_local box r front rest =
    let (opened, c) = open_packet box r.crypto front in
    (as_packet opened, record r { crypto = c; local_buffer = rest })

-- The end of `ConstructPartialMessage`: only a packet that opens is counted and taken away.
abbrev pub constructed : BackedReader → Result Packet × CryptoHandler → Out
constructed r (throw e, c) = (throw e, record r { crypto = c })
constructed r (ok p, c) = (
  ok (packet p),
  record r { crypto = c; partial_message = []; sequence_number = r.sequence_number + 1 },
)

-- `BackedReader::ConstructPartialMessage`, on the length that it reads again.
abbrev pub construct_with : SecretBox → BackedReader → Result ℕ → Out
construct_with box r (throw e) = (throw e, r)
construct_with box r (ok len) =
    if not (length r.partial_message - 4 == len)
    then (throw length_mismatch, r)
    else constructed r (open_packet box r.crypto (take len (drop 4 r.partial_message)))

unfoldable pub construct : SecretBox → BackedReader → Out
construct box r = construct_with box r (message_length r.partial_message)

module _ {Net : Type 0} (recv : ℕ → ℕ → Net → Answer × Net) (box : SecretBox) where
  -- The last test of `Read`.
  unfoldable pub finish : BackedReader → ℕ → Net → Out × Net
  finish r len n =
      if length r.partial_message - 4 == len then (construct box r, n) else ((ok incomplete, r), n)

  -- After the second `Read` of the socket.
  abbrev pub after_body : BackedReader → ℕ → Answer × Net → Out × Net
  after_body r len (received bytes, n) =
      finish (record r { partial_message = r.partial_message ++ bytes }) len n
  after_body r len (_, n) = ((ok lost, r), n)

  -- `Read` from `GetPartialMessageLength` on.
  abbrev pub read_body_of : BackedReader → Net → Result ℕ → Out × Net
  read_body_of r n (throw e) = ((throw e, r), n)
  read_body_of r n (ok len) =
      let have = length r.partial_message - 4 in
      if ltb have len then after_body r len (recv r.socket (len - have) n) else finish r len n

  unfoldable pub read_body : BackedReader → Net → Out × Net
  read_body r n =
      if ltb (length r.partial_message) 4
      then ((ok incomplete, r), n)
      else read_body_of r n (message_length r.partial_message)

  -- After the first `Read` of the socket.
  abbrev pub after_header : BackedReader → Answer × Net → Out × Net
  after_header r (received bytes, n) =
      read_body (record r { partial_message = r.partial_message ++ bytes }) n
  after_header r (_, n) = ((ok lost, r), n)

  -- `Read` where `local_buffer_` is empty.
  unfoldable pub read_socket : BackedReader → Net → Out × Net
  read_socket r n =
      if ltb (length r.partial_message) 4
      then after_header r (recv r.socket (4 - length r.partial_message) n)
      else read_body r n

  abbrev pub read_buffered : BackedReader → Net → List Bytes → Out × Net
  read_buffered r n [] = read_socket r n
  read_buffered r n (front ∷ rest) = (read_local box r front rest, n)

  -- `BackedReader::Read`
  unfoldable pub read : BackedReader → Net → Out × Net
  read r n =
      if r.socket == invalid_socket
      then ((ok incomplete, r), n)
      else read_buffered r n r.local_buffer

-- `BackedReader::HasData`, on what `SocketHandler::HasData` answers for the socket.
unfoldable pub has_data : (ℕ → Bool) → BackedReader → Bool
has_data socket_has_data r =
    if r.socket == invalid_socket
    then false
    else if not (is_empty r.local_buffer)
    then true
    else socket_has_data r.socket

-- `BackedReader::Revive` and `BackedReader::InvalidateSocket`
unfoldable pub revive : BackedReader → ℕ → List Bytes → BackedReader
revive r socket buffered = record r {
  socket = socket;
  sequence_number = r.sequence_number + length buffered;
  local_buffer = r.local_buffer ++ buffered;
  partial_message = [];
}

abbrev pub invalidate : BackedReader → BackedReader
invalidate r = record r { socket = invalid_socket }
