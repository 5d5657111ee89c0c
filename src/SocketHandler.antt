-- ===== src/SocketHandler.antt =====
-- src/ut/protocol/SocketHandler.{hpp,cpp}: whole packets and protobuf messages over a socket. What the
-- socket does in each round of a loop is a list of turns; the model is still in the loop where the
-- list is at its end. A protobuf message is an element of a parameter with its coding.
pub mod Reading
pub mod Sending
pub mod Messages
use Prim.Native.Nat.{min}
use undying_terminal.Prelude.{
  ℕ, suc, ◌+◌, ◌-◌, ◌*◌, Bool, true, false, ◌&&◌, ◌||◌, Option, none, some, List, [], ◌∷◌, ◌++◌,
  ltb, ◌==◌, if◌then◌else◌, length, take, drop, Bytes,
}
use undying_terminal.Result.{
  Error, socket_timeout, socket_closed, socket_read_failed, socket_closed_write,
  invalid_packet_length, invalid_proto_length, invalid_proto, serialize_failed,
}
use undying_terminal.Text.{is_empty}
use undying_terminal.Wire.{be32, of_be32, le_bytes, of_le}
use undying_terminal.Packet.{Packet, serialize, of_bytes}

-- `kSocketTimeoutSeconds`, and the largest packet or message.
abbrev pub socket_timeout_seconds : ℕ
socket_timeout_seconds = 30

abbrev pub max_bytes : ℕ
max_bytes = 128 * 1024 * 1024

-- A round of `ReadAll`: the bytes that arrive before it, the whole seconds since the last progress, and how
-- many more bytes than one the socket gives at most; or `Read` returns 0, or a negative number.
pub data Turn : Type 0 where
  turn : Bytes → ℕ → ℕ → Turn
  ends breaks : Turn

-- The bytes that have arrived and are not read yet, and the turns to come.
pub record Incoming : Type 0 where
  pub pending : Bytes
  pub turns : List Turn

pub data Outcome (A : Type 0) : Type 0 where
  done : A → Incoming → Outcome A
  throws : Error → Outcome A
  waiting : Outcome A

abbrev pub Reads : Type 0 → Type 0
Reads A = Incoming → Outcome A

infixl 5 ◌>>=◌
abbrev pub ◌>>=◌ : {A B : Type 0} → Reads A → (A → Reads B) → Reads B
◌>>=◌ m f s = elim (m s) [ done a s' ↦ f a s' | throws e ↦ throws e | waiting ↦ waiting ]

abbrev pub return : {A : Type 0} → A → Reads A
return a s = done a s

abbrev pub throw : {A : Type 0} → Error → Reads A
throw e s = throws e

-- What is read after a round, and what is pending; or an exception.
pub data Round : Type 0 where
  goes_on : Bytes → Bytes → Round
  stops : Error → Round

-- A round: `HasData` is false where nothing is pending; `Read` gives at most what is asked for.
unfoldable pub read_round : Bool → ℕ → Bytes → Bytes → Turn → Round
read_round timeout count got pending (turn arrived elapsed more) =
    let here = pending ++ arrived in
    if is_empty here
    then if timeout && ltb socket_timeout_seconds elapsed
      then stops socket_timeout
      else goes_on got here
    else let n = min (suc more) (count - length got) in goes_on (got ++ take n here) (drop n here)
read_round timeout count got pending ends = stops socket_closed
read_round timeout count got pending breaks = stops socket_read_failed

unfoldable pub read_loop : Bool → ℕ → Bytes → Bytes → List Turn → Outcome Bytes
read_loop timeout count got pending [] =
    if ltb (length got) count then waiting else done got (record { pending = pending; turns = [] })
read_loop timeout count got pending (t ∷ ts) = elim (ltb (length got) count) [
  | false ↦ done got (record { pending = pending; turns = t ∷ ts })
  | true ↦ elim (read_round timeout count got pending t) [
    | goes_on got' pending' ↦ read_loop timeout count got' pending' ts
    | stops e ↦ throws e
  ]
]

-- `SocketHandler::ReadAll`
unfoldable pub read_all : ℕ → Bool → Reads Bytes
read_all count timeout s = read_loop timeout count [] s.pending s.turns

abbrev pub read_packet_body : ℕ → Reads Packet
read_packet_body length = do s ← read_all length false; return (of_bytes s)

-- `SocketHandler::ReadPacket`, where `packet` is not null; it returns true.
unfoldable pub read_packet : Reads Packet
read_packet = do
  length_be ← read_all 4 false
  if (of_be32 length_be == 0) || ltb max_bytes (of_be32 length_be)
      then throw invalid_packet_length
      else read_packet_body (of_be32 length_be)

-- A round of `WriteAllOrThrow`, with the whole seconds since the last progress: `Write` takes at most so
-- many bytes more than one, or returns 0, or a negative number.
pub data SendTurn : Type 0 where
  takes : ℕ → ℕ → SendTurn
  closes refuses : ℕ → SendTurn

abbrev pub elapsed_of : SendTurn → ℕ
elapsed_of (takes elapsed more) = elapsed
elapsed_of (closes elapsed) = elapsed
elapsed_of (refuses elapsed) = elapsed

pub data Ending : Type 0 where
  finished : List SendTurn → Ending
  threw : Error → Ending
  sending : Ending

-- The bytes that have gone out, and how the call ends.
abbrev pub Sent : Type 0
Sent = Bytes × Ending

-- How many bytes a round sends, or the exception.
pub data SendRound : Type 0 where
  sends : ℕ → SendRound
  fails : Error → SendRound

unfoldable pub send_round : Bool → SendTurn → SendRound
send_round timeout t =
    if timeout && ltb socket_timeout_seconds (elapsed_of t) then fails socket_timeout else elim t [
      | takes elapsed more ↦ sends (suc more)
      | closes elapsed ↦ fails socket_closed_write
      | refuses elapsed ↦ sends 0
    ]

abbrev pub after : Bytes → Sent → Sent
after out (sent, e) = (out ++ sent, e)

-- `SocketHandler::WriteAllOrThrow`
unfoldable pub write_all : Bytes → Bool → List SendTurn → Sent
write_all left timeout [] = if is_empty left then ([], finished []) else ([], sending)
write_all left timeout (t ∷ ts) = elim (is_empty left) [
  | true ↦ ([], finished (t ∷ ts))
  | false ↦ elim (send_round timeout t) [
    | sends n ↦ after (take n left) (write_all (drop n left) timeout ts)
    | fails e ↦ ([], threw e)
  ]
]

abbrev pub then_write : Bytes → Bool → Sent → Sent
then_write left timeout (sent, finished ts) = after sent (write_all left timeout ts)
then_write left timeout (sent, threw e) = (sent, threw e)
then_write left timeout (sent, sending) = (sent, sending)

-- `SocketHandler::WritePacket`
unfoldable pub write_packet : Packet → List SendTurn → Sent
write_packet p ts =
    let data_bytes = serialize p in
    if ltb max_bytes (length data_bytes)
    then ([], threw invalid_packet_length)
    else then_write data_bytes false (write_all (be32 (length data_bytes)) false ts)

-- `SerializeToString`, `ParseFromString` and the message with no field set.
pub record Coding (M : Type 0) : Type 0 where
  pub to_string : M → Option Bytes
  pub of_string : Bytes → Option M
  pub empty : M

module _ {M : Type 0} (coding : Coding M) where
  abbrev pub parsed : Option M → Reads M
  parsed none = throw invalid_proto
  parsed (some m) = return m

  abbrev pub read_proto_body : ℕ → Bool → Reads M
  read_proto_body length timeout = do s ← read_all length timeout; parsed (coding.of_string s)

  -- `SocketHandler::ReadProto`; a negative `int64_t` is a number above the limit.
  unfoldable pub read_proto : Bool → Reads M
  read_proto timeout = do
    length ← read_all 8 timeout
    if ltb max_bytes (of_le length)
        then throw invalid_proto_length
        else if of_le length == 0
        then return coding.empty
        else read_proto_body (of_le length) timeout

  abbrev pub write_string : Bool → List SendTurn → Option Bytes → Sent
  write_string timeout ts none = ([], threw serialize_failed)
  write_string timeout ts (some s) =
      if ltb max_bytes (length s)
      then ([], threw invalid_proto_length)
      else let header = write_all (le_bytes 8 (length s)) timeout ts in
        if ltb 0 (length s) then then_write s timeout header else header

  -- `SocketHandler::WriteProto`
  unfoldable pub write_proto : M → Bool → List SendTurn → Sent
  write_proto m timeout ts = write_string timeout ts (coding.to_string m)
