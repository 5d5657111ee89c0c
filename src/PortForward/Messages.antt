-- ===== src/PortForward/Messages.antt =====
-- proto/UTerminal.proto: the messages of port forwarding, and their coding as a parameter.
use undying_terminal.Prelude.{ℕ, ◌≡◌, Bool, false, Option, some, [], ◌∷◌, Bytes}
use undying_terminal.Prelude.Int.{ℤ}
use undying_terminal.Packet.{Packet}

-- `TerminalPacketType`
abbrev pub destination_request : ℕ
destination_request = 5

abbrev pub destination_response : ℕ
destination_response = 6

abbrev pub forward_data : ℕ
forward_data = 7

-- "localhost" and "connect failed", in ASCII.
abbrev pub localhost : Bytes
localhost = 108 ∷ 111 ∷ 99 ∷ 97 ∷ 108 ∷ 104 ∷ 111 ∷ 115 ∷ 116 ∷ []

abbrev pub connect_failed : Bytes
connect_failed = 99 ∷ 111 ∷ 110 ∷ 110 ∷ 101 ∷ 99 ∷ 116 ∷ 32 ∷ 102 ∷ 97 ∷ 105 ∷ 108 ∷ 101 ∷ 100 ∷ []

-- `Packet(header, payload)`
abbrev pub clear_packet : ℕ → Bytes → Packet
clear_packet header payload = record { encrypted = false; header = header; payload = payload }

pub record Endpoint : Type 0 where
  pub name : Bytes
  pub port : ℤ

-- An `optional` field whose presence the code tests is an `Option`; of any other, the value that its
-- getter gives, the default where it is absent.
pub record SourceRequest : Type 0 where
  pub source : Option Endpoint
  pub destination : Option Endpoint
  pub environment_variable : Bytes

pub record DestinationRequest : Type 0 where
  pub destination : Option Endpoint
  pub fd : Option ℤ

pub record DestinationResponse : Type 0 where
  pub client_fd : Option ℤ
  pub socket_id : Option ℤ
  pub error : Bytes

pub record Data : Type 0 where
  pub source_to_destination : Bool
  pub socket_id : Option ℤ
  pub buffer : Bytes
  pub closed : Bool

-- `SerializeToString` and `ParseFromString`, which give `false` as `none`.
pub record Codec : Type 0 where
  pub put_request : DestinationRequest → Option Bytes
  pub get_request : Bytes → Option DestinationRequest
  pub put_response : DestinationResponse → Option Bytes
  pub get_response : Bytes → Option DestinationResponse
  pub put_data : Data → Option Bytes
  pub get_data : Bytes → Option Data

-- What protobuf documents: a serialized message is parsed to the same message.
pub record IsCodec (codec : Codec) : Type 0 where
  pub get-put-request :
      (m : DestinationRequest) (b : Bytes)
      → codec.put_request m ≡ some b
      → codec.get_request b ≡ some m
  pub get-put-response :
      (m : DestinationResponse) (b : Bytes)
      → codec.put_response m ≡ some b
      → codec.get_response b ≡ some m
  pub get-put-data : (m : Data) (b : Bytes) → codec.put_data m ≡ some b → codec.get_data b ≡ some m
