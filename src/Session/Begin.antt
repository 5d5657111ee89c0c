-- ===== src/Session/Begin.antt =====
-- A session of `TcpListener::HandleClient` from its first packet to its end.
use undying_terminal.Prelude.{
  ℕ, Bool, true, false, Option, none, some, List, [], ◌∷◌, ◌==◌, if◌then◌else◌, Bytes,
}
use undying_terminal.Packet.{Packet}
use undying_terminal.Table.{Table, bytes_key}
use undying_terminal.Writer.{invalid_socket}
use undying_terminal.Registry.{ClientRegistry, lookup_terminal, unregister_terminal, mark_active}
use undying_terminal.PortForward.{Tcp, PortForwardHandler, new_handler, add_forward_request}
use undying_terminal.PortForward.Messages.{Codec, SourceRequest, clear_packet}
use undying_terminal.Session.{terminal_init}
use undying_terminal.Session.Server.{Round, Relayed, both, serve}

abbrev pub initial_payload : ℕ
initial_payload = 253

abbrev pub initial_response : ℕ
initial_response = 252

abbrev pub jumphost_init : ℕ
jumphost_init = 10

pub record InitialPayload : Type 0 where
  pub jumphost : Bool
  pub reverse_tunnels : List SourceRequest
  pub environment_variables : Table Bytes Bytes

-- `ParseFromString` and `SerializeToString` of the messages of a start. What `SerializeToString` leaves in the
-- string counts for an `InitialResponse`, since its result is not looked at.
pub record StartCodec : Type 0 where
  pub get_payload : Bytes → Option InitialPayload
  pub put_payload : InitialPayload → Option Bytes
  pub put_init : Option Bytes
  pub put_response : Bytes

-- What is relayed, whether the pipe is closed at the end, and what the end does to the registry.
pub record Ended : Type 0 where
  pub relayed : Relayed
  pub closes_pipe : Bool
  pub leaves : ClientRegistry ℕ → ClientRegistry ℕ

-- `CloseSocket`, `MarkActive(client_id, false)` and `return`.
abbrev pub gives_up : Bytes → List Packet → Ended
gives_up id answers = record {
  relayed = record { to_pipe = []; to_client = answers; taken = []; drawn = [] };
  closes_pipe = false;
  leaves = mark_active id false;
}

-- The packet of `SendJumpInit` or `SendTermInit`.
abbrev pub init_packet : StartCodec → InitialPayload → Option Packet
init_packet codec m =
    if m.jumphost
    then elim (codec.put_payload m) [ none ↦ none | some b ↦ some (clear_packet jumphost_init b) ]
    else elim codec.put_init [ none ↦ none | some b ↦ some (clear_packet terminal_init b) ]

module _ {Net : Type 0} (tcp : Tcp Net) (tunnels : Codec) (codec : StartCodec) (id : Bytes) where
  unfoldable pub add_requests :
      List SourceRequest → PortForwardHandler → Net → PortForwardHandler × Net
  add_requests [] h n = (h, n)
  add_requests (r ∷ rs) h n = let (h', n') = add_forward_request tcp h r n in add_requests rs h' n'

  abbrev pub answer : Packet
  answer = clear_packet initial_response codec.put_response

  -- The session, where the first packet of the terminal's pipe is this.
  abbrev pub runs : InitialPayload → Option Packet → Net → List Round → Ended
  runs m none n rs = gives_up id (answer ∷ [])
  runs m (some init) n rs =
      let (reverse, n') = add_requests m.reverse_tunnels (new_handler false) n in
      record {
        relayed =
            both (record { to_pipe = init ∷ []; to_client = answer ∷ []; taken = []; drawn = [] })
              (serve tcp tunnels rs (record {
                forward_handler = new_handler true;
                reverse_handler = reverse;
                net = n';
              }));
        closes_pipe = true;
        leaves = λ r. mark_active id false (unregister_terminal id r);
      }

  abbrev pub with_payload : ClientRegistry ℕ → Option InitialPayload → Net → List Round → Ended
  with_payload registry none n rs = gives_up id []
  with_payload registry (some m) n rs =
      if lookup_terminal id registry == invalid_socket
      then gives_up id (answer ∷ [])
      else runs m (init_packet codec m) n rs

  -- The rest of `HandleClient`, where `ReadPacket` gives this first packet, or nothing, and the registry
  -- is looked at in this state; `taken` is what the session takes behind the first packet.
  unfoldable pub session : Option Packet → ClientRegistry ℕ → Net → List Round → Ended
  session none registry n rs = gives_up id []
  session (some p) registry n rs =
      if p.header == initial_payload
      then with_payload registry (codec.get_payload p.payload) n rs
      else gives_up id []
