-- ===== src/PortForward.antt =====
-- src/ut/protocol/PortForwardHandler.{hpp,cpp}: one end of the tunnels of a session. The TCP calls and
-- the coding of protobuf messages are parameters (`Tcp`, `Codec`); what the handler sends, writes and
-- closes comes out in order. Ids count up from 1 and do not wrap.
pub mod Messages
pub mod Relay
pub mod Pairing
pub mod Valid
pub mod Polling
pub mod Handling
pub mod Runs
use undying_terminal.Prelude.{
  ℕ, ◌+◌, Bool, true, false, not, ◌&&◌, Option, none, some, List, [], ◌∷◌, ◌++◌, ◌==◌,
  if◌then◌else◌, Bytes,
}
use undying_terminal.Prelude.Int.{ℤ, pos}
use undying_terminal.Packet.{Packet}
use undying_terminal.Reader.{Answer, received, closed, failed}
use undying_terminal.Writer.{invalid_socket, is_empty}
use undying_terminal.Table.{Table, int_key, find, put, erase}
use undying_terminal.PortForward.Messages.{
  Endpoint, SourceRequest, DestinationRequest, DestinationResponse, Data, Codec, localhost,
  destination_request, destination_response, forward_data, clear_packet,
}

-- `TcpSocketHandler`, on a state of the network.
pub record Tcp (Net : Type 0) : Type 0 where
  pub listen : Bytes → ℤ → Net → ℕ × Net
  pub has_data : ℕ → Net → Bool
  pub accept : ℕ → Net → ℕ × Net
  pub receive : ℕ → ℕ → Net → Answer × Net
  pub dial : Endpoint → Net → ℕ × Net

pub record Listener : Type 0 where
  pub listen_socket : ℕ
  pub destination : Endpoint

pub record PortForwardHandler : Type 0 where
  pub server_side : Bool
  pub next_client_fd : ℕ
  pub next_socket_id : ℕ
  pub listeners : List Listener
  pub pending_clients : Table ℤ ℕ
  pub active_sockets : Table ℤ ℕ

-- The constructor.
unfoldable pub new_handler : Bool → PortForwardHandler
new_handler server_side = record {
  server_side = server_side;
  next_client_fd = 1;
  next_socket_id = 1;
  listeners = [];
  pending_clients = [];
  active_sockets = [];
}

-- What a call does: `send_packet`, or `Write` or `Close` of a socket.
pub data Effect : Type 0 where
  sends : Packet → Effect
  writes : ℕ → Bytes → Effect
  closes : ℕ → Effect

-- `if (SerializeToString(&payload)) send_packet(Packet(header, payload))`
abbrev pub send_coded : ℕ → Option Bytes → List Effect
send_coded header none = []
send_coded header (some payload) = sends (clear_packet header payload) ∷ []

-- A handler after a call, what the call does, and the network.
abbrev pub Update : Type 0 → Type 0
Update Net = PortForwardHandler × List Effect × Net

module _ {Net : Type 0} (tcp : Tcp Net) where
  abbrev pub listening : PortForwardHandler → Endpoint → ℕ × Net → PortForwardHandler × Net
  listening h destination (socket, n) = if socket == invalid_socket then (h, n) else (
    record h {
      listeners = h.listeners ++ record { listen_socket = socket; destination = destination } ∷ [];
    },
    n,
  )

  abbrev pub add_listener :
      PortForwardHandler → Net → Option Endpoint → Option Endpoint → PortForwardHandler × Net
  add_listener h n (some source) (some destination) =
      let name = if is_empty source.name then localhost else source.name in
      listening h destination (tcp.listen name source.port n)
  add_listener h n _ _ = (h, n)

  -- `AddForwardRequest`
  unfoldable pub add_forward_request :
      PortForwardHandler → SourceRequest → Net → PortForwardHandler × Net
  add_forward_request h request n =
      if h.server_side then (h, n) else add_listener h n request.source request.destination

  module _ (codec : Codec) where
    abbrev pub accepted : PortForwardHandler → Endpoint → ℕ × Net → Update Net
    accepted h destination (socket, n) = if socket == invalid_socket then (h, [], n) else (
      record h {
        next_client_fd = h.next_client_fd + 1;
        pending_clients = put (pos h.next_client_fd) socket h.pending_clients;
      },
      send_coded destination_request (
          codec.put_request
            (record { destination = some destination; fd = some (pos h.next_client_fd) })),
      n,
    )

    -- A round of the first loop of `HandleClientData`.
    unfoldable pub poll_listener : PortForwardHandler → Listener → Net → Update Net
    poll_listener h l n =
        if not (tcp.has_data l.listen_socket n)
        then (h, [], n)
        else accepted h l.destination (tcp.accept l.listen_socket n)

    unfoldable pub poll_listeners : List Listener → PortForwardHandler → Net → Update Net
    poll_listeners [] h n = (h, [], n)
    poll_listeners (l ∷ ls) h n =
        let (h', done, n') = poll_listener h l n in
        let (h'', later, n'') = poll_listeners ls h' n' in (h'', done ++ later, n'')

    abbrev pub closing_data : Bool → ℤ → Data
    closing_data to_destination id = record {
      source_to_destination = to_destination;
      socket_id = some id;
      buffer = [];
      closed = true;
    }

    abbrev pub chunk : Bool → ℤ → Bytes → Data
    chunk to_destination id bytes = record {
      source_to_destination = to_destination;
      socket_id = some id;
      buffer = bytes;
      closed = false;
    }

    -- What follows the `Read` of an active socket: its bytes are sent, or its end, and then it is closed.
    abbrev pub forwarded : Bool → ℤ → ℕ → Answer → List Effect
    forwarded to_destination id socket (received bytes) =
        send_coded forward_data (codec.put_data (chunk to_destination id bytes))
    forwarded to_destination id socket closed =
        send_coded forward_data (codec.put_data (closing_data to_destination id))
        ++ closes socket ∷ []
    forwarded to_destination id socket failed =
        send_coded forward_data (codec.put_data (closing_data to_destination id))
        ++ closes socket ∷ []

    -- A round of the loop over `active_sockets_`, in either direction.
    unfoldable pub poll_socket : Bool → ℤ → ℕ → Net → List Effect × Net
    poll_socket to_destination id socket n =
        if not (tcp.has_data socket n)
        then ([], n)
        else let (answer, n') = tcp.receive socket 4096 n in
          (forwarded to_destination id socket answer, n')

    unfoldable pub poll_sockets : Bool → Table ℤ ℕ → Net → List Effect × Net
    poll_sockets to_destination [] n = ([], n)
    poll_sockets to_destination ((id, socket) ∷ t) n =
        let (done, n') = poll_socket to_destination id socket n in
        let (later, n'') = poll_sockets to_destination t n' in (done ++ later, n'')

    -- `HandleClientData`
    unfoldable pub handle_client_data : PortForwardHandler → Net → Update Net
    handle_client_data h n =
        let (h', done, n') = poll_listeners h.listeners h n in
        let (later, n'') = poll_sockets true h'.active_sockets n' in (h', done ++ later, n'')

    -- `HandleServerData`
    unfoldable pub handle_server_data : PortForwardHandler → Net → Update Net
    handle_server_data h n = let (done, n') = poll_sockets false h.active_sockets n in (h, done, n')

    -- `PortForwardHandler::Update`
    unfoldable pub update : PortForwardHandler → Net → Update Net
    update h n = if h.server_side then handle_server_data h n else handle_client_data h n

    abbrev pub answered : PortForwardHandler → Net → ℤ → ℤ → Bytes → Option ℕ → Update Net
    answered h n id fd error none = (h, [], n)
    answered h n id fd error (some socket) =
        if not (is_empty error)
        then (record h { pending_clients = erase fd h.pending_clients }, closes socket ∷ [], n)
        else (
          record h {
            active_sockets = put id socket h.active_sockets;
            pending_clients = erase fd h.pending_clients;
          },
          [],
          n,
        )

    -- The answer to a request: the waiting client becomes active, or is closed.
    unfoldable pub handle_response :
        PortForwardHandler → Net → Option DestinationResponse → Update Net
    handle_response h n none = (h, [], n)
    handle_response h n (some response) = elim response.socket_id [
      | none ↦ (h, [], n)
      | some id ↦ elim response.client_fd [
        | none ↦ (h, [], n)
        | some fd ↦ answered h n id fd response.error (find fd h.pending_clients)
      ]
    ]

    abbrev pub connected : PortForwardHandler → ℤ → ℕ × Net → Update Net
    connected h fd (socket, n) =
        if socket == invalid_socket
        then (
          h,
          send_coded destination_response (
              codec.put_response (record {
                client_fd = some fd;
                socket_id = none;
                error = Messages.connect_failed;
              })),
          n,
        )
        else (
          record h {
            next_socket_id = h.next_socket_id + 1;
            active_sockets = put (pos h.next_socket_id) socket h.active_sockets;
          },
          send_coded destination_response (
              codec.put_response (record {
                client_fd = some fd;
                socket_id = some (pos h.next_socket_id);
                error = [];
              })),
          n,
        )

    -- A request at the server: connect, and answer with an id or an error.
    unfoldable pub handle_request :
        PortForwardHandler → Net → Option DestinationRequest → Update Net
    handle_request h n none = (h, [], n)
    handle_request h n (some request) = elim request.destination [
      | none ↦ (h, [], n)
      | some destination ↦ elim request.fd [
        | none ↦ (h, [], n)
        | some fd ↦ connected h fd (tcp.dial destination n)
      ]
    ]

    abbrev pub delivered : PortForwardHandler → Net → ℤ → Data → Option ℕ → Update Net
    delivered h n id d none = (h, [], n)
    delivered h n id d (some socket) =
        if d.closed
        then (record h { active_sockets = erase id h.active_sockets }, closes socket ∷ [], n)
        else if is_empty d.buffer
        then (h, [], n)
        else (h, writes socket d.buffer ∷ [], n)

    -- Data of the other end: written to the socket of its id, or the socket is closed and forgotten.
    unfoldable pub handle_data : PortForwardHandler → Net → Option Data → Update Net
    handle_data h n none = (h, [], n)
    handle_data h n (some d) = elim d.socket_id [
      | none ↦ (h, [], n)
      | some id ↦ delivered h n id d (find id h.active_sockets)
    ]

    -- `PortForwardHandler::HandlePacket`
    unfoldable pub handle_packet : PortForwardHandler → Packet → Net → Update Net
    handle_packet h p n =
        if p.header == destination_response
        then handle_response h n (codec.get_response p.payload)
        else if (p.header == destination_request) && h.server_side
        then handle_request h n (codec.get_request p.payload)
        else if p.header == forward_data
        then handle_data h n (codec.get_data p.payload)
        else (h, [], n)
