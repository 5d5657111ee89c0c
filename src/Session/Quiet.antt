-- ===== src/Session/Quiet.antt =====
-- Port forwarding sends no packet of a terminal.
use undying_terminal.Prelude.{
  ℕ, ◌≡◌, refl, ap, Bool, true, false, not, ◌&&◌, Option, none, some, List, [], ◌∷◌, ◌++◌, ◌==◌,
  inl, inr, Bool-cases, if◌then◌else◌, Bytes,
}
use undying_terminal.Prelude.Int.{ℤ}
use undying_terminal.Reader.{Answer, received, closed, failed}
use undying_terminal.Writer.{invalid_socket, is_empty}
use undying_terminal.Table.{Table, int_key}
use undying_terminal.Packet.{Packet}
use undying_terminal.PortForward.{
  Tcp, Listener, PortForwardHandler, Effect, sends, writes, closes, Update, send_coded,
  handle_packet, update, accepted, poll_listener, poll_listeners, forwarded, poll_socket,
  poll_sockets, handle_client_data, handle_server_data, answered, handle_response, connected,
  handle_request, delivered, handle_data,
}
use undying_terminal.PortForward.Messages.{
  Endpoint, DestinationRequest, DestinationResponse, Data, Codec, destination_request,
  destination_response, forward_data,
}
use undying_terminal.Session.{terminal_buffer, sent}

pub sent-append : (es fs : List Effect) → sent (es ++ fs) ≡ sent es ++ sent fs
unfolding sent
sent-append [] fs = refl
sent-append (sends p ∷ es) fs = ap (◌∷◌ p) (sent-append es fs)
sent-append (writes s b ∷ es) fs = sent-append es fs
sent-append (closes s ∷ es) fs = sent-append es fs

-- No packet has the type of a terminal's bytes.
abbrev pub IsQuiet : List Effect → Type 0
IsQuiet [] = Unit {0}
IsQuiet (sends p ∷ es) = ((p.header == terminal_buffer) ≡ false) × IsQuiet es
IsQuiet (writes s b ∷ es) = IsQuiet es
IsQuiet (closes s ∷ es) = IsQuiet es

append-IsQuiet : (es fs : List Effect) → IsQuiet es → IsQuiet fs → IsQuiet (es ++ fs)
append-IsQuiet [] fs q r = r
append-IsQuiet (sends p ∷ es) fs q r = (q.0, append-IsQuiet es fs q.1 r)
append-IsQuiet (writes s b ∷ es) fs q r = append-IsQuiet es fs q r
append-IsQuiet (closes s ∷ es) fs q r = append-IsQuiet es fs q r

send_coded-IsQuiet :
    (header : ℕ) (o : Option Bytes)
    → (header == terminal_buffer) ≡ false
    → IsQuiet (send_coded header o)
send_coded-IsQuiet header none h = tt
send_coded-IsQuiet header (some b) h = (h, tt)

if-IsQuiet :
    {Net : Type 0} (b : Bool) (u v : Update Net)
    → IsQuiet u.1
    → IsQuiet v.1
    → IsQuiet (if b then u else v).1
if-IsQuiet true u v q r = q
if-IsQuiet false u v q r = r

module _ {Net : Type 0} (tcp : Tcp Net) (tunnels : Codec) where
  accepted-IsQuiet :
      (h : PortForwardHandler) (destination : Endpoint) (c : ℕ × Net)
      → IsQuiet (accepted tcp tunnels h destination c).1
  accepted-IsQuiet h destination (socket, n) =
      if-IsQuiet (socket == invalid_socket) _ _ tt (send_coded-IsQuiet destination_request _ refl)

  poll_listener-IsQuiet :
      (h : PortForwardHandler) (l : Listener) (n : Net)
      → IsQuiet (poll_listener tcp tunnels h l n).1
  unfolding poll_listener
  poll_listener-IsQuiet h l n =
      if-IsQuiet (not (tcp.has_data l.listen_socket n)) _ _ tt
        (accepted-IsQuiet h l.destination (tcp.accept l.listen_socket n))

  poll_listeners-IsQuiet :
      (ls : List Listener) (h : PortForwardHandler) (n : Net)
      → IsQuiet (poll_listeners tcp tunnels ls h n).1
  unfolding poll_listeners
  poll_listeners-IsQuiet [] h n = tt
  poll_listeners-IsQuiet (l ∷ ls) h n =
      append-IsQuiet (poll_listener tcp tunnels h l n).1 _ (poll_listener-IsQuiet h l n)
        (poll_listeners-IsQuiet ls _ _)

  forwarded-IsQuiet :
      (to_destination : Bool) (id : ℤ) (socket : ℕ) (a : Answer)
      → IsQuiet (forwarded tcp tunnels to_destination id socket a)
  forwarded-IsQuiet to_destination id socket (received bytes) =
      send_coded-IsQuiet forward_data _ refl
  forwarded-IsQuiet to_destination id socket closed =
      append-IsQuiet (send_coded forward_data _) (closes socket ∷ [])
        (send_coded-IsQuiet forward_data _ refl) tt
  forwarded-IsQuiet to_destination id socket failed =
      append-IsQuiet (send_coded forward_data _) (closes socket ∷ [])
        (send_coded-IsQuiet forward_data _ refl) tt

  poll_socket-IsQuiet :
      (to_destination : Bool) (id : ℤ) (socket : ℕ) (n : Net)
      → IsQuiet (poll_socket tcp tunnels to_destination id socket n).0
  unfolding poll_socket
  poll_socket-IsQuiet to_destination id socket n = elim (Bool-cases (tcp.has_data socket n)) [
    | inl y ↦ rw y (forwarded-IsQuiet to_destination id socket (tcp.receive socket 4096 n).0)
    | inr no_data ↦ rw no_data tt
  ]

  poll_sockets-IsQuiet :
      (to_destination : Bool) (t : Table ℤ ℕ) (n : Net)
      → IsQuiet (poll_sockets tcp tunnels to_destination t n).0
  unfolding poll_sockets
  poll_sockets-IsQuiet to_destination [] n = tt
  poll_sockets-IsQuiet to_destination ((id, socket) ∷ t) n =
      append-IsQuiet (poll_socket tcp tunnels to_destination id socket n).0 _
        (poll_socket-IsQuiet to_destination id socket n) (poll_sockets-IsQuiet to_destination t _)

  pub update-IsQuiet : (h : PortForwardHandler) (n : Net) → IsQuiet (update tcp tunnels h n).1
  unfolding update handle_client_data handle_server_data
  update-IsQuiet h n =
      if-IsQuiet h.server_side _ _ (poll_sockets-IsQuiet false h.active_sockets n) (
        append-IsQuiet (poll_listeners tcp tunnels h.listeners h n).1 _
          (poll_listeners-IsQuiet h.listeners h n) (poll_sockets-IsQuiet true _ _))

  answered-IsQuiet :
      (h : PortForwardHandler) (n : Net) (id fd : ℤ) (error : Bytes) (o : Option ℕ)
      → IsQuiet (answered tcp tunnels h n id fd error o).1
  answered-IsQuiet h n id fd error none = tt
  answered-IsQuiet h n id fd error (some socket) = if-IsQuiet (not (is_empty error)) _ _ tt tt

  handle_response-IsQuiet :
      (h : PortForwardHandler) (n : Net) (o : Option DestinationResponse)
      → IsQuiet (handle_response tcp tunnels h n o).1
  unfolding handle_response
  handle_response-IsQuiet h n none = tt
  handle_response-IsQuiet h n (some r) = go r.socket_id r.client_fd
    where
      go :
          (id fd : Option ℤ)
          → IsQuiet
              (handle_response tcp tunnels h n
                (some (record { client_fd = fd; socket_id = id; error = r.error }))).1
      go none fd = tt
      go (some id) none = tt
      go (some id) (some fd) = answered-IsQuiet h n id fd r.error _

  connected-IsQuiet :
      (h : PortForwardHandler) (fd : ℤ) (c : ℕ × Net) → IsQuiet (connected tcp tunnels h fd c).1
  connected-IsQuiet h fd (socket, n) =
      if-IsQuiet (socket == invalid_socket) _ _ (send_coded-IsQuiet destination_response _ refl)
        (send_coded-IsQuiet destination_response _ refl)

  handle_request-IsQuiet :
      (h : PortForwardHandler) (n : Net) (o : Option DestinationRequest)
      → IsQuiet (handle_request tcp tunnels h n o).1
  unfolding handle_request
  handle_request-IsQuiet h n none = tt
  handle_request-IsQuiet h n (some r) = go r.destination r.fd
    where
      go :
          (d : Option Endpoint) (fd : Option ℤ)
          → IsQuiet (handle_request tcp tunnels h n (some (record { destination = d; fd = fd }))).1
      go none fd = tt
      go (some d) none = tt
      go (some d) (some fd) = connected-IsQuiet h fd (tcp.dial d n)

  delivered-IsQuiet :
      (h : PortForwardHandler) (n : Net) (id : ℤ) (d : Data) (o : Option ℕ)
      → IsQuiet (delivered tcp tunnels h n id d o).1
  delivered-IsQuiet h n id d none = tt
  delivered-IsQuiet h n id d (some socket) =
      if-IsQuiet d.closed _
        (if is_empty d.buffer then (h, [], n) else (h, writes socket d.buffer ∷ [], n)) tt
        (if-IsQuiet (is_empty d.buffer) (h, [], n) (h, writes socket d.buffer ∷ [], n) tt tt)

  handle_data-IsQuiet :
      (h : PortForwardHandler) (n : Net) (o : Option Data)
      → IsQuiet (handle_data tcp tunnels h n o).1
  unfolding handle_data
  handle_data-IsQuiet h n none = tt
  handle_data-IsQuiet h n (some d) = go d.socket_id
    where
      go :
          (id : Option ℤ)
          → IsQuiet
              (handle_data tcp tunnels h n (
                some (record {
                  source_to_destination = d.source_to_destination;
                  socket_id = id;
                  buffer = d.buffer;
                  closed = d.closed;
                }))).1
      go none = tt
      go (some id) = delivered-IsQuiet h n id d _

  pub handle_packet-IsQuiet :
      (h : PortForwardHandler) (p : Packet) (n : Net) → IsQuiet (handle_packet tcp tunnels h p n).1
  unfolding handle_packet
  handle_packet-IsQuiet h p n =
      if-IsQuiet (p.header == destination_response) _ _ (handle_response-IsQuiet h n _) (
        if-IsQuiet ((p.header == destination_request) && h.server_side) _ _
          (handle_request-IsQuiet h n _)
          (if-IsQuiet (p.header == forward_data) _ _ (handle_data-IsQuiet h n _) tt))
