-- ===== src/PortForward/Pairing.antt =====
-- A tunnel between two ends: how it is opened, and what it carries.
use undying_terminal.Prelude.{
  ℕ, ◌+◌, ◌≡◌, ◌≢◌, refl, Bool, true, false, none, some, [], ◌∷◌, ◌++◌, ◌==◌, ==_iff, if◌then◌else◌,
  inl, inr, Bool-cases, arith, append-nil,
}
use undying_terminal.Prelude.Int.{ℤ, pos}
use undying_terminal.Reader.{Answer, received, closed, failed}
use undying_terminal.Writer.{invalid_socket}
use undying_terminal.Table.{int_key, find, put, erase}
use undying_terminal.Table.Laws.{find-put_self, find-erase_self}
use undying_terminal.PortForward.{
  Tcp, Listener, PortForwardHandler, writes, closes, Update, poll_listener, chunk, connected,
  forwarded, closing_data, poll_socket, send_coded, handle_request, handle_response, handle_data,
}
use undying_terminal.PortForward.Messages.{
  DestinationResponse, Codec, IsCodec, destination_request, destination_response, connect_failed,
}
use undying_terminal.PortForward.Relay.{
  IsTotal, relay, relay_request, relay_response, relay_datum, relay_data,
}

ne-invalid : (s : ℕ) → s ≢ invalid_socket → (s == invalid_socket) ≡ false
ne-invalid s ne = ground arith

-- A client behind a listening socket, and the server that it asks to dial for it.
module _ {Near Far : Type 0} (near : Tcp Near) (far : Tcp Far) (codec : Codec)
    (client server : PortForwardHandler) (l : Listener) (n : Near) (m : Far) where
  -- The client polls; the server is handed what that sends; the client is handed the answer.
  unfoldable pub after_accept : Update Near
  after_accept = poll_listener near codec client l n

  unfoldable pub after_dial : Update Far
  after_dial = relay far codec after_accept.1 server m

  unfoldable pub after_answer : Update Near
  after_answer = relay near codec after_dial.1 after_accept.0 after_accept.2

module _ {Near Far : Type 0} (near : Tcp Near) (far : Tcp Far) (codec : Codec)
    (coded : IsCodec codec) (total : IsTotal codec) (client server : PortForwardHandler)
    (l : Listener) (n n' : Near) (m m' : Far) (local remote : ℕ)
    (server_side : server.server_side ≡ true) (ready : near.has_data l.listen_socket n ≡ true)
    (accepts : near.accept l.listen_socket n ≡ (local, n')) (valid : local ≢ invalid_socket)
    (dials : far.dial l.destination m ≡ (remote, m')) where
  waiting : PortForwardHandler
  waiting = record client {
    next_client_fd = client.next_client_fd + 1;
    pending_clients = put (pos client.next_client_fd) local client.pending_clients;
  }

  after_accept_lem : after_accept near far codec client server l n m ≡ (
    waiting,
    send_coded destination_request (
        codec.put_request
          (record { destination = some l.destination; fd = some (pos client.next_client_fd) })),
    n',
  )
  unfolding after_accept poll_listener waiting
  after_accept_lem = simp (ready, accepts, ne-invalid local valid)

  -- What the server answers.
  answer : DestinationResponse
  answer =
      if remote == invalid_socket
      then record {
        client_fd = some (pos client.next_client_fd);
        socket_id = none;
        error = connect_failed;
      }
      else record {
        client_fd = some (pos client.next_client_fd);
        socket_id = some (pos server.next_socket_id);
        error = [];
      }

  dialled : PortForwardHandler
  dialled = if remote == invalid_socket then server else record server {
    next_socket_id = server.next_socket_id + 1;
    active_sockets = put (pos server.next_socket_id) remote server.active_sockets;
  }

  connected_lem :
      connected far codec server (pos client.next_client_fd) (remote, m')
      ≡ (dialled, send_coded destination_response (codec.put_response answer), m')
  unfolding dialled answer
  connected_lem = elim (Bool-cases (remote == invalid_socket)) [ inl y ↦ simp y | inr n ↦ simp n ]

  after_dial_lem :
      after_dial near far codec client server l n m
      ≡ (dialled, send_coded destination_response (codec.put_response answer) ++ [], m')
  unfolding after_dial handle_request
  after_dial_lem = simp (
    after_accept_lem,
    relay_request far codec coded total _ server m server_side,
    dials,
    connected_lem,
  )

  after_answer_lem : after_answer near far codec client server l n m ≡ (
      let (h', done, n'') = handle_response near codec waiting n' (some answer) in
      (h', done ++ [], n''))
  unfolding after_answer
  after_answer_lem = simp (
    after_accept_lem,
    after_dial_lem,
    append-nil,
    relay_response near codec coded total answer waiting n',
  )

  opened_lem :
      remote ≢ invalid_socket
      → handle_response near codec waiting n' (some answer) ≡ (
        record waiting {
          active_sockets = put (pos server.next_socket_id) local client.active_sockets;
          pending_clients =
              erase
                (pos client.next_client_fd)
                (put (pos client.next_client_fd) local client.pending_clients);
        },
        [],
        n',
      )
  unfolding handle_response answer waiting
  opened_lem dialled_it = simp (
    ne-invalid remote dialled_it,
    find-put_self (pos client.next_client_fd) local client.pending_clients,
  )

  dialled_lem :
      remote ≢ invalid_socket
      → find (pos server.next_socket_id) dialled.active_sockets ≡ some remote
  unfolding dialled
  dialled_lem dialled_it = simp (
    ne-invalid remote dialled_it,
    find-put_self (pos server.next_socket_id) remote server.active_sockets,
  )

  -- Where the server's dial succeeds, both ends hold the tunnel under the id that the server chose, each
  -- with its own socket, the client no longer waits, and nothing is closed or sent any more.
  pub tunnel_opens :
      remote ≢ invalid_socket
      → (find
            (pos server.next_socket_id)
            (after_answer near far codec client server l n m).0.active_sockets
          ≡ some local)
        × (find
              (pos client.next_client_fd)
              (after_answer near far codec client server l n m).0.pending_clients
            ≡ none)
        × (find
              (pos server.next_socket_id)
              (after_dial near far codec client server l n m).0.active_sockets
            ≡ some remote)
        × ((after_answer near far codec client server l n m).1 ≡ [])
  tunnel_opens dialled_it =
      simp (after_answer_lem, after_dial_lem, opened_lem dialled_it)
        (
          find-put_self _ local _,
          find-erase_self (pos client.next_client_fd) _,
          dialled_lem dialled_it,
          refl,
        )

  -- Where the dial fails the client drops the answer, since that has no socket id: its own socket stays
  -- open and waiting for good, and nothing is closed or sent.
  pub tunnel_refused :
      remote ≡ invalid_socket
      → (find
            (pos client.next_client_fd)
            (after_answer near far codec client server l n m).0.pending_clients
          ≡ some local)
        × ((after_answer near far codec client server l n m).0.active_sockets
            ≡ client.active_sockets)
        × ((after_answer near far codec client server l n m).1 ≡ [])
        × ((after_dial near far codec client server l n m).0 ≡ server)
  unfolding dialled answer waiting handle_response
  tunnel_refused lost =
      let bad = (==_iff remote invalid_socket).1 lost in
      simp (after_answer_lem, after_dial_lem, bad) (find-put_self _ local _, refl, refl, refl)

-- A socket of one end, and the socket of the same id at the other end.
module _ {Near Far : Type 0} (near : Tcp Near) (far : Tcp Far) (codec : Codec)
    (coded : IsCodec codec) (total : IsTotal codec) (to_destination : Bool) (id : ℤ) (a b : ℕ)
    (other : PortForwardHandler) (n n' : Near) (m : Far) where
  -- The other end writes the bytes that were read, or closes its socket and forgets the id.
  abbrev pub carried : Answer → Update Far
  carried (received bytes) = (other, writes b bytes ∷ [], m)
  carried closed =
      (record other { active_sockets = erase id other.active_sockets }, closes b ∷ [], m)
  carried failed =
      (record other { active_sockets = erase id other.active_sockets }, closes b ∷ [], m)

  carried_lem :
      (answer : Answer)
      → answer ≢ received []
      → find id other.active_sockets ≡ some b
      → relay far codec (forwarded near codec to_destination id a answer) other m ≡ carried answer
  unfolding handle_data relay
  carried_lem (received []) some_bytes found = absurd (some_bytes refl)
  carried_lem (received (x ∷ xs)) some_bytes found = simp (
    relay_datum far codec coded total (chunk near codec to_destination id (x ∷ xs)) other m,
    found,
  )
  carried_lem closed some_bytes found = simp (
    relay_data far codec coded total (closing_data near codec to_destination id) (closes a ∷ [])
        other m,
    found,
  )
  carried_lem failed some_bytes found = simp (
    relay_data far codec coded total (closing_data near codec to_destination id) (closes a ∷ [])
        other m,
    found,
  )

  -- What one end reads from its socket of an open tunnel, in either direction, the other end writes to
  -- its own socket, whole; when the read ends or fails, the other end closes its socket and forgets it.
  pub tunnel_carries :
      (answer : Answer)
      → near.has_data a n ≡ true
      → near.receive a 4096 n ≡ (answer, n')
      → answer ≢ received []
      → find id other.active_sockets ≡ some b
      → relay far codec (poll_socket near codec to_destination id a n).0 other m ≡ carried answer
  unfolding poll_socket
  tunnel_carries answer ready reads some_bytes found =
      simp (ready, reads) (carried_lem answer some_bytes found)
