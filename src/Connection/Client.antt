-- ===== src/Connection/Client.antt =====
-- src/ut/protocol/ClientConnection.{hpp,cpp}: the client's end, which connects and reconnects. One
-- attempt's network events are a record; the polling loop runs on the list of its attempts.
pub mod Returning
use undying_terminal.Prelude.{
  ℕ, Bool, true, false, not, ◌&&◌, ◌||◌, Option, none, some, List, [], ◌∷◌, ◌++◌, ◌==◌,
  if◌then◌else◌, Bytes,
}
use undying_terminal.Result.{Result, ok, throw, ◌>>=◌}
use undying_terminal.Crypto.{CryptoHandler, new_crypto}
use undying_terminal.Reader.{new_reader}
use undying_terminal.Writer.{invalid_socket, new_writer}
use undying_terminal.Connection.{
  Connection, Exchange, Recovered, new_connection, close_socket, recover,
}
use undying_terminal.Connection.Server.{client_server_nonce_msb, server_client_nonce_msb}

-- `ConnectStatus` of proto/UT.proto.
pub data Status : Type 0 where
  new_client returning_client invalid_key mismatched_protocol : Status

abbrev pub is_returning : Status → Bool
is_returning returning_client = true
is_returning _ = false

abbrev pub is_accepted : Status → Bool
is_accepted new_client = true
is_accepted returning_client = true
is_accepted _ = false

abbrev pub is_invalid_key : Status → Bool
is_invalid_key invalid_key = true
is_invalid_key _ = false

-- `polling` says that `reconnect_thread_` holds a thread that runs `PollReconnect`.
pub record ClientConnection : Type 0 where
  pub base : Connection
  pub reconnect_enabled : Bool
  pub returning : Bool
  pub polling : Bool

-- What one attempt to connect meets: the socket of `TcpSocketHandler::Connect`, the two calls of the
-- handshake, the exchange of a recovery; and the flags that other threads have set before a round.
pub record Attempt : Type 0 where
  pub new_socket : ℕ
  pub request_written : Result (Unit {0})
  pub response : Result Status
  pub exchange : Exchange
  pub shut_down : Bool
  pub disabled : Bool

unfoldable pub new_client_connection : Bytes → Bytes → ClientConnection
new_client_connection id key = record {
  base = new_connection id key;
  reconnect_enabled = true;
  returning = false;
  polling = false;
}

-- The client after a call, its result, and the sockets closed, in order.
abbrev pub Connected : Type 0
Connected = ClientConnection × Bool × List ℕ

abbrev pub with_socket : ClientConnection → ℕ → ClientConnection
with_socket c socket = record c { base = record (c.base) { socket = socket } }

-- Closing the new socket and giving up, as `Connect` does in four places.
abbrev pub give_up : ClientConnection → ℕ → Connected
give_up c socket = (with_socket c invalid_socket, false, socket ∷ [])

-- `if (!Recover(socket_))` of `Connect`.
abbrev pub after_recover : ClientConnection → ℕ → Option Recovered → Option Connected
after_recover c socket none = none
after_recover c socket (some (base, true, closes)) = some (record c { base = base }, true, closes)
after_recover c socket (some (base, false, closes)) =
    some (with_socket (record c { base = base }) invalid_socket, false, closes ++ socket ∷ [])

-- `Connect` once both handlers exist.
abbrev pub finish_connect : ClientConnection → ℕ → Attempt → Option Connected
finish_connect c socket a =
    if c.returning
    then after_recover c socket (recover c.base socket a.exchange)
    else some (c, true, [])

-- The writer's handler, then the rest of `Connect`.
abbrev pub with_writer : ClientConnection → ℕ → Attempt → Result CryptoHandler → Option Connected
with_writer c socket a (throw e) = some (give_up c socket)
with_writer c socket a (ok crypto) =
    finish_connect
      (record c { base = record (c.base) { writer = some (new_writer crypto socket) } }) socket a

-- The reader's handler, then the rest of `Connect`.
abbrev pub with_reader : ClientConnection → ℕ → Attempt → Result CryptoHandler → Option Connected
with_reader c socket a (throw e) = some (give_up c socket)
with_reader c socket a (ok crypto) =
    with_writer (record c { base = record (c.base) { reader = some (new_reader crypto socket) } })
      socket a (new_crypto c.base.key client_server_nonce_msb)

-- What follows the server's answer.
abbrev pub connect_as : ClientConnection → ℕ → Attempt → Result Status → Option Connected
connect_as c socket a (throw e) = some (give_up c socket)
connect_as c socket a (ok status) =
    let answered = record c { returning = is_returning status } in
    if is_accepted status
    then with_reader answered socket a (new_crypto c.base.key server_client_nonce_msb)
    else some (give_up answered socket)

-- The handshake: a request, then the server's status.
abbrev pub handshake : Attempt → Result Status
handshake a = do _ ← a.request_written; a.response

-- `ClientConnection::Connect`; `none` where a null reader or writer is used.
unfoldable pub connect : ClientConnection → Attempt → Option Connected
connect c a =
    if a.new_socket == invalid_socket
    then some (with_socket c invalid_socket, false, [])
    else connect_as (with_socket c a.new_socket) a.new_socket a (handshake a)

-- `ClientConnection::CloseSocketAndMaybeReconnect`, behind the `join` of `WaitReconnect`.
unfoldable pub close_and_maybe_reconnect : ClientConnection → ClientConnection × List ℕ
close_and_maybe_reconnect c =
    let (closed, closes) = close_socket c.base in
    (record c { base = closed; polling = not closed.shutting_down && c.reconnect_enabled }, closes)

-- A round of `PollReconnect`: the client, the sockets closed, and whether the thread returns.
pub record Round : Type 0 where
  pub client : ClientConnection
  pub closes : List ℕ
  pub ends : Bool

abbrev pub after_poll : ClientConnection → Option Recovered → Option Round
after_poll c none = none
after_poll c (some (base, _, closes)) =
    some (record { client = record c { base = base }; closes = closes; ends = false })

abbrev pub poll_as : ClientConnection → Attempt → Result Status → Option Round
poll_as c a (throw e) = some (record { client = c; closes = a.new_socket ∷ []; ends = false })
poll_as c a (ok invalid_key) = some (record {
  client = record c { base = record (c.base) { shutting_down = true } };
  closes = a.new_socket ∷ [];
  ends = true;
})
poll_as c a (ok returning_client) = after_poll c (recover c.base a.new_socket a.exchange)
poll_as c a (ok _) = some (record { client = c; closes = a.new_socket ∷ []; ends = false })

unfoldable pub poll_round : ClientConnection → Attempt → Option Round
poll_round c a =
    let seen = record c {
      base = record (c.base) { shutting_down = c.base.shutting_down || a.shut_down };
      reconnect_enabled = c.reconnect_enabled && not a.disabled;
    } in
    if seen.base.shutting_down || not seen.reconnect_enabled
    then some (record { client = seen; closes = []; ends = true })
    else if a.new_socket == invalid_socket
    then some (record { client = seen; closes = []; ends = false })
    else poll_as seen a (handshake a)

abbrev pub more_rounds :
    Round
    → (ClientConnection → Option (ClientConnection × List ℕ))
    → Option (ClientConnection × List ℕ)
more_rounds r go =
    if r.ends
    then some (r.client, r.closes)
    else elim (go r.client) [ none ↦ none | some (c, closes) ↦ some (c, r.closes ++ closes) ]

-- `ClientConnection::PollReconnect`, up to the end of the attempts; what it has closed comes out.
unfoldable pub poll_reconnect : List Attempt → ClientConnection → Option (ClientConnection × List ℕ)
poll_reconnect [] c = some (c, [])
poll_reconnect (a ∷ later) c =
    let round : Option (ClientConnection × List ℕ) = elim (poll_round c a) [
      | none ↦ none
      | some r ↦ more_rounds r (poll_reconnect later)
    ] in
    if c.base.socket == invalid_socket then round else some (c, [])
