-- ===== src/Connection/Client/Returning.antt =====
-- `ClientConnection::Connect` by the status that the server answers.
use undying_terminal.Prelude.{
  ℕ, true, false, ◌≡◌, ◌≢◌, refl, inl, inr, Bool-cases, Option, none, some, List, [], ◌==◌, length,
  arith, Bytes,
}
use undying_terminal.Prelude.Int.{ℤ}
use undying_terminal.Connection.Server.{client_server_nonce_msb, server_client_nonce_msb}
use undying_terminal.Result.{Result, ok, throw, ◌>>=◌, Error, active_socket}
use undying_terminal.Crypto.{CryptoHandler, new_crypto, initial_nonce, key_bytes}
use undying_terminal.Reader.{BackedReader, new_reader}
use undying_terminal.Writer.{BackedWriter, invalid_socket, new_writer}
use undying_terminal.Writer
use undying_terminal.Connection.{Exchange, exchange_catchup, recover}
use undying_terminal.Connection.Client.{
  ClientConnection, Attempt, Connected, new_client, returning_client, handshake, connect,
  with_socket, with_reader, with_writer, finish_connect,
}

-- No connection came of the call.
abbrev pub Fails : Option Connected → Type 0
Fails none = ⊥
Fails (some (c, connected, closes)) = (connected ≡ false) × (c.base.socket ≡ invalid_socket)

recover_live :
    (w : BackedWriter) (last_valid : ℤ)
    → (w.socket == invalid_socket) ≡ false
    → Writer.recover w last_valid ≡ throw active_socket
unfolding Writer.recover
recover_live w last_valid live = rw live

-- `BackedWriter::Recover` refuses a writer that has a socket, whatever the peer says.
exchange_live :
    (w : BackedWriter) (x : Exchange)
    → (w.socket == invalid_socket) ≡ false
    → (e : Error) × (exchange_catchup w x ≡ throw e)
unfolding exchange_catchup
exchange_live w x live =
    go x.header_written x.remote_header
      (λ recovered. x.catchup_written >>= λ _. x.inbound >>= λ inbound. ok (recovered, inbound))
  where
    go :
        (written : Result (Unit {0})) (remote : Result ℤ)
        (after : List Bytes → Result (List Bytes × List Bytes))
        → (e : Error) × ((written >>= λ _. remote >>= λ r. Writer.recover w r >>= after) ≡ throw e)
    go (throw e) remote after = (e, refl)
    go (ok _) (throw e) after = (e, refl)
    go (ok _) (ok last_valid) after = (active_socket, rw (recover_live w last_valid live))

finish-returning :
    (c : ClientConnection) (socket : ℕ) (a : Attempt) (r : BackedReader) (w : BackedWriter)
    → c.returning ≡ true
    → c.base.reader ≡ some r
    → c.base.writer ≡ some w
    → (w.socket == invalid_socket) ≡ false
    → Fails (finish_connect c socket a)
unfolding recover
finish-returning c socket a r w back er ew live = ground (arith, exchange_live w a.exchange live)

with_writer-returning :
    (c : ClientConnection) (socket : ℕ) (a : Attempt) (r : BackedReader)
    (made : Result CryptoHandler)
    → c.returning ≡ true
    → c.base.reader ≡ some r
    → (socket == invalid_socket) ≡ false
    → Fails (with_writer c socket a made)
unfolding new_writer
with_writer-returning c socket a r (throw e) back er live = (refl, refl)
with_writer-returning c socket a r (ok crypto) back er live =
    finish-returning
      (record c { base = record (c.base) { writer = some (new_writer crypto socket) } }) socket a r
      _ back er refl live

with_reader-returning :
    (c : ClientConnection) (socket : ℕ) (a : Attempt) (made : Result CryptoHandler)
    → c.returning ≡ true
    → (socket == invalid_socket) ≡ false
    → Fails (with_reader c socket a made)
with_reader-returning c socket a (throw e) back live = (refl, refl)
with_reader-returning c socket a (ok crypto) back live =
    with_writer-returning
      (record c { base = record (c.base) { reader = some (new_reader crypto socket) } }) socket a _
      _ back refl live

-- A client that the server answers as a returning one never connects by `Connect`: either there is no
-- socket, or its new writer has one, so that the recovery is refused and the socket is closed.
pub connect-returning :
    (c : ClientConnection) (a : Attempt) → handshake a ≡ ok returning_client → Fails (connect c a)
unfolding connect
connect-returning c a e = elim (Bool-cases (a.new_socket == invalid_socket)) [
  | inl unconnected ↦ rw unconnected (refl, refl)
  | inr live ↦
      rw (live, e)
        (with_reader-returning (record (with_socket c a.new_socket) { returning = true })
          a.new_socket a (new_crypto c.base.key server_client_nonce_msb) refl live)
]

-- The client that `Connect` leaves for a new session: reader, writer and connection share the socket,
-- and the two handlers start at the two nonces of the protocol.
abbrev pub Starts : ℕ → Option Connected → Type 0
Starts socket none = ⊥
Starts socket (some (c, connected, closes)) =
    (connected ≡ true)
    × (closes ≡ [])
    × (c.base.socket ≡ socket)
    × (c.returning ≡ false)
    × (c.base.reader
        ≡ some (
            new_reader (record { nonce = initial_nonce server_client_nonce_msb; key = c.base.key })
              socket))
    × (c.base.writer
        ≡ some (
            new_writer (record { nonce = initial_nonce client_server_nonce_msb; key = c.base.key })
              socket))

new_crypto_lem :
    (key : Bytes) (msb : ℕ)
    → length key ≡ key_bytes
    → new_crypto key msb ≡ ok (record { nonce = initial_nonce msb; key = key })
unfolding new_crypto
new_crypto_lem key msb long = ground arith

-- `Connect` succeeds whenever there is a socket, the key has the right length and the server answers a new client.
pub connect-new :
    (c : ClientConnection) (a : Attempt)
    → handshake a ≡ ok new_client
    → a.new_socket ≢ invalid_socket
    → length c.base.key ≡ key_bytes
    → Starts a.new_socket (connect c a)
unfolding connect
connect-new c a e live long =
    let open_socket : (a.new_socket == invalid_socket) ≡ false = ground arith in
    rw
      (
        open_socket,
        e,
        new_crypto_lem c.base.key server_client_nonce_msb long,
        new_crypto_lem c.base.key client_server_nonce_msb long,
      )
      (refl, refl, refl, refl, refl, refl)
