-- ===== src/TcpListener/Crashes.antt =====
-- The exceptions that can leave `HandleClient`, and so end the server.
use undying_terminal.Prelude.{
  ℕ, ◌≡◌, refl, true, ◌⊎◌, Option, none, some, ◌==◌, Bytes, Bool-cases, inl, inr, ==_iff, length,
}
use undying_terminal.Result.{Error, Result, ok, throw}
use undying_terminal.Text.{is_empty}
use undying_terminal.Table.{same_int, bytes_key, nat_key, find}
use undying_terminal.Crypto.{SecretBox, CryptoHandler, new_crypto, key_bytes}
use undying_terminal.Reader.{BackedReader}
use undying_terminal.Writer.{BackedWriter, invalid_socket}
use undying_terminal.Registry.{ClientSession, has_session, lookup_passkey, lookup_connection}
use undying_terminal.Connection.{
  Connection, Recovered, recover, recover_both, finish_recover, exchange_catchup,
}
use undying_terminal.Connection.Client.{Status}
use undying_terminal.Connection.Server.{
  new_server_connection, client_server_nonce_msb, server_client_nonce_msb,
}
use undying_terminal.TcpListener.{
  ConnectRequest, Listener, Meeting, Handled, Goes, terminates, protocol_version, handle_client,
  admit, choose, welcome, welcome_back, recovered, opened, refuse,
}
use undying_terminal.TcpListener.Works.{HasBoth}
use undying_terminal.TcpListener.Links.{LinkAt, LinkIn, Reachable, Reachable-IsLinked, made}

-- The session of the request has a key that is not of the right length.
abbrev pub HasBadKey : Listener → Meeting → Type 0
HasBadKey l m =
    (r : ConnectRequest) × (s : ClientSession ℕ) × (m.request ≡ ok r)
    × (find r.client_id l.registry ≡ some s)
    × ¬ (length s.passkey ≡ key_bytes)

-- Why an exception leaves the call: `WriteProto` throws it, or the constructor of the connection does.
abbrev pub Orderly : Listener → Meeting → Goes → Type 0
Orderly l m (terminates e) = (m.answered ≡ throw e) ⊎ HasBadKey l m
Orderly l m _ = Unit

new_crypto-throws :
    (key : Bytes) (msb : ℕ) (e : Error) → new_crypto key msb ≡ throw e → ¬ (length key ≡ key_bytes)
unfolding new_crypto
new_crypto-throws key msb e h long =
    let y = (==_iff (length key) key_bytes).1 long in apart (rw y at h)
  where
    apart : {c : CryptoHandler} → ¬ (ok c ≡ throw e)
    apart p = cc

made-throws :
    (id key : Bytes) (socket : ℕ) (a b : Result CryptoHandler) (e : Error)
    → new_crypto key client_server_nonce_msb ≡ a
    → new_crypto key server_client_nonce_msb ≡ b
    → made id key socket a b ≡ throw e
    → ¬ (length key ≡ key_bytes)
made-throws id key socket (throw x) b e at_a at_b h =
    new_crypto-throws key client_server_nonce_msb x at_a
made-throws id key socket (ok reading) (throw x) e at_a at_b h =
    new_crypto-throws key server_client_nonce_msb x at_b
made-throws id key socket (ok reading) (ok writing) e at_a at_b h = absurd (apart h)
  where
    apart : {c : Connection} → ¬ (ok c ≡ throw e)
    apart p = cc

module _ (l : Listener) (client : ℕ) (m : Meeting) where
  OrderlyOf : Handled → Type 0
  OrderlyOf h = Orderly l m h.goes

  refuse-Orderly :
      (st : Status) (w : Result (Unit {0})) → m.answered ≡ w → OrderlyOf (refuse l client st w)
  unfolding OrderlyOf
  refuse-Orderly st (ok _) e = tt
  refuse-Orderly st (throw x) e = inl e

  module _ (r : ConnectRequest) (s : ClientSession ℕ) (asked : m.request ≡ ok r)
      (found : find r.client_id l.registry ≡ some s) where
    opened-Orderly :
        (c : Result Connection)
        → new_server_connection r.client_id s.passkey client ≡ c
        → OrderlyOf (opened l r.client_id c)
    unfolding OrderlyOf new_server_connection
    opened-Orderly (ok c) e = tt
    opened-Orderly (throw x) e =
        inr (r, s, asked, found, made-throws r.client_id s.passkey client _ _ x refl refl e)

    welcome-Orderly :
        (w : Result (Unit {0}))
        → m.answered ≡ w
        → OrderlyOf (welcome l client r.client_id s.passkey w)
    unfolding OrderlyOf
    welcome-Orderly (ok _) e =
        opened-Orderly (new_server_connection r.client_id s.passkey client) refl
    welcome-Orderly (throw x) e = inl e

    some-Orderly : (address : ℕ) (o : Recovered) → OrderlyOf (recovered l client address (some o))
    unfolding OrderlyOf
    some-Orderly address (c, done, closes) = tt

    recover_both-Orderly :
        (address : ℕ) (c : Connection) (reader : BackedReader) (writer : BackedWriter)
        (a : Option BackedReader) (b : Option BackedWriter)
        → a ≡ some reader
        → b ≡ some writer
        → OrderlyOf (recovered l client address (recover_both c client m.exchange a b))
    recover_both-Orderly address c reader writer none b has_r has_w = absurd (none≢some has_r)
      where
        none≢some : ¬ (none ≡ some reader)
        none≢some e = cc
    recover_both-Orderly address c reader writer (some x) none has_r has_w =
        absurd (none≢some has_w)
      where
        none≢some : ¬ (none ≡ some writer)
        none≢some e = cc
    recover_both-Orderly address c reader writer (some x) (some y) has_r has_w =
        some-Orderly address (finish_recover c x y client (exchange_catchup y m.exchange))

    recovered-Orderly :
        (address : ℕ) (c : Connection)
        → HasBoth c
        → OrderlyOf (recovered l client address (recover c client m.exchange))
    unfolding OrderlyOf recover
    recovered-Orderly address c (reader, writer, has_r, has_w) =
        recover_both-Orderly address c reader writer c.reader c.writer has_r has_w

    welcome_back-Orderly :
        (address : ℕ) (c : Connection) (w : Result (Unit {0}))
        → HasBoth c
        → m.answered ≡ w
        → OrderlyOf (welcome_back l client m address c w)
    unfolding OrderlyOf
    welcome_back-Orderly address c (ok _) both e = recovered-Orderly address c both
    welcome_back-Orderly address c (throw x) both e = inl e

    choose-Orderly :
        (o : Option ℕ)
        → LinkAt l.connections o
        → OrderlyOf (choose l client m r.client_id s.passkey o)
    unfolding OrderlyOf
    choose-Orderly none link = welcome-Orderly m.answered refl
    choose-Orderly (some address) (c, there, both) =
        elim (Bool-cases (c.socket == invalid_socket)) [
          | inl y ↦ rw (there, y) (welcome_back-Orderly address c m.answered both refl)
          | inr n ↦ rw (there, n) (welcome-Orderly m.answered refl)
        ]

  known-Orderly :
      (r : ConnectRequest) (o : Option (ClientSession ℕ))
      → m.request ≡ ok r
      → find r.client_id l.registry ≡ o
      → LinkIn l.connections o
      → OrderlyOf (admit l client m (ok r))
  unfolding OrderlyOf has_session lookup_passkey lookup_connection
  known-Orderly r o asked found link = elim (Bool-cases (same_int r.version protocol_version)) [
    | inl y ↦ right o y found link
    | inr n ↦ rw n (refuse-Orderly _ m.answered refl)
  ]
    where
      right :
          (o : Option (ClientSession ℕ))
          → same_int r.version protocol_version ≡ true
          → find r.client_id l.registry ≡ o
          → LinkIn l.connections o
          → OrderlyOf (admit l client m (ok r))
      right none y found link = rw (y, found) (refuse-Orderly _ m.answered refl)
      right (some s) y found link = elim (Bool-cases (is_empty s.passkey)) [
        | inl k ↦ rw (y, found, k) (refuse-Orderly _ m.answered refl)
        | inr k ↦ rw (y, found, k) (choose-Orderly r s asked found s.connection link)
      ]

  admit-Orderly :
      (q : Result ConnectRequest)
      → m.request ≡ q
      → ((id : Bytes) → LinkIn l.connections (find id l.registry))
      → OrderlyOf (admit l client m q)
  unfolding OrderlyOf
  admit-Orderly (throw e) asked links = tt
  admit-Orderly (ok r) asked links =
      known-Orderly r (find r.client_id l.registry) asked refl (links r.client_id)

-- In every server that is reached by clients that arrive, calls on the registry, and calls of Read, Write,
-- CloseSocket and Shutdown on connections, in any order, an exception that leaves the handshake with a
-- client, and so ends the process, is one that the sending of the answer throws, or the session of the
-- request has a key of the wrong length: no null reader or writer is used and no connection is missing.
pub handle_client_crashes :
    (box : SecretBox) (l : Listener) (client : ℕ) (m : Meeting)
    → Reachable box l
    → (e : Error) → (handle_client l client m).goes ≡ terminates e
    → (m.answered ≡ throw e) ⊎ HasBadKey l m
unfolding handle_client OrderlyOf
handle_client_crashes box l client m reached e h =
    let orderly : Orderly l m (handle_client l client m).goes =
      admit-Orderly l client m m.request refl (Reachable-IsLinked box l reached).1 in
    rw h at orderly
