-- ===== src/TcpListener/Reconnecting.antt =====
-- A client that comes back to the connection it had.
use undying_terminal.Prelude.{
  ℕ, ◌≡◌, refl, sym, ap, ◌∙◌, Bool, true, some, List, [], ◌∷◌, ◌++◌, if◌then◌else◌, Bytes,
}
use undying_terminal.Result.{ok}
use undying_terminal.Table.{bytes_key, nat_key, find, put, modify}
use undying_terminal.Table.Laws.{find-put_self, find-modify}
use undying_terminal.Writer.{invalid_socket}
use undying_terminal.Registry.{ClientSession, store_connection, mark_active}
use undying_terminal.Connection.{Connection, recover}
use undying_terminal.Connection.Client.{returning_client}
use undying_terminal.TcpListener.{
  ConnectRequest, Listener, Meeting, Goes, returns, begins, terminates, protocol_version,
  handle_client, admit, choose, stored,
}
use undying_terminal.TcpListener.Answering.{admit_known, choose_back}
use undying_terminal.TcpListener.Effects.{
  NoSession, Effect, nothing, object, session, handle_client-Effect,
}

-- The listener after a session's thread and others have done anything with the connection at an address.
abbrev pub with_connection : ℕ → Connection → Listener → Listener
with_connection address c l = record l { connections = put address c l.connections }

-- The session of an id, once a connection is stored.
stored_session :
    (l : Listener) (id : Bytes) (c : Connection) (s : ClientSession ℕ)
    → find id l.registry ≡ some s
    → find id (stored l id c).registry ≡ some (record s { connection = some l.next; active = true })
unfolding store_connection mark_active
stored_session l id c s found = rw (
  find-modify id id (λ (x : ClientSession ℕ). record x { active = true })
      (modify id (λ (x : ClientSession ℕ). record x { connection = some l.next }) l.registry),
  find-modify id id (λ (x : ClientSession ℕ). record x { connection = some l.next }) l.registry,
  (bytes_key.same_iff id id).1 refl,
  found,
)

module _ (l : Listener) (client address : ℕ) (m : Meeting) (r : ConnectRequest)
    (asked : m.request ≡ ok r) where
  -- What is known of a client whose session begins.
  abbrev pub Begun : Listener → Type 0
  Begun l' =
      (s : ClientSession ℕ) × (r.version ≡ protocol_version)
      × ¬ (s.passkey ≡ [])
      × (find r.client_id l'.registry ≡ some s)
      × (s.connection ≡ some address)

  returns≢begins : ¬ (returns ≡ begins address)
  returns≢begins e = cc

  NoSession-begins : (g : Goes) → NoSession g → ¬ (g ≡ begins address)
  NoSession-begins returns silent b = returns≢begins b
  NoSession-begins (begins a) silent b = silent
  NoSession-begins (terminates e) silent b = cc

  Effect-Begun :
      (l' : Listener) (g : Goes) → Effect l client m.request l' g → g ≡ begins address → Begun l'
  Effect-Begun l' g (nothing g' silent) b = absurd (NoSession-begins g' silent b)
  Effect-Begun l' g (object a old c x done closes at_a e) b = absurd (returns≢begins b)
  Effect-Begun l' g (session r' s c asked' v found key e) b =
      let same : r' ≡ r = ok-injective (sym asked' ∙ asked) in
      let there : l.next ≡ address = begins-injective b in
      (
        record s { connection = some l.next; active = true },
        ap (λ q. q.version) (sym same) ∙ v,
        key,
        rw (← same) (stored_session l r'.client_id c s found),
        ap some there,
      )
    where
      ok-injective : {a b : ConnectRequest} → ok a ≡ ok b → a ≡ b
      ok-injective e = cc

      begins-injective : {a b : ℕ} → begins a ≡ begins b → a ≡ b
      begins-injective e = cc

-- A client whose session has begun comes back to the connection of that session, whatever has become of it
-- but for its socket, which is gone: to its next request with the same id and the right version the answer
-- is RETURNING_CLIENT, this connection recovers on the new socket and is what the registry still has, and
-- no session begins. Where the recovery fails, the new socket is closed behind the sockets that Recover closes.
pub comes_back_to :
    (l : Listener) (client address : ℕ) (m : Meeting) (r : ConnectRequest)
    → m.request ≡ ok r
    → (handle_client l client m).goes ≡ begins address
    → (c : Connection) → c.socket ≡ invalid_socket
    → (client' : ℕ) (m' : Meeting) (r' : ConnectRequest) → m'.request ≡ ok r'
    → r'.client_id ≡ r.client_id
    → r'.version ≡ protocol_version
    → m'.answered ≡ ok tt
    → (c' : Connection) (done : Bool) (closes : List ℕ)
    → recover c client' m'.exchange ≡ some (c', done, closes)
    → handle_client (with_connection address c (handle_client l client m).listener) client' m'
      ≡ record {
        listener =
            with_connection address c'
              (with_connection address c (handle_client l client m).listener);
        status = some returning_client;
        closes = if done then closes else closes ++ client' ∷ [];
        goes = returns;
      }
unfolding handle_client
comes_back_to l client address m r asked begun c gone client' m' r' asked' same v' answered c' done
      closes recovers =
    let (s, v, key, found, there) =
      Effect-Begun l client address m r asked _ _ (handle_client-Effect l client m) begun in
    let l' = with_connection address c (handle_client l client m).listener in
    ap (admit l' client' m') asked'
    ∙ admit_known l' client' m' r' answered s v' (ap (λ id. find id l'.registry) same ∙ found) key
    ∙ ap (choose l' client' m' r'.client_id s.passkey) there
    ∙ choose_back l' client' m' r' answered r'.client_id s.passkey address c
        (find-put_self address c (handle_client l client m).listener.connections) gone
    ∙ rw recovers
