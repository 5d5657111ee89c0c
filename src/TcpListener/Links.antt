-- ===== src/TcpListener/Links.antt =====
-- What keeps the registry and the connections in step.
use undying_terminal.Prelude.{
  ℕ, ◌≡◌, refl, sym, ap, Bool, true, false, Option, none, some, List, [], ◌==◌, if◌then◌else◌,
  Bytes, Bool-cases, inl, inr,
}
use undying_terminal.Result.{Error, Result, ok, throw, ◌>>=◌}
use undying_terminal.Table.{Table, same_bytes, bytes_key, nat_key, find, put, modify}
use undying_terminal.Table.Laws.{
  IsMap, changed, passing, find-put, find-put_self, find-modify, modify-IsMap,
}
use undying_terminal.TcpListener.Works.{HasBoth, Work, perform, perform-HasBoth}
use undying_terminal.Crypto.{SecretBox, CryptoHandler, new_crypto}
use undying_terminal.Reader.{BackedReader, new_reader}
use undying_terminal.Writer.{BackedWriter, new_writer}
use undying_terminal.Registry.{ClientSession, store_connection, mark_active}
use undying_terminal.Registry.Refinement.{
  Call, registers, unregisters, stores, sees, marks, cleans, run, kept, run-IsMap, run-view,
}
use undying_terminal.Connection.{
  Connection, Exchange, Recovered, recover, recover_both, finish_recover, exchange_catchup,
  new_connection,
}
use undying_terminal.Connection.Server.{
  new_server_connection, client_server_nonce_msb, server_client_nonce_msb,
}
use undying_terminal.TcpListener.{ConnectRequest, Listener, Meeting, Goes, handle_client, stored}
use undying_terminal.TcpListener.Effects.{Effect, nothing, object, session, handle_client-Effect}

abbrev pub LinkAt : Table ℕ Connection → Option ℕ → Type 0
LinkAt t none = Unit
LinkAt t (some address) = (c : Connection) × (find address t ≡ some c) × HasBoth c

abbrev pub LinkIn : Table ℕ Connection → Option (ClientSession ℕ) → Type 0
LinkIn t none = Unit
LinkIn t (some s) = LinkAt t s.connection

-- The registry has one session for an id, and every connection it refers to exists.
abbrev pub IsLinked : Listener → Type 0
IsLinked l = IsMap l.registry × ((id : Bytes) → LinkIn l.connections (find id l.registry))

-- The calls of others on the registry: all that do not store a connection.
abbrev pub IsOther : Call ℕ → Type 0
IsOther (stores id c) = ⊥
IsOther _ = Unit

-- The server as a whole: clients arrive, terminals register and go, and the threads of the sessions read from
-- their connections, write to them, close their sockets and shut them down.
pub data Reachable (box : SecretBox) : Listener → Type 1 where
  starts : Reachable box (record { registry = []; connections = []; next = 0 })
  arrives :
      (l : Listener) (client : ℕ) (m : Meeting)
      → Reachable box l
      → Reachable box (handle_client l client m).listener
  calls :
      (l : Listener) (c : Call ℕ)
      → IsOther c
      → Reachable box l
      → Reachable box (record l { registry = run c l.registry })
  works :
      (l : Listener) (address : ℕ) (work : Work)
      → Reachable box l
      → Reachable box (record l { connections = modify address (perform box work) l.connections })

none≢some : {a : Recovered} → ¬ (none ≡ some a)
none≢some e = cc

recovered_connection : {a b : Recovered} → some a ≡ some b → a.0 ≡ b.0
recovered_connection p = ap connection_in p
  where
    connection_in : Option Recovered → Connection
    connection_in none = new_connection [] []
    connection_in (some (c, _, _)) = c

finish_recover-HasBoth :
    (old c : Connection) (r : BackedReader) (w : BackedWriter) (client : ℕ)
    (q : Result (List Bytes × List Bytes)) (done : Bool) (closes : List ℕ)
    → HasBoth old
    → some (finish_recover old r w client q) ≡ some (c, done, closes)
    → HasBoth c
finish_recover-HasBoth old c r w client (throw z) done closes both p =
    rw (recovered_connection p) at both
finish_recover-HasBoth old c r w client (ok (_, inbound)) done closes both p =
    let e = recovered_connection p in (_, _, ap (λ x. x.reader) (sym e), ap (λ x. x.writer) (sym e))

recover_both-HasBoth :
    (old c : Connection) (client : ℕ) (x : Exchange) (done : Bool) (closes : List ℕ)
    (a : Option BackedReader) (b : Option BackedWriter)
    → old.reader ≡ a
    → old.writer ≡ b
    → recover_both old client x a b ≡ some (c, done, closes)
    → HasBoth c
recover_both-HasBoth old c client x done closes none none has_r has_w e = absurd (none≢some e)
recover_both-HasBoth old c client x done closes none (some w) has_r has_w e = absurd (none≢some e)
recover_both-HasBoth old c client x done closes (some r) none has_r has_w e = absurd (none≢some e)
recover_both-HasBoth old c client x done closes (some r) (some w) has_r has_w e =
    finish_recover-HasBoth old c r w client (exchange_catchup w x) done closes (r, w, has_r, has_w)
      e

LinkAt-put :
    (t : Table ℕ Connection) (address : ℕ) (c : Connection) (o : Option ℕ)
    → HasBoth c
    → LinkAt t o
    → LinkAt (put address c t) o
LinkAt-put t address c none both link = tt
LinkAt-put t address c (some a) both (old, there, has) = elim (Bool-cases (address == a)) [
  | inl y ↦ (c, rw (find-put a address c t, y), both)
  | inr n ↦ (old, rw (find-put a address c t, n, there), has)
]

LinkIn-put :
    (t : Table ℕ Connection) (address : ℕ) (c : Connection) (o : Option (ClientSession ℕ))
    → HasBoth c
    → LinkIn t o
    → LinkIn (put address c t) o
LinkIn-put t address c none both link = tt
LinkIn-put t address c (some s) both link = LinkAt-put t address c s.connection both link

LinkAt-kept :
    (t : Table ℕ Connection) (o : Option (ClientSession ℕ)) → LinkIn t o → LinkAt t (kept o)
LinkAt-kept t none link = tt
LinkAt-kept t (some s) link = link

if-LinkIn :
    (t : Table ℕ Connection) (b : Bool) (o o' : Option (ClientSession ℕ))
    → LinkIn t o
    → LinkIn t o'
    → LinkIn t (if b then o else o')
if-LinkIn t true o o' h h' = h
if-LinkIn t false o o' h h' = h'

changed-LinkIn :
    (t : Table ℕ Connection) (f : ClientSession ℕ → ClientSession ℕ) (o : Option (ClientSession ℕ))
    → ((s : ClientSession ℕ) → (f s).connection ≡ s.connection)
    → LinkIn t o
    → LinkIn t (changed f o)
changed-LinkIn t f none keeps link = tt
changed-LinkIn t f (some s) keeps link = rw (keeps s) link

passing-LinkIn :
    (t : Table ℕ Connection) (test : ClientSession ℕ → Bool) (o : Option (ClientSession ℕ))
    → LinkIn t o
    → LinkIn t (passing test o)
passing-LinkIn t test none link = tt
passing-LinkIn t test (some s) link = if-LinkIn t (test s) (some s) none link tt

calls-LinkIn :
    (l : Listener) (c : Call ℕ) (id : Bytes)
    → IsOther c
    → IsLinked l
    → LinkIn l.connections (find id (run c l.registry))
calls-LinkIn l (registers now j passkey handle) id other (m, links) =
    rw (run-view (registers now j passkey handle) l.registry id m)
      (if-LinkIn _ (same_bytes j id) _ _ (LinkAt-kept _ (find id l.registry) (links id)) (links id))
calls-LinkIn l (unregisters j) id other (m, links) =
    rw (run-view (unregisters j) l.registry id m)
      (if-LinkIn _ (same_bytes j id) none _ tt (links id))
calls-LinkIn l (stores j c) id other (m, links) = absurd other
calls-LinkIn l (sees now j) id other (m, links) = rw (run-view (sees now j) l.registry id m) (
    if-LinkIn _ (same_bytes j id) _ _
      (changed-LinkIn _ _ (find id l.registry) (λ s. refl) (links id)) (links id))
calls-LinkIn l (marks j active) id other (m, links) =
    rw (run-view (marks j active) l.registry id m) (
      if-LinkIn _ (same_bytes j id) _ _
        (changed-LinkIn _ _ (find id l.registry) (λ s. refl) (links id)) (links id))
calls-LinkIn l (cleans now timeout) id other (m, links) =
    rw (run-view (cleans now timeout) l.registry id m)
      (passing-LinkIn _ _ (find id l.registry) (links id))

stored-LinkIn :
    (l : Listener) (id j : Bytes) (c : Connection)
    → IsLinked l
    → HasBoth c
    → LinkIn (stored l id c).connections (find j (stored l id c).registry)
unfolding store_connection mark_active
stored-LinkIn l id j c (m, links) both =
    let with_it : ClientSession ℕ → ClientSession ℕ = λ s. record s { connection = some l.next } in
    rw
      (find-modify j id (λ (s : ClientSession ℕ). record s { active = true })
        (modify id with_it l.registry))
      (if-LinkIn _ (same_bytes id j) _ _
        (changed-LinkIn _ _ (find j (modify id with_it l.registry)) (λ s. refl) (one j)) (one j))
  where
    new :
        (o : Option (ClientSession ℕ))
        → LinkIn
            (put l.next c l.connections)
            (changed (λ s. record s { connection = some l.next }) o)
    new none = tt
    new (some s) = (c, find-put_self l.next c l.connections, both)

    one :
        (j : Bytes)
        → LinkIn
            (put l.next c l.connections)
            (find j (modify id (λ s. record s { connection = some l.next }) l.registry))
    one j =
        rw
          (find-modify j id (λ (s : ClientSession ℕ). record s { connection = some l.next })
            l.registry)
          (if-LinkIn _ (same_bytes id j) _ _ (new (find j l.registry))
            (LinkIn-put l.connections l.next c (find j l.registry) both (links j)))

-- The connection that the constructor makes of two handlers.
abbrev pub made :
    Bytes → Bytes → ℕ → Result CryptoHandler → Result CryptoHandler → Result Connection
made id key socket a b = do
  reading ← a
  writing ← b
  ok (record (new_connection id key) {
    socket = socket;
    reader = some (new_reader reading socket);
    writer = some (new_writer writing socket);
  })

made-HasBoth :
    (id key : Bytes) (socket : ℕ) (a b : Result CryptoHandler) (c : Connection)
    → made id key socket a b ≡ ok c
    → HasBoth c
made-HasBoth id key socket (throw x) b c p = absurd (throw≢ok p)
  where
    throw≢ok : {x : Error} {c : Connection} → ¬ (throw x ≡ ok c)
    throw≢ok p = cc
made-HasBoth id key socket (ok reading) (throw x) c p = absurd (throw≢ok p)
  where
    throw≢ok : {x : Error} {c : Connection} → ¬ (throw x ≡ ok c)
    throw≢ok p = cc
made-HasBoth id key socket (ok reading) (ok writing) c p =
    let e = same _ _ p in (_, _, ap (λ x. x.reader) (sym e), ap (λ x. x.writer) (sym e))
  where
    same : (a b : Connection) → ok a ≡ ok b → a ≡ b
    same a b p = cc

new_server_connection-HasBoth :
    (id key : Bytes) (socket : ℕ) (c : Connection)
    → new_server_connection id key socket ≡ ok c
    → HasBoth c
unfolding new_server_connection
new_server_connection-HasBoth id key socket c e =
    made-HasBoth id key socket (new_crypto key client_server_nonce_msb)
      (new_crypto key server_client_nonce_msb) c e

Effect-IsLinked :
    (l l' : Listener) (client : ℕ) (q : Result ConnectRequest) (g : Goes)
    → Effect l client q l' g
    → IsLinked l
    → IsLinked l'
unfolding store_connection mark_active recover
Effect-IsLinked l l' client q g (nothing g' silent) linked = linked
Effect-IsLinked l l' client q g (object address old c x done closes there e) (m, links) = (
  m,
  λ id.
      LinkIn-put l.connections address c (find id l.registry)
        (recover_both-HasBoth old c client x done closes old.reader old.writer refl refl e)
        (links id),
)
Effect-IsLinked l l' client q g (session r s c asked v found key e) linked = (
  modify-IsMap _ _ _ (modify-IsMap _ _ l.registry linked.0),
  λ j.
      stored-LinkIn l r.client_id j c linked
        (new_server_connection-HasBoth r.client_id s.passkey client c e),
)

works-LinkAt :
    (box : SecretBox) (t : Table ℕ Connection) (address : ℕ) (work : Work) (o : Option ℕ)
    → LinkAt t o
    → LinkAt (modify address (perform box work) t) o
works-LinkAt box t address work none link = tt
works-LinkAt box t address work (some a) (c, there, both) = elim (Bool-cases (address == a)) [
  | inl y ↦ (
    perform box work c,
    rw (find-modify a address (perform box work) t, y, there) refl,
    perform-HasBoth box work c both,
  )
  | inr n ↦ (c, rw (find-modify a address (perform box work) t, n, there) refl, both)
]

works-LinkIn :
    (box : SecretBox) (t : Table ℕ Connection) (address : ℕ) (work : Work)
    (o : Option (ClientSession ℕ))
    → LinkIn t o
    → LinkIn (modify address (perform box work) t) o
works-LinkIn box t address work none link = tt
works-LinkIn box t address work (some s) link = works-LinkAt box t address work s.connection link

-- In every server that is reached by clients that arrive, calls on the registry, and calls of Read, Write,
-- CloseSocket and Shutdown on connections, in any order, an id has one session, and a session's connection
-- exists, with a reader and a writer.
pub Reachable-IsLinked : (box : SecretBox) (l : Listener) → Reachable box l → IsLinked l
unfolding find
Reachable-IsLinked box l starts = (tt, λ id. tt)
Reachable-IsLinked box l (arrives l' client m r) =
    Effect-IsLinked l' _ client m.request _ (handle_client-Effect l' client m)
      (Reachable-IsLinked box l' r)
Reachable-IsLinked box l (calls l' c other r) =
    let linked = Reachable-IsLinked box l' r in
    (run-IsMap c l'.registry linked.0, λ id. calls-LinkIn l' c id other linked)
Reachable-IsLinked box l (works l' address work r) =
    let linked = Reachable-IsLinked box l' r in
    (
      linked.0,
      λ id. works-LinkIn box l'.connections address work (find id l'.registry) (linked.1 id),
    )
