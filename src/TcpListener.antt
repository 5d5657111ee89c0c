-- ===== src/TcpListener.antt =====
-- src/utserver/TcpListener.cpp: how `HandleClient` answers a client, and what it makes of the registry. A
-- `shared_ptr` to a connection is the address of an object, so that the registry and the thread of a
-- session share it. The calls of the socket layer come in as their results.
pub mod Answering
pub mod Effects
pub mod Reconnecting
pub mod Works
pub mod Links
pub mod Crashes
use undying_terminal.Prelude.{
  ℕ, suc, Bool, true, false, ◌&&◌, not, Option, none, some, List, [], ◌∷◌, ◌++◌, ◌==◌,
  if◌then◌else◌, Bytes,
}
use undying_terminal.Prelude.Int.{ℤ, pos}
use undying_terminal.Result.{Error, undefined_behaviour, Result, ok, throw}
use undying_terminal.Text.{is_empty}
use undying_terminal.Table.{Table, Key, same_int, bytes_key, nat_key, find, put}
use undying_terminal.Writer.{invalid_socket}
use undying_terminal.Registry.{
  ClientRegistry, has_session, lookup_passkey, lookup_connection, store_connection, mark_active,
}
use undying_terminal.Connection.{Connection, Exchange, Recovered, recover}
use undying_terminal.Connection.Client.{
  Status, new_client, returning_client, invalid_key, mismatched_protocol,
}
use undying_terminal.Connection.Server.{new_server_connection}

-- `kProtocolVersion`
abbrev pub protocol_version : ℤ
protocol_version = pos 6

pub record ConnectRequest : Type 0 where
  pub client_id : Bytes
  pub version : ℤ

-- The registry, the connections by their addresses, and the address that the next one gets.
pub record Listener : Type 0 where
  pub registry : ClientRegistry ℕ
  pub connections : Table ℕ Connection
  pub next : ℕ

-- What a client's calls meet: `ReadProto` of its request, `WriteProto` of the answer, and a recovery.
pub record Meeting : Type 0 where
  pub request : Result ConnectRequest
  pub answered : Result (Unit {0})
  pub exchange : Exchange

-- How the call goes on: it returns, the session of a connection begins, or an exception leaves the thread,
-- which ends the process.
pub data Goes : Type 0 where
  returns : Goes
  begins : ℕ → Goes
  terminates : Error → Goes

-- The state behind the handshake, the status of the answer that is written, the sockets closed in order.
pub record Handled : Type 0 where
  pub listener : Listener
  pub status : Option Status
  pub closes : List ℕ
  pub goes : Goes

abbrev pub terminated : Listener → Option Status → Error → Handled
terminated l status e = record { listener = l; status = status; closes = []; goes = terminates e }

-- An answer that is no acceptance, and the socket closed.
abbrev pub refuse : Listener → ℕ → Status → Result (Unit {0}) → Handled
refuse l client status (ok _) = record {
  listener = l;
  status = some status;
  closes = client ∷ [];
  goes = returns;
}
refuse l client status (throw e) = terminated l none e

-- `if (!existing->Recover(client))`
abbrev pub recovered : Listener → ℕ → ℕ → Option Recovered → Handled
recovered l client address none = terminated l (some returning_client) undefined_behaviour
recovered l client address (some (c, done, closes)) = record {
  listener = record l { connections = put address c l.connections };
  status = some returning_client;
  closes = if done then closes else closes ++ client ∷ [];
  goes = returns;
}

-- The branch of a returning client.
abbrev pub welcome_back : Listener → ℕ → Meeting → ℕ → Connection → Result (Unit {0}) → Handled
welcome_back l client m address c (throw e) = terminated l none e
welcome_back l client m address c (ok _) = recovered l client address (recover c client m.exchange)

-- A connection in the registry, in place of the one that was there.
abbrev pub stored : Listener → Bytes → Connection → Listener
stored l id c = record {
  registry = mark_active id true (store_connection id l.next l.registry);
  connections = put l.next c l.connections;
  next = suc l.next;
}

abbrev pub opened : Listener → Bytes → Result Connection → Handled
opened l id (throw e) = terminated l (some new_client) e
opened l id (ok c) = record {
  listener = stored l id c;
  status = some new_client;
  closes = [];
  goes = begins l.next;
}

-- The branch of a new client.
abbrev pub welcome : Listener → ℕ → Bytes → Bytes → Result (Unit {0}) → Handled
welcome l client id passkey (throw e) = terminated l none e
welcome l client id passkey (ok _) = opened l id (new_server_connection id passkey client)

-- `existing->socket() == ut::kInvalidSocket`
abbrev pub choose_at : Listener → ℕ → Meeting → Bytes → Bytes → ℕ → Option Connection → Handled
choose_at l client m id passkey address none = terminated l none undefined_behaviour
choose_at l client m id passkey address (some c) =
    if c.socket == invalid_socket
    then welcome_back l client m address c m.answered
    else welcome l client id passkey m.answered

abbrev pub choose : Listener → ℕ → Meeting → Bytes → Bytes → Option ℕ → Handled
choose l client m id passkey none = welcome l client id passkey m.answered
choose l client m id passkey (some address) =
    choose_at l client m id passkey address (find address l.connections)

abbrev pub admit : Listener → ℕ → Meeting → Result ConnectRequest → Handled
admit l client m (throw e) = record {
  listener = l;
  status = none;
  closes = client ∷ [];
  goes = returns;
}
admit l client m (ok request) =
    let id = request.client_id in
    if not (same_int request.version protocol_version)
    then refuse l client mismatched_protocol m.answered
    else if not (has_session id l.registry)
    then refuse l client invalid_key m.answered
    else if is_empty (lookup_passkey id l.registry)
    then refuse l client invalid_key m.answered
    else choose l client m id (lookup_passkey id l.registry) (lookup_connection id l.registry)

-- `TcpListener::HandleClient`, where `registry_` is set, up to the session of a new connection.
unfoldable pub handle_client : Listener → ℕ → Meeting → Handled
handle_client l client m = admit l client m m.request
