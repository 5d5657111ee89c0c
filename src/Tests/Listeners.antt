-- ===== src/Tests/Listeners.antt =====
-- A terminal that has registered, a client that is let in, loses its socket and comes back.
use undying_terminal.Prelude.{◌⊎◌, ℕ, ◌≡◌, refl, ◌↔◌, true, false, some, [], ◌∷◌, replicate}
use undying_terminal.Prelude.Int.{pos, ◌-ℤ◌}
use undying_terminal.Result.{ok, throw, invalid_key_length}
use undying_terminal.Table.{bytes_key, nat_key, find, put, modify}
use undying_terminal.Crypto.{new_crypto}
use undying_terminal.Reader.{new_reader}
use undying_terminal.Reader
use undying_terminal.Writer
use undying_terminal.Writer.{invalid_socket, new_writer}
use undying_terminal.Tests.Toys.{toy_box, toy_crypto}
use undying_terminal.Registry.{
  ClientSession, has_session, lookup_passkey, lookup_connection, register_terminal, registered,
  new_session,
}
use undying_terminal.Connection.{Connection, Exchange, exchange_catchup, recover}
use undying_terminal.Connection.Client.{new_client, returning_client}
use undying_terminal.Connection.Server.{new_server_connection}
use undying_terminal.TcpListener.{ConnectRequest, Listener, Meeting, returns, handle_client}
use undying_terminal.TcpListener.Answering.{Rule, handle_client_answers}
use undying_terminal.Registry.Refinement.{run, registers}
use undying_terminal.TcpListener.Links.{
  IsLinked, Reachable, starts, arrives, calls, works, Reachable-IsLinked,
}
use undying_terminal.TcpListener.Works.{perform, closes_socket}
use undying_terminal.TcpListener.Crashes.{HasBadKey, handle_client_crashes}
use undying_terminal.TcpListener.Reconnecting.{with_connection, comes_back_to}

abbrev listener : Listener
listener = record {
  registry = register_terminal 5 (1 ∷ []) (replicate 32 7) 40 [];
  connections = [];
  next = 0;
}

abbrev request : ConnectRequest
request = record { client_id = 1 ∷ []; version = pos 6 }

abbrev agreeable : Exchange
agreeable = record {
  header_written = ok tt;
  remote_header = ok (pos 0);
  catchup_written = ok tt;
  inbound = ok ((8 ∷ []) ∷ []);
}

abbrev meeting : Meeting
meeting = record { request = ok request; answered = ok tt; exchange = agreeable }

handle_client_answers_example :
    ((handle_client listener 50 meeting).status ≡ some new_client)
    ↔ Rule listener request new_client
unfolding register_terminal find put
handle_client_answers_example =
    handle_client_answers listener 50 meeting request refl refl (λ s found. rw (← (it s found)) tt)
      new_client
  where
    it :
        (s : ClientSession ℕ)
        → some (registered (replicate 32 7) 40 5 new_session) ≡ some s
        → registered (replicate 32 7) 40 5 new_session ≡ s
    it s e = cc

-- The connection without its socket, and on the next one.
abbrev left_behind : Connection
left_behind = record {
  id = 1 ∷ [];
  key = replicate 32 7;
  reader = some (new_reader toy_crypto invalid_socket);
  writer = some (new_writer toy_crypto invalid_socket);
  socket = invalid_socket;
  shutting_down = false;
}

abbrev back : Connection
back = record left_behind {
  reader = some (Reader.revive (new_reader toy_crypto invalid_socket) 60 ((8 ∷ []) ∷ []));
  writer = some (Writer.revive (new_writer toy_crypto invalid_socket) 60);
  socket = 60;
}

comes_back_to_example :
    handle_client
      (with_connection 0 left_behind (handle_client listener 50 meeting).listener)
      60
      meeting
    ≡ record {
      listener =
          with_connection 0 back
            (with_connection 0 left_behind (handle_client listener 50 meeting).listener);
      status = some returning_client;
      closes = [];
      goes = returns;
    }
unfolding handle_client register_terminal find recover new_server_connection new_crypto has_session
    put lookup_passkey lookup_connection exchange_catchup Writer.recover new_writer
    Writer.recover_from ◌-ℤ◌
comes_back_to_example =
    comes_back_to listener 50 0 meeting request refl refl left_behind refl 60 meeting request refl
      refl refl refl back true [] refl

-- A terminal that has registered with a key of one byte.
abbrev careless : Listener
careless = record {
  registry = run (registers 5 (1 ∷ []) (7 ∷ []) 40) [];
  connections = [];
  next = 0;
}

careless-Reachable : Reachable toy_box careless
careless-Reachable =
    calls (record { registry = []; connections = []; next = 0 }) (registers 5 (1 ∷ []) (7 ∷ []) 40)
      tt starts

-- A session that closes its socket, of a server with a client that has arrived.
abbrev worked : Listener
worked = record (handle_client listener 50 meeting).listener {
  connections =
      modify 0 (perform toy_box closes_socket)
        (handle_client listener 50 meeting).listener.connections;
}

worked-Reachable : Reachable toy_box worked
unfolding run register_terminal
worked-Reachable = works (handle_client listener 50 meeting).listener 0 closes_socket (
    arrives listener 50 meeting (
      calls (record { registry = []; connections = []; next = 0 })
        (registers 5 (1 ∷ []) (replicate 32 7) 40) tt starts))

Reachable-IsLinked_example : IsLinked worked
Reachable-IsLinked_example = Reachable-IsLinked toy_box worked worked-Reachable

handle_client_crashes_example :
    (meeting.answered ≡ throw invalid_key_length) ⊎ HasBadKey careless meeting
unfolding handle_client run register_terminal find put has_session lookup_passkey lookup_connection
    new_server_connection new_crypto
handle_client_crashes_example =
    handle_client_crashes toy_box careless 50 meeting careless-Reachable invalid_key_length refl
