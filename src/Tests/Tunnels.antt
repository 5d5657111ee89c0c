-- ===== src/Tests/Tunnels.antt =====
-- Port forwarding between two concrete ends.
use undying_terminal.Prelude.{ℕ, ◌+◌, ◌≡◌, refl, true, false, none, some, [], ◌∷◌, arith}
use undying_terminal.Prelude.Int.{pos}
use undying_terminal.Reader.{received}
use undying_terminal.Writer.{invalid_socket}
use undying_terminal.Table.{int_key, find}
use undying_terminal.PortForward.{
  Tcp, Listener, PortForwardHandler, new_handler, writes, poll_socket,
}
use undying_terminal.PortForward.Messages.{Endpoint}
use undying_terminal.PortForward.Valid.{IsValid}
use undying_terminal.PortForward.Runs.{adds, polls, run_all, run_all-IsValid}
use undying_terminal.PortForward.Relay.{relay}
use undying_terminal.PortForward.Pairing.{
  after_dial, after_answer, tunnel_opens, tunnel_refused, tunnel_carries,
}
use undying_terminal.Tests.ToyCodec.{toy_codec, toy_codec-IsCodec, toy_codec-IsTotal}

-- The network counts handles; every socket has a byte to read.
abbrev pub toy_tcp : Tcp ℕ
toy_tcp = record {
  listen = λ name port n. (n, n + 1);
  has_data = λ socket n. true;
  accept = λ listener n. (n, n + 1);
  receive = λ socket count n. (received (b'x' ∷ []), n);
  dial = λ endpoint n. (n, n + 1);
}

abbrev web : Endpoint
web = record { name = b'w' ∷ []; port = pos 80 }

abbrev listener : Listener
listener = record { listen_socket = 3; destination = web }

run_all-IsValid_example :
    IsValid
      (run_all toy_tcp toy_codec
        (adds (record { source = some web; destination = some web; environment_variable = [] })
          ∷ polls
          ∷ [])
        (new_handler false)
        5).0
run_all-IsValid_example = run_all-IsValid toy_tcp toy_codec false _ 5

tunnel_opens_example :
    (find
        (pos 1)
        (after_answer toy_tcp toy_tcp toy_codec
          (new_handler false)
          (new_handler true)
          listener
          5
          6).0.active_sockets
      ≡ some 5)
    × (find
          (pos 1)
          (after_answer toy_tcp toy_tcp toy_codec
            (new_handler false)
            (new_handler true)
            listener
            5
            6).0.pending_clients
        ≡ none)
    × (find
          (pos 1)
          (after_dial toy_tcp toy_tcp toy_codec
            (new_handler false)
            (new_handler true)
            listener
            5
            6).0.active_sockets
        ≡ some 6)
    × ((after_answer toy_tcp toy_tcp toy_codec
          (new_handler false)
          (new_handler true)
          listener
          5
          6).1
        ≡ [])
unfolding new_handler
tunnel_opens_example =
    tunnel_opens toy_tcp toy_tcp toy_codec toy_codec-IsCodec toy_codec-IsTotal (new_handler false)
      (new_handler true) listener 5 6 6 7 5 6 refl refl refl (omega arith) refl (omega arith)

-- The network at the server gives no socket.
tunnel_refused_example :
    (find
        (pos 1)
        (after_answer toy_tcp toy_tcp toy_codec
          (new_handler false)
          (new_handler true)
          listener
          5
          invalid_socket).0.pending_clients
      ≡ some 5)
    × ((after_answer toy_tcp toy_tcp toy_codec
          (new_handler false)
          (new_handler true)
          listener
          5
          invalid_socket).0.active_sockets
        ≡ [])
    × ((after_answer toy_tcp toy_tcp toy_codec
          (new_handler false)
          (new_handler true)
          listener
          5
          invalid_socket).1
        ≡ [])
    × ((after_dial toy_tcp toy_tcp toy_codec
          (new_handler false)
          (new_handler true)
          listener
          5
          invalid_socket).0
        ≡ new_handler true)
unfolding new_handler
tunnel_refused_example =
    tunnel_refused toy_tcp toy_tcp toy_codec toy_codec-IsCodec toy_codec-IsTotal (new_handler false)
      (new_handler true) listener 5 6 invalid_socket (invalid_socket + 1) 5 invalid_socket refl refl
      refl (omega arith) refl refl

abbrev server_end : PortForwardHandler
server_end = record (new_handler true) { next_socket_id = 2; active_sockets = (pos 1, 9) ∷ [] }

tunnel_carries_example :
    relay toy_tcp toy_codec (poll_socket toy_tcp toy_codec true (pos 1) 4 5).0 server_end 6
    ≡ (server_end, writes 9 (b'x' ∷ []) ∷ [], 6)
unfolding find
tunnel_carries_example =
    tunnel_carries toy_tcp toy_tcp toy_codec toy_codec-IsCodec toy_codec-IsTotal true (pos 1) 4 9
      server_end 5 5 6 (received (b'x' ∷ [])) refl refl (λ e. cc) refl
