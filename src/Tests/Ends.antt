-- ===== src/Tests/Ends.antt =====
-- A session from end to end.
use undying_terminal.Session.Begin.{add_requests}
use undying_terminal.Table.{find}
use undying_terminal.Registry.{lookup_terminal}
use undying_terminal.Session.Server.{answer_packet}
use undying_terminal.PortForward.{poll_listeners}
use undying_terminal.PortForward.{handle_client_data}
use undying_terminal.PortForward.{poll_sockets}
use undying_terminal.PortForward.{handle_server_data}
use undying_terminal.Session.{sent}
use undying_terminal.Session.Server.{update_handlers}
use undying_terminal.Session.Client.{read_input}
use undying_terminal.Client.Quoting.{normalize_command}
use undying_terminal.Session.Server.{take_packet}
use undying_terminal.Session.Server.{both}
use undying_terminal.Prelude.{
  ℕ, ◌≡◌, refl, Bool, true, false, none, some, List, [], ◌∷◌, ◌++◌, Bytes,
}
use undying_terminal.Text.{codes}
use undying_terminal.Packet.{Packet}
use undying_terminal.Client.Echo.{new_echo, run}
use undying_terminal.PortForward.{new_handler, update}
use undying_terminal.PortForward.Messages.{clear_packet}
use undying_terminal.Session.{TerminalCodec, IsTerminalCodec, text}
use undying_terminal.Session.Client.{
  ClientSession, ClientEvent, reads_input, gets, beats, opening, client_run,
}
use undying_terminal.Session.Server.{packet, no_data, quiet, piped, Round, serve}
use undying_terminal.Session.Screen.{output_thread}
use undying_terminal.Session.Rounds.{typed}
use undying_terminal.Session.Typing.{command_text, written, typing_arrives}
use undying_terminal.Session.Console.{echo_events, console_echoes}
use undying_terminal.Session.Showing.{put_out, output_arrives}
use undying_terminal.Registry.{ClientRegistry, new_session}
use undying_terminal.Session.Begin.{InitialPayload, StartCodec, session}
use undying_terminal.Session.Server.{Relayed}
use undying_terminal.Session.Screen.{screen}
use undying_terminal.Tests.Tunnels.{toy_tcp}
use undying_terminal.Tests.ToyCodec.{toy_codec}

abbrev plain_codec : TerminalCodec
plain_codec = record {
  put_buffer = λ b. some b;
  get_buffer = λ p. some p;
  put_info = λ id width height. some id;
  get_info = λ p. none;
}

plain_codec-IsTerminalCodec : IsTerminalCodec plain_codec
plain_codec-IsTerminalCodec = record { buffer_back = λ b. (b, refl, refl) }

abbrev client : Bool → ClientSession ℕ
client predicts = record {
  reads = true;
  shows = true;
  predictor = new_echo predicts;
  forward_handler = none;
  reverse_handler = none;
  net = 5;
}

abbrev start : StartCodec
start = record {
  get_payload =
      λ b. some (record { jumphost = false; reverse_tunnels = []; environment_variables = [] });
  put_payload = λ m. some [];
  put_init = some [];
  put_response = [];
}

abbrev payload : InitialPayload
payload = record { jumphost = false; reverse_tunnels = []; environment_variables = [] }

-- A terminal that waits on the pipe 40.
abbrev registry : ClientRegistry ℕ
registry = (codes "id", record new_session { terminal_handle = 40 }) ∷ []

abbrev whole : List Round → Relayed
whole rs =
    (session toy_tcp toy_codec start (codes "id") (some (clear_packet 253 [])) registry 9
      rs).relayed

abbrev buffer : Bytes → Packet
buffer b = clear_packet 1 b

abbrev takes : Packet → Round
takes p = record { connected = true; from_client = packet p; from_pipe = quiet }

abbrev draws : Packet → Round
draws p = record { connected = true; from_client = no_data; from_pipe = piped p }

abbrev events : List ClientEvent
events =
    reads_input (codes "l")
    ∷ beats
    ∷ reads_input (codes "x")
    ∷ reads_input []
    ∷ reads_input (codes "q")
    ∷ []

abbrev rounds : List Round
rounds =
    takes (buffer (codes "w" ++ 13 ∷ 10 ∷ []))
    ∷ takes (buffer (codes "l"))
    ∷ takes (clear_packet 0 [])
    ∷ []

sends_all :
    opening plain_codec false (codes "w") true
      ++ (client_run toy_tcp toy_codec plain_codec events (client true)).1.packets
    ≡ (whole rounds).taken ++ buffer (codes "x") ∷ []
unfolding session opening lookup_terminal find both serve take_packet normalize_command client_run
    read_input
sends_all = refl

abbrev read : List Packet
read = clear_packet 9 [] ∷ buffer (codes "w" ++ 13 ∷ 10 ∷ []) ∷ []

reads_all : (whole rounds).to_pipe ≡ read ++ buffer (codes "l") ∷ []
unfolding session lookup_terminal find both serve take_packet
reads_all = refl

typing_arrives_example :
    written (screen plain_codec read)
      ++ (text plain_codec (buffer (codes "l") ∷ []) ++ text plain_codec (buffer (codes "x") ∷ []))
    ≡ command_text false (codes "w") true ++ typed true events
typing_arrives_example =
    typing_arrives toy_tcp toy_codec plain_codec plain_codec-IsTerminalCodec false (codes "w") true
      events (client true) start (codes "id") [] payload registry 9 rounds (buffer (codes "x") ∷ [])
      read (buffer (codes "l") ∷ []) refl refl sends_all reads_all

console_echoes_example : run (echo_events plain_codec true true events) (new_echo true) ≡ (
  (client_run toy_tcp toy_codec plain_codec events (client true)).0.predictor,
  (client_run toy_tcp toy_codec plain_codec events (client true)).1.console,
)
console_echoes_example = console_echoes toy_tcp toy_codec plain_codec events (client true)

abbrev chunks : List Bytes
chunks = codes "a" ∷ codes "b" ∷ codes "c" ∷ [] ∷ []

abbrev screen_events : List ClientEvent
screen_events =
    gets (clear_packet 252 [])
    ∷ gets (buffer (codes "a"))
    ∷ reads_input (codes "l")
    ∷ gets (clear_packet 0 [])
    ∷ []

abbrev screen_rounds : List Round
screen_rounds =
    draws (buffer (codes "a")) ∷ takes (clear_packet 0 []) ∷ draws (buffer (codes "b")) ∷ []

pipes_all :
    output_thread plain_codec chunks ≡ (whole screen_rounds).drawn ++ buffer (codes "c") ∷ []
unfolding session output_thread lookup_terminal find both serve take_packet
pipes_all = refl

sends_back :
    (whole screen_rounds).to_client
    ≡ (clear_packet 252 [] ∷ buffer (codes "a") ∷ clear_packet 0 [] ∷ []) ++ buffer (codes "b") ∷ []
unfolding session lookup_terminal find both serve update_handlers sent update new_handler
    handle_server_data poll_sockets add_requests handle_client_data poll_listeners take_packet
    answer_packet
sends_back = refl

output_arrives_example :
    (client_run toy_tcp toy_codec plain_codec screen_events (client false)).1.console
      ++ (text plain_codec (buffer (codes "b") ∷ []) ++ text plain_codec (buffer (codes "c") ∷ []))
    ≡ put_out chunks
output_arrives_example =
    output_arrives toy_tcp toy_codec plain_codec plain_codec-IsTerminalCodec chunks start
      (codes "id") (some (clear_packet 253 [])) registry 9 screen_rounds screen_events
      (client false) (buffer (codes "b") ∷ []) (buffer (codes "c") ∷ []) refl refl pipes_all
      sends_back
