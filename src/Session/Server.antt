-- ===== src/Session/Server.antt =====
-- The loop of a session in `TcpListener::HandleClient` of src/utserver/TcpListener.cpp. A write to the pipe
-- succeeds here; in the code one that fails throws, and ends the process.
use undying_terminal.Prelude.{
  Bool, true, false, ◌||◌, Option, none, some, List, [], ◌∷◌, ◌++◌, ◌==◌, if◌then◌else◌,
}
use undying_terminal.Packet.{Packet}
use undying_terminal.PortForward.{Tcp, PortForwardHandler, handle_packet, update}
use undying_terminal.PortForward.Messages.{
  Codec, destination_request, destination_response, forward_data, clear_packet,
}
use undying_terminal.Session.{keep_alive, terminal_buffer, terminal_info, sent}

-- What a round's calls meet: whether the pipe is connected, the connection (no data, a `ReadPacket` that
-- gives `false`, one that throws, or a packet), and the pipe (no data, `false` or an exception, or a packet).
pub data FromClient : Type 0 where
  no_data fails throws : FromClient
  packet : Packet → FromClient

pub data FromPipe : Type 0 where
  quiet breaks : FromPipe
  piped : Packet → FromPipe

pub record Round : Type 0 where
  pub connected : Bool
  pub from_client : FromClient
  pub from_pipe : FromPipe

pub record ServerSession (Net : Type 0) : Type 0 where
  pub forward_handler : PortForwardHandler
  pub reverse_handler : PortForwardHandler
  pub net : Net

-- The packets for the terminal, those for the client, and those that were taken from the client and drawn
-- from the pipe. What port forwarding writes to its sockets is left out here.
pub record Relayed : Type 0 where
  pub to_pipe : List Packet
  pub to_client : List Packet
  pub taken : List Packet
  pub drawn : List Packet

abbrev pub nothing : Relayed
nothing = record { to_pipe = []; to_client = []; taken = []; drawn = [] }

abbrev pub to_client_only : List Packet → Relayed
to_client_only ps = record { to_pipe = []; to_client = ps; taken = []; drawn = [] }

unfoldable pub both : Relayed → Relayed → Relayed
both a b = record {
  to_pipe = a.to_pipe ++ b.to_pipe;
  to_client = a.to_client ++ b.to_client;
  taken = a.taken ++ b.taken;
  drawn = a.drawn ++ b.drawn;
}

module _ {Net : Type 0} (tcp : Tcp Net) (tunnels : Codec) where
  abbrev pub forward_packet : Packet → ServerSession Net → ServerSession Net × List Packet
  forward_packet p s =
      let (h, done, n) = handle_packet tcp tunnels s.forward_handler p s.net in
      (record s { forward_handler = h; net = n }, sent done)

  abbrev pub reverse_packet : Packet → ServerSession Net → ServerSession Net × List Packet
  reverse_packet p s =
      let (h, done, n) = handle_packet tcp tunnels s.reverse_handler p s.net in
      (record s { reverse_handler = h; net = n }, sent done)

  -- The packets that the branches of a packet from the client send back.
  unfoldable pub answer_packet : Packet → ServerSession Net → ServerSession Net × List Packet
  answer_packet p s =
      if p.header == keep_alive
      then (s, clear_packet keep_alive [] ∷ [])
      else if p.header == destination_request
      then forward_packet p s
      else if p.header == destination_response
      then reverse_packet p s
      else if p.header == forward_data
      then (let (s', ps) = forward_packet p s in
          let (s'', qs) = reverse_packet p s' in (s'', ps ++ qs))
      else (s, [])

  -- A packet from the client.
  unfoldable pub take_packet : Packet → ServerSession Net → ServerSession Net × Relayed
  take_packet p s =
      if (p.header == terminal_buffer) || (p.header == terminal_info)
      then (s, record { to_pipe = p ∷ []; to_client = []; taken = p ∷ []; drawn = [] })
      else let (s', ps) = answer_packet p s in
        (s', record { to_pipe = []; to_client = ps; taken = p ∷ []; drawn = [] })

  -- The calls of `Update` that end a round.
  unfoldable pub update_handlers : ServerSession Net → ServerSession Net × List Packet
  update_handlers s =
      let (f, done, n) = update tcp tunnels s.forward_handler s.net in
      let (r, later, n') = update tcp tunnels s.reverse_handler n in
      (record s { forward_handler = f; reverse_handler = r; net = n' }, sent done ++ sent later)

  -- The part of a round on the pipe, and what follows: `none` for a `break`.
  abbrev pub pipe_part : FromPipe → ServerSession Net → Option (ServerSession Net × Relayed)
  pipe_part quiet s = let (s', ps) = update_handlers s in some (s', to_client_only ps)
  pipe_part breaks s = none
  pipe_part (piped p) s =
      let (s', ps) = update_handlers s in
      some (s', record { to_pipe = []; to_client = p ∷ ps; taken = []; drawn = p ∷ [] })

  -- The part of a round on the connection: `none` for a `break`.
  abbrev pub client_part : FromClient → ServerSession Net → Option (ServerSession Net × Relayed)
  client_part no_data s = some (s, nothing)
  client_part fails s = some (s, nothing)
  client_part throws s = none
  client_part (packet p) s = some (take_packet p s)

  -- The loop, on the rounds that it would meet, up to a `break` or the end of `running_`.
  unfoldable pub serve : List Round → ServerSession Net → Relayed
  serve [] s = nothing
  serve (r ∷ rs) s = elim r.connected [
    | false ↦ nothing
    | true ↦ elim (client_part r.from_client s) [
      | none ↦ nothing
      | some (s', a) ↦ elim (pipe_part r.from_pipe s') [
        | none ↦ a
        | some (s'', b) ↦ both a (both b (serve rs s''))
      ]
    ]
  ]
