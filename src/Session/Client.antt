-- ===== src/Session/Client.antt =====
-- The threads of a client's session, in src/ut/main.cpp. An event is a round of one of them, of whichever
-- comes next; here the others may go on when the input thread has ended, where the code stops each of them
-- at its next test of `running`.
use undying_terminal.Prelude.{
  Bool, false, not, ◌||◌, Option, none, some, List, [], ◌∷◌, ◌++◌, ◌==◌, if◌then◌else◌, Bytes,
}
use undying_terminal.Prelude.Int.{ℤ}
use undying_terminal.Packet.{Packet}
use undying_terminal.Text.{is_empty, codes}
use undying_terminal.PortForward.{Tcp, PortForwardHandler, handle_packet, update}
use undying_terminal.PortForward.Messages.{
  Codec, destination_request, destination_response, forward_data, clear_packet,
}
use undying_terminal.Client.Quoting.{normalize_command}
use undying_terminal.Client.Echo.{PredictiveEcho, on_local_input, on_remote_output}
use undying_terminal.Session.{
  keep_alive, terminal_buffer, terminal_info, TerminalCodec, coded, sent,
}

-- The packets of `--command` to a session that is new.
unfoldable pub opening : TerminalCodec → Bool → Bytes → Bool → List Packet
opening c returning command noexit =
    if returning || is_empty command
    then []
    else coded terminal_buffer (c.put_buffer (normalize_command command))
      ++ (if noexit
          then []
          else coded terminal_buffer (c.put_buffer (codes "exit" ++ 13 ∷ 10 ∷ [])))

-- What the threads share: the predictive echo, the handlers of `-t` and `-r` where there are any, the
-- network. `reads` holds until the input thread ends, and `shows` is `enable_terminal_output`.
pub record ClientSession (Net : Type 0) : Type 0 where
  pub reads : Bool
  pub shows : Bool
  pub predictor : PredictiveEcho
  pub forward_handler : Option PortForwardHandler
  pub reverse_handler : Option PortForwardHandler
  pub net : Net

pub data ClientEvent : Type 0 where
  -- `ReadFile` of the input thread gives these bytes.
  reads_input : Bytes → ClientEvent
  -- `ReadPacket` of the output thread gives this packet.
  gets : Packet → ClientEvent
  -- The resize thread sends a size for this client id.
  resizes : Bytes → ℤ → ℤ → ClientEvent
  -- The keepalive thread writes its packet.
  beats : ClientEvent
  -- The forward thread polls.
  polls : ClientEvent

-- What a round sends, and what it writes to the console.
pub record Output : Type 0 where
  pub packets : List Packet
  pub console : Bytes

abbrev pub packets_only : List Packet → Output
packets_only ps = record { packets = ps; console = [] }

abbrev pub console_only : Bytes → Output
console_only b = record { packets = []; console = b }

abbrev pub nothing : Output
nothing = packets_only []

module _ {Net : Type 0} (tcp : Tcp Net) (tunnels : Codec) (c : TerminalCodec) where
  -- `if (handler) handler->HandlePacket(packet, send_packet)`
  abbrev pub hand :
      Option PortForwardHandler → Packet → Net → Option PortForwardHandler × List Packet × Net
  hand none p n = (none, [], n)
  hand (some h) p n =
      let (h', done, n') = handle_packet tcp tunnels h p n in (some h', sent done, n')

  -- `if (handler) handler->Update(send_packet)`
  abbrev pub poll : Option PortForwardHandler → Net → Option PortForwardHandler × List Packet × Net
  poll none n = (none, [], n)
  poll (some h) n = let (h', done, n') = update tcp tunnels h n in (some h', sent done, n')

  -- A round of the input thread.
  unfoldable pub read_input : Bytes → ClientSession Net → ClientSession Net × Output
  read_input chunk s =
      if not s.reads
      then (s, nothing)
      else if is_empty chunk
      then (record s { reads = false }, nothing)
      else let (e, shown) = on_local_input chunk s.predictor in
        (
          record s { predictor = e },
          record { packets = coded terminal_buffer (c.put_buffer chunk); console = shown },
        )

  -- `TERMINAL_BUFFER`
  abbrev pub show_buffer : Option Bytes → ClientSession Net → ClientSession Net × Output
  show_buffer none s = (s, nothing)
  show_buffer (some output) s =
      let (e, left) = on_remote_output output s.predictor in
      (record s { predictor = e }, console_only left)

  -- `PORT_FORWARD_DESTINATION_REQUEST`
  abbrev pub reverse_request : Packet → ClientSession Net → ClientSession Net × Output
  reverse_request p s =
      let (h, ps, n) = hand s.reverse_handler p s.net in
      (record s { reverse_handler = h; net = n }, packets_only ps)

  -- `PORT_FORWARD_DESTINATION_RESPONSE` and `PORT_FORWARD_DATA`
  abbrev pub both_handlers : Packet → ClientSession Net → ClientSession Net × Output
  both_handlers p s =
      let (f, ps, n) = hand s.forward_handler p s.net in
      let (r, qs, n') = hand s.reverse_handler p n in
      (record s { forward_handler = f; reverse_handler = r; net = n' }, packets_only (ps ++ qs))

  -- A round of the output thread that reads a packet, in either of its loops.
  unfoldable pub get_packet : Packet → ClientSession Net → ClientSession Net × Output
  get_packet p s =
      if p.header == keep_alive
      then (s, nothing)
      else if p.header == terminal_buffer
      then if not s.shows then (s, nothing) else show_buffer (c.get_buffer p.payload) s
      else if p.header == destination_request
      then reverse_request p s
      else if (p.header == destination_response) || (p.header == forward_data)
      then both_handlers p s
      else (s, nothing)

  -- A round of the forward thread.
  unfoldable pub poll_handlers : ClientSession Net → ClientSession Net × Output
  poll_handlers s =
      let (f, ps, n) = poll s.forward_handler s.net in
      let (r, qs, n') = poll s.reverse_handler n in
      (record s { forward_handler = f; reverse_handler = r; net = n' }, packets_only (ps ++ qs))

  abbrev pub client_step : ClientEvent → ClientSession Net → ClientSession Net × Output
  client_step (reads_input chunk) s = read_input chunk s
  client_step (gets p) s = get_packet p s
  client_step (resizes id width height) s =
      (s, packets_only (coded terminal_info (c.put_info id width height)))
  client_step beats s = (s, packets_only (clear_packet keep_alive [] ∷ []))
  client_step polls s = poll_handlers s

  -- The rounds of all threads, as they follow each other: the packets sent, and what the console is given.
  unfoldable pub client_run : List ClientEvent → ClientSession Net → ClientSession Net × Output
  client_run [] s = (s, nothing)
  client_run (v ∷ vs) s =
      let (s', now) = client_step v s in
      let (s'', later) = client_run vs s' in
      (
        s'',
        record { packets = now.packets ++ later.packets; console = now.console ++ later.console },
      )
