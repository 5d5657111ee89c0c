-- ===== src/PortForward/Runs.antt =====
-- Any calls on a handler.
use undying_terminal.Prelude.{Bool, List, [], ◌∷◌}
use undying_terminal.Packet.{Packet}
use undying_terminal.Table.{int_key}
use undying_terminal.PortForward.{
  Tcp, PortForwardHandler, new_handler, add_forward_request, update, handle_packet,
}
use undying_terminal.PortForward.Messages.{SourceRequest, Codec}
use undying_terminal.PortForward.Valid.{IsValid, new_handler-IsValid}
use undying_terminal.PortForward.Polling.{add_forward_request-IsValid, update-IsValid}
use undying_terminal.PortForward.Handling.{handle_packet-IsValid}

-- The public calls of a handler.
pub data Call : Type 0 where
  adds : SourceRequest → Call
  polls : Call
  handles : Packet → Call

module _ {Net : Type 0} (tcp : Tcp Net) (codec : Codec) where
  unfoldable pub run : Call → PortForwardHandler → Net → PortForwardHandler × Net
  run (adds r) h n = add_forward_request tcp h r n
  run polls h n = let (h', _, n') = update tcp codec h n in (h', n')
  run (handles p) h n = let (h', _, n') = handle_packet tcp codec h p n in (h', n')

  unfoldable pub run_all : List Call → PortForwardHandler → Net → PortForwardHandler × Net
  run_all [] h n = (h, n)
  run_all (c ∷ cs) h n = let (h', n') = run c h n in run_all cs h' n'

  run-IsValid : (c : Call) (h : PortForwardHandler) (n : Net) → IsValid h → IsValid (run c h n).0
  unfolding run
  run-IsValid (adds r) h n v = add_forward_request-IsValid tcp h r n v
  run-IsValid polls h n v = update-IsValid tcp codec h n v
  run-IsValid (handles p) h n v = handle_packet-IsValid tcp codec h p n v

  keeps :
      (calls : List Call) (h : PortForwardHandler) (n : Net)
      → IsValid h
      → IsValid (run_all calls h n).0
  unfolding run_all
  keeps [] h n v = v
  keeps (c ∷ cs) h n v = keeps cs _ _ (run-IsValid c h n v)

  -- After any calls on a new handler, at either side: each table has one entry for an id and no
  -- invalid socket, the ids still to be given are free, and a server has no waiting clients.
  pub run_all-IsValid :
      (server_side : Bool) (calls : List Call) (n : Net)
      → IsValid (run_all calls (new_handler server_side) n).0
  run_all-IsValid server_side calls n =
      keeps calls (new_handler server_side) n (new_handler-IsValid server_side)
