-- ===== src/Session.antt =====
-- A session from end to end: the threads of the client (src/ut/main.cpp), the loop of the server
-- (src/utserver/TcpListener.cpp) and the threads of the terminal program (src/utterminal/main.cpp), on packets.
pub mod Client
pub mod Server
pub mod Screen
pub mod Quiet
pub mod Texts
pub mod Fairness
pub mod Rounds
pub mod Begin
pub mod Whole
pub mod Typing
pub mod Console
pub mod Carrying
pub mod Showing
use undying_terminal.Prelude.{
  ℕ, ◌≡◌, Bool, Option, none, some, List, [], ◌∷◌, ◌++◌, ◌==◌, if◌then◌else◌, Bytes,
}
use undying_terminal.Prelude.Int.{ℤ}
use undying_terminal.Packet.{Packet}
use undying_terminal.PortForward.{Effect, sends, writes, closes}
use undying_terminal.PortForward.Messages.{clear_packet}

-- `TerminalPacketType`, beside the types of port forwarding.
abbrev pub keep_alive : ℕ
keep_alive = 0

abbrev pub terminal_buffer : ℕ
terminal_buffer = 1

abbrev pub terminal_info : ℕ
terminal_info = 2

abbrev pub terminal_init : ℕ
terminal_init = 9

-- `SerializeToString` and `ParseFromString` of `TerminalBuffer` and, with an id, a width and a height, of
-- `TerminalInfo`; `none` for `false`.
pub record TerminalCodec : Type 0 where
  pub put_buffer : Bytes → Option Bytes
  pub get_buffer : Bytes → Option Bytes
  pub put_info : Bytes → ℤ → ℤ → Option Bytes
  pub get_info : Bytes → Option (ℤ × ℤ)

-- Bytes are serialized, and parsed back.
pub record IsTerminalCodec (c : TerminalCodec) : Type 0 where
  pub buffer_back :
      (b : Bytes) → (p : Bytes) × (c.put_buffer b ≡ some p) × (c.get_buffer p ≡ some b)

-- `if (SerializeToString(&payload)) WritePacket(Packet(header, payload))`
abbrev pub coded : ℕ → Option Bytes → List Packet
coded header none = []
coded header (some payload) = clear_packet header payload ∷ []

abbrev pub bytes_of : Option Bytes → Bytes
bytes_of none = []
bytes_of (some b) = b

-- The bytes that a terminal is given by packets: what their buffers parse to.
unfoldable pub text : TerminalCodec → List Packet → Bytes
text c [] = []
text c (p ∷ ps) =
    let more = text c ps in
    if p.header == terminal_buffer then bytes_of (c.get_buffer p.payload) ++ more else more

-- The packets among what port forwarding does.
unfoldable pub sent : List Effect → List Packet
sent [] = []
sent (sends p ∷ es) = p ∷ sent es
sent (writes s b ∷ es) = sent es
sent (closes s ∷ es) = sent es
