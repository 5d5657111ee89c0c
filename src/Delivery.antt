-- ===== src/Delivery.antt =====
-- One direction of a connection: a backed writer at one end, the backed reader of the other end, and
-- the bytes between them. The steps are the calls that Connection.cpp makes of the two, in any order:
-- writes, reads, either end closing its socket at any time, and recoveries that may fail at either end
-- after the other has finished. A step that fails leaves what its call leaves.
pub mod Sealing
pub mod Invariant
pub mod Steps
pub mod Reach
pub mod Replay
use undying_terminal.Prelude.{
  ℕ, ◌+◌, ◌≤◌, ◌<◌, ◌^◌, ◌≡◌, ◌≢◌, Bool, true, false, some, List, [], ◌∷◌, ◌++◌, if◌then◌else◌,
  ◌==◌, length, Bytes,
}
use undying_terminal.Result.{Result, ok, throw}
use undying_terminal.Packet.{Packet}
use undying_terminal.Crypto.{SecretBox, CryptoHandler, mac_bytes}
use undying_terminal.Writer.{
  BackedWriter, WriteState, wrote_with_failure, skipped, success, SendEvent, invalid_socket,
  new_writer,
}
use undying_terminal.Writer
use undying_terminal.Reader.{
  BackedReader, Answer, ReadResult, packet, Out, max_message_bytes, new_reader,
}
use undying_terminal.Reader
use undying_terminal.Connection.{sequence_header}

-- `wire` holds the bytes that the writer's socket has taken and the reader's has not given. The last two
-- fields are the histories: the packets that `Write` has numbered, as its callers gave them, and those
-- that `Read` has returned.
pub record Link : Type 0 where
  pub writer : BackedWriter
  pub reader : BackedReader
  pub wire : Bytes
  pub written : List Packet
  pub delivered : List Packet

-- Both ends as the constructors leave them, on one connected socket pair and with equal handlers (the
-- writer's direction at one end is the reader's at the other).
abbrev pub start : CryptoHandler → ℕ → ℕ → Link
start crypto writing reading = record {
  writer = new_writer crypto writing;
  reader = new_reader crypto reading;
  wire = [];
  written = [];
  delivered = [];
}

-- The serialized packet, two bytes and an authenticator longer than its payload, is one that the reader
-- accepts.
abbrev pub IsShort : Packet → Type 0
IsShort p = length p.payload + mac_bytes + 2 ≤ max_message_bytes

abbrev pub counted : BackedWriter → Packet → List Packet
counted w p = if w.socket == invalid_socket then [] else p ∷ []

-- `Connection::Write` closes the socket under the same lock if the writer failed.
abbrev pub settled : WriteState → BackedWriter → BackedWriter
settled wrote_with_failure w = Writer.invalidate w
settled _ w = w

abbrev pub returned : Result ReadResult → List Packet
returned (ok (packet p)) = p ∷ []
returned _ = []

-- A live socket.
abbrev pub IsLive : ℕ → Type 0
IsLive socket = (socket == invalid_socket) ≡ false

abbrev pub IsDown : ℕ → Type 0
IsDown socket = (socket == invalid_socket) ≡ true

module _ {Net : Type 0} (recv : ℕ → ℕ → Net → Answer × Net) (pending : Net → Bytes)
    (box : SecretBox) where
  pub data Step (l : Link) : Link → Type 0 where
    -- `Connection::Write` of a packet that fits a frame that the reader takes, and that is encrypted, whatever the
    -- socket does meanwhile. `Write` itself tests no length: a longer packet is not a step.
    writes :
        (p : Packet) (es : List SendEvent) (state : WriteState)
        → IsShort p
        → (Writer.write box l.writer p es).result ≡ ok (some state)
        → Step l (record l {
          writer = settled state (Writer.write box l.writer p es).writer;
          wire = l.wire ++ (Writer.write box l.writer p es).sent;
          written = l.written ++ counted l.writer p;
        })
    -- `BackedReader::Read`, with any outcome.
    reads :
        (n : Net)
        → pending n ≡ l.wire
        → Step l (record l {
          reader = (Reader.read recv box l.reader n).0.1;
          wire = pending (Reader.read recv box l.reader n).1;
          delivered = l.delivered ++ returned (Reader.read recv box l.reader n).0.0;
        })
    writer_closes : Step l (record l { writer = Writer.invalidate l.writer })
    reader_closes : Step l (record l { reader = Reader.invalidate l.reader })
    -- A recovery with both ends closed: the reader's end sends its count, the writer's end the packets.
    recovers :
        (writing reading : ℕ) (missed : List Bytes)
        → IsDown l.writer.socket
        → IsDown l.reader.socket
        → IsLive writing
        → IsLive reading
        → l.reader.sequence_number < 2 ^ 31
        → Writer.recover l.writer (sequence_header l.reader.sequence_number) ≡ ok missed
        → Step l (record l {
          writer = Writer.revive l.writer writing;
          reader = Reader.revive l.reader reading missed;
          wire = [];
        })
    -- The same, where the exchange throws at the reader's end behind the writer's last call.
    recovers_writer :
        (writing : ℕ)
        → IsDown l.writer.socket
        → IsDown l.reader.socket
        → Step l (record l { writer = Writer.revive l.writer writing; wire = [] })
    -- The same, where it throws at the writer's end after the packets are sent.
    recovers_reader :
        (reading : ℕ) (missed : List Bytes)
        → IsDown l.writer.socket
        → IsDown l.reader.socket
        → l.reader.sequence_number < 2 ^ 31
        → Writer.recover l.writer (sequence_header l.reader.sequence_number) ≡ ok missed
        → Step l (record l { reader = Reader.revive l.reader reading missed; wire = [] })

  -- The links that can come of a link.
  pub data Reaches (l : Link) : Link → Type 0 where
    here : Reaches l l
    next : {m k : Link} → Reaches l m → Step m k → Reaches l k
