-- ===== src/Connection.antt =====
-- src/ut/protocol/Connection.{hpp,cpp}: a socket with its backed reader and writer. What the socket
-- layer and the peer do comes in as arguments; the sockets that a call closes come out, in order.
pub mod Client
pub mod Server
use undying_terminal.Prelude.{
  ℕ, ◌+◌, ◌-◌, ◌%◌, ◌^◌, Bool, true, false, ◌||◌, Option, none, some, List, [], ◌∷◌, ltb, ◌==◌,
  if◌then◌else◌, Bytes,
}
use undying_terminal.Prelude.Int.{ℤ, pos, negsuc}
use undying_terminal.Result.{Result, ok, throw, ◌>>=◌}
use undying_terminal.Packet.{Packet}
use undying_terminal.Crypto.{SecretBox}
use undying_terminal.Writer.{
  BackedWriter, SendEvent, WriteState, skipped, success, wrote_with_failure, invalid_socket,
}
use undying_terminal.Writer
use undying_terminal.Reader.{BackedReader, Answer, ReadResult, packet, incomplete, lost, Out}
use undying_terminal.Reader

-- `none` is a null `shared_ptr`.
pub record Connection : Type 0 where
  pub id : Bytes
  pub key : Bytes
  pub reader : Option BackedReader
  pub writer : Option BackedWriter
  pub socket : ℕ
  pub shutting_down : Bool

-- The constructor.
unfoldable pub new_connection : Bytes → Bytes → Connection
new_connection id key = record {
  id = id;
  key = key;
  reader = none;
  writer = none;
  socket = invalid_socket;
  shutting_down = false;
}

abbrev pub map_option {ℓ} : {A : Type ℓ} → (A → A) → Option A → Option A
map_option f none = none
map_option f (some a) = some (f a)

-- `Connection::CloseSocket`
unfoldable pub close_socket : Connection → Connection × List ℕ
close_socket c = if c.socket == invalid_socket then (c, []) else (
  record c {
    reader = map_option Reader.invalidate c.reader;
    writer = map_option Writer.invalidate c.writer;
    socket = invalid_socket;
  },
  c.socket ∷ [],
)

-- `Connection::Shutdown`
unfoldable pub shutdown : Connection → Connection × List ℕ
shutdown c = close_socket (record c { shutting_down = true })

-- What the virtual `CloseSocketAndMaybeReconnect` does; in this class it is `CloseSocket`.
abbrev pub OnLost : Type 0
OnLost = Connection → Connection × List ℕ

-- A call of `Read`: a packet with `true`, or `false`, or an exception.
pub record ReadCall (Net : Type 0) : Type 0 where
  pub connection : Connection
  pub result : Result (Option Packet)
  pub closes : List ℕ
  pub net : Net

module _ {Net : Type 0} where
  abbrev pub lost_call : Connection × List ℕ → Net → ReadCall Net
  lost_call (c, closes) n = record { connection = c; result = ok none; closes = closes; net = n }

  -- What `Connection::Read` makes of the reader's answer.
  unfoldable pub after_read : OnLost → Connection → Out × Net → ReadCall Net
  after_read on_lost c ((ok (packet p), r), n) = record {
    connection = record c { reader = some r };
    result = ok (some p);
    closes = [];
    net = n;
  }
  after_read on_lost c ((ok incomplete, r), n) = record {
    connection = record c { reader = some r };
    result = ok none;
    closes = [];
    net = n;
  }
  after_read on_lost c ((ok lost, r), n) = lost_call (on_lost (record c { reader = some r })) n
  after_read on_lost c ((throw e, r), n) = record {
    connection = record c { reader = some r };
    result = throw e;
    closes = [];
    net = n;
  }

  abbrev pub read_with :
      (ℕ → ℕ → Net → Answer × Net)
      → SecretBox
      → OnLost
      → Connection
      → Net
      → Option BackedReader
      → ReadCall Net
  read_with recv box on_lost c n none = record {
    connection = c;
    result = ok none;
    closes = [];
    net = n;
  }
  read_with recv box on_lost c n (some r) = after_read on_lost c (Reader.read recv box r n)

  -- `Connection::Read`, and `ReadPacket`, which only calls it.
  unfoldable pub read :
      (ℕ → ℕ → Net → Answer × Net) → SecretBox → OnLost → Connection → Net → ReadCall Net
  unfolding after_read
  read recv box on_lost c n =
      if c.shutting_down
      then record { connection = c; result = ok none; closes = []; net = n }
      else read_with recv box on_lost c n c.reader

-- A call of `Write`: what it returns (`none`: it is still in the loop of `BackedWriter::Write`).
pub record WriteCall : Type 0 where
  pub connection : Connection
  pub result : Result (Option Bool)
  pub closes : List ℕ
  pub sent : Bytes

abbrev pub lost_write : Connection × List ℕ → Bytes → WriteCall
lost_write (c, closes) sent = record {
  connection = c;
  result = ok (some true);
  closes = closes;
  sent = sent;
}

abbrev pub wrote : OnLost → Connection → Bytes → Result (Option WriteState) → WriteCall
wrote on_lost c sent (ok (some skipped)) = record {
  connection = c;
  result = ok (some false);
  closes = [];
  sent = sent;
}
wrote on_lost c sent (ok (some success)) = record {
  connection = c;
  result = ok (some true);
  closes = [];
  sent = sent;
}
wrote on_lost c sent (ok (some wrote_with_failure)) = lost_write (on_lost c) sent
wrote on_lost c sent (ok none) = record {
  connection = c;
  result = ok none;
  closes = [];
  sent = sent;
}
wrote on_lost c sent (throw e) = record {
  connection = c;
  result = throw e;
  closes = [];
  sent = sent;
}

abbrev pub write_with :
    SecretBox → OnLost → Connection → Packet → List SendEvent → Option BackedWriter → WriteCall
write_with box on_lost c p es none = record {
  connection = c;
  result = ok (some false);
  closes = [];
  sent = [];
}
write_with box on_lost c p es (some w) =
    let out = Writer.write box w p es in
    wrote on_lost (record c { writer = some out.writer }) out.sent out.result

-- `Connection::Write`
unfoldable pub write : SecretBox → OnLost → Connection → Packet → List SendEvent → WriteCall
write box on_lost c p es =
    if c.socket == invalid_socket
    then record { connection = c; result = ok (some false); closes = []; sent = [] }
    else write_with box on_lost c p es c.writer

-- `static_cast<int32_t>` of a counter, as the `int32` field of a `SequenceHeader` gives it back.
unfoldable pub sequence_header : ℕ → ℤ
sequence_header n =
    let low = n % 2 ^ 32 in if ltb low (2 ^ 31) then pos low else negsuc (2 ^ 32 - 1 - low)

-- What the four protobuf calls of a recovery meet, in the order of the calls.
pub record Exchange : Type 0 where
  pub header_written : Result (Unit {0})
  pub remote_header : Result ℤ
  pub catchup_written : Result (Unit {0})
  pub inbound : Result (List Bytes)

-- The `try` block of `Recover`: what the peer is sent, and what it has sent.
unfoldable pub exchange_catchup : BackedWriter → Exchange → Result (List Bytes × List Bytes)
exchange_catchup w x = do
  _ ← x.header_written
  remote ← x.remote_header
  recovered ← Writer.recover w remote
  _ ← x.catchup_written
  inbound ← x.inbound
  ok (recovered, inbound)

-- The connection after `Recover`, its result, and the sockets closed.
abbrev pub Recovered : Type 0
Recovered = Connection × Bool × List ℕ

abbrev pub finish_recover :
    Connection → BackedReader → BackedWriter → ℕ → Result (List Bytes × List Bytes) → Recovered
finish_recover c r w new_socket (throw e) = (c, false, new_socket ∷ [])
finish_recover c r w new_socket (ok (_, inbound)) = (
  record c {
    reader = some (Reader.revive r new_socket inbound);
    writer = some (Writer.revive w new_socket);
    socket = new_socket;
  },
  true,
  [],
)

abbrev pub recover_both :
    Connection → ℕ → Exchange → Option BackedReader → Option BackedWriter → Option Recovered
recover_both c new_socket x (some r) (some w) =
    some (finish_recover c r w new_socket (exchange_catchup w x))
recover_both c new_socket x _ _ = none

-- `Connection::Recover`; `none` where it goes through a null reader or writer.
unfoldable pub recover : Connection → ℕ → Exchange → Option Recovered
recover c new_socket x = recover_both c new_socket x c.reader c.writer
