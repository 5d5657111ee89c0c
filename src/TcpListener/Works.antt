-- ===== src/TcpListener/Works.antt =====
-- What the threads of a session do with its connection: the calls of src/ut/protocol/Connection.cpp, of which each
-- runs as a whole. The connection of a server is not reconnected when it is lost: its socket is closed.
use undying_terminal.Prelude.{
  ℕ, ◌≡◌, refl, Bool, true, false, Option, none, some, List, ◌==◌, if◌then◌else◌, Bytes, Bool-cases,
  inl, inr,
}
use undying_terminal.Result.{Result, ok, throw}
use undying_terminal.Packet.{Packet}
use undying_terminal.Crypto.{SecretBox}
use undying_terminal.Reader.{BackedReader, Answer, ReadResult, Out, packet, incomplete, lost}
use undying_terminal.Reader
use undying_terminal.Writer.{
  BackedWriter, SendEvent, WriteState, skipped, success, wrote_with_failure, invalid_socket,
}
use undying_terminal.Writer
use undying_terminal.Connection.{
  Connection, close_socket, shutdown, ReadCall, after_read, read_with, read, wrote, write,
}

-- `ReadPacket` with what the socket gives, `Write` with what happens during its loop, `CloseSocket` and
-- `Shutdown`, which the destructor calls.
pub data Work : Type 1 where
  reads : {Net : Type 0} → (ℕ → ℕ → Net → Answer × Net) → Net → Work
  writes : Packet → List SendEvent → Work
  closes_socket shuts_down : Work

unfoldable pub perform : SecretBox → Work → Connection → Connection
perform box (reads recv n) c = (read recv box close_socket c n).connection
perform box (writes p es) c = (write box close_socket c p es).connection
perform box closes_socket c = (close_socket c).0
perform box shuts_down c = (shutdown c).0

-- A connection with its reader and writer, as the server makes them.
abbrev pub HasBoth : Connection → Type 0
HasBoth c = (r : BackedReader) × (w : BackedWriter) × (c.reader ≡ some r) × (c.writer ≡ some w)

close_socket-HasBoth : (c : Connection) → HasBoth c → HasBoth (close_socket c).0
unfolding close_socket
close_socket-HasBoth c (r, w, has_r, has_w) = elim (Bool-cases (c.socket == invalid_socket)) [
  | inl y ↦ rw y (r, w, has_r, has_w)
  | inr n ↦ rw (n, has_r, has_w) (Reader.invalidate r, Writer.invalidate w, refl, refl)
]

module _ {Net : Type 0} (recv : ℕ → ℕ → Net → Answer × Net) (box : SecretBox) where
  after_read-HasBoth :
      (c : Connection) (w : BackedWriter) (o : Out × Net)
      → c.writer ≡ some w
      → HasBoth (after_read close_socket c o).connection
  unfolding after_read
  after_read-HasBoth c w ((ok (packet p), r), n) has_w = (r, w, refl, has_w)
  after_read-HasBoth c w ((ok incomplete, r), n) has_w = (r, w, refl, has_w)
  after_read-HasBoth c w ((ok lost, r), n) has_w =
      close_socket-HasBoth (record c { reader = some r }) (r, w, refl, has_w)
  after_read-HasBoth c w ((throw e, r), n) has_w = (r, w, refl, has_w)

  if-HasBoth :
      (b : Bool) (u v : ReadCall Net)
      → HasBoth u.connection
      → HasBoth v.connection
      → HasBoth (if b then u else v).connection
  if-HasBoth true u v p q = p
  if-HasBoth false u v p q = q

  read_with-HasBoth :
      (c : Connection) (n : Net) (o : Option BackedReader)
      → c.reader ≡ o
      → HasBoth c
      → HasBoth (read_with recv box close_socket c n o).connection
  read_with-HasBoth c n none e both = both
  read_with-HasBoth c n (some x) e (r, w, has_r, has_w) =
      after_read-HasBoth c w (Reader.read recv box x n) has_w

  read-HasBoth :
      (c : Connection) (n : Net) → HasBoth c → HasBoth (read recv box close_socket c n).connection
  unfolding read
  read-HasBoth c n both =
      if-HasBoth c.shutting_down _ _ both (read_with-HasBoth c n c.reader refl both)

wrote-HasBoth :
    (c : Connection) (sent : Bytes) (o : Result (Option WriteState))
    → HasBoth c
    → HasBoth (wrote close_socket c sent o).connection
wrote-HasBoth c sent (ok (some skipped)) both = both
wrote-HasBoth c sent (ok (some success)) both = both
wrote-HasBoth c sent (ok (some wrote_with_failure)) both = close_socket-HasBoth c both
wrote-HasBoth c sent (ok none) both = both
wrote-HasBoth c sent (throw e) both = both

write-HasBoth :
    (box : SecretBox) (c : Connection) (p : Packet) (es : List SendEvent)
    → HasBoth c
    → HasBoth (write box close_socket c p es).connection
unfolding write
write-HasBoth box c p es (r, w, has_r, has_w) = elim (Bool-cases (c.socket == invalid_socket)) [
  | inl y ↦ rw y (r, w, has_r, has_w)
  | inr n ↦ rw (n, has_w) (wrote-HasBoth _ _ _ (r, _, has_r, refl))
]

pub perform-HasBoth :
    (box : SecretBox) (work : Work) (c : Connection) → HasBoth c → HasBoth (perform box work c)
unfolding perform shutdown
perform-HasBoth box (reads recv n) c both = read-HasBoth recv box c n both
perform-HasBoth box (writes p es) c both = write-HasBoth box c p es both
perform-HasBoth box closes_socket c both = close_socket-HasBoth c both
perform-HasBoth box shuts_down c both =
    close_socket-HasBoth (record c { shutting_down = true }) both
