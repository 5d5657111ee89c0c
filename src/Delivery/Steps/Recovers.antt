-- ===== src/Delivery/Steps/Recovers.antt =====
-- Recoveries and closed sockets keep the invariant.
use mathlib.Core.List.{map-append}
use undying_terminal.Prelude.{
  ℕ, ◌<◌, ◌^◌, ◌≡◌, refl, ap, sym, ◌∙◌, List, [], ◌++◌, ◌==◌, map, if◌then◌else◌, append_assoc,
  append-nil, length, length-append, length-map, drop, drop-append_length, Bytes, arith,
}
use undying_terminal.Prelude.Int.{pos}
use undying_terminal.Result.{ok, throw, active_socket}
use undying_terminal.Packet.{Packet, serialize}
use undying_terminal.Crypto.{SecretBox, CryptoHandler}
use undying_terminal.Writer.{BackedWriter, invalid_socket, max_backup_bytes}
use undying_terminal.Writer
use undying_terminal.Writer.Recovery.{promised, missed, recover-promised}
use undying_terminal.Reader
use undying_terminal.Connection.{sequence_header}
use undying_terminal.Delivery.{Link, IsLive, IsDown}
use undying_terminal.Delivery.Invariant.{Inv, Streams}

-- A count below 2 ^ 31 goes through the `int32` field unchanged.
pub sequence_header-small : (n : ℕ) → n < 2 ^ 31 → sequence_header n ≡ pos n
unfolding sequence_header
sequence_header-small n h = ground arith

promised-eq-ok :
    (sent : List Packet) (k : ℕ) (out : List Bytes)
    → promised sent (pos k) ≡ ok out
    → out ≡ missed sent k
promised-eq-ok sent k out e = ground arith

module _ (box : SecretBox) (c : CryptoHandler) (l : Link) (i : Inv box c l) where
  -- What a successful `Recover` brings is what is still to come.
  pub brought :
      (out : List Bytes)
      → IsDown l.writer.socket
      → l.reader.sequence_number < 2 ^ 31
      → Writer.recover l.writer (sequence_header l.reader.sequence_number) ≡ ok out
      → out ≡ map serialize i.coming
  brought out down small e =
      promised-eq-ok _ l.reader.sequence_number out (sym (answer ∙ rw down refl) ∙ e)
      ∙ ap (map serialize) (
          ap (drop l.reader.sequence_number) (sym (append_assoc i.opened i.held i.coming))
          ∙ drop-append_length l.reader.sequence_number (i.opened ++ i.held) i.coming
              (omega (arith, i.count, length-append i.opened i.held)))
    where
      answer : Writer.recover l.writer (sequence_header l.reader.sequence_number) ≡ (
          if l.writer.socket == invalid_socket
          then promised (i.opened ++ (i.held ++ i.coming)) (pos l.reader.sequence_number)
          else throw active_socket)
      answer =
          ap (Writer.recover l.writer) (sequence_header-small l.reader.sequence_number small)
          ∙ recover-promised l.writer _ (pos l.reader.sequence_number) i.tracks

  -- The writer's socket alone changes, and no reader is connected.
  writer_socket-Inv :
      (socket : ℕ) (wire' : Bytes)
      → (IsLive l.reader.socket → Streams socket l.reader.partial_message wire' i.coming)
      → Inv box c (record l { writer = record (l.writer) { socket = socket }; wire = wire' })
  writer_socket-Inv socket wire' st = record {
    opened = i.opened;
    held = i.held;
    coming = i.coming;
    seen = i.seen;
    ahead = i.ahead;
    tracks = record { backup = i.tracks.backup; size = i.tracks.size; count = i.tracks.count };
    written_is = i.written_is;
    delivered_is = i.delivered_is;
    sealed_seen = i.sealed_seen;
    sealed_ahead = i.sealed_ahead;
    waiting = i.waiting;
    count = i.count;
    streams = st;
  }

  pub reader_closes-Inv : Inv box c (record l { reader = Reader.invalidate l.reader })
  reader_closes-Inv = record {
    opened = i.opened;
    held = i.held;
    coming = i.coming;
    seen = i.seen;
    ahead = i.ahead;
    tracks = i.tracks;
    written_is = i.written_is;
    delivered_is = i.delivered_is;
    sealed_seen = i.sealed_seen;
    sealed_ahead = i.sealed_ahead;
    waiting = i.waiting;
    count = i.count;
    streams = λ live. cc;
  }

  pub writer_closes-Inv : Inv box c (record l { writer = Writer.invalidate l.writer })
  writer_closes-Inv = writer_socket-Inv invalid_socket l.wire (λ live.
      let st = i.streams live in
      record { lost = st.lost; carried = st.carried; whole = λ dead. cc; short = st.short })

  pub recovers_writer-Inv :
      (writing : ℕ)
      → IsDown l.reader.socket
      → Inv box c (record l { writer = Writer.revive l.writer writing; wire = [] })
  recovers_writer-Inv writing down = writer_socket-Inv writing [] (λ live. cc)

  -- The reader takes over all that was to come.
  revived-Inv :
      (writing reading : ℕ) (out : List Bytes)
      → out ≡ map serialize i.coming
      → Inv box c (record l {
        writer = record (l.writer) { socket = writing };
        reader = Reader.revive l.reader reading out;
        wire = [];
      })
  unfolding Reader.revive
  revived-Inv writing reading out e = record {
    opened = i.opened;
    held = i.held ++ i.coming;
    coming = [];
    seen = i.seen;
    ahead = i.ahead;
    tracks =
        rw append-nil
          (record { backup = i.tracks.backup; size = i.tracks.size; count = i.tracks.count });
    written_is = i.written_is;
    delivered_is = i.delivered_is;
    sealed_seen = i.sealed_seen;
    sealed_ahead = rw append-nil i.sealed_ahead;
    waiting = rw (i.waiting, e) (sym (map-append serialize i.held i.coming));
    count =
        omega (
          arith,
          i.count,
          ap length e,
          length-map i.coming serialize,
          length-append i.held i.coming,
        );
    streams = λ live. record { lost = []; carried = refl; whole = λ _. refl; short = tt };
  }

  pub recovers-Inv :
      (writing reading : ℕ) (out : List Bytes)
      → IsDown l.writer.socket
      → l.reader.sequence_number < 2 ^ 31
      → Writer.recover l.writer (sequence_header l.reader.sequence_number) ≡ ok out
      → Inv box c (record l {
        writer = record (l.writer) { socket = writing };
        reader = Reader.revive l.reader reading out;
        wire = [];
      })
  recovers-Inv writing reading out down small e =
      revived-Inv writing reading out (brought out down small e)
