-- ===== src/Delivery/Invariant.antt =====
-- What holds of a link at any time: where each numbered packet is.
use undying_terminal.Prelude.{
  ℕ, ◌+◌, ◌<◌, ◌≡◌, refl, ap, sym, ◌∙◌, List, [], ◌∷◌, ◌++◌, map, append_assoc, length, Bytes,
  arith,
}
use undying_terminal.Packet.{Packet, serialize, frame_bytes}
use undying_terminal.Crypto.{SecretBox, CryptoHandler}
use undying_terminal.Writer.{new_writer}
use undying_terminal.Writer.History.{Tracks, new_writer-Tracks}
use undying_terminal.Reader.{new_reader}
use undying_terminal.Delivery.{Link, IsLive, start}
use undying_terminal.Delivery.Sealing.{Seals, clear}

-- The bytes that carry a sequence of packets.
abbrev pub frames : List Packet → Bytes
frames [] = []
frames (q ∷ qs) = frame_bytes (serialize q) ++ frames qs

pub frames-append : (ps qs : List Packet) → frames (ps ++ qs) ≡ frames ps ++ frames qs
frames-append [] qs = refl
frames-append (p ∷ ps) qs =
    ap (◌++◌ (frame_bytes (serialize p))) (frames-append ps qs)
    ∙ sym (append_assoc (frame_bytes (serialize p)) (frames ps) (frames qs))

-- The partial message is not a whole one.
abbrev pub IsPartial : Bytes → List Packet → Type 0
IsPartial partial [] = Unit {0}
IsPartial partial (q ∷ qs) = length partial < 4 + length (serialize q)

-- What a connected reader has of the frames of the packets that are still to come: a partial message,
-- then the wire; what is lost behind that is nothing as long as the writer is connected too.
pub record Streams (writer_socket : ℕ) (partial wire : Bytes) (coming : List Packet) : Type 0 where
  pub lost : Bytes
  pub carried : partial ++ (wire ++ lost) ≡ frames coming
  pub whole : IsLive writer_socket → lost ≡ []
  pub short : IsPartial partial coming

-- The numbered packets are those that `Read` has opened, those that a recovery has brought and that wait
-- in `local_buffer_`, and those still to come. `seen` and `ahead` are the packets before encryption.
pub record Inv (box : SecretBox) (c : CryptoHandler) (l : Link) : Type 0 where
  pub opened : List Packet
  pub held : List Packet
  pub coming : List Packet
  pub seen : List Packet
  pub ahead : List Packet
  pub tracks : Tracks l.writer (opened ++ (held ++ coming))
  pub written_is : l.written ≡ seen ++ ahead
  pub delivered_is : l.delivered ≡ map clear seen
  pub sealed_seen : Seals box c seen opened l.reader.crypto
  pub sealed_ahead : Seals box l.reader.crypto ahead (held ++ coming) l.writer.crypto
  pub waiting : l.reader.local_buffer ≡ map serialize held
  pub count : l.reader.sequence_number ≡ length opened + length held
  pub streams :
      IsLive l.reader.socket → Streams l.writer.socket l.reader.partial_message l.wire coming

pub start-Inv :
    (box : SecretBox) (c : CryptoHandler) (writing reading : ℕ)
    → Inv box c (start c writing reading)
unfolding new_writer new_reader
start-Inv box c writing reading = record {
  opened = [];
  held = [];
  coming = [];
  seen = [];
  ahead = [];
  tracks = new_writer-Tracks c writing;
  written_is = refl;
  delivered_is = refl;
  sealed_seen = refl;
  sealed_ahead = refl;
  waiting = refl;
  count = omega arith;
  streams = λ live. record { lost = []; carried = refl; whole = λ _. refl; short = tt };
}

length-append-zero : (xs ys : Bytes) → xs ++ ys ≡ [] → length xs ≡ 0
length-append-zero [] ys e = refl
length-append-zero (x ∷ xs) ys e = cc

-- A partial message stays one when a packet comes behind.
pub IsPartial-concat :
    (partial rest : Bytes) (coming : List Packet) (q : Packet)
    → partial ++ rest ≡ frames coming
    → IsPartial partial coming
    → IsPartial partial (coming ++ q ∷ [])
IsPartial-concat partial rest [] q e h = omega (arith, length-append-zero partial rest e)
IsPartial-concat partial rest (x ∷ coming) q e h = h
