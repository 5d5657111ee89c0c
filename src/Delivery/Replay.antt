-- ===== src/Delivery/Replay.antt =====
-- What a reconnect brings: the reads behind a recovery return all that was missed.
use mathlib.Core.List.{map-append}
use undying_terminal.Prelude.{
  ℕ, zero, suc, ◌^◌, ◌<◌, ◌≡◌, refl, ap, sym, ◌∙◌, List, [], ◌∷◌, ◌++◌, map, length, Bytes,
  length-map,
}
use undying_terminal.Result.{ok}
use undying_terminal.Packet.{Packet, serialize}
use undying_terminal.Crypto.{SecretBox, IsSecretBox, CryptoHandler, bump}
use undying_terminal.Writer
use undying_terminal.Reader.{BackedReader, Answer, packet, read, Out, read_local}
use undying_terminal.Reader
use undying_terminal.Reader.Assembly.{IsStream}
use undying_terminal.Connection.{sequence_header}
use undying_terminal.Delivery.{Link, Reaches, start, returned, IsLive, IsDown}
use undying_terminal.Delivery.Sealing.{Seals, Head, Seals-Head, clear}
use undying_terminal.Delivery.Invariant.{start-Inv}
use undying_terminal.Delivery.Steps.{read_local-sealed, read_live, read_buffered-cons, brought}
use undying_terminal.Delivery.Reach.{Reaches-Inv}

module _ {Net : Type 0} (recv : ℕ → ℕ → Net → Answer × Net) (box : SecretBox) where
  -- The packets that so many calls of `Read` return.
  unfoldable pub read_times : ℕ → BackedReader → Net → List Packet
  read_times zero r n = []
  read_times (suc k) r n = let o = read recv box r n in returned o.0.0 ++ read_times k o.0.1 o.1

module _ {Net : Type 0} (recv : ℕ → ℕ → Net → Answer × Net) (pending : Net → Bytes)
    (box : SecretBox) (c : CryptoHandler) (good : IsSecretBox box) where
  read-held :
      (r : BackedReader) (n : Net) (h : Packet) (others : List Packet) (ahead : List Packet)
      (d : CryptoHandler)
      → IsLive r.socket
      → r.local_buffer ≡ map serialize (h ∷ others)
      → (top : Head box r.crypto ahead h others d)
      → read recv box r n ≡ (
        (
          ok (packet (clear top.first)),
          record r { crypto = bump r.crypto; local_buffer = map serialize others },
        ),
        n,
      )
  read-held r n h others ahead d live e top =
      read_live recv pending box c r n live
      ∙ read_buffered-cons recv pending box c r n r.local_buffer (serialize h)
          (map serialize others) e
      ∙ ap (λ (o : Out). (o, n))
          (read_local-sealed box r top.first top.payload (serialize h) (map serialize others) good
            top.sealed (ap serialize top.is_sealed))

  read_times-held :
      (held : List Packet) (r : BackedReader) (n : Net) (ahead : List Packet) (d : CryptoHandler)
      → IsLive r.socket
      → r.local_buffer ≡ map serialize held
      → Seals box r.crypto ahead held d
      → read_times recv box (length held) r n ≡ map clear ahead
  unfolding read_times
  read_times-held [] r n [] d live e s = refl
  read_times-held [] r n (p ∷ ahead) d live e s = absurd s
  read_times-held (h ∷ others) r n ahead d live e s =
      let top = Seals-Head box r.crypto ahead h others d s in
      rw (read-held r n h others ahead d live e top, top.split)
        (ap (◌∷◌ (clear top.first)) (
          read_times-held others
            (record r { crypto = bump r.crypto; local_buffer = map serialize others }) n top.others
            d live refl top.rest))

  -- After any steps from a fresh link, with written payloads of at most 128 MiB less 18 bytes, that end with both
  -- ends closed and fewer than 2 ^ 31 packets received: if the writer's end recovers, the reads of the revived reader that take what waits in its
  -- buffer return, behind what was delivered before, every packet that was ever numbered.
  pub replay_complete :
      (ok_net : IsStream recv pending) (writing reading socket : ℕ) {l : Link} (missed : List Bytes)
      (n : Net)
      → Reaches recv pending box (start c writing reading) l
      → IsDown l.writer.socket
      → IsLive socket
      → l.reader.sequence_number < 2 ^ 31
      → Writer.recover l.writer (sequence_header l.reader.sequence_number) ≡ ok missed
      → l.delivered
          ++ read_times recv box
              (length (l.reader.local_buffer ++ missed))
              (Reader.revive l.reader socket missed)
              n
        ≡ map clear l.written
  unfolding Reader.revive
  replay_complete ok_net writing reading socket {l} missed n r down live small e =
      let i = Reaches-Inv recv pending box c good ok_net (start-Inv box c writing reading) r in
      let buffer : l.reader.local_buffer ++ missed ≡ map serialize (i.held ++ i.coming) =
        ap (λ b. b ++ missed) i.waiting
        ∙ ap (◌++◌ (map serialize i.held)) (brought box c l i missed down small e)
        ∙ sym (map-append serialize i.held i.coming) in
      let count : length (l.reader.local_buffer ++ missed) ≡ length (i.held ++ i.coming) =
        ap length buffer ∙ length-map (i.held ++ i.coming) serialize in
      ap (λ (k : ℕ). l.delivered ++ read_times recv box k (Reader.revive l.reader socket missed) n)
        count
      ∙ ap (◌++◌ l.delivered) (
          read_times-held (i.held ++ i.coming) (Reader.revive l.reader socket missed) n i.ahead
            l.writer.crypto live buffer i.sealed_ahead)
      ∙ ap (λ ps. ps ++ map clear i.ahead) i.delivered_is
      ∙ sym (map-append clear i.seen i.ahead)
      ∙ ap (map clear) (sym i.written_is)
