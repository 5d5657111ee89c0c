-- ===== src/Delivery/Steps/ReadCases.antt =====
-- A read from `local_buffer_`, and one from the socket.
use undying_terminal.Prelude.{
  ℕ, ◌≡◌, refl, ap, sym, ◌∙◌, List, [], ◌∷◌, ◌++◌, map, length, Bytes, arith,
}
use undying_terminal.Result.{ok}
use undying_terminal.Packet.{Packet, serialize}
use undying_terminal.Crypto.{SecretBox, IsSecretBox, CryptoHandler, bump, encrypt}
use undying_terminal.Reader.{BackedReader, Answer, packet, read, read_local}
use undying_terminal.Reader.Assembly.{IsSendable}
use undying_terminal.Delivery.{Link, IsLive}
use undying_terminal.Delivery.Sealing.{
  Head, Seals-Head, sealed_packet, clear, open_packet-Seals, length-sealed,
}
use undying_terminal.Delivery.Invariant.{Inv}
use undying_terminal.Delivery.Steps.Reads.{
  After, opens-Inv, After-opens, read_buffered-cons, read_live,
}

-- A list of serialized packets that is not empty.
map_cons :
    (held : List Packet) (front : Bytes) (rest : List Bytes)
    → front ∷ rest ≡ map serialize held
    → (h : Packet) × (others : List Packet) × (held ≡ h ∷ others)
      × (front ≡ serialize h)
      × (rest ≡ map serialize others)
map_cons [] front rest e = cc
map_cons (h ∷ others) front rest e = (h, others, refl, cc, cc)

-- A sealed packet fits the reader's limits.
pub Head-IsSendable :
    (box : SecretBox) (c : CryptoHandler) (ps : List Packet) (q : Packet) (qs : List Packet)
    (d : CryptoHandler)
    → IsSecretBox box
    → Head box c ps q qs d
    → IsSendable (serialize q)
Head-IsSendable box c ps q qs d good h =
    rw (h.is_sealed) (omega (arith, h.short, length-sealed box c h.first h.payload good h.sealed))

pub read_local-sealed :
    (box : SecretBox) (r : BackedReader) (p : Packet) (payload front : Bytes) (rest : List Bytes)
    → IsSecretBox box
    → encrypt box r.crypto p.payload ≡ (ok payload, bump r.crypto)
    → front ≡ serialize (sealed_packet p payload)
    → read_local box r front rest
      ≡ (ok (packet (clear p)), record r { crypto = bump r.crypto; local_buffer = rest })
unfolding read_local
read_local-sealed box r p payload front rest good sealed e =
    rw (e, open_packet-Seals box r.crypto p payload good sealed)

module _ {Net : Type 0} (recv : ℕ → ℕ → Net → Answer × Net) (pending : Net → Bytes)
    (box : SecretBox) (c : CryptoHandler) (good : IsSecretBox box) where
  -- `Read` takes the oldest packet that a recovery has brought.
  pub local-After :
      (l : Link) (n : Net) (i : Inv box c l) (front : Bytes) (rest : List Bytes)
      → IsLive l.reader.socket
      → pending n ≡ l.wire
      → l.reader.local_buffer ≡ front ∷ rest
      → After pending box c l (read recv box l.reader n)
  local-After l n i front rest live wire e =
      let (h, others, held_is, front_is, rest_is) =
        map_cons i.held front rest (sym e ∙ i.waiting) in
      let top =
        Seals-Head box l.reader.crypto i.ahead h (others ++ i.coming) l.writer.crypto
          (rw held_is at i.sealed_ahead) in
      rw
        (
          read_live recv pending box c l.reader n live,
          read_buffered-cons recv pending box c l.reader n l.reader.local_buffer front rest e,
        )
        (After-opens recv pending box c l (read_local box l.reader front rest, n) top.first
          (record (l.reader) { crypto = bump l.reader.crypto; local_buffer = rest }) l.wire
          (read_local-sealed box l.reader top.first top.payload front rest good top.sealed
            (front_is ∙ ap serialize top.is_sealed))
          wire
          (opens-Inv box c l i.opened others i.coming i.seen top.others top.first top.payload _
            l.wire (rw (held_is, top.is_sealed) at i.tracks)
            (i.written_is ∙ ap (◌++◌ i.seen) top.split) i.delivered_is i.sealed_seen top.sealed
            top.short top.rest refl rest_is (omega (arith, i.count, ap length held_is)) i.streams))
