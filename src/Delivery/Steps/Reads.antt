-- ===== src/Delivery/Steps/Reads.antt =====
-- `BackedReader::Read` keeps the invariant, and throws nothing.
use mathlib.Core.List.{map-append}
use undying_terminal.Prelude.{
  ℕ, suc, ◌+◌, ◌≡◌, refl, ap, sym, ◌∙◌, ◌⊎◌, inl, inr, true, List, [], ◌∷◌, ◌++◌, ◌==◌, map,
  append_assoc, append-nil, length, length-append, Bytes, arith,
}
use undying_terminal.Result.{ok}
use undying_terminal.Packet.{Packet, serialize}
use undying_terminal.Crypto.{SecretBox, CryptoHandler, bump, encrypt}
use undying_terminal.Writer.{invalid_socket}
use undying_terminal.Writer.History.{Tracks}
use undying_terminal.Reader.{
  BackedReader, Answer, ReadResult, packet, incomplete, lost, Out, read, read_local, read_socket,
  read_buffered,
}
use undying_terminal.Delivery.{Link, IsLive, IsShort, returned}
use undying_terminal.Delivery.Sealing.{Seals, Seals-concat, sealed_packet, clear}
use undying_terminal.Delivery.Invariant.{Inv, Streams}

-- The link after a read that has returned the first packet `p` of those ahead.
pub opens-Inv :
    (box : SecretBox) (c : CryptoHandler) (l : Link) (opened held coming seen ahead : List Packet)
    (p : Packet) (payload : Bytes) (r' : BackedReader) (wire' : Bytes)
    → Tracks l.writer (opened ++ (sealed_packet p payload ∷ (held ++ coming)))
    → l.written ≡ seen ++ p ∷ ahead
    → l.delivered ≡ map clear seen
    → Seals box c seen opened l.reader.crypto
    → encrypt box l.reader.crypto p.payload ≡ (ok payload, bump l.reader.crypto)
    → IsShort p
    → Seals box (bump l.reader.crypto) ahead (held ++ coming) l.writer.crypto
    → r'.crypto ≡ bump l.reader.crypto
    → r'.local_buffer ≡ map serialize held
    → r'.sequence_number ≡ suc (length opened + length held)
    → (IsLive r'.socket → Streams l.writer.socket r'.partial_message wire' coming)
    → Inv box c (record l { reader = r'; wire = wire'; delivered = l.delivered ++ clear p ∷ [] })
opens-Inv box c l opened held coming seen ahead p payload r' wire' t w d ss e short sa cr wt ct st =
    record {
      opened = opened ++ sealed_packet p payload ∷ [];
      held = held;
      coming = coming;
      seen = seen ++ p ∷ [];
      ahead = ahead;
      tracks = rw (append_assoc opened (sealed_packet p payload ∷ []) (held ++ coming)) t;
      written_is = w ∙ sym (append_assoc seen (p ∷ []) ahead);
      delivered_is = rw d (sym (map-append clear seen (p ∷ [])));
      sealed_seen = rw cr (Seals-concat box c seen opened l.reader.crypto p payload ss e short);
      sealed_ahead = rw cr sa;
      waiting = wt;
      count = omega (arith, length-append opened (sealed_packet p payload ∷ []));
      streams = st;
    }

-- The link after a read that has returned nothing.
pub waits-Inv :
    (box : SecretBox) (c : CryptoHandler) (l : Link) (i : Inv box c l) (partial wire' : Bytes)
    → (IsLive l.reader.socket → Streams l.writer.socket partial wire' i.coming)
    → Inv box c (record l {
      reader = record (l.reader) { partial_message = partial };
      wire = wire';
      delivered = l.delivered ++ [];
    })
waits-Inv box c l i partial wire' st = record {
  opened = i.opened;
  held = i.held;
  coming = i.coming;
  seen = i.seen;
  ahead = i.ahead;
  tracks = i.tracks;
  written_is = i.written_is;
  delivered_is = append-nil _ ∙ i.delivered_is;
  sealed_seen = i.sealed_seen;
  sealed_ahead = i.sealed_ahead;
  waiting = i.waiting;
  count = i.count;
  streams = st;
}

-- The link after a read with the outcome `o`, and that it has not thrown.
abbrev pub After :
    {Net : Type 0} → (Net → Bytes) → SecretBox → CryptoHandler → Link → Out × Net → Type 0
After pending box c l o =
    Inv box c
      (record l { reader = o.0.1; wire = pending o.1; delivered = l.delivered ++ returned o.0.0 })
    × ((r : ReadResult) × (o.0.0 ≡ ok r))

module _ {Net : Type 0} (recv : ℕ → ℕ → Net → Answer × Net) (pending : Net → Bytes)
    (box : SecretBox) (c : CryptoHandler) where
  pub After-opens :
      (l : Link) (o : Out × Net) (p : Packet) (r' : BackedReader) (wire' : Bytes)
      → o.0 ≡ (ok (packet (clear p)), r')
      → pending o.1 ≡ wire'
      → Inv box c (record l { reader = r'; wire = wire'; delivered = l.delivered ++ clear p ∷ [] })
      → After pending box c l o
  After-opens l o p r' wire' e e' i = (rw (e, e') i, (packet (clear p), ap (λ (x : Out). x.0) e))

  pub After-waits :
      (l : Link) (o : Out × Net) (partial wire' : Bytes)
      → (o.0.0 ≡ ok incomplete) ⊎ (o.0.0 ≡ ok lost)
      → o.0.1 ≡ record (l.reader) { partial_message = partial }
      → pending o.1 ≡ wire'
      → Inv box c (record l {
        reader = record (l.reader) { partial_message = partial };
        wire = wire';
        delivered = l.delivered ++ [];
      })
      → After pending box c l o
  After-waits l o partial wire' (inl e) er e' i = (rw (e, er, e') i, (incomplete, e))
  After-waits l o partial wire' (inr e) er e' i = (rw (e, er, e') i, (lost, e))

  pub read_buffered-nil :
      (r : BackedReader) (n : Net) (xs : List Bytes)
      → xs ≡ []
      → read_buffered recv box r n xs ≡ read_socket recv box r n
  read_buffered-nil r n [] e = refl
  read_buffered-nil r n (x ∷ xs) e = cc

  pub read_buffered-cons :
      (r : BackedReader) (n : Net) (xs : List Bytes) (front : Bytes) (rest : List Bytes)
      → xs ≡ front ∷ rest
      → read_buffered recv box r n xs ≡ (read_local box r front rest, n)
  read_buffered-cons r n [] front rest e = cc
  read_buffered-cons r n (x ∷ xs) front rest e = cc

  pub read_dead :
      (r : BackedReader) (n : Net)
      → (r.socket == invalid_socket) ≡ true
      → read recv box r n ≡ ((ok incomplete, r), n)
  unfolding read
  read_dead r n dead = rw dead

  pub read_live :
      (r : BackedReader) (n : Net)
      → IsLive r.socket
      → read recv box r n ≡ read_buffered recv box r n r.local_buffer
  unfolding read
  read_live r n live = rw live
