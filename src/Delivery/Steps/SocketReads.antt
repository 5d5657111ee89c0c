-- ===== src/Delivery/Steps/SocketReads.antt =====
-- A read from the socket.
use undying_terminal.Prelude.{
  ℕ, ◌+◌, ◌<◌, ◌≡◌, refl, ap, sym, ◌∙◌, inl, inr, Bool-cases, List, [], ◌∷◌, ◌++◌, ◌==◌, map,
  append_assoc, append-nil, length, length-append, Bytes, arith,
}
use undying_terminal.Result.{ok}
use undying_terminal.Packet.{Packet, serialize, frame_bytes}
use undying_terminal.Packet.RoundTrip.{length-frame_bytes}
use undying_terminal.Crypto.{SecretBox, IsSecretBox, CryptoHandler, bump, encrypt}
use undying_terminal.Writer.{invalid_socket}
use undying_terminal.Reader.{
  BackedReader, Answer, packet, incomplete, read, read_socket, constructed, open_packet,
}
use undying_terminal.Reader.Assembly.{IsStream, read_socket-Assembles}
use undying_terminal.Delivery.{Link, IsLive}
use undying_terminal.Delivery.Sealing.{Seals-Head, sealed_packet, clear, open_packet-Seals}
use undying_terminal.Delivery.Invariant.{Inv, Streams, IsPartial, frames}
use undying_terminal.Delivery.Steps.Reads.{
  After, opens-Inv, waits-Inv, After-opens, After-waits, read_buffered-nil, read_live, read_dead,
}
use undying_terminal.Delivery.Steps.ReadCases.{Head-IsSendable, local-After}

-- Bytes that never come may be thought to stand behind a stream.
IsStream-append :
    {Net : Type 0} (recv : ℕ → ℕ → Net → Answer × Net) (pending : Net → Bytes) (more : Bytes)
    → IsStream recv pending
    → IsStream recv (λ n. pending n ++ more)
IsStream-append recv pending more s = record {
  recv-pending = λ socket count n bytes n' e.
      let (came, few) = s.recv-pending socket count n bytes n' e in
      (ap (λ (b : Bytes). b ++ more) came ∙ append_assoc bytes (pending n') more, few);
  recv-closed =
      λ socket count n n' e. ap (λ (b : Bytes). b ++ more) (s.recv-closed socket count n n' e);
  recv-failed =
      λ socket count n n' e. ap (λ (b : Bytes). b ++ more) (s.recv-failed socket count n n' e);
}

IsPartial-nil : (coming : List Packet) → IsPartial [] coming
IsPartial-nil [] = tt
IsPartial-nil (q ∷ coming) = omega arith

append-eq-nil : (xs ys : Bytes) → length xs + length ys ≡ 0 → (xs ≡ []) × (ys ≡ [])
append-eq-nil [] [] e = (refl, refl)
append-eq-nil [] (y ∷ ys) e = absurd (omega arith)
append-eq-nil (x ∷ xs) ys e = absurd (omega arith)

map-nil : (held : List Packet) → map serialize held ≡ [] → held ≡ []
map-nil [] e = refl
map-nil (h ∷ held) e = cc

constructed-sealed :
    (box : SecretBox) (r : BackedReader) (p q : Packet) (payload partial : Bytes)
    → IsSecretBox box
    → encrypt box r.crypto p.payload ≡ (ok payload, bump r.crypto)
    → q ≡ sealed_packet p payload
    → constructed (record r { partial_message = partial }) (open_packet box r.crypto (serialize q))
      ≡ (
        ok (packet (clear p)),
        record r {
          crypto = bump r.crypto;
          partial_message = [];
          sequence_number = r.sequence_number + 1;
        },
      )
constructed-sealed box r p q payload partial good sealed e =
    rw (e, open_packet-Seals box r.crypto p payload good sealed)

module _ {Net : Type 0} (recv : ℕ → ℕ → Net → Answer × Net) (pending : Net → Bytes)
    (box : SecretBox) (c : CryptoHandler) (good : IsSecretBox box)
    (ok_net : IsStream recv pending) where
  -- A packet is still to come, in whole or in part.
  coming-After :
      (l : Link) (n : Net) (i : Inv box c l) (q : Packet) (later : List Packet) (lost : Bytes)
      → i.held ≡ []
      → i.coming ≡ q ∷ later
      → l.reader.partial_message ++ (pending n ++ lost) ≡ frames (q ∷ later)
      → length l.reader.partial_message < 4 + length (serialize q)
      → (IsLive l.writer.socket → lost ≡ [])
      → After pending box c l (read_socket recv box l.reader n)
  coming-After l n i q later lost none_held some_coming carried short whole =
      let top =
        Seals-Head box l.reader.crypto i.ahead q later l.writer.crypto
          (rw (none_held, some_coming) at i.sealed_ahead) in
      elim (read_socket-Assembles recv box (λ m. pending m ++ lost) l.reader n (serialize q)
        (frames later) (IsStream-append recv pending lost ok_net)
        (Head-IsSendable box l.reader.crypto i.ahead q later l.writer.crypto good top) short
        carried) [
          | inl (result, (p, reader_is, short', carried')) ↦
              After-waits recv pending box c l _ p _ result reader_is refl (
                waits-Inv box c l i p _ (λ live. record {
                  lost = lost;
                  carried = rw some_coming carried';
                  whole = whole;
                  short = rw some_coming short';
                }))
          | inr (opened_is, rest_is) ↦
              After-opens recv pending box c l _ top.first _ _
                (opened_is
                  ∙ constructed-sealed box l.reader top.first q top.payload _ good top.sealed
                      top.is_sealed)
                refl
                (opens-Inv box c l i.opened [] later i.seen top.others top.first top.payload _ _
                  (rw (none_held, some_coming, top.is_sealed) at i.tracks)
                  (i.written_is ∙ ap (◌++◌ i.seen) top.split) i.delivered_is i.sealed_seen
                  top.sealed top.short top.rest refl (i.waiting ∙ ap (map serialize) none_held)
                  (omega (arith, i.count, ap length none_held))
                  (λ live. record {
                    lost = lost;
                    carried = rest_is;
                    whole = whole;
                    short = IsPartial-nil later;
                  }))
        ]

  -- Nothing is to come: whatever the socket answers, there are no bytes in it.
  idle-After :
      (l : Link) (n : Net) (i : Inv box c l)
      → i.coming ≡ []
      → l.reader.partial_message ≡ []
      → pending n ≡ []
      → After pending box c l (read_socket recv box l.reader n)
  idle-After l n i none_coming none_partial none_wire =
      elim (read_socket-Assembles recv box (λ m. pending m ++ dummy) l.reader n (0 ∷ []) []
        (IsStream-append recv pending dummy ok_net) (omega arith)
        (omega (arith, ap length none_partial))
        (ap (λ (b : Bytes). b ++ (pending n ++ dummy)) none_partial
          ∙ ap (λ (b : Bytes). b ++ dummy) none_wire
          ∙ sym (append-nil dummy))) [
            | inl (result, (p, reader_is, short, carried)) ↦
                let (no_partial, no_wire) = nothing p _ carried in
                After-waits recv pending box c l _ p _ result reader_is refl (
                  waits-Inv box c l i p _ (λ live. record {
                    lost = [];
                    carried = rw (none_coming, no_partial, no_wire);
                    whole = λ _. refl;
                    short = rw none_coming tt;
                  }))
            | inr (opened_is, rest_is) ↦ absurd (not_nil _ rest_is)
          ]
    where
      dummy : Bytes
      dummy = frame_bytes (0 ∷ [])

      nothing : (p rest : Bytes) → p ++ (rest ++ dummy) ≡ dummy ++ [] → (p ≡ []) × (rest ≡ [])
      nothing p rest e = append-eq-nil p rest (
          omega (
            arith,
            ap length e,
            length-append p (rest ++ dummy),
            length-append rest dummy,
            length-append dummy [],
          ))

      not_nil : (rest : Bytes) → rest ++ dummy ≡ [] → ⊥
      not_nil rest e =
          omega (arith, ap length e, length-append rest dummy, length-frame_bytes (0 ∷ []))

  socket-After :
      (l : Link) (n : Net) (i : Inv box c l) (coming : List Packet)
      → i.coming ≡ coming
      → i.held ≡ []
      → pending n ≡ l.wire
      → Streams l.writer.socket l.reader.partial_message l.wire i.coming
      → After pending box c l (read_socket recv box l.reader n)
  socket-After l n i [] e none_held wire st =
      let gone : length l.reader.partial_message + length (l.wire ++ st.lost) ≡ 0 = omega (
        arith,
        ap length (st.carried ∙ ap frames e),
        length-append l.reader.partial_message (l.wire ++ st.lost),
      ) in
      let (no_partial, no_more) = append-eq-nil _ _ gone in
      let (no_wire, _) =
        append-eq-nil l.wire st.lost
          (omega (arith, ap length no_more, length-append l.wire st.lost)) in
      idle-After l n i e no_partial (wire ∙ no_wire)
  socket-After l n i (q ∷ later) e none_held wire st =
      coming-After l n i q later st.lost none_held e
        (ap (λ (b : Bytes). l.reader.partial_message ++ (b ++ st.lost)) wire
          ∙ st.carried
          ∙ ap frames e)
        (rw e at st.short) st.whole

  buffered-After :
      (l : Link) (n : Net) (i : Inv box c l) (local : List Bytes)
      → l.reader.local_buffer ≡ local
      → IsLive l.reader.socket
      → pending n ≡ l.wire
      → After pending box c l (read recv box l.reader n)
  buffered-After l n i [] e live wire =
      rw
        (
          read_live recv pending box c l.reader n live,
          read_buffered-nil recv pending box c l.reader n l.reader.local_buffer e,
        )
        (socket-After l n i i.coming refl (map-nil i.held (sym i.waiting ∙ e)) wire
          (i.streams live))
  buffered-After l n i (front ∷ rest) e live wire =
      local-After recv pending box c good l n i front rest live wire e

  -- Every read keeps the invariant and throws nothing.
  pub read-After :
      (l : Link) (n : Net)
      → Inv box c l
      → pending n ≡ l.wire
      → After pending box c l (read recv box l.reader n)
  read-After l n i wire = elim (Bool-cases (l.reader.socket == invalid_socket)) [
    | inl dead ↦ rw (read_dead recv pending box c l.reader n dead) (
        After-waits recv pending box c l ((ok incomplete, l.reader), n) l.reader.partial_message
          l.wire (inl refl) refl wire
          (waits-Inv box c l i l.reader.partial_message l.wire i.streams))
    | inr live ↦ buffered-After l n i l.reader.local_buffer refl live wire
  ]
