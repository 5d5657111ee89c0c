-- ===== src/SocketHandler/Sending.antt =====
-- `WriteAllOrThrow`, and the packet that `WritePacket` sends and `ReadPacket` reads.
use undying_terminal.Prelude.{
  ℕ, suc, ◌+◌, ◌≤◌, ◌≡◌, refl, sym, ap, ◌∙◌, Bool, true, false, ◌||◌, List, [], ◌∷◌, ◌++◌, ltb,
  ◌==◌, length, length-append, length-drop, take, drop, take-append-drop, take-append_length,
  drop-append_length, append_assoc, Bytes, arith,
}
use undying_terminal.Wire.{be32}
use undying_terminal.Wire.RoundTrip.{of_be32-be32, length-be32}
use undying_terminal.Packet.{Packet, serialize, of_bytes, frame_bytes}
use undying_terminal.Packet.RoundTrip.{of_bytes-serialize}
use undying_terminal.SocketHandler.{
  Turn, Incoming, Outcome, done, SendTurn, takes, closes, refuses, finished, Sent, sends,
  send_round, Reads, return, ◌>>=◌, write_all, write_packet, read_packet_body, read_packet,
  max_bytes, read_all,
}
use undying_terminal.SocketHandler.Reading.{
  arrived, AllOpen, Reached, read_all-Reached, AllOpen-rest, arrived-append,
}

-- Every round sends something in time.
abbrev pub AllTake : List SendTurn → Type 0
AllTake [] = Unit
AllTake (takes elapsed more ∷ ts) = (elapsed ≤ 30) × AllTake ts
AllTake (closes elapsed ∷ ts) = ⊥
AllTake (refuses elapsed ∷ ts) = ⊥

send_in_time :
    (timeout : Bool) (elapsed more : ℕ)
    → elapsed ≤ 30
    → send_round timeout (takes elapsed more) ≡ sends (suc more)
unfolding send_round
send_in_time true elapsed more h = ground arith
send_in_time false elapsed more h = refl

-- What `WriteAllOrThrow` leaves when it has sent everything.
pub record Finished (bytes : Bytes) (turns : List SendTurn) (o : Sent) : Type 0 where
  pub rest : List SendTurn
  pub kept : AllTake rest
  pub few : length turns ≤ length rest + length bytes
  pub result : o ≡ (bytes, finished rest)

pub write_all-Finished :
    (left : Bytes) (timeout : Bool) (turns : List SendTurn)
    → length left ≤ length turns
    → AllTake turns
    → Finished left turns (write_all left timeout turns)
unfolding write_all
write_all-Finished [] timeout [] enough ok = record {
  rest = [];
  kept = tt;
  few = omega arith;
  result = refl;
}
write_all-Finished [] timeout (t ∷ ts) enough ok = record {
  rest = t ∷ ts;
  kept = ok;
  few = omega arith;
  result = refl;
}
write_all-Finished (b ∷ left) timeout [] enough ok = absurd (omega arith)
write_all-Finished (b ∷ left) timeout (closes elapsed ∷ ts) enough ok = absurd ok
write_all-Finished (b ∷ left) timeout (refuses elapsed ∷ ts) enough ok = absurd ok
write_all-Finished (b ∷ left) timeout (takes elapsed more ∷ ts) enough ok =
    let ih =
      write_all-Finished (drop more left) timeout ts (omega (arith, length-drop more left)) ok.1 in
    record {
      rest = ih.rest;
      kept = ih.kept;
      few = omega (arith, ih.few, length-drop more left);
      result = rw (
        send_in_time timeout elapsed more ok.0,
        write_all,
        ih.result,
        take-append-drop more left,
      );
    }

abbrev pub size : Packet → ℕ
size p = length (serialize p)

-- `WritePacket` sends the frame of a packet that is not too large, where every round sends something and
-- there are as many rounds as bytes.
write_packet-Finished :
    (p : Packet) (turns : List SendTurn)
    → size p ≤ max_bytes
    → 4 + size p ≤ length turns
    → AllTake turns
    → Finished (frame_bytes (serialize p)) turns (write_packet p turns)
unfolding write_packet frame_bytes
write_packet-Finished p turns fits enough ok =
    let small : ltb max_bytes (size p) ≡ false = ground arith in
    let header =
      write_all-Finished (be32 (size p)) false turns (omega (arith, length-be32 (size p))) ok in
    let body =
      write_all-Finished (serialize p) false header.rest
        (omega (arith, header.few, length-be32 (size p))) header.kept in
    record {
      rest = body.rest;
      kept = body.kept;
      few = omega (arith, header.few, body.few, length-append (be32 (size p)) (serialize p));
      result = rw (small, header.result, body.result);
    }

-- What a call leaves when it has read a packet or a message.
pub record Received {A : Type 0} (p : A) (behind : Bytes) (turns : List Turn) (o : Outcome A)
    : Type 0 where
  pub used : List Turn
  pub rest : List Turn
  pub cut : turns ≡ used ++ rest
  pub result : o ≡ done p (record { pending = behind ++ arrived used; turns = rest })

length_fine : (p : Packet) → size p ≤ max_bytes → ((size p == 0) || ltb max_bytes (size p)) ≡ false
unfolding serialize
length_fine p fits = ground arith

take-frame : (s behind : Bytes) → take 4 (frame_bytes s ++ behind) ≡ be32 (length s)
unfolding frame_bytes be32
take-frame s behind = refl

drop-frame : (s behind : Bytes) → drop 4 (frame_bytes s ++ behind) ≡ s ++ behind
unfolding frame_bytes be32
drop-frame s behind = refl

length-frame : (s behind : Bytes) → length (frame_bytes s ++ behind) ≡ 4 + length s + length behind
unfolding frame_bytes be32
length-frame s behind = omega (arith, length-append s behind)

pub bind_done :
    {A B : Type 0} (m : Reads A) (f : A → Reads B) (s s' : Incoming) {a : A}
    → m s ≡ done a s'
    → (m >>= f) s ≡ f a s'
bind_done m f s s' h = rw (h, ◌>>=◌)

abbrev pub at_hand : Bytes → List Turn → Incoming
at_hand pending turns = record { pending = pending; turns = turns }

-- The header of a packet, and its body.
header_reads :
    (p : Packet) (behind : Bytes) (turns : List Turn)
    → size p ≤ max_bytes
    → (r : Reached 4 []
        (frame_bytes (serialize p) ++ behind)
        turns
        (read_all 4 false (at_hand (frame_bytes (serialize p) ++ behind) turns)))
    → read_packet (at_hand (frame_bytes (serialize p) ++ behind) turns)
      ≡ read_packet_body (size p) (at_hand (serialize p ++ (behind ++ arrived r.used)) r.rest)
unfolding read_packet
header_reads p behind turns fits r =
    bind_done (read_all 4 false) _ (at_hand (frame_bytes (serialize p) ++ behind) turns) _ r.result
    ∙ rw (
      take-frame (serialize p) behind,
      drop-frame (serialize p) behind,
      of_be32-be32 (size p) (omega arith),
      length_fine p fits,
      append_assoc (serialize p) behind (arrived r.used),
    )

body_reads :
    (p : Packet) (behind : Bytes) (turns : List Turn)
    (r : Reached
      (size p)
      []
      (serialize p ++ behind)
      turns
      (read_all (size p) false (at_hand (serialize p ++ behind) turns)))
    → read_packet_body (size p) (at_hand (serialize p ++ behind) turns)
      ≡ done p (at_hand (behind ++ arrived r.used) r.rest)
body_reads p behind turns r =
    bind_done (read_all (size p) false) (λ b. return (of_bytes b))
      (at_hand (serialize p ++ behind) turns) _ r.result
    ∙ rw (
      take-append_length (size p) (serialize p) behind refl,
      drop-append_length (size p) (serialize p) behind refl,
      of_bytes-serialize p,
    )

body-Received :
    (p : Packet) (behind : Bytes) (turns : List Turn)
    → size p ≤ length turns
    → AllOpen turns
    → Received p behind turns (read_packet_body (size p) (at_hand (serialize p ++ behind) turns))
body-Received p behind turns enough up =
    let body =
      read_all-Reached false (size p) (at_hand (serialize p ++ behind) turns)
        (omega (arith, length-append (serialize p) behind)) enough up in
    record {
      used = body.used;
      rest = body.rest;
      cut = body.cut;
      result = body_reads p behind turns body;
    }

-- The turns of the header in front of those of the body.
pub Received-header :
    {A : Type 0} (p : A) (behind : Bytes) (turns used rest : List Turn) {o o' : Outcome A}
    → turns ≡ used ++ rest
    → o' ≡ o
    → Received p (behind ++ arrived used) rest o
    → Received p behind turns o'
Received-header p behind turns used rest cut e r = record {
  used = used ++ r.used;
  rest = r.rest;
  cut = cut ∙ ap (◌++◌ used) r.cut ∙ sym (append_assoc used r.used r.rest);
  result =
      e
      ∙ r.result
      ∙ rw (append_assoc behind (arrived used) (arrived r.used), arrived-append used r.used);
}

-- `ReadPacket` where the frame of a packet is pending, the packet is not too large, and in as many rounds
-- as the frame has bytes the socket neither ends nor breaks.
read_packet-Received :
    (p : Packet) (behind : Bytes) (turns : List Turn)
    → size p ≤ max_bytes
    → 4 + size p ≤ length turns
    → AllOpen turns
    → Received p behind turns (read_packet (at_hand (frame_bytes (serialize p) ++ behind) turns))
read_packet-Received p behind turns fits enough up =
    let header =
      read_all-Reached false 4 (at_hand (frame_bytes (serialize p) ++ behind) turns)
        (omega (arith, length-frame (serialize p) behind)) (omega arith) up in
    Received-header p behind turns header.used header.rest header.cut
      (header_reads p behind turns fits header)
      (body-Received p (behind ++ arrived header.used) header.rest
        (omega (arith, header.few, ap length header.cut, length-append header.used header.rest))
        (AllOpen-rest header.used header.rest (rw header.cut at up)))

-- What `WritePacket` sends of a packet that is not too large is what `ReadPacket` reads: over sockets that
-- stay open, with a round for each byte of the frame, the call that sends finishes, and the call that
-- reads, from where these bytes are pending, returns the packet and leaves all bytes behind it.
pub packet_travels :
    (p : Packet) (behind : Bytes) (sending_turns : List SendTurn) (turns : List Turn)
    → size p ≤ max_bytes
    → 4 + size p ≤ length sending_turns
    → AllTake sending_turns
    → 4 + size p ≤ length turns
    → AllOpen turns
    → (rest : List SendTurn) × (left used : List Turn) × ((write_packet p sending_turns).1
        ≡ finished rest)
      × (turns ≡ used ++ left)
      × (read_packet
            (record { pending = (write_packet p sending_turns).0 ++ behind; turns = turns })
          ≡ done p (record { pending = behind ++ arrived used; turns = left }))
packet_travels p behind sending_turns turns fits enough ok rounds up =
    let out = write_packet-Finished p sending_turns fits enough ok in
    let got = read_packet-Received p behind turns fits rounds up in
    (out.rest, got.rest, got.used, rw out.result, got.cut, rw out.result got.result)
