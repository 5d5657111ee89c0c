-- ===== src/Delivery/Steps/Writes.antt =====
-- `Connection::Write` keeps the invariant.
use undying_terminal.Prelude.{
  ℕ, ◌≡◌, refl, ap, sym, ◌∙◌, some, List, [], ◌∷◌, ◌++◌, append_assoc, append-nil, length, drop,
  take-append-drop, Bytes, arith,
}
use undying_terminal.Result.{Result, ok, throw}
use undying_terminal.Packet.{Packet, serialize, frame_bytes}
use undying_terminal.Crypto.{SecretBox, CryptoHandler, bump, encrypt}
use undying_terminal.Writer.{
  BackedWriter, WriteState, skipped, success, wrote_with_failure, SendEvent, accepted, refused,
  invalidated, invalid_socket, send_loop, send, store, write_sealed, write,
}
use undying_terminal.Writer
use undying_terminal.Writer.Sending.{send-skipped, send-success}
use undying_terminal.Writer.History.{Tracks, numbered, write-Tracks}
use undying_terminal.Delivery.{Link, IsLive, IsShort, counted, settled}
use undying_terminal.Delivery.Sealing.{Seals-concat, sealed_packet, encrypt-bump}
use undying_terminal.Delivery.Invariant.{Inv, Streams, frames, frames-append, IsPartial-concat}

-- What the socket takes is a prefix of the frame, and all of it on success.
pub record Sends (w : BackedWriter) (q : Packet) (state : WriteState) (out : Writer.WriteOut)
    : Type 0 where
  pub rest : Bytes
  pub split : out.sent ++ rest ≡ frame_bytes (serialize q)
  pub all : IsLive (settled state out.writer).socket → rest ≡ []
  pub crypto_same : (settled state out.writer).crypto ≡ w.crypto

send-Sends :
    (w : BackedWriter) (q : Packet) (es : List SendEvent) (state : WriteState)
    → (send w q es).result ≡ ok (some state)
    → Sends w q state (send w q es)
unfolding send
send-Sends w q es skipped e = absurd (send-skipped w q es e)
send-Sends w q es wrote_with_failure e = record {
  rest = drop (send_loop (length (frame_bytes (serialize q))) 0 es).1 (frame_bytes (serialize q));
  split = take-append-drop _ (frame_bytes (serialize q));
  all = λ live. cc;
  crypto_same = ground arith;
}
send-Sends w q es success e =
    let (all, same) = send-success w q es e in
    record {
      rest = [];
      split = append-nil _ ∙ all;
      all = λ _. refl;
      crypto_same = ap (λ (v : BackedWriter). v.crypto) same;
    }

-- What a completed write on a live socket has done.
pub record Wrote (box : SecretBox) (w : BackedWriter) (p : Packet) (es : List SendEvent)
    : Type 0 where
  payload : Bytes
  sealed : encrypt box w.crypto p.payload ≡ (ok payload, bump w.crypto)
  sends :
      write box w p es
      ≡ send
          (store (record w { crypto = bump w.crypto }) (sealed_packet p payload))
          (sealed_packet p payload)
          es

write_sealed-Wrote :
    (box : SecretBox) (w : BackedWriter) (p : Packet) (es : List SendEvent) (state : WriteState)
    (made : Result Bytes × CryptoHandler)
    → IsLive w.socket
    → encrypt box w.crypto p.payload ≡ made
    → (write_sealed w p es made).result ≡ ok (some state)
    → Wrote box w p es
unfolding write write_sealed
write_sealed-Wrote box w p es state (throw x, d) live e h = cc
write_sealed-Wrote box w p es state (ok payload, d) live e h =
    let moved = encrypt-bump box w.crypto p.payload (ok payload) d e in
    record {
      payload = payload;
      sealed = e ∙ ap (λ (c : CryptoHandler). (ok payload, c)) moved;
      sends = rw (live, e, moved);
    }

pub write-Wrote :
    (box : SecretBox) (w : BackedWriter) (p : Packet) (es : List SendEvent) (state : WriteState)
    → IsLive w.socket
    → (write box w p es).result ≡ ok (some state)
    → Wrote box w p es
unfolding write
write-Wrote box w p es state live h = write_sealed-Wrote box w p es state _ live refl (rw live at h)

settled-Tracks :
    (state : WriteState) (w : BackedWriter) (sent : List Packet)
    → Tracks w sent
    → Tracks (settled state w) sent
settled-Tracks skipped w sent t = t
settled-Tracks success w sent t = t
settled-Tracks wrote_with_failure w sent t = record {
  backup = t.backup;
  size = t.size;
  count = t.count;
}

crypto-store : (w : BackedWriter) (q : Packet) → (store w q).crypto ≡ w.crypto
unfolding store
crypto-store w q = refl

numbered_live :
    (box : SecretBox) (w : BackedWriter) (p : Packet) (payload : Bytes)
    → IsLive w.socket
    → encrypt box w.crypto p.payload ≡ (ok payload, bump w.crypto)
    → numbered box w p ≡ sealed_packet p payload ∷ []
unfolding numbered
numbered_live box w p payload live e = rw (live, e)

append_behind {ℓ} : {A : Type ℓ} (a b c d : List A) → (a ++ (b ++ c)) ++ d ≡ a ++ (b ++ (c ++ d))
append_behind a b c d = append_assoc a (b ++ c) d ∙ ap (◌++◌ a) (append_assoc b c d)

Streams-write :
    (socket socket' : ℕ) (partial wire sent rest : Bytes) (coming : List Packet) (q : Packet)
    → IsLive socket
    → sent ++ rest ≡ frame_bytes (serialize q)
    → (IsLive socket' → rest ≡ [])
    → Streams socket partial wire coming
    → Streams socket' partial (wire ++ sent) (coming ++ q ∷ [])
Streams-write socket socket' partial wire sent rest coming q live split all st = record {
  lost = rest;
  carried =
      ap (◌++◌ partial) (append_assoc wire sent rest ∙ ap (◌++◌ wire) split)
      ∙ sym (append_assoc partial wire (frame_bytes (serialize q)))
      ∙ ap (λ (b : Bytes). b ++ frame_bytes (serialize q)) before
      ∙ ap (◌++◌ (frames coming)) (sym (append-nil (frame_bytes (serialize q))))
      ∙ sym (frames-append coming (q ∷ []));
  whole = all;
  short = IsPartial-concat partial (wire ++ st.lost) coming q st.carried st.short;
}
  where
    before : partial ++ wire ≡ frames coming
    before =
        ap (◌++◌ partial) (sym (append-nil wire) ∙ ap (◌++◌ wire) (sym (st.whole live)))
        ∙ st.carried

pub writes_live-Inv :
    (box : SecretBox) (c : CryptoHandler) (l : Link) (p : Packet) (es : List SendEvent)
    (state : WriteState)
    → Inv box c l
    → IsShort p
    → IsLive l.writer.socket
    → (write box l.writer p es).result ≡ ok (some state)
    → Wrote box l.writer p es
    → Inv box c (record l {
      writer = settled state (write box l.writer p es).writer;
      wire = l.wire ++ (write box l.writer p es).sent;
      written = l.written ++ counted l.writer p;
    })
writes_live-Inv box c l p es state i short live h done = record {
  opened = i.opened;
  held = i.held;
  coming = i.coming ++ q ∷ [];
  seen = i.seen;
  ahead = i.ahead ++ p ∷ [];
  tracks =
      rw
        (
          ← append_behind i.opened i.held i.coming (q ∷ []),
          ← numbered_live box l.writer p done.payload live done.sealed,
        )
        (settled-Tracks state _ _ (write-Tracks box l.writer _ p es i.tracks));
  written_is = rw (live, i.written_is) (append_assoc i.seen i.ahead (p ∷ []));
  delivered_is = i.delivered_is;
  sealed_seen = i.sealed_seen;
  sealed_ahead =
      rw (same, ← append_assoc i.held i.coming (q ∷ []))
        (Seals-concat box _ i.ahead (i.held ++ i.coming) _ p done.payload i.sealed_ahead done.sealed
          short);
  waiting = i.waiting;
  count = i.count;
  streams = λ live_reader.
      Streams-write l.writer.socket _ _ l.wire _ sends.rest i.coming q live sends.split sends.all
        (i.streams live_reader);
}
  where
    q : Packet
    q = sealed_packet p done.payload

    sends :
        Sends
          (store (record (l.writer) { crypto = bump l.writer.crypto }) q)
          q
          state
          (write box l.writer p es)
    sends = rw (done.sends) (send-Sends _ q es state (rw (done.sends) at h))

    same : (settled state (write box l.writer p es).writer).crypto ≡ bump l.writer.crypto
    same = sends.crypto_same ∙ crypto-store _ q
