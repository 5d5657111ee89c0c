-- ===== src/Writer/Sending.antt =====
-- How the write loop ends.
use undying_terminal.Prelude.{
  ℕ, ◌+◌, ◌≡◌, Bool, false, Option, some, none, List, [], ◌∷◌, length, take-length, arith,
}
use undying_terminal.Result.{ok}
use undying_terminal.Packet.{Packet, frame_bytes, serialize}
use undying_terminal.Writer.{
  BackedWriter, WriteState, skipped, success, wrote_with_failure, SendEvent, accepted, refused,
  invalidated, send_loop, send,
}

-- The loop never answers that it skipped, and answers success only with every byte written and the
-- socket as it was.
abbrev Ends : ℕ → Option WriteState × ℕ × Bool → Type 0
Ends size (some skipped, _, _) = ⊥
Ends size (some success, written, gone) = (written ≡ size) × (gone ≡ false)
Ends size (some wrote_with_failure, _, _) = Unit
Ends size (none, _, _) = Unit

send_loop-Ends : (size written : ℕ) (es : List SendEvent) → Ends size (send_loop size written es)
unfolding send_loop
send_loop-Ends size written [] = tt
send_loop-Ends size written (invalidated ∷ es) = tt
send_loop-Ends size written (refused ∷ es) = tt
send_loop-Ends size written (accepted n ∷ es) = ground (arith, send_loop-Ends size (written + n) es)

Ends-skipped :
    (size : ℕ) (out : Option WriteState × ℕ × Bool) → Ends size out → out.0 ≡ some skipped → ⊥
Ends-skipped size (some skipped, _, _) h e = h
Ends-skipped size (some success, _, _) h e = cc
Ends-skipped size (some wrote_with_failure, _, _) h e = cc
Ends-skipped size (none, _, _) h e = cc

Ends-success :
    (size : ℕ) (out : Option WriteState × ℕ × Bool)
    → Ends size out
    → out.0 ≡ some success
    → (out.1 ≡ size) × (out.2 ≡ false)
Ends-success size (some skipped, _, _) h e = absurd h
Ends-success size (some success, _, _) h e = h
Ends-success size (some wrote_with_failure, _, _) h e = cc
Ends-success size (none, _, _) h e = cc

some-result :
    (loop : Option WriteState) (state : WriteState) → ok loop ≡ ok (some state) → loop ≡ some state
some-result loop state e = cc

pub send-skipped :
    (w : BackedWriter) (q : Packet) (es : List SendEvent)
    → (send w q es).result ≡ ok (some skipped)
    → ⊥
unfolding send
send-skipped w q es e =
    Ends-skipped (length (frame_bytes (serialize q)))
      (send_loop (length (frame_bytes (serialize q))) 0 es)
      (send_loop-Ends (length (frame_bytes (serialize q))) 0 es) (some-result _ _ e)

-- A write that answers success has put the whole frame on the wire and left the socket in place.
pub send-success :
    (w : BackedWriter) (q : Packet) (es : List SendEvent)
    → (send w q es).result ≡ ok (some success)
    → ((send w q es).sent ≡ frame_bytes (serialize q)) × ((send w q es).writer ≡ w)
unfolding send
send-success w q es e =
    let (all, kept) =
      Ends-success (length (frame_bytes (serialize q)))
        (send_loop (length (frame_bytes (serialize q))) 0 es)
        (send_loop-Ends (length (frame_bytes (serialize q))) 0 es) (some-result _ _ e) in
    (rw all (take-length (frame_bytes (serialize q))), rw kept)
