-- ===== src/Writer.antt =====
-- src/ut/protocol/BackedWriter.{hpp,cpp}: a writer that numbers every packet and keeps the newest ones
-- for a client that comes back. `int64_t` counters are numbers that do not wrap.
pub mod Backup
pub mod History
pub mod Recovery
pub mod Sending
use mathlib.Core.List.{reverse}
use undying_terminal.Prelude.{
  ℕ, zero, suc, ◌+◌, ◌-◌, ◌*◌, ◌^◌, Bool, true, false, not, ◌&&◌, Option, none, some, List, [], ◌∷◌,
  ◌++◌, ltb, ◌==◌, if◌then◌else◌, length, take, Bytes,
}
use undying_terminal.Prelude.Int.{ℤ, pos, pos_part, ◌-ℤ◌, ltb_ℤ}
use undying_terminal.Result.{Result, ok, throw, active_socket, peer_ahead, too_far_behind}
use undying_terminal.Packet.{Packet, serialize, packet_length, frame_bytes}
use undying_terminal.Crypto.{SecretBox, CryptoHandler, encrypt}

-- `kInvalidSocket`, a `std::uintptr_t` of all ones.
abbrev pub invalid_socket : ℕ
invalid_socket = 2 ^ 64 - 1

-- `kMaxBackupBytes`
abbrev pub max_backup_bytes : ℕ
max_backup_bytes = 64 * 1024 * 1024

pub data WriteState : Type 0 where
  skipped success wrote_with_failure : WriteState

-- The head of `backup_buffer` is the front of the deque, the newest packet.
pub record BackedWriter : Type 0 where
  pub socket : ℕ
  pub crypto : CryptoHandler
  pub backup_buffer : List Packet
  pub backup_size : ℕ
  pub sequence_number : ℕ

-- What a round of the write loop meets: `Write` takes so many bytes, `Write` returns a negative
-- number, or another thread has called `InvalidateSocket`.
pub data SendEvent : Type 0 where
  accepted : ℕ → SendEvent
  refused invalidated : SendEvent

unfoldable pub new_writer : CryptoHandler → ℕ → BackedWriter
new_writer crypto socket = record {
  socket = socket;
  crypto = crypto;
  backup_buffer = [];
  backup_size = 0;
  sequence_number = 0;
}

-- `backup_buffer_.pop_back()`
unfoldable pub pop_back {ℓ} : {A : Type ℓ} → List A → List A
pop_back [] = []
pop_back (p ∷ []) = []
pop_back (p ∷ q ∷ ps) = p ∷ pop_back (q ∷ ps)

-- `backup_buffer_.back().length()`
unfoldable pub back_length : List Packet → ℕ
back_length [] = 0
back_length (p ∷ []) = packet_length p
back_length (p ∷ q ∷ ps) = back_length (q ∷ ps)

abbrev pub is_empty {ℓ} : {A : Type ℓ} → List A → Bool
is_empty [] = true
is_empty (_ ∷ _) = false

-- The eviction loop of `Write`, on as many rounds as the deque has packets: each round removes one.
unfoldable pub evict : ℕ → ℕ → List Packet → ℕ × List Packet
evict zero size buffer = (size, buffer)
evict (suc rounds) size buffer =
    let rest = evict rounds (size - back_length buffer) (pop_back buffer) in
    if ltb max_backup_bytes size && not (is_empty buffer) then rest else (size, buffer)

-- `push_front`, the two counters, and the eviction loop.
unfoldable pub store : BackedWriter → Packet → BackedWriter
store w p =
    let buffer = p ∷ w.backup_buffer in
    let kept = evict (length buffer) (w.backup_size + packet_length p) buffer in
    record w {
      backup_buffer = kept.1;
      backup_size = kept.0;
      sequence_number = w.sequence_number + 1;
    }

-- The `while (true)` at the end of `Write`: the bytes written so far, and how it ended. It is
-- `none` where the events end before the loop does. The flag says that the socket was invalidated.
unfoldable pub send_loop : ℕ → ℕ → List SendEvent → Option WriteState × ℕ × Bool
send_loop size written [] = (none, written, false)
send_loop size written (invalidated ∷ es) = (some wrote_with_failure, written, true)
send_loop size written (refused ∷ es) = (some wrote_with_failure, written, false)
send_loop size written (accepted n ∷ es) =
    let rest = send_loop size (written + n) es in
    if written + n == size then (some success, written + n, false) else rest

-- The writer after a call, what the call returns or throws (`none`: it is still in its loop), and
-- the bytes that the socket took.
pub record WriteOut : Type 0 where
  pub writer : BackedWriter
  pub result : Result (Option WriteState)
  pub sent : Bytes

-- The part of `Write` behind the lock: framing, and the loop.
unfoldable pub send : BackedWriter → Packet → List SendEvent → WriteOut
send w p es =
    let framed = frame_bytes (serialize p) in
    let (state, written, gone) = send_loop (length framed) 0 es in
    record {
      writer = if gone then record w { socket = invalid_socket } else w;
      result = ok state;
      sent = take written framed;
    }

-- What follows `Encrypt`, which may have thrown.
unfoldable pub write_sealed :
    BackedWriter → Packet → List SendEvent → Result Bytes × CryptoHandler → WriteOut
write_sealed w p es (throw e, c) = record {
  writer = record w { crypto = c };
  result = throw e;
  sent = [];
}
write_sealed w p es (ok sealed, c) =
    let q = record p { encrypted = true; payload = sealed } in
    send (store (record w { crypto = c }) q) q es

-- `BackedWriter::Write`
unfoldable pub write : SecretBox → BackedWriter → Packet → List SendEvent → WriteOut
write box w p es =
    if w.socket == invalid_socket
    then record { writer = w; result = ok (some skipped); sent = [] }
    else write_sealed w p es (encrypt box w.crypto p.payload)

-- The loop of `Recover` over the deque: it stops when it has seen `wanted` packets.
unfoldable pub collect : ℕ → ℕ → List Bytes → List Packet → Result (List Bytes)
collect wanted seen out [] = throw too_far_behind
collect wanted seen out (p ∷ ps) =
    let taken = out ++ (serialize p ∷ []) in
    let rest = collect wanted (seen + 1) taken ps in
    if seen + 1 == wanted then ok (reverse taken) else rest

-- The tests of `Recover` on `messages_to_recover`, and its loop.
unfoldable pub recover_from : ℤ → List Packet → Result (List Bytes)
recover_from behind buffer =
    if ltb_ℤ behind (pos 0)
    then throw peer_ahead
    else if pos_part behind == 0
    then ok []
    else collect (pos_part behind) 0 [] buffer

-- `BackedWriter::Recover`
unfoldable pub recover : BackedWriter → ℤ → Result (List Bytes)
recover w last_valid =
    if not (w.socket == invalid_socket)
    then throw active_socket
    else recover_from (pos w.sequence_number -ℤ last_valid) w.backup_buffer

-- `BackedWriter::Revive` and `BackedWriter::InvalidateSocket`
abbrev pub revive : BackedWriter → ℕ → BackedWriter
revive w socket = record w { socket = socket }

abbrev pub invalidate : BackedWriter → BackedWriter
invalidate w = record w { socket = invalid_socket }
