-- ===== src/Writer/History.antt =====
-- The writer against the list of all packets that it has ever numbered, oldest first.
use mathlib.Core.List.{reverse, reverse-append}
use undying_terminal.Prelude.{
  ℕ, ◌+◌, ◌-◌, ◌≡◌, refl, ap, sym, ◌∙◌, true, inl, inr, Bool-cases, List, append-nil, [], ◌∷◌, ◌++◌,
  if◌then◌else◌, ◌==◌, length, length-append, arith, Bytes,
}
use undying_terminal.Result.{Result, ok, throw}
use undying_terminal.Packet.{Packet, packet_length}
use undying_terminal.Crypto.{SecretBox, CryptoHandler, encrypt}
use undying_terminal.Writer.{
  BackedWriter, SendEvent, invalid_socket, max_backup_bytes, evict, store, send, write_sealed,
  write, new_writer,
}
use undying_terminal.Writer.Backup.{total, fits, fits-fits, evict-fits}

-- The backup holds the newest packets of `sent`, as many as fit in the limit; the counters are right.
pub record Tracks (w : BackedWriter) (sent : List Packet) : Type 0 where
  pub backup : w.backup_buffer ≡ fits max_backup_bytes (reverse sent)
  pub size : w.backup_size ≡ total w.backup_buffer
  pub count : w.sequence_number ≡ length sent

fits-cons_fits :
    (budget : ℕ) (p : Packet) (ps : List Packet)
    → fits budget (p ∷ fits budget ps) ≡ fits budget (p ∷ ps)
unfolding fits
fits-cons_fits budget p ps = ground (arith, fits-fits (budget - packet_length p) budget ps)

store_kept :
    (w : BackedWriter) (p : Packet)
    → w.backup_size ≡ total w.backup_buffer
    → evict (length (p ∷ w.backup_buffer)) (w.backup_size + packet_length p) (p ∷ w.backup_buffer)
      ≡ (
        total (fits max_backup_bytes (p ∷ w.backup_buffer)),
        fits max_backup_bytes (p ∷ w.backup_buffer),
      )
store_kept w p e =
    rw sized (evict-fits (length (p ∷ w.backup_buffer)) (p ∷ w.backup_buffer) (omega arith))
  where
    sized : w.backup_size + packet_length p ≡ total (p ∷ w.backup_buffer)
    sized = unfold total in omega arith

pub store-Tracks :
    (w : BackedWriter) (sent : List Packet) (p : Packet)
    → Tracks w sent
    → Tracks (store w p) (sent ++ p ∷ [])
unfolding store
store-Tracks w sent p t = record {
  backup =
      ap (λ (k : ℕ × List Packet). k.1) kept
      ∙ rw (t.backup, reverse-append) (fits-cons_fits max_backup_bytes p (reverse sent));
  size =
      ap (λ (k : ℕ × List Packet). k.0) kept
      ∙ ap total (sym (ap (λ (k : ℕ × List Packet). k.1) kept));
  count = omega (arith, t.count, length-append sent (p ∷ []));
}
  where
    kept :
        evict (length (p ∷ w.backup_buffer)) (w.backup_size + packet_length p) (p ∷ w.backup_buffer)
        ≡ (
          total (fits max_backup_bytes (p ∷ w.backup_buffer)),
          fits max_backup_bytes (p ∷ w.backup_buffer),
        )
    kept = store_kept w p t.size

-- The packet that a call of `Write` numbers, if it numbers one: the argument with its payload
-- encrypted under the next nonce.
abbrev pub sealed_as : Packet → Result Bytes × CryptoHandler → List Packet
sealed_as p (throw e, c) = []
sealed_as p (ok payload, c) = record p { encrypted = true; payload = payload } ∷ []

unfoldable pub numbered : SecretBox → BackedWriter → Packet → List Packet
numbered box w p =
    if w.socket == invalid_socket then [] else sealed_as p (encrypt box w.crypto p.payload)

send-Tracks :
    (w : BackedWriter) (sent : List Packet) (q : Packet) (es : List SendEvent)
    → Tracks w sent
    → Tracks (send w q es).writer sent
unfolding send
send-Tracks w sent q es t = ground arith

write_sealed-Tracks :
    (w : BackedWriter) (sent : List Packet) (p : Packet) (es : List SendEvent)
    (sealed : Result Bytes × CryptoHandler)
    → Tracks w sent
    → Tracks (write_sealed w p es sealed).writer (sent ++ sealed_as p sealed)
unfolding write_sealed
write_sealed-Tracks w sent p es (throw e, c) t =
    rw append-nil (record { backup = t.backup; size = t.size; count = t.count })
write_sealed-Tracks w sent p es (ok payload, c) t = send-Tracks _ _ _ es (
    store-Tracks (record w { crypto = c }) sent (record p { encrypted = true; payload = payload })
      (record { backup = t.backup; size = t.size; count = t.count }))

-- Whatever happens on the socket, and where `Encrypt` throws, a call of `Write` leaves a writer
-- that tracks the numbered packets holding the newest numbered packets that fit in the limit, the one numbered by this call included.
pub write-Tracks :
    (box : SecretBox) (w : BackedWriter) (sent : List Packet) (p : Packet) (es : List SendEvent)
    → Tracks w sent
    → Tracks (write box w p es).writer (sent ++ numbered box w p)
unfolding write numbered
write-Tracks box w sent p es t = elim (Bool-cases (w.socket == invalid_socket)) [
  | inl closed ↦ rw (closed, append-nil) t
  | inr open_socket ↦
      rw open_socket (write_sealed-Tracks w sent p es (encrypt box w.crypto p.payload) t)
]

pub new_writer-Tracks : (c : CryptoHandler) (socket : ℕ) → Tracks (new_writer c socket) []
unfolding new_writer fits total
new_writer-Tracks c socket = record { backup = refl; size = refl; count = refl }
