-- ===== src/Writer/Recovery.antt =====
-- What `Recover` gives a peer, in terms of the packets numbered so far.
use native.Mathlib.Decide.{dec_lt}
use mathlib.Core.List.{map-append, reverse, reverse-cons, reverse-reverse}
use undying_terminal.Prelude.{
  ℕ, zero, suc, ◌+◌, ◌-◌, ◌≤◌, ◌<◌, ◌≡◌, refl, ap, sym, ◌∙◌, false, inl, inr, Bool-cases, List, [],
  ◌∷◌, ◌++◌, map, append_assoc, if◌then◌else◌, ◌==◌, leb, ltb, length, take, drop, length-reverse,
  take-reverse, drop-length, arith, leb→le, lt→ltb, ◌≢◌, Bytes,
}
use undying_terminal.Prelude.Int.{ℤ, pos, negsuc, ◌-ℤ◌}
use undying_terminal.Result.{Result, ok, throw, active_socket, peer_ahead, too_far_behind}
use undying_terminal.Packet.{Packet, packet_length, serialize}
use undying_terminal.Writer.{
  BackedWriter, invalid_socket, max_backup_bytes, collect, recover_from, recover,
}
use undying_terminal.Writer.Backup.{total, fits}
use undying_terminal.Writer.History.{Tracks}

-- The loop takes the newest packets, as many as are wanted, and puts them in order.
collect_lem :
    (k seen wanted : ℕ) (out : List Bytes) (ps : List Packet)
    → wanted ≡ seen + suc k
    → collect wanted seen out ps ≡ (
        if leb (suc k) (length ps)
        then ok (reverse (out ++ map serialize (take (suc k) ps)))
        else throw too_far_behind)
unfolding collect
collect_lem k seen wanted out [] h = ground arith
collect_lem zero seen wanted out (p ∷ ps) h = ground arith
collect_lem (suc k) seen wanted out (p ∷ ps) h =
    let more : (seen + 1 == wanted) ≡ false = ground arith in
    rw
      (
        more,
        collect_lem k (seen + 1) wanted (out ++ serialize p ∷ []) ps (omega arith),
        append_assoc,
      )
      (ground arith)

total-append : (ps qs : List Packet) → total (ps ++ qs) ≡ total ps + total qs
unfolding total
total-append [] qs = omega arith
total-append (p ∷ ps) qs = omega (arith, total-append ps qs)

total-reverse : (ps : List Packet) → total (reverse ps) ≡ total ps
unfolding total
total-reverse [] = refl
total-reverse (p ∷ ps) =
    omega
      (arith, ap total (reverse-cons p ps), total-append (reverse ps) (p ∷ []), total-reverse ps)

map-reverse : (ps : List Packet) → map serialize (reverse ps) ≡ reverse (map serialize ps)
map-reverse [] = refl
map-reverse (p ∷ ps) =
    ap (map serialize) (reverse-cons p ps)
    ∙ map-append serialize (reverse ps) (p ∷ [])
    ∙ ap (λ ss. ss ++ serialize p ∷ []) (map-reverse ps)
    ∙ sym (reverse-cons (serialize p) (map serialize ps))

-- The budget holds the first `n` packets exactly if the run that fits is at least so long.
le-length-fits :
    (budget n : ℕ) (ps : List Packet)
    → n ≤ length ps
    → leb n (length (fits budget ps)) ≡ leb (total (take n ps)) budget
unfolding fits total
le-length-fits budget zero ps h = ground arith
le-length-fits budget (suc n) [] h = absurd (omega arith)
le-length-fits budget (suc n) (p ∷ ps) h =
    ground (arith, le-length-fits (budget - packet_length p) n ps (omega arith))

take-fits :
    (budget n : ℕ) (ps : List Packet)
    → n ≤ length (fits budget ps)
    → take n (fits budget ps) ≡ take n ps
unfolding fits
take-fits budget zero ps h = refl
take-fits budget (suc n) [] h = refl
take-fits budget (suc n) (p ∷ ps) h = ground (arith, take-fits (budget - packet_length p) n ps)

-- The packets after the first `k`, serialized.
abbrev pub missed : List Packet → ℕ → List Bytes
missed sent k = map serialize (drop k sent)

-- What `Recover` promises, for the packets `sent` so far and a peer that has had the first `k`.
abbrev pub promised : List Packet → ℤ → Result (List Bytes)
promised sent (negsuc j) = throw too_far_behind
promised sent (pos k) =
    if ltb (length sent) k
    then throw peer_ahead
    else if leb (total (drop k sent)) max_backup_bytes
    then ok (missed sent k)
    else throw too_far_behind

-- The loop of `Recover` on a backup that tracks `sent`, for a peer that misses at least one packet.
collect-missed :
    (j k : ℕ) (sent : List Packet)
    → suc j + k ≡ length sent
    → collect (suc j) 0 [] (fits max_backup_bytes (reverse sent)) ≡ (
        if leb (total (drop k sent)) max_backup_bytes
        then ok (missed sent k)
        else throw too_far_behind)
collect-missed j k sent e =
    rw (collect_lem j 0 (suc j) [] (fits max_backup_bytes (reverse sent)) (omega arith))
      (elim (Bool-cases (leb (suc j) (length kept))) [
        | inl held ↦
            rw (held, sym same ∙ held)
              (ap ok (
                ap reverse (
                  ap (map serialize)
                    (take-fits max_backup_bytes (suc j) (reverse sent) (leb→le _ _ held) ∙ newest)
                  ∙ map-reverse (drop k sent))
                ∙ reverse-reverse (missed sent k)))
        | inr lost ↦ rw (lost, sym same ∙ lost)
      ])
  where
    kept : List Packet
    kept = fits max_backup_bytes (reverse sent)

    newest : take (suc j) (reverse sent) ≡ reverse (drop k sent)
    newest = take-reverse (suc j) k sent e

    same : leb (suc j) (length kept) ≡ leb (total (drop k sent)) max_backup_bytes
    same =
        le-length-fits max_backup_bytes (suc j) (reverse sent) (omega (arith, length-reverse sent))
        ∙ ap (λ (n : ℕ). leb n max_backup_bytes) (ap total newest ∙ total-reverse (drop k sent))

length-fits-le : (budget : ℕ) (ps : List Packet) → length (fits budget ps) ≤ length ps
unfolding fits
length-fits-le budget [] = omega arith
length-fits-le budget (p ∷ ps) = ground (arith, length-fits-le (budget - packet_length p) ps)

-- No backup has more packets than were ever numbered.
collect_negative :
    (j : ℕ) (sent : List Packet)
    → collect (length sent + suc j) 0 [] (fits max_backup_bytes (reverse sent))
      ≡ throw too_far_behind
collect_negative j sent =
    collect_lem (length sent + j) 0 (length sent + suc j) [] _ (omega arith)
    ∙ rw (
        few (length sent + j)
          (omega (arith, length-fits-le max_backup_bytes (reverse sent), length-reverse sent)))
  where
    few :
        (n : ℕ)
        → length (fits max_backup_bytes (reverse sent)) ≤ n
        → leb (suc n) (length (fits max_backup_bytes (reverse sent))) ≡ false
    few n h = ground arith

sub-le : (n k : ℕ) → k ≤ n → pos n -ℤ pos k ≡ pos (n - k)
unfolding ◌-ℤ◌
sub-le n k h = ground arith

sub-lt : (n k : ℕ) → n < k → pos n -ℤ pos k ≡ negsuc (k - n - 1)
unfolding ◌-ℤ◌
sub-lt n k h = ground arith

sub-negsuc : (n j : ℕ) → pos n -ℤ negsuc j ≡ pos (n + suc j)
unfolding ◌-ℤ◌
sub-negsuc n j = ground arith

recover_from-some :
    (n : ℕ) (buffer : List Packet) → n ≢ 0 → recover_from (pos n) buffer ≡ collect n 0 [] buffer
unfolding recover_from
recover_from-some n buffer h = ground arith

recover_from-none : (n : ℕ) (buffer : List Packet) → n ≡ 0 → recover_from (pos n) buffer ≡ ok []
unfolding recover_from
recover_from-none n buffer h = ground arith

recover_from-negsuc :
    (j : ℕ) (buffer : List Packet) → recover_from (negsuc j) buffer ≡ throw peer_ahead
unfolding recover_from
recover_from-negsuc j buffer = ground arith

promised-all :
    (sent : List Packet) (k : ℕ)
    → drop k sent ≡ []
    → k ≤ length sent
    → promised sent (pos k) ≡ ok []
unfolding total
promised-all sent k e h = rw e (ground arith)

recover_from-promised :
    (sent : List Packet) (last_valid : ℤ)
    → recover_from (pos (length sent) -ℤ last_valid) (fits max_backup_bytes (reverse sent))
      ≡ promised sent last_valid
recover_from-promised sent (negsuc j) =
    rw (sub-negsuc (length sent) j, recover_from-some (length sent + suc j) _ (omega arith))
      (collect_negative j sent)
recover_from-promised sent (pos k) = elim (dec_lt (length sent) k) [
  | yes ahead ↦ rw (sub-lt (length sent) k ahead, recover_from-negsuc, lt→ltb (length sent) k ahead)
  | no not_ahead ↦ elim (dec_lt k (length sent)) [
    | yes behind ↦
        let one_more : suc (length sent - k - 1) ≡ length sent - k = omega arith in
        let listed : ltb (length sent) k ≡ false = ground arith in
        rw
          (
            sub-le (length sent) k (omega arith),
            recover_from-some (length sent - k) _ (omega arith),
            listed,
            ← one_more,
          )
          (collect-missed (length sent - k - 1) k sent (omega arith))
    | no same ↦
        let all : length sent ≡ k = omega arith in
        rw
          (
            sub-le (length sent) k (omega arith),
            recover_from-none (length sent - k) _ (omega arith),
          )
          (sym (promised-all sent k (rw all at (drop-length sent)) (omega arith)))
  ]
]

-- A disconnected writer that tracks the packets numbered so far gives a peer exactly the packets that it has not had, serialized and in order,
-- if these take no more than the limit of the backup; it throws if they take more, if the peer claims
-- more packets than were numbered, or a negative count. With a live socket it always throws.
pub recover-promised :
    (w : BackedWriter) (sent : List Packet) (last_valid : ℤ)
    → Tracks w sent
    → recover w last_valid
      ≡ (if w.socket == invalid_socket then promised sent last_valid else throw active_socket)
unfolding recover
recover-promised w sent last_valid t =
    rw (t.backup, t.count, recover_from-promised sent last_valid)
      (elim (Bool-cases (w.socket == invalid_socket)) [ inl c ↦ rw c | inr o ↦ rw o ])
