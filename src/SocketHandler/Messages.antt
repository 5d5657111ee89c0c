-- ===== src/SocketHandler/Messages.antt =====
-- The message that `WriteProto` sends and `ReadProto` reads.
use undying_terminal.Prelude.{
  ◌+◌, ◌≤◌, ◌≡◌, refl, sym, ap, ◌∙◌, Bool, false, Option, none, some, List, [], ◌∷◌, ◌++◌, ltb,
  ◌==◌, if◌then◌else◌, length, length-append, take-append_length, drop-append_length, append_assoc,
  append-nil, Bytes, Bool-cases, inl, inr, arith,
}
use undying_terminal.Wire.{le_bytes, of_le}
use undying_terminal.Wire.RoundTrip.{of_le-le_bytes, length-le_bytes}
use undying_terminal.SocketHandler.{
  Turn, done, SendTurn, finished, Coding, write_proto, read_proto_body, read_proto, parsed, return,
  max_bytes, read_all,
}
use undying_terminal.SocketHandler.Reading.{
  arrived, AllOpen, Reached, read_all-Reached, AllOpen-rest,
}
use undying_terminal.SocketHandler.Sending.{
  AllTake, Finished, write_all-Finished, Received, Received-header, bind_done, at_hand,
}

module _ {M : Type 0} (coding : Coding M) where
  -- What protobuf documents: what a message is serialized to is parsed to it, and no bytes to the message
  -- with no field set.
  pub record IsCoding : Type 0 where
    pub round_trip : (m : M) (s : Bytes) → coding.to_string m ≡ some s → coding.of_string s ≡ some m
    pub of_nothing : coding.of_string [] ≡ some coding.empty

-- What `WriteProto` sends of a message of these bytes: an `int64_t` in the machine's byte order comes first.
abbrev pub message_bytes : Bytes → Bytes
message_bytes s = le_bytes 8 (length s) ++ s

module _ {M : Type 0} (coding : Coding M) (laws : IsCoding coding) (m : M) (s : Bytes)
    (coded : coding.to_string m ≡ some s) (fits : length s ≤ max_bytes) where
  some_bytes : (a : Bytes) → ltb 0 (length a) ≡ false → a ≡ []
  some_bytes [] h = refl
  some_bytes (b ∷ a) h = absurd (ground arith)

  write_proto-Finished :
      (timeout : Bool) (turns : List SendTurn)
      → 8 + length s ≤ length turns
      → AllTake turns
      → Finished (message_bytes s) turns (write_proto coding m timeout turns)
  unfolding write_proto
  write_proto-Finished timeout turns enough ok =
      let small : ltb max_bytes (length s) ≡ false = ground arith in
      let header =
        write_all-Finished (le_bytes 8 (length s)) timeout turns
          (omega (arith, length-le_bytes 8 (length s))) ok in
      elim (Bool-cases (ltb 0 (length s))) [
        | inl h ↦
            let body =
              write_all-Finished s timeout header.rest
                (omega (arith, header.few, length-le_bytes 8 (length s))) header.kept in
            record {
              rest = body.rest;
              kept = body.kept;
              few = omega (arith, header.few, body.few, length-append (le_bytes 8 (length s)) s);
              result = rw (coded, small, header.result, h, body.result);
            }
        | inr h ↦ record {
          rest = header.rest;
          kept = header.kept;
          few = omega (arith, header.few, length-append (le_bytes 8 (length s)) s);
          result = rw (coded, small, header.result, h, some_bytes s h, append-nil (le_bytes 8 0));
        }
      ]

  le_back : of_le (le_bytes 8 (length s)) ≡ length s
  le_back = of_le-le_bytes 8 (length s) (omega arith)

  header_reads :
      (timeout : Bool) (behind : Bytes) (turns : List Turn)
      → (r : Reached 8 []
          (message_bytes s ++ behind)
          turns
          (read_all 8 timeout (at_hand (message_bytes s ++ behind) turns)))
      → read_proto coding timeout (at_hand (message_bytes s ++ behind) turns)
        ≡ (if length s == 0 then return coding.empty else read_proto_body coding (length s) timeout)
            (at_hand (s ++ (behind ++ arrived r.used)) r.rest)
  unfolding read_proto
  header_reads timeout behind turns r =
      let small : ltb max_bytes (length s) ≡ false = ground arith in
      bind_done (read_all 8 timeout) _ (at_hand (message_bytes s ++ behind) turns) _ r.result
      ∙ rw (
        append_assoc (le_bytes 8 (length s)) s behind,
        take-append_length 8 (le_bytes 8 (length s)) (s ++ behind)
            (sym (length-le_bytes 8 (length s))),
        drop-append_length 8 (le_bytes 8 (length s)) (s ++ behind)
            (sym (length-le_bytes 8 (length s))),
        le_back,
        small,
        append_assoc s behind (arrived r.used),
      )

  body_reads :
      (timeout : Bool) (behind : Bytes) (turns : List Turn)
      (r : Reached
        (length s)
        []
        (s ++ behind)
        turns
        (read_all (length s) timeout (at_hand (s ++ behind) turns)))
      → read_proto_body coding (length s) timeout (at_hand (s ++ behind) turns)
        ≡ done m (at_hand (behind ++ arrived r.used) r.rest)
  body_reads timeout behind turns r =
      bind_done (read_all (length s) timeout) (λ b. parsed coding (coding.of_string b))
        (at_hand (s ++ behind) turns) _ r.result
      ∙ rw (
        take-append_length (length s) s behind refl,
        drop-append_length (length s) s behind refl,
        laws.round_trip m s coded,
        parsed,
      )

  abbrev or_empty : Option M → M
  or_empty none = coding.empty
  or_empty (some a) = a

  nothing : length s ≡ 0 → (s ≡ []) × (coding.empty ≡ m)
  nothing h =
      let e : s ≡ [] = some_bytes s (ground arith) in
      (
        e,
        ap or_empty (sym laws.of_nothing ∙ ap coding.of_string (sym e) ∙ laws.round_trip m s coded),
      )

  body-Received :
      (timeout : Bool) (behind : Bytes) (turns : List Turn)
      → length s ≤ length turns
      → AllOpen turns
      → Received m behind turns (
          (if length s == 0 then return coding.empty else read_proto_body coding (length s) timeout)
            (at_hand (s ++ behind) turns))
  body-Received timeout behind turns enough up = elim (Bool-cases (length s == 0)) [
    | inl h ↦
        let n = nothing (ground arith) in
        record { used = []; rest = turns; cut = refl; result = rw (h, n.0, n.1, append-nil behind) }
    | inr h ↦
        let body =
          read_all-Reached timeout (length s) (at_hand (s ++ behind) turns)
            (omega (arith, length-append s behind)) enough up in
        record {
          used = body.used;
          rest = body.rest;
          cut = body.cut;
          result = rw h (body_reads timeout behind turns body);
        }
  ]

  read_proto-Received :
      (timeout : Bool) (behind : Bytes) (turns : List Turn)
      → 8 + length s ≤ length turns
      → AllOpen turns
      → Received m behind turns
          (read_proto coding timeout (at_hand (message_bytes s ++ behind) turns))
  read_proto-Received timeout behind turns enough up =
      let header =
        read_all-Reached timeout 8 (at_hand (message_bytes s ++ behind) turns)
          (omega (
            arith,
            length-append (message_bytes s) behind,
            length-append (le_bytes 8 (length s)) s,
            length-le_bytes 8 (length s),
          ))
          (omega arith) up in
      Received-header m behind turns header.used header.rest header.cut
        (header_reads timeout behind turns header)
        (body-Received timeout (behind ++ arrived header.used) header.rest
          (omega (arith, header.few, ap length header.cut, length-append header.used header.rest))
          (AllOpen-rest header.used header.rest (rw header.cut at up)))

  -- What `WriteProto` sends of a message of at most 128 MiB is what `ReadProto` reads: over sockets that
  -- stay open, with a round for each byte, the call that sends finishes, and the call that reads, from
  -- where these bytes are pending, returns the message and leaves all bytes behind it; the message with
  -- no bytes included.
  pub message_travels :
      (timeout timeout' : Bool) (behind : Bytes) (sending_turns : List SendTurn) (turns : List Turn)
      → 8 + length s ≤ length sending_turns
      → AllTake sending_turns
      → 8 + length s ≤ length turns
      → AllOpen turns
      → (rest : List SendTurn) × (left used : List Turn) × ((write_proto coding m timeout
            sending_turns).1
          ≡ finished rest)
        × (turns ≡ used ++ left)
        × (read_proto coding timeout' (record {
          pending = (write_proto coding m timeout sending_turns).0 ++ behind;
          turns = turns;
        })
            ≡ done m (record { pending = behind ++ arrived used; turns = left }))
  message_travels timeout timeout' behind sending_turns turns enough ok rounds up =
      let out = write_proto-Finished timeout sending_turns enough ok in
      let got = read_proto-Received timeout' behind turns rounds up in
      (out.rest, got.rest, got.used, rw out.result, got.cut, rw out.result got.result)
