-- ===== src/Reader/Assembly.antt =====
-- Packets out of a byte stream: `Read` against the frames that a peer has written, whatever pieces the
-- socket gives.
use undying_terminal.Prelude.{
  ℕ, ◌+◌, ◌-◌, ◌≤◌, ◌<◌, ◌≡◌, refl, ap, sym, ◌∙◌, ◌⊎◌, inl, inr, Bool-cases, true, [], ◌++◌,
  append_assoc, ltb, ◌==◌, ltb→lt, length, take, drop, length-append, append_cut, take-append_le,
  take-append_length, take-length, drop-append_length, arith, Bytes,
}
use undying_terminal.Result.{ok}
use undying_terminal.Wire.{be32}
use undying_terminal.Wire.RoundTrip.{of_be32-be32, length-be32}
use undying_terminal.Packet.{frame_bytes}
use undying_terminal.Packet.RoundTrip.{length-frame_bytes}
use undying_terminal.Crypto.{SecretBox}
use undying_terminal.Reader.{
  BackedReader, Answer, received, closed, failed, incomplete, lost, Out, max_message_bytes,
  message_length, open_packet, constructed, construct, finish, after_body, read_body, after_header,
  read_socket,
}

-- What a connected TCP socket documents: a successful read takes at most `count` bytes, off the front
-- of the bytes that the peer has sent and nobody has taken (`pending`), and any other takes none.
pub record IsStream {Net : Type 0} (recv : ℕ → ℕ → Net → Answer × Net) (pending : Net → Bytes)
    : Type 0 where
  pub recv-pending :
      (socket count : ℕ) (n : Net) (bytes : Bytes) (n' : Net)
      → recv socket count n ≡ (received bytes, n')
      → (pending n ≡ bytes ++ pending n') × (length bytes ≤ count)
  pub recv-closed :
      (socket count : ℕ) (n n' : Net) → recv socket count n ≡ (closed, n') → pending n' ≡ pending n
  pub recv-failed :
      (socket count : ℕ) (n n' : Net) → recv socket count n ≡ (failed, n') → pending n' ≡ pending n

-- A serialized packet that `GetPartialMessageLength` lets pass.
abbrev pub IsSendable : Bytes → Type 0
IsSendable s = (1 ≤ length s) × (length s ≤ max_message_bytes)

framed : (s tail : Bytes) → frame_bytes s ++ tail ≡ be32 (length s) ++ (s ++ tail)
unfolding frame_bytes
framed s tail = append_assoc (be32 (length s)) s tail

-- The length that the reader decodes is the one that the frame begins with.
message_length-frame :
    (partial rest s tail : Bytes)
    → IsSendable s
    → 4 ≤ length partial
    → partial ++ rest ≡ frame_bytes s ++ tail
    → message_length partial ≡ ok (length s)
unfolding message_length
message_length-frame partial rest s tail size long e =
    rw (header, of_be32-be32 (length s) (omega arith)) (ground arith)
  where
    header : take 4 partial ≡ be32 (length s)
    header =
        sym (take-append_le 4 partial rest long)
        ∙ ap (take 4) (e ∙ framed s tail)
        ∙ take-append_length 4 (be32 (length s)) (s ++ tail) (sym (length-be32 (length s)))

-- A complete message is the frame, and its body is the serialized packet.
drop-frame_bytes : (s : Bytes) → drop 4 (frame_bytes s) ≡ s
unfolding frame_bytes
drop-frame_bytes s = drop-append_length 4 (be32 (length s)) s (sym (length-be32 (length s)))

construct-frame :
    (box : SecretBox) (r : BackedReader) (s : Bytes)
    → IsSendable s
    → r.partial_message ≡ frame_bytes s
    → construct box r ≡ constructed r (open_packet box r.crypto s)
unfolding construct
construct-frame box r s size e =
    let long : length r.partial_message ≡ 4 + length s = ap length e ∙ length-frame_bytes s in
    let test : (length r.partial_message - 4 == length s) ≡ true = ground arith in
    rw
      (
        message_length-frame r.partial_message [] s [] size (omega arith) (ap (λ b. b ++ []) e),
        test,
      )
      (ap (λ (b : Bytes). constructed r (open_packet box r.crypto b))
        (ap (λ (b : Bytes). take (length s) (drop 4 b)) e
          ∙ ap (take (length s)) (drop-frame_bytes s)
          ∙ take-length s))

module _ {Net : Type 0} (recv : ℕ → ℕ → Net → Answer × Net) (box : SecretBox)
    (pending : Net → Bytes) where
  -- After a call on a stream that begins (partial message first) with the frame of `s`: either the
  -- frame is not complete, nothing is returned and no byte is gone; or exactly the frame is taken off
  -- the stream, and its packet is returned (or what opening it throws).
  abbrev pub Assembles : BackedReader → Bytes → Bytes → Out × Net → Type 0
  Assembles r s tail o =
      (((o.0.0 ≡ ok incomplete) ⊎ (o.0.0 ≡ ok lost))
        × ((p : Bytes) × (o.0.1 ≡ record r { partial_message = p })
            × (length p < 4 + length s)
            × (p ++ pending o.1 ≡ frame_bytes s ++ tail)))
      ⊎ ((o.0
            ≡ constructed (record r { partial_message = frame_bytes s })
                (open_packet box r.crypto s))
          × (pending o.1 ≡ tail))

  finish-Assembles :
      (r : BackedReader) (n : Net) (p s tail : Bytes)
      → IsSendable s
      → 4 ≤ length p
      → length p ≤ 4 + length s
      → p ++ pending n ≡ frame_bytes s ++ tail
      → Assembles r s tail (finish recv box (record r { partial_message = p }) (length s) n)
  unfolding finish
  finish-Assembles r n p s tail size long short e = elim (Bool-cases (length p - 4 == length s)) [
    | inl whole ↦
        let exact : length p ≡ 4 + length s = ground arith in
        let (same, rest) =
          append_cut p (pending n) (frame_bytes s) tail e (exact ∙ sym (length-frame_bytes s)) in
        let whole' : (length (frame_bytes s) - 4 == length s) ≡ true =
          ground (arith, length-frame_bytes s) in
        inr (
          rw (same, whole')
              (construct-frame box (record r { partial_message = frame_bytes s }) s size refl),
          rw whole rest,
        )
    | inr part ↦ inl (inl (rw part), (p, rw part, ground arith, rw part e))
  ]

  after_body-Assembles :
      (r : BackedReader) (n : Net) (p s tail : Bytes) (a : Answer × Net)
      → IsStream recv pending
      → recv r.socket (length s - (length p - 4)) n ≡ a
      → IsSendable s
      → 4 ≤ length p
      → length p < 4 + length s
      → p ++ pending n ≡ frame_bytes s ++ tail
      → Assembles r s tail (after_body recv box (record r { partial_message = p }) (length s) a)
  after_body-Assembles r n p s tail (received bytes, n') ok_net e size long short h =
      let (came, few) = ok_net.recv-pending r.socket (length s - (length p - 4)) n bytes n' e in
      finish-Assembles r n' (p ++ bytes) s tail size (omega (arith, length-append p bytes))
        (omega (arith, length-append p bytes))
        (append_assoc p bytes (pending n') ∙ sym (ap (◌++◌ p) came) ∙ h)
  after_body-Assembles r n p s tail (closed, n') ok_net e size long short h =
      inl (inr refl, (p, refl, short, ap (◌++◌ p) (ok_net.recv-closed _ _ n n' e) ∙ h))
  after_body-Assembles r n p s tail (failed, n') ok_net e size long short h =
      inl (inr refl, (p, refl, short, ap (◌++◌ p) (ok_net.recv-failed _ _ n n' e) ∙ h))

  read_body-Assembles :
      (r : BackedReader) (n : Net) (p s tail : Bytes)
      → IsStream recv pending
      → IsSendable s
      → length p < 4 + length s
      → p ++ pending n ≡ frame_bytes s ++ tail
      → Assembles r s tail (read_body recv box (record r { partial_message = p }) n)
  unfolding read_body
  read_body-Assembles r n p s tail ok_net size short h = elim (Bool-cases (ltb (length p) 4)) [
    | inl few ↦ inl (inl (rw few), (p, rw few, short, rw few h))
    | inr enough ↦
        let long : 4 ≤ length p = ground arith in
        let missing : ltb (length p - 4) (length s) ≡ true = ground arith in
        rw (enough, message_length-frame p (pending n) s tail size long h, missing)
          (after_body-Assembles r n p s tail _ ok_net refl size long short h)
  ]

  after_header-Assembles :
      (r : BackedReader) (n : Net) (p s tail : Bytes) (a : Answer × Net)
      → IsStream recv pending
      → recv r.socket (4 - length p) n ≡ a
      → IsSendable s
      → length p < 4
      → p ++ pending n ≡ frame_bytes s ++ tail
      → Assembles r s tail (after_header recv box (record r { partial_message = p }) a)
  after_header-Assembles r n p s tail (received bytes, n') ok_net e size short h =
      let (came, few) = ok_net.recv-pending r.socket (4 - length p) n bytes n' e in
      read_body-Assembles r n' (p ++ bytes) s tail ok_net size
        (omega (arith, length-append p bytes))
        (append_assoc p bytes (pending n') ∙ sym (ap (◌++◌ p) came) ∙ h)
  after_header-Assembles r n p s tail (closed, n') ok_net e size short h =
      inl (inr refl, (p, refl, omega arith, ap (◌++◌ p) (ok_net.recv-closed _ _ n n' e) ∙ h))
  after_header-Assembles r n p s tail (failed, n') ok_net e size short h =
      inl (inr refl, (p, refl, omega arith, ap (◌++◌ p) (ok_net.recv-failed _ _ n n' e) ∙ h))

  -- One call of `Read` on a stream socket, with the partial message and the bytes still to come starting
  -- with the frame of a sendable `s`, and the message not complete yet: it reads on inside that frame and
  -- returns no packet, or it opens exactly `s` and leaves what follows.
  pub read_socket-Assembles :
      (r : BackedReader) (n : Net) (s tail : Bytes)
      → IsStream recv pending
      → IsSendable s
      → length r.partial_message < 4 + length s
      → r.partial_message ++ pending n ≡ frame_bytes s ++ tail
      → Assembles r s tail (read_socket recv box r n)
  unfolding read_socket
  read_socket-Assembles r n s tail ok_net size short h =
      elim (Bool-cases (ltb (length r.partial_message) 4)) [
        | inl few ↦ rw few (
            after_header-Assembles r n r.partial_message s tail _ ok_net refl size (ltb→lt _ _ few)
              h)
        | inr enough ↦
            rw enough (read_body-Assembles r n r.partial_message s tail ok_net size short h)
      ]
