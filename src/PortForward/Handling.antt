-- ===== src/PortForward/Handling.antt =====
-- `HandlePacket` keeps a handler valid.
use undying_terminal.Prelude.{
  ℕ, ◌≡◌, refl, sym, ap, ◌∙◌, ◌&&◌, Option, none, some, ◌==◌, ==_iff, inl, inr, Bool-cases, Bytes,
}
use undying_terminal.Prelude.Int.{ℤ, pos}
use undying_terminal.Packet.{Packet}
use undying_terminal.Writer.{invalid_socket, is_empty}
use undying_terminal.Table.{int_key, find}
use undying_terminal.PortForward.{
  Tcp, PortForwardHandler, connected, answered, delivered, handle_request, handle_response,
  handle_data, handle_packet,
}
use undying_terminal.PortForward.Messages.{
  Endpoint, DestinationRequest, DestinationResponse, Data, Codec, destination_request,
  destination_response, forward_data,
}
use undying_terminal.PortForward.Valid.{
  IsValid, put-IsLive, erase-IsLive, put-IsFresh, erase-none, some≢none,
}

module _ {Net : Type 0} (tcp : Tcp Net) (codec : Codec) where
  -- A server dials for a client.
  connected-IsValid :
      (h : PortForwardHandler) (fd : ℤ) (c : ℕ × Net)
      → IsValid h
      → IsValid (connected tcp codec h fd c).0
  connected-IsValid h fd (socket, n) v = elim (Bool-cases (socket == invalid_socket)) [
    | inl y ↦ rw y v
    | inr m ↦ rw m (record {
      pending = v.pending;
      active =
          put-IsLive (pos h.next_socket_id) socket _ (λ e. cc (m, (==_iff socket _).1 e)) v.active;
      pending_fresh = v.pending_fresh;
      active_fresh = λ server. put-IsFresh h.next_socket_id socket _ (v.active_fresh server);
      no_pending = v.no_pending;
    })
  ]

  handle_request-IsValid :
      (h : PortForwardHandler) (n : Net) (r : Option DestinationRequest)
      → IsValid h
      → IsValid (handle_request tcp codec h n r).0
  unfolding handle_request
  handle_request-IsValid h n none v = v
  handle_request-IsValid h n (some r) v = go r.destination r.fd
    where
      go :
          (d : Option Endpoint) (fd : Option ℤ)
          → IsValid (handle_request tcp codec h n (some (record { destination = d; fd = fd }))).0
      go none _ = v
      go (some d) none = v
      go (some d) (some fd) = connected-IsValid h fd _ v

  -- The waiting client of an answer becomes active, or is closed.
  answered-IsValid :
      (h : PortForwardHandler) (n : Net) (id fd : ℤ) (error : Bytes) (o : Option ℕ)
      → find fd h.pending_clients ≡ o
      → IsValid h
      → IsValid (answered tcp codec h n id fd error o).0
  answered-IsValid h n id fd error none e v = v
  answered-IsValid h n id fd error (some socket) e v = elim (Bool-cases (is_empty error)) [
    | inl y ↦ rw y (record {
      pending = erase-IsLive fd _ v.pending;
      active = put-IsLive id socket _ (λ bad. v.pending.live fd (e ∙ ap some bad)) v.active;
      pending_fresh = λ k le. erase-none (pos k) fd _ (v.pending_fresh k le);
      active_fresh = λ server. absurd (some≢none socket (sym e ∙ v.no_pending server fd));
      no_pending = λ server k. erase-none k fd _ (v.no_pending server k);
    })
    | inr m ↦ rw m (record {
      pending = erase-IsLive fd _ v.pending;
      active = v.active;
      pending_fresh = λ k le. erase-none (pos k) fd _ (v.pending_fresh k le);
      active_fresh = v.active_fresh;
      no_pending = λ server k. erase-none k fd _ (v.no_pending server k);
    })
  ]

  handle_response-IsValid :
      (h : PortForwardHandler) (n : Net) (r : Option DestinationResponse)
      → IsValid h
      → IsValid (handle_response tcp codec h n r).0
  unfolding handle_response
  handle_response-IsValid h n none v = v
  handle_response-IsValid h n (some r) v = go r.socket_id r.client_fd
    where
      go :
          (id fd : Option ℤ)
          → IsValid
              (handle_response tcp codec h n
                (some (record { client_fd = fd; socket_id = id; error = r.error }))).0
      go none _ = v
      go (some id) none = v
      go (some id) (some fd) = answered-IsValid h n id fd r.error (find fd h.pending_clients) refl v

  delivered-IsValid :
      (h : PortForwardHandler) (n : Net) (id : ℤ) (d : Data) (o : Option ℕ)
      → IsValid h
      → IsValid (delivered tcp codec h n id d o).0
  delivered-IsValid h n id d none v = v
  delivered-IsValid h n id d (some socket) v = elim (Bool-cases d.closed) [
    | inl y ↦ rw y (record {
      pending = v.pending;
      active = erase-IsLive id _ v.active;
      pending_fresh = v.pending_fresh;
      active_fresh = λ server k le. erase-none (pos k) id _ (v.active_fresh server k le);
      no_pending = v.no_pending;
    })
    | inr m ↦ elim (Bool-cases (is_empty d.buffer)) [ inl y ↦ rw (m, y) v | inr p ↦ rw (m, p) v ]
  ]

  handle_data-IsValid :
      (h : PortForwardHandler) (n : Net) (d : Option Data)
      → IsValid h
      → IsValid (handle_data tcp codec h n d).0
  unfolding handle_data
  handle_data-IsValid h n none v = v
  handle_data-IsValid h n (some d) v = go d.socket_id
    where
      go :
          (id : Option ℤ)
          → IsValid (handle_data tcp codec h n (some (record d { socket_id = id }))).0
      go none = v
      go (some id) = delivered-IsValid h n id (record d { socket_id = some id }) _ v

  pub handle_packet-IsValid :
      (h : PortForwardHandler) (p : Packet) (n : Net)
      → IsValid h
      → IsValid (handle_packet tcp codec h p n).0
  unfolding handle_packet
  handle_packet-IsValid h p n v = elim (Bool-cases (p.header == destination_response)) [
    | inl y ↦ simp y (handle_response-IsValid h n _ v)
    | inr m ↦ elim (Bool-cases ((p.header == destination_request) && h.server_side)) [
      | inl y ↦ simp (m, y) (handle_request-IsValid h n _ v)
      | inr m' ↦ elim (Bool-cases (p.header == forward_data)) [
        | inl y ↦ simp (m, m', y) (handle_data-IsValid h n _ v)
        | inr m'' ↦ simp (m, m', m'') v
      ]
    ]
  ]
