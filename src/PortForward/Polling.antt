-- ===== src/PortForward/Polling.antt =====
-- `AddForwardRequest` and `Update` keep a handler valid.
use undying_terminal.Prelude.{
  ℕ, ◌≡◌, ◌∙◌, false, Option, none, some, List, [], ◌∷◌, ◌==◌, ==_iff, inl, inr, Bool-cases, arith,
}
use undying_terminal.Prelude.Int.{pos}
use undying_terminal.Writer.{invalid_socket}
use undying_terminal.Table.{int_key}
use undying_terminal.PortForward.{
  Tcp, Listener, PortForwardHandler, add_forward_request, add_listener, listening, poll_listener,
  poll_listeners, accepted, update, handle_client_data, handle_server_data,
}
use undying_terminal.PortForward.Messages.{Endpoint, SourceRequest, Codec}
use undying_terminal.PortForward.Valid.{IsValid, put-IsLive, put-IsFresh}

module _ {Net : Type 0} (tcp : Tcp Net) where
  listening-IsValid :
      (h : PortForwardHandler) (d : Endpoint) (c : ℕ × Net)
      → IsValid h
      → IsValid (listening tcp h d c).0
  listening-IsValid h d (socket, n) v = elim (Bool-cases (socket == invalid_socket)) [
    | inl y ↦ rw y v
    | inr m ↦ rw m (record {
      pending = v.pending;
      active = v.active;
      pending_fresh = v.pending_fresh;
      active_fresh = v.active_fresh;
      no_pending = v.no_pending;
    })
  ]

  add_listener-IsValid :
      (h : PortForwardHandler) (n : Net) (source destination : Option Endpoint)
      → IsValid h
      → IsValid (add_listener tcp h n source destination).0
  add_listener-IsValid h n (some source) (some d) v = listening-IsValid h d _ v
  add_listener-IsValid h n none _ v = v
  add_listener-IsValid h n (some source) none v = v

  pub add_forward_request-IsValid :
      (h : PortForwardHandler) (r : SourceRequest) (n : Net)
      → IsValid h
      → IsValid (add_forward_request tcp h r n).0
  unfolding add_forward_request
  add_forward_request-IsValid h r n v = elim (Bool-cases h.server_side) [
    | inl y ↦ simp y v
    | inr m ↦ simp m (add_listener-IsValid h n r.source r.destination v)
  ]

  module _ (codec : Codec) where
    -- A client accepts a connection on a listening socket.
    accepted-IsValid :
        (h : PortForwardHandler) (d : Endpoint) (c : ℕ × Net)
        → h.server_side ≡ false
        → IsValid h
        → IsValid (accepted tcp codec h d c).0
    accepted-IsValid h d (socket, n) client v = elim (Bool-cases (socket == invalid_socket)) [
      | inl y ↦ rw y v
      | inr m ↦ rw m (record {
        pending =
            put-IsLive (pos h.next_client_fd) socket _ (λ e. cc (m, (==_iff socket _).1 e))
              v.pending;
        active = v.active;
        pending_fresh = put-IsFresh h.next_client_fd socket _ v.pending_fresh;
        active_fresh = v.active_fresh;
        no_pending = λ server k. cc;
      })
    ]

    accepted-side :
        (h : PortForwardHandler) (d : Endpoint) (c : ℕ × Net)
        → (accepted tcp codec h d c).0.server_side ≡ h.server_side
    accepted-side h d (socket, n) = ground arith

    poll_listener-IsValid :
        (h : PortForwardHandler) (l : Listener) (n : Net)
        → h.server_side ≡ false
        → IsValid h
        → IsValid (poll_listener tcp codec h l n).0
          × ((poll_listener tcp codec h l n).0.server_side ≡ false)
    unfolding poll_listener
    poll_listener-IsValid h l n client v = elim (Bool-cases (tcp.has_data l.listen_socket n)) [
      | inl y ↦
          rw y
            (accepted-IsValid h l.destination _ client v, accepted-side h l.destination _ ∙ client)
      | inr m ↦ rw m (v, client)
    ]

    poll_listeners-IsValid :
        (ls : List Listener) (h : PortForwardHandler) (n : Net)
        → h.server_side ≡ false
        → IsValid h
        → IsValid (poll_listeners tcp codec ls h n).0
    unfolding poll_listeners
    poll_listeners-IsValid [] h n client v = v
    poll_listeners-IsValid (l ∷ ls) h n client v =
        let (kept, still) = poll_listener-IsValid h l n client v in
        poll_listeners-IsValid ls _ _ still kept

    pub update-IsValid :
        (h : PortForwardHandler) (n : Net) → IsValid h → IsValid (update tcp codec h n).0
    unfolding update handle_server_data handle_client_data
    update-IsValid h n v = elim (Bool-cases h.server_side) [
      | inl y ↦ simp y v
      | inr m ↦ simp m (poll_listeners-IsValid h.listeners h n m v)
    ]
