-- ===== src/Session/Carrying.antt =====
-- What the server draws from the pipe, it hands on.
use undying_terminal.Prelude.{
  ◌≡◌, refl, sym, ◌∙◌, Bool, true, false, ◌||◌, none, some, List, [], ◌∷◌, ◌==◌, inl, inr,
  Bool-cases, if◌then◌else◌, append-nil,
}
use undying_terminal.Packet.{Packet}
use undying_terminal.PortForward.{Tcp, update}
use undying_terminal.PortForward.Messages.{
  Codec, destination_request, destination_response, forward_data,
}
use undying_terminal.Session.{keep_alive, terminal_buffer, terminal_info, TerminalCodec, text, sent}
use undying_terminal.Session.Server.{
  FromClient, no_data, fails, throws, packet, FromPipe, quiet, breaks, piped, Round, ServerSession,
  Relayed, both, serve, forward_packet, reverse_packet, answer_packet, update_handlers, take_packet,
  pipe_part,
}
use undying_terminal.Session.Quiet.{handle_packet-IsQuiet, update-IsQuiet}
use undying_terminal.Session.Texts.{text-append, text-sent, quiet_pair}

module _ (c : TerminalCodec) where
  -- The server hands on what it draws from the pipe, and port forwarding and keep-alives add no text.
  unfoldable pub IsCarried : Relayed → Type 0
  IsCarried a = text c a.to_client ≡ text c a.drawn

  pub both-IsCarried : (a b : Relayed) → IsCarried a → IsCarried b → IsCarried (both a b)
  unfolding both IsCarried
  both-IsCarried a b f g =
      text-append c a.to_client b.to_client ∙ rw (f, g) (sym (text-append c a.drawn b.drawn))

module _ {Net : Type 0} (tcp : Tcp Net) (tunnels : Codec) (c : TerminalCodec) where
  forward_text :
      (p : Packet) (s : ServerSession Net) → text c (forward_packet tcp tunnels p s).1 ≡ []
  forward_text p s = text-sent c _ (handle_packet-IsQuiet tcp tunnels s.forward_handler p s.net)

  reverse_text :
      (p : Packet) (s : ServerSession Net) → text c (reverse_packet tcp tunnels p s).1 ≡ []
  reverse_text p s = text-sent c _ (handle_packet-IsQuiet tcp tunnels s.reverse_handler p s.net)

  if_text :
      (b : Bool) (u v : ServerSession Net × List Packet)
      → text c u.1 ≡ []
      → text c v.1 ≡ []
      → text c (if b then u else v).1 ≡ []
  if_text true u v p q = p
  if_text false u v p q = q

  answer_text : (p : Packet) (s : ServerSession Net) → text c (answer_packet tcp tunnels p s).1 ≡ []
  unfolding answer_packet text
  answer_text p s = if_text (p.header == keep_alive) _ _ refl (
      if_text (p.header == destination_request) _ _ (forward_text p s) (
        if_text (p.header == destination_response) _ _ (reverse_text p s) (
          if_text (p.header == forward_data) _ _
            (quiet_pair c (forward_packet tcp tunnels p s).1 _ (forward_text p s)
              (reverse_text p (forward_packet tcp tunnels p s).0))
            refl)))

  update_text : (s : ServerSession Net) → text c (update_handlers tcp tunnels s).1 ≡ []
  unfolding update_handlers
  update_text s =
      quiet_pair c (sent (update tcp tunnels s.forward_handler s.net).1) _
        (text-sent c _ (update-IsQuiet tcp tunnels s.forward_handler s.net))
        (text-sent c _ (
          update-IsQuiet tcp tunnels s.reverse_handler
            (update tcp tunnels s.forward_handler s.net).2))

  taken-IsCarried :
      (p : Packet) (s : ServerSession Net) → IsCarried c (take_packet tcp tunnels p s).1
  unfolding IsCarried take_packet text
  taken-IsCarried p s =
      elim (Bool-cases ((p.header == terminal_buffer) || (p.header == terminal_info))) [
        | inl y ↦ rw y refl
        | inr n ↦ rw n (answer_text p s)
      ]

  piped-IsCarried :
      (p : Packet) (ps : List Packet)
      → text c ps ≡ []
      → IsCarried c (record { to_pipe = []; to_client = p ∷ ps; taken = []; drawn = p ∷ [] })
  unfolding IsCarried text
  piped-IsCarried p ps h = text-append c (p ∷ []) ps ∙ rw h (append-nil (text c (p ∷ [])))

  updated-IsCarried :
      (ps : List Packet)
      → text c ps ≡ []
      → IsCarried c (record { to_pipe = []; to_client = ps; taken = []; drawn = [] })
  unfolding IsCarried text
  updated-IsCarried ps h = h

  pipe_part-IsCarried :
      (y : FromPipe) (rs : List Round) (s : ServerSession Net) (a : Relayed)
      → IsCarried c a
      → ((s' : ServerSession Net) → IsCarried c (serve tcp tunnels rs s'))
      → IsCarried c (elim (pipe_part tcp tunnels y s) [
        | none ↦ a
        | some (s', b) ↦ both a (both b (serve tcp tunnels rs s'))
      ])
  pipe_part-IsCarried quiet rs s a f rest =
      both-IsCarried c a _ f
        (both-IsCarried c _ (serve tcp tunnels rs _) (updated-IsCarried _ (update_text s)) (rest _))
  pipe_part-IsCarried breaks rs s a f rest = f
  pipe_part-IsCarried (piped p) rs s a f rest =
      both-IsCarried c a _ f
        (both-IsCarried c _ (serve tcp tunnels rs _) (piped-IsCarried p _ (update_text s)) (rest _))

  pub serve-IsCarried :
      (rs : List Round) (s : ServerSession Net) → IsCarried c (serve tcp tunnels rs s)
  unfolding serve IsCarried
  serve-IsCarried [] s = refl
  serve-IsCarried (r ∷ rs) s = turn (serve-IsCarried rs) r.connected r.from_client
    where
      turn :
          ((s' : ServerSession Net) → IsCarried c (serve tcp tunnels rs s'))
          → (connected : Bool) (x : FromClient)
          → IsCarried c (
              serve tcp tunnels
                (record { connected = connected; from_client = x; from_pipe = r.from_pipe } ∷ rs)
                s)
      turn rest false x = refl
      turn rest true no_data = pipe_part-IsCarried r.from_pipe rs s _ refl rest
      turn rest true fails = pipe_part-IsCarried r.from_pipe rs s _ refl rest
      turn rest true throws = refl
      turn rest true (packet p) =
          pipe_part-IsCarried r.from_pipe rs (take_packet tcp tunnels p s).0 _ (taken-IsCarried p s)
            rest
