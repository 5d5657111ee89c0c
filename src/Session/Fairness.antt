-- ===== src/Session/Fairness.antt =====
-- What the server takes for the terminal, it hands on.
use undying_terminal.Prelude.{
  ◌≡◌, refl, sym, ◌∙◌, Bool, true, false, none, some, List, [], ◌∷◌, ◌==◌, inl, inr, Bool-cases,
}
use undying_terminal.Packet.{Packet}
use undying_terminal.PortForward.{Tcp}
use undying_terminal.PortForward.Messages.{Codec}
use undying_terminal.Session.{terminal_buffer, terminal_info, TerminalCodec, text}
use undying_terminal.Session.Server.{
  FromClient, no_data, fails, throws, packet, FromPipe, quiet, breaks, piped, Round, ServerSession,
  Relayed, both, take_packet, pipe_part, serve,
}
use undying_terminal.Session.Texts.{text-append}

module _ {Net : Type 0} (tcp : Tcp Net) (tunnels : Codec) (c : TerminalCodec) where
  -- What the server hands on of a packet.
  taken_text :
      (p : Packet) (s : ServerSession Net)
      → text c (take_packet tcp tunnels p s).1.to_pipe
        ≡ text c (take_packet tcp tunnels p s).1.taken
  unfolding take_packet text
  taken_text p s = elim (Bool-cases (p.header == terminal_buffer)) [
    | inl y ↦ rw y refl
    | inr n ↦ elim (Bool-cases (p.header == terminal_info)) [
      | inl y ↦ simp (n, y)
      | inr m ↦ simp (n, m)
    ]
  ]

  unfoldable pub IsFair : Relayed → Type 0
  IsFair a = text c a.to_pipe ≡ text c a.taken

  pub both-IsFair : (a b : Relayed) → IsFair a → IsFair b → IsFair (both a b)
  unfolding both IsFair
  both-IsFair a b f g =
      text-append c a.to_pipe b.to_pipe ∙ rw (f, g) (sym (text-append c a.taken b.taken))

  client_only-IsFair :
      (ps drawn : List Packet)
      → IsFair (record { to_pipe = []; to_client = ps; taken = []; drawn = drawn })
  unfolding IsFair text
  client_only-IsFair ps drawn = refl

  -- A round that has taken this, and what follows.
  pipe_part-IsFair :
      (y : FromPipe) (rs : List Round) (s : ServerSession Net) (a : Relayed)
      → IsFair a
      → ((s' : ServerSession Net) → IsFair (serve tcp tunnels rs s'))
      → IsFair (elim (pipe_part tcp tunnels y s) [
        | none ↦ a
        | some (s', b) ↦ both a (both b (serve tcp tunnels rs s'))
      ])
  pipe_part-IsFair quiet rs s a f rest =
      both-IsFair a _ f (both-IsFair _ (serve tcp tunnels rs _) (client_only-IsFair _ _) (rest _))
  pipe_part-IsFair breaks rs s a f rest = f
  pipe_part-IsFair (piped p) rs s a f rest =
      both-IsFair a _ f (both-IsFair _ (serve tcp tunnels rs _) (client_only-IsFair _ _) (rest _))

  -- What the server hands on is what it takes.
  pub serve-IsFair : (rs : List Round) (s : ServerSession Net) → IsFair (serve tcp tunnels rs s)
  unfolding serve IsFair
  serve-IsFair [] s = refl
  serve-IsFair (r ∷ rs) s = turn (serve-IsFair rs) r.connected r.from_client
    where
      turn :
          ((s' : ServerSession Net) → IsFair (serve tcp tunnels rs s'))
          → (connected : Bool) (x : FromClient)
          → IsFair (
              serve tcp tunnels
                (record { connected = connected; from_client = x; from_pipe = r.from_pipe } ∷ rs)
                s)
      turn rest false x = refl
      turn rest true no_data = pipe_part-IsFair r.from_pipe rs s _ refl rest
      turn rest true fails = pipe_part-IsFair r.from_pipe rs s _ refl rest
      turn rest true throws = refl
      turn rest true (packet p) =
          pipe_part-IsFair r.from_pipe rs (take_packet tcp tunnels p s).0 _ (taken_text p s) rest
