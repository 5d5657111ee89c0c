-- ===== src/Session/Whole.antt =====
-- What a session takes for the terminal, it hands on, and what it draws from the pipe.
use undying_terminal.Prelude.{
  ℕ, ◌≡◌, refl, Bool, true, false, Option, none, some, List, [], ◌∷◌, ◌==◌, if◌then◌else◌, Bytes,
}
use undying_terminal.Packet.{Packet}
use undying_terminal.Writer.{invalid_socket}
use undying_terminal.Registry.{ClientRegistry, lookup_terminal}
use undying_terminal.PortForward.{Tcp}
use undying_terminal.PortForward.Messages.{Codec, clear_packet}
use undying_terminal.Session.{terminal_init, TerminalCodec, terminal_buffer, text}
use undying_terminal.Session.Server.{Round, both}
use undying_terminal.Session.Fairness.{IsFair, both-IsFair, serve-IsFair}
use undying_terminal.Session.Carrying.{IsCarried, both-IsCarried, serve-IsCarried}
use undying_terminal.Session.Begin.{
  initial_payload, jumphost_init, InitialPayload, StartCodec, Ended, gives_up, init_packet, answer,
  runs, with_payload, session,
}

module _ {Net : Type 0} (tcp : Tcp Net) (tunnels : Codec) (c : TerminalCodec) (codec : StartCodec)
    (id : Bytes) where
  pub record IsTrue (a : Ended) : Type 0 where
    pub fair : IsFair tcp tunnels c a.relayed
    pub carried : IsCarried c a.relayed

  gives_up-IsTrue : (ps : List Packet) → text c ps ≡ [] → IsTrue (gives_up id ps)
  unfolding IsFair IsCarried text
  gives_up-IsTrue ps h = record { fair = refl; carried = h }

  text-answer : text c (answer tcp tunnels codec id ∷ []) ≡ []
  unfolding text
  text-answer = refl

  if-IsTrue : (b : Bool) (u v : Ended) → IsTrue u → IsTrue v → IsTrue (if b then u else v)
  if-IsTrue true u v p q = p
  if-IsTrue false u v p q = q

  -- The packets that start a session.
  starts :
      (init : Packet)
      → (init.header == terminal_buffer) ≡ false
      → (a : Ended) → IsTrue a
      → IsTrue (record {
        relayed =
            both
              (record {
                to_pipe = init ∷ [];
                to_client = answer tcp tunnels codec id ∷ [];
                taken = [];
                drawn = [];
              })
              a.relayed;
        closes_pipe = a.closes_pipe;
        leaves = a.leaves;
      })
  unfolding IsFair IsCarried text
  starts init h a q = record {
    fair = both-IsFair tcp tunnels c _ a.relayed (rw h refl) q.fair;
    carried = both-IsCarried c _ a.relayed refl q.carried;
  }

  runs_coded :
      (m : InitialPayload) (n : Net) (rs : List Round) (header : ℕ) (o : Option Bytes)
      → (header == terminal_buffer) ≡ false
      → IsTrue (
          runs tcp tunnels codec id m
            (elim o [ none ↦ none | some b ↦ some (clear_packet header b) ])
            n
            rs)
  runs_coded m n rs header none h = gives_up-IsTrue _ text-answer
  runs_coded m n rs header (some b) h = starts (clear_packet header b) h _ (record {
    fair = serve-IsFair tcp tunnels c rs _;
    carried = serve-IsCarried tcp tunnels c rs _;
  })

  choose_runs :
      (m : InitialPayload) (n : Net) (rs : List Round) (b : Bool) (o o' : Option Packet)
      → IsTrue (runs tcp tunnels codec id m o n rs)
      → IsTrue (runs tcp tunnels codec id m o' n rs)
      → IsTrue (runs tcp tunnels codec id m (if b then o else o') n rs)
  choose_runs m n rs true o o' p q = p
  choose_runs m n rs false o o' p q = q

  runs-IsTrue :
      (m : InitialPayload) (n : Net) (rs : List Round)
      → IsTrue (runs tcp tunnels codec id m (init_packet codec m) n rs)
  runs-IsTrue m n rs =
      choose_runs m n rs m.jumphost _ _ (runs_coded m n rs jumphost_init (codec.put_payload m) refl)
        (runs_coded m n rs terminal_init codec.put_init refl)

  pub session-IsTrue :
      (first : Option Packet) (registry : ClientRegistry ℕ) (n : Net) (rs : List Round)
      → IsTrue (session tcp tunnels codec id first registry n rs)
  unfolding session text
  session-IsTrue none registry n rs = gives_up-IsTrue [] refl
  session-IsTrue (some p) registry n rs =
      if-IsTrue (p.header == initial_payload) _ _ (go (codec.get_payload p.payload))
        (gives_up-IsTrue [] refl)
    where
      go : (o : Option InitialPayload) → IsTrue (with_payload tcp tunnels codec id registry o n rs)
      go none = gives_up-IsTrue [] refl
      go (some m) =
          if-IsTrue (lookup_terminal id registry == invalid_socket) _ _
            (gives_up-IsTrue _ text-answer) (runs-IsTrue m n rs)

-- The first packet of a pipe is what the terminal program waits for.
abbrev pub IsInit : List Packet → Type 0
IsInit [] = Unit {0}
IsInit (p ∷ ps) = (p.header == terminal_init) ≡ true

module _ {Net : Type 0} (tcp : Tcp Net) (tunnels : Codec) (codec : StartCodec) (id : Bytes) where
  coded-IsInit :
      (m : InitialPayload) (n : Net) (rs : List Round) (o : Option Bytes)
      → IsInit
          (runs tcp tunnels codec id m
            (elim o [ none ↦ none | some b ↦ some (clear_packet terminal_init b) ])
            n
            rs).relayed.to_pipe
  unfolding both
  coded-IsInit m n rs none = tt
  coded-IsInit m n rs (some b) = refl

  if-IsInit :
      (b : Bool) (u v : Ended)
      → IsInit u.relayed.to_pipe
      → IsInit v.relayed.to_pipe
      → IsInit (if b then u else v).relayed.to_pipe
  if-IsInit true u v p q = p
  if-IsInit false u v p q = q

  pub session-IsInit :
      (b : Bytes) (m : InitialPayload) (registry : ClientRegistry ℕ) (n : Net) (rs : List Round)
      → codec.get_payload b ≡ some m
      → m.jumphost ≡ false
      → IsInit
          (session tcp tunnels codec id
            (some (clear_packet initial_payload b))
            registry
            n
            rs).relayed.to_pipe
  unfolding session
  session-IsInit b m registry n rs e no_jump = rw e (
      if-IsInit (lookup_terminal id registry == invalid_socket) _ _ tt
        (rw no_jump (coded-IsInit m n rs codec.put_init)))
