-- ===== src/Session/Typing.antt =====
-- What is typed at the client reaches the terminal.
use undying_terminal.Prelude.{
  ℕ, arith, ◌≡◌, refl, sym, ap, ◌∙◌, Bool, true, false, ◌||◌, Option, none, some, List, [], ◌∷◌,
  ◌++◌, ◌==◌, inl, inr, Bool-cases, if◌then◌else◌, append_assoc, append-nil, Bytes,
}
use undying_terminal.Prelude.Int.{ℤ, pos, negsuc}
use undying_terminal.Packet.{Packet}
use undying_terminal.Text.{is_empty, codes}
use undying_terminal.Client.Quoting.{normalize_command}
use undying_terminal.PortForward.{Tcp}
use undying_terminal.PortForward.Messages.{clear_packet, Codec}
use undying_terminal.Session.{
  terminal_buffer, terminal_info, TerminalCodec, IsTerminalCodec, coded, bytes_of, text,
}
use undying_terminal.Session.Client.{
  opening, ClientSession, ClientEvent, reads_input, gets, resizes, beats, polls, client_step,
  client_run,
}
use undying_terminal.Session.Server.{Round}
use undying_terminal.Session.Screen.{
  screen, ScreenEffect, writes_input, resizes_to, handle_input, input_thread, write_buffer,
  resize_to,
}
use undying_terminal.Session.Fairness.{IsFair}
use undying_terminal.Registry.{ClientRegistry}
use undying_terminal.Session.Begin.{initial_payload, InitialPayload, StartCodec, session}
use undying_terminal.Session.Whole.{IsInit, session-IsInit, session-IsTrue}
use undying_terminal.Session.Rounds.{
  typed, silent_step, closed_input, ended_input, open_input, info-IsSilent, beat-IsSilent,
  get_packet-IsSilent, poll_handlers-IsSilent,
}
use undying_terminal.Session.Texts.{text-append, text-coded}

-- What `--command` stands for.
abbrev pub command_text : Bool → Bytes → Bool → Bytes
command_text returning command noexit =
    if returning || is_empty command
    then []
    else normalize_command command ++ (if noexit then [] else codes "exit" ++ 13 ∷ 10 ∷ [])

-- What the pseudo-console is given.
abbrev pub written : List ScreenEffect → Bytes
written [] = []
written (writes_input b ∷ es) = b ++ written es
written (resizes_to w h ∷ es) = written es

written-append : (es fs : List ScreenEffect) → written (es ++ fs) ≡ written es ++ written fs
written-append [] fs = refl
written-append (writes_input b ∷ es) fs =
    rw (written-append es fs, append_assoc b (written es) (written fs)) refl
written-append (resizes_to w h ∷ es) fs = written-append es fs

module _ (c : TerminalCodec) where
  written-write_buffer : (o : Option Bytes) → written (write_buffer o) ≡ bytes_of o
  written-write_buffer none = refl
  written-write_buffer (some b) = append-nil b

  written-resized : (b : Bool) (w h : ℤ) → written (if b then resizes_to w h ∷ [] else []) ≡ []
  written-resized true w h = refl
  written-resized false w h = refl

  written-resize : (b : Bool) (o : Option (ℤ × ℤ)) → written (if b then resize_to o else []) ≡ []
  written-resize false o = refl
  written-resize true none = refl
  written-resize true (some (pos w, pos h)) = written-resized _ _ _
  written-resize true (some (pos w, negsuc h)) = refl
  written-resize true (some (negsuc w, h)) = refl

  -- The terminal program writes what the packets hold.
  written-input_thread : (ps : List Packet) → written (input_thread c ps) ≡ text c ps
  unfolding input_thread handle_input text
  written-input_thread [] = refl
  written-input_thread (p ∷ ps) =
      written-append (handle_input c p) (input_thread c ps)
      ∙ (elim (Bool-cases (p.header == terminal_buffer)) [
        | inl y ↦
            rw (y, written-input_thread ps, written-write_buffer (c.get_buffer p.payload)) refl
        | inr m ↦
            rw
              (
                m,
                written-input_thread ps,
                written-resize (p.header == terminal_info) (c.get_info p.payload),
              )
              refl
      ])

module _ {Net : Type 0} (tcp : Tcp Net) (tunnels : Codec) (c : TerminalCodec) where
  -- What a round sends, and what is typed later.
  step_text :
      IsTerminalCodec c
      → (b : Bool) (v : ClientEvent) (vs : List ClientEvent) (s : ClientSession Net) → s.reads ≡ b
      → (let r = client_step tcp tunnels c v s in text c r.1.packets ++ typed r.0.reads vs)
        ≡ typed b (v ∷ vs)
  step_text law false (reads_input chunk) vs s e =
      silent_step tcp tunnels c vs s _ false e (closed_input tcp tunnels c chunk s e)
  step_text law true (reads_input []) vs s e = ended_input tcp tunnels c vs s e
  step_text law true (reads_input (b ∷ bs)) vs s e = open_input tcp tunnels c law b bs vs s e
  step_text law false (gets p) vs s e =
      silent_step tcp tunnels c vs s _ false e (get_packet-IsSilent tcp tunnels c p s)
  step_text law true (gets p) vs s e =
      silent_step tcp tunnels c vs s _ true e (get_packet-IsSilent tcp tunnels c p s)
  step_text law false (resizes id w h) vs s e =
      silent_step tcp tunnels c vs s _ false e (info-IsSilent tcp tunnels c _ s)
  step_text law true (resizes id w h) vs s e =
      silent_step tcp tunnels c vs s _ true e (info-IsSilent tcp tunnels c _ s)
  step_text law false beats vs s e =
      silent_step tcp tunnels c vs s _ false e (beat-IsSilent tcp tunnels c s)
  step_text law true beats vs s e =
      silent_step tcp tunnels c vs s _ true e (beat-IsSilent tcp tunnels c s)
  step_text law false polls vs s e =
      silent_step tcp tunnels c vs s _ false e (poll_handlers-IsSilent tcp tunnels c s)
  step_text law true polls vs s e =
      silent_step tcp tunnels c vs s _ true e (poll_handlers-IsSilent tcp tunnels c s)

  typed-none : (b : Bool) → typed b [] ≡ []
  typed-none true = refl
  typed-none false = refl

  -- The packets of a client hold what is typed.
  client_text :
      IsTerminalCodec c
      → (vs : List ClientEvent) (s : ClientSession Net)
      → text c (client_run tcp tunnels c vs s).1.packets ≡ typed s.reads vs
  unfolding client_run text
  client_text law [] s = sym (typed-none s.reads)
  client_text law (v ∷ vs) s =
      let r = client_step tcp tunnels c v s in
      text-append c r.1.packets (client_run tcp tunnels c vs r.0).1.packets
      ∙ ap (◌++◌ (text c r.1.packets)) (client_text law vs r.0)
      ∙ step_text law s.reads v vs s refl

  text-opening :
      IsTerminalCodec c
      → (returning : Bool) (command : Bytes) (noexit : Bool)
      → text c (opening c returning command noexit) ≡ command_text returning command noexit
  unfolding opening text
  text-opening law returning command noexit = elim (Bool-cases (returning || is_empty command)) [
    | inl y ↦ rw y refl
    | inr n ↦ rw n (
        text-append c (coded terminal_buffer (c.put_buffer (normalize_command command))) _
        ∙ rw (text-coded c law (normalize_command command))
            (ap (◌++◌ (normalize_command command)) (exit noexit)))
  ]
    where
      exit :
          (b : Bool)
          → text c (
              if b then [] else coded terminal_buffer (c.put_buffer (codes "exit" ++ 13 ∷ 10 ∷ [])))
            ≡ (if b then [] else codes "exit" ++ 13 ∷ 10 ∷ [])
      exit true = refl
      exit false = text-coded c law (codes "exit" ++ 13 ∷ 10 ∷ [])

  -- The text that a pseudo-console is given of packets that start as they should.
  written-screen : (ps qs : List Packet) → IsInit (ps ++ qs) → written (screen c ps) ≡ text c ps
  unfolding screen text
  written-screen [] qs h = refl
  written-screen (p ∷ ps) qs h =
      let other : (p.header == terminal_buffer) ≡ false = ground arith in
      rw (h, other) (written-input_thread c ps)

  -- A client whose threads take any turns, a server that the client's initial payload, of no jump host,
  -- reaches first, and a terminal program: where the server has taken all that the client sent behind that
  -- but `ahead`, and the terminal program has read all that the server put into the pipe but `in_pipe`, the
  -- pseudo-console has been given the text of `--command` and all bytes that the input thread read, in order,
  -- but those in the packets still ahead.
  pub typing_arrives :
      IsTerminalCodec c
      → (returning : Bool) (command : Bytes) (noexit : Bool) (vs : List ClientEvent)
        (s : ClientSession Net)
      → (codec : StartCodec) (id b : Bytes) (m : InitialPayload) (registry : ClientRegistry ℕ)
        (n : Net)
      → (rs : List Round) (ahead read in_pipe : List Packet) → codec.get_payload b ≡ some m
      → m.jumphost ≡ false
      → opening c returning command noexit ++ (client_run tcp tunnels c vs s).1.packets
        ≡ (session tcp tunnels codec id
            (some (clear_packet initial_payload b))
            registry
            n
            rs).relayed.taken
          ++ ahead
      → (session tcp tunnels codec id
          (some (clear_packet initial_payload b))
          registry
          n
          rs).relayed.to_pipe
        ≡ read ++ in_pipe
      → written (screen c read) ++ (text c in_pipe ++ text c ahead)
        ≡ command_text returning command noexit ++ typed s.reads vs
  unfolding IsFair
  typing_arrives law returning command noexit vs s codec id b m registry n rs ahead read in_pipe
        is_payload no_jump sends_all reads_all =
      let first = some (clear_packet initial_payload b) in
      let done = (session tcp tunnels codec id first registry n rs).relayed in
      let init : IsInit (read ++ in_pipe) =
        rw (← reads_all)
          (session-IsInit tcp tunnels codec id b m registry n rs is_payload no_jump) in
      let pipe : text c read ++ text c in_pipe ≡ text c done.taken =
        sym (text-append c read in_pipe)
        ∙ ap (text c) (sym reads_all)
        ∙ (session-IsTrue tcp tunnels c codec id first registry n rs).fair in
      rw
        (
          written-screen read in_pipe init,
          ← append_assoc (text c read) (text c in_pipe) (text c ahead),
          pipe,
        )
        (sym (text-append c done.taken ahead)
          ∙ ap (text c) (sym sends_all)
          ∙ text-append c (opening c returning command noexit) _
          ∙ rw (text-opening law returning command noexit, client_text law vs s) refl)
