-- ===== src/Session/Showing.antt =====
-- What the pseudo-console puts out reaches the console of the client.
use undying_terminal.Prelude.{
  ℕ, ◌≡◌, refl, sym, ap, ◌∙◌, Bool, true, false, Option, none, some, List, [], ◌∷◌, ◌++◌, ◌==◌, inl,
  inr, Bool-cases, append_assoc, Bytes,
}
use undying_terminal.Packet.{Packet}
use undying_terminal.Client.Echo.{PredictiveEcho, on_local_input, on_remote_output, run}
use undying_terminal.PortForward.{Tcp}
use undying_terminal.PortForward.Messages.{Codec}
use undying_terminal.Session.{
  terminal_buffer, TerminalCodec, IsTerminalCodec, coded, bytes_of, text,
}
use undying_terminal.Session.Client.{
  ClientSession, ClientEvent, reads_input, gets, resizes, beats, polls, client_run,
}
use undying_terminal.Session.Server.{Round}
use undying_terminal.Session.Screen.{output_thread}
use undying_terminal.Session.Texts.{text-append, text-coded}
use undying_terminal.Session.Console.{
  output_events, echo_events, run-append, run-one-sends, console_echoes,
}
use undying_terminal.Packet.{Packet}
use undying_terminal.Registry.{ClientRegistry}
use undying_terminal.Session.Begin.{StartCodec, session}
use undying_terminal.Session.Whole.{session-IsTrue}
use undying_terminal.Session.Carrying.{IsCarried}

-- The packets that the output thread reads.
abbrev pub gets_of : List ClientEvent → List Packet
gets_of [] = []
gets_of (gets p ∷ vs) = p ∷ gets_of vs
gets_of (reads_input chunk ∷ vs) = gets_of vs
gets_of (resizes id w h ∷ vs) = gets_of vs
gets_of (beats ∷ vs) = gets_of vs
gets_of (polls ∷ vs) = gets_of vs

-- What the pseudo-console puts out up to its end.
abbrev pub put_out : List Bytes → Bytes
put_out [] = []
put_out ([] ∷ chunks) = []
put_out ((b ∷ bs) ∷ chunks) = (b ∷ bs) ++ put_out chunks

module _ (c : TerminalCodec) where
  plain_local :
      (chunk : Bytes) (e : PredictiveEcho) → e.enabled ≡ false → on_local_input chunk e ≡ (e, [])
  unfolding on_local_input
  plain_local chunk e off = rw off refl

  plain_remote :
      (output : Bytes) (e : PredictiveEcho)
      → e.enabled ≡ false
      → on_remote_output output e ≡ (e, output)
  unfolding on_remote_output
  plain_remote output e off = rw off refl

  plain_output :
      (o : Option Bytes) (e : PredictiveEcho)
      → e.enabled ≡ false
      → run (output_events o) e ≡ (e, bytes_of o)
  unfolding run
  plain_output none e off = refl
  plain_output (some output) e off = run-one-sends output e ∙ plain_remote output e off

  -- Without a predictive echo the console is given the texts of the packets.
  plain_run :
      (reads : Bool) (vs : List ClientEvent) (e : PredictiveEcho)
      → e.enabled ≡ false
      → run (echo_events c true reads vs) e ≡ (e, text c (gets_of vs))
  unfolding run text
  plain_run reads [] e off = refl
  plain_run false (reads_input [] ∷ vs) e off = plain_run false vs e off
  plain_run true (reads_input [] ∷ vs) e off = plain_run false vs e off
  plain_run false (reads_input (n ∷ ns) ∷ vs) e off = plain_run false vs e off
  plain_run true (reads_input (n ∷ ns) ∷ vs) e off =
      rw (plain_local (n ∷ ns) e off) (plain_run true vs e off)
  plain_run reads (gets p ∷ vs) e off = elim (Bool-cases (p.header == terminal_buffer)) [
    | inl y ↦ rw y (
        run-append (output_events (c.get_buffer p.payload)) (echo_events c true reads vs) e
        ∙ rw (plain_output (c.get_buffer p.payload) e off, plain_run reads vs e off) refl)
    | inr m ↦ rw m (plain_run reads vs e off)
  ]
  plain_run reads (resizes id w h ∷ vs) e off = plain_run reads vs e off
  plain_run reads (beats ∷ vs) e off = plain_run reads vs e off
  plain_run reads (polls ∷ vs) e off = plain_run reads vs e off

  output_text :
      IsTerminalCodec c → (chunks : List Bytes) → text c (output_thread c chunks) ≡ put_out chunks
  unfolding output_thread text
  output_text law [] = refl
  output_text law ([] ∷ chunks) = refl
  output_text law ((b ∷ bs) ∷ chunks) =
      text-append c (coded terminal_buffer (c.put_buffer (b ∷ bs))) (output_thread c chunks)
      ∙ rw (text-coded c law (b ∷ bs), output_text law chunks) refl

module _ {Net : Type 0} (tcp : Tcp Net) (tunnels : Codec) (c : TerminalCodec) where
  -- A client that shows a terminal and has no predictive echo, a server, whatever packet its session begins
  -- with, and a terminal program: where the client has read all that the server sent but `ahead`, and the
  -- server has drawn all that the terminal program put into the pipe but `in_pipe`, the console has been
  -- given the bytes that the pseudo-console put out up to its end, in order, but those in the packets still
  -- ahead.
  pub output_arrives :
      IsTerminalCodec c
      → (chunks : List Bytes) (codec : StartCodec) (id : Bytes) (first : Option Packet)
        (registry : ClientRegistry ℕ) (n : Net) (rs : List Round)
      → (vs : List ClientEvent) (s : ClientSession Net) (ahead in_pipe : List Packet)
      → s.shows ≡ true
      → s.predictor.enabled ≡ false
      → output_thread c chunks
        ≡ (session tcp tunnels codec id first registry n rs).relayed.drawn ++ in_pipe
      → (session tcp tunnels codec id first registry n rs).relayed.to_client ≡ gets_of vs ++ ahead
      → (client_run tcp tunnels c vs s).1.console ++ (text c ahead ++ text c in_pipe)
        ≡ put_out chunks
  unfolding IsCarried
  output_arrives law chunks codec id first registry n rs vs s ahead in_pipe on off pipes_all
        sends_all =
      let done = (session tcp tunnels codec id first registry n rs).relayed in
      let shown : (client_run tcp tunnels c vs s).1.console ≡ text c (gets_of vs) =
        ap (λ x. x.1) (sym (console_echoes tcp tunnels c vs s))
        ∙ ap (λ x. (run (echo_events c x s.reads vs) s.predictor).1) on
        ∙ ap (λ x. x.1) (plain_run c s.reads vs s.predictor off) in
      let client : text c (gets_of vs) ++ text c ahead ≡ text c done.drawn =
        sym (text-append c (gets_of vs) ahead)
        ∙ ap (text c) (sym sends_all)
        ∙ (session-IsTrue tcp tunnels c codec id first registry n rs).carried in
      rw (shown, ← append_assoc (text c (gets_of vs)) (text c ahead) (text c in_pipe), client)
        (sym (text-append c done.drawn in_pipe)
          ∙ ap (text c) (sym pipes_all)
          ∙ output_text c law chunks)
