-- ===== src/Session/Console.antt =====
-- What the console of the client is given.
use undying_terminal.Prelude.{
  ℕ, ◌≡◌, ◌≢◌, refl, sym, ap, ◌∙◌, Bool, true, false, not, ◌&&◌, ◌||◌, Option, none, some, List, [],
  ◌∷◌, ◌++◌, ◌==◌, if◌then◌else◌, append_assoc, append-nil, Bytes, arith,
}
use undying_terminal.Packet.{Packet}
use undying_terminal.Client.Echo.{
  PredictiveEcho, on_local_input, on_remote_output, EchoEvent, types, sends, run,
}
use undying_terminal.PortForward.{Tcp}
use undying_terminal.PortForward.Messages.{
  Codec, destination_request, destination_response, forward_data,
}
use undying_terminal.Session.{keep_alive, terminal_buffer, TerminalCodec}
use undying_terminal.Session.Client.{
  ClientSession, ClientEvent, reads_input, gets, resizes, beats, polls, Output, nothing,
  client_step, client_run, read_input, get_packet, show_buffer, poll_handlers,
}

pub run-append :
    (xs ys : List EchoEvent) (e : PredictiveEcho)
    → run (xs ++ ys) e ≡ (let (e', a) = run xs e in let (e'', b) = run ys e' in (e'', a ++ b))
unfolding run
run-append [] ys e = refl
run-append (types input ∷ xs) ys e =
    rw (run-append xs ys (on_local_input input e).0, append_assoc (on_local_input input e).1 _ _)
      refl
run-append (sends output ∷ xs) ys e =
    rw
      (
        run-append xs ys (on_remote_output output e).0,
        append_assoc (on_remote_output output e).1 _ _,
      )
      refl

pub run-one-sends :
    (output : Bytes) (e : PredictiveEcho) → run (sends output ∷ []) e ≡ on_remote_output output e
unfolding run
run-one-sends output e = rw (append-nil (on_remote_output output e).1) refl

run-one-types :
    (input : Bytes) (e : PredictiveEcho) → run (types input ∷ []) e ≡ on_local_input input e
unfolding run
run-one-types input e = rw (append-nil (on_local_input input e).1) refl

-- What an echo is told of an event, where the input thread still reads or has ended.
abbrev pub output_events : Option Bytes → List EchoEvent
output_events none = []
output_events (some output) = sends output ∷ []

abbrev pub events_of : TerminalCodec → Bool → Bool → ClientEvent → List EchoEvent
events_of c shows false (reads_input chunk) = []
events_of c shows true (reads_input []) = []
events_of c shows true (reads_input (b ∷ bs)) = types (b ∷ bs) ∷ []
events_of c shows reads (gets p) =
    if (p.header == terminal_buffer) && shows then output_events (c.get_buffer p.payload) else []
events_of c shows reads (resizes id w h) = []
events_of c shows reads beats = []
events_of c shows reads polls = []

abbrev pub still_reads : Bool → ClientEvent → Bool
still_reads reads (reads_input []) = false
still_reads reads (reads_input (b ∷ bs)) = reads
still_reads reads (gets p) = reads
still_reads reads (resizes id w h) = reads
still_reads reads beats = reads
still_reads reads polls = reads

abbrev pub echo_events : TerminalCodec → Bool → Bool → List ClientEvent → List EchoEvent
echo_events c shows reads [] = []
echo_events c shows reads (v ∷ vs) =
    events_of c shows reads v ++ echo_events c shows (still_reads reads v) vs

both_true : (a b : Bool) → (a && b) ≡ true → (a ≡ true) × (b ≡ true)
both_true true b e = (refl, e)
both_true false b e = cc

not_both : (a b : Bool) → a ≡ true → (a && b) ≡ false → not b ≢ false
not_both true true y e f = cc
not_both true false y e f = cc
not_both false b y e f = cc

not_off : (b : Bool) → b ≡ true → not b ≢ true
not_off true e f = cc
not_off false e f = cc

module _ {Net : Type 0} (tcp : Tcp Net) (tunnels : Codec) (c : TerminalCodec) where
  -- A round gives the console what its echo gives for these events.
  record Renders (xs : List EchoEvent) (b : Bool) (s : ClientSession Net)
      (r : ClientSession Net × Output) : Type 0 where
    rendered : run xs s.predictor ≡ (r.0.predictor, r.1.console)
    same_shows : r.0.shows ≡ s.shows
    reads_on : r.0.reads ≡ b

  if-Renders :
      (t : Bool) (xs : List EchoEvent) (b : Bool) (s : ClientSession Net)
      (u v : ClientSession Net × Output)
      → (t ≡ true → Renders xs b s u)
      → (t ≡ false → Renders xs b s v)
      → Renders xs b s (if t then u else v)
  if-Renders true xs b s u v q r = q refl
  if-Renders false xs b s u v q r = r refl

  if-events :
      (t : Bool) (xs : List EchoEvent) (b : Bool) (s : ClientSession Net)
      (r : ClientSession Net × Output)
      → (t ≡ true → Renders xs b s r)
      → (t ≡ false → Renders [] b s r)
      → Renders (if t then xs else []) b s r
  if-events true xs b s r q q' = q refl
  if-events false xs b s r q q' = q' refl

  idle-Renders : (s : ClientSession Net) → Renders [] s.reads s (s, nothing)
  unfolding run
  idle-Renders s = record { rendered = refl; same_shows = refl; reads_on = refl }

  closed-Renders :
      (chunk : Bytes) (s : ClientSession Net) (b : Bool)
      → s.reads ≡ false
      → b ≡ false
      → Renders [] b s (read_input tcp tunnels c chunk s)
  unfolding read_input run
  closed-Renders chunk s b e f =
      rw (e, f) (record { rendered = refl; same_shows = refl; reads_on = refl })

  ended-Renders :
      (s : ClientSession Net) → s.reads ≡ true → Renders [] false s (read_input tcp tunnels c [] s)
  unfolding read_input run
  ended-Renders s e = rw e (record { rendered = refl; same_shows = refl; reads_on = refl })

  open-Renders :
      (n : ℕ) (ns : Bytes) (s : ClientSession Net)
      → s.reads ≡ true
      → Renders (types (n ∷ ns) ∷ []) true s (read_input tcp tunnels c (n ∷ ns) s)
  unfolding read_input
  open-Renders n ns s e =
      rw e (record {
        rendered = run-one-types (n ∷ ns) s.predictor;
        same_shows = refl;
        reads_on = refl;
      })

  show_buffer-Renders :
      (o : Option Bytes) (s : ClientSession Net)
      → Renders (output_events o) s.reads s (show_buffer tcp tunnels c o s)
  unfolding run
  show_buffer-Renders none s = record { rendered = refl; same_shows = refl; reads_on = refl }
  show_buffer-Renders (some output) s = record {
    rendered = run-one-sends output s.predictor;
    same_shows = refl;
    reads_on = refl;
  }

  -- Where what is read is no buffer, or not shown.
  other-Renders :
      (p : Packet) (s : ClientSession Net)
      → ((p.header == terminal_buffer) && s.shows) ≡ false
      → Renders [] s.reads s (get_packet tcp tunnels c p s)
  unfolding get_packet run
  other-Renders p s off =
      if-Renders (p.header == keep_alive) _ _ s _ _ (λ e. idle-Renders s)
        (λ e.
          if-Renders (p.header == terminal_buffer) _ _ s _ _
            (λ y.
              if-Renders (not s.shows) _ _ s _ _ (λ f. idle-Renders s)
                (λ f. absurd (not_both (p.header == terminal_buffer) s.shows y off f)))
            (λ m.
              if-Renders (p.header == destination_request) _ _ s _ _
                (λ f. record { rendered = refl; same_shows = refl; reads_on = refl })
                (λ f.
                  if-Renders ((p.header == destination_response) || (p.header == forward_data)) _ _
                    s _ _ (λ g. record { rendered = refl; same_shows = refl; reads_on = refl })
                    (λ g. idle-Renders s))))

  buffer-Renders :
      (p : Packet) (s : ClientSession Net)
      → (p.header == terminal_buffer) ≡ true
      → s.shows ≡ true
      → Renders (output_events (c.get_buffer p.payload)) s.reads s (get_packet tcp tunnels c p s)
  unfolding get_packet
  buffer-Renders p s y on =
      let other : (p.header == keep_alive) ≡ false = ground arith in
      rw (other, y)
        (if-Renders (not s.shows) _ _ s _ _ (λ f. absurd (not_off s.shows on f))
          (λ f. show_buffer-Renders (c.get_buffer p.payload) s))

  get_packet-Renders :
      (p : Packet) (s : ClientSession Net)
      → Renders (events_of c s.shows s.reads (gets p)) s.reads s (get_packet tcp tunnels c p s)
  get_packet-Renders p s =
      if-events ((p.header == terminal_buffer) && s.shows) _ s.reads s _
        (λ e. let (y, on) = both_true _ _ e in buffer-Renders p s y on) (other-Renders p s)

  step-Renders :
      (b : Bool) (v : ClientEvent) (s : ClientSession Net)
      → s.reads ≡ b
      → Renders (events_of c s.shows b v) (still_reads b v) s (client_step tcp tunnels c v s)
  unfolding run poll_handlers
  step-Renders false (reads_input []) s e = closed-Renders [] s false e refl
  step-Renders false (reads_input (n ∷ ns)) s e = closed-Renders (n ∷ ns) s false e refl
  step-Renders true (reads_input []) s e = ended-Renders s e
  step-Renders true (reads_input (n ∷ ns)) s e = open-Renders n ns s e
  step-Renders b (gets p) s e =
      let q = get_packet-Renders p s in
      record { rendered = q.rendered; same_shows = q.same_shows; reads_on = q.reads_on ∙ e }
  step-Renders b (resizes id w h) s e = record { rendered = refl; same_shows = refl; reads_on = e }
  step-Renders b beats s e = record { rendered = refl; same_shows = refl; reads_on = e }
  step-Renders b polls s e = record { rendered = refl; same_shows = refl; reads_on = e }

  -- The console of a client is given what its predictive echo gives, told of the bytes that the input thread
  -- reads up to its end and of the buffers that the output thread is to show, in the order of the rounds of all
  -- threads: tunnels, sizes and keep-alives change nothing of it.
  pub console_echoes :
      (vs : List ClientEvent) (s : ClientSession Net)
      → run (echo_events c s.shows s.reads vs) s.predictor
        ≡ ((client_run tcp tunnels c vs s).0.predictor, (client_run tcp tunnels c vs s).1.console)
  unfolding client_run run
  console_echoes [] s = refl
  console_echoes (v ∷ vs) s =
      let r = client_step tcp tunnels c v s in
      let q = step-Renders s.reads v s refl in
      let rest =
        ap (λ x. run (echo_events c x (still_reads s.reads v) vs) r.0.predictor) (sym q.same_shows)
        ∙ ap (λ x. run (echo_events c r.0.shows x vs) r.0.predictor) (sym q.reads_on)
        ∙ console_echoes vs r.0 in
      run-append (events_of c s.shows s.reads v) (echo_events c s.shows (still_reads s.reads v) vs)
        s.predictor
      ∙ rw (q.rendered, rest) refl
