-- ===== src/Session/Rounds.antt =====
-- The rounds of a client, by the text that they send.
use undying_terminal.Prelude.{
  ℕ, ◌≡◌, refl, Bool, true, false, not, ◌||◌, Option, none, some, List, [], ◌∷◌, ◌++◌, ◌==◌,
  if◌then◌else◌, Bytes,
}
use undying_terminal.Packet.{Packet}
use undying_terminal.PortForward.{Tcp, PortForwardHandler}
use undying_terminal.PortForward.Messages.{
  Codec, destination_request, destination_response, forward_data, clear_packet,
}
use undying_terminal.Session.{
  keep_alive, terminal_buffer, terminal_info, TerminalCodec, IsTerminalCodec, coded, text,
}
use undying_terminal.Session.Client.{
  ClientSession, ClientEvent, reads_input, gets, resizes, beats, polls, Output, nothing, read_input,
  get_packet, show_buffer, poll_handlers, hand, poll,
}
use undying_terminal.Session.Texts.{text-sent, text-coded, quiet_pair}
use undying_terminal.Session.Quiet.{handle_packet-IsQuiet, update-IsQuiet}

-- What the input thread reads up to its end.
abbrev pub typed : Bool → List ClientEvent → Bytes
typed false vs = []
typed true [] = []
typed true (reads_input [] ∷ vs) = []
typed true (reads_input (b ∷ bs) ∷ vs) = (b ∷ bs) ++ typed true vs
typed true (gets p ∷ vs) = typed true vs
typed true (resizes id w h ∷ vs) = typed true vs
typed true (beats ∷ vs) = typed true vs
typed true (polls ∷ vs) = typed true vs

module _ {Net : Type 0} (tcp : Tcp Net) (tunnels : Codec) (c : TerminalCodec) where
  -- A round that sends nothing for the terminal, and leaves the input thread as it is.
  pub record IsSilent (s : ClientSession Net) (r : ClientSession Net × Output) : Type 0 where
    pub no_text : text c r.1.packets ≡ []
    pub same : r.0.reads ≡ s.reads

  if-IsSilent :
      (s : ClientSession Net) (b : Bool) (u v : ClientSession Net × Output)
      → IsSilent s u
      → IsSilent s v
      → IsSilent s (if b then u else v)
  if-IsSilent s true u v q r = q
  if-IsSilent s false u v q r = r

  text-hand :
      (o : Option PortForwardHandler) (p : Packet) (n : Net)
      → text c (hand tcp tunnels c o p n).1 ≡ []
  unfolding text
  text-hand none p n = refl
  text-hand (some h) p n = text-sent c _ (handle_packet-IsQuiet tcp tunnels h p n)

  text-poll : (o : Option PortForwardHandler) (n : Net) → text c (poll tcp tunnels c o n).1 ≡ []
  unfolding text
  text-poll none n = refl
  text-poll (some h) n = text-sent c _ (update-IsQuiet tcp tunnels h n)

  show_buffer-IsSilent :
      (o : Option Bytes) (s : ClientSession Net) → IsSilent s (show_buffer tcp tunnels c o s)
  unfolding text
  show_buffer-IsSilent none s = record { no_text = refl; same = refl }
  show_buffer-IsSilent (some output) s = record { no_text = refl; same = refl }

  pub get_packet-IsSilent :
      (p : Packet) (s : ClientSession Net) → IsSilent s (get_packet tcp tunnels c p s)
  unfolding get_packet text
  get_packet-IsSilent p s =
      let idle : IsSilent s (s, nothing) = record { no_text = refl; same = refl } in
      if-IsSilent s (p.header == keep_alive) _ _ idle (
        if-IsSilent s (p.header == terminal_buffer) _ _
          (if-IsSilent s (not s.shows) _ _ idle (show_buffer-IsSilent _ s))
          (if-IsSilent s (p.header == destination_request) _ _
            (record { no_text = text-hand s.reverse_handler p s.net; same = refl })
            (if-IsSilent s ((p.header == destination_response) || (p.header == forward_data)) _ _
              (record {
                no_text =
                    quiet_pair c (hand tcp tunnels c s.forward_handler p s.net).1 _
                      (text-hand s.forward_handler p s.net)
                      (text-hand s.reverse_handler p
                        (hand tcp tunnels c s.forward_handler p s.net).2);
                same = refl;
              })
              idle)))

  pub poll_handlers-IsSilent : (s : ClientSession Net) → IsSilent s (poll_handlers tcp tunnels c s)
  unfolding poll_handlers
  poll_handlers-IsSilent s = record {
    no_text =
        quiet_pair c (poll tcp tunnels c s.forward_handler s.net).1 _
          (text-poll s.forward_handler s.net)
          (text-poll s.reverse_handler (poll tcp tunnels c s.forward_handler s.net).2);
    same = refl;
  }

  pub silent_step :
      (vs : List ClientEvent) (s : ClientSession Net) (r : ClientSession Net × Output) (b : Bool)
      → s.reads ≡ b
      → IsSilent s r
      → text c r.1.packets ++ typed r.0.reads vs ≡ typed b vs
  silent_step vs s r b e q = rw (q.no_text, q.same, e) refl

  pub closed_input :
      (chunk : Bytes) (s : ClientSession Net)
      → s.reads ≡ false
      → IsSilent s (read_input tcp tunnels c chunk s)
  unfolding read_input text
  closed_input chunk s e = rw e (record { no_text = refl; same = refl })

  pub ended_input :
      (vs : List ClientEvent) (s : ClientSession Net)
      → s.reads ≡ true
      → (let r = read_input tcp tunnels c [] s in text c r.1.packets ++ typed r.0.reads vs) ≡ []
  unfolding read_input text
  ended_input vs s e = rw e refl

  pub open_input :
      IsTerminalCodec c
      → (b : ℕ) (bs : Bytes) (vs : List ClientEvent) (s : ClientSession Net) → s.reads ≡ true
      → (let r = read_input tcp tunnels c (b ∷ bs) s in text c r.1.packets ++ typed r.0.reads vs)
        ≡ (b ∷ bs) ++ typed true vs
  unfolding read_input
  open_input law b bs vs s e = rw (e, text-coded c law (b ∷ bs)) refl

  info_text : (o : Option Bytes) → text c (coded terminal_info o) ≡ []
  unfolding text
  info_text none = refl
  info_text (some b) = refl

  pub info-IsSilent :
      (o : Option Bytes) (s : ClientSession Net)
      → IsSilent s (s, record { packets = coded terminal_info o; console = [] })
  info-IsSilent o s = record { no_text = info_text o; same = refl }

  pub beat-IsSilent :
      (s : ClientSession Net)
      → IsSilent s (s, record { packets = clear_packet keep_alive [] ∷ []; console = [] })
  unfolding text
  beat-IsSilent s = record { no_text = refl; same = refl }
