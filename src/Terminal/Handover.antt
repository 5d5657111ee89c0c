-- ===== src/Terminal/Handover.antt =====
-- The client and the terminal program agree on the id and passkey of a session.
use undying_terminal.Prelude.{
  ℕ, ◌≡◌, refl, sym, ap, ◌∙◌, Bool, true, false, some, List, [], ◌∷◌, ◌++◌, ◌==◌, if◌then◌else◌,
  length, append_assoc, append-nil, Bytes,
}
use undying_terminal.Text.Splitting.{Lacks, Lacks-append}
use undying_terminal.Client.Quoting.{letters, generate_random}
use undying_terminal.Client.Launch.{
  seed_line, seed_of, remote_command, without_return, read_line_from_ssh, credentials,
}
use undying_terminal.Terminal.{Registration, text_output, printed_by, registration_from}
use undying_terminal.Terminal.Remote.{IsPlain, Echoes, program_of, shell-remote_command}
use undying_terminal.Client.Arguments.{SshArguments}
use undying_terminal.Terminal.Reply.{
  read_line_from_lem, without_return-cr, without_return-Lacks, concat,
}
use undying_terminal.SshConfig.Breaking.{break_first-Lacks}
use undying_terminal.Terminal.Seeds.{
  AllBelow, generate_random-Lacks, length-generate_random, letters-IsPlain, letters-slash, fresh,
  registration-seed, seed_line-IsPlain, seed_line-IsDashless, seed_line-some,
  registration_from-line,
}

-- The line of the reply, as it is written.
abbrev ending : Bool → Bytes
ending text_mode = if text_mode then 13 ∷ [] else []

text_output-line :
    (text_mode : Bool) (s : Bytes)
    → Lacks 10 s
    → text_output text_mode (s ++ 10 ∷ []) ≡ (s ++ ending text_mode) ++ 10 ∷ []
unfolding text_output
text_output-line true [] h = refl
text_output-line false [] h = refl
text_output-line true (a ∷ s) h = rw (h.0, text_output-line true s h.1)
text_output-line false (a ∷ s) h = ap (◌∷◌ a) (text_output-line false s h.1)

without_return-ending :
    (text_mode : Bool) (s : Bytes) → Lacks 13 s → without_return (s ++ ending text_mode) ≡ s
without_return-ending true s h = without_return-cr s
without_return-ending false s h = rw append-nil (without_return-Lacks s h)

ending-Lacks : (text_mode : Bool) → Lacks 10 (ending text_mode)
ending-Lacks true = (refl, tt)
ending-Lacks false = tt

-- What the client makes of a reply of one line.
credentials-line :
    (seed_id seed_key id key rest : Bytes) (text_mode : Bool) (chunks : List Bytes)
    → Lacks b'/' id
    → Lacks 10 (id ++ b'/' ∷ key)
    → Lacks 13 (id ++ b'/' ∷ key)
    → concat chunks ≡ text_output text_mode ((id ++ b'/' ∷ key) ++ 10 ∷ []) ++ rest
    → credentials seed_id seed_key chunks ≡ some (id, key)
unfolding credentials read_line_from_ssh
credentials-line seed_id seed_key id key rest text_mode chunks slash feed return e =
    let reply = id ++ b'/' ∷ key in
    let whole : concat chunks ≡ (reply ++ ending text_mode) ++ 10 ∷ rest =
      e
      ∙ ap (λ x. x ++ rest) (text_output-line text_mode reply feed)
      ∙ append_assoc (reply ++ ending text_mode) (10 ∷ []) rest in
    let read =
      read_line_from_lem chunks [] (reply ++ ending text_mode) rest whole
        (Lacks-append 10 reply _ feed (ending-Lacks text_mode)) tt in
    rw (read, without_return-ending text_mode reply return, break_first-Lacks b'/' id key slash)

-- The client asks for an id by a seed, in a remote command without tmux; a shell that gives the text of an
-- `echo` between single quotes, and a line feed, to the program behind the pipe, as a POSIX shell does, starts the
-- terminal program; it makes an id and a passkey, registers them and prints them, and the client reads them from
-- ssh. For a terminal type without single quotes, backslashes, line feeds, carriage returns and null bytes,
-- whatever the random numbers, and however the output is cut into chunks, with or without a carriage return,
-- both have the same id and the same passkey of 32 bytes.
pub handover :
    (shell : Bytes → Bytes) (a : SshArguments)
    (seed_numbers seed_key_numbers id_numbers key_numbers : List ℕ) (term rest : Bytes)
    (text_mode : Bool) (chunks : List Bytes)
    → Echoes shell (program_of a)
    → a.tmux_enabled ≡ false
    → AllBelow 62 seed_numbers
    → AllBelow 62 seed_key_numbers
    → AllBelow 62 id_numbers
    → AllBelow 62 key_numbers
    → length key_numbers ≡ 32
    → IsPlain term
    → concat chunks
      ≡ text_output text_mode (
          printed_by (
            registration_from id_numbers key_numbers (
              shell (
                remote_command a (
                  seed_line
                    (seed_of (generate_random seed_numbers))
                    (generate_random seed_key_numbers)
                    term)))))
        ++ rest
    → (r : Registration) × (registration_from id_numbers key_numbers (
          shell (
            remote_command a (
              seed_line
                (seed_of (generate_random seed_numbers))
                (generate_random seed_key_numbers)
                term)))
        ≡ some r)
      × (credentials
            (seed_of (generate_random seed_numbers))
            (generate_random seed_key_numbers)
            chunks
          ≡ some (r.client_id, r.passkey))
      × (length r.passkey ≡ 32)
handover shell a seed_numbers seed_key_numbers id_numbers key_numbers term rest text_mode chunks
      echoes no_tmux s k i p enough plain_term e =
    let plain_line = seed_line-IsPlain seed_numbers seed_key_numbers term s k plain_term in
    let made =
      ap (registration_from id_numbers key_numbers)
        (shell-remote_command shell a _ echoes no_tmux plain_line (seed_line-IsDashless _ _ term))
      ∙ registration_from-line id_numbers key_numbers _ plain_line.feeds (seed_line-some _ _ term)
      ∙ registration-seed id_numbers key_numbers (generate_random seed_numbers)
          (generate_random seed_key_numbers) term
          (generate_random-Lacks b'/' seed_numbers letters-slash s) plain_line.feeds
          plain_line.returns in
    let reply = λ (c : ℕ) (l : Lacks c letters) (h : (b'/' == c) ≡ false).
      Lacks-append c (generate_random id_numbers) (b'/' ∷ generate_random key_numbers)
        (generate_random-Lacks c id_numbers l i) (h, generate_random-Lacks c key_numbers l p) in
    (
      fresh id_numbers key_numbers,
      made,
      credentials-line _ _ (generate_random id_numbers) (generate_random key_numbers) rest text_mode
          chunks (generate_random-Lacks b'/' id_numbers letters-slash i)
          (reply 10 letters-IsPlain.feeds refl) (reply 13 letters-IsPlain.returns refl)
          (e
            ∙ ap (λ o. text_output text_mode (printed_by o) ++ rest) made
            ∙ ap (λ o. text_output text_mode o ++ rest)
                (sym (
                  append_assoc (generate_random id_numbers) (b'/' ∷ generate_random key_numbers)
                    (10 ∷ [])))),
      length-generate_random key_numbers ∙ enough,
    )
