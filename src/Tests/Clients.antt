-- ===== src/Tests/Clients.antt =====
-- Runs of the client's and the terminal's parts.
use undying_terminal.Client.Quoting.{letter}
use undying_terminal.SshConfig.{break_first}
use undying_terminal.Terminal.{erase_from}
use undying_terminal.Terminal.{position}
use undying_terminal.Terminal.{parse_id_passkey}
use undying_terminal.Terminal.{text_output}
use undying_terminal.Text.{contains}
use undying_terminal.Text.{is_space}
use undying_terminal.SshCommand.{has_unsafe_char}
use undying_terminal.Prelude.{
  ℕ, ◌≡◌, refl, ap, ◌∙◌, Bool, true, false, Option, none, some, List, [], ◌∷◌, ◌++◌, length,
  replicate, Bytes, arith,
}
use undying_terminal.Text.{codes, value}
use undying_terminal.Client.Arguments.{SshArguments, default_arguments}
use undying_terminal.Client.Arguments.Parsing.{
  Choice, user, port, tmux, command, noexit, meaning_all,
}
use undying_terminal.SshCommand.{build}
use undying_terminal.Client.Launch.{
  seed_line, seed_of, remote_command, credentials, first_builder, jump_builder, start_ssh,
}
use undying_terminal.Client.Launch.Tmux.{tmux_never_starts}
use undying_terminal.Client.Quoting.{generate_random}
use undying_terminal.Client.Echo.{EchoEvent, types, sends, new_echo, run}
use undying_terminal.Client.Echo.Invariant.{IsBounded, run-IsBounded}
use undying_terminal.Client.Echo.Erasing.{
  Echoing, ends, typing, echoing, answering, expected, waiting, run-shows,
}
use undying_terminal.SshConfig.Breaking.{break_first-Lacks}
use undying_terminal.Terminal.{Registration, registration, input_line, registration_from}
use undying_terminal.Terminal.Remote.{IsPlain, Echoes, program_of}
use undying_terminal.Terminal.Handover.{handover}

abbrev choices : List Choice
choices = user (codes "root") ∷ port (codes "2222") ∷ command (codes "-p") ∷ tmux ∷ noexit ∷ []

abbrev always : List ℕ → Bool
always s = true

tmux_never_starts_example :
    (start_ssh always (
        build
          (first_builder (meaning_all choices (default_arguments (codes "host"))) (codes "XXX/k")))
      ≡ false)
    × (start_ssh always (
          build (
            jump_builder
              (meaning_all choices (default_arguments (codes "host")))
              (codes "i")
              (codes "k")))
        ≡ false)
unfolding value
tmux_never_starts_example =
    tmux_never_starts always (meaning_all choices (default_arguments (codes "host")))
      (codes "XXX/k") (codes "i") (codes "k") refl

-- Without tmux the command is there.
plain_starts :
    start_ssh always (build (first_builder (default_arguments (codes "host")) (codes "XXX/k")))
    ≡ true
unfolding start_ssh build first_builder has_unsafe_char is_space contains remote_command
plain_starts = refl

abbrev events : List EchoEvent
events =
    types (codes "ls")
    ∷ sends (codes "l")
    ∷ types (codes "x")
    ∷ sends (codes "sxout")
    ∷ sends (codes "!")
    ∷ []

echoed : Echoing [] events
echoed =
    typing [] (codes "ls") _ (refl, (refl, tt)) (omega arith)
      (echoing (codes "ls") (codes "l") (codes "s") _ refl (
        typing (codes "s") (codes "x") _ (refl, tt) (omega arith)
          (answering (codes "sx") (codes "sxout") (codes "out") _ refl
            (answering [] (codes "!") (codes "!") _ refl (ends [])))))

run-shows_example : (run events (waiting [])).1 ≡ expected echoed
run-shows_example = run-shows [] events echoed

shown : expected echoed ≡ codes "lsxout!"
unfolding echoed
shown = refl

run-IsBounded_example : IsBounded (run events (new_echo true)).0
run-IsBounded_example =
    run-IsBounded events (new_echo true) (record { few = omega arith; printable = tt })

abbrev eleven : List ℕ
eleven = replicate 32 11

abbrev as_line : Option (Bytes × Bytes) → Bytes
as_line none = []
as_line (some (before, _)) = before ++ 10 ∷ []

abbrev from_quote : Option (Bytes × Bytes) → Bytes
from_quote none = []
from_quote (some (_, later)) = as_line (break_first 39 later)

-- The text between the first two single quotes.
abbrev quoted_line : Bytes → Bytes
quoted_line s = from_quote (break_first 39 s)

quoted_line-Echoes : (program : Bytes) → Echoes quoted_line program
quoted_line-Echoes program s plain_text dashless =
    ap from_quote
      (break_first-Lacks 39 (codes "echo ") _ (refl, (refl, (refl, (refl, (refl, tt))))))
    ∙ ap as_line (break_first-Lacks 39 s (codes " | " ++ program) plain_text.quotes)

xterm-IsPlain : IsPlain (codes "xterm")
xterm-IsPlain = record {
  quotes = (refl, (refl, (refl, (refl, (refl, tt)))));
  backslashes = (refl, (refl, (refl, (refl, (refl, tt)))));
  feeds = (refl, (refl, (refl, (refl, (refl, tt)))));
  returns = (refl, (refl, (refl, (refl, (refl, tt)))));
  nuls = (refl, (refl, (refl, (refl, (refl, tt)))));
}

abbrev host_arguments : SshArguments
host_arguments = record (default_arguments (codes "host")) { tunnel_only = true }

handover_example :
    (r : Registration) × (registration_from (replicate 16 10) eleven (
        quoted_line (
          remote_command host_arguments (
            seed_line
              (seed_of (generate_random (replicate 13 1)))
              (generate_random eleven)
              (codes "xterm"))))
      ≡ some r)
    × (credentials (seed_of (generate_random (replicate 13 1))) (generate_random eleven) (
          codes "AAAAAAAAAA"
          ∷ codes "AAAAAA/BBBBBBBBBBBBBBBB"
          ∷ codes "BBBBBBBBBBBBBBBB\r\nmore"
          ∷ [])
        ≡ some (r.client_id, r.passkey))
    × (length r.passkey ≡ 32)
unfolding generate_random text_output registration parse_id_passkey position erase_from break_first
    seed_line letter registration_from input_line remote_command
handover_example =
    handover quoted_line host_arguments (replicate 13 1) eleven (replicate 16 10) eleven
      (codes "xterm") (codes "more") true
      (codes "AAAAAAAAAA" ∷ codes "AAAAAA/BBBBBBBBBBBBBBBB" ∷ codes "BBBBBBBBBBBBBBBB\r\nmore" ∷ [])
      (quoted_line-Echoes (program_of host_arguments)) refl (omega arith) (omega arith)
      (omega arith) (omega arith) (omega arith) xterm-IsPlain refl
