-- ===== src/Terminal/Remote.antt =====
-- The remote shell that runs the command of `ssh`: what a POSIX shell does with an `echo` of a quoted text.
use undying_terminal.Prelude.{
  ◌≡◌, refl, ap, ◌∙◌, Bool, true, false, [], ◌∷◌, ◌++◌, ◌==◌, if◌then◌else◌, append_assoc, Bytes,
}
use undying_terminal.Text.{codes}
use undying_terminal.Text.Splitting.{Lacks}
use undying_terminal.Client.Arguments.{SshArguments}
use undying_terminal.Client.Quoting.{wrap_with_tmux}
use undying_terminal.Client.Launch.{echo_into, tunnel_flag, remote_command}

-- A text that a shell takes between single quotes as it is, and that `echo` writes as it is on one line.
pub record IsPlain (s : Bytes) : Type 0 where
  pub quotes : Lacks 39 s
  pub backslashes : Lacks 92 s
  pub feeds : Lacks 10 s
  pub returns : Lacks 13 s
  pub nuls : Lacks 0 s

abbrev pub IsDashless : Bytes → Type 0
IsDashless [] = Unit
IsDashless (c ∷ s) = (c == b'-') ≡ false

-- A shell, as a function from a command to the input of the program behind the pipe: `echo` of a quoted text
-- gives that text and a line feed to the program.
abbrev pub Echoes : (Bytes → Bytes) → Bytes → Type 0
Echoes shell program =
    (s : Bytes)
    → IsPlain s
    → IsDashless s
    → shell (codes "echo '" ++ (s ++ (codes "' | " ++ program))) ≡ s ++ 10 ∷ []

-- The program behind the pipe, with its arguments.
abbrev pub program_of : SshArguments → Bytes
program_of a = tunnel_flag a a.remote_terminal

append-echo :
    (line program flag : Bytes)
    → (codes "echo '" ++ (line ++ (codes "' | " ++ program))) ++ flag
      ≡ codes "echo '" ++ (line ++ (codes "' | " ++ (program ++ flag)))
append-echo line program flag =
    ap (λ s. codes "echo '" ++ s) (append_assoc line (codes "' | " ++ program) flag)

tunnel_flag-echo_into :
    (tunnel_only : Bool) (line program : Bytes)
    → (if tunnel_only
        then (codes "echo '" ++ (line ++ (codes "' | " ++ program))) ++ codes " --tunnel-only"
        else codes "echo '" ++ (line ++ (codes "' | " ++ program)))
      ≡ codes "echo '"
        ++ (line
            ++ (codes "' | "
                ++ (if tunnel_only then program ++ codes " --tunnel-only" else program)))
tunnel_flag-echo_into true line program = append-echo line program (codes " --tunnel-only")
tunnel_flag-echo_into false line program = refl

-- What the shell gives to the terminal program without `--tmux`.
pub shell-remote_command :
    (shell : Bytes → Bytes) (a : SshArguments) (line : Bytes)
    → Echoes shell (program_of a)
    → a.tmux_enabled ≡ false
    → IsPlain line
    → IsDashless line
    → shell (remote_command a line) ≡ line ++ 10 ∷ []
unfolding remote_command
shell-remote_command shell a line echoes no_tmux plain_line dashless =
    ap
      (λ b. shell (
        if b
        then wrap_with_tmux (tunnel_flag a (echo_into line a)) a.tmux_session
        else tunnel_flag a (echo_into line a)))
      no_tmux
    ∙ ap shell (tunnel_flag-echo_into a.tunnel_only line a.remote_terminal)
    ∙ echoes line plain_line dashless
