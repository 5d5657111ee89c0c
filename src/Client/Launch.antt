-- ===== src/Client/Launch.antt =====
-- src/ut/main.cpp: from the arguments of `--ssh` to the id and passkey of a session: the command for the remote
-- host, the two runs of ssh (src/ut/SshSubprocess.cpp), and the reply of the terminal program.
pub mod Tmux
use undying_terminal.Prelude.{
  ℕ, Bool, true, false, not, ◌&&◌, Option, none, some, List, [], ◌∷◌, ◌++◌, ◌==◌, if◌then◌else◌,
  Bytes,
}
use undying_terminal.Text.{codes, is_empty, contains, ends_in}
use undying_terminal.SshConfig.{break_first}
use undying_terminal.SshCommand.{SshCommandBuilder, new_builder, add_option, build}
use undying_terminal.Client.Quoting.{wrap_with_tmux}
use undying_terminal.Client.Arguments.{SshArguments}

-- `seed_id + "/" + seed_key + "_" + term`; `XXX` asks the terminal program for an id of its own.
unfoldable pub seed_line : Bytes → Bytes → Bytes → Bytes
seed_line seed_id seed_key term = seed_id ++ b'/' ∷ (seed_key ++ b'_' ∷ term)

abbrev pub seed_of : Bytes → Bytes
seed_of random = codes "XXX" ++ random

abbrev pub echo_into : Bytes → SshArguments → Bytes
echo_into line a = codes "echo '" ++ (line ++ (codes "' | " ++ a.remote_terminal))

abbrev pub tunnel_flag : SshArguments → Bytes → Bytes
tunnel_flag a cmd = if a.tunnel_only then cmd ++ codes " --tunnel-only" else cmd

-- `remote_cmd`
unfoldable pub remote_command : SshArguments → Bytes → Bytes
remote_command a idpasskey =
    let cmd = tunnel_flag a (echo_into idpasskey a) in
    if a.tmux_enabled then wrap_with_tmux cmd a.tmux_session else cmd

abbrev pub builder_for : Bytes → Bytes → SshArguments → SshCommandBuilder
builder_for host command a = record new_builder {
  host = host;
  user = a.user;
  port = a.ssh_port;
  remote_command = command;
  identity_file = a.identity;
}

abbrev pub option_if : Bool → Bytes → SshCommandBuilder → SshCommandBuilder
option_if true option b = add_option option b
option_if false option b = b

-- `builder`
unfoldable pub first_builder : SshArguments → Bytes → SshCommandBuilder
first_builder a idpasskey =
    option_if (not (is_empty a.jumphost_arg)) (codes "-J " ++ a.jumphost_arg) (
      option_if a.ssh_agent_enabled (codes "-A") (
        option_if (not (is_empty a.ssh_proxy_jump)) (codes "-J " ++ a.ssh_proxy_jump)
          (builder_for a.host (remote_command a idpasskey) a)))

-- `jump_builder`
unfoldable pub jump_command : SshArguments → Bytes → Bytes → Bytes
jump_command a client_id passkey =
    let cmd = tunnel_flag a (echo_into (client_id ++ b'/' ∷ passkey) a ++ codes " --jump") in
    if a.tmux_enabled then wrap_with_tmux cmd (a.tmux_session ++ codes "-jump") else cmd

unfoldable pub jump_builder : SshArguments → Bytes → Bytes → SshCommandBuilder
jump_builder a client_id passkey =
    option_if a.ssh_agent_enabled (codes "-A")
      (builder_for a.jumphost_arg (jump_command a client_id passkey) a)

-- `SshSubprocess::Start`, where `creates` says whether Windows makes the pipes and the process.
unfoldable pub start_ssh : (List ℕ → Bool) → List ℕ → Bool
start_ssh creates command_line = not (is_empty command_line) && creates command_line

-- The part of a buffer before its first line feed.
abbrev pub without_return : Bytes → Bytes
without_return [] = []
without_return (c ∷ []) = if c == 13 then [] else c ∷ []
without_return (c ∷ d ∷ s) = c ∷ without_return (d ∷ s)

abbrev pub line_or : Option (Bytes × Bytes) → Option Bytes → Option Bytes
line_or (some (line, _)) later = some (without_return line)
line_or none later = later

-- `ReadLineFromSsh`: the chunks are what the calls of `Read` give before the one that fails.
unfoldable pub read_line_from : Bytes → List Bytes → Option Bytes
read_line_from buffer [] = none
read_line_from buffer (chunk ∷ chunks) =
    line_or (break_first 10 (buffer ++ chunk)) (read_line_from (buffer ++ chunk) chunks)

unfoldable pub read_line_from_ssh : List Bytes → Option Bytes
read_line_from_ssh chunks = read_line_from [] chunks

abbrev pub reply_or : Option Bytes → Bytes → Bytes
reply_or (some reply) seed = reply
reply_or none seed = seed

-- The id and passkey of the reply, or of the seeds where there is none; `none` is exit code 1.
unfoldable pub credentials : Bytes → Bytes → List Bytes → Option (Bytes × Bytes)
credentials seed_id seed_key chunks =
    break_first b'/' (reply_or (read_line_from_ssh chunks) (seed_id ++ b'/' ∷ seed_key))
