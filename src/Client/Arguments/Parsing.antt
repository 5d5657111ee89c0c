-- ===== src/Client/Arguments/Parsing.antt =====
-- The arguments that a list of options is written to, and what the parser makes of them.
use undying_terminal.Prelude.{true, false, List, [], ◌∷◌, ◌++◌, Bytes}
use undying_terminal.Prelude.Int.{pos}
use undying_terminal.Text.{codes, value}
use undying_terminal.Text.Numbers.{IsNumber}
use undying_terminal.Client.Arguments.{SshArguments}

pub data Choice : Type 0 where
  user identity remote_terminal ssh_config jumphost tunnel reverse_tunnel command tmux_session :
      Bytes → Choice
  port server_port jport : Bytes → Choice
  no_ssh_config agent no_agent predictive_echo noexit tunnel_only tmux : Choice

abbrev pub render : Choice → List Bytes
render (user v) = codes "-l" ∷ v ∷ []
render (identity v) = codes "-i" ∷ v ∷ []
render (remote_terminal v) = codes "--remote-terminal" ∷ v ∷ []
render (ssh_config v) = codes "--ssh-config" ∷ v ∷ []
render (jumphost v) = codes "--jumphost" ∷ v ∷ []
render (tunnel v) = codes "--tunnel" ∷ v ∷ []
render (reverse_tunnel v) = codes "-r" ∷ v ∷ []
render (command v) = codes "-c" ∷ v ∷ []
render (tmux_session v) = codes "--tmux-session" ∷ v ∷ []
render (port s) = codes "-p" ∷ s ∷ []
render (server_port s) = codes "--server-port" ∷ s ∷ []
render (jport s) = codes "-jport" ∷ s ∷ []
render no_ssh_config = codes "--no-ssh-config" ∷ []
render agent = codes "-A" ∷ []
render no_agent = codes "--no-ssh-agent" ∷ []
render predictive_echo = codes "--predictive-echo" ∷ []
render noexit = codes "--noexit" ∷ []
render tunnel_only = codes "--tunnel-only" ∷ []
render tmux = codes "--tmux" ∷ []

-- What an option sets.
abbrev pub meaning : Choice → SshArguments → SshArguments
meaning (user v) a = record a { user = v; user_set = true }
meaning (identity v) a = record a { identity = v; identity_set = true }
meaning (remote_terminal v) a = record a { remote_terminal = v }
meaning (ssh_config v) a = record a { ssh_config_path = v }
meaning (jumphost v) a = record a { jumphost_arg = v }
meaning (tunnel v) a = record a { tunnel_arg = v }
meaning (reverse_tunnel v) a = record a { reverse_tunnel_arg = v }
meaning (command v) a = record a { command_arg = v }
meaning (tmux_session v) a = record a { tmux_session = v }
meaning (port s) a = record a { ssh_port = pos (value s); ssh_port_set = true }
meaning (server_port s) a = record a { server_port = pos (value s) }
meaning (jport s) a = record a { jport_arg = pos (value s) }
meaning no_ssh_config a = record a { ssh_config_enabled = false }
meaning agent a = record a { ssh_agent_enabled = true; ssh_agent_set = true }
meaning no_agent a = record a { ssh_agent_enabled = false; ssh_agent_set = true }
meaning predictive_echo a = record a { predictive_echo = true }
meaning noexit a = record a { noexit = true }
meaning tunnel_only a = record a { tunnel_only = true }
meaning tmux a = record a { tmux_enabled = true }

-- Ports are in digits and fit an `int`.
abbrev pub IsFine : Choice → Type 0
IsFine (port s) = IsNumber s
IsFine (server_port s) = IsNumber s
IsFine (jport s) = IsNumber s
IsFine _ = Unit

abbrev pub AllFine : List Choice → Type 0
AllFine [] = Unit
AllFine (c ∷ cs) = IsFine c × AllFine cs

abbrev pub render_all : List Choice → List Bytes
render_all [] = []
render_all (c ∷ cs) = render c ++ render_all cs

abbrev pub meaning_all : List Choice → SshArguments → SshArguments
meaning_all [] a = a
meaning_all (c ∷ cs) a = meaning_all cs (meaning c a)
