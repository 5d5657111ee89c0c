-- ===== src/Client/Arguments.antt =====
-- src/ut/main.cpp: the arguments of `--ssh`, from the third on, and what the configuration file adds.
pub mod Parsing
use undying_terminal.Prelude.{
  ℕ, Bool, true, false, not, ◌&&◌, ◌||◌, Option, none, some, List, [], ◌∷◌, if◌then◌else◌, Bytes,
}
use undying_terminal.Prelude.Int.{ℤ, pos, ltb_ℤ}
use undying_terminal.Result.{Result, ok, throw, ◌>>=◌}
use undying_terminal.Table.{same_bytes}
use undying_terminal.Text.{codes, is_empty, stoi}
use undying_terminal.SshConfig.{SshConfigOptions}

pub record SshArguments : Type 0 where
  pub host : Bytes
  pub user : Bytes
  pub user_set : Bool
  pub ssh_port : ℤ
  pub ssh_port_set : Bool
  pub server_port : ℤ
  pub identity : Bytes
  pub identity_set : Bool
  pub remote_terminal : Bytes
  pub tunnel_arg : Bytes
  pub reverse_tunnel_arg : Bytes
  pub jumphost_arg : Bytes
  pub jport_arg : ℤ
  pub command_arg : Bytes
  pub noexit : Bool
  pub tunnel_only : Bool
  pub predictive_echo : Bool
  pub tmux_enabled : Bool
  pub tmux_session : Bytes
  pub ssh_config_enabled : Bool
  pub ssh_config_path : Bytes
  pub ssh_agent_enabled : Bool
  pub ssh_agent_set : Bool
  pub ssh_proxy_jump : Bytes
  pub config_local_forwards : List Bytes

abbrev pub default_arguments : Bytes → SshArguments
default_arguments host = record {
  host = host;
  user = [];
  user_set = false;
  ssh_port = pos 22;
  ssh_port_set = false;
  server_port = pos 2022;
  identity = [];
  identity_set = false;
  remote_terminal = codes "undying-terminal-terminal.exe";
  tunnel_arg = [];
  reverse_tunnel_arg = [];
  jumphost_arg = [];
  jport_arg = pos 2022;
  command_arg = [];
  noexit = false;
  tunnel_only = false;
  predictive_echo = false;
  tmux_enabled = false;
  tmux_session = codes "undying-terminal";
  ssh_config_enabled = true;
  ssh_config_path = [];
  ssh_agent_enabled = false;
  ssh_agent_set = false;
  ssh_proxy_jump = [];
  config_local_forwards = [];
}

-- The options with a value, in the order of their tests; `none` where the argument is none of them.
unfoldable pub with_value : Bytes → Bytes → SshArguments → Option (Result SshArguments)
with_value arg v a =
    if same_bytes arg (codes "-l")
    then some (ok (record a { user = v; user_set = true }))
    else if same_bytes arg (codes "-p")
    then some (stoi v >>= λ n. ok (record a { ssh_port = n; ssh_port_set = true }))
    else if same_bytes arg (codes "--server-port")
    then some (stoi v >>= λ n. ok (record a { server_port = n }))
    else if same_bytes arg (codes "-i")
    then some (ok (record a { identity = v; identity_set = true }))
    else if same_bytes arg (codes "--remote-terminal")
    then some (ok (record a { remote_terminal = v }))
    else if same_bytes arg (codes "--ssh-config")
    then some (ok (record a { ssh_config_path = v }))
    else if same_bytes arg (codes "--jumphost") || same_bytes arg (codes "-jumphost")
    then some (ok (record a { jumphost_arg = v }))
    else if same_bytes arg (codes "--jport") || same_bytes arg (codes "-jport")
    then some (stoi v >>= λ n. ok (record a { jport_arg = n }))
    else if same_bytes arg (codes "-t") || same_bytes arg (codes "--tunnel")
    then some (ok (record a { tunnel_arg = v }))
    else if same_bytes arg (codes "-r") || same_bytes arg (codes "--reversetunnel")
    then some (ok (record a { reverse_tunnel_arg = v }))
    else if same_bytes arg (codes "-c") || same_bytes arg (codes "--command")
    then some (ok (record a { command_arg = v }))
    else if same_bytes arg (codes "--tmux-session")
    then some (ok (record a { tmux_session = v }))
    else none

-- The options that stand alone; any other argument changes nothing.
unfoldable pub with_flag : Bytes → SshArguments → SshArguments
with_flag arg a =
    if same_bytes arg (codes "--no-ssh-config")
    then record a { ssh_config_enabled = false }
    else if same_bytes arg (codes "--ssh-agent") || same_bytes arg (codes "-A")
    then record a { ssh_agent_enabled = true; ssh_agent_set = true }
    else if same_bytes arg (codes "--no-ssh-agent")
    then record a { ssh_agent_enabled = false; ssh_agent_set = true }
    else if same_bytes arg (codes "--predictive-echo")
    then record a { predictive_echo = true }
    else if same_bytes arg (codes "--noexit")
    then record a { noexit = true }
    else if same_bytes arg (codes "--tunnel-only")
    then record a { tunnel_only = true }
    else if same_bytes arg (codes "--tmux")
    then record a { tmux_enabled = true }
    else a

-- The loop over `argv`.
unfoldable pub parse_arguments : List Bytes → SshArguments → Result SshArguments
parse_arguments [] a = ok a
parse_arguments (arg ∷ []) a = ok (with_flag arg a)
parse_arguments (arg ∷ v ∷ rest) a = elim (with_value arg v a) [
  | none ↦ parse_arguments (v ∷ rest) (with_flag arg a)
  | some (ok b) ↦ parse_arguments rest b
  | some (throw e) ↦ throw e
]

-- What the configuration for the host adds.
unfoldable pub apply_config : SshConfigOptions → SshArguments → SshArguments
apply_config config a = record a {
  host = if is_empty config.host_name then a.host else config.host_name;
  user = if not a.user_set && not (is_empty config.user) then config.user else a.user;
  ssh_port = if not a.ssh_port_set && ltb_ℤ (pos 0) config.port then config.port else a.ssh_port;
  identity =
      if not a.identity_set && not (is_empty config.identity_file)
      then config.identity_file
      else a.identity;
  ssh_proxy_jump = if is_empty config.proxy_jump then a.ssh_proxy_jump else config.proxy_jump;
  ssh_agent_enabled =
      if config.forward_agent_set && not a.ssh_agent_set
      then config.forward_agent
      else a.ssh_agent_enabled;
  ssh_agent_set = (config.forward_agent_set && not a.ssh_agent_set) || a.ssh_agent_set;
  config_local_forwards = config.local_forwards;
}
