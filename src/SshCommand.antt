-- ===== src/SshCommand.antt =====
-- src/ut/SshCommandBuilder.{hpp,cpp}: the command line that starts ssh. The setters only set fields, and are
-- updates of the record here; a `wchar_t` is a number below 2^16.
use undying_terminal.Prelude.{
  ℕ, ◌+◌, ◌-◌, ◌^◌, Bool, false, ◌||◌, List, [], ◌∷◌, ◌++◌, map, ltb, ◌==◌, if◌then◌else◌, Bytes,
}
use undying_terminal.Prelude.Int.{ℤ, pos}
use undying_terminal.Text.{is_space, is_empty, codes, contains}
use undying_terminal.Text.Decimal.{show}
use undying_terminal.Table.{same_int}

pub record SshCommandBuilder : Type 0 where
  pub host : Bytes
  pub user : Bytes
  pub port : ℤ
  pub identity_file : Bytes
  pub remote_command : Bytes
  pub extra_options : Bytes

abbrev pub new_builder : SshCommandBuilder
new_builder = record {
  host = [];
  user = [];
  port = pos 22;
  identity_file = [];
  remote_command = [];
  extra_options = [];
}

-- `AddOption`
unfoldable pub add_option : Bytes → SshCommandBuilder → SshCommandBuilder
add_option option b = record b {
  extra_options = (if is_empty b.extra_options then [] else b.extra_options ++ codes " ") ++ option;
}

unfoldable pub has_unsafe_char : Bytes → Bool
has_unsafe_char [] = false
has_unsafe_char (c ∷ s) = (is_space c || (c == b'"')) || has_unsafe_char s

abbrev pub port_part : ℤ → Bytes
port_part port = if same_int port (pos 22) then [] else codes " -p " ++ show port

abbrev pub identity_part : Bytes → Bytes
identity_part path = if is_empty path then [] else codes " -i \"" ++ (path ++ codes "\"")

abbrev pub options_part : Bytes → Bytes
options_part options = if is_empty options then [] else codes " " ++ options

abbrev pub target_part : Bytes → Bytes → Bytes
target_part user host = codes " " ++ (if is_empty user then host else user ++ b'@' ∷ host)

abbrev pub command_part : Bytes → Bytes
command_part command = if is_empty command then [] else codes " \"" ++ (command ++ codes "\"")

-- What is written to `cmd`.
abbrev pub written : SshCommandBuilder → Bytes
written b =
    codes "ssh.exe"
    ++ (port_part b.port
        ++ (identity_part b.identity_file
            ++ (options_part b.extra_options
                ++ (target_part b.user b.host ++ command_part b.remote_command))))

-- `std::wstring(s.begin(), s.end())`: a `char` has a sign.
abbrev pub widen : ℕ → ℕ
widen c = if ltb c 128 then c else 2 ^ 16 - 2 ^ 8 + c

-- `Build`
unfoldable pub build : SshCommandBuilder → List ℕ
build b =
    if is_empty b.host || has_unsafe_char b.host || has_unsafe_char b.user
    then []
    else if contains b'"' b.identity_file || contains b'"' b.remote_command
    then []
    else map widen (written b)
