-- ===== src/Config.antt =====
-- src/ut/Config.{hpp,cpp}: the configuration of the server. A file is the list of its lines, and `none` where
-- it does not open; `%PROGRAMDATA%` comes in as text.
pub mod Lines
pub mod Settings
use undying_terminal.Prelude.{
  ℕ, Bool, true, false, ◌&&◌, ◌||◌, not, Option, none, some, List, [], ◌∷◌, ◌++◌, ◌==◌,
  if◌then◌else◌, Bytes,
}
use undying_terminal.Prelude.Int.{ℤ, pos}
use undying_terminal.Text.{codes, is_empty, ends_in}
use undying_terminal.Text.Stream.{stream_of, get_int, if_good}
use undying_terminal.Table.{same_bytes}
use undying_terminal.SshConfig.{break_first}

pub record Config : Type 0 where
  pub port : ℤ
  pub bind_ip : Bytes
  pub verbose : Bool
  pub silent : Bool
  pub logsize : ℤ
  pub logdirectory : Bytes
  pub telemetry : Bool
  pub config_path : Bytes
  pub shared_key_hex : Bytes

abbrev pub default_config : Config
default_config = record {
  port = pos 2022;
  bind_ip = codes "0.0.0.0";
  verbose = false;
  silent = false;
  logsize = pos 20971520;
  logdirectory = codes "/tmp";
  telemetry = true;
  config_path = [];
  shared_key_hex = [];
}

-- `DefaultConfigPath` on Windows; `\` is 92 and `/` is 47.
unfoldable pub default_config_path : Bytes → Bytes
default_config_path base =
    if is_empty base
    then []
    else (if ends_in 92 base || ends_in 47 base then base else base ++ 92 ∷ [])
      ++ (codes "UndyingTerminal" ++ (92 ∷ codes "ut.cfg"))

abbrev pub default_lines : List Bytes
default_lines =
    codes "port=2022"
    ∷ codes "bind_ip=0.0.0.0"
    ∷ codes "verbose=0"
    ∷ codes "silent=0"
    ∷ codes "logsize=20971520"
    ∷ codes "logdirectory=/tmp"
    ∷ codes "telemetry=true"
    ∷ []

-- `value == "1" || value == "true"`
abbrev pub is_true : Bytes → Bool
is_true value = same_bytes value (codes "1") || same_bytes value (codes "true")

-- `if (stream >> parsed)`
unfoldable pub parsed : Bytes → Option ℤ
parsed value = if_good (get_int (pos 0) (stream_of value))

abbrev pub or_before {ℓ} : {A : Type ℓ} → A → Option A → A
or_before a none = a
or_before a (some b) = b

-- What a line says: a key and a value.
unfoldable pub entry_of : Bytes → Option (Bytes × Bytes)
entry_of [] = none
entry_of (a ∷ s) = if a == b'#' then none else break_first b'=' (a ∷ s)

abbrev pub set_entry : Config → Bytes → Bytes → Config
set_entry c key value =
    if same_bytes key (codes "port")
    then record c { port = or_before c.port (parsed value) }
    else if same_bytes key (codes "bind_ip")
    then record c { bind_ip = value }
    else if same_bytes key (codes "verbose")
    then record c { verbose = is_true value }
    else if same_bytes key (codes "silent")
    then record c { silent = is_true value }
    else if same_bytes key (codes "logsize")
    then record c { logsize = or_before c.logsize (parsed value) }
    else if same_bytes key (codes "logdirectory")
    then record c { logdirectory = value }
    else if same_bytes key (codes "telemetry")
    then record c { telemetry = is_true value }
    else if same_bytes key (codes "shared_key")
    then record c { shared_key_hex = value }
    else c

abbrev pub set_by : Config → Option (Bytes × Bytes) → Config
set_by c none = c
set_by c (some (key, value)) = set_entry c key value

-- The loop over the lines.
unfoldable pub load_lines : List Bytes → Config → Config
load_lines [] c = c
load_lines (line ∷ lines) c = load_lines lines (set_by c (entry_of line))

-- The configuration after `Config::Load`, and the lines of the file that it writes, if it writes one.
unfoldable pub load : Bytes → Option (List Bytes) → Bool → Config → Config × Option (List Bytes)
load base file creates c =
    let c' = record c { config_path = default_config_path base } in
    if is_empty (default_config_path base) then (c', none) else elim file [
      | none ↦ (c', if creates then some default_lines else none)
      | some lines ↦ (load_lines lines c', none)
    ]
