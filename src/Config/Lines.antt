-- ===== src/Config/Lines.antt =====
-- The lines of a configuration file by their parts: their texts, and what they are to do.
use undying_terminal.Prelude.{◌≢◌, Bool, true, false, List, [], ◌∷◌, ◌++◌, Bytes}
use undying_terminal.Prelude.Int.{ℤ}
use undying_terminal.Text.{codes}
use undying_terminal.Text.Decimal.{show}
use undying_terminal.Text.Words.{Spaces}
use undying_terminal.Text.Scanning.{Ends, FitsInt, NoNumber}
use undying_terminal.Text.Splitting.{Lacks}
use undying_terminal.Config.{Config}

pub data NumberKey : Type 0 where
  port_key logsize_key : NumberKey

pub data TextKey : Type 0 where
  bind_ip_key logdirectory_key shared_key_key : TextKey

pub data FlagKey : Type 0 where
  verbose_key silent_key telemetry_key : FlagKey

-- What a flag is set to: two texts set it, all others clear it.
pub data FlagValue : Type 0 where
  on_one on_true : FlagValue
  off : Bytes → FlagValue

-- A line of a file: a comment, a line without a key, a key and its value, or a key that is not known.
pub data Line : Type 0 where
  blank : Line
  comment keyless : Bytes → Line
  number : NumberKey → (gap : Bytes) → ℤ → (rest : Bytes) → Line
  no_number : NumberKey → Bytes → Line
  text : TextKey → Bytes → Line
  flag : FlagKey → FlagValue → Line
  unknown : (key value : Bytes) → Line

abbrev pub number_name : NumberKey → Bytes
number_name port_key = codes "port"
number_name logsize_key = codes "logsize"

abbrev pub text_name : TextKey → Bytes
text_name bind_ip_key = codes "bind_ip"
text_name logdirectory_key = codes "logdirectory"
text_name shared_key_key = codes "shared_key"

abbrev pub flag_name : FlagKey → Bytes
flag_name verbose_key = codes "verbose"
flag_name silent_key = codes "silent"
flag_name telemetry_key = codes "telemetry"

abbrev pub flag_value : FlagValue → Bytes
flag_value on_one = codes "1"
flag_value on_true = codes "true"
flag_value (off value) = value

-- The text of a line.
abbrev pub render : Line → Bytes
render blank = []
render (comment s) = b'#' ∷ s
render (keyless s) = s
render (number k gap z rest) = number_name k ++ b'=' ∷ (gap ++ (show z ++ rest))
render (no_number k value) = number_name k ++ b'=' ∷ value
render (text k value) = text_name k ++ b'=' ∷ value
render (flag k v) = flag_name k ++ b'=' ∷ flag_value v
render (unknown key value) = key ++ b'=' ∷ value

abbrev pub IsOff : FlagValue → Type 0
IsOff (off value) = (value ≢ codes "1") × (value ≢ codes "true")
IsOff _ = Unit

-- None of the eight keys.
pub record IsUnknown (key : Bytes) : Type 0 where
  pub lacks : Lacks b'=' key
  pub not_number : (k : NumberKey) → key ≢ number_name k
  pub not_text : (k : TextKey) → key ≢ text_name k
  pub not_flag : (k : FlagKey) → key ≢ flag_name k

abbrev pub IsLine : Line → Type 0
IsLine blank = Unit
IsLine (comment s) = Unit
IsLine (keyless s) = Lacks b'=' s
IsLine (number k gap z rest) = Spaces gap × FitsInt z × Ends rest
IsLine (no_number k value) = NoNumber value
IsLine (text k value) = Unit
IsLine (flag k v) = IsOff v
IsLine (unknown key value) = IsUnknown key

abbrev pub AllLines : List Line → Type 0
AllLines [] = Unit
AllLines (l ∷ ls) = IsLine l × AllLines ls

abbrev pub set_number : NumberKey → ℤ → Config → Config
set_number port_key z c = record c { port = z }
set_number logsize_key z c = record c { logsize = z }

abbrev pub set_text : TextKey → Bytes → Config → Config
set_text bind_ip_key value c = record c { bind_ip = value }
set_text logdirectory_key value c = record c { logdirectory = value }
set_text shared_key_key value c = record c { shared_key_hex = value }

abbrev pub set_flag_to : FlagKey → Bool → Config → Config
set_flag_to verbose_key b c = record c { verbose = b }
set_flag_to silent_key b c = record c { silent = b }
set_flag_to telemetry_key b c = record c { telemetry = b }

abbrev pub flag_meaning : FlagValue → Bool
flag_meaning on_one = true
flag_meaning on_true = true
flag_meaning (off value) = false

-- What a line is to do.
abbrev pub meaning : Line → Config → Config
meaning blank c = c
meaning (comment s) c = c
meaning (keyless s) c = c
meaning (number k gap z rest) c = set_number k z c
meaning (no_number k value) c = c
meaning (text k value) c = set_text k value c
meaning (flag k v) c = set_flag_to k (flag_meaning v) c
meaning (unknown key value) c = c

abbrev pub meaning_all : List Line → Config → Config
meaning_all [] c = c
meaning_all (l ∷ ls) c = meaning_all ls (meaning l c)
