-- ===== src/SshConfig.antt =====
-- src/ut/SshConfig.{hpp,cpp}: the user's ssh configuration. A file is the list of its lines; the two
-- environment variables that the code reads are arguments. `out` and the outputs of the helpers are
-- never null, as in every call of the program.
pub mod Breaking
pub mod Glob
pub mod LocalForward
pub mod Sections
use Glob.{match_glob}
use undying_terminal.Prelude.{
  ℕ, ◌+◌, Bool, true, false, not, ◌&&◌, ◌||◌, Option, none, some, List, [], ◌∷◌, ◌++◌, ◌==◌,
  if◌then◌else◌, length, drop, Bytes, ltb,
}
use undying_terminal.Prelude.Int.{ℤ, pos}
use undying_terminal.Result.{Result, ok, throw, ◌>>=◌}
use undying_terminal.Text.{
  is_space, is_digit, is_empty, lower, contains, drop_space, trim, words, stoi, codes, ends_in,
}
use undying_terminal.Table.{same_bytes}

pub record SshConfigOptions : Type 0 where
  pub host_name : Bytes
  pub user : Bytes
  pub identity_file : Bytes
  pub proxy_jump : Bytes
  pub port : ℤ
  pub forward_agent_set : Bool
  pub forward_agent : Bool
  pub local_forwards : List Bytes

abbrev pub no_options : SshConfigOptions
no_options = record {
  host_name = [];
  user = [];
  identity_file = [];
  proxy_jump = [];
  port = pos 0;
  forward_agent_set = false;
  forward_agent = false;
  local_forwards = [];
}

-- `getenv`: `none` where a variable is not set.
pub record Environment : Type 0 where
  pub user_profile : Option Bytes
  pub home : Option Bytes

abbrev pub is_negated : Bytes → Bool
is_negated [] = true
is_negated (c ∷ s) = c == b'!'

-- `HostMatches`
unfoldable pub host_matches : List Bytes → Bytes → Bool
host_matches [] host = false
host_matches (raw ∷ patterns) host =
    (not (is_negated raw) && match_glob (lower raw) (lower host)) || host_matches patterns host

abbrev pub set_home : Option Bytes → Option Bytes → Option Bytes
set_home (some (c ∷ s)) other = some (c ∷ s)
set_home _ (some (c ∷ s)) = some (c ∷ s)
set_home _ _ = none

-- The home folder, if there is one.
abbrev pub home_of : Environment → Option Bytes
home_of env = set_home env.user_profile env.home

abbrev pub in_home : Bytes → Bytes → Bytes
in_home home [] = home
in_home home (c ∷ rest) = if (c == b'/') || (c == b'\\') then home ++ c ∷ rest else b'~' ∷ c ∷ rest

-- `ExpandHome`
unfoldable pub expand_home : Environment → Bytes → Bytes
expand_home env [] = []
expand_home env (c ∷ rest) =
    if c == b'~'
    then elim (home_of env) [ none ↦ c ∷ rest | some home ↦ in_home home rest ]
    else c ∷ rest

-- What stands before and behind the first and the last occurrence of a byte.
unfoldable pub break_first : ℕ → Bytes → Option (Bytes × Bytes)
break_first c [] = none
break_first c (a ∷ s) =
    if a == c
    then some ([], s)
    else elim (break_first c s) [ none ↦ none | some (before, behind) ↦ some (a ∷ before, behind) ]

unfoldable pub break_last : ℕ → Bytes → Option (Bytes × Bytes)
break_last c [] = none
break_last c (a ∷ s) = elim (break_last c s) [
  | some (before, behind) ↦ some (a ∷ before, behind)
  | none ↦ if a == c then some ([], s) else none
]

abbrev pub behind_bracket : Option (Bytes × Bytes) → Option (Bytes × Bytes)
behind_bracket (some (host, c ∷ port)) = if c == b':' then some (host, port) else none
behind_bracket _ = none

abbrev pub one_colon : Option (Bytes × Bytes) → Option (Bytes × Bytes)
one_colon none = none
one_colon (some (host, port)) = if contains b':' host then none else some (host, port)

-- `ParseHostPort`: the host and the port, or `none` for false.
unfoldable pub parse_host_port : Bytes → Option (Bytes × Bytes)
parse_host_port [] = none
parse_host_port (c ∷ s) =
    if c == b'[' then behind_bracket (break_first b']' s) else one_colon (break_last b':' (c ∷ s))

abbrev pub all_digits : Bytes → Bool
all_digits [] = true
all_digits (c ∷ s) = is_digit c && all_digits s

-- `IsNumeric`
unfoldable pub is_numeric : Bytes → Bool
is_numeric s = not (is_empty s) && all_digits s

abbrev pub in_brackets : Bytes → Bool
in_brackets [] = false
in_brackets (c ∷ s) = c == b'['

-- `NormalizeAddress`
unfoldable pub normalize_address : Bytes → Bytes
normalize_address s = if contains b':' s && not (in_brackets s) then b'[' ∷ (s ++ b']' ∷ []) else s

abbrev pub loopback : Bytes
loopback = codes "127.0.0.1"

-- The bind host and port, from the first word.
abbrev pub bind_of : Bytes → Option (Bytes × Bytes)
bind_of s = if contains b':' s then parse_host_port s else some ([], s)

abbrev pub forward_text : Option (Bytes × Bytes) → Option (Bytes × Bytes) → Option Bytes
forward_text (some (bind_host, bind_port)) (some (dest_host, dest_port)) =
    if not (is_numeric bind_port) || not (is_numeric dest_port)
    then none
    else let host = if is_empty bind_host then loopback else bind_host in
      some (
        normalize_address host
        ++ b':' ∷ (bind_port ++ b':' ∷ (normalize_address dest_host ++ b':' ∷ dest_port)))
forward_text _ _ = none

abbrev pub forward_of : List Bytes → Option Bytes
forward_of (bind ∷ dest ∷ []) = forward_text (bind_of bind) (parse_host_port dest)
forward_of (bind ∷ host ∷ port ∷ []) = forward_text (bind_of bind) (some (host, port))
forward_of _ = none

-- `NormalizeLocalForward`
unfoldable pub normalize_local_forward : Bytes → Option Bytes
normalize_local_forward value = forward_of (words value)

abbrev pub without_space : Bytes → Bytes
without_space [] = []
without_space (c ∷ s) = if is_space c then without_space s else c ∷ without_space s

abbrev pub is_yes : Bytes → Bool
is_yes s =
    same_bytes s (codes "yes")
    || same_bytes s (codes "true")
    || same_bytes s (codes "on")
    || same_bytes s (codes "1")

abbrev pub with_port : SshConfigOptions → Result ℤ → Result SshConfigOptions
with_port out (ok port) = ok (record out { port = port })
with_port out (throw e) = throw e

abbrev pub with_forward : SshConfigOptions → Option Bytes → SshConfigOptions
with_forward out none = out
with_forward out (some s) = record out { local_forwards = out.local_forwards ++ s ∷ [] }

-- A directive in a section that counts: its key, its value, and the word behind the key.
unfoldable pub apply_directive :
    Environment → SshConfigOptions → Bytes → Bytes → Bytes → Result SshConfigOptions
apply_directive env out key value word =
    if same_bytes key (codes "hostname")
    then ok (record out { host_name = value })
    else if same_bytes key (codes "user")
    then ok (record out { user = value })
    else if same_bytes key (codes "port")
    then if is_numeric word then with_port out (stoi word) else ok out
    else if same_bytes key (codes "identityfile")
    then ok (record out { identity_file = expand_home env value })
    else if same_bytes key (codes "proxyjump")
    then ok (record out { proxy_jump = without_space value })
    else if same_bytes key (codes "forwardagent")
    then ok (record out { forward_agent_set = true; forward_agent = is_yes (lower word) })
    else if same_bytes key (codes "localforward")
    then ok (with_forward out (normalize_local_forward value))
    else ok out

-- The variables of the loop of `LoadForHost`.
pub record Loading : Type 0 where
  pub seen_host : Bool
  pub current_match : Bool
  pub out : SshConfigOptions

abbrev pub cut_comment : Bytes → Option (Bytes × Bytes) → Bytes
cut_comment trimmed none = trimmed
cut_comment trimmed (some (before, _)) = trim before

-- A line without its spaces and its comment.
unfoldable pub cleaned : Bytes → Bytes
cleaned line = cut_comment (trim line) (break_first b'#' (trim line))

abbrev pub applied : Loading → Result SshConfigOptions → Result Loading
applied l (ok out) = ok (record l { out = out })
applied l (throw e) = throw e

abbrev pub directive : Environment → Loading → Bytes → Bytes → List Bytes → Result Loading
directive env l line key [] = ok l
directive env l line key (word ∷ _) =
    applied l (apply_directive env l.out (lower key) (trim (drop (length key) line)) word)

abbrev pub load_words : Environment → Bytes → Loading → Bytes → List Bytes → Result Loading
load_words env host l line [] = ok l
load_words env host l line (key ∷ more) =
    if same_bytes (lower key) (codes "host")
    then ok (record l { seen_host = true; current_match = host_matches more host })
    else let l' = if l.seen_host then l else record l { current_match = true } in
      if l'.current_match then directive env l' line key more else ok l'

-- A round of the loop.
unfoldable pub load_line : Environment → Bytes → Loading → Bytes → Result Loading
load_line env host l line = load_words env host l (cleaned line) (words (cleaned line))

unfoldable pub load_lines : Environment → Bytes → Loading → List Bytes → Result Loading
load_lines env host l [] = ok l
load_lines env host l (line ∷ lines) =
    load_line env host l line >>= λ l'. load_lines env host l' lines

-- What `LoadForHost` returns, its `out`, and whether it sets its error.
pub record Loaded : Type 0 where
  pub success : Bool
  pub options : SshConfigOptions
  pub not_found : Bool

abbrev pub loaded : Loading → Loaded
loaded l = record { success = true; options = l.out; not_found = false }

-- `LoadForHost`; `file` is `none` where the file cannot be opened, and `wants_error` tells whether the caller
-- passes a string for the error.
unfoldable pub load_for_host :
    Environment → Bytes → Bytes → Bool → Bool → Option (List Bytes) → Result Loaded
load_for_host env host config_path optional wants_error file =
    if is_empty config_path
    then ok (record { success = true; options = no_options; not_found = false })
    else elim file [
      | none ↦
          let missing = not optional && wants_error in
          ok (record { success = not missing; options = no_options; not_found = missing })
      | some lines ↦
          load_lines env host (record { seen_host = false; current_match = true; out = no_options })
            lines
          >>= λ l. ok (loaded l)
    ]

abbrev pub with_backslash : Bytes → Bytes
with_backslash path = if ends_in b'\\' path || ends_in b'/' path then path else path ++ b'\\' ∷ []

-- `DefaultConfigPath`
unfoldable pub default_config_path : Environment → Bytes
default_config_path env = elim (home_of env) [
  | none ↦ []
  | some home ↦ with_backslash home ++ codes ".ssh\\config"
]
