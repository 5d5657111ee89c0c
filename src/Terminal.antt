-- ===== src/Terminal.antt =====
-- src/utterminal/main.cpp: the terminal program on the remote host, up to its registration with the server.
-- Random numbers and Windows come in as arguments.
pub mod Reply
pub mod Remote
pub mod Seeds
pub mod Handover
use undying_terminal.Prelude.{
  ℕ, suc, ◌+◌, ◌-◌, Bool, true, false, ◌&&◌, Option, none, some, List, [], ◌∷◌, ◌++◌, ltb, ◌==◌,
  if◌then◌else◌, take, drop, Bytes,
}
use undying_terminal.Text.{codes}
use undying_terminal.Table.{same_bytes}
use undying_terminal.SshConfig.{break_first}
use undying_terminal.Client.Quoting.{generate_random}

-- The arguments.
pub record Mode : Type 0 where
  pub command : Bytes
  pub jump_mode : Bool
  pub tunnel_only : Bool

abbrev pub default_mode : Mode
default_mode = record { command = codes "cmd.exe"; jump_mode = false; tunnel_only = false }

unfoldable pub mode_of : List Bytes → Mode → Mode
mode_of [] m = m
mode_of (arg ∷ args) m = mode_of args (
    if same_bytes arg (codes "--powershell")
    then record m { command = codes "powershell.exe" }
    else if same_bytes arg (codes "--jump")
    then record m { jump_mode = true }
    else if same_bytes arg (codes "--tunnel-only")
    then record m { tunnel_only = true }
    else m)

abbrev pub before_or : Bytes → Option (Bytes × Bytes) → Bytes
before_or s none = s
before_or s (some (before, _)) = before

-- `s.find(c)` and `s.erase(s.find(c))`, if the byte is there.
unfoldable pub erase_from : ℕ → Bytes → Bytes
erase_from c s = before_or s (break_first c s)

-- `s.find(c)`
unfoldable pub position : ℕ → Bytes → Option ℕ
position c [] = none
position c (a ∷ s) =
    if a == c then some 0 else elim (position c s) [ none ↦ none | some n ↦ some (suc n) ]

-- `idpasskey.substr(slash_pos + 1, underscore_pos - slash_pos - 1)`: where the underscore stands before the
-- slash, the count wraps round and is more than there is.
abbrev pub passkey_part : Bytes → ℕ → Option ℕ → Bytes
passkey_part s slash none = drop (suc slash) s
passkey_part s slash (some underscore) =
    if ltb slash underscore
    then take (underscore - slash - 1) (drop (suc slash) s)
    else drop (suc slash) s

abbrev pub split_at : Bytes → Option ℕ → Option (Bytes × Bytes)
split_at s none = none
split_at s (some slash) = some (take slash s, passkey_part s slash (position b'_' s))

-- The id and passkey of the first line of the input; `none` is exit code 1.
unfoldable pub parse_id_passkey : Bytes → Option (Bytes × Bytes)
parse_id_passkey line =
    let idpasskey = erase_from 13 (erase_from 10 line) in
    split_at idpasskey (position b'/' idpasskey)

abbrev pub starts_with : Bytes → Bytes → Bool
starts_with [] s = true
starts_with (c ∷ prefix) [] = false
starts_with (c ∷ prefix) (a ∷ s) = (c == a) && starts_with prefix s

-- What is registered with the server, and what is printed.
pub record Registration : Type 0 where
  pub client_id : Bytes
  pub passkey : Bytes
  pub printed : Bytes

abbrev pub chosen : List ℕ → List ℕ → Option (Bytes × Bytes) → Option Registration
chosen id_numbers key_numbers none = none
chosen id_numbers key_numbers (some (raw_id, passkey)) = some (
    if starts_with (codes "XXX") raw_id
    then record {
      client_id = generate_random id_numbers;
      passkey = generate_random key_numbers;
      printed = generate_random id_numbers ++ b'/' ∷ (generate_random key_numbers ++ 10 ∷ []);
    }
    else record { client_id = raw_id; passkey = passkey; printed = [] })

unfoldable pub registration : List ℕ → List ℕ → Bytes → Option Registration
registration id_numbers key_numbers line = chosen id_numbers key_numbers (parse_id_passkey line)

abbrev pub line_of : Bytes → Option (Bytes × Bytes) → Bytes
line_of s none = s
line_of s (some (line, _)) = line

-- `std::getline(std::cin, idpasskey_line)`: it fails at the end of the input.
unfoldable pub input_line : Bytes → Option Bytes
input_line [] = none
input_line (c ∷ s) = some (line_of (c ∷ s) (break_first 10 (c ∷ s)))

abbrev pub registration_or : List ℕ → List ℕ → Option Bytes → Option Registration
registration_or id_numbers key_numbers none = none
registration_or id_numbers key_numbers (some line) = registration id_numbers key_numbers line

-- The terminal program with an input; `none` is exit code 1.
unfoldable pub registration_from : List ℕ → List ℕ → Bytes → Option Registration
registration_from id_numbers key_numbers input =
    registration_or id_numbers key_numbers (input_line input)

-- What `std::cout` writes: in text mode each line feed gets a carriage return in front.
unfoldable pub text_output : Bool → Bytes → Bytes
text_output text_mode [] = []
text_output text_mode (c ∷ s) =
    let rest = c ∷ text_output text_mode s in if text_mode && (c == 10) then 13 ∷ rest else rest

abbrev pub printed_by : Option Registration → Bytes
printed_by none = []
printed_by (some r) = r.printed
