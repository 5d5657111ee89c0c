-- ===== src/Tunnel.antt =====
-- src/ut/protocol/TunnelUtils.cpp: the forwarding rules of the command line. `int` is ℤ; where the code
-- reads past the end of a vector, or an `int` overflows, the model throws `undefined_behaviour`.
pub mod Rule
pub mod Rules
pub mod SshStyle
use undying_terminal.Prelude.{
  ℕ, zero, suc, ◌+◌, ◌-◌, ◌^◌, ◌≡◌, refl, Bool, true, false, not, ◌&&◌, ◌||◌, Option, none, some,
  List, [], ◌∷◌, ◌++◌, ltb, leb, ◌==◌, if◌then◌else◌, length, get_elem?, Bytes,
}
use undying_terminal.Prelude.Int.{ℤ, pos, pos_part, ◌-ℤ◌, ◌+ℤ◌, ltb_ℤ}
use undying_terminal.Result.{
  Result, ok, throw, ◌>>=◌, undefined_behaviour, no_source_and_destination, range_lengths_differ,
  one_range, few_parts, many_parts,
}
use undying_terminal.Text.{is_digit, contains, split, stoi}
use undying_terminal.Table.{same_int}
use undying_terminal.PortForward.Messages.{Endpoint, SourceRequest, localhost}

-- `IsNumericOrRange`
unfoldable pub is_numeric_or_range : Bytes → Bool
is_numeric_or_range [] = true
is_numeric_or_range (c ∷ s) = (is_digit c || (c == b'-')) && is_numeric_or_range s

-- `parts[i]`
abbrev pub part : List Bytes → ℕ → Result Bytes
part parts i = elim (get_elem? parts i) [ none ↦ throw undefined_behaviour | some s ↦ ok s ]

abbrev pub named_request : Bytes → Bytes → SourceRequest
named_request source dest = record {
  source = none;
  destination = some (record { name = dest; port = pos 0 });
  environment_variable = source;
}

abbrev pub port_request : ℤ → ℤ → SourceRequest
port_request source dest = record {
  source = some (record { name = localhost; port = source });
  destination = some (record { name = []; port = dest });
  environment_variable = [];
}

-- The loop over a range: the rounds left, and `i`.
unfoldable pub range_requests : ℕ → ℕ → ℤ → ℤ → List SourceRequest
range_requests zero i source dest = []
range_requests (suc k) i source dest =
    port_request (source +ℤ pos i) (dest +ℤ pos i) ∷ range_requests k (i + 1) source dest

unfoldable pub range_of : List SourceRequest → ℤ → ℤ → ℤ → ℤ → Result (List SourceRequest)
range_of out source_start source_end dest_start dest_end =
    if not (same_int (source_end -ℤ source_start) (dest_end -ℤ dest_start))
    then throw range_lengths_differ
    else if ltb_ℤ (pos (2 ^ 31 - 1)) (source_end -ℤ source_start +ℤ pos 1)
    then throw undefined_behaviour
    else ok (
        out
        ++ range_requests (pos_part (source_end -ℤ source_start +ℤ pos 1)) 0 source_start
            dest_start)

unfoldable pub process_ranges : List SourceRequest → Bytes → Bytes → Result (List SourceRequest)
process_ranges out source dest = do
  s0 ← part (split source b'-') 0
  source_start ← stoi s0
  s1 ← part (split source b'-') 1
  source_end ← stoi s1
  d0 ← part (split dest b'-') 0
  dest_start ← stoi d0
  d1 ← part (split dest b'-') 1
  dest_end ← stoi d1
  range_of out source_start source_end dest_start dest_end

unfoldable pub process_ports : List SourceRequest → Bytes → Bytes → Result (List SourceRequest)
process_ports out source dest = do
  source_port ← stoi source
  dest_port ← stoi dest
  ok (out ++ port_request source_port dest_port ∷ [])

unfoldable pub process_pair : List SourceRequest → Bytes → Bytes → Result (List SourceRequest)
process_pair out source dest =
    if not (is_numeric_or_range source) && not (is_numeric_or_range dest)
    then ok (out ++ named_request source dest ∷ [])
    else if contains b'-' source && contains b'-' dest
    then process_ranges out source dest
    else if contains b'-' source || contains b'-' dest
    then throw one_range
    else process_ports out source dest

-- `ProcessUtStyleArg`; parts after the second are not looked at.
unfoldable pub process_ut_style_arg : List SourceRequest → List Bytes → Result (List SourceRequest)
process_ut_style_arg out (source ∷ dest ∷ _) = process_pair out source dest
process_ut_style_arg out (source ∷ []) = throw no_source_and_destination
process_ut_style_arg out [] = throw no_source_and_destination

-- The loop of `ParseSshTunnelArg`: its variables, and a round.
pub record SshState : Type 0 where
  pub in_brackets : Bool
  pub current : Bytes
  pub parts : List Bytes

unfoldable pub ssh_step : SshState → ℕ → SshState
ssh_step s c =
    if c == b'['
    then record s { in_brackets = true }
    else if c == b']'
    then record s { in_brackets = false }
    else if (c == b':') && not s.in_brackets
    then record s { parts = s.parts ++ s.current ∷ []; current = [] }
    else record s { current = s.current ++ c ∷ [] }

unfoldable pub ssh_loop : SshState → Bytes → SshState
ssh_loop s [] = s
ssh_loop s (c ∷ input) = ssh_loop (ssh_step s c) input

-- `ParseSshTunnelArg`
unfoldable pub parse_ssh_tunnel_arg : Bytes → Result (List Bytes)
parse_ssh_tunnel_arg input =
    let s = ssh_loop (record { in_brackets = false; current = []; parts = [] }) input in
    let parts = s.parts ++ s.current ∷ [] in
    if ltb (length parts) 4
    then throw few_parts
    else if ltb 4 (length parts)
    then throw many_parts
    else ok parts

unfoldable pub ssh_request : List Bytes → Result (List SourceRequest)
ssh_request parts = do
  bind ← part parts 0
  bind_port ← part parts 1
  source_port ← stoi bind_port
  host ← part parts 2
  host_port ← part parts 3
  dest_port ← stoi host_port
  ok (
      record {
        source = some (record { name = bind; port = source_port });
        destination = some (record { name = host; port = dest_port });
        environment_variable = [];
      }
      ∷ [])

-- The loop of `ParseRangesToRequests` over the parts between commas.
unfoldable pub process_parts : List SourceRequest → List Bytes → Result (List SourceRequest)
process_parts out [] = ok out
process_parts out (p ∷ ps) =
    process_ut_style_arg out (split p b':') >>= λ more. process_parts more ps

-- `ParseRangesToRequests`
unfoldable pub parse_ranges_to_requests : Bytes → Result (List SourceRequest)
parse_ranges_to_requests input =
    if ltb 1 (length (split input b','))
    then process_parts [] (split input b',')
    else if leb (length (split input b':')) 2
    then process_ut_style_arg [] (split input b':')
    else parse_ssh_tunnel_arg input >>= ssh_request
