-- ===== src/Tests/Parsers.antt =====
-- The parsers' theorems at concrete texts.
use undying_terminal.Prelude.{◌≡◌, refl, true, none, some, [], ◌∷◌, Bytes, arith}
use undying_terminal.Prelude.Int.{pos}
use undying_terminal.Result.{ok}
use undying_terminal.Text.{
  is_digit, is_space, contains, value, value_from, words, words_from, codes, trim, drop_space,
  lower, to_lower,
}
use undying_terminal.Text.Splitting.{contains-Lacks}
use undying_terminal.Text.Numbers.{IsNumber}
use undying_terminal.Tunnel.{parse_ranges_to_requests, is_numeric_or_range}
use undying_terminal.Tunnel.Rules.{parse_rules}
use undying_terminal.Tunnel.Rule.{IsName, port, range, named, join, expand_all}
use undying_terminal.Tunnel.SshStyle.{
  IsHost, bracketed, plain, address_text, ssh_text, parse_ssh_style,
}
use undying_terminal.SshConfig.{
  Environment, load_for_host, host_matches, cleaned, break_first, normalize_local_forward,
}
use undying_terminal.SshConfig.Glob.{glob_loop, glob_fuel, glob_round, only_stars, match_glob}
use undying_terminal.SshConfig.Glob.Greedy.{match_glob_lem}
use undying_terminal.SshConfig.Glob.Plain.{globs}
use undying_terminal.SshConfig.LocalForward.{joined, local_forward_parses}
use undying_terminal.SshConfig.Sections.{is_host_line, section_matches, foreign_section}

abbrev digit_4 : Bytes
digit_4 = codes "4"

abbrev digit_6 : Bytes
digit_6 = codes "6"

digit_4-IsNumber : IsNumber digit_4
unfolding is_digit value value_from
digit_4-IsNumber = record { digits = (refl, tt); some_digit = refl; small = omega arith }

digit_6-IsNumber : IsNumber digit_6
unfolding is_digit value value_from
digit_6-IsNumber = record { digits = (refl, tt); some_digit = refl; small = omega arith }

abbrev name_a : Bytes
name_a = codes "a"

name_a-IsName : IsName name_a
unfolding is_numeric_or_range is_digit contains
name_a-IsName = record {
  no_number = refl;
  no_comma = contains-Lacks b',' name_a refl;
  no_colon = contains-Lacks b':' name_a refl;
}

-- `4:6,4-6:4-6,a:a`
parse_rules_example :
    parse_ranges_to_requests (
      join
        (port digit_4 digit_6)
        (range digit_4 digit_6 digit_4 digit_6 ∷ named name_a name_a ∷ []))
    ≡ ok (
        expand_all
          (port digit_4 digit_6 ∷ range digit_4 digit_6 digit_4 digit_6 ∷ named name_a name_a ∷ []))
unfolding value value_from
parse_rules_example =
    parse_rules (port digit_4 digit_6)
      (range digit_4 digit_6 digit_4 digit_6 ∷ named name_a name_a ∷ [])
      (
        (digit_4-IsNumber, digit_6-IsNumber),
        (
          record {
            number_s0 = digit_4-IsNumber;
            number_s1 = digit_6-IsNumber;
            number_d0 = digit_4-IsNumber;
            number_d1 = digit_6-IsNumber;
            upwards = omega arith;
            same_length = refl;
            short = omega arith;
          },
          ((name_a-IsName, name_a-IsName), tt),
        ),
      )

abbrev v6 : Bytes
v6 = codes "::1"

v6-IsHost : IsHost v6
unfolding contains
v6-IsHost = record {
  no_open = contains-Lacks b'[' v6 refl;
  no_close = contains-Lacks b']' v6 refl;
  no_comma = contains-Lacks b',' v6 refl;
}

name_a-IsHost : IsHost name_a
unfolding contains
name_a-IsHost = record {
  no_open = contains-Lacks b'[' name_a refl;
  no_close = contains-Lacks b']' name_a refl;
  no_comma = contains-Lacks b',' name_a refl;
}

-- `[::1]:4:a:6`
parse_ssh_style_example :
    parse_ranges_to_requests (ssh_text (bracketed v6) digit_4 (plain name_a) digit_6)
    ≡ ok (
        record {
          source = some (record { name = v6; port = pos 4 });
          destination = some (record { name = name_a; port = pos 6 });
          environment_variable = [];
        }
        ∷ [])
unfolding value value_from contains
parse_ssh_style_example =
    parse_ssh_style (bracketed v6) digit_4 (plain name_a) digit_6 v6-IsHost digit_4-IsNumber
      (name_a-IsHost, contains-Lacks b':' name_a refl) digit_6-IsNumber

-- `*a?` and `baac`
match_glob_lem_example :
    (glob_loop (glob_fuel 3 4) none (codes "*a?") (codes "baac")
      ≡ some (globs (codes "*a?") (codes "baac")))
    × (match_glob (codes "*a?") (codes "baac") ≡ globs (codes "*a?") (codes "baac"))
unfolding contains
match_glob_lem_example =
    match_glob_lem (codes "*a?") (codes "baac") (contains-Lacks b'*' (codes "baac") refl)

-- `a:4` and `[::1]:6` behind two spaces.
local_forward_parses_example :
    (text : Bytes) × (normalize_local_forward (codes "a:4  [::1]:6") ≡ some text)
    × (parse_ranges_to_requests text
        ≡ ok (
            record {
              source = some (record { name = name_a; port = pos 4 });
              destination = some (record { name = v6; port = pos 6 });
              environment_variable = [];
            }
            ∷ []))
unfolding value value_from contains is_space address_text
local_forward_parses_example =
    local_forward_parses (some (plain name_a)) digit_4 (32 ∷ 32 ∷ []) (joined (bracketed v6))
      digit_6 ((name_a-IsHost, contains-Lacks b':' name_a refl), (refl, tt)) digit_4-IsNumber
      ((refl, (refl, tt)), refl) (v6-IsHost, (refl, (refl, (refl, tt)))) digit_6-IsNumber

abbrev environment : Environment
environment = record { user_profile = none; home = none }

-- The section of another host, between a line for all hosts and the host's section.
foreign_section_example :
    load_for_host environment (codes "mine") (codes "config") true true (
      some (
        codes "User me"
        ∷ codes "Host other*"
        ∷ codes "User you"
        ∷ codes "Host m*"
        ∷ codes "Port 6"
        ∷ []))
    ≡ load_for_host environment
        (codes "mine")
        (codes "config")
        true
        true
        (some (codes "User me" ∷ codes "Host m*" ∷ codes "Port 6" ∷ []))
unfolding is_host_line section_matches cleaned trim drop_space is_space words words_from lower
    to_lower break_first host_matches match_glob glob_loop glob_round only_stars
foreign_section_example =
    foreign_section environment (codes "mine") (codes "config") true true (codes "User me" ∷ [])
      (codes "Host other*") (codes "User you" ∷ []) (codes "Host m*") (codes "Port 6" ∷ []) refl
      refl (refl, tt) refl
