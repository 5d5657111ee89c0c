-- ===== src/Client/Ui.antt =====
-- `RunBuiltInUi` of src/ut/main.cpp: profiles and the sessions that run for them. What is printed is left out;
-- the calls of Windows are effects, with their results as arguments.
pub mod Counting
pub mod Handles
use undying_terminal.Prelude.{
  ℕ, Bool, true, false, not, ◌&&◌, ◌||◌, Option, none, some, List, [], ◌∷◌, ◌++◌, ◌==◌,
  if◌then◌else◌, Bytes,
}
use undying_terminal.Prelude.Int.{ℤ, pos}
use undying_terminal.Text.{codes, is_empty}
use undying_terminal.Text.Decimal.{show}
use undying_terminal.Text.Stream.{Stream, stream_of, get_word, get_int}
use undying_terminal.Table.{Table, bytes_key, same_bytes, find, put, erase, modify}
use undying_terminal.Client.Quoting.{quote_windows_arg}

pub record UiSessionProfile : Type 0 where
  pub name : Bytes
  pub host : Bytes
  pub port : ℤ
  pub client_id : Bytes
  pub passkey : Bytes
  pub tunnel : Bytes
  pub tunnel_only : Bool
  pub noexit : Bool
  pub predictive_echo : Bool

-- The two handles of a `PROCESS_INFORMATION`.
pub record Process : Type 0 where
  pub process : ℕ
  pub thread : ℕ

pub record Ui : Type 0 where
  pub profiles : Table Bytes UiSessionProfile
  pub running : Table Bytes Process

abbrev pub new_ui : Ui
new_ui = record { profiles = []; running = [] }

-- What the calls of Windows answer: the process that is created, if it is, and whether a process is still
-- active or cannot be asked.
pub record Answers : Type 0 where
  pub created : Option Process
  pub active : Bool

pub data Effect : Type 0 where
  creates : Bytes → Process → Effect
  terminates closes : ℕ → Effect

abbrev pub flag_text : Bool → Bytes → Bytes
flag_text true s = s
flag_text false s = []

-- The command line of `StartUiSessionProcess`.
unfoldable pub command_line : Bytes → UiSessionProfile → Bytes
command_line exe_path p =
    quote_windows_arg exe_path
    ++ (codes " --connect "
        ++ (quote_windows_arg p.host
            ++ (codes " "
                ++ (show p.port
                    ++ (codes " "
                        ++ (quote_windows_arg p.client_id
                            ++ (codes " --key "
                                ++ (quote_windows_arg p.passkey
                                    ++ (flag_text (not (is_empty p.tunnel))
                                          (codes " --tunnel " ++ quote_windows_arg p.tunnel)
                                        ++ (flag_text p.tunnel_only (codes " --tunnel-only")
                                            ++ (flag_text p.noexit (codes " --noexit")
                                                ++ flag_text p.predictive_echo
                                                    (codes " --predictive-echo"))))))))))))

-- The state after a line, the effects in order, and whether the loop goes on.
abbrev pub Turn : Type 0
Turn = Ui × List Effect × Bool

abbrev pub stays : Ui → Turn
stays u = (u, [], true)

abbrev pub added : Ui → UiSessionProfile → Turn
added u p =
    if is_empty p.name || is_empty p.host || is_empty p.client_id || is_empty p.passkey
    then stays u
    else (record u { profiles = put p.name p u.profiles }, [], true)

-- `add`
unfoldable pub add_profile : Stream → Ui → Turn
add_profile s u =
    let (name, s1) = get_word s in
    let (host, s2) = get_word s1 in
    let (port, s3) = get_int (pos 2022) s2 in
    let (client_id, s4) = get_word s3 in
    let (passkey, s5) = get_word s4 in
    added u (record {
      name = name;
      host = host;
      port = port;
      client_id = client_id;
      passkey = passkey;
      tunnel = [];
      tunnel_only = false;
      noexit = false;
      predictive_echo = false;
    })

abbrev pub without_space : Bytes → Bytes
without_space [] = []
without_space (c ∷ s) = if c == 32 then s else c ∷ s

-- The rest of the line, which `std::getline` leaves empty where the stream has failed.
abbrev pub rest_of : Stream → Bytes
rest_of s = if s.good then s.rest else []

-- `set-tunnel`
unfoldable pub set_tunnel : Stream → Ui → Turn
set_tunnel s u =
    let (name, s') = get_word s in
    stays (record u {
      profiles = modify name (λ p. record p { tunnel = without_space (rest_of s') }) u.profiles;
    })

abbrev pub is_on : Bytes → Bool
is_on value =
    same_bytes value (codes "on") || same_bytes value (codes "true") || same_bytes value (codes "1")

abbrev pub with_flag : Bytes → Bool → UiSessionProfile → UiSessionProfile
with_flag flag enabled p =
    if same_bytes flag (codes "noexit")
    then record p { noexit = enabled }
    else if same_bytes flag (codes "tunnel-only")
    then record p { tunnel_only = enabled }
    else if same_bytes flag (codes "predictive-echo")
    then record p { predictive_echo = enabled }
    else p

-- `set-flag`
unfoldable pub set_flag : Stream → Ui → Turn
set_flag s u =
    let (name, s1) = get_word s in
    let (flag, s2) = get_word s1 in
    let (value, s3) = get_word s2 in
    stays (record u { profiles = modify name (with_flag flag (is_on value)) u.profiles })

abbrev pub created_as : Bytes → Bytes → Ui → Option Process → Turn
created_as command name u none = stays u
created_as command name u (some p) =
    (record u { running = put name p u.running }, creates command p ∷ closes p.thread ∷ [], true)

abbrev pub started : Bytes → Bytes → Answers → Ui → Option UiSessionProfile → Option Process → Turn
started exe_path name answers u none _ = stays u
started exe_path name answers u (some p) (some q) = stays u
started exe_path name answers u (some p) none =
    created_as (command_line exe_path p) name u answers.created

-- `start`
unfoldable pub start_session : Bytes → Stream → Answers → Ui → Turn
start_session exe_path s answers u =
    let (name, s') = get_word s in
    started exe_path name answers u (find name u.profiles) (find name u.running)

abbrev pub ends : Bool → Process → List Effect
ends active p =
    if active then terminates p.process ∷ closes p.process ∷ [] else closes p.process ∷ []

abbrev pub stopped : Bytes → Answers → Ui → Option Process → Turn
stopped name answers u none = stays u
stopped name answers u (some p) =
    (record u { running = erase name u.running }, ends answers.active p, true)

-- `stop`
unfoldable pub stop_session : Stream → Answers → Ui → Turn
stop_session s answers u =
    let (name, s') = get_word s in stopped name answers u (find name u.running)

abbrev pub removed : Bytes → Ui → Option Process → Turn
removed name u (some p) = stays u
removed name u none = stays (record u { profiles = erase name u.profiles })

-- `remove`
unfoldable pub remove_profile : Stream → Ui → Turn
remove_profile s u = let (name, s') = get_word s in removed name u (find name u.running)

abbrev pub dispatch : Bytes → Bytes → Stream → Answers → Ui → Turn
dispatch exe_path cmd s answers u =
    if same_bytes cmd (codes "add")
    then add_profile s u
    else if same_bytes cmd (codes "set-tunnel")
    then set_tunnel s u
    else if same_bytes cmd (codes "set-flag")
    then set_flag s u
    else if same_bytes cmd (codes "start")
    then start_session exe_path s answers u
    else if same_bytes cmd (codes "stop")
    then stop_session s answers u
    else if same_bytes cmd (codes "remove")
    then remove_profile s u
    else (u, [], not (same_bytes cmd (codes "quit") || same_bytes cmd (codes "exit")))

-- A round of the loop; `help`, `list` and unknown commands only print.
unfoldable pub ui_round : Bytes → Bytes → Answers → Ui → Turn
ui_round exe_path line answers u =
    if is_empty line
    then stays u
    else let (cmd, s) = get_word (stream_of line) in dispatch exe_path cmd s answers u

-- The loop behind `quit`, with what `GetExitCodeProcess` says of each process.
unfoldable pub end_all : (Process → Bool) → Table Bytes Process → List Effect
end_all active [] = []
end_all active ((name, p) ∷ t) = ends (active p) p ++ end_all active t

-- `RunBuiltInUi`: the lines, each with what Windows answers to it, up to `quit` or the end of the input.
unfoldable pub run_ui : Bytes → (Process → Bool) → List (Bytes × Answers) → Ui → List Effect
run_ui exe_path active [] u = end_all active u.running
run_ui exe_path active ((line, answers) ∷ lines) u =
    let (u', done, goes_on) = ui_round exe_path line answers u in
    let later = run_ui exe_path active lines u' in
    done ++ (if goes_on then later else end_all active u'.running)
