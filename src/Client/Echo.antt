-- ===== src/Client/Echo.antt =====
-- `PredictiveEcho` of src/ut/main.cpp, which shows what is typed before the server echoes it. What is written
-- to the console comes out; an output of no bytes is not written.
pub mod Invariant
pub mod Erasing
use undying_terminal.Prelude.{
  ℕ, suc, ◌-◌, Bool, true, false, not, ◌&&◌, ◌||◌, List, [], ◌∷◌, ◌++◌, ltb, leb, ◌==◌,
  if◌then◌else◌, length, drop, Bytes,
}
use undying_terminal.Text.{is_empty}

pub record PredictiveEcho : Type 0 where
  pub enabled : Bool
  pub pending : Bytes

abbrev pub max_pending : ℕ
max_pending = 4096

abbrev pub new_echo : Bool → PredictiveEcho
new_echo enabled = record { enabled = enabled; pending = [] }

-- `pending_.pop_back()`
unfoldable pub pop_back : Bytes → Bytes
pop_back [] = []
pop_back (c ∷ []) = []
pop_back (c ∷ d ∷ s) = c ∷ pop_back (d ∷ s)

abbrev pub erases : ℕ → Bool
erases c = (c == 8) || (c == 127)

abbrev pub is_printable : ℕ → Bool
is_printable c = leb 32 c && leb c 126

-- A round of the loop of `OnLocalInput`, on `pending_` and `display`.
unfoldable pub type_byte : ℕ → Bytes × Bytes → Bytes × Bytes
type_byte c (pending, display) =
    if erases c
    then if is_empty pending
      then (pending, display)
      else (pop_back pending, display ++ 8 ∷ 32 ∷ 8 ∷ [])
    else if is_printable c
    then (pending ++ c ∷ [], display ++ c ∷ [])
    else (pending, display)

unfoldable pub type_bytes : Bytes → Bytes × Bytes → Bytes × Bytes
type_bytes [] s = s
type_bytes (c ∷ input) s = type_bytes input (type_byte c s)

-- `pending_.erase(0, pending_.size() - 4096)`
abbrev pub newest : Bytes → Bytes
newest pending =
    if ltb max_pending (length pending)
    then drop (length pending - max_pending) pending
    else pending

abbrev pub local_typed : PredictiveEcho → Bytes × Bytes → PredictiveEcho × Bytes
local_typed e (pending, display) = (record e { pending = newest pending }, display)

-- `OnLocalInput`: the echo after it, and what is displayed.
unfoldable pub on_local_input : Bytes → PredictiveEcho → PredictiveEcho × Bytes
on_local_input input e =
    if not e.enabled || is_empty input
    then (e, [])
    else local_typed e (type_bytes input (e.pending, []))

-- `match`
unfoldable pub common : Bytes → Bytes → ℕ
common (a ∷ s) (b ∷ t) = let more = suc (common s t) in if a == b then more else 0
common _ _ = 0

-- `OnRemoteOutput`: the echo after it, and what is left of the output.
unfoldable pub on_remote_output : Bytes → PredictiveEcho → PredictiveEcho × Bytes
on_remote_output output e =
    if not e.enabled || is_empty output
    then (e, output)
    else let n = common output e.pending in
      if ltb 0 n
      then (record e { pending = drop n e.pending }, drop n output)
      else (record e { pending = [] }, output)

-- What happens to an echo, in turn: the keyboard gives bytes, or the server sends some.
pub data EchoEvent : Type 0 where
  types sends : Bytes → EchoEvent

abbrev pub step : EchoEvent → PredictiveEcho → PredictiveEcho × Bytes
step (types input) e = on_local_input input e
step (sends output) e = on_remote_output output e

-- The echo after all, and what the console has been given.
unfoldable pub run : List EchoEvent → PredictiveEcho → PredictiveEcho × Bytes
run [] e = (e, [])
run (v ∷ vs) e = let (e', shown) = step v e in let (e'', later) = run vs e' in (e'', shown ++ later)
