-- ===== src/Reconnection.antt =====
-- src/ut/ReconnectionManager.{hpp,cpp} and src/ut/Keepalive.{hpp,cpp}: attempts with growing delays, and a
-- connection that is dead after three beats without an answer. The callbacks' results come in.
pub mod Attempts
pub mod Beats
use undying_terminal.Prelude.{
  ℕ, zero, suc, ◌+◌, ◌-◌, ◌*◌, ◌^◌, ◌≤◌, ◌<◌, ◌≡◌, ◌↔◌, refl, Bool, true, false, not, List, [], ◌∷◌,
  ltb, leb, if◌then◌else◌, Bool-cases, inl, inr, arith,
}

abbrev pub max_retries : ℕ
max_retries = 5

abbrev pub base_delay_ms : ℕ
base_delay_ms = 100

abbrev pub max_delay_ms : ℕ
max_delay_ms = 2000

-- `delay` of a round.
unfoldable pub delay_of : ℕ → ℕ
delay_of retry_count =
    let delay = base_delay_ms * 2 ^ retry_count in
    if ltb max_delay_ms delay then max_delay_ms else delay

-- `retry_count_` behind the loop, what it returns, and the milliseconds it has slept.
pub record Attempted : Type 0 where
  pub retry_count : ℕ
  pub connected : Bool
  pub slept : ℕ

module _ (connects : ℕ → Bool) where
  abbrev pub sleeping : ℕ → Attempted → Attempted
  sleeping n a = record a { slept = (if ltb 0 n then delay_of n else 0) + a.slept }

  -- The loop, on as many rounds as are left; `connects` has what the callback returns in the round that
  -- begins with this `retry_count_`.
  unfoldable pub attempt_loop : ℕ → ℕ → Attempted
  attempt_loop zero n = record { retry_count = n; connected = false; slept = 0 }
  attempt_loop (suc rounds) n =
      let later = attempt_loop rounds (suc n) in
      if ltb n max_retries
      then sleeping n (
          if connects n then record { retry_count = suc n; connected = true; slept = 0 } else later)
      else record { retry_count = n; connected = false; slept = 0 }

  -- `AttemptReconnect` with a callback
  unfoldable pub attempt_reconnect : ℕ → Attempted
  attempt_reconnect n = attempt_loop (suc (max_retries - n)) n

-- `running_`, `connection_dead_` and `missed_count_`
pub record Keepalive : Type 0 where
  pub running : Bool
  pub connection_dead : Bool
  pub missed_count : ℕ

abbrev pub new_keepalive : Keepalive
new_keepalive = record { running = false; connection_dead = false; missed_count = 0 }

-- `Start`, `Stop` and `Reset`
unfoldable pub start : Keepalive → Keepalive
start k =
    if k.running then k else record { running = true; connection_dead = false; missed_count = 0 }

unfoldable pub stop : Keepalive → Keepalive
stop k = record k { running = false }

unfoldable pub reset : Keepalive → Keepalive
reset k = record k { connection_dead = false; missed_count = 0 }

-- A beat of the thread, with what the callback returns.
unfoldable pub beat : Bool → Keepalive → Keepalive
beat true k = record k { missed_count = 0 }
beat false k = record k {
  missed_count = suc k.missed_count;
  connection_dead = if leb 3 (suc k.missed_count) then true else k.connection_dead;
}

-- The thread of a keepalive that runs.
unfoldable pub beats : List Bool → Keepalive → Keepalive
beats [] k = k
beats (sent ∷ later) k = if k.running then beats later (beat sent k) else k
