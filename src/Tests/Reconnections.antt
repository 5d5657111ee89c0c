-- ===== src/Tests/Reconnections.antt =====
-- Runs of the reconnection manager and of the keepalive.
use undying_terminal.Prelude.{ℕ, ◌-◌, ◌*◌, ◌≤◌, ◌≡◌, refl, Bool, true, false, List, [], ◌∷◌, ◌==◌}
use undying_terminal.Reconnection.{
  Keepalive, max_retries, max_delay_ms, attempt_loop, attempt_reconnect, delay_of, start, stop,
  reset, beats,
}
use undying_terminal.Reconnection.Attempts.{Tried, attempt_reconnect_lem}
use undying_terminal.Reconnection.Beats.{three_missed, beats_lem}

-- The third attempt connects.
abbrev connects : ℕ → Bool
connects n = n == 2

attempt_reconnect_lem_example :
    Tried connects 0 (attempt_reconnect connects 0)
    × ((attempt_reconnect connects 0).slept ≤ (max_retries - 0) * max_delay_ms)
attempt_reconnect_lem_example = attempt_reconnect_lem connects 0

slept_600 : (attempt_reconnect connects 0).slept ≡ 600
unfolding attempt_reconnect attempt_loop delay_of
slept_600 = refl

abbrev outage : List Bool
outage = true ∷ false ∷ false ∷ true ∷ false ∷ false ∷ false ∷ true ∷ []

abbrev given_up : Keepalive
given_up = record { running = true; connection_dead = true; missed_count = 4 }

beats_lem_example :
    ((beats outage (start (stop given_up))).connection_dead ≡ three_missed outage)
    × ((beats outage (reset given_up)).connection_dead ≡ three_missed outage)
beats_lem_example = beats_lem given_up outage refl
