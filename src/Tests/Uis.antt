-- ===== src/Tests/Uis.antt =====
-- Runs of the user interface.
use undying_terminal.Prelude.{◌≡◌, Bool, true, some, none, List, [], ◌∷◌, Bytes}
use undying_terminal.Text.{codes}
use undying_terminal.Client.Ui.{Process, Answers, new_ui, run_ui}
use undying_terminal.Client.Ui.Counting.{count, closed, opened}
use undying_terminal.Client.Ui.Handles.{run_ui_handles}

abbrev silent : Answers
silent = record { created = none; active = true }

abbrev with_process : Process → Answers
with_process p = record { created = some p; active = true }

abbrev lines : List (Bytes × Answers)
lines =
    (codes "add a host 2022 id key", silent)
    ∷ (codes "start a", with_process (record { process = 7; thread = 8 }))
    ∷ (codes "stop a", silent)
    ∷ (codes "start a", with_process (record { process = 7; thread = 9 }))
    ∷ (codes "quit", silent)
    ∷ []

abbrev is_active : Process → Bool
is_active p = true

run_ui_handles_example :
    count 7 (closed (run_ui (codes "ut") is_active lines new_ui))
    ≡ count 7 (opened (run_ui (codes "ut") is_active lines new_ui))
run_ui_handles_example = run_ui_handles 7 (codes "ut") is_active lines
