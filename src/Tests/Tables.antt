-- ===== src/Tests/Tables.antt =====
-- The tables of the server at concrete entries.
use undying_terminal.Prelude.{
  ℕ, ◌≡◌, refl, ◌↔◌, ◌+◌, ◌*◌, ◌^◌, ◌≤◌, true, false, none, List, [], ◌∷◌, Bytes,
}
use undying_terminal.Prelude.Int.{pos}
use undying_terminal.Table.{bytes_key, find}
use undying_terminal.Table.Laws.{IsMap}
use undying_terminal.Registry.{ClientSession, ClientRegistry, cleanup_stale}
use undying_terminal.Registry.Refinement.{
  Call, registers, stores, marks, cleans, run_all, apply_all, view, run_all-view, cleanup_stale_lem,
}

abbrev quiet : ClientSession ℕ
quiet = record {
  terminal_handle = 4;
  passkey = 7 ∷ [];
  connection = none;
  last_seen = 5;
  active = false;
}

abbrev sessions : ClientRegistry ℕ
sessions = (1 ∷ [], quiet) ∷ []

abbrev calls : List (Call ℕ)
calls =
    registers 9 (2 ∷ []) (8 ∷ []) 6
    ∷ stores (2 ∷ []) 3
    ∷ marks (1 ∷ []) true
    ∷ cleans 100 (pos 1)
    ∷ []

run_all-view_example :
    IsMap (run_all calls sessions)
    × ((id : Bytes) → view (run_all calls sessions) id ≡ apply_all calls (view sessions) id)
unfolding find
run_all-view_example = run_all-view calls sessions (refl, tt)

cleanup_stale_lem_example :
    (find (1 ∷ []) (cleanup_stale (9 * 10 ^ 9) (pos 2) sessions) ≡ none)
    ↔ ((false ≡ false) × (5 + (2 + 1) * 10 ^ 9 ≤ 9 * 10 ^ 9))
unfolding find
cleanup_stale_lem_example = cleanup_stale_lem (9 * 10 ^ 9) 2 (1 ∷ []) quiet sessions (refl, tt) refl
