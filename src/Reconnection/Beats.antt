-- ===== src/Reconnection/Beats.antt =====
-- When `Keepalive` takes a connection for dead.
use undying_terminal.Prelude.{
  ℕ, suc, ◌≡◌, refl, Bool, true, false, List, [], ◌∷◌, leb, Bool-cases, inl, inr,
}
use undying_terminal.Reconnection.{Keepalive, start, stop, reset, beat, beats}

-- Three beats in a row without an answer.
abbrev pub three_missed : List Bool → Bool
three_missed [] = false
three_missed (true ∷ l) = three_missed l
three_missed (false ∷ []) = false
three_missed (false ∷ true ∷ l) = three_missed l
three_missed (false ∷ false ∷ []) = false
three_missed (false ∷ false ∷ true ∷ l) = three_missed l
three_missed (false ∷ false ∷ false ∷ l) = true

abbrev alive : ℕ → Keepalive
alive n = record { running = true; connection_dead = false; missed_count = n }

beats-dead :
    (l : List Bool) (n : ℕ)
    → (beats l
        (record { running = true; connection_dead = true; missed_count = n })).connection_dead
      ≡ true
unfolding beats beat
beats-dead [] n = refl
beats-dead (true ∷ l) n = beats-dead l 0
beats-dead (false ∷ l) n = elim (Bool-cases (leb 3 (suc n))) [
  | inl y ↦ rw y (beats-dead l (suc n))
  | inr k ↦ rw k (beats-dead l (suc n))
]

misses0 : (l : List Bool) → (beats l (alive 0)).connection_dead ≡ three_missed l
unfolding beats beat
misses0 [] = refl
misses0 (true ∷ l) = misses0 l
misses0 (false ∷ []) = refl
misses0 (false ∷ true ∷ l) = misses0 l
misses0 (false ∷ false ∷ []) = refl
misses0 (false ∷ false ∷ true ∷ l) = misses0 l
misses0 (false ∷ false ∷ false ∷ l) = beats-dead l 3

-- A keepalive that runs, and is stopped and started or is reset, and then beats: the connection is dead
-- exactly if three beats in a row went without an answer since; an answer that comes later does not undo
-- it.
pub beats_lem :
    (k : Keepalive) (l : List Bool)
    → k.running ≡ true
    → ((beats l (start (stop k))).connection_dead ≡ three_missed l)
      × ((beats l (reset k)).connection_dead ≡ three_missed l)
unfolding start stop reset
beats_lem k l running = (misses0 l, rw running (misses0 l))
