-- ===== src/Reconnection/Attempts.antt =====
-- The attempts of `AttemptReconnect`.
use undying_terminal.Prelude.{
  ℕ, zero, suc, ◌+◌, ◌-◌, ◌*◌, ◌≤◌, ◌<◌, ◌≡◌, ◌⊎◌, refl, Bool, true, false, ltb, if◌then◌else◌,
  Bool-cases, inl, inr, arith,
}
use undying_terminal.Reconnection.{
  max_retries, max_delay_ms, delay_of, Attempted, attempt_loop, attempt_reconnect,
}

delay_bound : (n : ℕ) → delay_of n ≤ max_delay_ms
unfolding delay_of
delay_bound n = ground arith

wait_bound :
    (n slept : ℕ)
    → ltb n max_retries ≡ true
    → slept ≤ (max_retries - suc n) * max_delay_ms
    → (if ltb 0 n then delay_of n else 0) + slept ≤ (max_retries - n) * max_delay_ms
wait_bound n slept few h = elim (Bool-cases (ltb 0 n)) [
  | inl y ↦ rw y (ground (arith, delay_bound n))
  | inr z ↦ rw z (ground arith)
]

module _ (connects : ℕ → Bool) where
  -- The first attempt that succeeds ends the loop; or all fail, and none is left.
  abbrev pub Tried : ℕ → Attempted → Type 0
  Tried n a =
      ((i : ℕ) × (n ≤ i)
        × (i < max_retries)
        × (connects i ≡ true)
        × ((j : ℕ) → n ≤ j → j < i → connects j ≡ false)
        × (a.connected ≡ true)
        × (a.retry_count ≡ suc i))
      ⊎ (((j : ℕ) → n ≤ j → j < max_retries → connects j ≡ false)
          × (a.connected ≡ false)
          × (max_retries ≤ a.retry_count))

  first :
      (n : ℕ) (s : ℕ)
      → n < max_retries
      → connects n ≡ true
      → Tried n (record { retry_count = suc n; connected = true; slept = s })
  first n s few y = inl (n, omega arith, few, y, (λ j h k. absurd (omega arith)), refl, refl)

  from_here :
      (n m : ℕ)
      → connects n ≡ false
      → ((j : ℕ) → suc n ≤ j → j < m → connects j ≡ false)
      → (j : ℕ) → n ≤ j
      → j < m
      → connects j ≡ false
  from_here n m f more j h k = elim (Bool-cases (ltb n j)) [
    | inl y ↦ more j (ground arith) k
    | inr y ↦ let same : n ≡ j = ground arith in rw (← same) f
  ]

  later :
      (n : ℕ) (s : ℕ) (a : Attempted)
      → connects n ≡ false
      → Tried (suc n) a
      → Tried n (record a { slept = s })
  later n s a f (inl (i, h, few, y, before, c, r)) =
      inl (i, omega arith, few, y, from_here n i f before, c, r)
  later n s a f (inr (none_left, c, r)) = inr (from_here n max_retries f none_left, c, r)

  attempt_loop-Tried :
      (rounds n : ℕ) → max_retries < n + rounds → Tried n (attempt_loop connects rounds n)
  unfolding attempt_loop
  attempt_loop-Tried zero n enough = inr ((λ j h k. absurd (omega arith)), refl, omega arith)
  attempt_loop-Tried (suc rounds) n enough = elim (Bool-cases (ltb n max_retries)) [
    | inr k ↦ rw k (inr ((λ j h k'. absurd (ground arith)), refl, ground arith))
    | inl k ↦ elim (Bool-cases (connects n)) [
      | inl y ↦ rw (k, y) (first n 0 (ground arith) y)
      | inr f ↦
          rw (k, f)
            (later n 0 (attempt_loop connects rounds (suc n)) f
              (attempt_loop-Tried rounds (suc n) (omega arith)))
    ]
  ]

  attempt_loop-slept :
      (rounds n : ℕ) → (attempt_loop connects rounds n).slept ≤ (max_retries - n) * max_delay_ms
  unfolding attempt_loop
  attempt_loop-slept zero n = omega arith
  attempt_loop-slept (suc rounds) n = elim (Bool-cases (ltb n max_retries)) [
    | inr k ↦ rw k (omega arith)
    | inl k ↦ elim (Bool-cases (connects n)) [
      | inl y ↦ rw (k, y) (wait_bound n 0 k (omega arith))
      | inr f ↦
          rw (k, f)
            (wait_bound n (attempt_loop connects rounds (suc n)).slept k
              (attempt_loop-slept rounds (suc n)))
    ]
  ]

-- AttemptReconnect ends: it returns true in the first attempt that connects, if fewer than five have been
-- made in all, and else false, with no attempt left; it sleeps at most two seconds for each attempt that
-- was left.
pub attempt_reconnect_lem :
    (connects : ℕ → Bool) (n : ℕ)
    → Tried connects n (attempt_reconnect connects n)
      × ((attempt_reconnect connects n).slept ≤ (max_retries - n) * max_delay_ms)
unfolding attempt_reconnect
attempt_reconnect_lem connects n = (
  attempt_loop-Tried connects (suc (max_retries - n)) n (omega arith),
  attempt_loop-slept connects (suc (max_retries - n)) n,
)
