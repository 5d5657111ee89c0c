-- ===== src/Registry/Refinement.antt =====
-- The registry against a partial function from ids to sessions.
use mathlib.Core.Path.{fun_ext}
use undying_terminal.Prelude.{
  ℕ, ◌+◌, ◌*◌, ◌^◌, leb, ◌≤◌, ◌↔◌, arith, true, false, ◌≡◌, refl, ◌∙◌, ap, Bool, not, Option, none,
  some, List, [], ◌∷◌, if◌then◌else◌, Bytes, Bool-cases, inl, inr,
}
use undying_terminal.Prelude.Int.{ℤ, pos, negsuc}
use undying_terminal.Table.{bytes_key, find, same_bytes, same_bytes_sound}
use undying_terminal.Table.Laws.{
  IsMap, changed, passing, find-put, find-erase, find-modify, find-retain, put-IsMap, erase-IsMap,
  modify-IsMap, retain-IsMap,
}
use undying_terminal.Registry.{
  ClientSession, ClientRegistry, registered, session_or_new, register_terminal, unregister_terminal,
  store_connection, update_last_seen, mark_active, is_stale, cleanup_stale,
}

-- The calls that change the registry, with the time at which each one runs.
pub data Call (C : Type 0) : Type 0 where
  registers : ℕ → Bytes → Bytes → ℕ → Call C
  unregisters : Bytes → Call C
  stores : Bytes → C → Call C
  sees : ℕ → Bytes → Call C
  marks : Bytes → Bool → Call C
  cleans : ℕ → ℤ → Call C

-- What a client id stands for.
abbrev pub Sessions : Type 0 → Type 0
Sessions C = Bytes → Option (ClientSession C)

module _ {C : Type 0} where
  unfoldable pub run : Call C → ClientRegistry C → ClientRegistry C
  run (registers now id passkey handle) r = register_terminal now id passkey handle r
  run (unregisters id) r = unregister_terminal id r
  run (stores id c) r = store_connection id c r
  run (sees now id) r = update_last_seen now id r
  run (marks id active) r = mark_active id active r
  run (cleans now timeout) r = cleanup_stale now timeout r

  abbrev pub update :
      Bytes → (Option (ClientSession C) → Option (ClientSession C)) → Sessions C → Sessions C
  update id f v j = if same_bytes id j then f (v j) else v j

  -- The connection of an id, which stays when its terminal registers again.
  abbrev pub kept : Option (ClientSession C) → Option C
  kept none = none
  kept (some s) = s.connection

  -- Whether a cleaning at this time forgets a session: it is inactive, and more whole seconds than these
  -- have gone since it was last seen.
  abbrev pub forgets : ℕ → ℤ → ClientSession C → Bool
  forgets now (pos timeout) s =
      if s.active then false else leb (s.last_seen + (timeout + 1) * 10 ^ 9) now
  forgets now (negsuc n) s = if s.active then false else true

  -- The same calls on the partial function: each changes the session of its id, or forgets sessions.
  abbrev pub apply : Call C → Sessions C → Sessions C
  apply (registers now id passkey handle) v =
      update id
        (λ s. some (record {
          terminal_handle = handle;
          passkey = passkey;
          connection = kept s;
          last_seen = now;
          active = true;
        }))
        v
  apply (unregisters id) v = update id (λ s. none) v
  apply (stores id c) v = update id (changed (λ s. record s { connection = some c })) v
  apply (sees now id) v = update id (changed (λ s. record s { last_seen = now })) v
  apply (marks id active) v = update id (changed (λ s. record s { active = active })) v
  apply (cleans now timeout) v = λ j. passing (λ s. not (forgets now timeout s)) (v j)

  unfoldable pub run_all : List (Call C) → ClientRegistry C → ClientRegistry C
  run_all [] r = r
  run_all (c ∷ cs) r = run_all cs (run c r)

  abbrev pub apply_all : List (Call C) → Sessions C → Sessions C
  apply_all [] v = v
  apply_all (c ∷ cs) v = apply_all cs (apply c v)

  abbrev pub view : ClientRegistry C → Sessions C
  view r id = find id r

  is_stale_lem :
      (now timeout : ℕ) (s : ClientSession C)
      → (is_stale now (pos timeout) s ≡ true)
        ↔ ((s.active ≡ false) × (s.last_seen + (timeout + 1) * 10 ^ 9 ≤ now))
  unfolding is_stale
  is_stale_lem now timeout s = elim (Bool-cases s.active) [
    | inl y ↦ rw y (ground arith)
    | inr n ↦ rw n (ground arith)
  ]

  is_stale-forgets :
      (now : ℕ) (timeout : ℤ) (s : ClientSession C) → is_stale now timeout s ≡ forgets now timeout s
  unfolding is_stale
  is_stale-forgets now (pos n) s = elim (Bool-cases s.active) [
    | inl y ↦ rw y refl
    | inr m ↦ rw m (ground arith)
  ]
  is_stale-forgets now (negsuc n) s = elim (Bool-cases s.active) [
    | inl y ↦ rw y refl
    | inr m ↦ rw m (ground arith)
  ]

  registered-kept :
      (now handle : ℕ) (passkey : Bytes) (o : Option (ClientSession C))
      → registered passkey handle now (session_or_new o) ≡ record {
        terminal_handle = handle;
        passkey = passkey;
        connection = kept o;
        last_seen = now;
        active = true;
      }
  registered-kept now handle passkey none = refl
  registered-kept now handle passkey (some s) = refl

  pub run-IsMap : (c : Call C) (r : ClientRegistry C) → IsMap r → IsMap (run c r)
  unfolding run register_terminal unregister_terminal store_connection update_last_seen mark_active
      cleanup_stale
  run-IsMap (registers now id passkey handle) r h = put-IsMap _ _ r h
  run-IsMap (unregisters id) r h = erase-IsMap _ r h
  run-IsMap (stores id c) r h = modify-IsMap _ _ r h
  run-IsMap (sees now id) r h = modify-IsMap _ _ r h
  run-IsMap (marks id active) r h = modify-IsMap _ _ r h
  run-IsMap (cleans now timeout) r h = retain-IsMap _ r h

  pub run-view :
      (c : Call C) (r : ClientRegistry C) (j : Bytes)
      → IsMap r
      → view (run c r) j ≡ apply c (view r) j
  unfolding run register_terminal unregister_terminal store_connection update_last_seen mark_active
      cleanup_stale
  run-view (registers now id passkey handle) r j h = elim (Bool-cases (same_bytes id j)) [
    | inl y ↦
        rw
          (
            find-put j id (registered passkey handle now (session_or_new (find id r))) r,
            y,
            same_bytes_sound id j y,
          )
          (ap some (registered-kept now handle passkey (find j r)))
    | inr n ↦ rw (find-put j id (registered passkey handle now (session_or_new (find id r))) r, n)
  ]
  run-view (unregisters id) r j h = find-erase j id r
  run-view (stores id c) r j h = find-modify j id _ r
  run-view (sees now id) r j h = find-modify j id _ r
  run-view (marks id active) r j h = find-modify j id _ r
  run-view (cleans now timeout) r j h =
      find-retain j _ r h
      ∙ ap (λ (test : ClientSession C → Bool). passing test (find j r))
          (fun_ext (λ s. ap not (is_stale-forgets now timeout s)))

  -- After any calls on a registry without double entries, an id stands for what the same calls on the
  -- partial function give, and there are still no double entries. There, registering sets the passkey, the
  -- time and the active mark of the id and keeps the connection it has; cleaning forgets exactly the inactive
  -- sessions that were last seen longer ago than the timeout.
  pub run_all-view :
      (cs : List (Call C)) (r : ClientRegistry C)
      → IsMap r
      → IsMap (run_all cs r) × ((id : Bytes) → view (run_all cs r) id ≡ apply_all cs (view r) id)
  unfolding run_all
  run_all-view [] r h = (h, λ id. refl)
  run_all-view (c ∷ cs) r h =
      let (m, e) = run_all-view cs (run c r) (run-IsMap c r h) in
      (m, λ id. e id ∙ ap (λ (v : Sessions C). apply_all cs v id) (fun_ext (λ j. run-view c r j h)))

  -- `CleanupStale` with a timeout of zero or more seconds forgets, of the sessions of a registry without
  -- double entries, exactly those that are inactive and were last seen more than so many whole seconds ago.
  pub cleanup_stale_lem :
      (now timeout : ℕ) (id : Bytes) (s : ClientSession C) (r : ClientRegistry C)
      → IsMap r
      → find id r ≡ some s
      → (find id (cleanup_stale now (pos timeout) r) ≡ none)
        ↔ ((s.active ≡ false) × (s.last_seen + (timeout + 1) * 10 ^ 9 ≤ now))
  unfolding cleanup_stale
  cleanup_stale_lem now timeout id s r h e =
      let left = find-retain id (λ s. not (is_stale now (pos timeout) s)) r h in
      let stale = is_stale_lem now timeout s in
      elim (Bool-cases (is_stale now (pos timeout) s)) [
        | inl y ↦ rw (left, e, y) (λ _. stale.0 y, λ _. refl)
        | inr n ↦ rw (left, e, n) (λ gone. cc, λ old. cc (n, stale.1 old))
      ]
