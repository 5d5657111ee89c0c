-- ===== src/Client/Echo/Invariant.antt =====
-- What the predictive echo keeps.
use undying_terminal.Prelude.{
  ℕ, zero, suc, ◌-◌, ◌≤◌, ◌≡◌, true, not, ◌||◌, List, [], ◌∷◌, ◌++◌, ltb, length, length-drop, drop,
  Bytes, Bool-cases, inl, inr, arith,
}
use undying_terminal.Text.{is_empty}
use undying_terminal.Client.Echo.{
  PredictiveEcho, max_pending, pop_back, erases, is_printable, type_byte, type_bytes, newest,
  on_local_input, common, on_remote_output, EchoEvent, types, sends, run,
}

-- Only what can be printed is expected back.
abbrev pub AllPrintable : Bytes → Type 0
AllPrintable [] = Unit
AllPrintable (c ∷ s) = (is_printable c ≡ true) × AllPrintable s

-- At most 4096 bytes are expected back, all of them printable.
pub record IsBounded (e : PredictiveEcho) : Type 0 where
  pub few : length e.pending ≤ max_pending
  pub printable : AllPrintable e.pending

AllPrintable-append : (s t : Bytes) → AllPrintable s → AllPrintable t → AllPrintable (s ++ t)
AllPrintable-append [] t h k = k
AllPrintable-append (c ∷ s) t h k = (h.0, AllPrintable-append s t h.1 k)

AllPrintable-drop : (n : ℕ) (s : Bytes) → AllPrintable s → AllPrintable (drop n s)
AllPrintable-drop zero s h = h
AllPrintable-drop (suc n) [] h = tt
AllPrintable-drop (suc n) (c ∷ s) h = AllPrintable-drop n s h.1

AllPrintable-pop_back : (s : Bytes) → AllPrintable s → AllPrintable (pop_back s)
unfolding pop_back
AllPrintable-pop_back [] h = tt
AllPrintable-pop_back (c ∷ []) h = tt
AllPrintable-pop_back (c ∷ d ∷ s) h = (h.0, AllPrintable-pop_back (d ∷ s) h.1)

type_byte-AllPrintable :
    (c : ℕ) (s : Bytes × Bytes) → AllPrintable s.0 → AllPrintable (type_byte c s).0
unfolding type_byte
type_byte-AllPrintable c (pending, display) h = elim (Bool-cases (erases c)) [
  | inl y ↦ elim (Bool-cases (is_empty pending)) [
    | inl k ↦ rw (y, k) h
    | inr k ↦ rw (y, k) (AllPrintable-pop_back pending h)
  ]
  | inr n ↦ elim (Bool-cases (is_printable c)) [
    | inl y ↦ rw (n, y) (AllPrintable-append pending (c ∷ []) h (y, tt))
    | inr k ↦ rw (n, k) h
  ]
]

type_bytes-AllPrintable :
    (input : Bytes) (s : Bytes × Bytes) → AllPrintable s.0 → AllPrintable (type_bytes input s).0
unfolding type_bytes
type_bytes-AllPrintable [] s h = h
type_bytes-AllPrintable (c ∷ input) s h =
    type_bytes-AllPrintable input (type_byte c s) (type_byte-AllPrintable c s h)

newest-bounds :
    (s : Bytes) → AllPrintable s → (length (newest s) ≤ max_pending) × AllPrintable (newest s)
newest-bounds s h = elim (Bool-cases (ltb max_pending (length s))) [
  | inl y ↦ rw y (
    omega (arith, length-drop (length s - max_pending) s),
    AllPrintable-drop (length s - max_pending) s h,
  )
  | inr n ↦ rw n (ground arith, h)
]

on_local_input-IsBounded :
    (input : Bytes) (e : PredictiveEcho) → IsBounded e → IsBounded (on_local_input input e).0
unfolding on_local_input
on_local_input-IsBounded input e h = elim (Bool-cases (not e.enabled || is_empty input)) [
  | inl y ↦ simp y h
  | inr n ↦
      let (few, printable) =
        newest-bounds (type_bytes input (e.pending, [])).0
          (type_bytes-AllPrintable input (e.pending, []) h.printable) in
      simp n (record { few = few; printable = printable })
]

on_remote_output-IsBounded :
    (output : Bytes) (e : PredictiveEcho) → IsBounded e → IsBounded (on_remote_output output e).0
unfolding on_remote_output
on_remote_output-IsBounded output e h = elim (Bool-cases (not e.enabled || is_empty output)) [
  | inl y ↦ simp y h
  | inr n ↦ elim (Bool-cases (ltb 0 (common output e.pending))) [
    | inl y ↦
        simp (n, y)
          (record {
            few = omega (arith, h.few, length-drop (common output e.pending) e.pending);
            printable = AllPrintable-drop (common output e.pending) e.pending h.printable;
          })
    | inr k ↦ simp (n, k) (record { few = omega arith; printable = tt })
  ]
]

-- After any input and output, in any order, at most 4096 bytes are expected back, all of them printable.
pub run-IsBounded :
    (vs : List EchoEvent) (e : PredictiveEcho) → IsBounded e → IsBounded (run vs e).0
unfolding run
run-IsBounded [] e h = h
run-IsBounded (types input ∷ vs) e h =
    run-IsBounded vs (on_local_input input e).0 (on_local_input-IsBounded input e h)
run-IsBounded (sends output ∷ vs) e h =
    run-IsBounded vs (on_remote_output output e).0 (on_remote_output-IsBounded output e h)
