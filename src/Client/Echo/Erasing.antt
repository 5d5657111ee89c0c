-- ===== src/Client/Echo/Erasing.antt =====
-- The predictive echo against a server that echoes what is typed.
use undying_terminal.Prelude.{
  ℕ, ◌≤◌, ◌≡◌, refl, ap, ◌∙◌, true, false, List, [], ◌∷◌, ◌++◌, ltb, length, drop-append_length,
  drop-length, append_assoc, append-nil, Bytes, ==_iff, arith,
}
use undying_terminal.Client.Echo.{
  PredictiveEcho, max_pending, erases, is_printable, type_byte, type_bytes, on_local_input, common,
  on_remote_output, EchoEvent, types, sends, run,
}
use undying_terminal.Client.Echo.Invariant.{AllPrintable}

-- The server echoes what is typed, in order and in pieces of any size, and may send more of its own where
-- nothing typed is left to echo. The index is what has been typed and not echoed yet.
pub data Echoing : Bytes → List EchoEvent → Type 0 where
  ends : (p : Bytes) → Echoing p []
  typing :
      (p s : Bytes) (vs : List EchoEvent)
      → AllPrintable s
      → length (p ++ s) ≤ max_pending
      → Echoing (p ++ s) vs
      → Echoing p (types s ∷ vs)
  echoing :
      (p s rest : Bytes) (vs : List EchoEvent)
      → p ≡ s ++ rest
      → Echoing rest vs
      → Echoing p (sends s ∷ vs)
  answering :
      (p o t : Bytes) (vs : List EchoEvent) → o ≡ p ++ t → Echoing [] vs → Echoing p (sends o ∷ vs)

-- What a user expects to see: each typed byte once, and what the server sends beyond the echo.
abbrev pub expected : {p : Bytes} {vs : List EchoEvent} → Echoing p vs → Bytes
expected (ends p) = []
expected (typing p s vs printable few later) = s ++ expected later
expected (echoing p s rest vs e later) = expected later
expected (answering p o t vs e later) = t ++ expected later

abbrev pub waiting : Bytes → PredictiveEcho
waiting p = record { enabled = true; pending = p }

printable_typed : (c : ℕ) → is_printable c ≡ true → erases c ≡ false
printable_typed c h = ground arith

type_bytes-printable :
    (s pending display : Bytes)
    → AllPrintable s
    → type_bytes s (pending, display) ≡ (pending ++ s, display ++ s)
unfolding type_bytes type_byte
type_bytes-printable [] pending display h = rw (append-nil pending, append-nil display)
type_bytes-printable (c ∷ s) pending display h =
    rw (printable_typed c h.0, h.0)
      (type_bytes-printable s (pending ++ c ∷ []) (display ++ c ∷ []) h.1
        ∙ rw (append_assoc pending (c ∷ []) s, append_assoc display (c ∷ []) s))

typing-shown :
    (p s : Bytes)
    → AllPrintable s
    → length (p ++ s) ≤ max_pending
    → on_local_input s (waiting p) ≡ (waiting (p ++ s), s)
unfolding on_local_input
typing-shown p [] h few = rw (append-nil p)
typing-shown p (c ∷ s) h few =
    let small : ltb max_pending (length (p ++ c ∷ s)) ≡ false = ground arith in
    rw (type_bytes-printable (c ∷ s) p [] h, small)

common-append : (s t : Bytes) → common s (s ++ t) ≡ length s
unfolding common
common-append [] t = refl
common-append (c ∷ s) t = rw ((==_iff c c).1 refl, common-append s t)

common-whole : (s t : Bytes) → common (s ++ t) s ≡ length s
unfolding common
common-whole [] [] = refl
common-whole [] (c ∷ t) = refl
common-whole (c ∷ s) t = rw ((==_iff c c).1 refl, common-whole s t)

echoing-shown : (s rest : Bytes) → on_remote_output s (waiting (s ++ rest)) ≡ (waiting rest, [])
unfolding on_remote_output
echoing-shown [] rest = refl
echoing-shown (c ∷ s) rest =
    let some_bytes : ltb 0 (length (c ∷ s)) ≡ true = ground arith in
    rw (
      common-append (c ∷ s) rest,
      some_bytes,
      drop-append_length (length s) s rest refl,
      drop-length s,
    )

answering-shown : (p t : Bytes) → on_remote_output (p ++ t) (waiting p) ≡ (waiting [], t)
unfolding on_remote_output
answering-shown [] [] = refl
answering-shown [] (c ∷ t) = unfold common in refl
answering-shown (c ∷ p) t =
    let some_bytes : ltb 0 (length (c ∷ p)) ≡ true = ground arith in
    rw (common-whole (c ∷ p) t, some_bytes, drop-append_length (length p) p t refl, drop-length p)

-- With the predictive echo, a user who types printable bytes only (32 to 126: no Enter, Tab, backspace or byte of
-- UTF-8) and a server that echoes them, in pieces and at any time, the console shows each byte that is typed
-- once, when it is typed, and what the server sends beyond the echo, in order, as long as at most 4096 bytes wait
-- for their echo.
pub run-shows :
    (p : Bytes) (vs : List EchoEvent) (e : Echoing p vs) → (run vs (waiting p)).1 ≡ expected e
unfolding run
run-shows p [] (ends p') = refl
run-shows p (types s ∷ vs) (typing p' s' vs' printable few later) =
    rw (typing-shown p s printable few) (ap (◌++◌ s) (run-shows (p ++ s) vs later))
run-shows p (sends s ∷ vs) (echoing p' s' rest vs' e later) =
    rw (e, echoing-shown s rest) (run-shows rest vs later)
run-shows p (sends o ∷ vs) (answering p' o' t vs' e later) =
    rw (e, answering-shown p t) (ap (◌++◌ t) (run-shows [] vs later))
