-- ===== src/Client/Ui/Counting.antt =====
-- The handles that effects open and close, and those that sessions hold.
use undying_terminal.Prelude.{
  ℕ, ◌+◌, ◌≡◌, refl, ap, none, some, List, [], ◌∷◌, ◌++◌, ◌==◌, if◌then◌else◌, Bytes, Bool-cases,
  inl, inr, arith,
}
use undying_terminal.Table.{Table, bytes_key, same_bytes, same_bytes_sound, find, put, erase}
use undying_terminal.Table.Laws.{IsMap}
use undying_terminal.Client.Ui.{Process, Effect, creates, terminates, closes}

abbrev pub count : ℕ → List ℕ → ℕ
count h [] = 0
count h (a ∷ s) = (if a == h then 1 else 0) + count h s

pub count-append : (h : ℕ) (s t : List ℕ) → count h (s ++ t) ≡ count h s + count h t
count-append h [] t = omega arith
count-append h (a ∷ s) t = omega (arith, count-append h s t)

-- The handles that the processes come with, and those that are closed.
abbrev pub opened : List Effect → List ℕ
opened [] = []
opened (creates command p ∷ es) = p.process ∷ p.thread ∷ opened es
opened (terminates h ∷ es) = opened es
opened (closes h ∷ es) = opened es

abbrev pub closed : List Effect → List ℕ
closed [] = []
closed (creates command p ∷ es) = closed es
closed (terminates h ∷ es) = closed es
closed (closes h ∷ es) = h ∷ closed es

pub opened-append : (s t : List Effect) → opened (s ++ t) ≡ opened s ++ opened t
opened-append [] t = refl
opened-append (creates command p ∷ s) t = ap (λ x. p.process ∷ p.thread ∷ x) (opened-append s t)
opened-append (terminates h ∷ s) t = opened-append s t
opened-append (closes h ∷ s) t = opened-append s t

pub closed-append : (s t : List Effect) → closed (s ++ t) ≡ closed s ++ closed t
closed-append [] t = refl
closed-append (creates command p ∷ s) t = closed-append s t
closed-append (terminates h ∷ s) t = closed-append s t
closed-append (closes h ∷ s) t = ap (◌∷◌ h) (closed-append s t)

-- The handles of the sessions that run.
abbrev pub held : Table Bytes Process → List ℕ
held [] = []
held ((name, p) ∷ t) = p.process ∷ held t

erase-nothing : (name : Bytes) (t : Table Bytes Process) → find name t ≡ none → erase name t ≡ t
unfolding find erase
erase-nothing name [] h = refl
erase-nothing name ((a, p) ∷ t) h = elim (Bool-cases (same_bytes a name)) [
  | inl y ↦ absurd (some≢none (simp y at h))
  | inr n ↦ rw (n, erase-nothing name t (simp n at h))
]
  where
    some≢none : {q : Process} → ¬ (some q ≡ none)
    some≢none e = cc

pub erase-held :
    (h : ℕ) (name : Bytes) (p : Process) (t : Table Bytes Process)
    → IsMap t
    → find name t ≡ some p
    → count h (held t) ≡ count h (p.process ∷ held (erase name t))
unfolding find erase
erase-held h name p [] m e = cc
erase-held h name p ((a, q) ∷ t) m e = elim (Bool-cases (same_bytes a name)) [
  | inl y ↦
      let same : q ≡ p = some-eq (simp y at e) in
      let gone : find name t ≡ none = rw (← same_bytes_sound a name y) m.0 in
      rw (y, erase-nothing name t gone, same)
  | inr n ↦ let rest = erase-held h name p t m.1 (simp n at e) in rw n (omega (arith, rest))
]
  where
    some-eq : {a b : Process} → some a ≡ some b → a ≡ b
    some-eq e = cc

pub put-nothing :
    (name : Bytes) (p : Process) (t : Table Bytes Process)
    → find name t ≡ none
    → put name p t ≡ (name, p) ∷ t
unfolding put
put-nothing name p t h = ap (◌∷◌ (name, p)) (erase-nothing name t h)
