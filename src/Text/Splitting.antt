-- ===== src/Text/Splitting.antt =====
-- The parts of a text that is joined from parts without the separator.
use undying_terminal.Prelude.{
  ℕ, ◌≡◌, ◌≢◌, refl, sym, ap, ◌∙◌, true, false, [], ◌∷◌, ◌++◌, append-nil, append_assoc, ◌==◌,
  ==_iff, Bytes, Bool-cases, inl, inr,
}
use undying_terminal.Text.{is_empty, contains, split, split_from}

-- No byte of the string is the given one.
abbrev pub Lacks : ℕ → Bytes → Type 0
Lacks c [] = Unit
Lacks c (a ∷ s) = ((a == c) ≡ false) × Lacks c s

pub Lacks-append : (c : ℕ) (s t : Bytes) → Lacks c s → Lacks c t → Lacks c (s ++ t)
Lacks-append c [] t h k = k
Lacks-append c (a ∷ s) t h k = (h.0, Lacks-append c s t h.1 k)

pub split_from-append :
    (sep : ℕ) (current s rest : Bytes)
    → Lacks sep s
    → split_from sep current (s ++ rest) ≡ split_from sep (current ++ s) rest
unfolding split_from
split_from-append sep current [] rest h = rw (append-nil current)
split_from-append sep current (c ∷ s) rest h =
    rw (h.0, split_from)
      (split_from-append sep (current ++ c ∷ []) s rest h.1 ∙ rw (append_assoc current (c ∷ []) s))

-- A part and the separator behind it.
pub split-append :
    (sep : ℕ) (s rest : Bytes) → Lacks sep s → split (s ++ sep ∷ rest) sep ≡ s ∷ split rest sep
unfolding split split_from
split-append sep s rest h =
    split_from-append sep [] s (sep ∷ rest) h ∙ rw ((==_iff sep sep).1 refl, split_from)

-- The last part.
pub split-last : (sep c : ℕ) (s : Bytes) → Lacks sep (c ∷ s) → split (c ∷ s) sep ≡ (c ∷ s) ∷ []
unfolding split split_from
split-last sep c s h =
    ap (λ t. split t sep) (sym (append-nil (c ∷ s))) ∙ split_from-append sep [] (c ∷ s) [] h

pub split_whole : (sep : ℕ) (t : Bytes) → Lacks sep t → is_empty t ≡ false → split t sep ≡ t ∷ []
split_whole sep [] k e = absurd (true≢false e)
  where
    true≢false : true ≢ false
    true≢false p = cc
split_whole sep (c ∷ t) k e = split-last sep c t k

pub split_pair :
    (sep : ℕ) (s t : Bytes)
    → Lacks sep s
    → Lacks sep t
    → is_empty t ≡ false
    → split (s ++ sep ∷ t) sep ≡ s ∷ t ∷ []
split_pair sep s t h k e = split-append sep s t h ∙ ap (◌∷◌ s) (split_whole sep t k e)

pub is_empty-middle : (s t : Bytes) (c : ℕ) → is_empty (s ++ c ∷ t) ≡ false
is_empty-middle [] t c = refl
is_empty-middle (a ∷ s) t c = refl

pub contains-Lacks : (c : ℕ) (s : Bytes) → contains c s ≡ false → Lacks c s
unfolding contains
contains-Lacks c [] h = tt
contains-Lacks c (a ∷ s) h = elim (Bool-cases (a == c)) [
  | inl y ↦ absurd (true≢false (simp y at h))
  | inr n ↦ (n, contains-Lacks c s (simp n at h))
]
  where
    true≢false : true ≢ false
    true≢false p = cc
