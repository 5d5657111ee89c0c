-- ===== src/Text/Words.antt =====
-- The words of a text that is put together from words and gaps.
use undying_terminal.Prelude.{
  ◌≡◌, refl, sym, ap, ◌∙◌, true, false, [], ◌∷◌, ◌++◌, append-nil, append_assoc, Bytes,
}
use undying_terminal.Text.{is_empty, is_space, words, words_from}
use undying_terminal.Text.Numbers.{AllDigits, is_digit_facts}

abbrev pub Spaceless : Bytes → Type 0
Spaceless [] = Unit
Spaceless (c ∷ s) = (is_space c ≡ false) × Spaceless s

abbrev pub Spaces : Bytes → Type 0
Spaces [] = Unit
Spaces (c ∷ s) = (is_space c ≡ true) × Spaces s

-- What stands between two words.
abbrev pub IsGap : Bytes → Type 0
IsGap s = Spaces s × (is_empty s ≡ false)

pub append-Spaceless : (s t : Bytes) → Spaceless s → Spaceless t → Spaceless (s ++ t)
append-Spaceless [] t h k = k
append-Spaceless (c ∷ s) t h k = (h.0, append-Spaceless s t h.1 k)

pub digits-Spaceless : (s : Bytes) → AllDigits s → Spaceless s
digits-Spaceless [] d = tt
digits-Spaceless (c ∷ s) d = ((is_digit_facts c d.0).0, digits-Spaceless s d.1)

words_from-append :
    (current w s : Bytes) → Spaceless w → words_from current (w ++ s) ≡ words_from (current ++ w) s
unfolding words_from
words_from-append current [] s h = rw (append-nil current) refl
words_from-append current (c ∷ w) s h =
    rw (h.0, words_from)
      (words_from-append (current ++ c ∷ []) w s h.1 ∙ rw (append_assoc current (c ∷ []) w) refl)

words_from-gap : (g s : Bytes) → Spaces g → words_from [] (g ++ s) ≡ words_from [] s
unfolding words_from
words_from-gap [] s h = refl
words_from-gap (c ∷ g) s h = rw (h.0, words_from) (words_from-gap g s h.1)

words_from-end :
    (current g s : Bytes)
    → is_empty current ≡ false
    → IsGap g
    → words_from current (g ++ s) ≡ current ∷ words_from [] s
unfolding words_from
words_from-end current [] s some_bytes (h, e) = cc
words_from-end current (c ∷ g) s some_bytes (h, e) =
    rw (h.0, words_from, some_bytes) (ap (◌∷◌ current) (words_from-gap g s h.1))

-- The first word, and the others.
pub words-append :
    (w g s : Bytes)
    → Spaceless w
    → is_empty w ≡ false
    → IsGap g
    → words (w ++ (g ++ s)) ≡ w ∷ words s
unfolding words
words-append w g s h some_bytes gap =
    words_from-append [] w (g ++ s) h ∙ words_from-end w g s some_bytes gap

pub words_one : (w : Bytes) → Spaceless w → is_empty w ≡ false → words w ≡ w ∷ []
unfolding words words_from
words_one w h some_bytes =
    ap (words_from []) (sym (append-nil w)) ∙ words_from-append [] w [] h ∙ rw some_bytes refl
