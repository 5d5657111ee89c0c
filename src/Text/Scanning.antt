-- ===== src/Text/Scanning.antt =====
-- Numbers that are read from a stream: those that are there, and those that are not.
use undying_terminal.Prelude.{
  ℕ, suc, ◌<◌, ◌≤◌, ◌^◌, ◌≡◌, refl, ap, ◌∙◌, Bool, true, false, Option, none, some, [], ◌∷◌, ◌++◌,
  ◌==◌, if◌then◌else◌, Bytes, Bool-cases, inl, inr, arith,
}
use undying_terminal.Prelude.Int.{ℤ, pos, negsuc, sub_ℕ}
use undying_terminal.Text.{is_space, is_digit, is_empty, drop_space, take_digits, value, in_int}
use undying_terminal.Text.Numbers.{AllDigits, is_digit_facts}
use undying_terminal.Text.Decimal.{
  show, decimal, value-decimal, decimal-AllDigits, is_empty-decimal,
}
use undying_terminal.Text.Words.{Spaces}
use undying_terminal.Text.Stream.{
  stream_of, get_int, got_number, nearest, signed_value, drop_digits, if_good,
}

-- What follows a number is no digit.
abbrev pub Ends : Bytes → Type 0
Ends [] = Unit
Ends (c ∷ s) = is_digit c ≡ false

-- The range of an `int`.
abbrev pub FitsInt : ℤ → Type 0
FitsInt (pos n) = n < 2 ^ 31
FitsInt (negsuc n) = n < 2 ^ 31

-- A text from which no `int` is read: spaces only, something else first, or too large a number.
pub data NoNumber : Bytes → Type 0 where
  only_spaces : (s : Bytes) → Spaces s → NoNumber s
  other_first :
      (gap : Bytes) (c : ℕ) (s : Bytes)
      → Spaces gap
      → is_space c ≡ false
      → is_digit c ≡ false
      → (c == b'-') ≡ false
      → (c == b'+') ≡ false
      → NoNumber (gap ++ c ∷ s)
  too_large :
      (gap : Bytes) (n : ℕ) (rest : Bytes)
      → Spaces gap
      → 2 ^ 31 ≤ n
      → Ends rest
      → NoNumber (gap ++ (decimal n ++ rest))

take_digits-append : (s rest : Bytes) → AllDigits s → Ends rest → take_digits (s ++ rest) ≡ s
unfolding take_digits
take_digits-append [] [] d e = refl
take_digits-append [] (c ∷ rest) d e = rw e refl
take_digits-append (c ∷ s) rest d e = rw d.0 (ap (◌∷◌ c) (take_digits-append s rest d.1 e))

drop_space-gap : (gap s : Bytes) → Spaces gap → drop_space (gap ++ s) ≡ drop_space s
unfolding drop_space
drop_space-gap [] s h = refl
drop_space-gap (c ∷ gap) s h = rw h.0 (drop_space-gap gap s h.1)

drop_space-first : (c : ℕ) (s : Bytes) → is_space c ≡ false → drop_space (c ∷ s) ≡ c ∷ s
unfolding drop_space
drop_space-first c s h = rw h refl

-- What is read where this is in an `int`.
abbrev pub accepted : ℤ → Option ℤ
accepted i = if in_int i then some i else none

nearest-accepted :
    (i : ℤ) (rest : Bytes)
    → if_good (nearest i, record { rest = rest; good = in_int i }) ≡ accepted i
nearest-accepted (pos n) rest = elim (Bool-cases (in_int (pos n))) [
  | inl y ↦ rw y refl
  | inr m ↦ rw m refl
]
nearest-accepted (negsuc n) rest = elim (Bool-cases (in_int (negsuc n))) [
  | inl y ↦ rw y refl
  | inr m ↦ rw m refl
]

got_number_lem :
    (minus : Bool) (s rest : Bytes)
    → AllDigits s
    → is_empty s ≡ false
    → Ends rest
    → if_good (got_number minus (s ++ rest)) ≡ accepted (signed_value minus s)
got_number_lem minus s rest d e k =
    rw (take_digits-append s rest d k, e)
      (nearest-accepted (signed_value minus s) (drop_digits (s ++ rest)))

digits_lem :
    (gap s rest : Bytes)
    → Spaces gap
    → AllDigits s
    → is_empty s ≡ false
    → Ends rest
    → if_good (get_int (pos 0) (stream_of (gap ++ (s ++ rest)))) ≡ accepted (pos (value s))
unfolding get_int
digits_lem gap [] rest g d e k = cc
digits_lem gap (c ∷ s) rest g d e k =
    let (no_space, no_minus, no_plus) = is_digit_facts c d.0 in
    rw
      (
        drop_space-gap gap ((c ∷ s) ++ rest) g,
        drop_space-first c (s ++ rest) no_space,
        no_minus,
        no_plus,
      )
      (got_number_lem false (c ∷ s) rest d e k)

accepted-fits : (z : ℤ) → FitsInt z → accepted z ≡ some z
accepted-fits (pos n) h = ground arith
accepted-fits (negsuc n) h = ground arith

-- A number of an `int` that is written in decimal is read, behind any spaces and before anything but a digit.
pub reads_number :
    (gap : Bytes) (z : ℤ) (rest : Bytes)
    → Spaces gap
    → FitsInt z
    → Ends rest
    → if_good (get_int (pos 0) (stream_of (gap ++ (show z ++ rest)))) ≡ some z
unfolding show get_int
reads_number gap (pos n) rest g h k =
    digits_lem gap (decimal n) rest g (decimal-AllDigits n) (is_empty-decimal n) k
    ∙ ap (λ v. accepted (pos v)) (value-decimal n)
    ∙ accepted-fits (pos n) h
reads_number gap (negsuc n) rest g h k =
    rw
      (
        drop_space-gap gap (b'-' ∷ (decimal (suc n) ++ rest)) g,
        drop_space-first b'-' (decimal (suc n) ++ rest) space,
      )
      (got_number_lem true (decimal (suc n)) rest (decimal-AllDigits (suc n))
          (is_empty-decimal (suc n)) k
        ∙ ap (λ v. accepted (sub_ℕ 0 v)) (value-decimal (suc n))
        ∙ ap accepted (minus n)
        ∙ accepted-fits (negsuc n) h)
  where
    minus : (n : ℕ) → sub_ℕ 0 (suc n) ≡ negsuc n
    minus n = ground arith

    space : is_space b'-' ≡ false
    space = unfold is_space in refl

accepted-large : (n : ℕ) → 2 ^ 31 ≤ n → accepted (pos n) ≡ none
accepted-large n h = ground arith

take_digits-other : (c : ℕ) (s : Bytes) → is_digit c ≡ false → take_digits (c ∷ s) ≡ []
unfolding take_digits
take_digits-other c s h = rw h refl

drop_space-all : (s : Bytes) → Spaces s → drop_space s ≡ []
unfolding drop_space
drop_space-all [] h = refl
drop_space-all (c ∷ s) h = rw h.0 (drop_space-all s h.1)

-- From any other text none is read.
pub get_int-NoNumber : (s : Bytes) → NoNumber s → if_good (get_int (pos 0) (stream_of s)) ≡ none
unfolding get_int
get_int-NoNumber s (only_spaces s' g) = rw (drop_space-all s g) refl
get_int-NoNumber s (other_first gap c t g no_space no_digit no_minus no_plus) =
    rw
      (
        drop_space-gap gap (c ∷ t) g,
        drop_space-first c t no_space,
        no_minus,
        no_plus,
        take_digits-other c t no_digit,
      )
      refl
get_int-NoNumber s (too_large gap n rest g h k) =
    digits_lem gap (decimal n) rest g (decimal-AllDigits n) (is_empty-decimal n) k
    ∙ ap (λ v. accepted (pos v)) (value-decimal n)
    ∙ accepted-large n h
