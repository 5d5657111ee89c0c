-- ===== src/Text/Numbers.antt =====
-- Strings of digits, as `std::stoi` reads them.
use undying_terminal.Prelude.{
  ℕ, ◌<◌, ◌^◌, ◌≡◌, ◌≢◌, refl, ap, ==_iff, true, false, [], ◌∷◌, ◌==◌, Bytes, Bool-cases, inl, inr,
  arith,
}
use undying_terminal.Prelude.Int.{pos}
use undying_terminal.Result.{ok}
use undying_terminal.Text.{
  is_empty, is_digit, is_space, drop_space, take_digits, value, number, signed, stoi, checked,
}
use undying_terminal.Text.Splitting.{Lacks}

abbrev pub AllDigits : Bytes → Type 0
AllDigits [] = Unit
AllDigits (c ∷ s) = (is_digit c ≡ true) × AllDigits s

-- A port or another number that fits an `int`, in digits.
pub record IsNumber (s : Bytes) : Type 0 where
  pub digits : AllDigits s
  pub some_digit : is_empty s ≡ false
  pub small : value s < 2 ^ 31

take_digits-all : (s : Bytes) → AllDigits s → take_digits s ≡ s
unfolding take_digits
take_digits-all [] h = refl
take_digits-all (c ∷ s) h = rw (h.0, take_digits-all s h.1)

pub is_digit_facts :
    (c : ℕ)
    → is_digit c ≡ true
    → (is_space c ≡ false) × ((c == b'-') ≡ false) × ((c == b'+') ≡ false)
unfolding is_digit is_space
is_digit_facts c h = ground arith

checked-small : (v : ℕ) → v < 2 ^ 31 → checked (pos v) ≡ ok (pos v)
checked-small v h = ground arith

number-digits : (s : Bytes) → IsNumber s → number false s ≡ ok (pos (value s))
unfolding number
number-digits s h =
    simp (take_digits-all s h.digits, h.some_digit) (checked-small (value s) h.small)

-- `stoi` reads a number in digits.
pub stoi-digits : (s : Bytes) → IsNumber s → stoi s ≡ ok (pos (value s))
unfolding stoi drop_space signed
stoi-digits [] h = absurd (true≢false h.some_digit)
  where
    true≢false : true ≢ false
    true≢false e = cc
stoi-digits (c ∷ s) h =
    let (space, minus, plus) = is_digit_facts c h.digits.0 in
    simp (space, minus, plus) (number-digits (c ∷ s) h)

-- A separator that is no digit.
pub Lacks-digits : (c : ℕ) (s : Bytes) → is_digit c ≡ false → AllDigits s → Lacks c s
Lacks-digits c [] h d = tt
Lacks-digits c (a ∷ s) h d = (other, Lacks-digits c s h d.1)
  where
    other : (a == c) ≡ false
    other = elim (Bool-cases (a == c)) [
      | inl y ↦ cc (d.0, h, ap is_digit ((==_iff a c).0 y))
      | inr n ↦ n
    ]
