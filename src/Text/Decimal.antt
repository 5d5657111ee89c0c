-- ===== src/Text/Decimal.antt =====
-- An `int` written in decimal, as `stream << i` and `std::to_string` do.
use undying_terminal.Prelude.{
  ℕ, zero, suc, ◌+◌, ◌-◌, ◌*◌, ◌^◌, ◌/◌, ◌%◌, ◌<◌, ◌≤◌, ◌≡◌, refl, ◌∙◌, true, false, [], ◌∷◌, ◌++◌,
  ltb, if◌then◌else◌, Bytes, Bool-cases, inl, inr, arith,
}
use undying_terminal.Prelude.Int.{ℤ, pos, negsuc}
use undying_terminal.Text.{is_digit, is_empty, value, value_from}
use undying_terminal.Text.Numbers.{AllDigits, IsNumber}

-- The digits, on as many rounds as there may be.
unfoldable pub digits_from : ℕ → ℕ → Bytes
digits_from zero n = []
digits_from (suc fuel) n =
    let front = digits_from fuel (n / 10) in
    if ltb n 10 then (b'0' + n) ∷ [] else front ++ (b'0' + n % 10) ∷ []

-- `n` rounds are enough for the digits of `n`, but for 0, which has one.
unfoldable pub decimal : ℕ → Bytes
decimal n = digits_from (suc n) n

unfoldable pub show : ℤ → Bytes
show (pos n) = decimal n
show (negsuc n) = b'-' ∷ decimal (suc n)

value_from-append :
    (acc d : ℕ) (s : Bytes) → value_from acc (s ++ d ∷ []) ≡ value_from acc s * 10 + (d - b'0')
unfolding value_from
value_from-append acc d [] = refl
value_from-append acc d (c ∷ s) = value_from-append (acc * 10 + (c - b'0')) d s

value-digits_from : (fuel n : ℕ) → n < fuel → value (digits_from fuel n) ≡ n
unfolding digits_from value
value-digits_from zero n h = absurd (omega arith)
value-digits_from (suc fuel) n h = elim (Bool-cases (ltb n 10)) [
  | inl y ↦ rw y (unfold value_from in omega arith)
  | inr k ↦
      let big : 10 ≤ n = ground arith in
      rw k (
        value_from-append 0 (b'0' + n % 10) (digits_from fuel (n / 10))
        ∙ omega (arith, value-digits_from fuel (n / 10) (omega arith)))
]

-- A number written in decimal is read back.
pub value-decimal : (n : ℕ) → value (decimal n) ≡ n
unfolding decimal
value-decimal n = value-digits_from (suc n) n (omega arith)

AllDigits-append : (s t : Bytes) → AllDigits s → AllDigits t → AllDigits (s ++ t)
AllDigits-append [] t h k = k
AllDigits-append (c ∷ s) t h k = (h.0, AllDigits-append s t h.1 k)

digit_below : (d : ℕ) → d < 10 → is_digit (b'0' + d) ≡ true
unfolding is_digit
digit_below d h = ground arith

AllDigits-digits_from : (fuel n : ℕ) → AllDigits (digits_from fuel n)
unfolding digits_from
AllDigits-digits_from zero n = tt
AllDigits-digits_from (suc fuel) n = elim (Bool-cases (ltb n 10)) [
  | inl y ↦ rw y (digit_below n (ground arith), tt)
  | inr k ↦ rw k (
      AllDigits-append (digits_from fuel (n / 10)) _ (AllDigits-digits_from fuel (n / 10))
        (digit_below (n % 10) (omega arith), tt))
]

is_empty_snoc : (s : Bytes) (c : ℕ) → is_empty (s ++ c ∷ []) ≡ false
is_empty_snoc [] c = refl
is_empty_snoc (a ∷ s) c = refl

pub is_empty-decimal : (n : ℕ) → is_empty (decimal n) ≡ false
unfolding decimal digits_from
is_empty-decimal n = elim (Bool-cases (ltb n 10)) [
  | inl y ↦ rw y
  | inr k ↦ rw k (is_empty_snoc (digits_from n (n / 10)) (b'0' + n % 10))
]

pub decimal-AllDigits : (n : ℕ) → AllDigits (decimal n)
unfolding decimal
decimal-AllDigits n = AllDigits-digits_from (suc n) n

-- It is in digits, so that `std::stoi` reads it where it fits an `int`.
pub decimal-IsNumber : (n : ℕ) → n < 2 ^ 31 → IsNumber (decimal n)
unfolding decimal
decimal-IsNumber n h = record {
  digits = AllDigits-digits_from (suc n) n;
  some_digit = is_empty-decimal n;
  small = rw (value-decimal n) h;
}
