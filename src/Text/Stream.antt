-- ===== src/Text/Stream.antt =====
-- `std::istringstream` where the program reads words and numbers from one: what is left of the text, and
-- whether no call has failed. A call after one that failed reads nothing.
use undying_terminal.Prelude.{
  ℕ, Option, none, some, Bool, true, false, not, ◌&&◌, [], ◌∷◌, ◌≡◌, refl, ◌==◌, if◌then◌else◌,
  Bytes,
}
use undying_terminal.Prelude.Int.{ℤ, pos, negsuc, sub_ℕ}
use undying_terminal.Text.{
  is_space, is_digit, is_empty, drop_space, take_digits, value, in_int, codes,
}

pub record Stream : Type 0 where
  pub rest : Bytes
  pub good : Bool

abbrev pub stream_of : Bytes → Stream
stream_of s = record { rest = s; good = true }

abbrev pub front : ℕ → Bytes × Bytes → Bytes × Bytes
front c (word, rest) = (c ∷ word, rest)

-- Up to the next space.
unfoldable pub take_word : Bytes → Bytes × Bytes
take_word [] = ([], [])
take_word (c ∷ s) = let more = front c (take_word s) in if is_space c then ([], c ∷ s) else more

abbrev pub got_word : Bytes × Bytes → Bytes × Stream
got_word (word, rest) = (word, record { rest = rest; good = not (is_empty word) })

-- `stream >> word`, with an empty string before the call.
unfoldable pub get_word : Stream → Bytes × Stream
get_word s = if s.good then got_word (take_word (drop_space s.rest)) else ([], s)

unfoldable pub drop_digits : Bytes → Bytes
drop_digits [] = []
drop_digits (c ∷ s) = if is_digit c then drop_digits s else c ∷ s

-- The number of some digits, 0 where there are none, and the nearest `int` where there are too many.
abbrev pub nearest : ℤ → ℤ
nearest (pos n) = if in_int (pos n) then pos n else pos 2147483647
nearest (negsuc n) = if in_int (negsuc n) then negsuc n else negsuc 2147483647

abbrev pub signed_value : Bool → Bytes → ℤ
signed_value minus digits = if minus then sub_ℕ 0 (value digits) else pos (value digits)

abbrev pub got_number : Bool → Bytes → ℤ × Stream
got_number minus s =
    let i = signed_value minus (take_digits s) in
    (nearest i, record { rest = drop_digits s; good = not (is_empty (take_digits s)) && in_int i })

abbrev pub after_space : ℤ → Bytes → ℤ × Stream
after_space before [] = (before, record { rest = []; good = false })
after_space before (c ∷ s) =
    if c == b'-'
    then got_number true s
    else if c == b'+'
    then got_number false s
    else got_number false (c ∷ s)

-- `stream >> number` on an `int`: what the variable has after the call, where it had this before.
unfoldable pub get_int : ℤ → Stream → ℤ × Stream
get_int before s = if s.good then after_space before (drop_space s.rest) else (before, s)

-- `if (stream >> number)`: the number, if the call did not fail.
abbrev pub if_good : ℤ × Stream → Option ℤ
if_good (i, s) = if s.good then some i else none

get_int_runs : get_int (pos 7) (stream_of (codes " -42x y")) ≡ (negsuc 41, stream_of (codes "x y"))
unfolding get_int drop_space is_space take_digits drop_digits is_digit value
    undying_terminal.Text.value_from
get_int_runs = refl
