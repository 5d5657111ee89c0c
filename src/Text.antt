-- ===== src/Text.antt =====
-- What the program's parsers use of the standard library, on strings of bytes in the "C" locale:
-- <cctype>, `std::getline` with a separator, `stream >> word`, and `std::stoi`.
pub mod Words
pub mod Splitting
pub mod Numbers
pub mod Decimal
pub mod Stream
pub mod Scanning
use undying_terminal.Prelude.{
  ℕ, ◌+◌, ◌-◌, ◌*◌, ◌^◌, ◌≡◌, refl, Bool, true, false, not, ◌&&◌, ◌||◌, List, [], ◌∷◌, ◌++◌, map,
  leb, ◌==◌, if◌then◌else◌, Bytes,
}
use undying_terminal.Prelude.Int.{ℤ, pos, negsuc, sub_ℕ, ltb_ℤ}
use undying_terminal.Result.{Result, ok, throw, invalid_argument, out_of_range}
use mathlib.Core.List.{reverse}
use Prim.Native.Char.{code}
use Prim.Native.String.{String}

-- `isspace`, `isdigit` and `tolower`
unfoldable pub is_space : ℕ → Bool
is_space c = (c == 32) || (leb 9 c && leb c 13)

unfoldable pub is_digit : ℕ → Bool
is_digit c = leb b'0' c && leb c b'9'

unfoldable pub to_lower : ℕ → ℕ
to_lower c = if leb b'A' c && leb c b'Z' then c + 32 else c

unfoldable pub lower : Bytes → Bytes
lower s = map to_lower s

abbrev pub is_empty {ℓ} : {A : Type ℓ} → List A → Bool
is_empty [] = true
is_empty (x ∷ xs) = false

-- The bytes of an ASCII text. `String` has its own `[]` and `∷`.
abbrev pub codes : String → Bytes
codes String.[] = []
codes (String.◌∷◌ c s) = code c ∷ codes s

-- `s.find(c) != npos`
unfoldable pub contains : ℕ → Bytes → Bool
contains c [] = false
contains c (a ∷ s) = (a == c) || contains c s

unfoldable pub drop_space : Bytes → Bytes
drop_space [] = []
drop_space (c ∷ s) = if is_space c then drop_space s else c ∷ s

-- `s.back() == c`, false for the empty string.
abbrev pub ends_in : ℕ → Bytes → Bool
ends_in c [] = false
ends_in c (a ∷ []) = a == c
ends_in c (a ∷ b ∷ s) = ends_in c (b ∷ s)

-- Without the spaces at both ends.
unfoldable pub trim : Bytes → Bytes
trim s = reverse (drop_space (reverse (drop_space s)))

-- The parts that `std::getline` gives with a separator: none after a separator at the end.
unfoldable pub split_from : ℕ → Bytes → Bytes → List Bytes
split_from sep current [] = if is_empty current then [] else current ∷ []
split_from sep current (c ∷ s) = elim (c == sep) [
  | true ↦ current ∷ split_from sep [] s
  | false ↦ split_from sep (current ++ c ∷ []) s
]

unfoldable pub split : Bytes → ℕ → List Bytes
split s sep = split_from sep [] s

-- The words that `stream >> word` gives.
unfoldable pub words_from : Bytes → Bytes → List Bytes
words_from current [] = if is_empty current then [] else current ∷ []
words_from current (c ∷ s) = elim (is_space c) [
  | true ↦ let rest = words_from [] s in if is_empty current then rest else current ∷ rest
  | false ↦ words_from (current ++ c ∷ []) s
]

unfoldable pub words : Bytes → List Bytes
words s = words_from [] s

unfoldable pub take_digits : Bytes → Bytes
take_digits [] = []
take_digits (c ∷ s) = if is_digit c then c ∷ take_digits s else []

-- The number that a string of digits stands for.
unfoldable pub value_from : ℕ → Bytes → ℕ
value_from acc [] = acc
value_from acc (c ∷ s) = value_from (acc * 10 + (c - b'0')) s

unfoldable pub value : Bytes → ℕ
value s = value_from 0 s

abbrev pub in_int : ℤ → Bool
in_int i = not (ltb_ℤ i (negsuc (2 ^ 31 - 1))) && ltb_ℤ i (pos (2 ^ 31))

abbrev pub checked : ℤ → Result ℤ
checked i = if in_int i then ok i else throw out_of_range

unfoldable pub number : Bool → Bytes → Result ℤ
number minus s =
    let digits = take_digits s in
    if is_empty digits
    then throw invalid_argument
    else checked (if minus then sub_ℕ 0 (value digits) else pos (value digits))

unfoldable pub signed : Bytes → Result ℤ
signed [] = throw invalid_argument
signed (c ∷ s) =
    if c == b'-' then number true s else if c == b'+' then number false s else number false (c ∷ s)

-- `std::stoi`; what follows the number is not looked at.
unfoldable pub stoi : Bytes → Result ℤ
stoi s = signed (drop_space s)

split_runs :
    split (b'a' ∷ b',' ∷ b',' ∷ b'b' ∷ b',' ∷ []) b',' ≡ (b'a' ∷ []) ∷ [] ∷ (b'b' ∷ []) ∷ []
unfolding split split_from
split_runs = refl

words_runs : words (32 ∷ b'a' ∷ b'b' ∷ 9 ∷ b'c' ∷ 10 ∷ []) ≡ (b'a' ∷ b'b' ∷ []) ∷ (b'c' ∷ []) ∷ []
unfolding words words_from is_space
words_runs = refl

stoi_runs : stoi (32 ∷ b'-' ∷ b'4' ∷ b'2' ∷ b'x' ∷ []) ≡ ok (negsuc 41)
unfolding stoi drop_space is_space signed number take_digits is_digit value value_from
stoi_runs = refl
