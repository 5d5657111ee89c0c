-- ===== src/Tunnel/Rule.antt =====
-- Forwarding rules as the user writes them, and the requests that they stand for.
use undying_terminal.Prelude.{
  ℕ, zero, suc, ◌+◌, ◌-◌, ◌^◌, ◌≤◌, ◌<◌, ◌≡◌, ==_iff, refl, true, false, List, [], ◌∷◌, ◌++◌, ltb,
  ◌==◌, Bytes, arith, Bool-cases, inl, inr,
}
use undying_terminal.Prelude.Int.{pos, pos-add, pos-sub}
use native.Mathlib.Nat.{add_assoc, add-zero}
use undying_terminal.Result.{ok}
use undying_terminal.Text.{is_digit, contains, split, value}
use undying_terminal.Text.Splitting.{Lacks, split_pair}
use undying_terminal.Text.Numbers.{AllDigits, IsNumber, stoi-digits, Lacks-digits}
use undying_terminal.PortForward.Messages.{SourceRequest}
use undying_terminal.Tunnel.{
  is_numeric_or_range, named_request, port_request, range_requests, range_of, process_ranges,
  process_ports, process_pair,
}

-- `8080:80`, `8000-8010:9000-9010`, and `VARIABLE:name`.
pub data Rule : Type 0 where
  port : Bytes → Bytes → Rule
  range : Bytes → Bytes → Bytes → Bytes → Rule
  named : Bytes → Bytes → Rule

unfoldable pub text : Rule → Bytes
text (port source dest) = source ++ b':' ∷ dest
text (range s0 s1 d0 d1) = (s0 ++ b'-' ∷ s1) ++ b':' ∷ (d0 ++ b'-' ∷ d1)
text (named source dest) = source ++ b':' ∷ dest

-- A name is not made of digits and dashes alone, and holds no separator.
pub record IsName (s : Bytes) : Type 0 where
  pub no_number : is_numeric_or_range s ≡ false
  pub no_comma : Lacks b',' s
  pub no_colon : Lacks b':' s

-- The two ranges of a rule go upwards and are of one length, which fits an `int`.
pub record IsRange (s0 s1 d0 d1 : Bytes) : Type 0 where
  pub number_s0 : IsNumber s0
  pub number_s1 : IsNumber s1
  pub number_d0 : IsNumber d0
  pub number_d1 : IsNumber d1
  pub upwards : value s0 ≤ value s1
  pub same_length : value s1 + value d0 ≡ value s0 + value d1
  pub short : value s1 + 1 < 2 ^ 31 + value s0

abbrev pub IsRule : Rule → Type 0
IsRule (port source dest) = IsNumber source × IsNumber dest
IsRule (range s0 s1 d0 d1) = IsRange s0 s1 d0 d1
IsRule (named source dest) = IsName source × IsName dest

abbrev pub AllRules : List Rule → Type 0
AllRules [] = Unit
AllRules (r ∷ rs) = IsRule r × AllRules rs

-- So many requests for consecutive ports.
abbrev pub consecutive : ℕ → ℕ → ℕ → List SourceRequest
consecutive zero source dest = []
consecutive (suc k) source dest =
    port_request (pos source) (pos dest) ∷ consecutive k (source + 1) (dest + 1)

unfoldable pub expand : Rule → List SourceRequest
expand (port source dest) = port_request (pos (value source)) (pos (value dest)) ∷ []
expand (range s0 s1 d0 d1) = consecutive (value s1 + 1 - value s0) (value s0) (value d0)
expand (named source dest) = named_request source dest ∷ []

unfoldable pub expand_all : List Rule → List SourceRequest
expand_all [] = []
expand_all (r ∷ rs) = expand r ++ expand_all rs

-- The rules with a comma between them.
unfoldable pub join : Rule → List Rule → Bytes
join r [] = text r
join r (r' ∷ rs) = text r ++ b',' ∷ join r' rs

is_numeric-digits : (s : Bytes) → AllDigits s → is_numeric_or_range s ≡ true
unfolding is_numeric_or_range
is_numeric-digits [] h = refl
is_numeric-digits (c ∷ s) h = rw (h.0, is_numeric-digits s h.1)

is_numeric-range :
    (s t : Bytes) → AllDigits s → AllDigits t → is_numeric_or_range (s ++ b'-' ∷ t) ≡ true
unfolding is_numeric_or_range is_digit
is_numeric-range [] t h k = is_numeric-digits t k
is_numeric-range (c ∷ s) t h k = simp (h.0, is_numeric-range s t h.1 k)

contains-lacking : (c : ℕ) (s : Bytes) → Lacks c s → contains c s ≡ false
unfolding contains
contains-lacking c [] h = refl
contains-lacking c (a ∷ s) h = rw (h.0, contains-lacking c s h.1)

contains-middle : (c : ℕ) (s t : Bytes) → contains c (s ++ c ∷ t) ≡ true
unfolding contains
contains-middle c [] t = ground arith
contains-middle c (a ∷ s) t = elim (Bool-cases (a == c)) [
  | inl y ↦ rw y
  | inr n ↦ rw (n, contains-middle c s t)
]

digit_dash : is_digit b'-' ≡ false
unfolding is_digit
digit_dash = refl

split_numbers :
    (sep : ℕ) (s t : Bytes)
    → is_digit sep ≡ false
    → IsNumber s
    → IsNumber t
    → split (s ++ sep ∷ t) sep ≡ s ∷ t ∷ []
split_numbers sep s t other h k =
    split_pair sep s t (Lacks-digits sep s other h.digits) (Lacks-digits sep t other k.digits)
      k.some_digit

range_requests_lem :
    (k i s d : ℕ) → range_requests k i (pos s) (pos d) ≡ consecutive k (s + i) (d + i)
unfolding range_requests
range_requests_lem zero i s d = refl
range_requests_lem (suc k) i s d =
    rw
      (pos-add s i, pos-add d i, range_requests_lem k (i + 1) s d, add_assoc s i 1, add_assoc d i 1)

range_of_lem :
    (out : List SourceRequest) (s0 s1 d0 d1 : ℕ)
    → s0 ≤ s1
    → s1 + d0 ≡ s0 + d1
    → s1 + 1 < 2 ^ 31 + s0
    → range_of out (pos s0) (pos s1) (pos d0) (pos d1) ≡ ok (out ++ consecutive (s1 + 1 - s0) s0 d0)
unfolding range_of
range_of_lem out s0 s1 d0 d1 up same short =
    let equal : (s1 - s0 == d1 - d0) ≡ true = (==_iff _ _).1 (omega arith) in
    let fits : ltb (2 ^ 31 - 1 + 0) (s1 - s0 + 1 + 0) ≡ false = ground arith in
    let count : s1 - s0 + 1 ≡ s1 + 1 - s0 = omega arith in
    simp (pos-sub s1 s0 up, pos-sub d1 d0 (omega arith), equal, pos-add (s1 - s0) 1, fits)
      (rw (range_requests_lem (s1 - s0 + 1) 0 s0 d0, count, add-zero s0, add-zero d0))

-- What `ProcessUtStyleArg` makes of each rule.
pub process_port :
    (out : List SourceRequest) (s d : Bytes)
    → IsNumber s
    → IsNumber d
    → process_pair out s d ≡ ok (out ++ expand (port s d))
unfolding process_pair process_ports expand
process_port out s d h k = simp (
  is_numeric-digits s h.digits,
  contains-lacking b'-' s (Lacks-digits b'-' s digit_dash h.digits),
  contains-lacking b'-' d (Lacks-digits b'-' d digit_dash k.digits),
  stoi-digits s h,
  stoi-digits d k,
)

pub process_range :
    (out : List SourceRequest) (s0 s1 d0 d1 : Bytes)
    → IsRange s0 s1 d0 d1
    → process_pair out (s0 ++ b'-' ∷ s1) (d0 ++ b'-' ∷ d1) ≡ ok (out ++ expand (range s0 s1 d0 d1))
unfolding process_pair process_ranges expand
process_range out s0 s1 d0 d1 h =
    simp
      (
        is_numeric-range s0 s1 h.number_s0.digits h.number_s1.digits,
        contains-middle b'-' s0 s1,
        contains-middle b'-' d0 d1,
        split_numbers b'-' s0 s1 digit_dash h.number_s0 h.number_s1,
        split_numbers b'-' d0 d1 digit_dash h.number_d0 h.number_d1,
        stoi-digits s0 h.number_s0,
        stoi-digits s1 h.number_s1,
        stoi-digits d0 h.number_d0,
        stoi-digits d1 h.number_d1,
      )
      (range_of_lem out (value s0) (value s1) (value d0) (value d1) h.upwards h.same_length h.short)

pub process_named :
    (out : List SourceRequest) (s d : Bytes)
    → IsName s
    → IsName d
    → process_pair out s d ≡ ok (out ++ expand (named s d))
unfolding process_pair expand
process_named out s d h k = simp (h.no_number, k.no_number)
