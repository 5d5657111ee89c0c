-- ===== src/SocketHandler/Reading.antt =====
-- `ReadAll` against the bytes that arrive.
use Prim.Native.Nat.{min}
use mathlib.Core.Path.{ap₂}
use undying_terminal.Prelude.{
  ℕ, zero, suc, ◌+◌, ◌-◌, ◌≤◌, ◌<◌, ◌≡◌, refl, sym, ap, ◌∙◌, Bool, true, false, List, [], ◌∷◌, ◌++◌,
  ltb, length, length-append, length-take, length-drop, take, drop, take-append_le, append_assoc,
  append-nil, Bytes, lt→ltb, arith,
}
use native.Mathlib.Nat.{suc-add, zero-add}
use undying_terminal.SocketHandler.{
  Turn, turn, ends, breaks, Incoming, Outcome, done, goes_on, read_round, read_loop, read_all,
}

-- The bytes that arrive during some turns.
abbrev pub arrived : List Turn → Bytes
arrived [] = []
arrived (turn bytes elapsed more ∷ ts) = bytes ++ arrived ts
arrived (ends ∷ ts) = arrived ts
arrived (breaks ∷ ts) = arrived ts

-- The socket neither ends nor breaks.
abbrev pub AllOpen : List Turn → Type 0
AllOpen [] = Unit
AllOpen (turn bytes elapsed more ∷ ts) = AllOpen ts
AllOpen (ends ∷ ts) = ⊥
AllOpen (breaks ∷ ts) = ⊥

pub drop-append_le :
    {A : Type 0} (n : ℕ) (xs ys : List A) → n ≤ length xs → drop n (xs ++ ys) ≡ drop n xs ++ ys
drop-append_le zero xs ys h = refl
drop-append_le (suc n) [] ys h = absurd (omega arith)
drop-append_le (suc n) (x ∷ xs) ys h = drop-append_le n xs ys (omega arith)

take_both : {A : Type 0} (m n : ℕ) (xs : List A) → take m xs ++ take n (drop m xs) ≡ take (m + n) xs
take_both zero n xs = rw zero-add
take_both (suc m) zero [] = rw (suc-add m 0)
take_both (suc m) (suc n) [] = rw (suc-add m (suc n))
take_both (suc m) n (x ∷ xs) = rw (suc-add m n, take_both m n xs)

drop-drop : {A : Type 0} (m n : ℕ) (xs : List A) → drop n (drop m xs) ≡ drop (m + n) xs
drop-drop zero n xs = rw zero-add
drop-drop (suc m) zero [] = rw (suc-add m 0)
drop-drop (suc m) (suc n) [] = rw (suc-add m (suc n))
drop-drop (suc m) n (x ∷ xs) = rw (suc-add m n, drop-drop m n xs)

-- What a call of `ReadAll` leaves when it returns: the bytes asked for, and the turns it has not used.
pub record Reached (left : ℕ) (got pending : Bytes) (turns : List Turn) (o : Outcome Bytes)
    : Type 0 where
  pub used : List Turn
  pub rest : List Turn
  pub cut : turns ≡ used ++ rest
  pub few : length used ≤ left
  pub result :
      o
      ≡ done
          (got ++ take left pending)
          (record { pending = drop left pending ++ arrived used; turns = rest })

-- Two pieces of what is pending.
got_more :
    (n k m : ℕ) (got pending bytes : Bytes)
    → n + k ≡ m
    → k ≤ length (drop n pending)
    → (got ++ take n pending) ++ take k (drop n pending ++ bytes) ≡ got ++ take m pending
got_more n k m got pending bytes e h = rw (
  take-append_le k (drop n pending) bytes h,
  append_assoc got (take n pending) (take k (drop n pending)),
  take_both n k pending,
  e,
)

left_over :
    (n k m : ℕ) (pending bytes later : Bytes)
    → n + k ≡ m
    → k ≤ length (drop n pending)
    → drop k (drop n pending ++ bytes) ++ later ≡ drop m pending ++ (bytes ++ later)
left_over n k m pending bytes later e h = rw (
  drop-append_le k (drop n pending) bytes h,
  drop-drop n k pending,
  e,
  append_assoc (drop m pending) bytes later,
)

not_less : (count n : ℕ) → n + 0 ≡ count → ltb n count ≡ false
not_less count n e = ground arith

round_turn :
    (timeout : Bool) (count n elapsed more : ℕ) (got pending bytes : Bytes)
    → n ≡ min (suc more) (count - length got)
    → n ≤ length pending
    → 0 < length pending
    → read_round timeout count got pending (turn bytes elapsed more)
      ≡ goes_on (got ++ take n pending) (drop n pending ++ bytes)
unfolding read_round
round_turn timeout count n elapsed more got [] bytes e fits some_bytes = absurd (omega arith)
round_turn timeout count n elapsed more got (b ∷ pending) bytes e fits some_bytes =
    rw (← e, take-append_le n (b ∷ pending) bytes fits, drop-append_le n (b ∷ pending) bytes fits)

loop_step :
    (timeout : Bool) (count : ℕ) (got pending got' pending' : Bytes) (t : Turn) (ts : List Turn)
    → ltb (length got) count ≡ true
    → read_round timeout count got pending t ≡ goes_on got' pending'
    → read_loop timeout count got pending (t ∷ ts) ≡ read_loop timeout count got' pending' ts
unfolding read_loop
loop_step timeout count got pending got' pending' t ts h k = rw (h, k, read_loop)

-- A turn that gives the first `n` bytes, in front of those that give the other `k`.
Reached-turn :
    (n k left elapsed more : ℕ) (got pending bytes : Bytes) (ts : List Turn) {o o' : Outcome Bytes}
    → n + k ≡ left
    → k ≤ length (drop n pending)
    → k < left
    → o' ≡ o
    → Reached k (got ++ take n pending) (drop n pending ++ bytes) ts o
    → Reached left got pending (turn bytes elapsed more ∷ ts) o'
Reached-turn n k left elapsed more got pending bytes ts whole less fewer step r = record {
  used = turn bytes elapsed more ∷ r.used;
  rest = r.rest;
  cut = ap (◌∷◌ (turn bytes elapsed more)) r.cut;
  few = omega (arith, r.few);
  result =
      step
      ∙ r.result
      ∙ ap₂ (λ (g p : Bytes). done g (record { pending = p; turns = r.rest }))
          (got_more n k left got pending bytes whole less)
          (left_over n k left pending bytes (arrived r.used) whole less);
}

read_loop-reaches :
    (timeout : Bool) (count left : ℕ) (got pending : Bytes) (turns : List Turn)
    → length got + left ≡ count
    → left ≤ length pending
    → left ≤ length turns
    → AllOpen turns
    → Reached left got pending turns (read_loop timeout count got pending turns)
unfolding read_loop
read_loop-reaches timeout count zero got pending [] e enough rounds up = record {
  used = [];
  rest = [];
  cut = refl;
  few = omega arith;
  result = rw (not_less count (length got) e, append-nil got, append-nil pending);
}
read_loop-reaches timeout count zero got pending (t ∷ ts) e enough rounds up = record {
  used = [];
  rest = t ∷ ts;
  cut = refl;
  few = omega arith;
  result = rw (not_less count (length got) e, read_loop, append-nil got, append-nil pending);
}
read_loop-reaches timeout count (suc left) got pending [] e enough rounds up = absurd (omega arith)
read_loop-reaches timeout count (suc left) got pending (ends ∷ ts) e enough rounds up = absurd up
read_loop-reaches timeout count (suc left) got pending (breaks ∷ ts) e enough rounds up = absurd up
read_loop-reaches timeout count (suc left) got pending (turn bytes elapsed more ∷ ts) e enough
      rounds up =
    let n : ℕ = min (suc more) (count - length got) in
    let k : ℕ = suc left - n in
    let whole : n + k ≡ suc left = omega arith in
    let less : k ≤ length (drop n pending) = omega (arith, length-drop n pending) in
    let ih =
      read_loop-reaches timeout count k (got ++ take n pending) (drop n pending ++ bytes) ts
        (omega (arith, length-append got (take n pending), length-take n pending))
        (omega (arith, length-append (drop n pending) bytes, length-drop n pending)) (omega arith)
        up in
    Reached-turn n k (suc left) elapsed more got pending bytes ts whole less (omega arith)
      (loop_step timeout count got pending _ _ _ ts (lt→ltb _ _ (omega arith)) (
        round_turn timeout count n elapsed more got pending bytes refl (omega arith) (omega arith)))
      ih

-- `ReadAll` with at least as many bytes pending as it asks for, and as many rounds in which the socket
-- neither ends nor breaks: it returns these bytes, and leaves the others and those that have come since.
pub read_all-Reached :
    (timeout : Bool) (count : ℕ) (s : Incoming)
    → count ≤ length s.pending
    → count ≤ length s.turns
    → AllOpen s.turns
    → Reached count [] s.pending s.turns (read_all count timeout s)
unfolding read_all
read_all-Reached timeout count s enough rounds up =
    read_loop-reaches timeout count count [] s.pending s.turns (omega arith) enough rounds up

pub AllOpen-rest : (used rest : List Turn) → AllOpen (used ++ rest) → AllOpen rest
AllOpen-rest [] rest h = h
AllOpen-rest (turn bytes elapsed more ∷ ts) rest h = AllOpen-rest ts rest h
AllOpen-rest (ends ∷ ts) rest h = absurd h
AllOpen-rest (breaks ∷ ts) rest h = absurd h

pub arrived-append : (used rest : List Turn) → arrived (used ++ rest) ≡ arrived used ++ arrived rest
arrived-append [] rest = refl
arrived-append (turn bytes elapsed more ∷ ts) rest =
    rw (arrived-append ts rest) (sym (append_assoc bytes (arrived ts) (arrived rest)))
arrived-append (ends ∷ ts) rest = arrived-append ts rest
arrived-append (breaks ∷ ts) rest = arrived-append ts rest
