-- ===== src/Terminal/Seeds.antt =====
-- The line of random seeds that the client sends, and what the terminal program makes of it.
use undying_terminal.Prelude.{
  ℕ, zero, suc, ◌<◌, ◌≡◌, refl, ap, false, some, List, [], ◌∷◌, ◌++◌, ◌==◌, length, Bytes, ==_iff,
  arith,
}
use undying_terminal.Text.{codes, is_empty, contains}
use undying_terminal.Text.Splitting.{Lacks, Lacks-append, contains-Lacks}
use undying_terminal.Client.Quoting.{letter, letters, generate_random}
use undying_terminal.Client.Launch.{seed_line, seed_of}
use undying_terminal.Terminal.{
  erase_from, position, split_at, parse_id_passkey, Registration, chosen, registration, input_line,
  registration_from,
}
use undying_terminal.Terminal.Remote.{IsPlain, IsDashless}
use undying_terminal.SshConfig.Breaking.{break_first-Lacks, break_first-none}

-- Random texts have letters and digits only.
abbrev pub AllBelow : ℕ → List ℕ → Type 0
AllBelow k [] = Unit
AllBelow k (n ∷ ns) = (n < k) × AllBelow k ns

letter-Lacks : (c n : ℕ) (s : Bytes) → Lacks c s → n < length s → (letter n s == c) ≡ false
unfolding letter
letter-Lacks c n [] h k = absurd (omega arith)
letter-Lacks c zero (a ∷ s) h k = h.0
letter-Lacks c (suc n) (a ∷ s) h k = letter-Lacks c n s h.1 (omega arith)

pub generate_random-Lacks :
    (c : ℕ) (ns : List ℕ) → Lacks c letters → AllBelow 62 ns → Lacks c (generate_random ns)
unfolding generate_random
generate_random-Lacks c [] h k = tt
generate_random-Lacks c (n ∷ ns) h k =
    (letter-Lacks c n letters h k.0, generate_random-Lacks c ns h k.1)

pub length-generate_random : (ns : List ℕ) → length (generate_random ns) ≡ length ns
unfolding generate_random
length-generate_random [] = refl
length-generate_random (n ∷ ns) = ap suc (length-generate_random ns)

pub letters-IsPlain : IsPlain letters
unfolding contains
letters-IsPlain = record {
  quotes = contains-Lacks 39 letters refl;
  backslashes = contains-Lacks 92 letters refl;
  feeds = contains-Lacks 10 letters refl;
  returns = contains-Lacks 13 letters refl;
  nuls = contains-Lacks 0 letters refl;
}

pub letters-slash : Lacks b'/' letters
unfolding contains
letters-slash = contains-Lacks b'/' letters refl

position-Lacks : (c : ℕ) (s t : Bytes) → Lacks c s → position c (s ++ c ∷ t) ≡ some (length s)
unfolding position
position-Lacks c [] t h = rw (==_iff c c).1 refl
position-Lacks c (a ∷ s) t h = rw (h.0, position-Lacks c s t h.1)

erase_from-Lacks : (c : ℕ) (s : Bytes) → Lacks c s → erase_from c s ≡ s
unfolding erase_from
erase_from-Lacks c s h = rw (break_first-none c s h)

-- What the terminal program registers for a line with the client's seeds.
abbrev pub fresh : List ℕ → List ℕ → Registration
fresh id_numbers key_numbers = record {
  client_id = generate_random id_numbers;
  passkey = generate_random key_numbers;
  printed = generate_random id_numbers ++ b'/' ∷ (generate_random key_numbers ++ 10 ∷ []);
}

split_at-seed :
    (id_numbers key_numbers : List ℕ) (random rest : Bytes)
    → Lacks b'/' random
    → chosen id_numbers key_numbers
        (split_at (seed_of random ++ b'/' ∷ rest) (position b'/' (seed_of random ++ b'/' ∷ rest)))
      ≡ some (fresh id_numbers key_numbers)
split_at-seed id_numbers key_numbers random rest h =
    rw (position-Lacks b'/' (seed_of random) rest (refl, (refl, (refl, h))))

seed_line-Lacks :
    (c : ℕ) (random key term : Bytes)
    → Lacks c (codes "XXX/_")
    → Lacks c random
    → Lacks c key
    → Lacks c term
    → Lacks c (seed_line (seed_of random) key term)
unfolding seed_line
seed_line-Lacks c random key term (x, (y, (z, (slash, (underscore, _))))) h k t = (
  x,
  (
    y,
    (
      z,
      Lacks-append c random (b'/' ∷ (key ++ b'_' ∷ term)) h
          (slash, Lacks-append c key (b'_' ∷ term) k (underscore, t)),
    ),
  ),
)

-- The seed line with random texts is plain where the terminal's type is.
pub seed_line-IsPlain :
    (seed_numbers seed_key_numbers : List ℕ) (term : Bytes)
    → AllBelow 62 seed_numbers
    → AllBelow 62 seed_key_numbers
    → IsPlain term
    → IsPlain
        (seed_line (seed_of (generate_random seed_numbers)) (generate_random seed_key_numbers) term)
seed_line-IsPlain seed_numbers seed_key_numbers term s k plain_term =
    let part = λ (c : ℕ) (x : Lacks c (codes "XXX/_")) (l : Lacks c letters) (h : Lacks c term).
      seed_line-Lacks c _ _ term x (generate_random-Lacks c seed_numbers l s)
        (generate_random-Lacks c seed_key_numbers l k) h in
    record {
      quotes =
          part 39 (refl, (refl, (refl, (refl, (refl, tt))))) letters-IsPlain.quotes
            plain_term.quotes;
      backslashes =
          part 92 (refl, (refl, (refl, (refl, (refl, tt))))) letters-IsPlain.backslashes
            plain_term.backslashes;
      feeds =
          part 10 (refl, (refl, (refl, (refl, (refl, tt))))) letters-IsPlain.feeds plain_term.feeds;
      returns =
          part 13 (refl, (refl, (refl, (refl, (refl, tt))))) letters-IsPlain.returns
            plain_term.returns;
      nuls = part 0 (refl, (refl, (refl, (refl, (refl, tt))))) letters-IsPlain.nuls plain_term.nuls;
    }

pub registration-seed :
    (id_numbers key_numbers : List ℕ) (random key term : Bytes)
    → Lacks b'/' random
    → Lacks 10 (seed_line (seed_of random) key term)
    → Lacks 13 (seed_line (seed_of random) key term)
    → registration id_numbers key_numbers (seed_line (seed_of random) key term)
      ≡ some (fresh id_numbers key_numbers)
unfolding registration parse_id_passkey
registration-seed id_numbers key_numbers random key term slash feed return =
    rw
      (
        erase_from-Lacks 10 (seed_line (seed_of random) key term) feed,
        erase_from-Lacks 13 (seed_line (seed_of random) key term) return,
      )
      (unfold seed_line in split_at-seed id_numbers key_numbers random (key ++ b'_' ∷ term) slash)

pub seed_line-IsDashless :
    (random key term : Bytes) → IsDashless (seed_line (seed_of random) key term)
unfolding seed_line
seed_line-IsDashless random key term = refl

pub seed_line-some :
    (random key term : Bytes) → is_empty (seed_line (seed_of random) key term) ≡ false
unfolding seed_line
seed_line-some random key term = refl

-- The terminal program with the line that the shell gives it.
pub registration_from-line :
    (id_numbers key_numbers : List ℕ) (line : Bytes)
    → Lacks 10 line
    → is_empty line ≡ false
    → registration_from id_numbers key_numbers (line ++ 10 ∷ [])
      ≡ registration id_numbers key_numbers line
unfolding registration_from input_line
registration_from-line id_numbers key_numbers [] h some_bytes = cc
registration_from-line id_numbers key_numbers (c ∷ s) h some_bytes =
    rw (break_first-Lacks 10 (c ∷ s) [] h) refl
