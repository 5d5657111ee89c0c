-- ===== src/SshConfig/Glob.antt =====
-- `MatchGlob` of src/ut/SshConfig.cpp. The indices into the pattern and the text are what is left of them
-- from there on; `star` and `match` are `none` for npos, or what is left behind the last star and of
-- the text where its match began. The loop runs on fuel, `none` where it has run out.
pub mod Plain
pub mod Greedy
use undying_terminal.Prelude.{
  ℕ, zero, suc, ◌+◌, ◌*◌, ◌≡◌, refl, Bool, true, false, ◌||◌, ◌&&◌, Option, none, some, List, [],
  ◌∷◌, ◌==◌, if◌then◌else◌, length, Bytes,
}

abbrev pub tail : Bytes → Bytes
tail [] = []
tail (c ∷ s) = s

-- The last loop, and the test behind it.
unfoldable pub only_stars : Bytes → Bool
only_stars [] = true
only_stars (q ∷ p) = (q == b'*') && only_stars p

-- The rest of the pattern and text after a round, and the new `star` and `match`; or `return false`.
pub data Round : Type 0 where
  goes_on : Option (Bytes × Bytes) → Bytes → Bytes → Round
  fails : Round

abbrev pub back : Option (Bytes × Bytes) → Round
back none = fails
back (some (behind, begun)) = goes_on (some (behind, tail begun)) behind (tail begun)

-- A round of the loop at a character of the text.
unfoldable pub glob_round : Option (Bytes × Bytes) → Bytes → ℕ → Bytes → Round
glob_round star [] c t = back star
glob_round star (q ∷ p) c t =
    if (q == b'?') || (q == c)
    then goes_on star p t
    else if q == b'*'
    then goes_on (some (p, c ∷ t)) p (c ∷ t)
    else back star

unfoldable pub glob_loop : ℕ → Option (Bytes × Bytes) → Bytes → Bytes → Option Bool
glob_loop zero star p t = none
glob_loop (suc fuel) star p [] = some (only_stars p)
glob_loop (suc fuel) star p (c ∷ t) = elim (glob_round star p c t) [
  | goes_on star' p' t' ↦ glob_loop fuel star' p' t'
  | fails ↦ some false
]

-- A bound on the rounds, from the lengths of the pattern and of the text.
abbrev pub glob_fuel : ℕ → ℕ → ℕ
glob_fuel p t = suc ((p * suc t + t) * suc t + t)

abbrev pub or_false : Option Bool → Bool
or_false none = false
or_false (some b) = b

-- `MatchGlob`
unfoldable pub match_glob : Bytes → Bytes → Bool
match_glob pattern text =
    or_false (glob_loop (glob_fuel (length pattern) (length text)) none pattern text)

-- A star is taken for itself where the text has a star.
literal_star : match_glob (b'*' ∷ []) (b'*' ∷ b'x' ∷ []) ≡ false
unfolding match_glob glob_loop glob_round only_stars
literal_star = refl

match_glob_runs :
    match_glob
      (b'*' ∷ b'a' ∷ b'b' ∷ b'*' ∷ b'?' ∷ [])
      (b'x' ∷ b'a' ∷ b'a' ∷ b'b' ∷ b'c' ∷ b'd' ∷ [])
    ≡ true
unfolding match_glob glob_loop glob_round only_stars
match_glob_runs = refl
