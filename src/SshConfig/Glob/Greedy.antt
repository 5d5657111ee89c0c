-- ===== src/SshConfig/Glob/Greedy.antt =====
-- The greedy matcher, which goes back to its last star alone, decides the plain definition of a match.
use undying_terminal.Prelude.{
  ℕ, zero, suc, ◌+◌, ◌*◌, ◌≤◌, ◌<◌, ◌≡◌, refl, sym, ap, ◌∙◌, Bool, true, false, ◌||◌, Option, none,
  some, [], ◌∷◌, ◌++◌, ◌==◌, ==_iff, length, length-append, drop, length-drop, append_assoc, Bytes,
  Bool-cases, inl, inr, arith,
}
use native.Mathlib.Numerals.{add-one}
use undying_terminal.Text.Splitting.{Lacks, Lacks-append}
use undying_terminal.SshConfig.Glob.{
  only_stars, goes_on, back, glob_round, glob_loop, glob_fuel, match_glob,
}
use undying_terminal.SshConfig.Glob.Plain.{
  any_suffix, globs, later, any_suffix-later, any_suffix-drop, only_stars_lem, any_suffix-star,
  no_suffix,
}

-- The bound on the rounds falls: at a new star, and where the match of a star begins anew.
weight_star :
    (a b m t n : ℕ) → t ≤ n → (b * suc n + t) * suc n + t < ((a + suc b) * suc n + m) * suc n + t
weight_star a b m t n h = grind arith

weight_back : (p m t n : ℕ) → m ≤ n → (p * suc n + m) * suc n + m < (p * suc n + suc m) * suc n + t
weight_back p m t n h = grind arith

drop-cons : (k c : ℕ) (t s : Bytes) → c ∷ t ≡ drop k s → (t ≡ drop (suc k) s) × (suc k ≤ length s)
drop-cons zero c t [] e = cc
drop-cons zero c t (d ∷ s) e = (cc, omega arith)
drop-cons (suc k) c t [] e = cc
drop-cons (suc k) c t (d ∷ s) e = let (a, b) = drop-cons k c t s e in (a, omega arith)

no_star : (q c : ℕ) → ((q == b'?') || (q == c)) ≡ true → (c == b'*') ≡ false → (q == b'*') ≡ false
no_star q c h k = ground arith

globs-same :
    (q c : ℕ) (p t : Bytes)
    → ((q == b'?') || (q == c)) ≡ true
    → (c == b'*') ≡ false
    → globs (q ∷ p) (c ∷ t) ≡ globs p t
unfolding globs
globs-same q c p t h k = rw (no_star q c h k, h)

globs-other :
    (q c : ℕ) (p t : Bytes)
    → ((q == b'?') || (q == c)) ≡ false
    → (q == b'*') ≡ false
    → globs (q ∷ p) (c ∷ t) ≡ false
unfolding globs
globs-other q c p t h k = rw (k, h)

globs-stars : (q : ℕ) (p t : Bytes) → (q == b'*') ≡ true → globs (q ∷ p) t ≡ any_suffix (globs p) t
unfolding globs
globs-stars q p t h = rw h

round_same :
    (star : Option (Bytes × Bytes)) (q c : ℕ) (p t : Bytes)
    → ((q == b'?') || (q == c)) ≡ true
    → glob_round star (q ∷ p) c t ≡ goes_on star p t
unfolding glob_round
round_same star q c p t h = rw h

round_star :
    (star : Option (Bytes × Bytes)) (q c : ℕ) (p t : Bytes)
    → ((q == b'?') || (q == c)) ≡ false
    → (q == b'*') ≡ true
    → glob_round star (q ∷ p) c t ≡ goes_on (some (p, c ∷ t)) p (c ∷ t)
unfolding glob_round
round_star star q c p t h k = rw (h, k)

round_back :
    (star : Option (Bytes × Bytes)) (q c : ℕ) (p t : Bytes)
    → ((q == b'?') || (q == c)) ≡ false
    → (q == b'*') ≡ false
    → glob_round star (q ∷ p) c t ≡ back star
unfolding glob_round
round_back star q c p t h k = rw (h, k)

round_nil : (star : Option (Bytes × Bytes)) (c : ℕ) (t : Bytes) → glob_round star [] c t ≡ back star
unfolding glob_round
round_nil star c t = refl

globs-nil : (c : ℕ) (t : Bytes) → globs [] (c ∷ t) ≡ false
unfolding globs
globs-nil c t = refl

or_no : (b : Bool) → (b || false) ≡ b
or_no true = refl
or_no false = refl

-- A match of an older star adds nothing to those of the last star.
or_older :
    (w u p m t : Bytes)
    → w ≡ u ++ b'*' ∷ p
    → Lacks b'*' u
    → t ≡ drop (length u) m
    → (any_suffix (globs p) t || later (globs w) m) ≡ any_suffix (globs p) t
or_older w u p [] t e lu at_t = or_no _
or_older w u p (a ∷ m) t e lu at_t = elim (Bool-cases (any_suffix (globs p) t)) [
  | inl y ↦ rw y
  | inr n ↦ elim (Bool-cases (any_suffix (globs w) m)) [
    | inl y ↦
        let older = any_suffix-star u p m lu (rw e at y) in
        let last : any_suffix (globs p) t ≡ true =
          rw at_t (any_suffix-drop (globs p) (length u) a m older) in
        cc
    | inr k ↦ rw (n, k)
  ]
]

loop_goes_on :
    (fuel c : ℕ) (star star' : Option (Bytes × Bytes)) (p t p' t' : Bytes)
    → glob_round star p c t ≡ goes_on star' p' t'
    → glob_loop (suc fuel) star p (c ∷ t) ≡ glob_loop fuel star' p' t'
unfolding glob_loop
loop_goes_on fuel c star star' p t p' t' h = rw (h, glob_loop)

length-behind : (w u p : Bytes) → w ≡ u ++ b'*' ∷ p → length w ≡ length u + suc (length p)
length-behind w u p e = ap length e ∙ length-append u (b'*' ∷ p)

-- The loop behind a star: `w` stands behind it, `u` is what has been matched of that since, and `m`
-- is the text from where its match began.
greedy_some :
    (fuel n : ℕ) (w u p m t : Bytes)
    → w ≡ u ++ p
    → Lacks b'*' u
    → Lacks b'*' m
    → Lacks b'*' t
    → t ≡ drop (length u) m
    → length m ≤ n
    → (length w * suc n + length m) * suc n + length t < fuel
    → glob_loop fuel (some (w, m)) p t ≡ some (globs p t || later (globs w) m)
unfolding glob_loop
greedy_some zero n w u p m t e lu lm lt at_t small enough = absurd (omega arith)
greedy_some (suc fuel) n w u p [] [] e lu lm lt at_t small enough =
    rw (only_stars_lem p, or_no (only_stars p))
greedy_some (suc fuel) n w u p (a ∷ m) [] e lu lm lt at_t small enough =
    let short : length m < length u =
      omega (arith, ap length at_t, length-drop (length u) (a ∷ m)) in
    rw (e, no_suffix u p m lu short, only_stars_lem p, or_no (only_stars p))
greedy_some (suc fuel) n w u p [] (c ∷ t) e lu lm lt at_t small enough =
    absurd (omega (arith, ap length at_t, length-drop {A = ℕ} (length u) []))
greedy_some (suc fuel) n w u [] (a ∷ m) (c ∷ t) e lu lm lt at_t small enough =
    loop_goes_on fuel c _ _ [] t w m (round_nil (some (w, a ∷ m)) c t)
    ∙ greedy_some fuel n w [] w m m refl tt lm.1 lm.1 refl (omega arith)
        (omega (arith, weight_back (length w) (length m) (suc (length t)) n (omega arith)))
    ∙ rw (globs-nil c t) (ap some (sym (any_suffix-later (globs w) m)))
greedy_some (suc fuel) n w u (q ∷ p) (a ∷ m) (c ∷ t) e lu lm lt at_t small enough =
    elim (Bool-cases ((q == b'?') || (q == c))) [
      | inl same ↦
          loop_goes_on fuel c _ _ (q ∷ p) t p t (round_same (some (w, a ∷ m)) q c p t same)
          ∙ greedy_some fuel n w (u ++ q ∷ []) p (a ∷ m) t (e ∙ sym (append_assoc u (q ∷ []) p))
              (Lacks-append b'*' u (q ∷ []) lu (no_star q c same (lt.0), tt)) lm (lt.1)
              (rw (length-append u (q ∷ []), add-one) ((drop-cons (length u) c t (a ∷ m) at_t).0))
              small (omega arith)
          ∙ rw (globs-same q c p t same (lt.0))
      | inr other ↦ elim (Bool-cases (q == b'*')) [
        | inl star ↦
            let older : w ≡ u ++ b'*' ∷ p =
              e ∙ ap (λ (x : ℕ). u ++ x ∷ p) ((==_iff q b'*').0 star) in
            let long : length t < length (a ∷ m) =
              omega (arith, ap length at_t, length-drop (length u) (a ∷ m)) in
            let lengths = length-behind w u p older in
            loop_goes_on fuel c _ _ (q ∷ p) t p (c ∷ t)
              (round_star (some (w, a ∷ m)) q c p t other star)
            ∙ greedy_some fuel n p [] p (c ∷ t) (c ∷ t) refl tt lt lt refl (omega arith) (
                omega (
                  arith,
                  weight_star (length u) (length p) (suc (length m)) (suc (length t)) n
                      (omega arith),
                  rw lengths at enough,
                ))
            ∙ ap some (
                sym (any_suffix-later (globs p) (c ∷ t))
                ∙ sym (or_older w u p (a ∷ m) (c ∷ t) older lu at_t)
                ∙ rw (globs-stars q p (c ∷ t) star))
        | inr plain ↦
            loop_goes_on fuel c _ _ (q ∷ p) t w m (round_back (some (w, a ∷ m)) q c p t other plain)
            ∙ greedy_some fuel n w [] w m m refl tt (lm.1) (lm.1) refl (omega arith)
                (omega (arith, weight_back (length w) (length m) (suc (length t)) n (omega arith)))
            ∙ rw (globs-other q c p t other plain) (ap some (sym (any_suffix-later (globs w) m)))
      ]
    ]

-- The loop where there has been no star.
greedy_none :
    (fuel n : ℕ) (p t : Bytes)
    → Lacks b'*' t
    → length t ≤ n
    → (length p * suc n + n) * suc n + length t < fuel
    → glob_loop fuel none p t ≡ some (globs p t)
unfolding glob_loop
greedy_none zero n p t lt small enough = absurd (omega arith)
greedy_none (suc fuel) n p [] lt small enough = rw (only_stars_lem p)
greedy_none (suc fuel) n [] (c ∷ t) lt small enough =
    rw (round_nil none c t, glob_loop, globs-nil c t)
greedy_none (suc fuel) n (q ∷ p) (c ∷ t) lt small enough =
    elim (Bool-cases ((q == b'?') || (q == c))) [
      | inl same ↦
          loop_goes_on fuel c none none (q ∷ p) t p t (round_same none q c p t same)
          ∙ greedy_none fuel n p t (lt.1) (omega arith) (grind arith)
          ∙ rw (globs-same q c p t same (lt.0))
      | inr other ↦ elim (Bool-cases (q == b'*')) [
        | inl star ↦
            loop_goes_on fuel c none _ (q ∷ p) t p (c ∷ t) (round_star none q c p t other star)
            ∙ greedy_some fuel n p [] p (c ∷ t) (c ∷ t) refl tt lt lt refl small (grind arith)
            ∙ ap some
                (sym (any_suffix-later (globs p) (c ∷ t)) ∙ sym (globs-stars q p (c ∷ t) star))
        | inr plain ↦
            rw (round_back none q c p t other plain, glob_loop, globs-other q c p t other plain)
      ]
    ]

-- `MatchGlob` never runs out of its rounds, and decides whether the pattern matches the text, where the
-- text holds no star: `?` takes one character and `*` any number of them.
pub match_glob_lem :
    (p t : Bytes)
    → Lacks b'*' t
    → (glob_loop (glob_fuel (length p) (length t)) none p t ≡ some (globs p t))
      × (match_glob p t ≡ globs p t)
unfolding match_glob
match_glob_lem p t lt =
    let runs =
      greedy_none (glob_fuel (length p) (length t)) (length t) p t lt (omega arith) (omega arith) in
    (runs, rw runs)
