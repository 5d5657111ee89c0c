-- ===== src/SshConfig/Glob/Plain.antt =====
-- The plain definition of a match, in which every star takes every number of characters.
use undying_terminal.Prelude.{
  ℕ, zero, suc, ◌≤◌, ◌<◌, ◌≡◌, ◌≢◌, refl, Bool, true, false, ◌||◌, ◌&&◌, [], ◌∷◌, ◌++◌, ◌==◌,
  if◌then◌else◌, length, drop, Bytes, Bool-cases, inl, inr, arith,
}
use undying_terminal.Text.Splitting.{Lacks}
use undying_terminal.SshConfig.Glob.{only_stars}

-- Some suffix of a text passes.
unfoldable pub any_suffix : (Bytes → Bool) → Bytes → Bool
any_suffix f [] = f []
any_suffix f (c ∷ t) = f (c ∷ t) || any_suffix f t

unfoldable pub globs : Bytes → Bytes → Bool
globs [] [] = true
globs [] (c ∷ t) = false
globs (q ∷ p) t =
    if q == b'*'
    then any_suffix (globs p) t
    else elim t [ [] ↦ false | c ∷ t' ↦ ((q == b'?') || (q == c)) && globs p t' ]

-- Some proper suffix passes.
abbrev pub later : (Bytes → Bool) → Bytes → Bool
later f [] = false
later f (c ∷ t) = any_suffix f t

pub any_suffix-later : (f : Bytes → Bool) (t : Bytes) → any_suffix f t ≡ (f t || later f t)
unfolding any_suffix
any_suffix-later f [] = elim (Bool-cases (f [])) [ inl y ↦ rw y | inr n ↦ rw n ]
any_suffix-later f (c ∷ t) = refl

false≢true : false ≢ true
false≢true e = cc

and_right : (a b : Bool) → (a && b) ≡ true → b ≡ true
and_right true b e = e
and_right false b e = cc

or_right : (a b : Bool) → b ≡ true → (a || b) ≡ true
or_right true b h = refl
or_right false b h = h

pub any_suffix-drop :
    (f : Bytes → Bool) (k c : ℕ) (s : Bytes)
    → any_suffix f (drop k s) ≡ true
    → any_suffix f (drop k (c ∷ s)) ≡ true
unfolding any_suffix
any_suffix-drop f zero c s h = or_right _ _ h
any_suffix-drop f (suc zero) c [] h = h
any_suffix-drop f (suc (suc k)) c [] h = h
any_suffix-drop f (suc k) c (d ∷ s) h = any_suffix-drop f k d s h

pub only_stars_lem : (p : Bytes) → globs p [] ≡ only_stars p
unfolding globs only_stars any_suffix
only_stars_lem [] = refl
only_stars_lem (q ∷ p) = elim (Bool-cases (q == b'*')) [
  | inl y ↦ rw (y, only_stars_lem p)
  | inr n ↦ rw n
]

-- Characters of the pattern that are no stars take one character each.
globs-length : (u p s : Bytes) → Lacks b'*' u → globs (u ++ p) s ≡ true → length u ≤ length s
unfolding globs
globs-length [] p s l h = omega arith
globs-length (q ∷ u) p [] l h = absurd (false≢true (simp (l.0) at h))
globs-length (q ∷ u) p (c ∷ s) l h =
    omega (arith, globs-length u p s l.1 (and_right ((q == b'?') || (q == c)) _ (simp (l.0) at h)))

globs-star :
    (u p s : Bytes)
    → Lacks b'*' u
    → globs (u ++ b'*' ∷ p) s ≡ true
    → any_suffix (globs p) (drop (length u) s) ≡ true
unfolding globs
globs-star [] p s l h = h
globs-star (q ∷ u) p [] l h = absurd (false≢true (simp (l.0) at h))
globs-star (q ∷ u) p (c ∷ s) l h =
    globs-star u p s l.1 (and_right ((q == b'?') || (q == c)) _ (simp (l.0) at h))

-- Where an older star has a later match, so has the star behind it.
pub any_suffix-star :
    (u p s : Bytes)
    → Lacks b'*' u
    → any_suffix (globs (u ++ b'*' ∷ p)) s ≡ true
    → any_suffix (globs p) (drop (length u) s) ≡ true
unfolding any_suffix
any_suffix-star u p [] l h = globs-star u p [] l h
any_suffix-star u p (c ∷ s) l h = elim (Bool-cases (globs (u ++ b'*' ∷ p) (c ∷ s))) [
  | inl y ↦ globs-star u p (c ∷ s) l y
  | inr n ↦ any_suffix-drop (globs p) (length u) c s (any_suffix-star u p s l (simp n at h))
]

pub no_suffix :
    (u p s : Bytes) → Lacks b'*' u → length s < length u → any_suffix (globs (u ++ p)) s ≡ false
unfolding any_suffix
no_suffix u p [] l h = elim (Bool-cases (globs (u ++ p) [])) [
  | inl y ↦ absurd (omega (arith, globs-length u p [] l y))
  | inr n ↦ n
]
no_suffix u p (c ∷ s) l h = elim (Bool-cases (globs (u ++ p) (c ∷ s))) [
  | inl y ↦ absurd (omega (arith, globs-length u p (c ∷ s) l y))
  | inr n ↦ rw n (no_suffix u p s l (omega arith))
]
