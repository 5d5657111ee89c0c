-- ===== src/Writer/Backup.antt =====
-- What the eviction loop keeps: the longest run of newest packets that fits in the limit.
use undying_terminal.Prelude.{
  ℕ, zero, suc, ◌+◌, ◌-◌, ◌≤◌, ◌<◌, ◌≡◌, refl, ap, false, Bool-cases, inl, inr, List, [], ◌∷◌, ltb,
  leb, if◌then◌else◌, length, take, arith, leb→le, ltb→lt,
}
use undying_terminal.Packet.{Packet, packet_length}
use undying_terminal.Writer.{evict, pop_back, back_length, max_backup_bytes}

-- The bytes that a list of packets takes.
unfoldable pub total : List Packet → ℕ
total [] = 0
total (p ∷ ps) = packet_length p + total ps

-- The longest prefix of a list of packets that takes at most `budget` bytes.
unfoldable pub fits : ℕ → List Packet → List Packet
fits budget [] = []
fits budget (p ∷ ps) =
    if leb (packet_length p) budget then p ∷ fits (budget - packet_length p) ps else []

pub total-fits : (budget : ℕ) (ps : List Packet) → total (fits budget ps) ≤ budget
unfolding total fits
total-fits budget [] = omega arith
total-fits budget (p ∷ ps) = ground (arith, total-fits (budget - packet_length p) ps)

fits-all : (budget : ℕ) (ps : List Packet) → total ps ≤ budget → fits budget ps ≡ ps
unfolding total fits
fits-all budget [] h = refl
fits-all budget (p ∷ ps) h = ground (arith, fits-all (budget - packet_length p) ps (omega arith))

fits-pop_back :
    (budget : ℕ) (ps : List Packet) → budget < total ps → fits budget (pop_back ps) ≡ fits budget ps
unfolding total fits pop_back
fits-pop_back budget [] h = refl
fits-pop_back budget (p ∷ []) h = ground arith
fits-pop_back budget (p ∷ q ∷ ps) h = elim (Bool-cases (leb (packet_length p) budget)) [
  | inl y ↦ rw y (
      ap (◌∷◌ p) (
        fits-pop_back (budget - packet_length p) (q ∷ ps)
          (omega (arith, leb→le (packet_length p) budget y))))
  | inr n ↦ rw n
]

-- Fitting twice, the second time in less room, is fitting once.
pub fits-fits :
    (less more : ℕ) (ps : List Packet) → less ≤ more → fits less (fits more ps) ≡ fits less ps
unfolding fits
fits-fits less more [] h = refl
fits-fits less more (p ∷ ps) h =
    ground (arith, fits-fits (less - packet_length p) (more - packet_length p) ps (omega arith))

total-pop_back : (ps : List Packet) → total (pop_back ps) ≡ total ps - back_length ps
unfolding total pop_back back_length
total-pop_back [] = omega arith
total-pop_back (p ∷ []) = omega arith
total-pop_back (p ∷ q ∷ ps) = omega (arith, total-pop_back (q ∷ ps), back_length-le q ps)
  where
    back_length-le : (q : Packet) (ps : List Packet) → back_length (q ∷ ps) ≤ total (q ∷ ps)
    back_length-le q [] = omega arith
    back_length-le q (r ∷ ps) = omega (arith, back_length-le r ps)

length-pop_back : (p : Packet) (ps : List Packet) → length (pop_back (p ∷ ps)) ≡ length ps
unfolding pop_back
length-pop_back p [] = refl
length-pop_back p (q ∷ ps) = ap suc (length-pop_back q ps)

evict-nil :
    (rounds : ℕ)
    → evict rounds (total []) [] ≡ (total (fits max_backup_bytes []), fits max_backup_bytes [])
unfolding evict total fits
evict-nil zero = refl
evict-nil (suc rounds) = refl

-- The loop keeps exactly the packets that fit, and its count of bytes is theirs.
pub evict-fits :
    (rounds : ℕ) (ps : List Packet)
    → length ps ≤ rounds
    → evict rounds (total ps) ps ≡ (total (fits max_backup_bytes ps), fits max_backup_bytes ps)
unfolding evict
evict-fits rounds [] h = evict-nil rounds
evict-fits zero (p ∷ ps) h = absurd (omega arith)
evict-fits (suc rounds) (p ∷ ps) h = elim (Bool-cases (ltb max_backup_bytes (total (p ∷ ps)))) [
  | inl over ↦ rw over (
      rw (← total-pop_back (p ∷ ps)) (
        rw (evict-fits rounds (pop_back (p ∷ ps)) (omega (arith, length-pop_back p ps))) (
          rw (
            fits-pop_back max_backup_bytes (p ∷ ps)
              (ltb→lt max_backup_bytes (total (p ∷ ps)) over)))))
  | inr under ↦ rw (under, fits-all max_backup_bytes (p ∷ ps) (not_over (total (p ∷ ps)) under))
]
  where
    not_over : (n : ℕ) → ltb max_backup_bytes n ≡ false → n ≤ max_backup_bytes
    not_over n e = ground arith

-- A prefix of a list, by its length.
pub fits-take : (budget : ℕ) (ps : List Packet) → fits budget ps ≡ take (length (fits budget ps)) ps
unfolding fits
fits-take budget [] = refl
fits-take budget (p ∷ ps) = ground (arith, fits-take (budget - packet_length p) ps)
