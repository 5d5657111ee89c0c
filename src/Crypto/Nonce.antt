-- ===== src/Crypto/Nonce.antt =====
-- The nonce as a 24-byte counter: `IncrementNonce` adds one, and the two directions of a connection
-- never use one nonce twice.
use native.Mathlib.Decide.{dec_lt}
use native.Mathlib.Nat.{pow-suc, mod-eq_of_lt, mod_self}
use undying_terminal.Prelude.{
  ℕ, zero, suc, ◌+◌, ◌*◌, ◌%◌, ◌∙◌, ◌^◌, ◌<◌, ◌≡◌, refl, ap, [], ◌∷◌, arith, length, Bytes,
}
use undying_terminal.Wire.{of_le}
use undying_terminal.Crypto.{increment_nonce, initial_nonce}

abbrev pub AllBytes : Bytes → Type 0
AllBytes [] = Unit {0}
AllBytes (b ∷ bs) = (b < 256) × AllBytes bs

pub increment_nonce-AllBytes : (n : Bytes) → AllBytes n → AllBytes (increment_nonce n)
unfolding increment_nonce
increment_nonce-AllBytes [] h = tt
increment_nonce-AllBytes (b ∷ bs) h = ground (arith, increment_nonce-AllBytes bs h.1)

pub length-increment_nonce : (n : Bytes) → length (increment_nonce n) ≡ length n
unfolding increment_nonce
length-increment_nonce [] = refl
length-increment_nonce (b ∷ bs) = ground (arith, length-increment_nonce bs)

pub of_le-lt : (n : Bytes) → AllBytes n → of_le n < 256 ^ length n
unfolding of_le
of_le-lt [] h = omega arith
of_le-lt (b ∷ bs) h = omega (arith, of_le-lt bs h.1, pow-suc 256 (length bs))

mod-full : (n m : ℕ) → n ≡ m → n % m ≡ 0
mod-full n m e = rw e (mod_self m)

-- `IncrementNonce` adds one to the little-endian number in the nonce, a list of bytes, modulo the number
-- of nonces.
pub of_le-increment_nonce :
    (n : Bytes) → AllBytes n → of_le (increment_nonce n) ≡ (of_le n + 1) % 256 ^ length n
unfolding of_le increment_nonce
of_le-increment_nonce [] h = refl
of_le-increment_nonce (b ∷ bs) h = elim (dec_lt (of_le bs + 1) (256 ^ length bs)) [
  | yes small ↦
      let fits = mod-eq_of_lt {n = of_le bs + 1} {m = 256 ^ length bs} small in
      let fits' : (b + 256 * of_le bs + 1) % 256 ^ suc (length bs) ≡ b + 256 * of_le bs + 1 =
        mod-eq_of_lt (omega (arith, pow-suc 256 (length bs))) in
      ground (arith, of_le-increment_nonce bs h.1, fits, fits')
  | no large ↦
      let wraps = mod-full (of_le bs + 1) (256 ^ length bs) (omega (arith, of_le-lt bs h.1)) in
      elim (dec_lt b 255) [
        | yes low ↦
            let fits' : (b + 256 * of_le bs + 1) % 256 ^ suc (length bs) ≡ b + 256 * of_le bs + 1 =
              mod-eq_of_lt (omega (arith, pow-suc 256 (length bs), of_le-lt bs h.1)) in
            ground (arith, of_le-increment_nonce bs h.1, wraps, fits')
        | no top ↦
            let wraps' =
              mod-full (b + 256 * of_le bs + 1) (256 ^ suc (length bs))
                (omega (arith, pow-suc 256 (length bs), of_le-lt bs h.1)) in
            ground (arith, of_le-increment_nonce bs h.1, wraps, wraps')
      ]
]

of_le-increment_nonce_small :
    (n : Bytes)
    → AllBytes n
    → of_le n + 1 < 256 ^ length n
    → of_le (increment_nonce n) ≡ of_le n + 1
of_le-increment_nonce_small n h lt = of_le-increment_nonce n h ∙ mod-eq_of_lt lt

-- The nonce of a handler that has encrypted or decrypted `k` messages.
unfoldable pub nonce_after : ℕ → Bytes → Bytes
nonce_after zero n = n
nonce_after (suc k) n = nonce_after k (increment_nonce n)

pub of_le-nonce_after :
    (k : ℕ) (n : Bytes)
    → AllBytes n
    → of_le n + k < 256 ^ length n
    → of_le (nonce_after k n) ≡ of_le n + k
unfolding nonce_after
of_le-nonce_after zero n h lt = omega arith
of_le-nonce_after (suc k) n h lt = omega (
  arith,
  of_le-increment_nonce_small n h (omega arith),
  of_le-nonce_after k (increment_nonce n) (increment_nonce-AllBytes n h) (
      omega (
        arith,
        of_le-increment_nonce_small n h (omega arith),
        ap (λ (l : ℕ). 256 ^ l) (length-increment_nonce n),
      )),
)

of_le-initial_nonce : (m : ℕ) → of_le (initial_nonce m) ≡ m * 256 ^ 23
unfolding of_le initial_nonce
of_le-initial_nonce m = omega arith

length-initial_nonce : (m : ℕ) → length (initial_nonce m) ≡ 24
unfolding initial_nonce
length-initial_nonce m = refl

initial_nonce-AllBytes : (m : ℕ) → m < 256 → AllBytes (initial_nonce m)
unfolding initial_nonce
initial_nonce-AllBytes m h = omega arith

of_le-nonce_after-initial :
    (m k : ℕ) → m < 2 → k < 256 ^ 23 → of_le (nonce_after k (initial_nonce m)) ≡ m * 256 ^ 23 + k
of_le-nonce_after-initial m k hm hk = omega (
  arith,
  of_le-initial_nonce m,
  of_le-nonce_after k (initial_nonce m) (initial_nonce-AllBytes m (omega arith))
      (omega (arith, of_le-initial_nonce m, ap (λ (l : ℕ). 256 ^ l) (length-initial_nonce m))),
)

-- Two nonces that the handlers of one connection use, in the direction given by the most
-- significant byte (0 or 1) and after fewer than 256 ^ 23 messages each, are the same only for the
-- same direction and the same count of messages.
pub nonce_after_unique :
    (m n j k : ℕ)
    → m < 2
    → n < 2
    → j < 256 ^ 23
    → k < 256 ^ 23
    → nonce_after j (initial_nonce m) ≡ nonce_after k (initial_nonce n)
    → (m ≡ n) × (j ≡ k)
nonce_after_unique m n j k hm hn hj hk e =
    omega
      (arith, of_le-nonce_after-initial m j hm hj, of_le-nonce_after-initial n k hn hk, ap of_le e)
