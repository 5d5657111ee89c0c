-- ===== src/Tests/Toys.antt =====
-- A concrete secret box and a concrete network, which meet what the theorems ask of them.
use mathlib.Core.Path.{ap₂}
use undying_terminal.Prelude.{
  ℕ, ◌+◌, ◌-◌, ◌≤◌, ◌≡◌, ap, sym, ◌∙◌, Option, some, [], ◌∷◌, ◌++◌, length, take, drop, replicate,
  length-append, length-take, take-append_length, take-append-drop, arith, Bytes,
}
use undying_terminal.Crypto.{SecretBox, IsSecretBox, CryptoHandler}
use undying_terminal.Reader.{Answer, received, closed, failed}
use undying_terminal.Reader.Assembly.{IsStream}

abbrev toy_seal : Bytes → Bytes → Bytes → Option Bytes
toy_seal key nonce text = some (text ++ replicate 16 0)

abbrev toy_unseal : Bytes → Bytes → Bytes → Option Bytes
toy_unseal key nonce sealed = some (take (length sealed - 16) sealed)

-- An authenticator of zeros.
abbrev pub toy_box : SecretBox
toy_box = record { seal = toy_seal; unseal = toy_unseal }

length-toy : (text : Bytes) → length (text ++ replicate 16 0) ≡ length text + 16
length-toy text = omega (arith, length-append text (replicate 16 0))

pub toy_box-IsSecretBox : IsSecretBox toy_box
toy_box-IsSecretBox = record {
  unseal-seal = λ key nonce text sealed e.
      rw (← some-eq _ _ e)
        (ap some (take-append_length _ text (replicate 16 0) (omega (arith, length-toy text))));
  length-seal = λ key nonce text sealed e. rw (← some-eq _ _ e) (length-toy text);
}
  where
    some-eq : (a b : Bytes) → some a ≡ some b → a ≡ b
    some-eq a b e = cc

-- The network is the bytes to come; a read takes as many as it may, and fails where there are none.
abbrev pub toy_recv : ℕ → ℕ → Bytes → Answer × Bytes
toy_recv socket count [] = (failed, [])
toy_recv socket count (b ∷ bs) = (received (take count (b ∷ bs)), drop count (b ∷ bs))

abbrev pub toy_pending : Bytes → Bytes
toy_pending n = n

toy_received :
    (socket count : ℕ) (n bytes n' : Bytes)
    → toy_recv socket count n ≡ (received bytes, n')
    → (n ≡ bytes ++ n') × (length bytes ≤ count)
toy_received socket count [] bytes n' e = cc
toy_received socket count (b ∷ bs) bytes n' e = (
  sym (take-append-drop count (b ∷ bs)) ∙ ap₂ ◌++◌ came left,
  omega (arith, ap length came, length-take count (b ∷ bs)),
)
  where
    came : take count (b ∷ bs) ≡ bytes
    came = cc

    left : drop count (b ∷ bs) ≡ n'
    left = cc

toy_closed : (socket count : ℕ) (n n' : Bytes) → toy_recv socket count n ≡ (closed, n') → n' ≡ n
toy_closed socket count [] n' e = cc
toy_closed socket count (b ∷ bs) n' e = cc

toy_failed : (socket count : ℕ) (n n' : Bytes) → toy_recv socket count n ≡ (failed, n') → n' ≡ n
toy_failed socket count [] n' e = cc
toy_failed socket count (b ∷ bs) n' e = cc

pub toy_recv-IsStream : IsStream toy_recv toy_pending
toy_recv-IsStream = record {
  recv-pending = toy_received;
  recv-closed = toy_closed;
  recv-failed = toy_failed;
}

abbrev pub toy_crypto : CryptoHandler
toy_crypto = record { nonce = replicate 24 0; key = replicate 32 7 }
