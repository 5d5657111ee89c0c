-- ===== src/Crypto.antt =====
-- src/ut/protocol/CryptoHandler.cpp, as it is built with libsodium (`UNDYING_TERMINAL_REQUIRE_DEPS`).
-- libsodium itself is a parameter: the record `SecretBox` of its two functions, with their
-- documented laws in the predicate `IsSecretBox`.
pub mod Nonce
use undying_terminal.Prelude.{
  ℕ, suc, ◌+◌, ◌%◌, ◌≡◌, refl, Option, none, some, List, [], ◌∷◌, ◌++◌, not, ◌==◌, ltb,
  if◌then◌else◌, length, replicate, Bytes,
}
use undying_terminal.Result.{
  Result, ok, throw, invalid_key_length, encrypt_failed, decrypt_short, decrypt_failed,
}

-- `crypto_secretbox_KEYBYTES`, `_NONCEBYTES` and `_MACBYTES`.
abbrev pub key_bytes : ℕ
key_bytes = 32

abbrev pub nonce_bytes : ℕ
nonce_bytes = 24

abbrev pub mac_bytes : ℕ
mac_bytes = 16

-- `crypto_secretbox_easy` and `crypto_secretbox_open_easy`, key first, then nonce, then text;
-- `none` is a result other than 0.
pub record SecretBox : Type 0 where
  pub seal : Bytes → Bytes → Bytes → Option Bytes
  pub unseal : Bytes → Bytes → Bytes → Option Bytes

-- What libsodium documents: the box of a text is longer by the authenticator, and opens under the
-- same key and nonce.
pub record IsSecretBox (box : SecretBox) : Type 0 where
  pub unseal-seal :
      (key nonce text sealed : Bytes)
      → box.seal key nonce text ≡ some sealed
      → box.unseal key nonce sealed ≡ some text
  pub length-seal :
      (key nonce text sealed : Bytes)
      → box.seal key nonce text ≡ some sealed
      → length sealed ≡ length text + mac_bytes

-- The fields `nonce_` and `key_`.
pub record CryptoHandler : Type 0 where
  pub nonce : Bytes
  pub key : Bytes

-- `memset(nonce_, 0, …)`, then the last byte.
unfoldable pub initial_nonce : ℕ → Bytes
initial_nonce nonce_msb = replicate 23 0 ++ (nonce_msb ∷ [])

-- The constructor.
unfoldable pub new_crypto : Bytes → ℕ → Result CryptoHandler
new_crypto key nonce_msb =
    if not (length key == key_bytes)
    then throw invalid_key_length
    else ok (record { nonce = initial_nonce nonce_msb; key = key })

-- `CryptoHandler::IncrementNonce`: each byte wraps at 256, and the carry goes on while it does.
unfoldable pub increment_nonce : Bytes → Bytes
increment_nonce [] = []
increment_nonce (b ∷ bs) =
    let bumped = (b + 1) % 256 in
    let carried = increment_nonce bs in if bumped == 0 then bumped ∷ carried else bumped ∷ bs

abbrev pub bump : CryptoHandler → CryptoHandler
bump c = record c { nonce = increment_nonce c.nonce }

module _ (box : SecretBox) where
  -- `CryptoHandler::Encrypt`; the nonce has moved also where it throws.
  unfoldable pub encrypt : CryptoHandler → Bytes → Result Bytes × CryptoHandler
  encrypt c buffer =
      let c' = bump c in
      (elim (box.seal c'.key c'.nonce buffer) [ none ↦ throw encrypt_failed | some s ↦ ok s ], c')

  -- `CryptoHandler::Decrypt`.
  unfoldable pub decrypt : CryptoHandler → Bytes → Result Bytes × CryptoHandler
  decrypt c buffer =
      let c' = bump c in
      (
        if ltb (length buffer) mac_bytes
            then throw decrypt_short
            else elim (box.unseal c'.key c'.nonce buffer) [
              | none ↦ throw decrypt_failed
              | some s ↦ ok s
            ],
        c',
      )
