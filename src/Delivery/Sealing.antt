-- ===== src/Delivery/Sealing.antt =====
-- Encryption along a sequence of packets, and that decryption in the same order undoes it.
use undying_terminal.Prelude.{
  ◌+◌, ◌≡◌, refl, ap, sym, true, false, some, List, [], ◌∷◌, ◌++◌, ltb, length, arith, Bytes,
}
use undying_terminal.Result.{Result, ok}
use undying_terminal.Packet.{Packet, serialize}
use undying_terminal.Packet.RoundTrip.{of_bytes-serialize}
use undying_terminal.Crypto.{
  SecretBox, IsSecretBox, CryptoHandler, bump, encrypt, decrypt, mac_bytes,
}
use undying_terminal.Reader.{open_packet}
use undying_terminal.Delivery.{IsShort}

abbrev pub sealed_packet : Packet → Bytes → Packet
sealed_packet p payload = record p { encrypted = true; payload = payload }

-- The packet as `Read` returns it.
abbrev pub clear : Packet → Packet
clear p = record p { encrypted = false }

-- `qs` are the encryptions of `ps` by a handler that goes from `c` to `d`.
abbrev pub Seals : SecretBox → CryptoHandler → List Packet → List Packet → CryptoHandler → Type 0
Seals box c [] [] d = c ≡ d
Seals box c [] (q ∷ qs) d = ⊥
Seals box c (p ∷ ps) [] d = ⊥
Seals box c (p ∷ ps) (q ∷ qs) d =
    (payload : Bytes) × (encrypt box c p.payload ≡ (ok payload, bump c))
    × (q ≡ sealed_packet p payload)
    × IsShort p
    × Seals box (bump c) ps qs d

module _ (box : SecretBox) where
  pub Seals-concat :
      (c : CryptoHandler) (ps qs : List Packet) (d : CryptoHandler) (p : Packet) (payload : Bytes)
      → Seals box c ps qs d
      → encrypt box d p.payload ≡ (ok payload, bump d)
      → IsShort p
      → Seals box c (ps ++ p ∷ []) (qs ++ sealed_packet p payload ∷ []) (bump d)
  Seals-concat c [] [] d p payload e h short = (payload, rw e h, refl, short, ap bump e)
  Seals-concat c [] (q ∷ qs) d p payload e h short = absurd e
  Seals-concat c (x ∷ ps) [] d p payload e h short = absurd e
  Seals-concat c (x ∷ ps) (q ∷ qs) d p payload (s, a, b, t, e) h short =
      (s, a, b, t, Seals-concat (bump c) ps qs d p payload e h short)

  -- `Encrypt` moves the nonce by one, also where it throws.
  pub encrypt-bump :
      (c : CryptoHandler) (text : Bytes) (r : Result Bytes) (d : CryptoHandler)
      → encrypt box c text ≡ (r, d)
      → d ≡ bump c
  unfolding encrypt
  encrypt-bump c text r d e = sym (ap (λ (x : Result Bytes × CryptoHandler). x.1) e)

  seal-encrypt :
      (c : CryptoHandler) (text sealed : Bytes)
      → encrypt box c text ≡ (ok sealed, bump c)
      → box.seal c.key (bump c).nonce text ≡ some sealed
  unfolding encrypt
  seal-encrypt c text sealed e = ground arith

  -- `Decrypt` under the nonce that `Encrypt` used gives the text back.
  decrypt-encrypt :
      (c : CryptoHandler) (text sealed : Bytes)
      → IsSecretBox box
      → encrypt box c text ≡ (ok sealed, bump c)
      → (decrypt box c sealed ≡ (ok text, bump c)) × (length sealed ≡ length text + mac_bytes)
  unfolding decrypt
  decrypt-encrypt c text sealed good e =
      let boxed = seal-encrypt c text sealed e in
      let longer = good.length-seal c.key (bump c).nonce text sealed boxed in
      let long_enough : ltb (length sealed) mac_bytes ≡ false = ground arith in
      (rw (long_enough, good.unseal-seal c.key (bump c).nonce text sealed boxed), longer)

  -- Opening the first sealed packet of a sequence.
  pub open_packet-Seals :
      (c : CryptoHandler) (p : Packet) (payload : Bytes)
      → IsSecretBox box
      → encrypt box c p.payload ≡ (ok payload, bump c)
      → open_packet box c (serialize (sealed_packet p payload)) ≡ (ok (clear p), bump c)
  unfolding open_packet
  open_packet-Seals c p payload good e =
      rw (of_bytes-serialize, (decrypt-encrypt c p.payload payload good e).0)

  -- What a sealed packet takes on the wire.
  pub length-sealed :
      (c : CryptoHandler) (p : Packet) (payload : Bytes)
      → IsSecretBox box
      → encrypt box c p.payload ≡ (ok payload, bump c)
      → length (serialize (sealed_packet p payload)) ≡ length p.payload + mac_bytes + 2
  unfolding serialize
  length-sealed c p payload good e = omega (arith, (decrypt-encrypt c p.payload payload good e).1)

-- The packet before encryption of the first of a sequence of sealed packets.
pub record Head (box : SecretBox) (c : CryptoHandler) (ps : List Packet) (q : Packet)
    (qs : List Packet) (d : CryptoHandler) : Type 0 where
  pub first : Packet
  pub others : List Packet
  pub payload : Bytes
  pub split : ps ≡ first ∷ others
  pub sealed : encrypt box c first.payload ≡ (ok payload, bump c)
  pub is_sealed : q ≡ sealed_packet first payload
  pub short : IsShort first
  pub rest : Seals box (bump c) others qs d

pub Seals-Head :
    (box : SecretBox) (c : CryptoHandler) (ps : List Packet) (q : Packet) (qs : List Packet)
    (d : CryptoHandler)
    → Seals box c ps (q ∷ qs) d
    → Head box c ps q qs d
Seals-Head box c [] q qs d h = absurd h
Seals-Head box c (p ∷ ps) q qs d (payload, sealed, is_sealed, short, rest) = record {
  first = p;
  others = ps;
  payload = payload;
  split = refl;
  sealed = sealed;
  is_sealed = is_sealed;
  short = short;
  rest = rest;
}
