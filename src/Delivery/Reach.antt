-- ===== src/Delivery/Reach.antt =====
-- What any history of steps delivers.
use mathlib.Core.List.{map-append}
use undying_terminal.Prelude.{ℕ, ◌≡◌, ap, sym, ◌∙◌, List, ◌++◌, map, Bytes}
use undying_terminal.Result.{ok}
use undying_terminal.Packet.{Packet}
use undying_terminal.Crypto.{SecretBox, IsSecretBox, CryptoHandler}
use undying_terminal.Reader.{Answer, ReadResult, read}
use undying_terminal.Reader.Assembly.{IsStream}
use undying_terminal.Delivery.{Link, Reaches, here, next, start}
use undying_terminal.Delivery.Sealing.{clear}
use undying_terminal.Delivery.Invariant.{Inv, start-Inv}
use undying_terminal.Delivery.Steps.{Step-Inv, read-After}

module _ {Net : Type 0} (recv : ℕ → ℕ → Net → Answer × Net) (pending : Net → Bytes)
    (box : SecretBox) (c : CryptoHandler) (good : IsSecretBox box)
    (ok_net : IsStream recv pending) where
  pub Reaches-Inv : {l m : Link} → Inv box c l → Reaches recv pending box l m → Inv box c m
  Reaches-Inv i here = i
  Reaches-Inv i (next r s) = Step-Inv recv pending box c good ok_net s (Reaches-Inv i r)

  -- After any steps from a fresh link whose written packets are short enough (a payload of at most 128 MiB less
  -- 18 bytes), with fewer than 2 ^ 31 packets received at each recovery, the packets that `Read` has returned are
  -- the first of those that `Write` has numbered, each once, in order and with its header and payload (the
  -- encryption flag is cleared).
  pub delivered_prefix :
      (writing reading : ℕ) {l : Link}
      → Reaches recv pending box (start c writing reading) l
      → (ahead : List Packet) × (map clear l.written ≡ l.delivered ++ ahead)
  delivered_prefix writing reading r =
      let i = Reaches-Inv (start-Inv box c writing reading) r in
      (
        map clear i.ahead,
        ap (map clear) i.written_is
            ∙ map-append clear i.seen i.ahead
            ∙ ap (λ ps. ps ++ map clear i.ahead) (sym i.delivered_is),
      )

  -- After such steps, in which every written packet has a payload of at most 128 MiB less 18 bytes, `Read` does
  -- not throw, whatever pieces the socket gives: no length is refused and every packet opens.
  pub read-total :
      (writing reading : ℕ) {l : Link} (n : Net)
      → Reaches recv pending box (start c writing reading) l
      → pending n ≡ l.wire
      → (result : ReadResult) × ((read recv box l.reader n).0.0 ≡ ok result)
  read-total writing reading {l} n r wire =
      (read-After recv pending box c good ok_net l n
        (Reaches-Inv (start-Inv box c writing reading) r) wire).1
