-- ===== src/Delivery/Steps.antt =====
-- Every step keeps the invariant.
mod Writes
mod Reads
mod ReadCases
mod SocketReads
mod Recovers
pub use ReadCases.{read_local-sealed}
pub use Reads.{read_live, read_buffered-cons}
use undying_terminal.Prelude.{
  ℕ, ◌≡◌, true, some, inl, inr, Bool-cases, List, [], ◌++◌, ◌==◌, append-nil, Bytes, Option, refl,
}
use undying_terminal.Result.{Result, ok}
use undying_terminal.Packet.{Packet}
use undying_terminal.Crypto.{SecretBox, IsSecretBox, CryptoHandler}
use undying_terminal.Writer.{
  BackedWriter, WriteState, SendEvent, skipped, wrote_with_failure, success, invalid_socket, write,
}
use undying_terminal.Writer
use undying_terminal.Reader.{Answer}
use undying_terminal.Reader.Assembly.{IsStream}
use undying_terminal.Delivery.{
  Link, Step, writes, reads, writer_closes, reader_closes, recovers, recovers_writer,
  recovers_reader, IsShort, IsDown, counted, settled,
}
use undying_terminal.Delivery.Invariant.{Inv}
use Writes.{writes_live-Inv, write-Wrote}
pub use SocketReads.{read-After}
use Recovers.{reader_closes-Inv, writer_closes-Inv, recovers_writer-Inv, recovers-Inv}
pub use Recovers.{brought}

write_dead :
    (box : SecretBox) (w : BackedWriter) (p : Packet) (es : List SendEvent)
    → IsDown w.socket
    → write box w p es ≡ record { writer = w; result = ok (some skipped); sent = [] }
unfolding write
write_dead box w p es dead = rw dead

settled-skipped :
    (w : BackedWriter) (state : WriteState)
    → ◌≡◌ {A = Result (Option WriteState)} (ok (some skipped)) (ok (some state))
    → settled state w ≡ w
settled-skipped w skipped e = refl
settled-skipped w success e = refl
settled-skipped w wrote_with_failure e = cc

writes-Inv :
    (box : SecretBox) (c : CryptoHandler) (l : Link) (p : Packet) (es : List SendEvent)
    (state : WriteState)
    → Inv box c l
    → IsShort p
    → (write box l.writer p es).result ≡ ok (some state)
    → Inv box c (record l {
      writer = settled state (write box l.writer p es).writer;
      wire = l.wire ++ (write box l.writer p es).sent;
      written = l.written ++ counted l.writer p;
    })
writes-Inv box c l p es state i short h = elim (Bool-cases (l.writer.socket == invalid_socket)) [
  | inl dead ↦
      let idle = write_dead box l.writer p es dead in
      rw (idle, dead, append-nil, append-nil, settled-skipped l.writer state (rw idle at h)) i
  | inr live ↦
      writes_live-Inv box c l p es state i short live h (write-Wrote box l.writer p es state live h)
]

module _ {Net : Type 0} (recv : ℕ → ℕ → Net → Answer × Net) (pending : Net → Bytes)
    (box : SecretBox) (c : CryptoHandler) (good : IsSecretBox box)
    (ok_net : IsStream recv pending) where
  pub Step-Inv : {l m : Link} → Step recv pending box l m → Inv box c l → Inv box c m
  Step-Inv {l} (writes p es state short h) i = writes-Inv box c l p es state i short h
  Step-Inv {l} (reads n wire) i = (read-After recv pending box c good ok_net l n i wire).0
  Step-Inv {l} writer_closes i = writer_closes-Inv box c l i
  Step-Inv {l} reader_closes i = reader_closes-Inv box c l i
  Step-Inv {l} (recovers writing reading out down _ _ _ small e) i =
      recovers-Inv box c l i writing reading out down small e
  Step-Inv {l} (recovers_writer writing _ down) i = recovers_writer-Inv box c l i writing down
  Step-Inv {l} (recovers_reader reading out down _ small e) i =
      recovers-Inv box c l i l.writer.socket reading out down small e
