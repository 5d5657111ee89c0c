-- ===== src/Session/Texts.antt =====
-- The text in packets.
use undying_terminal.Prelude.{
  ◌≡◌, refl, List, [], ◌∷◌, ◌++◌, ◌==◌, inl, inr, Bool-cases, append_assoc, append-nil, Bytes,
}
use undying_terminal.Packet.{Packet}
use undying_terminal.PortForward.{Effect, sends, writes, closes}
use undying_terminal.Session.{
  terminal_buffer, TerminalCodec, IsTerminalCodec, coded, bytes_of, text, sent,
}
use undying_terminal.Session.Quiet.{IsQuiet}

module _ (c : TerminalCodec) where
  pub text-append : (ps qs : List Packet) → text c (ps ++ qs) ≡ text c ps ++ text c qs
  unfolding text
  text-append [] qs = refl
  text-append (p ∷ ps) qs = elim (Bool-cases (p.header == terminal_buffer)) [
    | inl y ↦
        rw
          (
            y,
            text-append ps qs,
            append_assoc (bytes_of (c.get_buffer p.payload)) (text c ps) (text c qs),
          )
          refl
    | inr m ↦ rw (m, text-append ps qs) refl
  ]

  pub text-sent : (es : List Effect) → IsQuiet es → text c (sent es) ≡ []
  unfolding text sent
  text-sent [] q = refl
  text-sent (sends p ∷ es) q = rw q.0 (text-sent es q.1)
  text-sent (writes s b ∷ es) q = text-sent es q
  text-sent (closes s ∷ es) q = text-sent es q

  pub text-coded :
      IsTerminalCodec c → (b : Bytes) → text c (coded terminal_buffer (c.put_buffer b)) ≡ b
  unfolding text
  text-coded law b = let (p, e, back) = law.buffer_back b in rw (e, back) (append-nil b)

  -- Neither holds any.
  pub quiet_pair : (ps qs : List Packet) → text c ps ≡ [] → text c qs ≡ [] → text c (ps ++ qs) ≡ []
  quiet_pair ps qs p q = rw (text-append ps qs, p, q) refl
