-- ===== src/SshConfig/Breaking.antt =====
-- Where a text is cut at a byte, and at the colon of an address.
use undying_terminal.Prelude.{
  ℕ, ◌≡◌, refl, true, false, none, some, [], ◌∷◌, ◌++◌, ◌==◌, ==_iff, append_assoc, Bytes,
  Bool-cases, inl, inr,
}
use undying_terminal.Text.{contains}
use undying_terminal.Text.Splitting.{Lacks}
use undying_terminal.Tunnel.SshStyle.{Address, bracketed, plain, address_text, host_of, IsAddress}
use undying_terminal.SshConfig.{break_first, break_last, parse_host_port}

pub break_first-Lacks : (c : ℕ) (s t : Bytes) → Lacks c s → break_first c (s ++ c ∷ t) ≡ some (s, t)
unfolding break_first
break_first-Lacks c [] t h = rw (==_iff c c).1 refl
break_first-Lacks c (a ∷ s) t h = rw (h.0, break_first-Lacks c s t h.1)

pub break_first-none : (c : ℕ) (s : Bytes) → Lacks c s → break_first c s ≡ none
unfolding break_first
break_first-none c [] h = refl
break_first-none c (a ∷ s) h = rw (h.0, break_first-none c s h.1)

break_last-none : (c : ℕ) (s : Bytes) → Lacks c s → break_last c s ≡ none
unfolding break_last
break_last-none c [] h = refl
break_last-none c (a ∷ s) h = rw (break_last-none c s h.1, h.0) refl

break_last-Lacks : (c : ℕ) (s t : Bytes) → Lacks c t → break_last c (s ++ c ∷ t) ≡ some (s, t)
unfolding break_last
break_last-Lacks c [] t h = rw (break_last-none c t h, (==_iff c c).1 refl) refl
break_last-Lacks c (a ∷ s) t h = rw (break_last-Lacks c s t h) refl

pub Lacks-contains : (c : ℕ) (s : Bytes) → Lacks c s → contains c s ≡ false
unfolding contains
Lacks-contains c [] h = refl
Lacks-contains c (a ∷ s) h = rw (h.0, Lacks-contains c s h.1) refl

pub contains-middle : (c : ℕ) (s t : Bytes) → contains c (s ++ c ∷ t) ≡ true
unfolding contains
contains-middle c [] t = rw ((==_iff c c).1 refl) refl
contains-middle c (a ∷ s) t = elim (Bool-cases (a == c)) [
  | inl y ↦ rw y refl
  | inr n ↦ rw n (contains-middle c s t)
]

-- An address with its port behind it is taken apart again.
pub parse_host_port_lem :
    (a : Address) (port : Bytes)
    → IsAddress a
    → Lacks b':' port
    → parse_host_port (address_text a ++ b':' ∷ port) ≡ some (host_of a, port)
unfolding parse_host_port address_text
parse_host_port_lem (bracketed h) port is_host k =
    rw
      (
        append_assoc h (b']' ∷ []) (b':' ∷ port),
        break_first-Lacks b']' h (b':' ∷ port) is_host.no_close,
      )
      refl
parse_host_port_lem (plain []) port (is_host, l) k =
    rw (break_last-Lacks b':' [] port k, Lacks-contains b':' [] l) refl
parse_host_port_lem (plain (c ∷ h)) port (is_host, l) k =
    rw (is_host.no_open.0, break_last-Lacks b':' (c ∷ h) port k, Lacks-contains b':' (c ∷ h) l) refl
