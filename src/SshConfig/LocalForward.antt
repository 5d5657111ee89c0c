-- ===== src/SshConfig/LocalForward.antt =====
-- A LocalForward line, and the parser of forwarding rules that its text goes to.
use undying_terminal.Prelude.{
  ◌≡◌, refl, ◌∙◌, true, false, Option, none, some, ◌++◌, [], ◌∷◌, if◌then◌else◌, Bytes, Bool-cases,
  inl, inr,
}
use undying_terminal.Prelude.Int.{pos}
use undying_terminal.Result.{ok}
use undying_terminal.Text.{is_empty, contains, is_digit, is_space, value}
use undying_terminal.Text.Splitting.{Lacks, contains-Lacks, is_empty-middle}
use undying_terminal.Text.Words.{
  Spaceless, IsGap, append-Spaceless, digits-Spaceless, words-append, words_one,
}
use undying_terminal.SshConfig.Breaking.{Lacks-contains, contains-middle, parse_host_port_lem}
use undying_terminal.Text.Numbers.{AllDigits, IsNumber, Lacks-digits}
use undying_terminal.Tunnel.{parse_ranges_to_requests}
use undying_terminal.Tunnel.SshStyle.{
  IsHost, Address, bracketed, plain, address_text, host_of, IsAddress, ssh_text, parse_ssh_style,
}
use undying_terminal.SshConfig.{
  is_numeric, all_digits, in_brackets, normalize_address, normalize_local_forward, loopback,
  bind_of, forward_text,
}

-- How a line gives its destination: host and port with a gap between them, or as an address with a port.
pub data Destination : Type 0 where
  apart : (host gap : Bytes) → Destination
  joined : Address → Destination

abbrev pub dest_text : Destination → Bytes → Bytes
dest_text (apart host gap) port = host ++ (gap ++ port)
dest_text (joined a) port = address_text a ++ b':' ∷ port

abbrev pub dest_host : Destination → Bytes
dest_host (apart host gap) = host
dest_host (joined a) = host_of a

abbrev pub IsDestination : Destination → Type 0
IsDestination (apart host gap) = IsHost host × Spaceless host × (is_empty host ≡ false) × IsGap gap
IsDestination (joined a) = IsAddress a × Spaceless (host_of a)

-- What is bound: a port, of an address or not.
abbrev pub bind_text : Option Address → Bytes → Bytes
bind_text none port = port
bind_text (some a) port = address_text a ++ b':' ∷ port

abbrev pub bind_host : Option Address → Bytes
bind_host none = []
bind_host (some a) = host_of a

abbrev pub IsBind : Option Address → Type 0
IsBind none = Unit
IsBind (some a) = IsAddress a × Spaceless (host_of a)

address_for : Bytes → Address
address_for s = if contains b':' s then bracketed s else plain s

no_brackets : (s : Bytes) → Lacks b'[' s → in_brackets s ≡ false
no_brackets [] h = refl
no_brackets (c ∷ s) h = h.0

normalize_address_lem : (s : Bytes) → IsHost s → normalize_address s ≡ address_text (address_for s)
unfolding normalize_address address_for address_text
normalize_address_lem s h = elim (Bool-cases (contains b':' s)) [
  | inl y ↦ rw (y, no_brackets s h.no_open)
  | inr n ↦ rw n
]

address_for-IsAddress :
    (s : Bytes) → IsHost s → IsAddress (address_for s) × (host_of (address_for s) ≡ s)
unfolding address_for
address_for-IsAddress s h = elim (Bool-cases (contains b':' s)) [
  | inl y ↦ rw y (h, refl)
  | inr n ↦ rw n ((h, contains-Lacks b':' s n), refl)
]

numeric : (s : Bytes) → IsNumber s → is_numeric s ≡ true
unfolding is_numeric
numeric s h = rw (h.some_digit, all s h.digits)
  where
    all : (s : Bytes) → AllDigits s → all_digits s ≡ true
    all [] d = refl
    all (c ∷ s) d = rw (d.0, all s d.1)

-- The host that is bound, the loopback address by default.
abbrev pub bound : Bytes → Bytes
bound s = if is_empty s then loopback else s

bound-IsHost : (s : Bytes) → IsHost s → IsHost (bound s)
unfolding contains
bound-IsHost [] h = record {
  no_open = contains-Lacks b'[' loopback refl;
  no_close = contains-Lacks b']' loopback refl;
  no_comma = contains-Lacks b',' loopback refl;
}
bound-IsHost (c ∷ s) h = h

forward_text_lem :
    (bind_host bind_port dest_host dest_port : Bytes)
    → IsHost bind_host
    → IsNumber bind_port
    → IsHost dest_host
    → IsNumber dest_port
    → forward_text (some (bind_host, bind_port)) (some (dest_host, dest_port))
      ≡ some (ssh_text (address_for (bound bind_host)) bind_port (address_for dest_host) dest_port)
unfolding ssh_text
forward_text_lem bh bp dh dp hb pb hd pd = simp (
  numeric bp pb,
  numeric dp pd,
  normalize_address_lem (bound bh) (bound-IsHost bh hb),
  normalize_address_lem dh hd,
)

no_colon : (s : Bytes) → IsNumber s → Lacks b':' s
unfolding is_digit
no_colon s h = Lacks-digits b':' s refl h.digits

-- A host of a line, and what a line may give as one.
address-IsHost : (a : Address) → IsAddress a → IsHost (host_of a)
address-IsHost (bracketed h) is_host = is_host
address-IsHost (plain h) (is_host, l) = is_host

bind-IsHost : (bind : Option Address) → IsBind bind → IsHost (bind_host bind)
bind-IsHost none h = record { no_open = tt; no_close = tt; no_comma = tt }
bind-IsHost (some a) h = address-IsHost a h.0

dest-IsHost : (d : Destination) → IsDestination d → IsHost (dest_host d)
dest-IsHost (apart host gap) h = h.0
dest-IsHost (joined a) h = address-IsHost a h.0

-- An address with a port is one word.
address-Spaceless : (a : Address) → Spaceless (host_of a) → Spaceless (address_text a)
unfolding address_text is_space
address-Spaceless (bracketed h) k = (refl, append-Spaceless h (b']' ∷ []) k (refl, tt))
address-Spaceless (plain h) k = k

with_port-Spaceless :
    (a : Address) (port : Bytes)
    → Spaceless (host_of a)
    → IsNumber port
    → Spaceless (address_text a ++ b':' ∷ port)
unfolding is_space
with_port-Spaceless a port k h =
    append-Spaceless (address_text a) (b':' ∷ port) (address-Spaceless a k)
      (refl, digits-Spaceless port h.digits)

bind-Spaceless :
    (bind : Option Address) (port : Bytes)
    → IsBind bind
    → IsNumber port
    → Spaceless (bind_text bind port)
bind-Spaceless none port h k = digits-Spaceless port k.digits
bind-Spaceless (some a) port h k = with_port-Spaceless a port h.1 k

bind_some :
    (bind : Option Address) (port : Bytes) → IsNumber port → is_empty (bind_text bind port) ≡ false
bind_some none port h = h.some_digit
bind_some (some a) port h = is_empty-middle (address_text a) port b':'

-- What is bound is read back.
bind_of_lem :
    (bind : Option Address) (port : Bytes)
    → IsBind bind
    → IsNumber port
    → bind_of (bind_text bind port) ≡ some (bind_host bind, port)
bind_of_lem none port h k = rw (Lacks-contains b':' port (no_colon port k)) refl
bind_of_lem (some a) port h k =
    rw (contains-middle b':' (address_text a) port)
      (parse_host_port_lem a port h.0 (no_colon port k))

forward_words :
    (bind : Option Address) (bind_port gap : Bytes) (d : Destination) (dest_port : Bytes)
    → IsBind bind
    → IsNumber bind_port
    → IsGap gap
    → IsDestination d
    → IsNumber dest_port
    → normalize_local_forward (bind_text bind bind_port ++ (gap ++ dest_text d dest_port))
      ≡ forward_text (some (bind_host bind, bind_port)) (some (dest_host d, dest_port))
unfolding normalize_local_forward
forward_words bind bp gap (apart host gap') dp b pb g (is_host, spaceless, some_bytes, g') pd =
    let first =
      words-append (bind_text bind bp) gap (host ++ (gap' ++ dp)) (bind-Spaceless bind bp b pb)
        (bind_some bind bp pb) g in
    let second = words-append host gap' dp spaceless some_bytes g' in
    let third = words_one dp (digits-Spaceless dp pd.digits) pd.some_digit in
    rw (first, second, third, bind_of_lem bind bp b pb) refl
forward_words bind bp gap (joined a) dp b pb g (is_address, spaceless) pd =
    let first =
      words-append (bind_text bind bp) gap (address_text a ++ b':' ∷ dp)
        (bind-Spaceless bind bp b pb) (bind_some bind bp pb) g in
    let second =
      words_one (address_text a ++ b':' ∷ dp) (with_port-Spaceless a dp spaceless pd)
        (is_empty-middle (address_text a) dp b':') in
    rw
      (
        first,
        second,
        bind_of_lem bind bp b pb,
        parse_host_port_lem a dp is_address (no_colon dp pd),
      )
      refl

-- A line binds a port, of an address or not, and gives a host and a port behind a gap, as one word or two. The
-- text that NormalizeLocalForward makes of it is parsed to one request, with the line's hosts and ports: the
-- hosts have no brackets, commas and spaces of their own, those with colons stand in brackets or by themselves,
-- ports are digits that fit an `int`, and a bind host that is left out or empty is the loopback address.
pub local_forward_parses :
    (bind : Option Address) (bind_port gap : Bytes) (d : Destination) (dest_port : Bytes)
    → IsBind bind
    → IsNumber bind_port
    → IsGap gap
    → IsDestination d
    → IsNumber dest_port
    → (text : Bytes) × (normalize_local_forward
          (bind_text bind bind_port ++ (gap ++ dest_text d dest_port))
        ≡ some text)
      × (parse_ranges_to_requests text
          ≡ ok (
              record {
                source =
                    some (record { name = bound (bind_host bind); port = pos (value bind_port) });
                destination = some (record { name = dest_host d; port = pos (value dest_port) });
                environment_variable = [];
              }
              ∷ []))
local_forward_parses bind bp gap d dp b pb g is_dest pd =
    let bh = bind_host bind in
    let dh = dest_host d in
    let hb = bind-IsHost bind b in
    let hd = dest-IsHost d is_dest in
    let (source, same) = address_for-IsAddress (bound bh) (bound-IsHost bh hb) in
    let (dest, same') = address_for-IsAddress dh hd in
    (
      ssh_text (address_for (bound bh)) bp (address_for dh) dp,
      forward_words bind bp gap d dp b pb g is_dest pd ∙ forward_text_lem bh bp dh dp hb pb hd pd,
      rw (
        parse_ssh_style (address_for (bound bh)) bp (address_for dh) dp source pb dest pd,
        same,
        same',
      ),
    )
