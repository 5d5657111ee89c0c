-- ===== src/Tunnel/SshStyle.antt =====
-- The ssh style of a forwarding rule, its two hosts with or without square brackets.
use undying_terminal.Prelude.{
  ℕ, suc, ◌≤◌, ◌≡◌, refl, sym, ap, ◌∙◌, Bool, true, false, not, ◌&&◌, some, List, [], ◌∷◌, ◌++◌,
  append_assoc, append-nil, leb, ◌==◌, Bool-cases, inl, inr, length, Bytes, arith,
}
use undying_terminal.Prelude.Int.{pos}
use undying_terminal.Result.{ok}
use undying_terminal.Text.{is_digit, is_empty, split, split_from, value}
use undying_terminal.Text.Splitting.{
  Lacks, Lacks-append, split-append, split_whole, is_empty-middle,
}
use undying_terminal.Text.Numbers.{IsNumber, stoi-digits, Lacks-digits}
use undying_terminal.Tunnel.{
  ssh_step, ssh_loop, parse_ssh_tunnel_arg, ssh_request, parse_ranges_to_requests,
}

-- A host without brackets. A comma would start another rule.
pub record IsHost (s : Bytes) : Type 0 where
  pub no_open : Lacks b'[' s
  pub no_close : Lacks b']' s
  pub no_comma : Lacks b',' s

-- How a host is written: colons only between brackets.
pub data Address : Type 0 where
  bracketed plain : Bytes → Address

unfoldable pub address_text : Address → Bytes
address_text (bracketed s) = b'[' ∷ (s ++ b']' ∷ [])
address_text (plain s) = s

abbrev pub host_of : Address → Bytes
host_of (bracketed s) = s
host_of (plain s) = s

abbrev pub IsAddress : Address → Type 0
IsAddress (bracketed s) = IsHost s
IsAddress (plain s) = IsHost s × Lacks b':' s

-- `bind:port:host:hostport`
unfoldable pub ssh_text : Address → Bytes → Address → Bytes → Bytes
ssh_text bind port host host_port =
    address_text bind ++ b':' ∷ (port ++ b':' ∷ (address_text host ++ b':' ∷ host_port))

-- A byte that is kept: no bracket, and no colon outside of brackets.
step_kept :
    (inside : Bool) (current : Bytes) (parts : List Bytes) (c : ℕ)
    → (c == b'[') ≡ false
    → (c == b']') ≡ false
    → ((c == b':') && not inside) ≡ false
    → ssh_step (record { in_brackets = inside; current = current; parts = parts }) c
      ≡ record { in_brackets = inside; current = current ++ c ∷ []; parts = parts }
unfolding ssh_step
step_kept inside current parts c h k l = rw (h, k, l)

abbrev Kept : Bool → Bytes → Type 0
Kept inside [] = Unit
Kept inside (c ∷ s) = (((c == b':') && not inside) ≡ false) × Kept inside s

Kept-inside : (s : Bytes) → Kept true s
Kept-inside [] = tt
Kept-inside (c ∷ s) = (elim (Bool-cases (c == b':')) [ inl y ↦ rw y | inr n ↦ rw n ], Kept-inside s)

Kept-outside : (s : Bytes) → Lacks b':' s → Kept false s
Kept-outside [] h = tt
Kept-outside (c ∷ s) h = (rw (h.0), Kept-outside s h.1)

-- A run of such bytes goes to the end of the current part.
loop-Kept :
    (inside : Bool) (current : Bytes) (parts : List Bytes) (s rest : Bytes)
    → Lacks b'[' s
    → Lacks b']' s
    → Kept inside s
    → ssh_loop (record { in_brackets = inside; current = current; parts = parts }) (s ++ rest)
      ≡ ssh_loop (record { in_brackets = inside; current = current ++ s; parts = parts }) rest
unfolding ssh_loop
loop-Kept inside current parts [] rest h k l = rw (append-nil current)
loop-Kept inside current parts (c ∷ s) rest h k l =
    ap (λ st. ssh_loop st (s ++ rest)) (step_kept inside current parts c h.0 k.0 l.0)
    ∙ loop-Kept inside (current ++ c ∷ []) parts s rest h.1 k.1 l.1
    ∙ rw (append_assoc current (c ∷ []) s)

no_digits :
    (is_digit b'[' ≡ false)
    × (is_digit b']' ≡ false)
    × (is_digit b':' ≡ false)
    × (is_digit b',' ≡ false)
unfolding is_digit
no_digits = (refl, refl, refl, refl)

loop_number :
    (parts : List Bytes) (s rest : Bytes)
    → IsNumber s
    → ssh_loop (record { in_brackets = false; current = []; parts = parts }) (s ++ rest)
      ≡ ssh_loop (record { in_brackets = false; current = s; parts = parts }) rest
loop_number parts s rest h =
    let (a, b, c, d) = no_digits in
    loop-Kept false [] parts s rest (Lacks-digits b'[' s a h.digits)
      (Lacks-digits b']' s b h.digits) (Kept-outside s (Lacks-digits b':' s c h.digits))

-- An address in brackets, and the colon behind it, are a part of their own.
loop_host :
    (parts : List Bytes) (s rest : Bytes)
    → IsHost s
    → ssh_loop
        (record { in_brackets = false; current = []; parts = parts })
        (b'[' ∷ (s ++ b']' ∷ b':' ∷ rest))
      ≡ ssh_loop (record { in_brackets = false; current = []; parts = parts ++ s ∷ [] }) rest
unfolding ssh_loop ssh_step
loop_host parts s rest h =
    loop-Kept true [] parts s (b']' ∷ b':' ∷ rest) h.no_open h.no_close (Kept-inside s)

loop_address :
    (parts : List Bytes) (a : Address) (rest : Bytes)
    → IsAddress a
    → ssh_loop
        (record { in_brackets = false; current = []; parts = parts })
        (address_text a ++ b':' ∷ rest)
      ≡ ssh_loop
          (record { in_brackets = false; current = []; parts = parts ++ host_of a ∷ [] })
          rest
unfolding address_text ssh_loop ssh_step
loop_address parts (bracketed s) rest h =
    ap
      (λ (x : Bytes).
        ssh_loop (record { in_brackets = false; current = []; parts = parts }) (b'[' ∷ x))
      (append_assoc s (b']' ∷ []) (b':' ∷ rest))
    ∙ loop_host parts s rest h
loop_address parts (plain s) rest h =
    loop-Kept false [] parts s (b':' ∷ rest) (h.0.no_open) (h.0.no_close) (Kept-outside s (h.1))

loop_text :
    (bind : Address) (port : Bytes) (host : Address) (host_port : Bytes)
    → IsAddress bind
    → IsNumber port
    → IsAddress host
    → IsNumber host_port
    → ssh_loop
        (record { in_brackets = false; current = []; parts = [] })
        (ssh_text bind port host host_port)
      ≡ record {
        in_brackets = false;
        current = host_port;
        parts = host_of bind ∷ port ∷ host_of host ∷ [];
      }
unfolding ssh_loop ssh_step ssh_text
loop_text bind port host host_port hb hp hh hq =
    loop_address [] bind (port ++ b':' ∷ (address_text host ++ b':' ∷ host_port)) hb
    ∙ loop_number (host_of bind ∷ []) port (b':' ∷ (address_text host ++ b':' ∷ host_port)) hp
    ∙ loop_address (host_of bind ∷ port ∷ []) host host_port hh
    ∙ ap
        (ssh_loop (record {
          in_brackets = false;
          current = [];
          parts = host_of bind ∷ port ∷ host_of host ∷ [];
        }))
        (sym (append-nil host_port))
    ∙ loop_number (host_of bind ∷ port ∷ host_of host ∷ []) host_port [] hq

-- More text in front gives no fewer parts.
split_from_mono :
    (sep : ℕ) (current current' s : Bytes)
    → is_empty current' ≡ false
    → length (split_from sep current s) ≤ length (split_from sep current' s)
unfolding split_from
split_from_mono sep [] current' [] h = omega arith
split_from_mono sep (x ∷ xs) current' [] h = rw h (omega arith)
split_from_mono sep current current' (c ∷ s) h = elim (Bool-cases (c == sep)) [
  | inl y ↦ rw (y, split_from) (omega arith)
  | inr n ↦
      rw (n, split_from)
        (split_from_mono sep (current ++ c ∷ []) (current' ++ c ∷ []) s (is_empty-snoc current' c))
]
  where
    is_empty-snoc : (xs : Bytes) (x : ℕ) → is_empty (xs ++ x ∷ []) ≡ false
    is_empty-snoc [] x = refl
    is_empty-snoc (y ∷ xs) x = refl

split_from-drop :
    (sep : ℕ) (current s rest : Bytes)
    → length (split rest sep) ≤ length (split_from sep current (s ++ rest))
unfolding split split_from
split_from-drop sep [] [] rest = omega arith
split_from-drop sep (x ∷ xs) [] rest = split_from_mono sep [] (x ∷ xs) rest refl
split_from-drop sep current (c ∷ s) rest = elim (Bool-cases (c == sep)) [
  | inl y ↦ rw (y, split_from) (omega (arith, split_from-drop sep [] s rest))
  | inr n ↦ rw (n, split_from) (split_from-drop sep (current ++ c ∷ []) s rest)
]

-- Each separator adds a part.
split-more :
    (sep : ℕ) (s rest : Bytes)
    → suc (length (split rest sep)) ≤ length (split (s ++ sep ∷ rest) sep)
split-more sep s rest =
    omega (arith, ap length (split-append sep [] rest tt), drop_all sep s (sep ∷ rest))
  where
    drop_all : (sep : ℕ) (s rest : Bytes) → length (split rest sep) ≤ length (split (s ++ rest) sep)
    drop_all sep s rest = unfold split in split_from-drop sep [] s rest

-- The text has three separators at the least.
three_parts :
    (bind : Address) (port : Bytes) (host : Address) (host_port : Bytes)
    → 3 ≤ length (split (ssh_text bind port host host_port) b':')
unfolding ssh_text
three_parts bind port host host_port =
    let last : Bytes = address_text host ++ b':' ∷ host_port in
    let one = split-more b':' (address_text bind) (port ++ b':' ∷ last) in
    let two = split-more b':' port last in
    let three = split-more b':' (address_text host) host_port in omega arith

address-Lacks : (a : Address) → IsAddress a → Lacks b',' (address_text a)
unfolding address_text
address-Lacks (bracketed s) h = (refl, Lacks-append b',' s (b']' ∷ []) h.no_comma (refl, tt))
address-Lacks (plain s) h = h.0.no_comma

text-Lacks :
    (bind : Address) (port : Bytes) (host : Address) (host_port : Bytes)
    → IsAddress bind
    → IsNumber port
    → IsAddress host
    → IsNumber host_port
    → Lacks b',' (ssh_text bind port host host_port)
unfolding ssh_text
text-Lacks bind port host host_port hb hp hh hq =
    let (a, b, c, comma) = no_digits in
    Lacks-append b',' (address_text bind) _ (address-Lacks bind hb) (
      refl,
      Lacks-append b',' port _ (Lacks-digits b',' port comma hp.digits) (
        refl,
        Lacks-append b',' (address_text host) _ (address-Lacks host hh)
            (refl, Lacks-digits b',' host_port comma hq.digits),
      ),
    )

-- A rule in ssh style is parsed to the request with its hosts and ports; a host with colons, as an IPv6
-- address, stands in brackets.
pub parse_ssh_style :
    (bind : Address) (port : Bytes) (host : Address) (host_port : Bytes)
    → IsAddress bind
    → IsNumber port
    → IsAddress host
    → IsNumber host_port
    → parse_ranges_to_requests (ssh_text bind port host host_port)
      ≡ ok (
          record {
            source = some (record { name = host_of bind; port = pos (value port) });
            destination = some (record { name = host_of host; port = pos (value host_port) });
            environment_variable = [];
          }
          ∷ [])
unfolding parse_ranges_to_requests parse_ssh_tunnel_arg ssh_request
parse_ssh_style bind port host host_port hb hp hh hq =
    let there : is_empty (ssh_text bind port host host_port) ≡ false =
      unfold ssh_text in is_empty-middle (address_text bind) _ b':' in
    let whole =
      split_whole b',' (ssh_text bind port host host_port)
        (text-Lacks bind port host host_port hb hp hh hq) there in
    let many : leb (length (split (ssh_text bind port host host_port) b':')) 2 ≡ false =
      ground (arith, three_parts bind port host host_port) in
    simp (
      whole,
      many,
      loop_text bind port host host_port hb hp hh hq,
      stoi-digits port hp,
      stoi-digits host_port hq,
    )
