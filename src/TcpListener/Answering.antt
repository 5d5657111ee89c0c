-- ===== src/TcpListener/Answering.antt =====
-- The answers of `HandleClient` against the rules for them.
use undying_terminal.Prelude.{
  ℕ, ◌≡◌, ◌↔◌, refl, sym, ap, ◌∙◌, true, false, Option, none, some, [], ◌∷◌, ◌==◌, Bytes,
  Bool-cases, inl, inr, ==_iff, arith,
}
use undying_terminal.Result.{Result, ok, throw}
use undying_terminal.Text.{is_empty}
use undying_terminal.Table.{same_int, same_int_iff, bytes_key, nat_key, find}
use undying_terminal.Writer.{invalid_socket}
use undying_terminal.Registry.{ClientSession, has_session, lookup_passkey, lookup_connection}
use undying_terminal.Connection.{Connection, Recovered, recover}
use undying_terminal.Connection.Client.{
  Status, new_client, returning_client, invalid_key, mismatched_protocol,
}
use undying_terminal.Connection.Server.{new_server_connection}
use undying_terminal.TcpListener.{
  ConnectRequest, Listener, Meeting, protocol_version, handle_client, admit, choose, welcome,
  recovered, opened,
}

-- The connection that the registry has for a session is there.
abbrev pub LinkOf : Listener → Option ℕ → Type 0
LinkOf l none = Unit
LinkOf l (some address) = (c : Connection) × (find address l.connections ≡ some c)

-- What a request is entitled to: the version is compared first, then the session, then its key, and a
-- client returns to a connection whose socket is gone.
pub data Rule (l : Listener) (r : ConnectRequest) : Status → Type 0 where
  wrong_version : ¬ (r.version ≡ protocol_version) → Rule l r mismatched_protocol
  unknown : r.version ≡ protocol_version → find r.client_id l.registry ≡ none → Rule l r invalid_key
  keyless :
      r.version ≡ protocol_version
      → (s : ClientSession ℕ) → find r.client_id l.registry ≡ some s
      → s.passkey ≡ []
      → Rule l r invalid_key
  comes_back :
      r.version ≡ protocol_version
      → (s : ClientSession ℕ) → find r.client_id l.registry ≡ some s
      → ¬ (s.passkey ≡ [])
      → (address : ℕ) (c : Connection) → s.connection ≡ some address
      → find address l.connections ≡ some c
      → c.socket ≡ invalid_socket
      → Rule l r returning_client
  starts :
      r.version ≡ protocol_version
      → (s : ClientSession ℕ) → find r.client_id l.registry ≡ some s
      → ¬ (s.passkey ≡ [])
      → ((address : ℕ) (c : Connection)
          → s.connection ≡ some address
          → find address l.connections ≡ some c
          → ¬ (c.socket ≡ invalid_socket))
      → Rule l r new_client

pub not_empty : (a : Bytes) → ¬ (a ≡ []) → is_empty a ≡ false
not_empty [] h = absurd (h refl)
not_empty (b ∷ a) h = refl

pub is_empty_sound : (a : Bytes) → is_empty a ≡ true → a ≡ []
is_empty_sound [] h = refl
is_empty_sound (b ∷ a) h = ground arith

pub empty_only : (a : Bytes) → is_empty a ≡ false → ¬ (a ≡ [])
empty_only [] h = ground arith
empty_only (b ∷ a) h = λ e. ground arith

module _ (l : Listener) (client : ℕ) (m : Meeting) (r : ConnectRequest)
    (answered : m.answered ≡ ok tt) where
  opened-status : (id : Bytes) (c : Result Connection) → (opened l id c).status ≡ some new_client
  opened-status id (ok c) = refl
  opened-status id (throw e) = refl

  recovered-status :
      (address : ℕ) (o : Option Recovered)
      → (recovered l client address o).status ≡ some returning_client
  recovered-status address none = refl
  recovered-status address (some (c, done, closes)) = refl

  Linked : Type 0
  Linked = (s : ClientSession ℕ) → find r.client_id l.registry ≡ some s → LinkOf l s.connection

  version_right : r.version ≡ protocol_version → same_int r.version protocol_version ≡ true
  version_right e = (same_int_iff r.version protocol_version).1 e

  -- Behind the three tests.
  pub admit_known :
      (s : ClientSession ℕ)
      → r.version ≡ protocol_version
      → find r.client_id l.registry ≡ some s
      → ¬ (s.passkey ≡ [])
      → admit l client m (ok r) ≡ choose l client m r.client_id s.passkey s.connection
  unfolding has_session lookup_passkey lookup_connection
  admit_known s v found key = rw (version_right v, found, not_empty s.passkey key)

  welcome-status :
      (id passkey : Bytes) → (welcome l client id passkey m.answered).status ≡ some new_client
  welcome-status id passkey =
      rw answered (opened-status id (new_server_connection id passkey client))

  Starting : Option ℕ → Type 0
  Starting o =
      (address : ℕ) (c : Connection)
      → o ≡ some address
      → find address l.connections ≡ some c
      → ¬ (c.socket ≡ invalid_socket)

  choose_new :
      (id passkey : Bytes) (o : Option ℕ)
      → LinkOf l o
      → Starting o
      → (choose l client m id passkey o).status ≡ some new_client
  unfolding Starting
  choose_new id passkey none link up = welcome-status id passkey
  choose_new id passkey (some address) (c, at_c) up =
      elim (Bool-cases (c.socket == invalid_socket)) [
        | inl y ↦ absurd (up address c refl at_c ((==_iff c.socket invalid_socket).0 y))
        | inr n ↦ rw (at_c, n) (welcome-status id passkey)
      ]

  pub choose_back :
      (id passkey : Bytes) (address : ℕ) (c : Connection)
      → find address l.connections ≡ some c
      → c.socket ≡ invalid_socket
      → choose l client m id passkey (some address)
        ≡ recovered l client address (recover c client m.exchange)
  choose_back id passkey address c at_c gone =
      let y : (c.socket == invalid_socket) ≡ true = (==_iff c.socket invalid_socket).1 gone in
      rw (at_c, y, answered)

  Rule-status : (st : Status) → Linked → Rule l r st → (admit l client m (ok r)).status ≡ some st
  unfolding has_session lookup_passkey lookup_connection Linked Starting
  Rule-status mismatched_protocol linked (wrong_version v) =
      elim (Bool-cases (same_int r.version protocol_version)) [
        | inl y ↦ absurd (v ((same_int_iff r.version protocol_version).0 y))
        | inr n ↦ rw (n, answered)
      ]
  Rule-status invalid_key linked (unknown v found) = rw (version_right v, found, answered)
  Rule-status invalid_key linked (keyless v s found key) =
      rw (version_right v, found, key, answered)
  Rule-status returning_client linked (comes_back v s found key address c there at_c gone) =
      ap (λ h. h.status) (admit_known s v found key)
      ∙ rw there (ap (λ h. h.status) (choose_back r.client_id s.passkey address c at_c gone))
      ∙ recovered-status address (recover c client m.exchange)
  Rule-status new_client linked (starts v s found key up) =
      ap (λ h. h.status) (admit_known s v found key)
      ∙ choose_new r.client_id s.passkey s.connection (linked s found) up

  Rule_known :
      (s : ClientSession ℕ)
      → r.version ≡ protocol_version
      → find r.client_id l.registry ≡ some s
      → ¬ (s.passkey ≡ [])
      → (o : Option ℕ) → s.connection ≡ o
      → LinkOf l o
      → (st : Status) × Rule l r st
  Rule_known s v found key none e link = (new_client, starts v s found key (λ a c there at_c. cc))
  Rule_known s v found key (some address) e (c, at_c) =
      elim (Bool-cases (c.socket == invalid_socket)) [
        | inl y ↦ (
          returning_client,
          comes_back v s found key address c e at_c ((==_iff c.socket invalid_socket).0 y),
        )
        | inr n ↦
            (new_client, starts v s found key (λ a c' there at_c' gone. up a c' (cc) at_c' gone n))
      ]
    where
      up :
          (a : ℕ) (c' : Connection)
          → address ≡ a
          → find a l.connections ≡ some c'
          → c'.socket ≡ invalid_socket
          → ¬ ((c.socket == invalid_socket) ≡ false)
      up a c' e' at_c' gone n =
          let same : c ≡ c' = cc in
          let y = (==_iff c.socket invalid_socket).1 (ap (λ x. x.socket) same ∙ gone) in cc

  Rule_exists :
      Linked
      → (o : Option (ClientSession ℕ)) → find r.client_id l.registry ≡ o
      → (st : Status) × Rule l r st
  unfolding Linked
  Rule_exists linked o found = elim (Bool-cases (same_int r.version protocol_version)) [
    | inr n ↦ (mismatched_protocol, wrong_version (λ e. let y = version_right e in cc))
    | inl y ↦ with_session ((same_int_iff r.version protocol_version).0 y) o found
  ]
    where
      with_session :
          r.version ≡ protocol_version
          → (o : Option (ClientSession ℕ)) → find r.client_id l.registry ≡ o
          → (st : Status) × Rule l r st
      with_session v none found = (invalid_key, unknown v found)
      with_session v (some s) found = elim (Bool-cases (is_empty s.passkey)) [
        | inl y ↦ (invalid_key, keyless v s found (is_empty_sound s.passkey y))
        | inr n ↦ Rule_known s v found (empty_only s.passkey n) s.connection refl (linked s found)
      ]

-- The status that `HandleClient` answers to a request that it reads is the one that the rules give, where
-- the answer goes out and the connection of the session, if it has one, exists. So a client is let in only
-- with the right version and the id of a session with a key, and returns exactly if the socket of the
-- session's connection is gone.
pub handle_client_answers :
    (l : Listener) (client : ℕ) (m : Meeting) (r : ConnectRequest)
    → m.request ≡ ok r
    → m.answered ≡ ok tt
    → ((s : ClientSession ℕ) → find r.client_id l.registry ≡ some s → LinkOf l s.connection)
    → (st : Status) → ((handle_client l client m).status ≡ some st) ↔ Rule l r st
unfolding handle_client Linked
handle_client_answers l client m r asked answered linked st = (
  λ h.
      let (st', rule) =
        Rule_exists l client m r answered linked (find r.client_id l.registry) refl in
      let e = ap (λ q. (admit l client m q).status) asked in
      let h' = Rule-status l client m r answered st' linked rule in
      let same : st' ≡ st = some_status (sym h' ∙ sym e ∙ h) in rw same at rule,
  λ rule.
      ap (λ q. (admit l client m q).status) asked
      ∙ Rule-status l client m r answered st linked rule,
)
  where
    some_status : {a b : Status} → some a ≡ some b → a ≡ b
    some_status e = cc
