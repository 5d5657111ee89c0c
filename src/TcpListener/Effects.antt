-- ===== src/TcpListener/Effects.antt =====
-- What a call of `HandleClient` does to the registry and the connections.
use undying_terminal.Prelude.{
  ℕ, ◌≡◌, refl, Bool, Option, none, some, List, [], ◌==◌, Bool-cases, inl, inr,
}
use undying_terminal.Result.{Result, ok, throw}
use undying_terminal.Text.{is_empty}
use undying_terminal.Table.{same_int, same_int_iff, bytes_key, nat_key, find, put}
use undying_terminal.Writer.{invalid_socket}
use undying_terminal.Registry.{ClientSession, has_session, lookup_passkey, lookup_connection}
use undying_terminal.Connection.{Exchange, Connection, Recovered, recover}
use undying_terminal.Connection.Client.{Status}
use undying_terminal.Connection.Server.{new_server_connection}
use undying_terminal.TcpListener.{
  ConnectRequest, Listener, Meeting, Handled, Goes, returns, begins, terminates, protocol_version,
  handle_client, admit, choose, choose_at, welcome, welcome_back, recovered, opened, refuse, stored,
}
use undying_terminal.TcpListener.Answering.{empty_only}

abbrev pub NoSession : Goes → Type 0
NoSession returns = Unit
NoSession (begins address) = ⊥
NoSession (terminates e) = Unit

-- What a call does to the listener: nothing; or it writes to one connection; or a new connection takes the
-- place in the session of a known client.
pub data Effect (l : Listener) (client : ℕ) (request : Result ConnectRequest)
    : Listener → Goes → Type 0 where
  nothing : (g : Goes) → NoSession g → Effect l client request l g
  object :
      (address : ℕ) (old c : Connection) (x : Exchange) (done : Bool) (closes : List ℕ)
      → find address l.connections ≡ some old
      → recover old client x ≡ some (c, done, closes)
      → Effect l client request (record l { connections = put address c l.connections }) returns
  session :
      (r : ConnectRequest) (s : ClientSession ℕ) (c : Connection)
      → request ≡ ok r
      → r.version ≡ protocol_version
      → find r.client_id l.registry ≡ some s
      → ¬ (s.passkey ≡ [])
      → new_server_connection r.client_id s.passkey client ≡ ok c
      → Effect l client request (stored l r.client_id c) (begins l.next)

module _ (l : Listener) (client : ℕ) (request : Result ConnectRequest) where
  EffectOf : Handled → Type 0
  EffectOf h = Effect l client request h.listener h.goes

  refuse-Effect : (st : Status) (w : Result (Unit {0})) → EffectOf (refuse l client st w)
  unfolding EffectOf
  refuse-Effect st (ok _) = nothing returns tt
  refuse-Effect st (throw e) = nothing (terminates e) tt

  recovered-Effect :
      (address : ℕ) (old : Connection) (x : Exchange) (o : Option Recovered)
      → find address l.connections ≡ some old
      → recover old client x ≡ o
      → EffectOf (recovered l client address o)
  unfolding EffectOf
  recovered-Effect address old x none there e = nothing _ tt
  recovered-Effect address old x (some (c, done, closes)) there e =
      object address old c x done closes there e

  module _ (m : Meeting) (r : ConnectRequest) (s : ClientSession ℕ) (asked : request ≡ ok r)
      (v : r.version ≡ protocol_version) (found : find r.client_id l.registry ≡ some s)
      (key : ¬ (s.passkey ≡ [])) where
    opened-Effect :
        (c : Result Connection)
        → new_server_connection r.client_id s.passkey client ≡ c
        → EffectOf (opened l r.client_id c)
    unfolding EffectOf
    opened-Effect (ok c) e = session r s c asked v found key e
    opened-Effect (throw x) e = nothing (terminates x) tt

    welcome-Effect : (w : Result (Unit {0})) → EffectOf (welcome l client r.client_id s.passkey w)
    unfolding EffectOf
    welcome-Effect (ok _) = opened-Effect (new_server_connection r.client_id s.passkey client) refl
    welcome-Effect (throw e) = nothing (terminates e) tt

    welcome_back-Effect :
        (address : ℕ) (c : Connection) (w : Result (Unit {0}))
        → find address l.connections ≡ some c
        → EffectOf (welcome_back l client m address c w)
    unfolding EffectOf
    welcome_back-Effect address c (ok _) there =
        recovered-Effect address c m.exchange (recover c client m.exchange) there refl
    welcome_back-Effect address c (throw e) there = nothing (terminates e) tt

    choose_at-Effect :
        (address : ℕ) (o : Option Connection)
        → find address l.connections ≡ o
        → EffectOf (choose_at l client m r.client_id s.passkey address o)
    unfolding EffectOf
    choose_at-Effect address none there = nothing _ tt
    choose_at-Effect address (some c) there = elim (Bool-cases (c.socket == invalid_socket)) [
      | inl y ↦ rw y (welcome_back-Effect address c m.answered there)
      | inr n ↦ rw n (welcome-Effect m.answered)
    ]

    choose-Effect : (o : Option ℕ) → EffectOf (choose l client m r.client_id s.passkey o)
    unfolding EffectOf
    choose-Effect none = welcome-Effect m.answered
    choose-Effect (some address) = choose_at-Effect address (find address l.connections) refl

  known-Effect :
      (m : Meeting) (r : ConnectRequest)
      → request ≡ ok r
      → r.version ≡ protocol_version
      → (o : Option (ClientSession ℕ)) → find r.client_id l.registry ≡ o
      → EffectOf (admit l client m (ok r))
  unfolding EffectOf has_session lookup_passkey lookup_connection
  known-Effect m r asked v none found =
      rw ((same_int_iff r.version protocol_version).1 v, found) (refuse-Effect _ m.answered)
  known-Effect m r asked v (some s) found = elim (Bool-cases (is_empty s.passkey)) [
    | inl y ↦
        rw ((same_int_iff r.version protocol_version).1 v, found, y) (refuse-Effect _ m.answered)
    | inr n ↦
        rw ((same_int_iff r.version protocol_version).1 v, found, n)
          (choose-Effect m r s asked v found (empty_only s.passkey n) s.connection)
  ]

  admit-Effect :
      (m : Meeting) (q : Result ConnectRequest) → request ≡ q → EffectOf (admit l client m q)
  unfolding EffectOf
  admit-Effect m (throw e) asked = nothing returns tt
  admit-Effect m (ok r) asked = elim (Bool-cases (same_int r.version protocol_version)) [
    | inl y ↦
        known-Effect m r asked ((same_int_iff r.version protocol_version).0 y)
          (find r.client_id l.registry) refl
    | inr n ↦ rw n (refuse-Effect _ m.answered)
  ]

pub handle_client-Effect :
    (l : Listener) (client : ℕ) (m : Meeting)
    → Effect l client m.request (handle_client l client m).listener (handle_client l client m).goes
unfolding handle_client EffectOf
handle_client-Effect l client m = admit-Effect l client m.request m m.request refl
