-- ===== src/Registry.antt =====
-- src/utserver/ClientRegistry.{hpp,cpp}: the server's table of client sessions. A connection's
-- `shared_ptr` is an element of the parameter `C`; the time is a number of nanoseconds of the steady
-- clock, which never goes back, and comes in as an argument.
pub mod Refinement
use undying_terminal.Prelude.{
  ℕ, ◌-◌, ◌/◌, ◌^◌, Bool, true, false, not, ◌&&◌, Option, none, some, [], Bytes,
}
use undying_terminal.Prelude.Int.{ℤ, pos, ltb_ℤ}
use undying_terminal.Writer.{invalid_socket}
use undying_terminal.Table.{Table, bytes_key, find, put, erase, modify, retain}

pub record ClientSession (C : Type 0) : Type 0 where
  pub terminal_handle : ℕ
  pub passkey : Bytes
  pub connection : Option C
  pub last_seen : ℕ
  pub active : Bool

abbrev pub ClientRegistry : Type 0 → Type 0
ClientRegistry C = Table Bytes (ClientSession C)

module _ {C : Type 0} where
  -- The session that `sessions_[client_id]` makes where there is none.
  abbrev pub new_session : ClientSession C
  new_session = record {
    terminal_handle = invalid_socket;
    passkey = [];
    connection = none;
    last_seen = 0;
    active = false;
  }

  abbrev pub session_or_new : Option (ClientSession C) → ClientSession C
  session_or_new none = new_session
  session_or_new (some s) = s

  abbrev pub registered : Bytes → ℕ → ℕ → ClientSession C → ClientSession C
  registered passkey handle now s = record s {
    terminal_handle = handle;
    passkey = passkey;
    last_seen = now;
    active = true;
  }

  -- `RegisterTerminal`; a session that is there keeps its connection.
  unfoldable pub register_terminal : ℕ → Bytes → Bytes → ℕ → ClientRegistry C → ClientRegistry C
  register_terminal now id passkey handle r =
      put id (registered passkey handle now (session_or_new (find id r))) r

  -- `UnregisterTerminal`
  unfoldable pub unregister_terminal : Bytes → ClientRegistry C → ClientRegistry C
  unregister_terminal id r = erase id r

  abbrev pub terminal_of : Option (ClientSession C) → ℕ
  terminal_of none = invalid_socket
  terminal_of (some s) = s.terminal_handle

  abbrev pub passkey_of : Option (ClientSession C) → Bytes
  passkey_of none = []
  passkey_of (some s) = s.passkey

  abbrev pub connection_of : Option (ClientSession C) → Option C
  connection_of none = none
  connection_of (some s) = s.connection

  abbrev pub is_active_in : Option (ClientSession C) → Bool
  is_active_in none = false
  is_active_in (some s) = s.active

  abbrev pub is_there : Option (ClientSession C) → Bool
  is_there none = false
  is_there (some s) = true

  -- `LookupTerminal`, `LookupPasskey`, `LookupConnection`, `HasSession` and `IsActive`
  unfoldable pub lookup_terminal : Bytes → ClientRegistry C → ℕ
  lookup_terminal id r = terminal_of (find id r)

  unfoldable pub lookup_passkey : Bytes → ClientRegistry C → Bytes
  lookup_passkey id r = passkey_of (find id r)

  unfoldable pub lookup_connection : Bytes → ClientRegistry C → Option C
  lookup_connection id r = connection_of (find id r)

  unfoldable pub has_session : Bytes → ClientRegistry C → Bool
  has_session id r = is_there (find id r)

  unfoldable pub is_active : Bytes → ClientRegistry C → Bool
  is_active id r = is_active_in (find id r)

  -- `StoreConnection`, `UpdateLastSeen` and `MarkActive`
  unfoldable pub store_connection : Bytes → C → ClientRegistry C → ClientRegistry C
  store_connection id c r = modify id (λ s. record s { connection = some c }) r

  unfoldable pub update_last_seen : ℕ → Bytes → ClientRegistry C → ClientRegistry C
  update_last_seen now id r = modify id (λ s. record s { last_seen = now }) r

  unfoldable pub mark_active : Bytes → Bool → ClientRegistry C → ClientRegistry C
  mark_active id active r = modify id (λ s. record s { active = active }) r

  -- The test of `CleanupStale`; `duration_cast` rounds down to whole seconds.
  unfoldable pub is_stale : ℕ → ℤ → ClientSession C → Bool
  is_stale now timeout_seconds s =
      not s.active && ltb_ℤ timeout_seconds (pos ((now - s.last_seen) / 10 ^ 9))

  -- `CleanupStale`
  unfoldable pub cleanup_stale : ℕ → ℤ → ClientRegistry C → ClientRegistry C
  cleanup_stale now timeout_seconds r = retain (λ s. not (is_stale now timeout_seconds s)) r
