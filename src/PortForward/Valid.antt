-- ===== src/PortForward/Valid.antt =====
-- What every call keeps: ids are not reused, a table has one entry for an id, no entry is
-- an invalid socket, and a server has no waiting clients.
use undying_terminal.Prelude.{
  ℕ, ◌+◌, ◌≤◌, ◌≡◌, ◌≢◌, refl, Bool, true, none, some, ◌==◌, ==_iff, inl, inr, Bool-cases, arith,
}
use undying_terminal.Prelude.Int.{ℤ, pos}
use undying_terminal.Writer.{invalid_socket}
use undying_terminal.Table.{Table, int_key, same_int, find, put, erase}
use undying_terminal.Table.Laws.{IsMap, find-put, find-erase, put-IsMap, erase-IsMap}
use undying_terminal.PortForward.{PortForwardHandler, new_handler}

-- A table of live sockets, with one entry for an id.
pub record IsLive (t : Table ℤ ℕ) : Type 0 where
  pub map : IsMap t
  pub live : (k : ℤ) → find k t ≢ some invalid_socket

-- No id from `n` on is in use.
abbrev pub IsFresh : ℕ → Table ℤ ℕ → Type 0
IsFresh n t = (k : ℕ) → n ≤ k → find (pos k) t ≡ none

pub record IsValid (h : PortForwardHandler) : Type 0 where
  pub pending : IsLive h.pending_clients
  pub active : IsLive h.active_sockets
  pub pending_fresh : IsFresh h.next_client_fd h.pending_clients
  pub active_fresh : h.server_side ≡ true → IsFresh h.next_socket_id h.active_sockets
  pub no_pending : h.server_side ≡ true → (k : ℤ) → find k h.pending_clients ≡ none

pub put-IsLive :
    (k : ℤ) (s : ℕ) (t : Table ℤ ℕ) → s ≢ invalid_socket → IsLive t → IsLive (put k s t)
put-IsLive k s t ne h = record {
  map = put-IsMap k s t h.map;
  live = λ j. elim (Bool-cases (same_int k j)) [
    | inl y ↦ rw (find-put j k s t, y) (λ e. ne (cc))
    | inr n ↦ rw (find-put j k s t, n) (h.live j)
  ];
}

pub erase-IsLive : (k : ℤ) (t : Table ℤ ℕ) → IsLive t → IsLive (erase k t)
erase-IsLive k t h = record {
  map = erase-IsMap k t h.map;
  live = λ j. elim (Bool-cases (same_int k j)) [
    | inl y ↦ rw (find-erase j k t, y) (λ e. cc)
    | inr n ↦ rw (find-erase j k t, n) (h.live j)
  ];
}

pub put-IsFresh : (n s : ℕ) (t : Table ℤ ℕ) → IsFresh n t → IsFresh (n + 1) (put (pos n) s t)
put-IsFresh n s t h k le = elim (Bool-cases (n == k)) [
  | inl y ↦ absurd (omega (arith, (==_iff n k).0 y))
  | inr m ↦ rw (find-put (pos k) (pos n) s t, m) (h k (omega arith))
]

pub erase-none : (j k : ℤ) (t : Table ℤ ℕ) → find j t ≡ none → find j (erase k t) ≡ none
erase-none j k t h = elim (Bool-cases (same_int k j)) [
  | inl y ↦ rw (find-erase j k t, y)
  | inr n ↦ rw (find-erase j k t, n, h)
]

pub new_handler-IsValid : (server_side : Bool) → IsValid (new_handler server_side)
unfolding new_handler find
new_handler-IsValid b = record {
  pending = record { map = tt; live = λ k e. cc };
  active = record { map = tt; live = λ k e. cc };
  pending_fresh = λ k le. refl;
  active_fresh = λ s k le. refl;
  no_pending = λ s k. refl;
}

pub some≢none : (s : ℕ) → some s ≢ none
some≢none s e = cc
