-- ===== src/Result.antt =====
-- The exceptions that the program's code throws, and a call that may throw. `undefined_behaviour` stands
-- for an access past the end of a vector, or an `int` that overflows.

pub data Error : Type 0 where
  invalid_key_length encrypt_failed decrypt_short decrypt_failed : Error
  partial_header_missing invalid_message_length length_mismatch : Error
  active_socket peer_ahead too_far_behind : Error
  socket_timeout socket_closed socket_read_failed socket_closed_write : Error
  invalid_packet_length invalid_proto_length invalid_proto serialize_failed : Error
  invalid_argument out_of_range undefined_behaviour : Error
  no_source_and_destination range_lengths_differ one_range few_parts many_parts : Error

pub data Result {ℓ} (A : Type ℓ) : Type ℓ where
  ok : A → Result A
  throw : Error → Result A

infixl 5 ◌>>=◌
abbrev pub ◌>>=◌ {ℓ κ} : {A : Type ℓ} {B : Type κ} → Result A → (A → Result B) → Result B
ok a >>= f = f a
throw e >>= f = throw e
