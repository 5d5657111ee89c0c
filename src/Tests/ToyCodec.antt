-- ===== src/Tests/ToyCodec.antt =====
-- A concrete coding of the messages of port forwarding.
use undying_terminal.Prelude.{
  ℕ, ◌≡◌, refl, Bool, true, false, Option, none, some, [], ◌∷◌, ◌==◌, if◌then◌else◌, Bytes,
}
use undying_terminal.Prelude.Int.{ℤ, pos, negsuc}
use undying_terminal.Table.{int_key}
use undying_terminal.PortForward.Messages.{
  Endpoint, DestinationRequest, DestinationResponse, Data, Codec, IsCodec,
}
use undying_terminal.PortForward.Relay.{IsTotal}

abbrev pub int_of : ℕ → ℕ → ℤ
int_of sign n = if sign == 0 then pos n else negsuc n

abbrev pub option_of : ℕ → ℕ → ℕ → Option ℤ
option_of there sign n = if there == 0 then none else some (int_of sign n)

abbrev pub sign_of : ℤ → ℕ
sign_of (pos n) = 0
sign_of (negsuc n) = 1

abbrev pub size_of : ℤ → ℕ
size_of (pos n) = n
size_of (negsuc n) = n

abbrev pub put_int : ℤ → Bytes → Bytes
put_int i rest = sign_of i ∷ size_of i ∷ rest

abbrev pub put_option : Option ℤ → Bytes → Bytes
put_option none rest = 0 ∷ 0 ∷ 0 ∷ rest
put_option (some i) rest = 1 ∷ put_int i rest

abbrev pub put_endpoint : Option Endpoint → Bytes
put_endpoint none = []
put_endpoint (some e) = put_int e.port e.name

abbrev pub put_bool : Bool → ℕ
put_bool true = 1
put_bool false = 0

abbrev pub toy_get_request : Bytes → Option DestinationRequest
toy_get_request (t ∷ s ∷ n ∷ []) = some (record { destination = none; fd = option_of t s n })
toy_get_request (t ∷ s ∷ n ∷ ps ∷ pn ∷ name) = some (record {
  destination = some (record { name = name; port = int_of ps pn });
  fd = option_of t s n;
})
toy_get_request _ = none

abbrev pub toy_get_response : Bytes → Option DestinationResponse
toy_get_response (t ∷ s ∷ n ∷ t' ∷ s' ∷ n' ∷ error) =
    some (record { client_fd = option_of t s n; socket_id = option_of t' s' n'; error = error })
toy_get_response _ = none

abbrev pub toy_get_data : Bytes → Option Data
toy_get_data (d ∷ c ∷ t ∷ s ∷ n ∷ buffer) = some (record {
  source_to_destination = d == 1;
  socket_id = option_of t s n;
  buffer = buffer;
  closed = c == 1;
})
toy_get_data _ = none

abbrev pub request_bytes : DestinationRequest → Bytes
request_bytes m = put_option m.fd (put_endpoint m.destination)

abbrev pub response_bytes : DestinationResponse → Bytes
response_bytes m = put_option m.client_fd (put_option m.socket_id m.error)

abbrev pub data_bytes : Data → Bytes
data_bytes m =
    put_bool m.source_to_destination ∷ put_bool m.closed ∷ put_option m.socket_id m.buffer

abbrev pub toy_codec : Codec
toy_codec = record {
  put_request = λ m. some (request_bytes m);
  get_request = toy_get_request;
  put_response = λ m. some (response_bytes m);
  get_response = toy_get_response;
  put_data = λ m. some (data_bytes m);
  get_data = toy_get_data;
}

int_back : (i : ℤ) → int_of (sign_of i) (size_of i) ≡ i
int_back (pos n) = refl
int_back (negsuc n) = refl

request_back :
    (d : Option Endpoint) (fd : Option ℤ)
    → toy_get_request (put_option fd (put_endpoint d)) ≡ some (record { destination = d; fd = fd })
request_back none none = refl
request_back (some e) none = rw (int_back e.port)
request_back none (some i) = rw (int_back i)
request_back (some e) (some i) = rw (int_back e.port, int_back i)

response_back :
    (fd id : Option ℤ) (error : Bytes)
    → toy_get_response (put_option fd (put_option id error))
      ≡ some (record { client_fd = fd; socket_id = id; error = error })
response_back none none error = refl
response_back (some i) none error = rw (int_back i)
response_back none (some i) error = rw (int_back i)
response_back (some i) (some j) error = simp int_back

bool_back : (b : Bool) → (put_bool b == 1) ≡ b
bool_back true = refl
bool_back false = refl

data_back :
    (d c : Bool) (id : Option ℤ) (buffer : Bytes)
    → toy_get_data (put_bool d ∷ put_bool c ∷ put_option id buffer)
      ≡ some (record { source_to_destination = d; socket_id = id; buffer = buffer; closed = c })
data_back d c none buffer = simp bool_back
data_back d c (some i) buffer = simp (bool_back, int_back)

some-eq : (a b : Bytes) → some a ≡ some b → a ≡ b
some-eq a b e = cc

pub toy_codec-IsCodec : IsCodec toy_codec
toy_codec-IsCodec = record {
  get-put-request = λ m b e. rw (← some-eq _ _ e) (request_back m.destination m.fd);
  get-put-response = λ m b e. rw (← some-eq _ _ e) (response_back m.client_fd m.socket_id m.error);
  get-put-data = λ m b e.
      rw (← some-eq _ _ e) (data_back m.source_to_destination m.closed m.socket_id m.buffer);
}

pub toy_codec-IsTotal : IsTotal toy_codec
toy_codec-IsTotal = record {
  request_total = λ m. (request_bytes m, refl);
  response_total = λ m. (response_bytes m, refl);
  data_total = λ m. (data_bytes m, refl);
}
