-- ===== src/Connection/Server.antt =====
-- src/ut/protocol/ServerClientConnection.cpp: the server's end of a connection. It receives with the
-- client's nonce and sends with its own (`UtConstants.hpp`).
use undying_terminal.Prelude.{ℕ, some, Bytes}
use undying_terminal.Result.{Result, ok, ◌>>=◌}
use undying_terminal.Crypto.{new_crypto}
use undying_terminal.Reader.{new_reader}
use undying_terminal.Writer.{new_writer}
use undying_terminal.Connection.{Connection, new_connection}

abbrev pub client_server_nonce_msb : ℕ
client_server_nonce_msb = 0

abbrev pub server_client_nonce_msb : ℕ
server_client_nonce_msb = 1

-- The constructor throws for a key of the wrong length.
unfoldable pub new_server_connection : Bytes → Bytes → ℕ → Result Connection
new_server_connection id key socket = do
  reading ← new_crypto key client_server_nonce_msb
  writing ← new_crypto key server_client_nonce_msb
  ok (record (new_connection id key) {
    socket = socket;
    reader = some (new_reader reading socket);
    writer = some (new_writer writing socket);
  })
