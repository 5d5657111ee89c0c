-- ===== src/Lib.antt =====
-- Undying Terminal keeps a remote shell alive over connections that break: packets are numbered, the
-- newest are kept, and after a reconnect each side sends the other what it has missed. This library
-- models that protocol and proves what it promises.
--
-- Parts, and the files that model them (paths from the repository's root):
-- - Packet, Wire: src/ut/protocol/Packet.hpp and the byte order of lengths.
-- - SocketHandler: src/ut/protocol/SocketHandler.{hpp,cpp}. `read_all`, `write_all`, `read_packet`,
--   `write_packet`, `read_proto` and `write_proto` are its functions; what HasData, Read and Write answer
--   is a list of turns, and protobuf is the parameter `Coding` with its documented laws `IsCoding`.
-- - Crypto: src/ut/protocol/CryptoHandler.cpp. libsodium is a parameter, the record `SecretBox`, with
--   its documented laws `IsSecretBox`.
-- - Writer: src/ut/protocol/BackedWriter.cpp. `write` is Write, with the events of its send loop as a
--   list; `store` and `evict` are its backup; `recover`, `revive`, `invalidate` are Recover, Revive and
--   InvalidateSocket. Writer/History relates a writer to the list of all packets it has numbered.
-- - Reader: src/ut/protocol/BackedReader.cpp. `read` is Read over a parameter for SocketHandler::Read,
--   which Reader/Assembly takes to be a byte stream (`IsStream`) that gives any piece at any time.
-- - Connection: src/ut/protocol/Connection.cpp; Connection/Client is ClientConnection.cpp and
--   Connection/Server is ServerClientConnection.cpp. Sockets that a call closes are listed in its result.
-- - Delivery: one direction of a connection, a writer, the reader at the other end and the bytes in
--   between, with the calls of Connection.cpp as a step relation.
-- - Table, Registry: std::unordered_map, and src/utserver/ClientRegistry.cpp on it.
-- - TcpListener: the handshake of HandleClient in src/utserver/TcpListener.cpp, on the registry and on
--   the connections by their addresses. TcpListener/Effects lists what a call can change, TcpListener/Works
--   the calls that the threads of a session make of its connection, and TcpListener/Links has the server as a
--   whole as a relation `Reachable`.
-- - PortForward: src/ut/protocol/PortForwardHandler.cpp, its tables of sockets and its packets, with the
--   sockets' answers as arguments and protobuf as a parameter; PortForward/Pairing puts a client's and a
--   server's handler together, PortForward/Runs has any sequence of calls.
-- - Text, Tunnel: the strings of the standard library that the parsers use, and
--   src/ut/protocol/TunnelUtils.cpp, both forms of a forwarding rule.
-- - SshConfig: src/ut/SshConfig.cpp on a configuration file that is a list of lines. SshConfig/LocalForward
--   has the lines of LocalForward by their parts, Text/Words what words they are.
-- - Reconnection: src/ut/ReconnectionManager.cpp and src/ut/Keepalive.cpp.
-- - Text/Decimal, Text/Stream: `stream << number`, and reading words and numbers from a stream.
-- - SshCommand: src/ut/SshCommandBuilder.cpp.
-- - Client: src/ut/main.cpp. Client/Quoting has its small text functions, Client/Arguments the arguments of
--   `--ssh`, Client/Launch the commands that it gives to ssh and the line that it reads back, Client/Echo the
--   predictive echo, and Client/Ui the built-in user interface, with what Windows answers as arguments.
-- - Terminal: src/utterminal/main.cpp up to the registration of an id and a passkey. The shell of the remote host
--   is a parameter; Terminal/Remote states what a POSIX shell does with an `echo`.
-- - Session: the packets of a session behind its handshake. Session/Client has the threads of
--   src/ut/main.cpp, a round of any of them an event; Session/Server the loop of HandleClient in
--   src/utserver/TcpListener.cpp, and Session/Begin what stands before and behind it; Session/Screen the threads of src/utterminal/main.cpp. The other files
--   below it follow text from one end to the other.
-- - Config: src/ut/Config.cpp; Config/Lines has the lines of a file by what they are to do, with the numbers
--   of Text/Scanning.
-- - Prelude, Result: shared lists, numbers, and calls that may throw. Tests: runs on concrete data.
--
-- How the parts interact: a Connection owns a reader and a writer and calls them under its lock; a
-- client reconnects by its polling thread and then recovers; a server's connection is found again by its
-- client's id. Locks make every call of the reader and writer atomic but for the send loop, during which
-- the socket may be invalidated: that is an event of the loop. The listener lets a client in, stores its
-- connection in the registry and brings a returning client to it; each session also has two port-forward
-- handlers, whose packets its connection carries, and whose rules come from the parsers of Tunnel.
--
-- Numbers: `int64_t` and `size_t` counters do not wrap in the model; the 32-bit sequence number of a
-- SequenceHeader wraps as `static_cast<int32_t>` does, and the length of a frame keeps its low 32 bits.
-- Loops run on the lists they consume, or on fuel that the code's own bound gives: the eviction loop has
-- one round for each packet of the deque, and each of its rounds removes one. MatchGlob goes back in its
-- text, and `glob_fuel` counts the rounds it can take: each one moves the star of the pattern, the place
-- in the text to which it goes back, or the place where it is. A loop that waits for the network ends
-- with its list of turns or events, and its result then says that it has not returned.
--
-- The history of a link in Delivery has packets that fit a frame that BackedReader takes: a payload of at most
-- 128 MiB less 18 bytes. BackedWriter tests no length.
--
-- `undefined_behaviour` is what an access past the end of a vector, a null pointer or an `int` that
-- overflows gives.
--
-- Not modelled: a client's side of the initial payload, the terminal program as a jump host, the arguments of `--connect`, the times at
-- which threads act, Windows sockets, pipes, consoles, processes and services, the registry of Windows, and
-- protobuf's encoding (a message is the value it carries, a failing call an exception).
pub mod Prelude
pub mod Result
pub mod Wire
pub mod Text
pub mod Packet
pub mod SocketHandler
pub mod Crypto
pub mod Writer
pub mod Reader
pub mod Connection
pub mod Table
pub mod Registry
pub mod TcpListener
pub mod Reconnection
pub mod SshCommand
pub mod Client
pub mod Terminal
pub mod Session
pub mod Config
pub mod PortForward
pub mod Tunnel
pub mod SshConfig
pub mod Delivery
mod Tests
