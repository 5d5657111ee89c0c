-- ===== src/Tests.antt =====
-- Concrete inputs: the theorems at them, and runs of the code.
mod Toys
mod Protocol
mod Sessions
mod Tables
mod ToyCodec
mod Tunnels
mod Parsers
mod Sockets
mod Listeners
mod Reconnections
mod Clients
mod Uis
mod Ends
mod Configs
