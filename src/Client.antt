-- ===== src/Client.antt =====
-- src/ut/main.cpp: the client program, part by part.
pub mod Quoting
pub mod Arguments
pub mod Launch
pub mod Echo
pub mod Ui
