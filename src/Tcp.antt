-- ===== src/Tcp.antt =====
-- httpserver/tcp_server.h, httpserver/tcp_server.cc: a connection of the server, and the callbacks that
-- the server and its derived class give to it.
pub mod Connection
pub mod Server
pub mod Reads
pub mod Writes
pub mod Waiting
pub mod Acceptor
mod Tests
