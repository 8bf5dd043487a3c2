-- ===== src/Echo.antt =====
-- ae/main.c: the demonstration server, which answers whatever it reads.
pub mod System
pub mod Server
pub mod Send
mod Tests
