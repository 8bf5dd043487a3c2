-- ===== src/Http.antt =====
-- httpserver/http_server.h, httpserver/http_server.cc: what a connection keeps of the requests that the
-- parser finds, the parser's callbacks, and the buffer in front of it.
pub mod Strings
pub mod Context
pub mod Url
pub mod Headers
pub mod Parse
pub mod Answer
pub mod Serve
pub mod Exchange
mod Tests
