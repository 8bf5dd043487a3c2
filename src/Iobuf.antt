-- ===== src/Iobuf.antt =====
-- httpserver/iobuf.h, httpserver/iobuf.cc: a buffer of bytes in a ring of blocks, whose memory blocks
-- may share.
pub mod Heap
pub mod Blocks
pub mod Ops
pub mod Scan
pub mod Valid
pub mod Link
pub mod Room
pub mod Fill
pub mod Append
pub mod Trim
pub mod TrimEnd
pub mod Destroy
pub mod Move
pub mod Cut
pub mod Split
pub mod Share
pub mod Read
mod Tests
