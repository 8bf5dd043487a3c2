-- ===== src/Shmmq.antt =====
-- shmmq/: a message queue in a shared memory segment, guarded by a semaphore.
pub mod Code
pub mod Segment
pub mod Queue
pub mod Slots
pub mod Refine
pub mod System
pub mod Semaphore
pub mod Lifecycle
pub mod Transfer
pub mod Locking
pub mod Ensures
pub mod Balance
pub mod Trace
pub mod Processes
pub mod Sections
pub mod Interleaved
pub mod Overflow
pub mod Lifetime
mod Tests
