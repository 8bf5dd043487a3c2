-- ===== src/ResourceCache.antt =====
-- resource_cache/resource_cache.h: a cache of bounded size with entries that expire.
pub mod Store
pub mod Ops
pub mod Spec
pub mod Valid
pub mod Reads
pub mod Refresh
pub mod Writes
pub mod Set
pub mod History
mod Tests
