-- ===== src/Hashtable.antt =====
-- hashtable/: a chained hash table whose items also form a doubly linked list.
pub mod Store
pub mod Lists
pub mod Relink
pub mod Lookup
pub mod Valid
pub mod Append
pub mod Insert
pub mod Before
pub mod Detach
pub mod Remove
pub mod Traverse
pub mod Apply
pub mod Init
pub mod Clear
mod Tests
