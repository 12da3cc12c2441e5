-- ===== src/Cache/Rocks.antt =====
-- src/cache/rocks.rs: the cache engine over RocksDB.
pub mod Db
pub mod Store
pub mod Size
pub mod Evict
pub mod Entries
pub mod Loses
pub mod Options
pub mod Contract
pub mod Concurrent
pub mod Engine
pub mod Toy
pub mod Tests
pub mod Flight
