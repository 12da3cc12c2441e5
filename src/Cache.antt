-- ===== src/Cache.antt =====
-- src/cache: what is cached, under which key, and by which engine.
pub mod Key
pub mod Keys
pub mod Entry
pub mod Api
pub mod Contract
pub mod Rocks
pub mod Fs
