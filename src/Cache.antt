-- ===== src/Cache.antt =====
-- The package `collect/cache`: the cache of live traces, and the record of decisions made.
pub mod InMem
pub mod Reasons
pub mod Cuckoo
pub mod Sent
