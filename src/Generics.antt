-- ===== src/Generics.antt =====
-- The package `generics`: sets, sets and maps whose entries expire. (Fanout is not modelled.)
pub mod Set
pub mod SetTtl
pub mod MapTtl
