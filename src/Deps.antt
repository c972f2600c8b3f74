-- ===== src/Deps.antt =====
-- The third-party code that the program calls, as interfaces: operations, and the documented
-- behaviour that the program relies on. Nothing of that code is under the repository's control.
pub mod Queue
pub mod Filter
pub mod Lru
