-- ===== src/Sample.antt =====
-- sample: the samplers that refinery implements itself.
pub mod Deterministic
pub mod TraceKey
pub mod Dynamic
pub mod Factory
