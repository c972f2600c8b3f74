-- ===== src/Config.antt =====
-- config: which fields of the spans the samplers read.
pub mod KeyFields
pub mod KeyNames
pub mod Samplers
pub mod Single
pub mod Covered
