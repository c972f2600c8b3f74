-- ===== src/Rules.antt =====
-- sample/rules.go, config/sampler_config.go: the rules-based sampler and the conditions of its rules.
pub mod Operators
pub mod Condition
pub mod Untyped
pub mod Extract
pub mod Match
pub mod Reference
pub mod EarlyExit
pub mod Scopes
pub mod Sampler
pub mod Decision
pub mod Ready
pub mod Start
pub mod Answers
pub mod Datatypes
pub mod Negation
