-- ===== src/Types.antt =====
-- The package `types`: values and payloads of events, spans and traces.
pub mod Value
pub mod Payload
pub mod Span
pub mod Trace
