-- ===== src/Collect.antt =====
-- collect/collect.go and collect/collector_worker.go: workers that gather spans into traces, decide
-- on them and send them on, and the spans that come after the decision.
pub mod Config
pub mod Late
pub mod Worker
pub mod Outcome
pub mod Gather
pub mod Decide
pub mod Sending
pub mod Immediate
