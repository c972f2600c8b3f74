-- ===== src/Tests.antt =====
-- Concrete inputs on which the theorems are applied, and the libraries' interfaces implemented
-- by lists, so that their laws are known to be satisfiable.
mod Lists
mod Samples
mod Generics
mod Types
mod Cache
mod Stress
mod Cluster
mod Collect
mod Rules
mod Start
mod Factory
mod Keys
mod Route
mod Transmit
