-- ===== src/GoMap.antt =====
-- Go's built-in map: an association list whose keys are distinct, and its laws. Iteration order
-- is not part of the model's contract.
mod Defs
mod Laws
unfoldable pub use Defs.*
unfoldable pub use Laws.*
