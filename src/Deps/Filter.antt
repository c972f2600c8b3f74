-- ===== src/Deps/Filter.antt =====
-- github.com/panmari/cuckoofilter: an approximate set. `Insert` reports whether it found room.
use refinery.Base.{ℕ, ◌≡◌, Bool, true, String}

pub record CuckooFilter : Type 1 where
  pub Filter : Type 0
  pub new : ℕ → Filter
  pub insert : Filter → String → Filter × Bool
  pub lookup : Filter → String → Bool
  -- `LoadFactor` is the ratio of the slots in use to all slots
  pub used : Filter → ℕ
  pub slots : Filter → ℕ
  -- no false negatives, as long as there was room
  pub lookup-insert :
      (f : Filter) (s : String) → (insert f s).1 ≡ true → lookup (insert f s).0 s ≡ true
  pub lookup-insert_mono :
      (f : Filter) (s t : String)
      → (insert f s).1 ≡ true
      → lookup f t ≡ true
      → lookup (insert f s).0 t ≡ true
