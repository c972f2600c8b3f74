-- ===== src/Cache/Cuckoo.antt =====
-- collect/cache/cuckoo.go: `CuckooTraceChecker`, a pair of filters that is cycled as they fill, fed
-- through a bounded channel. `budget` is how many ids a call of `drain` adds before its timer or
-- the scheduler stops it; locks and metrics other than the count of refused adds are left out.
pub mod Adds
pub mod Cycle
use refinery.Base.{
  ℕ, zero, suc, ◌+◌, ◌*◌, Bool, true, false, ◌&&◌, not, Option, none, some, String, List, [], ◌∷◌,
  ◌++◌, length, ltb, min, if◌then◌else◌,
}
use refinery.GoMap.{is_some}
use refinery.Deps.Filter.{CuckooFilter}

abbrev pub add_queue_depth : ℕ
add_queue_depth = 1000

module _ (cf : CuckooFilter) where
  open cf use {Filter}

  -- the pointers `current` and `future` may be nil
  pub record Checker : Type 0 where
    pub current : Option Filter
    pub future : Option Filter
    pub capacity : ℕ
    pub addch : List String
    pub refused : ℕ

  unfoldable pub new : ℕ → Checker
  new capacity = record {
    current = some (cf.new capacity);
    future = none;
    capacity = capacity;
    addch = [];
    refused = 0;
  }

  -- `Add`: if the channel is full the id is dropped, and counted
  unfoldable pub add : Checker → String → Checker
  add c id =
      if ltb (length c.addch) add_queue_depth
      then record c { addch = c.addch ++ id ∷ [] }
      else record c { refused = c.refused + 1 }

  unfoldable pub insert_into : Option Filter → String → Option Filter
  insert_into none id = none
  insert_into (some f) id = some (cf.insert f id).0

  -- the loop of `drain`, at most `n` times
  unfoldable pub drain_loop : ℕ → Checker → List String → Checker
  unfolding insert_into
  drain_loop n c [] = record c { addch = [] }
  drain_loop zero c (id ∷ ids) = record c { addch = id ∷ ids }
  drain_loop (suc n) c (id ∷ ids) =
      drain_loop n
        (record c { current = insert_into c.current id; future = insert_into c.future id }) ids

  unfoldable pub drain : ℕ → Checker → Checker
  unfolding drain_loop
  drain budget c = drain_loop (min (length c.addch) budget) c c.addch

  -- `Stop` drains until the channel is empty
  unfoldable pub stop : Checker → Checker
  unfolding drain_loop
  stop c = drain_loop (length c.addch) c c.addch

  unfoldable pub lookup_in : Option Filter → String → Bool
  lookup_in none id = false
  lookup_in (some f) id = cf.lookup f id

  -- `Check`
  unfoldable pub check : Checker → String → Bool
  unfolding lookup_in
  check c id = lookup_in c.current id

  -- `LoadFactor() > percent / 100`
  unfoldable pub loaded_above : ℕ → Filter → Bool
  loaded_above percent f = ltb (percent * cf.slots f) (100 * cf.used f)

  loaded : ℕ → Option Filter → Bool
  loaded percent none = false
  loaded percent (some f) = loaded_above percent f

  start_future : Bool → Checker → Checker
  start_future half c =
      if not (is_some c.future) && half then record c { future = some (cf.new c.capacity) } else c

  cycle : Bool → Checker → Checker
  cycle full c =
      if full then record c { current = c.future; future = some (cf.new c.capacity) } else c

  -- the rest of `Maintain`, whose two tests read the load factor of the same filter
  unfoldable pub maintain_filters : Checker → Checker
  unfolding loaded start_future cycle
  maintain_filters c = cycle (loaded 99 c.current) (start_future (loaded 50 c.current) c)

  unfoldable pub maintain : ℕ → Checker → Checker
  unfolding drain maintain_filters
  maintain budget c = maintain_filters (drain budget c)

  unfoldable pub set_next_capacity : Checker → ℕ → Checker
  set_next_capacity c capacity = record c { capacity = capacity }
