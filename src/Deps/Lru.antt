-- ===== src/Deps/Lru.antt =====
-- github.com/hashicorp/golang-lru/v2: a bounded map that evicts the least recently used key.
-- The values are positions in a store, as the program keeps pointers in the map.
use refinery.Base.{ℕ, ◌≡◌, ◌≢◌, Option, some, String, List}

pub record Lru : Type 1 where
  pub Cache : Type 0
  -- `New` fails at a size that is not positive
  pub new : ℕ → Option Cache
  -- `Add`, with the key as the most recent
  pub add : Cache → String → ℕ → Cache
  -- `Get` moves the key to the most recent place
  pub get : Cache → String → Cache × Option ℕ
  -- `Keys`, from the oldest to the newest
  pub keys : Cache → List String
  -- `Peek`
  pub peek : Cache → String → Option ℕ
  pub peek-add : (c : Cache) (k : String) (v : ℕ) → peek (add c k v) k ≡ some v
  pub peek-add_ne :
      (c : Cache) (j k : String) (v w : ℕ) → j ≢ k → peek (add c k v) j ≡ some w → peek c j ≡ some w
  pub get-peek : (c : Cache) (k : String) → (get c k).1 ≡ peek c k
  pub peek-get : (c : Cache) (j k : String) → peek (get c k).0 j ≡ peek c j
