-- ===== src/GoMap/Defs.antt =====
-- Go's built-in map as an association list: lookup, assignment, `delete`, `maps.DeleteFunc` and
-- the keys and values that a `range` loop visits.
use refinery.Base.{◌≡◌, Bool, true, false, Option, none, some, List, [], ◌∷◌, ite, if◌then◌else◌}

-- `m[k]` with its `ok` result, `m[k] = v`, and `delete(m, k)`.
module _ {ℓ κ} {K : Type ℓ} {V : Type κ} (dec : Discrete K) where
  unfoldable pub get : K → List (K × V) → Option V
  get k [] = none
  get k ((j, v) ∷ m) = ite (dec j k) (some v) (get k m)

  unfoldable pub delete : K → List (K × V) → List (K × V)
  delete k [] = []
  delete k ((j, v) ∷ m) = let rest = delete k m in ite (dec j k) rest ((j, v) ∷ rest)

  unfoldable pub set : K → V → List (K × V) → List (K × V)
  unfolding delete
  set k v m = (k, v) ∷ delete k m

  -- No key stands twice.
  unfoldable pub Unique : List (K × V) → Type κ
  Unique [] = Unit
  Unique ((k, v) ∷ m) = (get k m ≡ none) × Unique m

module _ {ℓ κ} {K : Type ℓ} {V : Type κ} where
  -- The entries that pass a test: what `maps.DeleteFunc` of the opposite test leaves.
  unfoldable pub keep : (K → V → Bool) → List (K × V) → List (K × V)
  keep p [] = []
  keep p ((k, v) ∷ m) = let rest = keep p m in if p k v then (k, v) ∷ rest else rest

  -- `maps.Keys` and `maps.Values`.
  abbrev pub keys : List (K × V) → List K
  keys [] = []
  keys ((k, v) ∷ m) = k ∷ keys m

  abbrev pub values : List (K × V) → List V
  values [] = []
  values ((k, v) ∷ m) = v ∷ values m

-- What `has` reports: the `ok` of a two-value lookup.
abbrev pub is_some {ℓ} : {A : Type ℓ} → Option A → Bool
is_some none = false
is_some (some _) = true

-- A value missing from the map reads as the zero value of its type.
abbrev pub get_or {ℓ} : {A : Type ℓ} → Option A → A → A
get_or none d = d
get_or (some a) d = a
