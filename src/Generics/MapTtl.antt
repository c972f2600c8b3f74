-- ===== src/Generics/MapTtl.antt =====
-- generics/mapttl.go: a map whose entries expire. `now` is the reading of the clock in a call.
use refinery.Base.{
  if_pos, if_neg, ℕ, suc, ◌+◌, ◌≤◌, ◌≡◌, refl, sym, ap, inl, inr, Bool, not, Option, none, some,
  List, [], ◌∷◌, map, ltb, ite, if◌then◌else◌, arith, Bool-cases, length, ◌∙◌, All-mono, map-map,
  map-eq_of_All,
}
use refinery.Base.Sort.{sort, All-sort}
use refinery.GoMap.{
  get, set, delete, keep, keys, values, Unique, passed, get-set, get-keep, keys-present,
}

pub record Item {ℓ} (V : Type ℓ) : Type ℓ where
  pub value : V
  pub expiration : ℕ

pub record MapWithTtl {ℓ κ} (K : Type ℓ) (V : Type κ) : Type (ℓ ⊔ κ) where
  pub items : List (K × Item V)
  pub ttl : ℕ

-- `Expiration.Before(now)`
abbrev pub expired {ℓ} : {V : Type ℓ} → ℕ → Item V → Bool
expired now item = ltb item.expiration now

module _ {ℓ κ} {K : Type ℓ} {V : Type κ} (dec : Discrete K) where
  abbrev pub IsValid : MapWithTtl K V → Type κ
  IsValid m = Unique dec m.items

  unfoldable pub set_at : ℕ → MapWithTtl K V → K → V → MapWithTtl K V
  set_at now m k v = record m {
    items = set dec k (record { value = v; expiration = now + m.ttl }) m.items;
  }

  -- the loop of `NewMapWithTTL`
  unfoldable pub set_all : ℕ → MapWithTtl K V → List (K × V) → MapWithTtl K V
  set_all now m [] = m
  set_all now m ((k, v) ∷ kvs) = set_all now (set_at now m k v) kvs

  unfoldable pub new : ℕ → ℕ → List (K × V) → MapWithTtl K V
  unfolding set_all
  new now ttl initial_values = set_all now (record { items = []; ttl = ttl }) initial_values

  -- the value, if the entry is there and has not expired
  unfoldable pub fresh : ℕ → Option (Item V) → Option V
  fresh now none = none
  fresh now (some item) = if expired now item then none else some item.value

  -- `Get`; `none` is the zero value with `false`
  unfoldable pub get_at : ℕ → MapWithTtl K V → K → Option V
  unfolding fresh
  get_at now m k = fresh now (get dec k m.items)

  unfoldable pub remove : MapWithTtl K V → K → MapWithTtl K V
  remove m k = record m { items = delete dec k m.items }

  -- the loop of `cleanup`: the entries that stay, and how many they are
  unfoldable pub cleanup_items : ℕ → List (K × Item V) → List (K × Item V) × ℕ
  cleanup_items now [] = ([], 0)
  cleanup_items now ((k, v) ∷ items) =
      let (rest, count) = cleanup_items now items in
      if expired now v then (rest, count) else ((k, v) ∷ rest, suc count)

  unfoldable pub cleanup : ℕ → MapWithTtl K V → MapWithTtl K V × ℕ
  unfolding cleanup_items
  cleanup now m =
      let (items, count) = cleanup_items now m.items in (record m { items = items }, count)

  unfoldable pub keys_at : ℕ → MapWithTtl K V → MapWithTtl K V × List K
  unfolding cleanup
  keys_at now m = let m' = (cleanup now m).0 in (m', keys m'.items)

  unfoldable pub values_at : ℕ → MapWithTtl K V → MapWithTtl K V × List V
  unfolding cleanup
  values_at now m = let m' = (cleanup now m).0 in (m', map (λ item. item.value) (values m'.items))

  unfoldable pub sorted_keys : (K → K → Bool) → ℕ → MapWithTtl K V → MapWithTtl K V × List K
  unfolding keys_at
  sorted_keys less now m = let (m', ks) = keys_at now m in (m', sort less ks)

  -- `m.Items[k].Value`, the zero value if the key is missing
  value_or : V → Option (Item V) → V
  value_or zero_value none = zero_value
  value_or zero_value (some item) = item.value

  unfoldable pub sorted_values : (K → K → Bool) → V → ℕ → MapWithTtl K V → MapWithTtl K V × List V
  unfolding sorted_keys value_or
  sorted_values less zero_value now m =
      let (m', ks) = sorted_keys less now m in
      (m', map (λ k. value_or zero_value (get dec k m'.items)) ks)

  unfoldable pub length_at : ℕ → MapWithTtl K V → MapWithTtl K V × ℕ
  unfolding cleanup
  length_at now m = cleanup now m

  cleanup_items-keep :
      (now : ℕ) (items : List (K × Item V))
      → cleanup_items now items ≡ (
        keep (λ k v. not (expired now v)) items,
        length (keep (λ k v. not (expired now v)) items),
      )
  unfolding cleanup_items keep
  cleanup_items-keep now [] = refl
  cleanup_items-keep now ((k, v) ∷ items) = elim (Bool-cases (expired now v)) [
    | inl e ↦ rw (cleanup_items-keep now items, e) refl
    | inr e ↦ rw (cleanup_items-keep now items, e) refl
  ]

  -- A value that is set is read until its time to live has passed, the instant itself included;
  -- the other keys stay as they were.
  pub get_at-set_at :
      (now later : ℕ) (m : MapWithTtl K V) (k j : K) (v : V)
      → get_at later (set_at now m k v) j
        ≡ ite (dec j k) (if ltb (now + m.ttl) later then none else some v) (get_at later m j)
  unfolding get_at set_at fresh
  get_at-set_at now later m k j v = elim (dec j k) [
    | yes p ↦ rw (get-set, if_pos (dec j k) p, if_pos (dec j k) p) refl
    | no p ↦ rw (get-set, if_neg (dec j k) p, if_neg (dec j k) p) refl
  ]

  -- Cleaning up a map with each key once is invisible to `Get`, now and at every later time.
  pub get_at-cleanup :
      (now later : ℕ) (m : MapWithTtl K V) (k : K)
      → IsValid m
      → now ≤ later
      → get_at later (cleanup now m).0 k ≡ get_at later m k
  unfolding get_at cleanup fresh
  get_at-cleanup now later m k u h =
      rw (cleanup_items-keep now m.items, get-keep dec (λ k v. not (expired now v)) k m.items u)
        (go (get dec k m.items))
    where
      go :
          (o : Option (Item V))
          → fresh later (passed (λ k v. not (expired now v)) k o) ≡ fresh later o
      go none = refl
      go (some item) = ground arith

  fresh-passed :
      (now : ℕ) (k : K) (o : Option (Item V)) (v : Item V)
      → passed (λ k v. not (expired now v)) k o ≡ some v
      → some v.value ≡ fresh now o
  unfolding fresh
  fresh-passed now k none v e = cc
  fresh-passed now k (some item) v e = ground arith

  -- On a map with each key once `SortedValues` gives, key by key in the order of `SortedKeys`, what
  -- `Get` reads: never the zero value of a missing key, never an expired value.
  pub sorted_values-get_at :
      (less : K → K → Bool) (zero_value : V) (now : ℕ) (m : MapWithTtl K V)
      → IsValid m
      → map some (sorted_values less zero_value now m).1
        ≡ map (get_at now m) (sorted_keys less now m).1
  unfolding sorted_values sorted_keys keys_at get_at
  sorted_values-get_at less zero_value now m u =
      map-map some (λ k. value_or zero_value (get dec k kept)) ks
      ∙ map-eq_of_All (λ k. some (value_or zero_value (get dec k kept))) (get_at now m) ks
          (All-sort less (λ k. some (value_or zero_value (get dec k kept)) ≡ get_at now m k)
            (keys kept)
            (All-mono (λ k. (v : Item V) × (get dec k kept ≡ some v))
              (λ k. some (value_or zero_value (get dec k kept)) ≡ get_at now m k) (keys kept) read
              (keys-present dec kept)))
    where
      kept : List (K × Item V)
      kept = (cleanup now m).0.items

      ks : List K
      ks = sort less (keys kept)

      read :
          (k : K)
          → (v : Item V) × (get dec k kept ≡ some v)
          → some (value_or zero_value (get dec k kept)) ≡ get_at now m k
      read k h = rw h.1 (
          fresh-passed now k (get dec k m.items) h.0 (
            sym (get-keep dec (λ k v. not (expired now v)) k m.items u)
            ∙ ap (λ p. get dec k p.0) (sym (cleanup_items-keep now m.items))
            ∙ h.1))
