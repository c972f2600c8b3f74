-- ===== src/GoMap/Laws.antt =====
-- The laws of the map operations, in the form `get j (op k m) ≡ …` that rewriting uses.
use refinery.Base.{
  All, All-mono, ◌≡◌, refl, ◌∙◌, ◌≢◌, Bool, Option, none, some, List, [], ◌∷◌, ite, if_pos, if_neg,
  if◌then◌else◌, arith,
}
use refinery.GoMap.Defs.{get, set, delete, Unique, keep, keys}

-- What a filtered map holds at a key.
abbrev pub passed {ℓ κ} : {K : Type ℓ} {V : Type κ} → (K → V → Bool) → K → Option V → Option V
passed p k none = none
passed p k (some v) = if p k v then some v else none

module _ {ℓ κ} {K : Type ℓ} {V : Type κ} (dec : Discrete K) where
  pub get-delete :
      (j k : K) (m : List (K × V)) → get dec j (delete dec k m) ≡ ite (dec j k) none (get dec j m)
  unfolding get delete
  get-delete j k [] = ground arith
  get-delete j k ((i, v) ∷ m) = elim (dec i k) [
    | yes p ↦ rw (if_pos _ p, get-delete j k m) (ground arith)
    | no p ↦ rw (if_neg _ p, get-delete j k m) (ground arith)
  ]

  pub get-set :
      (j k : K) (v : V) (m : List (K × V))
      → get dec j (set dec k v m) ≡ ite (dec j k) (some v) (get dec j m)
  unfolding get set
  get-set j k v m = ground (arith, get-delete j k m)

  pub get-delete_self : (k : K) (m : List (K × V)) → get dec k (delete dec k m) ≡ none
  get-delete_self k m = ground (arith, get-delete k k m)

  pub get-set_self : (k : K) (v : V) (m : List (K × V)) → get dec k (set dec k v m) ≡ some v
  get-set_self k v m = ground (arith, get-set k k v m)

  pub get-set_ne :
      (j k : K) (v : V) (m : List (K × V)) → j ≢ k → get dec j (set dec k v m) ≡ get dec j m
  get-set_ne j k v m h = ground (arith, get-set j k v m)

  pub delete-Unique : (k : K) (m : List (K × V)) → Unique dec m → Unique dec (delete dec k m)
  unfolding Unique delete
  delete-Unique k [] u = u
  delete-Unique k ((i, v) ∷ m) u = elim (dec i k) [
    | yes p ↦ rw (if_pos _ p) (delete-Unique k m u.1)
    | no p ↦ rw (if_neg _ p) (ground (arith, get-delete i k m), delete-Unique k m u.1)
  ]

  pub set-Unique : (k : K) (v : V) (m : List (K × V)) → Unique dec m → Unique dec (set dec k v m)
  unfolding Unique set
  set-Unique k v m u = (get-delete_self k m, delete-Unique k m u)

  get-keep_none :
      (p : K → V → Bool) (k : K) (m : List (K × V))
      → get dec k m ≡ none
      → get dec k (keep p m) ≡ none
  unfolding get keep
  get-keep_none p k [] h = refl
  get-keep_none p k ((i, v) ∷ m) h = ground (arith, get-keep_none p k m)

  pub keep-Unique : (p : K → V → Bool) (m : List (K × V)) → Unique dec m → Unique dec (keep p m)
  unfolding Unique keep
  keep-Unique p [] u = u
  keep-Unique p ((i, v) ∷ m) u = ground (arith, keep-Unique p m u.1, get-keep_none p i m u.0)

  pub get-keep :
      (p : K → V → Bool) (k : K) (m : List (K × V))
      → Unique dec m
      → get dec k (keep p m) ≡ passed p k (get dec k m)
  unfolding get keep Unique
  get-keep p k [] u = refl
  get-keep p k ((i, v) ∷ m) u = ground (arith, get-keep p k m u.1, get-keep_none p k m)

  -- Every key that a loop visits is found.
  pub keys-present : (m : List (K × V)) → All (λ k. (v : V) × (get dec k m ≡ some v)) (keys m)
  unfolding get
  keys-present [] = tt
  keys-present ((i, v) ∷ m) = (
    (v, if_pos (dec i i) refl _ _),
    All-mono (λ k. (w : V) × (get dec k m ≡ some w))
        (λ k. (w : V) × (get dec k ((i, v) ∷ m) ≡ some w)) (keys m)
        (λ k h. elim (dec i k) [
          | yes p ↦ (v, if_pos (dec i k) p _ _)
          | no p ↦ (h.0, if_neg (dec i k) p _ _ ∙ h.1)
        ])
        (keys-present m),
  )
