-- ===== src/Transmit/Batches/Entries.antt =====
-- transmit/direct_transmit.go: what holds of all batches, through the operations of their map.
use refinery.Base.{
  ℕ, suc, ◌≡◌, refl, ap, subst, All, Option, some, List, [], ◌∷◌, ◌++◌, ite, length,
}
use refinery.GoMap.{get, set, delete, get_or}
use refinery.Transmit.Batches.{TransmitKey, key_discrete, EventBatch}

pub All-++ {ℓ κ} :
    {A : Type ℓ} (P : A → Type κ) (xs ys : List A) → All P xs → All P ys → All P (xs ++ ys)
All-++ P [] ys h g = g
All-++ P (x ∷ xs) ys h g = (h.0, All-++ P xs ys h.1 g)

All-ite {ℓ κ ν} :
    {A : Type ℓ} {Q : Type ν} (P : A → Type κ) (d : Dec Q) (xs ys : List A)
    → All P xs
    → All P ys
    → All P (ite d xs ys)
All-ite P (yes p) xs ys h g = h
All-ite P (no n) xs ys h g = g

pub length-snoc : (xs : List ℕ) (x : ℕ) → length (xs ++ x ∷ []) ≡ suc (length xs)
length-snoc [] x = refl
length-snoc (y ∷ xs) x = ap suc (length-snoc xs x)

module _ (P : TransmitKey × EventBatch → Type 0) where
  All-delete :
      (k : TransmitKey) (m : List (TransmitKey × EventBatch))
      → All P m
      → All P (delete key_discrete k m)
  unfolding delete
  All-delete k [] h = tt
  All-delete k ((j, v) ∷ m) h =
      All-ite P (key_discrete j k) _ _ (All-delete k m h.1) (h.0, All-delete k m h.1)

  pub All-set :
      (k : TransmitKey) (v : EventBatch) (m : List (TransmitKey × EventBatch))
      → P (k, v)
      → All P m
      → All P (set key_discrete k v m)
  unfolding set
  All-set k v m p h = (p, All-delete k m h)

  found_ite :
      {j k : TransmitKey} (d : Dec (j ≡ k)) (v w : EventBatch) (o : Option EventBatch)
      → P (j, v)
      → P (k, get_or o w)
      → P (k, get_or (ite d (some v) o) w)
  found_ite (yes p) v w o h g = subst (λ q. P (q, v)) p h
  found_ite (no n) v w o h g = g

  pub All-get_or :
      (k : TransmitKey) (w : EventBatch) (m : List (TransmitKey × EventBatch))
      → All P m
      → P (k, w)
      → P (k, get_or (get key_discrete k m) w)
  unfolding get
  All-get_or k w [] h g = g
  All-get_or k w ((j, v) ∷ m) h g = found_ite (key_discrete j k) v w _ h.0 (All-get_or k w m h.1 g)
