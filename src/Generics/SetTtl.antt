-- ===== src/Generics/SetTtl.antt =====
-- generics/setttl.go: a set whose elements expire. `now` is the reading of the clock in a call.
use refinery.Base.{
  inl, inr, ℕ, ◌+◌, ◌≤◌, ◌≡◌, refl, Bool, false, not, Option, none, some, List, [], ◌∷◌, ltb,
  if◌then◌else◌, arith, Option-cases, length,
}
use refinery.Base.Sort.{sort}
use refinery.GoMap.{get, set, delete, keep, keys, Unique, get-set, get-keep, set-Unique}
use refinery.Generics.Set.{elem}

pub record SetWithTtl {ℓ} (T : Type ℓ) : Type ℓ where
  pub items : List (T × ℕ)
  pub ttl : ℕ

-- Each element stands once.
abbrev pub IsValid {ℓ} : {T : Type ℓ} → Discrete T → SetWithTtl T → Type 0
IsValid dec s = Unique dec s.items

-- `exp.Before(now)` in `cleanup`: what has expired before now is deleted.
abbrev pub unexpired {ℓ} : {T : Type ℓ} → ℕ → T → ℕ → Bool
unexpired now k exp = not (ltb exp now)

module _ {ℓ} {T : Type ℓ} (dec : Discrete T) where
  -- the loop of `Add`
  unfoldable pub add_items : ℕ → List (T × ℕ) → List T → List (T × ℕ)
  add_items exp items [] = items
  add_items exp items (e ∷ es) = add_items exp (set dec e exp items) es

  unfoldable pub add : ℕ → SetWithTtl T → List T → SetWithTtl T
  unfolding add_items
  add now s es = record s { items = add_items (now + s.ttl) s.items es }

  unfoldable pub new : ℕ → ℕ → List T → SetWithTtl T
  unfolding add
  new now ttl es = add now (record { items = []; ttl = ttl }) es

  remove_items : List (T × ℕ) → List T → List (T × ℕ)
  remove_items items [] = items
  remove_items items (e ∷ es) = remove_items (delete dec e items) es

  unfoldable pub remove : SetWithTtl T → List T → SetWithTtl T
  unfolding remove_items
  remove s es = record s { items = remove_items s.items es }

  unfoldable pub is_after : ℕ → Option ℕ → Bool
  is_after now none = false
  is_after now (some exp) = ltb now exp

  unfoldable pub contains : ℕ → SetWithTtl T → T → Bool
  unfolding is_after
  contains now s e = is_after now (get dec e s.items)

  -- the set without what has expired, and the count of what is left
  unfoldable pub cleanup : ℕ → SetWithTtl T → SetWithTtl T × ℕ
  cleanup now s =
      let items = keep (unexpired now) s.items in (record s { items = items }, length items)

  unfoldable pub members : (T → T → Bool) → ℕ → SetWithTtl T → SetWithTtl T × List T
  unfolding cleanup
  members less now s = let s' = (cleanup now s).0 in (s', sort less (keys s'.items))

  unfoldable pub length_of : ℕ → SetWithTtl T → SetWithTtl T × ℕ
  unfolding cleanup
  length_of now s = cleanup now s

  get-add_items :
      (exp : ℕ) (es : List T) (items : List (T × ℕ)) (e : T)
      → get dec e (add_items exp items es) ≡ (if elem dec e es then some exp else get dec e items)
  unfolding add_items elem get
  get-add_items exp [] items e = refl
  get-add_items exp (x ∷ es) items e =
      ground (arith, get-add_items exp es (set dec x exp items) e, get-set dec e x exp items)

  -- An added element is contained until its time to live has passed, from the time of the call;
  -- the other elements stay as they were.
  pub contains-add :
      (now later : ℕ) (s : SetWithTtl T) (es : List T) (e : T)
      → contains later (add now s es) e
        ≡ (if elem dec e es then ltb later (now + s.ttl) else contains later s e)
  unfolding contains add is_after
  contains-add now later s es e = ground (arith, get-add_items (now + s.ttl) es s.items e)

  -- Cleaning up a set with each element once is invisible to `Contains`, now and at every later
  -- time.
  pub contains-cleanup :
      (now later : ℕ) (s : SetWithTtl T) (e : T)
      → IsValid dec s
      → now ≤ later
      → contains later (cleanup now s).0 e ≡ contains later s e
  unfolding contains cleanup is_after
  contains-cleanup now later s e u h = elim (Option-cases (get dec e s.items)) [
    | inl a ↦ rw (get-keep dec (unexpired now) e s.items u, a) refl
    | inr (x, a) ↦ ground (arith, get-keep dec (unexpired now) e s.items u)
  ]

  -- At the very instant of its expiry an element of a set with each element once is no longer
  -- contained, and is still counted and listed: `Contains` asks for a later expiry, `cleanup`
  -- deletes only an earlier one.
  pub expiry_instant :
      (now : ℕ) (s : SetWithTtl T) (e : T)
      → IsValid dec s
      → get dec e s.items ≡ some now
      → (contains now s e ≡ false) × (get dec e (cleanup now s).0.items ≡ some now)
  unfolding contains cleanup is_after
  expiry_instant now s e u h =
      (ground arith, ground (arith, get-keep dec (unexpired now) e s.items u))

  add_items-Unique :
      (exp : ℕ) (es : List T) (items : List (T × ℕ))
      → Unique dec items
      → Unique dec (add_items exp items es)
  unfolding add_items
  add_items-Unique exp [] items u = u
  add_items-Unique exp (x ∷ es) items u =
      add_items-Unique exp es (set dec x exp items) (set-Unique dec x exp items u)

  pub add-IsValid :
      (now : ℕ) (s : SetWithTtl T) (es : List T) → IsValid dec s → IsValid dec (add now s es)
  unfolding add
  add-IsValid now s es u = add_items-Unique (now + s.ttl) es s.items u
