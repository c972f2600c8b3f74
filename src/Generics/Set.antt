-- ===== src/Generics/Set.antt =====
-- generics/set.go: a set as a map to the empty struct.
use refinery.Base.{◌≡◌, refl, Bool, false, ◌&&◌, ◌||◌, not, List, [], ◌∷◌, if◌then◌else◌, arith}
use refinery.GoMap.{get, set, delete, keys, is_some, get-set, get-delete}

abbrev pub Set {ℓ} : Type ℓ → Type ℓ
Set T = List (T × Unit {0})

module _ {ℓ} {T : Type ℓ} (dec : Discrete T) where
  unfoldable pub add : Set T → List T → Set T
  add s [] = s
  add s (e ∷ es) = add (set dec e tt s) es

  unfoldable pub new : List T → Set T
  unfolding add
  new es = add [] es

  unfoldable pub remove : Set T → List T → Set T
  remove s [] = s
  remove s (e ∷ es) = remove (delete dec e s) es

  unfoldable pub add_members : Set T → Set T → Set T
  add_members s [] = s
  add_members s ((v, _) ∷ b) = add_members (set dec v tt s) b

  unfoldable pub contains : Set T → T → Bool
  contains s e = is_some (get dec e s)

  abbrev pub members : Set T → List T
  members = keys

  -- the loops of `Intersect` and `Difference`, over what is left of `s`, with the result so far
  intersect_from : Set T → Set T → Set T → Set T
  unfolding add contains
  intersect_from [] b c = c
  intersect_from ((v, _) ∷ s) b c = intersect_from s b (if contains b v then add c (v ∷ []) else c)

  unfoldable pub intersect : Set T → Set T → Set T
  unfolding intersect_from new
  intersect s b = intersect_from s b (new [])

  difference_from : Set T → Set T → Set T → Set T
  unfolding add contains
  difference_from [] b c = c
  difference_from ((v, _) ∷ s) b c =
      difference_from s b (if not (contains b v) then add c (v ∷ []) else c)

  unfoldable pub difference : Set T → Set T → Set T
  unfolding difference_from new
  difference s b = difference_from s b (new [])

  unfoldable pub union : Set T → Set T → Set T
  unfolding add_members
  union s b = add_members (add_members [] s) b

  -- Whether a slice holds an element.
  unfoldable pub elem : T → List T → Bool
  elem e [] = false
  elem e (x ∷ xs) = is_some (get {V = Unit {0}} dec e ((x, tt) ∷ [])) || elem e xs

  pub contains-add :
      (es : List T) (s : Set T) (e : T) → contains (add s es) e ≡ (contains s e || elem e es)
  unfolding add contains elem get
  contains-add [] s e = ground arith
  contains-add (x ∷ es) s e =
      ground (arith, contains-add es (set dec x tt s) e, get-set dec e x tt s)

  pub contains-remove :
      (es : List T) (s : Set T) (e : T)
      → contains (remove s es) e ≡ (contains s e && not (elem e es))
  unfolding remove contains elem get
  contains-remove [] s e = ground arith
  contains-remove (x ∷ es) s e =
      ground (arith, contains-remove es (delete dec x s) e, get-delete dec e x s)

  contains-add_members :
      (b s : Set T) (e : T) → contains (add_members s b) e ≡ (contains s e || contains b e)
  unfolding add_members contains get
  contains-add_members [] s e = ground arith
  contains-add_members ((v, _) ∷ b) s e =
      ground (arith, contains-add_members b (set dec v tt s) e, get-set dec e v tt s)

  contains-intersect_from :
      (s b c : Set T) (e : T)
      → contains (intersect_from s b c) e ≡ (contains c e || (contains s e && contains b e))
  unfolding intersect_from contains get add
  contains-intersect_from [] b c e = ground arith
  contains-intersect_from ((v, _) ∷ s) b c e = ground (
    arith,
    contains-intersect_from s b (if contains b v then add c (v ∷ []) else c) e,
    get-set dec e v tt c,
  )

  contains-difference_from :
      (s b c : Set T) (e : T)
      → contains (difference_from s b c) e ≡ (contains c e || (contains s e && not (contains b e)))
  unfolding difference_from contains get add
  contains-difference_from [] b c e = ground arith
  contains-difference_from ((v, _) ∷ s) b c e = ground (
    arith,
    contains-difference_from s b (if not (contains b v) then add c (v ∷ []) else c) e,
    get-set dec e v tt c,
  )

  -- Membership in a union, an intersection and a difference is the disjunction, the conjunction
  -- and the exclusion of membership in the two sets; `Add` and `Remove` change the membership of
  -- the listed elements and of no other.
  pub contains_algebra :
      (s b : Set T) (es : List T) (e : T)
      → (contains (union s b) e ≡ (contains s e || contains b e))
        × (contains (intersect s b) e ≡ (contains s e && contains b e))
        × (contains (difference s b) e ≡ (contains s e && not (contains b e)))
        × (contains (add s es) e ≡ (contains s e || elem e es))
        × (contains (remove s es) e ≡ (contains s e && not (elem e es)))
  unfolding union intersect difference contains get
  contains_algebra s b es e = (
    rw (contains-add_members b (add_members [] s) e, contains-add_members s [] e) refl,
    contains-intersect_from s b [] e,
    contains-difference_from s b [] e,
    contains-add es s e,
    contains-remove es s e,
  )
