-- ===== src/Cache/Reasons.antt =====
-- collect/cache/kept_reasons_cache.go: reasons stored once, and referred to by a number from 1.
-- `hash` is wyhash with the cache's random seed.
use refinery.Base.{
  ℕ, ◌+◌, ◌-◌, ◌^◌, ◌≤◌, ◌<◌, ◌≡◌, refl, sym, Option, none, some, String, List, [], ◌∷◌, ◌++◌,
  length, get_elem?, ℕ_discrete, arith, ltb, if◌then◌else◌, ◌==◌, length-append, get_elem?-snoc,
  get_elem?-append_left,
}
use refinery.GoMap
use refinery.GoMap.{get-set}
use refinery.Types.Trace.{u32}

pub record KeptReasons : Type 0 where
  pub reasons : List String
  pub keys : List (ℕ × ℕ)  -- from the hash of a reason to its number, a `uint32`

module _ (hash : String → ℕ) where
  set_found : KeptReasons → String → Option ℕ → KeptReasons × ℕ
  set_found c key (some val) = (c, val)
  set_found c key none =
      let reasons = c.reasons ++ key ∷ [] in
      let val = u32 (length reasons) in
      (record { reasons = reasons; keys = GoMap.set ℕ_discrete (hash key) val c.keys }, val)

  unfoldable pub set : KeptReasons → String → KeptReasons × ℕ
  unfolding set_found
  set c key = set_found c key (GoMap.get ℕ_discrete (hash key) c.keys)

  -- every number in the map is that of a stored reason with the hash
  pub record IsValid (c : KeptReasons) : Type 0 where
    pub stored :
        (h n : ℕ)
        → GoMap.get ℕ_discrete h c.keys ≡ some n
        → (r : String) × (get_elem? c.reasons (n - 1) ≡ some r)
          × (hash r ≡ h)
          × (1 ≤ n)
          × (n ≤ length c.reasons)

-- `Get`; `none` is the empty text with `false`
unfoldable pub get : KeptReasons → ℕ → Option String
get c key =
    if key == 0
    then none
    else if ltb (length c.reasons) key
    then none
    else get_elem? c.reasons (key - 1)

get-intro :
    (c : KeptReasons) (n : ℕ) (r : String)
    → get_elem? c.reasons (n - 1) ≡ some r
    → 1 ≤ n
    → n ≤ length c.reasons
    → get c n ≡ some r
unfolding get
get-intro c n r e low high = ground arith

get-elim :
    (c : KeptReasons) (n : ℕ) (r : String)
    → get c n ≡ some r
    → (get_elem? c.reasons (n - 1) ≡ some r) × (1 ≤ n) × (n ≤ length c.reasons)
unfolding get
get-elim c n r h = ground arith

module _ (hash : String → ℕ) (c : KeptReasons) (v : IsValid hash c) (key : String) where
  -- What is known of the cache and the number after `Set`.
  Good : KeptReasons × ℕ → Type 0
  Good (c', val) =
      ((s : String) × (get c' val ≡ some s) × (hash s ≡ hash key))
      × IsValid hash c'
      × ((n : ℕ) (r : String) → get c n ≡ some r → get c' n ≡ some r)

  grown : List String
  grown = c.reasons ++ key ∷ []

  found-Good : (val : ℕ) → GoMap.get ℕ_discrete (hash key) c.keys ≡ some val → Good (c, val)
  unfolding Good get
  found-Good val e =
      let (s, at_val, same, low, high) = v.stored (hash key) val e in
      ((s, ground arith, same), v, λ n r h. h)

  new-Good :
      length c.reasons + 1 < 2 ^ 32
      → Good (
        record {
          reasons = grown;
          keys = GoMap.set ℕ_discrete (hash key) (u32 (length grown)) c.keys;
        },
        u32 (length grown),
      )
  unfolding Good get grown
  new-Good fits = ((key, at_new, refl), record { stored = stored }, at_old)
    where
      len_grown : u32 (length grown) ≡ length c.reasons + 1
      len_grown = omega (arith, length-append {0} c.reasons (key ∷ []))

      len : length grown ≡ length c.reasons + 1
      len = length-append c.reasons (key ∷ [])

      after : KeptReasons
      after = record {
        reasons = grown;
        keys = GoMap.set ℕ_discrete (hash key) (u32 (length grown)) c.keys;
      }

      at : (i : ℕ) → i ≡ length c.reasons → get_elem? grown i ≡ some key
      at i e = rw e (get_elem?-snoc c.reasons key)

      at_new : get after (u32 (length grown)) ≡ some key
      at_new =
          get-intro after (u32 (length grown)) key (at _ (omega (arith, len_grown)))
            (omega (arith, len_grown)) (omega (arith, len_grown, len))

      at_old : (n : ℕ) (r : String) → get c n ≡ some r → get after n ≡ some r
      at_old n r h =
          let (e, low, high) = get-elim c n r h in
          get-intro after n r (get_elem?-append_left c.reasons (key ∷ []) (n - 1) r e) low
            (omega (arith, len))

      stored :
          (h' n' : ℕ)
          → GoMap.get ℕ_discrete h' after.keys ≡ some n'
          → (x : String) × (get_elem? grown (n' - 1) ≡ some x)
            × (hash x ≡ h')
            × (1 ≤ n')
            × (n' ≤ length grown)
      stored h' n' e = elim (ℕ_discrete h' (hash key)) [
        | yes p ↦
            let e' : n' ≡ u32 (length grown) =
              ground (arith, get-set ℕ_discrete h' (hash key) (u32 (length grown)) c.keys) in
            (
              key,
              at _ (omega (arith, len_grown, e')),
              sym p,
              omega (arith, len_grown, e'),
              omega (arith, len_grown, len, e'),
            )
        | no p ↦
            let (x, found, same, low, high) =
              v.stored h' n'
                (ground (arith, get-set ℕ_discrete h' (hash key) (u32 (length grown)) c.keys)) in
            (
              x,
              get_elem?-append_left c.reasons (key ∷ []) (n' - 1) x found,
              same,
              low,
              omega (arith, len),
            )
      ]

  set_found-Good :
      (o : Option ℕ)
      → length c.reasons + 1 < 2 ^ 32
      → GoMap.get ℕ_discrete (hash key) c.keys ≡ o
      → Good (set_found hash c key o)
  unfolding set grown
  set_found-Good none fits e = new-Good fits
  set_found-Good (some val) fits e = found-Good val e

  -- Storing a reason in a valid cache with fewer than 2 ^ 32 - 1 reasons yields a number under
  -- which a reason with the same hash is read back: the reason itself, unless two reasons collide.
  -- The cache stays valid.
  pub get-set_reason :
      length c.reasons + 1 < 2 ^ 32
      → ((s : String) × (get (set hash c key).0 (set hash c key).1 ≡ some s) × (hash s ≡ hash key))
        × IsValid hash (set hash c key).0
  unfolding set Good
  get-set_reason fits =
      let (found, valid, _) = set_found-Good (GoMap.get ℕ_discrete (hash key) c.keys) fits refl in
      (found, valid)

  set_found-number :
      (o : Option ℕ)
      → length c.reasons + 1 < 2 ^ 32
      → GoMap.get ℕ_discrete (hash key) c.keys ≡ o
      → (set_found hash c key o).1 < 2 ^ 32
  unfolding set
  set_found-number none fits e = omega arith
  set_found-number (some val) fits e =
      let (s, at_val, same, low, high) = v.stored (hash key) val e in omega arith

  -- The number of a reason is a `uint32`.
  pub number-set : length c.reasons + 1 < 2 ^ 32 → (set hash c key).1 < 2 ^ 32
  unfolding set
  number-set fits = set_found-number (GoMap.get ℕ_discrete (hash key) c.keys) fits refl

  -- Whatever was read under a number before a reason is stored in a valid cache with fewer than 2 ^
  -- 32 - 1 reasons is read under it still.
  pub get-set_reason_old :
      (n : ℕ) (r : String)
      → length c.reasons + 1 < 2 ^ 32
      → get c n ≡ some r
      → get (set hash c key).0 n ≡ some r
  unfolding set Good
  get-set_reason_old n r fits h =
      (set_found-Good (GoMap.get ℕ_discrete (hash key) c.keys) fits refl).2 n r h
