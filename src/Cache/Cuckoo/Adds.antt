-- ===== src/Cache/Cuckoo/Adds.antt =====
-- collect/cache/cuckoo.go: an id that was added is found once it has been drained.
use refinery.Base.{ℕ, ◌≤◌, ◌≡◌, refl, true, some, String, List, [], ◌∷◌, zero, suc, arith, length}
use mathlib.Core.List.{Memᴰ}
use native.Mathlib.Nat.{le_refl}
use refinery.Deps.Filter.{CuckooFilter}
use refinery.Cache.Cuckoo.{Checker, drain_loop, stop, check, lookup_in, insert_into}

module _ (cf : CuckooFilter) where
  open cf use {Filter}

  -- The filter has room for all of the ids, one after the other.
  abbrev pub HasRoom : Filter → List String → Type 0
  HasRoom f [] = Unit
  HasRoom f (id ∷ ids) = ((cf.insert f id).1 ≡ true) × HasRoom (cf.insert f id).0 ids

  pub insert_all : Filter → List String → Filter
  insert_all f [] = f
  insert_all f (id ∷ ids) = insert_all (cf.insert f id).0 ids

  pub drain_loop-current :
      (ids : List String) (n : ℕ) (c : Checker cf) (f : Filter)
      → c.current ≡ some f
      → length ids ≤ n
      → (drain_loop cf n c ids).current ≡ some (insert_all f ids)
  unfolding drain_loop insert_all
  drain_loop-current [] n c f e h = e
  drain_loop-current (id ∷ ids) zero c f e h = absurd (omega arith)
  drain_loop-current (id ∷ ids) (suc n) c f e h =
      drain_loop-current ids n
        (record c { current = insert_into cf c.current id; future = insert_into cf c.future id })
        (cf.insert f id).0 (rw (e, insert_into) refl) (omega arith)

  pub drain_loop-future :
      (ids : List String) (n : ℕ) (c : Checker cf) (g : Filter)
      → c.future ≡ some g
      → length ids ≤ n
      → (drain_loop cf n c ids).future ≡ some (insert_all g ids)
  unfolding drain_loop insert_all
  drain_loop-future [] n c g e h = e
  drain_loop-future (id ∷ ids) zero c g e h = absurd (omega arith)
  drain_loop-future (id ∷ ids) (suc n) c g e h =
      drain_loop-future ids n
        (record c { current = insert_into cf c.current id; future = insert_into cf c.future id })
        (cf.insert g id).0 (rw (e, insert_into) refl) (omega arith)

  pub lookup-insert_all_mono :
      (f : Filter) (ids : List String) (id : String)
      → HasRoom f ids
      → cf.lookup f id ≡ true
      → cf.lookup (insert_all f ids) id ≡ true
  unfolding insert_all
  lookup-insert_all_mono f [] id r h = h
  lookup-insert_all_mono f (x ∷ ids) id r h =
      lookup-insert_all_mono (cf.insert f x).0 ids id r.1 (cf.lookup-insert_mono f x id r.0 h)

  pub lookup-insert_all :
      (f : Filter) (ids : List String) (id : String)
      → HasRoom f ids
      → Memᴰ id ids
      → cf.lookup (insert_all f ids) id ≡ true
  unfolding insert_all
  lookup-insert_all f [] id r m = elim m [ ]
  lookup-insert_all f (x ∷ ids) id r (Memᴰ.head e) =
      lookup-insert_all_mono (cf.insert f x).0 ids id r.1 (rw e (cf.lookup-insert f x r.0))
  lookup-insert_all f (x ∷ ids) id r (Memᴰ.tail m) =
      lookup-insert_all (cf.insert f x).0 ids id r.1 m

  -- A drain that is not cut short, such as the one of `Stop`, leaves no decision in the channel
  -- unrecorded: every id that was queued is found, and so is every id that was found before, as
  -- long as the filter has room for them.
  pub check-stop :
      (c : Checker cf) (f : Filter) (id old : String)
      → c.current ≡ some f
      → HasRoom f c.addch
      → Memᴰ id c.addch
      → check cf c old ≡ true
      → (check cf (stop cf c) id ≡ true) × (check cf (stop cf c) old ≡ true)
  unfolding check stop
  check-stop c f id old e room m h =
      let now = drain_loop-current c.addch (length c.addch) c f e (le_refl (length c.addch)) in
      let was : cf.lookup f old ≡ true = rw (e, lookup_in) at h in
      (
        rw (now, lookup_in) (lookup-insert_all f c.addch id room m),
        rw (now, lookup_in) (lookup-insert_all_mono f c.addch old room was),
      )
