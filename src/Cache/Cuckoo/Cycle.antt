-- ===== src/Cache/Cuckoo/Cycle.antt =====
-- collect/cache/cuckoo.go: cycling the filters.
use refinery.Base.{
  ℕ, ◌≡◌, ◌≤◌, refl, Bool, true, false, none, some, String, List, [], ◌∷◌, zero, suc, arith,
  Option-cases, inl, inr, ◌⊎◌, ◌≢◌, min, length,
}
use refinery.GoMap.{is_some}
use refinery.Deps.Filter.{CuckooFilter}
use mathlib.Core.List.{Memᴰ}
use refinery.Cache.Cuckoo.Adds.{
  HasRoom, insert_all, drain_loop-current, drain_loop-future, lookup-insert_all,
  lookup-insert_all_mono,
}
use refinery.Cache.Cuckoo.{
  check, lookup_in, start_future, cycle, loaded, Checker, insert_into, new, add, drain, drain_loop,
  maintain, maintain_filters, loaded_above,
}

module _ (cf : CuckooFilter) where
  open cf use {Filter}

  -- more than 99 percent is more than 50 percent
  half_of_full : (f : Filter) → loaded_above cf 99 f ≡ true → loaded_above cf 50 f ≡ true
  unfolding loaded_above
  half_of_full f h = ground arith

  -- On each branch of `Maintain`, after its drain: up to half load nothing changes. Above half load
  -- there is a future filter, a new one if there was none, and the current filter stays. Above 99
  -- percent the future filter becomes current, or a new one if there was none, and the future filter
  -- is a new one.
  pub maintain_filters_branches :
      (c : Checker cf) (f : Filter)
      → c.current ≡ some f
      → ((loaded_above cf 50 f ≡ false) × (maintain_filters cf c ≡ c))
        ⊎ ((loaded_above cf 50 f ≡ true)
            × (loaded_above cf 99 f ≡ false)
            × ((maintain_filters cf c).current ≡ some f)
            × (is_some (maintain_filters cf c).future ≡ true))
        ⊎ ((loaded_above cf 99 f ≡ true)
            × (c.future ≢ none)
            × ((maintain_filters cf c).current ≡ c.future)
            × ((maintain_filters cf c).future ≡ some (cf.new c.capacity)))
        ⊎ ((loaded_above cf 99 f ≡ true)
            × (c.future ≡ none)
            × ((maintain_filters cf c).current ≡ some (cf.new c.capacity))
            × ((maintain_filters cf c).future ≡ some (cf.new c.capacity)))
  unfolding maintain_filters
  maintain_filters_branches c f e = ground (arith, half_of_full f)

  -- The pointer to the current filter is not nil.
  abbrev pub HasCurrent : Checker cf → Type 0
  HasCurrent c = is_some c.current ≡ true

  drain_loop-HasCurrent :
      (n : ℕ) (c : Checker cf) (ids : List String)
      → HasCurrent c
      → HasCurrent (drain_loop cf n c ids)
  unfolding drain_loop
  drain_loop-HasCurrent n c [] h = h
  drain_loop-HasCurrent zero c (id ∷ ids) h = h
  drain_loop-HasCurrent (suc n) c (id ∷ ids) h =
      drain_loop-HasCurrent n
        (record c { current = insert_into cf c.current id; future = insert_into cf c.future id })
        ids (ground arith)

  maintain_filters-HasCurrent : (c : Checker cf) → HasCurrent c → HasCurrent (maintain_filters cf c)
  unfolding maintain_filters
  maintain_filters-HasCurrent c h = elim (Option-cases c.current) [
    | inl e ↦ absurd (ground arith)
    | inr (f, e) ↦ ground (arith, maintain_filters_branches c f e)
  ]

  -- A new checker has a current filter, and adding, draining and maintaining leave one, though
  -- cycling assigns `current` from `future`.
  pub maintain-HasCurrent :
      (budget : ℕ) (c : Checker cf) (id : String)
      → HasCurrent c
      → HasCurrent (new cf budget)
        × HasCurrent (add cf c id)
        × HasCurrent (drain cf budget c)
        × HasCurrent (maintain cf budget c)
  unfolding maintain drain new add
  maintain-HasCurrent budget c id h =
      let d = drain_loop-HasCurrent (min (length c.addch) budget) c c.addch h in
      (refl, ground arith, d, maintain_filters-HasCurrent (drain cf budget c) d)

  start_future-given :
      (half : Bool) (c : Checker cf) (g : Filter) → c.future ≡ some g → start_future cf half c ≡ c
  unfolding start_future
  start_future-given half c g e = rw e refl

  check-cycle :
      (full : Bool) (c : Checker cf) (id : String)
      → lookup_in cf c.current id ≡ true
      → lookup_in cf c.future id ≡ true
      → check cf (cycle cf full c) id ≡ true
  unfolding check cycle
  check-cycle true c id h g = g
  check-cycle false c id h g = h

  check-maintain_filters :
      (c : Checker cf) (f g : Filter) (id : String)
      → c.current ≡ some f
      → c.future ≡ some g
      → cf.lookup f id ≡ true
      → cf.lookup g id ≡ true
      → check cf (maintain_filters cf c) id ≡ true
  unfolding maintain_filters lookup_in
  check-maintain_filters c f g id e e' h h' =
      rw (start_future-given (loaded cf 50 c.current) c g e')
        (check-cycle (loaded cf 99 c.current) c id (rw (e, lookup_in) h) (rw (e', lookup_in) h'))

  -- Once there is a future filter, cycling forgets no decision that it was fed: after a `Maintain` whose
  -- drain is not cut short, whatever the load is by then and whichever filter is current, every id
  -- that was queued is found, and so is every id that both filters had before; as long as both have
  -- room for the ids.
  pub check-maintain :
      (budget : ℕ) (c : Checker cf) (f g : Filter) (id old : String)
      → c.current ≡ some f
      → c.future ≡ some g
      → length c.addch ≤ budget
      → HasRoom cf f c.addch
      → HasRoom cf g c.addch
      → Memᴰ id c.addch
      → cf.lookup f old ≡ true
      → cf.lookup g old ≡ true
      → (check cf (maintain cf budget c) id ≡ true) × (check cf (maintain cf budget c) old ≡ true)
  unfolding maintain drain
  check-maintain budget c f g id old e e' l room room' m h h' =
      let n = min (length c.addch) budget in
      let d = drain_loop cf n c c.addch in
      let now = drain_loop-current cf c.addch n c f e (omega arith) in
      let next = drain_loop-future cf c.addch n c g e' (omega arith) in
      (
        check-maintain_filters d (insert_all cf f c.addch) (insert_all cf g c.addch) id now next
            (lookup-insert_all cf f c.addch id room m) (lookup-insert_all cf g c.addch id room' m),
        check-maintain_filters d (insert_all cf f c.addch) (insert_all cf g c.addch) old now next
            (lookup-insert_all_mono cf f c.addch old room h)
            (lookup-insert_all_mono cf g c.addch old room' h'),
      )
