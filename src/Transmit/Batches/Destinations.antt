-- ===== src/Transmit/Batches/Destinations.antt =====
-- transmit/direct_transmit.go: a batch holds the events of one destination, and has a bounded size.
use refinery.Base.{
  ℕ, suc, ◌≤◌, ◌<◌, ◌≡◌, ◌≢◌, ◌⊎◌, ℕ_discrete, refl, sym, subst, All, Bool, true, false, inl, inr,
  List, [], ◌∷◌, ◌++◌, leb, ite, length, if◌then◌else◌, arith,
}
use refinery.GoMap.{get, get_or}
use refinery.Types.Span.{Span}
use refinery.Transmit.Batches.Entries.{All-++, All-set, All-get_or, length-snoc}
use refinery.Transmit.Batches.{
  TransmitKey, key_discrete, key_of, EventBatch, Store, write, DirectTransmission, new, put_batch,
  add_to_batch, enqueue_event, dispatch_stale, is_stale, tick,
}

-- What may happen: an event is enqueued, a tick comes, or a caller writes to an event that it holds.
pub data Event : Type 0 where
  enqueued : ℕ → ℕ → Event
  ticked : ℕ → ℕ → Event
  written : ℕ → Span → Event

-- What `sendBatch` reads of an event to address its message.
abbrev pub GoesTo : TransmitKey → Span → Type 0
GoesTo k ev = (ev.api_host, (ev.api_key, ev.dataset)) ≡ k

module _ (max_batch_size : ℕ) where
  abbrev pub step : Event → Store × DirectTransmission → Store × DirectTransmission
  step (enqueued now r) (st, d) = (st, enqueue_event max_batch_size now st r d)
  step (ticked timeout now) (st, d) = (st, tick timeout now d)
  step (written r ev) (st, d) = (write st r ev, d)

  abbrev pub after : List Event → Store × DirectTransmission → Store × DirectTransmission
  after [] x = x
  after (e ∷ es) x = after es (step e x)

  -- No batch, waiting or dispatched, holds the event at an address.
  abbrev pub IsFree : ℕ → DirectTransmission → Type 0
  IsFree r d =
      All (λ (x : TransmitKey × EventBatch). All (λ q. r ≢ q) x.1.events) d.event_batches
      × All (λ rs. All (λ q. r ≢ q) rs) d.dispatched

  -- Callers do not change the destination of an event that a batch holds.
  abbrev pub IsRespectful : Event → Store × DirectTransmission → Type 0
  IsRespectful (written r ev) (st, d) =
      ((k : TransmitKey) → GoesTo k (st r) → GoesTo k ev) ⊎ IsFree r d
  IsRespectful _ x = Unit

  abbrev pub AreRespectful : List Event → Store × DirectTransmission → Type 0
  AreRespectful [] x = Unit
  AreRespectful (e ∷ es) x = IsRespectful e x × AreRespectful es (step e x)

  module _ (st : Store) where
    -- A batch that waits for a destination is below the limit, and all its events go there.
    abbrev pub IsWaiting : TransmitKey × EventBatch → Type 0
    IsWaiting (k, b) = All (λ r. GoesTo k (st r)) b.events × (length b.events < max_batch_size)

    -- A batch that was dispatched is within the limit, and all its events go to one destination.
    abbrev pub IsOneBatch : List ℕ → Type 0
    IsOneBatch rs =
        (length rs ≤ max_batch_size) × ((k : TransmitKey) × All (λ r. GoesTo k (st r)) rs)

    abbrev pub IsBatchedIn : DirectTransmission → Type 0
    IsBatchedIn d = All IsWaiting d.event_batches × All IsOneBatch d.dispatched

    if-IsBatchedIn :
        (b : Bool) (x y : DirectTransmission)
        → (b ≡ true → IsBatchedIn x)
        → (b ≡ false → IsBatchedIn y)
        → IsBatchedIn (if b then x else y)
    if-IsBatchedIn true x y h g = h refl
    if-IsBatchedIn false x y h g = g refl

  abbrev pub IsBatched : Store × DirectTransmission → Type 0
  IsBatched (st, d) = IsBatchedIn st d

  below : (n : ℕ) → leb max_batch_size n ≡ false → n < max_batch_size
  below n h = ground arith

  below_suc : (n : ℕ) → n < max_batch_size → suc n ≤ max_batch_size
  below_suc n h = omega arith

  at_most : (n : ℕ) → n < max_batch_size → n ≤ max_batch_size
  at_most n h = omega arith

  -- what a write leaves as it is
  write_ite :
      (k : TransmitKey) (r q : ℕ) (d : Dec (r ≡ q)) (st : Store) (ev : Span)
      → (GoesTo k (st r) → GoesTo k ev) ⊎ (r ≢ q)
      → GoesTo k (st q)
      → GoesTo k (ite d ev (st q))
  write_ite k r q (yes p) st ev (inl keeps) h = keeps (subst (λ x. GoesTo k (st x)) (sym p) h)
  write_ite k r q (yes p) st ev (inr n) h = absurd (n p)
  write_ite k r q (no n) st ev c h = h

  write_kept :
      (k : TransmitKey) (r : ℕ) (st : Store) (ev : Span) (qs : List ℕ)
      → ((j : TransmitKey) → GoesTo j (st r) → GoesTo j ev) ⊎ All (λ q. r ≢ q) qs
      → All (λ q. GoesTo k (st q)) qs
      → All (λ q. GoesTo k (write st r ev q)) qs
  unfolding write
  write_kept k r st ev [] c h = tt
  write_kept k r st ev (q ∷ qs) (inl keeps) h = (
    write_ite k r q (ℕ_discrete r q) st ev (inl (keeps k)) h.0,
    write_kept k r st ev qs (inl keeps) h.1,
  )
  write_kept k r st ev (q ∷ qs) (inr n) h =
      (write_ite k r q (ℕ_discrete r q) st ev (inr n.0) h.0, write_kept k r st ev qs (inr n.1) h.1)

  write-IsWaiting :
      (r : ℕ) (st : Store) (ev : Span) (m : List (TransmitKey × EventBatch))
      → ((j : TransmitKey) → GoesTo j (st r) → GoesTo j ev)
        ⊎ All (λ (x : TransmitKey × EventBatch). All (λ q. r ≢ q) x.1.events) m
      → All (IsWaiting st) m
      → All (IsWaiting (write st r ev)) m
  write-IsWaiting r st ev [] c h = tt
  write-IsWaiting r st ev ((k, b) ∷ m) (inl keeps) h = (
    (write_kept k r st ev b.events (inl keeps) h.0.0, h.0.1),
    write-IsWaiting r st ev m (inl keeps) h.1,
  )
  write-IsWaiting r st ev ((k, b) ∷ m) (inr n) h = (
    (write_kept k r st ev b.events (inr n.0) h.0.0, h.0.1),
    write-IsWaiting r st ev m (inr n.1) h.1,
  )

  write-IsOneBatch :
      (r : ℕ) (st : Store) (ev : Span) (m : List (List ℕ))
      → ((j : TransmitKey) → GoesTo j (st r) → GoesTo j ev) ⊎ All (λ rs. All (λ q. r ≢ q) rs) m
      → All (IsOneBatch st) m
      → All (IsOneBatch (write st r ev)) m
  write-IsOneBatch r st ev [] c h = tt
  write-IsOneBatch r st ev (rs ∷ m) (inl keeps) h = (
    (h.0.0, (h.0.1.0, write_kept h.0.1.0 r st ev rs (inl keeps) h.0.1.1)),
    write-IsOneBatch r st ev m (inl keeps) h.1,
  )
  write-IsOneBatch r st ev (rs ∷ m) (inr n) h = (
    (h.0.0, (h.0.1.0, write_kept h.0.1.0 r st ev rs (inr n.0) h.0.1.1)),
    write-IsOneBatch r st ev m (inr n.1) h.1,
  )

  write-IsBatchedIn :
      (r : ℕ) (st : Store) (ev : Span) (d : DirectTransmission)
      → IsRespectful (written r ev) (st, d)
      → IsBatchedIn st d
      → IsBatchedIn (write st r ev) d
  write-IsBatchedIn r st ev d (inl keeps) h = (
    write-IsWaiting r st ev d.event_batches (inl keeps) h.0,
    write-IsOneBatch r st ev d.dispatched (inl keeps) h.1,
  )
  write-IsBatchedIn r st ev d (inr free) h = (
    write-IsWaiting r st ev d.event_batches (inr free.0) h.0,
    write-IsOneBatch r st ev d.dispatched (inr free.1) h.1,
  )

  module _ (positive : 1 ≤ max_batch_size) where
    put_batch-IsBatchedIn :
        (st : Store) (key : TransmitKey) (rs : List ℕ) (start : ℕ) (d : DirectTransmission)
        → All (λ r. GoesTo key (st r)) rs
        → length rs ≤ max_batch_size
        → IsBatchedIn st d
        → IsBatchedIn st (put_batch max_batch_size key rs start d)
    unfolding put_batch
    put_batch-IsBatchedIn st key rs start d a l h =
        if-IsBatchedIn st (leb max_batch_size (length rs)) _ _
          (λ e.
            (All-set (IsWaiting st) key _ d.event_batches (tt, positive) h.0, ((l, (key, a)), h.1)))
          (λ e. (All-set (IsWaiting st) key _ d.event_batches (a, below (length rs) e) h.0, h.1))

    enqueue_event-IsBatchedIn :
        (now : ℕ) (st : Store) (r : ℕ) (d : DirectTransmission)
        → IsBatchedIn st d
        → IsBatchedIn st (enqueue_event max_batch_size now st r d)
    unfolding enqueue_event add_to_batch key_of
    enqueue_event-IsBatchedIn now st r d h =
        let key = key_of (st r) in
        let b =
          get_or (get key_discrete key d.event_batches) (record { events = []; start_time = 0 }) in
        let w : IsWaiting st (key, b) =
          All-get_or (IsWaiting st) key (record { events = []; start_time = 0 }) d.event_batches h.0
            (tt, positive) in
        put_batch-IsBatchedIn st key (b.events ++ r ∷ []) _ d
          (All-++ (λ q. GoesTo key (st q)) b.events (r ∷ []) w.0 (refl, tt))
          (subst (λ n. n ≤ max_batch_size) (sym (length-snoc b.events r)) (below_suc _ w.1)) h

    dispatch_stale-IsBatchedIn :
        (st : Store) (timeout now : ℕ) (m : List (TransmitKey × EventBatch))
        → All (IsWaiting st) m
        → IsBatchedIn st (dispatch_stale timeout now m)
    unfolding dispatch_stale
    dispatch_stale-IsBatchedIn st timeout now [] h = (tt, tt)
    dispatch_stale-IsBatchedIn st timeout now ((k, b) ∷ m) h =
        let r = dispatch_stale-IsBatchedIn st timeout now m h.1 in
        if-IsBatchedIn st (is_stale timeout now b) _ _
          (λ e. (((tt, positive), r.0), ((at_most (length b.events) h.0.1, (k, h.0.0)), r.1)))
          (λ e. ((h.0, r.0), r.1))

    step-IsBatched :
        (e : Event) (x : Store × DirectTransmission)
        → IsRespectful e x
        → IsBatched x
        → IsBatched (step e x)
    unfolding tick
    step-IsBatched (enqueued now r) (st, d) c h = enqueue_event-IsBatchedIn now st r d h
    step-IsBatched (ticked timeout now) (st, d) c h =
        let r = dispatch_stale-IsBatchedIn st timeout now d.event_batches h.0 in
        (r.0, All-++ (IsOneBatch st) _ d.dispatched r.1 h.1)
    step-IsBatched (written r ev) (st, d) c h = write-IsBatchedIn r st ev d c h

    after-IsBatched :
        (es : List Event) (x : Store × DirectTransmission)
        → AreRespectful es x
        → IsBatched x
        → IsBatched (after es x)
    after-IsBatched [] x c h = h
    after-IsBatched (e ∷ es) x c h = after-IsBatched es (step e x) c.1 (step-IsBatched e x c.0 h)

    -- If the limit is positive and no caller changes the destination of an event that a waiting or a
    -- dispatched batch holds, then whatever is enqueued, whatever else is written to the events and whenever the ticks come,
    -- each batch that waits is below the limit and each that was dispatched is within it, and all
    -- events of a batch have one destination, which `sendBatch` reads from the first of them.
    pub after-new-IsBatched :
        (es : List Event) (st : Store) → AreRespectful es (st, new) → IsBatched (after es (st, new))
    unfolding new
    after-new-IsBatched es st c = after-IsBatched es (st, new) c (tt, tt)
