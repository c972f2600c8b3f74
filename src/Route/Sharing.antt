-- ===== src/Route/Sharing.antt =====
-- route/route.go: where an event goes, and which queues hold a reference to it.
use refinery.Base.{
  ℕ, ◌+◌, ◌≤◌, ◌<◌, ◌≡◌, refl, Bool, true, false, not, Option, none, some, String, List, [], ◌∷◌,
  ◌++◌, length, length-append, length-set, get_elem?, get_elem?-set_self, set, ltb, ◌==◌,
  if◌then◌else◌, arith,
}
use refinery.GoMap.{is_some}
use refinery.Deps.Filter.{CuckooFilter}
use refinery.Deps.Lru.{Lru}
use refinery.Types.Value.{bool}
use refinery.Types.Payload.{read}
use refinery.Types.Span.{Span, set_field}
use refinery.Collect.Immediate.{process_span_immediately}
use refinery.Rules.Condition.{equal_str}
use refinery.Rules.Reference.{if_both}
use refinery.Sharder.{which_shard, my_shard_of}
use refinery.Route.{
  Node, Setting, Outcome, is_probe, add_span, forward, after_immediate, process_span,
  process_extracted, process_event,
}

-- How often a queue holds a reference.
abbrev pub count : ℕ → List ℕ → ℕ
count r [] = 0
count r (x ∷ xs) = (if r == x then 1 else 0) + count r xs

count-snoc : (r x : ℕ) (q : List ℕ) → count r (q ++ x ∷ []) ≡ count r q + (if r == x then 1 else 0)
count-snoc r x [] = omega arith
count-snoc r x (y ∷ q) = omega (arith, count-snoc r x q)

some_of : {A : Type 0} (o : Option A) → is_some o ≡ true → (a : A) × (o ≡ some a)
some_of none h = cc
some_of (some a) h = (a, refl)

module _ (lru : Lru) (cf : CuckooFilter) (hash hash64 : String → ℕ) (seeded : String → ℕ → ℕ) where
  abbrev N : Type 0
  N = Node lru cf hash hash64 seeded

  abbrev S : Type 0
  S = Setting lru cf hash hash64 seeded

  -- How often the queues of a node hold a reference.
  abbrev pub total : N → ℕ → ℕ
  total n r = count r n.upstream + count r n.to_peers + count r n.incoming + count r n.from_peer

  -- No event is in two queues, or twice in one, and what the queues hold is in the store.
  pub record IsOwned (n : N) : Type 0 where
    pub once : (r : ℕ) → total n r ≤ 1
    pub stored : (r : ℕ) → length n.store ≤ r → total n r ≡ 0

  same-IsOwned :
      (n n' : N)
      → IsOwned n
      → length n.store ≤ length n'.store
      → ((r : ℕ) → total n' r ≡ total n r)
      → IsOwned n'
  same-IsOwned n n' o longer same = record {
    once = λ r. omega (arith, o.once r, same r);
    stored = λ r h. omega (arith, o.stored r (omega arith), same r);
  }

  one_more-IsOwned :
      (n n' : N)
      → IsOwned n
      → length n.store < length n'.store
      → ((r : ℕ) → total n' r ≡ total n r + (if r == length n.store then 1 else 0))
      → IsOwned n'
  one_more-IsOwned n n' o longer more = record {
    once = λ r. ground (arith, more r, o.once r, o.stored r);
    stored = λ r h. ground (arith, more r, o.stored r);
  }

  in_upstream-IsOwned :
      (n : N) (sp : Span)
      → IsOwned n
      → IsOwned
          (record n { store = n.store ++ sp ∷ []; upstream = n.upstream ++ length n.store ∷ [] })
  in_upstream-IsOwned n sp o =
      one_more-IsOwned n
        (record n { store = n.store ++ sp ∷ []; upstream = n.upstream ++ length n.store ∷ [] }) o
        (omega (arith, length-append n.store (sp ∷ [])))
        (λ r. omega (arith, count-snoc r (length n.store) n.upstream))

  add_span-IsOwned :
      (s : S) (n : N) (store : List Span)
      → IsOwned n
      → length n.store < length store
      → IsOwned
          (add_span lru cf hash hash64 seeded s (record n { store = store }) (length n.store)).0
  unfolding add_span
  add_span-IsOwned s n store o longer =
      let kept = same-IsOwned n (record n { store = store }) o (omega arith) (λ r. refl) in
      if_both (λ (x : N × Outcome). IsOwned x.0) s.is_incoming _ _
        (if_both (λ (x : N × Outcome). IsOwned x.0) (ltb (length n.incoming) s.queue_size) _ _
          (one_more-IsOwned n
            (record n { store = store; incoming = n.incoming ++ length n.store ∷ [] }) o longer
            (λ r. omega (arith, count-snoc r (length n.store) n.incoming)))
          kept)
        (if_both (λ (x : N × Outcome). IsOwned x.0) (ltb (length n.from_peer) s.queue_size) _ _
          (one_more-IsOwned n
            (record n { store = store; from_peer = n.from_peer ++ length n.store ∷ [] }) o longer
            (λ r. omega (arith, count-snoc r (length n.store) n.from_peer)))
          kept)

  forward-IsOwned :
      (s : S) (n : N) (store : List Span) (sp : Span) (o : Option String)
      → IsOwned n
      → length n.store < length store
      → IsOwned
          (forward lru cf hash hash64 seeded s
            (record n { store = store })
            (length n.store)
            sp
            false
            o).0
  unfolding forward
  forward-IsOwned s n store sp none o longer =
      same-IsOwned n (record n { store = store }) o (omega arith) (λ r. refl)
  forward-IsOwned s n store sp (some shard) o longer =
      if_both (λ (x : N × Outcome). IsOwned x.0) (not (equal_str shard (my_shard_of s.sharder))) _ _
        (one_more-IsOwned n
          (record n {
            store = set store (length n.store) (record sp { api_host = shard });
            to_peers = n.to_peers ++ length n.store ∷ [];
          })
          o (omega (arith, length-set store (length n.store) (record sp { api_host = shard })))
          (λ r. omega (arith, count-snoc r (length n.store) n.to_peers)))
        (add_span-IsOwned s n store o longer)

  calm_case :
      (b : Bool) (x y : N × Outcome) → b ≡ false → IsOwned y.0 → IsOwned (if b then x else y).0
  calm_case true x y e o = cc
  calm_case false x y e o = o

  extracted-IsOwned :
      (s : S) (n : N) (sp : Span)
      → s.stressed ≡ false
      → IsOwned n
      → IsOwned (process_extracted lru cf hash hash64 seeded s n sp).0
  unfolding process_extracted process_span
  extracted-IsOwned s n sp calm o =
      let longer : length n.store < length (n.store ++ sp ∷ []) =
        omega (arith, length-append n.store (sp ∷ [])) in
      if_both (λ (x : N × Outcome). IsOwned x.0) (is_probe (read sp.payload "meta.refinery.probe"))
        _ _ (same-IsOwned n (record n { store = n.store ++ sp ∷ [] }) o (omega arith) (λ r. refl))
        (if_both (λ (x : N × Outcome). IsOwned x.0) (equal_str sp.trace_id "") _ _
          (in_upstream-IsOwned n sp o)
          (calm_case s.stressed _ _ calm (
            forward-IsOwned s n (n.store ++ sp ∷ []) sp (which_shard seeded s.sharder sp.trace_id) o
              longer)))

  -- While there is no stress, an event is never in two queues, and never twice in one: if it holds of a
  -- node, then after `processEvent` of any event too, whatever the outcome, and every reference that
  -- a queue holds is in the store.
  pub process_event-IsOwned :
      (s : S) (n : N) (e : Option Span)
      → s.stressed ≡ false
      → IsOwned n
      → IsOwned (process_event lru cf hash hash64 seeded s n e).0
  unfolding process_event
  process_event-IsOwned s n none calm o = o
  process_event-IsOwned s n (some sp) calm o = extracted-IsOwned s n sp calm o

  shares_kept :
      (s : S) (n : N) (sp sp' : Span) (shard : String)
      → s.stressed ≡ true
      → is_probe (read sp.payload "meta.refinery.probe") ≡ false
      → equal_str sp.trace_id "" ≡ false
      → (process_span_immediately lru cf hash hash64 s.now s.cfg s.stress n.cache sp).1 ≡ some sp'
      → which_shard seeded s.sharder sp.trace_id ≡ some shard
      → equal_str shard (my_shard_of s.sharder) ≡ false
      → (let n' = (process_event lru cf hash hash64 seeded s n (some sp)).0 in
          let r = length n.store in
          (n'.upstream ≡ n.upstream ++ r ∷ [])
          × (n'.to_peers ≡ n.to_peers ++ r ∷ [])
          × (get_elem? n'.store r
              ≡ some
                  (record (set_field sp' "meta.refinery.probe" (bool true)) { api_host = shard })))
  unfolding process_event process_extracted process_span after_immediate forward
  shares_kept s n sp sp' shard stress plain traced now_kept target foreign =
      rw (plain, traced, stress, now_kept, target, foreign)
        (
          refl,
          refl,
          get_elem?-set_self
              (set (n.store ++ sp ∷ []) (length n.store)
                (set_field sp' "meta.refinery.probe" (bool true)))
              (length n.store) _
              (omega (
                arith,
                length-append n.store (sp ∷ []),
                length-set (n.store ++ sp ∷ []) (length n.store)
                    (set_field sp' "meta.refinery.probe" (bool true)),
              )),
        )

  -- Under stress, an event that is not a probe, whose trace id is not empty, that is kept, and that
  -- belongs to a peer, is in the queue upstream and in the queue to the peers, and as both hold the
  -- same reference, what upstream has waiting is marked as a probe and addressed to the peer.
  pub process_event-shares :
      (s : S) (n : N) (sp : Span) (shard : String)
      → s.stressed ≡ true
      → is_probe (read sp.payload "meta.refinery.probe") ≡ false
      → equal_str sp.trace_id "" ≡ false
      → is_some (process_span_immediately lru cf hash hash64 s.now s.cfg s.stress n.cache sp).1
        ≡ true
      → which_shard seeded s.sharder sp.trace_id ≡ some shard
      → equal_str shard (my_shard_of s.sharder) ≡ false
      → (let n' = (process_event lru cf hash hash64 seeded s n (some sp)).0 in
          let r = length n.store in
          (n'.upstream ≡ n.upstream ++ r ∷ [])
          × (n'.to_peers ≡ n.to_peers ++ r ∷ [])
          × ((sp' : Span) × (get_elem? n'.store r
                ≡ some (record (set_field sp' "meta.refinery.probe" (bool true)) {
                  api_host = shard;
                }))))
  process_event-shares s n sp shard stress plain traced now_kept target foreign =
      let (sp', e) =
        some_of (process_span_immediately lru cf hash hash64 s.now s.cfg s.stress n.cache sp).1
          now_kept in
      let (up, peers, there) = shares_kept s n sp sp' shard stress plain traced e target foreign in
      (up, peers, (sp', there))
