-- ===== src/Tests/Route.antt =====
-- The router, at concrete inputs.
use refinery.Base.{
  ℕ, ◌≡◌, refl, true, false, some, String, String_discrete, [], ◌∷◌, get_elem?, arith,
}
use refinery.GoMap
use refinery.GoMap.{is_some}
use refinery.Types.Value.{bool}
use refinery.Types.Payload.{read, meta_type, meta_get}
use refinery.Types.Span.{Span, set_field}
use refinery.Cache.Sent.{check_span}
use refinery.Cache.Cuckoo
use refinery.Generics.Set.{elem}
use refinery.Generics.SetTtl
use refinery.Collect.Immediate.{process_span_immediately}
use refinery.Rules.Condition.{equal_str}
use refinery.Sharder.{which_shard, my_shard_of}
use refinery.Stress.{get_sample_rate}
use refinery.Route.{Node, Setting, is_probe, process_event}
use refinery.Route.Sharing.{IsOwned, process_event-IsOwned, process_event-shares}
use refinery.Tests.Lists.{filter, lru}
use refinery.Tests.Collect.{cfg, hash, hash64, decisions, relief}
use refinery.Tests.Samples.{span}

abbrev seeded : String → ℕ → ℕ
seeded s n = 7

abbrev node : Node lru filter hash hash64 seeded
node = record {
  store = [];
  upstream = [];
  to_peers = [];
  incoming = [];
  from_peer = [];
  cache = decisions;
}

-- the one peer is another node
abbrev setting : Setting lru filter hash hash64 seeded
setting = record {
  now = 5;
  cfg = cfg;
  stress = record relief { sample_rate = 1 };
  stressed = true;
  sharder = record { my_shard = "a"; peers = "b" ∷ []; hashes = [] };
  queue_size = 1;
  is_incoming = true;
}

node-IsOwned : IsOwned lru filter hash hash64 seeded node
node-IsOwned = record { once = λ r. omega arith; stored = λ r h. refl }

process_event-IsOwned_example :
    IsOwned lru filter hash hash64 seeded
      (process_event lru filter hash hash64 seeded
        (record setting { stressed = false })
        node
        (some span)).0
process_event-IsOwned_example =
    process_event-IsOwned lru filter hash hash64 seeded (record setting { stressed = false }) node
      (some span) refl node-IsOwned

not_probe : is_probe (read span.payload "meta.refinery.probe") ≡ false
unfolding read meta_type meta_get String_discrete GoMap.get
not_probe = refl

has_id : equal_str span.trace_id "" ≡ false
unfolding String_discrete
has_id = refl

is_kept :
    is_some (process_span_immediately lru filter hash hash64 5 cfg setting.stress decisions span).1
    ≡ true
unfolding process_span_immediately get_sample_rate check_span String_discrete GoMap.get
    SetTtl.contains Cuckoo.check elem
is_kept = refl

goes_to_b : which_shard seeded setting.sharder "t1" ≡ some "b"
unfolding which_shard
goes_to_b = refl

is_foreign : equal_str "b" (my_shard_of setting.sharder) ≡ false
unfolding String_discrete my_shard_of
is_foreign = refl

process_event-shares_example :
    (let n' = (process_event lru filter hash hash64 seeded setting node (some span)).0 in
      (n'.upstream ≡ 0 ∷ [])
      × (n'.to_peers ≡ 0 ∷ [])
      × ((sp' : Span) × (get_elem? n'.store 0
            ≡ some (record (set_field sp' "meta.refinery.probe" (bool true)) { api_host = "b" }))))
process_event-shares_example =
    process_event-shares lru filter hash hash64 seeded setting node span "b" refl not_probe has_id
      is_kept goes_to_b is_foreign
