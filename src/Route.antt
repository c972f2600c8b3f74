-- ===== src/Route.antt =====
-- route/route.go: `processEvent`, with `AddSpan` and `AddSpanFromPeer` of collect/collect.go and
-- collect/collector_worker.go. Events are shared by reference: the store holds them, and the
-- transmissions and the collector hold positions in it. The queues of the workers are one, without
-- blocking. Metrics and logs are left out.
pub mod Sharing
use refinery.Base.{
  ℕ, suc, ◌+◌, Bool, true, false, ◌&&◌, ◌||◌, not, Option, none, some, String, String_discrete,
  List, [], ◌∷◌, ◌++◌, length, set, ltb, ite, if◌then◌else◌,
}
use refinery.Deps.Filter.{CuckooFilter}
use refinery.Deps.Lru.{Lru}
use refinery.Types.Value.{Value, bool}
use refinery.Types.Payload.{read}
use refinery.Types.Span.{Span, set_field}
use refinery.Cache.Sent.{SentCache}
use refinery.Stress.{StressRelief}
use refinery.Collect.Config.{Config}
use refinery.Collect.Immediate.{process_span_immediately}
use refinery.Rules.Condition.{equal_str}
use refinery.Sharder.{DeterministicSharder, which_shard, my_shard_of}

-- What a call comes to: `panicked` is a sharder with no peers.
pub data Outcome : Type 0 where
  accepted parse_error would_block panicked : Outcome

abbrev pub is_probe : Value → Bool
is_probe (bool true) = true
is_probe _ = false

module _ (lru : Lru) (cf : CuckooFilter) (hash hash64 : String → ℕ) (seeded : String → ℕ → ℕ) where
  pub record Node : Type 0 where
    pub store : List Span
    pub upstream : List ℕ
    pub to_peers : List ℕ
    pub incoming : List ℕ
    pub from_peer : List ℕ
    pub cache : SentCache lru cf hash

  -- What the router reads: the time, the configuration, the state of stress relief, the sharder, the
  -- size of each queue of the collector, and whether events come from outside.
  pub record Setting : Type 0 where
    pub now : ℕ
    pub cfg : Config
    pub stress : StressRelief
    pub stressed : Bool
    pub sharder : DeterministicSharder
    pub queue_size : ℕ
    pub is_incoming : Bool

  -- `addSpan` and `addSpanFromPeer` of a worker that does not block
  unfoldable pub add_span : Setting → Node → ℕ → Node × Outcome
  add_span s n r =
      if s.is_incoming
      then if ltb (length n.incoming) s.queue_size
        then (record n { incoming = n.incoming ++ r ∷ [] }, accepted)
        else (n, would_block)
      else if ltb (length n.from_peer) s.queue_size
      then (record n { from_peer = n.from_peer ++ r ∷ [] }, accepted)
      else (n, would_block)

  -- the event goes to a peer, or is handled here unless it is a probe
  unfoldable pub forward : Setting → Node → ℕ → Span → Bool → Option String → Node × Outcome
  unfolding add_span
  forward s n r sp probe none = (n, panicked)
  forward s n r sp probe (some shard) =
      if not (equal_str shard (my_shard_of s.sharder))
      then (
        record n {
          store = set n.store r (record sp { api_host = shard });
          to_peers = n.to_peers ++ r ∷ [];
        },
        accepted,
      )
      else if probe
      then (n, accepted)
      else add_span s n r

  -- under stress: the span was dropped, or sent upstream and goes on as a probe
  unfoldable pub after_immediate : Setting → Node → ℕ → String → Option Span → Node × Outcome
  unfolding forward
  after_immediate s n r trace_id none = (n, accepted)
  after_immediate s n r trace_id (some sp) =
      let probe = set_field sp "meta.refinery.probe" (bool true) in
      forward s (record n { store = set n.store r probe; upstream = n.upstream ++ r ∷ [] }) r probe
        true (which_shard seeded s.sharder trace_id)

  unfoldable pub process_span : Setting → Node → ℕ → Span → Node × Outcome
  unfolding forward after_immediate
  process_span s n r sp =
      if s.stressed
      then (let (c, kept) =
            process_span_immediately lru cf hash hash64 s.now s.cfg s.stress n.cache sp in
          after_immediate s (record n { cache = c }) r sp.trace_id kept)
      else forward s n r sp false (which_shard seeded s.sharder sp.trace_id)

  -- the event is stored, and then told apart
  unfoldable pub process_extracted : Setting → Node → Span → Node × Outcome
  unfolding process_span
  process_extracted s n sp =
      let r = length n.store in
      let stored = record n { store = n.store ++ sp ∷ [] } in
      if is_probe (read sp.payload "meta.refinery.probe")
      then (stored, accepted)
      else if equal_str sp.trace_id ""
      then (record stored { upstream = n.upstream ++ r ∷ [] }, accepted)
      else process_span s stored r sp

  -- `processEvent`; `none` is an event whose metadata cannot be extracted
  unfoldable pub process_event : Setting → Node → Option Span → Node × Outcome
  unfolding process_extracted
  process_event s n none = (n, parse_error)
  process_event s n (some sp) = process_extracted s n sp
